-- ===== src/Bridge/Flash.antt =====
-- The C functions over the NVS handles and partition tables of the instances,
-- core/bridge/src/flash_ffi.rs, with the registry of live handles of core/board/src/nvs.rs. A call
-- that writes takes what the host's file system does at each write, and the outcome `none` is a
-- panic. An output pointer is whether it is null, and what was written through it is a result.
pub mod Writes
pub mod Removes
pub mod Opened
pub mod Stored
pub mod Reads
use project_mycelium.Common.{
  ℕ, ◌+◌, ◌-◌, min, Bool, true, false, not, ◌&&◌, ◌||◌, ◌==◌, String, List, [], ◌∷◌, length, Option,
  none, some, if◌then◌else◌,
}
use project_mycelium.Common.Store.{lookup, insert, remove}
use project_mycelium.Board.Nvs
use project_mycelium.Board.Nvs.{
  VirtualNvs, NvsValue, bool, string, PersistedNvs, HostRead, HostWrite, with_size,
  set_partition_size, begin, end, put, remove_key, byte_len, standalone_nvs_size, launcher_nvs_size,
}
use project_mycelium.Board.Partition
use project_mycelium.Board.Partition.{
  VirtualPartitionTable, VirtualPartition, Registry, register_partition_table, get_partition_table,
  find_first, otadata_address, is_under_launcher,
}

-- A C string argument: a null pointer, bytes that are not UTF-8, or a text.
pub data CString : Type 0 where
  null invalid : CString
  utf8 : String → CString

-- `NVS_INSTANCES`, and the partition tables.
pub record Flash : Type 0 where
  pub nvs : List (String × VirtualNvs)
  pub partitions : Registry

unfoldable pub ffi_string_allow_empty : CString → Option String
ffi_string_allow_empty null = none
ffi_string_allow_empty invalid = none
ffi_string_allow_empty (utf8 s) = some s

unfoldable pub ffi_string : CString → Option String
ffi_string null = none
ffi_string invalid = none
ffi_string (utf8 s) = if byte_len s == 0 then none else some s

unfoldable pub nvs_args : CString → CString → CString → Option (String × String × String)
unfolding ffi_string
nvs_args instance_id namespace key = elim (ffi_string instance_id) [
  | none ↦ none
  | some i ↦ elim (ffi_string namespace) [
    | none ↦ none
    | some n ↦ elim (ffi_string key) [ none ↦ none | some k ↦ some (i, n, k) ]
  ]
]

-- `register_nvs`: `read` is what opening the backing file gives.
unfoldable pub register_nvs : HostRead → Flash → String → ℕ → Flash × Bool
register_nvs read f id size = elim (lookup id f.nvs) [
  | some handle ↦
      let (handle', done) = set_partition_size handle size in
      (record f { nvs = insert id handle' f.nvs }, done)
  | none ↦ elim (with_size id size read) [
    | none ↦ (f, false)
    | some handle ↦ (record f { nvs = insert id handle f.nvs }, true)
  ]
]

unfoldable pub remove_nvs : Flash → String → Flash × Option VirtualNvs
remove_nvs f id = (record f { nvs = remove id f.nvs }, lookup id f.nvs)

unfoldable pub nvs_init : HostRead → Flash → CString → ℕ → Flash × Bool
unfolding ffi_string register_nvs
nvs_init read f instance_id size = elim (ffi_string instance_id) [
  | none ↦ (f, false)
  | some id ↦ register_nvs read f id size
]

unfoldable pub nvs_destroy : Flash → CString → Flash × Bool
unfolding ffi_string remove_nvs
nvs_destroy f instance_id = elim (ffi_string instance_id) [
  | none ↦ (f, false)
  | some id ↦
      let (f', handle) = remove_nvs f id in elim handle [ none ↦ (f', false) | some h ↦ (f', true) ]
]

unfoldable pub partition_set_launcher_mode : HostRead → Flash → CString → Bool → Flash × Bool
unfolding ffi_string register_nvs
partition_set_launcher_mode read f instance_id enabled = elim (ffi_string instance_id) [
  | none ↦ (f, false)
  | some id ↦
      let (f', done) =
        register_nvs read f id (if enabled then launcher_nvs_size else standalone_nvs_size) in
      if not done
      then (f', false)
      else (record f' { partitions = register_partition_table f'.partitions id enabled }, true)
]

-- Address and size, if both pointers can be written through, and whether there is a partition.
unfoldable pub write_partition_result :
    VirtualPartitionTable → ℕ → ℕ → Bool → Bool → Option (ℕ × ℕ) × Bool
write_partition_result table partition_type subtype address_null size_null =
    if address_null || size_null
    then (none, false)
    else elim (find_first table partition_type subtype) [
      | none ↦ (some (0, 0), false)
      | some p ↦ (some (p.address, p.size), true)
    ]

unfoldable pub partition_find_first : Flash → ℕ → ℕ → Bool → Bool → Option (ℕ × ℕ) × Bool
unfolding write_partition_result
partition_find_first f partition_type subtype address_null size_null =
    write_partition_result f.partitions.active partition_type subtype address_null size_null

unfoldable pub partition_find_first_for_instance :
    Flash → CString → ℕ → ℕ → Bool → Bool → Option (ℕ × ℕ) × Bool
unfolding ffi_string write_partition_result
partition_find_first_for_instance f instance_id partition_type subtype address_null size_null =
    elim (ffi_string instance_id) [
      | none ↦ (none, false)
      | some id ↦ elim (get_partition_table f.partitions id) [
        | none ↦ (none, false)
        | some table ↦ write_partition_result table partition_type subtype address_null size_null
      ]
    ]

unfoldable pub get_otadata_address : Flash → ℕ
get_otadata_address f = elim (otadata_address f.partitions.active) [ none ↦ 0 | some a ↦ a ]

unfoldable pub under_launcher : Flash → CString → Bool
unfolding ffi_string
under_launcher f instance_id = elim (ffi_string instance_id) [
  | none ↦ false
  | some id ↦ elim (get_partition_table f.partitions id) [
    | none ↦ false
    | some table ↦ is_under_launcher table
  ]
]

module _ (encoded_len : PersistedNvs → Option ℕ) where
  -- A handle opened for reading, which writes no file, what `read` gives of it or the default, and closed again.
  unfoldable pub reading {ℓ} :
      {A : Type ℓ} → VirtualNvs → String → A → (VirtualNvs → A) → VirtualNvs × A
  reading handle namespace default read =
      let (opened, done) = begin encoded_len HostWrite.succeeds handle namespace true in
      (end opened, if done then read opened else default)

  -- The same on the handle of an instance.
  unfoldable pub on_reading {ℓ} :
      {A : Type ℓ} → Flash → CString → CString → CString → A → (VirtualNvs → String → A) → Flash × A
  unfolding nvs_args reading
  on_reading f instance_id namespace key default read = elim (nvs_args instance_id namespace key) [
    | none ↦ (f, default)
    | some (i, n, k) ↦ elim (lookup i f.nvs) [
      | none ↦ (f, default)
      | some handle ↦
          let (handle', value) = reading handle n default (λ h. read h k) in
          (record f { nvs = insert i handle' f.nvs }, value)
    ]
  ]

  unfoldable pub nvs_exists : Flash → CString → CString → CString → Flash × Bool
  unfolding on_reading
  nvs_exists f instance_id namespace key =
      on_reading f instance_id namespace key false (λ h k. Nvs.exists h k)

  unfoldable pub nvs_get_bool : Flash → CString → CString → CString → Bool → Flash × Bool
  unfolding on_reading
  nvs_get_bool f instance_id namespace key default =
      on_reading f instance_id namespace key default (λ h k. Nvs.get_bool h k default)

  -- The call with a default and a buffer. What the buffer holds is a text and how many of its bytes
  -- stand before the terminator.
  unfoldable pub get_string_of :
      Flash → CString → CString → CString → String → Bool → ℕ → Flash × Option (String × ℕ) × ℕ
  unfolding nvs_args on_reading
  get_string_of f instance_id namespace key default writable buffer_len =
      elim (nvs_args instance_id namespace key) [
        | none ↦ (f, if writable then some ("", 0) else none, 0)
        | some args ↦
            let (f', value) =
              on_reading f instance_id namespace key default (λ h k. Nvs.get_string h k default) in
            (
              f',
              if writable then some (value, min (byte_len value) (buffer_len - 1)) else none,
              byte_len value,
            )
      ]

  unfoldable pub nvs_get_string :
      Flash → CString → CString → CString → CString → Bool → ℕ → Flash × Option (String × ℕ) × ℕ
  unfolding get_string_of
  nvs_get_string f instance_id namespace key default buffer_null buffer_len =
      let writable = not buffer_null && not (buffer_len == 0) in
      if buffer_null && not (buffer_len == 0) then (f, none, 0) else elim default [
        | null ↦ get_string_of f instance_id namespace key "" writable buffer_len
        | invalid ↦ (f, if writable then some ("", 0) else none, 0)
        | utf8 s ↦ get_string_of f instance_id namespace key s writable buffer_len
      ]

  -- A handle opened for writing, a write to it, and closed again.
  unfoldable pub writing :
      HostWrite
      → VirtualNvs
      → String
      → (VirtualNvs → Option (VirtualNvs × Bool))
      → Option (VirtualNvs × Bool)
  writing host handle namespace write =
      let (opened, done) = begin encoded_len host handle namespace false in
      if not done then some (end opened, false) else elim (write opened) [
        | none ↦ none
        | some (written, success) ↦ some (end written, success)
      ]

  unfoldable pub on_writing :
      HostWrite
      → Flash
      → CString
      → CString
      → CString
      → (VirtualNvs → String → Option (VirtualNvs × Bool))
      → Option (Flash × Bool)
  unfolding nvs_args writing
  on_writing host f instance_id namespace key write = elim (nvs_args instance_id namespace key) [
    | none ↦ some (f, false)
    | some (i, n, k) ↦ elim (lookup i f.nvs) [
      | none ↦ some (f, false)
      | some handle ↦ elim (writing host handle n (λ h. write h k)) [
        | none ↦ none
        | some (handle', success) ↦ some (record f { nvs = insert i handle' f.nvs }, success)
      ]
    ]
  ]

  unfoldable pub nvs_put_bool :
      HostWrite → HostWrite → Flash → CString → CString → CString → Bool → Option (Flash × Bool)
  unfolding on_writing
  nvs_put_bool host host' f instance_id namespace key value =
      on_writing host f instance_id namespace key (λ h k. put encoded_len host' h k (bool value))

  -- The arguments are looked at before the value.
  unfoldable pub nvs_put_string :
      HostWrite → HostWrite → Flash → CString → CString → CString → CString → Option (Flash × Bool)
  unfolding on_writing ffi_string_allow_empty
  nvs_put_string host host' f instance_id namespace key value =
      elim (ffi_string_allow_empty value) [
        | none ↦ some (f, false)
        | some s ↦
            on_writing host f instance_id namespace key
              (λ h k. put encoded_len host' h k (string s))
      ]

  unfoldable pub nvs_remove :
      HostWrite → HostWrite → Flash → CString → CString → CString → Option (Flash × Bool)
  unfolding on_writing
  nvs_remove host host' f instance_id namespace key =
      on_writing host f instance_id namespace key (λ h k. remove_key encoded_len host' h k)
