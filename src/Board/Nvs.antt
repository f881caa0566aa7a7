-- ===== src/Board/Nvs.antt =====
-- Non-volatile storage, core/board/src/nvs.rs. The JSON text of the namespaces is not modelled: its
-- length (or a failure to encode) is the parameter `encoded_len`. Each call that writes takes what
-- the host's file system does, and the backing file is a field. A panic is `none`.
pub mod Put
pub mod Consistent
pub mod Calls
use Prim.Native.Char.{Char, code}
use project_mycelium.Common.{
  ℕ, ◌+◌, ◌*◌, Bool, true, false, not, ◌&&◌, ◌||◌, ◌==◌, ltb, leb, String, List, [], ◌∷◌, Option,
  none, some, if◌then◌else◌,
}
use mathlib.Core.Option
use text.Mathlib.Text.{◌==◌ as str_eq}
use project_mycelium.Common.Store.{lookup, has, insert, remove}

abbrev pub standalone_nvs_size : ℕ
standalone_nvs_size = 0x5000

abbrev pub launcher_nvs_size : ℕ
launcher_nvs_size = 0x4000

abbrev pub nvs_name_max_bytes : ℕ
nvs_name_max_bytes = 15

pub data NvsValue : Type 0 where
  bool : Bool → NvsValue
  string : String → NvsValue

-- The values of a namespace, and the namespaces of a partition (`PersistedNvs`).
abbrev pub Values : Type 0
Values = List (String × NvsValue)

abbrev pub PersistedNvs : Type 0
PersistedNvs = List (String × Values)

pub record OpenNamespace : Type 0 where
  pub name : String
  pub read_only : Bool

-- `backing` is the content of the file at `backing_path`, if it is there.
pub record VirtualNvs : Type 0 where
  pub partition_size : ℕ
  pub backing : Option PersistedNvs
  pub persisted : PersistedNvs
  pub open_namespace : Option OpenNamespace

-- How writing the file ends: before the rename, after it (`set_private_file` fails), or well.
pub data HostWrite : Type 0 where
  fails_before_rename fails_after_rename succeeds : HostWrite

utf8_len : ℕ → ℕ
utf8_len c = if ltb c 0x80 then 1 else if ltb c 0x800 then 2 else if ltb c 0x10000 then 3 else 4

-- `str::len`.
unfoldable pub byte_len : String → ℕ
unfolding utf8_len
byte_len String.[] = 0
byte_len (String.◌∷◌ c s) = utf8_len (code c) + byte_len s

unfoldable pub has_nul : String → Bool
has_nul String.[] = false
has_nul (String.◌∷◌ c s) = code c == 0 || has_nul s

unfoldable pub valid_name : String → Bool
valid_name value =
    not (byte_len value == 0) && leb (byte_len value) nvs_name_max_bytes && not (has_nul value)

-- What opening the backing file gives: no file, its namespaces, or an error (of the host, of the
-- JSON text, or of securing the file).
pub data HostRead : Type 0 where
  not_found unreadable : HostRead
  decoded : PersistedNvs → HostRead

-- `at_backing_path`; `none` is an error.
unfoldable pub with_size : String → ℕ → HostRead → Option VirtualNvs
with_size instance_id partition_size read =
    if byte_len instance_id == 0 || partition_size == 0 then none else elim read [
      | unreadable ↦ none
      | not_found ↦ some record {
        partition_size = partition_size;
        backing = none;
        persisted = [];
        open_namespace = none;
      }
      | decoded saved ↦ some record {
        partition_size = partition_size;
        backing = some saved;
        persisted = saved;
        open_namespace = none;
      }
    ]

unfoldable pub set_partition_size : VirtualNvs → ℕ → VirtualNvs × Bool
set_partition_size nvs size =
    if size == 0 then (nvs, false) else (record nvs { partition_size = size }, true)

unfoldable pub end : VirtualNvs → VirtualNvs
end nvs = record nvs { open_namespace = none }

unfoldable pub open_values : VirtualNvs → Option Values
open_values nvs = elim nvs.open_namespace [
  | none ↦ none
  | some namespace ↦ lookup namespace.name nvs.persisted
]

unfoldable pub open_value : VirtualNvs → String → Option NvsValue
open_value nvs key =
    if valid_name key
    then elim (open_values nvs) [ none ↦ none | some values ↦ lookup key values ]
    else none

unfoldable pub exists : VirtualNvs → String → Bool
exists nvs key =
    valid_name key && elim (open_values nvs) [ none ↦ false | some values ↦ has key values ]

unfoldable pub get_bool : VirtualNvs → String → Bool → Bool
get_bool nvs key default = elim (open_value nvs key) [ some (bool value) ↦ value | _ ↦ default ]

unfoldable pub get_string : VirtualNvs → String → String → String
get_string nvs key default = elim (open_value nvs key) [ some (string value) ↦ value | _ ↦ default ]

unfoldable pub can_write : VirtualNvs → Bool
can_write nvs = elim nvs.open_namespace [ none ↦ false | some namespace ↦ not namespace.read_only ]

module _ (encoded_len : PersistedNvs → Option ℕ) where
  unfoldable pub fits_partition : VirtualNvs → Bool
  fits_partition nvs = elim (encoded_len nvs.persisted) [
    | none ↦ false
    | some len ↦ leb len nvs.partition_size
  ]

  -- The backing file afterwards, and whether `persist` returned `Ok`.
  unfoldable pub persist : HostWrite → VirtualNvs → VirtualNvs × Bool
  persist host nvs =
      if fits_partition nvs
      then elim host [
        | fails_before_rename ↦ (nvs, false)
        | fails_after_rename ↦ (record nvs { backing = some nvs.persisted }, false)
        | succeeds ↦ (record nvs { backing = some nvs.persisted }, true)
      ]
      else (nvs, false)

  -- `if !self.fits_partition() || self.persist().is_err() { self.persisted = previous; .. }`.
  unfoldable pub commit : HostWrite → PersistedNvs → VirtualNvs → VirtualNvs × Bool
  commit host previous nvs =
      let (nvs', saved) = persist host nvs in
      if not (fits_partition nvs)
      then (record nvs { persisted = previous }, false)
      else if not saved
      then (record nvs' { persisted = previous }, false)
      else (nvs', true)

  unfoldable pub begin : HostWrite → VirtualNvs → String → Bool → VirtualNvs × Bool
  begin host nvs namespace read_only =
      let opened : VirtualNvs → VirtualNvs = λ n. record n {
        open_namespace = some (record { name = namespace; read_only = read_only });
      } in
      if not (valid_name namespace)
      then (end nvs, false)
      else if has namespace nvs.persisted
      then (opened nvs, true)
      else if read_only
      then (end nvs, false)
      else let (nvs', saved) =
          commit host nvs.persisted
            (record nvs { persisted = insert namespace [] nvs.persisted }) in
        if saved then (opened nvs', true) else (end nvs', false)

  unfoldable pub put : HostWrite → VirtualNvs → String → NvsValue → Option (VirtualNvs × Bool)
  put host nvs key value =
      if not (valid_name key) || not (can_write nvs)
      then some (nvs, false)
      else elim nvs.open_namespace [
        | none ↦ none
        | some namespace ↦ elim (lookup namespace.name nvs.persisted) [
          | none ↦ none
          | some values ↦ some (
              commit host nvs.persisted (record nvs {
                persisted = insert namespace.name (insert key value values) nvs.persisted;
              }))
        ]
      ]

  -- The rest of `remove`, once the key is gone from `values`.
  unfoldable pub removed : HostWrite → VirtualNvs → String → Values → VirtualNvs × Bool
  removed host nvs namespace values =
      let (nvs', saved) =
        persist host (record nvs { persisted = insert namespace values nvs.persisted }) in
      if saved then (nvs', true) else (record nvs' { persisted = nvs.persisted }, false)

  unfoldable pub remove_key : HostWrite → VirtualNvs → String → Option (VirtualNvs × Bool)
  remove_key host nvs key =
      if not (valid_name key) || not (can_write nvs)
      then some (nvs, false)
      else elim nvs.open_namespace [
        | none ↦ none
        | some namespace ↦ elim (lookup namespace.name nvs.persisted) [
          | none ↦ some (nvs, false)
          | some values ↦
              if has key values
              then some (removed host nvs namespace.name (remove key values))
              else some (nvs, false)
        ]
      ]

  -- The sizes that Arduino's Preferences reports.
  unfoldable pub put_bool : HostWrite → VirtualNvs → String → Bool → Option (VirtualNvs × ℕ)
  put_bool host nvs key value =
      Option.map (λ r. (r.0, if r.1 then 1 else 0)) (put host nvs key (bool value))

  unfoldable pub put_string : HostWrite → VirtualNvs → String → String → Option (VirtualNvs × ℕ)
  put_string host nvs key value =
      Option.map (λ r. (r.0, if r.1 then byte_len value else 0)) (put host nvs key (string value))
