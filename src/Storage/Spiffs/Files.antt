-- ===== src/Storage/Spiffs/Files.antt =====
-- The files of the partition: reading, writing and deleting them, and formatting, in
-- core/storage/src/spiffs.rs.

use project_mycelium.Common.{
  ℕ, zero, suc, ◌+◌, ◌-◌, ◌%◌, max, Bool, true, false, not, ◌==◌, leb, List, [], retain, length,
  get_or, set, take, replicate, Option, none, some, String, if◌then◌else◌,
}
use project_mycelium.Common.Word.{sat_add64}
use project_mycelium.Common.Result.{Result, ok, err, Done}
use project_mycelium.Common.Store.{insert, remove}
use project_mycelium.Storage.Spiffs.{
  IoError, Entry, HostDirectory, HostWrite, HostFormat, formats, not_created, not_removed, is_there,
  VirtualSpiffs, div_ceil, entry_of, resolve_filename, used_bytes_of, invalid_input, storage_full,
  not_found, host, file, directory, completes, not_opened, stops_after,
}

-- `metadata().len()`, or 0.
unfoldable pub size_of : Option Entry → ℕ
size_of (some (file bytes)) = length bytes
size_of (some (directory size)) = size
size_of _ = 0

-- The loop over the touched blocks.
unfoldable pub touch_blocks : ℕ → ℕ → ℕ → List ℕ → List ℕ
touch_blocks start offset zero cycles = cycles
touch_blocks start offset (suc n) cycles =
    let block = (start + offset) % length cycles in
    touch_blocks start (suc offset) n (set cycles block (sat_add64 (get_or cycles block 0) 1))

unfoldable pub put_entry : HostDirectory → String → Entry → HostDirectory
put_entry base name entry = record base {
  entries = elim base.entries [ none ↦ none | some entries ↦ some (insert name entry entries) ];
}

unfoldable pub drop_entry : HostDirectory → String → HostDirectory
drop_entry base name = record base {
  entries = elim base.entries [ none ↦ none | some entries ↦ some (remove name entries) ];
}

-- `fs::write`, and whether it succeeds. A directory cannot be opened for writing.
unfoldable pub host_write : HostDirectory → String → List ℕ → HostWrite → HostDirectory × Bool
host_write base name bytes h = elim (entry_of base name) [
  | some (directory _) ↦ (base, false)
  | _ ↦ elim h [
    | completes ↦ (put_entry base name (file bytes), true)
    | not_opened ↦ (base, false)
    | stops_after n ↦ (put_entry base name (file (take n bytes)), false)
  ]
]

-- `fs::remove_file`; `removable` is the host's answer for a file.
unfoldable pub host_remove : HostDirectory → String → Bool → HostDirectory × Bool
host_remove base name removable = elim (entry_of base name) [
  | some (file _) ↦ if removable then (drop_entry base name, true) else (base, false)
  | _ ↦ (base, false)
]

unfoldable pub read_file : VirtualSpiffs → String → Result IoError (List ℕ)
read_file s path = elim (resolve_filename s path) [
  | err e ↦ err e
  | ok name ↦ elim (entry_of s.base name) [
    | none ↦ err not_found
    | some (file bytes) ↦ ok bytes
    | some _ ↦ err host
  ]
]

-- The capacity test of `write_file`, for the bytes used before and the old and new size.
unfoldable pub fits : VirtualSpiffs → ℕ → ℕ → ℕ → Bool
fits s used old_size new_size = leb (sat_add64 (used - old_size) new_size) s.partition_size

-- Each name's place among the blocks.
module _ (hash : String → ℕ) where
  unfoldable pub record_write : VirtualSpiffs → String → ℕ → VirtualSpiffs
  record_write s filename changed_bytes = if length s.write_cycles == 0 then s else record s {
    write_cycles =
        touch_blocks (hash filename % length s.write_cycles) 0
          (div_ceil (max changed_bytes 1) s.block_size) s.write_cycles;
  }

  -- The host's write, then the wear.
  unfoldable pub write_fitting :
      VirtualSpiffs → String → List ℕ → HostWrite → VirtualSpiffs × Done IoError
  write_fitting s name bytes h =
      let old_size = size_of (entry_of s.base name) in
      let (base, written) = host_write s.base name bytes h in
      if written
      then (record_write (record s { base = base }) name (max old_size (length bytes)), ok tt)
      else (record s { base = base }, err host)

  unfoldable pub write_file :
      VirtualSpiffs → String → List ℕ → HostWrite → VirtualSpiffs × Done IoError
  write_file s path bytes h = elim (resolve_filename s path) [
    | err e ↦ (s, err e)
    | ok name ↦ elim (used_bytes_of s) [
      | err e ↦ (s, err e)
      | ok used ↦
          if fits s used (size_of (entry_of s.base name)) (length bytes)
          then write_fitting s name bytes h
          else (s, err storage_full)
    ]
  ]

  unfoldable pub delete_file : VirtualSpiffs → String → Bool → VirtualSpiffs × Done IoError
  delete_file s path removable = elim (resolve_filename s path) [
    | err e ↦ (s, err e)
    | ok name ↦ elim (entry_of s.base name) [
      | none ↦ (s, err not_found)
      | some entry ↦
          let (base, removed) = host_remove s.base name removable in
          if removed
          then (record_write (record s { base = base }) name (size_of (some entry)), ok tt)
          else (s, err host)
    ]
  ]

-- `fs::remove_dir_all` where it fails: what is left of the entries.
unfoldable pub leave : (String → Bool) → HostDirectory → HostDirectory
leave kept base = record base {
  entries = elim base.entries [
    | none ↦ none
    | some entries ↦ some (retain (λ entry. kept entry.0) entries)
  ];
}

formatted : VirtualSpiffs → VirtualSpiffs
formatted s = record s {
  base = record (s.base) { entries = some [] };
  write_cycles = replicate (length s.write_cycles) 0;
  mounted = true;
}

-- A directory that is not there is not removed.
unfoldable pub format : VirtualSpiffs → HostFormat → VirtualSpiffs × Done IoError
unfolding formatted leave
format s h = if not s.base.is_safe then (s, err invalid_input) else elim h [
  | formats ↦ (formatted s, ok tt)
  | not_created ↦ (record s { base = record (s.base) { entries = none } }, err host)
  | not_removed kept ↦
      if is_there s.base
      then (record s { base = leave kept s.base }, err host)
      else (formatted s, ok tt)
]
