-- ===== src/Storage/Spiffs/Valid.antt =====
-- The bytes of the SPIFFS partition and its size: an invariant of the calls of
-- core/storage/src/spiffs.rs.
pub mod Calls
use project_mycelium.Common.{
  ℕ, zero, suc, ◌+◌, ◌-◌, ◌≤◌, ◌<◌, ◌≡◌, refl, ◌∙◌, min, max, Bool, true, not, ◌||◌, ◌==◌, retain,
  List, [], ◌∷◌, length, length-set, length-replicate, take, Option, none, some, String, arith,
  if◌then◌else◌, if_both, if_known, option_both, Option-cases, inl, inr,
}
use project_mycelium.Common.Word.{u64_max, sat_add64}
use project_mycelium.Common.Result.{ok, is_ok, result_both}
use project_mycelium.Common.Store.{lookup, insert, remove}
use project_mycelium.Storage.Spiffs.{
  Entry, file, directory, symlink, HostDirectory, HostFormat, formats, not_created, not_removed,
  is_there, HostWrite, completes, not_opened, stops_after, VirtualSpiffs, div_ceil, create_dir,
  mount, unmount, entry_of, resolve_filename, sum_entries, used_bytes_of, ensure_mounted,
}
use project_mycelium.Storage.Spiffs.Files.{
  format, leave, size_of, touch_blocks, put_entry, drop_entry, host_write, host_remove, fits,
  record_write, write_fitting, write_file, delete_file,
}

-- The bytes of all files.
unfoldable pub file_bytes : List (String × Entry) → ℕ
file_bytes [] = 0
file_bytes ((name, file bytes) ∷ rest) = length bytes + file_bytes rest
file_bytes ((name, directory size) ∷ rest) = file_bytes rest
file_bytes ((name, symlink) ∷ rest) = file_bytes rest

-- What an entry counts for.
abbrev counted : Option Entry → ℕ
counted (some (file bytes)) = length bytes
counted _ = 0

unfoldable pub bytes_in : HostDirectory → ℕ
bytes_in base = elim base.entries [ none ↦ 0 | some entries ↦ file_bytes entries ]

-- The number of erase blocks.
unfoldable pub blocks : VirtualSpiffs → ℕ
blocks s = if s.block_size == 0 then 0 else div_ceil s.partition_size s.block_size

-- The files fit the partition, whose size is below the largest 64-bit word, and each block has its counter.
abbrev pub IsValid : VirtualSpiffs → Type 0
IsValid s =
    (bytes_in s.base ≤ s.partition_size)
    × (s.partition_size < u64_max)
    × (length s.write_cycles ≡ blocks s)

file_bytes-insert :
    (name : String) (bytes : List ℕ) (entries : List (String × Entry))
    → file_bytes (insert name (file bytes) entries) + counted (lookup name entries)
      ≡ file_bytes entries + length bytes
unfolding file_bytes insert lookup
file_bytes-insert name bytes [] = omega arith
file_bytes-insert name bytes ((at, file old) ∷ rest) =
    ground (arith, file_bytes-insert name bytes rest)
file_bytes-insert name bytes ((at, directory size) ∷ rest) =
    ground (arith, file_bytes-insert name bytes rest)
file_bytes-insert name bytes ((at, symlink) ∷ rest) =
    ground (arith, file_bytes-insert name bytes rest)

file_bytes-remove :
    (name : String) (entries : List (String × Entry))
    → file_bytes (remove name entries) ≤ file_bytes entries
unfolding file_bytes remove
file_bytes-remove name [] = omega arith
file_bytes-remove name ((at, file old) ∷ rest) = ground (arith, file_bytes-remove name rest)
file_bytes-remove name ((at, directory size) ∷ rest) = ground (arith, file_bytes-remove name rest)
file_bytes-remove name ((at, symlink) ∷ rest) = ground (arith, file_bytes-remove name rest)

sum_entries-file_bytes :
    (used total : ℕ) (entries : List (String × Entry))
    → used ≤ u64_max
    → sum_entries used entries ≡ ok total
    → total ≡ min (used + file_bytes entries) u64_max
unfolding sum_entries file_bytes
sum_entries-file_bytes used total [] h e = grind arith
sum_entries-file_bytes used total ((at, file bytes) ∷ rest) h e =
    let tail = sum_entries-file_bytes (sat_add64 used (length bytes)) total rest (omega arith) e in
    omega (arith, tail)
sum_entries-file_bytes used total ((at, directory size) ∷ rest) h e =
    sum_entries-file_bytes used total rest h e
sum_entries-file_bytes used total ((at, symlink) ∷ rest) h e = cc

used_bytes_of-bytes_in :
    (s : VirtualSpiffs) (used : ℕ) → IsValid s → used_bytes_of s ≡ ok used → used ≡ bytes_in s.base
unfolding used_bytes_of ensure_mounted bytes_in
used_bytes_of-bytes_in s used v e = elim (Option-cases s.base.entries) [
  | inl empty ↦ ground (arith, empty)
  | inr (entries, some_) ↦
      let sum = sum_entries-file_bytes 0 used entries (omega arith) in ground (arith, some_, sum)
]

length-touch_blocks :
    (start offset n : ℕ) (cycles : List ℕ)
    → length (touch_blocks start offset n cycles) ≡ length cycles
unfolding touch_blocks
length-touch_blocks start offset zero cycles = refl
length-touch_blocks start offset (suc n) cycles =
    length-touch_blocks start (suc offset) n _ ∙ length-set cycles _ _

length-take_le : (n : ℕ) (bytes : List ℕ) → length (take n bytes) ≤ length bytes
length-take_le zero bytes = omega arith
length-take_le (suc n) [] = omega arith
length-take_le (suc n) (b ∷ bytes) = omega (arith, length-take_le n bytes)

bytes_in-put_entry :
    (base : HostDirectory) (name : String) (bytes : List ℕ)
    → bytes_in (put_entry base name (file bytes)) + counted (entry_of base name)
      ≤ bytes_in base + length bytes
unfolding bytes_in put_entry entry_of
bytes_in-put_entry base name bytes = elim (Option-cases base.entries) [
  | inl empty ↦ ground (arith, empty)
  | inr (entries, e) ↦ ground (arith, e, file_bytes-insert name bytes entries)
]

bytes_in-drop_entry :
    (base : HostDirectory) (name : String) → bytes_in (drop_entry base name) ≤ bytes_in base
unfolding bytes_in drop_entry
bytes_in-drop_entry base name = elim (Option-cases base.entries) [
  | inl empty ↦ ground (arith, empty)
  | inr (entries, e) ↦ ground (arith, e, file_bytes-remove name entries)
]

-- A write of the host takes the place of what the name counted for.
bytes_in-host_write :
    (base : HostDirectory) (name : String) (bytes : List ℕ) (h : HostWrite) (limit : ℕ)
    → bytes_in base ≤ limit
    → bytes_in base - size_of (entry_of base name) + length bytes ≤ limit
    → bytes_in ((host_write base name bytes h).0) ≤ limit
unfolding host_write size_of
bytes_in-host_write base name bytes completes limit before after =
    ground (arith, bytes_in-put_entry base name bytes)
bytes_in-host_write base name bytes not_opened limit before after = ground arith
bytes_in-host_write base name bytes (stops_after n) limit before after =
    ground (arith, bytes_in-put_entry base name (take n bytes), length-take_le n bytes)

record_write-IsValid :
    (hash : String → ℕ) (s : VirtualSpiffs) (name : String) (changed : ℕ)
    → IsValid s
    → IsValid (record_write hash s name changed)
unfolding record_write blocks
record_write-IsValid hash s name changed (a, b, e) =
    if_both IsValid (length s.write_cycles == 0) (a, b, e)
      (a, b, length-touch_blocks _ _ _ s.write_cycles ∙ e)

-- The state that a call leaves, beside its result.
abbrev pub Kept {ℓ} : {A : Type ℓ} → VirtualSpiffs × A → Type 0
Kept r = IsValid (r.0)

write_fitting-IsValid :
    (hash : String → ℕ) (s : VirtualSpiffs) (name : String) (bytes : List ℕ) (h : HostWrite)
    → IsValid s
    → bytes_in s.base - size_of (entry_of s.base name) + length bytes ≤ s.partition_size
    → Kept (write_fitting hash s name bytes h)
unfolding write_fitting blocks
write_fitting-IsValid hash s name bytes h (a, b, e) room =
    let base : HostDirectory = (host_write s.base name bytes h).0 in
    let left : VirtualSpiffs = record s { base = base } in
    let left-IsValid : IsValid left =
      (bytes_in-host_write s.base name bytes h s.partition_size a room, b, e) in
    let worn = max (size_of (entry_of s.base name)) (length bytes) in
    if_both Kept ((host_write s.base name bytes h).1)
      (record_write-IsValid hash left name worn left-IsValid) left-IsValid

fits-room :
    (s : VirtualSpiffs) (used old_size new_size : ℕ)
    → s.partition_size < u64_max
    → fits s used old_size new_size ≡ true
    → used - old_size + new_size ≤ s.partition_size
unfolding fits
fits-room s used old_size new_size b e = ground arith

write_file-IsValid :
    (hash : String → ℕ) (s : VirtualSpiffs) (path : String) (bytes : List ℕ) (h : HostWrite)
    → IsValid s
    → Kept (write_file hash s path bytes h)
unfolding write_file
write_file-IsValid hash s path bytes h v =
    result_both Kept (resolve_filename s path) (λ e at. v)
      (λ name at.
        result_both Kept (used_bytes_of s) (λ e sum. v)
          (λ used sum.
            let old_size = size_of (entry_of s.base name) in
            let all_used = used_bytes_of-bytes_in s used v sum in
            if_known Kept (fits s used old_size (length bytes))
              (λ room.
                write_fitting-IsValid hash s name bytes h v
                  (omega (arith, fits-room s used old_size (length bytes) v.1 room, all_used)))
              (λ full. v)))

bytes_in-host_remove :
    (base : HostDirectory) (name : String) (removable : Bool)
    → bytes_in ((host_remove base name removable).0) ≤ bytes_in base
unfolding host_remove
bytes_in-host_remove base name removable = ground (arith, bytes_in-drop_entry base name)

delete_file-IsValid :
    (hash : String → ℕ) (s : VirtualSpiffs) (path : String) (removable : Bool)
    → IsValid s
    → Kept (delete_file hash s path removable)
unfolding delete_file blocks
delete_file-IsValid hash s path removable v =
    result_both Kept (resolve_filename s path) (λ e at. v)
      (λ name at. option_both Kept (entry_of s.base name) v (λ entry there.
        let base : HostDirectory = (host_remove s.base name removable).0 in
        let left : VirtualSpiffs = record s { base = base } in
        let less = bytes_in-host_remove s.base name removable in
        let left-IsValid : IsValid left = (omega (arith, less, v.0), v.1, v.2) in
        if_both Kept ((host_remove s.base name removable).1)
          (record_write-IsValid hash left name (size_of (some entry)) left-IsValid) v))

bytes_in-create_dir : (base : HostDirectory) → bytes_in (create_dir base) ≡ bytes_in base
unfolding bytes_in create_dir file_bytes
bytes_in-create_dir base = ground arith

mount-IsValid : (s : VirtualSpiffs) (creatable : Bool) → IsValid s → Kept (mount s creatable)
unfolding mount blocks
mount-IsValid s creatable v =
    let (a, b, e) = v in
    let same = bytes_in-create_dir s.base in
    if_both Kept (s.partition_size == 0 || s.block_size == 0) v (
      if_both Kept (not s.base.is_safe) v
        (if_both Kept (is_there s.base || creatable) (omega (arith, same, a), b, e) v))

file_bytes-retain :
    (p : String × Entry → Bool) (entries : List (String × Entry))
    → file_bytes (retain p entries) ≤ file_bytes entries
unfolding file_bytes
file_bytes-retain p [] = omega arith
file_bytes-retain p ((at, file bytes) ∷ rest) = ground (arith, file_bytes-retain p rest)
file_bytes-retain p ((at, directory size) ∷ rest) = ground (arith, file_bytes-retain p rest)
file_bytes-retain p ((at, symlink) ∷ rest) = ground (arith, file_bytes-retain p rest)

bytes_in-leave :
    (kept : String → Bool) (base : HostDirectory) → bytes_in (leave kept base) ≤ bytes_in base
unfolding bytes_in leave
bytes_in-leave kept base = elim (Option-cases base.entries) [
  | inl gone ↦ ground (arith, gone)
  | inr (entries, e) ↦ ground (arith, e, file_bytes-retain (λ entry. kept entry.0) entries)
]

format-IsValid : (s : VirtualSpiffs) (h : HostFormat) → IsValid s → Kept (format s h)
unfolding format bytes_in blocks file_bytes
format-IsValid s formats (a, b, e) =
    if_both Kept (not s.base.is_safe) (a, b, e)
      (omega arith, b, length-replicate (length s.write_cycles) 0 ∙ e)
format-IsValid s not_created (a, b, e) =
    if_both Kept (not s.base.is_safe) (a, b, e) (omega arith, b, e)
format-IsValid s (not_removed kept) (a, b, e) =
    if_both Kept (not s.base.is_safe) (a, b, e)
      (if_both Kept (is_there s.base) (omega (arith, bytes_in-leave kept s.base, a), b, e)
        (omega arith, b, length-replicate (length s.write_cycles) 0 ∙ e))
