-- ===== src/Storage/Spiffs/ReadBack.antt =====
-- What `read_file` of core/storage/src/spiffs.rs gives, in itself and after a write.
use project_mycelium.Common.{
  ℕ, ◌≡◌, ◌∙◌, ap, subst, max, length, true, List, none, some, String, arith, if◌then◌else◌,
  if_both, if_known,
}
use text.Mathlib.Text.{◌==◌ as str_eq}
use text.Mathlib.TextEquality.{eq_iff}
use project_mycelium.Common.Result.{ok, err, Done, result_both}
use project_mycelium.Common.Store.{lookup-insert}
use project_mycelium.Storage.Spiffs.{
  IoError, Entry, file, HostDirectory, HostWrite, completes, not_opened, stops_after, VirtualSpiffs,
  strip_slash, entry_of, resolve_filename, used_bytes_of, ensure_mounted,
}
use project_mycelium.Storage.Spiffs.Files.{
  size_of, put_entry, host_write, fits, record_write, write_fitting, write_file, read_file,
}
use project_mycelium.Storage.Spiffs.Refines.{
  contents, resolve_filename-name, used_bytes_of-entries, base-record_write,
}

-- A name that resolves is read with the bytes that the partition's files hold under it, and reading
-- fails exactly where they hold none.
pub read_file-contents :
    (s : VirtualSpiffs) (path name : String)
    → resolve_filename s path ≡ ok name
    → elim (read_file s path) [ ok bytes ↦ some bytes | err e ↦ none ] ≡ contents s.base name
unfolding read_file contents
read_file-contents s path name e = ground (arith, e)

-- What a reading looks at.
read_file-eq :
    (s t : VirtualSpiffs) (path : String)
    → s.mounted ≡ t.mounted
    → s.base.is_safe ≡ t.base.is_safe
    → entry_of s.base (strip_slash path) ≡ entry_of t.base (strip_slash path)
    → read_file s path ≡ read_file t path
unfolding read_file resolve_filename ensure_mounted
read_file-eq s t path a b e = ground (arith, a, b, e)

-- What a successful write leaves.
abbrev Written : VirtualSpiffs → String → List ℕ → VirtualSpiffs → Type 0
Written s name bytes after =
    (after.mounted ≡ s.mounted)
    × (after.base.is_safe ≡ s.base.is_safe)
    × ((at : String)
        → entry_of after.base at
          ≡ (if str_eq name at then some (file bytes) else entry_of s.base at))

entry_of-put_entry :
    (base : HostDirectory) (name at : String) (entry : Entry) (there : List (String × Entry))
    → base.entries ≡ some there
    → entry_of (put_entry base name entry) at
      ≡ (if str_eq name at then some entry else entry_of base at)
unfolding put_entry entry_of
entry_of-put_entry base name at entry there e = ground (arith, e, lookup-insert name at entry there)

record_write-mounted :
    (hash : String → ℕ) (s : VirtualSpiffs) (name : String) (changed : ℕ)
    → (record_write hash s name changed).mounted ≡ s.mounted
unfolding record_write
record_write-mounted hash s name changed = ground arith

-- A call that is reported to succeed leaves the bytes under the name.
abbrev Leaves : VirtualSpiffs → String → List ℕ → VirtualSpiffs × Done IoError → Type 0
Leaves s name bytes (after, ok done) = Written s name bytes after
Leaves s name bytes (after, err e) = Unit

host_write-put_entry :
    (base : HostDirectory) (name : String) (bytes : List ℕ) (h : HostWrite)
    → (host_write base name bytes h).1 ≡ true
    → (host_write base name bytes h).0 ≡ put_entry base name (file bytes)
unfolding host_write
host_write-put_entry base name bytes completes done = ground arith
host_write-put_entry base name bytes not_opened done = ground arith
host_write-put_entry base name bytes (stops_after n) done = ground arith

write_fitting-Leaves :
    (hash : String → ℕ) (s : VirtualSpiffs) (name : String) (bytes : List ℕ) (h : HostWrite)
    (there : List (String × Entry))
    → s.base.entries ≡ some there
    → Leaves s name bytes (write_fitting hash s name bytes h)
unfolding write_fitting put_entry
write_fitting-Leaves hash s name bytes h there e =
    let written = host_write s.base name bytes h in
    let left : VirtualSpiffs = record s { base = written.0 } in
    let worn = max (size_of (entry_of s.base name)) (length bytes) in
    if_known (Leaves s name bytes) (written.1)
      (λ done.
        let put = host_write-put_entry s.base name bytes h done in
        let base = base-record_write hash left name worn ∙ put in
        (
          record_write-mounted hash left name worn,
          ap (λ b. b.is_safe) base,
          λ at.
              ap (λ b. entry_of b at) base ∙ entry_of-put_entry s.base name at (file bytes) there e,
        ))
      (λ failed. tt)

write_file-Leaves :
    (hash : String → ℕ) (s : VirtualSpiffs) (path : String) (bytes : List ℕ) (h : HostWrite)
    → Leaves s (strip_slash path) bytes (write_file hash s path bytes h)
unfolding write_file
write_file-Leaves hash s path bytes h =
    let P = Leaves s (strip_slash path) bytes in
    result_both P (resolve_filename s path) (λ e stop. tt)
      (λ name go.
        result_both P (used_bytes_of s) (λ e stop. tt)
          (λ used sum.
            let (there, e) = used_bytes_of-entries hash s used sum in
            let same = resolve_filename-name s path name go in
            let written =
              subst (λ n. Leaves s n bytes (write_fitting hash s name bytes h)) same
                (write_fitting-Leaves hash s name bytes h there e) in
            if_both P (fits s used (size_of (entry_of s.base name)) (length bytes)) written tt))

read_file-file :
    (s after : VirtualSpiffs) (path other name : String) (bytes : List ℕ)
    → resolve_filename s path ≡ ok name
    → strip_slash path ≡ strip_slash other
    → after.mounted ≡ s.mounted
    → after.base.is_safe ≡ s.base.is_safe
    → entry_of after.base (strip_slash other) ≡ some (file bytes)
    → read_file after other ≡ ok bytes
unfolding read_file resolve_filename ensure_mounted
read_file-file s after path other name bytes go same mounted is_safe there =
    ground (arith, go, same, mounted, is_safe, there)

-- After a write to a name that resolves, if it is reported to succeed, the name is read with the
-- bytes that were written, with or without a leading slash, and any other name is read as before.
pub read_file-write_file :
    (hash : String → ℕ) (s after : VirtualSpiffs) (path other name : String) (bytes : List ℕ)
    (h : HostWrite)
    → resolve_filename s path ≡ ok name
    → write_file hash s path bytes h ≡ (after, ok tt)
    → read_file after other
      ≡ (if str_eq (strip_slash path) (strip_slash other) then ok bytes else read_file s other)
read_file-write_file hash s after path other name bytes h go done =
    let (mounted, is_safe, entries) =
      subst (Leaves s (strip_slash path) bytes) done (write_file-Leaves hash s path bytes h) in
    let there = entries (strip_slash other) in
    if_known (λ r. read_file after other ≡ r) (str_eq (strip_slash path) (strip_slash other))
      (λ same.
        read_file-file s after path other name bytes go
          ((eq_iff (strip_slash path) (strip_slash other)).0 same) mounted is_safe
          (ground (arith, there, same)))
      (λ apart. read_file-eq after s other mounted is_safe (ground (arith, there, apart)))
