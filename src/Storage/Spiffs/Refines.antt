-- ===== src/Storage/Spiffs/Refines.antt =====
-- The SPIFFS partition as a flat map from names to bytes: the calls of core/storage/src/spiffs.rs
-- replayed on it.
use project_mycelium.Common.{
  ℕ, ◌≡◌, refl, sym, ◌∙◌, ap, Bool, true, false, List, [], ◌∷◌, All, Option, none, some, String,
  arith, if◌then◌else◌, if_both, option_both, subst, max, length, Option-cases, inl, inr,
}
use mathlib.Core.Path.{fun_ext}
use text.Mathlib.Text.{◌==◌ as str_eq}
use project_mycelium.Common.Result.{ok, Done, is_ok, result_both}
use project_mycelium.Common.Store.{lookup, lookup-insert, lookup-remove}
use project_mycelium.Storage.Spiffs.{
  IoError, Entry, file, HostDirectory, HostFormat, formats, not_created, not_removed, HostWrite,
  completes, not_opened, stops_after, VirtualSpiffs, create_dir, mount, unmount, strip_slash,
  entry_of, resolve_filename, used_bytes_of, ensure_mounted,
}
use project_mycelium.Storage.Spiffs.Files.{
  format, size_of, put_entry, drop_entry, host_write, host_remove, fits, record_write,
  write_fitting, write_file, delete_file,
}
use project_mycelium.Storage.Spiffs.Valid.Calls.{
  Call, mount_it, unmount_it, format_it, write, delete, call, run,
}

-- The abstract store.
abbrev pub Flat : Type 0
Flat = String → Option (List ℕ)

abbrev pub bytes_of : Option Entry → Option (List ℕ)
bytes_of (some (file bytes)) = some bytes
bytes_of _ = none

unfoldable pub contents : HostDirectory → Flat
contents base at = bytes_of (entry_of base at)

-- What a call that succeeds (or fails) does to the abstract store.
unfoldable pub replay_call : Flat → Call → Bool → Flat
replay_call m (format_it h) true at = none
replay_call m (write path bytes h) true at =
    if str_eq (strip_slash path) at then some bytes else m at
replay_call m (delete path removable) true at = if str_eq (strip_slash path) at then none else m at
replay_call m _ _ at = m at

unfoldable pub replay : Flat → List (Call × Bool) → Flat
replay m [] = m
replay m ((k, done) ∷ rest) = replay (replay_call m k done) rest

-- The host does not stop in the middle of a write or of a formatting.
abbrev pub is_whole : Call → Bool
is_whole (write path bytes (stops_after n)) = false
is_whole (format_it not_created) = false
is_whole (format_it (not_removed kept)) = false
is_whole _ = true

contents-put_entry :
    (base : HostDirectory) (name at : String) (bytes : List ℕ) (there : List (String × Entry))
    → base.entries ≡ some there
    → contents (put_entry base name (file bytes)) at
      ≡ (if str_eq name at then some bytes else contents base at)
unfolding contents put_entry entry_of
contents-put_entry base name at bytes there e =
    ground (arith, e, lookup-insert name at (file bytes) there)

contents-drop_entry :
    (base : HostDirectory) (name at : String)
    → contents (drop_entry base name) at ≡ (if str_eq name at then none else contents base at)
unfolding contents drop_entry entry_of
contents-drop_entry base name at = elim (Option-cases base.entries) [
  | inl empty ↦ ground (arith, empty)
  | inr (there, e) ↦ ground (arith, e, lookup-remove name at there)
]

pub resolve_filename-name :
    (s : VirtualSpiffs) (path name : String)
    → resolve_filename s path ≡ ok name
    → name ≡ strip_slash path
unfolding resolve_filename
resolve_filename-name s path name e = ground arith

contents-create_dir :
    (base : HostDirectory) (at : String) → contents (create_dir base) at ≡ contents base at
unfolding contents create_dir entry_of lookup
contents-create_dir base at = ground arith

module _ (hash : String → ℕ) where
  -- The calls with what each answers.
  unfoldable pub log : VirtualSpiffs → List Call → List (Call × Bool)
  log s [] = []
  log s (k ∷ ks) = (k, (call hash s k).1) ∷ log ((call hash s k).0) ks

  contents-mount :
      (s : VirtualSpiffs) (creatable : Bool) (at : String)
      → contents (((mount s creatable).0).base) at ≡ contents s.base at
  unfolding mount
  contents-mount s creatable at = ground (arith, contents-create_dir s.base at)

  contents-format :
      (s : VirtualSpiffs) (h : HostFormat) (at : String)
      → is_whole (format_it h) ≡ true
      → contents (((format s h).0).base) at
        ≡ replay_call (contents s.base) (format_it h) (is_ok ((format s h).1)) at
  unfolding format contents entry_of replay_call lookup
  contents-format s formats at whole = ground arith
  contents-format s not_created at whole = cc
  contents-format s (not_removed kept) at whole = cc

  -- The host's directory after a call is the replay of the call on the one before it.
  abbrev Replays : VirtualSpiffs → Call → String → VirtualSpiffs × Done IoError → Type 0
  Replays s k at r = contents ((r.0).base) at ≡ replay_call (contents s.base) k (is_ok (r.1)) at

  pub base-record_write :
      (s : VirtualSpiffs) (name : String) (changed : ℕ)
      → (record_write hash s name changed).base ≡ s.base
  unfolding record_write
  base-record_write s name changed = ground arith

  pub used_bytes_of-entries :
      (s : VirtualSpiffs) (used : ℕ)
      → used_bytes_of s ≡ ok used
      → (there : List (String × Entry)) × (s.base.entries ≡ some there)
  unfolding used_bytes_of ensure_mounted
  used_bytes_of-entries s used e = elim (Option-cases s.base.entries) [
    | inl empty ↦ absurd (ground (arith, empty))
    | inr found ↦ found
  ]

  write_fitting-Replays :
      (s : VirtualSpiffs) (path at : String) (bytes : List ℕ) (h : HostWrite)
      (there : List (String × Entry))
      → s.base.entries ≡ some there
      → is_whole (write path bytes h) ≡ true
      → Replays s (write path bytes h) at (write_fitting hash s (strip_slash path) bytes h)
  unfolding write_fitting host_write replay_call
  write_fitting-Replays s path at bytes completes there e whole =
      let name = strip_slash path in
      let put = contents-put_entry s.base name at bytes there e in
      let worn = max (size_of (entry_of s.base name)) (length bytes) in
      let left : VirtualSpiffs = record s { base = put_entry s.base name (file bytes) } in
      let kept = base-record_write left name worn in ground (arith, put, kept)
  write_fitting-Replays s path at bytes not_opened there e whole = ground arith
  write_fitting-Replays s path at bytes (stops_after n) there e whole = cc

  write_file-Replays :
      (s : VirtualSpiffs) (path at : String) (bytes : List ℕ) (h : HostWrite)
      → is_whole (write path bytes h) ≡ true
      → Replays s (write path bytes h) at (write_file hash s path bytes h)
  unfolding write_file replay_call
  write_file-Replays s path at bytes h whole =
      let P = Replays s (write path bytes h) at in
      result_both P (resolve_filename s path) (λ e stop. refl)
        (λ name go.
          result_both P (used_bytes_of s) (λ e stop. refl)
            (λ used sum.
              let (there, e) = used_bytes_of-entries s used sum in
              let written =
                subst (λ n. P (write_fitting hash s n bytes h))
                  (sym (resolve_filename-name s path name go))
                  (write_fitting-Replays s path at bytes h there e whole) in
              if_both P (fits s used (size_of (entry_of s.base name)) (length bytes)) written refl))

  delete_file-Replays :
      (s : VirtualSpiffs) (path at : String) (removable : Bool)
      → Replays s (delete path removable) at (delete_file hash s path removable)
  unfolding delete_file replay_call host_remove
  delete_file-Replays s path at removable =
      let P = Replays s (delete path removable) at in
      result_both P (resolve_filename s path) (λ e stop. refl)
        (λ name go. option_both P (entry_of s.base name) refl (λ entry there.
          let same = resolve_filename-name s path name go in
          let dropped = contents-drop_entry s.base name at in
          let left : VirtualSpiffs = record s { base = drop_entry s.base name } in
          let kept = base-record_write left name (size_of (some entry)) in
          ground (arith, same, there, dropped, kept)))

  call-replay_call :
      (s : VirtualSpiffs) (k : Call) (at : String)
      → is_whole k ≡ true
      → contents (((call hash s k).0).base) at
        ≡ replay_call (contents s.base) k ((call hash s k).1) at
  unfolding call replay_call unmount
  call-replay_call s (mount_it creatable) at whole = ground (arith, contents-mount s creatable at)
  call-replay_call s unmount_it at whole = refl
  call-replay_call s (format_it h) at whole = contents-format s h at whole
  call-replay_call s (write path bytes h) at whole = write_file-Replays s path at bytes h whole
  call-replay_call s (delete path removable) at whole = delete_file-Replays s path at removable

  -- After any calls in which the host stops no write and no formatting in the middle, the
  -- partition's files are those of the abstract map on which the calls that succeeded are replayed: a write puts its bytes under
  -- the name, a deletion removes the name, formatting removes all names, and nothing else counts.
  pub run-replay :
      (ks : List Call) (s : VirtualSpiffs)
      → All (λ k. is_whole k ≡ true) ks
      → contents ((run hash s ks).base) ≡ replay (contents s.base) (log s ks)
  unfolding run replay log
  run-replay [] s whole = refl
  run-replay (k ∷ ks) s (first, whole) =
      let s' = (call hash s k).0 in
      let step : contents (s'.base) ≡ replay_call (contents s.base) k ((call hash s k).1) =
        fun_ext (λ at. call-replay_call s k at first) in
      run-replay ks s' whole ∙ ap (λ m. replay m (log s' ks)) step
