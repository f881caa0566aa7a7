-- ===== src/Storage/Spiffs/Valid/Calls.antt =====
-- The invariant of the SPIFFS partition over any sequence of the calls of
-- core/storage/src/spiffs.rs, with the host's answers.
use project_mycelium.Common.{ℕ, Bool, true, List, [], ◌∷◌, String}
use project_mycelium.Common.Result.{is_ok}
use project_mycelium.Storage.Spiffs.{HostWrite, HostFormat, VirtualSpiffs, mount, unmount}
use project_mycelium.Storage.Spiffs.Files.{format, write_file, delete_file}
use project_mycelium.Storage.Spiffs.Valid.{
  write_file-IsValid, delete_file-IsValid, mount-IsValid, format-IsValid, blocks, IsValid, Kept,
}

-- One call, with the host's answers.
pub data Call : Type 0 where
  mount_it : Bool → Call
  unmount_it : Call
  format_it : HostFormat → Call
  write : String → List ℕ → HostWrite → Call
  delete : String → Bool → Call

module _ (hash : String → ℕ) where
  -- The state after a call, and whether it succeeds.
  unfoldable pub call : VirtualSpiffs → Call → VirtualSpiffs × Bool
  call s (mount_it creatable) = (let (s', r) = mount s creatable in (s', is_ok r))
  call s unmount_it = (unmount s, true)
  call s (format_it h) = (let (s', r) = format s h in (s', is_ok r))
  call s (write path bytes h) = (let (s', r) = write_file hash s path bytes h in (s', is_ok r))
  call s (delete path removable) =
      (let (s', r) = delete_file hash s path removable in (s', is_ok r))

  unfoldable pub run : VirtualSpiffs → List Call → VirtualSpiffs
  run s [] = s
  run s (k ∷ ks) = run ((call s k).0) ks

  call-IsValid : (s : VirtualSpiffs) (k : Call) → IsValid s → Kept (call s k)
  unfolding call unmount blocks
  call-IsValid s (mount_it creatable) v = mount-IsValid s creatable v
  call-IsValid s unmount_it v = v
  call-IsValid s (format_it h) v = format-IsValid s h v
  call-IsValid s (write path bytes h) v = write_file-IsValid hash s path bytes h v
  call-IsValid s (delete path removable) v = delete_file-IsValid hash s path removable v

  -- From a partition whose size is below the largest 64-bit word, whose files fit it and which has
  -- one wear counter for each erase block, any calls leave one of which the same holds, whatever the
  -- host answers to mounting, formatting, writing and deleting: mounting and formatting that fail,
  -- also after removing some files, and writes that stop in the middle included.
  pub run-IsFitting : (ks : List Call) (s : VirtualSpiffs) → IsValid s → IsValid (run s ks)
  unfolding run
  run-IsFitting [] s v = v
  run-IsFitting (k ∷ ks) s v = run-IsFitting ks ((call s k).0) (call-IsValid s k v)
