-- ===== src/Board/Nvs/Calls.antt =====
-- Any sequence of calls on an NVS handle.
use project_mycelium.Common.{
  ℕ, ◌≡◌, refl, inl, Bool, String, List, [], ◌∷◌, Option, none, some, arith,
}
use project_mycelium.Board.Nvs.{
  NvsValue, PersistedNvs, VirtualNvs, HostRead, HostWrite, with_size, set_partition_size, put,
  begin, end, remove_key,
}
use project_mycelium.Board.Nvs.Put.{IsConsistent}
use project_mycelium.Board.Nvs.Consistent.{
  Shape-IsConsistent, begin-Shape, same-IsConsistent, put-some, remove-some,
}

pub data Call : Type 0 where
  begins : String → Bool → Call
  ends : Call
  resizes : ℕ → Call
  puts : String → NvsValue → Call
  removes : String → Call

module _ (encoded_len : PersistedNvs → Option ℕ) where
  unfoldable pub step : HostWrite → Call → VirtualNvs → Option VirtualNvs
  step host (begins namespace read_only) nvs =
      some (begin encoded_len host nvs namespace read_only).0
  step host ends nvs = some (end nvs)
  step host (resizes size) nvs = some (set_partition_size nvs size).0
  step host (puts key value) nvs = elim (put encoded_len host nvs key value) [
    | none ↦ none
    | some r ↦ some r.0
  ]
  step host (removes key) nvs = elim (remove_key encoded_len host nvs key) [
    | none ↦ none
    | some r ↦ some r.0
  ]

  unfoldable pub run : List (HostWrite × Call) → VirtualNvs → Option VirtualNvs
  run [] nvs = some nvs
  run ((host, call) ∷ calls) nvs = elim (step host call nvs) [
    | none ↦ none
    | some after ↦ run calls after
  ]

  step-some :
      (host : HostWrite) (call : Call) (nvs : VirtualNvs)
      → IsConsistent nvs
      → (after : VirtualNvs) × (step host call nvs ≡ some after) × IsConsistent after
  unfolding step end set_partition_size
  step-some host (begins namespace read_only) nvs h = (
    (begin encoded_len host nvs namespace read_only).0,
    refl,
    Shape-IsConsistent encoded_len (begin encoded_len host nvs namespace read_only).0
        (begin-Shape encoded_len host nvs namespace read_only),
  )
  step-some host ends nvs h = (_, refl, tt)
  step-some host (resizes size) nvs h = (
    (set_partition_size nvs size).0,
    refl,
    same-IsConsistent encoded_len nvs (set_partition_size nvs size).0 (ground arith) (ground arith)
        h,
  )
  step-some host (puts key value) nvs h =
      let (a, e, k) = put-some encoded_len host nvs key value h in (a.0, rw (e, step) refl, k)
  step-some host (removes key) nvs h =
      let (a, e, k) = remove-some encoded_len host nvs key h in (a.0, rw (e, step) refl, k)

  run-kept :
      (calls : List (HostWrite × Call)) (nvs : VirtualNvs)
      → IsConsistent nvs
      → (after : VirtualNvs) × (run calls nvs ≡ some after) × IsConsistent after
  unfolding run
  run-kept [] nvs h = (nvs, refl, h)
  run-kept ((host, call) ∷ calls) nvs h =
      let (next, e, k) = step-some host call nvs h in
      let (after, e', k') = run-kept calls next k in (after, rw (e, run) e', k')

  -- From a new handle, no sequence of calls panics, whatever the host's file system does at each of
  -- them, and a namespace that is open is one of those stored.
  pub run-IsConsistent :
      (calls : List (HostWrite × Call)) (instance_id : String) (size : ℕ) (read : HostRead)
      (nvs : VirtualNvs)
      → with_size instance_id size read ≡ some nvs
      → (after : VirtualNvs) × (run calls nvs ≡ some after) × IsConsistent after
  unfolding with_size
  run-IsConsistent calls id size read nvs e =
      let closed : nvs.open_namespace ≡ none = ground (arith, e) in
      run-kept calls nvs (Shape-IsConsistent encoded_len nvs (inl closed))
