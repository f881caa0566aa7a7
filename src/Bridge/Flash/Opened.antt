-- ===== src/Bridge/Flash/Opened.antt =====
-- The write of one key to a handle that is opened for it and closed again, as the writing calls of
-- core/bridge/src/flash_ffi.rs do.
use project_mycelium.Common.{
  ℕ, ◌≡◌, refl, sym, ◌∙◌, ap, ◌⊎◌, inl, inr, Bool, true, false, ◌&&◌, Bool-cases, String, Option,
  none, some, if◌then◌else◌, arith,
}
use text.Mathlib.Text.{◌==◌ as str_eq}
use project_mycelium.Board.Nvs.{
  VirtualNvs, NvsValue, PersistedNvs, HostWrite, begin, end, put, remove_key,
}
use project_mycelium.Board.Nvs.Put.{IsConsistent}
use project_mycelium.Board.Nvs.Consistent.{put-some, remove-some, begin-Shape, Shape-IsConsistent}
use project_mycelium.Bridge.Flash.{writing}
use project_mycelium.Bridge.Flash.Removes.{remove-read_at, remove-read_file, remove-backing}
use project_mycelium.Bridge.Flash.Writes.{
  read_at, begin-read_at, put-read_at, read_file, MayHold, begin-read_file, put-read_file,
  put-backing,
}

-- What a write of a key makes of a handle, and its result: in memory only the key has another
-- value, and on success the file holds what memory does.
abbrev pub Written : VirtualNvs → String → String → Option NvsValue → VirtualNvs × Bool → Type 0
Written before namespace key value r =
    ((n k : String)
      → read_at r.0.persisted n k ≡ (
          if r.1 && (str_eq namespace n && str_eq key k)
          then value
          else read_at before.persisted n k))
    × ((n k : String)
        → MayHold (str_eq namespace n && str_eq key k) value (read_file before.backing n k)
            (read_at before.persisted n k) (read_file r.0.backing n k))
    × ((n k : String)
        → (if r.1 then read_file r.0.backing n k else read_at r.0.persisted n k)
          ≡ read_at r.0.persisted n k)

-- What a write to an open namespace does: it returns, and only the key has another value.
abbrev pub Writes :
    (VirtualNvs → Option (VirtualNvs × Bool)) → String → String → Option NvsValue → Type 0
Writes write namespace key value =
    (opened : VirtualNvs)
    → opened.open_namespace ≡ some (record { name = namespace; read_only = false })
    → IsConsistent opened
    → (r : VirtualNvs × Bool) × (write opened ≡ some r) × Written opened namespace key value r

-- The file holds what memory does, if the result says so.
in_file :
    (handle : VirtualNvs) (done : Bool) (n k : String)
    → (done ≡ true → handle.backing ≡ some handle.persisted)
    → (if done then read_file handle.backing n k else read_at handle.persisted n k)
      ≡ read_at handle.persisted n k
unfolding read_file
in_file handle true n k h = ap (λ o. read_file o n k) (h refl)
in_file handle false n k h = refl

-- A file that was written before the write of the key.
MayHold-after :
    (written : Bool) (value in_file in_memory opened_file opened_memory after : Option NvsValue)
    → (opened_file ≡ in_file) ⊎ (opened_file ≡ in_memory)
    → opened_memory ≡ in_memory
    → MayHold written value opened_file opened_memory after
    → MayHold written value in_file in_memory after
MayHold-after written value f m f' m' after (inl same) h (inl e) = inl (e ∙ same)
MayHold-after written value f m f' m' after (inr new) h (inl e) = inr (inl (e ∙ new))
MayHold-after written value f m f' m' after c h (inr (inl e)) = inr (inl (e ∙ h))
MayHold-after written value f m f' m' after c h (inr (inr named)) = inr (inr named)

pub MayHold-same :
    (written written' : Bool) (value f f' m m' after after' : Option NvsValue)
    → f' ≡ f
    → m' ≡ m
    → after' ≡ after
    → (written ≡ true → written' ≡ true)
    → MayHold written value f m after
    → MayHold written' value f' m' after'
MayHold-same written written' value f f' m m' after after' ef em ea h (inl e) =
    inl (ea ∙ e ∙ sym ef)
MayHold-same written written' value f f' m m' after after' ef em ea h (inr (inl e)) =
    inr (inl (ea ∙ e ∙ sym em))
MayHold-same written written' value f f' m m' after after' ef em ea h (inr (inr (w, e))) =
    inr (inr (h w, ea ∙ e))

module _ (encoded_len : PersistedNvs → Option ℕ) where
  pub put-Writes :
      (host : HostWrite) (namespace key : String) (value : NvsValue)
      → Writes (λ h. put encoded_len host h key value) namespace key (some value)
  put-Writes host namespace key value opened at h =
      let (r, e, v) = put-some encoded_len host opened key value h in
      (
        r,
        e,
        (
          λ n k. put-read_at encoded_len host opened r.0 namespace key value r.1 n k at e,
          λ n k. put-read_file encoded_len host opened r.0 namespace key value r.1 n k at e,
          λ n k. in_file r.0 r.1 n k (λ done.
              put-backing encoded_len host opened r.0 key value (e ∙ ap (λ b. some (r.0, b)) done)),
        ),
      )

  pub remove-Writes :
      (host : HostWrite) (namespace key : String)
      → Writes (λ h. remove_key encoded_len host h key) namespace key none
  remove-Writes host namespace key opened at h =
      let (r, e, v) = remove-some encoded_len host opened key h in
      (
        r,
        e,
        (
          λ n k. remove-read_at encoded_len host opened r.0 namespace key r.1 n k at e,
          λ n k. remove-read_file encoded_len host opened r.0 namespace key r.1 n k at e,
          λ n k. in_file r.0 r.1 n k (λ done.
              remove-backing encoded_len host opened r.0 namespace key at
                (e ∙ ap (λ b. some (r.0, b)) done)),
        ),
      )

  begin-opens :
      (host : HostWrite) (nvs : VirtualNvs) (namespace : String) (read_only : Bool)
      → (begin encoded_len host nvs namespace read_only).1 ≡ true
      → (begin encoded_len host nvs namespace read_only).0.open_namespace
        ≡ some (record { name = namespace; read_only = read_only })
  unfolding begin
  begin-opens host nvs namespace read_only h = ground (arith, h)

  pub writing_lem :
      (host : HostWrite) (handle : VirtualNvs) (namespace key : String) (value : Option NvsValue)
      (write : VirtualNvs → Option (VirtualNvs × Bool))
      → Writes write namespace key value
      → (r : VirtualNvs × Bool) × (writing encoded_len host handle namespace write ≡ some r)
        × Written handle namespace key value r
  unfolding writing end
  writing_lem host handle namespace key value write writes =
      let b = begin encoded_len host handle namespace false in
      let kept = begin-read_at encoded_len host handle namespace false in
      let file = begin-read_file encoded_len host handle namespace false in
      elim (Bool-cases b.1) [
        | inr failed ↦ (
          (end b.0, false),
          ground (arith, failed),
          (
            kept,
            λ n k. elim (file n k) [ inl same ↦ inl same | inr new ↦ inr (inl new) ],
            λ n k. refl,
          ),
        )
        | inl done ↦
            let (r, e, (v, w, x)) = writes b.0 (begin-opens host handle namespace false done) (
              Shape-IsConsistent encoded_len b.0
                (begin-Shape encoded_len host handle namespace false)) in
            (
              (end r.0, r.1),
              ground (arith, done, e),
              (
                λ n k.
                    v n k
                    ∙ ap (λ q. if r.1 && (str_eq namespace n && str_eq key k) then value else q)
                        (kept n k),
                λ n k.
                    MayHold-after (str_eq namespace n && str_eq key k) value _ _ _ _ _ (file n k)
                      (kept n k) (w n k),
                x,
              ),
            )
      ]
