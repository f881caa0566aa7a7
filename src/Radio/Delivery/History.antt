-- ===== src/Radio/Delivery/History.antt =====
-- What `tick` forgets of past transmissions changes no later collision check.
use project_mycelium.Common.{
  ℕ, zero, suc, ◌≡◌, refl, ap, ◌∙◌, Bool, true, false, List, [], ◌∷◌, some, any, retain, get_elem?,
  arith,
}
use project_mycelium.Common.Float.{Float}
use project_mycelium.Radio.Types.{TxEvent}
use project_mycelium.Radio.Overlap.{transmissions_overlap}
use project_mycelium.Radio.Bus.{RadioBus, ScheduledTransmission}
use project_mycelium.Radio.Delivery.{events, finalize, unfinished, is_needed, prune, tick}

any_of_get {ℓ} :
    {A : Type ℓ} (p : A → Bool) (xs : List A) (i : ℕ) {e : A}
    → get_elem? xs i ≡ some e
    → p e ≡ true
    → any p xs ≡ true
any_of_get p [] i h k = cc
any_of_get p (x ∷ xs) zero h k = ground arith
any_of_get p (x ∷ xs) (suc i) h k = ground (arith, any_of_get p xs i h k)

module _ {F : Type 0} where
  -- `keep` drops nothing that `q` selects.
  retain-retain :
      (q : TxEvent F → Bool) (keep : ScheduledTransmission F → Bool)
      → ((s : ScheduledTransmission F) → q s.event ≡ true → keep s ≡ true)
      → (ss : List (ScheduledTransmission F))
      → retain q (events (retain keep ss)) ≡ retain q (events ss)
  unfolding events
  retain-retain q keep h [] = refl
  retain-retain q keep h (s ∷ ss) = ground (arith, h s, retain-retain q keep h ss)

  pub events-finalize :
      (now_ms : ℕ) (ss : List (ScheduledTransmission F)) → events (finalize now_ms ss) ≡ events ss
  unfolding events finalize
  events-finalize now [] = refl
  events-finalize now (s ∷ ss) = ground (arith, events-finalize now ss)

  unfinished-retain :
      (keep : ScheduledTransmission F → Bool)
      → ((s : ScheduledTransmission F) → s.finalized ≡ false → keep s ≡ true)
      → (ss : List (ScheduledTransmission F)) → unfinished (retain keep ss) ≡ unfinished ss
  unfolding unfinished
  unfinished-retain keep h [] = refl
  unfinished-retain keep h (s ∷ ss) = ground (arith, h s, unfinished-retain keep h ss)

  pub unfinished-prune :
      (ss : List (ScheduledTransmission F)) → unfinished (prune ss) ≡ unfinished ss
  unfolding prune is_needed
  unfinished-prune ss = unfinished-retain (is_needed (unfinished ss)) (λ s h. rw h) ss

  pub overlaps-prune :
      (ss : List (ScheduledTransmission F)) (i : ℕ) {e : TxEvent F}
      → get_elem? (unfinished ss) i ≡ some e
      → retain (λ x. transmissions_overlap x e) (events (prune ss))
        ≡ retain (λ x. transmissions_overlap x e) (events ss)
  unfolding prune is_needed
  overlaps-prune ss i {e} h =
      retain-retain (λ x. transmissions_overlap x e) (is_needed (unfinished ss))
        (λ s k. ground (arith, any_of_get (transmissions_overlap s.event) (unfinished ss) i h k)) ss

module _ (fl : Float) where
  -- After a tick every transmission that overlaps one still on the air is remembered: its collision
  -- check sees the same transmissions as if nothing had been removed.
  pub tick_keeps_overlaps :
      (bus : RadioBus fl.F) (now_ms : ℕ) (i : ℕ) {e : TxEvent fl.F}
      → get_elem? (unfinished (tick fl bus now_ms).transmissions) i ≡ some e
      → retain (λ x. transmissions_overlap x e) (events (tick fl bus now_ms).transmissions)
        ≡ retain (λ x. transmissions_overlap x e) (events bus.transmissions)
  unfolding tick
  tick_keeps_overlaps bus now i {e} h =
      overlaps-prune (finalize now bus.transmissions) i
        (rw (unfinished-prune (finalize now bus.transmissions)) at h)
      ∙ ap (retain (λ x. transmissions_overlap x e)) (events-finalize now bus.transmissions)
