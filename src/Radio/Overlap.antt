-- ===== src/Radio/Overlap.antt =====
-- When two transmissions share the air: `transmission_end` and `transmissions_overlap` of
-- core/radio_bus/src/bus.rs. The end saturates at 2^64 - 1.
use project_mycelium.Common.{
  ℕ, ◌≤◌, ◌<◌, ◌≡◌, max, Bool, true, false, ◌||◌, ◌&&◌, ◌==◌, ltb, if◌then◌else◌, ◌↔◌, arith,
}
use project_mycelium.Common.Word.{sat_add64}
use project_mycelium.Radio.Types.{TxEvent}

module _ {F : Type 0} where
  abbrev pub transmission_end : TxEvent F → ℕ
  transmission_end event = sat_add64 event.timestamp_ms event.airtime_ms

  unfoldable pub transmissions_overlap : TxEvent F → TxEvent F → Bool
  transmissions_overlap first second =
      if first.airtime_ms == 0 || second.airtime_ms == 0
      then false
      else ltb first.timestamp_ms (transmission_end second)
        && ltb second.timestamp_ms (transmission_end first)

  -- `event` is on the air at the instant `t`.
  abbrev pub OnAir : TxEvent F → ℕ → Type 0
  OnAir event t = (event.timestamp_ms ≤ t) × (t < transmission_end event)

  -- Two transmissions overlap exactly when some instant has both on the air.
  pub transmissions_overlap_iff :
      (a b : TxEvent F) → (transmissions_overlap a b ≡ true) ↔ ((t : ℕ) × OnAir a t × OnAir b t)
  unfolding transmissions_overlap
  transmissions_overlap_iff a b = (
    λ h. (max a.timestamp_ms b.timestamp_ms, ground arith, ground arith),
    λ (t, ha, hb). ground arith,
  )

  pub transmissions_overlap_comm :
      (a b : TxEvent F) → transmissions_overlap a b ≡ transmissions_overlap b a
  unfolding transmissions_overlap
  transmissions_overlap_comm a b = ground arith
