-- ===== src/Radio/Delivery/Once.antt =====
-- A transmission is delivered once: a second tick at the same or an earlier time changes nothing.
use project_mycelium.Common.{
  ℕ, ◌≤◌, ◌≡◌, refl, ap, ◌∙◌, Bool, true, false, String, List, [], ◌∷◌, retain, All, All-retain,
  retain_if_All, arith,
}
use project_mycelium.Common.Float.{Float}
use project_mycelium.Radio.Types.{TxEvent}
use project_mycelium.Radio.Bus.{RadioBus, RadioBusConfig, NodeState, ScheduledTransmission}
use project_mycelium.Radio.Delivery.{
  events, is_completed, finalize, unfinished, is_needed, prune, deliver_all, tick,
}
use project_mycelium.Radio.Delivery.History.{unfinished-prune}

module _ {F : Type 0} where
  -- No transmission waits for its delivery at `now_ms`.
  abbrev IsSettled : ℕ → List (ScheduledTransmission F) → Type 0
  IsSettled now_ms = All (λ s. is_completed now_ms s ≡ false)

  finalize-IsSettled :
      (now_ms later_ms : ℕ) (ss : List (ScheduledTransmission F))
      → now_ms ≤ later_ms
      → IsSettled now_ms (finalize later_ms ss)
  unfolding finalize is_completed
  finalize-IsSettled now later [] h = tt
  finalize-IsSettled now later (s ∷ ss) h = (ground arith, finalize-IsSettled now later ss h)

  finalize_settled :
      (now_ms : ℕ) (ss : List (ScheduledTransmission F))
      → IsSettled now_ms ss
      → finalize now_ms ss ≡ ss
  unfolding finalize
  finalize_settled now [] h = refl
  finalize_settled now (s ∷ ss) h = ground (arith, finalize_settled now ss h.1)

  retain-All :
      (p : ScheduledTransmission F → Bool) (ss : List (ScheduledTransmission F))
      → All (λ s. p s ≡ true) (retain p ss)
  retain-All p [] = tt
  retain-All p (s ∷ ss) = ground (arith, retain-All p ss)

  prune_lem :
      (ss : List (ScheduledTransmission F)) → prune ss ≡ retain (is_needed (unfinished ss)) ss
  unfolding prune
  prune_lem ss = refl

  prune-prune : (ss : List (ScheduledTransmission F)) → prune (prune ss) ≡ prune ss
  prune-prune ss =
      prune_lem (prune ss)
      ∙ ap (λ u. retain (is_needed u) (prune ss)) (unfinished-prune ss)
      ∙ rw (prune_lem ss) (retain_if_All keep (retain keep ss) (retain-All keep ss))
    where
      keep : ScheduledTransmission F → Bool
      keep = is_needed (unfinished ss)

  prune-IsSettled :
      (now_ms : ℕ) (ss : List (ScheduledTransmission F))
      → IsSettled now_ms ss
      → IsSettled now_ms (prune ss)
  unfolding prune
  prune-IsSettled now ss = All-retain _ (is_needed (unfinished ss)) ss

module _ (fl : Float) where
  deliver_all_settled :
      (config : RadioBusConfig fl.F) (now_ms : ℕ) (ss : List (ScheduledTransmission fl.F))
      (all_events : List (TxEvent fl.F)) (nodes : List (String × NodeState fl.F))
      → IsSettled now_ms ss
      → deliver_all fl config now_ms ss all_events nodes ≡ nodes
  unfolding deliver_all
  deliver_all_settled config now [] all_events nodes h = refl
  deliver_all_settled config now (s ∷ ss) all_events nodes h =
      rw (h.0) (deliver_all_settled config now ss all_events nodes h.1)

  -- A bus with nothing to deliver and nothing to forget is left as it is.
  tick_settled :
      (bus : RadioBus fl.F) (now_ms : ℕ)
      → IsSettled now_ms bus.transmissions
      → prune bus.transmissions ≡ bus.transmissions
      → tick fl bus now_ms ≡ bus
  unfolding tick
  tick_settled bus now h p =
      let nodes =
        deliver_all_settled bus.config now bus.transmissions (events bus.transmissions) bus.nodes
          h in
      let scheduled = ap prune (finalize_settled now bus.transmissions h) ∙ p in
      λ i. record bus { nodes = nodes i; transmissions = scheduled i }

  tick-IsSettled :
      (bus : RadioBus fl.F) (now_ms later_ms : ℕ)
      → now_ms ≤ later_ms
      → IsSettled now_ms (tick fl bus later_ms).transmissions
  unfolding tick
  tick-IsSettled bus now later h =
      prune-IsSettled now (finalize later bus.transmissions)
        (finalize-IsSettled now later bus.transmissions h)

  prune-tick :
      (bus : RadioBus fl.F) (now_ms : ℕ)
      → prune (tick fl bus now_ms).transmissions ≡ (tick fl bus now_ms).transmissions
  unfolding tick
  prune-tick bus now = prune-prune (finalize now bus.transmissions)

  -- Ticking again at the same or an earlier time delivers nothing more and changes nothing.
  pub tick-tick :
      (bus : RadioBus fl.F) (now_ms later_ms : ℕ)
      → now_ms ≤ later_ms
      → tick fl (tick fl bus later_ms) now_ms ≡ tick fl bus later_ms
  tick-tick bus now later h =
      tick_settled (tick fl bus later) now (tick-IsSettled bus now later h) (prune-tick bus later)
