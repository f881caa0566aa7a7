-- ===== src/Radio/Session/Schedule.antt =====
-- The busy times of the nodes and the spans of the transmissions: the invariant of the schedule.
use project_mycelium.Common.{
  ℕ, ◌≤◌, ◌≡◌, sym, ap, ◌∙◌, subst, Bool, false, String, List, [], ◌∷◌, ◌++◌, Option, some,
  if◌then◌else◌, arith, if_both, Bool-cases, All, retain, All-append, All-retain, All-map,
  Option-cases, inl, inr,
}
use mathlib.Core.Option
use text.Mathlib.Text.{◌==◌ as str_eq}
use text.Mathlib.TextEquality.{eq_iff}
use project_mycelium.Common.Store.{lookup, modify, map_values, lookup-modify, lookup-map_values}
use project_mycelium.Radio.Types.{TxEvent}
use project_mycelium.Radio.Overlap.{transmission_end, transmissions_overlap}
use project_mycelium.Radio.Bus.{NodeState, ScheduledTransmission}
use project_mycelium.Radio.Delivery.{finalize, prune, is_needed, unfinished, is_completed}

module _ {F : Type 0} where
  -- When the node is free again.
  unfoldable pub busy : String → List (String × NodeState F) → Option ℕ
  busy id nodes = Option.map (λ n. n.tx_busy_until_ms) (lookup id nodes)

  -- A transmission ends before its sender may start another.
  abbrev pub EndsInTime : List (String × NodeState F) → ScheduledTransmission F → Type 0
  EndsInTime nodes s = (b : ℕ) → busy s.event.node_id nodes ≡ some b → transmission_end s.event ≤ b

  abbrev pub IsApart : ScheduledTransmission F → ScheduledTransmission F → Type 0
  IsApart s t = s.event.node_id ≡ t.event.node_id → transmissions_overlap s.event t.event ≡ false

  abbrev pub AllApart : List (ScheduledTransmission F) → Type 0
  AllApart [] = Unit
  AllApart (s ∷ ss) = All (IsApart s) ss × AllApart ss

  pub record Inv (nodes : List (String × NodeState F)) (ss : List (ScheduledTransmission F))
      : Type 0 where
    pub in_time : All (EndsInTime nodes) ss
    pub apart : AllApart ss

  pub busy-modify :
      (k id : String) (f : NodeState F → NodeState F) (nodes : List (String × NodeState F))
      → ((n : NodeState F) → (f n).tx_busy_until_ms ≡ n.tx_busy_until_ms)
      → busy id (modify k f nodes) ≡ busy id nodes
  unfolding busy
  busy-modify k id f nodes same = elim (Option-cases (lookup id nodes)) [
    | inl e ↦ ground (arith, lookup-modify k id f nodes)
    | inr (n, e) ↦ ground (arith, lookup-modify k id f nodes, same n)
  ]

  pub busy-map_values :
      (id : String) (f : String → NodeState F → NodeState F) (nodes : List (String × NodeState F))
      → ((j : String) (n : NodeState F) → (f j n).tx_busy_until_ms ≡ n.tx_busy_until_ms)
      → busy id (map_values f nodes) ≡ busy id nodes
  unfolding busy
  busy-map_values id f nodes same = elim (Option-cases (lookup id nodes)) [
    | inl e ↦ ground (arith, lookup-map_values id f nodes)
    | inr (n, e) ↦ ground (arith, lookup-map_values id f nodes, same id n)
  ]

  -- Changes to the nodes that leave the busy times alone keep the invariant.
  pub Inv-same :
      (nodes nodes' : List (String × NodeState F)) (ss : List (ScheduledTransmission F))
      → ((id : String) → busy id nodes' ≡ busy id nodes)
      → Inv nodes ss
      → Inv nodes' ss
  Inv-same nodes nodes' ss same v = record {
    in_time =
        All-map (EndsInTime nodes) (EndsInTime nodes') ss
          (λ s h b e. h b (sym (same s.event.node_id) ∙ e)) v.in_time;
    apart = v.apart;
  }

  pub AllApart-retain :
      (p : ScheduledTransmission F → Bool) (ss : List (ScheduledTransmission F))
      → AllApart ss
      → AllApart (retain p ss)
  AllApart-retain p [] h = tt
  AllApart-retain p (s ∷ ss) h =
      let rest = AllApart-retain p ss h.1 in
      if_both AllApart (p s) (All-retain (IsApart s) p ss h.0, rest) rest

  pub Inv-retain :
      (p : ScheduledTransmission F → Bool) (nodes : List (String × NodeState F))
      (ss : List (ScheduledTransmission F))
      → Inv nodes ss
      → Inv nodes (retain p ss)
  Inv-retain p nodes ss v = record {
    in_time = All-retain (EndsInTime nodes) p ss v.in_time;
    apart = AllApart-retain p ss v.apart;
  }

  -- `finalize` changes no event.
  pub All-finalize {ℓ} :
      (P : TxEvent F → Type ℓ) (now : ℕ) (ss : List (ScheduledTransmission F))
      → All (λ s. P s.event) ss
      → All (λ s. P s.event) (finalize now ss)
  unfolding finalize
  All-finalize P now [] h = tt
  All-finalize P now (s ∷ ss) h = (
    if_both (λ (t : ScheduledTransmission F). P t.event) (is_completed now s) h.0 h.0,
    All-finalize P now ss h.1,
  )

  pub AllApart-finalize :
      (now : ℕ) (ss : List (ScheduledTransmission F)) → AllApart ss → AllApart (finalize now ss)
  unfolding finalize
  AllApart-finalize now [] h = tt
  AllApart-finalize now (s ∷ ss) h =
      let apart =
        All-finalize (λ e. s.event.node_id ≡ e.node_id → transmissions_overlap s.event e ≡ false)
          now ss h.0 in
      (
        if_both (λ (t : ScheduledTransmission F). All (IsApart t) (finalize now ss))
            (is_completed now s) apart apart,
        AllApart-finalize now ss h.1,
      )

  pub Inv-tick :
      (now : ℕ) (nodes : List (String × NodeState F)) (ss : List (ScheduledTransmission F))
      → Inv nodes ss
      → Inv nodes (prune (finalize now ss))
  unfolding prune
  Inv-tick now nodes ss v =
      Inv-retain (is_needed (unfinished (finalize now ss))) nodes (finalize now ss) (record {
        in_time =
            All-finalize (λ e. (b : ℕ) → busy e.node_id nodes ≡ some b → transmission_end e ≤ b) now
              ss v.in_time;
        apart = AllApart-finalize now ss v.apart;
      })

  pub AllApart-append :
      (ss : List (ScheduledTransmission F)) (t : ScheduledTransmission F)
      → AllApart ss
      → All (λ s. IsApart s t) ss
      → AllApart (ss ++ t ∷ [])
  AllApart-append [] t h k = (tt, tt)
  AllApart-append (s ∷ ss) t h k =
      (All-append (IsApart s) ss (t ∷ []) h.0 (k.0, tt), AllApart-append ss t h.1 k.1)

  -- A transmission that starts when the sender is free again overlaps none of its earlier ones.
  pub apart_of_end :
      (s t : ScheduledTransmission F)
      → transmission_end s.event ≤ t.event.timestamp_ms
      → transmissions_overlap s.event t.event ≡ false
  unfolding transmissions_overlap
  apart_of_end s t h = ground arith

  unfoldable pub mark : ℕ → NodeState F → NodeState F
  mark until node = record node { tx_busy_until_ms = until }

  pub busy-mark :
      (k id : String) (until : ℕ) (nodes : List (String × NodeState F)) {sender : NodeState F}
      → lookup k nodes ≡ some sender
      → busy id (modify k (mark until) nodes) ≡ (if str_eq k id then some until else busy id nodes)
  unfolding busy mark
  busy-mark k id until nodes known = elim (Bool-cases (str_eq k id)) [
    | inl e ↦ ground (
      arith,
      eq_iff k id,
      ap (λ j. lookup j nodes) ((eq_iff k id).0 e),
      lookup-modify k id (mark until) nodes,
    )
    | inr e ↦ ground (arith, lookup-modify k id (mark until) nodes)
  ]

  -- The transmissions of a registered sender end by its busy time.
  pub EndsInTime-known :
      (nodes : List (String × NodeState F)) (k : String) (s : ScheduledTransmission F)
      {sender : NodeState F}
      → lookup k nodes ≡ some sender
      → k ≡ s.event.node_id
      → EndsInTime nodes s
      → transmission_end s.event ≤ sender.tx_busy_until_ms
  unfolding busy
  EndsInTime-known nodes k s {sender} known ids h =
      h sender.tx_busy_until_ms
        (ground (arith, subst (λ j. lookup j nodes ≡ some sender) ids known))

  pub EndsInTime-mark :
      (k : String) (start until : ℕ) (nodes : List (String × NodeState F)) (sender : NodeState F)
      (s : ScheduledTransmission F)
      → lookup k nodes ≡ some sender
      → sender.tx_busy_until_ms ≤ start
      → (transmission_end s.event ≤ start → transmission_end s.event ≤ until)
      → EndsInTime nodes s
      → EndsInTime (modify k (mark until) nodes) s
  EndsInTime-mark k start until nodes sender s known idle later h b e =
      elim (Bool-cases (str_eq k s.event.node_id)) [
        | inl same ↦
            let ends = EndsInTime-known nodes k s known ((eq_iff k s.event.node_id).0 same) h in
            let bound = later (omega (arith, ends)) in
            ground (arith, bound, busy-mark k s.event.node_id until nodes known)
        | inr other ↦ h b (ground (arith, busy-mark k s.event.node_id until nodes known))
      ]
