-- ===== src/Radio/Delivery/Inbox.antt =====
-- What one `tick` puts into the inbox of each receiver, whatever the order of the hash map.
use project_mycelium.Common.{
  ℕ, ◌≡◌, refl, sym, ap, ◌∙◌, String, List, [], ◌∷◌, ◌++◌, Option, none, some, if◌then◌else◌, arith,
  Bool-cases, inl, inr,
}
use mathlib.Core.List.{append_assoc, append-nil}
use project_mycelium.Common.Float.{Float}
use project_mycelium.Common.Store.{lookup, lookup-map_values}
use project_mycelium.Radio.Types.{TxEvent, RxPacket}
use project_mycelium.Radio.Bus.{RadioBus, RadioBusConfig, NodeState, ScheduledTransmission}
use project_mycelium.Radio.Delivery.{
  events, is_completed, can_hear, received, receive, deliver_completed, deliver_all, tick, rssi_at,
  interference_dbm, interferes, strengths,
}

abbrev pub to_list {ℓ} : {A : Type ℓ} → Option A → List A
to_list none = []
to_list (some a) = a ∷ []

module _ (fl : Float) where
  -- What a receiver gets of one event: none, or one packet.
  unfoldable pub heard :
      RadioBusConfig fl.F
      → List (TxEvent fl.F)
      → String
      → NodeState fl.F
      → TxEvent fl.F
      → List (RxPacket fl.F)
  heard config all_events id r event =
      if can_hear fl event all_events id r
      then to_list (received fl config event all_events r)
      else []

  -- The packets that a receiver gets of the transmissions that are complete, in their order.
  unfoldable pub packets :
      RadioBusConfig fl.F
      → ℕ
      → List (TxEvent fl.F)
      → String
      → NodeState fl.F
      → List (ScheduledTransmission fl.F)
      → List (RxPacket fl.F)
  packets config now all_events id r [] = []
  packets config now all_events id r (s ∷ ss) =
      (if is_completed now s then heard config all_events id r s.event else [])
      ++ packets config now all_events id r ss

  with_inbox : NodeState fl.F → List (RxPacket fl.F) → NodeState fl.F
  with_inbox r ps = record r { inbox = ps }

  -- Reception looks at everything of the node but its inbox.
  heard-with_inbox :
      (config : RadioBusConfig fl.F) (all_events : List (TxEvent fl.F)) (id : String)
      (r : NodeState fl.F) (event : TxEvent fl.F) (ps : List (RxPacket fl.F))
      → heard config all_events id (with_inbox r ps) event ≡ heard config all_events id r event
  unfolding heard with_inbox can_hear received rssi_at interference_dbm interferes strengths
  heard-with_inbox config all_events id r event ps = refl

  receive-heard :
      (config : RadioBusConfig fl.F) (all_events : List (TxEvent fl.F)) (id : String)
      (r : NodeState fl.F) (event : TxEvent fl.F)
      → receive fl config event all_events id r
        ≡ with_inbox r (r.inbox ++ heard config all_events id r event)
  unfolding receive heard with_inbox
  receive-heard config all_events id r event = ground (arith, append-nil r.inbox)

  packets-with_inbox :
      (config : RadioBusConfig fl.F) (now : ℕ) (all_events : List (TxEvent fl.F)) (id : String)
      (r : NodeState fl.F) (ps : List (RxPacket fl.F)) (ss : List (ScheduledTransmission fl.F))
      → packets config now all_events id (with_inbox r ps) ss
        ≡ packets config now all_events id r ss
  unfolding packets
  packets-with_inbox config now all_events id r ps [] = refl
  packets-with_inbox config now all_events id r ps (s ∷ ss) = rw (
    heard-with_inbox config all_events id r s.event ps,
    packets-with_inbox config now all_events id r ps ss,
  )

  with_inbox_twice :
      (r : NodeState fl.F) (ps qs : List (RxPacket fl.F))
      → with_inbox (with_inbox r ps) ((with_inbox r ps).inbox ++ qs) ≡ with_inbox r (ps ++ qs)
  unfolding with_inbox
  with_inbox_twice r ps qs = refl

  with_inbox_nil : (r : NodeState fl.F) → with_inbox r r.inbox ≡ r
  unfolding with_inbox
  with_inbox_nil r = refl

  packets-after :
      (config : RadioBusConfig fl.F) (now : ℕ) (all_events : List (TxEvent fl.F)) (id : String)
      (r : NodeState fl.F) (hd : List (RxPacket fl.F)) (ss : List (ScheduledTransmission fl.F))
      → let r' = with_inbox r (r.inbox ++ hd) in
        with_inbox r' (r'.inbox ++ packets config now all_events id r' ss)
        ≡ with_inbox r (r.inbox ++ (hd ++ packets config now all_events id r ss))
  packets-after config now all_events id r hd ss =
      let r' = with_inbox r (r.inbox ++ hd) in
      ap (λ q. with_inbox r' (r'.inbox ++ q))
        (packets-with_inbox config now all_events id r (r.inbox ++ hd) ss)
      ∙ with_inbox_twice r (r.inbox ++ hd) (packets config now all_events id r ss)
      ∙ ap (with_inbox r) (append_assoc r.inbox hd (packets config now all_events id r ss))

  lookup-deliver_completed :
      (config : RadioBusConfig fl.F) (event : TxEvent fl.F) (all_events : List (TxEvent fl.F))
      (nodes : List (String × NodeState fl.F)) (id : String) (r : NodeState fl.F)
      → lookup id nodes ≡ some r
      → lookup id (deliver_completed fl config event all_events nodes)
        ≡ some (with_inbox r (r.inbox ++ heard config all_events id r event))
  unfolding deliver_completed
  lookup-deliver_completed config event all_events nodes id r h =
      lookup-map_values id (receive fl config event all_events) nodes
      ∙ rw h (ap some (receive-heard config all_events id r event))

  lookup-deliver_all :
      (config : RadioBusConfig fl.F) (now : ℕ) (ss : List (ScheduledTransmission fl.F))
      (all_events : List (TxEvent fl.F)) (nodes : List (String × NodeState fl.F)) (id : String)
      (r : NodeState fl.F)
      → lookup id nodes ≡ some r
      → lookup id (deliver_all fl config now ss all_events nodes)
        ≡ some (with_inbox r (r.inbox ++ packets config now all_events id r ss))
  unfolding deliver_all packets
  lookup-deliver_all config now [] all_events nodes id r h =
      h ∙ ap some (sym (ap (with_inbox r) (append-nil r.inbox) ∙ with_inbox_nil r))
  lookup-deliver_all config now (s ∷ ss) all_events nodes id r h =
      elim (Bool-cases (is_completed now s)) [
        | inl done ↦
            let hd = heard config all_events id r s.event in
            rw done (
              lookup-deliver_all config now ss all_events
                (deliver_completed fl config s.event all_events nodes) id
                (with_inbox r (r.inbox ++ hd))
                (lookup-deliver_completed config s.event all_events nodes id r h)
              ∙ ap some (packets-after config now all_events id r hd ss))
        | inr waits ↦ rw waits (lookup-deliver_all config now ss all_events nodes id r h)
      ]

  -- One tick gives a registered node its old state with the packets of the completed transmissions
  -- behind its inbox, in the order of the broadcasts. They depend on no other node, so the order in
  -- which the nodes are visited does not matter.
  pub tick_inbox :
      (bus : RadioBus fl.F) (now_ms : ℕ) (id : String) (r : NodeState fl.F)
      → lookup id bus.nodes ≡ some r
      → lookup id (tick fl bus now_ms).nodes
        ≡ some (record r {
          inbox =
              r.inbox
              ++ packets bus.config now_ms (events bus.transmissions) id r bus.transmissions;
        })
  unfolding tick with_inbox
  tick_inbox bus now id r h =
      lookup-deliver_all bus.config now bus.transmissions (events bus.transmissions) bus.nodes id r
        h
