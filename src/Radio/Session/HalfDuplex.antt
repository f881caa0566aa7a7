-- ===== src/Radio/Session/HalfDuplex.antt =====
-- No radio transmits twice at once: as long as a node is registered anew only when the bus holds
-- none of its transmissions, no two transmissions of one node overlap.
use project_mycelium.Common.{
  ℕ, ◌≤◌, ◌≡◌, ◌≢◌, refl, sym, ◌∙◌, false, String, List, [], ◌∷◌, some, arith, if_both, All,
  All-append, All-map, All-zip,
}
use text.Mathlib.TextEquality.{eq_iff}
use project_mycelium.Common.Float.{Float}
use project_mycelium.Common.Word.{sat_add64}
use project_mycelium.Common.Store.{lookup, modify, insert, remove, lookup-insert, lookup-remove}
use project_mycelium.Radio.Types.{TxEvent}
use project_mycelium.Radio.Bus.{
  RadioBus, RadioBusConfig, NodeState, ScheduledTransmission, with_config, set_propagation_model,
  set_system_loss_db, set_frequency_tolerance_khz, new_node, register_node, unregister_node,
  update_position, set_receive_enabled, set_dio2_as_rf_switch, authoritative, schedule,
}
use project_mycelium.Radio.Bus.Cases.{broadcast_cases, poll_cases}
use project_mycelium.Radio.Delivery.{
  events, receive, deliver_completed, deliver_all, is_completed, tick,
}
use project_mycelium.Radio.Session.{
  Step, models, loses, tolerates, registers, unregisters, moves, enables, switches, broadcasts,
  polls, ticks, OrderlyReach, started, continued, IsOrderly,
}
use project_mycelium.Radio.Session.Schedule.{
  busy, mark, EndsInTime, IsApart, AllApart, Inv, busy-modify, busy-map_values, Inv-same, Inv-tick,
  AllApart-append, apart_of_end, busy-mark, EndsInTime-known, EndsInTime-mark,
}

module _ (fl : Float) where
  open fl use {F}

  receive-busy :
      (config : RadioBusConfig F) (event : TxEvent F) (all_events : List (TxEvent F)) (id : String)
      (n : NodeState F)
      → (receive fl config event all_events id n).tx_busy_until_ms ≡ n.tx_busy_until_ms
  unfolding receive
  receive-busy config event all_events id n = ground arith

  deliver_all-busy :
      (config : RadioBusConfig F) (now : ℕ) (ss : List (ScheduledTransmission F))
      (all_events : List (TxEvent F)) (nodes : List (String × NodeState F)) (id : String)
      → busy id (deliver_all fl config now ss all_events nodes) ≡ busy id nodes
  unfolding deliver_all deliver_completed
  deliver_all-busy config now [] all_events nodes id = refl
  deliver_all-busy config now (s ∷ ss) all_events nodes id =
      deliver_all-busy config now ss all_events _ id
      ∙ if_both (λ (ns : List (String × NodeState F)). busy id ns ≡ busy id nodes)
          (is_completed now s)
          (busy-map_values id (receive fl config s.event all_events) nodes
            (receive-busy config s.event all_events))
          refl

  schedule-Inv :
      (bus : RadioBus F) (sender : NodeState F) (tx : TxEvent F)
      → lookup tx.node_id bus.nodes ≡ some sender
      → sender.tx_busy_until_ms ≤ tx.timestamp_ms
      → Inv bus.nodes bus.transmissions
      → Inv (schedule fl bus sender tx).nodes (schedule fl bus sender tx).transmissions
  unfolding schedule mark authoritative
  schedule-Inv bus sender tx known idle v = record {
    in_time =
        All-append (EndsInTime nodes') bus.transmissions (new ∷ [])
          (All-map (EndsInTime bus.nodes) (EndsInTime nodes') bus.transmissions
            (λ s.
              EndsInTime-mark tx.node_id tx.timestamp_ms until bus.nodes sender s known idle
                (λ h. omega arith))
            v.in_time)
          (
            λ b e. ground (
              arith,
              busy-mark tx.node_id tx.node_id until bus.nodes known,
              eq_iff tx.node_id tx.node_id,
            ),
            tt,
          );
    apart = AllApart-append bus.transmissions new v.apart (
        All-map (EndsInTime bus.nodes) (λ s. IsApart s new) bus.transmissions
          (λ s h ids.
            apart_of_end s new
              (omega (arith, EndsInTime-known bus.nodes tx.node_id s known (sym ids) h)))
          v.in_time);
  }
    where
      until : ℕ
      until = sat_add64 tx.timestamp_ms tx.airtime_ms

      new : ScheduledTransmission F
      new = record { event = authoritative fl sender tx; finalized = false }

      nodes' : List (String × NodeState F)
      nodes' = modify tx.node_id (mark until) bus.nodes

  fresh-Inv :
      (id : String) (node : NodeState F) (nodes : List (String × NodeState F))
      (ss : List (ScheduledTransmission F))
      → All (λ s. s.event.node_id ≢ id) ss
      → Inv nodes ss
      → Inv (insert id node nodes) ss
  unfolding busy
  fresh-Inv id node nodes ss fresh v = record {
    in_time =
        All-zip (λ s. s.event.node_id ≢ id) (EndsInTime nodes) (EndsInTime (insert id node nodes))
          ss
          (λ s ne h b e. h b (
            ground
              (arith, ne, eq_iff id s.event.node_id, lookup-insert id s.event.node_id node nodes)))
          fresh v.in_time;
    apart = v.apart;
  }

  unregister-Inv :
      (id : String) (nodes : List (String × NodeState F)) (ss : List (ScheduledTransmission F))
      → Inv nodes ss
      → Inv (remove id nodes) ss
  unfolding busy
  unregister-Inv id nodes ss v = record {
    in_time =
        All-map (EndsInTime nodes) (EndsInTime (remove id nodes)) ss
          (λ s h b e. h b (ground (arith, lookup-remove id s.event.node_id nodes))) v.in_time;
    apart = v.apart;
  }

  abbrev IsValid : RadioBus F → Type 0
  IsValid bus = Inv bus.nodes bus.transmissions

  modify-IsValid :
      (bus : RadioBus F) (id : String) (f : NodeState F → NodeState F)
      → ((n : NodeState F) → (f n).tx_busy_until_ms ≡ n.tx_busy_until_ms)
      → IsValid bus
      → IsValid (record bus { nodes = modify id f bus.nodes })
  modify-IsValid bus id f same =
      Inv-same bus.nodes (modify id f bus.nodes) bus.transmissions
        (λ j. busy-modify id j f bus.nodes same)

  Step-IsValid :
      {bus bus' : RadioBus F} (s : Step fl bus bus') → IsOrderly fl s → IsValid bus → IsValid bus'
  unfolding set_propagation_model set_system_loss_db set_frequency_tolerance_khz register_node
      unregister_node update_position set_receive_enabled set_dio2_as_rf_switch tick
  Step-IsValid (models bus m) o v = v
  Step-IsValid (loses bus x) o v = if_both IsValid _ v v
  Step-IsValid (tolerates bus x) o v = if_both IsValid _ v v
  Step-IsValid (registers bus id at power c) fresh v =
      fresh-Inv id (new_node at power c bus.config.dio2_as_rf_switch) bus.nodes bus.transmissions
        fresh v
  Step-IsValid (unregisters bus id) o v = unregister-Inv id bus.nodes bus.transmissions v
  Step-IsValid (moves bus id at) o v = modify-IsValid bus id _ (λ n. refl) v
  Step-IsValid (enables bus id on) o v = modify-IsValid bus id _ (λ n. refl) v
  Step-IsValid (switches bus id on) o v = modify-IsValid bus id _ (λ n. refl) v
  Step-IsValid (broadcasts bus tx) o v =
      broadcast_cases fl IsValid bus tx v
        λ sender known idle. schedule-Inv bus sender tx known idle v
  Step-IsValid (polls bus id) o v =
      poll_cases IsValid bus id v (modify-IsValid bus id _ (λ n. refl) v)
  Step-IsValid (ticks bus now) o v =
      Inv-same bus.nodes _ _
        (deliver_all-busy bus.config now bus.transmissions (events bus.transmissions) bus.nodes)
        (Inv-tick now bus.nodes bus.transmissions v)

  OrderlyReach-IsValid :
      {config : RadioBusConfig F} {bus : RadioBus F} → OrderlyReach fl config bus → IsValid bus
  unfolding with_config
  OrderlyReach-IsValid started = record { in_time = tt; apart = tt }
  OrderlyReach-IsValid (continued r s o) = Step-IsValid s o (OrderlyReach-IsValid r)

  -- On every bus that calls can make, where a node is registered only while the bus remembers no
  -- transmission of its name, no two remembered transmissions of one node overlap.
  pub transmissions_apart :
      (config : RadioBusConfig F) (bus : RadioBus F)
      → OrderlyReach fl config bus
      → AllApart bus.transmissions
  transmissions_apart config bus r = (OrderlyReach-IsValid r).apart
