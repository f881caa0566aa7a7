-- ===== src/Radio/Session/Silent.antt =====
-- A node whose reception is disabled has an empty inbox, whatever is called in whatever order.
use project_mycelium.Common.{ℕ, ◌≡◌, refl, false, String, List, [], ◌∷◌, some, arith, if_both}
use project_mycelium.Common.Float.{Float}
use project_mycelium.Common.Store.{
  lookup, Each, insert-Each, remove-Each, modify-Each, map_values-Each, lookup-Each,
}
use project_mycelium.Radio.Types.{TxEvent}
use project_mycelium.Radio.Bus.{
  RadioBus, RadioBusConfig, NodeState, ScheduledTransmission, with_config, set_propagation_model,
  set_system_loss_db, set_frequency_tolerance_khz, register_node, unregister_node, update_position,
  set_receive_enabled, set_dio2_as_rf_switch, schedule, broadcast, poll,
}
use project_mycelium.Radio.Bus.Cases.{broadcast_cases, poll_cases}
use project_mycelium.Radio.Delivery.{
  can_hear, receive, deliver_completed, deliver_all, is_completed, tick,
}
use project_mycelium.Radio.Session.{
  Step, models, loses, tolerates, registers, unregisters, moves, enables, switches, broadcasts,
  polls, ticks, Reach, created, next,
}

module _ {F : Type 0} where
  abbrev IsQuiet : String → NodeState F → Type 0
  IsQuiet id node = node.rx_enabled ≡ false → node.inbox ≡ []

  abbrev IsSilent : RadioBus F → Type 0
  IsSilent bus = Each IsQuiet bus.nodes

module _ (fl : Float) where
  open fl use {F}

  receive-IsQuiet :
      (config : RadioBusConfig F) (event : TxEvent F) (all_events : List (TxEvent F)) (id : String)
      (node : NodeState F)
      → IsQuiet id node
      → IsQuiet id (receive fl config event all_events id node)
  unfolding receive can_hear
  receive-IsQuiet config event all_events id node h e = ground (arith, h)

  deliver_all-IsSilent :
      (config : RadioBusConfig F) (now : ℕ) (ss : List (ScheduledTransmission F))
      (all_events : List (TxEvent F)) (nodes : List (String × NodeState F))
      → Each IsQuiet nodes
      → Each IsQuiet (deliver_all fl config now ss all_events nodes)
  unfolding deliver_all deliver_completed
  deliver_all-IsSilent config now [] all_events nodes h = h
  deliver_all-IsSilent config now (s ∷ ss) all_events nodes h =
      deliver_all-IsSilent config now ss all_events _ (
        if_both (Each IsQuiet) (is_completed now s)
          (map_values-Each IsQuiet (receive fl config s.event all_events) nodes
            (receive-IsQuiet config s.event all_events) h)
          h)

  broadcast-IsSilent :
      (bus : RadioBus F) (tx : TxEvent F) → IsSilent bus → IsSilent (broadcast fl bus tx).0
  unfolding schedule
  broadcast-IsSilent bus tx h =
      broadcast_cases fl IsSilent bus tx h
        λ sender known idle. modify-Each IsQuiet tx.node_id _ bus.nodes (λ j n q. q) h

  poll-IsSilent : (bus : RadioBus F) (id : String) → IsSilent bus → IsSilent (poll bus id).0
  poll-IsSilent bus id h =
      poll_cases IsSilent bus id h (modify-Each IsQuiet id _ bus.nodes (λ j n q e. refl) h)

  Step-IsSilent : {bus bus' : RadioBus F} → Step fl bus bus' → IsSilent bus → IsSilent bus'
  unfolding set_propagation_model set_system_loss_db set_frequency_tolerance_khz register_node
      unregister_node update_position set_receive_enabled set_dio2_as_rf_switch tick
  Step-IsSilent (models bus m) h = h
  Step-IsSilent (loses bus x) h = if_both IsSilent _ h h
  Step-IsSilent (tolerates bus x) h = if_both IsSilent _ h h
  Step-IsSilent (registers bus id at power c) h = insert-Each IsQuiet id _ bus.nodes (λ e. refl) h
  Step-IsSilent (unregisters bus id) h = remove-Each IsQuiet id bus.nodes h
  Step-IsSilent (moves bus id at) h = modify-Each IsQuiet id _ bus.nodes (λ j n q. q) h
  Step-IsSilent (enables bus id on) h = modify-Each IsQuiet id _ bus.nodes (λ j n q e. rw e) h
  Step-IsSilent (switches bus id on) h = modify-Each IsQuiet id _ bus.nodes (λ j n q. q) h
  Step-IsSilent (broadcasts bus tx) h = broadcast-IsSilent bus tx h
  Step-IsSilent (polls bus id) h = poll-IsSilent bus id h
  Step-IsSilent (ticks bus now) h =
      deliver_all-IsSilent bus.config now bus.transmissions _ bus.nodes h

  Reach-IsSilent :
      {config : RadioBusConfig F} {bus : RadioBus F} → Reach fl config bus → IsSilent bus
  unfolding with_config
  Reach-IsSilent created = tt
  Reach-IsSilent (next r s) = Step-IsSilent s (Reach-IsSilent r)

  -- On every bus that calls can make, in any order and with nodes registered again at any time, a
  -- registered node with reception disabled holds no packet.
  pub disabled_inbox_empty :
      (config : RadioBusConfig F) (bus : RadioBus F) (id : String) (node : NodeState F)
      → Reach fl config bus
      → lookup id bus.nodes ≡ some node
      → node.rx_enabled ≡ false
      → node.inbox ≡ []
  disabled_inbox_empty config bus id node r e =
      lookup-Each IsQuiet id bus.nodes (Reach-IsSilent r) e
