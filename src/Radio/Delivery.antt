-- ===== src/Radio/Delivery.antt =====
-- How the bus resolves transmissions: `tick` and `deliver_completed` of
-- core/radio_bus/src/bus.rs. The loop over the hash map of nodes is `map_values`.
pub mod History
pub mod Once
pub mod Inbox
pub mod Sound
use project_mycelium.Common.{
  ℕ, Bool, true, false, not, ◌&&◌, ◌||◌, ◌==◌, leb, String, List, [], ◌∷◌, ◌++◌, map, Option, none,
  some, any, retain, if◌then◌else◌,
}
use mathlib.Core.Option
use text.Mathlib.Text.{◌==◌ as str_eq}
use project_mycelium.Common.Float.{Float}
use project_mycelium.Common.Store.{map_values}
use project_mycelium.Radio.Types.{TxEvent, RxPacket, channel_eq, sx1262_dio2_rx_loss_db}
use project_mycelium.Radio.Propagation.{distance_km, received_rssi_with_model, sensitivity}
use project_mycelium.Radio.Overlap.{transmission_end, transmissions_overlap}
use project_mycelium.Radio.Bus.{
  RadioBusConfig, NodeState, ScheduledTransmission, RadioBus, frequency_overlaps,
  thermal_noise_floor_dbm, sum_dbm,
}

-- The half of `tick` that only looks at the times of the transmissions.
module _ {F : Type 0} where
  unfoldable pub events : List (ScheduledTransmission F) → List (TxEvent F)
  events = map λ scheduled. scheduled.event

  unfoldable pub is_completed : ℕ → ScheduledTransmission F → Bool
  is_completed now_ms scheduled =
      not scheduled.finalized && leb (transmission_end scheduled.event) now_ms

  -- The writes `finalized = true` of the delivery loop.
  unfoldable pub finalize : ℕ → List (ScheduledTransmission F) → List (ScheduledTransmission F)
  finalize now_ms [] = []
  finalize now_ms (s ∷ ss) =
      (if is_completed now_ms s then record s { finalized = true } else s) ∷ finalize now_ms ss

  unfoldable pub unfinished : List (ScheduledTransmission F) → List (TxEvent F)
  unfinished ss = map (λ s. s.event) (retain (λ s. not s.finalized) ss)

  -- Finalized transmissions stay while an unfinished one overlaps them.
  unfoldable pub is_needed : List (TxEvent F) → ScheduledTransmission F → Bool
  is_needed open_events s = not s.finalized || any (transmissions_overlap s.event) open_events

  unfoldable pub prune : List (ScheduledTransmission F) → List (ScheduledTransmission F)
  prune ss = retain (is_needed (unfinished ss)) ss

module _ (fl : Float) where
  open fl use {F, lit, infinity, neg, sub, lt, le, is_finite}

  unfoldable pub same_transmission : TxEvent F → TxEvent F → Bool
  same_transmission first second =
      str_eq first.node_id second.node_id
      && first.timestamp_ms == second.timestamp_ms
      && channel_eq fl first.channel second.channel

  receiver_loss_db : NodeState F → F
  receiver_loss_db receiver =
      if receiver.dio2_as_rf_switch then lit 0 0 else sx1262_dio2_rx_loss_db fl

  -- The strength at which `receiver` hears `event`; `none` if out of a fixed range.
  unfoldable pub rssi_at : RadioBusConfig F → NodeState F → TxEvent F → Option F
  unfolding receiver_loss_db
  rssi_at config receiver event =
      Option.map (λ rssi. sub rssi (receiver_loss_db receiver))
        (received_rssi_with_model fl event.tx_power_dbm
          (distance_km fl event.position receiver.position) event.channel.freq_mhz
          config.antenna_gain_tx_dbi config.antenna_gain_rx_dbi config.system_loss_db
          config.propagation_model)

  unfoldable pub interferes : RadioBusConfig F → NodeState F → TxEvent F → TxEvent F → Bool
  interferes config receiver event other =
      not (same_transmission event other)
      && transmissions_overlap event other
      && frequency_overlaps fl other.channel.freq_mhz receiver.current_channel.freq_mhz
          config.frequency_tolerance_khz

  -- The finite strengths among those of `others`.
  unfoldable pub strengths : RadioBusConfig F → NodeState F → List (TxEvent F) → List F
  strengths config receiver [] = []
  strengths config receiver (other ∷ others) =
      let rest = strengths config receiver others in
      elim (rssi_at config receiver other) [
        | none ↦ rest
        | some rssi ↦ if is_finite rssi then rssi ∷ rest else rest
      ]

  unfoldable pub interference_dbm :
      RadioBusConfig F → NodeState F → TxEvent F → List (TxEvent F) → Option F
  interference_dbm config receiver event all_events =
      sum_dbm fl (strengths config receiver (retain (interferes config receiver event) all_events))

  -- The interference is within 6 dB of the signal.
  unfoldable pub is_jammed : F → Option F → Bool
  is_jammed rssi none = false
  is_jammed rssi (some level) = le (sub rssi level) (lit 6 0)

  unfoldable pub packet : RadioBusConfig F → TxEvent F → F → Option F → RxPacket F
  packet config event rssi interference =
      let noise_floor =
        thermal_noise_floor_dbm fl event.channel.bandwidth_khz config.noise_figure_db in
      let interference_level : F = elim interference [ none ↦ neg infinity | some level ↦ level ] in
      let noise : F = elim (sum_dbm fl (noise_floor ∷ interference_level ∷ [])) [
        | none ↦ noise_floor
        | some level ↦ level
      ] in
      record {
        from_node = event.node_id;
        payload = event.payload;
        rssi_dbm = rssi;
        snr_db = sub rssi noise;
        channel = event.channel;
        timestamp_ms = transmission_end event;
      }

  -- The guards that come before the link budget.
  unfoldable pub can_hear : TxEvent F → List (TxEvent F) → String → NodeState F → Bool
  can_hear event all_events id receiver =
      not (
        str_eq id event.node_id
        || not receiver.rx_enabled
        || not (channel_eq fl receiver.current_channel event.channel))
      && not
          (any (λ other. str_eq other.node_id id && transmissions_overlap event other) all_events)

  -- What the receiver gets of a completed transmission, if anything.
  unfoldable pub received :
      RadioBusConfig F → TxEvent F → List (TxEvent F) → NodeState F → Option (RxPacket F)
  received config event all_events receiver = elim (rssi_at config receiver event) [
    | none ↦ none
    | some rssi ↦
        let interference = interference_dbm config receiver event all_events in
        if not (is_finite rssi) || lt rssi (sensitivity fl event.channel)
        then none
        else if is_jammed rssi interference
        then none
        else some (packet config event rssi interference)
  ]

  -- One pass of the loop over the nodes.
  unfoldable pub receive :
      RadioBusConfig F → TxEvent F → List (TxEvent F) → String → NodeState F → NodeState F
  receive config event all_events id receiver =
      if can_hear event all_events id receiver
      then elim (received config event all_events receiver) [
        | none ↦ receiver
        | some p ↦ record receiver { inbox = receiver.inbox ++ p ∷ [] }
      ]
      else receiver

  unfoldable pub deliver_completed :
      RadioBusConfig F
      → TxEvent F
      → List (TxEvent F)
      → List (String × NodeState F)
      → List (String × NodeState F)
  deliver_completed config event all_events nodes =
      map_values (receive config event all_events) nodes

  -- The loop over the completed transmissions.
  unfoldable pub deliver_all :
      RadioBusConfig F
      → ℕ
      → List (ScheduledTransmission F)
      → List (TxEvent F)
      → List (String × NodeState F)
      → List (String × NodeState F)
  deliver_all config now_ms [] all_events nodes = nodes
  deliver_all config now_ms (s ∷ ss) all_events nodes =
      deliver_all config now_ms ss all_events
        (if is_completed now_ms s then deliver_completed config s.event all_events nodes else nodes)

  unfoldable pub tick : RadioBus F → ℕ → RadioBus F
  unfolding events
  tick bus now_ms = record bus {
    nodes = deliver_all bus.config now_ms bus.transmissions (events bus.transmissions) bus.nodes;
    transmissions = prune (finalize now_ms bus.transmissions);
  }
