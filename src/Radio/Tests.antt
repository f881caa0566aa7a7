-- ===== src/Radio/Tests.antt =====
-- The radio at concrete inputs.
use project_mycelium.Common.{
  ℕ, ◌+◌, ◌-◌, ◌*◌, ◌≡◌, refl, ◌↔◌, true, false, String, [], ◌∷◌, some, ltb, leb, retain, map, All,
  arith, if◌then◌else◌,
}
use text.Mathlib.Text.{◌==◌ as str_eq}
use project_mycelium.Common.Word.{sat_add64}
use project_mycelium.Common.Int.{ℤ, pos}
use project_mycelium.Common.Toy.{toy}
use project_mycelium.Common.Store.{lookup, insert, modify}
use project_mycelium.Radio.Airtime.{
  is_supported, symbol_duration_us, airtime_us, from_bool, encoded_blocks, total_us,
}
use project_mycelium.Radio.Airtime.Formula.{IsLeast, airtime_us_formula}
use project_mycelium.Common.{List, ◌++◌}
use project_mycelium.Radio.Types.{TxEvent, RxPacket, channel_default, channel_eq}
use project_mycelium.Radio.Propagation.{
  distance_km, received_rssi_with_model, path_loss, two_ray_ground_path_loss, sensitivity,
}
use project_mycelium.Radio.Overlap.{transmissions_overlap, OnAir, transmissions_overlap_iff}
use project_mycelium.Radio.Bus.{
  RadioBus, NodeState, config_default, with_config, register_node, new_node, set_receive_enabled,
  broadcast, is_send_complete, sum_dbm, frequency_overlaps, thermal_noise_floor_dbm,
}
use project_mycelium.Radio.Bus.Cases.{send_complete_after_broadcast, broadcast-register}
use project_mycelium.Radio.Delivery.{tick}
use project_mycelium.Radio.Delivery.{
  events, received, can_hear, packet, rssi_at, interference_dbm, is_jammed, strengths, interferes,
  same_transmission, is_completed, finalize, unfinished, is_needed, prune, tick,
}
use project_mycelium.Radio.Delivery.History.{tick_keeps_overlaps}
use project_mycelium.Radio.Delivery.Inbox.{heard, packets, tick_inbox}
use project_mycelium.Radio.Delivery.Sound.{Heard, packets_sound}
use project_mycelium.Radio.Session.{
  registers, enables, broadcasts, Reach, created, next, started, continued,
}
use project_mycelium.Radio.Session.Silent.{disabled_inbox_empty}
use project_mycelium.Radio.Session.Schedule.{AllApart}
use project_mycelium.Radio.Session.HalfDuplex.{transmissions_apart}

-- The reference vectors of the source's tests.
airtime_vectors :
    (airtime_us 16 7 125 5 8 true ≡ 51456)
    × (airtime_us 16 12 125 5 8 true ≡ 1318912)
    × (airtime_us 255 7 125 5 8 true ≡ 399616)
    × (airtime_us 16 64 125 5 8 true ≡ 0)
unfolding airtime_us is_supported symbol_duration_us encoded_blocks total_us
airtime_vectors = (refl, refl, refl, refl)

airtime_us_formula_example :
    (blocks : ℕ) × IsLeast blocks
      (8 * 16 + 44)
      (4 * 7 + 20 * from_bool false)
      (4 * (7 - 2 * from_bool (ltb 16000 (symbol_duration_us 7 125))))
    × (4 * airtime_us 16 7 125 5 8 true
        ≡ (4 * 8 + 17 + 4 * (8 + blocks * 5)) * symbol_duration_us 7 125)
unfolding is_supported
airtime_us_formula_example = airtime_us_formula 16 7 125 5 8 true refl (omega arith) (omega arith)

abbrev sent : String → ℕ → TxEvent ℤ
sent id start = record {
  node_id = id;
  channel = channel_default toy;
  payload = 7 ∷ [];
  tx_power_dbm = pos 14;
  airtime_ms = 100;
  position = (pos 0, pos 0);
  timestamp_ms = start;
}

transmissions_overlap_iff_example :
    (transmissions_overlap (sent "a" 0) (sent "b" 50) ≡ true)
    ↔ ((t : ℕ) × OnAir (sent "a" 0) t × OnAir (sent "b" 50) t)
transmissions_overlap_iff_example = transmissions_overlap_iff (sent "a" 0) (sent "b" 50)

abbrev node : NodeState ℤ
node = record {
  position = (pos 0, pos 0);
  tx_power_dbm = pos 400;
  current_channel = channel_default toy;
  inbox = [];
  tx_busy_until_ms = 0;
  rx_enabled = true;
  dio2_as_rf_switch = true;
}

abbrev idle_bus : RadioBus ℤ
idle_bus = record {
  nodes = ("a", node) ∷ ("b", node) ∷ ("c", node) ∷ [];
  transmissions = [];
  config = config_default toy;
}

-- Node a is on the air from 0 to 100, and b from 50 to 150.
abbrev busy_bus : RadioBus ℤ
busy_bus = record idle_bus {
  transmissions =
      record { event = sent "a" 0; finalized = false }
      ∷ record { event = sent "b" 50; finalized = false }
      ∷ [];
}

-- One transmission only.
abbrev calm_bus : RadioBus ℤ
calm_bus = record idle_bus { transmissions = record { event = sent "a" 0; finalized = false } ∷ [] }

send_complete_after_broadcast_example :
    is_send_complete (broadcast toy idle_bus (sent "a" 0)).0 "a" 99
    ≡ (if str_eq "a" "a" then leb (sat_add64 0 100) 99 else is_send_complete idle_bus "a" 99)
unfolding broadcast lookup
send_complete_after_broadcast_example =
    send_complete_after_broadcast toy idle_bus (sent "a" 0) "a" 99 refl

broadcast-register_example :
    (broadcast toy
      (register_node busy_bus "a" (pos 0, pos 0) (pos 1) (channel_default toy))
      (sent "a" 0)).1
    ≡ true
broadcast-register_example =
    broadcast-register toy busy_bus (sent "a" 0) (pos 0, pos 0) (pos 1) (channel_default toy)

-- At 100 the transmission of b is still on the air.
tick_keeps_overlaps_example :
    retain
      (λ x. transmissions_overlap x (sent "b" 50))
      (events (tick toy busy_bus 100).transmissions)
    ≡ retain (λ x. transmissions_overlap x (sent "b" 50)) (events busy_bus.transmissions)
unfolding tick finalize unfinished is_completed prune is_needed transmissions_overlap
tick_keeps_overlaps_example = tick_keeps_overlaps toy busy_bus 100 0 refl

tick_inbox_example :
    lookup "c" (tick toy calm_bus 100).nodes
    ≡ some (record node {
      inbox =
          packets toy calm_bus.config 100
            (events calm_bus.transmissions)
            "c"
            node
            calm_bus.transmissions;
    })
unfolding lookup
tick_inbox_example = tick_inbox toy calm_bus 100 "c" node refl

packets_sound_example :
    (ps : List (RxPacket ℤ)) × (lookup "c" (tick toy calm_bus 100).nodes
      ≡ some (record node { inbox = [] ++ ps }))
    × All (Heard toy calm_bus 100 "c" node) ps
unfolding lookup
packets_sound_example = packets_sound toy calm_bus 100 "c" node refl

-- Node c gets the packet of a.
packet_arrives :
    map
      (λ p. p.from_node)
      (packets toy calm_bus.config 100
        (events calm_bus.transmissions)
        "c"
        node
        calm_bus.transmissions)
    ≡ "a" ∷ []
unfolding packets heard received can_hear packet rssi_at interference_dbm is_jammed is_completed
    events strengths interferes same_transmission transmissions_overlap channel_eq
    received_rssi_with_model path_loss two_ray_ground_path_loss sensitivity sum_dbm
    frequency_overlaps thermal_noise_floor_dbm distance_km
packet_arrives = refl

-- The calls register a node and switch its reception off.
abbrev deaf_bus : RadioBus ℤ
deaf_bus =
    set_receive_enabled
      (register_node (with_config (config_default toy)) "a" (pos 0, pos 0) (pos 1)
        (channel_default toy))
      "a" false

deaf-Reach : Reach toy (config_default toy) deaf_bus
unfolding with_config
deaf-Reach =
    next (next created (registers _ "a" (pos 0, pos 0) (pos 1) (channel_default toy)))
      (enables _ "a" false)

abbrev deaf_node : NodeState ℤ
deaf_node = record node { tx_power_dbm = pos 1; rx_enabled = false; dio2_as_rf_switch = false }

disabled_inbox_empty_example : deaf_node.inbox ≡ []
unfolding new_node register_node set_receive_enabled with_config insert modify lookup
disabled_inbox_empty_example =
    disabled_inbox_empty toy (config_default toy) deaf_bus "a" deaf_node deaf-Reach refl refl

-- Node a transmits, and a broadcast that would overlap is refused.
abbrev sent_twice : RadioBus ℤ
sent_twice =
    (broadcast toy
      (broadcast toy
        (register_node (with_config (config_default toy)) "a" (pos 0, pos 0) (pos 1)
          (channel_default toy))
        (sent "a" 0)).0
      (sent "a" 50)).0

transmissions_apart_example : AllApart sent_twice.transmissions
unfolding with_config
transmissions_apart_example = transmissions_apart toy (config_default toy) sent_twice (
    continued
      (continued
        (continued started (registers _ "a" (pos 0, pos 0) (pos 1) (channel_default toy)) tt)
        (broadcasts _ (sent "a" 0)) tt)
      (broadcasts _ (sent "a" 50)) tt)
