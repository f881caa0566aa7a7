-- ===== src/Radio/Bus.antt =====
-- The RadioBus of core/radio_bus/src/bus.rs. The hash map of nodes is an association list; each
-- operation returns the new bus, beside its result where it has one.
pub mod Cases
use project_mycelium.Common.{
  ℕ, Bool, true, false, ◌&&◌, ltb, leb, String, List, [], ◌∷◌, ◌++◌, map, Option, none, some,
  retain, if◌then◌else◌,
}
use mathlib.Core.Option
use project_mycelium.Common.Float.{Float}
use project_mycelium.Common.Word.{sat_add64}
use project_mycelium.Common.Store.{lookup, insert, remove, modify}
use project_mycelium.Radio.Types.{RadioChannel, TxEvent, RxPacket, sx1262_dio2_tx_loss_db}
use project_mycelium.Radio.Propagation.{PropagationModel, two_ray_ground}

pub record RadioBusConfig (F : Type 0) : Type 0 where
  pub propagation_model : PropagationModel F
  pub antenna_gain_tx_dbi : F
  pub antenna_gain_rx_dbi : F
  pub system_loss_db : F
  pub noise_figure_db : F
  pub frequency_tolerance_khz : F
  pub dio2_as_rf_switch : Bool

pub record NodeState (F : Type 0) : Type 0 where
  pub position : F × F
  pub tx_power_dbm : F
  pub current_channel : RadioChannel F
  pub inbox : List (RxPacket F)
  pub tx_busy_until_ms : ℕ
  pub rx_enabled : Bool
  pub dio2_as_rf_switch : Bool

pub record ScheduledTransmission (F : Type 0) : Type 0 where
  pub event : TxEvent F
  pub finalized : Bool

pub record RadioBus (F : Type 0) : Type 0 where
  pub nodes : List (String × NodeState F)
  pub transmissions : List (ScheduledTransmission F)
  pub config : RadioBusConfig F

-- The operations that look at no number of the link budget.
module _ {F : Type 0} where
  unfoldable pub with_config : RadioBusConfig F → RadioBus F
  with_config config = record { nodes = []; transmissions = []; config = config }

  unfoldable pub set_propagation_model : RadioBus F → PropagationModel F → RadioBus F
  set_propagation_model bus model = record bus {
    config = record (bus.config) { propagation_model = model };
  }

  unfoldable pub new_node : F × F → F → RadioChannel F → Bool → NodeState F
  new_node position tx_power channel switch = record {
    position = position;
    tx_power_dbm = tx_power;
    current_channel = channel;
    inbox = [];
    tx_busy_until_ms = 0;
    rx_enabled = true;
    dio2_as_rf_switch = switch;
  }

  unfoldable pub register_node : RadioBus F → String → F × F → F → RadioChannel F → RadioBus F
  unfolding new_node
  register_node bus id position tx_power channel = record bus {
    nodes = insert id (new_node position tx_power channel bus.config.dio2_as_rf_switch) bus.nodes;
  }

  unfoldable pub unregister_node : RadioBus F → String → RadioBus F
  unregister_node bus id = record bus { nodes = remove id bus.nodes }

  unfoldable pub update_position : RadioBus F → String → F × F → RadioBus F
  update_position bus id position = record bus {
    nodes = modify id (λ node. record node { position = position }) bus.nodes;
  }

  -- Disabling reception clears the receive FIFO.
  unfoldable pub set_receive_enabled : RadioBus F → String → Bool → RadioBus F
  set_receive_enabled bus id enabled = record bus {
    nodes =
        modify id
          (λ node. record node { rx_enabled = enabled; inbox = if enabled then node.inbox else [] })
          bus.nodes;
  }

  unfoldable pub set_dio2_as_rf_switch : RadioBus F → String → Bool → RadioBus F
  set_dio2_as_rf_switch bus id switch = record bus {
    nodes = modify id (λ node. record node { dio2_as_rf_switch = switch }) bus.nodes;
  }

  unfoldable pub dio2_as_rf_switch : RadioBus F → String → Option Bool
  dio2_as_rf_switch bus id = Option.map (λ node. node.dio2_as_rf_switch) (lookup id bus.nodes)

  unfoldable pub is_send_complete : RadioBus F → String → ℕ → Bool
  is_send_complete bus id now_ms = elim (lookup id bus.nodes) [
    | none ↦ false
    | some node ↦ leb node.tx_busy_until_ms now_ms
  ]

  -- Drains the inbox of a node.
  unfoldable pub poll : RadioBus F → String → RadioBus F × List (RxPacket F)
  poll bus id = elim (lookup id bus.nodes) [
    | none ↦ (bus, [])
    | some node ↦
        (record bus { nodes = modify id (λ n. record n { inbox = [] }) bus.nodes }, node.inbox)
  ]

module _ (fl : Float) where
  open fl use {F, lit, of_nat, neg, add, sub, mul, div, lt, le, abs, is_finite, log10, exp10, sum}

  abbrev pub config_default : RadioBusConfig F
  config_default = record {
    propagation_model = two_ray_ground (lit 15 1) (lit 15 1);
    antenna_gain_tx_dbi = lit 0 0;
    antenna_gain_rx_dbi = lit 0 0;
    system_loss_db = lit 6 0;
    noise_figure_db = lit 6 0;
    frequency_tolerance_khz = lit 125 0;
    dio2_as_rf_switch = false;
  }

  unfoldable pub set_system_loss_db : RadioBus F → F → RadioBus F
  set_system_loss_db bus loss =
      if is_finite loss && le (lit 0 0) loss
      then record bus { config = record (bus.config) { system_loss_db = loss } }
      else bus

  unfoldable pub set_frequency_tolerance_khz : RadioBus F → F → RadioBus F
  set_frequency_tolerance_khz bus tolerance =
      if is_finite tolerance && le (lit 0 0) tolerance
      then record bus { config = record (bus.config) { frequency_tolerance_khz = tolerance } }
      else bus

  -- The event as it goes on the air: the registered node decides position, power and channel.
  unfoldable pub authoritative : NodeState F → TxEvent F → TxEvent F
  authoritative sender tx = record tx {
    position = sender.position;
    tx_power_dbm =
        sub sender.tx_power_dbm
          (if sender.dio2_as_rf_switch then lit 0 0 else sx1262_dio2_tx_loss_db fl);
    channel = sender.current_channel;
  }

  -- The accepted call: the sender is busy until the end, and the event is on the schedule.
  unfoldable pub schedule : RadioBus F → NodeState F → TxEvent F → RadioBus F
  schedule bus sender tx = record bus {
    nodes =
        modify tx.node_id
          (λ node. record node { tx_busy_until_ms = sat_add64 tx.timestamp_ms tx.airtime_ms })
          bus.nodes;
    transmissions =
        bus.transmissions ++ record { event = authoritative sender tx; finalized = false } ∷ [];
  }

  -- Refused (`false`) for an unknown sender, or one that is still transmitting.
  unfoldable pub broadcast : RadioBus F → TxEvent F → RadioBus F × Bool
  broadcast bus tx = elim (lookup tx.node_id bus.nodes) [
    | none ↦ (bus, false)
    | some sender ↦
        if ltb tx.timestamp_ms sender.tx_busy_until_ms
        then (bus, false)
        else (schedule bus sender tx, true)
  ]

  unfoldable pub frequency_overlaps : F → F → F → Bool
  frequency_overlaps first_mhz second_mhz tolerance_khz =
      le (mul (abs (sub first_mhz second_mhz)) (lit 1000 0)) tolerance_khz

  unfoldable pub thermal_noise_floor_dbm : ℕ → F → F
  thermal_noise_floor_dbm bandwidth_khz noise_figure_db =
      let bandwidth_hz = mul (of_nat bandwidth_khz) (lit 1000 0) in
      add (add (neg (lit 174 0)) (mul (lit 10 0) (log10 bandwidth_hz))) noise_figure_db

  -- The sum of power levels; `none` if they carry no power.
  unfoldable pub sum_dbm : List F → Option F
  sum_dbm levels =
      let milliwatts =
        sum (map (λ level. exp10 (div level (lit 10 0))) (retain is_finite levels)) in
      if lt (lit 0 0) milliwatts then some (mul (lit 10 0) (log10 milliwatts)) else none
