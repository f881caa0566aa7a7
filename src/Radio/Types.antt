-- ===== src/Radio/Types.antt =====
-- core/radio_bus/src/types.rs. `F` is the type of floats.
use project_mycelium.Common.{
  ℕ, ◌==◌, Bool, ◌&&◌, ◌||◌, leb, String, List, Option, none, some, if◌then◌else◌, false,
}
use project_mycelium.Common.Float.{Float}

pub record RadioChannel (F : Type 0) : Type 0 where
  pub freq_mhz : F
  pub bandwidth_khz : ℕ
  pub spreading_factor : ℕ
  pub coding_rate : ℕ

-- A transmission event from a node; the position is (latitude, longitude) in degrees.
pub record TxEvent (F : Type 0) : Type 0 where
  pub node_id : String
  pub channel : RadioChannel F
  pub payload : List ℕ
  pub tx_power_dbm : F
  pub airtime_ms : ℕ
  pub position : F × F
  pub timestamp_ms : ℕ

pub record RxPacket (F : Type 0) : Type 0 where
  pub from_node : String
  pub payload : List ℕ
  pub rssi_dbm : F
  pub snr_db : F
  pub channel : RadioChannel F
  pub timestamp_ms : ℕ

-- SX1262 configuration and board-control state.
pub record Sx1262State (F : Type 0) : Type 0 where
  pub channel : RadioChannel F
  pub tx_power_dbm : F
  pub dio2_rf_switch_enabled : Bool
  pub dio3_tcxo_voltage_v : Option F

module _ (fl : Float) where
  open fl use {F, lit, neg, le, eq, is_finite}

  abbrev pub sx1262_dio2_tx_loss_db : F
  sx1262_dio2_tx_loss_db = lit 16 0

  abbrev pub sx1262_dio2_rx_loss_db : F
  sx1262_dio2_rx_loss_db = lit 3 0

  -- The derived `PartialEq` of `RadioChannel`.
  unfoldable pub channel_eq : RadioChannel F → RadioChannel F → Bool
  channel_eq a b =
      eq a.freq_mhz b.freq_mhz
      && a.bandwidth_khz == b.bandwidth_khz
      && a.spreading_factor == b.spreading_factor
      && a.coding_rate == b.coding_rate

  -- `RadioChannel::new`.
  unfoldable pub channel_new : F → ℕ → ℕ → ℕ → Option (RadioChannel F)
  channel_new freq bw sf cr =
      if is_finite freq
        && (le (lit 150 0) freq && le freq (lit 960 0))
        && (bw == 125 || bw == 250 || bw == 500)
        && (leb 7 sf && leb sf 12)
        && (leb 5 cr && leb cr 8)
      then some
          (record { freq_mhz = freq; bandwidth_khz = bw; spreading_factor = sf; coding_rate = cr })
      else none

  -- `RadioChannel::default`.
  abbrev pub channel_default : RadioChannel F
  channel_default = record {
    freq_mhz = lit 868 0;
    bandwidth_khz = 125;
    spreading_factor = 9;
    coding_rate = 5;
  }

  -- `Sx1262State::new`.
  unfoldable pub sx1262_new : RadioChannel F → F → Option (Sx1262State F)
  sx1262_new channel power =
      if is_finite power && (le (neg (lit 17 0)) power && le power (lit 22 0))
      then some (record {
        channel = channel;
        tx_power_dbm = power;
        dio2_rf_switch_enabled = false;
        dio3_tcxo_voltage_v = some (lit 18 1);
      })
      else none
