-- ===== src/Radio/Session.antt =====
-- The calls on a RadioBus as a step relation: one constructor for each operation of
-- core/radio_bus/src/bus.rs that changes the bus.
pub mod Silent
pub mod Schedule
pub mod HalfDuplex
use project_mycelium.Common.{ℕ, Bool, ◌≢◌, String, All}
use project_mycelium.Common.Float.{Float}
use project_mycelium.Radio.Types.{RadioChannel, TxEvent}
use project_mycelium.Radio.Propagation.{PropagationModel}
use project_mycelium.Radio.Bus.{
  RadioBus, RadioBusConfig, ScheduledTransmission, with_config, set_propagation_model,
  set_system_loss_db, set_frequency_tolerance_khz, register_node, unregister_node, update_position,
  set_receive_enabled, set_dio2_as_rf_switch, broadcast, poll,
}
use project_mycelium.Radio.Delivery.{tick}

-- No transmission of this node is scheduled or remembered.
abbrev pub IsFresh : {F : Type 0} → String → RadioBus F → Type 0
IsFresh id bus = All (λ s. s.event.node_id ≢ id) bus.transmissions

module _ (fl : Float) where
  open fl use {F}

  pub data Step : RadioBus F → RadioBus F → Type 0 where
    models : (bus : RadioBus F) (m : PropagationModel F) → Step bus (set_propagation_model bus m)
    loses : (bus : RadioBus F) (x : F) → Step bus (set_system_loss_db fl bus x)
    tolerates : (bus : RadioBus F) (x : F) → Step bus (set_frequency_tolerance_khz fl bus x)
    registers :
        (bus : RadioBus F) (id : String) (at : F × F) (power : F) (c : RadioChannel F)
        → Step bus (register_node bus id at power c)
    unregisters : (bus : RadioBus F) (id : String) → Step bus (unregister_node bus id)
    moves : (bus : RadioBus F) (id : String) (at : F × F) → Step bus (update_position bus id at)
    enables :
        (bus : RadioBus F) (id : String) (on : Bool) → Step bus (set_receive_enabled bus id on)
    switches :
        (bus : RadioBus F) (id : String) (on : Bool) → Step bus (set_dio2_as_rf_switch bus id on)
    broadcasts : (bus : RadioBus F) (tx : TxEvent F) → Step bus (broadcast fl bus tx).0
    polls : (bus : RadioBus F) (id : String) → Step bus (poll bus id).0
    ticks : (bus : RadioBus F) (now_ms : ℕ) → Step bus (tick fl bus now_ms)

  -- A registration waits until the bus remembers no transmission of the name; nothing is asked of
  -- the other calls.
  abbrev pub IsOrderly : {bus bus' : RadioBus F} → Step bus bus' → Type 0
  IsOrderly (registers bus id at power c) = IsFresh id bus
  IsOrderly _ = Unit

  -- What calls can make of a new bus.
  pub data Reach (config : RadioBusConfig F) : RadioBus F → Type 0 where
    created : Reach config (with_config config)
    next : {bus bus' : RadioBus F} → Reach config bus → Step bus bus' → Reach config bus'

  -- The same where every registration is orderly.
  pub data OrderlyReach (config : RadioBusConfig F) : RadioBus F → Type 0 where
    started : OrderlyReach config (with_config config)
    continued :
        {bus bus' : RadioBus F}
        → OrderlyReach config bus
        → (s : Step bus bus') → IsOrderly s
        → OrderlyReach config bus'
