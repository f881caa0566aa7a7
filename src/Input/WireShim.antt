-- ===== src/Input/WireShim.antt =====
-- The I2C bus of a board with the keyboard and the touch controller on it,
-- core/input/src/wire_shim.rs. `powered` is what the check of the peripheral rail answers (true
-- without one); the map of retained brightness is a field. `read` answers -1 by `none`.
pub mod Contacts
use project_mycelium.Common.{
  ℕ, zero, suc, ◌+◌, ◌-◌, ◌*◌, ◌/◌, ◌%◌, Bool, true, false, not, ◌&&◌, ◌||◌, ◌==◌, ltb, leb, List,
  [], ◌∷◌, ◌++◌, length, get_elem?, drop, Option, none, some, if◌then◌else◌,
}
use project_mycelium.Input.I2cKeyboard
use project_mycelium.Input.I2cKeyboard.{I2cKeyboardBus, Backlights}
use project_mycelium.Input.Gt911.{Gt911Controller}
use project_mycelium.Input.Gt911.Registers.{i2c_read, i2c_write}

abbrev pub keyboard_i2c_address : ℕ
keyboard_i2c_address = 0x55

abbrev pub gt911_i2c_address : ℕ
gt911_i2c_address = 0x5d

abbrev pub keyboard_i2c_clock_hz : ℕ
keyboard_i2c_clock_hz = 100000

abbrev pub fast_i2c_clock_hz : ℕ
fast_i2c_clock_hz = 400000

abbrev pub wire_tx_buffer_capacity : ℕ
wire_tx_buffer_capacity = 128

abbrev pub wire_rx_buffer_capacity : ℕ
wire_rx_buffer_capacity = 128

pub record WireShim : Type 0 where
  pub saved : Backlights
  pub keyboard_bus : I2cKeyboardBus
  pub gt911 : Gt911Controller
  pub begun : Bool
  pub clock_hz : ℕ
  pub transmit_address : Option ℕ
  pub transmit_buffer : List ℕ
  pub gt911_register : ℕ
  pub read_buffer : List ℕ
  pub read_position : ℕ
  pub sda_stuck : Bool

unfoldable pub with_devices : Backlights → I2cKeyboardBus → Gt911Controller → WireShim
with_devices saved keyboard_bus gt911 = record {
  saved = saved;
  keyboard_bus = keyboard_bus;
  gt911 = gt911;
  begun = false;
  clock_hz = keyboard_i2c_clock_hz;
  transmit_address = none;
  transmit_buffer = [];
  gt911_register = 0;
  read_buffer = [];
  read_position = 0;
  sda_stuck = false;
}

unfoldable pub begin : WireShim → WireShim
begin w = record w { begun = true }

unfoldable pub set_clock : WireShim → ℕ → WireShim
set_clock w clock_hz = record w { clock_hz = clock_hz }

unfoldable pub clear_read_buffer : WireShim → WireShim
clear_read_buffer w = record w { read_buffer = []; read_position = 0 }

unfoldable pub set_keyboard : WireShim → I2cKeyboardBus → WireShim
set_keyboard w keyboard_bus = clear_read_buffer (record w { keyboard_bus = keyboard_bus })

unfoldable pub bus_ready : WireShim → Bool → Bool
bus_ready w powered =
    powered
    && w.begun
    && not w.sda_stuck
    && (w.clock_hz == keyboard_i2c_clock_hz || w.clock_hz == fast_i2c_clock_hz)

unfoldable pub probe_address : WireShim → Bool → ℕ → Bool
probe_address w powered address =
    bus_ready w powered && (address == keyboard_i2c_address || address == gt911_i2c_address)

unfoldable pub emit_stop : WireShim → WireShim
emit_stop w = clear_read_buffer (record w { transmit_address = none; transmit_buffer = [] })

unfoldable pub clock_out_recovery : WireShim → Bool → WireShim × ℕ
clock_out_recovery w powered =
    if not w.sda_stuck
    then (w, 0)
    else if not powered
    then (w, 2)
    else (record w { sda_stuck = false }, 1)

unfoldable pub set_sda_stuck : WireShim → Bool → WireShim
set_sda_stuck w stuck =
    let set = record w { sda_stuck = stuck } in if stuck then emit_stop set else set

unfoldable pub begin_transmission : WireShim → ℕ → WireShim
begin_transmission w address = record w { transmit_address = some address; transmit_buffer = [] }

abbrev pub is_none : Option ℕ → Bool
is_none none = true
is_none (some a) = false

unfoldable pub write_byte : WireShim → Bool → ℕ → WireShim × ℕ
write_byte w powered byte =
    if is_none w.transmit_address || not powered || w.sda_stuck
    then (w, 0)
    else if leb wire_tx_buffer_capacity (length w.transmit_buffer)
    then (w, 0)
    else (record w { transmit_buffer = w.transmit_buffer ++ byte ∷ [] }, 1)

-- A transaction for the touch controller: a register, and bytes for it.
unfoldable pub write_gt911 : WireShim → List ℕ → WireShim × ℕ
write_gt911 w [] = (w, 0)
write_gt911 w (high ∷ []) = (w, 4)
write_gt911 w (high ∷ low ∷ []) = (record w { gt911_register = high * 256 + low }, 0)
write_gt911 w (high ∷ low ∷ byte ∷ bytes) =
    let register = high * 256 + low in
    (record w { gt911_register = register; gt911 = i2c_write w.gt911 register (byte ∷ bytes) }, 0)

-- The transaction at its address.
unfoldable pub deliver : WireShim → ℕ → List ℕ → WireShim × ℕ
deliver w address bytes =
    if address == keyboard_i2c_address
    then (let (saved, keyboard_bus) = I2cKeyboard.write_transaction w.saved w.keyboard_bus bytes in
        (record w { saved = saved; keyboard_bus = keyboard_bus }, 0))
    else if address == gt911_i2c_address
    then write_gt911 w bytes
    else (w, 2)

unfoldable pub end_transmission : WireShim → Bool → WireShim × ℕ
end_transmission w powered = elim w.transmit_address [
  | none ↦ (w, 4)
  | some address ↦
      let ended = record w { transmit_address = none; transmit_buffer = [] } in
      if not powered || w.sda_stuck
      then (clear_read_buffer ended, 2)
      else if not w.begun
      then (ended, 4)
      else deliver ended address w.transmit_buffer
]

-- The keyboard answers one byte, at its own clock only.
unfoldable pub request_keyboard : WireShim → WireShim × ℕ
request_keyboard w =
    if ltb keyboard_i2c_clock_hz w.clock_hz
    then (w, 0)
    else let (keyboard_bus, key) = I2cKeyboard.read_key_byte w.keyboard_bus in
      (record w { keyboard_bus = keyboard_bus; read_buffer = key ∷ [] }, 1)

-- The touch controller answers all bytes or none.
unfoldable pub request_gt911 : WireShim → ℕ → WireShim × ℕ
request_gt911 w count =
    if ltb wire_rx_buffer_capacity count
    then (w, 0)
    else let (gt911, bytes) = i2c_read w.gt911 w.gt911_register count in
      if not (length bytes == count)
      then (record w { gt911 = gt911; read_buffer = []; read_position = 0 }, 0)
      else (record w { gt911 = gt911; read_buffer = bytes }, count)

unfoldable pub request_from : WireShim → Bool → ℕ → ℕ → WireShim × ℕ
request_from before powered address count =
    let w = clear_read_buffer before in
    if not (bus_ready w powered) || count == 0
    then (w, 0)
    else if address == keyboard_i2c_address
    then request_keyboard w
    else if address == gt911_i2c_address
    then request_gt911 w count
    else (w, 0)

unfoldable pub read : WireShim → Bool → WireShim × Option ℕ
read w powered = if not powered then (w, none) else elim (get_elem? w.read_buffer w.read_position) [
  | none ↦ (w, none)
  | some byte ↦ (record w { read_position = suc w.read_position }, some byte)
]

unfoldable pub available : WireShim → Bool → ℕ
available w powered = if not powered then 0 else length w.read_buffer - w.read_position
