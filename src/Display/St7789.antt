-- ===== src/Display/St7789.antt =====
-- The ST7789 panel controller, core/display/src/st7789.rs. The owner of the shared bus is passed
-- along. A panic (an index out of range, or a `u16` difference below 0 where overflow is checked) is
-- the result `none`, beside the state that it leaves.
pub mod Write
pub mod Orientation
pub mod Place
pub mod Panel
pub mod Fills
pub mod Valid
pub mod Calls
use project_mycelium.Common.{
  ℕ, zero, suc, ◌+◌, ◌-◌, ◌*◌, ◌/◌, ◌%◌, Bool, true, false, not, ◌&&◌, ◌||◌, ◌==◌, ltb, leb, List,
  [], ◌∷◌, length, replicate, Option, none, some, if◌then◌else◌,
}
use project_mycelium.Common.Word.{u16_max}
use project_mycelium.Common.Result.{Result, Done, ok, err}
use project_mycelium.Common.Bytes.{slice, copy_from_slice}
use project_mycelium.Display.SharedSpi.{SpiDevice, display, SpiError, transaction}
use project_mycelium.Display.Framebuffer.{st7789_wire_to_host_rgb565}

abbrev pub st7789_caset : ℕ
st7789_caset = 0x2a

abbrev pub st7789_raset : ℕ
st7789_raset = 0x2b

abbrev pub st7789_ramwr : ℕ
st7789_ramwr = 0x2c

abbrev pub st7789_madctl : ℕ
st7789_madctl = 0x36

abbrev pub st7789_invon : ℕ
st7789_invon = 0x21

abbrev pub st7789_invoff : ℕ
st7789_invoff = 0x20

abbrev pub t_deck_madctl : ℕ
t_deck_madctl = 0x55

pub record St7789Controller : Type 0 where
  pub width : ℕ
  pub height : ℕ
  pub gram : List ℕ
  pub reset_high : Bool
  pub reset_seen_low : Bool
  pub initialized : Bool
  pub inverted : Bool
  pub madctl : ℕ
  pub backlight : ℕ
  pub column : ℕ × ℕ
  pub row : ℕ × ℕ
  pub ram_write_selected : Bool

-- The texts of the `ensure!`s and the `bail!`, and a refused transaction.
pub data St7789Error : Type 0 where
  bus_error : SpiError → St7789Error
  held_in_reset no_reset_sequence madctl_length invon_data invoff_data ramwr_data : St7789Error
  window_length window_outside not_initialized not_selected odd_byte_count : St7789Error
  wrong_fill outside_gram : St7789Error

unfoldable pub new : ℕ → ℕ → St7789Controller
new width height = record {
  width = width;
  height = height;
  gram = replicate (width * height * 2) 0;
  reset_high = true;
  reset_seen_low = false;
  initialized = false;
  inverted = false;
  madctl = 0;
  backlight = 0;
  column = (0, width - 1);
  row = (0, height - 1);
  ram_write_selected = false;
}

unfoldable pub set_reset : St7789Controller → Bool → St7789Controller
set_reset c true = record c { reset_high = true }
set_reset c false = record c {
  reset_high = false;
  reset_seen_low = true;
  initialized = false;
  inverted = false;
  madctl = 0;
  ram_write_selected = false;
}

unfoldable pub set_backlight : St7789Controller → ℕ → St7789Controller
set_backlight c duty = record c { backlight = duty }

-- Two big-endian words, the second not below the first and below `limit`.
unfoldable pub parse_window : List ℕ → ℕ → Result St7789Error (ℕ × ℕ)
parse_window (a ∷ b ∷ c ∷ d ∷ []) limit =
    let start = a * 256 + b in
    let end = c * 256 + d in
    if leb start end && ltb end limit then ok (start, end) else err window_outside
parse_window _ limit = err window_length

is_empty : List ℕ → Bool
is_empty [] = true
is_empty (b ∷ bs) = false

unfoldable pub apply_command : ℕ → List ℕ → St7789Controller → St7789Controller × Done St7789Error
unfolding is_empty
apply_command command data' before =
    let c = record before { ram_write_selected = false } in
    if command == st7789_madctl
    then elim data' [ b ∷ [] ↦ (record c { madctl = b }, ok tt) | _ ↦ (c, err madctl_length) ]
    else if command == st7789_invon
    then if is_empty data' then (record c { inverted = true }, ok tt) else (c, err invon_data)
    else if command == st7789_invoff
    then if is_empty data' then (record c { inverted = false }, ok tt) else (c, err invoff_data)
    else if command == st7789_caset
    then elim (parse_window data' c.width) [
      | ok window ↦ (record c { column = window }, ok tt)
      | err e ↦ (c, err e)
    ]
    else if command == st7789_raset
    then elim (parse_window data' c.height) [
      | ok window ↦ (record c { row = window }, ok tt)
      | err e ↦ (c, err e)
    ]
    else if command == st7789_ramwr
    then if is_empty data'
      then (record c { ram_write_selected = true }, ok tt)
      else (c, err ramwr_data)
    else (c, ok tt)
