-- ===== src/Input/Gt911.antt =====
-- The GT911 touch controller, core/input/src/gt911.rs: its state and what the host does to it. The
-- three sticky bits of `watchdog_status` are the fields of a record; the slots are a list of five.
pub mod Registers
pub mod Valid
pub mod Scan
pub mod Frames
pub mod Registry
pub mod Configured
pub mod Touch
use project_mycelium.Common.{
  ℕ, zero, suc, ◌+◌, ◌-◌, min, Bool, true, false, not, ◌&&◌, ◌||◌, ◌==◌, ltb, leb, List, [], ◌∷◌,
  replicate, set, Option, none, some, if◌then◌else◌,
}
use project_mycelium.Common.Int.{ℤ, pos, negsuc}
use project_mycelium.Common.Word.{u16_max, sat_add64}

abbrev pub default_gt911_contact_size : ℕ
default_gt911_contact_size = 50

abbrev pub default_gt911_max_x : ℕ
default_gt911_max_x = 320

abbrev pub default_gt911_max_y : ℕ
default_gt911_max_y = 240

abbrev pub gt911_max_touches : ℕ
gt911_max_touches = 5

abbrev pub gt911_scan_interval_ms : ℕ
gt911_scan_interval_ms = 10

abbrev pub gt911_bus_watchdog_failures : ℕ
gt911_bus_watchdog_failures = 8

abbrev pub gt911_frame_watchdog_ms : ℕ
gt911_frame_watchdog_ms = 250

abbrev pub gt911_phantom_watchdog_ms : ℕ
gt911_phantom_watchdog_ms = 10000

pub record Gt911Point : Type 0 where
  pub track_id : ℕ
  pub x : ℕ
  pub y : ℕ
  pub size : ℕ

pub record Fired : Type 0 where
  pub bus_fired : Bool
  pub frame_fired : Bool
  pub phantom_fired : Bool

pub record Gt911Controller : Type 0 where
  pub touch_points : List (Option Gt911Point)
  pub contact_size : ℕ
  pub max_x : ℕ
  pub max_y : ℕ
  pub int_asserted : Bool
  pub frame_ready : Bool
  pub now_ms : ℕ
  pub last_frame_ms : Option ℕ
  pub last_raw_position : Option (ℕ × ℕ)
  pub last_mapped_position : Option (ℕ × ℕ)
  pub physical_primary : Option ((ℕ × ℕ) × Gt911Point)
  pub i2c_failure_rate : ℕ
  pub failure_accumulator : ℕ
  pub consecutive_status_failures : ℕ
  pub frame_stall_ms : ℕ
  pub stall_started_ms : Option ℕ
  pub stall_until_ms : Option ℕ
  pub phantom_latch : Bool
  pub phantom_point : Option Gt911Point
  pub phantom_started_ms : Option ℕ
  pub fired : Fired

unfoldable pub new : Gt911Controller
new = record {
  touch_points = replicate gt911_max_touches none;
  contact_size = default_gt911_contact_size;
  max_x = default_gt911_max_x;
  max_y = default_gt911_max_y;
  int_asserted = false;
  frame_ready = false;
  now_ms = 0;
  last_frame_ms = none;
  last_raw_position = none;
  last_mapped_position = none;
  physical_primary = none;
  i2c_failure_rate = 0;
  failure_accumulator = 0;
  consecutive_status_failures = 0;
  frame_stall_ms = 0;
  stall_started_ms = none;
  stall_until_ms = none;
  phantom_latch = false;
  phantom_point = none;
  phantom_started_ms = none;
  fired = record { bus_fired = false; frame_fired = false; phantom_fired = false };
}

unfoldable pub set_contact_size : Gt911Controller → ℕ → Gt911Controller
set_contact_size c size = record c { contact_size = size }

unfoldable pub set_resolution : Gt911Controller → ℕ → ℕ → Gt911Controller
set_resolution c max_x max_y = record c { max_x = max_x; max_y = max_y }

unfoldable pub apply_calibration : Gt911Controller → ℕ → ℕ → ℕ → Gt911Controller
apply_calibration c max_x max_y size = record c {
  max_x = max_x;
  max_y = max_y;
  contact_size = size;
}

unfoldable pub set_i2c_failure_rate : Gt911Controller → ℕ → Gt911Controller
set_i2c_failure_rate c pct = record c {
  i2c_failure_rate = min pct 100;
  failure_accumulator = 0;
  consecutive_status_failures = 0;
  fired = record (c.fired) { bus_fired = false };
}

-- `touch_points.iter().flatten()`.
unfoldable pub pressed_points : List (Option Gt911Point) → List Gt911Point
pressed_points [] = []
pressed_points (none ∷ slots) = pressed_points slots
pressed_points (some p ∷ slots) = p ∷ pressed_points slots

unfoldable pub primary_point : Gt911Controller → Option Gt911Point
primary_point c = elim (pressed_points c.touch_points) [ [] ↦ none | p ∷ ps ↦ some p ]

unfoldable pub any_some : List (Option Gt911Point) → Bool
any_some [] = false
any_some (none ∷ slots) = any_some slots
any_some (some p ∷ slots) = true

unfoldable pub is_pressed : Gt911Controller → Bool
is_pressed c = any_some c.touch_points

unfoldable pub arm_frame_stall : Gt911Controller → Gt911Controller
arm_frame_stall c =
    if c.frame_stall_ms == 0 || not (is_pressed c)
    then record c { stall_started_ms = none; stall_until_ms = none }
    else record c {
      stall_started_ms = some c.now_ms;
      stall_until_ms = some (sat_add64 c.now_ms c.frame_stall_ms);
    }

unfoldable pub set_frame_stall_ms : Gt911Controller → ℕ → Gt911Controller
set_frame_stall_ms c ms =
    arm_frame_stall
      (record c { frame_stall_ms = ms; fired = record (c.fired) { frame_fired = false } })

unfoldable pub frame_is_stalled : Gt911Controller → Bool
frame_is_stalled c = elim c.stall_until_ms [ none ↦ false | some until ↦ ltb c.now_ms until ]

unfoldable pub mark_frame_ready : Gt911Controller → Gt911Controller
mark_frame_ready c = record c {
  frame_ready = true;
  int_asserted = true;
  last_frame_ms = some c.now_ms;
}

-- `touch_points[0] = ..`.
abbrev pub set_primary : Gt911Controller → Option Gt911Point → Gt911Controller
set_primary c slot = record c { touch_points = set c.touch_points 0 slot }

-- What disabling the latch restores.
unfoldable pub restore_physical : Gt911Controller → Gt911Controller
restore_physical c = elim c.physical_primary [
  | some (raw, point) ↦ record (set_primary c (some point)) {
    last_raw_position = some raw;
    last_mapped_position = some (point.x, point.y);
  }
  | none ↦ set_primary c none
]

unfoldable pub set_phantom_latch : Gt911Controller → Bool → Gt911Controller
set_phantom_latch c true =
    let primary = primary_point c in
    record c {
      phantom_latch = true;
      fired = record (c.fired) { phantom_fired = false };
      phantom_point = primary;
      phantom_started_ms = elim primary [ none ↦ none | some p ↦ some c.now_ms ];
    }
set_phantom_latch c false =
    let off = record c {
      phantom_latch = false;
      fired = record (c.fired) { phantom_fired = false };
      phantom_point = none;
      phantom_started_ms = none;
    } in
    if c.phantom_latch then mark_frame_ready (restore_physical off) else off
