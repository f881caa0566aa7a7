-- ===== src/Input/Gt911/Registers.antt =====
-- The registers of the GT911, and its clock: `tick`, `i2c_read` and `i2c_write` of
-- core/input/src/gt911.rs.
use project_mycelium.Common.{
  ℕ, zero, suc, ◌+◌, ◌-◌, ◌/◌, ◌%◌, min, Bool, true, false, not, ◌&&◌, ◌||◌, ◌==◌, ltb, leb, List,
  [], ◌∷◌, length, get_elem?, none, some, if◌then◌else◌,
}
use project_mycelium.Common.Word.{u16_max, sat_add64}
use project_mycelium.Input.Gt911.{
  Gt911Point, Gt911Controller, is_pressed, pressed_points, frame_is_stalled, mark_frame_ready,
  gt911_scan_interval_ms, gt911_bus_watchdog_failures, gt911_frame_watchdog_ms,
  gt911_phantom_watchdog_ms,
}

abbrev pub gt911_config_x_register : ℕ
gt911_config_x_register = 0x8048

abbrev pub gt911_config_y_register : ℕ
gt911_config_y_register = 0x804a

abbrev pub gt911_product_id_register : ℕ
gt911_product_id_register = 0x8140

abbrev pub gt911_status_register : ℕ
gt911_status_register = 0x814e

-- `b"911\0"`.
abbrev pub gt911_product_id : List ℕ
gt911_product_id = 0x39 ∷ 0x31 ∷ 0x31 ∷ 0 ∷ []

-- The two watchdogs that `tick` looks at.
unfoldable pub frame_watchdog : Gt911Controller → Bool
frame_watchdog c = elim c.stall_started_ms [
  | none ↦ false
  | some started ↦ elim c.stall_until_ms [
    | none ↦ false
    | some until ↦
        let watchdog_at = sat_add64 started gt911_frame_watchdog_ms in
        ltb watchdog_at until && ltb watchdog_at c.now_ms && not c.frame_ready
  ]
]

unfoldable pub phantom_watchdog : Gt911Controller → Bool
phantom_watchdog c = c.phantom_latch && elim c.phantom_started_ms [
  | none ↦ false
  | some started ↦ ltb gt911_phantom_watchdog_ms (c.now_ms - started)
]

-- A scan is due: none has been made, or the last one is an interval ago.
unfoldable pub scan_due : Gt911Controller → Bool
scan_due c = elim c.last_frame_ms [
  | none ↦ true
  | some last_frame ↦ leb gt911_scan_interval_ms (c.now_ms - last_frame)
]

unfoldable pub tick : Gt911Controller → ℕ → Gt911Controller
tick before now_ms =
    let c = record before { now_ms = now_ms } in
    if not (is_pressed c)
    then c
    else let watched = record c {
      fired = record {
        bus_fired = c.fired.bus_fired;
        frame_fired = c.fired.frame_fired || frame_watchdog c;
        phantom_fired = c.fired.phantom_fired || phantom_watchdog c;
      };
    } in
      if c.frame_ready || frame_is_stalled watched
      then watched
      else if scan_due watched
      then mark_frame_ready watched
      else watched

-- GPIO16; the interrupt is active low.
unfoldable pub gpio16_level : Gt911Controller → Bool
gpio16_level c = not c.int_asserted

-- Whether this status read fails, by the accumulated percentage.
unfoldable pub fail_status_read : Gt911Controller → Gt911Controller × Bool
fail_status_read c =
    let accumulator = min (c.failure_accumulator + c.i2c_failure_rate) u16_max in
    if ltb accumulator 100
    then (record c { failure_accumulator = accumulator; consecutive_status_failures = 0 }, false)
    else let failing = record c { failure_accumulator = accumulator - 100 } in
      if is_pressed c
      then (let failures = min (c.consecutive_status_failures + 1) 255 in
          (
            record failing {
              consecutive_status_failures = failures;
              fired = record (c.fired) {
                bus_fired = c.fired.bus_fired || leb gt911_bus_watchdog_failures failures;
              };
            },
            true,
          ))
      else (record failing { consecutive_status_failures = 0 }, true)

-- Byte `index` of the eight that describe a contact.
unfoldable pub point_byte : Gt911Point → ℕ → ℕ
point_byte p index =
    if index == 0
    then p.track_id
    else if index == 1
    then p.x % 256
    else if index == 2
    then p.x / 256
    else if index == 3
    then p.y % 256
    else if index == 4
    then p.y / 256
    else if index == 5
    then p.size % 256
    else if index == 6
    then p.size / 256
    else 0

-- `value.to_le_bytes()[index]`.
le_byte : ℕ → ℕ → ℕ
le_byte value index = if index == 0 then value % 256 else value / 256

unfoldable pub point_register : Gt911Controller → ℕ → ℕ
point_register c offset = elim (get_elem? (pressed_points c.touch_points) (offset / 8)) [
  | none ↦ 0
  | some p ↦ point_byte p (offset % 8)
]

-- The registers from 0x8048 on that are not the product's name.
unfoldable pub data_register : Gt911Controller → ℕ → ℕ
unfolding le_byte
data_register c address =
    if leb gt911_config_x_register address && ltb address (gt911_config_x_register + 2)
    then le_byte c.max_x (address - gt911_config_x_register)
    else if leb gt911_config_y_register address && ltb address (gt911_config_y_register + 2)
    then le_byte c.max_y (address - gt911_config_y_register)
    else if address == gt911_status_register
    then if c.frame_ready then 0x80 + length (pressed_points c.touch_points) else 0
    else if ltb address (gt911_status_register + 1)
    then 0
    else point_register c (address - (gt911_status_register + 1))

unfoldable pub register_byte : Gt911Controller → ℕ → ℕ
register_byte c address =
    if leb gt911_product_id_register address
    then elim (get_elem? gt911_product_id (address - gt911_product_id_register)) [
      | none ↦ data_register c address
      | some byte ↦ byte
    ]
    else data_register c address

-- The loop over the buffer, with `offset as u16`: it stops at the end of the address space.
unfoldable pub read_window : Gt911Controller → ℕ → ℕ → ℕ → List ℕ
read_window c register offset zero = []
read_window c register offset (suc n) =
    let address = register + offset % (u16_max + 1) in
    if leb address u16_max
    then register_byte c address ∷ read_window c register (suc offset) n
    else []

-- The bytes that are read; none of them is a failed read.
unfoldable pub i2c_read : Gt911Controller → ℕ → ℕ → Gt911Controller × List ℕ
i2c_read c register len =
    if register == gt911_status_register
    then (let (c', failed) = fail_status_read c in
        if failed then (c', []) else (c', read_window c' register 0 len))
    else (c, read_window c register 0 len)

unfoldable pub i2c_write : Gt911Controller → ℕ → List ℕ → Gt911Controller
i2c_write c register [] = c
i2c_write c register (byte ∷ bytes) =
    if register == gt911_status_register && byte == 0
    then record c { frame_ready = false; int_asserted = false }
    else c
