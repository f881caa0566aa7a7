-- ===== src/Input/Gt911/Touch.antt =====
-- Contacts from the host: `inject_touch` and `inject_point` of core/input/src/gt911.rs.
use project_mycelium.Common.{
  ℕ, suc, ◌+◌, ◌-◌, min, Bool, true, false, not, ◌&&◌, leb, set, Option, none, some, if◌then◌else◌,
}
use project_mycelium.Common.Int.{ℤ, pos, negsuc}
use project_mycelium.Common.Word.{u16_max}
use project_mycelium.Input.Gt911.{
  gt911_max_touches, Gt911Point, Gt911Controller, is_pressed, arm_frame_stall, frame_is_stalled,
  mark_frame_ready, set_primary,
}

-- `value.clamp(0, high) as u16`.
unfoldable pub clamp_to : ℕ → ℤ → ℕ
clamp_to high (pos n) = min n high
clamp_to high (negsuc n) = 0

-- `(319 - mouse_x).clamp(0, 319) as u16` on `i32`; `none` where the difference overflows.
unfoldable pub reversed : ℤ → Option ℕ
reversed (pos n) = some (319 - n)
reversed (negsuc n) = if leb (319 + suc n) 2147483647 then some 319 else none

-- A press under the phantom latch: the contact stays where it was latched.
unfoldable pub hold_latched : Gt911Controller → ℕ × ℕ → Gt911Point → Gt911Controller
hold_latched c raw latched =
    let held = record (set_primary c (some latched)) { phantom_point = some latched } in
    elim c.phantom_started_ms [
      | none ↦ record held {
        phantom_started_ms = some c.now_ms;
        last_raw_position = some raw;
        last_mapped_position = some (latched.x, latched.y);
      }
      | some _ ↦ held
    ]

-- The branch of `inject_touch` for a pressed contact.
unfoldable pub touch_pressed : Gt911Controller → ℕ × ℕ → Gt911Point → Gt911Controller
touch_pressed c raw point =
    if c.phantom_latch
    then hold_latched c raw (elim c.phantom_point [ none ↦ point | some p ↦ p ])
    else record (set_primary c (some point)) {
      last_raw_position = some raw;
      last_mapped_position = some (point.x, point.y);
    }

unfoldable pub touch_released : Gt911Controller → Gt911Controller
touch_released c =
    let lift = mark_frame_ready (record (set_primary c none) {
      stall_started_ms = none;
      stall_until_ms = none;
      phantom_point = none;
      phantom_started_ms = none;
    }) in
    if c.phantom_latch
    then elim c.phantom_point [
      | none ↦ lift
      | some p ↦
          let held = set_primary c (some p) in
          if frame_is_stalled held then held else mark_frame_ready held
    ]
    else lift

-- The two branches of `inject_touch`, for a mapped point.
unfoldable pub touch_mapped : Gt911Controller → ℕ × ℕ → Gt911Point → Bool → Gt911Controller
touch_mapped c raw point false = touch_released (record c { physical_primary = none })
touch_mapped c raw point true =
    let held = touch_pressed (record c { physical_primary = some (raw, point) }) raw point in
    if not (is_pressed c)
    then mark_frame_ready (arm_frame_stall held)
    else if not (frame_is_stalled held)
    then mark_frame_ready held
    else held

-- `none` where `319 - mouse_x` overflows.
unfoldable pub inject_touch : Gt911Controller → ℤ → ℤ → Bool → Option Gt911Controller
inject_touch c mouse_x mouse_y pressed = elim (reversed mouse_x) [
  | none ↦ none
  | some y ↦
      let point : Gt911Point = record {
        track_id = 0;
        x = clamp_to 239 mouse_y;
        y = y;
        size = c.contact_size;
      } in
      some (touch_mapped c (clamp_to u16_max mouse_x, clamp_to u16_max mouse_y) point pressed)
]

unfoldable pub inject_point : Gt911Controller → Gt911Point → Bool → Gt911Controller × Bool
inject_point c point pressed =
    if leb gt911_max_touches point.track_id
    then (c, false)
    else let placed = record c {
      touch_points = set c.touch_points point.track_id (if pressed then some point else none);
      last_raw_position = some (point.x, point.y);
      last_mapped_position = some (point.x, point.y);
    } in
      (
        mark_frame_ready (if pressed && not (is_pressed c) then arm_frame_stall placed else placed),
        true,
      )
