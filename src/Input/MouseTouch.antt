-- ===== src/Input/MouseTouch.antt =====
-- The mouse as a finger on the panel, core/input/src/touch.rs. The sizes of the display are `u32`
-- values; a host position is never negative, and is a pair of natural numbers. The scale is a
-- float, and the quotient by it that is converted is that of a number that is not negative.
use project_mycelium.Common.{
  ℕ, ◌-◌, ◌%◌, min, Bool, true, false, not, ◌&&◌, ◌||◌, ltb, leb, Option, none, some, if◌then◌else◌,
}
use project_mycelium.Common.Int.{ℤ, pos, negsuc}
use project_mycelium.Common.Float.{Float}
use project_mycelium.Input.Gt911.{default_gt911_contact_size}

pub record Gt911TouchEvent : Type 0 where
  pub x : ℕ
  pub y : ℕ
  pub pressure : ℕ
  pub touch_id : ℕ

-- The buttons of SDL: the one that the code asks for, and the rest.
pub data MouseButton : Type 0 where
  left : MouseButton
  other : MouseButton

abbrev pub is_left : MouseButton → Bool
is_left left = true
is_left other = false

abbrev pub same : Bool → Bool → Bool
same true b = b
same false b = not b

unfoldable pub portrait_event : ℕ × ℕ → Bool → ℕ → Gt911TouchEvent
portrait_event (host_x, host_y) pressed contact_size = record {
  x = min host_y 239;
  y = 319 - host_x;
  pressure = if pressed then min contact_size 255 else 0;
  touch_id = 0;
}

module _ (float : Float) where
  open float use {F, lit, of_nat, div, lt, is_finite, to_nat}

  pub record TouchEmulator : Type 0 where
    pub display_width : ℕ
    pub display_height : ℕ
    pub window_scale : F
    pub last_host_position : Option (ℕ × ℕ)
    pub last_touch : Option Gt911TouchEvent
    pub contact_size : ℕ
    pub pressing : Bool

  -- A scale that is not finite and positive is taken as 1.
  unfoldable pub valid_scale : F → F
  valid_scale s = if is_finite s && lt (lit 0 0) s then s else lit 1 0

  unfoldable pub new : ℕ → ℕ → F → TouchEmulator
  unfolding valid_scale
  new width height s = record {
    display_width = width;
    display_height = height;
    window_scale = valid_scale s;
    last_host_position = none;
    last_touch = none;
    contact_size = default_gt911_contact_size;
    pressing = false;
  }

  -- `value < bound as i32`, for a value that is not negative and a bound that is a `u32`.
  abbrev lt_i32 : ℕ → ℕ → Bool
  lt_i32 value bound = leb bound 2147483647 && ltb value bound

  -- `(value as f32 / scale) as i32`.
  unfoldable pub scaled : F → ℕ → ℕ
  scaled scale value = min (to_nat (div (of_nat value) scale)) 2147483647

  unfoldable pub scale_position : TouchEmulator → ℤ → ℤ → Option (ℕ × ℕ)
  unfolding scaled
  scale_position t (negsuc x) y = none
  scale_position t (pos x) (negsuc y) = none
  scale_position t (pos x) (pos y) =
      let at_x = scaled t.window_scale x in
      let at_y = scaled t.window_scale y in
      if lt_i32 at_x t.display_width && lt_i32 at_y t.display_height
      then some (at_x, at_y)
      else none

  unfoldable pub emit : TouchEmulator → ℕ × ℕ → Bool → TouchEmulator × Option Gt911TouchEvent
  unfolding portrait_event
  emit t host pressed =
      let event = portrait_event host pressed t.contact_size in
      (record t { last_touch = some event }, some event)

  -- A motion at a position on the display.
  motion_at : TouchEmulator → ℕ × ℕ → TouchEmulator × Option Gt911TouchEvent
  motion_at t host =
      let moved = record t { last_host_position = some host } in
      if not t.pressing then (moved, none) else emit moved host true

  unfoldable pub handle_mouse_motion :
      TouchEmulator → ℤ → ℤ → TouchEmulator × Option Gt911TouchEvent
  unfolding motion_at emit scale_position
  handle_mouse_motion t x y = elim (scale_position t x y) [
    | none ↦ (t, none)
    | some host ↦ motion_at t host
  ]

  unfoldable pub handle_mouse_button :
      TouchEmulator → MouseButton → Bool → TouchEmulator × Option Gt911TouchEvent
  unfolding emit
  handle_mouse_button t button pressed =
      if not (is_left button)
      then (t, none)
      else if same t.pressing pressed
      then (t, none)
      else let changed = record t { pressing = pressed } in
        elim t.last_host_position [ none ↦ (changed, none) | some host ↦ emit changed host pressed ]

  unfoldable pub handle_mouse_button_at :
      TouchEmulator → MouseButton → Bool → ℤ → ℤ → TouchEmulator × Option Gt911TouchEvent
  unfolding handle_mouse_button scale_position
  handle_mouse_button_at t button pressed x y = elim (scale_position t x y) [
    | some host ↦ handle_mouse_button (record t { last_host_position = some host }) button pressed
    | none ↦ if pressed then (t, none) else handle_mouse_button t button pressed
  ]

  unfoldable pub inject : TouchEmulator → ℕ → ℕ → Bool → TouchEmulator × Option Gt911TouchEvent
  unfolding emit
  inject t x y pressed =
      if leb (t.display_width % 65536) x || leb (t.display_height % 65536) y
      then (t, none)
      else emit (record t { pressing = pressed; last_host_position = some (x, y) }) (x, y) pressed

  unfoldable pub set_window_scale : TouchEmulator → F → TouchEmulator
  unfolding valid_scale
  set_window_scale t s = record t { window_scale = valid_scale s }

  unfoldable pub set_contact_size : TouchEmulator → ℕ → TouchEmulator
  set_contact_size t size = record t { contact_size = size }
