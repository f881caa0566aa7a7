-- ===== src/Input/Manager.antt =====
-- The input devices of one instance behind the events of SDL, core/input/src/manager.rs. The clock is
-- an argument: `event_ms` stamps an event of the trackball, and `wake_ms` is read when activity is
-- noted. The map of retained brightness is passed to `new`.
pub mod Contact
mod Tests
pub mod Calls
pub mod Reported
pub mod Queues
pub mod Coupled
pub mod Finger
use project_mycelium.Common.{
  ℕ, ◌-◌, Bool, true, false, not, ◌&&◌, ◌==◌, leb, String, List, [], ◌∷◌, ◌++◌, length, Option,
  none, some, if◌then◌else◌,
}
use project_mycelium.Common.Int.{ℤ, pos}
use project_mycelium.Common.Float.{Float}
use project_mycelium.Input.Gt911.{Gt911Controller, set_contact_size}
use project_mycelium.Input.Gt911.Touch.{inject_touch as inject_contact}
use project_mycelium.Input.Gt911.Registers.{gpio16_level}
use project_mycelium.Input.Gt911.Registry.{
  ControllerRegistry, configuration_of, new_controller, apply_failure_mode,
}
use project_mycelium.Input.I2cKeyboard.{
  Backlights, I2cKeyboardBus, new_for_instance, inject_key_byte,
}
use project_mycelium.Input.Keyboard
use project_mycelium.Input.Keyboard.{
  Keycode, arrow_up, arrow_down, arrow_left, arrow_right, kp_enter, KeyEvent, KeyboardEmulator,
}
use project_mycelium.Input.Trackball
use project_mycelium.Input.Trackball.{
  TrackballGpio, TrackballDirection, TrackballEvent, up, down, left, right, center,
}
use project_mycelium.Input.MouseTouch
use project_mycelium.Input.MouseTouch.{Gt911TouchEvent, MouseButton, TouchEmulator}

abbrev pub input_event_queue_capacity : ℕ
input_event_queue_capacity = 64

abbrev pub gt911_int_gpio : ℕ
gt911_int_gpio = 16

pub data InputEvent : Type 0 where
  touch : Gt911TouchEvent → InputEvent
  keyboard : KeyEvent → InputEvent
  trackball : TrackballEvent → InputEvent

-- The events of SDL that the code looks at; `other` stands for the rest.
pub data Event : Type 0 where
  mouse_motion : ℤ → ℤ → Event
  mouse_button_down : MouseButton → ℤ → ℤ → Event
  mouse_button_up : MouseButton → ℤ → ℤ → Event
  key_down : Option Keycode → Event
  key_up : Option Keycode → Event
  other : Event

-- The key's direction, in `TrackballGpio::handle_key`.
unfoldable pub direction_of : Keycode → Option TrackballDirection
direction_of arrow_up = some up
direction_of arrow_down = some down
direction_of arrow_left = some left
direction_of arrow_right = some right
direction_of kp_enter = some center
direction_of k = none

unfoldable pub enqueue_bounded {ℓ} : {A : Type ℓ} → List A → A → List A
enqueue_bounded queue event =
    if leb input_event_queue_capacity (length queue) then queue else queue ++ event ∷ []

unfoldable pub pop_front {ℓ} : {A : Type ℓ} → List A → List A × Option A
pop_front [] = ([], none)
pop_front (event ∷ queue) = (queue, some event)

module _ (float : Float) where
  open float use {F}

  pub record InputManager : Type 0 where
    pub touch : TouchEmulator float
    pub keyboard : KeyboardEmulator
    pub trackball : TrackballGpio
    pub i2c_keyboard : I2cKeyboardBus
    pub gt911 : Gt911Controller
    pub instance_id : String
    pub last_activity_ms : ℕ
    pub touch_events : List Gt911TouchEvent
    pub keyboard_events : List KeyEvent
    pub trackball_events : List TrackballEvent

  -- The controller starts with the failure modes of its instance.
  unfoldable pub new : Backlights → ControllerRegistry → String → F → ℕ → InputManager
  new saved registry id scale now = record {
    touch = MouseTouch.new float 320 240 scale;
    keyboard = Keyboard.new;
    trackball = Trackball.new;
    i2c_keyboard = new_for_instance saved id;
    gt911 = new_controller (configuration_of registry id);
    instance_id = id;
    last_activity_ms = now;
    touch_events = [];
    keyboard_events = [];
    trackball_events = [];
  }

  unfoldable pub wake : InputManager → ℕ → InputManager
  wake m now = record m { last_activity_ms = now }

  unfoldable pub should_auto_off : InputManager → ℕ → ℕ → Bool
  should_auto_off m now timeout = leb timeout (now - m.last_activity_ms)

  -- A host position is not negative, where the controller's mapping does not overflow.
  unfoldable pub update_gt911 : InputManager → Bool → InputManager
  update_gt911 m pressed = elim m.touch.last_host_position [
    | none ↦ m
    | some (x, y) ↦ elim (inject_contact m.gt911 (pos x) (pos y) pressed) [
      | none ↦ m
      | some c ↦ record m { gt911 = c }
    ]
  ]

  -- What a call on the mouse leaves and reports: an event reaches the controller and the queue.
  unfoldable pub after_touch :
      InputManager
      → TouchEmulator float × Option Gt911TouchEvent
      → Bool
      → InputManager × List InputEvent
  unfolding update_gt911 enqueue_bounded
  after_touch m (t, none) pressed = (record m { touch = t }, [])
  after_touch m (t, some event) pressed =
      let m' = update_gt911 (record m { touch = t }) pressed in
      (record m' { touch_events = enqueue_bounded m'.touch_events event }, touch event ∷ [])

  -- The first half of `handle_keycode`, on the keyboard.
  unfoldable pub on_keyboard : InputManager → Keycode → Bool → InputManager × List InputEvent
  unfolding enqueue_bounded
  on_keyboard m k pressed =
      let (kb, reported) = Keyboard.handle_key m.keyboard k pressed in
      let m' = record m { keyboard = kb } in
      elim reported [
        | none ↦ (m', [])
        | some event ↦ (
          record m' {
            i2c_keyboard =
                if event.pressed && not (event.key_byte == 0)
                then inject_key_byte m'.i2c_keyboard event.key_byte
                else m'.i2c_keyboard;
            keyboard_events = enqueue_bounded m'.keyboard_events event;
          },
          keyboard event ∷ [],
        )
      ]

  -- The second half, on the trackball.
  unfoldable pub on_trackball : InputManager → ℕ → Keycode → Bool → InputManager × List InputEvent
  unfolding enqueue_bounded direction_of
  on_trackball m event_ms k pressed =
      let (ball, reported) = Trackball.handle_key m.trackball (direction_of k) pressed in
      let m' = record m { trackball = ball } in
      elim reported [
        | none ↦ (m', [])
        | some e ↦
            let event = record e { timestamp_ms = event_ms } in
            (
              record m' { trackball_events = enqueue_bounded m'.trackball_events event },
              trackball event ∷ [],
            )
      ]

  unfoldable pub handle_keycode : InputManager → ℕ → Keycode → Bool → InputManager × List InputEvent
  unfolding on_keyboard on_trackball
  handle_keycode m event_ms k pressed =
      let (m', events) = on_keyboard m k pressed in
      let (m'', more) = on_trackball m' event_ms k pressed in (m'', events ++ more)

  unfoldable pub dispatch : InputManager → ℕ → Event → InputManager × List InputEvent
  unfolding after_touch handle_keycode
  dispatch m ms (mouse_motion x y) =
      after_touch m (MouseTouch.handle_mouse_motion float m.touch x y) true
  dispatch m ms (mouse_button_down b x y) =
      after_touch m (MouseTouch.handle_mouse_button_at float m.touch b true x y) true
  dispatch m ms (mouse_button_up b x y) =
      after_touch m (MouseTouch.handle_mouse_button_at float m.touch b false x y) false
  dispatch m ms (key_down (some k)) = handle_keycode m ms k true
  dispatch m ms (key_up (some k)) = handle_keycode m ms k false
  dispatch m ms (key_down none) = (m, [])
  dispatch m ms (key_up none) = (m, [])
  dispatch m ms other = (m, [])

  -- Activity is noted where there were events.
  unfoldable pub woken : ℕ → InputManager × List InputEvent → InputManager × List InputEvent
  unfolding wake
  woken now (m, []) = (m, [])
  woken now (m, event ∷ events) = (wake m now, event ∷ events)

  unfoldable pub handle_sdl_event : InputManager → ℕ → ℕ → Event → InputManager × List InputEvent
  unfolding dispatch woken
  handle_sdl_event m event_ms wake_ms event = woken wake_ms (dispatch m event_ms event)

  unfoldable pub inject_touch : InputManager → ℕ → ℕ → ℕ → Bool → InputManager × Bool
  unfolding update_gt911 enqueue_bounded wake
  inject_touch m wake_ms x y pressed =
      let (t, reported) = MouseTouch.inject float m.touch x y pressed in
      let m' = record m { touch = t } in
      elim reported [
        | none ↦ (m', false)
        | some event ↦
            let m'' = update_gt911 m' pressed in
            (
              wake (record m'' { touch_events = enqueue_bounded m''.touch_events event }) wake_ms,
              true,
            )
      ]

  unfoldable pub inject_key : InputManager → ℕ → ℕ → Keycode → Bool → InputManager × List InputEvent
  unfolding handle_keycode woken
  inject_key m event_ms wake_ms k pressed = woken wake_ms (handle_keycode m event_ms k pressed)

  unfoldable pub set_touch_contact_size : InputManager → ℕ → InputManager
  set_touch_contact_size m size = record m {
    touch = MouseTouch.set_contact_size float m.touch size;
    gt911 = set_contact_size m.gt911 size;
  }

  -- What `set_failure_mode_for_instance` does to the manager's own controller.
  unfoldable pub set_gt911_failure_mode : InputManager → ℕ → ℕ → InputManager
  set_gt911_failure_mode m mode value = record m { gt911 = apply_failure_mode mode value m.gt911 }

  unfoldable pub digital_read : InputManager → ℕ → Bool
  digital_read m gpio =
      if gpio == gt911_int_gpio
      then gpio16_level m.gt911
      else Trackball.digital_read m.trackball gpio

  unfoldable pub take_falling_edges : InputManager → ℕ → InputManager × ℕ
  take_falling_edges m gpio =
      let (ball, edges) = Trackball.take_falling_edges m.trackball gpio in
      (record m { trackball = ball }, edges)

  unfoldable pub set_gpio_intr_enabled : InputManager → ℕ → Bool → InputManager
  set_gpio_intr_enabled m gpio enabled = record m {
    trackball = Trackball.set_gpio_intr_enabled m.trackball gpio enabled;
  }

  unfoldable pub poll_touch : InputManager → InputManager × Option Gt911TouchEvent
  unfolding pop_front
  poll_touch m =
      let (queue, event) = pop_front m.touch_events in (record m { touch_events = queue }, event)

  unfoldable pub poll_keyboard : InputManager → InputManager × Option KeyEvent
  unfolding pop_front
  poll_keyboard m =
      let (queue, event) = pop_front m.keyboard_events in
      (record m { keyboard_events = queue }, event)

  unfoldable pub poll_trackball : InputManager → InputManager × Option TrackballEvent
  unfolding pop_front
  poll_trackball m =
      let (queue, event) = pop_front m.trackball_events in
      (record m { trackball_events = queue }, event)
