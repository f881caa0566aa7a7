-- ===== src/Input/Manager/Calls.antt =====
-- The calls on an input manager, core/input/src/manager.rs, and those of the firmware on its touch
-- controller, in any order.
use project_mycelium.Common.{ℕ, Bool, List, [], ◌∷◌, Option}
use mathlib.Core.Option
use project_mycelium.Common.Float.{Float}
use project_mycelium.Input.Gt911.Registers.{tick, i2c_read, i2c_write}
use project_mycelium.Input.Keyboard
use project_mycelium.Input.Keyboard.{Keycode, KeyEvent}
use project_mycelium.Input.Trackball
use project_mycelium.Input.Trackball.{TrackballEvent}
use project_mycelium.Input.MouseTouch
use project_mycelium.Input.MouseTouch.{TouchEmulator}
use project_mycelium.Input.Manager.{
  InputManager, Event, handle_sdl_event, inject_touch, inject_key, set_touch_contact_size,
  set_gt911_failure_mode, take_falling_edges, set_gpio_intr_enabled, poll_touch, poll_keyboard,
  poll_trackball,
}
use project_mycelium.Input.Manager.Coupled.{IsCoupled}
use project_mycelium.Input.Manager.Queues.{IsBounded}

module _ (float : Float) where
  open float use {F}

  -- One call; the last three are the clock's and the firmware's on the controller.
  pub data Call : Type 0 where
    sdl : ℕ → ℕ → Event → Call
    touch_at : ℕ → ℕ → ℕ → Bool → Call
    key : ℕ → ℕ → Keycode → Bool → Call
    contact_size : ℕ → Call
    failure_mode : ℕ → ℕ → Call
    edges : ℕ → Call
    interrupt : ℕ → Bool → Call
    next_touch next_key next_ball : Call
    clock : ℕ → Call
    read : ℕ → ℕ → Call
    write : ℕ → List ℕ → Call

  unfoldable pub call : InputManager float → Call → InputManager float
  call m (sdl event_ms wake_ms event) = (handle_sdl_event float m event_ms wake_ms event).0
  call m (touch_at wake_ms x y pressed) = (inject_touch float m wake_ms x y pressed).0
  call m (key event_ms wake_ms k pressed) = (inject_key float m event_ms wake_ms k pressed).0
  call m (contact_size size) = set_touch_contact_size float m size
  call m (failure_mode mode value) = set_gt911_failure_mode float m mode value
  call m (edges gpio) = (take_falling_edges float m gpio).0
  call m (interrupt gpio enabled) = set_gpio_intr_enabled float m gpio enabled
  call m next_touch = (poll_touch float m).0
  call m next_key = (poll_keyboard float m).0
  call m next_ball = (poll_trackball float m).0
  call m (clock now_ms) = record m { gt911 = tick m.gt911 now_ms }
  call m (read register len) = record m { gt911 = (i2c_read m.gt911 register len).0 }
  call m (write register bytes) = record m { gt911 = i2c_write m.gt911 register bytes }

  unfoldable pub run_calls : InputManager float → List Call → InputManager float
  run_calls m [] = m
  run_calls m (c ∷ cs) = run_calls (call m c) cs

  abbrev CoupledAfter {ℓ} : {A : Type ℓ} → InputManager float × A → Type 0
  CoupledAfter r = IsCoupled float r.0

  abbrev BoundedAfter {ℓ} : {A : Type ℓ} → InputManager float × A → Type 0
  BoundedAfter r = IsBounded float r.0
