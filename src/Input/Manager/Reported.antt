-- ===== src/Input/Manager/Reported.antt =====
-- Every event that core/input/src/manager.rs reports reaches its queue, while there is room, and
-- every key byte reaches the keyboard's bus.
use project_mycelium.Common.{
  ℕ, ◌≡◌, refl, sym, ap, ◌∙◌, Bool, true, false, not, ◌&&◌, ◌==◌, List, [], ◌∷◌, ◌++◌, Option, none,
  some, if◌then◌else◌, option_both,
}
use mathlib.Core.List.{append-nil}
use project_mycelium.Common.Int.{pos}
use project_mycelium.Common.Float.{Float}
use project_mycelium.Input.Gt911.Touch.{inject_touch as inject_contact}
use project_mycelium.Input.I2cKeyboard.{I2cKeyboardBus, inject_key_byte}
use project_mycelium.Input.Keyboard.{Keycode, KeyEvent}
use project_mycelium.Input.Keyboard
use project_mycelium.Input.Trackball
use project_mycelium.Input.Trackball.{TrackballEvent}
use project_mycelium.Input.MouseTouch
use project_mycelium.Input.MouseTouch.{Gt911TouchEvent, TouchEmulator}
use project_mycelium.Input.Manager.{
  InputManager, InputEvent, Event, mouse_motion, mouse_button_down, mouse_button_up, key_down,
  key_up, other, direction_of, enqueue_bounded, update_gt911, wake, after_touch, on_keyboard,
  on_trackball, handle_keycode, dispatch, woken, handle_sdl_event,
}
use project_mycelium.Input.Manager.Queues.{
  enqueue_bounded-filled, filled-nil, IsBounded, Fills, Fills-IsBounded, Fills-append,
}

key_bytes :
    (bus : I2cKeyboardBus) (byte : ℕ) (sent : Bool)
    → (if sent then inject_key_byte bus byte else bus).key_queue
      ≡ bus.key_queue ++ (if sent then byte ∷ [] else [])
unfolding inject_key_byte
key_bytes bus byte true = refl
key_bytes bus byte false = sym (append-nil bus.key_queue)

module _ (float : Float) where
  -- Nothing is reported and the queues stay.
  Fills-nil : (m : InputManager float) → IsBounded float m → Fills float m (m, [])
  Fills-nil m (t, k, b) = (
    sym (filled-nil m.touch_events t),
    sym (filled-nil m.keyboard_events k),
    sym (filled-nil m.trackball_events b),
    sym (append-nil m.i2c_keyboard.key_queue),
  )

  -- The queues and the bus of two managers are the same.
  abbrev pub SameQueues : InputManager float → InputManager float → Type 0
  SameQueues m m' =
      (m'.touch_events ≡ m.touch_events)
      × (m'.keyboard_events ≡ m.keyboard_events)
      × (m'.trackball_events ≡ m.trackball_events)
      × (m'.i2c_keyboard ≡ m.i2c_keyboard)

  pub update_gt911-SameQueues :
      (m : InputManager float) (pressed : Bool) → SameQueues m (update_gt911 float m pressed)
  unfolding update_gt911
  update_gt911-SameQueues m pressed =
      let same : SameQueues m m = (refl, refl, refl, refl) in
      option_both (SameQueues m) m.touch.last_host_position same (λ (x, y) e.
        option_both (SameQueues m) (inject_contact m.gt911 (pos x) (pos y) pressed) same
          (λ c e. (refl, refl, refl, refl)))

  after_touch-Fills :
      (m : InputManager float) (r : TouchEmulator float × Option Gt911TouchEvent) (pressed : Bool)
      → IsBounded float m
      → Fills float m (after_touch float m r pressed)
  unfolding after_touch
  after_touch-Fills m (t, none) pressed v = Fills-nil m v
  after_touch-Fills m (t, some event) pressed (t', k, b) =
      let (et, ek, eb, ei) = update_gt911-SameQueues (record m { touch = t }) pressed in
      (
        ap (λ q. enqueue_bounded q event) et ∙ enqueue_bounded-filled m.touch_events event t',
        ek ∙ sym (filled-nil m.keyboard_events k),
        eb ∙ sym (filled-nil m.trackball_events b),
        ap (λ i. i.key_queue) ei ∙ sym (append-nil m.i2c_keyboard.key_queue),
      )

  on_keyboard-Fills :
      (m : InputManager float) (k : Keycode) (pressed : Bool)
      → IsBounded float m
      → Fills float m (on_keyboard float m k pressed)
  unfolding on_keyboard
  on_keyboard-Fills m k pressed (t, kb, b) =
      let m' : InputManager float = record m {
        keyboard = (Keyboard.handle_key m.keyboard k pressed).0;
      } in
      option_both (Fills float m) (Keyboard.handle_key m.keyboard k pressed).1
        (Fills-nil m' (t, kb, b))
        (λ event e. (
          sym (filled-nil m.touch_events t),
          enqueue_bounded-filled m.keyboard_events event kb,
          sym (filled-nil m.trackball_events b),
          key_bytes m.i2c_keyboard event.key_byte (event.pressed && not (event.key_byte == 0)),
        ))

  on_trackball-Fills :
      (m : InputManager float) (ms : ℕ) (k : Keycode) (pressed : Bool)
      → IsBounded float m
      → Fills float m (on_trackball float m ms k pressed)
  unfolding on_trackball
  on_trackball-Fills m ms k pressed (t, kb, b) =
      let after = Trackball.handle_key m.trackball (direction_of k) pressed in
      let m' : InputManager float = record m { trackball = after.0 } in
      option_both (Fills float m) after.1 (Fills-nil m' (t, kb, b)) (λ e at.
        let event : TrackballEvent = record e { timestamp_ms = ms } in
        (
          sym (filled-nil m.touch_events t),
          sym (filled-nil m.keyboard_events kb),
          enqueue_bounded-filled m.trackball_events event b,
          sym (append-nil m.i2c_keyboard.key_queue),
        ))

  pub handle_keycode-Fills :
      (m : InputManager float) (ms : ℕ) (k : Keycode) (pressed : Bool)
      → IsBounded float m
      → Fills float m (handle_keycode float m ms k pressed)
  unfolding handle_keycode
  handle_keycode-Fills m ms k pressed v =
      let r = on_keyboard float m k pressed in
      let fills = on_keyboard-Fills m k pressed v in
      Fills-append float m r (on_trackball float r.0 ms k pressed) fills
        (on_trackball-Fills r.0 ms k pressed (Fills-IsBounded float m r fills))

  pub dispatch-Fills :
      (m : InputManager float) (ms : ℕ) (event : Event)
      → IsBounded float m
      → Fills float m (dispatch float m ms event)
  unfolding dispatch
  dispatch-Fills m ms (mouse_motion x y) v =
      after_touch-Fills m (MouseTouch.handle_mouse_motion float m.touch x y) true v
  dispatch-Fills m ms (mouse_button_down b x y) v =
      after_touch-Fills m (MouseTouch.handle_mouse_button_at float m.touch b true x y) true v
  dispatch-Fills m ms (mouse_button_up b x y) v =
      after_touch-Fills m (MouseTouch.handle_mouse_button_at float m.touch b false x y) false v
  dispatch-Fills m ms (key_down (some k)) v = handle_keycode-Fills m ms k true v
  dispatch-Fills m ms (key_up (some k)) v = handle_keycode-Fills m ms k false v
  dispatch-Fills m ms (key_down none) v = Fills-nil m v
  dispatch-Fills m ms (key_up none) v = Fills-nil m v
  dispatch-Fills m ms other v = Fills-nil m v

  pub woken-Fills :
      (m : InputManager float) (now : ℕ) (r : InputManager float × List InputEvent)
      → Fills float m r
      → Fills float m (woken float now r)
  unfolding woken wake
  woken-Fills m now (m', []) v = v
  woken-Fills m now (m', event ∷ events) v = v

  -- The events of SDL in order, each with the two times of its call, and all that they report.
  unfoldable pub run_events :
      InputManager float → List (ℕ × ℕ × Event) → InputManager float × List InputEvent
  run_events m [] = (m, [])
  run_events m ((event_ms, wake_ms, event) ∷ inputs) =
      let (m', events) = handle_sdl_event float m event_ms wake_ms event in
      let (m'', more) = run_events m' inputs in (m'', events ++ more)

  -- Without polls in between, each of the three queues holds what waited in it and behind that the
  -- events of its kind that were reported, in order, cut off at 64 events; the keyboard's bus holds
  -- what waited there and behind it the byte of every key that was reported to go down with a byte,
  -- however many these are.
  pub run_events-Fills :
      (inputs : List (ℕ × ℕ × Event)) (m : InputManager float)
      → IsBounded float m
      → Fills float m (run_events m inputs)
  unfolding run_events handle_sdl_event
  run_events-Fills [] m v = Fills-nil m v
  run_events-Fills ((event_ms, wake_ms, event) ∷ inputs) m v =
      let r = handle_sdl_event float m event_ms wake_ms event in
      let fills =
        woken-Fills m wake_ms (dispatch float m event_ms event)
          (dispatch-Fills m event_ms event v) in
      Fills-append float m r (run_events r.0 inputs) fills
        (run_events-Fills inputs r.0 (Fills-IsBounded float m r fills))
