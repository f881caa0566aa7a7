-- ===== src/Input/Manager/Tests.antt =====
-- The input manager at concrete inputs.
use project_mycelium.Common.{ℕ, Bool, ◌≡◌, refl, true, false, List, [], ◌∷◌, some, arith}
use project_mycelium.Common.Int.{pos}
use project_mycelium.Common.Toy.{toy}
use project_mycelium.Input.Gt911.Registry.{empty, gt911_failure_mode_phantom_latch}
use project_mycelium.Input.Keyboard
use project_mycelium.Input.Keyboard.{
  Keycode, same_key, key_q, key_a, l_shift, kp_enter, is_held, keymap,
}
use project_mycelium.Input.Keyboard.Held.{
  levels_of, reported_of, run_keys, transitions, reported_of-run_keys,
}
use project_mycelium.Input.MouseTouch.{left}
use project_mycelium.Input.Manager
use project_mycelium.Input.Manager.{
  Event, mouse_button_down, mouse_button_up, mouse_motion, key_down, key_up, InputManager,
}
use project_mycelium.Input.Manager.Queues.{IsBounded, Fills}
use project_mycelium.Input.Manager.Reported.{run_events, run_events-Fills}
use project_mycelium.Input.Manager.Calls.{Call, sdl, clock, failure_mode, next_key}

abbrev keys : List (Keycode × Bool)
keys = (key_q, true) ∷ (l_shift, true) ∷ (key_q, true) ∷ (key_q, false) ∷ []

mapped_q : keymap key_q ≡ some (record { row = 0; col = 0; label = b'q'; shifted = b'Q' })
unfolding keymap
mapped_q = refl

reported_of-run_keys_example :
    reported_of key_q (run_keys Keyboard.new keys).1
    ≡ transitions (is_held key_q Keyboard.new.pressed_keys) (levels_of key_q keys)
reported_of-run_keys_example =
    reported_of-run_keys keys key_q (record { row = 0; col = 0; label = b'q'; shifted = b'Q' })
      Keyboard.new mapped_q

-- A repeated press and a key that is held beside it.
reported_q : reported_of key_q (run_keys Keyboard.new keys).1 ≡ true ∷ false ∷ []
unfolding run_keys Keyboard.new Keyboard.handle_key is_held same_key
reported_q = refl

abbrev fresh : InputManager toy
fresh = Manager.new toy [] empty "a" (pos 2) 7

fresh-IsBounded : IsBounded toy fresh
unfolding Manager.new
fresh-IsBounded = omega arith

-- A press on the display at a scale of 2, a motion, and a key.
abbrev events : List (ℕ × ℕ × Event)
events =
    (9, 10, mouse_button_down left (pos 100) (pos 40))
    ∷ (11, 12, mouse_motion (pos 102) (pos 44))
    ∷ (13, 14, key_down (some key_q))
    ∷ (15, 16, key_down (some kp_enter))
    ∷ []

run_events-Fills_example : Fills toy fresh (run_events toy fresh events)
run_events-Fills_example = run_events-Fills toy events fresh fresh-IsBounded

abbrev calls : List (Call toy)
calls =
    sdl 9 10 (mouse_button_down left (pos 100) (pos 40))
    ∷ failure_mode gt911_failure_mode_phantom_latch 1
    ∷ sdl 11 12 (mouse_button_up left (pos 100) (pos 40))
    ∷ clock 20
    ∷ next_key
    ∷ []
