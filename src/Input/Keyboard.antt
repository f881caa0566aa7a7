-- ===== src/Input/Keyboard.antt =====
-- The keyboard matrix of the T-Deck, core/input/src/keyboard.rs. A character is its code. The keys of
-- SDL that the source names have a constructor each, and `other` stands for the rest.
pub mod Held
use project_mycelium.Common.{
  ℕ, ◌+◌, Bool, true, false, not, ◌||◌, ◌==◌, List, [], ◌∷◌, any, retain, Option, none, some,
  if◌then◌else◌,
}

pub data Keycode : Type 0 where
  key_q key_w key_e key_r key_t key_y key_u key_i key_o key_p key_a key_s key_d key_f : Keycode
  key_g key_h key_j key_k key_l key_z key_x key_c key_v key_b key_n key_m comma : Keycode
  period l_shift r_shift space return backspace arrow_up arrow_down arrow_left : Keycode
  arrow_right kp_enter : Keycode
  other : ℕ → Keycode

-- A number for each key, to compare keys by.
unfoldable pub index : Keycode → ℕ
index key_q = 0
index key_w = 1
index key_e = 2
index key_r = 3
index key_t = 4
index key_y = 5
index key_u = 6
index key_i = 7
index key_o = 8
index key_p = 9
index key_a = 10
index key_s = 11
index key_d = 12
index key_f = 13
index key_g = 14
index key_h = 15
index key_j = 16
index key_k = 17
index key_l = 18
index key_z = 19
index key_x = 20
index key_c = 21
index key_v = 22
index key_b = 23
index key_n = 24
index key_m = 25
index comma = 26
index period = 27
index l_shift = 28
index r_shift = 29
index space = 30
index return = 31
index backspace = 32
index arrow_up = 33
index arrow_down = 34
index arrow_left = 35
index arrow_right = 36
index kp_enter = 37
index (other n) = 38 + n

unfoldable pub same_key : Keycode → Keycode → Bool
unfolding index
same_key a b = index a == index b

pub record TDeckKeyMapping : Type 0 where
  pub row : ℕ
  pub col : ℕ
  pub label : ℕ
  pub shifted : ℕ

pub record KeyEvent : Type 0 where
  pub row : ℕ
  pub col : ℕ
  pub pressed : Bool
  pub key_byte : ℕ

abbrev pub key_at : ℕ → ℕ → ℕ → ℕ → Option TDeckKeyMapping
key_at row col label shifted =
    some (record { row = row; col = col; label = label; shifted = shifted })

-- The map that `new` fills; it does not change afterwards.
unfoldable pub keymap : Keycode → Option TDeckKeyMapping
keymap key_q = key_at 0 0 b'q' b'Q'
keymap key_w = key_at 0 1 b'w' b'W'
keymap key_e = key_at 0 2 b'e' b'E'
keymap key_r = key_at 0 3 b'r' b'R'
keymap key_t = key_at 0 4 b't' b'T'
keymap key_y = key_at 0 5 b'y' b'Y'
keymap key_u = key_at 0 6 b'u' b'U'
keymap key_i = key_at 0 7 b'i' b'I'
keymap key_o = key_at 0 8 b'o' b'O'
keymap key_p = key_at 0 9 b'p' b'P'
keymap key_a = key_at 1 0 b'a' b'A'
keymap key_s = key_at 1 1 b's' b'S'
keymap key_d = key_at 1 2 b'd' b'D'
keymap key_f = key_at 1 3 b'f' b'F'
keymap key_g = key_at 1 4 b'g' b'G'
keymap key_h = key_at 1 5 b'h' b'H'
keymap key_j = key_at 1 6 b'j' b'J'
keymap key_k = key_at 1 7 b'k' b'K'
keymap key_l = key_at 1 8 b'l' b'L'
keymap key_z = key_at 2 0 b'z' b'Z'
keymap key_x = key_at 2 1 b'x' b'X'
keymap key_c = key_at 2 2 b'c' b'C'
keymap key_v = key_at 2 3 b'v' b'V'
keymap key_b = key_at 2 4 b'b' b'B'
keymap key_n = key_at 2 5 b'n' b'N'
keymap key_m = key_at 2 6 b'm' b'M'
keymap comma = key_at 2 7 b',' b'<'
keymap period = key_at 2 8 b'.' b'>'
keymap l_shift = key_at 3 0 0x00 0x00
keymap r_shift = key_at 3 0 0x00 0x00
keymap space = key_at 3 1 0x20 0x20
keymap return = key_at 3 2 0x0d 0x0d
keymap backspace = key_at 3 3 0x08 0x08
keymap k = none

pub record KeyboardEmulator : Type 0 where
  pub pressed_keys : List Keycode
  pub last_event : Option KeyEvent

unfoldable pub new : KeyboardEmulator
new = record { pressed_keys = []; last_event = none }

-- `pressed_keys.contains`.
unfoldable pub is_held : Keycode → List Keycode → Bool
is_held k keys = any (same_key k) keys

-- `pressed_keys.insert` and `remove`; the calls report whether the set changed.
unfoldable pub set_held : List Keycode → Keycode → Bool → List Keycode
unfolding is_held
set_held keys k true = if is_held k keys then keys else k ∷ keys
set_held keys k false = retain (λ j. not (same_key k j)) keys

unfoldable pub changes : List Keycode → Keycode → Bool → Bool
unfolding is_held
changes keys k true = not (is_held k keys)
changes keys k false = is_held k keys

unfoldable pub key_event : List Keycode → TDeckKeyMapping → Bool → KeyEvent
unfolding is_held
key_event keys m pressed = record {
  row = m.row;
  col = m.col;
  pressed = pressed;
  key_byte = if is_held l_shift keys || is_held r_shift keys then m.shifted else m.label;
}

-- The key is mapped and its state changes.
press_mapped :
    KeyboardEmulator → Keycode → Bool → TDeckKeyMapping → KeyboardEmulator × Option KeyEvent
press_mapped kb k pressed m =
    let keys = set_held kb.pressed_keys k pressed in
    let event = key_event keys m pressed in
    if not (changes kb.pressed_keys k pressed)
    then (record kb { pressed_keys = keys }, none)
    else (record { pressed_keys = keys; last_event = some event }, some event)

unfoldable pub handle_key : KeyboardEmulator → Keycode → Bool → KeyboardEmulator × Option KeyEvent
unfolding press_mapped keymap set_held key_event changes
handle_key kb k pressed = elim (keymap k) [
  | none ↦ (kb, none)
  | some m ↦ press_mapped kb k pressed m
]
