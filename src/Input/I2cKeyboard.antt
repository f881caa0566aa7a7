-- ===== src/Input/I2cKeyboard.antt =====
-- The keyboard co-processor on the I2C bus, core/input/src/i2c_keyboard.rs. The map of retained
-- brightness that all handles share is passed along.
use project_mycelium.Common.{
  ℕ, zero, suc, min, ◌≡◌, refl, sym, ap, ◌∙◌, Bool, true, false, not, ◌==◌, String, none, some,
  List, [], ◌∷◌, ◌++◌, length, if◌then◌else◌, arith,
}
use mathlib.Core.List.{append-nil, append_assoc}
use text.Mathlib.Text.{◌==◌ as str_eq}
use project_mycelium.Common.Store.{lookup, insert, remove, lookup-insert}

abbrev pub keyboard_brightness_command : ℕ
keyboard_brightness_command = 0x01

abbrev pub keyboard_key_mode_command : ℕ
keyboard_key_mode_command = 0x04

pub record I2cKeyboardBus : Type 0 where
  pub instance_id : String
  pub key_queue : List ℕ
  pub key_mode_active : Bool
  pub last_command : ℕ
  pub backlight : ℕ
  pub cross_reset_persist : Bool

-- `PERSISTED_BACKLIGHT`.
abbrev pub Backlights : Type 0
Backlights = List (String × ℕ)

unfoldable pub new_for_instance : Backlights → String → I2cKeyboardBus
new_for_instance saved id = record {
  instance_id = id;
  key_queue = [];
  key_mode_active = false;
  last_command = 0;
  backlight = elim (lookup id saved) [ none ↦ 0 | some brightness ↦ brightness ];
  cross_reset_persist = true;
}

unfoldable pub inject_key_byte : I2cKeyboardBus → ℕ → I2cKeyboardBus
inject_key_byte bus key_byte = record bus { key_queue = bus.key_queue ++ key_byte ∷ [] }

unfoldable pub write_command : I2cKeyboardBus → ℕ → I2cKeyboardBus
write_command bus byte = record bus {
  last_command = byte;
  key_mode_active = if byte == keyboard_key_mode_command then true else bus.key_mode_active;
}

unfoldable pub write_transaction :
    Backlights → I2cKeyboardBus → List ℕ → Backlights × I2cKeyboardBus
write_transaction saved bus [] = (saved, bus)
write_transaction saved bus (command ∷ []) = (
  saved,
  record bus {
    last_command = command;
    key_mode_active = if command == keyboard_key_mode_command then true else bus.key_mode_active;
  },
)
write_transaction saved bus (command ∷ value ∷ rest) =
    let written = record bus { last_command = command } in
    if command == keyboard_brightness_command
    then (
      if bus.cross_reset_persist then insert bus.instance_id value saved else saved,
      record written { backlight = value },
    )
    else if command == keyboard_key_mode_command
    then (saved, record written { key_mode_active = true })
    else (saved, written)

unfoldable pub set_cross_reset_persist :
    Backlights → I2cKeyboardBus → Bool → Backlights × I2cKeyboardBus
set_cross_reset_persist saved bus persist = (
  if persist then insert bus.instance_id bus.backlight saved else remove bus.instance_id saved,
  record bus { cross_reset_persist = persist },
)

unfoldable pub read_key_byte : I2cKeyboardBus → I2cKeyboardBus × ℕ
read_key_byte bus =
    if not bus.key_mode_active
    then (bus, 0)
    else elim bus.key_queue [ [] ↦ (bus, 0) | key ∷ keys ↦ (record bus { key_queue = keys }, key) ]

unfoldable pub available : I2cKeyboardBus → ℕ
available bus = if not bus.key_mode_active then 0 else min (length bus.key_queue) 1

unfoldable pub reset : I2cKeyboardBus → I2cKeyboardBus
reset bus = record bus {
  key_queue = [];
  key_mode_active = false;
  last_command = 0;
  backlight = if not bus.cross_reset_persist then 0 else bus.backlight;
}

unfoldable pub inject_all : I2cKeyboardBus → List ℕ → I2cKeyboardBus
inject_all bus [] = bus
inject_all bus (key ∷ keys) = inject_all (inject_key_byte bus key) keys

unfoldable pub read_all : ℕ → I2cKeyboardBus → List ℕ
read_all zero bus = []
read_all (suc n) bus = let (after, key) = read_key_byte bus in key ∷ read_all n after

inject_all-queue :
    (bus : I2cKeyboardBus) (keys : List ℕ)
    → inject_all bus keys ≡ record bus { key_queue = bus.key_queue ++ keys }
unfolding inject_all inject_key_byte
inject_all-queue bus [] = ap (λ q. record bus { key_queue = q }) (sym (append-nil bus.key_queue))
inject_all-queue bus (key ∷ keys) =
    inject_all-queue (inject_key_byte bus key) keys
    ∙ ap (λ q. record bus { key_queue = q }) (append_assoc bus.key_queue (key ∷ []) keys)

read_key_byte-cons :
    (bus : I2cKeyboardBus) (key : ℕ) (keys : List ℕ)
    → bus.key_mode_active ≡ true
    → read_key_byte (record bus { key_queue = key ∷ keys }) ≡ (record bus { key_queue = keys }, key)
unfolding read_key_byte
read_key_byte-cons bus key keys h = ground (arith, h)

read_all-queue :
    (bus : I2cKeyboardBus) (queue : List ℕ)
    → bus.key_mode_active ≡ true
    → read_all (length queue) (record bus { key_queue = queue }) ≡ queue
unfolding read_all
read_all-queue bus [] h = refl
read_all-queue bus (key ∷ keys) h =
    ap (λ r. r.1 ∷ read_all (length keys) r.0) (read_key_byte-cons bus key keys h)
    ∙ ap (λ ks. key ∷ ks) (read_all-queue bus keys h)

-- In key mode, polls return the bytes that were waiting and then those injected, in order.
pub read_all-inject_all :
    (bus : I2cKeyboardBus) (keys : List ℕ)
    → bus.key_mode_active ≡ true
    → read_all (length (bus.key_queue ++ keys)) (inject_all bus keys) ≡ bus.key_queue ++ keys
read_all-inject_all bus keys h =
    ap (read_all (length (bus.key_queue ++ keys))) (inject_all-queue bus keys)
    ∙ read_all-queue bus (bus.key_queue ++ keys) h

-- A brightness that is written while it is to persist is what a new handle of the instance starts
-- with, after a reset as well, and handles of other instances start as before.
pub backlight_retained :
    (saved : List (String × ℕ)) (bus : I2cKeyboardBus) (value : ℕ) (other : String)
    → bus.cross_reset_persist ≡ true
    → let (saved', bus') = write_transaction saved bus (keyboard_brightness_command ∷ value ∷ []) in
      ((new_for_instance saved' other).backlight ≡ (
        if str_eq bus.instance_id other then value else (new_for_instance saved other).backlight))
      × ((reset bus').backlight ≡ value)
unfolding new_for_instance write_transaction reset
backlight_retained saved bus value other h =
    (ground (arith, h, lookup-insert bus.instance_id other value saved), ground (arith, h))
