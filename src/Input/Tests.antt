-- ===== src/Input/Tests.antt =====
-- The input devices at concrete inputs.
use project_mycelium.Common.{
  ◌≡◌, refl, ◌+◌, true, false, List, [], ◌∷◌, none, some, ◌*◌, ap, get_elem?, replicate, arith,
}
use project_mycelium.Common.Int.{pos}
use project_mycelium.Input.I2cKeyboard.{I2cKeyboardBus}
use project_mycelium.Input.Gt911.{
  Gt911Point, Gt911Controller, is_pressed, any_some, pressed_points, new,
}
use project_mycelium.Input.Gt911.Scan.{decode_point}
use project_mycelium.Input.WireShim.{WireShim, bus_ready}
use project_mycelium.Input.WireShim.Contacts.{read_registers, read_contact, IsReady}
use project_mycelium.Input.Gt911.Valid
use project_mycelium.Input.Gt911.Valid.Calls
use project_mycelium.Input.Gt911.Valid.Calls.{touch, clock, read, write}
use project_mycelium.Input.Gt911.Frames.{new_frame, frames_seen, frames_seen-all}
use project_mycelium.Input.Gt911.Registry.{
  empty, gt911_failure_mode_bus, gt911_failure_mode_frame_stall,
}
use project_mycelium.Input.Gt911.Configured
use project_mycelium.Input.Gt911.Configured.{
  create, for_instance, global, IsConfigured, run_registry, run_registry-IsConfigured,
}

abbrev keyboard : I2cKeyboardBus
keyboard = record {
  instance_id = "a";
  key_queue = 113 ∷ [];
  key_mode_active = true;
  last_command = 4;
  backlight = 0;
  cross_reset_persist = true;
}

abbrev finger : Gt911Point
finger = record { track_id = 0; x = 40; y = 219; size = 321 }

abbrev second_finger : Gt911Point
second_finger = record { track_id = 3; x = 300; y = 2; size = 50 }

abbrev blank : Gt911Controller
blank = record {
  touch_points = replicate 5 none;
  contact_size = 50;
  max_x = 320;
  max_y = 240;
  int_asserted = false;
  frame_ready = false;
  now_ms = 0;
  last_frame_ms = none;
  last_raw_position = none;
  last_mapped_position = none;
  physical_primary = none;
  i2c_failure_rate = 0;
  failure_accumulator = 0;
  consecutive_status_failures = 0;
  frame_stall_ms = 0;
  stall_started_ms = none;
  stall_until_ms = none;
  phantom_latch = false;
  phantom_point = none;
  phantom_started_ms = none;
  fired = record { bus_fired = false; frame_fired = false; phantom_fired = false };
}

abbrev touched : Gt911Controller
touched = record blank {
  touch_points = some finger ∷ none ∷ none ∷ some second_finger ∷ none ∷ [];
  now_ms = 5;
  last_frame_ms = some 5;
}

second_contact : pressed_points touched.touch_points ≡ finger ∷ second_finger ∷ []
unfolding pressed_points
second_contact = refl

abbrev wire : WireShim
wire = record {
  saved = [];
  keyboard_bus = keyboard;
  gt911 = touched;
  begun = true;
  clock_hz = 400000;
  transmit_address = none;
  transmit_buffer = [];
  gt911_register = 0;
  read_buffer = [];
  read_position = 0;
  sda_stuck = false;
}

ready : IsReady wire
unfolding bus_ready
ready = refl

read_contact_example :
    decode_point ((read_registers wire (0x814e + 1 + 8 * 1) 8).1) ≡ some second_finger
read_contact_example =
    read_contact wire 1 second_finger ready (ap (λ ps. get_elem? ps 1) second_contact) (omega arith)

run_controller-IsValid_example : Valid.Leaves (
    Calls.run_controller new
      (touch (pos 100) (pos 40) true ∷ clock 7 ∷ read 0x814e 9 ∷ write 0x814e (0 ∷ []) ∷ []))
run_controller-IsValid_example =
    Calls.run_controller-IsValid
      (touch (pos 100) (pos 40) true ∷ clock 7 ∷ read 0x814e 9 ∷ write 0x814e (0 ∷ []) ∷ []) new
      Valid.new-IsValid

held : is_pressed touched ≡ true
unfolding is_pressed any_some
held = refl

frames_seen-all_example :
    frames_seen touched (15 ∷ 26 ∷ 40 ∷ []) ≡ new_frame 15 ∷ new_frame 26 ∷ new_frame 40 ∷ []
frames_seen-all_example =
    frames_seen-all (15 ∷ 26 ∷ 40 ∷ []) 5 touched (held, refl, refl, refl)
      (omega arith, (omega arith, (omega arith, tt)))

abbrev registry_calls : List Configured.RegistryCall
registry_calls =
    for_instance "a" gt911_failure_mode_bus 250
    ∷ create "a"
    ∷ create "b"
    ∷ global gt911_failure_mode_frame_stall 300
    ∷ []

run_registry-IsConfigured_example : IsConfigured (run_registry empty registry_calls)
run_registry-IsConfigured_example =
    run_registry-IsConfigured registry_calls empty (tt, omega arith, tt)
