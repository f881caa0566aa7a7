-- ===== src/Input/Trackball.antt =====
-- The five-way trackball on GPIO pins, core/input/src/trackball.rs. Pins are active low: `true` is
-- high, not pressed. The arrays over the directions are functions of the direction; a counter of
-- edges is a number below 2^32, and an addition past that panics in the source.
use project_mycelium.Common.{
  ℕ, ◌+◌, ◌≡◌, Bool, true, false, not, ◌&&◌, ◌==◌, Option, none, some, if◌then◌else◌, arith,
}

abbrev pub trackball_up_gpio : ℕ
trackball_up_gpio = 3

abbrev pub trackball_down_gpio : ℕ
trackball_down_gpio = 15

abbrev pub trackball_left_gpio : ℕ
trackball_left_gpio = 1

abbrev pub trackball_right_gpio : ℕ
trackball_right_gpio = 2

abbrev pub trackball_click_gpio : ℕ
trackball_click_gpio = 0

pub data TrackballDirection : Type 0 where
  up down left right center : TrackballDirection

unfoldable pub gpio : TrackballDirection → ℕ
gpio up = trackball_up_gpio
gpio down = trackball_down_gpio
gpio left = trackball_left_gpio
gpio right = trackball_right_gpio
gpio center = trackball_click_gpio

pub record TrackballEvent : Type 0 where
  pub direction : TrackballDirection
  pub pressed : Bool
  pub timestamp_ms : ℕ

-- One value for each direction: the fields `up` to `click`, and the arrays of five.
pub record Five (A : Type 0) : Type 0 where
  pub at_up : A
  pub at_down : A
  pub at_left : A
  pub at_right : A
  pub at_center : A

module _ {A : Type 0} where
  abbrev pub at : Five A → TrackballDirection → A
  at f up = f.at_up
  at f down = f.at_down
  at f left = f.at_left
  at f right = f.at_right
  at f center = f.at_center

  abbrev pub set_at : Five A → TrackballDirection → A → Five A
  set_at f up a = record f { at_up = a }
  set_at f down a = record f { at_down = a }
  set_at f left a = record f { at_left = a }
  set_at f right a = record f { at_right = a }
  set_at f center a = record f { at_center = a }

  abbrev pub all_five : A → Five A
  all_five a = record { at_up = a; at_down = a; at_left = a; at_right = a; at_center = a }

pub record TrackballGpio : Type 0 where
  pub pins : Five Bool
  pub boot_state : Bool
  pub gpio_intr_enabled : Five Bool
  pub falling_edges : Five ℕ
  pub last_event : Option TrackballEvent

unfoldable pub new : TrackballGpio
new = record {
  pins = all_five true;
  boot_state = true;
  gpio_intr_enabled = all_five true;
  falling_edges = all_five 0;
  last_event = none;
}

unfoldable pub gpio_index : ℕ → Option TrackballDirection
gpio_index pin =
    if pin == trackball_up_gpio
    then some up
    else if pin == trackball_down_gpio
    then some down
    else if pin == trackball_left_gpio
    then some left
    else if pin == trackball_right_gpio
    then some right
    else if pin == trackball_click_gpio
    then some center
    else none

-- The level of the pin of a direction; GPIO0 is shared with the BOOT button.
level : TrackballGpio → TrackballDirection → Bool
level t center = t.pins.at_center && t.boot_state
level t up = t.pins.at_up
level t down = t.pins.at_down
level t left = t.pins.at_left
level t right = t.pins.at_right

unfoldable pub digital_read : TrackballGpio → ℕ → Bool
unfolding gpio_index level
digital_read t pin = elim (gpio_index pin) [ none ↦ true | some d ↦ level t d ]

-- A pin that was high and is low now counts an edge while its interrupt is enabled.
unfoldable pub count_edge : TrackballGpio → TrackballDirection → TrackballGpio → TrackballGpio
unfolding digital_read gpio
count_edge before d after =
    if digital_read before (gpio d)
      && not (digital_read after (gpio d))
      && at after.gpio_intr_enabled d
    then record after {
      falling_edges = set_at after.falling_edges d (at after.falling_edges d + 1);
    }
    else after

unfoldable pub set_boot_pressed : TrackballGpio → Bool → TrackballGpio
unfolding count_edge
set_boot_pressed t pressed = count_edge t center (record t { boot_state = not pressed })

unfoldable pub press : TrackballGpio → TrackballDirection → TrackballGpio
unfolding count_edge
press t d = count_edge t d (record t { pins = set_at t.pins d false })

unfoldable pub release : TrackballGpio → TrackballDirection → TrackballGpio
release t d = record t { pins = set_at t.pins d true }

unfoldable pub take_falling_edges : TrackballGpio → ℕ → TrackballGpio × ℕ
unfolding gpio_index
take_falling_edges t pin = elim (gpio_index pin) [
  | none ↦ (t, 0)
  | some d ↦ (record t { falling_edges = set_at t.falling_edges d 0 }, at t.falling_edges d)
]

unfoldable pub set_gpio_intr_enabled : TrackballGpio → ℕ → Bool → TrackballGpio
unfolding gpio_index
set_gpio_intr_enabled t pin enabled = elim (gpio_index pin) [
  | none ↦ t
  | some d ↦ record t { gpio_intr_enabled = set_at t.gpio_intr_enabled d enabled }
]

unfoldable pub gpio_intr_enabled : TrackballGpio → ℕ → Bool
unfolding gpio_index
gpio_intr_enabled t pin = elim (gpio_index pin) [ none ↦ false | some d ↦ at t.gpio_intr_enabled d ]

unfoldable pub is_pressed : TrackballGpio → TrackballDirection → Bool
is_pressed t d = not (at t.pins d)

-- `handle_key` for the direction of a key; `none` is a key that is not the trackball's.
unfoldable pub handle_key :
    TrackballGpio → Option TrackballDirection → Bool → TrackballGpio × Option TrackballEvent
unfolding press release is_pressed
handle_key t none pressed = (t, none)
handle_key t (some d) true =
    if is_pressed t d
    then (t, none)
    else let event : TrackballEvent = record { direction = d; pressed = true; timestamp_ms = 0 } in
      (record (press t d) { last_event = some event }, some event)
handle_key t (some d) false =
    if not (is_pressed t d)
    then (t, none)
    else let event : TrackballEvent = record { direction = d; pressed = false; timestamp_ms = 0 } in
      (record (release t d) { last_event = some event }, some event)

-- The edges that a new press of `d` adds: none while the pin is held low, by an earlier press or
-- by BOOT, or while the interrupt is disabled.
unfoldable pub new_edges : TrackballGpio → TrackballDirection → ℕ
unfolding level
new_edges t d = if level t d && at t.gpio_intr_enabled d then 1 else 0

-- After a press, the pin reads low, the events pending on the pin are those before it and one more
-- if the pin was high with its interrupt enabled, taking them leaves none, and a second press adds
-- nothing.
pub press_lem :
    (t : TrackballGpio) (d : TrackballDirection)
    → (digital_read (press t d) (gpio d) ≡ false)
      × ((take_falling_edges (press t d) (gpio d)).1
          ≡ (take_falling_edges t (gpio d)).1 + new_edges t d)
      × ((take_falling_edges (take_falling_edges (press t d) (gpio d)).0 (gpio d)).1 ≡ 0)
      × (press (press t d) d ≡ press t d)
unfolding press take_falling_edges digital_read gpio new_edges
press_lem t up = (ground arith, ground arith, ground arith, ground arith)
press_lem t down = (ground arith, ground arith, ground arith, ground arith)
press_lem t left = (ground arith, ground arith, ground arith, ground arith)
press_lem t right = (ground arith, ground arith, ground arith, ground arith)
press_lem t center = (ground arith, ground arith, ground arith, ground arith)
