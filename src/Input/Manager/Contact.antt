-- ===== src/Input/Manager/Contact.antt =====
-- What the touch controller shows of the physical contact, under the calls of
-- core/input/src/gt911.rs that an input manager and the firmware make.
use project_mycelium.Common.{
  List, [], ◌∷◌, ltb, min, ◌+◌, ◌&&◌, ℕ, ◌<◌, ◌≡◌, refl, Bool, true, false, not, ◌||◌, ◌==◌, length,
  get_or, set, get_or-set_self, length-set, Option, none, some, if◌then◌else◌, if_both, option_both,
  if_known, subst, arith,
}
use mathlib.Core.Option
use project_mycelium.Input.Gt911.{
  new, Gt911Point, Gt911Controller, set_primary, mark_frame_ready, arm_frame_stall, is_pressed,
  frame_is_stalled, restore_physical, set_phantom_latch, set_frame_stall_ms, set_i2c_failure_rate,
}
use project_mycelium.Input.Gt911.Touch.{touch_mapped, touch_pressed, touch_released, hold_latched}
use project_mycelium.Input.Gt911.Registers.{
  tick, i2c_read, i2c_write, fail_status_read, frame_watchdog, phantom_watchdog, scan_due,
  gt911_status_register,
}
use project_mycelium.Input.Gt911.Registry.{
  FailureConfiguration, new_controller, apply_failure_mode, gt911_failure_mode_bus,
  gt911_failure_mode_frame_stall, gt911_failure_mode_phantom_latch,
}

-- The raw position and the point of a contact.
abbrev pub Contact : Type 0
Contact = (ℕ × ℕ) × Gt911Point

-- The first slot of the controller.
abbrev pub shown : Gt911Controller → Option Gt911Point
shown c = get_or c.touch_points 0 none

-- The physical contact is `o`, and the first slot shows it unless the phantom latch is on.
abbrev pub Shows : Option Contact → ℕ → Gt911Controller → Type 0
Shows o size c =
    (c.physical_primary ≡ o)
    × (shown c ≡ (if c.phantom_latch then shown c else Option.map (λ (q : Contact). q.1) o))
    × (0 < length c.touch_points)
    × (c.contact_size ≡ size)

module _ (o : Option Contact) (size : ℕ) where
  -- With the latch on, the slots do not matter.
  Shows-latched :
      (c : Gt911Controller)
      → c.phantom_latch ≡ true
      → c.physical_primary ≡ o
      → 0 < length c.touch_points
      → c.contact_size ≡ size
      → Shows o size c
  Shows-latched c on h n s = (h, ground (arith, on), n, s)

  -- A first slot that is set to the contact shows it.
  Shows-set_primary :
      (c : Gt911Controller)
      → c.physical_primary ≡ o
      → 0 < length c.touch_points
      → c.contact_size ≡ size
      → Shows o size (set_primary c (Option.map (λ (q : Contact). q.1) o))
  Shows-set_primary c h n s = (
    h,
    ground (
      arith,
      get_or-set_self {A = Option Gt911Point} c.touch_points 0 (Option.map (λ (q : Contact). q.1) o)
          none n,
    ),
    ground (
      arith,
      length-set {A = Option Gt911Point} c.touch_points 0 (Option.map (λ (q : Contact). q.1) o),
    ),
    s,
  )

  pub mark_frame_ready-Shows :
      (c : Gt911Controller) → Shows o size c → Shows o size (mark_frame_ready c)
  unfolding mark_frame_ready
  mark_frame_ready-Shows c v = v

  pub arm_frame_stall-Shows :
      (c : Gt911Controller) → Shows o size c → Shows o size (arm_frame_stall c)
  unfolding arm_frame_stall
  arm_frame_stall-Shows c v =
      if_both (Shows o size) (c.frame_stall_ms == 0 || not (is_pressed c)) v v

-- Any slots are fine with the latch on.
nonempty :
    (c : Gt911Controller) (slot : Option Gt911Point)
    → 0 < length c.touch_points
    → 0 < length (set c.touch_points 0 slot)
nonempty c slot n = ground (arith, length-set {A = Option Gt911Point} c.touch_points 0 slot)

hold_latched-Shows :
    (c : Gt911Controller) (raw : ℕ × ℕ) (p : Gt911Point) (o : Option Contact) (size : ℕ)
    → c.phantom_latch ≡ true
    → c.physical_primary ≡ o
    → 0 < length c.touch_points
    → c.contact_size ≡ size
    → Shows o size (hold_latched c raw p)
unfolding hold_latched
hold_latched-Shows c raw p o size on h n s =
    let held : Gt911Controller = record (set_primary c (some p)) { phantom_point = some p } in
    let started : Gt911Controller = record held {
      phantom_started_ms = some c.now_ms;
      last_raw_position = some raw;
      last_mapped_position = some (p.x, p.y);
    } in
    let many = nonempty c (some p) n in
    option_both (Shows o size) c.phantom_started_ms (Shows-latched o size started on h many s)
      (λ t e. Shows-latched o size held on h many s)

touch_pressed-Shows :
    (c : Gt911Controller) (raw : ℕ × ℕ) (p : Gt911Point) (size : ℕ)
    → c.physical_primary ≡ some (raw, p)
    → 0 < length c.touch_points
    → c.contact_size ≡ size
    → Shows (some (raw, p)) size (touch_pressed c raw p)
unfolding touch_pressed
touch_pressed-Shows c raw p size h n s =
    if_known (Shows (some (raw, p)) size) c.phantom_latch
      (λ on. hold_latched-Shows c raw _ (some (raw, p)) size on h n s)
      (λ off. Shows-set_primary (some (raw, p)) size c h n s)

touch_released-Shows :
    (c : Gt911Controller) (size : ℕ)
    → c.physical_primary ≡ none
    → 0 < length c.touch_points
    → c.contact_size ≡ size
    → Shows none size (touch_released c)
unfolding touch_released
touch_released-Shows c size h n s =
    let lifted : Gt911Controller = record (set_primary c none) {
      stall_started_ms = none;
      stall_until_ms = none;
      phantom_point = none;
      phantom_started_ms = none;
    } in
    let lift = mark_frame_ready-Shows none size lifted (Shows-set_primary none size c h n s) in
    if_known (Shows none size) c.phantom_latch
      (λ on. option_both (Shows none size) c.phantom_point lift (λ p at.
        let held = set_primary c (some p) in
        let v = Shows-latched none size held on h (nonempty c (some p) n) s in
        if_both (Shows none size) (frame_is_stalled held) v
          (mark_frame_ready-Shows none size held v)))
      (λ off. lift)

pub touch_mapped-Shows :
    (c : Gt911Controller) (raw : ℕ × ℕ) (p : Gt911Point) (pressed : Bool) (o : Option Contact)
    (size : ℕ)
    → Shows o size c
    → Shows (if pressed then some (raw, p) else none) size (touch_mapped c raw p pressed)
unfolding touch_mapped
touch_mapped-Shows c raw p false o size (h, e, n, s) =
    touch_released-Shows (record c { physical_primary = none }) size refl n s
touch_mapped-Shows c raw p true o size (h, e, n, s) =
    let held = touch_pressed (record c { physical_primary = some (raw, p) }) raw p in
    let v =
      touch_pressed-Shows (record c { physical_primary = some (raw, p) }) raw p size refl n s in
    if_both (Shows (some (raw, p)) size) (not (is_pressed c))
      (mark_frame_ready-Shows (some (raw, p)) size (arm_frame_stall held)
        (arm_frame_stall-Shows (some (raw, p)) size held v))
      (if_both (Shows (some (raw, p)) size) (not (frame_is_stalled held))
        (mark_frame_ready-Shows (some (raw, p)) size held v) v)

restore_physical-Shows :
    (c : Gt911Controller) (o : Option Contact) (size : ℕ)
    → c.physical_primary ≡ o
    → 0 < length c.touch_points
    → c.contact_size ≡ size
    → Shows o size (restore_physical c)
unfolding restore_physical
restore_physical-Shows c o size h n s =
    subst (λ q. Shows q size (restore_physical c)) h (restored c.physical_primary refl)
  where
    restored :
        (q : Option Contact)
        → c.physical_primary ≡ q
        → Shows q size (elim q [
          | some (raw, p) ↦ record (set_primary c (some p)) {
            last_raw_position = some raw;
            last_mapped_position = some (p.x, p.y);
          }
          | none ↦ set_primary c none
        ])
    restored none e = Shows-set_primary none size c e n s
    restored (some (raw, p)) e =
        let positions : Gt911Controller = record c {
          last_raw_position = some raw;
          last_mapped_position = some (p.x, p.y);
        } in
        Shows-set_primary (some (raw, p)) size positions e n s

-- Switching the latch off restores the contact.
set_phantom_latch-Shows :
    (c : Gt911Controller) (enabled : Bool) (o : Option Contact) (size : ℕ)
    → Shows o size c
    → Shows o size (set_phantom_latch c enabled)
unfolding set_phantom_latch
set_phantom_latch-Shows c true o size (h, e, n, s) =
    Shows-latched o size (set_phantom_latch c true) refl h n s
set_phantom_latch-Shows c false o size (h, e, n, s) =
    let cleared : Gt911Controller = record c {
      phantom_latch = false;
      fired = record (c.fired) { phantom_fired = false };
      phantom_point = none;
      phantom_started_ms = none;
    } in
    if_known (Shows o size) c.phantom_latch
      (λ on.
        mark_frame_ready-Shows o size (restore_physical cleared)
          (restore_physical-Shows cleared o size h n s))
      (λ off. (h, ground (arith, off, e), n, s))

pub apply_failure_mode-Shows :
    (c : Gt911Controller) (mode value : ℕ) (o : Option Contact) (size : ℕ)
    → Shows o size c
    → Shows o size (apply_failure_mode mode value c)
unfolding apply_failure_mode set_i2c_failure_rate set_frame_stall_ms
apply_failure_mode-Shows c mode value o size v =
    let slow : Gt911Controller = record c {
      frame_stall_ms = value;
      fired = record (c.fired) { frame_fired = false };
    } in
    if_both (Shows o size) (mode == gt911_failure_mode_bus) v (
      if_both (Shows o size) (mode == gt911_failure_mode_frame_stall)
        (arm_frame_stall-Shows o size slow v)
        (if_both (Shows o size) (mode == gt911_failure_mode_phantom_latch)
          (set_phantom_latch-Shows c (not (value == 0)) o size v) v))

-- The firmware's reads and writes, and the passing of time, leave the contact.
pub tick-Shows :
    (c : Gt911Controller) (now_ms : ℕ) (o : Option Contact) (size : ℕ)
    → Shows o size c
    → Shows o size (tick c now_ms)
unfolding tick
tick-Shows c now_ms o size v =
    let timed : Gt911Controller = record c { now_ms = now_ms } in
    let watched : Gt911Controller = record timed {
      fired = record {
        bus_fired = c.fired.bus_fired;
        frame_fired = c.fired.frame_fired || frame_watchdog timed;
        phantom_fired = c.fired.phantom_fired || phantom_watchdog timed;
      };
    } in
    if_both (Shows o size) (not (is_pressed timed)) v (
      if_both (Shows o size) (c.frame_ready || frame_is_stalled watched) v
        (if_both (Shows o size) (scan_due watched) (mark_frame_ready-Shows o size watched v) v))

abbrev ShowsAfter {ℓ} : {A : Type ℓ} → Option Contact → ℕ → Gt911Controller × A → Type 0
ShowsAfter o size r = Shows o size r.0

fail_status_read-Shows :
    (c : Gt911Controller) (o : Option Contact) (size : ℕ)
    → Shows o size c
    → Shows o size (fail_status_read c).0
unfolding fail_status_read
fail_status_read-Shows c o size v =
    if_both (ShowsAfter o size) (ltb (min (c.failure_accumulator + c.i2c_failure_rate) 65535) 100) v
      (if_both (ShowsAfter o size) (is_pressed c) v v)

pub i2c_read-Shows :
    (c : Gt911Controller) (register len : ℕ) (o : Option Contact) (size : ℕ)
    → Shows o size c
    → Shows o size (i2c_read c register len).0
unfolding i2c_read
i2c_read-Shows c register len o size v =
    let failing = fail_status_read-Shows c o size v in
    if_both (ShowsAfter o size) (register == gt911_status_register)
      (if_both (ShowsAfter o size) (fail_status_read c).1 failing failing) v

pub i2c_write-Shows :
    (c : Gt911Controller) (register : ℕ) (bytes : List ℕ) (o : Option Contact) (size : ℕ)
    → Shows o size c
    → Shows o size (i2c_write c register bytes)
unfolding i2c_write
i2c_write-Shows c register [] o size v = v
i2c_write-Shows c register (byte ∷ bytes) o size v =
    if_both (Shows o size) (register == gt911_status_register && byte == 0) v v

-- A new controller has no contact, whatever failure modes it starts with.
slow_start :
    (f : FailureConfiguration)
    → Shows none 50
        (set_frame_stall_ms (set_i2c_failure_rate new f.i2c_failure_rate) f.frame_stall_ms)
unfolding set_frame_stall_ms set_i2c_failure_rate new
slow_start f =
    let rated = set_i2c_failure_rate new f.i2c_failure_rate in
    let slow : Gt911Controller = record rated {
      frame_stall_ms = f.frame_stall_ms;
      fired = record (rated.fired) { frame_fired = false };
    } in
    arm_frame_stall-Shows none 50 slow (refl, refl, omega arith, refl)

pub new_controller-Shows : (f : FailureConfiguration) → Shows none 50 (new_controller f)
unfolding new_controller
new_controller-Shows f =
    set_phantom_latch-Shows
      (set_frame_stall_ms (set_i2c_failure_rate new f.i2c_failure_rate) f.frame_stall_ms)
      f.phantom_latch none 50 (slow_start f)
