-- ===== src/Input/Gt911/Valid.antt =====
-- The state invariant of the GT911 controller, over any sequence of the calls of
-- core/input/src/gt911.rs.
pub mod Calls
use project_mycelium.Common.{
  ℕ, ◌+◌, ◌-◌, ◌≤◌, ◌<◌, ◌≡◌, refl, ap, subst, ◌∙◌, min, ltb→lt, if_known, option_both, Bool, true,
  false, not, ◌&&◌, ◌||◌, ◌==◌, ltb, leb, List, [], ◌∷◌, length, length-set, set, Option, none,
  some, arith, if◌then◌else◌, if_both,
}
use project_mycelium.Common.Int.{ℤ}
use project_mycelium.Common.Word.{u16_max}
use project_mycelium.Input.Gt911.{
  Gt911Point, Gt911Controller, new, gt911_max_touches, set_contact_size, set_resolution,
  set_i2c_failure_rate, set_frame_stall_ms, set_primary, set_phantom_latch, arm_frame_stall,
  mark_frame_ready, restore_physical, is_pressed, frame_is_stalled, primary_point,
}
use project_mycelium.Input.Gt911.Touch.{
  inject_touch, touch_mapped, reversed, clamp_to, inject_point, hold_latched, touch_pressed,
  touch_released,
}
use project_mycelium.Input.Gt911.Registers.{
  tick, i2c_read, i2c_write, fail_status_read, frame_watchdog, phantom_watchdog, scan_due,
  gt911_status_register,
}

-- Both or neither of two options are set.
abbrev pub together : {A B : Type 0} → Option A → Option B → Bool
together none none = true
together (some a) (some b) = true
together none (some b) = false
together (some a) none = false

-- The interrupt line says whether a frame waits; there are five slots; a failure is owed for less
-- than one read; a stall has both its ends; a latched point has its time, and without the latch
-- there is none.
abbrev pub IsValid : Gt911Controller → Type 0
IsValid c =
    (c.int_asserted ≡ c.frame_ready)
    × (length c.touch_points ≡ gt911_max_touches)
    × (c.failure_accumulator < 100)
    × (c.i2c_failure_rate ≤ 100)
    × (together c.stall_started_ms c.stall_until_ms ≡ true)
    × (together c.phantom_point c.phantom_started_ms ≡ true)

pub new-IsValid : IsValid new
unfolding new
new-IsValid = (refl, refl, omega arith, omega arith, refl, refl)

arm_frame_stall-IsValid : (c : Gt911Controller) → IsValid c → IsValid (arm_frame_stall c)
unfolding arm_frame_stall
arm_frame_stall-IsValid c (a, b, d, e, f, g) =
    if_both IsValid (c.frame_stall_ms == 0 || not (is_pressed c)) (a, b, d, e, refl, g)
      (a, b, d, e, refl, g)

mark_frame_ready-IsValid : (c : Gt911Controller) → IsValid c → IsValid (mark_frame_ready c)
unfolding mark_frame_ready
mark_frame_ready-IsValid c (a, b, d, e, f, g) = (refl, b, d, e, f, g)

set_primary-IsValid :
    (c : Gt911Controller) (slot : Option Gt911Point) → IsValid c → IsValid (set_primary c slot)
set_primary-IsValid c slot (a, b, d, e, f, g) =
    (a, length-set c.touch_points 0 slot ∙ b, d, e, f, g)

restore_physical-IsValid : (c : Gt911Controller) → IsValid c → IsValid (restore_physical c)
unfolding restore_physical
restore_physical-IsValid c v =
    option_both IsValid c.physical_primary (set_primary-IsValid c none v)
      (λ (raw, p) e. set_primary-IsValid c (some p) v)

started_with :
    (o : Option Gt911Point) (t : ℕ) → together o (elim o [ none ↦ none | some p ↦ some t ]) ≡ true
started_with none t = refl
started_with (some p) t = refl

set_phantom_latch-IsValid :
    (c : Gt911Controller) (enabled : Bool) → IsValid c → IsValid (set_phantom_latch c enabled)
unfolding set_phantom_latch
set_phantom_latch-IsValid c true (a, b, d, e, f, g) =
    (a, b, d, e, f, started_with (primary_point c) c.now_ms)
set_phantom_latch-IsValid c false (a, b, d, e, f, g) =
    let off : Gt911Controller = record c {
      phantom_latch = false;
      fired = record (c.fired) { phantom_fired = false };
      phantom_point = none;
      phantom_started_ms = none;
    } in
    let v : IsValid off = (a, b, d, e, f, refl) in
    if_both IsValid c.phantom_latch
      (mark_frame_ready-IsValid (restore_physical off) (restore_physical-IsValid off v)) v

tick-IsValid : (c : Gt911Controller) (now_ms : ℕ) → IsValid c → IsValid (tick c now_ms)
unfolding tick
tick-IsValid c now_ms v =
    let timed : Gt911Controller = record c { now_ms = now_ms } in
    let watched : Gt911Controller = record timed {
      fired = record {
        bus_fired = c.fired.bus_fired;
        frame_fired = c.fired.frame_fired || frame_watchdog timed;
        phantom_fired = c.fired.phantom_fired || phantom_watchdog timed;
      };
    } in
    if_both IsValid (not (is_pressed timed)) v (
      if_both IsValid (c.frame_ready || frame_is_stalled watched) v
        (if_both IsValid (scan_due watched) (mark_frame_ready-IsValid watched v) v))

-- The state that a call leaves, beside its result.
abbrev Kept {ℓ} : {A : Type ℓ} → Gt911Controller × A → Type 0
Kept r = IsValid (r.0)

fail_status_read-IsValid : (c : Gt911Controller) → IsValid c → IsValid ((fail_status_read c).0)
unfolding fail_status_read
fail_status_read-IsValid c (a, b, d, e, f, g) =
    if_known Kept (ltb (min (c.failure_accumulator + c.i2c_failure_rate) u16_max) 100)
      (λ under. (a, b, ltb→lt _ 100 under, e, f, g))
      (λ over.
        let owed : min (c.failure_accumulator + c.i2c_failure_rate) u16_max - 100 < 100 =
          omega arith in
        if_both Kept (is_pressed c) (a, b, owed, e, f, g) (a, b, owed, e, f, g))

i2c_read-IsValid :
    (c : Gt911Controller) (register len : ℕ) → IsValid c → IsValid ((i2c_read c register len).0)
unfolding i2c_read
i2c_read-IsValid c register len v =
    let failing = fail_status_read-IsValid c v in
    if_both Kept (register == gt911_status_register)
      (if_both Kept ((fail_status_read c).1) failing failing) v

i2c_write-IsValid :
    (c : Gt911Controller) (register : ℕ) (bytes : List ℕ)
    → IsValid c
    → IsValid (i2c_write c register bytes)
unfolding i2c_write
i2c_write-IsValid c register [] v = v
i2c_write-IsValid c register (byte ∷ bytes) (a, b, d, e, f, g) =
    if_both IsValid (register == gt911_status_register && byte == 0) (refl, b, d, e, f, g)
      (a, b, d, e, f, g)

arm_pressed-IsValid :
    (c : Gt911Controller) (b : Bool) → IsValid c → IsValid (if b then arm_frame_stall c else c)
arm_pressed-IsValid c b v = if_both IsValid b (arm_frame_stall-IsValid c v) v

inject_point-IsValid :
    (c : Gt911Controller) (p : Gt911Point) (pressed : Bool)
    → IsValid c
    → IsValid ((inject_point c p pressed).0)
unfolding inject_point
inject_point-IsValid c p pressed v =
    let (a, b, d, e, f, g) = v in
    let slot : Option Gt911Point = if pressed then some p else none in
    let placed : Gt911Controller = record c {
      touch_points = set c.touch_points p.track_id slot;
      last_raw_position = some (p.x, p.y);
      last_mapped_position = some (p.x, p.y);
    } in
    let placed-IsValid : IsValid placed =
      (a, length-set c.touch_points p.track_id slot ∙ b, d, e, f, g) in
    let press = pressed && not (is_pressed c) in
    let armed = arm_pressed-IsValid placed press placed-IsValid in
    if_both Kept (leb gt911_max_touches p.track_id) v
      (mark_frame_ready-IsValid (if press then arm_frame_stall placed else placed) armed)

hold_latched-IsValid :
    (c : Gt911Controller) (raw : ℕ × ℕ) (p : Gt911Point)
    → IsValid c
    → IsValid (hold_latched c raw p)
unfolding hold_latched
hold_latched-IsValid c raw p v =
    let (a, b, d, e, f, g) = set_primary-IsValid c (some p) v in
    option_both IsValid c.phantom_started_ms (a, b, d, e, f, refl)
      (λ t at. (a, b, d, e, f, ap (together (some p)) at))

touch_pressed-IsValid :
    (c : Gt911Controller) (raw : ℕ × ℕ) (p : Gt911Point)
    → IsValid c
    → IsValid (touch_pressed c raw p)
unfolding touch_pressed
touch_pressed-IsValid c raw p v =
    if_both IsValid c.phantom_latch
      (hold_latched-IsValid c raw (elim c.phantom_point [ none ↦ p | some q ↦ q ]) v)
      (set_primary-IsValid c (some p) v)

touch_released-IsValid : (c : Gt911Controller) → IsValid c → IsValid (touch_released c)
unfolding touch_released
touch_released-IsValid c v =
    let (a, b, d, e, f, g) = set_primary-IsValid c none v in
    let lifted : Gt911Controller = record (set_primary c none) {
      stall_started_ms = none;
      stall_until_ms = none;
      phantom_point = none;
      phantom_started_ms = none;
    } in
    let lift = mark_frame_ready-IsValid lifted (a, b, d, e, refl, refl) in
    let hold : (p : Gt911Point) → IsValid (set_primary c (some p)) =
      λ p. set_primary-IsValid c (some p) v in
    if_both IsValid c.phantom_latch
      (option_both IsValid c.phantom_point lift (λ p at.
        if_both IsValid (frame_is_stalled (set_primary c (some p))) (hold p)
          (mark_frame_ready-IsValid (set_primary c (some p)) (hold p))))
      lift

-- What holds of the state that a call leaves, if the call does not overflow.
abbrev pub Leaves : Option Gt911Controller → Type 0
Leaves none = Unit
Leaves (some c) = IsValid c

touch_mapped-IsValid :
    (c : Gt911Controller) (raw : ℕ × ℕ) (p : Gt911Point) (pressed : Bool)
    → IsValid c
    → IsValid (touch_mapped c raw p pressed)
unfolding touch_mapped
touch_mapped-IsValid c raw p false v =
    let released : Gt911Controller = record c { physical_primary = none } in
    touch_released-IsValid released v
touch_mapped-IsValid c raw p true v =
    let physical : Gt911Controller = record c { physical_primary = some (raw, p) } in
    let held = touch_pressed physical raw p in
    let held-IsValid = touch_pressed-IsValid physical raw p v in
    if_both IsValid (not (is_pressed c))
      (mark_frame_ready-IsValid (arm_frame_stall held) (arm_frame_stall-IsValid held held-IsValid))
      (if_both IsValid (not (frame_is_stalled held)) (mark_frame_ready-IsValid held held-IsValid)
        held-IsValid)

inject_touch-IsValid :
    (c : Gt911Controller) (x y : ℤ) (pressed : Bool)
    → IsValid c
    → Leaves (inject_touch c x y pressed)
unfolding inject_touch
inject_touch-IsValid c x y pressed v = option_both Leaves (reversed x) tt (λ z e.
    touch_mapped-IsValid c (clamp_to u16_max x, clamp_to u16_max y)
      (record { track_id = 0; x = clamp_to 239 y; y = z; size = c.contact_size }) pressed v)
