-- ===== src/Input/Gt911/Valid/Calls.antt =====
-- The invariant of the GT911 controller over any sequence of the calls of
-- core/input/src/gt911.rs.
use project_mycelium.Common.{
  ℕ, subst, option_both, Bool, false, List, [], ◌∷◌, Option, none, some, arith,
}
use project_mycelium.Common.Int.{ℤ}
use project_mycelium.Input.Gt911.{
  Gt911Point, Gt911Controller, set_contact_size, set_resolution, set_i2c_failure_rate,
  set_frame_stall_ms, set_phantom_latch,
}
use project_mycelium.Input.Gt911.Touch.{inject_touch, inject_point}
use project_mycelium.Input.Gt911.Registers.{tick, i2c_read, i2c_write}
use project_mycelium.Input.Gt911.Valid.{
  arm_frame_stall-IsValid, set_phantom_latch-IsValid, tick-IsValid, i2c_read-IsValid,
  i2c_write-IsValid, inject_point-IsValid, inject_touch-IsValid, IsValid, Leaves,
}

-- One call; `none` where `319 - mouse_x` overflows.
pub data Call : Type 0 where
  size : ℕ → Call
  resolution : ℕ → ℕ → Call
  failure_rate : ℕ → Call
  frame_stall : ℕ → Call
  phantom : Bool → Call
  touch : ℤ → ℤ → Bool → Call
  point : Gt911Point → Bool → Call
  clock : ℕ → Call
  read : ℕ → ℕ → Call
  write : ℕ → List ℕ → Call

unfoldable pub call : Gt911Controller → Call → Option Gt911Controller
call c (size n) = some (set_contact_size c n)
call c (resolution x y) = some (set_resolution c x y)
call c (failure_rate pct) = some (set_i2c_failure_rate c pct)
call c (frame_stall ms) = some (set_frame_stall_ms c ms)
call c (phantom enabled) = some (set_phantom_latch c enabled)
call c (touch x y pressed) = inject_touch c x y pressed
call c (point p pressed) = some ((inject_point c p pressed).0)
call c (clock now_ms) = some (tick c now_ms)
call c (read register len) = some ((i2c_read c register len).0)
call c (write register bytes) = some (i2c_write c register bytes)

unfoldable pub run_controller : Gt911Controller → List Call → Option Gt911Controller
run_controller c [] = some c
run_controller c (k ∷ ks) = elim (call c k) [ none ↦ none | some c' ↦ run_controller c' ks ]

call-IsValid : (c : Gt911Controller) (k : Call) → IsValid c → Leaves (call c k)
unfolding call set_contact_size set_resolution set_i2c_failure_rate set_frame_stall_ms
call-IsValid c (size n) v = v
call-IsValid c (resolution x y) v = v
call-IsValid c (failure_rate pct) (a, b, d, e, f, g) = (a, b, omega arith, omega arith, f, g)
call-IsValid c (frame_stall ms) v =
    let slow : Gt911Controller = record c {
      frame_stall_ms = ms;
      fired = record (c.fired) { frame_fired = false };
    } in
    arm_frame_stall-IsValid slow v
call-IsValid c (phantom enabled) v = set_phantom_latch-IsValid c enabled v
call-IsValid c (touch x y pressed) v = inject_touch-IsValid c x y pressed v
call-IsValid c (point p pressed) v = inject_point-IsValid c p pressed v
call-IsValid c (clock now_ms) v = tick-IsValid c now_ms v
call-IsValid c (read register len) v = i2c_read-IsValid c register len v
call-IsValid c (write register bytes) v = i2c_write-IsValid c register bytes v

-- Any sequence of calls keeps the state valid: the interrupt line says whether a frame waits, there
-- are five slots, the failure accumulator is below 100, a stall has both its ends, and a latched
-- point stands beside the time it was latched.
pub run_controller-IsValid :
    (ks : List Call) (c : Gt911Controller) → IsValid c → Leaves (run_controller c ks)
unfolding run_controller
run_controller-IsValid [] c v = v
run_controller-IsValid (k ∷ ks) c v =
    option_both Leaves (call c k) tt
      (λ c' e. run_controller-IsValid ks c' (subst Leaves e (call-IsValid c k v)))
