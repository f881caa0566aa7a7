-- ===== src/Input/Gt911/Registry.antt =====
-- The registry of live GT911 controllers and of their failure configurations, `CONTROLLERS` in
-- core/input/src/gt911.rs. The list holds the controllers that are still referenced: the code drops
-- the others whenever it lists the live ones.
use project_mycelium.Common.{
  ℕ, ◌≡◌, refl, min, Bool, true, false, not, ◌==◌, List, [], ◌∷◌, ◌++◌, Option, none, some, String,
  arith, if◌then◌else◌,
}
use text.Mathlib.Text.{◌==◌ as str_eq}
use project_mycelium.Common.Store.{lookup, insert, map_values}
use project_mycelium.Input.Gt911.{
  Gt911Controller, new, mark_frame_ready, restore_physical, set_i2c_failure_rate,
  set_frame_stall_ms, set_phantom_latch, arm_frame_stall,
}
use project_mycelium.Input.Gt911.Registers.{tick}

abbrev pub gt911_failure_mode_bus : ℕ
gt911_failure_mode_bus = 1

abbrev pub gt911_failure_mode_frame_stall : ℕ
gt911_failure_mode_frame_stall = 2

abbrev pub gt911_failure_mode_phantom_latch : ℕ
gt911_failure_mode_phantom_latch = 3

pub record FailureConfiguration : Type 0 where
  pub i2c_failure_rate : ℕ
  pub frame_stall_ms : ℕ
  pub phantom_latch : Bool

abbrev pub no_failures : FailureConfiguration
no_failures = record { i2c_failure_rate = 0; frame_stall_ms = 0; phantom_latch = false }

-- `FailureConfiguration::set`; `none` is a mode that there is not.
unfoldable pub configure : FailureConfiguration → ℕ → ℕ → Option FailureConfiguration
configure configuration mode value =
    if mode == gt911_failure_mode_bus
    then some (record configuration { i2c_failure_rate = min value 100 })
    else if mode == gt911_failure_mode_frame_stall
    then some (record configuration { frame_stall_ms = value })
    else if mode == gt911_failure_mode_phantom_latch
    then some (record configuration { phantom_latch = not (value == 0) })
    else none

-- The same where the result is not looked at.
unfoldable pub reconfigure : ℕ → ℕ → FailureConfiguration → FailureConfiguration
reconfigure mode value configuration = elim (configure configuration mode value) [
  | none ↦ configuration
  | some after ↦ after
]

unfoldable pub apply_failure_mode : ℕ → ℕ → Gt911Controller → Gt911Controller
apply_failure_mode mode value c =
    if mode == gt911_failure_mode_bus
    then set_i2c_failure_rate c (min value 100)
    else if mode == gt911_failure_mode_frame_stall
    then set_frame_stall_ms c value
    else if mode == gt911_failure_mode_phantom_latch
    then set_phantom_latch c (not (value == 0))
    else c

pub record ControllerRegistry : Type 0 where
  pub global_configuration : FailureConfiguration
  pub instance_configurations : List (String × FailureConfiguration)
  pub controllers : List (String × Gt911Controller)

abbrev pub empty : ControllerRegistry
empty = record {
  global_configuration = no_failures;
  instance_configurations = [];
  controllers = [];
}

-- An instance's own configuration, or the global one.
unfoldable pub configuration_of : ControllerRegistry → String → FailureConfiguration
configuration_of r instance_id = elim (lookup instance_id r.instance_configurations) [
  | none ↦ r.global_configuration
  | some configuration ↦ configuration
]

unfoldable pub new_controller : FailureConfiguration → Gt911Controller
new_controller configuration =
    set_phantom_latch
      (set_frame_stall_ms (set_i2c_failure_rate new configuration.i2c_failure_rate)
        configuration.frame_stall_ms)
      configuration.phantom_latch

unfoldable pub new_shared_gt911_for_instance : ControllerRegistry → String → ControllerRegistry
new_shared_gt911_for_instance r instance_id = record r {
  controllers =
      r.controllers ++ ((instance_id, new_controller (configuration_of r instance_id)) ∷ []);
}

-- A call on each live controller that `of` picks.
unfoldable pub on_controllers :
    (String → Bool)
    → (Gt911Controller → Gt911Controller)
    → List (String × Gt911Controller)
    → List (String × Gt911Controller)
on_controllers of f [] = []
on_controllers of f ((at, c) ∷ rest) = (at, if of at then f c else c) ∷ on_controllers of f rest

unfoldable pub set_failure_mode_for_instance :
    ControllerRegistry → String → ℕ → ℕ → ControllerRegistry
set_failure_mode_for_instance r instance_id mode value =
    elim (configure (configuration_of r instance_id) mode value) [
      | none ↦ r
      | some configuration ↦ record r {
        instance_configurations = insert instance_id configuration r.instance_configurations;
        controllers =
            on_controllers (str_eq instance_id) (apply_failure_mode mode value) r.controllers;
      }
    ]

unfoldable pub set_global_failure_mode : ControllerRegistry → ℕ → ℕ → ControllerRegistry
set_global_failure_mode r mode value = elim (configure r.global_configuration mode value) [
  | none ↦ r
  | some configuration ↦ record r {
    global_configuration = configuration;
    instance_configurations = map_values (λ at. reconfigure mode value) r.instance_configurations;
    controllers = on_controllers (λ at. true) (apply_failure_mode mode value) r.controllers;
  }
]

unfoldable pub tick_all_gt911 : ControllerRegistry → ℕ → ControllerRegistry
tick_all_gt911 r now_ms = record r {
  controllers = on_controllers (λ at. true) (λ c. tick c now_ms) r.controllers;
}

-- The failure modes that a controller runs with.
abbrev pub modes : Gt911Controller → FailureConfiguration
modes c = record {
  i2c_failure_rate = c.i2c_failure_rate;
  frame_stall_ms = c.frame_stall_ms;
  phantom_latch = c.phantom_latch;
}

pub modes-set_frame_stall_ms :
    (c : Gt911Controller) (ms : ℕ)
    → modes (set_frame_stall_ms c ms) ≡ record (modes c) { frame_stall_ms = ms }
unfolding set_frame_stall_ms arm_frame_stall
modes-set_frame_stall_ms c ms = ground arith

pub modes-set_phantom_latch :
    (c : Gt911Controller) (enabled : Bool)
    → modes (set_phantom_latch c enabled) ≡ record (modes c) { phantom_latch = enabled }
unfolding set_phantom_latch mark_frame_ready restore_physical
modes-set_phantom_latch c true = refl
modes-set_phantom_latch c false = ground arith

pub modes-apply_failure_mode :
    (mode value : ℕ) (c : Gt911Controller)
    → modes (apply_failure_mode mode value c) ≡ reconfigure mode value (modes c)
unfolding apply_failure_mode reconfigure configure set_i2c_failure_rate
modes-apply_failure_mode mode value c =
    let capped : min (min value 100) 100 ≡ min value 100 = omega arith in
    let stalled = modes-set_frame_stall_ms c value in
    let latched = modes-set_phantom_latch c (not (value == 0)) in
    ground (arith, capped, stalled, latched)

pub modes-tick : (now_ms : ℕ) (c : Gt911Controller) → modes (tick c now_ms) ≡ modes c
unfolding tick mark_frame_ready
modes-tick now_ms c = ground arith
