-- ===== src/Input/Gt911/Configured.antt =====
-- Every live GT911 controller runs with the failure modes that are configured for its instance:
-- the calls on the registry of core/input/src/gt911.rs, in any order.
use project_mycelium.Common.{
  ℕ, ◌≤◌, ◌≡◌, refl, ◌∙◌, ap, min, Bool, true, List, [], ◌∷◌, some, String, All, All-append, arith,
  if◌then◌else◌, option_both,
}
use text.Mathlib.Text.{◌==◌ as str_eq}
use text.Mathlib.TextEquality.{eq_iff}
use project_mycelium.Common.Store.{
  lookup, insert, map_values, Each, lookup-insert, lookup-map_values, insert-Each, map_values-Each,
  lookup-Each,
}
use project_mycelium.Input.Gt911.{Gt911Controller, new, set_i2c_failure_rate, set_frame_stall_ms}
use project_mycelium.Input.Gt911.Registers.{tick}
use project_mycelium.Input.Gt911.Registry.{
  FailureConfiguration, ControllerRegistry, configure, reconfigure, apply_failure_mode,
  configuration_of, new_controller, new_shared_gt911_for_instance, on_controllers,
  set_failure_mode_for_instance, set_global_failure_mode, tick_all_gt911, modes,
  modes-apply_failure_mode, modes-set_frame_stall_ms, modes-set_phantom_latch, modes-tick,
}

abbrev IsCapped : FailureConfiguration → Type 0
IsCapped configuration = configuration.i2c_failure_rate ≤ 100

abbrev Follows : ControllerRegistry → String × Gt911Controller → Type 0
Follows r (at, c) = modes c ≡ configuration_of r at

-- Each controller runs with its instance's failure modes, and the failure rates are percentages.
abbrev pub IsConfigured : ControllerRegistry → Type 0
IsConfigured r =
    All (Follows r) r.controllers
    × IsCapped r.global_configuration
    × Each (λ at configuration. IsCapped configuration) r.instance_configurations

on_controllers-All :
    (P Q : String × Gt911Controller → Type 0) (of : String → Bool)
    (f : Gt911Controller → Gt911Controller) (cs : List (String × Gt911Controller))
    → ((at : String) (c : Gt911Controller) → P (at, c) → Q (at, if of at then f c else c))
    → All P cs
    → All Q (on_controllers of f cs)
unfolding on_controllers
on_controllers-All P Q of f [] step h = tt
on_controllers-All P Q of f ((at, c) ∷ cs) step (h, hs) =
    (step at c h, on_controllers-All P Q of f cs step hs)

configure-IsCapped :
    (before after : FailureConfiguration) (mode value : ℕ)
    → IsCapped before
    → configure before mode value ≡ some after
    → IsCapped after
unfolding configure
configure-IsCapped before after mode value h e = ground arith

reconfigure-IsCapped :
    (before : FailureConfiguration) (mode value : ℕ)
    → IsCapped before
    → IsCapped (reconfigure mode value before)
unfolding reconfigure
reconfigure-IsCapped before mode value h =
    option_both IsCapped (configure before mode value) h
      (λ after e. configure-IsCapped before after mode value h e)

configuration_of-IsCapped :
    (r : ControllerRegistry) (at : String) → IsConfigured r → IsCapped (configuration_of r at)
unfolding configuration_of
configuration_of-IsCapped r at (follow, capped, each) =
    option_both IsCapped (lookup at r.instance_configurations) capped (λ own e.
      lookup-Each (λ at configuration. IsCapped configuration) at r.instance_configurations each e)

modes-new_controller :
    (configuration : FailureConfiguration)
    → IsCapped configuration
    → modes (new_controller configuration) ≡ configuration
unfolding new_controller set_i2c_failure_rate
modes-new_controller configuration h =
    let rated = set_i2c_failure_rate new configuration.i2c_failure_rate in
    let capped : min configuration.i2c_failure_rate 100 ≡ configuration.i2c_failure_rate =
      omega arith in
    let stalled = modes-set_frame_stall_ms rated configuration.frame_stall_ms in
    let latched =
      modes-set_phantom_latch (set_frame_stall_ms rated configuration.frame_stall_ms)
        configuration.phantom_latch in
    let last : FailureConfiguration → FailureConfiguration =
      λ m. record m { phantom_latch = configuration.phantom_latch } in
    latched ∙ ap last stalled ∙ ap (λ n. record configuration { i2c_failure_rate = n }) capped

new-IsConfigured :
    (r : ControllerRegistry) (instance_id : String)
    → IsConfigured r
    → IsConfigured (new_shared_gt911_for_instance r instance_id)
unfolding new_shared_gt911_for_instance configuration_of
new-IsConfigured r instance_id h =
    let capped = configuration_of-IsCapped r instance_id h in
    let follow = modes-new_controller (configuration_of r instance_id) capped in
    (All-append (Follows r) r.controllers _ h.0 (follow, tt), h.1, h.2)

for_instance-Follows :
    (r after : ControllerRegistry) (instance_id : String) (mode value : ℕ)
    (own : FailureConfiguration)
    → configure (configuration_of r instance_id) mode value ≡ some own
    → after.global_configuration ≡ r.global_configuration
    → after.instance_configurations ≡ insert instance_id own r.instance_configurations
    → (at : String) (c : Gt911Controller) → Follows r (at, c)
    → Follows after (at, if str_eq instance_id at then apply_failure_mode mode value c else c)
unfolding configuration_of reconfigure
for_instance-Follows r after instance_id mode value own e same put at c h =
    let applied = modes-apply_failure_mode mode value c in
    let found = lookup-insert instance_id at own r.instance_configurations in
    let own_name = eq_iff instance_id at in ground (arith, applied, found, own_name)

global-Follows :
    (r after : ControllerRegistry) (mode value : ℕ)
    → after.global_configuration ≡ reconfigure mode value r.global_configuration
    → after.instance_configurations
      ≡ map_values (λ at. reconfigure mode value) r.instance_configurations
    → (at : String) (c : Gt911Controller) → Follows r (at, c)
    → Follows after (at, apply_failure_mode mode value c)
unfolding configuration_of
global-Follows r after mode value e put at c h =
    let applied = modes-apply_failure_mode mode value c in
    let found = lookup-map_values at (λ at. reconfigure mode value) r.instance_configurations in
    ground (arith, applied, found)

for_instance-IsConfigured :
    (r : ControllerRegistry) (instance_id : String) (mode value : ℕ)
    → IsConfigured r
    → IsConfigured (set_failure_mode_for_instance r instance_id mode value)
unfolding set_failure_mode_for_instance
for_instance-IsConfigured r instance_id mode value h =
    option_both IsConfigured (configure (configuration_of r instance_id) mode value) h (λ own e.
      let after : ControllerRegistry = record r {
        instance_configurations = insert instance_id own r.instance_configurations;
        controllers =
            on_controllers (str_eq instance_id) (apply_failure_mode mode value) r.controllers;
      } in
      let own-IsCapped =
        configure-IsCapped (configuration_of r instance_id) own mode value
          (configuration_of-IsCapped r instance_id h) e in
      let follow = for_instance-Follows r after instance_id mode value own e refl refl in
      (
        on_controllers-All (Follows r) (Follows after) (str_eq instance_id)
            (apply_failure_mode mode value) r.controllers follow h.0,
        h.1,
        insert-Each (λ at configuration. IsCapped configuration) instance_id own
            r.instance_configurations own-IsCapped h.2,
      ))

global-IsConfigured :
    (r : ControllerRegistry) (mode value : ℕ)
    → IsConfigured r
    → IsConfigured (set_global_failure_mode r mode value)
unfolding set_global_failure_mode reconfigure
global-IsConfigured r mode value h =
    option_both IsConfigured (configure r.global_configuration mode value) h (λ shared e.
      let after : ControllerRegistry = record r {
        global_configuration = shared;
        instance_configurations =
            map_values (λ at. reconfigure mode value) r.instance_configurations;
        controllers = on_controllers (λ at. true) (apply_failure_mode mode value) r.controllers;
      } in
      let follow = global-Follows r after mode value (ground (arith, e)) refl in
      (
        on_controllers-All (Follows r) (Follows after) (λ at. true) (apply_failure_mode mode value)
            r.controllers follow h.0,
        configure-IsCapped r.global_configuration shared mode value h.1 e,
        map_values-Each (λ at configuration. IsCapped configuration) (λ at. reconfigure mode value)
            r.instance_configurations (λ at own capped. reconfigure-IsCapped own mode value capped)
            h.2,
      ))

tick-IsConfigured :
    (r : ControllerRegistry) (now_ms : ℕ) → IsConfigured r → IsConfigured (tick_all_gt911 r now_ms)
unfolding tick_all_gt911 configuration_of
tick-IsConfigured r now_ms h =
    let after = tick_all_gt911 r now_ms in
    (
      on_controllers-All (Follows r) (Follows after) (λ at. true) (λ c. tick c now_ms) r.controllers
          (λ at c follow. modes-tick now_ms c ∙ follow) h.0,
      h.1,
      h.2,
    )

-- One call on the registry.
pub data RegistryCall : Type 0 where
  create : String → RegistryCall
  for_instance : String → ℕ → ℕ → RegistryCall
  global : ℕ → ℕ → RegistryCall
  clock : ℕ → RegistryCall

unfoldable pub run_registry : ControllerRegistry → List RegistryCall → ControllerRegistry
run_registry r [] = r
run_registry r (create instance_id ∷ ks) =
    run_registry (new_shared_gt911_for_instance r instance_id) ks
run_registry r (for_instance instance_id mode value ∷ ks) =
    run_registry (set_failure_mode_for_instance r instance_id mode value) ks
run_registry r (global mode value ∷ ks) = run_registry (set_global_failure_mode r mode value) ks
run_registry r (clock now_ms ∷ ks) = run_registry (tick_all_gt911 r now_ms) ks

-- After any sequence of calls on the registry, each live controller runs with the failure modes that
-- are configured for its instance, or with the global ones where the instance has none of its own,
-- and each configured failure rate is at most 100.
pub run_registry-IsConfigured :
    (ks : List RegistryCall) (r : ControllerRegistry)
    → IsConfigured r
    → IsConfigured (run_registry r ks)
unfolding run_registry
run_registry-IsConfigured [] r h = h
run_registry-IsConfigured (create instance_id ∷ ks) r h =
    run_registry-IsConfigured ks _ (new-IsConfigured r instance_id h)
run_registry-IsConfigured (for_instance instance_id mode value ∷ ks) r h =
    run_registry-IsConfigured ks _ (for_instance-IsConfigured r instance_id mode value h)
run_registry-IsConfigured (global mode value ∷ ks) r h =
    run_registry-IsConfigured ks _ (global-IsConfigured r mode value h)
run_registry-IsConfigured (clock now_ms ∷ ks) r h =
    run_registry-IsConfigured ks _ (tick-IsConfigured r now_ms h)
