-- ===== src/Board/Battery.antt =====
-- The battery and its charger, core/board/src/lib.rs. `f64` is the parameter `fl`.
use project_mycelium.Common.{
  ℕ, ◌-◌, ◌≤◌, ◌≡◌, refl, ◌∙◌, min, max, Bool, true, false, not, ◌&&◌, ◌||◌, ◌==◌, ltb, leb, List,
  [], ◌∷◌, arith, if◌then◌else◌,
}
use project_mycelium.Common.Word.{u16_max, sat_add16}
use project_mycelium.Common.Float.{Float}
use project_mycelium.Board.State.{VirtualBoard}

abbrev pub tp4054_full_mv : ℕ
tp4054_full_mv = 4200

pub data Tp4054State : Type 0 where
  charging charged no_battery : Tp4054State

-- `state == Charging`.
abbrev pub is_charging : Tp4054State → Bool
is_charging charging = true
is_charging _ = false

module _ {F : Type 0} where
  unfoldable pub set_battery : VirtualBoard F → ℕ → VirtualBoard F
  set_battery b mv = record b { battery_mv = mv }

  unfoldable pub set_external_power : VirtualBoard F → Bool → VirtualBoard F
  set_external_power b powered = record b { external_powered = powered }

  unfoldable pub set_adc_calibration : VirtualBoard F → Bool → VirtualBoard F
  set_adc_calibration b calibrated = record b { adc_calibrated = calibrated }

  unfoldable pub charger_state : VirtualBoard F → Tp4054State
  charger_state b =
      if b.battery_mv == 0
      then no_battery
      else if b.external_powered && ltb b.battery_mv tp4054_full_mv
      then charging
      else charged

module _ (fl : Float) where
  -- The millivolts that a current makes in a time.
  unfoldable pub change_mv : ℕ → fl.F → ℕ
  change_mv dt_ms current_ma =
      let mah = fl.div (fl.mul current_ma (fl.of_nat dt_ms)) (fl.of_nat 3600000) in
      min (fl.to_nat (fl.clamp (fl.round mah) (fl.of_nat 0) (fl.of_nat u16_max))) u16_max

  abbrev pub is_no_current : fl.F → Bool
  is_no_current current_ma = not (fl.is_finite current_ma) || fl.le current_ma (fl.of_nat 0)

module _ (fl : Float) {F : Type 0} where
  unfoldable pub simulate_charge : VirtualBoard F → ℕ → fl.F → VirtualBoard F
  simulate_charge b dt_ms charge_current_ma =
      if not (is_charging (charger_state b)) || is_no_current fl charge_current_ma
      then b
      else record b {
        battery_mv =
            min (sat_add16 b.battery_mv (change_mv fl dt_ms charge_current_ma)) tp4054_full_mv;
      }

  unfoldable pub simulate_discharge : VirtualBoard F → ℕ → fl.F → VirtualBoard F
  simulate_discharge b dt_ms current_ma =
      if b.external_powered || is_no_current fl current_ma
      then b
      else record b { battery_mv = b.battery_mv - change_mv fl dt_ms current_ma }

  -- Charging (true) and discharging by turns, for a time and at a current each.
  unfoldable pub loaded : VirtualBoard F → List (Bool × ℕ × fl.F) → VirtualBoard F
  loaded b [] = b
  loaded b ((true, dt_ms, current_ma) ∷ loads) = loaded (simulate_charge b dt_ms current_ma) loads
  loaded b ((false, dt_ms, current_ma) ∷ loads) =
      loaded (simulate_discharge b dt_ms current_ma) loads

  -- The voltage `b'` moves from `b` as the power supply says, and stays below full.
  abbrev pub Moves : VirtualBoard F → VirtualBoard F → Type 0
  Moves b b' =
      (b'.external_powered ≡ b.external_powered)
      × (b'.battery_mv ≤ max b.battery_mv tp4054_full_mv)
      × ((if b.external_powered
            then leb b.battery_mv b'.battery_mv
            else leb b'.battery_mv b.battery_mv)
          ≡ true)

  simulate_charge-Moves :
      (b : VirtualBoard F) (dt_ms : ℕ) (current_ma : fl.F)
      → Moves b (simulate_charge b dt_ms current_ma)
  unfolding simulate_charge charger_state
  simulate_charge-Moves b dt_ms current_ma = (ground arith, ground arith, ground arith)

  simulate_discharge-Moves :
      (b : VirtualBoard F) (dt_ms : ℕ) (current_ma : fl.F)
      → Moves b (simulate_discharge b dt_ms current_ma)
  unfolding simulate_discharge
  simulate_discharge-Moves b dt_ms current_ma = (ground arith, ground arith, ground arith)

  Moves-trans : (b d e : VirtualBoard F) → Moves b d → Moves d e → Moves b e
  Moves-trans b d e (p, low, side) (p', low', side') = (p' ∙ p, omega arith, ground arith)

  -- Whatever the loads and the arithmetic of floats, charging and discharging by turns never lifts
  -- the battery above 4200 mV unless it was above before; under external power its voltage never
  -- falls, and without it never rises.
  pub loaded-Moves :
      (loads : List (Bool × ℕ × fl.F)) (b : VirtualBoard F) → Moves b (loaded b loads)
  unfolding loaded
  loaded-Moves [] b = (refl, omega arith, ground arith)
  loaded-Moves ((true, dt_ms, current_ma) ∷ loads) b =
      let next = simulate_charge b dt_ms current_ma in
      Moves-trans b next (loaded next loads) (simulate_charge-Moves b dt_ms current_ma)
        (loaded-Moves loads next)
  loaded-Moves ((false, dt_ms, current_ma) ∷ loads) b =
      let next = simulate_discharge b dt_ms current_ma in
      Moves-trans b next (loaded next loads) (simulate_discharge-Moves b dt_ms current_ma)
        (loaded-Moves loads next)
