-- ===== src/Board/Adc.antt =====
-- The battery's analog-to-digital converter, core/board/src/lib.rs: the calibration curve of the
-- ESP32-S3 and the search for the raw count of a voltage. `f64` is the parameter `fl`.
use project_mycelium.Common.{
  ℕ, zero, suc, ◌+◌, ◌-◌, ◌*◌, ◌/◌, ◌^◌, ◌≤◌, ◌<◌, ◌≡◌, refl, sym, ap, subst, min, Bool, true,
  false, not, ◌&&◌, ◌||◌, ◌==◌, ltb, Option, none, some, arith, if◌then◌else◌, if_known, ltb→lt,
}
use project_mycelium.Common.Word.{u16_max}
use project_mycelium.Common.Float.{Float}

abbrev pub battery_adc_gpio : ℕ
battery_adc_gpio = 4

abbrev pub adc_max_count : ℕ
adc_max_count = 4095

-- An end that is the middle or has a property has it or is another place, if the middle has it.
moved :
    (P : ℕ → Bool) (at middle other : ℕ)
    → (at == middle || P at) ≡ true
    → P middle ≡ true
    → (at == other || P at) ≡ true
moved P at middle other h side = ground arith

halves-lt :
    (below : Bool) (low high : ℕ)
    → low + 1 < high
    → (if below then low + (high - low) / 2 else low)
      < (if below then high else low + (high - low) / 2)
halves-lt true low high h = omega arith
halves-lt false low high h = omega arith

halves-le :
    (below : Bool) (low high n : ℕ)
    → low + 1 < high
    → high ≤ low + 2 * n
    → (if below then high else low + (high - low) / 2)
      ≤ (if below then low + (high - low) / 2 else low) + n
halves-le true low high n h le = omega arith
halves-le false low high n h le = omega arith

module _ (fl : Float) where
  abbrev pub battery_divider_ratio : fl.F
  battery_divider_ratio = fl.of_nat 2

  abbrev pub battery_mv_per_adc_count : fl.F
  battery_mv_per_adc_count =
      fl.div (fl.mul (fl.of_nat 3300) battery_divider_ratio)
        (fl.add (fl.of_nat adc_max_count) (fl.of_nat 1))

  abbrev pub adc_efuse_cal_voltage_mv : fl.F
  adc_efuse_cal_voltage_mv = fl.of_nat 850

  abbrev pub adc_efuse_cal_raw_count : fl.F
  adc_efuse_cal_raw_count = fl.of_nat 929

  unfoldable pub s3_adc_error_mv : fl.F → fl.F
  s3_adc_error_mv x =
      fl.add
        (fl.sub
          (fl.add
            (fl.sub (fl.neg (fl.lit 644403418269478 15)) (fl.mul (fl.lit 644334888647536 16) x))
            (fl.mul (fl.lit 1297891447611 16) (fl.powi x 2)))
          (fl.mul (fl.lit 70769718 15) (fl.powi x 3)))
        (fl.mul (fl.lit 13515 15) (fl.powi x 4))

  unfoldable pub s3_calibrated_pin_mv : ℕ → fl.F
  s3_calibrated_pin_mv raw_count =
      if raw_count == 0
      then fl.of_nat 0
      else let first_step_mv =
          fl.div (fl.mul (fl.of_nat raw_count) adc_efuse_cal_voltage_mv) adc_efuse_cal_raw_count in
        fl.sub first_step_mv (s3_adc_error_mv first_step_mv)

  -- The rounds of the loop on a bracket; the fuel bounds them, and `none` is a loop that goes on.
  unfoldable pub bisect : ℕ → fl.F → ℕ → ℕ → Option (ℕ × ℕ)
  bisect zero pin_mv low high = if ltb (low + 1) high then none else some (low, high)
  bisect (suc fuel) pin_mv low high =
      let middle = low + (high - low) / 2 in
      let below = fl.lt (s3_calibrated_pin_mv middle) pin_mv in
      let rest =
        bisect fuel pin_mv (if below then middle else low) (if below then high else middle) in
      if ltb (low + 1) high then rest else some (low, high)

  -- The end of a bracket that is nearer to the voltage.
  unfoldable pub nearer : fl.F → ℕ → ℕ → ℕ
  nearer pin_mv low high =
      if fl.le (fl.abs (fl.sub (s3_calibrated_pin_mv low) pin_mv))
        (fl.abs (fl.sub (s3_calibrated_pin_mv high) pin_mv))
      then low
      else high

  abbrev pub out_of_scale : fl.F → Bool
  out_of_scale pin_mv = not (fl.is_finite pin_mv) || fl.le pin_mv (fl.of_nat 0)

  abbrev pub above_scale : fl.F → Bool
  above_scale pin_mv = fl.le (s3_calibrated_pin_mv adc_max_count) pin_mv

  -- `none` is a search that does not end within `fuel` rounds.
  unfoldable pub s3_raw_count_for_pin_mv : ℕ → fl.F → Option ℕ
  s3_raw_count_for_pin_mv fuel pin_mv =
      if out_of_scale pin_mv
      then some 0
      else if above_scale pin_mv
      then some adc_max_count
      else elim (bisect fuel pin_mv 0 adc_max_count) [
        | none ↦ none
        | some (low, high) ↦ some (nearer pin_mv low high)
      ]

  -- `get_adc`, for the battery's voltage and the two settings of the board.
  unfoldable pub get_adc : ℕ → ℕ → Bool → ℕ → Option ℕ
  get_adc fuel battery_mv adc_calibrated gpio =
      if not (gpio == battery_adc_gpio)
      then some 0
      else let pin_mv = fl.div (fl.of_nat battery_mv) battery_divider_ratio in
        elim (s3_raw_count_for_pin_mv fuel pin_mv) [
          | none ↦ none
          | some raw_count ↦ some (
              if not adc_calibrated
              then raw_count
              else if raw_count == adc_max_count && above_scale pin_mv
              then adc_max_count
              else min
                  (fl.to_nat (
                    fl.clamp
                      (fl.round (
                        fl.div (fl.mul (s3_calibrated_pin_mv raw_count) battery_divider_ratio)
                          battery_mv_per_adc_count))
                      (fl.of_nat 0) (fl.of_nat adc_max_count)))
                  u16_max)
        ]

  -- A bracket of neighbours: its lower end is the start of the scale or below the voltage, and its
  -- upper end is the end of the scale or not below it.
  abbrev pub Brackets : fl.F → ℕ → ℕ → ℕ → ℕ → Type 0
  Brackets pin_mv low high l h =
      (l + 1 ≡ h)
      × (low ≤ l)
      × (h ≤ high)
      × (((l == low) || fl.lt (s3_calibrated_pin_mv l) pin_mv) ≡ true)
      × (((h == high) || not (fl.lt (s3_calibrated_pin_mv h) pin_mv)) ≡ true)

  -- The search ends with a bracket inside the one it started with.
  abbrev Ends : fl.F → ℕ → ℕ → Option (ℕ × ℕ) → Type 0
  Ends pin_mv low high r = (l : ℕ) × ((h : ℕ) × (r ≡ some (l, h)) × Brackets pin_mv low high l h)

  neighbours-Ends :
      (pin_mv : fl.F) (low high : ℕ)
      → low < high
      → ltb (low + 1) high ≡ false
      → Ends pin_mv low high (some (low, high))
  neighbours-Ends pin_mv low high lt near =
      (low, (high, refl, (ground arith, omega arith, omega arith, ground arith, ground arith)))

  -- Narrowing the bracket from below or from above keeps what a bracket says.
  narrow-Ends :
      (pin_mv : fl.F) (low middle high : ℕ) (below : Bool) (r : Option (ℕ × ℕ))
      → low < middle
      → middle < high
      → fl.lt (s3_calibrated_pin_mv middle) pin_mv ≡ below
      → Ends pin_mv (if below then middle else low) (if below then high else middle) r
      → Ends pin_mv low high r
  narrow-Ends pin_mv low middle high true r a b side (l, (h, e, (next, from, to, lower, upper))) = (
    l,
    (
      h,
      e,
      (
        next,
        omega arith,
        to,
        moved (λ i. fl.lt (s3_calibrated_pin_mv i) pin_mv) l middle low lower side,
        upper,
      ),
    ),
  )
  narrow-Ends pin_mv low middle high false r a b side (l, (h, e, (next, from, to, lower, upper))) =
      (
        l,
        (
          h,
          e,
          (
            next,
            from,
            omega arith,
            lower,
            moved (λ i. not (fl.lt (s3_calibrated_pin_mv i) pin_mv)) h middle high upper
                (ap not side),
          ),
        ),
      )

  bisect-Brackets :
      (fuel : ℕ) (pin_mv : fl.F) (low high : ℕ)
      → low < high
      → high ≤ low + 2 ^ fuel
      → Ends pin_mv low high (bisect fuel pin_mv low high)
  unfolding bisect
  bisect-Brackets zero pin_mv low high lt le =
      let near : ltb (low + 1) high ≡ false = ground arith in
      subst (λ b. Ends pin_mv low high (if b then none else some (low, high))) (sym near)
        (neighbours-Ends pin_mv low high lt near)
  bisect-Brackets (suc fuel) pin_mv low high lt le =
      let middle = low + (high - low) / 2 in
      let below = fl.lt (s3_calibrated_pin_mv middle) pin_mv in
      if_known (Ends pin_mv low high) (ltb (low + 1) high)
        (λ wide.
          let wider = ltb→lt (low + 1) high wide in
          narrow-Ends pin_mv low middle high below _ (omega arith) (omega arith) refl (
            bisect-Brackets fuel pin_mv (if below then middle else low)
              (if below then high else middle) (halves-lt below low high wider)
              (halves-le below low high (2 ^ fuel) wider (omega arith))))
        (λ near. neighbours-Ends pin_mv low high lt near)

  found-nearer :
      (pin_mv : fl.F) (l h : ℕ)
      → bisect 12 pin_mv 0 adc_max_count ≡ some (l, h)
      → out_of_scale pin_mv ≡ false
      → above_scale pin_mv ≡ false
      → s3_raw_count_for_pin_mv 12 pin_mv ≡ some (nearer pin_mv l h)
  unfolding s3_raw_count_for_pin_mv
  found-nearer pin_mv l h e inside below = ground (arith, e, inside, below)

  -- For every voltage on the converter's scale, whatever the arithmetic of floats, the search ends
  -- within its 12 rounds. Its count is the nearer of two neighbours on the calibration curve: the
  -- lower is 0 or lies below the voltage, the upper is 4095 or does not lie below it.
  pub s3_raw_count_for_pin_mv_ends :
      (pin_mv : fl.F)
      → out_of_scale pin_mv ≡ false
      → above_scale pin_mv ≡ false
      → (count : ℕ) × (s3_raw_count_for_pin_mv 12 pin_mv ≡ some count)
        × ((l : ℕ) × ((h : ℕ) × Brackets pin_mv 0 adc_max_count l h × (count ≡ nearer pin_mv l h)))
  s3_raw_count_for_pin_mv_ends pin_mv inside below =
      let (l, (h, e, bracket)) =
        bisect-Brackets 12 pin_mv 0 adc_max_count (omega arith) (omega arith) in
      (nearer pin_mv l h, found-nearer pin_mv l h e inside below, (l, (h, bracket, refl)))
