-- ===== src/Board/Power.antt =====
-- The peripheral power rail of a board, its pins and their shutdown before deep sleep,
-- core/board/src/lib.rs.
use project_mycelium.Common.{
  ℕ, zero, suc, ◌≤◌, ◌≡◌, refl, ap, ◌∙◌, Bool, true, false, not, ◌&&◌, ◌||◌, ◌==◌, leb, Option,
  none, some, String, arith, if◌then◌else◌,
}
use text.Mathlib.Text.{◌==◌ as str_eq}
use project_mycelium.Common.Store.{lookup, insert, modify, lookup-insert, lookup-insert_self}
use project_mycelium.Board.State.{
  VirtualBoard, BoardConfig, Shared, periph_pwr_en_gpio, esp32_s3_max_gpio, or_else, no_holds,
  with_key, peripherals_powered, new,
}

-- `== Some(false)`.
unfoldable pub is_held_low : Option Bool → Bool
is_held_low (some false) = true
is_held_low _ = false

-- Each pin below `n`, the power pin apart, is in high impedance.
unfoldable pub all_floating : (ℕ → Bool) → ℕ → Bool
all_floating high_impedance zero = true
all_floating high_impedance (suc n) =
    all_floating high_impedance n && (n == periph_pwr_en_gpio || high_impedance n)

-- `extend` of the set of pins by all but the power pin.
unfoldable pub float_all : (ℕ → Bool) → ℕ → Bool
float_all high_impedance gpio =
    high_impedance gpio || (leb gpio esp32_s3_max_gpio && not (gpio == periph_pwr_en_gpio))

all_floating-float_all :
    (high_impedance : ℕ → Bool) (n : ℕ)
    → n ≤ suc esp32_s3_max_gpio
    → all_floating (float_all high_impedance) n ≡ true
unfolding all_floating float_all
all_floating-float_all high_impedance zero h = refl
all_floating-float_all high_impedance (suc n) h =
    let below = all_floating-float_all high_impedance n (omega arith) in ground (arith, below)

module _ {F : Type 0} where
  unfoldable pub rtc_gpio_hold : Shared → VirtualBoard F → ℕ → Bool → Shared × VirtualBoard F
  rtc_gpio_hold g b gpio level =
      let held = or_else (lookup b.instance_id g.rtc_gpio_holds) no_holds in
      (
        record g {
          rtc_gpio_holds = insert b.instance_id (with_key held gpio level) g.rtc_gpio_holds;
        },
        record b { rtc_gpio_holds = with_key b.rtc_gpio_holds gpio level },
      )

  unfoldable pub rtc_gpio_hold_level : VirtualBoard F → ℕ → Option Bool
  rtc_gpio_hold_level b gpio = b.rtc_gpio_holds gpio

  -- Power can only be raised while the I2C bus is active; lowering it silences the buzzer.
  unfoldable pub digital_write : Shared → VirtualBoard F → ℕ → Bool → Shared × VirtualBoard F
  digital_write g b gpio high =
      if not (gpio == periph_pwr_en_gpio) || (high && not b.wire_active) then (g, b) else (
        record g {
          peripheral_power = insert b.instance_id high g.peripheral_power;
          buzzers = if high then g.buzzers else modify b.instance_id (λ playing. false) g.buzzers;
        },
        record b { periph_pwr_enabled = high },
      )

  unfoldable pub quiesce_peripherals : Shared → VirtualBoard F → Shared × VirtualBoard F
  quiesce_peripherals g b =
      let quiet = record b {
        ledc_channels = λ channel. none;
        chip_selects_deasserted = true;
        sd_active = false;
        wire_active = false;
        serial1_active = false;
        spi_active = false;
        high_impedance_gpios = float_all b.high_impedance_gpios;
      } in
      let (g', off) = digital_write g quiet periph_pwr_en_gpio false in
      rtc_gpio_hold g' off periph_pwr_en_gpio false

  unfoldable pub peripherals_quiesced : VirtualBoard F → Bool
  peripherals_quiesced b =
      not b.sd_active
      && not b.wire_active
      && not b.spi_active
      && not b.serial1_active
      && b.chip_selects_deasserted
      && not b.periph_pwr_enabled
      && is_held_low (rtc_gpio_hold_level b periph_pwr_en_gpio)
      && all_floating b.high_impedance_gpios (suc esp32_s3_max_gpio)

  unfoldable pub ledc_attach : VirtualBoard F → ℕ → ℕ → VirtualBoard F
  ledc_attach b channel gpio = record b {
    ledc_channels =
        with_key b.ledc_channels channel (record { gpio = gpio; period_us = 0; high_time_us = 0 });
  }

  -- Shutting the peripherals down leaves the board quiesced, its rail off and every other
  -- instance's as it was; the rail cannot be raised again, and a new
  -- board of the instance starts with the rail off whatever its configuration says.
  pub quiesce_peripherals_lem :
      (g : Shared) (b : VirtualBoard F) (config : BoardConfig F) (other : String)
      → let (g', b') = quiesce_peripherals g b in
        (peripherals_quiesced b' ≡ true)
        × (peripherals_powered g' other
            ≡ (if str_eq b.instance_id other then false else peripherals_powered g other))
        × (digital_write g' b' periph_pwr_en_gpio true ≡ (g', b'))
        × (((new g' b.instance_id config).1).periph_pwr_enabled ≡ false)
        × (peripherals_powered ((new g' b.instance_id config).0) b.instance_id ≡ false)
  unfolding quiesce_peripherals digital_write rtc_gpio_hold new peripherals_powered
      peripherals_quiesced rtc_gpio_hold_level is_held_low
  quiesce_peripherals_lem g b config other =
      let floating =
        all_floating-float_all b.high_impedance_gpios (suc esp32_s3_max_gpio) (omega arith) in
      let held =
        lookup-insert_self b.instance_id
          (with_key (or_else (lookup b.instance_id g.rtc_gpio_holds) no_holds) periph_pwr_en_gpio
            false)
          g.rtc_gpio_holds in
      let (g', b') = quiesce_peripherals g b in
      let restarted : ((new g' b.instance_id config).1).periph_pwr_enabled ≡ false =
        ap (λ o. or_else (or_else o no_holds periph_pwr_en_gpio) config.periph_pwr_enabled) held in
      (
        floating,
        ground (arith, lookup-insert b.instance_id other false g.peripheral_power),
        refl,
        restarted,
        ap (λ o. or_else o true) (lookup-insert_self b.instance_id _ _) ∙ restarted,
      )
