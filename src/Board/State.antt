-- ===== src/Board/State.antt =====
-- The state of a virtual board, core/board/src/lib.rs, and the maps that all boards share, by the
-- instance's id. A map or a set of GPIOs is a function. `F` is the type of the temperature.
use project_mycelium.Common.{
  ℕ, Bool, true, false, List, [], Option, none, some, String, ◌==◌, if◌then◌else◌,
}
use project_mycelium.Common.Store.{lookup, insert}

abbrev pub periph_pwr_en_gpio : ℕ
periph_pwr_en_gpio = 10

abbrev pub buzzer_gpio : ℕ
buzzer_gpio = 46

abbrev pub esp32_s3_max_gpio : ℕ
esp32_s3_max_gpio = 48

abbrev pub reset_reason_unknown : ℕ
reset_reason_unknown = 0

abbrev pub reset_reason_task_wdt : ℕ
reset_reason_task_wdt = 9

pub record LedcChannel : Type 0 where
  pub gpio : ℕ
  pub period_us : ℕ
  pub high_time_us : ℕ

-- Times are nanoseconds of the monotonic clock.
pub record TaskWatchdog : Type 0 where
  pub timeout : ℕ
  pub panic_on_timeout : Bool
  pub last_feed : ℕ
  pub timed_out : Bool

pub record BoardConfig (F : Type 0) : Type 0 where
  pub battery_mv : ℕ
  pub mcu_temperature : F
  pub manufacturer : String
  pub startup_reason : ℕ
  pub external_powered : Bool
  pub periph_pwr_enabled : Bool
  pub adc_calibrated : Bool
  pub psram_size_bytes : ℕ

pub record VirtualBoard (F : Type 0) : Type 0 where
  pub battery_mv : ℕ
  pub mcu_temperature : F
  pub psram_size_bytes : ℕ
  pub manufacturer : String
  pub startup_reason : ℕ
  pub external_powered : Bool
  pub periph_pwr_enabled : Bool
  pub adc_calibrated : Bool
  pub instance_id : String
  pub psram_used_bytes : ℕ
  pub psram_region : List ℕ
  pub rtc_gpio_holds : ℕ → Option Bool
  pub ledc_channels : ℕ → Option LedcChannel
  pub high_impedance_gpios : ℕ → Bool
  pub sd_active : Bool
  pub wire_active : Bool
  pub spi_active : Bool
  pub serial1_active : Bool
  pub chip_selects_deasserted : Bool
  pub watchdog : Option TaskWatchdog

-- `RTC_GPIO_HOLDS`, `PERIPHERAL_POWER`, `RESET_REASONS`, `LAST_BOOT_PHASE` and `RTC_NOINIT`, and
-- the instances whose buzzer sounds among those that have one.
pub record Shared : Type 0 where
  pub rtc_gpio_holds : List (String × (ℕ → Option Bool))
  pub peripheral_power : List (String × Bool)
  pub reset_reasons : List (String × ℕ)
  pub last_boot_phase : List (String × ℕ)
  pub rtc_noinit : List (String × List ℕ)
  pub buzzers : List (String × Bool)

abbrev pub no_holds : ℕ → Option Bool
no_holds gpio = none

abbrev pub or_else : {A : Type 0} → Option A → A → A
or_else none d = d
or_else (some a) d = a

-- `insert` on a map by GPIO.
abbrev pub with_key : {V : Type 0} → (ℕ → Option V) → ℕ → V → ℕ → Option V
with_key m key value at = if key == at then some value else m at

unfoldable pub peripherals_powered : Shared → String → Bool
peripherals_powered g instance_id = or_else (lookup instance_id g.peripheral_power) true

unfoldable pub set_reset_reason : Shared → String → ℕ → Shared
set_reset_reason g instance_id reason = record g {
  reset_reasons = insert instance_id reason g.reset_reasons;
}

unfoldable pub reset_reason : Shared → String → ℕ
reset_reason g instance_id = or_else (lookup instance_id g.reset_reasons) reset_reason_unknown

unfoldable pub set_boot_phase_for_instance : Shared → String → ℕ → Shared
set_boot_phase_for_instance g instance_id phase = record g {
  last_boot_phase = insert instance_id phase g.last_boot_phase;
}

unfoldable pub last_boot_phase_for_instance : Shared → String → ℕ
last_boot_phase_for_instance g instance_id = or_else (lookup instance_id g.last_boot_phase) 0

module _ {F : Type 0} where
  -- The RTC holds of an instance survive its boards, and a held power pin wins over the
  -- configuration.
  unfoldable pub new : Shared → String → BoardConfig F → Shared × VirtualBoard F
  new g instance_id config =
      let holds = or_else (lookup instance_id g.rtc_gpio_holds) no_holds in
      let power = or_else (holds periph_pwr_en_gpio) config.periph_pwr_enabled in
      (
        record g { peripheral_power = insert instance_id power g.peripheral_power },
        record {
          battery_mv = config.battery_mv;
          mcu_temperature = config.mcu_temperature;
          psram_size_bytes = config.psram_size_bytes;
          manufacturer = config.manufacturer;
          startup_reason = config.startup_reason;
          external_powered = config.external_powered;
          periph_pwr_enabled = power;
          adc_calibrated = config.adc_calibrated;
          instance_id = instance_id;
          psram_used_bytes = 0;
          psram_region = [];
          rtc_gpio_holds = holds;
          ledc_channels = λ channel. none;
          high_impedance_gpios = λ gpio. false;
          sd_active = true;
          wire_active = true;
          spi_active = true;
          serial1_active = true;
          chip_selects_deasserted = false;
          watchdog = none;
        },
      )
