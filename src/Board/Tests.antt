-- ===== src/Board/Tests.antt =====
-- The virtual flash at concrete inputs.
use project_mycelium.Common.{
  ℕ, ◌+◌, min, ◌==◌, ltb, arith, ◌≡◌, refl, true, false, [], ◌∷◌, List, Option, none, some, length,
  if◌then◌else◌,
}
use text.Mathlib.Text.{◌==◌ as str_eq}
use project_mycelium.Common.Store.{lookup, insert}
use project_mycelium.Board.Nvs.{
  PersistedNvs, VirtualNvs, not_found, HostWrite, succeeds, fails_before_rename, fails_after_rename,
  bool, valid_name, byte_len, has_nul, can_write, open_value, fits_partition, persist, commit, put,
  with_size,
}
use project_mycelium.Board.Nvs.Put.{IsConsistent, put_stored, put_failed_on_disk}
use project_mycelium.Board.Nvs.Calls.{Call, begins, puts, removes, ends, run, run-IsConsistent}
use project_mycelium.Common.{String}
use project_mycelium.Board.Partition.{get_partition_table}
use project_mycelium.Board.Partition.Modes.{
  PartitionCall, registers, activates, removes, run_calls, modes_after, no_modes, no_tables, Shows,
  IsTable, run_calls-Shows,
}
use project_mycelium.Common.Int.{ℤ, pos}
use project_mycelium.Common.Toy.{toy}
use project_mycelium.Common.Bytes.{overwrite}
use project_mycelium.Board.State.{
  VirtualBoard, BoardConfig, Shared, TaskWatchdog, peripherals_powered, new,
}
use project_mycelium.Board.Power.{
  quiesce_peripherals, peripherals_quiesced, digital_write, quiesce_peripherals_lem,
}
use project_mycelium.Board.Psram.{
  psram_readback_test, psram_free_bytes, grown, psram_readback_test_lem,
}
use project_mycelium.Board.Adc.{
  s3_calibrated_pin_mv, s3_raw_count_for_pin_mv, nearer, s3_raw_count_for_pin_mv_ends,
}
use project_mycelium.Board.Adc
use project_mycelium.Board.Rtc.{
  region_of, set_rtc_noinit, get_rtc_noinit, IsSized, get_rtc_noinit-set_rtc_noinit,
}
use project_mycelium.Board.Watchdog.{feeds, in_time, feeds-in_time}

-- A text as long as there are namespaces.
abbrev text_len : PersistedNvs → Option ℕ
text_len m = some (length m)

abbrev opened : VirtualNvs
opened = record {
  partition_size = 100;
  backing = none;
  persisted = ("cfg", ("mute", bool true) ∷ []) ∷ [];
  open_namespace = some (record { name = "cfg"; read_only = false });
}

abbrev stored : VirtualNvs
stored = record {
  partition_size = 100;
  backing = some (("cfg", ("mute", bool false) ∷ []) ∷ []);
  persisted = ("cfg", ("mute", bool false) ∷ []) ∷ [];
  open_namespace = some (record { name = "cfg"; read_only = false });
}

put_stores : put text_len succeeds opened "mute" (bool false) ≡ some (stored, true)
unfolding put can_write valid_name byte_len has_nul lookup insert commit persist fits_partition
put_stores = refl

put_fails : put text_len fails_before_rename opened "mute" (bool false) ≡ some (opened, false)
unfolding put can_write valid_name byte_len has_nul lookup insert commit persist fits_partition
put_fails = refl

put_stored_example :
    (open_value stored "mute"
      ≡ (if str_eq "mute" "mute" then some (bool false) else open_value opened "mute"))
    × (stored.backing ≡ some stored.persisted)
    × (fits_partition text_len stored ≡ true)
put_stored_example =
    put_stored text_len succeeds opened stored "mute" "mute" (bool false) put_stores

mute_is_valid : valid_name "mute" ≡ true
unfolding valid_name byte_len has_nul
mute_is_valid = refl

may_write : can_write opened ≡ true
unfolding can_write
may_write = refl

cfg_found : lookup "cfg" opened.persisted ≡ some (("mute", bool true) ∷ [])
unfolding lookup
cfg_found = refl

new_fits :
    fits_partition text_len (record opened {
      persisted =
          insert "cfg" (insert "mute" (bool false) (("mute", bool true) ∷ [])) opened.persisted;
    })
    ≡ true
unfolding fits_partition insert
new_fits = refl

put_failed_on_disk_example :
    put text_len fails_after_rename opened "mute" (bool false)
    ≡ some (
      record opened {
        backing =
            some (
              insert "cfg"
                (insert "mute" (bool false) (("mute", bool true) ∷ []))
                opened.persisted);
      },
      false,
    )
put_failed_on_disk_example =
    put_failed_on_disk text_len opened "mute" (bool false)
      (record { name = "cfg"; read_only = false }) (("mute", bool true) ∷ []) mute_is_valid
      may_write refl cfg_found new_fits

abbrev fresh : VirtualNvs
fresh = record { partition_size = 0x5000; backing = none; persisted = []; open_namespace = none }

fresh_opens : with_size "tdeck" 0x5000 not_found ≡ some fresh
unfolding with_size byte_len
fresh_opens = refl

abbrev a_day : List (HostWrite × Call)
a_day =
    (succeeds, begins "cfg" false)
    ∷ (succeeds, puts "mute" (bool true))
    ∷ (fails_after_rename, removes "mute")
    ∷ (succeeds, ends)
    ∷ []

run-IsConsistent_example :
    (after : VirtualNvs) × (run text_len a_day fresh ≡ some after) × IsConsistent after
run-IsConsistent_example =
    run-IsConsistent text_len a_day "tdeck" 0x5000 not_found fresh fresh_opens

abbrev partition_calls : List PartitionCall
partition_calls = registers "a" true ∷ registers "b" false ∷ activates "a" ∷ removes "b" ∷ []

run_calls-Shows_example :
    let m = modes_after no_modes partition_calls in
    let r = run_calls no_tables partition_calls in
    ((id : String) → Shows (m.of_instance id) (get_partition_table r id))
    × IsTable m.active r.active
run_calls-Shows_example = run_calls-Shows partition_calls

abbrev dog : TaskWatchdog
dog = record { timeout = 10; panic_on_timeout = true; last_feed = 0; timed_out = false }

-- The temperature does not matter.
abbrev board : VirtualBoard ℕ
board = record {
  battery_mv = 3900;
  mcu_temperature = 35;
  psram_size_bytes = 100;
  manufacturer = "T-Deck";
  startup_reason = 0;
  external_powered = true;
  periph_pwr_enabled = true;
  adc_calibrated = true;
  instance_id = "a";
  psram_used_bytes = 40;
  psram_region = [];
  rtc_gpio_holds = λ gpio. none;
  ledc_channels = λ channel. none;
  high_impedance_gpios = λ gpio. false;
  sd_active = true;
  wire_active = true;
  spi_active = true;
  serial1_active = true;
  chip_selects_deasserted = false;
  watchdog = some dog;
}

abbrev shared : Shared
shared = record {
  rtc_gpio_holds = [];
  peripheral_power = [];
  reset_reasons = [];
  last_boot_phase = [];
  rtc_noinit = [];
  buzzers = ("a", true) ∷ [];
}

abbrev config : BoardConfig ℕ
config = record {
  battery_mv = 3900;
  mcu_temperature = 35;
  manufacturer = "T-Deck";
  startup_reason = 0;
  external_powered = false;
  periph_pwr_enabled = true;
  adc_calibrated = true;
  psram_size_bytes = 100;
}

quiesce_peripherals_lem_example :
    let (g', b') = quiesce_peripherals shared board in
    (peripherals_quiesced b' ≡ true)
    × (peripherals_powered g' "b"
        ≡ (if str_eq "a" "b" then false else peripherals_powered shared "b"))
    × (digital_write g' b' 10 true ≡ (g', b'))
    × (((new g' "a" config).1).periph_pwr_enabled ≡ false)
    × (peripherals_powered ((new g' "a" config).0) "a" ≡ false)
quiesce_peripherals_lem_example = quiesce_peripherals_lem shared board config "b"

psram_readback_test_lem_example :
    psram_readback_test board
    ≡ some (
      record board {
        psram_region =
            if psram_free_bytes board == 0
            then []
            else grown [] (40 + min (psram_free_bytes board) 64);
      },
      ltb 0 (psram_free_bytes board),
    )
psram_readback_test_lem_example = psram_readback_test_lem board (omega arith, omega arith)

abbrev voltage : ℤ
voltage = pos 1000

inside : Adc.out_of_scale toy voltage ≡ false
inside = refl

below : Adc.above_scale toy voltage ≡ false
unfolding s3_calibrated_pin_mv Adc.s3_adc_error_mv
below = refl

s3_raw_count_for_pin_mv_ends_example :
    (count : ℕ) × (s3_raw_count_for_pin_mv toy 12 voltage ≡ some count)
    × ((l : ℕ) × ((h : ℕ) × Adc.Brackets toy voltage 0 4095 l h × (count ≡ nearer toy voltage l h)))
s3_raw_count_for_pin_mv_ends_example = s3_raw_count_for_pin_mv_ends toy voltage inside below

get_rtc_noinit-set_rtc_noinit_example :
    (g' : Shared) × (set_rtc_noinit shared "a" 20 (1 ∷ 2 ∷ []) ≡ some (g', true))
    × IsSized g'
    × (get_rtc_noinit g' "a" 20 2 ≡ some (some (1 ∷ 2 ∷ [])))
    × (region_of g' "a" ≡ overwrite (region_of shared "a") 20 (1 ∷ 2 ∷ []))
    × (get_rtc_noinit g' "b" 0 4 ≡ get_rtc_noinit shared "b" 0 4)
get_rtc_noinit-set_rtc_noinit_example =
    get_rtc_noinit-set_rtc_noinit shared "a" "b" 20 0 4 (1 ∷ 2 ∷ []) tt (omega arith) refl

feeds-in_time_example :
    feeds shared board (5 ∷ 12 ∷ 40 ∷ 41 ∷ []) ≡ in_time 10 0 (5 ∷ 12 ∷ 40 ∷ 41 ∷ [])
feeds-in_time_example = feeds-in_time (5 ∷ 12 ∷ 40 ∷ 41 ∷ []) shared board dog refl refl
