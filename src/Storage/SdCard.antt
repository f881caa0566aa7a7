-- ===== src/Storage/SdCard.antt =====
-- The SD card, core/storage/src/sdcard.rs: mounting, and the checks before the host's file system is
-- used. What the host answers is an argument: whether the backing path is free of symlinks and can
-- be created, the size of the directory, and the outcome of a write.
pub mod Ladder
use project_mycelium.Common.{
  ℕ, ◌+◌, ◌-◌, ◌*◌, ◌≤◌, ◌<◌, ◌≡◌, refl, min, Bool, true, false, not, ◌&&◌, ◌||◌, ◌==◌, ltb, leb,
  List, [], ◌∷◌, Option, none, some, arith, if◌then◌else◌,
}
use project_mycelium.Common.Word.{u32_max, sat_add32, sat_add64}
use project_mycelium.Common.Result.{Result, ok, err, Done}
use project_mycelium.Storage.Spiffs.{
  IoError, invalid_input, storage_full, not_connected, would_block,
}

abbrev pub sdhc_max_capacity : ℕ
sdhc_max_capacity = 34359738368

abbrev pub fat32_max_volume_size : ℕ
fat32_max_volume_size = 34359738368

abbrev pub fat32_max_file_size : ℕ
fat32_max_file_size = 4294967295

abbrev pub sd_fast_init_hz : ℕ
sd_fast_init_hz = 4000000

abbrev pub sd_slow_init_hz : ℕ
sd_slow_init_hz = 400000

-- The settling delay and the clock of each attempt.
abbrev pub sd_init_ladder : List (ℕ × ℕ)
sd_init_ladder =
    (40, sd_fast_init_hz)
    ∷ (120, sd_fast_init_hz)
    ∷ (200, sd_fast_init_hz)
    ∷ (300, 1000000)
    ∷ (450, 1000000)
    ∷ (650, sd_slow_init_hz)
    ∷ (900, sd_slow_init_hz)
    ∷ []

pub record VirtualSdCard : Type 0 where
  pub mounted : Bool
  pub capacity : ℕ
  pub lora_cs_high : Bool
  pub requires_slow_init : Bool
  pub wake_delay_ms : ℕ
  pub last_init_elapsed_ms : ℕ
  pub last_init_frequency_hz : Option ℕ

pub record SdCardInfo : Type 0 where
  pub total_bytes : ℕ
  pub used_bytes : ℕ
  pub free_bytes : ℕ

unfoldable pub with_capacity : ℕ → VirtualSdCard
with_capacity capacity = record {
  mounted = false;
  capacity = capacity;
  lora_cs_high = true;
  requires_slow_init = false;
  wake_delay_ms = 0;
  last_init_elapsed_ms = 0;
  last_init_frequency_hz = none;
}

unfoldable pub set_lora_cs_high : VirtualSdCard → Bool → VirtualSdCard
set_lora_cs_high c high = record c { lora_cs_high = high }

abbrev pub same_bool : Bool → Bool → Bool
same_bool true b = b
same_bool false b = not b

unfoldable pub set_behavior : VirtualSdCard → Bool → ℕ → VirtualSdCard
set_behavior c requires_slow_init wake_delay_ms =
    let changed =
      not (same_bool c.requires_slow_init requires_slow_init)
      || not (c.wake_delay_ms == wake_delay_ms) in
    record c {
      mounted = if changed then false else c.mounted;
      requires_slow_init = requires_slow_init;
      wake_delay_ms = wake_delay_ms;
    }

unfoldable pub ensure_bus_available : VirtualSdCard → Done IoError
ensure_bus_available c = if c.lora_cs_high then ok tt else err would_block

unfoldable pub ensure_ready : VirtualSdCard → Done IoError
ensure_ready c = if not c.mounted then err not_connected else ensure_bus_available c

unfoldable pub validate_capacity : VirtualSdCard → Done IoError
validate_capacity c =
    if c.capacity == 0 || ltb sdhc_max_capacity c.capacity || ltb fat32_max_volume_size c.capacity
    then err invalid_input
    else ok tt

-- The card does not answer yet: the clock is too fast or it has not woken.
unfoldable pub is_asleep : VirtualSdCard → ℕ → ℕ → Bool
is_asleep c clock_hz elapsed_wake_ms =
    c.requires_slow_init && (ltb sd_slow_init_hz clock_hz || ltb elapsed_wake_ms c.wake_delay_ms)

-- The part after the checks; `base` is what securing and creating the backing directory answers.
unfoldable pub attempt : VirtualSdCard → Done IoError → ℕ → ℕ → VirtualSdCard × Result IoError Bool
attempt before base clock_hz elapsed_wake_ms =
    let c = record before {
      last_init_elapsed_ms = elapsed_wake_ms;
      last_init_frequency_hz = some clock_hz;
    } in
    if is_asleep c clock_hz elapsed_wake_ms
    then (record c { mounted = false }, ok false)
    else elim base [ err e ↦ (c, err e) | ok _ ↦ (record c { mounted = true }, ok true) ]

unfoldable pub mount_at_frequency :
    VirtualSdCard → Done IoError → ℕ → ℕ → VirtualSdCard × Result IoError Bool
mount_at_frequency c base clock_hz elapsed_wake_ms = elim (ensure_bus_available c) [
  | err e ↦ (c, err e)
  | ok _ ↦ elim (validate_capacity c) [
    | err e ↦ (c, err e)
    | ok _ ↦
        if clock_hz == 0 then (c, err invalid_input) else attempt c base clock_hz elapsed_wake_ms
  ]
]

unfoldable pub mount : VirtualSdCard → Done IoError → VirtualSdCard × Result IoError Bool
mount c base = mount_at_frequency c base sd_fast_init_hz 0

-- The loop over the ladder.
unfoldable pub climb :
    VirtualSdCard → Done IoError → ℕ → List (ℕ × ℕ) → VirtualSdCard × Result IoError Bool
climb c base elapsed_wake_ms [] = (c, ok false)
climb c base elapsed_wake_ms ((settle_ms, clock_hz) ∷ rungs) =
    let elapsed = sat_add32 elapsed_wake_ms settle_ms in
    let (c', r) = mount_at_frequency c base clock_hz elapsed in
    elim r [
      | err e ↦ (c', err e)
      | ok mounted ↦ if mounted then (c', ok true) else climb c' base elapsed rungs
    ]

unfoldable pub mount_with_retry_ladder :
    VirtualSdCard → Done IoError → VirtualSdCard × Result IoError Bool
mount_with_retry_ladder c base = climb c base 0 sd_init_ladder

unfoldable pub unmount : VirtualSdCard → VirtualSdCard
unmount c = record c { mounted = false }

unfoldable pub validate_file_size : ℕ → Done IoError
validate_file_size size = if ltb fat32_max_file_size size then err invalid_input else ok tt

-- What the host answers to a write: the safety of the path, the size of the file before, the size of
-- all files, and the outcome of the write.
pub record HostWrite : Type 0 where
  pub path : Done IoError
  pub old_size : ℕ
  pub used : Result IoError ℕ
  pub outcome : Done IoError

-- `resolve`; the path itself is the host's matter.
unfoldable pub resolve : VirtualSdCard → Done IoError → Done IoError
resolve c path = elim (ensure_ready c) [ err e ↦ err e | ok _ ↦ path ]

-- The answer, and whether the host is asked to write.
unfoldable pub write_file : VirtualSdCard → ℕ → HostWrite → Done IoError × Bool
write_file c new_size h = elim (validate_file_size new_size) [
  | err e ↦ (err e, false)
  | ok _ ↦ elim (resolve c h.path) [
    | err e ↦ (err e, false)
    | ok _ ↦ elim h.used [
      | err e ↦ (err e, false)
      | ok used ↦
          if ltb c.capacity (sat_add64 (used - h.old_size) new_size)
          then (err storage_full, false)
          else (h.outcome, true)
    ]
  ]
]

unfoldable pub info : VirtualSdCard → Result IoError ℕ → Result IoError SdCardInfo
info c used = elim (ensure_ready c) [
  | err e ↦ err e
  | ok _ ↦ elim used [
    | err e ↦ err e
    | ok bytes ↦ ok (record {
      total_bytes = c.capacity;
      used_bytes = min bytes c.capacity;
      free_bytes = c.capacity - min bytes c.capacity;
    })
  ]
]
