-- ===== src/Storage/SdCard/Ladder.antt =====
-- Where the retry ladder of core/storage/src/sdcard.rs ends, and what a write to the card needs.
use project_mycelium.Common.{
  ℕ, ◌-◌, ◌≤◌, ◌<◌, ◌≡◌, refl, ◌∙◌, ap, All, Bool, true, false, not, ◌&&◌, ◌||◌, ltb, leb, List, [],
  ◌∷◌, some, arith, if◌then◌else◌,
}
use project_mycelium.Common.Word.{sat_add32, sat_add64}
use project_mycelium.Common.Result.{Result, ok, err, Done}
use project_mycelium.Storage.Spiffs.{IoError}
use project_mycelium.Storage.SdCard.{
  VirtualSdCard, HostWrite, sdhc_max_capacity, fat32_max_file_size, sd_fast_init_hz,
  sd_slow_init_hz, sd_init_ladder, ensure_bus_available, ensure_ready, validate_capacity,
  validate_file_size, is_asleep, attempt, mount_at_frequency, climb, mount_with_retry_ladder,
  resolve, write_file,
}

-- The bus is free and the capacity is that of an SDHC card.
abbrev pub IsMountable : VirtualSdCard → Type 0
IsMountable c = (c.lora_cs_high ≡ true) × (0 < c.capacity) × (c.capacity ≤ sdhc_max_capacity)

-- One attempt at a clock above 0, on a card that can be mounted.
mount_at_frequency-attempt :
    (c : VirtualSdCard) (base : Done _) (clock_hz elapsed : ℕ)
    → IsMountable c
    → 0 < clock_hz
    → mount_at_frequency c base clock_hz elapsed ≡ attempt c base clock_hz elapsed
unfolding mount_at_frequency ensure_bus_available validate_capacity
mount_at_frequency-attempt c base clock_hz elapsed (free, low, high) h = ground arith

-- A card after an attempt that the host did not stop.
abbrev tried : VirtualSdCard → Bool × ℕ × ℕ → VirtualSdCard × Result IoError Bool
tried c (mounted, elapsed, clock_hz) = (
  record c {
    mounted = mounted;
    last_init_elapsed_ms = elapsed;
    last_init_frequency_hz = some clock_hz;
  },
  ok mounted,
)

-- The ladder after its first rung.
abbrev ladder_above : List (ℕ × ℕ)
ladder_above = elim sd_init_ladder [ [] ↦ [] | rung ∷ rungs ↦ rungs ]

-- `is_asleep` of a card's two settings.
abbrev sleeps : Bool → ℕ → ℕ → ℕ → Bool
sleeps slow delay clock_hz elapsed = slow && (ltb sd_slow_init_hz clock_hz || ltb elapsed delay)

-- Whether the card wakes on a rung or a later one, and the time and clock of the last attempt.
unfoldable stops_at : Bool → ℕ → ℕ → ℕ × ℕ → List (ℕ × ℕ) → Bool × ℕ × ℕ
stops_at slow delay before (settle_ms, clock_hz) [] =
    let elapsed = sat_add32 before settle_ms in
    (not (sleeps slow delay clock_hz elapsed), elapsed, clock_hz)
stops_at slow delay before (settle_ms, clock_hz) (next ∷ rungs) =
    let elapsed = sat_add32 before settle_ms in
    let later = stops_at slow delay elapsed next rungs in
    if sleeps slow delay clock_hz elapsed then later else (true, elapsed, clock_hz)

attempt-tried :
    (c : VirtualSdCard) (clock_hz elapsed : ℕ)
    → IsMountable c
    → 0 < clock_hz
    → mount_at_frequency c (ok tt) clock_hz elapsed
      ≡ tried c
          (not (sleeps c.requires_slow_init c.wake_delay_ms clock_hz elapsed), elapsed, clock_hz)
unfolding attempt is_asleep
attempt-tried c clock_hz elapsed h pos =
    mount_at_frequency-attempt c (ok tt) clock_hz elapsed h pos ∙ ground arith

-- After an attempt: an error or success ends the climb.
abbrev go_on :
    (VirtualSdCard → VirtualSdCard × Result IoError Bool)
    → VirtualSdCard × Result IoError Bool
    → VirtualSdCard × Result IoError Bool
go_on next (c, ok true) = (c, ok true)
go_on next (c, ok false) = next c
go_on next (c, err e) = (c, err e)

climb-go_on :
    (c : VirtualSdCard) (base : Done IoError) (before settle_ms clock_hz : ℕ) (rungs : List (ℕ × ℕ))
    → climb c base before ((settle_ms, clock_hz) ∷ rungs)
      ≡ go_on
          (λ c'. climb c' base (sat_add32 before settle_ms) rungs)
          (mount_at_frequency c base clock_hz (sat_add32 before settle_ms))
unfolding climb
climb-go_on c base before settle_ms clock_hz rungs =
    go (mount_at_frequency c base clock_hz (sat_add32 before settle_ms))
  where
    go :
        (m : VirtualSdCard × Result IoError Bool)
        → elim (m.1) [
          | err e ↦ (m.0, err e)
          | ok mounted ↦
              if mounted
              then (m.0, ok true)
              else climb (m.0) base (sat_add32 before settle_ms) rungs
        ]
          ≡ go_on (λ c'. climb c' base (sat_add32 before settle_ms) rungs) m
    go (c', ok true) = refl
    go (c', ok false) = refl
    go (c', err e) = refl

last_rung :
    (c : VirtualSdCard) (before settle_ms clock_hz : ℕ)
    → let elapsed = sat_add32 before settle_ms in
      go_on
        (λ c'. climb c' (ok tt) elapsed [])
        (tried c
          (not (sleeps c.requires_slow_init c.wake_delay_ms clock_hz elapsed), elapsed, clock_hz))
      ≡ tried c (stops_at c.requires_slow_init c.wake_delay_ms before (settle_ms, clock_hz) [])
unfolding climb stops_at
last_rung c before settle_ms clock_hz =
    go (not (sleeps c.requires_slow_init c.wake_delay_ms clock_hz (sat_add32 before settle_ms)))
  where
    go :
        (b : Bool)
        → let elapsed = sat_add32 before settle_ms in
          go_on (λ c'. (c', ok false)) (tried c (b, elapsed, clock_hz))
          ≡ tried c (b, elapsed, clock_hz)
    go true = refl
    go false = refl

lower_rung :
    (next : VirtualSdCard → VirtualSdCard × Result IoError Bool) (c : VirtualSdCard)
    (before settle_ms clock_hz : ℕ) (rung : ℕ × ℕ) (rungs : List (ℕ × ℕ))
    → let elapsed = sat_add32 before settle_ms in
      next ((tried c (false, elapsed, clock_hz)).0)
        ≡ tried c (stops_at c.requires_slow_init c.wake_delay_ms elapsed rung rungs)
      → go_on next (
          tried c (
            not (sleeps c.requires_slow_init c.wake_delay_ms clock_hz (sat_add32 before settle_ms)),
            sat_add32 before settle_ms,
            clock_hz,
          ))
        ≡ tried c (
            stops_at c.requires_slow_init c.wake_delay_ms before
              (settle_ms, clock_hz)
              (rung ∷ rungs))
unfolding stops_at
lower_rung next c before settle_ms clock_hz rung rungs later =
    go (sleeps c.requires_slow_init c.wake_delay_ms clock_hz (sat_add32 before settle_ms))
  where
    go :
        (b : Bool)
        → go_on next (tried c (not b, sat_add32 before settle_ms, clock_hz))
          ≡ tried c (
              if b
              then stops_at c.requires_slow_init c.wake_delay_ms
                  (sat_add32 before settle_ms)
                  rung
                  rungs
              else (true, sat_add32 before settle_ms, clock_hz))
    go true = later
    go false = refl

climb-stops_at :
    (rungs : List (ℕ × ℕ)) (c : VirtualSdCard) (before settle_ms clock_hz : ℕ)
    → IsMountable c
    → 0 < clock_hz
    → All (λ rung. 0 < rung.1) rungs
    → climb c (ok tt) before ((settle_ms, clock_hz) ∷ rungs)
      ≡ tried c (stops_at c.requires_slow_init c.wake_delay_ms before (settle_ms, clock_hz) rungs)
climb-stops_at [] c before settle_ms clock_hz h pos rest =
    let elapsed = sat_add32 before settle_ms in
    let next : VirtualSdCard → VirtualSdCard × Result IoError Bool =
      λ c'. climb c' (ok tt) elapsed [] in
    climb-go_on c (ok tt) before settle_ms clock_hz []
    ∙ ap (go_on next) (attempt-tried c clock_hz elapsed h pos)
    ∙ last_rung c before settle_ms clock_hz
climb-stops_at ((settle, hz) ∷ rungs) c before settle_ms clock_hz h pos (first, rest) =
    let elapsed = sat_add32 before settle_ms in
    let next : VirtualSdCard → VirtualSdCard × Result IoError Bool =
      λ c'. climb c' (ok tt) elapsed ((settle, hz) ∷ rungs) in
    let asleep = (tried c (false, elapsed, clock_hz)).0 in
    climb-go_on c (ok tt) before settle_ms clock_hz ((settle, hz) ∷ rungs)
    ∙ ap (go_on next) (attempt-tried c clock_hz elapsed h pos)
    ∙ lower_rung next c before settle_ms clock_hz (settle, hz) rungs
        (climb-stops_at rungs asleep elapsed settle hz h first rest)

-- The time and the clock of the rung that wakes the card.
abbrev pub wakes_at : VirtualSdCard → ℕ × ℕ
wakes_at c =
    if not c.requires_slow_init
    then (40, sd_fast_init_hz)
    else if leb c.wake_delay_ms 1760
    then (1760, sd_slow_init_hz)
    else (2660, sd_slow_init_hz)

ladder-stops_at :
    (c : VirtualSdCard)
    → stops_at c.requires_slow_init c.wake_delay_ms 0 (40, sd_fast_init_hz) ladder_above
      ≡ (not c.requires_slow_init || leb c.wake_delay_ms 2660, (wakes_at c).0, (wakes_at c).1)
unfolding stops_at
ladder-stops_at c = ground arith

ladder_above-pos : All (λ rung. 0 < rung.1) ladder_above
ladder_above-pos =
    (omega arith, (omega arith, (omega arith, (omega arith, (omega arith, (omega arith, tt))))))

-- The retry ladder mounts a card whose bus is free and whose capacity is valid, if the host can
-- create its directory, exactly when the card needs no slow clock or wakes within 2660 ms: at 40 ms
-- and 4 MHz a card that needs no slow clock, at 400 kHz and 1760 or 2660 ms one that does. A card
-- that needs longer is left unmounted after the attempt at 2660 ms.
pub mount_with_retry_ladder_lem :
    (c : VirtualSdCard)
    → IsMountable c
    → mount_with_retry_ladder c (ok tt)
      ≡ tried c
          (not c.requires_slow_init || leb c.wake_delay_ms 2660, (wakes_at c).0, (wakes_at c).1)
unfolding mount_with_retry_ladder
mount_with_retry_ladder_lem c h =
    climb-stops_at ladder_above c 0 40 sd_fast_init_hz h (omega arith) ladder_above-pos
    ∙ ap (tried c) (ladder-stops_at c)

-- The host is asked to write a file to the card only while the card is mounted, the LoRa chip
-- select is high, the path is safe, the file fits FAT32 and the card's files stay within the
-- capacity; then the call answers as the host does.
pub write_file_checked :
    (c : VirtualSdCard) (new_size : ℕ) (h : HostWrite)
    → (write_file c new_size h).1 ≡ true
    → (c.mounted ≡ true)
      × (c.lora_cs_high ≡ true)
      × (h.path ≡ ok tt)
      × (new_size ≤ fat32_max_file_size)
      × ((used : ℕ) × (h.used ≡ ok used) × (sat_add64 (used - h.old_size) new_size ≤ c.capacity))
      × ((write_file c new_size h).0 ≡ h.outcome)
unfolding write_file resolve ensure_ready ensure_bus_available validate_file_size
write_file_checked c new_size h asked = ground arith
