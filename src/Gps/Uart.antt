-- ===== src/Gps/Uart.antt =====
-- The serial output of the GPS receiver, core/gps/src/manager.rs: one batch of sentences a second,
-- read at the speed of the UART. The bytes of the batch are an argument of `tick`.
use project_mycelium.Common.{
  ℕ, zero, suc, ◌+◌, ◌-◌, ◌/◌, ◌%◌, ◌≤◌, ◌≡◌, refl, ◌∙◌, ap, min, Bool, true, false, not, ◌||◌,
  ◌==◌, List, [], ◌∷◌, ◌++◌, length, take, drop, arith, if◌then◌else◌,
}
use project_mycelium.Common.Word.{sat_add64}
use project_mycelium.Common.Bytes.{length-drop}

abbrev pub epoch_ms : ℕ
epoch_ms = 1000

abbrev pub gps_baud_rate : ℕ
gps_baud_rate = 9600

abbrev pub gps_baud_rate_fast : ℕ
gps_baud_rate_fast = 38400

abbrev pub max_nmea_buffer_bytes : ℕ
max_nmea_buffer_bytes = 8192

abbrev pub uart_bytes_per_second : ℕ → ℕ
uart_bytes_per_second baud_rate = baud_rate / 10

-- The fields of `GpsManager` that the output uses; `enabled` is that of its state.
pub record GpsManager : Type 0 where
  pub enabled : Bool
  pub sentence_buffer : List ℕ
  pub epoch_elapsed_ms : ℕ
  pub uart_bytes_remaining : ℕ
  pub baud_rate : ℕ
  pub output_enabled : Bool

unfoldable pub new : GpsManager
new = record {
  enabled = true;
  sentence_buffer = [];
  epoch_elapsed_ms = 0;
  uart_bytes_remaining = 0;
  baud_rate = gps_baud_rate;
  output_enabled = true;
}

unfoldable pub reset_output : GpsManager → GpsManager
reset_output g = record g { sentence_buffer = []; epoch_elapsed_ms = 0; uart_bytes_remaining = 0 }

abbrev pub same_bool : Bool → Bool → Bool
same_bool true b = b
same_bool false b = not b

unfoldable pub set_baud_rate : GpsManager → ℕ → GpsManager × Bool
set_baud_rate g baud_rate =
    if not (baud_rate == gps_baud_rate || baud_rate == gps_baud_rate_fast)
    then (g, false)
    else if not (g.baud_rate == baud_rate)
    then (reset_output (record g { baud_rate = baud_rate }), true)
    else (g, true)

unfoldable pub set_enabled : GpsManager → Bool → GpsManager
set_enabled g enabled =
    if not (same_bool g.enabled enabled)
    then reset_output (record g { enabled = enabled; output_enabled = enabled })
    else g

unfoldable pub sync_enabled_state : GpsManager → GpsManager
sync_enabled_state g =
    if not (same_bool g.output_enabled g.enabled)
    then reset_output (record g { output_enabled = g.enabled })
    else g

unfoldable pub enqueue_latest_epoch : GpsManager → List ℕ → GpsManager
enqueue_latest_epoch g epoch =
    let sentences = take max_nmea_buffer_bytes epoch in
    record g {
      sentence_buffer = sentences;
      uart_bytes_remaining = min (length sentences) (uart_bytes_per_second g.baud_rate);
    }

-- The part of `tick` after the movement.
unfoldable pub tick : GpsManager → ℕ → List ℕ → GpsManager
tick before dt_ms epoch =
    let g = sync_enabled_state before in
    if not g.output_enabled
    then g
    else let elapsed = sat_add64 g.epoch_elapsed_ms dt_ms in
      let counted = record g { epoch_elapsed_ms = elapsed % epoch_ms } in
      if elapsed / epoch_ms == 0 then counted else enqueue_latest_epoch counted epoch

-- The bytes that fill a buffer of `n`.
unfoldable pub read : GpsManager → ℕ → GpsManager × List ℕ
read before n =
    let g = sync_enabled_state before in
    if not g.output_enabled || n == 0
    then (g, [])
    else let len = min (min (length g.sentence_buffer) n) g.uart_bytes_remaining in
      (
        record g {
          sentence_buffer = drop len g.sentence_buffer;
          uart_bytes_remaining = g.uart_bytes_remaining - len;
        },
        take len g.sentence_buffer,
      )

-- The bytes of some reads, one behind the other.
unfoldable pub read_all : GpsManager → List ℕ → List ℕ
read_all g [] = []
read_all g (n ∷ ns) = let (g', bytes) = read g n in bytes ++ read_all g' ns

abbrev total : List ℕ → ℕ
total [] = 0
total (n ∷ ns) = n + total ns

take-nil : (b : ℕ) → take {A = ℕ} b [] ≡ []
take-nil zero = refl
take-nil (suc b) = refl

take-add : (a b k : ℕ) (xs : List ℕ) → a + b ≡ k → take a xs ++ take b (drop a xs) ≡ take k xs
take-add zero b k xs e = ap (λ j. take j xs) (omega (arith, e))
take-add (suc a) b zero xs e = absurd (omega arith)
take-add (suc a) b (suc k) [] e = take-nil b
take-add (suc a) b (suc k) (x ∷ xs) e = ap (λ r. x ∷ r) (take-add a b k xs (omega (arith, e)))

-- The output is on, and no more is allowed than is queued.
abbrev pub IsSending : GpsManager → Type 0
IsSending g =
    (g.enabled ≡ true)
    × (g.output_enabled ≡ true)
    × (g.uart_bytes_remaining ≤ length g.sentence_buffer)

synced : (g : GpsManager) → IsSending g → sync_enabled_state g ≡ g
unfolding sync_enabled_state
synced g (on, out, h) = ground (arith, on, out)

unfoldable taken : GpsManager → ℕ → GpsManager × List ℕ
taken g len = (
  record g {
    sentence_buffer = drop len g.sentence_buffer;
    uart_bytes_remaining = g.uart_bytes_remaining - len;
  },
  take len g.sentence_buffer,
)

taken-or :
    (g : GpsManager) (n : ℕ)
    → g.output_enabled ≡ true
    → g.uart_bytes_remaining ≤ length g.sentence_buffer
    → (if not g.output_enabled || n == 0
        then (g, [])
        else taken g (min (min (length g.sentence_buffer) n) g.uart_bytes_remaining))
      ≡ taken g (min n g.uart_bytes_remaining)
unfolding taken
taken-or g zero out h =
    let none_left : min 0 g.uart_bytes_remaining ≡ 0 = omega arith in ground (arith, out, none_left)
taken-or g (suc n) out h =
    let same : min (min (length g.sentence_buffer) (suc n)) g.uart_bytes_remaining
        ≡ min (suc n) g.uart_bytes_remaining =
      omega arith in
    ground (arith, out, same)

min_left : (a b : ℕ) → min a b ≤ a
min_left a b = omega arith

read-taken :
    (g : GpsManager) (n : ℕ) → IsSending g → read g n ≡ taken g (min n g.uart_bytes_remaining)
unfolding read taken
read-taken g n (on, out, h) =
    let step : GpsManager → GpsManager × List ℕ = λ r.
      if not r.output_enabled || n == 0
      then (r, [])
      else taken r (min (min (length r.sentence_buffer) n) r.uart_bytes_remaining) in
    ap step (synced g (on, out, h)) ∙ taken-or g n out h

read_all-take :
    (ns : List ℕ) (g : GpsManager)
    → IsSending g
    → read_all g ns ≡ take (min (total ns) g.uart_bytes_remaining) g.sentence_buffer
unfolding read_all taken
read_all-take [] g h =
    let none_asked : 0 ≡ min 0 g.uart_bytes_remaining = omega arith in
    ap (λ k. take k g.sentence_buffer) none_asked
read_all-take (n ∷ ns) g (on, out, h) =
    let len = min n g.uart_bytes_remaining in
    let g' = (taken g len).0 in
    let left = length-drop len g.sentence_buffer in
    let rest = read_all-take ns g' (on, out, omega (arith, left)) in
    ap (λ r. r.1 ++ read_all (r.0) ns) (read-taken g n (on, out, h))
    ∙ ap (λ bytes. take len g.sentence_buffer ++ bytes) rest
    ∙ take-add len (min (total ns) (g.uart_bytes_remaining - len))
        (min (n + total ns) g.uart_bytes_remaining) g.sentence_buffer (omega arith)

-- What is read between two batches: the batch's first bytes.
tick-IsSending :
    (g : GpsManager) (dt_ms : ℕ) (epoch : List ℕ)
    → g.enabled ≡ true
    → epoch_ms ≤ g.epoch_elapsed_ms + dt_ms
    → g.output_enabled ≡ true
    → let sentences = take max_nmea_buffer_bytes epoch in
      tick g dt_ms epoch ≡ record g {
        epoch_elapsed_ms = sat_add64 g.epoch_elapsed_ms dt_ms % epoch_ms;
        sentence_buffer = sentences;
        uart_bytes_remaining = min (length sentences) (uart_bytes_per_second g.baud_rate);
      }
unfolding tick enqueue_latest_epoch sync_enabled_state
tick-IsSending g dt_ms epoch on late out =
    let due : (sat_add64 g.epoch_elapsed_ms dt_ms / epoch_ms == 0) ≡ false = ground arith in
    ground (arith, on, out, due)

-- After a tick that ends a second, while the output is on, the reads until the next tick give, one
-- behind the other, the first bytes of the new batch: as many as they ask for in total, but no more
-- than the batch has, than 8192, or than the UART transfers in a second at its baud rate.
pub read_all-tick :
    (g : GpsManager) (dt_ms : ℕ) (epoch ns : List ℕ)
    → g.enabled ≡ true
    → g.output_enabled ≡ true
    → epoch_ms ≤ g.epoch_elapsed_ms + dt_ms
    → read_all (tick g dt_ms epoch) ns
      ≡ take
          (min
            (total ns)
            (min (length (take max_nmea_buffer_bytes epoch)) (uart_bytes_per_second g.baud_rate)))
          (take max_nmea_buffer_bytes epoch)
read_all-tick g dt_ms epoch ns on out late =
    let sentences = take max_nmea_buffer_bytes epoch in
    let ticked : GpsManager = record g {
      epoch_elapsed_ms = sat_add64 g.epoch_elapsed_ms dt_ms % epoch_ms;
      sentence_buffer = sentences;
      uart_bytes_remaining = min (length sentences) (uart_bytes_per_second g.baud_rate);
    } in
    ap (λ t. read_all t ns) (tick-IsSending g dt_ms epoch on late out)
    ∙ read_all-take ns ticked
        (on, out, min_left (length sentences) (uart_bytes_per_second g.baud_rate))
