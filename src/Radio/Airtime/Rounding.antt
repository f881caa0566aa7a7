-- ===== src/Radio/Airtime/Rounding.antt =====
-- `airtime_ms` rounds up to whole milliseconds and saturates.
use project_mycelium.Common.{ℕ, ◌+◌, ◌*◌, ◌≤◌, ◌<◌, ◌≡◌, Bool, arith}
use project_mycelium.Common.Word.{u32_max}
use project_mycelium.Radio.Airtime.{airtime_us, airtime_ms}

-- The reported milliseconds are at least the airtime and less than one millisecond more, unless
-- the airtime is above 2^32 - 1 milliseconds; then exactly 2^32 - 1 is reported.
pub airtime_ms_rounds_up :
    (packet_bytes sf bw_khz coding_rate preamble_len : ℕ) (explicit_header : Bool)
    → let us = airtime_us packet_bytes sf bw_khz coding_rate preamble_len explicit_header in
      let ms = airtime_ms packet_bytes sf bw_khz coding_rate preamble_len explicit_header in
      (us ≤ 1000 * u32_max → (us ≤ 1000 * ms) × (1000 * ms < us + 1000))
      × (1000 * u32_max < us → ms ≡ u32_max)
unfolding airtime_ms
airtime_ms_rounds_up n sf bw cr pre eh = omega arith
