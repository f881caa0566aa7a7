-- ===== src/Radio/Airtime.antt =====
-- The LoRa airtime of a packet: `airtime_us` and `airtime_ms` of core/radio_bus/src/propagation.rs.
-- The products are those of u64 in a release build, which wrap. The i128 numerator is the
-- difference of `numerator_plus` and `numerator_minus`, and is used only where it is positive.
pub mod Formula
pub mod Rounding
use project_mycelium.Common.{
  ℕ, ◌+◌, ◌-◌, ◌*◌, ◌/◌, ◌%◌, ◌^◌, min, Bool, true, false, not, ◌&&◌, ◌||◌, ltb, leb, ◌==◌,
  if◌then◌else◌,
}
use project_mycelium.Common.Word.{u32_max}

abbrev pub u64_mod : ℕ
u64_mod = 18446744073709551616

abbrev pub from_bool : Bool → ℕ
from_bool true = 1
from_bool false = 0

-- The modulation settings that the formula is defined for.
unfoldable pub is_supported : ℕ → ℕ → ℕ → Bool
is_supported sf bw_khz coding_rate =
    leb 7 sf
    && leb sf 12
    && (bw_khz == 125 || bw_khz == 250 || bw_khz == 500)
    && leb 5 coding_rate
    && leb coding_rate 8

unfoldable pub symbol_duration_us : ℕ → ℕ → ℕ
symbol_duration_us sf bw_khz = 2 ^ sf * 1000 / bw_khz

abbrev pub numerator_plus : ℕ → ℕ
numerator_plus packet_bytes = 8 * packet_bytes + 28 + 16

abbrev pub numerator_minus : ℕ → Bool → ℕ
numerator_minus sf explicit_header = 4 * sf + 20 * from_bool (not explicit_header)

abbrev pub denominator : ℕ → ℕ → ℕ
denominator sf symbol_us = 4 * (sf - 2 * from_bool (ltb 16000 symbol_us))

unfoldable pub encoded_blocks : ℕ → ℕ → ℕ → ℕ
encoded_blocks plus minus denom = if ltb minus plus then (plus - minus + denom - 1) / denom else 0

unfoldable pub total_us : ℕ → ℕ → ℕ → ℕ → ℕ
total_us blocks coding_rate preamble_len symbol_us =
    let payload_symbols = (8 + blocks % u64_mod * coding_rate % u64_mod) % u64_mod in
    let preamble_quarter_symbols = preamble_len * 4 + 17 in
    let total_quarter_symbols =
      (preamble_quarter_symbols + payload_symbols * 4 % u64_mod) % u64_mod in
    total_quarter_symbols * symbol_us % u64_mod / 4

unfoldable pub airtime_us : ℕ → ℕ → ℕ → ℕ → ℕ → Bool → ℕ
airtime_us packet_bytes sf bw_khz coding_rate preamble_len explicit_header =
    let symbol_us = symbol_duration_us sf bw_khz in
    let blocks =
      encoded_blocks (numerator_plus packet_bytes) (numerator_minus sf explicit_header)
        (denominator sf symbol_us) in
    if is_supported sf bw_khz coding_rate
    then total_us blocks coding_rate preamble_len symbol_us
    else 0

-- `u32::try_from(us.div_ceil(1_000)).unwrap_or(u32::MAX)`.
unfoldable pub airtime_ms : ℕ → ℕ → ℕ → ℕ → ℕ → Bool → ℕ
airtime_ms packet_bytes sf bw_khz coding_rate preamble_len explicit_header =
    min ((airtime_us packet_bytes sf bw_khz coding_rate preamble_len explicit_header + 999) / 1000)
      u32_max
