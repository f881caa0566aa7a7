-- ===== src/Radio/Airtime/Formula.antt =====
-- `airtime_us` against the Semtech formula: no product wraps, no division but the one that the
-- formula rounds up loses anything, and a longer packet is never shorter on the air.
use project_mycelium.Common.{
  ℕ, ◌+◌, ◌-◌, ◌*◌, ◌/◌, ◌%◌, ◌^◌, ◌≤◌, ◌<◌, ◌≡◌, refl, Bool, true, false, ◌&&◌, ◌||◌, not, leb,
  ltb, ◌==◌, arith, inl, inr, ap, ◌∙◌, Bool-cases,
}
use native.Mathlib.Nat.{mod-eq_of_lt, mul_left_comm}
use project_mycelium.Common.Table.{holds_below, holds_below_sound}
use project_mycelium.Radio.Airtime.{
  from_bool, is_supported, symbol_duration_us, numerator_plus, numerator_minus, denominator,
  u64_mod, encoded_blocks, total_us, airtime_us,
}

-- A symbol is a whole number of quarter symbols, and 32768 us at most.
record IsSymbol (us : ℕ) : Type 0 where
  quarters : us % 4 ≡ 0
  bounded : us ≤ 32768

is_symbol : ℕ → Bool
is_symbol us = us % 4 == 0 && leb us 32768

table : ℕ → Bool
unfolding symbol_duration_us is_symbol holds_below
table bw = holds_below (λ sf. ltb sf 7 || is_symbol (symbol_duration_us sf bw)) 13

symbol_duration_us-IsSymbol :
    (sf bw : ℕ) → table bw ≡ true → 7 ≤ sf → sf ≤ 12 → IsSymbol (symbol_duration_us sf bw)
unfolding is_symbol table
symbol_duration_us-IsSymbol sf bw t lo hi = ground (
  arith,
  holds_below_sound (λ sf. ltb sf 7 || is_symbol (symbol_duration_us sf bw)) 13 sf (omega arith) t,
)

table_125 : table 125 ≡ true
unfolding table
table_125 = refl

table_250 : table 250 ≡ true
unfolding table
table_250 = refl

table_500 : table 500 ≡ true
unfolding table
table_500 = refl

-- What `is_supported` lets through.
record Supported (sf bw_khz coding_rate : ℕ) : Type 0 where
  sf_lo : 7 ≤ sf
  sf_hi : sf ≤ 12
  cr_lo : 5 ≤ coding_rate
  cr_hi : coding_rate ≤ 8
  symbol : IsSymbol (symbol_duration_us sf bw_khz)

supported :
    (sf bw_khz coding_rate : ℕ)
    → is_supported sf bw_khz coding_rate ≡ true
    → Supported sf bw_khz coding_rate
unfolding is_supported
supported sf bw cr h = ground (
  arith,
  symbol_duration_us-IsSymbol sf 125 table_125,
  symbol_duration_us-IsSymbol sf 250 table_250,
  symbol_duration_us-IsSymbol sf 500 table_500,
)

-- `blocks` is the least number of code blocks that hold `plus - minus` bits.
abbrev pub IsLeast : ℕ → ℕ → ℕ → ℕ → Type 0
IsLeast blocks plus minus denom =
    (plus ≤ minus + blocks * denom) × ((k : ℕ) → plus ≤ minus + k * denom → blocks ≤ k)

div_up : (n d : ℕ) → 0 < d → n ≤ (n + d - 1) / d * d
div_up n d h = grind arith

div_up_least : (n d k : ℕ) → 0 < d → n ≤ k * d → (n + d - 1) / d ≤ k
div_up_least n d k h e = grind arith

encoded_blocks-IsLeast :
    (plus minus denom : ℕ) → 0 < denom → IsLeast (encoded_blocks plus minus denom) plus minus denom
unfolding encoded_blocks
encoded_blocks-IsLeast plus minus denom h = (
  ground (arith, div_up (plus - minus) denom h),
  λ k e. ground (arith, div_up_least (plus - minus) denom k h),
)

le_scaled : (plus minus denom : ℕ) → 0 < denom → plus ≤ minus + plus * denom
le_scaled plus minus denom h = grind arith

encoded_blocks-le : (plus minus denom : ℕ) → 0 < denom → encoded_blocks plus minus denom ≤ plus
encoded_blocks-le plus minus denom h =
    (encoded_blocks-IsLeast plus minus denom h).1 plus (le_scaled plus minus denom h)

mul-le_right : (a b c : ℕ) → b ≤ c → a * b ≤ a * c
mul-le_right a b c h = grind arith

-- The sum of quarter symbols fits its word.
quarters_exact :
    (bits preamble_len : ℕ)
    → bits ≤ 2 ^ 40
    → preamble_len < 2 ^ 16
    → (preamble_len * 4 + 17 + (8 + bits % u64_mod) % u64_mod * 4 % u64_mod) % u64_mod
      ≡ 4 * preamble_len + 17 + 4 * (8 + bits)
quarters_exact bits pre hb hp = omega arith

-- A whole number of quarter symbols is divided by 4 with nothing left.
quarters-mul : (q us : ℕ) → q ≤ 2 ^ 43 → IsSymbol us → 4 * (q * us % u64_mod / 4) ≡ q * us
quarters-mul q us hq v =
    let e = ap (λ (t : ℕ). q * t) split ∙ mul_left_comm q 4 (us / 4) in
    omega (arith, e, mul-le_right q us 32768 v.bounded)
  where
    split : us ≡ 4 * (us / 4)
    split = omega (arith, v.quarters)

total_us_exact :
    (blocks coding_rate preamble_len symbol_us : ℕ)
    → blocks ≤ 2 ^ 36
    → coding_rate ≤ 8
    → preamble_len < 2 ^ 16
    → IsSymbol symbol_us
    → 4 * total_us blocks coding_rate preamble_len symbol_us
      ≡ (4 * preamble_len + 17 + 4 * (8 + blocks * coding_rate)) * symbol_us
unfolding total_us
total_us_exact blocks cr pre us hb hc hp v =
    let hbits = mul-le_right blocks cr 8 hc in
    let q : ℕ = 4 * pre + 17 + 4 * (8 + blocks * cr) in
    rw
      (
        mod-eq_of_lt {n = blocks} {m = u64_mod} (omega arith),
        quarters_exact (blocks * cr) pre (omega arith) hp,
      )
      (quarters-mul q us (omega arith) v)

denominator_pos : (sf symbol_us : ℕ) → 7 ≤ sf → 0 < denominator sf symbol_us
denominator_pos sf us h = ground arith

-- For every setting that the radio supports, a packet below 2^32 bytes and a preamble below 2^16
-- symbols, four times the airtime
-- is the Semtech count of quarter symbols times the symbol duration, with the payload's code
-- blocks the least number that holds its bits: nothing wraps and nothing else is rounded.
pub airtime_us_formula :
    (packet_bytes sf bw_khz coding_rate preamble_len : ℕ) (explicit_header : Bool)
    → is_supported sf bw_khz coding_rate ≡ true
    → packet_bytes < 2 ^ 32
    → preamble_len < 2 ^ 16
    → let symbol_us = symbol_duration_us sf bw_khz in
      (blocks : ℕ) × IsLeast blocks
        (8 * packet_bytes + 44)
        (4 * sf + 20 * from_bool (not explicit_header))
        (4 * (sf - 2 * from_bool (ltb 16000 symbol_us)))
      × (4 * airtime_us packet_bytes sf bw_khz coding_rate preamble_len explicit_header
          ≡ (4 * preamble_len + 17 + 4 * (8 + blocks * coding_rate)) * symbol_us)
unfolding airtime_us
airtime_us_formula n sf bw cr pre eh s hn hp =
    let us = symbol_duration_us sf bw in
    let plus = numerator_plus n in
    let minus = numerator_minus sf eh in
    let denom = denominator sf us in
    let v = supported sf bw cr s in
    let pos = denominator_pos sf us v.sf_lo in
    let least = encoded_blocks-IsLeast plus minus denom pos in
    (
      encoded_blocks plus minus denom,
      (omega (arith, least.0), λ k e. least.1 k (omega arith)),
      rw s (
          total_us_exact (encoded_blocks plus minus denom) cr pre us
            (omega (arith, encoded_blocks-le plus minus denom pos)) v.cr_hi hp v.symbol),
    )

total_mono : (a b c cr us : ℕ) → a ≤ b → (c + 4 * (8 + a * cr)) * us ≤ (c + 4 * (8 + b * cr)) * us
total_mono a b c cr us h =
    let products : a * cr ≤ b * cr = grind arith in
    let sums : c + 4 * (8 + a * cr) ≤ c + 4 * (8 + b * cr) = omega arith in grind arith

airtime_us_unsupported :
    (n sf bw cr pre : ℕ) (eh : Bool)
    → is_supported sf bw cr ≡ false
    → airtime_us n sf bw cr pre eh ≡ 0
unfolding airtime_us
airtime_us_unsupported n sf bw cr pre eh s = rw s

-- A longer packet, below 2^32 bytes and with a preamble below 2^16 symbols, is never shorter on the
-- air.
pub airtime_us_mono :
    (m n sf bw_khz coding_rate preamble_len : ℕ) (explicit_header : Bool)
    → m ≤ n
    → n < 2 ^ 32
    → preamble_len < 2 ^ 16
    → airtime_us m sf bw_khz coding_rate preamble_len explicit_header
      ≤ airtime_us n sf bw_khz coding_rate preamble_len explicit_header
airtime_us_mono m n sf bw cr pre eh h hn hp = elim (Bool-cases (is_supported sf bw cr)) [
  | inl s ↦
      let (a, la, ea) = airtime_us_formula m sf bw cr pre eh s (omega arith) hp in
      let (b, lb, eb) = airtime_us_formula n sf bw cr pre eh s hn hp in
      let ab = la.1 b (omega (arith, lb.0)) in
      omega (arith, ea, eb, total_mono a b (4 * pre + 17) cr (symbol_duration_us sf bw) ab)
  | inr s ↦ omega (arith, airtime_us_unsupported m sf bw cr pre eh s)
]
