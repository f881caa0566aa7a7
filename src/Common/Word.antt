-- ===== src/Common/Word.antt =====
-- Machine words: the largest values, and the saturating operations of Rust's unsigned integers.
use Prim.Native.Nat.{ℕ, ◌+◌, min}

abbrev pub u8_max : ℕ
u8_max = 255

abbrev pub u16_max : ℕ
u16_max = 65535

abbrev pub u32_max : ℕ
u32_max = 4294967295

abbrev pub u64_max : ℕ
u64_max = 18446744073709551615

-- `u64::saturating_add`. `saturating_sub` is the subtraction of ℕ, which stops at 0.
abbrev pub sat_add64 : ℕ → ℕ → ℕ
sat_add64 a b = min (a + b) u64_max

-- `u32::saturating_add`.
abbrev pub sat_add32 : ℕ → ℕ → ℕ
sat_add32 a b = min (a + b) u32_max

-- `u16::saturating_add`.
abbrev pub sat_add16 : ℕ → ℕ → ℕ
sat_add16 a b = min (a + b) u16_max
