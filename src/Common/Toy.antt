-- ===== src/Common/Toy.antt =====
-- A coarse float for examples: an integer number of tenths is not kept, all functions are total,
-- and the transcendental ones are linear stand-ins. It shows that the float parameter can be met.
use Prim.Native.Nat.{ℕ, zero, suc, ◌+◌, ◌-◌, ◌*◌, ◌/◌, ◌^◌}
use mathlib.Core.Bool.{Bool}
use mathlib.Core.List.{List, [], ◌∷◌}
use project_mycelium.Common.Tests.{ltb, leb, ◌==◌, if◌then◌else◌}
use project_mycelium.Common.Int.{ℤ, pos, negsuc}
use project_mycelium.Common.Float.{Float}

abbrev pos_part : ℤ → ℕ
pos_part (pos n) = n
pos_part (negsuc n) = 0

abbrev neg_part : ℤ → ℕ
neg_part (pos n) = 0
neg_part (negsuc n) = suc n

abbrev sub_ℕ : ℕ → ℕ → ℤ
sub_ℕ a b = if leb b a then pos (a - b) else negsuc (b - a - 1)

abbrev minus : ℤ → ℤ
minus a = sub_ℕ (neg_part a) (pos_part a)

abbrev plus : ℤ → ℤ → ℤ
plus a b = sub_ℕ (pos_part a + pos_part b) (neg_part a + neg_part b)

abbrev times : ℤ → ℤ → ℤ
times a b =
    sub_ℕ (pos_part a * pos_part b + neg_part a * neg_part b)
      (pos_part a * neg_part b + neg_part a * pos_part b)

-- Towards zero.
abbrev over : ℤ → ℤ → ℤ
over a b =
    let n = (pos_part a + neg_part a) / (pos_part b + neg_part b) in
    if neg_part a * pos_part b + pos_part a * neg_part b == 0 then pos n else sub_ℕ 0 n

abbrev less : ℤ → ℤ → Bool
less a b = ltb (pos_part a + neg_part b) (pos_part b + neg_part a)

abbrev at_most : ℤ → ℤ → Bool
at_most a b = leb (pos_part a + neg_part b) (pos_part b + neg_part a)

abbrev same : ℤ → ℤ → Bool
same a b = pos_part a + neg_part b == pos_part b + neg_part a

abbrev total : List ℤ → ℤ
total [] = pos 0
total (x ∷ xs) = plus x (total xs)

abbrev power : ℤ → ℕ → ℤ
power a zero = pos 1
power a (suc n) = times a (power a n)

abbrev pub toy : Float
toy = record {
  F = ℤ;
  lit = λ m k. pos (m / 10 ^ k);
  of_nat = pos;
  infinity = pos 1000000;
  neg = minus;
  add = plus;
  sub = λ a b. plus a (minus b);
  mul = times;
  div = over;
  lt = less;
  le = at_most;
  eq = same;
  is_finite = λ a. less a (pos 1000000);
  abs = λ a. pos (pos_part a + neg_part a);
  maximum = λ a b. if less a b then b else a;
  clamp = λ a lo hi. if less a lo then lo else if less hi a then hi else a;
  to_radians = λ a. a;
  sin = λ a. a;
  cos = λ a. pos 1;
  asin = λ a. a;
  sqrt = λ a. a;
  log10 = λ a. a;
  square = λ a. times a a;
  exp10 = λ a. pos (10 ^ pos_part a);
  powi = power;
  round = λ a. a;
  floor = λ a. a;
  atan2 = λ a b. a;
  to_degrees = λ a. a;
  rem_euclid = λ a b. a;
  to_nat = pos_part;
  sum = total;
}
