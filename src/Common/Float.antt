-- ===== src/Common/Float.antt =====
-- `f64` and `f32`, with the operations of Rust's standard library that the code calls: a parameter
-- of every definition that computes with them. Nothing is assumed of the operations.
use Prim.Native.Nat.{ℕ}
use mathlib.Core.Bool.{Bool}
use mathlib.Core.List.{List}

pub record Float : Type 1 where
  pub F : Type 0
  -- `lit m k` is the literal m / 10^k, and `of_nat` the conversion from an unsigned integer.
  pub lit : ℕ → ℕ → F
  pub of_nat : ℕ → F
  pub infinity : F
  pub neg : F → F
  pub add : F → F → F
  pub sub : F → F → F
  pub mul : F → F → F
  pub div : F → F → F
  -- The comparisons `<`, `<=` and `==`, false on a NaN.
  pub lt : F → F → Bool
  pub le : F → F → Bool
  pub eq : F → F → Bool
  pub is_finite : F → Bool
  pub abs : F → F
  pub maximum : F → F → F
  pub clamp : F → F → F → F
  pub to_radians : F → F
  pub sin : F → F
  pub cos : F → F
  pub asin : F → F
  pub sqrt : F → F
  pub log10 : F → F
  -- `powi(2)` and `10_f64.powf`.
  pub square : F → F
  pub exp10 : F → F
  pub powi : F → ℕ → F
  pub round : F → F
  pub floor : F → F
  pub atan2 : F → F → F
  pub to_degrees : F → F
  pub rem_euclid : F → F → F
  -- The `as` conversion to an unsigned integer.
  pub to_nat : F → ℕ
  -- `Iterator::sum`.
  pub sum : List F → F
