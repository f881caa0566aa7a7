-- ===== src/Common/Bytes.antt =====
-- Slices of a buffer: `buffer[start..start + len]` and `copy_from_slice` into one. An index out of
-- range panics, which is `none`.
use project_mycelium.Common.Lists.{length, get_or, take, drop}
use project_mycelium.Common.Tests.{ltb, leb, if◌then◌else◌}
use Prim.Native.Nat.{ℕ, zero, suc, ◌+◌, ◌-◌, ◌≤◌, ◌<◌}
use mathlib.Core.Bool.{Bool, ◌&&◌}
use mathlib.Core.List.{List, [], ◌∷◌}
use mathlib.Core.Option.{Option, none, some}
use mathlib.Core.Path.{◌≡◌, refl, ap, ◌∙◌}
use native.Mathlib.Omega.{arith}

-- `i` lies in the `len` places from `start` on.
abbrev pub within : ℕ → ℕ → ℕ → Bool
within start len i = leb start i && ltb i (start + len)

module _ {ℓ} {A : Type ℓ} where
  -- `xs[start..start + len]`.
  unfoldable pub slice : List A → ℕ → ℕ → Option (List A)
  slice xs start len =
      if leb (start + len) (length xs) then some (take len (drop start xs)) else none

  unfoldable pub overwrite : List A → ℕ → List A → List A
  overwrite [] start vs = []
  overwrite (x ∷ xs) (suc start) vs = x ∷ overwrite xs start vs
  overwrite (x ∷ xs) zero [] = x ∷ xs
  overwrite (x ∷ xs) zero (v ∷ vs) = v ∷ overwrite xs zero vs

  -- `xs[start..start + vs.len()].copy_from_slice(vs)`.
  unfoldable pub copy_from_slice : List A → ℕ → List A → Option (List A)
  unfolding overwrite
  copy_from_slice xs start vs =
      if leb (start + length vs) (length xs) then some (overwrite xs start vs) else none

module _ {A : Type 0} where
  pub length-overwrite :
      (xs : List A) (start : ℕ) (vs : List A) → length (overwrite xs start vs) ≡ length xs
  unfolding overwrite
  length-overwrite [] start vs = refl
  length-overwrite (x ∷ xs) (suc start) vs = ap suc (length-overwrite xs start vs)
  length-overwrite (x ∷ xs) zero [] = refl
  length-overwrite (x ∷ xs) zero (v ∷ vs) = ap suc (length-overwrite xs zero vs)

  pub get_or-overwrite :
      (xs : List A) (start : ℕ) (vs : List A) (i : ℕ) (d : A)
      → start + length vs ≤ length xs
      → get_or (overwrite xs start vs) i d
        ≡ (if within start (length vs) i then get_or vs (i - start) d else get_or xs i d)
  unfolding overwrite
  get_or-overwrite [] start [] i d h = ground arith
  get_or-overwrite [] start (v ∷ vs) i d h = absurd (omega arith)
  get_or-overwrite (x ∷ xs) (suc start) vs zero d h = ground arith
  get_or-overwrite (x ∷ xs) (suc start) vs (suc i) d h =
      ground (arith, get_or-overwrite xs start vs i d)
  get_or-overwrite (x ∷ xs) zero [] i d h = ground arith
  get_or-overwrite (x ∷ xs) zero (v ∷ vs) zero d h = ground arith
  get_or-overwrite (x ∷ xs) zero (v ∷ vs) (suc i) d h =
      ground (arith, get_or-overwrite xs zero vs i d)

  pub length-take : (n : ℕ) (xs : List A) → n ≤ length xs → length (take n xs) ≡ n
  length-take zero xs h = refl
  length-take (suc n) [] h = absurd (omega arith)
  length-take (suc n) (x ∷ xs) h = ap suc (length-take n xs (omega arith))

  pub length-drop : (n : ℕ) (xs : List A) → length (drop n xs) ≡ length xs - n
  length-drop zero xs = omega arith
  length-drop (suc n) [] = omega arith
  length-drop (suc n) (x ∷ xs) = omega (arith, length-drop n xs)

  pub get_or-take :
      (n : ℕ) (xs : List A) (i : ℕ) (d : A) → i < n → get_or (take n xs) i d ≡ get_or xs i d
  get_or-take zero xs i d h = absurd (omega arith)
  get_or-take (suc n) [] i d h = refl
  get_or-take (suc n) (x ∷ xs) zero d h = refl
  get_or-take (suc n) (x ∷ xs) (suc i) d h = get_or-take n xs i d (omega arith)

  pub get_or-drop :
      (n : ℕ) (xs : List A) (i : ℕ) (d : A) → get_or (drop n xs) i d ≡ get_or xs (n + i) d
  get_or-drop zero xs i d = ap (λ k. get_or xs k d) (omega arith)
  get_or-drop (suc n) [] i d = refl
  get_or-drop (suc n) (x ∷ xs) i d =
      let shift : suc (n + i) ≡ suc n + i = omega arith in
      get_or-drop n xs i d ∙ ap (λ k. get_or (x ∷ xs) k d) shift

  pub slice-some :
      (xs : List A) (start len : ℕ)
      → start + len ≤ length xs
      → (ys : List A) × (slice xs start len ≡ some ys)
        × (length ys ≡ len)
        × ((i : ℕ) (d : A) → i < len → get_or ys i d ≡ get_or xs (start + i) d)
  unfolding slice
  slice-some xs start len h = (
    take len (drop start xs),
    ground arith,
    length-take len (drop start xs) (omega (arith, length-drop start xs)),
    λ i d lt. get_or-take len (drop start xs) i d lt ∙ get_or-drop start xs i d,
  )

  pub copy_from_slice-some :
      (xs : List A) (start : ℕ) (vs : List A)
      → start + length vs ≤ length xs
      → copy_from_slice xs start vs ≡ some (overwrite xs start vs)
  unfolding copy_from_slice
  copy_from_slice-some xs start vs h = ground arith

  pub length-copy_from_slice :
      (xs : List A) (start : ℕ) (vs after : List A)
      → copy_from_slice xs start vs ≡ some after
      → length after ≡ length xs
  unfolding copy_from_slice
  length-copy_from_slice xs start vs after e = ground (arith, e, length-overwrite xs start vs)

  pub take-drop-overwrite :
      (xs : List A) (start : ℕ) (vs : List A)
      → start + length vs ≤ length xs
      → take (length vs) (drop start (overwrite xs start vs)) ≡ vs
  unfolding overwrite
  take-drop-overwrite [] start [] h = ground arith
  take-drop-overwrite [] start (v ∷ vs) h = absurd (omega arith)
  take-drop-overwrite (x ∷ xs) (suc start) vs h = take-drop-overwrite xs start vs (omega arith)
  take-drop-overwrite (x ∷ xs) zero [] h = refl
  take-drop-overwrite (x ∷ xs) zero (v ∷ vs) h =
      ap (λ r. v ∷ r) (take-drop-overwrite xs zero vs (omega arith))

  pub overwrite-overwrite :
      (xs : List A) (start : ℕ) (vs : List A)
      → start + length vs ≤ length xs
      → overwrite (overwrite xs start vs) start (take (length vs) (drop start xs)) ≡ xs
  unfolding overwrite
  overwrite-overwrite [] start vs h = refl
  overwrite-overwrite (x ∷ xs) (suc start) vs h =
      ap (λ r. x ∷ r) (overwrite-overwrite xs start vs (omega arith))
  overwrite-overwrite (x ∷ xs) zero [] h = refl
  overwrite-overwrite (x ∷ xs) zero (v ∷ vs) h =
      ap (λ r. x ∷ r) (overwrite-overwrite xs zero vs (omega arith))

  pub slice-take :
      (xs : List A) (start len : ℕ)
      → start + len ≤ length xs
      → slice xs start len ≡ some (take len (drop start xs))
  unfolding slice
  slice-take xs start len h = ground arith
