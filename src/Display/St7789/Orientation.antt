-- ===== src/Display/St7789/Orientation.antt =====
-- Where `map_orientation` puts a pixel.
use project_mycelium.Common.{
  ℕ, ◌-◌, ◌≤◌, ◌<◌, ◌≡◌, ◌⊎◌, ◌↔◌, inl, inr, Bool, true, false, Bool-cases, ◌==◌, ◌||◌, ap₂, ◌∙◌,
  if◌then◌else◌, some, none, arith,
}
use project_mycelium.Display.St7789.{St7789Controller, t_deck_madctl}
use project_mycelium.Display.St7789.Write.{bit_set, mirror, map_orientation}

abbrev pub reflected : Bool → ℕ → ℕ → ℕ
reflected b limit v = if b then limit - 1 - v else v

-- The axes that are mirrored while MV is clear.
abbrev pub mirrors_x : St7789Controller → Bool
mirrors_x c = c.madctl == t_deck_madctl || bit_set c.madctl 6

abbrev pub mirrors_y : St7789Controller → Bool
mirrors_y c = c.madctl == t_deck_madctl || bit_set c.madctl 7

pub map_orientation-unswapped :
    (c : St7789Controller) (x y : ℕ)
    → bit_set c.madctl 5 ≡ false
    → x < c.width
    → y < c.height
    → map_orientation c x y
      ≡ some (reflected (mirrors_x c) c.width x, reflected (mirrors_y c) c.height y)
unfolding map_orientation mirror
map_orientation-unswapped c x y mv hx hy = ground arith

-- Without the row and column exchange (MV), a pixel of the panel goes to a pixel of the panel, and
-- that one goes back to it.
pub map_orientation_involutive :
    (c : St7789Controller) (x y : ℕ)
    → bit_set c.madctl 5 ≡ false
    → x < c.width
    → y < c.height
    → (x' : ℕ) × (y' : ℕ) × (map_orientation c x y ≡ some (x', y'))
      × (x' < c.width)
      × (y' < c.height)
      × (map_orientation c x' y' ≡ some (x, y))
map_orientation_involutive c x y mv hx hy =
    let x' = reflected (mirrors_x c) c.width x in
    let y' = reflected (mirrors_y c) c.height y in
    let in_x : x' < c.width = ground arith in
    let in_y : y' < c.height = ground arith in
    let back_x : reflected (mirrors_x c) c.width x' ≡ x = ground arith in
    let back_y : reflected (mirrors_y c) c.height y' ≡ y = ground arith in
    (
      x',
      y',
      map_orientation-unswapped c x y mv hx hy,
      in_x,
      in_y,
      map_orientation-unswapped c x' y' mv in_x in_y ∙ ap₂ (λ a b. some (a, b)) back_x back_y,
    )

-- With MV set, the address of a pixel is exchanged before it is mirrored, so a mirrored axis
-- panics exactly for the pixels whose exchanged coordinate is past its end.
pub map_orientation_swapped :
    (c : St7789Controller) (x y : ℕ)
    → bit_set c.madctl 5 ≡ true
    → (map_orientation c x y ≡ none) ↔ (
        ((bit_set c.madctl 6 ≡ true) × (c.width ≤ y))
        ⊎ ((bit_set c.madctl 7 ≡ true) × (c.height ≤ x)))
unfolding map_orientation mirror bit_set
map_orientation_swapped c x y mv = elim (Bool-cases (c.madctl == t_deck_madctl)) [
  | inl e ↦ absurd (ground arith)
  | inr e ↦ (λ panics. ground arith, λ past. ground arith)
]
