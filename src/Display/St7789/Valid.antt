-- ===== src/Display/St7789/Valid.antt =====
-- The well-formed controllers, and that every operation keeps them so.
use project_mycelium.Common.{
  ℕ, ◌*◌, ◌≤◌, ◌<◌, ◌≡◌, refl, ◌⊎◌, inl, inr, Bool, true, false, ap, ap₂, sym, ◌∙◌, List, [], ◌∷◌,
  length, length-replicate, arith,
}
use project_mycelium.Common.Word.{u16_max}
use project_mycelium.Common.Result.{ok, err, Result-cases}
use project_mycelium.Display.St7789.{
  St7789Controller, St7789Error, new, set_reset, parse_window, apply_command,
}

-- The panel memory has two bytes for each pixel, both address windows lie on the panel, so that
-- nothing that the code computes with them leaves `u16`, and a controller is initialized only out
-- of reset, after a reset.
pub record IsValid (c : St7789Controller) : Type 0 where
  pub words : (c.width ≤ u16_max) × (c.height ≤ u16_max)
  pub gram_length : length c.gram ≡ c.width * c.height * 2
  pub columns : (c.column.0 ≤ c.column.1) × (c.column.1 < c.width)
  pub rows : (c.row.0 ≤ c.row.1) × (c.row.1 < c.height)
  pub started : (c.initialized ≡ false) ⊎ ((c.reset_high ≡ true) × (c.reset_seen_low ≡ true))

pub new-IsValid :
    (width height : ℕ)
    → 0 < width
    → 0 < height
    → width ≤ u16_max
    → height ≤ u16_max
    → IsValid (new width height)
unfolding new
new-IsValid width height hw hh ww wh = record {
  words = (ww, wh);
  gram_length = length-replicate (width * height * 2) 0;
  columns = (omega arith, omega arith);
  rows = (omega arith, omega arith);
  started = inl refl;
}

pub set_reset-IsValid :
    (c : St7789Controller) (high : Bool) → IsValid c → IsValid (set_reset c high)
unfolding set_reset
set_reset-IsValid c true h = record {
  words = h.words;
  gram_length = h.gram_length;
  columns = h.columns;
  rows = h.rows;
  started = elim h.started [ inl off ↦ inl off | inr (_, seen) ↦ inr (refl, seen) ];
}
set_reset-IsValid c false h = record {
  words = h.words;
  gram_length = h.gram_length;
  columns = h.columns;
  rows = h.rows;
  started = inl refl;
}

parse_window-inside :
    (bytes : List ℕ) (limit : ℕ) (window : ℕ × ℕ)
    → parse_window bytes limit ≡ ok window
    → (window.0 ≤ window.1) × (window.1 < limit)
unfolding parse_window
parse_window-inside [] limit window e = cc e
parse_window-inside (a ∷ []) limit window e = cc e
parse_window-inside (a ∷ b ∷ []) limit window e = cc e
parse_window-inside (a ∷ b ∷ c ∷ []) limit window e = cc e
parse_window-inside (a ∷ b ∷ c ∷ d ∷ []) limit (x, y) e = ground (arith, e)
parse_window-inside (a ∷ b ∷ c ∷ d ∷ z ∷ zs) limit window e = cc e

apply_command-frame :
    (command : ℕ) (bytes : List ℕ) (c : St7789Controller)
    → let after = (apply_command command bytes c).0 in
      (after.gram ≡ c.gram)
      × (after.width ≡ c.width)
      × (after.height ≡ c.height)
      × (after.initialized ≡ c.initialized)
      × (after.reset_high ≡ c.reset_high)
      × (after.reset_seen_low ≡ c.reset_seen_low)
unfolding apply_command
apply_command-frame command bytes c =
    (ground arith, ground arith, ground arith, ground arith, ground arith, ground arith)

-- An accepted window lies below the limit.
parsed :
    (bytes : List ℕ) (limit : ℕ)
    → ((w : ℕ × ℕ) × (parse_window bytes limit ≡ ok w) × (w.0 ≤ w.1) × (w.1 < limit))
      ⊎ ((e : St7789Error) × (parse_window bytes limit ≡ err e))
parsed bytes limit = elim (Result-cases (parse_window bytes limit)) [
  | inl (w, e) ↦ let (le, lt) = parse_window-inside bytes limit w e in inl (w, e, le, lt)
  | inr (x, e) ↦ inr (x, e)
]

apply_command-windows :
    (command : ℕ) (bytes : List ℕ) (c : St7789Controller)
    → (c.column.0 ≤ c.column.1) × (c.column.1 < c.width)
    → (c.row.0 ≤ c.row.1) × (c.row.1 < c.height)
    → let after = (apply_command command bytes c).0 in
      ((after.column.0 ≤ after.column.1) × (after.column.1 < c.width))
      × ((after.row.0 ≤ after.row.1) × (after.row.1 < c.height))
unfolding apply_command
apply_command-windows command bytes c hc hr = (
  elim (parsed bytes c.width) [
    | inl (w, e, le, lt) ↦ (ground (arith, e), ground (arith, e))
    | inr (x, e) ↦ (ground (arith, e), ground (arith, e))
  ],
  elim (parsed bytes c.height) [
    | inl (w, e, le, lt) ↦ (ground (arith, e), ground (arith, e))
    | inr (x, e) ↦ (ground (arith, e), ground (arith, e))
  ],
)

pub apply_command-IsValid :
    (command : ℕ) (bytes : List ℕ) (c : St7789Controller)
    → IsValid c
    → IsValid (apply_command command bytes c).0
apply_command-IsValid command bytes c h =
    let (g, w, hh, i, high, low) = apply_command-frame command bytes c in
    let (columns, rows) = apply_command-windows command bytes c h.columns h.rows in
    record {
      words = (omega (arith, w, h.words), omega (arith, hh, h.words));
      gram_length = ap length g ∙ h.gram_length ∙ sym (ap₂ (λ a b. a * b * 2) w hh);
      columns = (columns.0, omega (arith, columns.1, w));
      rows = (rows.0, omega (arith, rows.1, hh));
      started = elim h.started [ inl off ↦ inl (i ∙ off) | inr (a, b) ↦ inr (high ∙ a, low ∙ b) ];
    }
