-- ===== src/Display/St7789/Panel.antt =====
-- What `write_pixels` puts on the panel, pixel by pixel.
use project_mycelium.Common.{
  ℕ, zero, suc, ◌+◌, ◌-◌, ◌*◌, ◌/◌, ◌%◌, ◌≤◌, ◌<◌, ◌≡◌, refl, sym, ap, ap₂, ◌∙◌, Bool, false, ◌==◌,
  ◌||◌, ◌&&◌, leb, some, List, length, get_or, arith, if◌then◌else◌,
}
use project_mycelium.Common.Result.{ok}
use project_mycelium.Common.Bytes.{
  slice, within, overwrite, length-overwrite, slice-some, copy_from_slice-some,
}
use project_mycelium.Display.St7789.{St7789Controller}
use project_mycelium.Display.St7789.Write.{bit_set, write_pixel, write_window}
use project_mycelium.Display.St7789.Orientation.{
  reflected, mirrors_x, mirrors_y, map_orientation-unswapped,
}
use project_mycelium.Display.St7789.Place.{numbered, get_or-write_pixel, next_byte, pixel_fits}

-- The number in the window of the address that is shown at pixel (x, y).
abbrev pub window_width : St7789Controller → ℕ
window_width c = c.column.1 - c.column.0 + 1

abbrev pub window_height : St7789Controller → ℕ
window_height c = c.row.1 - c.row.0 + 1

abbrev pub address_x : St7789Controller → ℕ → ℕ
address_x c x = reflected (mirrors_x c) c.width x

abbrev pub address_y : St7789Controller → ℕ → ℕ
address_y c y = reflected (mirrors_y c) c.height y

abbrev pub in_window : St7789Controller → ℕ → ℕ → Bool
in_window c x y =
    within c.column.0 (window_width c) (address_x c x)
    && within c.row.0 (window_height c) (address_y c y)

abbrev pub number : St7789Controller → ℕ → ℕ → ℕ
number c x y = (address_y c y - c.row.0) * window_width c + (address_x c x - c.column.0)

-- Byte `b` of pixel (x, y) when the `n` pixels of the window from `index` on are written.
abbrev shown : ℕ → ℕ → List ℕ → St7789Controller → ℕ → ℕ → ℕ → ℕ
shown n index pixels c x y b =
    if in_window c x y && within index n (number c x y)
    then get_or pixels (number c x y * 2 + b) 0
    else get_or c.gram ((y * c.width + x) * 2 + b) 0

-- The pixel that the window's address `index` is shown at.
abbrev target_x : St7789Controller → ℕ → ℕ
target_x c index = reflected (mirrors_x c) c.width (c.column.0 + index % window_width c)

abbrev target_y : St7789Controller → ℕ → ℕ
target_y c index = reflected (mirrors_y c) c.height (c.row.0 + index / window_width c)

pub record IsOnPanel (c : St7789Controller) : Type 0 where
  pub unswapped : bit_set c.madctl 5 ≡ false
  pub columns : (c.column.0 ≤ c.column.1) × (c.column.1 < c.width)
  pub rows : (c.row.0 ≤ c.row.1) × (c.row.1 < c.height)
  pub gram_length : length c.gram ≡ c.width * c.height * 2

index_bounds :
    (c : St7789Controller) (index : ℕ)
    → IsOnPanel c
    → index < window_width c * window_height c
    → (c.column.0 + index % window_width c < c.width)
      × (c.row.0 + index / window_width c < c.height)
      × (index % window_width c < window_width c)
      × (index / window_width c < window_height c)
index_bounds c index h lt =
    let row_lt : index / window_width c < window_height c = grind arith in
    let column_lt : index % window_width c < window_width c = grind arith in
    (omega (arith, column_lt, h.columns), omega (arith, row_lt, h.rows), column_lt, row_lt)

-- A pixel is the target of `index` exactly when its address has that number in the window.
target-number :
    (c : St7789Controller) (index x y : ℕ)
    → IsOnPanel c
    → index < window_width c * window_height c
    → x < c.width
    → y < c.height
    → ((y == target_y c index) && (x == target_x c index))
      ≡ (in_window c x y && (number c x y == index))
target-number c index x y h lt hx hy =
    let (bx, by, mx, my) = index_bounds c index h lt in
    let tx : (x == target_x c index) ≡ (address_x c x == c.column.0 + index % window_width c) =
      ground arith in
    let ty : (y == target_y c index) ≡ (address_y c y == c.row.0 + index / window_width c) =
      ground arith in
    ap₂ ◌&&◌ ty tx
    ∙ numbered c.column.0 c.row.0 (window_width c) (window_height c) (address_x c x) (address_y c y)
        index mx my

module _ (c : St7789Controller) (index : ℕ) (pixels bytes : List ℕ) (panel : IsOnPanel c)
    (lt : index < window_width c * window_height c) (lb : length bytes ≡ 2)
    (gb : (i d : ℕ) → i < 2 → get_or bytes i d ≡ get_or pixels (index * 2 + i) d) where
  abbrev after_pixel : St7789Controller
  after_pixel = record c {
    gram = overwrite c.gram ((target_y c index * c.width + target_x c index) * 2) bytes;
  }

  target_fits :
      (target_x c index < c.width)
      × (target_y c index < c.height)
      × ((target_y c index * c.width + target_x c index) * 2 + 2 ≤ length c.gram)
  target_fits =
      let (bx, by, _, _) = index_bounds c index panel lt in
      let hx : target_x c index < c.width = ground arith in
      let hy : target_y c index < c.height = ground arith in
      (hx, hy, omega (arith, panel.gram_length, pixel_fits _ _ c.width c.height hx hy))

  shown-after_pixel :
      (n x y b : ℕ)
      → x < c.width
      → y < c.height
      → b < 2
      → shown n (suc index) pixels after_pixel x y b ≡ shown (suc n) index pixels c x y b
  shown-after_pixel n x y b hx hy hb =
      let written =
        get_or-write_pixel c.gram bytes c.width (target_x c index) (target_y c index) x y b
          target_fits.0 hx hb lb target_fits.2 in
      let hit = target-number c index x y panel lt hx hy in
      let same : number c x y ≡ index → get_or pixels (number c x y * 2 + b) 0 ≡ get_or bytes b 0 =
        λ e. ap (λ k. get_or pixels (k * 2 + b) 0) e ∙ sym (gb b 0 hb) in
      next_byte (in_window c x y) _ n index (number c x y) _ _ _ _ written hit same

  write_window-step :
      (n : ℕ)
      → slice pixels (index * 2) 2 ≡ some bytes
      → write_window (suc n) index pixels c ≡ write_window n (suc index) pixels after_pixel
  unfolding write_window write_pixel
  write_window-step n eb =
      let (bx, by, _, _) = index_bounds c index panel lt in
      let (hx, hy, fits) = target_fits in
      let guard : (leb c.width (target_x c index) || leb c.height (target_y c index)) ≡ false =
        ground arith in
      rw (map_orientation-unswapped c _ _ panel.unswapped bx by, write_window)
        (rw guard (
          rw (eb, write_pixel)
            (rw
              (copy_from_slice-some c.gram ((target_y c index * c.width + target_x c index) * 2)
                bytes (omega (arith, fits, lb)))
              refl)))

-- The loop returns, and the pixels of the window from `index` on are shown.
pub write_window-shown :
    (n index : ℕ) (pixels : List ℕ) (c : St7789Controller)
    → IsOnPanel c
    → index + n ≤ window_width c * window_height c
    → length pixels ≡ window_width c * window_height c * 2
    → (gram : List ℕ) × (write_window n index pixels c ≡ (record c { gram = gram }, some (ok tt)))
      × (length gram ≡ length c.gram)
      × ((x y b : ℕ)
          → x < c.width
          → y < c.height
          → b < 2
          → get_or gram ((y * c.width + x) * 2 + b) 0 ≡ shown n index pixels c x y b)
unfolding write_window
write_window-shown zero index pixels c panel h len =
    (c.gram, refl, refl, λ x y b hx hy hb. ground arith)
write_window-shown (suc n) index pixels c panel h len =
    let lt : index < window_width c * window_height c = omega arith in
    let (bytes, eb, lb, gb) = slice-some pixels (index * 2) 2 (omega (arith, len)) in
    let next = after_pixel c index pixels bytes panel lt lb gb in
    let same =
      length-overwrite c.gram ((target_y c index * c.width + target_x c index) * 2) bytes in
    let panel' : IsOnPanel next = record {
      unswapped = panel.unswapped;
      columns = panel.columns;
      rows = panel.rows;
      gram_length = same ∙ panel.gram_length;
    } in
    let (gram, e, l, g) = write_window-shown n (suc index) pixels next panel' (omega arith) len in
    (
      gram,
      write_window-step c index pixels bytes panel lt lb gb n eb ∙ e,
      l ∙ same,
      λ x y b hx hy hb.
          g x y b hx hy hb ∙ shown-after_pixel c index pixels bytes panel lt lb gb n x y b hx hy hb,
    )
