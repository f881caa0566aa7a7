-- ===== src/Display/Framebuffer/Update.antt =====
-- What `update_rgb565` writes, byte by byte.
use project_mycelium.Common.{
  ℕ, zero, suc, ◌+◌, ◌-◌, ◌*◌, ◌≤◌, ◌<◌, ◌≡◌, ◌∙◌, refl, ap, ◌&&◌, ◌==◌, Option-cases, inl, inr,
  List, length, get_or, some, none, if◌then◌else◌, arith, ◌⊎◌,
}
use native.Mathlib.Nat.{mul-le-mul_right, mul-le-mul}
use project_mycelium.Common.Word.{u32_max, u64_max}
use project_mycelium.Common.Result.{ok, err}
use project_mycelium.Common.Bytes.{
  within, overwrite, length-overwrite, get_or-overwrite, slice-some, copy_from_slice-some,
}
use project_mycelium.Display.Framebuffer.{
  Rect, UpdateError, framebuffer_size, check_update, copy_rows, update_rgb565,
}

trichotomy : (a b : ℕ) → (a < b) ⊎ (a ≡ b) ⊎ (b < a)
trichotomy a b = ground arith

-- Byte `o` of row `y` lies in a stretch of row `top` that starts at byte `left` exactly when the
-- row is that row, and the byte in the stretch.
pub within_row :
    (pitch top left len y o : ℕ)
    → o < pitch
    → left + len ≤ pitch
    → within (top * pitch + left) len (y * pitch + o) ≡ ((y == top) && within left len o)
within_row pitch top left len y o ho hl = elim (trichotomy y top) [
  | inl lt ↦ ground (arith, mul-le-mul_right {m = suc y} {n = top} pitch (omega arith))
  | inr (inl e) ↦ ground (arith, e, ap (λ k. k * pitch) e)
  | inr (inr gt) ↦ ground (arith, mul-le-mul_right {m = suc top} {n = y} pitch (omega arith))
]

-- Byte `o` of row `y` after `n` rows of the area, from its row `row` on, are copied.
abbrev byte_after : ℕ → ℕ → Rect → ℕ → List ℕ → List ℕ → ℕ → ℕ → ℕ
byte_after n row area pitch pixels framebuffer y o =
    if within (area.y + row) n y && within (area.x * 2) (area.width * 2) o
    then get_or pixels ((y - area.y) * (area.width * 2) + (o - area.x * 2)) 0
    else get_or framebuffer (y * pitch + o) 0

-- Copying the row `row` of the area comes first.
byte_after-overwrite :
    (n row : ℕ) (area : Rect) (pitch : ℕ) (pixels framebuffer bytes : List ℕ) (y o : ℕ)
    → o < pitch
    → area.x * 2 + area.width * 2 ≤ pitch
    → (area.y + row) * pitch + area.x * 2 + length bytes ≤ length framebuffer
    → length bytes ≡ area.width * 2
    → ((i d : ℕ)
        → i < area.width * 2
        → get_or bytes i d ≡ get_or pixels (row * (area.width * 2) + i) d)
    → byte_after n
        (suc row)
        area
        pitch
        pixels
        (overwrite framebuffer ((area.y + row) * pitch + area.x * 2) bytes)
        y
        o
      ≡ byte_after (suc n) row area pitch pixels framebuffer y o
byte_after-overwrite n row area pitch pixels framebuffer bytes y o ho hw hf lb gb =
    let target = (area.y + row) * pitch + area.x * 2 in
    let written = get_or-overwrite framebuffer target bytes (y * pitch + o) 0 hf in
    let places = within_row pitch (area.y + row) (area.x * 2) (area.width * 2) y o ho hw in
    elim (trichotomy y (area.y + row)) [
      | inl lt ↦ ground (arith, written, places, lb)
      | inr (inl e) ↦
          let rows : (y - area.y) * (area.width * 2) ≡ row * (area.width * 2) =
            ap (λ k. k * (area.width * 2)) (omega arith) in
          let lines : y * pitch ≡ (area.y + row) * pitch = ap (λ k. k * pitch) e in
          let index : area.x * 2 ≤ o → y * pitch + o - target ≡ o - area.x * 2 =
            λ h. omega (arith, lines) in
          ground (arith, written, places, lb, gb (o - area.x * 2) 0, index, rows)
      | inr (inr gt) ↦ ground (arith, written, places, lb)
    ]

row_in_bounds : (a b n k len : ℕ) → (a + suc n) * k ≤ len → b ≤ k → a * k + b ≤ len
row_in_bounds a b n k len h hb =
    let rows = mul-le-mul_right {m = suc a} {n = a + suc n} k (omega arith) in omega (arith, rows)

copy_rows-some :
    (n row : ℕ) (area : Rect) (pitch : ℕ) (pixels framebuffer : List ℕ)
    → area.x * 2 + area.width * 2 ≤ pitch
    → (area.y + row + n) * pitch ≤ length framebuffer
    → (row + n) * (area.width * 2) ≤ length pixels
    → (after : List ℕ) × (copy_rows n row area pitch pixels framebuffer ≡ some after)
      × (length after ≡ length framebuffer)
      × ((y o : ℕ)
          → o < pitch
          → get_or after (y * pitch + o) 0 ≡ byte_after n row area pitch pixels framebuffer y o)
unfolding copy_rows
copy_rows-some zero row area pitch pixels framebuffer hw hf hp =
    (framebuffer, refl, refl, λ y o lt. ground arith)
copy_rows-some (suc n) row area pitch pixels framebuffer hw hf hp =
    let sp = area.width * 2 in
    let target = (area.y + row) * pitch + area.x * 2 in
    let (bytes, eb, lb, gb) =
      slice-some pixels (row * sp) sp
        (row_in_bounds row sp n sp (length pixels) hp (omega arith)) in
    let in_buffer =
      row_in_bounds (area.y + row) (area.x * 2 + sp) n pitch (length framebuffer) hf hw in
    let fits : target + length bytes ≤ length framebuffer = omega (arith, lb, in_buffer) in
    let same = length-overwrite framebuffer target bytes in
    let (after, ea, la, ga) =
      copy_rows-some n (suc row) area pitch pixels (overwrite framebuffer target bytes) hw
        (omega (arith, same)) (omega arith) in
    (
      after,
      rw (eb, copy_rows) (rw (copy_from_slice-some framebuffer target bytes fits) ea),
      la ∙ same,
      λ y o lt.
          ga y o lt
          ∙ byte_after-overwrite n row area pitch pixels framebuffer bytes y o lt hw fits lb gb,
    )

-- An update that passes the checks: the area is not empty and inside the screen, and both buffers
-- have the sizes that the code asks for.
pub record IsUpdate (framebuffer pixels : List ℕ) (width height : ℕ) (area : Rect) : Type 0 where
  pub not_empty : (0 < area.width) × (0 < area.height)
  pub inside : (area.x + area.width ≤ width) × (area.y + area.height ≤ height)
  pub screen : (width ≤ u32_max) × (height ≤ u32_max) × (width * height * 2 ≤ u64_max)
  pub lengths :
      (length framebuffer ≡ width * height * 2) × (length pixels ≡ area.width * area.height * 2)

checks-IsUpdate :
    (framebuffer pixels : List ℕ) (width height : ℕ) (area : Rect)
    → IsUpdate framebuffer pixels width height area
    → check_update (length framebuffer) width height (length pixels) area ≡ none
unfolding check_update framebuffer_size
checks-IsUpdate framebuffer pixels width height area h =
    let small : area.width * area.height ≤ width * height =
      mul-le-mul {n₁ = area.width} {m₁ = area.height} {n₂ = width} {m₂ = height}
        (omega (arith, h.inside)) (omega (arith, h.inside)) in
    ground (arith, h.not_empty, h.inside, h.screen, h.lengths, small)

checks-passed :
    (framebuffer pixels : List ℕ) (width height : ℕ) (area : Rect)
    → width ≤ u32_max
    → height ≤ u32_max
    → check_update (length framebuffer) width height (length pixels) area ≡ none
    → IsUpdate framebuffer pixels width height area
unfolding check_update framebuffer_size
checks-passed framebuffer pixels width height area hw hh e = record {
  not_empty = ground arith;
  inside = ground arith;
  screen = ground arith;
  lengths = ground arith;
}

update-IsUpdate :
    (framebuffer pixels : List ℕ) (width height : ℕ) (area : Rect)
    → IsUpdate framebuffer pixels width height area
    → (after : List ℕ) × (update_rgb565 framebuffer width height pixels area ≡ some (after, ok tt))
      × (length after ≡ length framebuffer)
      × ((y o : ℕ)
          → o < width * 2
          → get_or after (y * (width * 2) + o) 0
            ≡ byte_after area.height 0 area (width * 2) pixels framebuffer y o)
unfolding update_rgb565
update-IsUpdate framebuffer pixels width height area h =
    let rows : (area.y + 0 + area.height) * (width * 2) ≤ length framebuffer = omega (
      arith,
      h.lengths,
      mul-le-mul_right {m = area.y + area.height} {n = height} (width * 2) h.inside.1,
    ) in
    let (after, ea, la, ga) =
      copy_rows-some area.height 0 area (width * 2) pixels framebuffer (omega (arith, h.inside))
        rows (omega (arith, h.lengths)) in
    (
      after,
      rw (checks-IsUpdate framebuffer pixels width height area h, update_rgb565) (rw ea refl),
      la,
      ga,
    )

-- An update that passes the checks does not panic: it keeps the length of the framebuffer, gives
-- every byte of the area the byte of `pixels` at its place in the area, and leaves every other
-- byte of the screen alone.
pub update_rgb565_pixels :
    (framebuffer pixels : List ℕ) (width height : ℕ) (area : Rect) (y o : ℕ)
    → IsUpdate framebuffer pixels width height area
    → o < width * 2
    → (after : List ℕ) × (update_rgb565 framebuffer width height pixels area ≡ some (after, ok tt))
      × (length after ≡ length framebuffer)
      × (get_or after (y * (width * 2) + o) 0 ≡ (
          if within area.y area.height y && within (area.x * 2) (area.width * 2) o
          then get_or pixels ((y - area.y) * (area.width * 2) + (o - area.x * 2)) 0
          else get_or framebuffer (y * (width * 2) + o) 0))
update_rgb565_pixels framebuffer pixels width height area y o h lt =
    let (after, ea, la, ga) = update-IsUpdate framebuffer pixels width height area h in
    (after, ea, la, ga y o lt ∙ ground arith)

-- On a screen with sides below 2^32 every call returns, and it either makes an update that passes
-- the checks, or reports an error and leaves the framebuffer as it was.
pub update_rgb565_answers :
    (framebuffer pixels : List ℕ) (width height : ℕ) (area : Rect)
    → width ≤ u32_max
    → height ≤ u32_max
    → (IsUpdate framebuffer pixels width height area
        × ((after : List ℕ) × (update_rgb565 framebuffer width height pixels area
              ≡ some (after, ok tt))))
      ⊎ ((e : UpdateError) × (update_rgb565 framebuffer width height pixels area
            ≡ some (framebuffer, err e)))
unfolding update_rgb565
update_rgb565_answers framebuffer pixels width height area hw hh =
    elim (Option-cases (check_update (length framebuffer) width height (length pixels) area)) [
      | inl passed ↦
          let u = checks-passed framebuffer pixels width height area hw hh passed in
          let (after, e, _, _) = update-IsUpdate framebuffer pixels width height area u in
          inl (u, (after, e))
      | inr (e, refused) ↦ inr (e, rw (refused, update_rgb565) refl)
    ]
