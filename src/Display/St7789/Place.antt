-- ===== src/Display/St7789/Place.antt =====
-- Places in an address window and bytes of the panel memory, as numbers.
use project_mycelium.Common.{
  ℕ, suc, ◌+◌, ◌-◌, ◌*◌, ◌/◌, ◌%◌, ◌≤◌, ◌<◌, ◌≡◌, ap, inl, inr, Bool, Bool-cases, ◌==◌, ◌&&◌, List,
  length, get_or, arith, if◌then◌else◌,
}
use native.Mathlib.Nat.{mul-le-mul_right}
use project_mycelium.Common.Bytes.{within, overwrite, get_or-overwrite}
use project_mycelium.Display.Framebuffer.Update.{within_row}

-- The number of a place in a window is unique.
place_unique : (w a b i : ℕ) → b < w → ((a * w + b) == i) ≡ ((a == i / w) && (b == i % w))
place_unique w a b i h = grind arith

-- Address (u, v) has number `i` in the window of `w` by `h` places from (left, top) on.
pub numbered :
    (left top w h u v i : ℕ)
    → i % w < w
    → i / w < h
    → ((v == (top + i / w)) && (u == (left + i % w)))
      ≡ ((within left w u && within top h v) && (((v - top) * w + (u - left)) == i))
numbered left top w h u v i hm hq = elim (Bool-cases (within left w u && within top h v)) [
  | inl inside ↦ ground (arith, place_unique w (v - top) (u - left) i (ground arith))
  | inr outside ↦ ground arith
]

-- Writing the two bytes of a pixel changes that pixel and no other.
pub get_or-write_pixel :
    (gram bytes : List ℕ) (width tx ty x y b : ℕ)
    → tx < width
    → x < width
    → b < 2
    → length bytes ≡ 2
    → (ty * width + tx) * 2 + 2 ≤ length gram
    → get_or (overwrite gram ((ty * width + tx) * 2) bytes) ((y * width + x) * 2 + b) 0 ≡ (
        if (y == ty) && (x == tx)
        then get_or bytes b 0
        else get_or gram ((y * width + x) * 2 + b) 0)
get_or-write_pixel gram bytes width tx ty x y b htx hx hb lb fits =
    let start : ty * (width * 2) + tx * 2 ≡ (ty * width + tx) * 2 = grind arith in
    let place : y * (width * 2) + (x * 2 + b) ≡ (y * width + x) * 2 + b = grind arith in
    let lines : y ≡ ty → y * width ≡ ty * width = λ e. ap (λ k. k * width) e in
    ground (
      arith,
      start,
      place,
      lb,
      lines,
      get_or-overwrite gram ((ty * width + tx) * 2) bytes ((y * width + x) * 2 + b) 0
          (omega (arith, lb, fits)),
      within_row (width * 2) ty (tx * 2) 2 y (x * 2 + b) (omega arith) (omega arith),
    )

pub next_byte :
    (inside is_hit : Bool) (n index k pixel byte old now : ℕ)
    → now ≡ (if is_hit then byte else old)
    → is_hit ≡ (inside && (k == index))
    → (k ≡ index → pixel ≡ byte)
    → (if inside && within (suc index) n k then pixel else now)
      ≡ (if inside && within index (suc n) k then pixel else old)
next_byte inside is_hit n index k pixel byte old now written hit same = ground arith

pub pixel_fits :
    (x y width height : ℕ) → x < width → y < height → (y * width + x) * 2 + 2 ≤ width * height * 2
pixel_fits x y width height hx hy =
    let lines = mul-le-mul_right {m = suc y} {n = height} width hy in omega (arith, lines)
