-- ===== src/Display/Framebuffer.antt =====
-- RGB565 framebuffers, core/display/src/framebuffer.rs and `framebuffer_size` of
-- core/display/src/lib.rs. A byte is a number below 256, `usize` has 64 bits, and a panic is `none`.
pub mod Update
pub mod Convert
use project_mycelium.Common.{
  ℕ, zero, suc, ◌+◌, ◌-◌, ◌*◌, ◌/◌, ◌%◌, Bool, ◌&&◌, not, ◌==◌, ltb, leb, List, [], ◌∷◌, ◌++◌,
  length, Option, none, some, if◌then◌else◌,
}
use project_mycelium.Common.Word.{u32_max, u64_max}
use project_mycelium.Common.Result.{Done, ok, err}
use project_mycelium.Common.Bytes.{slice, copy_from_slice}

pub data Rgb565ByteOrder : Type 0 where
  host_native st7789_wire : Rgb565ByteOrder

pub record Rect : Type 0 where
  pub x : ℕ
  pub y : ℕ
  pub width : ℕ
  pub height : ℕ

-- The texts of the `ensure!`s.
pub data UpdateError : Type 0 where
  empty_area x_overflow y_overflow outside size_overflow wrong_framebuffer : UpdateError
  area_overflow wrong_pixels : UpdateError

abbrev pub bytes_per_pixel : ℕ
bytes_per_pixel = 2

checked : ℕ → ℕ → Option ℕ
checked limit n = if leb n limit then some n else none

-- `(width as usize).checked_mul(height as usize)?.checked_mul(BYTES_PER_PIXEL)`.
unfoldable pub framebuffer_size : ℕ → ℕ → Option ℕ
unfolding checked
framebuffer_size width height = elim (checked u64_max (width * height)) [
  | none ↦ none
  | some pixels ↦ checked u64_max (pixels * bytes_per_pixel)
]

-- The loop over the rows, from `row` on with `n` rows to go.
unfoldable pub copy_rows : ℕ → ℕ → Rect → ℕ → List ℕ → List ℕ → Option (List ℕ)
copy_rows zero row area target_pitch pixels framebuffer = some framebuffer
copy_rows (suc n) row area target_pitch pixels framebuffer =
    let source_pitch = area.width * bytes_per_pixel in
    let source_start = row * source_pitch in
    let target_start = (area.y + row) * target_pitch + area.x * bytes_per_pixel in
    elim (slice pixels source_start source_pitch) [
      | none ↦ none
      | some bytes ↦ elim (copy_from_slice framebuffer target_start bytes) [
        | none ↦ none
        | some framebuffer' ↦ copy_rows n (suc row) area target_pitch pixels framebuffer'
      ]
    ]

-- The checks that come before the loop, in the order of the source.
unfoldable pub check_update : ℕ → ℕ → ℕ → ℕ → Rect → Option UpdateError
unfolding checked framebuffer_size
check_update framebuffer_len width height pixels_len area =
    if not (ltb 0 area.width && ltb 0 area.height)
    then some empty_area
    else elim (checked u32_max (area.x + area.width)) [
      | none ↦ some x_overflow
      | some right ↦ elim (checked u32_max (area.y + area.height)) [
        | none ↦ some y_overflow
        | some bottom ↦
            if not (leb right width && leb bottom height)
            then some outside
            else elim (framebuffer_size width height) [
              | none ↦ some size_overflow
              | some expected_framebuffer ↦
                  if not (framebuffer_len == expected_framebuffer)
                  then some wrong_framebuffer
                  else elim (framebuffer_size area.width area.height) [
                    | none ↦ some area_overflow
                    | some expected_pixels ↦
                        if pixels_len == expected_pixels then none else some wrong_pixels
                  ]
            ]
      ]
    ]

-- The buffer afterwards, and the result.
unfoldable pub update_rgb565 : List ℕ → ℕ → ℕ → List ℕ → Rect → Option (List ℕ × Done UpdateError)
update_rgb565 framebuffer width height pixels area =
    elim (check_update (length framebuffer) width height (length pixels) area) [
      | some e ↦ some (framebuffer, err e)
      | none ↦ elim (copy_rows area.height 0 area (width * bytes_per_pixel) pixels framebuffer) [
        | none ↦ none
        | some framebuffer' ↦ some (framebuffer', ok tt)
      ]
    ]

-- `u16::from_ne_bytes` and `to_ne_bytes` on a host that is little endian or not.
module _ (little_endian : Bool) where
  is_little : Rgb565ByteOrder → Bool
  is_little host_native = little_endian
  is_little st7789_wire = Bool.false

  unfoldable pub decode : Rgb565ByteOrder → ℕ → ℕ → ℕ
  unfolding is_little
  decode order first second = if is_little order then second * 256 + first else first * 256 + second

  unfoldable pub encode : Rgb565ByteOrder → ℕ → List ℕ
  unfolding is_little
  encode order value =
      if is_little order then value % 256 ∷ value / 256 ∷ [] else value / 256 ∷ value % 256 ∷ []

  -- The loop over `chunks_exact`; a last byte alone is not a chunk.
  unfoldable pub convert_chunks : Rgb565ByteOrder → Rgb565ByteOrder → List ℕ → List ℕ
  convert_chunks source target [] = []
  convert_chunks source target (a ∷ []) = []
  convert_chunks source target (a ∷ b ∷ bytes) =
      encode target (decode source a b) ++ convert_chunks source target bytes

  unfoldable pub convert_rgb565 : Rgb565ByteOrder → Rgb565ByteOrder → List ℕ → Option (List ℕ)
  convert_rgb565 source target pixels =
      if length pixels % bytes_per_pixel == 0
      then some (convert_chunks source target pixels)
      else none

  unfoldable pub host_rgb565_to_st7789_wire : List ℕ → Option (List ℕ)
  host_rgb565_to_st7789_wire pixels = convert_rgb565 host_native st7789_wire pixels

  unfoldable pub st7789_wire_to_host_rgb565 : List ℕ → Option (List ℕ)
  st7789_wire_to_host_rgb565 pixels = convert_rgb565 st7789_wire host_native pixels
