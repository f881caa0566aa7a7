-- ===== src/Display/St7789/Fills.antt =====
-- A whole transfer of pixels.
use project_mycelium.Common.{
  ℕ, suc, ◌+◌, ◌*◌, ◌%◌, ◌<◌, ◌≡◌, ◌∙◌, Bool, true, ◌==◌, Option, none, some, List, length, get_or,
  arith, if◌then◌else◌,
}
use native.Mathlib.Nat.{mul-le-mul_right}
use project_mycelium.Common.Result.{Done, ok}
use project_mycelium.Display.SharedSpi.{transaction}
use project_mycelium.Display.Framebuffer.{
  st7789_wire, host_native, convert_chunks, convert_rgb565, st7789_wire_to_host_rgb565,
}
use project_mycelium.Display.Framebuffer.Convert.{length-convert_chunks}
use project_mycelium.Display.St7789.{St7789Controller, St7789Error}
use project_mycelium.Display.St7789.Write.{apply_pixels, write_window, write_pixels}
use project_mycelium.Display.St7789.Panel.{
  IsOnPanel, window_width, window_height, in_window, number, write_window-shown,
}

number-lt : (w h a b : ℕ) → a < h → b < w → a * w + b < w * h
number-lt w h a b ha hb =
    let lines = mul-le-mul_right {m = suc a} {n = h} w ha in omega (arith, lines)

converted-some :
    (little : Bool) (wire : List ℕ)
    → length wire % 2 ≡ 0
    → st7789_wire_to_host_rgb565 little wire
      ≡ some (convert_chunks little st7789_wire host_native wire)
unfolding st7789_wire_to_host_rgb565 convert_rgb565
converted-some little wire even = ground arith

apply_pixels_accepted :
    (little : Bool) (c : St7789Controller) (wire pixels : List ℕ)
    → c.reset_high ≡ true
    → c.initialized ≡ true
    → c.ram_write_selected ≡ true
    → st7789_wire_to_host_rgb565 little wire ≡ some pixels
    → (length pixels == (window_width c * window_height c * 2)) ≡ true
    → apply_pixels little wire c ≡ write_window (window_width c * window_height c) 0 pixels c
unfolding apply_pixels
apply_pixels_accepted little c wire pixels high init selected converted sized =
    ground (arith, converted)

-- On a free bus the transfer runs, and the bus is free again.
write_pixels_free :
    (little : Bool) (c : St7789Controller) (wire : List ℕ) (after : St7789Controller)
    (r : Option (Done St7789Error))
    → apply_pixels little wire c ≡ (after, r)
    → write_pixels little wire none c ≡ (none, after, r)
unfolding write_pixels transaction
write_pixels_free little c wire after r e = cc e

-- A transfer that fills the address window, to an initialized panel out of reset whose RAM write is
-- selected, on a free bus and without MV: it succeeds, frees the bus, and changes nothing but the
-- panel memory. There each pixel whose address (mirrored as MADCTL says) lies in the window has the
-- bytes that stand at the address's place in the window, in host order, and each other pixel is as
-- it was.
pub write_pixels_fills :
    (little_endian : Bool) (c : St7789Controller) (wire : List ℕ) (x y b : ℕ)
    → IsOnPanel c
    → c.reset_high ≡ true
    → c.initialized ≡ true
    → c.ram_write_selected ≡ true
    → length wire ≡ window_width c * window_height c * 2
    → x < c.width
    → y < c.height
    → b < 2
    → (pixels gram : List ℕ) × (st7789_wire_to_host_rgb565 little_endian wire ≡ some pixels)
      × (write_pixels little_endian wire none c ≡ (none, record c { gram = gram }, some (ok tt)))
      × (get_or gram ((y * c.width + x) * 2 + b) 0 ≡ (
          if in_window c x y
          then get_or pixels (number c x y * 2 + b) 0
          else get_or c.gram ((y * c.width + x) * 2 + b) 0))
write_pixels_fills little c wire x y b panel high init selected len hx hy hb =
    let even : length wire % 2 ≡ 0 = omega arith in
    let pixels = convert_chunks little st7789_wire host_native wire in
    let same = length-convert_chunks little st7789_wire host_native wire even in
    let converted = converted-some little wire even in
    let (gram, e, _, shown) =
      write_window-shown (window_width c * window_height c) 0 pixels c panel (omega arith)
        (same ∙ len) in
    let bound : in_window c x y ≡ true → number c x y < window_width c * window_height c =
      λ inside. number-lt (window_width c) (window_height c) _ _ (ground arith) (ground arith) in
    let sized : (length pixels == (window_width c * window_height c * 2)) ≡ true =
      ground (arith, same) in
    (
      pixels,
      gram,
      converted,
      write_pixels_free little c wire _ _
          (apply_pixels_accepted little c wire pixels high init selected converted sized ∙ e),
      shown x y b hx hy hb ∙ ground (arith, bound),
    )
