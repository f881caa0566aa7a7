-- ===== src/Display/Tests.antt =====
-- The display at concrete inputs.
use project_mycelium.Common.{
  ℕ, ◌≤◌, ◌≡◌, ◌↔◌, ◌⊎◌, refl, true, false, [], ◌∷◌, none, some, length, get_or, replicate, List,
  arith,
}
use project_mycelium.Common.Result.{ok}
use project_mycelium.Display.Framebuffer.{
  Rect, update_rgb565, host_native, st7789_wire, convert_rgb565, st7789_wire_to_host_rgb565,
}
use project_mycelium.Display.Framebuffer.Update.{IsUpdate, update_rgb565_pixels}
use project_mycelium.Display.Framebuffer.Convert.{convert_rgb565_round_trip}
use project_mycelium.Display.St7789.{St7789Controller, new}
use project_mycelium.Display.St7789.Write.{bit_set, map_orientation, write_pixels}
use project_mycelium.Display.St7789.Orientation.{map_orientation_swapped}
use project_mycelium.Display.St7789.Panel.{IsOnPanel}
use project_mycelium.Display.St7789.Fills.{write_pixels_fills}
use project_mycelium.Display.St7789.Valid.{IsValid}
use project_mycelium.Display.St7789.Calls.{resets, initializes, run, run-IsValid}

abbrev screen : List ℕ
screen = replicate 12 0

abbrev dot : Rect
dot = record { x = 1; y = 0; width = 2; height = 1 }

dot_fits : IsUpdate screen (1 ∷ 2 ∷ 3 ∷ 4 ∷ []) 3 2 dot
dot_fits = record {
  not_empty = (omega arith, omega arith);
  inside = (omega arith, omega arith);
  screen = (omega arith, omega arith, omega arith);
  lengths = (refl, refl);
}

update_rgb565_pixels_example :
    (after : List ℕ) × (update_rgb565 screen 3 2 (1 ∷ 2 ∷ 3 ∷ 4 ∷ []) dot ≡ some (after, ok tt))
    × (length after ≡ 12)
    × (get_or after 5 0 ≡ 4)
update_rgb565_pixels_example =
    update_rgb565_pixels screen (1 ∷ 2 ∷ 3 ∷ 4 ∷ []) 3 2 dot 0 5 dot_fits (omega arith)

convert_rgb565_round_trip_example :
    (converted : List ℕ) × (convert_rgb565 true host_native st7789_wire (0 ∷ 248 ∷ [])
      ≡ some converted)
    × (converted ≡ 248 ∷ 0 ∷ [])
    × (length converted ≡ 2)
    × (convert_rgb565 true st7789_wire host_native converted ≡ some (0 ∷ 248 ∷ []))
convert_rgb565_round_trip_example =
    convert_rgb565_round_trip true host_native st7789_wire (0 ∷ 248 ∷ [])
      (omega arith, (omega arith, tt)) refl

abbrev panel : St7789Controller
panel = record {
  width = 4;
  height = 3;
  gram = replicate 24 0;
  reset_high = true;
  reset_seen_low = true;
  initialized = true;
  inverted = true;
  madctl = 85;
  backlight = 0;
  column = (0, 1);
  row = (0, 0);
  ram_write_selected = true;
}

mirrors_only : bit_set 85 5 ≡ false
unfolding bit_set
mirrors_only = refl

swaps : bit_set 160 5 ≡ true
unfolding bit_set
swaps = refl

on_panel : IsOnPanel panel
on_panel = record {
  unswapped = mirrors_only;
  columns = (omega arith, omega arith);
  rows = (omega arith, omega arith);
  gram_length = refl;
}

-- MV and MY on a panel that is wider than high: the last column panics.
abbrev swapped_panel : St7789Controller
swapped_panel = record panel { madctl = 160 }

map_orientation_swapped_example :
    (map_orientation swapped_panel 3 0 ≡ none)
    ↔ (((bit_set 160 6 ≡ true) × (4 ≤ 0)) ⊎ ((bit_set 160 7 ≡ true) × (3 ≤ 3)))
map_orientation_swapped_example = map_orientation_swapped swapped_panel 3 0 swaps

write_pixels_fills_example :
    (host gram : List ℕ) × (st7789_wire_to_host_rgb565 true (248 ∷ 0 ∷ 7 ∷ 224 ∷ []) ≡ some host)
    × (write_pixels true (248 ∷ 0 ∷ 7 ∷ 224 ∷ []) none panel
        ≡ (none, record panel { gram = gram }, some (ok tt)))
    × (get_or gram 23 0 ≡ get_or host 1 0)
write_pixels_fills_example =
    write_pixels_fills true panel (248 ∷ 0 ∷ 7 ∷ 224 ∷ []) 3 2 1 on_panel refl refl refl refl
      (omega arith) (omega arith) (omega arith)

run-IsValid_example :
    IsValid
      (run true ((none, resets false) ∷ (none, resets true) ∷ (none, initializes) ∷ []) (new 4 3))
run-IsValid_example =
    run-IsValid true ((none, resets false) ∷ (none, resets true) ∷ (none, initializes) ∷ []) 4 3
      (omega arith) (omega arith) (omega arith) (omega arith)
