-- ===== src/Display/St7789/Calls.antt =====
-- Any sequence of calls of the driver.
use project_mycelium.Common.{
  ℕ, ◌+◌, ◌*◌, ◌/◌, ◌%◌, ◌≤◌, ◌<◌, ◌≡◌, inl, inr, Bool, true, not, Option, Option-cases,
  option_both, if_both, if_known, ◌∙◌, zero, suc, leb, ◌||◌, ◌==◌, some, none, List, [], ◌∷◌,
  length, arith,
}
use project_mycelium.Common.Bytes.{slice, length-copy_from_slice}
use project_mycelium.Common.Word.{u16_max}
use project_mycelium.Common.Result.{Done}
use project_mycelium.Display.SharedSpi.{SpiDevice, transaction}
use project_mycelium.Display.St7789.{
  St7789Controller, St7789Error, new, set_reset, set_backlight, apply_command,
}
use project_mycelium.Display.St7789.Write.{
  Outcome, window_len, map_orientation, write_window, write_pixel, apply_pixels, write_command,
  write_pixels, initialize_t_deck,
}
use project_mycelium.Display.Framebuffer.{st7789_wire_to_host_rgb565}
use project_mycelium.Display.St7789.Valid.{
  IsValid, new-IsValid, set_reset-IsValid, apply_command-IsValid,
}

gram-IsValid :
    (c : St7789Controller) (gram : List ℕ)
    → length gram ≡ length c.gram
    → IsValid c
    → IsValid (record c { gram = gram })
gram-IsValid c gram same h = record {
  words = h.words;
  gram_length = same ∙ h.gram_length;
  columns = h.columns;
  rows = h.rows;
  started = h.started;
}

length-write_pixel :
    (gram : List ℕ) (width x y : ℕ) (pixels : List ℕ) (index : ℕ) (after : List ℕ)
    → write_pixel gram width x y pixels index ≡ some after
    → length after ≡ length gram
unfolding write_pixel
length-write_pixel gram width x y pixels index after e =
    elim (Option-cases (slice pixels (index * 2) 2)) [
      | inl bad ↦ absurd (ground (arith, bad, e))
      | inr (bytes, good) ↦
          length-copy_from_slice gram ((y * width + x) * 2) bytes after (ground (arith, good, e))
    ]

-- The controller of an outcome is valid.
record LeavesValid (r : Outcome) : Type 0 where
  left_valid : IsValid r.0

write_window-LeavesValid :
    (n index : ℕ) (pixels : List ℕ) (c : St7789Controller)
    → IsValid c
    → LeavesValid (write_window n index pixels c)
unfolding write_window
write_window-LeavesValid zero index pixels c h = record { left_valid = h }
write_window-LeavesValid (suc n) index pixels c h =
    let stop : (r : Option (Done St7789Error)) → LeavesValid (c, r) =
      λ r. record { left_valid = h } in
    let place =
      map_orientation c (c.column.0 + index % window_len c.column)
        (c.row.0 + index / window_len c.column) in
    option_both LeavesValid place (stop _) λ (x, y) _.
      if_both LeavesValid (leb c.width x || leb c.height y) (stop _) (
        option_both LeavesValid (write_pixel c.gram c.width x y pixels index) (stop _) λ gram e.
          write_window-LeavesValid n (suc index) pixels (record c { gram = gram })
            (gram-IsValid c gram (length-write_pixel c.gram c.width x y pixels index gram e) h))

apply_pixels-LeavesValid :
    (little : Bool) (bytes : List ℕ) (c : St7789Controller)
    → IsValid c
    → LeavesValid (apply_pixels little bytes c)
unfolding apply_pixels
apply_pixels-LeavesValid little bytes c h =
    let stop : (r : Option (Done St7789Error)) → LeavesValid (c, r) =
      λ r. record { left_valid = h } in
    if_both LeavesValid (not c.reset_high) (stop _) (
      if_both LeavesValid (not c.initialized) (stop _) (
        if_both LeavesValid (not c.ram_write_selected) (stop _) (
          option_both LeavesValid (st7789_wire_to_host_rgb565 little bytes) (stop _) λ pixels _.
            let pixel_count = window_len c.column * window_len c.row in
            if_both LeavesValid (length pixels == pixel_count * 2)
              (write_window-LeavesValid pixel_count 0 pixels c h) (stop _))))

-- What a call of the driver does.
pub data Call : Type 0 where
  resets : Bool → Call
  dims : ℕ → Call
  commands : ℕ → List ℕ → Call
  pixels : List ℕ → Call
  initializes : Call

-- The controller after a call, which finds the shared bus with `owner`.
unfoldable pub step : Bool → Call → Option SpiDevice → St7789Controller → St7789Controller
step little (resets high) owner c = set_reset c high
step little (dims duty) owner c = set_backlight c duty
step little (commands command bytes) owner c = (write_command command bytes owner c).1
step little (pixels bytes) owner c = (write_pixels little bytes owner c).1
step little initializes owner c = (initialize_t_deck owner c).1

unfoldable pub run : Bool → List (Option SpiDevice × Call) → St7789Controller → St7789Controller
run little [] c = c
run little ((owner, call) ∷ calls) c = run little calls (step little call owner c)

write_command-IsValid :
    (command : ℕ) (bytes : List ℕ) (owner : Option SpiDevice) (c : St7789Controller)
    → IsValid c
    → IsValid (write_command command bytes owner c).1
unfolding write_command transaction
write_command-IsValid command bytes none c h = apply_command-IsValid command bytes c h
write_command-IsValid command bytes (some d) c h = h

write_pixels-IsValid :
    (little : Bool) (bytes : List ℕ) (owner : Option SpiDevice) (c : St7789Controller)
    → IsValid c
    → IsValid (write_pixels little bytes owner c).1
unfolding write_pixels transaction
write_pixels-IsValid little bytes none c h = (apply_pixels-LeavesValid little bytes c h).left_valid
write_pixels-IsValid little bytes (some d) c h = h

-- The same of a call's result.
record KeepsValid (r : Option SpiDevice × St7789Controller × Option (Done St7789Error))
    : Type 0 where
  kept_valid : IsValid r.1

initialize-KeepsValid :
    (owner : Option SpiDevice) (c : St7789Controller)
    → IsValid c
    → KeepsValid (initialize_t_deck owner c)
unfolding initialize_t_deck write_command transaction apply_command
initialize-KeepsValid (some d) c h =
    if_both KeepsValid (not c.reset_high) (record { kept_valid = h })
      (if_both KeepsValid (not c.reset_seen_low) (record { kept_valid = h })
        (record { kept_valid = h }))
initialize-KeepsValid none c h =
    if_known KeepsValid (not c.reset_high) (λ _. record { kept_valid = h })
      λ not_high.
        if_known KeepsValid (not c.reset_seen_low) (λ _. record { kept_valid = h })
          λ not_low.
            let high : c.reset_high ≡ true = ground arith in
            let low : c.reset_seen_low ≡ true = ground arith in
            record {
              kept_valid = record {
                words = h.words;
                gram_length = h.gram_length;
                columns = h.columns;
                rows = h.rows;
                started = inr (high, low);
              };
            }

step-IsValid :
    (little : Bool) (call : Call) (owner : Option SpiDevice) (c : St7789Controller)
    → IsValid c
    → IsValid (step little call owner c)
unfolding step set_backlight
step-IsValid little (resets high) owner c h = set_reset-IsValid c high h
step-IsValid little (dims duty) owner c h = record {
  words = h.words;
  gram_length = h.gram_length;
  columns = h.columns;
  rows = h.rows;
  started = h.started;
}
step-IsValid little (commands command bytes) owner c h =
    write_command-IsValid command bytes owner c h
step-IsValid little (pixels bytes) owner c h = write_pixels-IsValid little bytes owner c h
step-IsValid little initializes owner c h = (initialize-KeepsValid owner c h).kept_valid

run-kept :
    (little : Bool) (calls : List (Option SpiDevice × Call)) (c : St7789Controller)
    → IsValid c
    → IsValid (run little calls c)
unfolding run
run-kept little [] c h = h
run-kept little ((owner, call) ∷ calls) c h =
    run-kept little calls (step little call owner c) (step-IsValid little call owner c h)

-- A controller of a panel that is not empty stays well-formed through any sequence of calls,
-- whoever owns the bus at each of them: the memory keeps its size, both address windows stay on
-- the panel, and it is initialized only out of reset and after a reset.
pub run-IsValid :
    (little_endian : Bool) (calls : List (Option SpiDevice × Call)) (width height : ℕ)
    → 0 < width
    → 0 < height
    → width ≤ u16_max
    → height ≤ u16_max
    → IsValid (run little_endian calls (new width height))
run-IsValid little calls width height w h ww hh =
    run-kept little calls (new width height) (new-IsValid width height w h ww hh)
