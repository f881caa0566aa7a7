-- ===== src/Display/St7789/Write.antt =====
-- Commands and pixels on the wire: `write_command`, `write_pixels`, `initialize_t_deck`,
-- `apply_pixels` and `map_orientation` of core/display/src/st7789.rs.
use project_mycelium.Common.{
  ℕ, zero, suc, ◌+◌, ◌-◌, ◌*◌, ◌/◌, ◌%◌, ◌^◌, Bool, true, not, ◌||◌, ◌==◌, ltb, leb, List, [], ◌∷◌,
  length, Option, none, some, if◌then◌else◌,
}
use project_mycelium.Common.Result.{Result, Done, ok, err}
use project_mycelium.Common.Bytes.{slice, copy_from_slice}
use project_mycelium.Display.SharedSpi.{SpiDevice, display, SpiError, transaction}
use project_mycelium.Display.Framebuffer.{st7789_wire_to_host_rgb565}
use project_mycelium.Display.St7789.{
  St7789Controller, St7789Error, apply_command, t_deck_madctl, st7789_madctl, st7789_invon,
}

-- `value & (1 << bit) != 0`.
unfoldable pub bit_set : ℕ → ℕ → Bool
bit_set value bit = value / 2 ^ bit % 2 == 1

-- `limit - 1 - v` on `u16`.
unfoldable pub mirror : ℕ → ℕ → Option ℕ
mirror limit v = if ltb v limit then some (limit - 1 - v) else none

abbrev pub both : Option ℕ → Option ℕ → Option (ℕ × ℕ)
both (some x) (some y) = some (x, y)
both (some x) none = none
both none y = none

unfoldable pub map_orientation : St7789Controller → ℕ → ℕ → Option (ℕ × ℕ)
map_orientation c x y =
    if c.madctl == t_deck_madctl
    then both (mirror c.width x) (mirror c.height y)
    else let swap = bit_set c.madctl 5 in
      let x' = if swap then y else x in
      let y' = if swap then x else y in
      both (if bit_set c.madctl 6 then mirror c.width x' else some x')
        (if bit_set c.madctl 7 then mirror c.height y' else some y')

-- The length of an address window.
abbrev pub window_len : ℕ × ℕ → ℕ
window_len (start, end) = end - start + 1

-- What a transfer leaves: the controller, and a result unless it panicked.
abbrev pub Outcome : Type 0
Outcome = St7789Controller × Option (Done St7789Error)

-- Pixel `index` of the window: `x` and `y` are those that `map_orientation` gives.
unfoldable pub write_pixel : List ℕ → ℕ → ℕ → ℕ → List ℕ → ℕ → Option (List ℕ)
write_pixel gram width x y pixels index = elim (slice pixels (index * 2) 2) [
  | none ↦ none
  | some bytes ↦ copy_from_slice gram ((y * width + x) * 2) bytes
]

-- The loop over the pixels of the window, from `index` on with `n` to go.
unfoldable pub write_window : ℕ → ℕ → List ℕ → St7789Controller → Outcome
write_window zero index pixels c = (c, some (ok tt))
write_window (suc n) index pixels c =
    let window_width = window_len c.column in
    elim (map_orientation c (c.column.0 + index % window_width) (c.row.0 + index / window_width)) [
      | none ↦ (c, none)
      | some (x, y) ↦
          if leb c.width x || leb c.height y
          then (c, some (err St7789Error.outside_gram))
          else elim (write_pixel c.gram c.width x y pixels index) [
            | none ↦ (c, none)
            | some gram ↦ write_window n (suc index) pixels (record c { gram = gram })
          ]
    ]

module _ (little_endian : Bool) where
  unfoldable pub apply_pixels : List ℕ → St7789Controller → Outcome
  apply_pixels wire_bytes c =
      if not c.reset_high
      then (c, some (err St7789Error.held_in_reset))
      else if not c.initialized
      then (c, some (err St7789Error.not_initialized))
      else if not c.ram_write_selected
      then (c, some (err St7789Error.not_selected))
      else elim (st7789_wire_to_host_rgb565 little_endian wire_bytes) [
        | none ↦ (c, some (err St7789Error.odd_byte_count))
        | some pixels ↦
            let pixel_count = window_len c.column * window_len c.row in
            if length pixels == pixel_count * 2
            then write_window pixel_count 0 pixels c
            else (c, some (err St7789Error.wrong_fill))
      ]

-- `transaction(..)?`: a refused transaction, or what the transfer returned.
abbrev pub flatten : Result SpiError (Option (Done St7789Error)) → Option (Done St7789Error)
flatten (ok r) = r
flatten (err e) = some (err (St7789Error.bus_error e))

unfoldable pub write_command :
    ℕ
    → List ℕ
    → Option SpiDevice
    → St7789Controller
    → Option SpiDevice × St7789Controller × Option (Done St7789Error)
write_command command data' owner c =
    let (owner', c', r) =
      transaction display
        (λ held s. let (s', r) = apply_command command data' s in (held, s', some r)) owner c in
    (owner', c', flatten r)

unfoldable pub write_pixels :
    Bool
    → List ℕ
    → Option SpiDevice
    → St7789Controller
    → Option SpiDevice × St7789Controller × Option (Done St7789Error)
write_pixels little_endian wire_bytes owner c =
    let (owner', c', r) =
      transaction display
        (λ held s. let (s', r) = apply_pixels little_endian wire_bytes s in (held, s', r)) owner
        c in
    (owner', c', flatten r)

-- The two commands of the board's start, and the flag if both were accepted.
unfoldable pub initialize_t_deck :
    Option SpiDevice
    → St7789Controller
    → Option SpiDevice × St7789Controller × Option (Done St7789Error)
initialize_t_deck owner c =
    if not c.reset_high
    then (owner, c, some (err St7789Error.held_in_reset))
    else if not c.reset_seen_low
    then (owner, c, some (err St7789Error.no_reset_sequence))
    else let (owner1, c1, r1) = write_command st7789_madctl (t_deck_madctl ∷ []) owner c in
      elim r1 [
        | some (ok _) ↦
            let (owner2, c2, r2) = write_command st7789_invon [] owner1 c1 in
            elim r2 [
              | some (ok _) ↦ (owner2, record c2 { initialized = true }, some (ok tt))
              | failed ↦ (owner2, c2, failed)
            ]
        | failed ↦ (owner1, c1, failed)
      ]
