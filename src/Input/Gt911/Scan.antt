-- ===== src/Input/Gt911/Scan.antt =====
-- What a firmware that polls the controller sees: contacts in the registers, and frames in time.
use project_mycelium.Common.{
  ℕ, zero, suc, ◌+◌, ◌-◌, ◌*◌, ◌/◌, ◌%◌, ◌≤◌, ◌<◌, ◌≡◌, refl, ◌∙◌, ap, List, [], ◌∷◌, get_elem?,
  get_elem?_past, Option, none, some, arith,
}
use project_mycelium.Common.Word.{u16_max}
use project_mycelium.Input.Gt911.{Gt911Point, Gt911Controller, pressed_points}
use project_mycelium.Input.Gt911.Registers.{
  gt911_product_id, gt911_product_id_register, gt911_status_register, point_byte, point_register,
  data_register, register_byte, read_window, i2c_read,
}

-- A contact as a driver reads it from the eight bytes of its registers.
abbrev pub decode_point : List ℕ → Option Gt911Point
decode_point (id ∷ x_lo ∷ x_hi ∷ y_lo ∷ y_hi ∷ size_lo ∷ size_hi ∷ reserved ∷ []) = some record {
  track_id = id;
  x = x_lo + 256 * x_hi;
  y = y_lo + 256 * y_hi;
  size = size_lo + 256 * size_hi;
}
decode_point _ = none

point_register_at :
    (c : Gt911Controller) (i b k : ℕ) (p : Gt911Point)
    → get_elem? (pressed_points c.touch_points) i ≡ some p
    → k ≡ 8 * i + b
    → b < 8
    → point_register c k ≡ point_byte p b
unfolding point_register
point_register_at c i b k p e at h =
    let place : k / 8 ≡ i = omega arith in
    let rest : k % 8 ≡ b = omega arith in ground (arith, place, rest, e)

register_byte_at :
    (c : Gt911Controller) (address offset : ℕ)
    → address ≡ gt911_status_register + 1 + offset
    → register_byte c address ≡ point_register c offset
unfolding register_byte data_register
register_byte_at c address offset e =
    let past =
      get_elem?_past gt911_product_id (address - gt911_product_id_register) (omega arith) in
    let index : address - (gt911_status_register + 1) ≡ offset = omega arith in
    ground (arith, past, index)

-- Byte `b` of the registers of contact `i`.
contact_byte :
    (c : Gt911Controller) (i b address : ℕ) (p : Gt911Point)
    → get_elem? (pressed_points c.touch_points) i ≡ some p
    → address ≡ gt911_status_register + 1 + 8 * i + b
    → b < 8
    → register_byte c address ≡ point_byte p b
contact_byte c i b address p e at h =
    register_byte_at c address (8 * i + b) (omega arith)
    ∙ point_register_at c i b (8 * i + b) p e refl h

-- One round of the loop, inside the address space.
read_window-step :
    (c : Gt911Controller) (register offset n byte : ℕ) (rest : List ℕ)
    → offset ≤ u16_max
    → register + offset ≤ u16_max
    → register_byte c (register + offset) ≡ byte
    → read_window c register (suc offset) n ≡ rest
    → read_window c register offset (suc n) ≡ byte ∷ rest
unfolding read_window
read_window-step c register offset n byte rest h inside here after =
    let word : offset % (u16_max + 1) ≡ offset = omega arith in ground (arith, word, here, after)

-- The bytes of a contact from the `k`-th on.
unfoldable point_bytes : Gt911Point → ℕ → ℕ → List ℕ
point_bytes p k zero = []
point_bytes p k (suc n) = point_byte p k ∷ point_bytes p (suc k) n

read_window-point_bytes :
    (c : Gt911Controller) (i k n : ℕ) (p : Gt911Point)
    → get_elem? (pressed_points c.touch_points) i ≡ some p
    → 8 * i + gt911_status_register + 8 ≤ u16_max
    → k + n ≡ 8
    → read_window c (gt911_status_register + 1 + 8 * i) k n ≡ point_bytes p k n
unfolding read_window point_bytes
read_window-point_bytes c i k zero p e room at = refl
read_window-point_bytes c i k (suc n) p e room at =
    let base = gt911_status_register + 1 + 8 * i in
    read_window-step c base k n (point_byte p k) (point_bytes p (suc k) n) (omega arith)
      (omega arith) (contact_byte c i k (base + k) p e (omega arith) (omega arith))
      (read_window-point_bytes c i (suc k) n p e room (omega arith))

decode-point_bytes : (p : Gt911Point) → decode_point (point_bytes p 0 8) ≡ some p
unfolding point_bytes point_byte
decode-point_bytes p =
    let low_high : (v : ℕ) → v % 256 + 256 * (v / 256) ≡ v = λ v. omega arith in
    grind (arith, low_high p.x, low_high p.y, low_high p.size)

-- Reading the eight registers of contact `i` and decoding them gives back the i-th pressed contact,
-- with its track id, position and size, for each contact that the registers have room for.
pub decode-contact_registers :
    (c : Gt911Controller) (i : ℕ) (p : Gt911Point)
    → get_elem? (pressed_points c.touch_points) i ≡ some p
    → 8 * i + gt911_status_register + 8 ≤ u16_max
    → decode_point ((i2c_read c (gt911_status_register + 1 + 8 * i) 8).1) ≡ some p
unfolding i2c_read
decode-contact_registers c i p e room =
    let bytes = read_window-point_bytes c i 0 8 p e room refl in
    let read : (i2c_read c (gt911_status_register + 1 + 8 * i) 8).1 ≡ point_bytes p 0 8 =
      ground (arith, bytes) in
    ap decode_point read ∙ decode-point_bytes p
