-- ===== src/Input/WireShim/Contacts.antt =====
-- What a firmware's touch driver reads through the bus of core/input/src/wire_shim.rs: it selects a
-- register, asks for bytes and reads them, as `Wire` programs do.
use project_mycelium.Common.{
  ℕ, zero, suc, ◌+◌, ◌*◌, ◌/◌, ◌%◌, ◌≤◌, ◌<◌, ◌≡◌, refl, sym, ◌∙◌, ap, ap₂, length-append, true,
  false, ◌==◌, List, [], ◌∷◌, ◌++◌, length, get_elem?, Option, none, some, arith, ==_iff, if_known,
  if◌then◌else◌,
}
use mathlib.Core.List.{append_assoc}
use project_mycelium.Common.Word.{u16_max}
use project_mycelium.Input.Gt911.{Gt911Controller, Gt911Point, pressed_points}
use project_mycelium.Input.Gt911.Registers.{i2c_read, gt911_status_register}
use project_mycelium.Input.Gt911.Scan.{decode_point, decode-contact_registers}
use project_mycelium.Input.WireShim.{
  WireShim, gt911_i2c_address, begin_transmission, write_byte, end_transmission, write_gt911,
  deliver, request_from, request_gt911, read, bus_ready, clear_read_buffer,
}

-- `n` reads; it ends at a read that answers -1.
unfoldable pub read_bytes : WireShim → ℕ → WireShim × List ℕ
read_bytes w zero = (w, [])
read_bytes w (suc n) =
    let (w', byte) = read w true in
    let (w'', rest) = read_bytes w' n in elim byte [ none ↦ (w', []) | some b ↦ (w'', b ∷ rest) ]

-- The driver's transaction: the register's two bytes, then as many bytes as the bus promises.
unfoldable pub select_register : WireShim → ℕ → WireShim × ℕ
select_register w register =
    let w1 = begin_transmission w gt911_i2c_address in
    let w2 = (write_byte w1 true (register / 256)).0 in
    let w3 = (write_byte w2 true (register % 256)).0 in end_transmission w3 true

unfoldable pub read_registers : WireShim → ℕ → ℕ → WireShim × List ℕ
read_registers w register count =
    let (selected, code) = select_register w register in
    let (requested, n) = request_from selected true gt911_i2c_address count in
    read_bytes requested n

-- The bus has begun, is free and runs at a clock that the devices know.
abbrev pub IsReady : WireShim → Type 0
IsReady w = bus_ready w true ≡ true

select_register_lem :
    (w : WireShim) (register : ℕ)
    → IsReady w
    → select_register w register
      ≡ (record w { transmit_address = none; transmit_buffer = []; gt911_register = register }, 0)
unfolding select_register begin_transmission write_byte end_transmission deliver write_gt911
    bus_ready
select_register_lem w register ready =
    let whole : register / 256 * 256 + register % 256 ≡ register = omega arith in
    ground (arith, ready, whole)

request_gt911-some :
    (w : WireShim) (count : ℕ) (gt911 : Gt911Controller) (bytes : List ℕ)
    → IsReady w
    → 0 < count
    → count ≤ 128
    → (i2c_read w.gt911 w.gt911_register count).0 ≡ gt911
    → (i2c_read w.gt911 w.gt911_register count).1 ≡ bytes
    → length bytes ≡ count
    → request_from w true gt911_i2c_address count
      ≡ (record w { gt911 = gt911; read_buffer = bytes; read_position = 0 }, count)
unfolding request_from request_gt911 clear_read_buffer bus_ready
request_gt911-some w count gt911 bytes ready low high after e full =
    ground (arith, ready, after, e, full)

-- Reading from a place on gives the bytes from that place on.
get_elem?-length :
    (before : List ℕ) (b : ℕ) (bytes : List ℕ)
    → get_elem? (before ++ b ∷ bytes) (length before) ≡ some b
get_elem?-length [] b bytes = refl
get_elem?-length (x ∷ before) b bytes = get_elem?-length before b bytes

read-next :
    (w : WireShim) (before : List ℕ) (b : ℕ) (bytes : List ℕ)
    → w.read_buffer ≡ before ++ b ∷ bytes
    → w.read_position ≡ length before
    → read w true ≡ (record w { read_position = suc w.read_position }, some b)
unfolding read
read-next w before b bytes e at =
    let here = get_elem?-length before b bytes in
    let found : get_elem? w.read_buffer w.read_position ≡ some b = ap₂ get_elem? e at ∙ here in
    ground (arith, found)

read_bytes-rest :
    (bytes : List ℕ) (w : WireShim) (before : List ℕ)
    → w.read_buffer ≡ before ++ bytes
    → w.read_position ≡ length before
    → (read_bytes w (length bytes)).1 ≡ bytes
unfolding read_bytes
read_bytes-rest [] w before e at = refl
read_bytes-rest (b ∷ bytes) w before e at =
    let next : WireShim = record w { read_position = suc w.read_position } in
    let got = read-next w before b bytes e at in
    let shifted = e ∙ sym (append_assoc before (b ∷ []) bytes) in
    let counted = length-append before (b ∷ []) in
    let rest = read_bytes-rest bytes next (before ++ b ∷ []) shifted (omega (arith, at, counted)) in
    let joined : WireShim × Option ℕ → WireShim × List ℕ = λ r.
      let more = read_bytes (r.0) (length bytes) in
      elim (r.1) [ none ↦ (r.0, []) | some c ↦ (more.0, c ∷ more.1) ] in
    ap (λ r. (joined r).1) got ∙ ap (λ bs. b ∷ bs) rest

request_gt911-none :
    (w : WireShim) (count : ℕ) (gt911 : Gt911Controller)
    → IsReady w
    → 0 < count
    → count ≤ 128
    → (i2c_read w.gt911 w.gt911_register count).0 ≡ gt911
    → (length ((i2c_read w.gt911 w.gt911_register count).1) == count) ≡ false
    → request_from w true gt911_i2c_address count
      ≡ (record w { gt911 = gt911; read_buffer = []; read_position = 0 }, 0)
unfolding request_from request_gt911 clear_read_buffer bus_ready
request_gt911-none w count gt911 ready low high after short = ground (arith, ready, after, short)

decode_point-length :
    (bytes : List ℕ) (p : Gt911Point) → decode_point bytes ≡ some p → length bytes ≡ 8
decode_point-length [] q e = cc
decode_point-length (a ∷ []) q e = cc
decode_point-length (a ∷ b ∷ []) q e = cc
decode_point-length (a ∷ b ∷ c ∷ []) q e = cc
decode_point-length (a ∷ b ∷ c ∷ d ∷ []) q e = cc
decode_point-length (a ∷ b ∷ c ∷ d ∷ e0 ∷ []) q e = cc
decode_point-length (a ∷ b ∷ c ∷ d ∷ e0 ∷ f ∷ []) q e = cc
decode_point-length (a ∷ b ∷ c ∷ d ∷ e0 ∷ f ∷ g ∷ []) q e = cc
decode_point-length (a ∷ b ∷ c ∷ d ∷ f ∷ g ∷ h ∷ i ∷ []) q e = refl
decode_point-length (a ∷ b ∷ c ∷ d ∷ f ∷ g ∷ h ∷ i ∷ j ∷ rest) q e = cc

-- What the driver reads once its register is selected.
read_selected :
    (w : WireShim) (count : ℕ)
    → IsReady w
    → 0 < count
    → count ≤ 128
    → let requested = request_from w true gt911_i2c_address count in
      (read_bytes (requested.0) (requested.1)).1 ≡ (
        let bytes = (i2c_read w.gt911 w.gt911_register count).1 in
        if length bytes == count then bytes else [])
read_selected w count ready low high =
    let (after, bytes) = i2c_read w.gt911 w.gt911_register count in
    let filled : WireShim = record w { gt911 = after; read_buffer = bytes; read_position = 0 } in
    let read_all : WireShim × ℕ → List ℕ = λ r. (read_bytes (r.0) (r.1)).1 in
    if_known (λ answer. read_all (request_from w true gt911_i2c_address count) ≡ answer)
      (length bytes == count)
      (λ full.
        let size : length bytes ≡ count = (==_iff (length bytes) count).0 full in
        ap read_all (request_gt911-some w count after bytes ready low high refl refl size)
        ∙ ap (λ n. (read_bytes filled n).1) (sym size)
        ∙ read_bytes-rest bytes filled [] refl refl)
      (λ short.
        ap read_all (request_gt911-none w count after ready low high refl short)
        ∙ read_bytes-rest [] (record w { gt911 = after; read_buffer = []; read_position = 0 }) []
            refl refl)

selected-IsReady :
    (w : WireShim) (register : ℕ)
    → IsReady w
    → IsReady
        (record w { transmit_address = none; transmit_buffer = []; gt911_register = register })
unfolding bus_ready
selected-IsReady w register ready = ready

-- Through a bus that is powered, begun, free and at a known clock, a driver that selects a register
-- and asks for up to 128 bytes reads what the controller's registers hold from there on, unless the
-- controller fails the read or the registers end before; then it reads nothing.
pub read_registers_lem :
    (w : WireShim) (register count : ℕ)
    → IsReady w
    → 0 < count
    → count ≤ 128
    → (read_registers w register count).1 ≡ (
        let bytes = (i2c_read w.gt911 register count).1 in
        if length bytes == count then bytes else [])
unfolding read_registers
read_registers_lem w register count ready low high =
    let selected : WireShim = record w {
      transmit_address = none;
      transmit_buffer = [];
      gt911_register = register;
    } in
    let and_read : WireShim × ℕ → List ℕ = λ s.
      let requested = request_from (s.0) true gt911_i2c_address count in
      (read_bytes (requested.0) (requested.1)).1 in
    ap and_read (select_register_lem w register ready)
    ∙ read_selected selected count (selected-IsReady w register ready) low high

-- A driver that reads the eight registers of contact `i` through the bus, which is powered, begun,
-- free and at a known clock, and decodes them gets the i-th pressed contact, with its track id,
-- position and size, for each contact that the registers have room for.
pub read_contact :
    (w : WireShim) (i : ℕ) (p : Gt911Point)
    → IsReady w
    → get_elem? (pressed_points w.gt911.touch_points) i ≡ some p
    → 8 * i + gt911_status_register + 8 ≤ u16_max
    → decode_point ((read_registers w (gt911_status_register + 1 + 8 * i) 8).1) ≡ some p
read_contact w i p ready e room =
    let register = gt911_status_register + 1 + 8 * i in
    let bytes = (i2c_read w.gt911 register 8).1 in
    let decoded = decode-contact_registers w.gt911 i p e room in
    let eight : length bytes ≡ 8 = decode_point-length bytes p decoded in
    ap decode_point (read_registers_lem w register 8 ready (omega arith) (omega arith))
    ∙ ap (λ full. decode_point (if full then bytes else [])) ((==_iff (length bytes) 8).1 eight)
    ∙ decoded
