-- ===== src/Display/Framebuffer/Convert.antt =====
-- Converting between the byte orders and back.
use project_mycelium.Common.{
  ℕ, suc, ◌%◌, ◌<◌, ◌≡◌, refl, sym, if◌then◌else◌, Bool, true, false, List, [], ◌∷◌, ◌++◌, All,
  length, some, arith,
}
use project_mycelium.Display.Framebuffer.{
  Rgb565ByteOrder, host_native, st7789_wire, convert_chunks, convert_rgb565, decode, encode,
}

abbrev pub IsByte : ℕ → Type 0
IsByte b = b < 256

convert_pair :
    (little : Bool) (source target : Rgb565ByteOrder) (a b : ℕ) (rest : List ℕ)
    → IsByte a
    → IsByte b
    → convert_chunks little target source (encode little target (decode little source a b) ++ rest)
      ≡ a ∷ b ∷ convert_chunks little target source rest
unfolding convert_chunks decode encode
convert_pair true host_native host_native a b rest ha hb = ground arith
convert_pair true host_native st7789_wire a b rest ha hb = ground arith
convert_pair true st7789_wire host_native a b rest ha hb = ground arith
convert_pair true st7789_wire st7789_wire a b rest ha hb = ground arith
convert_pair false host_native host_native a b rest ha hb = ground arith
convert_pair false host_native st7789_wire a b rest ha hb = ground arith
convert_pair false st7789_wire host_native a b rest ha hb = ground arith
convert_pair false st7789_wire st7789_wire a b rest ha hb = ground arith

length-encode :
    (little : Bool) (order : Rgb565ByteOrder) (v : ℕ) (rest : List ℕ)
    → length (encode little order v ++ rest) ≡ suc (suc (length rest))
unfolding encode
length-encode true host_native v rest = refl
length-encode true st7789_wire v rest = refl
length-encode false host_native v rest = refl
length-encode false st7789_wire v rest = refl

pub length-convert_chunks :
    (little : Bool) (source target : Rgb565ByteOrder) (bytes : List ℕ)
    → length bytes % 2 ≡ 0
    → length (convert_chunks little source target bytes) ≡ length bytes
unfolding convert_chunks
length-convert_chunks little source target [] h = refl
length-convert_chunks little source target (a ∷ []) h = absurd (omega arith)
length-convert_chunks little source target (a ∷ b ∷ bytes) h =
    let ih = length-convert_chunks little source target bytes (omega arith) in
    omega (
      arith,
      ih,
      length-encode little target (decode little source a b)
          (convert_chunks little source target bytes),
    )

convert_back :
    (little : Bool) (source target : Rgb565ByteOrder) (bytes : List ℕ)
    → length bytes % 2 ≡ 0
    → All IsByte bytes
    → convert_chunks little target source (convert_chunks little source target bytes) ≡ bytes
unfolding convert_chunks
convert_back little source target [] h k = refl
convert_back little source target (a ∷ []) h k = absurd (omega arith)
convert_back little source target (a ∷ b ∷ bytes) h (ha, (hb, k)) =
    let ih = convert_back little source target bytes (omega arith) k in
    cc (ih, convert_pair little source target a b (convert_chunks little source target bytes) ha hb)

-- The bytes of each pixel exchanged.
abbrev pub swapped : List ℕ → List ℕ
swapped [] = []
swapped (a ∷ []) = a ∷ []
swapped (a ∷ b ∷ bytes) = b ∷ a ∷ swapped bytes

-- The wire is big-endian, and the host's own order is that of the host.
abbrev pub is_exchanged : Bool → Rgb565ByteOrder → Rgb565ByteOrder → Bool
is_exchanged little_endian host_native st7789_wire = little_endian
is_exchanged little_endian st7789_wire host_native = little_endian
is_exchanged little_endian _ _ = false

abbrev pub reordered : Bool → List ℕ → List ℕ
reordered exchanged bytes = if exchanged then swapped bytes else bytes

encode-decode :
    (little : Bool) (source target : Rgb565ByteOrder) (a b : ℕ) (rest : List ℕ)
    → IsByte a
    → IsByte b
    → encode little target (decode little source a b)
        ++ reordered (is_exchanged little source target) rest
      ≡ reordered (is_exchanged little source target) (a ∷ b ∷ rest)
unfolding decode encode
encode-decode true host_native host_native a b rest ha hb = ground arith
encode-decode true host_native st7789_wire a b rest ha hb = ground arith
encode-decode true st7789_wire host_native a b rest ha hb = ground arith
encode-decode true st7789_wire st7789_wire a b rest ha hb = ground arith
encode-decode false host_native host_native a b rest ha hb = ground arith
encode-decode false host_native st7789_wire a b rest ha hb = ground arith
encode-decode false st7789_wire host_native a b rest ha hb = ground arith
encode-decode false st7789_wire st7789_wire a b rest ha hb = ground arith

reordered-nil : (exchanged : Bool) → reordered exchanged [] ≡ []
reordered-nil true = refl
reordered-nil false = refl

convert_chunks-reordered :
    (little : Bool) (source target : Rgb565ByteOrder) (bytes : List ℕ)
    → length bytes % 2 ≡ 0
    → All IsByte bytes
    → convert_chunks little source target bytes
      ≡ reordered (is_exchanged little source target) bytes
unfolding convert_chunks
convert_chunks-reordered little source target [] h k = sym (reordered-nil _)
convert_chunks-reordered little source target (a ∷ []) h k = absurd (omega arith)
convert_chunks-reordered little source target (a ∷ b ∷ bytes) h (ha, (hb, k)) =
    let ih = convert_chunks-reordered little source target bytes (omega arith) k in
    cc (ih, encode-decode little source target a b bytes ha hb)

-- An even number of bytes converts: between the order of a little-endian host and that of the
-- panel's wire the two bytes of every pixel are exchanged, and otherwise nothing changes, on a
-- big-endian host in particular. Converting the result back gives the first bytes.
pub convert_rgb565_round_trip :
    (little_endian : Bool) (source target : Rgb565ByteOrder) (bytes : List ℕ)
    → All IsByte bytes
    → length bytes % 2 ≡ 0
    → (converted : List ℕ) × (convert_rgb565 little_endian source target bytes ≡ some converted)
      × (converted ≡ reordered (is_exchanged little_endian source target) bytes)
      × (length converted ≡ length bytes)
      × (convert_rgb565 little_endian target source converted ≡ some bytes)
unfolding convert_rgb565
convert_rgb565_round_trip little source target bytes h even =
    let len = length-convert_chunks little source target bytes even in
    (
      convert_chunks little source target bytes,
      ground arith,
      convert_chunks-reordered little source target bytes even h,
      len,
      ground (arith, len, convert_back little source target bytes even h),
    )
