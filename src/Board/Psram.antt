-- ===== src/Board/Psram.antt =====
-- The external RAM of a board, core/board/src/lib.rs: its reservations and the readback test.
use project_mycelium.Common.{
  ℕ, zero, suc, ◌+◌, ◌-◌, ◌*◌, ◌/◌, ◌%◌, ◌≤◌, ◌≡◌, refl, ◌∙◌, ap, subst, min, Bool, true, false,
  not, ◌&&◌, ◌||◌, ltb, ◌==◌, List, [], ◌∷◌, ◌++◌, length, length-append, length-replicate, take,
  drop, replicate, Option, none, some, arith, if◌then◌else◌,
}
use project_mycelium.Common.Word.{u32_max, sat_add32}
use project_mycelium.Common.Bytes.{
  slice, copy_from_slice, overwrite, length-overwrite, length-take, length-drop,
  copy_from_slice-some, slice-take, take-drop-overwrite, overwrite-overwrite,
}
use project_mycelium.Board.State.{VirtualBoard}

module _ {F : Type 0} where
  unfoldable pub psram_used_bytes : VirtualBoard F → ℕ
  psram_used_bytes b = min b.psram_used_bytes b.psram_size_bytes

  unfoldable pub psram_free_bytes : VirtualBoard F → ℕ
  psram_free_bytes b = b.psram_size_bytes - psram_used_bytes b

  unfoldable pub set_psram_size : VirtualBoard F → ℕ → VirtualBoard F × Bool
  set_psram_size b size_bytes =
      if ltb size_bytes b.psram_used_bytes
      then (b, false)
      else (record b { psram_size_bytes = size_bytes }, true)

  unfoldable pub reserve_psram : VirtualBoard F → ℕ → VirtualBoard F × Bool
  reserve_psram b bytes =
      if ltb (psram_free_bytes b) bytes
      then (b, false)
      else (record b { psram_used_bytes = sat_add32 b.psram_used_bytes bytes }, true)

  unfoldable pub release_psram : VirtualBoard F → ℕ → VirtualBoard F
  release_psram b bytes = record b { psram_used_bytes = b.psram_used_bytes - bytes }

-- The exclusive or of the lowest `n` bits.
unfoldable pub xor_bits : ℕ → ℕ → ℕ → ℕ
xor_bits zero a b = 0
xor_bits (suc n) a b = (a % 2 + b % 2) % 2 + 2 * xor_bits n (a / 2) (b / 2)

-- `0xA5 ^ (index as u8).wrapping_mul(0x3D)`.
unfoldable pub pattern_byte : ℕ → ℕ
pattern_byte index = xor_bits 8 0xa5 (index % 256 * 0x3d % 256)

-- The pattern from `index` on, `n` bytes long.
unfoldable pub pattern_from : ℕ → ℕ → List ℕ
pattern_from index zero = []
pattern_from index (suc n) = pattern_byte index ∷ pattern_from (suc index) n

-- Each byte is that of the pattern.
unfoldable pub verify_from : ℕ → List ℕ → Bool
verify_from index [] = true
verify_from index (byte ∷ bytes) = byte == pattern_byte index && verify_from (suc index) bytes

-- `if region.len() < end { region.resize(end, 0) }`.
unfoldable pub grown : List ℕ → ℕ → List ℕ
grown region end =
    if ltb (length region) end then region ++ replicate (end - length region) 0 else region

-- Writing the pattern, verifying it and restoring the bytes before: the bytes that the region ends
-- with and the answer. An index out of range panics, which is `none`.
unfoldable pub readback : List ℕ → ℕ → ℕ → Option (List ℕ × Bool)
readback region start len = elim (slice region start len) [
  | none ↦ none
  | some previous ↦ elim (copy_from_slice region start (pattern_from 0 len)) [
    | none ↦ none
    | some written ↦ elim (slice written start len) [
      | none ↦ none
      | some bytes ↦ elim (copy_from_slice written start previous) [
        | none ↦ none
        | some restored ↦ some (restored, verify_from 0 bytes)
      ]
    ]
  ]
]

module _ {F : Type 0} where
  unfoldable pub psram_readback_test : VirtualBoard F → Option (VirtualBoard F × Bool)
  psram_readback_test b =
      let test_bytes = min (psram_free_bytes b) 64 in
      let (reserved, done) = reserve_psram b test_bytes in
      if test_bytes == 0 || not done
      then some (b, false)
      else let start = reserved.psram_used_bytes - test_bytes in
        elim (readback (grown reserved.psram_region (start + test_bytes)) start test_bytes) [
          | none ↦ none
          | some (region, verified) ↦
              some (release_psram (record reserved { psram_region = region }) test_bytes, verified)
        ]

length-pattern_from : (index n : ℕ) → length (pattern_from index n) ≡ n
unfolding pattern_from
length-pattern_from index zero = refl
length-pattern_from index (suc n) = ap suc (length-pattern_from (suc index) n)

verify_from-pattern_from : (index n : ℕ) → verify_from index (pattern_from index n) ≡ true
unfolding verify_from pattern_from
verify_from-pattern_from index zero = refl
verify_from-pattern_from index (suc n) = ground (arith, verify_from-pattern_from (suc index) n)

length-grown : (region : List ℕ) (end : ℕ) → end ≤ length (grown region end)
unfolding grown
length-grown region end =
    let filled = length-replicate {A = ℕ} (end - length region) 0 in
    let both = length-append region (replicate (end - length region) 0) in
    ground (arith, filled, both)

readback-steps :
    (region previous written bytes restored : List ℕ) (start len : ℕ)
    → slice region start len ≡ some previous
    → copy_from_slice region start (pattern_from 0 len) ≡ some written
    → slice written start len ≡ some bytes
    → copy_from_slice written start previous ≡ some restored
    → readback region start len ≡ some (restored, verify_from 0 bytes)
unfolding readback
readback-steps region previous written bytes restored start len a b d e = ground (arith, a, b, d, e)

-- Inside the region, the readback restores it and verifies.
readback-some :
    (region : List ℕ) (start len : ℕ)
    → start + len ≤ length region
    → readback region start len ≡ some (region, true)
readback-some region start len h =
    let pattern = pattern_from 0 len in
    let size : length pattern ≡ len = length-pattern_from 0 len in
    let written = overwrite region start pattern in
    let kept : length written ≡ length region = length-overwrite region start pattern in
    let previous = take len (drop start region) in
    let fits : start + length pattern ≤ length region = omega (arith, size) in
    let saved : length previous ≡ len =
      length-take len (drop start region) (omega (arith, length-drop start region)) in
    let back : take len (drop start written) ≡ pattern =
      subst (λ n. take n (drop start written) ≡ pattern) size
        (take-drop-overwrite region start pattern fits) in
    let restored : overwrite written start previous ≡ region =
      subst (λ n. overwrite written start (take n (drop start region)) ≡ region) size
        (overwrite-overwrite region start pattern fits) in
    readback-steps region previous written pattern region start len (slice-take region start len h)
      (copy_from_slice-some region start pattern fits)
      (slice-take written start len (omega (arith, kept)) ∙ ap some back)
      (copy_from_slice-some written start previous (omega (arith, kept, saved)) ∙ ap some restored)
    ∙ ap (λ v. some (region, v)) (verify_from-pattern_from 0 len)

-- The reservations fit the RAM, whose size is a 32-bit word.
abbrev pub IsReserved : {F : Type 0} → VirtualBoard F → Type 0
IsReserved b = (b.psram_used_bytes ≤ b.psram_size_bytes) × (b.psram_size_bytes ≤ u32_max)

module _ {F : Type 0} where
  -- On a board whose reservations fit its RAM, the readback test never goes out of range; it
  -- succeeds exactly when RAM is free, and leaves the board as it was, with zeros behind the bytes
  -- that were ever touched where it had to reach further.
  pub psram_readback_test_lem :
      (b : VirtualBoard F)
      → IsReserved b
      → psram_readback_test b
        ≡ some (
          record b {
            psram_region =
                if psram_free_bytes b == 0
                then b.psram_region
                else grown b.psram_region (b.psram_used_bytes + min (psram_free_bytes b) 64);
          },
          ltb 0 (psram_free_bytes b),
        )
  unfolding psram_readback_test reserve_psram release_psram psram_free_bytes psram_used_bytes
  psram_readback_test_lem b (used, word) =
      let counted : min b.psram_used_bytes b.psram_size_bytes ≡ b.psram_used_bytes = omega arith in
      let free = b.psram_size_bytes - b.psram_used_bytes in
      let test = min free 64 in
      let region = grown b.psram_region (b.psram_used_bytes + test) in
      let room = length-grown b.psram_region (b.psram_used_bytes + test) in
      let verified = readback-some region b.psram_used_bytes test room in
      let start : sat_add32 b.psram_used_bytes test - test ≡ b.psram_used_bytes = omega arith in
      let end : sat_add32 b.psram_used_bytes test - test + test ≡ b.psram_used_bytes + test =
        omega arith in
      let granted : ltb free test ≡ false = ground arith in
      ground (arith, counted, verified, start, end, granted)
