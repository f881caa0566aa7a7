-- ===== src/Storage/InstanceDirectory.antt =====
-- The name of an instance's directory on the host, `instance_directory` of
-- core/storage/src/spiffs.rs, over the bytes of the instance's id.
use project_mycelium.Common.{
  ℕ, ◌+◌, ◌-◌, ◌*◌, ◌/◌, ◌%◌, ◌<◌, ◌≡◌, ◌≢◌, refl, sym, ◌∙◌, ap, Bool, true, false, not, ◌&&◌, ◌||◌,
  ◌==◌, ltb, leb, List, [], ◌∷◌, All, arith, if◌then◌else◌, if_known,
}

-- `is_ascii_alphanumeric`.
unfoldable pub is_alphanumeric : ℕ → Bool
is_alphanumeric b = (leb 48 b && leb b 57) || (leb 65 b && leb b 90) || (leb 97 b && leb b 122)

-- A byte that stays as it is: a letter, a digit, `-` or `_`.
unfoldable pub is_plain : ℕ → Bool
is_plain b = is_alphanumeric b || b == 45 || b == 95

-- Each byte is plain or a dot.
unfoldable pub all_allowed : List ℕ → Bool
all_allowed [] = true
all_allowed (b ∷ bs) = (is_plain b || b == 46) && all_allowed bs

-- Empty, "." or "..".
unfoldable pub is_reserved : List ℕ → Bool
is_reserved [] = true
is_reserved (b ∷ []) = b == 46
is_reserved (b ∷ c ∷ []) = b == 46 && c == 46
is_reserved _ = false

-- An upper-case hexadecimal digit.
unfoldable pub hex : ℕ → ℕ
hex d = if ltb d 10 then 48 + d else 55 + d

unfoldable pub encode : List ℕ → List ℕ
encode [] = []
encode (b ∷ bs) = if is_plain b then b ∷ encode bs else 37 ∷ hex (b / 16) ∷ hex (b % 16) ∷ encode bs

unfoldable pub instance_directory : List ℕ → List ℕ
instance_directory id =
    if not (is_reserved id) && all_allowed id
    then id
    else elim (encode id) [ [] ↦ 37 ∷ 48 ∷ 48 ∷ [] | b ∷ bs ↦ b ∷ bs ]

-- Reading the name back: after a percent sign come two hexadecimal digits.
data Mode : Type 0 where
  plain first : Mode
  second : ℕ → Mode

unhex : ℕ → ℕ
unhex c = if ltb c 58 then c - 48 else c - 55

unfoldable decode : Mode → List ℕ → List ℕ
decode mode [] = []
decode plain (c ∷ cs) = if c == 37 then decode first cs else c ∷ decode plain cs
decode first (c ∷ cs) = decode (second c) cs
decode (second h) (c ∷ cs) = (unhex h * 16 + unhex c) ∷ decode plain cs

decode-allowed : (id : List ℕ) → all_allowed id ≡ true → decode plain id ≡ id
unfolding decode all_allowed is_plain is_alphanumeric
decode-allowed [] h = refl
decode-allowed (b ∷ bs) h = ground (arith, decode-allowed bs)

unhex-hex : (d : ℕ) → d < 16 → unhex (hex d) ≡ d
unfolding unhex hex
unhex-hex d h = ground arith

decode-encode : (id : List ℕ) → All (λ b. b < 256) id → decode plain (encode id) ≡ id
unfolding decode encode is_plain is_alphanumeric
decode-encode [] h = refl
decode-encode (b ∷ bs) (small, h) =
    let high = unhex-hex (b / 16) (omega arith) in
    let low = unhex-hex (b % 16) (omega arith) in ground (arith, decode-encode bs h, high, low)

-- The encoding of a byte is not empty.
encode-cons : (b : ℕ) (bs : List ℕ) → encode (b ∷ bs) ≢ []
unfolding encode
encode-cons b bs e = ground arith

decode-encoded :
    {id : List ℕ} (name : List ℕ)
    → name ≢ []
    → decode plain name ≡ id
    → decode plain (elim name [ [] ↦ 37 ∷ 48 ∷ 48 ∷ [] | b ∷ bs ↦ b ∷ bs ]) ≡ id
decode-encoded [] some_ e = absurd (some_ refl)
decode-encoded (b ∷ bs) some_ e = e

decode-instance_directory :
    (id : List ℕ) → All (λ b. b < 256) id → id ≢ [] → decode plain (instance_directory id) ≡ id
unfolding instance_directory
decode-instance_directory [] bytes some_ = absurd (some_ refl)
decode-instance_directory (b ∷ bs) bytes some_ =
    if_known (λ name. decode plain name ≡ b ∷ bs)
      (not (is_reserved (b ∷ bs)) && all_allowed (b ∷ bs))
      (λ passes. decode-allowed (b ∷ bs) (ground (arith, passes)))
      (λ encoded.
        decode-encoded (encode (b ∷ bs)) (encode-cons b bs) (decode-encode (b ∷ bs) bytes))

-- Two instances with different ids, neither of them empty, never have the same directory.
pub instance_directory_injective :
    (id other : List ℕ)
    → All (λ b. b < 256) id
    → All (λ b. b < 256) other
    → id ≢ []
    → other ≢ []
    → instance_directory id ≡ instance_directory other
    → id ≡ other
instance_directory_injective id other bytes bytes' some_ some' same =
    sym (decode-instance_directory id bytes some_)
    ∙ ap (decode plain) same
    ∙ decode-instance_directory other bytes' some'

-- Every byte of a name is a letter, a digit, `-`, `_`, `.` or a percent sign.
unfoldable pub is_safe_name : List ℕ → Bool
is_safe_name [] = true
is_safe_name (b ∷ bs) = (is_plain b || b == 46 || b == 37) && is_safe_name bs

allowed-is_safe_name : (id : List ℕ) → all_allowed id ≡ true → is_safe_name id ≡ true
unfolding all_allowed is_safe_name
allowed-is_safe_name [] h = refl
allowed-is_safe_name (b ∷ bs) h = ground (arith, allowed-is_safe_name bs)

hex-is_plain : (d : ℕ) → d < 16 → is_plain (hex d) ≡ true
unfolding is_plain is_alphanumeric hex
hex-is_plain d h = ground arith

encode-is_safe_name : (id : List ℕ) → All (λ b. b < 256) id → is_safe_name (encode id) ≡ true
unfolding encode is_safe_name
encode-is_safe_name [] h = refl
encode-is_safe_name (b ∷ bs) (small, h) =
    let high = hex-is_plain (b / 16) (omega arith) in
    let low = hex-is_plain (b % 16) (omega arith) in
    ground (arith, encode-is_safe_name bs h, high, low)

is_reserved-first : (c : ℕ) (cs : List ℕ) → (c == 46) ≡ false → is_reserved (c ∷ cs) ≡ false
unfolding is_reserved
is_reserved-first c [] h = h
is_reserved-first c (d ∷ []) h = ground arith
is_reserved-first c (d ∷ e ∷ cs) h = refl

plain-dot : (b : ℕ) → is_plain b ≡ true → (b == 46) ≡ false
unfolding is_plain is_alphanumeric
plain-dot b h = ground arith

encode-is_reserved : (b : ℕ) (bs : List ℕ) → is_reserved (encode (b ∷ bs)) ≡ false
unfolding encode
encode-is_reserved b bs =
    if_known (λ name. is_reserved name ≡ false) (is_plain b)
      (λ stays. is_reserved-first b (encode bs) (plain-dot b stays))
      (λ escaped. is_reserved-first 37 (hex (b / 16) ∷ hex (b % 16) ∷ encode bs) refl)

abbrev IsSafe : List ℕ → Type 0
IsSafe name = (is_safe_name name ≡ true) × (is_reserved name ≡ false)

encoded-IsSafe :
    (name : List ℕ)
    → name ≢ []
    → is_safe_name name ≡ true
    → is_reserved name ≡ false
    → IsSafe (elim name [ [] ↦ 37 ∷ 48 ∷ 48 ∷ [] | b ∷ bs ↦ b ∷ bs ])
encoded-IsSafe [] some_ h k = absurd (some_ refl)
encoded-IsSafe (b ∷ bs) some_ h k = (h, k)

-- The directory's name has letters, digits, `-`, `_`, `.` and percent signs only, and it is neither
-- empty nor "." nor "..": no id leads out of the directory of all instances.
pub instance_directory_is_safe :
    (id : List ℕ)
    → All (λ b. b < 256) id
    → (is_safe_name (instance_directory id) ≡ true) × (is_reserved (instance_directory id) ≡ false)
unfolding instance_directory is_safe_name is_reserved encode is_plain is_alphanumeric
instance_directory_is_safe [] bytes = (refl, refl)
instance_directory_is_safe (b ∷ bs) bytes =
    if_known IsSafe (not (is_reserved (b ∷ bs)) && all_allowed (b ∷ bs))
      (λ passes. (allowed-is_safe_name (b ∷ bs) (ground (arith, passes)), ground (arith, passes)))
      (λ encoded.
        encoded-IsSafe (encode (b ∷ bs)) (encode-cons b bs) (encode-is_safe_name (b ∷ bs) bytes)
          (encode-is_reserved b bs))
