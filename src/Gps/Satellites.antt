-- ===== src/Gps/Satellites.antt =====
-- The satellites that a receiver reports, generate_gsv and generate_gsa of core/gps/src/nmea.rs: the
-- numbers of the sentences, not their text.
use project_mycelium.Common.{
  ℕ, zero, suc, ◌+◌, ◌-◌, ◌*◌, ◌≤◌, ◌<◌, ◌≡◌, refl, sym, ap, ◌∙◌, min, Bool, true, false, ltb, leb,
  List, [], ◌∷◌, ◌++◌, map, length, any, take, ◌||◌, max, ◌/◌, ◌%◌, ap₂, Option, none, some,
  if◌then◌else◌, arith,
}

-- `first..first + n`.
unfoldable pub counted : ℕ → ℕ → List ℕ
counted first zero = []
counted first (suc n) = first ∷ counted (first + 1) n

pub record Satellite : Type 0 where
  pub prn : ℕ
  pub elevation : ℕ
  pub azimuth : ℕ
  pub snr : ℕ

pub record Gsv : Type 0 where
  pub message_count : ℕ
  pub message_number : ℕ
  pub satellites : ℕ
  pub view : List Satellite

unfoldable pub satellite : ℕ → Satellite
satellite n = record { prn = n; elevation = 30 + n * 5; azimuth = (n * 67) % 360; snr = 35 + n }

-- The numbers of a fragment, where 8-bit sums and products saturate.
unfoldable pub prns_of : ℕ → ℕ → List ℕ
unfolding counted
prns_of satellites fragment =
    let first = min (min (fragment * 4) 255 + 1) 255 in
    let last = min (min (first + 3) 255) satellites in counted first (last + 1 - first)

unfoldable pub message_count_of : ℕ → ℕ
message_count_of satellites = (max satellites 1 + 3) / 4

unfoldable pub generate_gsv : ℕ → List Gsv
unfolding counted prns_of satellite message_count_of
generate_gsv satellites =
    map
      (λ fragment. record {
        message_count = message_count_of satellites;
        message_number = fragment + 1;
        satellites = satellites;
        view = map satellite (prns_of satellites fragment);
      })
      (counted 0 (message_count_of satellites))

-- The twelve fields of a GSA sentence; `none` is an empty one.
unfoldable pub satellite_fields : ℕ → List (Option ℕ)
unfolding counted
satellite_fields satellites =
    map (λ prn. if leb prn (min satellites 12) then some prn else none) (counted 1 12)

-- The satellites of some sentences, one behind the other.
abbrev pub seen : List Gsv → List Satellite
seen [] = []
seen (g ∷ gs) = g.view ++ seen gs

counted_split : (first n m : ℕ) → counted first (n + m) ≡ counted first n ++ counted (first + n) m
unfolding counted
counted_split first zero m =
    let same : 0 + m ≡ m = omega arith in
    let start : first ≡ first + 0 = omega arith in
    ap (counted first) same ∙ ap (λ k. counted k m) start
counted_split first (suc n) m =
    let sum : suc n + m ≡ suc (n + m) = omega arith in
    let start : first + 1 + n ≡ first + suc n = omega arith in
    ap (counted first) sum
    ∙ ap (λ (xs : List ℕ). first ∷ xs)
        (counted_split (first + 1) n m ∙ ap (λ k. counted (first + 1) n ++ counted k m) start)

counted_from : (a b n : ℕ) → (0 < n → a ≡ b) → counted a n ≡ counted b n
unfolding counted
counted_from a b zero h = refl
counted_from a b (suc n) h = ap (λ k. counted k (suc n)) (h (omega arith))

length-counted : (first n : ℕ) → length (counted first n) ≡ n
unfolding counted
length-counted first zero = refl
length-counted first (suc n) = ap suc (length-counted (first + 1) n)

map_append {ℓ κ} :
    {A : Type ℓ} {B : Type κ} (f : A → B) (xs ys : List A) → map f (xs ++ ys) ≡ map f xs ++ map f ys
map_append f [] ys = refl
map_append f (x ∷ xs) ys = ap (λ ys. f x ∷ ys) (map_append f xs ys)

length-map {ℓ κ} :
    {A : Type ℓ} {B : Type κ} (f : A → B) (xs : List A) → length (map f xs) ≡ length xs
length-map f [] = refl
length-map f (x ∷ xs) = ap suc (length-map f xs)

-- A fragment takes the next four satellites, or those that are left.
prns_of_lem :
    (satellites fragment : ℕ)
    → satellites ≤ 255
    → fragment * 4 < 255
    → prns_of satellites fragment ≡ counted (fragment * 4 + 1) (min 4 (satellites - fragment * 4))
unfolding prns_of
prns_of_lem satellites fragment h k = ap₂ counted (omega arith) (omega arith)

message_count_of-bounds :
    (satellites : ℕ)
    → satellites ≤ 255
    → (satellites ≤ message_count_of satellites * 4) × (message_count_of satellites ≤ 64)
unfolding message_count_of
message_count_of-bounds satellites h = (omega arith, omega arith)

either_false : {a b : Bool} → a ≡ false → b ≡ false → (a || b) ≡ false
either_false h k = ap₂ ◌||◌ h k

module _ (satellites : ℕ) (h : satellites ≤ 255) where
  sentence : ℕ → Gsv
  unfolding satellite
  sentence fragment = record {
    message_count = message_count_of satellites;
    message_number = fragment + 1;
    satellites = satellites;
    view = map satellite (prns_of satellites fragment);
  }

  seen-sentences :
      (first n : ℕ)
      → satellites ≤ (first + n) * 4
      → first + n ≤ 64
      → seen (map sentence (counted first n))
        ≡ map satellite (counted (first * 4 + 1) (satellites - first * 4))
  unfolding counted sentence
  seen-sentences first zero all few =
      let over : 0 ≡ satellites - first * 4 = omega arith in
      ap (λ k. map satellite (counted (first * 4 + 1) k)) over
  seen-sentences first (suc n) all few =
      let at = first * 4 + 1 in
      let now = min 4 (satellites - first * 4) in
      let later = satellites - (first + 1) * 4 in
      let here : prns_of satellites first ≡ counted at now =
        prns_of_lem satellites first h (omega arith) in
      let both : now + later ≡ satellites - first * 4 = omega arith in
      let next : counted (at + now) later ≡ counted ((first + 1) * 4 + 1) later =
        counted_from (at + now) ((first + 1) * 4 + 1) later (λ more. omega arith) in
      ap₂ (λ xs ys. map satellite xs ++ ys) here
        (seen-sentences (first + 1) n (omega arith) (omega arith))
      ∙ ap (λ xs. map satellite (counted at now) ++ map satellite xs) (sym next)
      ∙ sym (map_append satellite (counted at now) (counted (at + now) later))
      ∙ ap (map satellite) (sym (counted_split at now later))
      ∙ ap (λ k. map satellite (counted at k)) both

  numbers-sentences :
      (first n : ℕ)
      → map (λ g. g.message_number) (map sentence (counted first n)) ≡ counted (first + 1) n
  unfolding counted sentence
  numbers-sentences first zero = refl
  numbers-sentences first (suc n) = ap (λ xs. (first + 1) ∷ xs) (numbers-sentences (first + 1) n)

  crowded-sentences :
      (first n : ℕ)
      → first + n ≤ 64
      → any (λ g. ltb 4 (length g.view)) (map sentence (counted first n)) ≡ false
  unfolding counted sentence
  crowded-sentences first zero few = refl
  crowded-sentences first (suc n) few =
      let here : length (map satellite (prns_of satellites first))
          ≡ min 4 (satellites - first * 4) =
        length-map satellite (prns_of satellites first)
        ∙ ap length (prns_of_lem satellites first h (omega arith))
        ∙ length-counted _ _ in
      let room : ltb 4 (length (map satellite (prns_of satellites first))) ≡ false =
        ground (arith, here) in
      either_false room (crowded-sentences (first + 1) n (omega arith))

  counts-sentences :
      (ns : List ℕ)
      → map (λ g. g.message_count) (map sentence ns)
        ≡ map (λ g. message_count_of satellites) (map sentence ns)
  unfolding sentence
  counts-sentences [] = refl
  counts-sentences (n ∷ ns) = ap (λ ms. message_count_of satellites ∷ ms) (counts-sentences ns)

-- For each number of satellites that a byte holds, the GSV sentences together list the satellites from 1
-- to that number, each once and in order; no sentence has more than four; and they are numbered from 1
-- to their count, which each of them carries.
pub generate_gsv_lem :
    (satellites : ℕ)
    → satellites ≤ 255
    → (seen (generate_gsv satellites) ≡ map satellite (counted 1 satellites))
      × (any (λ g. ltb 4 (length g.view)) (generate_gsv satellites) ≡ false)
      × (map (λ g. g.message_number) (generate_gsv satellites)
          ≡ counted 1 (length (generate_gsv satellites)))
      × (map (λ g. g.message_count) (generate_gsv satellites)
          ≡ map (λ g. length (generate_gsv satellites)) (generate_gsv satellites))
unfolding generate_gsv sentence
generate_gsv_lem satellites h =
    let count = message_count_of satellites in
    let (enough, few) = message_count_of-bounds satellites h in
    let whole : satellites - 0 ≡ satellites = omega arith in
    let from_first : ℕ → List Satellite = λ k. map satellite (counted 1 k) in
    let total : length (generate_gsv satellites) ≡ count =
      length-map (sentence satellites h) (counted 0 count) ∙ length-counted 0 count in
    (
      seen-sentences satellites h 0 count (omega arith) (omega arith) ∙ ap from_first whole,
      crowded-sentences satellites h 0 count (omega arith),
      numbers-sentences satellites h 0 count ∙ ap (counted 1) (sym total),
      counts-sentences satellites h (counted 0 count)
          ∙ ap (λ c. map (λ g. c) (generate_gsv satellites)) (sym total),
    )

-- A field of a GSA sentence, where so many satellites are used.
field : ℕ → ℕ → Option ℕ
field used prn = if leb prn used then some prn else none

fields_used :
    (used first n : ℕ)
    → first + n ≤ used + 1
    → map (field used) (counted first n) ≡ map some (counted first n)
unfolding counted field
fields_used used first zero h = refl
fields_used used first (suc n) h =
    let inside : leb first used ≡ true = ground arith in
    ap₂ (λ (b : Bool) fields. (if b then some first else none) ∷ fields) inside
      (fields_used used (first + 1) n (omega arith))

fields_left :
    (used first n : ℕ)
    → used < first
    → map (field used) (counted first n) ≡ map (λ i. none) (counted first n)
unfolding counted field
fields_left used first zero h = refl
fields_left used first (suc n) h =
    let outside : leb first used ≡ false = ground arith in
    ap₂ (λ (b : Bool) fields. (if b then some first else none) ∷ fields) outside
      (fields_left used (first + 1) n (omega arith))

satellite_fields-split :
    (satellites : ℕ)
    → satellite_fields satellites
      ≡ map some (counted 1 (min satellites 12))
        ++ map (λ i. none) (counted (1 + min satellites 12) (12 - min satellites 12))
unfolding satellite_fields field
satellite_fields-split satellites =
    let used = min satellites 12 in
    let parts : used + (12 - used) ≡ 12 = omega arith in
    ap (λ n. map (field used) (counted 1 n)) (sym parts)
    ∙ ap (map (field used)) (counted_split 1 used (12 - used))
    ∙ map_append (field used) (counted 1 used) (counted (1 + used) (12 - used))
    ∙ ap₂ ◌++◌ (fields_used used 1 used (omega arith))
        (fields_left used (1 + used) (12 - used) (omega arith))

take-satellites :
    (k first n : ℕ)
    → map (λ t. some t.prn) (take k (map satellite (counted first n)))
      ≡ map some (counted first (min n k))
unfolding counted satellite
take-satellites zero first n =
    let none_left : 0 ≡ min n 0 = omega arith in ap (λ m. map some (counted first m)) none_left
take-satellites (suc k) first zero =
    let none_left : 0 ≡ min 0 (suc k) = omega arith in
    ap (λ m. map some (counted first m)) none_left
take-satellites (suc k) first (suc n) =
    let smaller : suc (min n k) ≡ min (suc n) (suc k) = omega arith in
    ap (λ fields. some first ∷ fields) (take-satellites k (first + 1) n)
    ∙ ap (λ m. map some (counted first m)) smaller

-- A GSA sentence has twelve fields. They name the first twelve of the satellites that the GSV
-- sentences list, in their order, and the fields behind these are empty.
pub satellite_fields-generate_gsv :
    (satellites : ℕ)
    → satellites ≤ 255
    → (satellite_fields satellites
        ≡ map (λ t. some t.prn) (take 12 (seen (generate_gsv satellites)))
          ++ map (λ i. none) (counted (1 + min satellites 12) (12 - min satellites 12)))
      × (length (satellite_fields satellites) ≡ 12)
unfolding satellite_fields
satellite_fields-generate_gsv satellites h =
    let named : List Satellite → List (Option ℕ) = λ ts. map (λ t. some t.prn) (take 12 ts) in
    let all = (generate_gsv_lem satellites h).0 in
    let padding = map (λ i. none) (counted (1 + min satellites 12) (12 - min satellites 12)) in
    (
      satellite_fields-split satellites
          ∙ ap (λ fields. fields ++ padding) (sym (ap named all ∙ take-satellites 12 1 satellites)),
      refl,
    )
