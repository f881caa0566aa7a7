-- ===== src/Input/Keyboard/Held.antt =====
-- Each key of core/input/src/keyboard.rs on its own: the presses and releases that are reported of
-- it are the changes of its level.
use project_mycelium.Common.{
  ℕ, zero, suc, ◌+◌, ◌-◌, ◌≤◌, ◌≡◌, refl, sym, ap, ◌∙◌, Bool, true, false, not, List, [], ◌∷◌,
  length, get_or, retain, Option, none, some, inl, inr, if◌then◌else◌, subst, Bool-cases, ==_iff,
  arith,
}
use mathlib.Core.Option
use project_mycelium.Input.Keyboard.{
  Keycode, key_q, key_w, key_e, key_r, key_t, key_y, key_u, key_i, key_o, key_p, key_a, key_s,
  key_d, key_f, key_g, key_h, key_j, key_k, key_l, key_z, key_x, key_c, key_v, key_b, key_n, key_m,
  comma, period, l_shift, r_shift, space, return, backspace, arrow_up, arrow_down, arrow_left,
  arrow_right, kp_enter, other, index, same_key, TDeckKeyMapping, KeyEvent, keymap,
  KeyboardEmulator, is_held, set_held, handle_key,
}

get_or_past {ℓ} : {A : Type ℓ} (xs : List A) (i : ℕ) (d : A) → length xs ≤ i → get_or xs i d ≡ d
get_or_past [] i d h = refl
get_or_past (x ∷ xs) zero d h = absurd (omega arith)
get_or_past (x ∷ xs) (suc i) d h = get_or_past xs i d (omega arith)

-- The numbers of the keys name them.
abbrev named_keys : List Keycode
named_keys =
    key_q ∷ key_w ∷ key_e ∷ key_r ∷ key_t ∷ key_y ∷ key_u ∷ key_i ∷ key_o ∷ key_p ∷ key_a ∷ key_s
    ∷ key_d ∷ key_f ∷ key_g ∷ key_h ∷ key_j ∷ key_k ∷ key_l ∷ key_z ∷ key_x ∷ key_c ∷ key_v ∷ key_b
    ∷ key_n ∷ key_m ∷ comma ∷ period ∷ l_shift ∷ r_shift ∷ space ∷ return ∷ backspace ∷ arrow_up
    ∷ arrow_down ∷ arrow_left ∷ arrow_right ∷ kp_enter ∷ []

abbrev key_of : ℕ → Keycode
key_of n = get_or named_keys n (other (n - 38))

key_of-index : (k : Keycode) → key_of (index k) ≡ k
unfolding index
key_of-index key_q = refl
key_of-index key_w = refl
key_of-index key_e = refl
key_of-index key_r = refl
key_of-index key_t = refl
key_of-index key_y = refl
key_of-index key_u = refl
key_of-index key_i = refl
key_of-index key_o = refl
key_of-index key_p = refl
key_of-index key_a = refl
key_of-index key_s = refl
key_of-index key_d = refl
key_of-index key_f = refl
key_of-index key_g = refl
key_of-index key_h = refl
key_of-index key_j = refl
key_of-index key_k = refl
key_of-index key_l = refl
key_of-index key_z = refl
key_of-index key_x = refl
key_of-index key_c = refl
key_of-index key_v = refl
key_of-index key_b = refl
key_of-index key_n = refl
key_of-index key_m = refl
key_of-index comma = refl
key_of-index period = refl
key_of-index l_shift = refl
key_of-index r_shift = refl
key_of-index space = refl
key_of-index return = refl
key_of-index backspace = refl
key_of-index arrow_up = refl
key_of-index arrow_down = refl
key_of-index arrow_left = refl
key_of-index arrow_right = refl
key_of-index kp_enter = refl
key_of-index (other n) =
    get_or_past named_keys (38 + n) (other ((38 + n) - 38)) (omega arith) ∙ ap other (omega arith)

same_key→eq : (a b : Keycode) → same_key a b ≡ true → a ≡ b
unfolding same_key
same_key→eq a b h =
    sym (key_of-index a) ∙ ap key_of ((==_iff (index a) (index b)).0 h) ∙ key_of-index b

same_key_refl : (k : Keycode) → same_key k k ≡ true
unfolding same_key
same_key_refl k = ground arith

same_key_comm : (a b : Keycode) → same_key a b ≡ same_key b a
unfolding same_key
same_key_comm a b = ground arith

-- Equal keys compare alike with a third one.
same_key-ap : (a b c : Keycode) → same_key a b ≡ true → same_key c a ≡ same_key c b
same_key-ap a b c h = ap (same_key c) (same_key→eq a b h)

is_held-retain :
    (j k : Keycode) (keys : List Keycode)
    → is_held j (retain (λ i. not (same_key k i)) keys)
      ≡ (if same_key k j then false else is_held j keys)
unfolding is_held
is_held-retain j k [] = ground arith
is_held-retain j k (i ∷ keys) = ground (
  arith,
  is_held-retain j k keys,
  same_key-ap k i j,
  same_key-ap k j i,
  same_key_comm k j,
  same_key_comm i j,
  same_key_comm i k,
)

is_held-eq :
    (j k : Keycode) (keys : List Keycode) → same_key k j ≡ true → is_held k keys ≡ is_held j keys
is_held-eq j k keys h = ap (λ i. is_held i keys) (same_key→eq k j h)

is_held-cons :
    (j k : Keycode) (keys : List Keycode)
    → is_held j (k ∷ keys) ≡ (if same_key k j then true else is_held j keys)
unfolding is_held
is_held-cons j k keys = ground (arith, same_key_comm k j)

-- A change of one key is seen of that key only.
pub is_held-set_held :
    (j k : Keycode) (keys : List Keycode) (pressed : Bool)
    → is_held j (set_held keys k pressed) ≡ (if same_key k j then pressed else is_held j keys)
unfolding set_held
is_held-set_held j k keys false = is_held-retain j k keys
is_held-set_held j k keys true = ground (arith, is_held-eq j k keys, is_held-cons j k keys)

-- The levels that the inputs give one key.
abbrev pub levels_of : Keycode → List (Keycode × Bool) → List Bool
levels_of k [] = []
levels_of k ((j, pressed) ∷ inputs) =
    if same_key k j then pressed ∷ levels_of k inputs else levels_of k inputs

abbrev bool_eq : Bool → Bool → Bool
bool_eq true b = b
bool_eq false b = not b

-- The levels that differ from the one before.
abbrev pub transitions : Bool → List Bool → List Bool
transitions held [] = []
transitions held (level ∷ levels) =
    let rest = transitions level levels in if bool_eq held level then rest else level ∷ rest

-- The keyboard after the inputs, and the events that it reported with their keys.
unfoldable pub run_keys :
    KeyboardEmulator → List (Keycode × Bool) → KeyboardEmulator × List (Keycode × KeyEvent)
run_keys kb [] = (kb, [])
run_keys kb ((k, pressed) ∷ inputs) =
    let (kb', event) = handle_key kb k pressed in
    let (kb'', events) = run_keys kb' inputs in
    (kb'', elim event [ none ↦ events | some e ↦ (k, e) ∷ events ])

-- The levels that the events report of one key.
abbrev pub reported_of : Keycode → List (Keycode × KeyEvent) → List Bool
reported_of k [] = []
reported_of k ((j, e) ∷ events) =
    if same_key k j then e.pressed ∷ reported_of k events else reported_of k events

keymap_of_same : (a b : Keycode) → same_key a b ≡ true → keymap a ≡ keymap b
keymap_of_same a b h = ap keymap (same_key→eq a b h)

held_after :
    (kb : KeyboardEmulator) (k j : Keycode) (pressed : Bool) (m : TDeckKeyMapping)
    → keymap k ≡ some m
    → is_held k (handle_key kb j pressed).0.pressed_keys
      ≡ (if same_key j k then pressed else is_held k kb.pressed_keys)
unfolding handle_key
held_after kb k j pressed m mapped =
    ground (arith, is_held-set_held k j kb.pressed_keys pressed, keymap_of_same j k, mapped)

held_own :
    (kb : KeyboardEmulator) (k : Keycode) (pressed : Bool) (m : TDeckKeyMapping)
    → keymap k ≡ some m
    → is_held k (handle_key kb k pressed).0.pressed_keys ≡ pressed
held_own kb k pressed m mapped = ground (arith, held_after kb k k pressed m mapped, same_key_refl k)

held_other :
    (kb : KeyboardEmulator) (k j : Keycode) (pressed : Bool) (m : TDeckKeyMapping)
    → keymap k ≡ some m
    → same_key k j ≡ false
    → is_held k (handle_key kb j pressed).0.pressed_keys ≡ is_held k kb.pressed_keys
held_other kb k j pressed m mapped unlike =
    ground (arith, held_after kb k j pressed m mapped, unlike, same_key_comm k j)

-- What is reported of the key itself.
reported :
    (kb : KeyboardEmulator) (k : Keycode) (pressed : Bool) (m : TDeckKeyMapping)
    → keymap k ≡ some m
    → Option.map (λ (e : KeyEvent). e.pressed) (handle_key kb k pressed).1
      ≡ (if bool_eq (is_held k kb.pressed_keys) pressed then none else some pressed)
unfolding handle_key
reported kb k true m mapped = ground (arith, mapped)
reported kb k false m mapped = ground (arith, mapped)

reported_of-own :
    (k : Keycode) (event : Option KeyEvent) (events : List (Keycode × KeyEvent))
    → reported_of k (elim event [ none ↦ events | some e ↦ (k, e) ∷ events ])
      ≡ elim event [ none ↦ reported_of k events | some e ↦ e.pressed ∷ reported_of k events ]
reported_of-own k none events = refl
reported_of-own k (some e) events = ground (arith, same_key_refl k)

reported_of-other :
    (k j : Keycode) (event : Option KeyEvent) (events : List (Keycode × KeyEvent))
    → same_key k j ≡ false
    → reported_of k (elim event [ none ↦ events | some e ↦ (j, e) ∷ events ]) ≡ reported_of k events
reported_of-other k j none events h = refl
reported_of-other k j (some e) events h = ground (arith, h)

-- The levels of a key and the event that one input of it reports.
reported-transitions :
    (held pressed : Bool) (event : Option KeyEvent) (levels : List Bool)
    → Option.map (λ (e : KeyEvent). e.pressed) event
      ≡ (if bool_eq held pressed then none else some pressed)
    → elim event [
      | none ↦ transitions pressed levels
      | some e ↦ e.pressed ∷ transitions pressed levels
    ]
      ≡ transitions held (pressed ∷ levels)
reported-transitions held pressed none levels h = ground (arith, h)
reported-transitions held pressed (some e) levels h = ground (arith, h)

run_keys_own :
    (k : Keycode) (m : TDeckKeyMapping) (kb : KeyboardEmulator) (pressed : Bool)
    (inputs : List (Keycode × Bool))
    → keymap k ≡ some m
    → reported_of k (run_keys (handle_key kb k pressed).0 inputs).1
      ≡ transitions pressed (levels_of k inputs)
    → reported_of k (run_keys kb ((k, pressed) ∷ inputs)).1
      ≡ transitions (is_held k kb.pressed_keys) (pressed ∷ levels_of k inputs)
unfolding run_keys
run_keys_own k m kb pressed inputs mapped ih =
    let event = (handle_key kb k pressed).1 in
    reported_of-own k event (run_keys (handle_key kb k pressed).0 inputs).1
    ∙ ap (λ (xs : List Bool). elim event [ none ↦ xs | some e ↦ e.pressed ∷ xs ]) ih
    ∙ reported-transitions (is_held k kb.pressed_keys) pressed event (levels_of k inputs)
        (reported kb k pressed m mapped)

-- Of a key that is mapped, the events of any inputs report the changes of its level and nothing
-- else: a repeated press and a release of a key that is up are not reported, presses and releases
-- alternate, and the other keys do not matter.
pub reported_of-run_keys :
    (inputs : List (Keycode × Bool)) (k : Keycode) (m : TDeckKeyMapping) (kb : KeyboardEmulator)
    → keymap k ≡ some m
    → reported_of k (run_keys kb inputs).1
      ≡ transitions (is_held k kb.pressed_keys) (levels_of k inputs)
unfolding run_keys
reported_of-run_keys [] k m kb mapped = refl
reported_of-run_keys ((j, pressed) ∷ inputs) k m kb mapped = elim (Bool-cases (same_key k j)) [
  | inl same ↦ rw same (
      subst
        (λ i.
          reported_of k (run_keys kb ((i, pressed) ∷ inputs)).1
          ≡ transitions (is_held k kb.pressed_keys) (pressed ∷ levels_of k inputs))
        (same_key→eq k j same)
        (run_keys_own k m kb pressed inputs mapped (
          reported_of-run_keys inputs k m (handle_key kb k pressed).0 mapped
          ∙ ap (λ b. transitions b (levels_of k inputs)) (held_own kb k pressed m mapped))))
  | inr unlike ↦ rw unlike (
      reported_of-other k j _ _ unlike
      ∙ reported_of-run_keys inputs k m (handle_key kb j pressed).0 mapped
      ∙ ap (λ b. transitions b (levels_of k inputs)) (held_other kb k j pressed m mapped unlike))
]
