-- ===== src/Input/Manager/Queues.antt =====
-- The bounded event queues of core/input/src/manager.rs: what they hold of the events that were
-- reported, and what the keyboard's bus gets.
use project_mycelium.Common.{
  ℕ, zero, suc, ◌≤◌, ◌≡◌, refl, sym, ap, ◌∙◌, not, ◌&&◌, leb, ◌==◌, List, [], ◌∷◌, ◌++◌, take,
  length, length-append, if◌then◌else◌, if_known, leb→le, leb_false→lt, arith,
}
use mathlib.Core.List.{append-nil, append_assoc}
use project_mycelium.Common.Float.{Float}
use project_mycelium.Input.Keyboard.{KeyEvent}
use project_mycelium.Input.Trackball.{TrackballEvent}
use project_mycelium.Input.MouseTouch.{Gt911TouchEvent}
use project_mycelium.Input.Manager.{
  InputManager, InputEvent, touch, keyboard, trackball, enqueue_bounded,
}

-- The events of one kind, in order.
abbrev pub touch_of : List InputEvent → List Gt911TouchEvent
touch_of [] = []
touch_of (touch e ∷ events) = e ∷ touch_of events
touch_of (keyboard e ∷ events) = touch_of events
touch_of (trackball e ∷ events) = touch_of events

abbrev pub keyboard_of : List InputEvent → List KeyEvent
keyboard_of [] = []
keyboard_of (touch e ∷ events) = keyboard_of events
keyboard_of (keyboard e ∷ events) = e ∷ keyboard_of events
keyboard_of (trackball e ∷ events) = keyboard_of events

abbrev pub trackball_of : List InputEvent → List TrackballEvent
trackball_of [] = []
trackball_of (touch e ∷ events) = trackball_of events
trackball_of (keyboard e ∷ events) = trackball_of events
trackball_of (trackball e ∷ events) = e ∷ trackball_of events

-- The bytes of the keys that go down, but for the keys without a byte.
abbrev pub bytes_of : List KeyEvent → List ℕ
bytes_of [] = []
bytes_of (e ∷ events) =
    if e.pressed && not (e.key_byte == 0) then e.key_byte ∷ bytes_of events else bytes_of events

-- A queue with more events behind it, as far as it has room.
abbrev pub filled {ℓ} : {A : Type ℓ} → List A → List A → List A
filled queue events = take 64 (queue ++ events)

take_all {ℓ} : {A : Type ℓ} (n : ℕ) (xs : List A) → length xs ≤ n → take n xs ≡ xs
take_all zero [] h = refl
take_all zero (x ∷ xs) h = absurd (omega arith)
take_all (suc n) [] h = refl
take_all (suc n) (x ∷ xs) h = ap (λ ys. x ∷ ys) (take_all n xs (omega arith))

take_front {ℓ} :
    {A : Type ℓ} (n : ℕ) (xs ys : List A) → n ≤ length xs → take n (xs ++ ys) ≡ take n xs
take_front zero xs ys h = refl
take_front (suc n) [] ys h = absurd (omega arith)
take_front (suc n) (x ∷ xs) ys h = ap (λ zs. x ∷ zs) (take_front n xs ys (omega arith))

length-take {ℓ} : {A : Type ℓ} (n : ℕ) (xs : List A) → length (take n xs) ≤ n
length-take zero xs = omega arith
length-take (suc n) [] = omega arith
length-take (suc n) (x ∷ xs) = omega (arith, length-take n xs)

-- Taking what there is room for, twice.
take-take_append {ℓ} :
    {A : Type ℓ} (n : ℕ) (xs ys : List A) → take n (take n xs ++ ys) ≡ take n (xs ++ ys)
take-take_append zero xs ys = refl
take-take_append (suc n) [] ys = refl
take-take_append (suc n) (x ∷ xs) ys = ap (λ zs. x ∷ zs) (take-take_append n xs ys)

pub enqueue_bounded-filled {ℓ} :
    {A : Type ℓ} (queue : List A) (event : A)
    → length queue ≤ 64
    → enqueue_bounded queue event ≡ filled queue (event ∷ [])
unfolding enqueue_bounded
enqueue_bounded-filled queue event h =
    if_known (λ q. q ≡ filled queue (event ∷ [])) (leb 64 (length queue))
      (λ full.
        sym
          (take_front 64 queue (event ∷ []) (leb→le 64 (length queue) full) ∙ take_all 64 queue h))
      (λ room. sym (
        take_all 64 (queue ++ event ∷ [])
          (omega (arith, length-append queue (event ∷ []), leb_false→lt 64 (length queue) room))))

pub filled-nil {ℓ} : {A : Type ℓ} (queue : List A) → length queue ≤ 64 → filled queue [] ≡ queue
filled-nil queue h = ap (take 64) (append-nil queue) ∙ take_all 64 queue h

filled-filled {ℓ} :
    {A : Type ℓ} (queue xs ys : List A) → filled (filled queue xs) ys ≡ filled queue (xs ++ ys)
filled-filled queue xs ys =
    take-take_append 64 (queue ++ xs) ys ∙ ap (take 64) (append_assoc queue xs ys)

touch_of-append : (a b : List InputEvent) → touch_of (a ++ b) ≡ touch_of a ++ touch_of b
touch_of-append [] b = refl
touch_of-append (touch e ∷ a) b = ap (λ es. e ∷ es) (touch_of-append a b)
touch_of-append (keyboard e ∷ a) b = touch_of-append a b
touch_of-append (trackball e ∷ a) b = touch_of-append a b

keyboard_of-append : (a b : List InputEvent) → keyboard_of (a ++ b) ≡ keyboard_of a ++ keyboard_of b
keyboard_of-append [] b = refl
keyboard_of-append (touch e ∷ a) b = keyboard_of-append a b
keyboard_of-append (keyboard e ∷ a) b = ap (λ es. e ∷ es) (keyboard_of-append a b)
keyboard_of-append (trackball e ∷ a) b = keyboard_of-append a b

trackball_of-append :
    (a b : List InputEvent) → trackball_of (a ++ b) ≡ trackball_of a ++ trackball_of b
trackball_of-append [] b = refl
trackball_of-append (touch e ∷ a) b = trackball_of-append a b
trackball_of-append (keyboard e ∷ a) b = trackball_of-append a b
trackball_of-append (trackball e ∷ a) b = ap (λ es. e ∷ es) (trackball_of-append a b)

bytes_of-append : (a b : List KeyEvent) → bytes_of (a ++ b) ≡ bytes_of a ++ bytes_of b
bytes_of-append [] b = refl
bytes_of-append (e ∷ a) b = ground (arith, bytes_of-append a b)

module _ (float : Float) where
  -- Each queue holds at most 64 events.
  abbrev pub IsBounded : InputManager float → Type 0
  IsBounded m =
      (length m.touch_events ≤ 64)
      × (length m.keyboard_events ≤ 64)
      × (length m.trackball_events ≤ 64)

  -- The events stand behind those that waited, as far as there is room, and the bytes of the keys
  -- that went down behind the bytes that waited.
  abbrev pub Fills : InputManager float → InputManager float × List InputEvent → Type 0
  Fills m r =
      (r.0.touch_events ≡ filled m.touch_events (touch_of r.1))
      × (r.0.keyboard_events ≡ filled m.keyboard_events (keyboard_of r.1))
      × (r.0.trackball_events ≡ filled m.trackball_events (trackball_of r.1))
      × (r.0.i2c_keyboard.key_queue ≡ m.i2c_keyboard.key_queue ++ bytes_of (keyboard_of r.1))

  pub Fills-IsBounded :
      (m : InputManager float) (r : InputManager float × List InputEvent)
      → Fills m r
      → IsBounded r.0
  Fills-IsBounded m r (t, k, b, i) = (
    omega (
      arith,
      ap (length {A = Gt911TouchEvent}) t,
      length-take 64 (m.touch_events ++ touch_of r.1),
    ),
    omega (
      arith,
      ap (length {A = KeyEvent}) k,
      length-take 64 (m.keyboard_events ++ keyboard_of r.1),
    ),
    omega (
      arith,
      ap (length {A = TrackballEvent}) b,
      length-take 64 (m.trackball_events ++ trackball_of r.1),
    ),
  )

  pub Fills-append :
      (m : InputManager float) (r s : InputManager float × List InputEvent)
      → Fills m r
      → Fills r.0 s
      → Fills m (s.0, r.1 ++ s.1)
  Fills-append m r s (t, k, b, i) (t', k', b', i') = (
    t'
        ∙ ap (λ q. filled q (touch_of s.1)) t
        ∙ filled-filled m.touch_events (touch_of r.1) (touch_of s.1)
        ∙ ap (filled m.touch_events) (sym (touch_of-append r.1 s.1)),
    k'
        ∙ ap (λ q. filled q (keyboard_of s.1)) k
        ∙ filled-filled m.keyboard_events (keyboard_of r.1) (keyboard_of s.1)
        ∙ ap (filled m.keyboard_events) (sym (keyboard_of-append r.1 s.1)),
    b'
        ∙ ap (λ q. filled q (trackball_of s.1)) b
        ∙ filled-filled m.trackball_events (trackball_of r.1) (trackball_of s.1)
        ∙ ap (filled m.trackball_events) (sym (trackball_of-append r.1 s.1)),
    i'
        ∙ ap (λ q. q ++ bytes_of (keyboard_of s.1)) i
        ∙ append_assoc m.i2c_keyboard.key_queue (bytes_of (keyboard_of r.1))
            (bytes_of (keyboard_of s.1))
        ∙ ap (λ q. m.i2c_keyboard.key_queue ++ q)
            (sym (bytes_of-append (keyboard_of r.1) (keyboard_of s.1))
              ∙ ap bytes_of (sym (keyboard_of-append r.1 s.1))),
  )
