-- ===== src/Gps/Movement/Track.antt =====
-- The loops over the points of a track in core/gps/src/manager.rs, and the point that they end at.
use project_mycelium.Common.{
  ℕ, zero, suc, ◌+◌, ◌-◌, ◌≤◌, ◌<◌, ◌≡◌, refl, ap, ◌∙◌, subst, ◌⊎◌, inl, inr, min, Bool, true,
  false, not, ◌||◌, ◌==◌, ltb, List, [], ◌∷◌, length, get_elem?, Option, none, some, if◌then◌else◌,
  if_both, if_known, option_known, ◌^◌, All, arith,
}
use mathlib.Core.Option.{some_inj}
use project_mycelium.Common.Int.{ℤ, pos, negsuc}
use project_mycelium.Common.Float.{Float}
use project_mycelium.Gps.Movement.{
  indexed, interval, GpsState, GpxTrackPoint, visit, advance_waypoints, replay, arrive,
  timestamp_interval_ms, advance_timestamped_replay, update_replay_telemetry,
}
use project_mycelium.Gps.Movement.Tick.{step_replay}

-- A call that returns, with a result that `P` holds of.
abbrev pub Returns {ℓ} : {A : Type ℓ} → (A → Type 0) → Option A → Type 0
Returns P none = ⊥
Returns P (some a) = P a

pub Returns-indexed {ℓ κ} :
    {A : Type ℓ} {B : Type κ} (P : B → Type 0) (xs : List A) (i : ℕ) (next : A → Option B)
    → i < length xs
    → ((a : A) → get_elem? xs i ≡ some a → Returns P (next a))
    → Returns P (indexed xs i next)
Returns-indexed P [] i next h k = absurd (omega arith)
Returns-indexed P (x ∷ xs) zero next h k = k x refl
Returns-indexed P (x ∷ xs) (suc i) next h k = Returns-indexed P xs i next (omega arith) k

-- What is done with the result of a call that returns.
pub returned {ℓ κ} :
    {A : Type ℓ} {B : Type κ} (P : A → Type 0) (Q : B → Type 0) (o : Option A) (next : A → Option B)
    → Returns P o
    → ((a : A) → P a → Returns Q (next a))
    → Returns Q (elim o [ none ↦ none | some a ↦ next a ])
returned P Q none next h k = h
returned P Q (some a) next h k = k a h

get_elem?-inside {ℓ} :
    {A : Type ℓ} (xs : List A) (i : ℕ) (a : A) → get_elem? xs i ≡ some a → i < length xs
get_elem?-inside [] i a e = grind arith
get_elem?-inside (x ∷ xs) zero a e = omega arith
get_elem?-inside (x ∷ xs) (suc i) a e = ground (arith, get_elem?-inside xs i a e)

weakened {ℓ} :
    {A : Type ℓ} (P Q : A → Type 0) (o : Option A)
    → Returns P o
    → ((a : A) → P a → Q a)
    → Returns Q o
weakened P Q none h k = h
weakened P Q (some a) h k = k a h

All-get_elem? {ℓ} :
    {A : Type ℓ} (P : A → Type 0) (xs : List A) (i : ℕ) (a : A)
    → All P xs
    → get_elem? xs i ≡ some a
    → P a
All-get_elem? P [] i a h e = absurd (grind arith)
All-get_elem? P (x ∷ xs) zero a (h, hs) e = subst P (some_inj.0 e) h
All-get_elem? P (x ∷ xs) (suc i) a (h, hs) e = All-get_elem? P xs i a hs e

-- Within 2^62 milliseconds, some 146 million years, of the epoch.
abbrev pub IsNear : Option ℤ → Type 0
IsNear none = Unit
IsNear (some (pos n)) = n < 2 ^ 62
IsNear (some (negsuc n)) = n < 2 ^ 62

interval-fits :
    (a b : ℤ) (ms : ℕ) → IsNear (some a) → IsNear (some b) → interval a b ≡ some ms → ms < 2 ^ 63
unfolding interval
interval-fits (pos m) (pos n) ms h k e = ground arith
interval-fits (pos m) (negsuc n) ms h k e = absurd (grind arith)
interval-fits (negsuc m) (pos n) ms h k e = ground arith
interval-fits (negsuc m) (negsuc n) ms h k e = ground arith

module _ (float : Float) where
  open float use {F, lit, lt, is_finite, le, add, sub, mul, of_nat, div, maximum, to_nat, floor}

  -- The state is at a point of the track, unless that is empty.
  abbrev pub IsAt {ℓ} : {A : Type ℓ} → (A → F × F) → List A → ℕ → GpsState float → Type ℓ
  IsAt {A} place points idx s =
      (length points ≡ 0)
      ⊎ ((p : A) × (get_elem? points idx ≡ some p)
          × (s.latitude ≡ (place p).0)
          × (s.longitude ≡ (place p).1))

  abbrev pub place : GpxTrackPoint float → F × F
  place p = (p.latitude, p.longitude)

  -- Every time of the track is near the epoch.
  abbrev pub AreNear : List (GpxTrackPoint float) → Type 0
  AreNear = All (λ p. IsNear p.timestamp_ms)

  pub update_replay_telemetry-place :
      (s : GpsState float) (points : List (F × F)) (idx : ℕ) (samples : F)
      → idx < length points
      → Returns
          (λ s'. (s'.latitude ≡ s.latitude) × (s'.longitude ≡ s.longitude))
          (update_replay_telemetry float s points idx samples)
  unfolding update_replay_telemetry
  update_replay_telemetry-place s points idx samples h =
      let Keeps : GpsState float → Type 0 =
        λ s'. (s'.latitude ≡ s.latitude) × (s'.longitude ≡ s.longitude) in
      if_both (Returns Keeps) (idx == 0 || (not (is_finite samples) || le samples (lit 0 0)))
        (refl, refl)
        (Returns-indexed Keeps points (idx - 1) _ (omega arith)
          (λ from e. Returns-indexed Keeps points idx _ h (λ to e'. (refl, refl))))

  visit-some :
      (rounds : ℕ) (points : List (F × F)) (loop_at_end : Bool) (s : GpsState float) (idx : ℕ)
      (remaining : F)
      → idx < length points
      → Returns (λ r. r.1 < length points) (visit float rounds points loop_at_end s idx remaining)
  unfolding visit
  visit-some zero points loop_at_end s idx remaining h = h
  visit-some (suc rounds) points loop_at_end s idx remaining h =
      let InRange : GpsState float × ℕ → Type 0 = λ r. r.1 < length points in
      let next : (if ltb (idx + 1) (length points) then idx + 1 else 0) < length points =
        ground arith in
      Returns-indexed InRange points idx _ h (λ target e.
        if_both (Returns InRange) (lt remaining _) h (
          if_both (Returns InRange) (ltb (idx + 1) (length points) || loop_at_end)
            (visit-some rounds points loop_at_end _ _ _ next) h))

  timestamp_interval_ms-some :
      (from to : GpxTrackPoint float)
      → IsNear from.timestamp_ms
      → IsNear to.timestamp_ms
      → Returns (λ ms. Unit {0}) (timestamp_interval_ms float from to)
  unfolding timestamp_interval_ms
  timestamp_interval_ms-some from to h k =
      let Any : Option F → Type 0 = Returns (λ ms. Unit {0}) in
      option_known Any from.timestamp_ms (λ _. tt)
        (λ a ea.
          option_known Any to.timestamp_ms (λ _. tt)
            (λ b eb.
              option_known Any (interval a b) (λ _. tt)
                (λ ms e.
                  let fits = interval-fits a b ms (subst IsNear ea h) (subst IsNear eb k) e in
                  if_known Any (ltb ms (2 ^ 63)) (λ _. tt)
                    (λ over. absurd (ground (arith, fits, over))))))

  replay-some :
      (fuel : ℕ) (s : GpsState float) (points : List (GpxTrackPoint float)) (idx : ℕ)
      (progress multiplier : F) (moved : Bool) (p : GpxTrackPoint float)
      → AreNear points
      → length points ≤ idx + 1 + fuel
      → get_elem? points idx ≡ some p
      → s.latitude ≡ p.latitude
      → s.longitude ≡ p.longitude
      → Returns
          (λ r. IsAt place points r.1 r.0)
          (replay float fuel s points idx progress multiplier moved)
  unfolding replay arrive
  replay-some zero s points idx progress multiplier moved p near enough at lat lon =
      let here : IsAt place points idx s = inr (p, at, lat, lon) in
      if_known (Returns (λ r. IsAt place points r.1 r.0)) (not (ltb (idx + 1) (length points)))
        (λ last. here) (λ more. absurd (ground arith))
  replay-some (suc fuel) s points idx progress multiplier moved p near enough at lat lon =
      let Arrives : GpsState float × ℕ × F × Bool → Type 0 = λ r. IsAt place points r.1 r.0 in
      let here : IsAt place points idx s = inr (p, at, lat, lon) in
      if_known (Returns Arrives) (not (ltb (idx + 1) (length points))) (λ last. here)
        (λ more.
          let inside : idx + 1 < length points = ground (arith, more) in
          Returns-indexed Arrives points idx _ (omega arith) (λ from e.
            Returns-indexed Arrives points (idx + 1) _ inside (λ to e'.
              returned (λ ms. Unit {0}) Arrives (timestamp_interval_ms float from to) _
                (timestamp_interval_ms-some from to
                  (All-get_elem? (λ p. IsNear p.timestamp_ms) points idx from near e)
                  (All-get_elem? (λ p. IsNear p.timestamp_ms) points (idx + 1) to near e'))
                (λ ms _. if_both (Returns Arrives) (lt progress ms) here (
                  replay-some fuel (arrive float s from to ms multiplier) points (idx + 1) _
                    multiplier true to near (omega arith) e' refl refl)))))

  pub last_in_range {ℓ} :
      {A : Type ℓ} (points : List A) (i : ℕ)
      → (length points == 0) ≡ false
      → min i (length points - 1) < length points
  last_in_range points i h = ground arith

  min_in_range : {n : ℕ} (i : ℕ) → i < n → min i (n - 1) ≡ i
  min_in_range i h = ground arith

  pub step_replay-Lands :
      (s : GpsState float) (points : List (F × F)) (multiplier : F) (idx steps : ℕ)
      → (length points == 0) ≡ false
      → Returns
          (λ r. IsAt (λ (p : F × F). p) points r.1 r.0)
          (step_replay float s points multiplier idx steps)
  unfolding step_replay
  step_replay-Lands s points multiplier idx steps more =
      let Arrives : GpsState float × ℕ → Type 0 = λ r. IsAt (λ (p : F × F). p) points r.1 r.0 in
      let inside =
        last_in_range points (min (min idx (length points - 1) + steps) 18446744073709551615)
          more in
      Returns-indexed Arrives points _ _ inside (λ p e.
        let moved : GpsState float = record s { latitude = p.0; longitude = p.1 } in
        returned (λ (s : GpsState float). (s.latitude ≡ p.0) × (s.longitude ≡ p.1)) Arrives _ _
          (update_replay_telemetry-place moved points _ multiplier inside)
          (λ s' (lat, lon). inr (
            p,
            e,
            if_both (λ (q : GpsState float). q.latitude ≡ p.0) _ lat lat,
            if_both (λ (q : GpsState float). q.longitude ≡ p.1) _ lon lon,
          )))

  pub advance_timestamped_replay-Lands :
      (s : GpsState float) (points : List (GpxTrackPoint float)) (idx : ℕ) (progress multiplier : F)
      (dt_ms : ℕ)
      → AreNear points
      → IsAt place points idx s
      → Returns
          (λ r. IsAt place points r.1 r.0)
          (advance_timestamped_replay float s points idx progress multiplier dt_ms)
  unfolding advance_timestamped_replay
  advance_timestamped_replay-Lands s points idx progress multiplier dt_ms near (inl empty) =
      if_known (Returns (λ r. IsAt place points r.1 r.0))
        (length points == 0 || (not (is_finite multiplier) || le multiplier (lit 0 0)))
        (λ _. inl empty) (λ more. absurd (ground (arith, more, empty)))
  advance_timestamped_replay-Lands s points idx progress multiplier dt_ms near
        (inr (p, at, lat, lon)) =
      let Arrives : GpsState float × ℕ × F → Type 0 = λ r. IsAt place points r.1 r.0 in
      let Reached : GpsState float × ℕ × F × Bool → Type 0 = λ r. IsAt place points r.1 r.0 in
      let start : min idx (length points - 1) ≡ idx =
        min_in_range idx (get_elem?-inside points idx p at) in
      if_known (Returns Arrives)
        (length points == 0 || (not (is_finite multiplier) || le multiplier (lit 0 0)))
        (λ _. inr (p, at, lat, lon))
        (λ more.
          returned Reached Arrives _ _
            (replay-some (length points) s points (min idx (length points - 1)) _ multiplier false p
              near (omega arith) (ap (get_elem? points) start ∙ at) lat lon)
            (λ (s', idx', progress', moved) there.
              if_both (λ (q : GpsState float). IsAt place points idx' q) _ there there))

  pub advance_waypoints-some :
      (s : GpsState float) (points : List (F × F)) (idx : ℕ) (remaining : F) (loop_at_end : Bool)
      → Returns (λ r. Unit {0}) (advance_waypoints float s points idx remaining loop_at_end)
  unfolding advance_waypoints
  advance_waypoints-some s points idx remaining loop_at_end =
      if_known (Returns (λ r. Unit {0})) (length points == 0 || not (is_finite remaining)) (λ _. tt)
        (λ more.
          weakened (λ r. r.1 < length points) (λ r. Unit {0}) _
            (visit-some (length points) points loop_at_end s _ remaining
              (last_in_range points idx (ground (arith, more))))
            (λ r h. tt))
