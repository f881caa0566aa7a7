-- ===== src/Gps/Movement.antt =====
-- How the GPS receiver moves, core/gps/src/manager.rs over the state of core/gps/src/nmea.rs. An index
-- out of range, which panics, is `none`; so are a difference of two times that does not fit 64 bits,
-- which panics where overflow is checked, and a loop whose rounds run out.
pub mod Tick
pub mod Track
pub mod OnTrack
use project_mycelium.Common.{
  ℕ, zero, suc, ◌+◌, ◌-◌, ◌^◌, min, Bool, true, false, not, ◌&&◌, ◌||◌, ◌==◌, ltb, leb, List, [],
  ◌∷◌, length, any, get_elem?, Option, none, some, if◌then◌else◌,
}
use project_mycelium.Common.Int.{ℤ, pos, negsuc}
use project_mycelium.Common.Word.{u64_max}
use project_mycelium.Common.Float.{Float}

abbrev pub max_gpx_track_points : ℕ
max_gpx_track_points = 100000

-- `points[i]`, and what is done with it.
abbrev pub indexed {ℓ κ} : {A : Type ℓ} {B : Type κ} → List A → ℕ → (A → Option B) → Option B
indexed points i next = elim (get_elem? points i) [ none ↦ none | some a ↦ next a ]

-- `to_ms - from_ms`, where it is positive.
unfoldable pub interval : ℤ → ℤ → Option ℕ
interval (pos a) (pos b) = if ltb a b then some (b - a) else none
interval (pos a) (negsuc b) = none
interval (negsuc a) (pos b) = some (b + a + 1)
interval (negsuc a) (negsuc b) = if ltb b a then some (a - b) else none

module _ (float : Float) where
  open float use {
    F, lit, of_nat, neg, add, sub, mul, div, lt, le, eq, is_finite, maximum, to_radians, to_degrees,
    sin, cos, asin, sqrt, square, floor, atan2, rem_euclid, to_nat,
  }

  abbrev earth_radius_m : F
  earth_radius_m = lit 6371000 0

  abbrev pub mps_to_knots : F
  mps_to_knots = lit 19438444924406 13

  abbrev pi : F
  pi = lit 3141592653589793 15

  -- Less `fixed_time`, which no movement reads.
  pub record GpsState : Type 0 where
    pub latitude : F
    pub longitude : F
    pub altitude_m : F
    pub speed_knots : F
    pub course_deg : F
    pub satellites : ℕ
    pub hdop : F
    pub fix_quality : ℕ
    pub enabled : Bool

  unfoldable pub new_state : F → F → GpsState
  new_state lat lon = record {
    latitude = lat;
    longitude = lon;
    altitude_m = lit 0 0;
    speed_knots = lit 0 0;
    course_deg = lit 0 0;
    satellites = 8;
    hdop = lit 9 1;
    fix_quality = 1;
    enabled = true;
  }

  pub record GpxTrackPoint : Type 0 where
    pub latitude : F
    pub longitude : F
    pub timestamp_ms : Option ℤ

  pub data MovementModel : Type 0 where
    static : MovementModel
    linear : F → F → MovementModel
    waypoint : List (F × F) → F → ℕ → MovementModel
    gpx_replay : List (F × F) → F → ℕ → MovementModel
    gpx_replay_with_timestamps : List GpxTrackPoint → F → ℕ → MovementModel

  -- The fields of `GpsManager` that movement uses.
  pub record Movement : Type 0 where
    pub state : GpsState
    pub movement : MovementModel
    pub replay_progress : F

  unfoldable pub valid_position : F → F → Bool
  valid_position lat lon =
      is_finite lat
      && is_finite lon
      && (le (neg (lit 90 0)) lat && le lat (lit 90 0))
      && (le (neg (lit 180 0)) lon && le lon (lit 180 0))

  unfoldable pub haversine_m : F × F → F × F → F
  haversine_m (from_lat, from_lon) (to_lat, to_lon) =
      let lat1 = to_radians from_lat in
      let lat2 = to_radians to_lat in
      let delta_lat = to_radians (sub to_lat from_lat) in
      let delta_lon = to_radians (sub to_lon from_lon) in
      let a =
        add (square (sin (div delta_lat (lit 2 0))))
          (mul (mul (cos lat1) (cos lat2)) (square (sin (div delta_lon (lit 2 0))))) in
      mul (mul (lit 2 0) earth_radius_m) (atan2 (sqrt a) (sqrt (sub (lit 1 0) a)))

  unfoldable pub initial_bearing_deg : F × F → F × F → F
  initial_bearing_deg (from_lat, from_lon) (to_lat, to_lon) =
      let lat1 = to_radians from_lat in
      let lat2 = to_radians to_lat in
      let delta_lon = to_radians (sub to_lon from_lon) in
      let y = mul (sin delta_lon) (cos lat2) in
      let x = sub (mul (cos lat1) (sin lat2)) (mul (mul (sin lat1) (cos lat2)) (cos delta_lon)) in
      if eq from_lat to_lat && eq from_lon to_lon
      then lit 0 0
      else rem_euclid (div (mul (atan2 y x) (lit 180 0)) pi) (lit 360 0)

  unfoldable pub move_by_distance : GpsState → F → F → GpsState
  move_by_distance s distance_m bearing_deg =
      let angular = div distance_m earth_radius_m in
      let bearing = to_radians bearing_deg in
      let lat1 = to_radians s.latitude in
      let lon1 = to_radians s.longitude in
      let lat2 =
        asin
          (add (mul (sin lat1) (cos angular)) (mul (mul (cos lat1) (sin angular)) (cos bearing))) in
      let lon2 = add lon1 (
        atan2 (mul (mul (sin bearing) (sin angular)) (cos lat1))
          (sub (cos angular) (mul (sin lat1) (sin lat2)))) in
      if le distance_m (lit 0 0) || not (is_finite distance_m) then s else record s {
        latitude = to_degrees lat2;
        longitude = sub (rem_euclid (add (to_degrees lon2) (lit 540 0)) (lit 360 0)) (lit 180 0);
      }

  unfoldable pub update_replay_telemetry : GpsState → List (F × F) → ℕ → F → Option GpsState
  update_replay_telemetry s points idx samples =
      if idx == 0 || (not (is_finite samples) || le samples (lit 0 0))
      then some (record s { speed_knots = lit 0 0 })
      else indexed points (idx - 1) (λ from. indexed points idx (λ to. some (record s {
        speed_knots = mul (mul (haversine_m from to) samples) mps_to_knots;
        course_deg = initial_bearing_deg from to;
      })))

  -- The loop of `advance_waypoints`, with the rounds that are left.
  unfoldable pub visit : ℕ → List (F × F) → Bool → GpsState → ℕ → F → Option (GpsState × ℕ)
  visit zero points loop_at_end s idx remaining = some (s, idx)
  visit (suc rounds) points loop_at_end s idx remaining = elim (get_elem? points idx) [
    | none ↦ none
    | some target ↦
        let distance = haversine_m (s.latitude, s.longitude) target in
        let turned = record s {
          course_deg = initial_bearing_deg (s.latitude, s.longitude) target;
        } in
        let there = record turned { latitude = target.0; longitude = target.1 } in
        let more = ltb (idx + 1) (length points) in
        let rest =
          visit rounds points loop_at_end there (if more then idx + 1 else 0)
            (sub remaining distance) in
        if lt remaining distance
        then some (move_by_distance turned remaining turned.course_deg, idx)
        else if more || loop_at_end
        then rest
        else some (record there { speed_knots = lit 0 0 }, idx)
  ]

  unfoldable pub advance_waypoints : GpsState → List (F × F) → ℕ → F → Bool → Option (GpsState × ℕ)
  advance_waypoints s points idx remaining loop_at_end =
      if length points == 0 || not (is_finite remaining)
      then some (s, idx)
      else visit (length points) points loop_at_end s (min idx (length points - 1)) remaining

  -- The interval; `none` is a difference that is no `i64`.
  unfoldable pub timestamp_interval_ms : GpxTrackPoint → GpxTrackPoint → Option F
  timestamp_interval_ms from to = elim from.timestamp_ms [
    | none ↦ some (of_nat 1000)
    | some a ↦ elim to.timestamp_ms [
      | none ↦ some (of_nat 1000)
      | some b ↦ elim (interval a b) [
        | none ↦ some (of_nat 1000)
        | some ms ↦ if ltb ms (2 ^ 63) then some (of_nat ms) else none
      ]
    ]
  ]

  abbrev position : GpxTrackPoint → F × F
  position p = (p.latitude, p.longitude)

  -- One round of the loop of `advance_timestamped_replay`, to the next point.
  unfoldable pub arrive : GpsState → GpxTrackPoint → GpxTrackPoint → F → F → GpsState
  arrive s from to interval_ms multiplier = record s {
    latitude = to.latitude;
    longitude = to.longitude;
    speed_knots =
        mul
          (mul (div (haversine_m (position from) (position to)) (div interval_ms (lit 1000 0)))
            multiplier)
          mps_to_knots;
    course_deg = initial_bearing_deg (position from) (position to);
  }

  -- The loop, with fuel; `moved` says whether a point was reached.
  unfoldable pub replay :
      ℕ → GpsState → List GpxTrackPoint → ℕ → F → F → Bool → Option (GpsState × ℕ × F × Bool)
  replay zero s points idx progress multiplier moved =
      if not (ltb (idx + 1) (length points)) then some (s, idx, progress, moved) else none
  replay (suc fuel) s points idx progress multiplier moved =
      if not (ltb (idx + 1) (length points))
      then some (s, idx, progress, moved)
      else indexed points idx (λ from. indexed points (idx + 1) (λ to.
        elim (timestamp_interval_ms from to) [
          | none ↦ none
          | some ms ↦
              let rest =
                replay fuel (arrive s from to ms multiplier) points (idx + 1) (sub progress ms)
                  multiplier true in
              if lt progress ms then some (s, idx, progress, moved) else rest
        ]))

  -- As many rounds as there are points.
  unfoldable pub advance_timestamped_replay :
      GpsState → List GpxTrackPoint → ℕ → F → F → ℕ → Option (GpsState × ℕ × F)
  unfolding replay
  advance_timestamped_replay s points idx progress multiplier dt_ms =
      if length points == 0 || (not (is_finite multiplier) || le multiplier (lit 0 0))
      then some (record s { speed_knots = lit 0 0 }, idx, progress)
      else elim (replay (length points) s points (min idx (length points - 1))
          (add progress (mul (of_nat dt_ms) multiplier)) multiplier false) [
            | none ↦ none
            | some (s', idx', progress', moved) ↦ some (
              if not moved && leb (length points) (idx' + 1)
                  then record s' { speed_knots = lit 0 0 }
                  else s',
              idx',
              progress',
            )
          ]

  unfoldable pub new_movement : F → F → Movement
  unfolding new_state
  new_movement lat lon = record {
    state = new_state lat lon;
    movement = static;
    replay_progress = lit 0 0;
  }

  stopped : GpsState → GpsState
  stopped s = record s { speed_knots = lit 0 0 }

  unfoldable pub set_movement : Movement → MovementModel → Option Movement
  unfolding stopped update_replay_telemetry
  set_movement m (gpx_replay points multiplier idx) =
      let m' = record m {
        movement = gpx_replay points multiplier idx;
        replay_progress = lit 0 0;
      } in
      let at = min idx (length points - 1) in
      if length points == 0
      then some (record m' { state = stopped m.state })
      else indexed points at (λ p.
        elim (update_replay_telemetry (record (m.state) { latitude = p.0; longitude = p.1 }) points
          at multiplier) [
            | none ↦ none
            | some s ↦ some (record m' { state = s; movement = gpx_replay points multiplier at })
          ])
  set_movement m (gpx_replay_with_timestamps points multiplier idx) =
      let m' = record m {
        movement = gpx_replay_with_timestamps points multiplier idx;
        replay_progress = lit 0 0;
      } in
      let at = min idx (length points - 1) in
      if length points == 0
      then some (record m' { state = stopped m.state })
      else indexed points at (λ p. some (record m' {
        state = stopped (record (m.state) { latitude = p.latitude; longitude = p.longitude });
        movement = gpx_replay_with_timestamps points multiplier at;
      }))
  set_movement m static = some (record m { movement = static; replay_progress = lit 0 0 })
  set_movement m (linear speed heading) =
      some (record m { movement = linear speed heading; replay_progress = lit 0 0 })
  set_movement m (waypoint points speed idx) =
      some (record m { movement = waypoint points speed idx; replay_progress = lit 0 0 })

  -- The setters with their checks; the Boolean is the result.
  unfoldable pub accepted : Option Movement → Option (Movement × Bool)
  accepted none = none
  accepted (some m) = some (m, true)

  unfoldable pub set_linear : Movement → F → F → Option (Movement × Bool)
  unfolding set_movement accepted
  set_linear m speed heading =
      if not (is_finite speed) || (lt speed (lit 0 0) || not (is_finite heading))
      then some (m, false)
      else accepted (set_movement m (linear speed heading))

  unfoldable pub set_waypoints : Movement → List (F × F) → F → Option (Movement × Bool)
  unfolding set_movement accepted valid_position
  set_waypoints m points speed =
      if length points == 0
        || (ltb max_gpx_track_points (length points)
            || (not (is_finite speed)
                || (lt speed (lit 0 0) || any (λ p. not (valid_position p.0 p.1)) points)))
      then some (m, false)
      else accepted (set_movement m (waypoint points speed 0))

  unfoldable pub set_gpx_replay : Movement → List GpxTrackPoint → F → Option (Movement × Bool)
  unfolding set_movement accepted valid_position
  set_gpx_replay m points multiplier =
      if length points == 0
        || (ltb max_gpx_track_points (length points)
            || (not (is_finite multiplier)
                || (le multiplier (lit 0 0)
                    || any (λ p. not (valid_position p.latitude p.longitude)) points)))
      then some (m, false)
      else accepted (set_movement m (gpx_replay_with_timestamps points multiplier 0))
