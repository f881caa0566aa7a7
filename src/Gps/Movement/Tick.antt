-- ===== src/Gps/Movement/Tick.antt =====
-- The movement of one tick, in core/gps/src/manager.rs, and sequences of ticks and settings.
use project_mycelium.Common.{
  ℕ, ◌+◌, ◌-◌, min, Bool, false, not, ◌&&◌, ◌||◌, ◌==◌, List, [], ◌∷◌, length, Option, none, some,
  if◌then◌else◌,
}
use project_mycelium.Common.Word.{u64_max}
use project_mycelium.Common.Float.{Float}
use project_mycelium.Gps.Movement.{
  GpsState, GpxTrackPoint, MovementModel, static, linear, waypoint, gpx_replay,
  gpx_replay_with_timestamps, Movement, indexed, move_by_distance, advance_waypoints,
  advance_timestamped_replay, update_replay_telemetry, set_movement, set_linear, set_waypoints,
  set_gpx_replay, mps_to_knots,
}

module _ (float : Float) where
  open float use {
    F, lit, of_nat, add, sub, mul, div, le, is_finite, maximum, floor, rem_euclid, to_nat,
  }

  abbrev knots : F → F
  knots speed = mul speed (mps_to_knots float)

  -- Linear movement for some seconds.
  unfoldable pub tick_linear : GpsState float → F → F → F → GpsState float
  tick_linear s speed_ms heading dt_s =
      let speed = maximum speed_ms (lit 0 0) in
      let course = rem_euclid heading (lit 360 0) in
      if is_finite speed && is_finite heading
      then move_by_distance float (record s { speed_knots = knots speed; course_deg = course })
          (mul speed dt_s) course
      else s

  -- The replay of samples at a rate, where `steps` samples are due.
  unfoldable pub step_replay :
      GpsState float → List (F × F) → F → ℕ → ℕ → Option (GpsState float × ℕ)
  step_replay s points multiplier idx steps =
      let old = min idx (length points - 1) in
      let at = min (min (old + steps) u64_max) (length points - 1) in
      indexed points at (λ p.
        elim (update_replay_telemetry float (record s { latitude = p.0; longitude = p.1 }) points at
          multiplier) [
            | none ↦ none
            | some s' ↦ some (if at == old then record s' { speed_knots = lit 0 0 } else s', at)
          ])

  -- The `match` of `tick`; `none` is an index out of range, or a loop that does not end.
  unfoldable pub tick_model : Movement float → MovementModel float → ℕ → Option (Movement float)
  unfolding tick_linear step_replay
  tick_model m static dt_ms = some (record m { state = record (m.state) { speed_knots = lit 0 0 } })
  tick_model m (linear speed heading) dt_ms =
      some
        (record m { state = tick_linear m.state speed heading (div (of_nat dt_ms) (lit 1000 0)) })
  tick_model m (waypoint points speed_ms idx) dt_ms =
      let speed = maximum speed_ms (lit 0 0) in
      elim (advance_waypoints float (record (m.state) { speed_knots = knots speed }) points idx
        (mul speed (div (of_nat dt_ms) (lit 1000 0))) false) [
          | none ↦ none
          | some (s, at) ↦ some (record m { state = s; movement = waypoint points speed_ms at })
        ]
  tick_model m (gpx_replay points multiplier idx) dt_ms =
      let progress = add m.replay_progress (mul (div (of_nat dt_ms) (lit 1000 0)) multiplier) in
      let steps = to_nat (floor progress) in
      if length points == 0 || (not (is_finite multiplier) || le multiplier (lit 0 0))
      then some (record m { state = record (m.state) { speed_knots = lit 0 0 } })
      else if steps == 0
      then some (record m { replay_progress = progress })
      else elim (step_replay m.state points multiplier idx steps) [
        | none ↦ none
        | some (s, at) ↦ some (record m {
          state = s;
          movement = gpx_replay points multiplier at;
          replay_progress = sub progress (of_nat steps);
        })
      ]
  tick_model m (gpx_replay_with_timestamps points multiplier idx) dt_ms =
      elim (advance_timestamped_replay float m.state points idx m.replay_progress multiplier
        dt_ms) [
          | none ↦ none
          | some (s, at, progress) ↦ some (record m {
            state = s;
            movement = gpx_replay_with_timestamps points multiplier at;
            replay_progress = progress;
          })
        ]

  unfoldable pub tick_movement : Movement float → ℕ → Option (Movement float)
  unfolding tick_model
  tick_movement m dt_ms = tick_model m m.movement dt_ms

  -- One call; `select` is `set_movement` with any model, and the last three have checks.
  pub data Call : Type 0 where
    ticks : ℕ → Call
    select : MovementModel float → Call
    linearly : F → F → Call
    along : List (F × F) → F → Call
    replays : List (GpxTrackPoint float) → F → Call

  unfoldable pub dropped : Option (Movement float × Bool) → Option (Movement float)
  dropped none = none
  dropped (some (m, done)) = some m

  unfoldable pub call : Movement float → Call → Option (Movement float)
  unfolding dropped
  call m (ticks dt_ms) = tick_movement m dt_ms
  call m (select model) = set_movement float m model
  call m (linearly speed heading) = dropped (set_linear float m speed heading)
  call m (along points speed) = dropped (set_waypoints float m points speed)
  call m (replays points multiplier) = dropped (set_gpx_replay float m points multiplier)

  unfoldable pub run_movement : Movement float → List Call → Option (Movement float)
  run_movement m [] = some m
  run_movement m (c ∷ cs) = elim (call m c) [ none ↦ none | some m' ↦ run_movement m' cs ]
