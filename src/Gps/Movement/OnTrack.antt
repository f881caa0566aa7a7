-- ===== src/Gps/Movement/OnTrack.antt =====
-- Positions on a track after sequences of calls on the movement of core/gps/src/manager.rs.
use project_mycelium.Common.{
  ℕ, ◌≡◌, refl, sym, subst, inl, inr, Bool, true, false, not, ◌||◌, ◌==◌, List, [], ◌∷◌, length,
  Option, none, some, if◌then◌else◌, ==_iff, if_both, if_known, All, arith,
}
use project_mycelium.Common.Float.{Float}
use project_mycelium.Gps.Movement.{
  GpsState, MovementModel, static, linear, waypoint, gpx_replay, gpx_replay_with_timestamps,
  Movement, set_movement, set_linear, set_waypoints, set_gpx_replay, accepted,
}
use project_mycelium.Gps.Movement.Tick.{
  Call, ticks, select, linearly, along, replays, call, run_movement, tick_movement, tick_model,
  step_replay, tick_linear, dropped,
}
use project_mycelium.Gps.Movement.Track.{
  Returns, Returns-indexed, returned, IsAt, place, AreNear, update_replay_telemetry-place,
  last_in_range, step_replay-Lands, advance_timestamped_replay-Lands, advance_waypoints-some,
}

module _ (float : Float) where
  open float use {F, lit, lt, is_finite, le, add, sub, mul, of_nat, div, maximum, to_nat, floor}

  -- In a replay the position is that of the current point, and the times are near the epoch.
  abbrev pub OnTrack : MovementModel float → GpsState float → Type 0
  OnTrack static s = Unit
  OnTrack (linear speed heading) s = Unit
  OnTrack (waypoint points speed idx) s = Unit
  OnTrack (gpx_replay points multiplier idx) s = IsAt float (λ (p : F × F). p) points idx s
  OnTrack (gpx_replay_with_timestamps points multiplier idx) s =
      IsAt float (place float) points idx s × AreNear float points

  -- A call gives no track with times that are not near the epoch.
  abbrev pub GivesNear : Call float → Type 0
  GivesNear (select (gpx_replay_with_timestamps points multiplier idx)) = AreNear float points
  GivesNear (replays points multiplier) = AreNear float points
  GivesNear _ = Unit

  -- After a call the position is on the track.
  abbrev Lands : Option (Movement float) → Type 0
  Lands = Returns (λ m. OnTrack m.movement m.state)

  set_movement-Lands :
      (m : Movement float) (model : MovementModel float)
      → GivesNear (select model)
      → Lands (set_movement float m model)
  unfolding set_movement
  set_movement-Lands m static near = tt
  set_movement-Lands m (linear speed heading) near = tt
  set_movement-Lands m (waypoint points speed idx) near = tt
  set_movement-Lands m (gpx_replay points multiplier idx) near =
      if_known Lands (length points == 0) (λ empty. inl ((==_iff (length points) 0).0 empty))
        (λ more.
          Returns-indexed (λ m. OnTrack m.movement m.state) points _ _
            (last_in_range float points idx more)
            (λ p e.
              let moved : GpsState float = record (m.state) { latitude = p.0; longitude = p.1 } in
              returned (λ (s : GpsState float). (s.latitude ≡ p.0) × (s.longitude ≡ p.1))
                (λ (m : Movement float). OnTrack m.movement m.state) _ _
                (update_replay_telemetry-place float moved points _ multiplier
                  (last_in_range float points idx more))
                (λ s (lat, lon). inr (p, e, lat, lon))))
  set_movement-Lands m (gpx_replay_with_timestamps points multiplier idx) near =
      if_known Lands (length points == 0)
        (λ empty. (inl ((==_iff (length points) 0).0 empty), near))
        (λ more.
          Returns-indexed (λ m. OnTrack m.movement m.state) points _ _
            (last_in_range float points idx more) (λ p e. (inr (p, e, refl, refl), near)))

  tick_model-Lands :
      (m : Movement float) (model : MovementModel float) (dt_ms : ℕ)
      → m.movement ≡ model
      → OnTrack model m.state
      → Lands (tick_model float m model dt_ms)
  unfolding tick_model
  tick_model-Lands m static dt_ms e h =
      subst (λ model. OnTrack model (record (m.state) { speed_knots = lit 0 0 })) (sym e) tt
  tick_model-Lands m (linear speed heading) dt_ms e h =
      subst
        (λ model.
          OnTrack model (tick_linear float m.state speed heading (div (of_nat dt_ms) (lit 1000 0))))
        (sym e) tt
  tick_model-Lands m (waypoint points speed idx) dt_ms e h =
      returned (λ r. Unit {0}) (λ (m : Movement float). OnTrack m.movement m.state) _ _
        (advance_waypoints-some float _ points idx _ false) (λ r _. tt)
  tick_model-Lands m (gpx_replay points multiplier idx) dt_ms e h =
      let progress = add m.replay_progress (mul (div (of_nat dt_ms) (lit 1000 0)) multiplier) in
      let steps = to_nat (floor progress) in
      let back : Lands (some (record m { replay_progress = progress })) =
        subst (λ model. OnTrack model m.state) (sym e) h in
      if_known Lands (length points == 0 || (not (is_finite multiplier) || le multiplier (lit 0 0)))
        (λ _. subst (λ model. OnTrack model (record (m.state) { speed_knots = lit 0 0 })) (sym e) h)
        (λ more. if_both Lands (steps == 0) back (
          returned (λ r. IsAt float (λ (p : F × F). p) points r.1 r.0)
            (λ (m : Movement float). OnTrack m.movement m.state)
            (step_replay float m.state points multiplier idx steps)
            (λ (s, at). some (record m {
              state = s;
              movement = gpx_replay points multiplier at;
              replay_progress = sub progress (of_nat steps);
            }))
            (step_replay-Lands float m.state points multiplier idx steps (ground (arith, more)))
            (λ r there. there)))
  tick_model-Lands m (gpx_replay_with_timestamps points multiplier idx) dt_ms e h =
      returned (λ r. IsAt float (place float) points r.1 r.0)
        (λ (m : Movement float). OnTrack m.movement m.state) _ _
        (advance_timestamped_replay-Lands float m.state points idx _ multiplier dt_ms h.1 h.0)
        (λ r there. (there, h.1))

  -- What a setter with checks leaves.
  setter-Lands :
      (m : Movement float) (refused : Bool) (model : MovementModel float)
      → GivesNear (select model)
      → OnTrack m.movement m.state
      → Lands (
          dropped float
            (if refused then some (m, false) else accepted float (set_movement float m model)))
  unfolding dropped accepted
  setter-Lands m true model near h = h
  setter-Lands m false model near h =
      kept (set_movement float m model) (set_movement-Lands m model near)
    where
      kept : (o : Option (Movement float)) → Lands o → Lands (dropped float (accepted float o))
      kept none h = h
      kept (some m) h = h

  call-Lands :
      (m : Movement float) (c : Call float)
      → GivesNear c
      → OnTrack m.movement m.state
      → Lands (call float m c)
  unfolding call tick_movement set_linear set_waypoints set_gpx_replay
  call-Lands m (ticks dt_ms) near h = tick_model-Lands m m.movement dt_ms refl h
  call-Lands m (select model) near h = set_movement-Lands m model near
  call-Lands m (linearly speed heading) near h = setter-Lands m _ (linear speed heading) tt h
  call-Lands m (along points speed) near h = setter-Lands m _ (waypoint points speed 0) tt h
  call-Lands m (replays points multiplier) near h =
      setter-Lands m _ (gpx_replay_with_timestamps points multiplier 0) near h

  -- From a state whose position is on its track (any state, where the movement is not a replay), and
  -- where every time of its track and of the tracks that are set is within 2^62 ms of the epoch,
  -- every sequence of ticks and of settings, accepted or refused, returns: no index is out of range,
  -- no difference of times overflows and every loop of a tick ends. Afterwards, where the movement is
  -- a replay of a track that is not empty, the reported latitude and longitude are exactly those of
  -- the point at the current index.
  pub run_movement-OnTrack :
      (cs : List (Call float)) (m : Movement float)
      → All GivesNear cs
      → OnTrack m.movement m.state
      → Returns (λ m'. OnTrack m'.movement m'.state) (run_movement float m cs)
  unfolding run_movement
  run_movement-OnTrack [] m near h = h
  run_movement-OnTrack (c ∷ cs) m (first, near) h =
      returned (λ (m : Movement float). OnTrack m.movement m.state)
        (λ (m : Movement float). OnTrack m.movement m.state) _ (λ m'. run_movement float m' cs)
        (call-Lands m c first h) (λ m' on. run_movement-OnTrack cs m' near on)
