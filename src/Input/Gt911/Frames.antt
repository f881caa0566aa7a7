-- ===== src/Input/Gt911/Frames.antt =====
-- The frames that the GT911 controller makes of a held contact: `tick` and the acknowledgement of
-- core/input/src/gt911.rs, as a firmware that polls in time drives them.
use project_mycelium.Common.{
  ℕ, ◌+◌, ◌≤◌, ◌≡◌, refl, Bool, true, false, List, [], ◌∷◌, map, Option, none, some, arith,
}
use project_mycelium.Input.Gt911.{
  Gt911Controller, gt911_scan_interval_ms, is_pressed, frame_is_stalled, mark_frame_ready,
}
use project_mycelium.Input.Gt911.Registers.{gt911_status_register, tick, scan_due, i2c_write}

-- What a poll finds: whether a frame is there before the controller's clock runs to the time of the
-- poll and after it, and when the last frame was made.
pub record Poll : Type 0 where
  pub ready_before : Bool
  pub ready_after : Bool
  pub made_at : Option ℕ

-- The firmware lets the clock run to each time, looks whether a frame is there, and acknowledges it.
unfoldable pub frames_seen : Gt911Controller → List ℕ → List Poll
frames_seen c [] = []
frames_seen c (now_ms ∷ times) =
    let c' = tick c now_ms in
    (record {
      ready_before = c.frame_ready;
      ready_after = c'.frame_ready;
      made_at = c'.last_frame_ms;
    })
    ∷ frames_seen (i2c_write c' gt911_status_register (0 ∷ [])) times

-- A frame that was not there before and is made at the time of the poll.
abbrev pub new_frame : ℕ → Poll
new_frame now_ms = record { ready_before = false; ready_after = true; made_at = some now_ms }

-- Each time is at least a scan interval after the one before it.
abbrev pub Spaced : ℕ → List ℕ → Type 0
Spaced last [] = Unit
Spaced last (t ∷ ts) = (last + gt911_scan_interval_ms ≤ t) × Spaced t ts

-- A contact is held, no stall is armed, and the last frame was made at `last` and acknowledged.
abbrev pub IsHeld : ℕ → Gt911Controller → Type 0
IsHeld last c =
    (is_pressed c ≡ true)
    × (c.frame_ready ≡ false)
    × (c.stall_until_ms ≡ none)
    × (c.last_frame_ms ≡ some last)

tick-IsHeld :
    (last now_ms : ℕ) (c : Gt911Controller)
    → IsHeld last c
    → last + gt911_scan_interval_ms ≤ now_ms
    → (c.frame_ready ≡ false)
      × ((tick c now_ms).frame_ready ≡ true)
      × ((tick c now_ms).last_frame_ms ≡ some now_ms)
      × IsHeld now_ms (i2c_write (tick c now_ms) gt911_status_register (0 ∷ []))
unfolding tick scan_due frame_is_stalled mark_frame_ready i2c_write is_pressed
tick-IsHeld last now_ms c (held, ready, free, at) late = ground arith

-- While a contact is held and no stall is armed, a firmware that acknowledges each frame and polls
-- at times at least 10 ms apart finds at every poll a frame that is made at that time; the
-- acknowledgement has taken the one before it away.
pub frames_seen-all :
    (times : List ℕ) (last : ℕ) (c : Gt911Controller)
    → IsHeld last c
    → Spaced last times
    → frames_seen c times ≡ map new_frame times
unfolding frames_seen
frames_seen-all [] last c held spaced = refl
frames_seen-all (t ∷ ts) last c held (late, spaced) =
    let (before, ready, at, held') = tick-IsHeld last t c held late in
    let rest =
      frames_seen-all ts t (i2c_write (tick c t) gt911_status_register (0 ∷ [])) held' spaced in
    cc
