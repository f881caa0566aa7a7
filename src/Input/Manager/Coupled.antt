-- ===== src/Input/Manager/Coupled.antt =====
-- The mouse, the event queues and the touch controller of an input manager agree over any sequence
-- of the calls of core/input/src/manager.rs.
use project_mycelium.Common.{
  ℕ, ◌-◌, ◌≡◌, refl, sym, ap, ◌∙◌, subst, Bool, true, false, Option, none, some, if◌then◌else◌, min,
  arith,
}
use mathlib.Core.Option
use project_mycelium.Common.Float.{Float}
use project_mycelium.Input.Gt911.{Gt911Point, Gt911Controller}
use project_mycelium.Input.Gt911.Touch.{
  inject_touch as inject_contact, touch_mapped, reversed, clamp_to,
}
use project_mycelium.Input.MouseTouch.{Gt911TouchEvent, portrait_event, TouchEmulator}
use project_mycelium.Input.Manager.{InputManager, update_gt911, after_touch}
use project_mycelium.Input.Manager.Contact.{Contact, Shows, touch_mapped-Shows}
use project_mycelium.Input.Manager.Finger.{finger, IsPlaced, Reports}

abbrev pub position : Contact → ℕ × ℕ
position (raw, p) = (p.x, p.y)

abbrev raw_at : ℕ → ℕ → ℕ × ℕ
raw_at x y = (min x 65535, min y 65535)

abbrev point_at : ℕ → ℕ → ℕ → Gt911Point
point_at x y size = record { track_id = 0; x = min y 239; y = 319 - x; size = size }

-- What a controller shows of some contact is what it shows of its own.
pub Shows-self :
    {o : Option Contact} {size size' : ℕ} (c : Gt911Controller)
    → Shows o size c
    → size ≡ size'
    → Shows c.physical_primary size' c
Shows-self {o} {size} {size'} c (h, sl, n, cs) e =
    subst (λ q. Shows q size' c) (sym h) (h, sl, n, cs ∙ e)

module _ (float : Float) where
  -- The physical contact lies where the finger is, with the controller's first slot showing it
  -- unless the phantom latch is on, and the contact sizes are equal.
  abbrev pub IsCoupled : InputManager float → Type 0
  IsCoupled m =
      Shows m.gt911.physical_primary m.touch.contact_size m.gt911
      × (Option.map position m.gt911.physical_primary ≡ finger float m.touch)
      × IsPlaced float m.touch

  -- The controller is told of the host position.
  update_gt911_lem :
      (m : InputManager float) (pressed : Bool) (x y : ℕ)
      → m.touch.last_host_position ≡ some (x, y)
      → update_gt911 float m pressed ≡ record m {
        gt911 = touch_mapped m.gt911 (raw_at x y) (point_at x y m.gt911.contact_size) pressed;
      }
  unfolding update_gt911 inject_contact reversed clamp_to
  update_gt911_lem m pressed x y at = rw at refl

  finger-at :
      (t : TouchEmulator float) (pressed : Bool) (e : Gt911TouchEvent) (x y size other : ℕ)
      → e ≡ portrait_event (x, y) pressed size
      → t.pressing ≡ pressed
      → t.last_touch ≡ some e
      → Option.map position (if pressed then some (raw_at x y, point_at x y other) else none)
        ≡ finger float t
  unfolding portrait_event
  finger-at t true e x y size other event down last = ground (arith, down, last, event)
  finger-at t false e x y size other event down last = ground (arith, down)

  -- The touch controller gets the contact of the event.
  pub after_touch-IsCoupled :
      (m : InputManager float) (pressed : Bool) (r : TouchEmulator float × Option Gt911TouchEvent)
      → IsCoupled m
      → Reports float m.touch pressed r
      → IsCoupled (after_touch float m r pressed).0
  unfolding after_touch
  after_touch-IsCoupled m pressed (t, none) ((h, sl, n, cs), e, p) (f, p', s) =
      ((refl, sl, n, cs ∙ sym s), e ∙ sym f, p')
  after_touch-IsCoupled m pressed (t, some e) (v, q, p) ((x, y), at, event, down, last, s) =
      let size = m.gt911.contact_size in
      let c = touch_mapped m.gt911 (raw_at x y) (point_at x y size) pressed in
      let w =
        touch_mapped-Shows m.gt911 (raw_at x y) (point_at x y size) pressed m.gt911.physical_primary
          m.touch.contact_size v in
      subst IsCoupled (sym (update_gt911_lem (record m { touch = t }) pressed x y at)) (
        Shows-self c w (sym s),
        ap (Option.map position) w.0
            ∙ finger-at t pressed e x y m.touch.contact_size size event down last,
        ground (arith, at),
      )
