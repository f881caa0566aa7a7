-- ===== src/Input/Manager/Finger.antt =====
-- What a mouse call of core/input/src/touch.rs reports, and the finger that it leaves on the panel.
use project_mycelium.Common.{
  ℕ, ◌≡◌, ◌≢◌, refl, ap, ◌%◌, Bool, true, false, not, ◌||◌, leb, Option, none, some, if◌then◌else◌,
  if_both, if_known, option_both, option_known, arith,
}
use project_mycelium.Common.Int.{ℤ}
use project_mycelium.Common.Float.{Float}
use project_mycelium.Input.MouseTouch.{
  Gt911TouchEvent, MouseButton, portrait_event, TouchEmulator, scale_position, emit,
  handle_mouse_motion, handle_mouse_button, handle_mouse_button_at, inject, same, is_left,
}

abbrev is_some : {A : Type 0} → Option A → Bool
is_some none = false
is_some (some a) = true

module _ (float : Float) where
  -- The position of the finger, while it is down: that of the last event.
  abbrev pub finger : TouchEmulator float → Option (ℕ × ℕ)
  finger t =
      if t.pressing then elim t.last_touch [ none ↦ none | some e ↦ some (e.x, e.y) ] else none

  -- A finger that is down has a host position.
  abbrev pub IsPlaced : TouchEmulator float → Type 0
  IsPlaced t = (not t.pressing || is_some t.last_host_position) ≡ true

  -- Without an event the finger stays; an event is that of the host position, and the finger is
  -- down or up as it says.
  abbrev pub Reports :
      TouchEmulator float → Bool → TouchEmulator float × Option Gt911TouchEvent → Type 0
  Reports t pressed (t', none) =
      (finger t' ≡ finger t) × IsPlaced t' × (t'.contact_size ≡ t.contact_size)
  Reports t pressed (t', some e) =
      (host : ℕ × ℕ) × (t'.last_host_position ≡ some host)
      × (e ≡ portrait_event host pressed t.contact_size)
      × (t'.pressing ≡ pressed)
      × (t'.last_touch ≡ some e)
      × (t'.contact_size ≡ t.contact_size)

  -- A button that changes has a position to report.
  never :
      (t : TouchEmulator float) (pressed : Bool)
      → IsPlaced t
      → (is_some t.last_host_position || not pressed) ≡ true
      → same t.pressing pressed ≡ false
      → t.last_host_position ≢ none
  never t pressed v somewhere unlike nowhere = ground arith

  emit-Reports :
      (before t : TouchEmulator float) (host : ℕ × ℕ) (pressed : Bool)
      → t.last_host_position ≡ some host
      → t.pressing ≡ pressed
      → t.contact_size ≡ before.contact_size
      → Reports before pressed (emit float t host pressed)
  unfolding emit
  emit-Reports before t host pressed h p s =
      (host, h, ap (portrait_event host pressed) s, p, refl, s)

  pub inject-Reports :
      (t : TouchEmulator float) (x y : ℕ) (pressed : Bool)
      → IsPlaced t
      → Reports t pressed (inject float t x y pressed)
  unfolding inject
  inject-Reports t x y pressed v =
      let kept : Reports t pressed (t, none) = (refl, v, refl) in
      let down : TouchEmulator float = record t {
        pressing = pressed;
        last_host_position = some (x, y);
      } in
      if_both (Reports t pressed)
        (leb (t.display_width % 65536) x || leb (t.display_height % 65536) y) kept
        (emit-Reports t down (x, y) pressed refl refl refl)

  placed_anywhere : (up : Bool) → (up || true) ≡ true
  placed_anywhere up = ground arith

  pub handle_mouse_motion-Reports :
      (t : TouchEmulator float) (x y : ℤ)
      → IsPlaced t
      → Reports t true (handle_mouse_motion float t x y)
  unfolding handle_mouse_motion
  handle_mouse_motion-Reports t x y v =
      let kept : Reports t true (t, none) = (refl, v, refl) in
      option_both (Reports t true) (scale_position float t x y) kept (λ host e.
        let moved : TouchEmulator float = record t { last_host_position = some host } in
        let still : Reports t true (moved, none) = (refl, placed_anywhere (not t.pressing), refl) in
        if_known (Reports t true) (not t.pressing) (λ up. still)
          (λ down. emit-Reports t moved host true refl (ground (arith, down)) refl))

  handle_mouse_button-Reports :
      (t : TouchEmulator float) (button : MouseButton) (pressed : Bool)
      → IsPlaced t
      → (is_some t.last_host_position || not pressed) ≡ true
      → Reports t pressed (handle_mouse_button float t button pressed)
  unfolding handle_mouse_button
  handle_mouse_button-Reports t button pressed v somewhere =
      let kept : Reports t pressed (t, none) = (refl, v, refl) in
      let changed : TouchEmulator float = record t { pressing = pressed } in
      if_both (Reports t pressed) (not (is_left button)) kept (
        if_known (Reports t pressed) (same t.pressing pressed) (λ e. kept)
          (λ unlike.
            option_known (Reports t pressed) t.last_host_position
              (λ nowhere. absurd (never t pressed v somewhere unlike nowhere))
              (λ host e. emit-Reports t changed host pressed e refl refl)))

  Reports-moved :
      (t : TouchEmulator float) (host : ℕ × ℕ) (pressed : Bool)
      (r : TouchEmulator float × Option Gt911TouchEvent)
      → Reports (record t { last_host_position = some host }) pressed r
      → Reports t pressed r
  Reports-moved t host pressed (t', none) h = h
  Reports-moved t host pressed (t', some e) h = h

  pub handle_mouse_button_at-Reports :
      (t : TouchEmulator float) (button : MouseButton) (pressed : Bool) (x y : ℤ)
      → IsPlaced t
      → Reports t pressed (handle_mouse_button_at float t button pressed x y)
  unfolding handle_mouse_button_at
  handle_mouse_button_at-Reports t button pressed x y v =
      let kept : Reports t pressed (t, none) = (refl, v, refl) in
      option_both (Reports t pressed) (scale_position float t x y)
        (if_known (Reports t pressed) pressed (λ down. kept)
          (λ up.
            handle_mouse_button-Reports t button pressed v
              (ground (arith, up, placed_anywhere (is_some t.last_host_position)))))
        (λ host e.
          let moved : TouchEmulator float = record t { last_host_position = some host } in
          Reports-moved t host pressed (handle_mouse_button float moved button pressed) (
            handle_mouse_button-Reports moved button pressed (placed_anywhere (not t.pressing))
              refl))
