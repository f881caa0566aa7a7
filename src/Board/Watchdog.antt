-- ===== src/Board/Watchdog.antt =====
-- The task watchdog of a board, core/board/src/lib.rs. `now` is the monotonic clock's time at a
-- call, in nanoseconds.
use project_mycelium.Common.{
  ℕ, suc, ◌-◌, ◌*◌, ◌≡◌, refl, ap, ap₂, ◌∙◌, Bool, true, false, ◌||◌, ltb, List, [], ◌∷◌, length,
  replicate, none, some, arith, if◌then◌else◌, if_known,
}
use project_mycelium.Board.State.{
  TaskWatchdog, VirtualBoard, Shared, reset_reason_task_wdt, set_reset_reason,
}

abbrev pub wdt_status_disabled : ℕ
wdt_status_disabled = 0

abbrev pub wdt_status_enabled : ℕ
wdt_status_enabled = 1

abbrev pub wdt_status_timed_out : ℕ
wdt_status_timed_out = 2

module _ {F : Type 0} where
  unfoldable pub wdt_init : VirtualBoard F → ℕ → ℕ → Bool → VirtualBoard F
  wdt_init b now timeout_sec panic_on_timeout = record b {
    watchdog = some (record {
      timeout = timeout_sec * 1000000000;
      panic_on_timeout = panic_on_timeout;
      last_feed = now;
      timed_out = false;
    });
  }

  unfoldable pub refresh_watchdog : Shared → VirtualBoard F → ℕ → Shared × VirtualBoard F
  refresh_watchdog g b now = elim b.watchdog [
    | none ↦ (g, b)
    | some w ↦ if w.timed_out || ltb (now - w.last_feed) w.timeout then (g, b) else (
      if w.panic_on_timeout then set_reset_reason g b.instance_id reset_reason_task_wdt else g,
      record b { watchdog = some (record w { timed_out = true }) },
    )
  ]

  unfoldable pub wdt_feed : Shared → VirtualBoard F → ℕ → Shared × VirtualBoard F × Bool
  wdt_feed g b now = elim b.watchdog [
    | none ↦ (g, b, false)
    | some _ ↦
        let (g', b') = refresh_watchdog g b now in
        elim b'.watchdog [
          | none ↦ (g', b', false)
          | some w ↦
              if w.timed_out
              then (g', b', false)
              else (g', record b' { watchdog = some (record w { last_feed = now }) }, true)
        ]
  ]

  unfoldable pub wdt_status : Shared → VirtualBoard F → ℕ → Shared × VirtualBoard F × ℕ
  wdt_status g b now =
      let (g', b') = refresh_watchdog g b now in
      (
        g',
        b',
        elim b'.watchdog [
          | none ↦ wdt_status_disabled
          | some w ↦ if w.timed_out then wdt_status_timed_out else wdt_status_enabled
        ],
      )

  unfoldable pub wdt_disable : VirtualBoard F → VirtualBoard F
  wdt_disable b = record b { watchdog = none }

  -- The answers of feeding at each of some times.
  unfoldable pub feeds : Shared → VirtualBoard F → List ℕ → List Bool
  feeds g b [] = []
  feeds g b (now ∷ times) = let (g', b', fed) = wdt_feed g b now in fed ∷ feeds g' b' times

-- The answers that feeding should have: true as long as each time is less than the timeout after
-- the one before it, and false for good from the first that is not.
unfoldable pub in_time : ℕ → ℕ → List ℕ → List Bool
in_time timeout last [] = []
in_time timeout last (now ∷ times) =
    let rest = in_time timeout now times in
    if ltb (now - last) timeout then true ∷ rest else replicate (suc (length times)) false

module _ {F : Type 0} where
  feed-timed_out :
      (g : Shared) (b : VirtualBoard F) (w : TaskWatchdog) (now : ℕ)
      → b.watchdog ≡ some w
      → w.timed_out ≡ true
      → wdt_feed g b now ≡ (g, b, false)
  unfolding wdt_feed refresh_watchdog
  feed-timed_out g b w now e out = ground (arith, e, out)

  feed-late :
      (g : Shared) (b : VirtualBoard F) (w : TaskWatchdog) (now : ℕ)
      → b.watchdog ≡ some w
      → w.timed_out ≡ false
      → ltb (now - w.last_feed) w.timeout ≡ false
      → ((wdt_feed g b now).2 ≡ false)
        × (((wdt_feed g b now).1).watchdog ≡ some (record w { timed_out = true }))
  unfolding wdt_feed refresh_watchdog
  feed-late g b w now e fresh late = ground (arith, e, fresh, late)

  feed-early :
      (g : Shared) (b : VirtualBoard F) (w : TaskWatchdog) (now : ℕ)
      → b.watchdog ≡ some w
      → w.timed_out ≡ false
      → ltb (now - w.last_feed) w.timeout ≡ true
      → ((wdt_feed g b now).2 ≡ true)
        × (((wdt_feed g b now).1).watchdog ≡ some (record w { last_feed = now }))
  unfolding wdt_feed refresh_watchdog
  feed-early g b w now e fresh early = ground (arith, e, fresh, early)

  feeds-timed_out :
      (times : List ℕ) (g : Shared) (b : VirtualBoard F) (w : TaskWatchdog)
      → b.watchdog ≡ some w
      → w.timed_out ≡ true
      → feeds g b times ≡ replicate (length times) false
  unfolding feeds
  feeds-timed_out [] g b w e out = refl
  feeds-timed_out (now ∷ times) g b w e out =
      let still = feed-timed_out g b w now e out in
      let rest = feeds-timed_out times g b w e out in
      ap (λ r. r.2 ∷ feeds (r.0) (r.1) times) still ∙ ap (λ answers. false ∷ answers) rest

  -- Feeding a watchdog that has not run out answers true as long as each feed comes less than the
  -- timeout after the one before it; from the first that comes later on, every feed answers false.
  pub feeds-in_time :
      (times : List ℕ) (g : Shared) (b : VirtualBoard F) (w : TaskWatchdog)
      → b.watchdog ≡ some w
      → w.timed_out ≡ false
      → feeds g b times ≡ in_time w.timeout w.last_feed times
  unfolding feeds in_time
  feeds-in_time [] g b w e fresh = refl
  feeds-in_time (now ∷ times) g b w e fresh =
      let after = wdt_feed g b now in
      if_known (λ answers. after.2 ∷ feeds (after.0) (after.1) times ≡ answers)
        (ltb (now - w.last_feed) w.timeout)
        (λ early.
          let (fed, kept) = feed-early g b w now e fresh early in
          let rest =
            feeds-in_time times (after.0) (after.1) (record w { last_feed = now }) kept fresh in
          ap₂ (λ a answers. a ∷ answers) fed rest)
        (λ late.
          let (fed, kept) = feed-late g b w now e fresh late in
          let rest =
            feeds-timed_out times (after.0) (after.1) (record w { timed_out = true }) kept refl in
          ap₂ (λ a answers. a ∷ answers) fed rest)
