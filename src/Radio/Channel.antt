-- ===== src/Radio/Channel.antt =====
-- The state of one set of modulation parameters: core/radio_bus/src/channel.rs.
use project_mycelium.Common.{
  ℕ, ◌≤◌, ◌≡◌, refl, ap, Bool, true, false, not, ◌||◌, ◌&&◌, ◌==◌, ltb, List, [], ◌∷◌, ◌++◌, retain,
  retain_idem, if◌then◌else◌, arith,
}
use project_mycelium.Common.Word.{sat_add64}
use project_mycelium.Radio.Types.{RadioChannel, TxEvent}
use project_mycelium.Radio.Overlap.{transmissions_overlap}

pub record ChannelState (F : Type 0) : Type 0 where
  pub channel : RadioChannel F
  pub active_transmissions : List (TxEvent F)

unfoldable pub intervals_overlap : ℕ → ℕ → ℕ → ℕ → Bool
intervals_overlap first_start first_duration second_start second_duration =
    if first_duration == 0 || second_duration == 0
    then false
    else let first_end = sat_add64 first_start first_duration in
      let second_end = sat_add64 second_start second_duration in
      ltb first_start second_end && ltb second_start first_end

module _ {F : Type 0} where
  unfoldable pub new : RadioChannel F → ChannelState F
  new channel = record { channel = channel; active_transmissions = [] }

  is_empty : List (TxEvent F) → Bool
  is_empty [] = true
  is_empty (tx ∷ txs) = false

  unfoldable pub is_busy : ChannelState F → Bool
  unfolding is_empty
  is_busy s = not (is_empty s.active_transmissions)

  unfoldable pub add_transmission : ChannelState F → TxEvent F → ChannelState F
  add_transmission s tx = record s { active_transmissions = s.active_transmissions ++ tx ∷ [] }

  unfoldable pub overlapping_transmissions : ChannelState F → ℕ → ℕ → List (TxEvent F)
  overlapping_transmissions s start_ms duration_ms =
      retain (λ tx. intervals_overlap start_ms duration_ms tx.timestamp_ms tx.airtime_ms)
        s.active_transmissions

  -- Whether the receive interval overlaps an active transmission.
  unfoldable pub check_collision : ChannelState F → ℕ → ℕ → Bool
  unfolding is_empty
  check_collision s rx_time_ms rx_duration_ms =
      not (is_empty (overlapping_transmissions s rx_time_ms rx_duration_ms))

  unfoldable pub remove_expired : ChannelState F → ℕ → ChannelState F
  remove_expired s now_ms = record s {
    active_transmissions =
        retain (λ tx. ltb now_ms (sat_add64 tx.timestamp_ms tx.airtime_ms)) s.active_transmissions;
  }

  -- The channel's overlap test is that of the bus.
  pub intervals_overlap-eq :
      (a b : TxEvent F)
      → intervals_overlap a.timestamp_ms a.airtime_ms b.timestamp_ms b.airtime_ms
        ≡ transmissions_overlap a b
  unfolding intervals_overlap transmissions_overlap
  intervals_overlap-eq a b = ground arith

  overlapping_after_expiry :
      (txs : List (TxEvent F)) (now start duration : ℕ)
      → now ≤ start
      → retain
          (λ tx. intervals_overlap start duration tx.timestamp_ms tx.airtime_ms)
          (retain (λ tx. ltb now (sat_add64 tx.timestamp_ms tx.airtime_ms)) txs)
        ≡ retain (λ tx. intervals_overlap start duration tx.timestamp_ms tx.airtime_ms) txs
  unfolding intervals_overlap
  overlapping_after_expiry [] now start duration h = refl
  overlapping_after_expiry (tx ∷ txs) now start duration h =
      ground (arith, overlapping_after_expiry txs now start duration h)

  -- Dropping the transmissions that have ended by `now_ms` hides no collision from a reception that
  -- starts at `now_ms` or later, and a second expiry at that time finds nothing to drop.
  pub check_collision-remove_expired :
      (s : ChannelState F) (now_ms rx_time_ms rx_duration_ms : ℕ)
      → now_ms ≤ rx_time_ms
      → (check_collision (remove_expired s now_ms) rx_time_ms rx_duration_ms
          ≡ check_collision s rx_time_ms rx_duration_ms)
        × (remove_expired (remove_expired s now_ms) now_ms ≡ remove_expired s now_ms)
  unfolding check_collision remove_expired overlapping_transmissions
  check_collision-remove_expired s now rx duration h = (
    rw (overlapping_after_expiry s.active_transmissions now rx duration h),
    ap (λ txs. record s { active_transmissions = txs })
        (retain_idem (λ tx. ltb now (sat_add64 tx.timestamp_ms tx.airtime_ms))
          s.active_transmissions),
  )
