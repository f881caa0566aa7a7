-- ===== src/Radio/Propagation.antt =====
-- The link budget of core/radio_bus/src/propagation.rs, over abstract floats.
use project_mycelium.Common.{ℕ, ◌==◌, ◌||◌, Option, none, some, if◌then◌else◌}
use project_mycelium.Common.Float.{Float}
use project_mycelium.Radio.Types.{RadioChannel}

pub data HataEnvironment : Type 0 where
  urban suburban : HataEnvironment

pub data PropagationModel (F : Type 0) : Type 0 where
  free_space : PropagationModel F
  two_ray_ground : F → F → PropagationModel F
  okumura_hata : HataEnvironment → F → F → PropagationModel F
  fixed_range : F → PropagationModel F

module _ (fl : Float) where
  open fl use {
    F, lit, of_nat, infinity, neg, add, sub, mul, div, lt, le, maximum, clamp, to_radians, sin, cos,
    asin, sqrt, log10, square,
  }

  -- Great-circle distance between two (latitude, longitude) pairs.
  unfoldable pub distance_km : F × F → F × F → F
  distance_km (lat1, lon1) (lat2, lon2) =
      let earth_radius_km = lit 6371 0 in
      let dlat = to_radians (sub lat2 lat1) in
      let dlon = to_radians (sub lon2 lon1) in
      let a = add (square (sin (div dlat (lit 2 0)))) (
        mul (mul (cos (to_radians lat1)) (cos (to_radians lat2)))
          (square (sin (div dlon (lit 2 0))))) in
      let c = mul (lit 2 0) (asin (sqrt (clamp a (lit 0 0) (lit 1 0)))) in mul earth_radius_km c

  unfoldable pub free_space_path_loss : F → F → F
  free_space_path_loss distance freq =
      if le distance (lit 0 0)
      then lit 0 0
      else add (add (mul (lit 20 0) (log10 distance)) (mul (lit 20 0) (log10 freq))) (lit 3245 2)

  unfoldable pub two_ray_ground_path_loss : F → F → F → F → F
  two_ray_ground_path_loss distance freq tx_height rx_height =
      if le distance (lit 0 0)
      then lit 0 0
      else if le tx_height (lit 0 0) || le rx_height (lit 0 0)
      then infinity
      else let distance_m = mul distance (lit 1000 0) in
        let asymptotic_loss =
          sub (sub (mul (lit 40 0) (log10 distance_m)) (mul (lit 20 0) (log10 tx_height)))
            (mul (lit 20 0) (log10 rx_height)) in
        maximum asymptotic_loss (free_space_path_loss distance freq)

  pub hata_urban_loss : F → F → F → F → F
  hata_urban_loss distance freq base_height mobile_height =
      let log_frequency = log10 freq in
      let mobile_correction =
        sub (mul (sub (mul (lit 11 1) log_frequency) (lit 7 1)) mobile_height)
          (sub (mul (lit 156 2) log_frequency) (lit 8 1)) in
      add
        (sub
          (sub (add (lit 6955 2) (mul (lit 2616 2) log_frequency))
            (mul (lit 1382 2) (log10 base_height)))
          mobile_correction)
        (mul (sub (lit 449 1) (mul (lit 655 2) (log10 base_height))) (log10 distance))

  -- Below one kilometre the free-space loss is used.
  unfoldable pub okumura_hata_path_loss : F → F → F → F → HataEnvironment → F
  okumura_hata_path_loss distance freq base_height mobile_height environment =
      if le distance (lit 0 0)
      then lit 0 0
      else if lt distance (lit 1 0)
      then free_space_path_loss distance freq
      else if le freq (lit 0 0) || le base_height (lit 0 0) || le mobile_height (lit 0 0)
      then infinity
      else elim environment [
        | urban ↦ hata_urban_loss distance freq base_height mobile_height
        | suburban ↦
            sub
              (sub (hata_urban_loss distance freq base_height mobile_height)
                (mul (lit 2 0) (square (log10 (div freq (lit 28 0))))))
              (lit 54 1)
      ]

  -- `none`: a fixed range cutoff rejected the link.
  unfoldable pub path_loss : PropagationModel F → F → F → Option F
  path_loss free_space distance freq = some (free_space_path_loss distance freq)
  path_loss (two_ray_ground tx_height rx_height) distance freq =
      some (two_ray_ground_path_loss distance freq tx_height rx_height)
  path_loss (okumura_hata environment base_height mobile_height) distance freq =
      some (okumura_hata_path_loss distance freq base_height mobile_height environment)
  path_loss (fixed_range max_distance) distance freq =
      if le distance max_distance then some (lit 0 0) else none

  unfoldable pub received_rssi_with_model : F → F → F → F → F → F → PropagationModel F → Option F
  received_rssi_with_model tx_power distance freq gain_tx gain_rx system_loss model =
      elim (path_loss model distance freq) [
        | none ↦ none
        | some loss ↦ some (sub (add (add (sub tx_power loss) gain_tx) gain_rx) system_loss)
      ]

  sensitivity_base : ℕ → Option F
  sensitivity_base sf =
      if sf == 7
      then some (neg (lit 123 0))
      else if sf == 8
      then some (neg (lit 126 0))
      else if sf == 9
      then some (neg (lit 129 0))
      else if sf == 10
      then some (neg (lit 132 0))
      else if sf == 11
      then some (neg (lit 1345 1))
      else if sf == 12
      then some (neg (lit 137 0))
      else none

  -- The SX1262 receiver sensitivity threshold for a channel.
  unfoldable pub sensitivity : RadioChannel F → F
  unfolding sensitivity_base
  sensitivity channel = elim (sensitivity_base channel.spreading_factor) [
    | none ↦ infinity
    | some base ↦ add base (mul (lit 10 0) (log10 (div (of_nat channel.bandwidth_khz) (lit 125 0))))
  ]
