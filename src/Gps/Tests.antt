-- ===== src/Gps/Tests.antt =====
-- The GPS receiver at concrete inputs.
use project_mycelium.Common.{◌≡◌, refl, List, [], ◌∷◌, true, arith}
use project_mycelium.Common.{none, some, inr}
use project_mycelium.Common.Int.{pos}
use project_mycelium.Common.Toy.{toy}
use project_mycelium.Gps.Movement.{GpxTrackPoint, gpx_replay, Movement, new_state, new_movement}
use project_mycelium.Gps.Movement.Tick.{Call, ticks, linearly, along, replays, run_movement}
use project_mycelium.Gps.Movement.Track.{Returns}
use project_mycelium.Gps.Movement.OnTrack.{GivesNear, OnTrack, run_movement-OnTrack}
use project_mycelium.Common.{All, map, any, false, ltb, length}
use project_mycelium.Gps.Satellites.{counted, satellite, generate_gsv, seen, generate_gsv_lem}
use project_mycelium.Gps.Uart.{GpsManager, tick, read_all, read_all-tick}

abbrev receiver : GpsManager
receiver = record {
  enabled = true;
  sentence_buffer = 9 ∷ [];
  epoch_elapsed_ms = 400;
  uart_bytes_remaining = 1;
  baud_rate = 9600;
  output_enabled = true;
}

read_all-tick_example :
    read_all (tick receiver 700 (36 ∷ 71 ∷ 80 ∷ [])) (2 ∷ 5 ∷ []) ≡ 36 ∷ 71 ∷ 80 ∷ []
read_all-tick_example =
    read_all-tick receiver 700 (36 ∷ 71 ∷ 80 ∷ []) (2 ∷ 5 ∷ []) refl refl (omega arith)

abbrev replayed : Movement toy
replayed = record (new_movement toy (pos 1) (pos 2)) {
  movement = gpx_replay ((pos 1, pos 2) ∷ (pos 4, pos 6) ∷ []) (pos 1) 0;
}

abbrev track : List (GpxTrackPoint toy)
track =
    (record { latitude = pos 3; longitude = pos 4; timestamp_ms = some (pos 0) })
    ∷ (record { latitude = pos 5; longitude = pos 6; timestamp_ms = none })
    ∷ []

abbrev calls : List (Call toy)
calls =
    ticks 1500
    ∷ replays track (pos 2)
    ∷ ticks 700
    ∷ along ((pos 3, pos 4) ∷ []) (pos 5)
    ∷ ticks 1000
    ∷ linearly (pos 3) (pos 90)
    ∷ ticks 100
    ∷ []

calls_near : All (GivesNear toy) calls
calls_near = (tt, ((omega arith, (tt, tt)), (tt, (tt, (tt, (tt, (tt, tt)))))))

run_movement-OnTrack_example :
    Returns (λ m. OnTrack toy m.movement m.state) (run_movement toy replayed calls)
unfolding new_movement new_state
run_movement-OnTrack_example =
    run_movement-OnTrack toy calls replayed calls_near (inr ((pos 1, pos 2), refl, refl, refl))

generate_gsv_lem_example :
    (seen (generate_gsv 9) ≡ map satellite (counted 1 9))
    × (any (λ g. ltb 4 (length g.view)) (generate_gsv 9) ≡ false)
    × (map (λ g. g.message_number) (generate_gsv 9) ≡ counted 1 (length (generate_gsv 9)))
    × (map (λ g. g.message_count) (generate_gsv 9)
        ≡ map (λ g. length (generate_gsv 9)) (generate_gsv 9))
generate_gsv_lem_example = generate_gsv_lem 9 (omega arith)
