-- ===== src/Control/Tests.antt =====
-- A camera that is started and stopped.
use my_streamer.Prelude.{true, false, not, ◌||◌, [], ◌∷◌, none, some, ◌≡◌, refl, arith}
use my_streamer.Control.{
  pausing, Camera, Initialised, new_camera, join, is_running, start, signal_to_stop, set_config,
  set_frame_rate, set_video_size,
}
use my_streamer.Control.Moves.{
  free, joining, new_world, Steps, stays, goes, starts, runs, waits, looks,
}
use my_streamer.Control.Sound.{calls_return}
use my_streamer.Control.Stops.{run_steps, wait_for_stop_ends}

abbrev initialised : Initialised
initialised = record { captures = true; width = 320; height = 240 }

abbrev begun : Camera
begun = record new_camera {
  running = true;
  control_thread = some pausing;
  config = set_video_size 320 240 new_camera.config;
}

abbrev told : Camera
told = record begun { need_to_stop = record { triggered = true; counter = 1 } }

begun-Steps : Steps new_world (record { camera = begun; owner = free })
unfolding start is_running
begun-Steps = goes (goes stays (starts refl)) (runs initialised)

told-Steps : Steps new_world (record { camera = told; owner = joining })
unfolding signal_to_stop is_running
told-Steps = goes (goes begun-Steps (waits refl)) (looks refl)

calls_return_example :
    ((d : Camera) × (start begun ≡ some d) × (d.running ≡ true))
    × ((d : Camera) × (signal_to_stop begun ≡ some d)
        × ((not d.running || d.need_to_stop.triggered) ≡ true))
    × ((d : Camera) × (is_running begun ≡ some (d, true)))
    × (true ≡ true)
    × ((d : Camera) × (set_config (set_frame_rate 5) begun ≡ some d) × (d.config ≡ begun.config))
calls_return_example =
    calls_return (record { camera = begun; owner = free }) begun-Steps (set_frame_rate 5)

wait_for_stop_ends_example :
    (d : Camera) × (join
        (run_steps (initialised ∷ initialised ∷ initialised ∷ initialised ∷ initialised ∷ []) told)
      ≡ some d)
    × Steps new_world (record { camera = d; owner = free })
    × (d.control_thread ≡ none)
    × (d.running ≡ false)
wait_for_stop_ends_example =
    wait_for_stop_ends told told-Steps
      (initialised ∷ initialised ∷ initialised ∷ initialised ∷ initialised ∷ []) (omega arith)
