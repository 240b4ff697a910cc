-- ===== src/Control/Moves.antt =====
-- The calls of the thread that owns the camera, one after the other, between the steps of the control
-- thread.
use my_streamer.Prelude.{Bool, ◌||◌, some, if◌then◌else◌, ◌≡◌}
use my_streamer.Control.{
  Config, Camera, Initialised, new_camera, joinable, join, is_running, start, signal_to_stop,
  set_config, run_thread,
}

-- where the owner is: outside of WaitForStop, behind its signal, or before its `join`
pub data Owner : Type 0 where
  free signalled joining : Owner

pub record World : Type 0 where
  pub camera : Camera
  pub owner : Owner

abbrev pub new_world : World
new_world = record { camera = new_camera; owner = free }

pub data Step : World → World → Type 0 where
  starts :
      {c d : Camera}
      → start c ≡ some d
      → Step (record { camera = c; owner = free }) (record { camera = d; owner = free })
  signals :
      {c d : Camera}
      → signal_to_stop c ≡ some d
      → Step (record { camera = c; owner = free }) (record { camera = d; owner = free })
  asks :
      {c d : Camera} {r : Bool}
      → is_running c ≡ some (d, r)
      → Step (record { camera = c; owner = free }) (record { camera = d; owner = free })
  sets :
      {c d : Camera} (f : Config → Config)
      → set_config f c ≡ some d
      → Step (record { camera = c; owner = free }) (record { camera = d; owner = free })
  waits :
      {c d : Camera}
      → signal_to_stop c ≡ some d
      → Step (record { camera = c; owner = free }) (record { camera = d; owner = signalled })
  looks :
      {c d : Camera} {r : Bool}
      → is_running c ≡ some (d, r)
      → Step
          (record { camera = c; owner = signalled })
          (record { camera = d; owner = if r || joinable d then joining else free })
  joins :
      {c d : Camera}
      → join c ≡ some d
      → Step (record { camera = c; owner = joining }) (record { camera = d; owner = free })
  runs :
      {c : Camera} {o : Owner} (i : Initialised)
      → Step (record { camera = c; owner = o }) (record { camera = run_thread i c; owner = o })

pub data Steps : World → World → Type 0 where
  stays : {w : World} → Steps w w
  goes : {u v w : World} → Steps u v → Step v w → Steps u w
