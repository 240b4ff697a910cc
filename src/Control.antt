-- ===== src/Control.antt =====
-- camera/V4L2/v4l2_camera_data.cpp: Start, SignalToStop, WaitForStop, IsRunning, the setters and
-- ControlThreadHandler, with the event of base/base_manual_reset_event.cpp. A call that holds `Sync` is one
-- step; one that would wait for ever, join what cannot be joined, or overwrite a thread, is `none`. A frame
-- is one step of the thread, and what goes on in it, the fault on a frame rate of 0 included, is left to
-- Capture.Loop.
pub mod Moves
pub mod Calls
pub mod Sound
pub mod Stops
mod Tests
use mathlib.Core.Option
use my_streamer.Prelude.{
  ℕ, ◌+◌, ◌%◌, ◌^◌, Bool, true, false, not, ◌&&◌, ◌||◌, [], Option, none, some, ◌==◌, if◌then◌else◌,
}
use my_streamer.Prelude.Text.{Text}

pub record ManualResetEvent : Type 0 where
  pub triggered : Bool
  pub counter : ℕ

abbrev pub reset : ManualResetEvent → ManualResetEvent
reset e = record e { triggered = false }

abbrev pub signal : ManualResetEvent → ManualResetEvent
signal e = record { triggered = true; counter = (e.counter + 1) % 2 ^ 32 }

-- what `Wait` returns, with the counter that it read first
abbrev pub wait_result : ℕ → ManualResetEvent → Bool
wait_result last e = e.triggered || not (e.counter == last)

pub record Config : Type 0 where
  pub video_device_index : ℕ
  pub video_device_name : Text
  pub frame_width : ℕ
  pub frame_height : ℕ
  pub frame_rate : ℕ
  pub jpeg_encoding : Bool

-- What the control thread is before: Init, a wait, its end, the handling of a frame, Cleanup, and the end
-- of `Running`; or nothing.
pub data Stage : Type 0 where
  beginning pausing capturing leaving marking ended : Stage
  waiting : ℕ → Stage

-- The thread is `none` where it cannot be joined.
pub record Camera : Type 0 where
  pub need_to_stop : ManualResetEvent
  pub running : Bool
  pub control_thread : Option Stage
  pub frames_received : ℕ
  pub config : Config

-- The constructor.
abbrev pub new_camera : Camera
new_camera = record {
  need_to_stop = record { triggered = false; counter = 0 };
  running = false;
  control_thread = none;
  frames_received = 0;
  config = record {
    video_device_index = 0;
    video_device_name = [];
    frame_width = 640;
    frame_height = 480;
    frame_rate = 30;
    jpeg_encoding = true;
  };
}

abbrev pub joinable : Camera → Bool
joinable c = elim c.control_thread [ none ↦ false | some _ ↦ true ]

abbrev pub has_ended : Stage → Bool
has_ended ended = true
has_ended _ = false

-- `join`, where the thread has ended
abbrev pub join_stage : Camera → Option Stage → Option Camera
join_stage c none = none
join_stage c (some s) = if has_ended s then some (record c { control_thread = none }) else none

abbrev pub join : Camera → Option Camera
join c = join_stage c c.control_thread

unfoldable pub is_running : Camera → Option (Camera × Bool)
is_running c =
    if not c.running && joinable c
    then Option.map (λ d. (d, d.running)) (join c)
    else some (c, c.running)

-- The new thread is assigned to the old.
abbrev pub launch : Camera → Option Camera
launch c =
    if joinable c
    then none
    else some (record c {
      need_to_stop = reset c.need_to_stop;
      running = true;
      frames_received = 0;
      control_thread = some beginning;
    })

abbrev pub unless_running : (Camera → Option Camera) → Option (Camera × Bool) → Option Camera
unless_running f none = none
unless_running f (some (c, r)) = if r then some c else f c

unfoldable pub start : Camera → Option Camera
unfolding is_running
start c = unless_running launch (is_running c)

abbrev pub signal_if : Option (Camera × Bool) → Option Camera
signal_if none = none
signal_if (some (c, r)) = some (if r then record c { need_to_stop = signal c.need_to_stop } else c)

unfoldable pub signal_to_stop : Camera → Option Camera
unfolding is_running
signal_to_stop c = signal_if (is_running c)

abbrev pub configured : (Config → Config) → Camera → Option Camera
configured f c = some (record c { config = f c.config })

-- the setters, by what they do to the settings
unfoldable pub set_config : (Config → Config) → Camera → Option Camera
unfolding is_running
set_config f c = unless_running (configured f) (is_running c)

abbrev pub set_video_device_index : ℕ → Config → Config
set_video_device_index n k = record k { video_device_index = n }

abbrev pub set_video_device_name : Text → Config → Config
set_video_device_name t k = record k { video_device_name = t }

abbrev pub set_video_size : ℕ → ℕ → Config → Config
set_video_size w h k = record k { frame_width = w; frame_height = h }

abbrev pub set_frame_rate : ℕ → Config → Config
set_frame_rate n k = record k { frame_rate = n }

abbrev pub enable_jpeg_encoding : Bool → Config → Config
enable_jpeg_encoding b k = record k { jpeg_encoding = b }

-- What Init and the allocation of the shared image come to: whether frames are captured, and the size that
-- the device chose.
pub record Initialised : Type 0 where
  pub captures : Bool
  pub width : ℕ
  pub height : ℕ

-- ControlThreadHandler by steps, each with what Init came to
abbrev pub run_stage : Initialised → Stage → Camera → Camera
run_stage i beginning c = record c {
  config = set_video_size i.width i.height c.config;
  control_thread = some (if i.captures then pausing else leaving);
}
run_stage i pausing c = record c { control_thread = some (waiting c.need_to_stop.counter) }
run_stage i (waiting last) c = record c {
  control_thread = some (if wait_result last c.need_to_stop then leaving else capturing);
}
run_stage i capturing c = record c { control_thread = some pausing }
run_stage i leaving c = record c { control_thread = some marking }
run_stage i marking c = record c { running = false; control_thread = some ended }
run_stage i ended c = c

abbrev pub run_thread : Initialised → Camera → Camera
run_thread i c = elim c.control_thread [ none ↦ c | some s ↦ run_stage i s c ]
