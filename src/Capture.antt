-- ===== src/Capture.antt =====
-- camera/V4L2/v4l2_camera_data.h and .cpp: Init, Cleanup and the control thread round the capture loop. What
-- the system's calls answer is a parameter; what the code calls and reports is a list, the latest first.
-- The kept properties, which Init sets at its end, are those of Camera.
pub mod Balance
pub mod Ready
pub mod Release
pub mod Loop
mod Tests
use my_streamer.Prelude.{
  ℕ, zero, suc, Bool, true, false, ◌&&◌, List, [], ◌∷◌, Option, none, some, ltb, if◌then◌else◌,
  length, replicate,
}
use my_streamer.Prelude.Text.{Text, codes}

-- `BUFFER_COUNT`
abbrev pub buffer_count : ℕ
buffer_count = 4

-- what `VIDIOC_S_FMT` leaves: its code, whether the format is the one asked for, and the size
pub record FormatAnswer : Type 0 where
  pub done : Bool
  pub as_asked : Bool
  pub width : ℕ
  pub height : ℕ

-- The system's calls: whether they succeed, and what they give. `mmap` gives the pointer, `none` for null;
-- what it gives where it fails is `MAP_FAILED`, which is not null.
pub record Driver : Type 0 where
  pub open_device : Bool
  pub query_capabilities : Option (Bool × Bool)
  pub set_format : FormatAnswer
  pub request_buffers : Option ℕ
  pub query_buffer : ℕ → Option ℕ
  pub mmap : ℕ → ℕ → Option ℕ
  pub enqueue_buffer : ℕ → Bool
  pub stream_on : Bool

-- What is called with success, and the errors that the listener is told of, with `fatal`.
pub data SystemEvent : Type 0 where
  opens closes streams_on streams_off : SystemEvent
  maps unmaps : ℕ → ℕ → SystemEvent
  notifies : Text → Bool → SystemEvent

-- a mapped buffer's pointer and length
abbrev pub Slot : Type 0
Slot = Option ℕ × ℕ

pub record Capture : Type 0 where
  pub video_open : Bool
  pub video_streaming_active : Bool
  pub slots : List Slot
  pub frame_width : ℕ
  pub frame_height : ℕ
  pub log : List SystemEvent

-- The constructor.
abbrev pub new_capture : Capture
new_capture = record {
  video_open = false;
  video_streaming_active = false;
  slots = replicate buffer_count (none, 0);
  frame_width = 640;
  frame_height = 480;
  log = [];
}

abbrev pub fails : Text → Capture → Capture × Bool
fails message c = (record c { log = notifies message true ∷ c.log }, false)

-- `if (ret)`
abbrev pub and_then : Capture × Bool → (Capture → Capture × Bool) → Capture × Bool
and_then (c, true) f = f c
and_then (c, false) f = (c, false)

module _ (d : Driver) where
  -- the device's name is too long for the buffer where it has more than 64 characters
  abbrev pub check_name : Text → Capture → Capture × Bool
  check_name name c =
      if ltb 64 (length name) then fails (codes "Failed opening video device") c else (c, true)

  abbrev pub open_video : Capture → Capture × Bool
  open_video c =
      if d.open_device
      then (record c { video_open = true; log = opens ∷ c.log }, true)
      else fails (codes "Failed opening video device") c

  abbrev pub check_capabilities : Capture → Capture × Bool
  check_capabilities c = elim d.query_capabilities [
    | none ↦ fails (codes "Failed getting video capabilities of the device") c
    | some (capture, streaming) ↦
        if capture
        then (if streaming then (c, true) else fails (codes "Device does not support streaming") c)
        else fails (codes "Device does not support video capture") c
  ]

  -- The message of another format names the formats.
  abbrev pub choose_format : Text → Capture → Capture × Bool
  choose_format formats c =
      let s = record c { frame_width = d.set_format.width; frame_height = d.set_format.height } in
      if d.set_format.done
      then (if d.set_format.as_asked then (s, true) else fails formats s)
      else fails (codes "Failed setting video format") s

  abbrev pub ask_buffers : Capture → Capture × Bool
  ask_buffers c = elim d.request_buffers [
    | none ↦ fails (codes "Unable to allocate capture buffers") c
    | some n ↦
        if ltb n buffer_count
        then fails (codes "Not enough memory to allocate capture buffers") c
        else (c, true)
  ]

  -- the loop over the buffers, from `i` on
  unfoldable pub map_slots : ℕ → List Slot → List SystemEvent → List Slot × List SystemEvent × Bool
  map_slots i [] log = ([], log, true)
  map_slots i ((p, l) ∷ ss) log = elim (d.query_buffer i) [
    | none ↦ ((p, l) ∷ ss, notifies (codes "Unable to query capture buffer") true ∷ log, false)
    | some n ↦ elim (d.mmap i n) [
      | none ↦ ((none, n) ∷ ss, notifies (codes "Unable to map capture buffer") true ∷ log, false)
      | some a ↦
          let (ts, next, ok) = map_slots (suc i) ss (maps a n ∷ log) in ((some a, n) ∷ ts, next, ok)
    ]
  ]

  abbrev pub map_buffers : Capture → Capture × Bool
  map_buffers c =
      let (ss, log, ok) = map_slots 0 c.slots c.log in (record c { slots = ss; log = log }, ok)

  -- the loop that enqueues, which goes on behind an error
  unfoldable pub enqueue_from : ℕ → ℕ → Bool → List SystemEvent → List SystemEvent × Bool
  enqueue_from zero i ok log = (log, ok)
  enqueue_from (suc n) i ok log =
      if d.enqueue_buffer i
      then enqueue_from n (suc i) ok log
      else enqueue_from n (suc i) false
          (notifies (codes "Unable to enqueue capture buffer") true ∷ log)

  abbrev pub enqueue_buffers : Capture → Capture × Bool
  enqueue_buffers c =
      let (log, ok) = enqueue_from buffer_count 0 true c.log in (record c { log = log }, ok)

  abbrev pub start_streaming : Capture → Capture × Bool
  start_streaming c =
      if d.stream_on
      then (record c { video_streaming_active = true; log = streams_on ∷ c.log }, true)
      else fails (codes "Failed starting video streaming") c

  -- Init, up to the properties
  unfoldable pub init : Text → Text → Capture → Capture × Bool
  init name formats c =
      and_then
        (and_then
          (and_then
            (and_then
              (and_then (and_then (and_then (check_name name c) open_video) check_capabilities)
                (choose_format formats))
              ask_buffers)
            map_buffers)
          enqueue_buffers)
        start_streaming

unfoldable pub unmap_slots : List Slot → List SystemEvent → List Slot × List SystemEvent
unmap_slots [] log = ([], log)
unmap_slots ((none, l) ∷ ss) log = let (ts, next) = unmap_slots ss log in ((none, l) ∷ ts, next)
unmap_slots ((some a, n) ∷ ss) log =
    let (ts, next) = unmap_slots ss (unmaps a n ∷ log) in ((none, 0) ∷ ts, next)

abbrev pub stop_streaming : Capture → Capture
stop_streaming c =
    if c.video_streaming_active
    then record c { video_streaming_active = false; log = streams_off ∷ c.log }
    else c

abbrev pub unmap_buffers : Capture → Capture
unmap_buffers c = let (ss, log) = unmap_slots c.slots c.log in record c { slots = ss; log = log }

abbrev pub close_video : Capture → Capture
close_video c = if c.video_open then record c { video_open = false; log = closes ∷ c.log } else c

unfoldable pub cleanup : Capture → Capture
unfolding unmap_slots
cleanup c = close_video (unmap_buffers (stop_streaming c))

-- ControlThreadHandler; the capture loop maps and opens nothing
unfoldable pub control_thread : Driver → Text → Text → Capture → Capture
unfolding init cleanup
control_thread d name formats c = cleanup (init d name formats c).0
