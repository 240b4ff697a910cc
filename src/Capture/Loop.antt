-- ===== src/Capture/Loop.antt =====
-- camera/V4L2/v4l2_camera_data.cpp: VideoCaptureLoop. What the system answers in a round of it is a
-- parameter; what is taken, given back and told to the listener is a list, the latest first. A fault is
-- `none`.
pub mod Frames
pub mod Buffers
pub mod Whole
mod Tests
use mathlib.Core.Option
use my_streamer.Prelude.{
  ℕ, zero, suc, ◌||◌, ◌*◌, length, ◌+◌, ◌-◌, ◌/◌, ◌%◌, ◌^◌, Bool, true, false, List, [], ◌∷◌,
  Option, none, some, ◌==◌, ltb, if◌then◌else◌,
}
use my_streamer.Prelude.Text.{Text, codes}
use my_streamer.Images.{Image, Heap, rgb24, jpeg, create, allocate, update_time_stamp}
use my_streamer.Yuyv.{decode_yuyv_to_rgb}

pub record Settings : Type 0 where
  pub jpeg_encoding : Bool
  pub frame_width : ℕ
  pub frame_height : ℕ
  pub frame_rate : ℕ

-- the buffer that `VIDIOC_DQBUF` gives
pub record VideoBuffer : Type 0 where
  pub index : ℕ
  pub bytes_used : ℕ
  pub seconds : ℕ
  pub microseconds : ℕ

-- One round: the buffer, or a failure; what stands at the mapped places; whether there is memory for an
-- image; whether `VIDIOC_QBUF` succeeds; and the milliseconds that all this takes.
pub record Round : Type 0 where
  pub buffer : Option VideoBuffer
  pub mapped : ℕ → Option (List ℕ)
  pub room : Bool
  pub requeue : Bool
  pub handling : ℕ

pub data Report : Type 0 where
  dequeued requeued : ℕ → Report
  shown : Image → Report
  notified : Text → Bool → Report

pub record Loop : Type 0 where
  pub rgb_image : Option Image
  pub frames_received : ℕ
  pub sleep_time : ℕ
  pub reports : List Report

abbrev pub report : Report → Loop → Loop
report r l = record l { reports = r ∷ l.reports }

abbrev pub failed_requeue : Report
failed_requeue = notified (codes "Failed to requeue capture buffer") false

-- JPEG: an image of its own on the mapped memory
abbrev pub new_jpeg : Round → VideoBuffer → Option Image
new_jpeg r b =
    if r.room then some (create (r.mapped b.index) b.bytes_used 1 b.bytes_used jpeg) else none

-- The bytes that DecodeYuyvToRgb reads, four for each two pixels, and those that it writes up to.
abbrev pub yuyv_bytes : ℕ → ℕ → ℕ
yuyv_bytes width height = (height * width + 1) / 2 * 4

abbrev pub rgb_bytes : ℕ → ℕ → ℕ → ℕ
rgb_bytes width zero stride = 0
rgb_bytes width (suc n) stride = if width == 0 then 0 else n * stride + 3 * width

-- whether a byte behind the end of the buffer or of the image is used
abbrev pub is_outside : Settings → List ℕ → List ℕ → ℕ → Bool
is_outside s yuyv rgb stride =
    ltb (length yuyv) (yuyv_bytes s.frame_width s.frame_height)
    || ltb (length rgb) (rgb_bytes s.frame_width s.frame_height stride)

-- the picture decoded to the image that all the rounds share
abbrev pub decode_frame : Settings → Round → VideoBuffer → Image → Option Image
decode_frame s r b i = elim (r.mapped b.index) [
  | none ↦ none
  | some yuyv ↦ elim i.memory [
    | none ↦ none
    | some rgb ↦
        if is_outside s yuyv rgb i.stride
        then none
        else some (record i {
          memory = some (decode_yuyv_to_rgb yuyv rgb s.frame_width s.frame_height i.stride);
        })
  ]
]

-- The image gets its time stamp before it is tested for null.
abbrev pub show_jpeg : VideoBuffer → Option Image → Loop → Option Loop
show_jpeg b none l = none
show_jpeg b (some i) l = some (report (shown (update_time_stamp b.seconds b.microseconds i)) l)

abbrev pub show_rgb : VideoBuffer → Option Image → Loop → Option Loop
show_rgb b none l = none
show_rgb b (some i) l =
    let stamped = update_time_stamp b.seconds b.microseconds i in
    some (report (shown stamped) (record l { rgb_image = some stamped }))

abbrev pub show_frame : Settings → Round → VideoBuffer → Loop → Option Loop
show_frame s r b l =
    if s.jpeg_encoding
    then show_jpeg b (new_jpeg r b) l
    else show_rgb b (elim l.rgb_image [ none ↦ none | some i ↦ decode_frame s r b i ]) l

abbrev pub give_back : Round → VideoBuffer → Loop → Loop
give_back r b l = report (if r.requeue then requeued b.index else failed_requeue) l

-- what is done with the answer of `VIDIOC_DQBUF`
abbrev pub handle_buffer : Settings → Round → Option VideoBuffer → Loop → Option Loop
handle_buffer s r none l =
    some (report (notified (codes "Failed to dequeue capture buffer") false) l)
handle_buffer s r (some b) l = Option.map (give_back r b) (
    show_frame s r b
      (report (dequeued b.index) (record l { frames_received = (l.frames_received + 1) % 2 ^ 32 })))

abbrev pub pause : Settings → ℕ → ℕ
pause s handling =
    if ltb (1000 / s.frame_rate) (handling % 2 ^ 32)
    then 0
    else 1000 / s.frame_rate - handling % 2 ^ 32

abbrev pub paused : Settings → Round → Loop → Loop
paused s r l = record l { sleep_time = pause s r.handling }

unfoldable pub capture_round : Settings → Round → Loop → Option Loop
unfolding update_time_stamp
capture_round s r l = Option.map (paused s r) (handle_buffer s r r.buffer l)

-- the rounds until the wait is told to stop
unfoldable pub capture_rounds : Settings → List Round → Loop → Option Loop
unfolding capture_round
capture_rounds s [] l = some l
capture_rounds s (r ∷ rs) l = elim (capture_round s r l) [
  | none ↦ none
  | some t ↦ capture_rounds s rs t
]

abbrev pub first : Settings → ℕ → Option Image → Loop
first s frames image = record {
  rgb_image = image;
  frames_received = frames;
  sleep_time = 1000 / s.frame_rate;
  reports = [];
}

-- behind the allocation
abbrev pub with_image : Settings → List Round → ℕ → Option Image → Option Loop
with_image s rs frames none =
    some (report (notified (codes "Failed allocating an image") true) (first s frames none))
with_image s rs frames (some i) = capture_rounds s rs (first s frames (some i))

-- A frame rate of 0 is divided by.
unfoldable pub video_capture_loop : Heap → Settings → ℕ → List Round → Option Loop
unfolding capture_rounds allocate
video_capture_loop heap s frames rs =
    if s.frame_rate == 0
    then none
    else if s.jpeg_encoding
    then capture_rounds s rs (first s frames none)
    else with_image s rs frames (allocate heap s.frame_width s.frame_height rgb24 false)
