-- ===== src/Stream.antt =====
-- webcamera/video_source_to_webdata.h and .cpp, video_listener.cpp and web_request_handler.cpp: the
-- picture between the camera's thread and the requests. on_new_image, on_error and encode_camera_image
-- change the data under the lock of the image, so each is one step. A handler tests the error without the
-- lock, before and behind that: what the camera's thread does between is a parameter of it, Visits.
-- The parameters are the memory, the encoder of uncompressed pictures, and the clock.
pub mod Safe
pub mod Reach
pub mod Shown
pub mod Pictures
pub mod Stuck
pub mod Race
pub mod Pace
pub mod Samples
mod Tests
use mathlib.Core.Option
use my_streamer.Prelude.{
  ℕ, suc, ◌+◌, ◌-◌, ◌*◌, ◌/◌, ◌%◌, ◌^◌, Bool, true, false, not, ◌&&◌, ◌||◌, List, [], ◌∷◌, ◌++◌,
  Option, none, some, ◌==◌, ltb, leb, if◌then◌else◌,
}
use my_streamer.Prelude.Text.{Text, codes}
use my_streamer.Prelude.Memory.{copy_in, copy_out}
use my_streamer.Errors.{ErrorCode, success, out_of_memory, is_success, to_string}
use my_streamer.Images.{Image, is_jpeg, Heap, copy_data_or_clone}
use my_streamer.Json.{c_str}
use my_streamer.Http.Response.{
  HttpResponse, ok, server_error, add_header, set_content_type, send_fast, new,
}

-- `JPEG_BUFFER_SIZE`
abbrev pub jpeg_buffer_bytes : ℕ
jpeg_buffer_bytes = 1024 * 1024

pub record StreamData : Type 0 where
  pub new_image_available : Bool
  pub video_source_error : Bool
  pub internal_error : ErrorCode
  pub jpeg_buffer : Option (List ℕ)
  pub jpeg_buffer_size : ℕ
  pub jpeg_size : ℕ
  pub camera_image : Option Image
  pub video_source_error_message : Text

-- `realloc`, and `EncodeToMemory`: the code, and what it leaves of the buffer and of its size
pub record Tools : Type 0 where
  pub realloc : List ℕ → ℕ → Option (List ℕ)
  pub encode_to_memory : Image → List ℕ → ℕ → ErrorCode × List ℕ × ℕ

-- the constructor, with what `malloc` gives
abbrev pub new_stream_data : Option (List ℕ) → StreamData
new_stream_data buffer = record {
  new_image_available = false;
  video_source_error = false;
  internal_error = success;
  jpeg_buffer = buffer;
  jpeg_buffer_size = elim buffer [ none ↦ 0 | some b ↦ jpeg_buffer_bytes ];
  jpeg_size = 0;
  camera_image = none;
  video_source_error_message = [];
}

unfoldable pub is_error : StreamData → Bool
is_error s = not (is_success s.internal_error) || s.video_source_error

-- A picture that is not empty is used, and the buffer's pointer is null.
abbrev pub is_null : Option (List ℕ) → Bool
is_null none = true
is_null (some b) = false

abbrev pub uses_null : StreamData → Bool
uses_null s = is_null s.jpeg_buffer && (not (is_error s) && not (s.jpeg_size == 0))

unfoldable pub on_new_image : Heap → Image → StreamData → StreamData
on_new_image heap i s =
    let (copy, code) = copy_data_or_clone heap i s.camera_image in
    record s {
      camera_image = copy;
      internal_error = code;
      new_image_available = if is_success code then true else s.new_image_available;
      video_source_error_message = [];
      video_source_error = false;
    }

unfoldable pub on_error : Text → StreamData → StreamData
on_error message s = record s { video_source_error_message = message; video_source_error = true }

-- a call of the camera's thread
pub data Visit : Type 0 where
  brings : Image → Visit
  reports : Text → Visit

abbrev pub visit : Heap → Visit → StreamData → StreamData
visit heap (brings i) s = on_new_image heap i s
visit heap (reports message) s = on_error message s

abbrev pub visited : Heap → List Visit → StreamData → StreamData
visited heap [] s = s
visited heap (v ∷ vs) s = visited heap vs (visit heap v s)

-- The calls that come in the midst of a request: behind its first test of the error, and behind the
-- encoding, before its second test.
pub record Visits : Type 0 where
  pub tested : List Visit
  pub encoded : List Visit

abbrev pub quiet : Visits
quiet = record { tested = []; encoded = [] }

-- the bytes are copied where there is a buffer
abbrev pub store : ℕ → List ℕ → Option (List ℕ) → StreamData → StreamData
store width bytes none s = s
store width bytes (some buffer) s = record s {
  jpeg_buffer = some (copy_in buffer 0 (copy_out bytes 0 width));
  jpeg_size = width;
}

abbrev pub seen : Option StreamData → Option StreamData
seen none = none
seen (some s) = some (record s { new_image_available = false })

module _ (tools : Tools) where
  -- a JPEG: the buffer is made larger where it is too small
  unfoldable pub enlarge : ℕ → List ℕ → StreamData → StreamData
  enlarge width buffer s =
      if ltb s.jpeg_buffer_size width
      then (let new_size = width + width / 10 in
          elim (tools.realloc buffer new_size) [
            | none ↦ record s { jpeg_buffer = none; internal_error = out_of_memory }
            | some larger ↦ record s { jpeg_buffer = some larger; jpeg_buffer_size = new_size }
          ])
      else s

  unfoldable pub take_jpeg : ℕ → List ℕ → List ℕ → StreamData → StreamData
  unfolding enlarge
  take_jpeg width bytes buffer s =
      let t = enlarge width buffer s in store width bytes t.jpeg_buffer t

  unfoldable pub take_encoded : Image → List ℕ → StreamData → StreamData
  take_encoded i buffer s =
      let (code, encoded, n) = tools.encode_to_memory i buffer s.jpeg_buffer_size in
      record s {
        internal_error = code;
        jpeg_buffer = some encoded;
        jpeg_size = n;
        jpeg_buffer_size = if ltb s.jpeg_buffer_size n then n else s.jpeg_buffer_size;
      }

  -- an image into the buffer; `none` where its pointer is null
  abbrev pub take_image : Option Image → List ℕ → StreamData → Option StreamData
  take_image none buffer s = none
  take_image (some i) buffer s =
      if is_jpeg i.format
      then (elim i.memory [ none ↦ none | some bytes ↦ some (take_jpeg i.width bytes buffer s) ])
      else some (take_encoded i buffer s)

  -- what is done where an image is new, by the buffer
  abbrev pub take_new : Option (List ℕ) → StreamData → Option StreamData
  take_new none s = some (record s { internal_error = out_of_memory })
  take_new (some buffer) s = take_image s.camera_image buffer s

  -- `none` is the use of a null pointer.
  unfoldable pub encode_camera_image : StreamData → Option StreamData
  encode_camera_image s = if s.new_image_available then seen (take_new s.jpeg_buffer s) else some s

  -- how every request begins
  abbrev pub encode_unless_error : Heap → List Visit → StreamData → Option StreamData
  encode_unless_error heap vs s =
      let t = visited heap vs s in if is_error s then some t else encode_camera_image t

-- the bytes that `JpegSize` of the buffer are
abbrev pub picture : StreamData → Text
picture s = elim s.jpeg_buffer [ none ↦ [] | some buffer ↦ copy_out buffer 0 s.jpeg_size ]

abbrev pub no_cache : HttpResponse → HttpResponse
no_cache r = add_header (codes "Expires") (codes "0") (
    add_header (codes "Pragma") (codes "no-cache")
      (add_header (codes "Cache-Control") (codes "no-store, must-revalidate") r))

-- What the functions of the connection are called with.
pub data Action : Type 0 where
  sends : Text → Action
  sets_timer : ℕ → Action
  shuts_down : Action

-- `nextTimespace`, by the time that the call has taken
unfoldable pub next_timespace : ℕ → ℕ → ℕ
next_timespace frame_interval handling =
    let pause = frame_interval * 1000 % 2 ^ 32 in
    if leb pause handling then 1000 else pause - handling

module _ (show : ℕ → Text) where
  unfoldable pub report_error : StreamData → HttpResponse → HttpResponse
  unfolding send_fast
  report_error s r =
      if not (is_success s.internal_error)
      then send_fast show server_error
          (elim (to_string s.internal_error) [ none ↦ [] | some t ↦ t ]) r
      else if s.video_source_error
      then send_fast show server_error (c_str s.video_source_error_message) r
      else r

  abbrev pub jpeg_response : StreamData → HttpResponse → HttpResponse
  jpeg_response s r =
      let shown = no_cache (
        set_content_type (codes "image/png")
          (record r { status_code = ok; status_message = codes "OK" })) in
      add_header (codes "Content-Length") (show s.jpeg_size) (record shown { body = picture s })

  -- the answer, once the picture is taken
  abbrev pub jpeg_answer : HttpResponse → StreamData → HttpResponse
  jpeg_answer r t = if is_error t then report_error t r else jpeg_response t r

  -- one part of the stream
  abbrev pub part : StreamData → Text
  part s =
      codes "\r\n--myboundary\r\nContent-Type: image/jpeg\r\nContent-Length: "
      ++ (show s.jpeg_size ++ (codes "\r\n\r\n" ++ picture s))

  abbrev pub mjpeg_response : StreamData → HttpResponse → HttpResponse
  mjpeg_response s r =
      let shown =
        add_header (codes "Content-Type") (codes "multipart/x-mixed-replace; boundary=--myboundary")
          (no_cache (record r { status_code = ok; status_message = codes "OK" })) in
      record shown { body = part s }

  abbrev pub mjpeg_answer : ℕ → ℕ → HttpResponse → StreamData → HttpResponse × List Action
  mjpeg_answer frame_interval now r t =
      if is_error t
      then (report_error t r, [])
      else (mjpeg_response t r, sets_timer (now + frame_interval * 1000 % 2 ^ 32) ∷ [])

  -- What the timer does once the picture is taken, by the time that its call has taken so far: nothing is
  -- sent where twice the picture waits in the output buffer.
  abbrev pub timer_actions : ℕ → ℕ → ℕ → Bool → ℕ → StreamData → List Action
  timer_actions frame_interval handling now connected waiting t =
      if is_error t || (t.jpeg_size == 0)
      then shuts_down ∷ shuts_down ∷ []
      else ((if ltb waiting (2 * t.jpeg_size % 2 ^ 32) then sends (part t) ∷ [] else [])
          ++ (if connected
              then sets_timer (now + next_timespace frame_interval handling) ∷ []
              else []))

module _ (tools : Tools) (heap : Heap) (show : ℕ → Text) where
  -- A request, by whether it reads the picture where there is no error, and by what it makes of the data;
  -- `none` is the use of a null pointer.
  abbrev pub finished :
      {A : Type 0}
      → (StreamData → Bool)
      → (StreamData → A)
      → Visits
      → StreamData
      → Option (StreamData × A)
  finished reads answer vs s = elim (encode_unless_error tools heap vs.tested s) [
    | none ↦ none
    | some t ↦
        let u = visited heap vs.encoded t in
        if reads u && uses_null u then none else some (u, answer u)
  ]

  -- JpegRequestHandler::HandleHttpRequest
  unfoldable pub handle_jpeg :
      Visits → StreamData → HttpResponse → Option (StreamData × HttpResponse)
  handle_jpeg vs s r = finished (λ t. true) (λ t. jpeg_answer show r t) vs s

  -- MjpegRequestHandler::HandleHttpRequest, at a time in microseconds, with `FrameInterval`
  unfoldable pub handle_mjpeg :
      ℕ
      → ℕ
      → Visits
      → StreamData
      → HttpResponse
      → Option (StreamData × (HttpResponse × List Action))
  handle_mjpeg frame_interval now vs s r =
      finished (λ t. true) (λ t. mjpeg_answer show frame_interval now r t) vs s

  -- HandleTimer: the times of its start, its end and behind that, whether the connection is still up,
  -- and the bytes that wait in its output buffer.
  unfoldable pub handle_timer :
      ℕ → ℕ → ℕ → ℕ → Bool → ℕ → Visits → StreamData → Option (StreamData × List Action)
  handle_timer frame_interval start end now connected waiting vs s =
      let handling = (end + 2 ^ 32 - start % 2 ^ 32) % 2 ^ 32 in
      finished (λ t. ltb waiting (2 * t.jpeg_size % 2 ^ 32))
        (λ t. timer_actions show frame_interval handling now connected waiting t) vs s
