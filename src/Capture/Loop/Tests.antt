-- ===== src/Capture/Loop/Tests.antt =====
-- The capture loop on two rounds.
use my_streamer.Prelude.{
  ℕ, ◌+◌, ◌*◌, ◌<◌, ◌^◌, true, false, List, [], ◌∷◌, Option, none, some, ◌≡◌, refl, ◌⊎◌, arith,
  replicate, map,
}
use my_streamer.Prelude.Text.{codes}
use my_streamer.Images.{line_bits, Image, rgb24, new_image, allocate, image_bytes_per_stride}
use my_streamer.Images.Samples.{heap, heap_law}
use my_streamer.Capture.Loop.{
  Settings, VideoBuffer, Round, Report, dequeued, requeued, shown, notified, Loop, first,
  failed_requeue, capture_round, capture_rounds, video_capture_loop,
}
use my_streamer.Capture.Loop.Frames.{IsFrame, Shows, capture_round-Shows}
use my_streamer.Capture.Loop.Buffers.{IsBalanced, AreSupplied}
use my_streamer.Capture.Loop.Whole.{video_capture_loop_total}

abbrev settings : Settings
settings = record { jpeg_encoding = false; frame_width = 2; frame_height = 1; frame_rate = 20 }

abbrev bytes : List ℕ
bytes = 16 ∷ 128 ∷ 235 ∷ 128 ∷ []

abbrev buffer : VideoBuffer
buffer = record { index = 3; bytes_used = 4; seconds = 9; microseconds = 1 }

-- The buffer is not given back.
abbrev slow : Round
slow = record {
  buffer = some buffer;
  mapped = λ _. some bytes;
  room = true;
  requeue = false;
  handling = 70;
}

-- There is no buffer.
abbrev idle : Round
idle = record { buffer = none; mapped = λ _. none; room = true; requeue = true; handling = 20 }

abbrev image : Image
image = new_image (some (replicate 8 0)) 2 1 8 rgb24 true

abbrev titles : Report → ℕ
titles (dequeued i) = 10 + i
titles (requeued i) = 20 + i
titles (shown i) = 30
titles (notified m f) = 40

frames_of : Option Loop → List ℕ
frames_of none = []
frames_of (some l) = l.frames_received ∷ l.sleep_time ∷ map titles l.reports

two_rounds :
    frames_of (video_capture_loop heap settings 5 (slow ∷ idle ∷ []))
    ≡ 6 ∷ 30 ∷ 40 ∷ 40 ∷ 30 ∷ 13 ∷ []
unfolding frames_of video_capture_loop capture_rounds capture_round allocate image_bytes_per_stride
two_rounds = refl

image-IsFrame : IsFrame settings image (replicate 8 0)
image-IsFrame = record { memory_at = refl; line_fits = omega arith; rows_fit = omega arith }

capture_round-Shows_example :
    (t : Loop) × (j : Image) × (n : List ℕ) × (capture_round settings slow
        (first settings 5 (some image))
      ≡ some t)
    × (t.rgb_image ≡ some j)
    × IsFrame settings j n
    × (t.reports ≡ failed_requeue ∷ shown j ∷ dequeued 3 ∷ [])
    × Shows settings bytes j
capture_round-Shows_example =
    capture_round-Shows settings slow buffer (first settings 5 (some image)) image (replicate 8 0)
      bytes refl refl image-IsFrame refl refl (omega arith)

both-AreSupplied : AreSupplied settings (slow ∷ idle ∷ [])
both-AreSupplied =
    ((λ b e. (bytes, refl, λ _. omega arith), λ _. refl), ((λ b e. absurd (cc e), λ _. refl), tt))

small_frame :
    settings.frame_height * image_bytes_per_stride (line_bits settings.frame_width rgb24) < 2 ^ 31
unfolding image_bytes_per_stride
small_frame = omega arith

video_capture_loop_total_example :
    (t : Loop) × (video_capture_loop heap settings 5 (slow ∷ idle ∷ []) ≡ some t)
    × ((t.reports ≡ notified (codes "Failed allocating an image") true ∷ [])
        ⊎ IsBalanced settings 5 t)
video_capture_loop_total_example =
    video_capture_loop_total heap settings 5 (slow ∷ idle ∷ []) heap_law (λ e. omega arith)
      (omega arith) small_frame (omega arith) both-AreSupplied
