-- ===== src/Capture/Loop/Whole.antt =====
-- The whole loop.
use mathlib.Core.Option
use my_streamer.Prelude.{
  ℕ, ◌*◌, ◌+◌, ◌%◌, ◌^◌, ◌≤◌, ◌<◌, Bool, true, false, List, [], ◌∷◌, Option, none, some,
  if◌then◌else◌, ◌==◌, ◌≡◌, ◌≢◌, refl, ap, ◌∙◌, arith, ◌⊎◌, inl, inr, length, Option-cases,
  Bool-cases,
}
use my_streamer.Prelude.Text.{codes}
use my_streamer.Images.{
  Image, rgb24, Heap, allocate, new_image, line_bits, image_bytes_per_stride, create, jpeg,
  update_time_stamp,
}
use my_streamer.Images.Clones.{allocate-cases}
use my_streamer.Capture.Loop.{
  Settings, VideoBuffer, Round, dequeued, shown, notified, Loop, new_jpeg, show_jpeg, show_rgb,
  report, decode_frame, first, with_image, pause, capture_rounds, video_capture_loop, give_back,
  handle_buffer, paused, capture_round,
}
use my_streamer.Capture.Loop.Frames.{
  IsFrame-inside, given-IsFrame, decoded, raw_round, capture_round-raw, stamped-IsFrame,
}
use my_streamer.Capture.Loop.Buffers.{
  IsReady, IsSupplied, AreSupplied, Turns, missed, turned, IsBalanced, Turns-IsBalanced,
}

-- a round returns, and what it leaves
Goes : Settings → Round → Loop → Type 0
Goes s r l =
    (t : Loop) × (capture_round s r l ≡ some t)
    × IsReady s t
    × Turns r l t
    × (t.sleep_time ≡ pause s r.handling)

capture_round-missed :
    (s : Settings) (r : Round) (l : Loop) → r.buffer ≡ none → IsReady s l → Goes s r l
unfolding Goes capture_round IsReady
capture_round-missed s r l e ready = (
  paused s r (report (notified (codes "Failed to dequeue capture buffer") false) l),
  ap (λ x. Option.map (paused s r) (handle_buffer s r x l)) e,
  ready,
  missed refl refl,
  refl,
)

capture_round-jpeg :
    (s : Settings) (r : Round) (l : Loop) (b : VideoBuffer)
    → r.buffer ≡ some b
    → s.jpeg_encoding ≡ true
    → r.room ≡ true
    → Goes s r l
unfolding Goes capture_round IsReady
capture_round-jpeg s r l b e j room =
    let taken =
      report (dequeued b.index) (record l { frames_received = (l.frames_received + 1) % 2 ^ 32 }) in
    let i =
      update_time_stamp b.seconds b.microseconds
        (create (r.mapped b.index) b.bytes_used 1 b.bytes_used jpeg) in
    let behind : Option Loop → Option Loop =
      λ x. Option.map (paused s r) (Option.map (give_back r b) x) in
    (
      paused s r (give_back r b (report (shown i) taken)),
      ap (λ x. Option.map (paused s r) (handle_buffer s r x l)) e
          ∙ ap
              (λ x. behind (
                if x
                then show_jpeg b (new_jpeg r b) taken
                else show_rgb b (elim l.rgb_image [ none ↦ none | some y ↦ decode_frame s r b y ])
                    taken))
              j
          ∙ ap
              (λ x. behind (
                show_jpeg b
                  (if x
                    then some (create (r.mapped b.index) b.bytes_used 1 b.bytes_used jpeg)
                    else none)
                  taken))
              room,
      λ raw. absurd (cc (j, raw)),
      turned b.index b.index i refl refl,
      refl,
    )

capture_round-Goes :
    (s : Settings) (r : Round) (l : Loop) → IsSupplied s r → IsReady s l → Goes s r l
unfolding Goes IsReady raw_round
capture_round-Goes s r l (mapped, room) ready = elim (Option-cases r.buffer) [
  | inl e ↦ capture_round-missed s r l e ready
  | inr (b, e) ↦ elim (Bool-cases s.jpeg_encoding) [
    | inl j ↦ capture_round-jpeg s r l b e j (room j)
    | inr raw ↦
        let (i, m, at, v) = ready raw in
        let (bytes, there, long) = mapped b e in
        let j =
          update_time_stamp b.seconds b.microseconds
            (record i { memory = some (decoded s bytes m i) }) in
        (
          raw_round s r b l j,
          capture_round-raw s r b l i m bytes raw at v.memory_at e there
              (IsFrame-inside s i m bytes v (long raw)),
          λ _. (
            j,
            decoded s bytes m i,
            refl,
            stamped-IsFrame s b.seconds b.microseconds bytes i m v,
          ),
          turned b.index b.index j refl refl,
          refl,
        )
  ]
]

capture_rounds-IsBalanced :
    (s : Settings) (frames : ℕ) (rs : List Round) (l : Loop)
    → AreSupplied s rs
    → IsReady s l
    → IsBalanced s frames l
    → (t : Loop) × (capture_rounds s rs l ≡ some t) × IsBalanced s frames t
unfolding capture_rounds Goes
capture_rounds-IsBalanced s frames [] l h ready b = (l, refl, b)
capture_rounds-IsBalanced s frames (r ∷ rs) l (h, hs) ready b =
    let (t, e, again, turn, w) = capture_round-Goes s r l h ready in
    let (u, f, c) =
      capture_rounds-IsBalanced s frames rs t hs again (Turns-IsBalanced s frames r l t turn w b) in
    (u, ap (λ x. elim x [ none ↦ none | some y ↦ capture_rounds s rs y ]) e ∙ f, c)

first-IsBalanced :
    (s : Settings) (frames : ℕ) (i : Option Image)
    → frames < 2 ^ 32
    → IsBalanced s frames (first s frames i)
first-IsBalanced s frames i small = ((refl, refl, omega arith), omega arith)

-- The capture loop with a frame rate, from fewer than 2^32 frames, where the width is below 2^27 and the
-- rows of the shared image have less than 2^31 bytes, each buffer that the device gives is mapped and, where
-- it is decoded, holds a frame, and there is memory for an image where JPEG is passed on: it
-- returns behind any number of rounds, whatever the calls of the device answer. Then either there was no
-- memory for the shared image, which is reported as fatal before any buffer is taken, or of the buffers
-- that were taken each was shown to the listener, counted, and given back or reported as lost, and the
-- wait that the last round left is not longer than a frame. The memory that is given is as large as was
-- asked for.
pub video_capture_loop_total :
    (heap : Heap) (s : Settings) (frames : ℕ) (rs : List Round)
    → ((n : ℕ) (m : List ℕ) → heap.malloc n ≡ some m → n ≤ length m)
    → s.frame_rate ≢ 0
    → s.frame_width < 2 ^ 27
    → s.frame_height * image_bytes_per_stride (line_bits s.frame_width rgb24) < 2 ^ 31
    → frames < 2 ^ 32
    → AreSupplied s rs
    → (t : Loop) × (video_capture_loop heap s frames rs ≡ some t)
      × ((t.reports ≡ notified (codes "Failed allocating an image") true ∷ [])
          ⊎ IsBalanced s frames t)
unfolding video_capture_loop IsReady
video_capture_loop_total heap s frames rs law rate small bounded few supplied =
    let plain : (s.frame_rate == 0) ≡ false = ground arith in
    let by : Bool → Option Loop = λ j.
      if j
      then capture_rounds s rs (first s frames none)
      else with_image s rs frames (allocate heap s.frame_width s.frame_height rgb24 false) in
    let start = ap (λ x. if x then none else by s.jpeg_encoding) plain in
    elim (Bool-cases s.jpeg_encoding) [
      | inl j ↦
          let (t, e, b) =
            capture_rounds-IsBalanced s frames rs (first s frames none) supplied
              (λ raw. absurd (cc (j, raw))) (first-IsBalanced s frames none few) in
          (t, start ∙ ap by j ∙ e, inr b)
      | inr raw ↦ elim (allocate-cases heap s.frame_width s.frame_height rgb24 law bounded) [
        | inl e ↦ (
          report (notified (codes "Failed allocating an image") true) (first s frames none),
          start ∙ ap by raw ∙ ap (with_image s rs frames) e,
          inl refl,
        )
        | inr (m, e, room) ↦
            let stride = image_bytes_per_stride (line_bits s.frame_width rgb24) in
            let i = new_image (some m) s.frame_width s.frame_height stride rgb24 true in
            let (t, f, b) =
              capture_rounds-IsBalanced s frames rs (first s frames (some i)) supplied
                (λ _. (i, m, refl, given-IsFrame s m small room))
                (first-IsBalanced s frames (some i) few) in
            (t, start ∙ ap by raw ∙ ap (with_image s rs frames) e ∙ f, inr b)
      ]
    ]
