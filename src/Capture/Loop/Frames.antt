-- ===== src/Capture/Loop/Frames.antt =====
-- What the listener is shown.
use mathlib.Core.Option
use my_streamer.Prelude.{
  ℕ, zero, suc, ◌+◌, ◌*◌, ◌%◌, ◌^◌, ◌≤◌, ◌<◌, true, false, List, ◌∷◌, Option, none, some,
  if◌then◌else◌, ◌≡◌, refl, sym, ap, ◌∙◌, subst, arith, length,
}
use my_streamer.Images.{
  Image, rgb24, new_image, line_bits, image_bytes_per_stride, update_time_stamp,
}
use my_streamer.Images.Sizes.{row_bytes}
use my_streamer.Yuyv.{decode_yuyv_to_rgb}
use my_streamer.Yuyv.Pixels.{HasPixel}
use my_streamer.Yuyv.Rows.{decode_yuyv_to_rgb-HasPixel, decode_yuyv_to_rgb-Misses}
use my_streamer.Capture.Loop.{
  Settings, VideoBuffer, Round, dequeued, requeued, shown, Loop, failed_requeue, report, yuyv_bytes,
  rgb_bytes, is_outside, decode_frame, new_jpeg, show_jpeg, show_rgb, give_back, handle_buffer,
  paused, capture_round,
}

-- an image for the frames
pub record IsFrame (s : Settings) (i : Image) (m : List ℕ) : Type 0 where
  pub memory_at : i.memory ≡ some m
  pub line_fits : 3 * s.frame_width ≤ i.stride
  pub rows_fit : s.frame_height * i.stride ≤ length m

rgb_bytes_upto : (w h stride n : ℕ) → 3 * w ≤ stride → h * stride ≤ n → rgb_bytes w h stride ≤ n
rgb_bytes_upto w zero stride n a b = omega arith
rgb_bytes_upto w (suc h) stride n a b = ground arith

-- A frame is decoded within the buffer and the image.
pub IsFrame-inside :
    (s : Settings) (i : Image) (m yuyv : List ℕ)
    → IsFrame s i m
    → yuyv_bytes s.frame_width s.frame_height ≤ length yuyv
    → is_outside s yuyv m i.stride ≡ false
IsFrame-inside s i m yuyv v long =
    let room =
      rgb_bytes_upto s.frame_width s.frame_height i.stride (length m) v.line_fits v.rows_fit in
    ground arith

-- what `Allocate` gives
pub given-IsFrame :
    (s : Settings) (m : List ℕ)
    → s.frame_width < 2 ^ 27
    → let stride = image_bytes_per_stride (line_bits s.frame_width rgb24) in
      s.frame_height * stride ≤ length m
      → IsFrame s (new_image (some m) s.frame_width s.frame_height stride rgb24 true) m
given-IsFrame s m small fits =
    let bits : line_bits s.frame_width rgb24 ≡ s.frame_width * 24 = omega arith in
    let sizes = row_bytes (line_bits s.frame_width rgb24) (omega arith) in
    record { memory_at = refl; line_fits = omega arith; rows_fit = fits }

stamped-memory :
    (sec usec : ℕ) (i : Image)
    → ((update_time_stamp sec usec i).memory ≡ i.memory)
      × ((update_time_stamp sec usec i).stride ≡ i.stride)
unfolding update_time_stamp
stamped-memory sec usec i = (ground arith, ground arith)

abbrev pub decoded : Settings → List ℕ → List ℕ → Image → List ℕ
decoded s yuyv m i = decode_yuyv_to_rgb yuyv m s.frame_width s.frame_height i.stride

pub stamped-IsFrame :
    (s : Settings) (sec usec : ℕ) (yuyv : List ℕ) (i : Image) (m : List ℕ)
    → IsFrame s i m
    → let j = record i { memory = some (decoded s yuyv m i) } in
      IsFrame s (update_time_stamp sec usec j) (decoded s yuyv m i)
stamped-IsFrame s sec usec yuyv i m v =
    let n = decoded s yuyv m i in
    let j = record i { memory = some n } in
    let (same, stride) = stamped-memory sec usec j in
    let (long, _) = decode_yuyv_to_rgb-Misses yuyv m s.frame_width s.frame_height i.stride in
    record {
      memory_at = same;
      line_fits = subst (λ x. 3 * s.frame_width ≤ x) (sym stride) v.line_fits;
      rows_fit =
          subst (λ x. s.frame_height * x ≤ length n) (sym stride)
            (subst (λ x. s.frame_height * i.stride ≤ x) (sym long) v.rows_fit);
    }

-- a picture whose pixels are those of `yuyv`
abbrev pub Shows : Settings → List ℕ → Image → Type 0
Shows s yuyv i =
    (m : List ℕ) × (i.memory ≡ some m)
    × ((iy ix : ℕ)
        → iy < s.frame_height
        → ix < s.frame_width
        → HasPixel yuyv (iy * s.frame_width + ix) m (iy * i.stride + 3 * ix))

-- the loop behind a round that shows `j`
unfoldable pub raw_round : Settings → Round → VideoBuffer → Loop → Image → Loop
raw_round s r b l j =
    let taken =
      report (dequeued b.index) (record l { frames_received = (l.frames_received + 1) % 2 ^ 32 }) in
    paused s r (give_back r b (report (shown j) (record taken { rgb_image = some j })))

pub capture_round-raw :
    (s : Settings) (r : Round) (b : VideoBuffer) (l : Loop) (i : Image) (m yuyv : List ℕ)
    → s.jpeg_encoding ≡ false
    → l.rgb_image ≡ some i
    → i.memory ≡ some m
    → r.buffer ≡ some b
    → r.mapped b.index ≡ some yuyv
    → is_outside s yuyv m i.stride ≡ false
    → capture_round s r l
      ≡ some (
          raw_round s r b l (
            update_time_stamp b.seconds b.microseconds
              (record i { memory = some (decoded s yuyv m i) })))
unfolding capture_round raw_round
capture_round-raw s r b l i m yuyv raw at bytes some_buffer there inside =
    let taken =
      report (dequeued b.index) (record l { frames_received = (l.frames_received + 1) % 2 ^ 32 }) in
    let behind : Option Loop → Option Loop =
      λ x. Option.map (paused s r) (Option.map (give_back r b) x) in
    let shared : List ℕ → List ℕ → Image =
      λ yuyv rgb. record i { memory = some (decoded s yuyv rgb i) } in
    let decode : Option (List ℕ) → Option (List ℕ) → Option Image = λ x y. elim x [
      | none ↦ none
      | some yuyv ↦ elim y [
        | none ↦ none
        | some rgb ↦ if is_outside s yuyv rgb i.stride then none else some (shared yuyv rgb)
      ]
    ] in
    ap (λ x. Option.map (paused s r) (handle_buffer s r x l)) some_buffer
    ∙ ap
        (λ e. behind (
          if e
          then show_jpeg b (new_jpeg r b) taken
          else show_rgb b (elim l.rgb_image [ none ↦ none | some x ↦ decode_frame s r b x ]) taken))
        raw
    ∙ ap (λ x. behind (show_rgb b (elim x [ none ↦ none | some y ↦ decode_frame s r b y ]) taken))
        at
    ∙ ap (λ x. behind (show_rgb b (decode x i.memory) taken)) there
    ∙ ap (λ y. behind (show_rgb b (decode (some yuyv) y) taken)) bytes
    ∙ ap (λ x. behind (show_rgb b (if x then none else some (shared yuyv m)) taken)) inside

-- A round with a buffer that holds a frame, where pictures are decoded and the shared image is one: the listener is
-- shown one picture, between the taking of the buffer and its return or the report that it was not
-- returned. Its pixels are those of the buffer, and it is the shared image, which is a frame again.
pub capture_round-Shows :
    (s : Settings) (r : Round) (b : VideoBuffer) (l : Loop) (i : Image) (m yuyv : List ℕ)
    → s.jpeg_encoding ≡ false
    → l.rgb_image ≡ some i
    → IsFrame s i m
    → r.buffer ≡ some b
    → r.mapped b.index ≡ some yuyv
    → yuyv_bytes s.frame_width s.frame_height ≤ length yuyv
    → (t : Loop) × (j : Image) × (n : List ℕ) × (capture_round s r l ≡ some t)
      × (t.rgb_image ≡ some j)
      × IsFrame s j n
      × (t.reports
          ≡ (if r.requeue then requeued b.index else failed_requeue)
            ∷ shown j
            ∷ dequeued b.index
            ∷ l.reports)
      × Shows s yuyv j
unfolding raw_round
capture_round-Shows s r b l i m yuyv raw at v some_buffer there long =
    let n = decoded s yuyv m i in
    let j = update_time_stamp b.seconds b.microseconds (record i { memory = some n }) in
    let whole = stamped-IsFrame s b.seconds b.microseconds yuyv i m v in
    (
      raw_round s r b l j,
      j,
      n,
      capture_round-raw s r b l i m yuyv raw at v.memory_at some_buffer there
          (IsFrame-inside s i m yuyv v long),
      refl,
      whole,
      refl,
      (
        n,
        whole.memory_at,
        λ iy ix h w.
            subst (λ x. HasPixel yuyv (iy * s.frame_width + ix) n (iy * x + 3 * ix))
              (sym (stamped-memory b.seconds b.microseconds (record i { memory = some n })).1)
              (decode_yuyv_to_rgb-HasPixel yuyv m s.frame_width s.frame_height i.stride v.line_fits
                v.rows_fit iy ix h w),
      ),
    )
