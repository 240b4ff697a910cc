-- ===== src/Drawing.antt =====
-- imgproc/image_drawer.cpp: HLine, VLine and Rectangle. The blending of a colour that is not opaque, which
-- is done in `float`, is a parameter: of the opacity, the colour's channel and the byte that is there.
-- The rows that Rectangle computes wrap round as `int32_t`.
pub mod Runs
pub mod Tracks
pub mod Lines
pub mod Rectangles
mod Tests
use my_streamer.Prelude.{
  ℕ, zero, suc, ◌+◌, ◌-◌, ◌*◌, ◌/◌, ◌%◌, Bool, true, false, not, ◌&&◌, List, Option, none, some,
  ◌==◌, if◌then◌else◌, get_or, set,
}
use my_streamer.Prelude.Int.{ℤ, pos, negsuc, pos_part, ltb_ℤ, ◌+ℤ◌, ◌-ℤ◌}
use my_streamer.Errors.{ErrorCode, success, null_pointer, unsupported_pixel_format}
use my_streamer.Images.{PixelFormat, grayscale8, rgb24, rgba32, jpeg, unknown, Image}
use my_streamer.Yuyv.{red_index, green_index, blue_index}

pub record Argb : Type 0 where
  pub a : ℕ
  pub r : ℕ
  pub g : ℕ
  pub b : ℕ

-- `RGB_TO_GRAY`, as a byte
abbrev pub gray_of : Argb → ℕ
gray_of color = (0x3666 * color.r + 0xB724 * color.g + 0x1276 * color.b) / 65536 % 256

abbrev pub is_drawable : PixelFormat → Bool
is_drawable grayscale8 = true
is_drawable rgb24 = true
is_drawable rgba32 = true
is_drawable _ = false

-- the bytes from a pixel to the next
abbrev pub pixel_size : PixelFormat → ℕ
pixel_size grayscale8 = 1
pixel_size rgb24 = 3
pixel_size _ = 4

abbrev pub min_ℤ : ℤ → ℤ → ℤ
min_ℤ x y = if ltb_ℤ y x then y else x

abbrev pub max_ℤ : ℤ → ℤ → ℤ
max_ℤ x y = if ltb_ℤ x y then y else x

-- the rounds of `for (x = left; x <= right; x++)`, where `left` is not negative
abbrev pub rounds : ℤ → ℤ → ℕ
rounds left right = if ltb_ℤ right left then 0 else suc (pos_part right - pos_part left)

-- `y1 + 1` and `y2 - 1` on `int32_t`
unfoldable pub row_below : ℤ → ℤ
unfolding ◌+ℤ◌
row_below y = if ltb_ℤ y (pos 0x7fff_ffff) then y +ℤ pos 1 else negsuc 0x7fff_ffff

unfoldable pub row_above : ℤ → ℤ
unfolding ◌-ℤ◌
row_above y = if ltb_ℤ (negsuc 0x7fff_ffff) y then y -ℤ pos 1 else pos 0x7fff_ffff

module _ (blend : ℕ → ℕ → ℕ → ℕ) where
  abbrev pub ink : ℕ → ℕ → ℕ → ℕ
  ink opacity fill old = if opacity == 255 then fill else blend opacity fill old

  abbrev pub dot_rgb : Argb → List ℕ → ℕ → List ℕ
  dot_rgb color m p =
      let m1 = set m (p + red_index) (ink color.a color.r (get_or m (p + red_index) 0)) in
      let m2 = set m1 (p + green_index) (ink color.a color.g (get_or m1 (p + green_index) 0)) in
      set m2 (p + blue_index) (ink color.a color.b (get_or m2 (p + blue_index) 0))

  -- The body of the loops; the fourth byte of a pixel stays.
  abbrev pub dot : PixelFormat → Argb → List ℕ → ℕ → List ℕ
  dot grayscale8 color m p = set m p (ink color.a (gray_of color) (get_or m p 0))
  dot _ color m p = dot_rgb color m p

  unfoldable pub fill_run : PixelFormat → Argb → ℕ → ℕ → ℕ → List ℕ → List ℕ
  fill_run format color zero p step m = m
  fill_run format color (suc n) p step m =
      fill_run format color n (p + step) step (dot format color m p)

  -- behind the tests of the image
  unfoldable pub hline_bytes : Image → ℤ → ℤ → ℤ → Argb → List ℕ → List ℕ
  unfolding fill_run ◌-ℤ◌
  hline_bytes i x1 x2 y color m =
      let left = max_ℤ (pos 0) (min_ℤ x1 x2) in
      let right = min_ℤ (pos i.width -ℤ pos 1) (max_ℤ x1 x2) in
      let size = pixel_size i.format in
      if not (ltb_ℤ y (pos 0)) && ltb_ℤ y (pos i.height) && not (color.a == 0)
      then fill_run i.format color (rounds left right)
          (pos_part y * i.stride + pos_part left * size) size m
      else m

  unfoldable pub vline_bytes : Image → ℤ → ℤ → ℤ → Argb → List ℕ → List ℕ
  unfolding fill_run ◌-ℤ◌
  vline_bytes i y1 y2 x color m =
      let top = max_ℤ (pos 0) (min_ℤ y1 y2) in
      let bottom = min_ℤ (pos i.height -ℤ pos 1) (max_ℤ y1 y2) in
      if not (ltb_ℤ x (pos 0)) && ltb_ℤ x (pos i.width)
      then fill_run i.format color (rounds top bottom)
          (pos_part top * i.stride + pos_part x * pixel_size i.format) i.stride m
      else m

  unfoldable pub rectangle_bytes : Image → ℤ → ℤ → ℤ → ℤ → Argb → List ℕ → List ℕ
  unfolding hline_bytes vline_bytes row_below row_above
  rectangle_bytes i x1 y1 x2 y2 color m = vline_bytes i (row_below y1) (row_above y2) x2 color (
      vline_bytes i (row_below y1) (row_above y2) x1 color
        (hline_bytes i x1 x2 y2 color (hline_bytes i x1 x2 y1 color m)))

  -- The tests that the calls begin with. The image is drawn on in place.
  abbrev pub drawn : (Image → List ℕ → List ℕ) → Option Image → Option Image × ErrorCode
  drawn draw none = (none, null_pointer)
  drawn draw (some i) = elim i.memory [
    | none ↦ (some i, null_pointer)
    | some m ↦
        if is_drawable i.format
        then (some (record i { memory = some (draw i m) }), success)
        else (some i, unsupported_pixel_format)
  ]

  abbrev pub hline : Option Image → ℤ → ℤ → ℤ → Argb → Option Image × ErrorCode
  hline image x1 x2 y color = drawn (λ i. hline_bytes i x1 x2 y color) image

  abbrev pub vline : Option Image → ℤ → ℤ → ℤ → Argb → Option Image × ErrorCode
  vline image y1 y2 x color = drawn (λ i. vline_bytes i y1 y2 x color) image

  abbrev pub rectangle : Option Image → ℤ → ℤ → ℤ → ℤ → Argb → Option Image × ErrorCode
  rectangle image x1 y1 x2 y2 color = drawn (λ i. rectangle_bytes i x1 y1 x2 y2 color) image
