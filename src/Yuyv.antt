-- ===== src/Yuyv.antt =====
-- DecodeYuyvToRgb of camera/V4L2/v4l2_tools.h, with the indices of imgproc/img_tools.h. The pointers are
-- places in the memory; `>> 8` of an int rounds down.
pub mod Channels
pub mod Pixels
pub mod Rows
mod Tests
use my_streamer.Prelude.{
  ℕ, zero, suc, ◌+◌, ◌*◌, ◌/◌, Bool, true, false, List, [], ◌∷◌, ◌==◌, if◌then◌else◌, get_or, set,
}
use my_streamer.Prelude.Int.{ℤ, pos, negsuc, pos_part, neg_part, sub_ℕ, ltb_ℤ, ◌+ℤ◌, ◌-ℤ◌}

abbrev pub red_index : ℕ
red_index = 0

abbrev pub green_index : ℕ
green_index = 1

abbrev pub blue_index : ℕ
blue_index = 2

-- the product with a number that is not negative
abbrev pub scaled : ℕ → ℤ → ℤ
scaled n z = sub_ℕ (n * pos_part z) (n * neg_part z)

abbrev pub shift8 : ℤ → ℤ
shift8 (pos n) = pos (n / 256)
shift8 (negsuc n) = negsuc (n / 256)

abbrev pub clamp : ℤ → ℕ
clamp x = if ltb_ℤ (pos 255) x then 255 else if ltb_ℤ x (pos 0) then 0 else pos_part x

-- the three channels, by the bytes of the luminance and of the two differences
unfoldable pub red : ℕ → ℕ → ℕ
unfolding ◌+ℤ◌
red y v = clamp (shift8 (pos (y * 256) +ℤ scaled 360 (sub_ℕ v 128)))

unfoldable pub green : ℕ → ℕ → ℕ → ℕ
unfolding ◌-ℤ◌
green y u v =
    clamp (shift8 ((pos (y * 256) -ℤ scaled 88 (sub_ℕ u 128)) -ℤ scaled 184 (sub_ℕ v 128)))

unfoldable pub blue : ℕ → ℕ → ℕ
unfolding ◌+ℤ◌
blue y u = clamp (shift8 (pos (y * 256) +ℤ scaled 455 (sub_ℕ u 128)))

-- the place of the source, `z`, and the memory of the image
pub record Decoder : Type 0 where
  pub yuyv_ptr : ℕ
  pub z : ℕ
  pub rgb : List ℕ

-- one pixel, to the place `row`
unfoldable pub decode_pixel : List ℕ → ℕ → Decoder → Decoder
unfolding red green blue
decode_pixel yuyv row d =
    let y = if d.z == 0 then get_or yuyv d.yuyv_ptr 0 else get_or yuyv (d.yuyv_ptr + 2) 0 in
    let u = get_or yuyv (d.yuyv_ptr + 1) 0 in
    let v = get_or yuyv (d.yuyv_ptr + 3) 0 in
    record {
      yuyv_ptr = if d.z == 0 then d.yuyv_ptr else d.yuyv_ptr + 4;
      z = if d.z == 0 then 1 else 0;
      rgb =
          set (set (set d.rgb (row + red_index) (red y v)) (row + green_index) (green y u v))
            (row + blue_index) (blue y u);
    }

-- the columns that are left of a row
unfoldable pub decode_columns : List ℕ → ℕ → ℕ → Decoder → Decoder
unfolding decode_pixel
decode_columns yuyv zero row d = d
decode_columns yuyv (suc n) row d = decode_columns yuyv n (row + 3) (decode_pixel yuyv row d)

-- the rows that are left, from row `iy` on
unfoldable pub decode_rows : List ℕ → ℕ → ℕ → ℕ → ℕ → Decoder → Decoder
unfolding decode_columns
decode_rows yuyv width stride zero iy d = d
decode_rows yuyv width stride (suc n) iy d =
    decode_rows yuyv width stride n (suc iy) (decode_columns yuyv width (iy * stride) d)

-- the memory of the image behind the call
unfoldable pub decode_yuyv_to_rgb : List ℕ → List ℕ → ℕ → ℕ → ℕ → List ℕ
unfolding decode_rows
decode_yuyv_to_rgb yuyv rgb width height stride =
    (decode_rows yuyv width stride height 0 (record { yuyv_ptr = 0; z = 0; rgb = rgb })).rgb
