-- ===== src/Yuyv/Tests.antt =====
-- The decoder on small pictures.
use my_streamer.Prelude.{ℕ, List, [], ◌∷◌, ◌≡◌, refl, arith, replicate}
use my_streamer.Yuyv.{
  decode_yuyv_to_rgb, red, green, blue, decode_pixel, decode_columns, decode_rows,
}
use my_streamer.Yuyv.Pixels.{HasPixel}
use my_streamer.Yuyv.Rows.{decode_yuyv_to_rgb-HasPixel}

-- two rows of three pixels, the middle four bytes shared by two rows
abbrev bytes : List ℕ
bytes = 16 ∷ 128 ∷ 235 ∷ 128 ∷ 81 ∷ 90 ∷ 145 ∷ 240 ∷ 41 ∷ 240 ∷ 210 ∷ 110 ∷ []

picture :
    decode_yuyv_to_rgb bytes (replicate 20 7) 3 2 10
    ≡ 16 ∷ 16 ∷ 16 ∷ 235 ∷ 235 ∷ 235 ∷ 238 ∷ 13 ∷ 13 ∷ 7 ∷ 255 ∷ 77 ∷ 77 ∷ 15 ∷ 15 ∷ 240 ∷ 184 ∷ 184
      ∷ 255 ∷ 7 ∷ []
unfolding decode_yuyv_to_rgb red green blue decode_pixel decode_columns decode_rows
picture = refl

decode_yuyv_to_rgb-HasPixel_example :
    HasPixel bytes 4 (decode_yuyv_to_rgb bytes (replicate 20 7) 3 2 10) 13
decode_yuyv_to_rgb-HasPixel_example =
    decode_yuyv_to_rgb-HasPixel bytes (replicate 20 7) 3 2 10 (omega arith) (omega arith) 1 1
      (omega arith) (omega arith)
