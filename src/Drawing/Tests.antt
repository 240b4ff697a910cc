-- ===== src/Drawing/Tests.antt =====
-- A rectangle of one row.
use my_streamer.Prelude.{
  ℕ, ◌+◌, true, List, [], ◌∷◌, some, ◌≡◌, refl, arith, length, get_or, replicate,
}
use my_streamer.Prelude.Int.{pos}
use my_streamer.Errors.{success}
use my_streamer.Images.{Image, rgb24, new_image}
use my_streamer.Drawing.{
  Argb, gray_of, rectangle, rectangle_bytes, hline_bytes, vline_bytes, fill_run,
}
use my_streamer.Drawing.Tracks.{IsCanvas, address}
use my_streamer.Drawing.Rectangles.{overdrawn, rectangle_lem}

abbrev paint : Argb
paint = record { a = 255; r = 9; g = 8; b = 7 }

abbrev canvas : Image
canvas = new_image (some (replicate 16 0)) 2 2 8 rgb24 true

abbrev mixed : ℕ → ℕ → ℕ → ℕ
mixed a fill old = old

white : gray_of (record { a = 0; r = 255; g = 255; b = 255 }) ≡ 255
white = refl

-- one pixel at the upper left: the pixel below it is drawn too
one_row :
    rectangle_bytes mixed canvas (pos 0) (pos 0) (pos 0) (pos 0) paint (replicate 16 0)
    ≡ 9 ∷ 8 ∷ 7 ∷ 0 ∷ 0 ∷ 0 ∷ 0 ∷ 0 ∷ 9 ∷ 8 ∷ 7 ∷ 0 ∷ 0 ∷ 0 ∷ 0 ∷ 0 ∷ []
unfolding rectangle_bytes hline_bytes vline_bytes fill_run
one_row = refl

canvas-IsCanvas : IsCanvas canvas (replicate 16 0)
canvas-IsCanvas = record { line_fits = omega arith; rows_fit = omega arith }

-- A pixel in the row below is the colour's, at the second channel.
rectangle_lem_example :
    (n : List ℕ) × (rectangle mixed (some canvas) (pos 0) (pos 0) (pos 0) (pos 0) paint
      ≡ (some (record canvas { memory = some n }), success))
    × (length n ≡ 16)
    × (get_or n (address canvas 0 1 + 1) 0 ≡ 8)
unfolding overdrawn
rectangle_lem_example =
    rectangle_lem mixed canvas paint refl (replicate 16 0) (pos 0) (pos 0) (pos 0) (pos 0) 0 1 1
      refl refl canvas-IsCanvas (omega arith) (omega arith) (omega arith) (omega arith)
      (omega arith)
