-- ===== src/Yuyv/Rows.antt =====
-- The rows of the picture.
use my_streamer.Prelude.{
  ℕ, zero, suc, ◌+◌, ◌*◌, ◌≤◌, ◌<◌, List, ◌≡◌, refl, ap, ◌∙◌, sym, subst, ◌⊎◌, inl, arith, length,
  get_or,
}
use my_streamer.Yuyv.{Decoder, decode_columns, decode_rows, decode_yuyv_to_rgb}
use my_streamer.Yuyv.Pixels.{
  HasPixel, IsAt, HasPixel-moved, HasPixel-same, decode_columns-Keeps, decode_columns-IsAt,
  decode_columns-HasPixel,
}

pub row_next : (a w : ℕ) → suc a * w ≡ a * w + w
row_next a w = grind arith

pub row_behind : (a i s : ℕ) → a * s + s ≤ (suc a + i) * s
row_behind a i s = grind arith

row_room : (w s a n l : ℕ) → 3 * w ≤ s → (a + suc n) * s ≤ l → a * s + 3 * w ≤ l
row_room w s a n l wide room =
    let e : (suc a + n) * s ≡ (a + suc n) * s = ap (λ r. r * s) (omega arith) in
    let h = row_behind a n s in omega arith

-- no row of the `n` from `iy` on has `j` among its pixels
abbrev pub Misses : ℕ → ℕ → ℕ → ℕ → ℕ → Type 0
Misses width stride n iy j =
    (i : ℕ) → i < n → (j < (iy + i) * stride) ⊎ ((iy + i) * stride + 3 * width ≤ j)

Misses-pred :
    (width stride n iy j : ℕ) → Misses width stride (suc n) iy j → Misses width stride n (suc iy) j
Misses-pred width stride n iy j h i l =
    let e : iy + suc i ≡ suc iy + i = omega arith in
    subst (λ r. (j < r * stride) ⊎ (r * stride + 3 * width ≤ j)) e (h (suc i) (omega arith))

module _ (yuyv : List ℕ) (width stride : ℕ) where
  decode_rows-Keeps :
      (n iy : ℕ) (d : Decoder)
      → let e = decode_rows yuyv width stride n iy d in
        (length e.rgb ≡ length d.rgb)
        × ((j : ℕ) → Misses width stride n iy j → get_or e.rgb j 0 ≡ get_or d.rgb j 0)
  unfolding decode_rows
  decode_rows-Keeps zero iy d = (refl, λ j out. refl)
  decode_rows-Keeps (suc n) iy d =
      let e = decode_columns yuyv width (iy * stride) d in
      let (l, f) = decode_columns-Keeps yuyv width (iy * stride) d in
      let (m, g) = decode_rows-Keeps n (suc iy) e in
      (
        m ∙ l,
        λ j out.
            g j (Misses-pred width stride n iy j out)
            ∙ f j (
                subst (λ r. (j < r * stride) ⊎ (r * stride + 3 * width ≤ j)) (omega arith)
                  (out 0 (omega arith))),
      )

  decode_rows-HasPixel :
      3 * width ≤ stride
      → (n iy : ℕ) (d : Decoder) → IsAt (iy * width) d
      → (iy + n) * stride ≤ length d.rgb
      → (i x : ℕ) → i < n
      → x < width
      → HasPixel yuyv
          ((iy + i) * width + x)
          (decode_rows yuyv width stride n iy d).rgb
          ((iy + i) * stride + 3 * x)
  unfolding decode_rows
  decode_rows-HasPixel wide zero iy d at room i x l m = absurd (omega arith)
  decode_rows-HasPixel wide (suc n) iy d at room zero x l m =
      let e = decode_columns yuyv width (iy * stride) d in
      let k = iy * width + x in
      let inside = row_room width stride iy n (length d.rgb) wide room in
      HasPixel-moved yuyv k ((iy + 0) * width + x) _ (iy * stride + 3 * x)
        ((iy + 0) * stride + 3 * x) (ap (λ r. r * width + x) (omega arith))
        (ap (λ r. r * stride + 3 * x) (omega arith))
        (HasPixel-same yuyv k (iy * stride + 3 * x) e.rgb _
          (λ j a b.
            (decode_rows-Keeps n (suc iy) e).1 j
              (λ i h. inl (omega (arith, row_behind iy i stride))))
          (decode_columns-HasPixel yuyv width (iy * stride) (iy * width) d at inside x m))
  decode_rows-HasPixel wide (suc n) iy d at room (suc i) x l m =
      let e = decode_columns yuyv width (iy * stride) d in
      HasPixel-moved yuyv ((suc iy + i) * width + x) ((iy + suc i) * width + x) _
        ((suc iy + i) * stride + 3 * x) ((iy + suc i) * stride + 3 * x)
        (ap (λ r. r * width + x) (omega arith)) (ap (λ r. r * stride + 3 * x) (omega arith))
        (decode_rows-HasPixel wide n (suc iy) e
          (subst (λ r. IsAt r e) (sym (row_next iy width))
            (decode_columns-IsAt yuyv width (iy * stride) (iy * width) d at))
          (subst (λ r. (suc iy + n) * stride ≤ r)
            (sym (decode_columns-Keeps yuyv width (iy * stride) d).0)
            (subst (λ r. r * stride ≤ length d.rgb) (omega arith) room))
          i x (omega arith) m)

-- A picture whose rows have room for their pixels: behind the call, each pixel of it has the three
-- channels in plain arithmetic, cut off at 0 and at 255, of the pixel with the same number in the source.
-- There, pixel `k` shares the four bytes from `4 * (k / 2)` on with its neighbour: a luminance for each,
-- and the two differences in common. A byte behind the end of the source counts as 0.
pub decode_yuyv_to_rgb-HasPixel :
    (yuyv rgb : List ℕ) (width height stride : ℕ)
    → 3 * width ≤ stride
    → height * stride ≤ length rgb
    → (iy ix : ℕ) → iy < height
    → ix < width
    → HasPixel yuyv
        (iy * width + ix)
        (decode_yuyv_to_rgb yuyv rgb width height stride)
        (iy * stride + 3 * ix)
unfolding decode_yuyv_to_rgb
decode_yuyv_to_rgb-HasPixel yuyv rgb width height stride wide room iy ix l m =
    let start : Decoder = record { yuyv_ptr = 0; z = 0; rgb = rgb } in
    HasPixel-moved yuyv ((0 + iy) * width + ix) (iy * width + ix) _ ((0 + iy) * stride + 3 * ix)
      (iy * stride + 3 * ix) (ap (λ r. r * width + ix) (omega arith))
      (ap (λ r. r * stride + 3 * ix) (omega arith))
      (decode_rows-HasPixel yuyv width stride wide height 0 start (omega arith, omega arith)
        (subst (λ r. r * stride ≤ length rgb) (omega arith) room) iy ix l m)

-- The memory keeps its length, and the bytes that belong to no pixel.
pub decode_yuyv_to_rgb-Misses :
    (yuyv rgb : List ℕ) (width height stride : ℕ)
    → let m = decode_yuyv_to_rgb yuyv rgb width height stride in
      (length m ≡ length rgb)
      × ((j : ℕ) → Misses width stride height 0 j → get_or m j 0 ≡ get_or rgb j 0)
unfolding decode_yuyv_to_rgb
decode_yuyv_to_rgb-Misses yuyv rgb width height stride =
    decode_rows-Keeps yuyv width stride height 0 (record { yuyv_ptr = 0; z = 0; rgb = rgb })
