-- ===== src/Drawing/Tracks.antt =====
-- The pixels that a run of dots goes over.
use my_streamer.Prelude.{
  ℕ, suc, ◌+◌, ◌-◌, ◌*◌, ◌≤◌, ◌<◌, Bool, true, false, not, ◌&&◌, ◌||◌, List, if◌then◌else◌, ◌≡◌,
  ◌≢◌, sym, ap, ◌∙◌, subst, ◌⊎◌, inl, inr, arith, length, get_or,
}
use my_streamer.Prelude.Int.{ℤ, pos, pos_part, ltb_ℤ, ◌-ℤ◌}
use my_streamer.Images.{PixelFormat, grayscale8, rgb24, rgba32, jpeg, unknown, Image}
use my_streamer.Yuyv.Rows.{row_behind}
use my_streamer.Drawing.{Argb, pixel_size, ink, min_ℤ, max_ℤ, rounds, fill_run}
use my_streamer.Drawing.Runs.{channels, fill_of, RunInks, fill_run-RunInks}

-- between the ends, in either order
abbrev pub between : ℤ → ℤ → ℤ → Bool
between a b z = (not (ltb_ℤ z a) && not (ltb_ℤ b z)) || (not (ltb_ℤ z b) && not (ltb_ℤ a z))

-- where a pixel stands
abbrev pub address : Image → ℕ → ℕ → ℕ
address i ix iy = iy * i.stride + ix * pixel_size i.format

-- the bounds of a line, cut off at the image
abbrev pub low : ℤ → ℤ → ℤ
low x1 x2 = max_ℤ (pos 0) (min_ℤ x1 x2)

abbrev pub high : ℕ → ℤ → ℤ → ℤ
high w x1 x2 = min_ℤ (pos w -ℤ pos 1) (max_ℤ x1 x2)

pub reached_only :
    (w : ℕ) (x1 x2 : ℤ) (i : ℕ)
    → i < rounds (low x1 x2) (high w x1 x2)
    → (pos_part (low x1 x2) + i < w) × (between x1 x2 (pos (pos_part (low x1 x2) + i)) ≡ true)
unfolding ◌-ℤ◌
reached_only w x1 x2 i h = (ground arith, ground arith)

pub reached_all :
    (w : ℕ) (x1 x2 : ℤ) (ix : ℕ)
    → ix < w
    → between x1 x2 (pos ix) ≡ true
    → (pos_part (low x1 x2) ≤ ix) × (ix - pos_part (low x1 x2) < rounds (low x1 x2) (high w x1 x2))
unfolding ◌-ℤ◌
reached_all w x1 x2 ix h b = (ground arith, ground arith)

-- The rows have room for their pixels, and the memory for its rows.
pub record IsCanvas (i : Image) (m : List ℕ) : Type 0 where
  pub line_fits : i.width * pixel_size i.format ≤ i.stride
  pub rows_fit : i.height * i.stride ≤ length m

pub channels-pixel_size : (f : PixelFormat) → channels f ≤ pixel_size f
channels-pixel_size grayscale8 = omega arith
channels-pixel_size rgb24 = omega arith
channels-pixel_size rgba32 = omega arith
channels-pixel_size jpeg = omega arith
channels-pixel_size unknown = omega arith

pub mul_step : (a b s : ℕ) → a < b → a * s + s ≤ b * s
mul_step a b s h = subst (λ x. a * s + s ≤ x * s) (omega arith) (row_behind a (b - suc a) s)

-- A pixel's bytes stand before those of every pixel that follows, in its row or in a later one.
same_row : (i : Image) (x z y : ℕ) → x < z → address i x y + channels i.format ≤ address i z y
same_row i x z y h =
    omega (arith, mul_step x z (pixel_size i.format) h, channels-pixel_size i.format)

later_row :
    (i : Image) (m : List ℕ) (x y ix iy : ℕ)
    → IsCanvas i m
    → x < i.width
    → y < iy
    → address i x y + channels i.format ≤ address i ix iy
later_row i m x y ix iy v h l = omega (
  arith,
  mul_step x i.width (pixel_size i.format) h,
  mul_step y iy i.stride l,
  v.line_fits,
  channels-pixel_size i.format,
)

pixel_fits :
    (i : Image) (m : List ℕ) (x y : ℕ)
    → IsCanvas i m
    → x < i.width
    → y < i.height
    → address i x y + channels i.format ≤ length m
pixel_fits i m x y v h l = omega (
  arith,
  mul_step x i.width (pixel_size i.format) h,
  mul_step y i.height i.stride l,
  v.line_fits,
  v.rows_fit,
  channels-pixel_size i.format,
)

pixels_apart :
    (i : Image) (m : List ℕ) (x y ix iy c : ℕ)
    → IsCanvas i m
    → x < i.width
    → ix < i.width
    → c < channels i.format
    → (x ≢ ix) ⊎ (y ≢ iy)
    → (address i ix iy + c < address i x y)
      ⊎ (address i x y + channels i.format ≤ address i ix iy + c)
pixels_apart i m x y ix iy c v h k l other = elim (order y iy) [
  | inl before ↦ inr (omega (arith, later_row i m x y ix iy v h before))
  | inr (inl behind) ↦ inl (omega (arith, later_row i m ix iy x y v k behind))
  | inr (inr same) ↦ elim (order x ix) [
    | inl before ↦ inr (omega (arith, same_row i x ix y before, ap (address i ix) same))
    | inr (inl behind) ↦ inl (omega (arith, same_row i ix x y behind, ap (address i ix) same))
    | inr (inr twin) ↦ absurd (elim other [ inl n ↦ n twin | inr n ↦ n same ])
  ]
]
  where
    order : (a b : ℕ) → (a < b) ⊎ (b < a) ⊎ (a ≡ b)
    order a b = grind arith

-- the byte of a pixel behind a line: the colour's where the pixel is on it
abbrev pub Drawn :
    (ℕ → ℕ → ℕ → ℕ) → Image → Argb → (ℕ → ℕ → Bool) → List ℕ → List ℕ → ℕ → ℕ → ℕ → Type 0
Drawn blend i color on a b ix iy c = get_or b (address i ix iy + c) 0 ≡ (
    if on ix iy
    then ink blend color.a (fill_of i.format color c) (get_or a (address i ix iy + c) 0)
    else get_or a (address i ix iy + c) 0)

module _ (blend : ℕ → ℕ → ℕ → ℕ) (i : Image) (m : List ℕ) (v : IsCanvas i m) (color : Argb) where
  -- a run whose dots are the pixels `xs`, `ys`
  pub record IsTrack (n p step : ℕ) (xs ys : ℕ → ℕ) : Type 0 where
    pub wide : channels i.format ≤ step
    pub places : (k : ℕ) → k < n → p + k * step ≡ address i (xs k) (ys k)
    pub columns : (k : ℕ) → k < n → xs k < i.width
    pub rows : (k : ℕ) → k < n → ys k < i.height

  pub track-RunInks :
      (n p step : ℕ) (xs ys : ℕ → ℕ)
      → IsTrack n p step xs ys
      → RunInks blend i.format color n p step m (fill_run blend i.format color n p step m)
  track-RunInks n p step xs ys t = fill_run-RunInks blend i.format color n p step m t.wide (λ k h.
      omega (arith, t.places k h, pixel_fits i m (xs k) (ys k) v (t.columns k h) (t.rows k h)))

  pub track-hit :
      (n p step : ℕ) (xs ys : ℕ → ℕ) (on : ℕ → ℕ → Bool) (k ix iy c : ℕ)
      → IsTrack n p step xs ys
      → k < n
      → xs k ≡ ix
      → ys k ≡ iy
      → on ix iy ≡ true
      → c < channels i.format
      → Drawn blend i color on m (fill_run blend i.format color n p step m) ix iy c
  track-hit n p step xs ys on k ix iy c t h ex ey hit l =
      let b = fill_run blend i.format color n p step m in
      let at : ℕ → Type 0 =
        λ j. get_or b j 0 ≡ ink blend color.a (fill_of i.format color c) (get_or m j 0) in
      let place : p + k * step + c ≡ address i ix iy + c =
        ap (λ j. j + c) (t.places k h ∙ ap (λ x. address i x (ys k)) ex ∙ ap (address i ix) ey) in
      subst at place ((track-RunInks n p step xs ys t).1 k c h l)
      ∙ ap
          (λ o.
            if o
            then ink blend color.a (fill_of i.format color c) (get_or m (address i ix iy + c) 0)
            else get_or m (address i ix iy + c) 0)
          (sym hit)

  pub track-miss :
      (n p step : ℕ) (xs ys : ℕ → ℕ) (on : ℕ → ℕ → Bool) (ix iy c : ℕ)
      → IsTrack n p step xs ys
      → ix < i.width
      → on ix iy ≡ false
      → c < channels i.format
      → ((k : ℕ) → k < n → (xs k ≢ ix) ⊎ (ys k ≢ iy))
      → Drawn blend i color on m (fill_run blend i.format color n p step m) ix iy c
  track-miss n p step xs ys on ix iy c t h miss l other =
      (track-RunInks n p step xs ys t).2 (address i ix iy + c) (λ k less.
        elim (pixels_apart i m (xs k) (ys k) ix iy c v (t.columns k less) h l (other k less)) [
          | inl o ↦ inl (omega (arith, t.places k less, o))
          | inr o ↦ inr (omega (arith, t.places k less, o))
        ])
      ∙ ap
          (λ o.
            if o
            then ink blend color.a (fill_of i.format color c) (get_or m (address i ix iy + c) 0)
            else get_or m (address i ix iy + c) 0)
          (sym miss)
