-- ===== src/Drawing/Lines.antt =====
-- HLine and VLine.
use my_streamer.Prelude.{
  ℕ, ◌+◌, ◌-◌, ◌*◌, ◌<◌, Bool, true, false, not, ◌&&◌, List, ◌==◌, if◌then◌else◌, ◌≡◌, sym, ap, ◌∙◌,
  subst, inl, inr, arith, length, get_or, Bool-cases,
}
use my_streamer.Prelude.Int.{ℤ, pos, pos_part, ltb_ℤ}
use my_streamer.Images.{Image}
use my_streamer.Drawing.{Argb, pixel_size, ink, rounds, fill_run, hline_bytes, vline_bytes}
use my_streamer.Drawing.Runs.{channels, fill_of}
use my_streamer.Drawing.Tracks.{
  between, address, low, high, reached_only, reached_all, IsCanvas, channels-pixel_size, Drawn,
  IsTrack, track-hit, track-miss, track-RunInks, mul_step,
}

-- the pixels of a line, with a colour that is not transparent
abbrev pub on_hline : ℤ → ℤ → ℤ → Argb → ℕ → ℕ → Bool
on_hline x1 x2 y color ix iy = between y y (pos iy) && between x1 x2 (pos ix) && not (color.a == 0)

abbrev pub on_vline : ℤ → ℤ → ℤ → ℕ → ℕ → Bool
on_vline y1 y2 x ix iy = between x x (pos ix) && between y1 y2 (pos iy)

module _ (blend : ℕ → ℕ → ℕ → ℕ) (i : Image) (m : List ℕ) (v : IsCanvas i m) (color : Argb) where
  -- a memory that stays
  nothing-Drawn :
      (on : ℕ → ℕ → Bool) (ix iy c : ℕ) → on ix iy ≡ false → Drawn blend i color on m m ix iy c
  nothing-Drawn on ix iy c off =
      ap
        (λ o.
          if o
          then ink blend color.a (fill_of i.format color c) (get_or m (address i ix iy + c) 0)
          else get_or m (address i ix iy + c) 0)
        (sym off)

  hline-IsTrack :
      (x1 x2 : ℤ) (y : ℤ)
      → pos_part y < i.height
      → IsTrack blend i m v color
          (rounds (low x1 x2) (high i.width x1 x2))
          (pos_part y * i.stride + pos_part (low x1 x2) * pixel_size i.format)
          (pixel_size i.format)
          (λ k. pos_part (low x1 x2) + k)
          (λ k. pos_part y)
  hline-IsTrack x1 x2 y inside = record {
    wide = channels-pixel_size i.format;
    places = λ k h. grind arith;
    columns = λ k h. (reached_only i.width x1 x2 k h).0;
    rows = λ k h. inside;
  }

  -- a row inside of the image, and a colour that is not transparent
  hline_run-Drawn :
      (x1 x2 y : ℤ) (ix iy c : ℕ)
      → not (ltb_ℤ y (pos 0)) && ltb_ℤ y (pos i.height) && not (color.a == 0) ≡ true
      → ix < i.width
      → c < channels i.format
      → Drawn blend i color
          (on_hline x1 x2 y color)
          m
          (fill_run blend i.format color
            (rounds (low x1 x2) (high i.width x1 x2))
            (pos_part y * i.stride + pos_part (low x1 x2) * pixel_size i.format)
            (pixel_size i.format)
            m)
          ix
          iy
          c
  hline_run-Drawn x1 x2 y ix iy c t h l =
      let track = hline-IsTrack x1 x2 y (ground arith) in
      elim (Bool-cases (on_hline x1 x2 y color ix iy)) [
        | inl on ↦
            let (left, there) = reached_all i.width x1 x2 ix h (ground arith) in
            track-hit blend i m v color _ _ _ _ _ (on_hline x1 x2 y color)
              (ix - pos_part (low x1 x2)) ix iy c track there (omega arith) (ground arith) on l
        | inr off ↦
            track-miss blend i m v color _ _ _ _ _ (on_hline x1 x2 y color) ix iy c track h off l
              (λ k less. elim (Bool-cases (between y y (pos iy))) [
                | inl row ↦ inl (λ e.
                    let hit : between x1 x2 (pos ix) ≡ true =
                      ap (λ x. between x1 x2 (pos x)) (sym e)
                      ∙ (reached_only i.width x1 x2 k less).1 in
                    absurd (ground arith))
                | inr other ↦ inr (λ e. absurd (ground arith))
              ])
      ]

  pub hline_bytes-Drawn :
      (x1 x2 y : ℤ) (ix iy c : ℕ)
      → ix < i.width
      → iy < i.height
      → c < channels i.format
      → Drawn blend i color (on_hline x1 x2 y color) m (hline_bytes blend i x1 x2 y color m) ix iy c
  unfolding hline_bytes
  hline_bytes-Drawn x1 x2 y ix iy c h k l =
      let run =
        fill_run blend i.format color (rounds (low x1 x2) (high i.width x1 x2))
          (pos_part y * i.stride + pos_part (low x1 x2) * pixel_size i.format) (pixel_size i.format)
          m in
      let at : List ℕ → Type 0 = λ b. Drawn blend i color (on_hline x1 x2 y color) m b ix iy c in
      let by : Bool → List ℕ = λ b. if b then run else m in
      elim (Bool-cases (not (ltb_ℤ y (pos 0)) && ltb_ℤ y (pos i.height) && not (color.a == 0))) [
        | inl t ↦ subst at (ap by (sym t)) (hline_run-Drawn x1 x2 y ix iy c t h l)
        | inr t ↦
            let off : on_hline x1 x2 y color ix iy ≡ false = ground arith in
            subst at (ap by (sym t)) (nothing-Drawn (on_hline x1 x2 y color) ix iy c off)
      ]

  vline-IsTrack :
      (y1 y2 : ℤ) (x : ℤ)
      → pos_part x < i.width
      → IsTrack blend i m v color
          (rounds (low y1 y2) (high i.height y1 y2))
          (pos_part (low y1 y2) * i.stride + pos_part x * pixel_size i.format)
          i.stride
          (λ k. pos_part x)
          (λ k. pos_part (low y1 y2) + k)
  vline-IsTrack y1 y2 x inside = record {
    wide = omega (
      arith,
      channels-pixel_size i.format,
      v.line_fits,
      mul_step 0 i.width (pixel_size i.format) (omega arith),
    );
    places = λ k h. grind arith;
    columns = λ k h. inside;
    rows = λ k h. (reached_only i.height y1 y2 k h).0;
  }

  vline_run-Drawn :
      (y1 y2 x : ℤ) (ix iy c : ℕ)
      → not (ltb_ℤ x (pos 0)) && ltb_ℤ x (pos i.width) ≡ true
      → ix < i.width
      → iy < i.height
      → c < channels i.format
      → Drawn blend i color
          (on_vline y1 y2 x)
          m
          (fill_run blend i.format color
            (rounds (low y1 y2) (high i.height y1 y2))
            (pos_part (low y1 y2) * i.stride + pos_part x * pixel_size i.format)
            i.stride
            m)
          ix
          iy
          c
  vline_run-Drawn y1 y2 x ix iy c t h k l =
      let track = vline-IsTrack y1 y2 x (ground arith) in
      elim (Bool-cases (on_vline y1 y2 x ix iy)) [
        | inl on ↦
            let (top, there) = reached_all i.height y1 y2 iy k (ground arith) in
            track-hit blend i m v color _ _ _ _ _ (on_vline y1 y2 x) (iy - pos_part (low y1 y2)) ix
              iy c track there (ground arith) (omega arith) on l
        | inr off ↦
            track-miss blend i m v color _ _ _ _ _ (on_vline y1 y2 x) ix iy c track h off l
              (λ n less. elim (Bool-cases (between x x (pos ix))) [
                | inl column ↦ inr (λ e.
                    let hit : between y1 y2 (pos iy) ≡ true =
                      ap (λ z. between y1 y2 (pos z)) (sym e)
                      ∙ (reached_only i.height y1 y2 n less).1 in
                    absurd (ground arith))
                | inr other ↦ inl (λ e. absurd (ground arith))
              ])
      ]

  pub vline_bytes-Drawn :
      (y1 y2 x : ℤ) (ix iy c : ℕ)
      → ix < i.width
      → iy < i.height
      → c < channels i.format
      → Drawn blend i color (on_vline y1 y2 x) m (vline_bytes blend i y1 y2 x color m) ix iy c
  unfolding vline_bytes
  vline_bytes-Drawn y1 y2 x ix iy c h k l =
      let run =
        fill_run blend i.format color (rounds (low y1 y2) (high i.height y1 y2))
          (pos_part (low y1 y2) * i.stride + pos_part x * pixel_size i.format) i.stride m in
      let at : List ℕ → Type 0 = λ b. Drawn blend i color (on_vline y1 y2 x) m b ix iy c in
      let by : Bool → List ℕ = λ b. if b then run else m in
      elim (Bool-cases (not (ltb_ℤ x (pos 0)) && ltb_ℤ x (pos i.width))) [
        | inl t ↦ subst at (ap by (sym t)) (vline_run-Drawn y1 y2 x ix iy c t h k l)
        | inr t ↦
            let off : on_vline y1 y2 x ix iy ≡ false = ground arith in
            subst at (ap by (sym t)) (nothing-Drawn (on_vline y1 y2 x) ix iy c off)
      ]

  pub hline_bytes-length : (x1 x2 y : ℤ) → length (hline_bytes blend i x1 x2 y color m) ≡ length m
  unfolding hline_bytes
  hline_bytes-length x1 x2 y =
      let by : Bool → ℕ = λ b. length (
        if b
        then fill_run blend i.format color (rounds (low x1 x2) (high i.width x1 x2))
            (pos_part y * i.stride + pos_part (low x1 x2) * pixel_size i.format)
            (pixel_size i.format) m
        else m) in
      elim (Bool-cases (not (ltb_ℤ y (pos 0)) && ltb_ℤ y (pos i.height) && not (color.a == 0))) [
        | inl t ↦
            ap by t
            ∙ (track-RunInks blend i m v color _ _ _ _ _ (hline-IsTrack x1 x2 y (ground arith))).0
        | inr t ↦ ap by t
      ]

  pub vline_bytes-length : (y1 y2 x : ℤ) → length (vline_bytes blend i y1 y2 x color m) ≡ length m
  unfolding vline_bytes
  vline_bytes-length y1 y2 x =
      let by : Bool → ℕ = λ b. length (
        if b
        then fill_run blend i.format color (rounds (low y1 y2) (high i.height y1 y2))
            (pos_part (low y1 y2) * i.stride + pos_part x * pixel_size i.format) i.stride m
        else m) in
      elim (Bool-cases (not (ltb_ℤ x (pos 0)) && ltb_ℤ x (pos i.width))) [
        | inl t ↦
            ap by t
            ∙ (track-RunInks blend i m v color _ _ _ _ _ (vline-IsTrack y1 y2 x (ground arith))).0
        | inr t ↦ ap by t
      ]
