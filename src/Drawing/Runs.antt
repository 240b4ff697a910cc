-- ===== src/Drawing/Runs.antt =====
-- What a run of dots does to the pixels.
use my_streamer.Prelude.{
  ℕ, zero, suc, ◌+◌, ◌*◌, ◌≤◌, ◌<◌, List, ◌≡◌, ◌≢◌, refl, sym, ap, ◌∙◌, subst, ◌⊎◌, inl, inr, arith,
  length, get_or, set, length-set, get_or-set_self, get_or-set_ne,
}
use my_streamer.Images.{PixelFormat, grayscale8, rgb24, rgba32, jpeg, unknown}
use my_streamer.Yuyv.Pixels.{three-Keeps, three-bytes}
use my_streamer.Yuyv.Rows.{row_next}
use my_streamer.Drawing.{Argb, gray_of, ink, dot_rgb, dot, fill_run}

-- the bytes of a pixel that are drawn
abbrev pub channels : PixelFormat → ℕ
channels grayscale8 = 1
channels _ = 3

-- the colour's byte for a channel
abbrev pub fill_of : PixelFormat → Argb → ℕ → ℕ
fill_of grayscale8 color c = gray_of color
fill_of _ color zero = color.r
fill_of _ color (suc zero) = color.g
fill_of _ color (suc (suc c)) = color.b

module _ (blend : ℕ → ℕ → ℕ → ℕ) where
  -- what a memory becomes where `k` bytes from `p` on are inked
  abbrev pub Inks : ℕ → (ℕ → ℕ) → ℕ → ℕ → List ℕ → List ℕ → Type 0
  Inks opacity fill k p a b =
      (length b ≡ length a)
      × ((c : ℕ) → c < k → get_or b (p + c) 0 ≡ ink blend opacity (fill c) (get_or a (p + c) 0))
      × ((j : ℕ) → (j < p) ⊎ (p + k ≤ j) → get_or b j 0 ≡ get_or a j 0)

  dot_rgb-Inks :
      (color : Argb) (fill : ℕ → ℕ) (m : List ℕ) (p : ℕ)
      → fill 0 ≡ color.r
      → fill 1 ≡ color.g
      → fill 2 ≡ color.b
      → p + 3 ≤ length m
      → Inks color.a fill 3 p m (dot_rgb blend color m p)
  dot_rgb-Inks color fill m p hr hg hb room =
      let x = ink blend color.a color.r (get_or m (p + 0) 0) in
      let m1 = set m (p + 0) x in
      let y = ink blend color.a color.g (get_or m1 (p + 1) 0) in
      let m2 = set m1 (p + 1) y in
      let z = ink blend color.a color.b (get_or m2 (p + 2) 0) in
      let (long, same) = three-Keeps m p x y z in
      let (hx, hy, hz) = three-bytes m p x y z room in
      let at0 : p + 0 ≡ p = omega arith in
      let apart1 : p + 0 ≢ p + 1 = λ e. omega arith in
      let apart2 : p + 0 ≢ p + 2 = λ e. omega arith in
      let apart3 : p + 1 ≢ p + 2 = λ e. omega arith in
      (
        long,
        by_channel (dot_rgb blend color m p)
            (ap (λ j. get_or (dot_rgb blend color m p) j 0) at0
              ∙ hx
              ∙ ap (λ v. ink blend color.a v (get_or m (p + 0) 0)) (sym hr))
            (hy
              ∙ ap (ink blend color.a color.g) (get_or-set_ne m x 0 apart1)
              ∙ ap (λ v. ink blend color.a v (get_or m (p + 1) 0)) (sym hg))
            (hz
              ∙ ap (ink blend color.a color.b)
                  (get_or-set_ne m1 y 0 apart3 ∙ get_or-set_ne m x 0 apart2)
              ∙ ap (λ v. ink blend color.a v (get_or m (p + 2) 0)) (sym hb)),
        λ j out. same j (elim out [ inl l ↦ inl l | inr l ↦ inr (omega arith) ]),
      )
    where
      by_channel :
          (w : List ℕ)
          → get_or w (p + 0) 0 ≡ ink blend color.a (fill 0) (get_or m (p + 0) 0)
          → get_or w (p + 1) 0 ≡ ink blend color.a (fill 1) (get_or m (p + 1) 0)
          → get_or w (p + 2) 0 ≡ ink blend color.a (fill 2) (get_or m (p + 2) 0)
          → (c : ℕ) → c < 3
          → get_or w (p + c) 0 ≡ ink blend color.a (fill c) (get_or m (p + c) 0)
      by_channel w a b d zero h = a
      by_channel w a b d (suc zero) h = b
      by_channel w a b d (suc (suc zero)) h = d
      by_channel w a b d (suc (suc (suc c))) h = absurd (omega arith)

  dot-Inks :
      (f : PixelFormat) (color : Argb) (m : List ℕ) (p : ℕ)
      → p + channels f ≤ length m
      → Inks color.a (fill_of f color) (channels f) p m (dot blend f color m p)
  dot-Inks grayscale8 color m p room = (
    length-set m p _,
    λ c h.
        ap (λ j. get_or (set m p (ink blend color.a (gray_of color) (get_or m p 0))) j 0)
          (omega arith)
        ∙ get_or-set_self m p _ 0 (omega arith)
        ∙ ap (λ j. ink blend color.a (gray_of color) (get_or m j 0)) (omega arith),
    λ j out. get_or-set_ne m _ 0 (λ e. elim out [ inl l ↦ omega arith | inr l ↦ omega arith ]),
  )
  dot-Inks rgb24 color m p room = dot_rgb-Inks color (fill_of rgb24 color) m p refl refl refl room
  dot-Inks rgba32 color m p room = dot_rgb-Inks color (fill_of rgba32 color) m p refl refl refl room
  dot-Inks jpeg color m p room = dot_rgb-Inks color (fill_of jpeg color) m p refl refl refl room
  dot-Inks unknown color m p room =
      dot_rgb-Inks color (fill_of unknown color) m p refl refl refl room

  -- a run of dots, each `step` bytes behind the one before
  abbrev pub RunInks : PixelFormat → Argb → ℕ → ℕ → ℕ → List ℕ → List ℕ → Type 0
  RunInks f color n p step a b =
      (length b ≡ length a)
      × ((i c : ℕ)
          → i < n
          → c < channels f
          → get_or b (p + i * step + c) 0
            ≡ ink blend color.a (fill_of f color c) (get_or a (p + i * step + c) 0))
      × ((j : ℕ)
          → ((i : ℕ) → i < n → (j < p + i * step) ⊎ (p + i * step + channels f ≤ j))
          → get_or b j 0 ≡ get_or a j 0)

  pub fill_run-RunInks :
      (f : PixelFormat) (color : Argb) (n p step : ℕ) (m : List ℕ)
      → channels f ≤ step
      → ((i : ℕ) → i < n → p + i * step + channels f ≤ length m)
      → RunInks f color n p step m (fill_run blend f color n p step m)
  unfolding fill_run
  fill_run-RunInks f color zero p step m wide room =
      (refl, λ i c h. absurd (omega arith), λ j out. refl)
  fill_run-RunInks f color (suc n) p step m wide room =
      let m1 = dot blend f color m p in
      let next : (i : ℕ) → suc i * step ≡ i * step + step = λ i. row_next i step in
      let (long, inked, kept) = dot-Inks f color m p (omega (arith, room 0 (omega arith))) in
      let (longer, rest, outside) =
        fill_run-RunInks f color n (p + step) step m1 wide
          (λ i h. omega (arith, room (suc i) (omega arith), next i, long)) in
      (
        longer ∙ long,
        λ i c h k.
            let w = fill_run blend f color n (p + step) step m1 in
            let at : ℕ → Type 0 =
              λ j. get_or w j 0 ≡ ink blend color.a (fill_of f color c) (get_or m j 0) in
            elim i as (λ x. (x < suc n → at (p + x * step + c))) [
              | zero ↦ λ _.
                  subst at (omega arith) (outside (p + c) (λ x l. inl (omega arith)) ∙ inked c k)
              | suc x ↦ λ l. subst at (omega (arith, next x)) (
                  rest x c (omega arith) k
                  ∙ ap (ink blend color.a (fill_of f color c))
                      (kept (p + step + x * step + c) (inr (omega arith))))
            ]
              h,
        λ j out.
            outside j (λ i h. elim (out (suc i) (omega arith)) [
              | inl l ↦ inl (omega (arith, l, next i))
              | inr l ↦ inr (omega (arith, l, next i))
            ])
            ∙ kept j (elim (out 0 (omega arith)) [
              | inl l ↦ inl (omega (arith, l))
              | inr l ↦ inr (omega (arith, l))
            ]),
      )
