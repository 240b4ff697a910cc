-- ===== src/Player/Pace.antt =====
-- How fast `onImageLoaded` asks for the next picture.
use my_streamer.Prelude.{
  ◌≤◌, ◌^◌, ◌≡◌, ◌⊎◌, inl, inr, true, false, [], ◌∷◌, ◌++◌, refl, sym, ◌∙◌, arith, Bool-cases,
}
use my_streamer.Prelude.Int.{
  ℤ, pos, pos_part, neg_part, ◌+ℤ◌, ◌-ℤ◌, ◌≤ℤ◌, ltb_ℤ, int_laws, eq_of_parts, ltb_ℤ→lt, ltb_ℤ→ge,
}
use my_streamer.Player.{Numbers, Page, pause, on_image_loaded}

-- whole numbers that a double holds exactly
abbrev pub IsSmall : ℤ → Type 0
IsSmall z = (pos_part z ≤ 2 ^ 53) × (neg_part z ≤ 2 ^ 53)

-- The numbers that stand for whole ones are subtracted exactly where the result is small, and compared
-- exactly, as doubles are. Nothing is assumed of the others.
pub record IsExact (n : Numbers) : Type 1 where
  pub IsWhole : n.Num → ℤ → Type 0
  pub whole_zero : IsWhole (n.of_ℕ 0) (pos 0)
  pub whole_sub :
      (a b : n.Num) (x y : ℤ)
      → IsWhole a x
      → IsWhole b y
      → IsSmall (x -ℤ y)
      → IsWhole (n.sub a b) (x -ℤ y)
  pub gtb_whole : (a b : n.Num) (x y : ℤ) → IsWhole a x → IsWhole b y → n.gtb a b ≡ ltb_ℤ y x

late_by : (t s f : ℤ) → ltb_ℤ f (t -ℤ s) ≡ true → s +ℤ f ≤ℤ t
late_by t s f h = omega (int_laws, ltb_ℤ→lt f (t -ℤ s) h)

early_by :
    (t s f : ℤ)
    → ltb_ℤ f (t -ℤ s) ≡ false
    → (pos 0 ≤ℤ f -ℤ (t -ℤ s)) × (t +ℤ (f -ℤ (t -ℤ s)) ≡ s +ℤ f)
early_by t s f h =
    let le = ltb_ℤ→ge f (t -ℤ s) h in (omega int_laws, eq_of_parts _ _ (omega int_laws))

module _ (n : Numbers) (exact : IsExact n) where
  open n use {Num}
  open exact use {IsWhole}

  -- a delay `d` from `now`, for a request at `start` and an interval
  abbrev pub IsTimely : Num → ℤ → ℤ → ℤ → Type 0
  IsTimely d now start interval =
      (z : ℤ) × IsWhole d z
      × (pos 0 ≤ℤ z)
      × ((now +ℤ z ≡ start +ℤ interval) ⊎ ((z ≡ pos 0) × (start +ℤ interval ≤ℤ now)))

  pause_due_parts :
      (now : Num) (p : Page Num) (t s f : ℤ)
      → IsWhole now t
      → IsWhole p.time_start s
      → IsWhole p.frame_interval f
      → IsSmall (t -ℤ s)
      → IsSmall (f -ℤ (t -ℤ s))
      → IsTimely (pause n now p) t s f
  unfolding pause
  pause_due_parts now p t s f wt ws wf a b =
      let taken = n.sub now p.time_start in
      let wd = exact.whole_sub now p.time_start t s wt ws a in
      let test : n.gtb taken p.frame_interval ≡ ltb_ℤ f (t -ℤ s) =
        exact.gtb_whole taken p.frame_interval (t -ℤ s) f wd wf in
      elim (Bool-cases (n.gtb taken p.frame_interval)) [
        | inl late ↦
            rw late
              (pos 0, exact.whole_zero, omega arith, inr (refl, late_by t s f (sym test ∙ late)))
        | inr early ↦
            let (least, due) = early_by t s f (sym test ∙ early) in
            rw early (
              f -ℤ (t -ℤ s),
              exact.whole_sub p.frame_interval taken f (t -ℤ s) wf wd b,
              least,
              inl due,
            )
      ]

  -- A picture asked for at `time_start` and shown at `now` is followed by exactly one scheduled call,
  -- due when the frame interval has passed since the request, or at once if it already has. The delay
  -- is never negative. The two times and the interval are whole numbers, as the interval is for a rate
  -- that divides 1000, and their differences have 53 bits at most, which the engine computes exactly.
  pub pause_due :
      (now : Num) (p : Page Num) (t s f : ℤ)
      → p.mjpeg_mode ≡ false
      → IsWhole now t
      → IsWhole p.time_start s
      → IsWhole p.frame_interval f
      → IsSmall (t -ℤ s)
      → IsSmall (f -ℤ (t -ℤ s))
      → let d = pause n now p in
        (on_image_loaded n now p ≡ record p { timers = p.timers ++ d ∷ [] }) × IsTimely d t s f
  unfolding on_image_loaded
  pause_due now p t s f m wt ws wf a b = (rw m, pause_due_parts now p t s f wt ws wf a b)
