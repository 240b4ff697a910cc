-- ===== src/Images/Stamps.antt =====
-- Time stamps.
use my_streamer.Prelude.{
  ℕ, ◌<◌, Bool, ◌||◌, ◌≡◌, ◌↔◌, refl, sym, arith, ltb, if◌then◌else◌, ◌⊎◌, inl, inr, Bool-cases,
  subst,
}
use my_streamer.Images.{Image, update_time_stamp}

-- the order of time stamps, seconds first
abbrev pub Earlier : ℕ → ℕ → ℕ → ℕ → Type 0
Earlier s u t v = (s < t) ⊎ ((s ≡ t) × (u < v))

-- what the theorem says of the image that is left
abbrev pub InOrder : ℕ → ℕ → Image → Image → Type 0
InOrder sec usec i j =
    (Earlier i.seconds i.microseconds sec usec → (j.seconds ≡ sec) × (j.microseconds ≡ usec))
    × (Earlier j.seconds j.microseconds i.seconds i.microseconds
        ↔ ((sec < i.seconds) × (i.microseconds < usec)))

-- A time stamp that is later than an image's replaces it. The image's becomes an earlier one exactly
-- where the new one has fewer seconds and more microseconds.
pub update_time_stamp_lem :
    (sec usec : ℕ) (i : Image) → InOrder sec usec i (update_time_stamp sec usec i)
unfolding update_time_stamp
update_time_stamp_lem sec usec i =
    let chosen : Bool → Image =
      λ b. if b then record i { seconds = sec; microseconds = usec } else i in
    elim (Bool-cases (ltb i.seconds sec || ltb i.microseconds usec)) [
      | inl t ↦
          subst (λ b. InOrder sec usec i (chosen b)) (sym t)
            (
              λ _. (refl, refl),
              (
                λ e. elim e [
                  | inl l ↦ (l, ground (arith, t))
                  | inr (q, l) ↦ absurd (ground (arith, t))
                ],
                λ (l, _). inl l,
              ),
            )
      | inr f ↦
          subst (λ b. InOrder sec usec i (chosen b)) (sym f)
            (
              λ e. absurd (elim e [ inl l ↦ ground (arith, f) | inr (q, l) ↦ ground (arith, f) ]),
              (
                λ e. absurd (elim e [ inl l ↦ omega arith | inr (q, l) ↦ omega arith ]),
                λ (_, l). absurd (ground (arith, f)),
              ),
            )
    ]
