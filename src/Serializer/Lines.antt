-- ===== src/Serializer/Lines.antt =====
-- The lines of a file that is written from plain texts.
use my_streamer.Prelude.{
  ℕ, zero, suc, ◌≤◌, ◌<◌, Bool, true, false, [], ◌∷◌, ◌++◌, ◌==◌, if◌then◌else◌, length, ◌≡◌, refl,
  ap, ◌∙◌, arith,
}
use my_streamer.Prelude.Text.{Text}
use my_streamer.Json.{c_str}
use my_streamer.Serializer.{take_line, is_blank, drop_last_blanks, line_of}

-- no end of a line, no terminator, and no blank at the end
abbrev pub IsPlain : Text → Type 0
IsPlain [] = Unit
IsPlain (c ∷ []) = ((c == b'\n') ≡ false) × ((c == 0) ≡ false) × (is_blank c ≡ false)
IsPlain (c ∷ d ∷ t) = ((c == b'\n') ≡ false) × ((c == 0) ≡ false) × IsPlain (d ∷ t)

tail-IsPlain : (c : ℕ) (t : Text) → IsPlain (c ∷ t) → IsPlain t
tail-IsPlain c [] h = tt
tail-IsPlain c (d ∷ t) h = h.2

heads : (c : ℕ) (t : Text) → IsPlain (c ∷ t) → ((c == b'\n') ≡ false) × ((c == 0) ≡ false)
heads c [] h = (h.0, h.1)
heads c (d ∷ t) h = (h.0, h.1)

pub c_str-IsPlain : (t : Text) → IsPlain t → c_str t ≡ t
unfolding c_str
c_str-IsPlain [] h = refl
c_str-IsPlain (c ∷ t) h =
    ap (λ b. if b then [] else c ∷ c_str t) (heads c t h).1
    ∙ ap (λ x. c ∷ x) (c_str-IsPlain t (tail-IsPlain c t h))

c_str-line : (t : Text) → IsPlain t → c_str (t ++ (b'\n' ∷ [])) ≡ t ++ (b'\n' ∷ [])
unfolding c_str
c_str-line [] h = refl
c_str-line (c ∷ t) h =
    ap (λ b. if b then [] else c ∷ c_str (t ++ (b'\n' ∷ []))) (heads c t h).1
    ∙ ap (λ x. c ∷ x) (c_str-line t (tail-IsPlain c t h))

drop_last_blanks-line : (t : Text) → IsPlain t → drop_last_blanks (t ++ (b'\n' ∷ [])) ≡ t
unfolding drop_last_blanks
drop_last_blanks-line [] h = refl
drop_last_blanks-line (c ∷ []) h = ap (λ b. if b then [] else c ∷ []) h.2
drop_last_blanks-line (c ∷ d ∷ t) h =
    ap (λ x. elim x [ [] ↦ if is_blank c then [] else c ∷ [] | e ∷ r ↦ c ∷ e ∷ r ])
      (drop_last_blanks-line (d ∷ t) h.2)

-- the text of a line is read back
pub line_of-line : (t : Text) → IsPlain t → line_of (t ++ (b'\n' ∷ [])) ≡ t
unfolding line_of
line_of-line t h = ap drop_last_blanks (c_str-line t h) ∙ drop_last_blanks-line t h

pub take_line-line :
    (n : ℕ) (t rest : Text)
    → IsPlain t
    → length t < n
    → take_line n (t ++ (b'\n' ∷ rest)) ≡ (t ++ (b'\n' ∷ []), rest)
unfolding take_line
take_line-line zero t rest h l = absurd (omega arith)
take_line-line (suc n) [] rest h l = refl
take_line-line (suc n) (c ∷ t) rest h l =
    ap
      (λ b.
        if b
        then (c ∷ [], t ++ (b'\n' ∷ rest))
        else (c ∷ (take_line n (t ++ (b'\n' ∷ rest))).0, (take_line n (t ++ (b'\n' ∷ rest))).1))
      (heads c t h).0
    ∙ ap (λ x. (c ∷ x.0, x.1)) (take_line-line n t rest (tail-IsPlain c t h) (omega arith))

left_of :
    (b : Bool) (x y : Text × Text) (n : ℕ)
    → length x.1 ≤ n
    → length y.1 ≤ n
    → length (if b then x else y).1 ≤ n
left_of true x y n h k = h
left_of false x y n h k = k

take_line-le : (n : ℕ) (t : Text) → length (take_line n t).1 ≤ length t
unfolding take_line
take_line-le zero t = omega arith
take_line-le (suc n) [] = omega arith
take_line-le (suc n) (c ∷ t) =
    left_of (c == b'\n') (c ∷ [], t) (c ∷ (take_line n t).0, (take_line n t).1) (length (c ∷ t))
      (omega arith) (omega (arith, take_line-le n t))

-- what is left of a text is shorter, where there is room
pub take_line-shorter : (n c : ℕ) (t : Text) → length (take_line (suc n) (c ∷ t)).1 ≤ length t
unfolding take_line
take_line-shorter n c t =
    left_of (c == b'\n') (c ∷ [], t) (c ∷ (take_line n t).0, (take_line n t).1) (length t)
      (omega arith) (take_line-le n t)
