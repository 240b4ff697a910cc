-- ===== src/Json/Leaves.antt =====
-- What is left of the text behind a string, a word and the other extractions that call no other.
use my_streamer.Prelude.{
  ℕ, zero, suc, ◌≤◌, ◌<◌, Bool, true, false, [], ◌∷◌, ◌++◌, ◌==◌, ◌≡◌, refl, arith, length, inl,
  inr, Bool-cases,
}
use my_streamer.Prelude.Text.{Text}
use my_streamer.Json.{
  Scan, yields, refused, starved, Escape, push, skip_four, unknown, word, at, tail, skip_spaces,
  unescape, string_loop, extract_string, word_loop, is_misspelt, extract_word, kind, close,
}

-- The extraction ended, and if it succeeded then fewer than `n` bytes are left.
abbrev pub Leaves : ℕ → Scan → Type 0
Leaves n (yields s q) = length q < n
Leaves n refused = Unit {0}
Leaves n starved = ⊥

pub length-skip_spaces : (p : Text) → length (skip_spaces p) ≤ length p
unfolding skip_spaces
length-skip_spaces [] = omega arith
length-skip_spaces (c ∷ p) = ground (arith, length-skip_spaces p)

pub Leaves-mono : (m n : ℕ) (r : Scan) → m ≤ n → Leaves m r → Leaves n r
Leaves-mono m n (yields s q) h l = omega arith
Leaves-mono m n refused h l = tt
Leaves-mono m n starved h l = l

pub string_loop-Leaves : (s : Text) (k : ℕ) (p : Text) → Leaves (length p) (string_loop s k p)
unfolding string_loop
string_loop-Leaves s k [] = tt
string_loop-Leaves s (suc k) (c ∷ p) =
    Leaves-mono (length p) _ (string_loop s k p) (omega arith) (string_loop-Leaves s k p)
string_loop-Leaves s zero (c ∷ []) = ground arith
string_loop-Leaves s zero (c ∷ e ∷ p) = elim (Bool-cases (c == b'"')) [
  | inl q ↦ rw (q, Leaves, string_loop) (omega (arith, length-skip_spaces (e ∷ p)))
  | inr nq ↦
      rw (nq, Leaves, string_loop)
        (elim (Bool-cases (c == b'\\')) [
          | inr plain ↦
              rw (plain, Leaves, string_loop)
                (Leaves-mono _ _ (string_loop (s ++ c ∷ []) zero (e ∷ p)) (omega arith)
                  (string_loop-Leaves (s ++ c ∷ []) zero (e ∷ p)))
          | inl esc ↦
              rw (esc, Leaves, string_loop)
                (escaped (unescape e) (λ d. string_loop-Leaves (s ++ d ∷ []) zero p)
                  (string_loop-Leaves s 4 p))
        ])
]
  where
    escaped :
        (x : Escape)
        → ((d : ℕ) → Leaves (length p) (string_loop (s ++ d ∷ []) zero p))
        → Leaves (length p) (string_loop s 4 p)
        → Leaves (suc (suc (length p))) (elim x [
          | push d ↦ string_loop (s ++ d ∷ []) zero p
          | skip_four ↦ string_loop s 4 p
          | unknown ↦ refused
        ])
    escaped (push d) h g = Leaves-mono _ _ (string_loop (s ++ d ∷ []) zero p) (omega arith) (h d)
    escaped skip_four h g = Leaves-mono _ _ (string_loop s 4 p) (omega arith) g
    escaped unknown h g = tt

-- Rules for the two kinds of case split in the parser.
pub Leaves-scan :
    (m n : ℕ) (r : Scan) (b : Scan) (g : Text → Text → Scan)
    → Leaves m r
    → Leaves n b
    → ((v q : Text) → length q < m → Leaves n (g v q))
    → Leaves n (elim r [ starved ↦ starved | refused ↦ b | yields v q ↦ g v q ])
Leaves-scan m n (yields v q) b g l hb hg = hg v q l
Leaves-scan m n refused b g l hb hg = hb
Leaves-scan m n starved b g l hb hg = l

pub Leaves-test :
    (n : ℕ) (t : Bool) (x y : Scan)
    → (t ≡ true → Leaves n x)
    → (t ≡ false → Leaves n y)
    → Leaves n (elim t [ true ↦ x | false ↦ y ])
Leaves-test n true x y hx hy = hx refl
Leaves-test n false x y hx hy = hy refl

pub length-tail : (c : ℕ) (p : Text) → at c p ≡ true → suc (length (tail p)) ≡ length p
length-tail c [] h = cc
length-tail c (d ∷ p) h = refl

pub tail-lt : (p : Text) → 0 < length p → suc (length (tail p)) ≡ length p
tail-lt [] h = absurd (omega arith)
tail-lt (c ∷ p) h = refl

pub tail-le : (p : Text) → length (tail p) ≤ length p
tail-le [] = omega arith
tail-le (c ∷ p) = omega arith

pub extract_string-Leaves : (p : Text) → Leaves (length p) (extract_string p)
unfolding extract_string
extract_string-Leaves p = elim (Bool-cases (at b'"' (skip_spaces p))) [
  | inl q ↦
      rw (q, Leaves, extract_string)
        (Leaves-mono _ _ (string_loop [] zero (tail (skip_spaces p)))
          (omega (arith, length-tail b'"' (skip_spaces p) q, length-skip_spaces p))
          (string_loop-Leaves [] zero (tail (skip_spaces p))))
  | inr nq ↦ rw (nq, Leaves, extract_string) tt
]

pub close-Leaves : (l r : ℕ) (s p : Text) (n : ℕ) → length p ≤ n → Leaves n (close l r s p)
unfolding close
close-Leaves l r s p n h = elim (Bool-cases (at r p)) [
  | inl q ↦ rw (q, Leaves, close) (omega (arith, length-tail r p q, length-skip_spaces (tail p)))
  | inr nq ↦ rw (nq, Leaves, close) tt
]

pub length-word_loop : (s p : Text) → length (word_loop s p).1 ≤ length p
unfolding word_loop
length-word_loop s [] = omega arith
length-word_loop s (c ∷ p) = ground (arith, length-word_loop (s ++ c ∷ []) p)

-- A word holds its first byte at least.
pub extract_word-Leaves : (p : Text) → kind p ≡ word → Leaves (length p) (extract_word p)
unfolding extract_word kind
extract_word-Leaves [] k = cc
extract_word-Leaves (c ∷ p) k =
    let (s, q) = word_loop (c ∷ []) p in
    let first : word_loop [] (c ∷ p) ≡ word_loop (c ∷ []) p = ground arith in
    elim (Bool-cases (is_misspelt (word_loop [] (c ∷ p)).0)) [
      | inl bad ↦ rw (bad, Leaves, extract_word) tt
      | inr good ↦
          rw (good, Leaves, extract_word)
            (rw first (
              omega
                (arith, length-skip_spaces (word_loop (c ∷ []) p).1, length-word_loop (c ∷ []) p)))
    ]
