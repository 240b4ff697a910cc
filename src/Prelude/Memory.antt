-- ===== src/Prelude/Memory.antt =====
-- `memcpy` on memory as a list of bytes. A write behind the end changes nothing and a read behind the
-- end gives 0: the theorems ask for enough room.
use Prim.Native.Nat.{ℕ, zero, suc, ◌+◌, ◌≤◌, ◌<◌}
use mathlib.Core.Path.{◌≡◌, refl, ap, ◌∙◌}
use mathlib.Core.Logic.{◌⊎◌}
use mathlib.Core.List.{List, [], ◌∷◌}
use native.Mathlib.Omega.{arith}
use my_streamer.Prelude.Lists.{length, get_or, set, length-set, get_or-set_self, get_or-set_ne}

abbrev pub copy_in : List ℕ → ℕ → List ℕ → List ℕ
copy_in memory i [] = memory
copy_in memory i (x ∷ xs) = copy_in (set memory i x) (suc i) xs

abbrev pub copy_out : List ℕ → ℕ → ℕ → List ℕ
copy_out memory i zero = []
copy_out memory i (suc n) = get_or memory i 0 ∷ copy_out memory (suc i) n

pub length-copy_in : (m : List ℕ) (i : ℕ) (xs : List ℕ) → length (copy_in m i xs) ≡ length m
length-copy_in m i [] = refl
length-copy_in m i (x ∷ xs) = length-copy_in (set m i x) (suc i) xs ∙ length-set m i x

pub length-copy_out : (m : List ℕ) (i n : ℕ) → length (copy_out m i n) ≡ n
length-copy_out m i zero = refl
length-copy_out m i (suc n) = ap suc (length-copy_out m (suc i) n)

pub copy_in_outside :
    (m : List ℕ) (i : ℕ) (xs : List ℕ) (p : ℕ)
    → (p < i) ⊎ (i + length xs ≤ p)
    → get_or (copy_in m i xs) p 0 ≡ get_or m p 0
copy_in_outside m i [] p h = refl
copy_in_outside m i (x ∷ xs) p h =
    copy_in_outside (set m i x) (suc i) xs p (omega arith)
    ∙ get_or-set_ne m x 0 (λ e. absurd (omega arith))

pub copy_in_inside :
    (m : List ℕ) (i : ℕ) (xs : List ℕ) (j : ℕ)
    → j < length xs
    → i + length xs ≤ length m
    → get_or (copy_in m i xs) (i + j) 0 ≡ get_or xs j 0
copy_in_inside m i [] j h l = absurd (omega arith)
copy_in_inside m i (x ∷ xs) zero h l =
    ap (λ p. get_or (copy_in (set m i x) (suc i) xs) p 0) (omega arith)
    ∙ copy_in_outside (set m i x) (suc i) xs i (omega arith)
    ∙ get_or-set_self m i x 0 (omega arith)
copy_in_inside m i (x ∷ xs) (suc j) h l =
    ap (λ p. get_or (copy_in (set m i x) (suc i) xs) p 0) (omega arith)
    ∙ copy_in_inside (set m i x) (suc i) xs j (omega arith) (omega (arith, length-set m i x))

pub get_or-copy_out :
    (m : List ℕ) (i n j : ℕ) → j < n → get_or (copy_out m i n) j 0 ≡ get_or m (i + j) 0
get_or-copy_out m i zero j h = absurd (omega arith)
get_or-copy_out m i (suc n) zero h = ap (λ p. get_or m p 0) (omega arith)
get_or-copy_out m i (suc n) (suc j) h =
    get_or-copy_out m (suc i) n j (omega arith) ∙ ap (λ p. get_or m p 0) (omega arith)
