-- ===== src/Ring/Single/Wrap.antt =====
-- Two calls of `memcpy`, up to the end of the memory and from its start, are one copy round the end.
use native.Mathlib.Nat.{mod-eq_of_lt, mod-add-mod, mod_self, add-zero}
use native.Mathlib.Decide.{dec_lt}
use my_streamer.Prelude.{
  ℕ, zero, suc, ◌+◌, ◌-◌, ◌%◌, ◌≤◌, ◌<◌, List, [], ◌∷◌, ◌++◌, ◌≡◌, refl, sym, ap, ap₂, ◌∙◌, arith,
  min, length, get_or, set, take, drop, length-set, length-append, append_assoc, append-nil,
  length-take, length-drop, take_split, subst,
}
use my_streamer.Ring.Window.{Holds, Holds-concat, step-mod}
use my_streamer.Prelude.Memory.{copy_in, copy_out}

-- one element after the other, round the end
abbrev pub put_round : ℕ → List ℕ → ℕ → List ℕ → List ℕ
put_round size b i [] = b
put_round size b i (x ∷ xs) = put_round size (set b i x) ((i + 1) % size) xs

abbrev pub get_round : ℕ → List ℕ → ℕ → ℕ → List ℕ
get_round size b i zero = []
get_round size b i (suc n) = get_or b i 0 ∷ get_round size b ((i + 1) % size) n

module _ (size : ℕ) where
  copy_in-fits :
      (b : List ℕ) (i : ℕ) (xs : List ℕ)
      → i + length xs ≤ size
      → copy_in b i xs ≡ put_round size b i xs
  copy_in-fits b i [] h = refl
  copy_in-fits b i (x ∷ []) h = refl
  copy_in-fits b i (x ∷ y ∷ xs) h =
      let next : (i + 1) % size ≡ suc i =
        mod-eq_of_lt {n = i + 1} {m = size} (omega arith) ∙ omega arith in
      rw next (copy_in-fits (set b i x) (suc i) (y ∷ xs) (omega arith))

  put_round-wraps :
      (b : List ℕ) (i : ℕ) (xs ys : List ℕ)
      → i < size
      → i + length xs ≡ size
      → put_round size b i (xs ++ ys) ≡ put_round size (put_round size b i xs) 0 ys
  put_round-wraps b i [] ys l h = absurd (omega arith)
  put_round-wraps b i (x ∷ []) ys l h =
      let last : (i + 1) % size ≡ 0 = ap (λ (t : ℕ). t % size) (omega arith) ∙ mod_self size in
      ap (λ t. put_round size (set b i x) t ys) last
  put_round-wraps b i (x ∷ y ∷ xs) ys l h =
      let next : (i + 1) % size ≡ suc i =
        mod-eq_of_lt {n = i + 1} {m = size} (omega arith) ∙ omega arith in
      ap (λ t. put_round size (set b i x) t ((y ∷ xs) ++ ys)) next
      ∙ put_round-wraps (set b i x) (suc i) (y ∷ xs) ys (omega arith) (omega arith)
      ∙ sym (ap (λ t. put_round size (put_round size (set b i x) t (y ∷ xs)) 0 ys) next)

  copy_out-fits : (b : List ℕ) (i n : ℕ) → i + n ≤ size → copy_out b i n ≡ get_round size b i n
  copy_out-fits b i zero h = refl
  copy_out-fits b i (suc zero) h = refl
  copy_out-fits b i (suc (suc n)) h =
      let next : (i + 1) % size ≡ suc i =
        mod-eq_of_lt {n = i + 1} {m = size} (omega arith) ∙ omega arith in
      rw next (ap (λ t. get_or b i 0 ∷ t) (copy_out-fits b (suc i) (suc n) (omega arith)))

  get_round-wraps :
      (b : List ℕ) (i m n : ℕ)
      → i < size
      → i + m ≡ size
      → get_round size b i (m + n) ≡ get_round size b i m ++ get_round size b 0 n
  get_round-wraps b i zero n l h = absurd (omega arith)
  get_round-wraps b i (suc zero) n l h =
      let last : (i + 1) % size ≡ 0 = ap (λ (t : ℕ). t % size) (omega arith) ∙ mod_self size in
      let one : suc zero + n ≡ suc n = omega arith in rw (one, last) refl
  get_round-wraps b i (suc (suc m)) n l h =
      let next : (i + 1) % size ≡ suc i =
        mod-eq_of_lt {n = i + 1} {m = size} (omega arith) ∙ omega arith in
      let one : suc (suc m) + n ≡ suc (suc m + n) = omega arith in
      rw (one, next)
        (ap (λ t. get_or b i 0 ∷ t)
          (get_round-wraps b (suc i) (suc m) n (omega arith) (omega arith)))

  -- `base_write`'s two copies
  pub two_copies :
      (b : List ℕ) (i n : ℕ) (xs : List ℕ)
      → i < size
      → n ≤ size
      → n ≤ length xs
      → let l = min n (size - i) in
        copy_in (copy_in b i (take l xs)) 0 (take (n - l) (drop l xs))
        ≡ put_round size b i (take n xs)
  two_copies b i n xs h s k = elim (dec_lt (size - i) n) [
    | no fits ↦
        let all : min n (size - i) ≡ n = omega arith in
        let none_left : n - n ≡ 0 = omega arith in
        rw all (rw none_left (copy_in-fits b i (take n xs) (omega (arith, length-take n xs k))))
    | yes wraps ↦
        let l = size - i in
        let right : min n (size - i) ≡ l = omega arith in
        let first : length (take l xs) ≡ l = length-take l xs (omega arith) in
        let behind : length (take (n - l) (drop l xs)) ≡ n - l =
          length-take (n - l) (drop l xs) (omega (arith, length-drop l xs)) in
        rw right (
          ap (λ m. copy_in m 0 (take (n - l) (drop l xs)))
            (copy_in-fits b i (take l xs) (omega arith))
          ∙ copy_in-fits (put_round size b i (take l xs)) 0 (take (n - l) (drop l xs)) (omega arith)
          ∙ sym (put_round-wraps b i (take l xs) (take (n - l) (drop l xs)) h (omega arith))
          ∙ ap (put_round size b i) (sym (take_split l n xs (omega arith))))
  ]

  pub two_reads :
      (b : List ℕ) (i n : ℕ)
      → i < size
      → n ≤ size
      → let l = min n (size - i) in copy_out b i l ++ copy_out b 0 (n - l) ≡ get_round size b i n
  two_reads b i n h k = elim (dec_lt (size - i) n) [
    | no fits ↦
        let all : min n (size - i) ≡ n = omega arith in
        let none_left : n - n ≡ 0 = omega arith in
        rw all (rw none_left (append-nil (copy_out b i n) ∙ copy_out-fits b i n (omega arith)))
    | yes wraps ↦
        let l = size - i in
        let right : min n (size - i) ≡ l = omega arith in
        rw right (
          ap₂ ◌++◌ (copy_out-fits b i l (omega arith)) (copy_out-fits b 0 (n - l) (omega arith))
          ∙ sym (get_round-wraps b i l (n - l) h (omega arith))
          ∙ ap (get_round size b i) (omega arith))
  ]

  pub put_round-Holds :
      (b : List ℕ) (i j : ℕ) (q xs : List ℕ)
      → size ≤ length b
      → i < size
      → length q + length xs ≤ size
      → j ≡ (i + length q) % size
      → Holds size b i q
      → Holds size (put_round size b j xs) i (q ++ xs)
  put_round-Holds b i j q [] s h l e v = subst (Holds size b i) (sym (append-nil q)) v
  put_round-Holds b i j q (x ∷ xs) s h l e v =
      let grown : length (q ++ x ∷ []) ≡ length q + 1 = length-append q (x ∷ []) in
      let at_next : (j + 1) % size ≡ (i + length (q ++ x ∷ [])) % size =
        ap (λ t. (t + 1) % size) e
        ∙ mod-add-mod (i + length q) size 1
        ∙ ap (λ t. t % size) (omega arith) in
      subst (Holds size (put_round size (set b j x) ((j + 1) % size) xs) i)
        (append_assoc q (x ∷ []) xs)
        (put_round-Holds (set b j x) i ((j + 1) % size) (q ++ x ∷ []) xs
          (omega (arith, length-set b j x)) h (omega arith) at_next
          (Holds-concat size b i j x q s h (omega arith) e v))

  pub get_round-Holds :
      (b : List ℕ) (i n : ℕ) (q : List ℕ)
      → n ≤ length q
      → Holds size b i q
      → get_round size b i n ≡ take n q
  get_round-Holds b i zero q h v = refl
  get_round-Holds b i (suc n) [] h v = absurd (omega arith)
  get_round-Holds b i (suc n) (x ∷ q) h (here, rest) =
      ap₂ (λ a t. a ∷ t) (here 0) (get_round-Holds b ((i + 1) % size) n q (omega arith) rest)

  pub Holds-drop :
      (b : List ℕ) (i n : ℕ) (q : List ℕ)
      → i < size
      → n ≤ length q
      → Holds size b i q
      → Holds size b ((i + n) % size) (drop n q)
  Holds-drop b i zero q l h v = rw (add-zero, mod-eq_of_lt l) v
  Holds-drop b i (suc n) [] l h v = absurd (omega arith)
  Holds-drop b i (suc n) (x ∷ q) l h (here, rest) =
      rw (step-mod size i n) (Holds-drop b ((i + 1) % size) n q (omega arith) (omega arith) rest)
