-- ===== src/Ring/Window.antt =====
-- An array read round its end: the elements that stand at consecutive places modulo the size.
use native.Mathlib.Nat.{mod-add-mod, mod-eq_of_lt, mod-eq-sub-mod, add-zero}
use native.Mathlib.Decide.{dec_lt}
use my_streamer.Prelude.{
  ℕ, suc, ◌+◌, ◌-◌, ◌%◌, ◌≤◌, ◌<◌, List, [], ◌∷◌, ◌++◌, ◌≡◌, ◌≢◌, ◌⊎◌, inl, inr, ap, ◌∙◌, arith,
  length, get_or, set, get_or-set_self, get_or-set_ne,
}

-- A step round the array wraps at most once.
pub wrap_cases :
    (size i k : ℕ)
    → i < size
    → k ≤ size
    → ((i + k < size) × ((i + k) % size ≡ i + k))
      ⊎ ((size ≤ i + k) × ((i + k) % size ≡ i + k - size))
wrap_cases size i k hi hk = elim (dec_lt (i + k) size) [
  | yes p ↦ inl (p, mod-eq_of_lt p)
  | no p ↦ inr (
    omega arith,
    omega (
      arith,
      mod-eq-sub-mod {n = i + k} {m = size} (omega arith),
      mod-eq_of_lt {n = i + k - size} {m = size} (omega arith),
    ),
  )
]

-- One to `size - 1` steps round the array do not come back to the start.
add-mod-ne : (size i k : ℕ) → i < size → suc k < size → (i + suc k) % size ≢ i
add-mod-ne size i k hi hk = omega (arith, wrap_cases size i (suc k) hi (omega arith))

pub step-mod : (size i k : ℕ) → (i + suc k) % size ≡ ((i + 1) % size + k) % size
step-mod size i k = rw mod-add-mod (ap (λ m. m % size) (omega arith))

module _ {ℓ} {A : Type ℓ} (size : ℕ) where
  -- From place `i` on stand the elements of `q`, each at the place behind the one before.
  abbrev pub Holds : List A → ℕ → List A → Type ℓ
  Holds b i [] = Unit
  Holds b i (x ∷ q) = ((d : A) → get_or b i d ≡ x) × Holds b ((i + 1) % size) q

  -- A write just behind the window extends it.
  pub Holds-concat :
      (b : List A) (i j : ℕ) (x : A) (q : List A)
      → size ≤ length b
      → i < size
      → length q < size
      → j ≡ (i + length q) % size
      → Holds b i q
      → Holds (set b j x) i (q ++ x ∷ [])
  Holds-concat b i j x [] s hi l e h =
      let same : j ≡ i = e ∙ rw (add-zero, mod-eq_of_lt hi) in
      rw same ((λ d. get_or-set_self b i x d (omega arith)), tt)
  Holds-concat b i j x (y ∷ q) s hi l e (here, rest) = (
    (λ d. get_or-set_ne b x d (rw e (add-mod-ne size i (length q) hi l)) ∙ here d),
    Holds-concat b ((i + 1) % size) j x q s (omega arith) (omega arith)
        (e ∙ step-mod size i (length q)) rest,
  )

  -- An element that already stands just behind the window joins it.
  pub Holds-join :
      (b : List A) (i j : ℕ) (x : A) (q : List A)
      → i < size
      → j ≡ (i + length q) % size
      → ((d : A) → get_or b j d ≡ x)
      → Holds b i q
      → Holds b i (q ++ x ∷ [])
  Holds-join b i j x [] hi e g h =
      let same : j ≡ i = e ∙ rw (add-zero, mod-eq_of_lt hi) in ((λ d. rw same at (g d)), tt)
  Holds-join b i j x (y ∷ q) hi e g (here, rest) = (
    here,
    Holds-join b ((i + 1) % size) j x q (omega arith) (e ∙ step-mod size i (length q)) g rest,
  )

  -- The window without its last element.
  pub Holds-init : (b : List A) (i : ℕ) (x : A) (q : List A) → Holds b i (q ++ x ∷ []) → Holds b i q
  Holds-init b i x [] h = tt
  Holds-init b i x (y ∷ q) (here, rest) = (here, Holds-init b ((i + 1) % size) x q rest)
