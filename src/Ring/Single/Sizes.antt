-- ===== src/Ring/Single/Sizes.antt =====
-- The size that a buffer gets.
use Prim.Native.Nat.{bit_and}
use native.Mathlib.Nat.{two-pow-succ, zero-add}
use native.Mathlib.Decide.{dec_lt}
use my_streamer.Prelude.{
  Option-cases, ◌↔◌, [], ℕ, zero, suc, ◌+◌, ◌-◌, ◌/◌, ◌^◌, ◌≤◌, ◌<◌, Bool, true, false, List,
  Option, none, some, ◌≡◌, ◌==◌, refl, sym, ap, ◌∙◌, arith, if◌then◌else◌, ◌⊎◌, inl, inr,
  Bool-cases,
}
use my_streamer.Prelude.Word.{sub32, bit_and_pred-zero, two_pow_lt}
use my_streamer.Ring.Single.{
  is_power_of_2, halve_int, count_digits, roundup_power_of_2, SingleData, initialize,
}

halve_int-small : (i : ℕ) → i < 2 ^ 31 → halve_int i ≡ i / 2
halve_int-small i h = ground arith

count_digits-zero : (n position : ℕ) → count_digits (suc n) 0 position ≡ some position
unfolding count_digits
count_digits-zero n position = refl

count_digits-suc :
    (n i position : ℕ)
    → (i == 0) ≡ false
    → i < 2 ^ 31
    → count_digits (suc n) i position ≡ count_digits n (i / 2) (position + 1)
unfolding count_digits
count_digits-suc n i position e h =
    rw (e, count_digits) (ap (λ (t : ℕ). count_digits n t (position + 1)) (halve_int-small i h))

-- The count goes up by the number `k` of binary digits of `i`.
count_digits_lem :
    (n i position : ℕ)
    → i < 2 ^ n
    → i < 2 ^ 31
    → (k : ℕ) × (count_digits (suc n) i position ≡ some (position + k))
      × (i < 2 ^ k)
      × ((2 ^ k ≤ i + i) ⊎ ((i ≡ 0) × (k ≡ 0)))
count_digits_lem n zero position h l =
    (0, count_digits-zero n position ∙ ap some (omega arith), omega arith, inr (refl, refl))
count_digits_lem zero (suc i) position h l = absurd (omega arith)
count_digits_lem (suc n) (suc i) position h l =
    let (k, e, lt, le) =
      count_digits_lem n (suc i / 2) (position + 1) (omega (arith, two-pow-succ n)) (omega arith) in
    (
      suc k,
      count_digits-suc (suc n) (suc i) position (ground arith) l ∙ e ∙ ap some (omega arith),
      omega (arith, two-pow-succ k),
      inl (elim le [ inl p ↦ omega (arith, two-pow-succ k) | inr (z, q) ↦ rw q (omega arith) ]),
    )

-- A size that is no power of two is rounded up to the next one.
pub roundup_lem :
    (a : ℕ)
    → 0 < a
    → a < 2 ^ 31
    → (k : ℕ) × (roundup_power_of_2 a ≡ some (2 ^ k)) × (a < 2 ^ k) × (2 ^ k ≤ a + a)
unfolding roundup_power_of_2
roundup_lem a p h =
    let (k, e, lt, le) = count_digits_lem 31 a 0 h h in
    (
      k,
      rw (e ∙ ap some (zero-add k), nonzero, roundup_power_of_2) refl,
      lt,
      elim le [ inl q ↦ q | inr (z, q) ↦ absurd (omega arith) ],
    )
  where
    nonzero : (a == 0) ≡ false
    nonzero = ground arith

-- The loop of a number with the sign's digit set: the number stays negative.
count_digits-none : (n i position : ℕ) → 2 ^ 31 ≤ i → count_digits n i position ≡ none
unfolding count_digits
count_digits-none zero i position h = refl
count_digits-none (suc n) i position h =
    rw (nonzero, count_digits) (count_digits-none n (halve_int i) (position + 1) negative)
  where
    nonzero : (i == 0) ≡ false
    nonzero = ground arith

    negative : 2 ^ 31 ≤ halve_int i
    negative = ground arith

sub32-one : (a : ℕ) → 0 < a → a < 2 ^ 32 → sub32 a 1 ≡ a - 1
sub32-one a p h = omega arith

-- what `is_power_of_2` says
pub is_power_of_2_lem : (a : ℕ) → a < 2 ^ 32 → is_power_of_2 a ≡ true → (k : ℕ) × (a ≡ 2 ^ k)
unfolding is_power_of_2
is_power_of_2_lem a h e =
    let zero_mask : bit_and a (sub32 a 1) ≡ 0 = ground arith in
    let p : 0 < a = ground arith in
    bit_and_pred-zero a p (ap (bit_and a) (sym (sub32-one a p h)) ∙ zero_mask)

-- A size between 2 ^ 31 and 2 ^ 32 is no power of two, and the loop that rounds it does not end: on an
-- `int` such a number stays negative, however many rounds are made.
pub rounding_endless :
    (a : ℕ)
    → 2 ^ 31 < a
    → a < 2 ^ 32
    → (is_power_of_2 a ≡ false) × ((n : ℕ) → count_digits n a 0 ≡ none)
rounding_endless a h l = (
  elim (Bool-cases (is_power_of_2 a)) [
    | inl e ↦
        let (k, q) = is_power_of_2_lem a l e in
        let above : 31 < k = two_pow_lt 31 k (omega arith) in
        let below : k < 32 = two_pow_lt k 32 (omega arith) in absurd (omega arith)
    | inr e ↦ e
  ],
  λ n. count_digits-none n a 0 (omega arith),
)

-- a buffer that the constructor leaves
pub record IsFresh (a : ℕ) (k : ℕ) (b : SingleData) : Type 0 where
  pub size_at : b.size ≡ 2 ^ k
  pub fits : k ≤ 31
  pub enough : a ≤ 2 ^ k
  pub at_most : 2 ^ k ≤ a + a
  pub in_at : b.in_ptr ≡ 0
  pub out_at : b.out_ptr ≡ 0

top_is_power : is_power_of_2 (2 ^ 31) ≡ true
unfolding is_power_of_2
top_is_power = refl

chosen :
    (a : ℕ)
    → 0 < a
    → a ≤ 2 ^ 31
    → (k : ℕ) × ((if is_power_of_2 a then some a else roundup_power_of_2 a) ≡ some (2 ^ k))
      × (k ≤ 31)
      × (a ≤ 2 ^ k)
      × (2 ^ k ≤ a + a)
chosen a p h = elim (Bool-cases (is_power_of_2 a)) [
  | inl e ↦
      let (k, q) = is_power_of_2_lem a (omega arith) e in
      let small : k < 32 = two_pow_lt k 32 (omega arith) in
      (k, rw e (ap some q), omega arith, omega arith, omega arith)
  | inr e ↦ elim (dec_lt a (2 ^ 31)) [
    | yes l ↦
        let (k, q, lt, le) = roundup_lem a p l in
        let small : k < 32 = two_pow_lt k 32 (omega arith) in
        (k, rw e q, omega arith, omega arith, le)
    | no l ↦
        let top : a ≡ 2 ^ 31 = omega arith in
        absurd (cc (sym (ap is_power_of_2 top) ∙ e, top_is_power))
  ]
]

-- A size from 1 to 2 ^ 31 that is asked for gives a buffer whose size is a power of two, at least as
-- large and at most twice as large, and whose counters are 0; the result is whether there was memory.
pub initialize_sized :
    (malloc : ℕ → Option (List ℕ)) (a : ℕ)
    → 0 < a
    → a ≤ 2 ^ 31
    → (k : ℕ) × (b : SingleData) × (done : Bool) × (initialize malloc a ≡ some (b, done))
      × IsFresh a k b
      × ((done ≡ true) ↔ (malloc (2 ^ k) ≡ some b.memory))
unfolding initialize
initialize_sized malloc a p h =
    let (k, e, small, le, twice) = chosen a p h in
    elim (Option-cases (malloc (2 ^ k))) [
      | inl n ↦ (
        k,
        record { in_ptr = 0; out_ptr = 0; memory = []; size = 2 ^ k },
        false,
        rw (e, initialize) (rw (n, initialize) refl),
        record {
          size_at = refl;
          fits = small;
          enough = le;
          at_most = twice;
          in_at = refl;
          out_at = refl;
        },
        ((λ q. cc), λ q. cc (sym n ∙ q)),
      )
      | inr (m, n) ↦ (
        k,
        record { in_ptr = 0; out_ptr = 0; memory = m; size = 2 ^ k },
        true,
        rw (e, initialize) (rw (n, initialize) refl),
        record {
          size_at = refl;
          fits = small;
          enough = le;
          at_most = twice;
          in_at = refl;
          out_at = refl;
        },
        ((λ q. n), λ q. refl),
      )
    ]
