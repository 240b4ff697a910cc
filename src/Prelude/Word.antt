-- ===== src/Prelude/Word.antt =====
-- `uint32_t` as a native number below 2 ^ 32, and the masks of low bits.
use Prim.Native.Nat.{
  ◌∣◌, ℕ, zero, suc, ◌+◌, ◌-◌, ◌*◌, ◌/◌, ◌%◌, ◌^◌, ◌≤◌, ◌<◌, min, bit_and, digits, bit_and-bitwise,
}
use mathlib.Core.Path.{◌≡◌, refl, ap, ◌∙◌, sym}
use native.Mathlib.Nat.{
  pow-suc, dvd_refl, dvd-mul_right_of_dvd, mod-mod_of_dvd, mod-add-mod, one-le-pow, two-pow-succ,
  mod-lt, mod-eq_of_lt, div-add-mod, mul-add-mod_self_left, mul_assoc,
}
use native.Mathlib.Decide.{dec_lt}
use native.Mathlib.Omega.{arith}

abbrev pub add32 : ℕ → ℕ → ℕ
add32 a b = (a + b) % 2 ^ 32

abbrev pub sub32 : ℕ → ℕ → ℕ
sub32 a b = (a + 2 ^ 32 - b) % 2 ^ 32

-- the digits of `bit_and`, with fuel for the first argument
abbrev masked : ℕ → ℕ → ℕ → ℕ
masked n a b = digits (λ y. zero) min n a b

masked_enough : (n m a b : ℕ) → a ≤ n → a ≤ m → masked n a b ≡ masked m a b
masked_enough n m zero b p q = at_zero n m
  where
    at_zero : (n m : ℕ) → masked n zero b ≡ masked m zero b
    at_zero zero zero = refl
    at_zero zero (suc m) = refl
    at_zero (suc n) zero = refl
    at_zero (suc n) (suc m) = refl
masked_enough zero m (suc a) b p q = absurd (omega arith)
masked_enough (suc n) zero (suc a) b p q = absurd (omega arith)
masked_enough (suc n) (suc m) (suc a) b p q =
    omega (arith, masked_enough n m (suc a / 2) (b / 2) (omega arith) (omega arith))

-- the lowest digit
pub bit_and_halves : (a b : ℕ) → bit_and a b ≡ bit_and (a / 2) (b / 2) * 2 + min (a % 2) (b % 2)
bit_and_halves zero b = omega (arith, bit_and-bitwise 0 b, bit_and-bitwise 0 (b / 2))
bit_and_halves (suc a) b = omega (
  arith,
  bit_and-bitwise (suc a) b,
  bit_and-bitwise (suc a / 2) (b / 2),
  masked_enough a (suc a / 2) (suc a / 2) (b / 2) (omega arith) (omega arith),
)

bit_and-zero_upto : (n a : ℕ) → a ≤ n → bit_and a 0 ≡ 0
bit_and-zero_upto n zero h = refl
bit_and-zero_upto zero (suc a) h = absurd (omega arith)
bit_and-zero_upto (suc n) (suc a) h =
    omega (arith, bit_and_halves (suc a) 0, bit_and-zero_upto n (suc a / 2) (omega arith))

two_times : (p : ℕ) → p + p ≡ 2 * p
two_times p = omega arith

double_mod : (p a : ℕ) → 0 < p → a / 2 % p * 2 + a % 2 ≡ a % (p + p)
double_mod p a h =
    let q = a / 2 / p in
    let r = a / 2 % p in
    let low : r * 2 + a % 2 < p + p = omega (arith, mod-lt (a / 2) h) in
    let whole : (p + p) * q + (r * 2 + a % 2) ≡ a =
      omega (arith, div-add-mod (a / 2) p, ap (λ (t : ℕ). t * q) (two_times p), mul_assoc 2 p q) in
    sym (mod-eq_of_lt low)
    ∙ sym (mul-add-mod_self_left (p + p) q (r * 2 + a % 2))
    ∙ ap (λ (t : ℕ). t % (p + p)) whole

-- The mask of `k` low bits takes the remainder by `2 ^ k`.
pub bit_and_mask : (k a : ℕ) → bit_and a (2 ^ k - 1) ≡ a % 2 ^ k
bit_and_mask zero a = omega (arith, bit_and-zero_upto a a (omega arith))
bit_and_mask (suc k) a =
    let half : (2 ^ suc k - 1) / 2 ≡ 2 ^ k - 1 = omega (arith, two-pow-succ k, one-le-pow k 2) in
    let one : (2 ^ suc k - 1) % 2 ≡ 1 = omega (arith, two-pow-succ k, one-le-pow k 2) in
    let rest : bit_and (a / 2) ((2 ^ suc k - 1) / 2) ≡ a / 2 % 2 ^ k =
      ap (bit_and (a / 2)) half ∙ bit_and_mask k (a / 2) in
    omega (
      arith,
      bit_and_halves a (2 ^ suc k - 1),
      rest,
      one,
      double_mod (2 ^ k) a (one-le-pow k 2 (omega arith)),
      ap (λ (t : ℕ). a % t) (two-pow-succ k),
    )

bit_and_self_upto : (n a : ℕ) → a ≤ n → bit_and a a ≡ a
bit_and_self_upto n zero h = omega (arith, bit_and-bitwise 0 0)
bit_and_self_upto zero (suc a) h = absurd (omega arith)
bit_and_self_upto (suc n) (suc a) h =
    omega (arith, bit_and_halves (suc a) (suc a), bit_and_self_upto n (suc a / 2) (omega arith))

power_upto : (n a : ℕ) → a ≤ n → 0 < a → bit_and a (a - 1) ≡ 0 → (k : ℕ) × (a ≡ 2 ^ k)
power_upto n zero h p e = absurd (omega arith)
power_upto zero (suc a) h p e = absurd (omega arith)
power_upto (suc n) (suc a) h p e = elim (dec_lt 0 (suc a % 2)) [
  | yes odd ↦
      let down : (suc a - 1) / 2 ≡ suc a / 2 = omega arith in
      let same : bit_and (suc a / 2) ((suc a - 1) / 2) ≡ suc a / 2 =
        ap (bit_and (suc a / 2)) down ∙ bit_and_self_upto n (suc a / 2) (omega arith) in
      (0, omega (arith, bit_and_halves (suc a) (suc a - 1), same))
  | no even ↦
      let down : (suc a - 1) / 2 ≡ suc a / 2 - 1 = omega arith in
      let less : bit_and (suc a / 2) ((suc a - 1) / 2) ≡ bit_and (suc a / 2) (suc a / 2 - 1) =
        ap (bit_and (suc a / 2)) down in
      let (k, q) =
        power_upto n (suc a / 2) (omega arith) (omega arith)
          (omega (arith, bit_and_halves (suc a) (suc a - 1), less)) in
      (suc k, omega (arith, two-pow-succ k, q))
]

-- A number that has no digit in common with the one before it is a power of two.
pub bit_and_pred-zero : (a : ℕ) → 0 < a → bit_and a (a - 1) ≡ 0 → (k : ℕ) × (a ≡ 2 ^ k)
bit_and_pred-zero a p e = power_upto a a (omega arith) p e

pub two_pow_mono : (k m : ℕ) → k ≤ m → 2 ^ k ≤ 2 ^ m
two_pow_mono k zero h = let e : k ≡ 0 = omega arith in rw e (omega arith)
two_pow_mono k (suc m) h = elim (dec_lt k (suc m)) [
  | yes p ↦ omega (arith, two-pow-succ m, two_pow_mono k m (omega arith))
  | no p ↦ let e : k ≡ suc m = omega arith in rw e (omega arith)
]

pub two_pow_lt : (k m : ℕ) → 2 ^ k < 2 ^ m → k < m
two_pow_lt k m h = elim (dec_lt k m) [
  | yes p ↦ p
  | no p ↦ omega (arith, two_pow_mono m k (omega arith))
]

two_pow-dvd : (k m : ℕ) → k ≤ m → 2 ^ k ∣ 2 ^ m
two_pow-dvd k zero h = let e : k ≡ 0 = omega arith in rw e (dvd_refl 1)
two_pow-dvd k (suc m) h = elim (dec_lt k (suc m)) [
  | yes p ↦ rw (pow-suc 2 m) (dvd-mul_right_of_dvd (2 ^ k) (two_pow-dvd k m (omega arith)) 2)
  | no p ↦ let e : k ≡ suc m = omega arith in rw e (dvd_refl (2 ^ suc m))
]

-- The wrap of a counter is not seen modulo a power of two.
pub add32-mod : (k a n : ℕ) → k ≤ 32 → add32 a n % 2 ^ k ≡ (a % 2 ^ k + n) % 2 ^ k
add32-mod k a n h =
    mod-mod_of_dvd (2 ^ k) {b = 2 ^ 32} (a + n) (two_pow-dvd k 32 h) ∙ sym (mod-add-mod a (2 ^ k) n)

-- The mask that clears the five low bits of a word.
pub bit_and_clear : (a : ℕ) → a < 2 ^ 32 → bit_and a 0xffff_ffe0 ≡ a / 32 * 32
bit_and_clear a h =
    let high : bit_and (a / 2 / 2 / 2 / 2 / 2) 0x7ff_ffff ≡ a / 2 / 2 / 2 / 2 / 2 % 2 ^ 27 =
      bit_and_mask 27 (a / 2 / 2 / 2 / 2 / 2) in
    omega (
      arith,
      bit_and_halves a 0xffff_ffe0,
      bit_and_halves (a / 2) 0x7fff_fff0,
      bit_and_halves (a / 2 / 2) 0x3fff_fff8,
      bit_and_halves (a / 2 / 2 / 2) 0x1fff_fffc,
      bit_and_halves (a / 2 / 2 / 2 / 2) 0x0fff_fffe,
      high,
    )
