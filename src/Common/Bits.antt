-- ===== src/Common/Bits.antt =====
-- `bit_and` and `bit_or` at variables: each acts apart on the digits above a place and on those
-- below it. The masks of the image format are one bit, or all but one bit.
use Prim.Native.Nat.{
  ℕ, zero, suc, ◌+◌, ◌-◌, ◌*◌, ◌/◌, ◌%◌, ◌^◌, ◌≤◌, ◌<◌, min, max, bit_and, bit_or, digits,
  bit_and-bitwise, bit_or-bitwise,
}
use mathlib.Core.Path.{◌≡◌, refl, ap}
use mathlib.Core.Logic.{◌≢◌}
use native.Mathlib.Nat.{pow-suc, add-suc, add-zero}
use native.Mathlib.Omega.{arith}

-- The digit recursion gives the same for every bound that the number stays under.
module _ (keep : ℕ → ℕ) (op : ℕ → ℕ → ℕ) where
  digits_bound : (k l a b : ℕ) → a ≤ k → a ≤ l → digits keep op k a b ≡ digits keep op l a b
  digits_bound zero zero a b h g = refl
  digits_bound zero (suc l) zero b h g = refl
  digits_bound (suc k) zero zero b h g = refl
  digits_bound (suc k) (suc l) zero b h g = refl
  digits_bound zero (suc l) (suc a) b h g = absurd (omega arith)
  digits_bound (suc k) zero (suc a) b h g = absurd (omega arith)
  digits_bound (suc k) (suc l) (suc a) b h g =
      rw (digits_bound k l (suc a / 2) (b / 2) (omega arith) (omega arith))

bit_and-half : (a b : ℕ) → bit_and a b ≡ bit_and (a / 2) (b / 2) * 2 + min (a % 2) (b % 2)
bit_and-half zero b = simp bit_and-bitwise (omega arith)
bit_and-half (suc a) b = simp bit_and-bitwise (
    omega (
      arith,
      digits_bound (λ _. 0) min a (suc a / 2) (suc a / 2) (b / 2) (omega arith) (omega arith),
    ))

bit_or-half : (a b : ℕ) → bit_or a b ≡ bit_or (a / 2) (b / 2) * 2 + max (a % 2) (b % 2)
bit_or-half zero b = simp bit_or-bitwise (omega arith)
bit_or-half (suc a) b = simp bit_or-bitwise (
    omega (
      arith,
      digits_bound (λ y. y) max a (suc a / 2) (suc a / 2) (b / 2) (omega arith) (omega arith),
    ))

pub zero-bit_and : (b : ℕ) → bit_and 0 b ≡ 0
zero-bit_and b = bit_and-bitwise 0 b

pub zero-bit_or : (b : ℕ) → bit_or 0 b ≡ b
zero-bit_or b = bit_or-bitwise 0 b

bit_and-zero_below : (n a : ℕ) → a ≤ n → bit_and a 0 ≡ 0
bit_and-zero_below n zero h = zero-bit_and 0
bit_and-zero_below zero (suc a) h = absurd (omega arith)
bit_and-zero_below (suc n) (suc a) h =
    omega (arith, bit_and-half (suc a) 0, bit_and-zero_below n (suc a / 2) (omega arith))

pub bit_and-zero : (a : ℕ) → bit_and a 0 ≡ 0
bit_and-zero a = bit_and-zero_below a a (omega arith)

bit_or-zero_below : (n a : ℕ) → a ≤ n → bit_or a 0 ≡ a
bit_or-zero_below n zero h = zero-bit_or 0
bit_or-zero_below zero (suc a) h = absurd (omega arith)
bit_or-zero_below (suc n) (suc a) h =
    omega (arith, bit_or-half (suc a) 0, bit_or-zero_below n (suc a / 2) (omega arith))

pub bit_or-zero : (a : ℕ) → bit_or a 0 ≡ a
bit_or-zero a = bit_or-zero_below a a (omega arith)

double : (p k : ℕ) → p * 2 ^ suc k ≡ 2 * (p * 2 ^ k)
double p k = omega (arith, ap (λ (t : ℕ). p * t) (pow-suc 2 k))

-- Digits above place `k` do not meet those below it.
pub bit_and-split :
    (k p q r s : ℕ)
    → r < 2 ^ k
    → s < 2 ^ k
    → bit_and (p * 2 ^ k + r) (q * 2 ^ k + s) ≡ bit_and p q * 2 ^ k + bit_and r s
bit_and-split zero p q zero zero h g = ground (arith, zero-bit_and 0)
bit_and-split zero p q (suc r) s h g = absurd (omega arith)
bit_and-split zero p q zero (suc s) h g = absurd (omega arith)
bit_and-split (suc k) p q r s h g = ground (
  arith,
  bit_and-half (p * 2 ^ suc k + r) (q * 2 ^ suc k + s),
  bit_and-half r s,
  double p k,
  double q k,
  double (bit_and p q) k,
  pow-suc 2 k,
  bit_and-split k p q (r / 2) (s / 2) (omega (arith, pow-suc 2 k)) (omega (arith, pow-suc 2 k)),
)

pub bit_or-split :
    (k p q r s : ℕ)
    → r < 2 ^ k
    → s < 2 ^ k
    → bit_or (p * 2 ^ k + r) (q * 2 ^ k + s) ≡ bit_or p q * 2 ^ k + bit_or r s
bit_or-split zero p q zero zero h g = ground (arith, zero-bit_or 0)
bit_or-split zero p q (suc r) s h g = absurd (omega arith)
bit_or-split zero p q zero (suc s) h g = absurd (omega arith)
bit_or-split (suc k) p q r s h g = ground (
  arith,
  bit_or-half (p * 2 ^ suc k + r) (q * 2 ^ suc k + s),
  bit_or-half r s,
  double p k,
  double q k,
  double (bit_or p q) k,
  pow-suc 2 k,
  bit_or-split k p q (r / 2) (s / 2) (omega (arith, pow-suc 2 k)) (omega (arith, pow-suc 2 k)),
)

-- A mask of the `k` lowest bits.
pub bit_and-mask : (k a : ℕ) → a < 2 ^ k → bit_and a (2 ^ k - 1) ≡ a
bit_and-mask zero zero h = zero-bit_and 0
bit_and-mask zero (suc a) h = absurd (omega arith)
bit_and-mask (suc k) a h = ground (
  arith,
  bit_and-half a (2 ^ suc k - 1),
  pow-suc 2 k,
  bit_and-mask k (a / 2) (omega (arith, pow-suc 2 k)),
)

-- `&` distributes over `|`, digit by digit.
bit_and-bit_or_below :
    (n a b c : ℕ) → a ≤ n → b ≤ n → bit_and (bit_or a b) c ≡ bit_or (bit_and a c) (bit_and b c)
bit_and-bit_or_below n zero b c h g = rw (zero-bit_or b, zero-bit_and c, zero-bit_or (bit_and b c))
bit_and-bit_or_below n (suc a) zero c h g =
    rw (bit_or-zero (suc a), zero-bit_and c, bit_or-zero (bit_and (suc a) c))
bit_and-bit_or_below zero (suc a) (suc b) c h g = absurd (omega arith)
bit_and-bit_or_below (suc n) (suc a) (suc b) c h g = ground (
  arith,
  bit_and-half (bit_or (suc a) (suc b)) c,
  bit_or-half (suc a) (suc b),
  bit_and-half (suc a) c,
  bit_and-half (suc b) c,
  bit_or-half (bit_and (suc a) c) (bit_and (suc b) c),
  bit_and-bit_or_below n (suc a / 2) (suc b / 2) (c / 2) (omega arith) (omega arith),
)

pub bit_and-bit_or : (a b c : ℕ) → bit_and (bit_or a b) c ≡ bit_or (bit_and a c) (bit_and b c)
bit_and-bit_or a b c = bit_and-bit_or_below (a + b) a b c (omega arith) (omega arith)

le-bit_or_below : (n a b : ℕ) → b ≤ n → b ≤ bit_or a b
le-bit_or_below n a zero h = omega arith
le-bit_or_below zero a (suc b) h = absurd (omega arith)
le-bit_or_below (suc n) a (suc b) h =
    omega (arith, bit_or-half a (suc b), le-bit_or_below n (a / 2) (suc b / 2) (omega arith))

pub le-bit_or : (a b : ℕ) → b ≤ bit_or a b
le-bit_or a b = le-bit_or_below b a b (omega arith)

pow_pos : (k : ℕ) → 0 < 2 ^ k
pow_pos zero = omega arith
pow_pos (suc k) = omega (arith, pow-suc 2 k, pow_pos k)

pow_grows : (j d : ℕ) → 2 ^ j < 2 ^ (j + suc d)
pow_grows j zero = rw (add-suc j 0, add-zero j) (omega (arith, pow-suc 2 j, pow_pos j))
pow_grows j (suc d) = rw (add-suc j (suc d)) (omega (arith, pow-suc 2 (j + suc d), pow_grows j d))

pow-lt : (j k : ℕ) → j < k → 2 ^ j < 2 ^ k
pow-lt j k h = let e : k ≡ j + suc (k - j - 1) = omega arith in rw e (pow_grows j (k - j - 1))

-- Two single bits meet only in one place.
pub bit_and_pow_self : (k : ℕ) → bit_and (2 ^ k) (2 ^ k) ≡ 2 ^ k
bit_and_pow_self k = ground (arith, bit_and-split k 1 1 0 0 (pow_pos k) (pow_pos k), zero-bit_and 0)

pub bit_and_pow_ne : (j k : ℕ) → j ≢ k → bit_and (2 ^ j) (2 ^ k) ≡ 0
bit_and_pow_ne j k h = ground (
  arith,
  λ (p : j < k). bit_and-split k 0 1 (2 ^ j) 0 (pow-lt j k p) (pow_pos k),
  λ (p : k < j). bit_and-split j 1 0 0 (2 ^ k) (pow_pos j) (pow-lt k j p),
  zero-bit_and 1,
  bit_and-zero (2 ^ j),
  bit_and-zero 1,
  zero-bit_and (2 ^ k),
)

pub bit_and_pow_pred : (k : ℕ) → bit_and (2 ^ k) (2 ^ k - 1) ≡ 0
bit_and_pow_pred k = ground (
  arith,
  bit_and-split k 1 0 0 (2 ^ k - 1) (pow_pos k) (omega (arith, pow_pos k)),
  bit_and-zero 1,
  zero-bit_and (2 ^ k - 1),
)
