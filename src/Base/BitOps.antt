-- ===== src/Base/BitOps.antt =====
-- `|` and `&` at variables: the lowest digit, an order, and fields that do not overlap.
use Prim.Native.Nat.{
  ℕ, zero, suc, ◌+◌, ◌-◌, ◌*◌, ◌/◌, ◌%◌, ◌^◌, ◌≤◌, ◌<◌, min, max, digits, bit_and, bit_or,
  bit_and-bitwise, bit_or-bitwise,
}
use mathlib.Core.Path.{◌≡◌, refl, ap}
use native.Mathlib.Nat.{pow-suc}
use native.Mathlib.Omega.{arith}

-- The native operations recur on fuel, their first argument; more fuel changes nothing.
module _ (z : ℕ → ℕ) (f : ℕ → ℕ → ℕ) where
  digits_enough : (n m x y : ℕ) → x ≤ n → x ≤ m → digits z f n x y ≡ digits z f m x y
  digits_enough n m zero y p q = zero_digits n m
    where
      zero_digits : (n m : ℕ) → digits z f n zero y ≡ digits z f m zero y
      zero_digits zero zero = refl
      zero_digits zero (suc m) = refl
      zero_digits (suc n) zero = refl
      zero_digits (suc n) (suc m) = refl
  digits_enough zero m (suc x) y p q = absurd (omega arith)
  digits_enough (suc n) zero (suc x) y p q = absurd (omega arith)
  digits_enough (suc n) (suc m) (suc x) y p q =
      omega (arith, digits_enough n m (suc x / 2) (y / 2) (omega arith) (omega arith))

pub bit_or-digit : (x y : ℕ) → bit_or x y ≡ bit_or (x / 2) (y / 2) * 2 + max (x % 2) (y % 2)
bit_or-digit zero y = omega (arith, bit_or-bitwise 0 y, bit_or-bitwise 0 (y / 2))
bit_or-digit (suc x) y = omega (
  arith,
  bit_or-bitwise (suc x) y,
  bit_or-bitwise (suc x / 2) (y / 2),
  digits_enough (λ d. d) max x (suc x / 2) (suc x / 2) (y / 2) (omega arith) (omega arith),
)

pub bit_and-digit : (x y : ℕ) → bit_and x y ≡ bit_and (x / 2) (y / 2) * 2 + min (x % 2) (y % 2)
bit_and-digit zero y = omega (arith, bit_and-bitwise 0 y, bit_and-bitwise 0 (y / 2))
bit_and-digit (suc x) y = omega (
  arith,
  bit_and-bitwise (suc x) y,
  bit_and-bitwise (suc x / 2) (y / 2),
  digits_enough (λ d. 0) min x (suc x / 2) (suc x / 2) (y / 2) (omega arith) (omega arith),
)

-- Recursion on a bound of the first argument.
le-bit_or_below : (n x y : ℕ) → x ≤ n → x ≤ bit_or x y
le-bit_or_below n zero y h = omega arith
le-bit_or_below zero (suc x) y h = absurd (omega arith)
le-bit_or_below (suc n) (suc x) y h =
    omega (arith, bit_or-digit (suc x) y, le-bit_or_below n (suc x / 2) (y / 2) (omega arith))

pub le-bit_or : (x y : ℕ) → x ≤ bit_or x y
le-bit_or x y = le-bit_or_below x x y (omega arith)

bit_or-zero_below : (n x : ℕ) → x ≤ n → bit_or x 0 ≡ x
bit_or-zero_below n zero h = refl
bit_or-zero_below zero (suc x) h = absurd (omega arith)
bit_or-zero_below (suc n) (suc x) h =
    omega (arith, bit_or-digit (suc x) 0, bit_or-zero_below n (suc x / 2) (omega arith))

bit_and-zero_below : (n x : ℕ) → x ≤ n → bit_and x 0 ≡ 0
bit_and-zero_below n zero h = refl
bit_and-zero_below zero (suc x) h = absurd (omega arith)
bit_and-zero_below (suc n) (suc x) h =
    omega (arith, bit_and-digit (suc x) 0, bit_and-zero_below n (suc x / 2) (omega arith))

pub double_pow : (q k : ℕ) → q * 2 ^ suc k ≡ 2 * (q * 2 ^ k)
double_pow q k = omega (arith, ap (λ (t : ℕ). q * t) (pow-suc 2 k))

-- A multiple of 2^k joined with what fits below it.
pub bit_or_disjoint : (k q r : ℕ) → r < 2 ^ k → bit_or (q * 2 ^ k) r ≡ q * 2 ^ k + r
bit_or_disjoint zero q r h = ground (arith, bit_or-zero_below q q)
bit_or_disjoint (suc k) q r h = ground (
  arith,
  bit_or-digit (q * 2 ^ suc k) r,
  double_pow q k,
  pow-suc 2 k,
  bit_or_disjoint k q (r / 2),
)

-- A mask of k ones keeps the k low bits.
mask_fields : (k q r : ℕ) → r < 2 ^ k → bit_and (q * 2 ^ k + r) (2 ^ k - 1) ≡ r
mask_fields zero q r h = ground (arith, bit_and-zero_below (q * 1 + r) (q * 1 + r))
mask_fields (suc k) q r h = ground (
  arith,
  bit_and-digit (q * 2 ^ suc k + r) (2 ^ suc k - 1),
  double_pow q k,
  pow-suc 2 k,
  mask_fields k q (r / 2),
)

pub pow2-pos : (k : ℕ) → 0 < 2 ^ k
pow2-pos zero = omega arith
pow2-pos (suc k) = omega (arith, pow-suc 2 k, pow2-pos k)

pub bit_and_mask : (k x : ℕ) → bit_and x (2 ^ k - 1) ≡ x % 2 ^ k
bit_and_mask k x = ground (arith, pow2-pos k, mask_fields k (x / 2 ^ k) (x % 2 ^ k))

-- `x &^ 7` on 64 bits.
pub bit_and_clear3 : (x : ℕ) → x < 2 ^ 64 → bit_and x (2 ^ 64 - 8) ≡ x - x % 8
bit_and_clear3 x h =
    let high : bit_and (x / 2 / 2 / 2) (2 ^ 61 - 1) ≡ x / 2 / 2 / 2 % 2 ^ 61 =
      bit_and_mask 61 (x / 2 / 2 / 2) in
    omega (
      arith,
      bit_and-digit x (2 ^ 64 - 8),
      bit_and-digit (x / 2) (2 ^ 63 - 4),
      bit_and-digit (x / 2 / 2) (2 ^ 62 - 2),
      high,
    )
