-- ===== src/Common/Bits.antt =====
-- `&`, `|` and `^` at variables, from the recursion on binary digits that they stand for.
use Prim.Native.Nat.{
  ℕ, zero, suc, ◌+◌, ◌*◌, ◌/◌, ◌%◌, ◌^◌, ◌≤◌, ◌<◌, min, max, digits, bitwise, bit_and, bit_or,
  bit_and-bitwise, bit_or-bitwise,
}
use mathlib.Core.Path.{◌≡◌, refl, ap}
use native.Mathlib.Nat.{pow-suc}
use native.Mathlib.Omega.{arith}

-- More fuel than the first argument needs makes no difference.
module _ (z : ℕ → ℕ) (op : ℕ → ℕ → ℕ) where
  digits_enough : (a f g b : ℕ) → a ≤ f → a ≤ g → digits z op f a b ≡ digits z op g a b
  digits_enough a f g b p q = go f g a b p q
    where
      go : (f g a b : ℕ) → a ≤ f → a ≤ g → digits z op f a b ≡ digits z op g a b
      go zero zero a b p q = refl
      go zero (suc g) zero b p q = refl
      go zero (suc g) (suc a) b p q = absurd (omega arith)
      go (suc f) zero zero b p q = refl
      go (suc f) zero (suc a) b p q = absurd (omega arith)
      go (suc f) (suc g) zero b p q = refl
      go (suc f) (suc g) (suc a) b p q = rw (go f g (suc a / 2) (b / 2) (omega arith) (omega arith))

  low_digit :
      (a b : ℕ)
      → bitwise z op (suc a) b ≡ bitwise z op (suc a / 2) (b / 2) * 2 + op (suc a % 2) (b % 2)
  low_digit a b =
      omega (arith, digits_enough (suc a / 2) a (suc a / 2) (b / 2) (omega arith) (omega arith))

pub and_digit : (a b : ℕ) → bit_and a b ≡ bit_and (a / 2) (b / 2) * 2 + min (a % 2) (b % 2)
and_digit zero b = simp bit_and-bitwise (omega arith)
and_digit (suc a) b = simp bit_and-bitwise (low_digit (λ y. 0) min a b)

pub or_digit : (a b : ℕ) → bit_or a b ≡ bit_or (a / 2) (b / 2) * 2 + max (a % 2) (b % 2)
or_digit zero b = simp bit_or-bitwise (omega arith)
or_digit (suc a) b = simp bit_or-bitwise (low_digit (λ y. y) max a b)

and-le_fuel : (f a b : ℕ) → a ≤ f → bit_and a b ≤ b
and-le_fuel zero zero b h = omega (arith, bit_and-bitwise 0 b)
and-le_fuel zero (suc a) b h = absurd (omega arith)
and-le_fuel (suc f) zero b h = omega (arith, bit_and-bitwise 0 b)
and-le_fuel (suc f) (suc a) b h =
    omega (arith, and_digit (suc a) b, and-le_fuel f (suc a / 2) (b / 2) (omega arith))

-- A mask bounds the masked value.
pub bit_and-le : (a b : ℕ) → bit_and a b ≤ b
bit_and-le a b = and-le_fuel a a b (omega arith)

-- The lowest bit.
pub bit_and-one : (a : ℕ) → bit_and a 1 ≡ a % 2
bit_and-one a = omega (arith, and_digit a 1, bit_and-le (a / 2) 0)

zero-or : (b : ℕ) → bit_or 0 b ≡ b
zero-or b = bit_or-bitwise 0 b

or-zero_fuel : (f a : ℕ) → a ≤ f → bit_or a 0 ≡ a
or-zero_fuel f zero h = zero-or 0
or-zero_fuel zero (suc a) h = absurd (omega arith)
or-zero_fuel (suc f) (suc a) h =
    omega (arith, or_digit (suc a) 0, or-zero_fuel f (suc a / 2) (omega arith))

pub bit_or-zero : (a : ℕ) → bit_or a 0 ≡ a
bit_or-zero a = or-zero_fuel a a (omega arith)

-- Values of `k` bits: `|` stays within `k` bits and is at least both.
pub bit_or_bounds :
    (k a b : ℕ) → a < 2 ^ k → b < 2 ^ k → (a ≤ bit_or a b) × (b ≤ bit_or a b) × (bit_or a b < 2 ^ k)
bit_or_bounds zero a b p q =
    let ea : a ≡ 0 = omega arith in
    let eb : b ≡ 0 = omega arith in rw (ea, eb) (omega (arith, zero-or 0))
bit_or_bounds (suc k) a b p q = omega (
  arith,
  or_digit a b,
  pow-suc 2 k,
  bit_or_bounds k (a / 2) (b / 2) (omega (arith, pow-suc 2 k)) (omega (arith, pow-suc 2 k)),
)

-- High bits of the left side that the right side does not reach are kept.
pub bit_or_high :
    (k h a b : ℕ) → a < 2 ^ k → b < 2 ^ k → bit_or (h * 2 ^ k + a) b ≡ h * 2 ^ k + bit_or a b
bit_or_high zero h a b p q =
    let ea : a ≡ 0 = omega arith in
    let eb : b ≡ 0 = omega arith in rw (ea, eb) (omega (arith, zero-or 0, bit_or-zero (h * 1 + 0)))
bit_or_high (suc k) h a b p q =
    let e : h * 2 ^ suc k ≡ 2 * (h * 2 ^ k) = omega (arith, ap (λ (t : ℕ). h * t) (pow-suc 2 k)) in
    let half : (2 * (h * 2 ^ k) + a) / 2 ≡ h * 2 ^ k + a / 2 = omega arith in
    rw e (
      omega (
        arith,
        or_digit (2 * (h * 2 ^ k) + a) b,
        or_digit a b,
        ap (λ (t : ℕ). bit_or t (b / 2)) half,
        bit_or_high k h (a / 2) (b / 2) (omega (arith, pow-suc 2 k)) (omega (arith, pow-suc 2 k)),
      ))
