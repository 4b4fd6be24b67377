-- ===== src/Base/Bits.antt =====
-- `&` and `|` at variables: the law for the lowest digit, and from it each bit of the result.
use Prim.Native.Nat.{
  ℕ, zero, suc, ◌+◌, ◌*◌, ◌/◌, ◌%◌, ◌≤◌, ◌<◌, ◌^◌, min, max, bit_and, bit_or, digits, bitwise,
  bit_and-bitwise, bit_or-bitwise,
}
use Prim.Native.Nat.pow
use mathlib.Core.Path.{◌≡◌, refl, ap}
use native.Mathlib.Nat.{le_refl}
use native.Mathlib.Omega.{arith}

-- The digit recursion of the library: two amounts of fuel that cover the number give the same.
module _ (z : ℕ → ℕ) (op : ℕ → ℕ → ℕ) where
  same_digits : (b a n m : ℕ) → a ≤ m → a ≤ n → digits z op n a b ≡ digits z op m a b
  same_digits b (suc a) zero m h k = absurd (omega arith)
  same_digits b (suc a) (suc n) zero h k = absurd (omega arith)
  same_digits b (suc a) (suc n) (suc m) h k =
      rw (same_digits (b / 2) (suc a / 2) n m (omega arith) (omega arith))
  same_digits b zero (suc n) zero h k = refl
  same_digits b zero (suc n) (suc m) h k = refl
  same_digits b zero zero zero h k = refl
  same_digits b zero zero (suc m) h k = refl

  lowest_digit :
      (a b : ℕ)
      → bitwise z op (suc a) b ≡ bitwise z op (suc a / 2) (b / 2) * 2 + op (suc a % 2) (b % 2)
  lowest_digit a b =
      omega (arith, same_digits (b / 2) (suc a / 2) a (suc a / 2) (le_refl _) (omega arith))

pub bit_and_digit : (m n : ℕ) → bit_and m n ≡ min (m % 2) (n % 2) + 2 * bit_and (m / 2) (n / 2)
bit_and_digit zero b = simp bit_and-bitwise (omega arith)
bit_and_digit (suc a) b = simp bit_and-bitwise (omega (arith, lowest_digit (λ y. 0) min a b))

pub bit_or_digit : (m n : ℕ) → bit_or m n ≡ max (m % 2) (n % 2) + 2 * bit_or (m / 2) (n / 2)
bit_or_digit zero b = simp bit_or-bitwise (omega arith)
bit_or_digit (suc a) b = simp bit_or-bitwise (omega (arith, lowest_digit (λ y. y) max a b))

zero-bit_or : (n : ℕ) → bit_or 0 n ≡ n
zero-bit_or n = bit_or-bitwise 0 n

pow_step : (k : ℕ) → 2 ^ suc k ≡ 2 ^ k * 2
pow_step k = λ i. pow.suc 2 k i

halved : (n : ℕ) → n * 2 / 2 ≡ n
halved n = omega arith

-- The low part and a shifted high part share no bit.
pub bit_or_shift : (k lo hi : ℕ) → lo < 2 ^ k → bit_or lo (hi * 2 ^ k) ≡ lo + hi * 2 ^ k
bit_or_shift zero lo hi h = grind (arith, zero-bit_or hi)
bit_or_shift (suc k) lo hi h =
    let twice : hi * 2 ^ suc k ≡ hi * 2 ^ k * 2 = rw (pow_step k) (grind arith) in
    rw twice (
      omega (
        arith,
        bit_or_digit lo (hi * 2 ^ k * 2),
        bit_or_shift k (lo / 2) hi (omega arith),
        ap (bit_or (lo / 2)) (halved (hi * 2 ^ k)),
      ))
