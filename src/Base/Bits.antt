-- ===== src/Base/Bits.antt =====
-- Laws of `&` and `|` at a mask of `k` ones and at a shifted field, for every width `k`. The
-- libraries define the operations by their binary digits and have no such laws.
use Prim.Native.Nat.{
  ℕ, zero, suc, ◌+◌, ◌*◌, ◌/◌, ◌%◌, ◌≤◌, ◌<◌, min, max, bit_and, bit_or, digits, bit_and-bitwise,
  bit_or-bitwise,
}
use mathlib.Core.Path.{◌≡◌, refl}
use native.Mathlib.Omega.{arith}

-- Both operations go through the digits of their first argument, which bounds the rounds. What is
-- said here of `digits z f` holds for both.
module _ (z : ℕ → ℕ) (f : ℕ → ℕ → ℕ) where
  more_rounds : (x y : ℕ) (j k : ℕ) → x ≤ j → x ≤ k → digits z f j x y ≡ digits z f k x y
  more_rounds zero y zero zero _ _ = refl
  more_rounds zero y zero (suc k) _ _ = refl
  more_rounds zero y (suc j) zero _ _ = refl
  more_rounds zero y (suc j) (suc k) _ _ = refl
  more_rounds (suc x) y zero k below _ = absurd (omega arith)
  more_rounds (suc x) y (suc j) zero _ below = absurd (omega arith)
  more_rounds (suc x) y (suc j) (suc k) h l =
      rw (more_rounds (suc x / 2) (y / 2) j k (omega arith) (omega arith))

  -- One digit, where the first number has one left.
  one_digit :
      (x y : ℕ)
      → digits z f (suc x) (suc x) y
        ≡ digits z f (suc x / 2) (suc x / 2) (y / 2) * 2 + f (suc x % 2) (y % 2)
  one_digit x y = rw (more_rounds (suc x / 2) (y / 2) x (suc x / 2) (omega arith) (omega arith))

bit_and-zero_left : (y : ℕ) → bit_and 0 y ≡ 0
bit_and-zero_left y = bit_and-bitwise 0 y

bit_or-zero_left : (y : ℕ) → bit_or 0 y ≡ y
bit_or-zero_left y = bit_or-bitwise 0 y

bit_and-last : (x y : ℕ) → bit_and x y ≡ bit_and (x / 2) (y / 2) * 2 + min (x % 2) (y % 2)
bit_and-last zero y = rw (bit_and-zero_left, bit_and-zero_left) (omega arith)
bit_and-last (suc x) y =
    rw (bit_and-bitwise (suc x) y, bit_and-bitwise (suc x / 2) (y / 2)) (one_digit _ min x y)

bit_or-last : (x y : ℕ) → bit_or x y ≡ bit_or (x / 2) (y / 2) * 2 + max (x % 2) (y % 2)
bit_or-last zero y = rw (bit_or-zero_left, bit_or-zero_left) (omega arith)
bit_or-last (suc x) y =
    rw (bit_or-bitwise (suc x) y, bit_or-bitwise (suc x / 2) (y / 2)) (one_digit _ max x y)

bit_and-zero_right : (bound x : ℕ) → x < bound → bit_and x 0 ≡ 0
bit_and-zero_right zero x h = absurd (omega arith)
bit_and-zero_right (suc bound) zero h = bit_and-zero_left 0
bit_and-zero_right (suc bound) (suc x) h =
    rw (bit_and-last, bit_and-zero_right bound (suc x / 2) (omega arith)) (omega arith)

-- `m` is a mask of `k` ones.
abbrev pub ones : ℕ → ℕ
ones zero = 0
ones (suc k) = ones k * 2 + 1

abbrev pub pow2 : ℕ → ℕ
pow2 zero = 1
pow2 (suc k) = pow2 k * 2

pow2_pos : (k : ℕ) → 0 < pow2 k
pow2_pos zero = omega arith
pow2_pos (suc k) = omega (arith, pow2_pos k)

-- The remainder by an even number, from its last digit.
mod_double : (a p : ℕ) → 0 < p → a % (p * 2) ≡ a / 2 % p * 2 + a % 2
mod_double a p h = grind arith

-- Masking keeps the low bits.
pub bit_and-ones : (k a : ℕ) → bit_and a (ones k) ≡ a % pow2 k
bit_and-ones zero a = omega (arith, bit_and-zero_right (suc a) a (omega arith))
bit_and-ones (suc k) a =
    let half : (ones k * 2 + 1) / 2 ≡ ones k = omega arith in
    rw (bit_and-last, half, bit_and-ones k (a / 2), mod_double a (pow2 k) (pow2_pos k))
      (omega arith)

-- Fields that do not overlap add up.
pub bit_or-field : (k lo hi : ℕ) → lo < pow2 k → bit_or lo (hi * pow2 k) ≡ lo + hi * pow2 k
bit_or-field zero lo hi h = let e : lo ≡ 0 = omega arith in rw (e, bit_or-zero_left) (omega arith)
bit_or-field (suc k) lo hi h =
    let half : hi * (pow2 k * 2) / 2 ≡ hi * pow2 k = omega arith in
    rw (bit_or-last, half, bit_or-field k (lo / 2) hi (omega arith)) (omega arith)
