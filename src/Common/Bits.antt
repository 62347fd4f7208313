-- ===== src/Common/Bits.antt =====
-- `&` and `|` at variables: a bit that is set reads as set, and one that is cleared as cleared.
use Prim.Native.Nat.{
  ℕ, zero, suc, ◌+◌, ◌-◌, ◌*◌, ◌/◌, ◌%◌, ◌≤◌, min, max, digits, bit_and, bit_or, bit_and-bitwise,
  bit_or-bitwise,
}
use mathlib.Core.Path.{◌≡◌, refl, ap, ◌∙◌}
use native.Mathlib.Omega.{arith}

module _ (z : ℕ → ℕ) (f : ℕ → ℕ → ℕ) where
  -- How many digits are counted down does not matter, once there are as many as in the number.
  any_count : (i j a b : ℕ) → a ≤ i → a ≤ j → digits z f i a b ≡ digits z f j a b
  any_count zero zero a b h k = refl
  any_count zero (suc j) zero b h k = refl
  any_count zero (suc j) (suc a) b h k = absurd (omega arith)
  any_count (suc i) zero zero b h k = refl
  any_count (suc i) zero (suc a) b h k = absurd (omega arith)
  any_count (suc i) (suc j) zero b h k = refl
  any_count (suc i) (suc j) (suc a) b h k =
      let rest = any_count i j (suc a / 2) (b / 2) (omega arith) (omega arith) in
      ap (λ r. r * 2 + f (suc a % 2) (b % 2)) rest

  lowest_digit :
      (a b : ℕ)
      → digits z f (suc a) (suc a) b
        ≡ digits z f (suc a / 2) (suc a / 2) (b / 2) * 2 + f (suc a % 2) (b % 2)
  lowest_digit a b =
      ap (λ r. r * 2 + f (suc a % 2) (b % 2))
        (any_count a (suc a / 2) (suc a / 2) (b / 2) (omega arith) (omega arith))

and_digit : (a b : ℕ) → bit_and a b ≡ bit_and (a / 2) (b / 2) * 2 + min (a % 2) (b % 2)
and_digit zero b = simp bit_and-bitwise (omega arith)
and_digit (suc a) b = simp bit_and-bitwise (lowest_digit (λ y. 0) min a b)

or_digit : (a b : ℕ) → bit_or a b ≡ bit_or (a / 2) (b / 2) * 2 + max (a % 2) (b % 2)
or_digit zero b = simp bit_or-bitwise (omega arith)
or_digit (suc a) b = simp bit_or-bitwise (lowest_digit (λ y. y) max a b)

-- The inductions are on a bound of the numbers.
and_zero : (k a : ℕ) → a ≤ k → bit_and a 0 ≡ 0
and_zero k zero h = refl
and_zero zero (suc a) h = absurd (omega arith)
and_zero (suc k) (suc a) h =
    omega (arith, and_digit (suc a) 0, and_zero k (suc a / 2) (omega arith))

and_le : (k a b : ℕ) → a ≤ k → bit_and a b ≤ a
and_le k zero b h = omega (arith, and_digit zero b, and_zero_left b)
  where
    and_zero_left : (b : ℕ) → bit_and 0 b ≡ 0
    and_zero_left b = simp bit_and-bitwise refl
and_le zero (suc a) b h = absurd (omega arith)
and_le (suc k) (suc a) b h =
    omega (arith, and_digit (suc a) b, and_le k (suc a / 2) (b / 2) (omega arith))

set_within : (k a b : ℕ) → b ≤ k → bit_and (bit_or a b) b ≡ b
set_within k a zero h = and_zero (bit_or a 0) (bit_or a 0) (omega arith)
set_within zero a (suc b) h = absurd (omega arith)
set_within (suc k) a (suc b) h =
    let whole = or_digit a (suc b) in
    let half : bit_or a (suc b) / 2 ≡ bit_or (a / 2) (suc b / 2) = omega (arith, whole) in
    let low : bit_or a (suc b) % 2 ≡ max (a % 2) (suc b % 2) = omega (arith, whole) in
    let rest = set_within k (a / 2) (suc b / 2) (omega arith) in
    let split = and_digit (bit_or a (suc b)) (suc b) in
    let split' : bit_and (bit_or a (suc b)) (suc b)
        ≡ bit_and (bit_or (a / 2) (suc b / 2)) (suc b / 2) * 2
          + min (max (a % 2) (suc b % 2)) (suc b % 2) =
      split ∙ (rw (half, low) refl) in
    omega (arith, split', rest)

clear_within : (k a b : ℕ) → b ≤ k → bit_and (a - bit_and a b) b ≡ 0
clear_within k a zero h = and_zero (a - bit_and a 0) (a - bit_and a 0) (omega arith)
clear_within zero a (suc b) h = absurd (omega arith)
clear_within (suc k) a (suc b) h =
    let whole = and_digit a (suc b) in
    let below = and_le (a / 2) (a / 2) (suc b / 2) (omega arith) in
    let x = bit_and (a / 2) (suc b / 2) in
    let half : (a - bit_and a (suc b)) / 2 ≡ a / 2 - x = omega (arith, whole, below) in
    let low : (a - bit_and a (suc b)) % 2 ≡ a % 2 - min (a % 2) (suc b % 2) =
      omega (arith, whole, below) in
    let rest = clear_within k (a / 2) (suc b / 2) (omega arith) in
    let split : bit_and (a - bit_and a (suc b)) (suc b)
        ≡ bit_and (a / 2 - x) (suc b / 2) * 2 + min (a % 2 - min (a % 2) (suc b % 2)) (suc b % 2) =
      and_digit (a - bit_and a (suc b)) (suc b) ∙ (rw (half, low) refl) in
    omega (arith, split, rest)

-- The bits that were set.
pub bit_and-bit_or : (a b : ℕ) → bit_and (bit_or a b) b ≡ b
bit_and-bit_or a b = set_within b a b (omega arith)

-- The bits that were cleared.
pub bit_and-cleared : (a b : ℕ) → bit_and (a - bit_and a b) b ≡ 0
bit_and-cleared a b = clear_within b a b (omega arith)
