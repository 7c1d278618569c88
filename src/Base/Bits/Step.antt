-- ===== src/Base/Bits/Step.antt =====
-- The native bit operations, digit by digit: the lowest digit of a result and the rest of it.
use Prim.Native.Nat.{
  ℕ, zero, suc, ◌+◌, ◌-◌, ◌*◌, ◌/◌, ◌%◌, ◌≤◌, ◌<◌, min, max, bit_and, bit_or, bit_xor, digits,
  bitwise, bit_and-bitwise, bit_or-bitwise, bit_xor-bitwise, differ,
}
use mathlib.Core.Path.{◌≡◌, refl, ap, ◌∙◌}
use native.Mathlib.Omega.{arith}

-- The definition counts digits down from the first number. A longer count gives the same result.
module _ (rest : ℕ → ℕ) (op : ℕ → ℕ → ℕ) where
  digits_more : (k a b : ℕ) → a ≤ k → digits rest op (suc k) a b ≡ digits rest op k a b
  digits_more zero zero b h = refl
  digits_more zero (suc a) b h = absurd (omega arith)
  digits_more (suc k) zero b h = refl
  digits_more (suc k) (suc a) b h =
      ap (λ (t : ℕ). t * 2 + op (suc a % 2) (b % 2))
        (digits_more k (suc a / 2) (b / 2) (omega arith))

  digits_surplus :
      (extra k m a b : ℕ) → extra + k ≡ m → a ≤ k → digits rest op m a b ≡ digits rest op k a b
  digits_surplus zero k m a b e h = let same : m ≡ k = omega arith in rw same
  digits_surplus (suc extra) k zero a b e h = absurd (omega arith)
  digits_surplus (suc extra) k (suc m) a b e h =
      digits_more m a b (omega arith) ∙ digits_surplus extra k m a b (omega arith) h

  bitwise_digit :
      (a b : ℕ)
      → bitwise rest op (suc a) b ≡ bitwise rest op (suc a / 2) (b / 2) * 2 + op (suc a % 2) (b % 2)
  bitwise_digit a b =
      let half : ℕ = suc a / 2 in
      ap (λ (t : ℕ). t * 2 + op (suc a % 2) (b % 2))
        (digits_surplus (a - half) half a half (b / 2) (omega arith) (omega arith))

zero_by_digit : (y : ℕ) → 0 ≡ min (0 % 2) (y % 2) + 2 * 0
zero_by_digit y = omega arith

and_by_digit : (x y : ℕ) → bit_and x y ≡ min (x % 2) (y % 2) + 2 * bit_and (x / 2) (y / 2)
and_by_digit zero y = simp bit_and-bitwise (zero_by_digit y)
and_by_digit (suc x) y = simp bit_and-bitwise (omega (arith, bitwise_digit (λ k. 0) min x y))

or_by_digit : (x y : ℕ) → bit_or x y ≡ max (x % 2) (y % 2) + 2 * bit_or (x / 2) (y / 2)
or_by_digit zero y = simp bit_or-bitwise (omega arith)
or_by_digit (suc x) y = simp bit_or-bitwise (omega (arith, bitwise_digit (λ k. k) max x y))

xor_by_digit : (x y : ℕ) → bit_xor x y ≡ differ (x % 2) (y % 2) + 2 * bit_xor (x / 2) (y / 2)
xor_by_digit zero y =
    let whole : y ≡ y % 2 + 2 * (y / 2) = omega arith in simp bit_xor-bitwise whole
xor_by_digit (suc x) y = simp bit_xor-bitwise (omega (arith, bitwise_digit (λ k. k) differ x y))

differ_digits : (x y : ℕ) → x < 2 → y < 2 → differ x y ≡ (x + y) % 2
differ_digits zero y h k = omega arith
differ_digits (suc zero) zero h k = refl
differ_digits (suc zero) (suc zero) h k = refl
differ_digits (suc zero) (suc (suc y)) h k = absurd (omega arith)
differ_digits (suc (suc x)) y h k = absurd (omega arith)

module _ (a b : ℕ) where
  pub bit_and_half : bit_and a b / 2 ≡ bit_and (a / 2) (b / 2)
  bit_and_half = omega (arith, and_by_digit a b)

  pub bit_and_low : bit_and a b % 2 ≡ min (a % 2) (b % 2)
  bit_and_low = omega (arith, and_by_digit a b)

  pub bit_or_half : bit_or a b / 2 ≡ bit_or (a / 2) (b / 2)
  bit_or_half = omega (arith, or_by_digit a b)

  pub bit_or_low : bit_or a b % 2 ≡ max (a % 2) (b % 2)
  bit_or_low = omega (arith, or_by_digit a b)

  pub bit_xor_half : bit_xor a b / 2 ≡ bit_xor (a / 2) (b / 2)
  bit_xor_half =
      omega (arith, xor_by_digit a b, differ_digits (a % 2) (b % 2) (omega arith) (omega arith))

  pub bit_xor_low : bit_xor a b % 2 ≡ (a + b) % 2
  bit_xor_low =
      omega (arith, xor_by_digit a b, differ_digits (a % 2) (b % 2) (omega arith) (omega arith))

-- A number is its lowest digit and the rest.
pub halves : (a b : ℕ) → a / 2 ≡ b / 2 → a % 2 ≡ b % 2 → a ≡ b
halves a b h l = omega arith
