-- ===== src/Base/Bits/Mask.antt =====
-- Masks are remainders and single digits, and `|` of fields that do not overlap is a sum.
use Prim.Native.Nat.{
  ℕ, zero, suc, ◌+◌, ◌-◌, ◌*◌, ◌/◌, ◌%◌, ◌^◌, ◌≤◌, ◌<◌, bit_and, bit_or, bit_or-bitwise,
}
use mathlib.Core.Path.{◌≡◌, refl, ap, ap₂, sym, ◌∙◌}
use native.Mathlib.Nat.{pow-suc, one-le-pow, div-div-eq-div-mul}
use native.Mathlib.Omega.{arith}
use hid_bootloader.Base.Bits.Step.{bit_and_half, bit_and_low, bit_or_half, bit_or_low}

and_zero_below : (n a : ℕ) → a ≤ n → bit_and a 0 ≡ 0
and_zero_below zero zero h = refl
and_zero_below zero (suc a) h = absurd (omega arith)
and_zero_below (suc n) a h =
    omega (arith, bit_and_half a 0, bit_and_low a 0, and_zero_below n (a / 2) (omega arith))

pub bit_and-zero : (a : ℕ) → bit_and a 0 ≡ 0
bit_and-zero a = and_zero_below a a (omega arith)

-- `a & m` for an even mask looks at the digits above the lowest.
pub bit_and_double : (a m : ℕ) → bit_and a (m * 2) ≡ bit_and (a / 2) m * 2
bit_and_double a m =
    let half_of_m : m * 2 / 2 ≡ m = omega arith in
    let rest : bit_and a (m * 2) / 2 ≡ bit_and (a / 2) m =
      bit_and_half a (m * 2) ∙ ap (bit_and (a / 2)) half_of_m in
    omega (arith, rest, bit_and_low a (m * 2))

-- A multiple of `2 ^ (k + 1)` is twice a multiple of `2 ^ k`.
twice_field : (k m : ℕ) → m * 2 ^ suc k ≡ 2 * (m * 2 ^ k)
twice_field k m = let product = ap (λ (p : ℕ). m * p) (pow-suc 2 k) in omega (arith, product)

one-le-two-pow : (k : ℕ) → 1 ≤ 2 ^ k
one-le-two-pow k = one-le-pow k 2 (omega arith)

low_field : (k q r : ℕ) → r < 2 ^ k → bit_and (q * 2 ^ k + r) (2 ^ k - 1) ≡ r
low_field zero q r h = omega (arith, bit_and-zero (q * 1 + r))
low_field (suc k) q r h =
    let a : ℕ = q * 2 ^ suc k + r in
    let m : ℕ = 2 ^ suc k - 1 in
    let a_half : a / 2 ≡ q * 2 ^ k + r / 2 = omega (arith, twice_field k q) in
    let m_half : m / 2 ≡ 2 ^ k - 1 = omega (arith, pow-suc 2 k, one-le-two-pow k) in
    let ih : bit_and (q * 2 ^ k + r / 2) (2 ^ k - 1) ≡ r / 2 =
      low_field k q (r / 2) (omega (arith, pow-suc 2 k)) in
    let rest : bit_and a m / 2 ≡ r / 2 = bit_and_half a m ∙ ap₂ bit_and a_half m_half ∙ ih in
    omega (arith, rest, bit_and_low a m, twice_field k q, pow-suc 2 k, one-le-two-pow k)

-- `a & (2^k - 1)` is the remainder.
pub bit_and_mask : (k a : ℕ) → bit_and a (2 ^ k - 1) ≡ a % 2 ^ k
bit_and_mask k a =
    let field : bit_and (a / 2 ^ k * 2 ^ k + a % 2 ^ k) (2 ^ k - 1) ≡ a % 2 ^ k =
      low_field k (a / 2 ^ k) (a % 2 ^ k) (grind (arith, one-le-two-pow k)) in
    let whole : a / 2 ^ k * 2 ^ k + a % 2 ^ k ≡ a = grind (arith, one-le-two-pow k) in
    rw whole at field

pow_suc_left : (k : ℕ) → 2 ^ suc k ≡ 2 * 2 ^ k
pow_suc_left k = omega (arith, pow-suc 2 k)

-- `a & 2^k` is the digit `k` in its place.
pub bit_and_digit : (k a : ℕ) → bit_and a (2 ^ k) ≡ a / 2 ^ k % 2 * 2 ^ k
bit_and_digit zero a = omega (arith, bit_and_mask 1 a)
bit_and_digit (suc k) a =
    let shift : 2 ^ suc k ≡ 2 ^ k * 2 = omega (arith, pow-suc 2 k) in
    let up : a / 2 ^ suc k ≡ a / 2 / 2 ^ k =
      ap (λ t. a / t) (pow_suc_left k) ∙ sym (div-div-eq-div-mul a 2 (2 ^ k)) in
    let same : a / 2 / 2 ^ k % 2 * 2 ^ k * 2 ≡ a / 2 ^ suc k % 2 * 2 ^ suc k =
      rw (up, shift) (omega arith) in
    ap (bit_and a) shift
    ∙ bit_and_double a (2 ^ k)
    ∙ ap (λ (t : ℕ). t * 2) (bit_and_digit k (a / 2))
    ∙ same

or_from_zero : (a : ℕ) → bit_or 0 a ≡ a
or_from_zero a = rw bit_or-bitwise

-- `r | (q << k)`, the fields the other way round.
pub bit_or_above : (k q r : ℕ) → r < 2 ^ k → bit_or r (q * 2 ^ k) ≡ r + q * 2 ^ k
bit_or_above zero q r h =
    let none_left : r ≡ 0 = omega arith in rw none_left (or_from_zero (q * 1) ∙ omega arith)
bit_or_above (suc k) q r h =
    let a : ℕ = q * 2 ^ suc k in
    let a_half : a / 2 ≡ q * 2 ^ k = omega (arith, twice_field k q) in
    let rest : bit_or r a / 2 ≡ r / 2 + q * 2 ^ k =
      bit_or_half r a
      ∙ ap (bit_or (r / 2)) a_half
      ∙ bit_or_above k q (r / 2) (omega (arith, pow-suc 2 k)) in
    omega (arith, rest, bit_or_low r a, twice_field k q)

or_below_zero : (n x : ℕ) → x ≤ n → bit_or x 0 ≡ x
or_below_zero zero zero h = refl
or_below_zero zero (suc x) h = absurd (omega arith)
or_below_zero (suc n) x h =
    let rest = or_below_zero n (x / 2) (omega arith) in
    omega (arith, rest, bit_or_half x 0, bit_or_low x 0)

-- `(m << k) | low`, the same with the upper field in front.
pub bit_or_below : (k m low : ℕ) → low < 2 ^ k → bit_or (m * 2 ^ k) low ≡ low + m * 2 ^ k
bit_or_below zero m low h =
    let none_left : low ≡ 0 = omega arith in
    rw none_left (or_below_zero (m * 1) (m * 1) (omega arith) ∙ omega arith)
bit_or_below (suc k) m low h =
    let up : ℕ = m * 2 ^ suc k in
    let up_half : up / 2 ≡ m * 2 ^ k = omega (arith, twice_field k m) in
    let below = bit_or_below k m (low / 2) (omega (arith, pow-suc 2 k)) in
    let rest : bit_or up low / 2 ≡ low / 2 + m * 2 ^ k =
      bit_or_half up low ∙ ap (λ t. bit_or t (low / 2)) up_half ∙ below in
    omega (arith, rest, bit_or_low up low, twice_field k m)

zero_and_below : (n b : ℕ) → b ≤ n → bit_and 0 b ≡ 0
zero_and_below zero zero h = refl
zero_and_below zero (suc b) h = absurd (omega arith)
zero_and_below (suc n) b h =
    omega (arith, bit_and_half 0 b, bit_and_low 0 b, zero_and_below n (b / 2) (omega arith))

-- The result of a mask is no wider than what is masked.
pub bit_and-lt : (k a b : ℕ) → a < 2 ^ k → bit_and a b < 2 ^ k
bit_and-lt zero a b h =
    let nothing : a ≡ 0 = omega (arith, h) in
    omega (arith, ap (λ x. bit_and x b) nothing, zero_and_below b b (omega arith))
bit_and-lt (suc k) a b h = omega (
  arith,
  bit_and_half a b,
  pow-suc 2 k,
  bit_and-lt k (a / 2) (b / 2) (omega (arith, pow-suc 2 k)),
)
