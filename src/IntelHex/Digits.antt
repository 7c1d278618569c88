-- ===== src/IntelHex/Digits.antt =====
-- ReadBase16 on what a printer of hexadecimal numbers writes.
use hid_bootloader.Base.{
  ℕ, zero, suc, ◌+◌, ◌-◌, ◌*◌, ◌/◌, ◌%◌, ◌^◌, ◌≤◌, ◌<◌, ◌≡◌, refl, sym, ap, ◌∙◌, arith, Memory, u32,
}
use native.Mathlib.Nat.{
  pow-suc, one-le-pow, div-add-mod', mul-le-mul_right, mod-lt, mul-add-mod_self_right, mod-eq_of_lt,
  add-mul, mul_assoc, mul_comm, pow-le-pow_right,
}
use hid_bootloader.Serial.{hex_to_char}
use hid_bootloader.IntelHex.{digit_value, read_digits, read_base16}

digit_value-hex_to_char : (d : ℕ) → d < 16 → digit_value (hex_to_char d) ≡ d
unfolding digit_value hex_to_char
digit_value-hex_to_char d h = ground arith

-- A number is written from the index `c` on with `n` digits, upper case, the highest first.
pub record Written (line : Memory) (c n v : ℕ) : Type 0 where
  pub digit_at : (k : ℕ) → k < n → line (c + k) ≡ hex_to_char (v / 16 ^ (n - suc k) % 16)
  pub fits : v < 16 ^ n

-- One digit more: the remainder by the next power.
mod-step : (v p : ℕ) → 0 < p → v % (p * 16) ≡ v / p % 16 * p + v % p
mod-step v p pos =
    let q : ℕ = v / p in
    let d : ℕ = q % 16 in
    let high : ℕ = q / 16 in
    let product : q * p ≡ high * (p * 16) + d * p =
      let parts : q ≡ high * 16 + d = omega arith in
      ap (λ (t : ℕ). t * p) parts
      ∙ add-mul (high * 16) d p
      ∙ ap (λ (t : ℕ). t + d * p)
          (mul_assoc high 16 p ∙ ap (λ (t : ℕ). high * t) (mul_comm 16 p)) in
    let whole : v ≡ high * (p * 16) + (d * p + v % p) = omega (arith, product, div-add-mod' v p) in
    let bound : d * p ≤ 15 * p = mul-le-mul_right p (omega arith) in
    let small : d * p + v % p < p * 16 = omega (arith, bound, mod-lt v pos) in
    ap (λ (t : ℕ). t % (p * 16)) whole ∙ mul-add-mod_self_right high (p * 16) _ ∙ mod-eq_of_lt small

power : (n : ℕ) → 2 ^ (n * 4) ≡ 16 ^ n
power zero = refl
power (suc n) =
    let four : suc n * 4 ≡ suc (suc (suc (suc (n * 4)))) = omega arith in
    ap (λ t. 2 ^ t) four
    ∙ omega (
      arith,
      power n,
      pow-suc 16 n,
      pow-suc 2 (n * 4),
      pow-suc 2 (suc (n * 4)),
      pow-suc 2 (suc (suc (n * 4))),
      pow-suc 2 (suc (suc (suc (n * 4)))),
    )

-- A digit at a position that is written another way.
at :
    (line : Memory) (v : ℕ) {i j e f : ℕ}
    → i ≡ j
    → e ≡ f
    → line i ≡ hex_to_char (v / 16 ^ e % 16)
    → line j ≡ hex_to_char (v / 16 ^ f % 16)
at line v p q h = ap line (sym p) ∙ h ∙ ap (λ t. hex_to_char (v / 16 ^ t % 16)) q

read_digits_lem :
    (line : Memory) (n c v val : ℕ)
    → ((k : ℕ) → k < n → line (c + k) ≡ hex_to_char (v / 16 ^ (n - suc k) % 16))
    → val + v % 16 ^ n < 2 ^ 32
    → read_digits line n c val ≡ val + v % 16 ^ n
unfolding read_digits
read_digits_lem line zero c v val digits small = omega arith
read_digits_lem line (suc n) c v val digits small =
    let d : ℕ = v / 16 ^ n % 16 in
    let split : v % 16 ^ suc n ≡ d * 16 ^ n + v % 16 ^ n =
      ap (λ (t : ℕ). v % t) (pow-suc 16 n) ∙ mod-step v (16 ^ n) (one-le-pow n 16 (omega arith)) in
    let first : line c ≡ hex_to_char d =
      at line v (omega arith) (omega arith) (digits 0 (omega arith)) in
    let digit : digit_value (line c) ≡ d =
      ap digit_value first ∙ digit_value-hex_to_char d (omega arith) in
    let next : u32 (val + digit_value (line c) * 2 ^ (n * 4)) ≡ val + d * 16 ^ n =
      rw (digit, power n) (omega (arith, split)) in
    ap (read_digits line n (c + 1)) next
    ∙ read_digits_lem line n (c + 1) v (val + d * 16 ^ n)
        (λ k h. at line v (omega arith) (omega arith) (digits (suc k) (omega arith)))
        (omega (arith, split))
    ∙ omega (arith, split)

-- A number of at most eight digits that is written in upper case is read back.
pub read_base16-Written :
    (line : Memory) (c n v : ℕ) → n ≤ 8 → Written line c n v → read_base16 line c n ≡ v
unfolding read_base16
read_base16-Written line c n v small w =
    let bound : 16 ^ n ≤ 16 ^ 8 = pow-le-pow_right (omega arith) small in
    let whole : v % 16 ^ n ≡ v = mod-eq_of_lt w.fits in
    read_digits_lem line n c v 0 w.digit_at (omega (arith, whole, bound, w.fits))
    ∙ omega (arith, whole)
