-- ===== src/Crc/Register.antt =====
-- One round of the checksum as a shift register of 24 digits, and what it keeps apart.
use hid_bootloader.Base.{
  zero, suc, ℕ, ◌+◌, ◌*◌, ◌/◌, ◌%◌, ◌^◌, ◌<◌, ◌≡◌, refl, sym, ap, ◌∙◌, bit_and, bit_xor, arith, ltb,
  if◌then◌else◌, Memory,
}
use hid_bootloader.Base.Bits.{
  bit_and_mask, bit_and_digit, bit_and_double, bit_or_below, bit_xor-lt, bit_xor_comm,
  bit_xor_assoc, bit_xor_injective, bit_xor_injective_right, bit_xor_low,
}
use hid_bootloader.Crc.{crc_round, crc_word, xmega_crc32_poly}

-- What the top digit feeds back.
abbrev pub feedback : ℕ → ℕ
feedback crc = if ltb 0 (crc / 2 ^ 23 % 2) then xmega_crc32_poly else 0

-- The register without its top digit, shifted.
abbrev pub shifted : ℕ → ℕ
shifted crc = crc % 2 ^ 23 * 2

help_a_lem : (crc : ℕ) → crc < 2 ^ 24 → bit_and (crc * 2 % 2 ^ 32) 0x00FFFFFE ≡ shifted crc
help_a_lem crc h =
    let fits : crc * 2 % 2 ^ 32 ≡ crc * 2 = omega arith in
    let half : crc * 2 / 2 ≡ crc = omega arith in
    rw fits (
      bit_and_double (crc * 2) 0x7FFFFF
      ∙ ap (λ t. bit_and t 0x7FFFFF * 2) half
      ∙ ap (λ (t : ℕ). t * 2) (bit_and_mask 23 crc))

by_digit :
    (d : ℕ)
    → d < 2
    → bit_and (if ltb 0 (d * 2 ^ 23) then 0x00FFFFFF else d * 2 ^ 23) xmega_crc32_poly
      ≡ (if ltb 0 d then xmega_crc32_poly else 0)
by_digit zero h = refl
by_digit (suc zero) h = refl
by_digit (suc (suc d)) h = absurd (omega arith)

help_b_lem :
    (crc : ℕ)
    → bit_and
        (if ltb 0 (bit_and crc (2 ^ 23)) then 0x00FFFFFF else bit_and crc (2 ^ 23))
        xmega_crc32_poly
      ≡ feedback crc
help_b_lem crc = rw (bit_and_digit 23 crc) (by_digit (crc / 2 ^ 23 % 2) (omega arith))

feedback-lt : (crc : ℕ) → feedback crc < 2 ^ 24
feedback-lt crc = ground arith

-- The register takes part in the result only by its digits, the word by exclusive or.
pub crc_round_lem :
    (crc word : ℕ)
    → crc < 2 ^ 24
    → word < 2 ^ 24
    → crc_round crc word ≡ bit_xor (bit_xor (shifted crc) word) (feedback crc)
unfolding crc_round
crc_round_lem crc word h k =
    let fits : bit_xor (bit_xor (shifted crc) word) (feedback crc) < 2 ^ 24 =
      bit_xor-lt 24 _ _ (bit_xor-lt 24 _ _ (omega arith) k) (feedback-lt crc) in
    rw (help_a_lem crc h, help_b_lem crc, bit_and_mask 24) (omega arith)

pub crc_round-lt : (crc word : ℕ) → crc_round crc word < 2 ^ 24
unfolding crc_round
crc_round-lt crc word = rw (bit_and_mask 24) (omega arith)

pub crc_word_lem :
    (buffer : Memory) (address : ℕ)
    → buffer address < 256
    → crc_word buffer address ≡ buffer (address + 1) * 256 + buffer address
unfolding crc_word
crc_word_lem buffer address low =
    rw (bit_and_mask 16 (buffer address))
      (bit_or_below 8 (buffer (address + 1)) _ (omega arith) ∙ omega arith)

-- The lowest digit of the result without the word shows the top digit of the register.
pub shifted_injective :
    (c d : ℕ)
    → c < 2 ^ 24
    → d < 2 ^ 24
    → bit_xor (shifted c) (feedback c) ≡ bit_xor (shifted d) (feedback d)
    → c ≡ d
shifted_injective c d hc hd e =
    let low : feedback c % 2 ≡ feedback d % 2 =
      omega (arith, bit_xor_low (shifted c) (feedback c), bit_xor_low (shifted d) (feedback d)) in
    let top : c / 2 ^ 23 % 2 ≡ d / 2 ^ 23 % 2 =
      tops (c / 2 ^ 23 % 2) (d / 2 ^ 23 % 2) (omega arith) (omega arith) low in
    let fed : feedback c ≡ feedback d = ap (λ t. if ltb 0 t then xmega_crc32_poly else 0) top in
    let rest : shifted c ≡ shifted d =
      bit_xor_injective _ _ (feedback d) (ap (bit_xor (shifted c)) (sym fed) ∙ e) in
    omega arith
  where
    tops :
        (s t : ℕ)
        → s < 2
        → t < 2
        → (if ltb 0 s then xmega_crc32_poly else 0) % 2
          ≡ (if ltb 0 t then xmega_crc32_poly else 0) % 2
        → s ≡ t
    tops s t h k e = ground arith

-- Rounds with the same word keep registers apart.
pub crc_round_injective :
    (c d word : ℕ)
    → c < 2 ^ 24
    → d < 2 ^ 24
    → word < 2 ^ 24
    → crc_round c word ≡ crc_round d word
    → c ≡ d
crc_round_injective c d word hc hd hw e =
    shifted_injective c d hc hd (bit_xor_injective _ _ word (sym (swap c) ∙ e' ∙ swap d))
  where
    swap :
        (x : ℕ)
        → bit_xor (bit_xor (shifted x) word) (feedback x)
          ≡ bit_xor (bit_xor (shifted x) (feedback x)) word
    swap x =
        bit_xor_assoc (shifted x) word (feedback x)
        ∙ ap (bit_xor (shifted x)) (bit_xor_comm word (feedback x))
        ∙ sym (bit_xor_assoc (shifted x) (feedback x) word)

    e' :
        bit_xor (bit_xor (shifted c) word) (feedback c)
        ≡ bit_xor (bit_xor (shifted d) word) (feedback d)
    e' = sym (crc_round_lem c word hc hw) ∙ e ∙ crc_round_lem d word hd hw

-- Rounds on the same register keep words apart.
pub crc_round_injective_word :
    (c v w : ℕ) → c < 2 ^ 24 → v < 2 ^ 24 → w < 2 ^ 24 → crc_round c v ≡ crc_round c w → v ≡ w
crc_round_injective_word c v w hc hv hw e = bit_xor_injective_right v w (shifted c) (
    bit_xor_injective _ _ (feedback c)
      (sym (crc_round_lem c v hc hv) ∙ e ∙ crc_round_lem c w hc hw))
