-- ===== src/Crc/Detect.antt =====
-- What the checksum tells apart, and its range.
use hid_bootloader.Base.{
  ℕ, zero, suc, ◌+◌, ◌*◌, ◌/◌, ◌^◌, ◌≤◌, ◌<◌, ◌≡◌, ◌≢◌, refl, sym, ap, ◌∙◌, arith, Memory, bit_or,
  bit_and, IsBytes,
}
use mathlib.Core.Path.{ap₂}
use hid_bootloader.Crc.{xmega_nvm_crc32, crc_loop, crc_round, crc_word}
use hid_bootloader.Crc.Register.{
  crc_round-lt, crc_word_lem, crc_round_injective, crc_round_injective_word,
}

crc_loop-lt :
    (buffer : Memory) (rounds address crc : ℕ)
    → crc < 2 ^ 24
    → crc_loop buffer rounds address crc < 2 ^ 24
unfolding crc_loop
crc_loop-lt buffer zero address crc h = h
crc_loop-lt buffer (suc rounds) address crc h =
    crc_loop-lt buffer rounds (address + 2) (crc_round crc (crc_word buffer address))
      (crc_round-lt crc (crc_word buffer address))

-- The checksum of any buffer of any length fits 24 bits.
pub xmega_nvm_crc32-lt : (buffer : Memory) (len : ℕ) → xmega_nvm_crc32 buffer len < 2 ^ 24
unfolding xmega_nvm_crc32
xmega_nvm_crc32-lt buffer len = crc_loop-lt buffer ((len + 1) / 2) 0 0 (omega arith)

-- The rounds read only the bytes of the buffer that lie in their range.
crc_loop_ext :
    (a b : Memory) (rounds address crc : ℕ)
    → ((i : ℕ) → address ≤ i → i < address + 2 * rounds → a i ≡ b i)
    → crc_loop a rounds address crc ≡ crc_loop b rounds address crc
unfolding crc_loop crc_word
crc_loop_ext a b zero address crc h = refl
crc_loop_ext a b (suc rounds) address crc h =
    rw (h address (omega arith) (omega arith), h (address + 1) (omega arith) (omega arith))
      (crc_loop_ext a b rounds (address + 2) _ (λ i p q. h i (omega arith) (omega arith)))

-- Buffers that agree on an even length have one checksum.
pub xmega_nvm_crc32_ext :
    (a b : Memory) (words : ℕ)
    → ((i : ℕ) → i < 2 * words → a i ≡ b i)
    → xmega_nvm_crc32 a (2 * words) ≡ xmega_nvm_crc32 b (2 * words)
unfolding xmega_nvm_crc32
xmega_nvm_crc32_ext a b words h =
    crc_loop_ext a b ((2 * words + 1) / 2) 0 0 (λ i p q. h i (omega arith))

-- Equal words from here on carry a difference of the registers to the end.
crc_loop_injective :
    (a b : Memory) (rounds address c d : ℕ)
    → c < 2 ^ 24
    → d < 2 ^ 24
    → ((i : ℕ) → address ≤ i → i < address + 2 * rounds → (a i ≡ b i) × (a i < 256))
    → crc_loop a rounds address c ≡ crc_loop b rounds address d
    → c ≡ d
unfolding crc_loop
crc_loop_injective a b zero address c d hc hd same e = e
crc_loop_injective a b (suc rounds) address c d hc hd same e =
    let word_a : crc_word a address ≡ a (address + 1) * 256 + a address =
      crc_word_lem a address (same address (omega arith) (omega arith)).1 in
    let at_low : (a address ≡ b address) × (a address < 256) =
      same address (omega arith) (omega arith) in
    let at_high : (a (address + 1) ≡ b (address + 1)) × (a (address + 1) < 256) =
      same (address + 1) (omega arith) (omega arith) in
    let word_b : crc_word b address ≡ b (address + 1) * 256 + b address =
      crc_word_lem b address (omega arith) in
    let equal : crc_word a address ≡ crc_word b address = omega arith in
    let after : crc_round c (crc_word a address) ≡ crc_round d (crc_word b address) =
      crc_loop_injective a b rounds (address + 2) _ _ (crc_round-lt _ _) (crc_round-lt _ _)
        (λ i p q. same i (omega arith) (omega arith)) e in
    crc_round_injective c d (crc_word a address) hc hd (omega arith)
      (after ∙ ap (crc_round d) (sym equal))

-- Buffers that agree before one word and after it, and differ in that word.
pub record DifferInWord (a b : Memory) (words k : ℕ) : Type 0 where
  pub inside : k < words
  pub a_bytes : IsBytes (2 * words) a
  pub b_bytes : IsBytes (2 * words) b
  pub before : (i : ℕ) → i < 2 * k → a i ≡ b i
  pub after : (i : ℕ) → 2 * k + 2 ≤ i → i < 2 * words → a i ≡ b i
  pub differs : a (2 * k + 1) * 256 + a (2 * k) ≢ b (2 * k + 1) * 256 + b (2 * k)

-- The rounds up to the word, the word, and the rounds after it.
differ_from :
    (a b : Memory) (words k steps rounds address c : ℕ)
    → DifferInWord a b words k
    → address + 2 * rounds ≡ 2 * words
    → address + 2 * steps ≡ 2 * k
    → c < 2 ^ 24
    → crc_loop a rounds address c ≢ crc_loop b rounds address c
unfolding crc_loop
differ_from a b words k steps zero address c d e s h p =
    let inside : k < words = d.inside in absurd (omega arith)
differ_from a b words k zero (suc rounds) address c d e s h p =
    let here : address ≡ 2 * k = omega arith in
    let inside : k < words = d.inside in
    let low_a : a address < 256 = d.a_bytes address (omega arith) in
    let low_b : b address < 256 = d.b_bytes address (omega arith) in
    let high_a : a (address + 1) < 256 = d.a_bytes (address + 1) (omega arith) in
    let high_b : b (address + 1) < 256 = d.b_bytes (address + 1) (omega arith) in
    let word_a : crc_word a address ≡ a (address + 1) * 256 + a address =
      crc_word_lem a address low_a in
    let word_b : crc_word b address ≡ b (address + 1) * 256 + b address =
      crc_word_lem b address low_b in
    let rounds_agree : crc_round c (crc_word a address) ≡ crc_round c (crc_word b address) =
      crc_loop_injective a b rounds (address + 2) _ _ (crc_round-lt _ _) (crc_round-lt _ _)
        (λ i q r. (d.after i (omega arith) (omega arith), d.a_bytes i (omega arith))) p in
    let words_agree : crc_word a address ≡ crc_word b address =
      crc_round_injective_word c _ _ h (omega arith) (omega arith) rounds_agree in
    let contents : a (address + 1) * 256 + a address ≡ b (address + 1) * 256 + b address =
      sym word_a ∙ words_agree ∙ word_b in
    d.differs (rw here at contents)
differ_from a b words k (suc steps) (suc rounds) address c d e s h p =
    let inside : k < words = d.inside in
    let low : a address ≡ b address = d.before address (omega arith) in
    let high : a (address + 1) ≡ b (address + 1) = d.before (address + 1) (omega arith) in
    let equal : crc_word a address ≡ crc_word b address =
      unfold crc_word in ap₂ (λ s t. bit_or (s * 2 ^ 8) (bit_and t 0xFFFF)) high low in
    differ_from a b words k steps rounds (address + 2) (crc_round c (crc_word a address)) d
      (omega arith) (omega arith) (crc_round-lt _ _)
      (p ∙ ap (λ t. crc_loop b rounds (address + 2) (crc_round c t)) (sym equal))

-- Two buffers of bytes of one even length that differ in exactly one 16-bit word have different
-- checksums: no damage confined to a word goes unnoticed.
pub xmega_nvm_crc32_detects :
    (a b : Memory) (words k : ℕ)
    → DifferInWord a b words k
    → xmega_nvm_crc32 a (2 * words) ≢ xmega_nvm_crc32 b (2 * words)
unfolding xmega_nvm_crc32
xmega_nvm_crc32_detects a b words k d =
    differ_from a b words k k ((2 * words + 1) / 2) 0 0 d (omega arith) (omega arith) (omega arith)
