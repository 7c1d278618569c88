-- ===== src/Crc/Tests.antt =====
-- Runs of the checksum, and its theorems at concrete buffers.
use hid_bootloader.Base.{◌≡◌, ◌≢◌, refl, arith, Memory, [], ◌∷◌, get_or, write}
use hid_bootloader.Crc.{xmega_nvm_crc32}
use hid_bootloader.Crc.Detect.{DifferInWord, xmega_nvm_crc32_detects}

abbrev good : Memory
good i = get_or (0xAE ∷ 0xC0 ∷ 0x00 ∷ 0x00 ∷ 0xB6 ∷ 0xC0 ∷ []) i 0xFF

abbrev damaged : Memory
damaged = write good 3 0x80

good_crc : xmega_nvm_crc32 good 6 ≡ 0x03c20e
unfolding xmega_nvm_crc32
good_crc = refl

damage-DifferInWord : DifferInWord good damaged 3 1
damage-DifferInWord = record {
  inside = omega arith;
  a_bytes = λ i h. ground arith;
  b_bytes = λ i h. ground arith;
  before = λ i h. ground arith;
  after = λ i h k. ground arith;
  differs = omega arith;
}

xmega_nvm_crc32_detects_example : xmega_nvm_crc32 good 6 ≢ xmega_nvm_crc32 damaged 6
xmega_nvm_crc32_detects_example = xmega_nvm_crc32_detects good damaged 3 1 damage-DifferInWord
