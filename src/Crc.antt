-- ===== src/Crc.antt =====
-- pc/hid_bootloader/crc.c: the checksum of the XMEGA flash controller, as the host computes it. The
-- table and the general CRC32 beside it are not called by the program.
pub mod Register
pub mod Detect
pub mod Tests
use hid_bootloader.Base.{
  ℕ, zero, suc, ◌+◌, ◌*◌, ◌/◌, ◌^◌, bit_and, bit_or, bit_xor, u32, ltb, if◌then◌else◌, Memory,
}

abbrev pub xmega_crc32_poly : ℕ
xmega_crc32_poly = 0x0080001B

-- One round: the register is shifted, and takes in a word and, if its top digit was set, the
-- polynomial.
pub crc_round : ℕ → ℕ → ℕ
crc_round crc_reg data_reg =
    let help_a = bit_and (u32 (crc_reg * 2)) 0x00FFFFFE in
    let top = bit_and crc_reg (2 ^ 23) in
    let help_b = if ltb 0 top then 0x00FFFFFF else top in
    bit_and (bit_xor (bit_xor help_a data_reg) (bit_and help_b xmega_crc32_poly)) 0x00FFFFFF

-- The word at an address, low byte first.
pub crc_word : Memory → ℕ → ℕ
crc_word buffer address = bit_or (buffer (address + 1) * 2 ^ 8) (bit_and (buffer address) 0xFFFF)

-- The loop with the number of rounds that are left.
pub crc_loop : Memory → ℕ → ℕ → ℕ → ℕ
crc_loop buffer zero address crc_reg = crc_reg
crc_loop buffer (suc rounds) address crc_reg =
    crc_loop buffer rounds (address + 2) (crc_round crc_reg (crc_word buffer address))

-- The address runs over the even numbers below the length: half of it, rounded up.
unfoldable pub xmega_nvm_crc32 : Memory → ℕ → ℕ
unfolding crc_loop crc_round crc_word
xmega_nvm_crc32 buffer buffer_length = crc_loop buffer ((buffer_length + 1) / 2) 0 0
