-- ===== src/Host/Assemble.antt =====
-- The host puts together the value of which the device sent the bytes.
use hid_bootloader.Base.{ℕ, ◌+◌, ◌*◌, ◌/◌, ◌%◌, ◌^◌, ◌<◌, ◌≡◌, arith, bit_or, Memory}
use hid_bootloader.Base.Bits.{bit_or_above}
use hid_bootloader.Host.Update.{assemble}

-- The four `|` of UpdateFirmware give back a 32-bit value from its bytes.
pub assemble_lem :
    (b : Memory) (v : ℕ)
    → v < 2 ^ 32
    → b 0 ≡ v % 2 ^ 8
    → b 1 ≡ v / 2 ^ 8 % 2 ^ 8
    → b 2 ≡ v / 2 ^ 16 % 2 ^ 8
    → b 3 ≡ v / 2 ^ 24 % 2 ^ 8
    → assemble b ≡ v
unfolding assemble
assemble_lem b v h e0 e1 e2 e3 =
    let two : bit_or (b 0) (b 1 * 2 ^ 8) ≡ b 0 + b 1 * 2 ^ 8 =
      bit_or_above 8 (b 1) (b 0) (omega arith) in
    let three : bit_or (b 0 + b 1 * 2 ^ 8) (b 2 * 2 ^ 16) ≡ b 0 + b 1 * 2 ^ 8 + b 2 * 2 ^ 16 =
      bit_or_above 16 (b 2) (b 0 + b 1 * 2 ^ 8) (omega arith) in
    let four : bit_or (b 0 + b 1 * 2 ^ 8 + b 2 * 2 ^ 16) (b 3 * 2 ^ 24)
        ≡ b 0 + b 1 * 2 ^ 8 + b 2 * 2 ^ 16 + b 3 * 2 ^ 24 =
      bit_or_above 24 (b 3) (b 0 + b 1 * 2 ^ 8 + b 2 * 2 ^ 16) (omega arith) in
    rw (two, three, four) (omega arith)
