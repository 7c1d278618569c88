-- ===== src/IntelHex/Print.antt =====
-- A printer of data records, and that it prints them.
use hid_bootloader.Base.{
  ℕ, suc, ◌+◌, ◌-◌, ◌*◌, ◌/◌, ◌%◌, ◌^◌, ◌<◌, ◌≡◌, refl, arith, Memory, ltb, ◌==◌, if◌then◌else◌,
  IsBytes,
}
use hid_bootloader.Serial.{hex_to_char}
use hid_bootloader.IntelHex.Records.{PrintsBytes}

-- The character `k` of a number of `n` digits.
abbrev pub digit_of : ℕ → ℕ → ℕ → ℕ
digit_of n v k = hex_to_char (v / 16 ^ (n - suc k) % 16)

-- The line of a data record, without its checksum.
abbrev pub printed : ℕ → ℕ → Memory → Memory
printed addr len bytes i =
    if i == 0
    then b':'
    else if ltb i 3
    then digit_of 2 len (i - 1)
    else if ltb i 7
    then digit_of 4 addr (i - 3)
    else if ltb i 9
    then digit_of 2 0 (i - 7)
    else digit_of 2 (bytes ((i - 9) / 2)) ((i - 9) % 2)

module _ (addr len : ℕ) (bytes : Memory) where
  length_digit : (k : ℕ) → k < 2 → printed addr len bytes (1 + k) ≡ digit_of 2 len k
  length_digit k h = grind arith

  address_digit : (k : ℕ) → k < 4 → printed addr len bytes (3 + k) ≡ digit_of 4 addr k
  address_digit k h = grind arith

  type_digit : (k : ℕ) → k < 2 → printed addr len bytes (7 + k) ≡ digit_of 2 0 k
  type_digit k h = grind arith

  data_digit : (j k : ℕ) → k < 2 → printed addr len bytes (9 + j * 2 + k) ≡ digit_of 2 (bytes j) k
  data_digit j k h = grind arith

  pub printed-PrintsBytes :
      addr < 2 ^ 16
      → len < 256
      → IsBytes len bytes
      → PrintsBytes (printed addr len bytes) addr len bytes
  printed-PrintsBytes small short ok = record {
    colon = refl;
    length_field = record { digit_at = length_digit; fits = omega arith };
    address_field = record { digit_at = address_digit; fits = omega arith };
    type_field = record { digit_at = type_digit; fits = omega arith };
    data_field = λ j h. record { digit_at = data_digit j; fits = omega (arith, ok j h) };
  }
