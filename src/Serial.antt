-- ===== src/Serial.antt =====
-- The serial number as text, in the two places that build it: the command handler of
-- firmware/hid_bootloader/hid_bootloader.c, and firmware/hid_bootloader/serial_num.c.
pub mod Text
pub mod Tests
use hid_bootloader.Base.{
  ℕ, zero, suc, ◌+◌, ◌-◌, ◌/◌, ◌^◌, bit_and, u8, ltb, if◌then◌else◌, List, [], ◌∷◌, ◌++◌,
}

unfoldable pub hex_to_char : ℕ → ℕ
hex_to_char hex = if ltb hex 10 then u8 (hex + b'0') else u8 (hex + (b'A' - 10))

-- hex_to_char (b >> 4) and hex_to_char (b & 0x0F)
unfoldable pub hex_pair : ℕ → List ℕ
unfolding hex_to_char
hex_pair b = hex_to_char (b / 2 ^ 4) ∷ hex_to_char (bit_and b 0x0F) ∷ []

-- The loop over the calibration bytes, with the number of them that is left.
unfoldable pub hex_bytes : (ℕ → ℕ) → ℕ → ℕ → List ℕ
unfolding hex_pair
hex_bytes byte_at zero i = []
hex_bytes byte_at (suc left) i = hex_pair (byte_at i) ++ hex_bytes byte_at left (i + 1)

-- `case CMD_READ_SERIAL`: `byte_at i` is the calibration byte at LOTNUM0 + i.
unfoldable pub serial_text : (ℕ → ℕ) → List ℕ
unfolding hex_bytes
serial_text byte_at =
    hex_bytes byte_at 6 0 ++ b'-' ∷ hex_pair (byte_at 6) ++ b'-' ∷ hex_bytes byte_at 4 7 ++ 0 ∷ []

-- USB_init_build_usb_serial_number
unfoldable pub usb_serial_text : (ℕ → ℕ) → List ℕ
unfolding hex_bytes
usb_serial_text byte_at =
    hex_bytes byte_at 6 0 ++ b'-' ∷ hex_pair (byte_at 7) ++ b'-' ∷ hex_bytes byte_at 4 7 ++ 0 ∷ []
