-- ===== src/Serial/Tests.antt =====
-- The serial number at concrete calibration bytes.
use hid_bootloader.Base.{ℕ, ◌+◌, ◌≡◌, ◌↔◌, refl, ltb, if◌then◌else◌, arith}
use hid_bootloader.Serial.{serial_text, usb_serial_text}
use hid_bootloader.Serial.Text.{serial_text_injective, usb_serial_text-eq_iff}

abbrev lot : ℕ → ℕ
lot i = i + 0x40

-- The same bytes, and nothing behind them.
abbrev lot_alone : ℕ → ℕ
lot_alone i = if ltb i 11 then i + 0x40 else 0

lot_alone_text : serial_text lot ≡ serial_text lot_alone
unfolding serial_text
lot_alone_text = refl

serial_text_injective_example : lot 6 ≡ lot_alone 6
serial_text_injective_example =
    serial_text_injective lot lot_alone (λ i h. (omega arith, ground arith)) lot_alone_text 6
      (omega arith)

usb_serial_text-eq_iff_example : (usb_serial_text lot ≡ serial_text lot) ↔ (lot 6 ≡ lot 7)
usb_serial_text-eq_iff_example = usb_serial_text-eq_iff lot (omega arith) (omega arith)
