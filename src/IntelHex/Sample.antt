-- ===== src/IntelHex/Sample.antt =====
-- A small file: the embedded structure of an image of 256 bytes, for a chip whose signature ends in
-- a given byte, and the end record.
use hid_bootloader.Base.{
  ℕ, ◌-◌, ◌<◌, ◌≡◌, refl, arith, Memory, IsBytes, get_or, List, [], ◌∷◌, true,
}
use hid_bootloader.Serial.{hex_to_char}
use hid_bootloader.Host.{Image, firmware_buffer_size}
use hid_bootloader.IntelHex.{is_magic, loaded, read_hex_file, image_at}
use hid_bootloader.IntelHex.Digits.{Written}
use hid_bootloader.IntelHex.Records.{Record, bytes_at, other, PrintsOther}
use hid_bootloader.IntelHex.Described.{PrintsAll, InBuffer}
use hid_bootloader.IntelHex.Print.{printed, printed-PrintsBytes}
use hid_bootloader.IntelHex.Info.{First}
use hid_bootloader.IntelHex.File.{content, read_hex_file-described}

-- YamaNeko, version 1.0, the signature, 256 bytes of flash in pages of 128
abbrev pub header : ℕ → Memory
header sig i =
    get_or
      (0x59 ∷ 0x61 ∷ 0x6D ∷ 0x61 ∷ 0x4E ∷ 0x65 ∷ 0x6B ∷ 0x6F ∷ 1 ∷ 0 ∷ 0x1E ∷ 0x97 ∷ sig ∷ 0 ∷ 1 ∷ 0
        ∷ 0 ∷ 0x80 ∷ 0 ∷ [])
      i 0

pub header-IsBytes : (sig : ℕ) → sig < 256 → IsBytes 19 (header sig)
header-IsBytes sig small = λ i h. ground arith

-- :00000001FF
abbrev pub end_line : Memory
end_line i =
    get_or (0x3A ∷ 0x30 ∷ 0x30 ∷ 0x30 ∷ 0x30 ∷ 0x30 ∷ 0x30 ∷ 0x30 ∷ 0x31 ∷ 0x46 ∷ 0x46 ∷ []) i 0

end_type : Written end_line 7 2 1
unfolding hex_to_char
end_type = record { digit_at = λ k h. ground arith; fits = omega arith }

end_prints : PrintsOther end_line 1
end_prints = record { colon = refl; type_field = end_type; not_data = refl; not_segment = refl }

abbrev pub small_file : ℕ → List Memory
small_file sig = printed 0 19 (header sig) ∷ end_line ∷ []

abbrev pub small_records : ℕ → List Record
small_records sig = bytes_at 0 19 (header sig) ∷ other 1 ∷ []

pub small_file_prints : (sig : ℕ) → sig < 256 → PrintsAll (small_file sig) (small_records sig)
small_file_prints sig small = (
  printed-PrintsBytes 0 19 (header sig) (omega arith) (omega arith) (header-IsBytes sig small),
  (end_prints, tt),
)

pub small_records_inside : (sig : ℕ) → InBuffer (small_records sig) 0
small_records_inside sig = (omega arith, omega arith, tt)

magic_at_start : (sig : ℕ) → is_magic (content (small_records sig)) 0 ≡ true
unfolding is_magic
magic_at_start sig = refl

pub header-First : (sig : ℕ) → First (content (small_records sig)) (firmware_buffer_size - 8) 0 0
header-First sig = record {
  from = omega arith;
  below = omega arith;
  magic = magic_at_start sig;
  first = λ i p q. absurd (omega arith);
}

-- The image in the file.
abbrev pub small_image : ℕ → Image
small_image sig = image_at (content (small_records sig)) 0

pub small_file_loads :
    (sig : ℕ) → sig < 256 → read_hex_file (small_file sig) ≡ loaded (small_image sig)
small_file_loads sig small =
    read_hex_file-described (small_file sig) (small_records sig) 0 (small_file_prints sig small)
      (small_records_inside sig) (header-First sig) (omega arith) (omega arith)
