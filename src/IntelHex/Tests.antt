-- ===== src/IntelHex/Tests.antt =====
-- The theorems on the reader at the sample file.
use hid_bootloader.Base.{◌+◌, ◌-◌, ◌≡◌, ◌↔◌, arith, some, if◌then◌else◌, ◌==◌}
use hid_bootloader.Host.{firmware_buffer_size}
use hid_bootloader.IntelHex.{
  Loader, next, read_lines, exit, overrun, read_base16, read_line, find_embedded_info, loaded,
  read_hex_file, image_at,
}
use hid_bootloader.IntelHex.Digits.{read_base16-Written}
use hid_bootloader.IntelHex.Records.{PrintsBytes}
use hid_bootloader.IntelHex.Print.{printed, printed-PrintsBytes}
use hid_bootloader.IntelHex.Info.{First, find_embedded_info_iff}
use hid_bootloader.IntelHex.Described.{described, read_lines-described}
use hid_bootloader.IntelHex.File.{content, read_hex_file-described, read_line_behind}
use hid_bootloader.IntelHex.Sample.{
  header, header-IsBytes, small_file, small_records, small_file_prints, small_records_inside,
  header-First,
}

abbrev empty : Loader
empty = record { firmware_buffer = λ a. 0xFF; firmware_size = 0; base_addr = 0 }

read_base16-Written_example : read_base16 (printed 0 19 (header 0x42)) 1 2 ≡ 19
read_base16-Written_example =
    read_base16-Written (printed 0 19 (header 0x42)) 1 2 19 (omega arith)
      (small_file_prints 0x42 (omega arith)).0.length_field

read_lines-described_example :
    (l' : Loader) × (read_lines (small_file 0x42) empty ≡ next l')
    × (l'.firmware_buffer ≡ described (small_records 0x42) 0 (λ a. 0xFF))
read_lines-described_example =
    read_lines-described (small_file 0x42) (small_records 0x42) empty
      (small_file_prints 0x42 (omega arith)) (small_records_inside 0x42)

find_embedded_info_iff_example :
    (find_embedded_info (content (small_records 0x42)) ≡ some 0)
    ↔ First (content (small_records 0x42)) (firmware_buffer_size - 8) 0 0
find_embedded_info_iff_example = find_embedded_info_iff (content (small_records 0x42)) 0

read_hex_file-described_example :
    read_hex_file (small_file 0x42) ≡ loaded (image_at (content (small_records 0x42)) 0)
read_hex_file-described_example =
    read_hex_file-described (small_file 0x42) (small_records 0x42) 0
      (small_file_prints 0x42 (omega arith)) (small_records_inside 0x42) (header-First 0x42)
      (omega arith) (omega arith)

-- A loader whose segment starts 16 bytes below the end of the buffer.
abbrev near_end : Loader
near_end = record { firmware_buffer = λ a. 0xFF; firmware_size = 0; base_addr = 266224 }

last_prints : PrintsBytes (printed 16 1 (header 0x42)) 16 1 (header 0x42)
last_prints =
    printed-PrintsBytes 16 1 (header 0x42) (omega arith) (omega arith)
      (λ i h. header-IsBytes 0x42 (omega arith) i (omega arith))

read_line_behind_example :
    read_line (printed 16 1 (header 0x42)) near_end
    ≡ (if 266224 + 16 == firmware_buffer_size then overrun else exit)
read_line_behind_example =
    read_line_behind (printed 16 1 (header 0x42)) 16 1 (header 0x42) near_end last_prints
      (omega arith) (omega arith) (omega arith)
