-- ===== src/TestImage/Tests.antt =====
-- The structure of the test image for the sample board, in an image that begins with it.
use hid_bootloader.Base.{ap, true, ◌+◌, ◌≡◌, arith, Memory, [], ◌∷◌, get_or}
use hid_bootloader.Crc.{xmega_nvm_crc32}
use hid_bootloader.Chip.Sample.{small_board}
use hid_bootloader.IntelHex.{loaded, finish_reading}
use hid_bootloader.TestImage.{firmware_info, Embeds, finish_reading-firmware_info}

abbrev test_image : Memory
test_image i = get_or (firmware_info small_board 0x1E 0x97 0x42) i 0

test_image-Embeds : Embeds test_image 0 (firmware_info small_board 0x1E 0x97 0x42)
unfolding Embeds firmware_info
test_image-Embeds i h = let same : 0 + i ≡ i = omega arith in ap test_image same

finish_reading-firmware_info_example :
    finish_reading true test_image
    ≡ loaded (record {
      firmware_buffer = test_image;
      firmware_crc = xmega_nvm_crc32 test_image 256;
      flash_size_b = 256;
      page_size_b = 128;
      mcu_signature = 0x1E ∷ 0x97 ∷ 0x42 ∷ [];
    })
finish_reading-firmware_info_example =
    finish_reading-firmware_info small_board 0x1E 0x97 0x42 test_image 0 test_image-Embeds
      (λ i h. absurd (omega arith)) (omega arith) (omega arith) (omega arith)
