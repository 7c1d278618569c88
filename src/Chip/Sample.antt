-- ===== src/Chip/Sample.antt =====
-- A concrete chip: an application section of two pages of 128 bytes.
use hid_bootloader.Base.{Memory, true, not, [], ◌∷◌, get_or, ltb, ◌==◌, copy, if◌then◌else◌}
use hid_bootloader.Crc.{xmega_nvm_crc32}
use hid_bootloader.Chip.{Board, Chip}

abbrev pub small_board : Board
small_board = record {
  app_section_start = 0;
  app_section_size = 256;
  app_section_page_size = 128;
  eeprom_size = 64;
  eeprom_page_size = 32;
  user_signatures_page_size = 128;
  lotnum0 = 8;
  nvm_fload_bm = 2;
  has_fuse = λ i. not (i == 3);
}

-- Flash and the controller's page buffer.
pub record Silicon : Type 0 where
  pub cells : Memory
  pub page : Memory

abbrev pub small_chip : Chip
small_chip = record {
  board = small_board;
  Hw = Silicon;
  wait_for_spm = λ h. h;
  erase_application_section = λ h. record h { cells = λ a. if ltb a 256 then 255 else h.cells a };
  erase_user_signature_row = λ h. h;
  write_user_signature_row = λ h. h;
  load_flash_page = λ m h. record h { page = m };
  write_application_page = λ address h. record h { cells = copy 128 h.cells address h.page 0 };
  application_crc = λ h. xmega_nvm_crc32 h.cells 256;
  boot_crc = λ h. 0;
  read_fuse_byte = λ i h. 255;
  read_user_signature_byte = λ i h. 255;
  read_calibration_byte = λ i h. i;
  flash = λ h. h.cells;
  mcu_id = λ h i. get_or (0x1E ∷ 0x97 ∷ 0x42 ∷ 0x01 ∷ []) i 0;
  nvm_status = λ h. 0;
  nvm_access = λ a h. h;
  mapped_eeprom = λ h i. 255;
  crc_access = λ a h. h;
  crc_checksum = λ h i. 0;
  start_watchdog = λ h. h;
  run_in_endpoint = λ m h. (true, h);
}
