-- ===== src/Chip.antt =====
-- What the firmware uses of the chip, of the Atmel self-programming driver (sp_driver.S) and of the
-- Atmel USB stack, none of which it implements: the sizes that the device header gives, and
-- operations on a state of the hardware.
pub mod Sample
use hid_bootloader.Base.{ℕ, Bool, Memory}
use hid_bootloader.Eeprom.{NvmAccess}

-- Writes to the registers of the CRC module.
pub data CrcAccess : Type 0 where
  reset1 source_flash_crc32 clear_busy : CrcAccess
  datain : ℕ → CrcAccess

-- The sizes and constants of the device header.
pub record Board : Type 0 where
  pub app_section_start : ℕ
  pub app_section_size : ℕ
  pub app_section_page_size : ℕ
  pub eeprom_size : ℕ
  pub eeprom_page_size : ℕ
  pub user_signatures_page_size : ℕ
  -- offsetof (NVM_PROD_SIGNATURES_t, LOTNUM0)
  pub lotnum0 : ℕ
  -- the loading flag in NVM.STATUS
  pub nvm_fload_bm : ℕ
  -- whether FUSE_FUSEBYTEn is defined
  pub has_fuse : ℕ → Bool

pub record Chip : Type 1 where
  pub board : Board
  pub open board use *
  pub Hw : Type 0
  -- SP_WaitForSPM and the other routines of the driver
  pub wait_for_spm : Hw → Hw
  pub erase_application_section : Hw → Hw
  pub erase_user_signature_row : Hw → Hw
  pub write_user_signature_row : Hw → Hw
  pub load_flash_page : Memory → Hw → Hw
  pub write_application_page : ℕ → Hw → Hw
  pub application_crc : Hw → ℕ
  pub boot_crc : Hw → ℕ
  pub read_fuse_byte : ℕ → Hw → ℕ
  pub read_user_signature_byte : ℕ → Hw → ℕ
  pub read_calibration_byte : ℕ → Hw → ℕ
  -- what memcpy_PF reads
  pub flash : Hw → Memory
  -- MCU.DEVID0, DEVID1, DEVID2 and REVID
  pub mcu_id : Hw → Memory
  pub nvm_status : Hw → ℕ
  pub nvm_access : NvmAccess → Hw → Hw
  -- what stands at MAPPED_EEPROM_START
  pub mapped_eeprom : Hw → Memory
  pub crc_access : CrcAccess → Hw → Hw
  -- CRC.CHECKSUM0 to CHECKSUM3
  pub crc_checksum : Hw → Memory
  -- ccp_write_io on WDT.CTRL
  pub start_watchdog : Hw → Hw
  -- udd_ep_run on the IN endpoint: whether the transfer was accepted
  pub run_in_endpoint : Memory → Hw → Bool × Hw
