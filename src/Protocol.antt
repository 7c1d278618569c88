-- ===== src/Protocol.antt =====
-- firmware/hid_bootloader/protocol.h and pc/hid_bootloader/bootloader.h: the command codes, and the
-- feature reports that carry a command to the device and its status back.
pub mod Wire
pub mod Tests
use hid_bootloader.Base.{ℕ, ◌+◌, ◌*◌, ◌/◌, ◌%◌, ◌^◌, u8, u16, List, [], ◌∷◌, get_or}

abbrev pub cmd_nop : ℕ
cmd_nop = 0x00

abbrev pub cmd_set_pointer : ℕ
cmd_set_pointer = 0x01

abbrev pub cmd_read_flash : ℕ
cmd_read_flash = 0x02

abbrev pub cmd_erase_app_section : ℕ
cmd_erase_app_section = 0x03

abbrev pub cmd_read_flash_crcs : ℕ
cmd_read_flash_crcs = 0x04

abbrev pub cmd_read_mcu_ids : ℕ
cmd_read_mcu_ids = 0x05

abbrev pub cmd_read_fuses : ℕ
cmd_read_fuses = 0x06

abbrev pub cmd_write_page : ℕ
cmd_write_page = 0x07

abbrev pub cmd_erase_user_sig_row : ℕ
cmd_erase_user_sig_row = 0x09

abbrev pub cmd_write_user_sig_row : ℕ
cmd_write_user_sig_row = 0x0A

abbrev pub cmd_read_user_sig_row : ℕ
cmd_read_user_sig_row = 0x0B

abbrev pub cmd_read_serial : ℕ
cmd_read_serial = 0x0C

abbrev pub cmd_reset_mcu : ℕ
cmd_reset_mcu = 0x0E

abbrev pub cmd_read_eeprom : ℕ
cmd_read_eeprom = 0x0F

abbrev pub cmd_write_eeprom_page : ℕ
cmd_write_eeprom_page = 0x10

abbrev pub cmd_read_eeprom_crc : ℕ
cmd_read_eeprom_crc = 0x11

-- BLCOMMAND_t without the report number, which is 0 in every command that the host sends. The union
-- of parameters is kept as its 32-bit view.
pub record BlCommand : Type 0 where
  pub command : ℕ
  pub u32 : ℕ

-- params.u16[0], the low half: both machines store the low byte first.
abbrev pub u16_0 : BlCommand → ℕ
u16_0 c = c.u32 % 2 ^ 16

-- params.u16[0] = v leaves the high half of the union.
abbrev pub set_u16_0 : ℕ → BlCommand → BlCommand
set_u16_0 v c = record c { u32 = c.u32 / 2 ^ 16 * 2 ^ 16 + u16 v }

-- The packed structure as the host passes it on, report number first.
unfoldable pub command_bytes : BlCommand → List ℕ
command_bytes c =
    0
    ∷ c.command
    ∷ c.u32 % 2 ^ 8
    ∷ c.u32 / 2 ^ 8 % 2 ^ 8
    ∷ c.u32 / 2 ^ 16 % 2 ^ 8
    ∷ c.u32 / 2 ^ 24 % 2 ^ 8
    ∷ []

-- The cast of the five received bytes, `BLCOMMAND_t *cmd = (BLCOMMAND_t *)report`.
unfoldable pub command_of : List ℕ → BlCommand
command_of report = record {
  command = get_or report 0 0;
  u32 =
      get_or report 1 0
      + get_or report 2 0 * 2 ^ 8
      + get_or report 3 0 * 2 ^ 16
      + get_or report 4 0 * 2 ^ 24;
}

-- BLSTATUS_t without the report number, and the device's `feature_response`.
pub record BlStatus : Type 0 where
  pub version : ℕ
  pub busy_flags : ℕ
  pub page_ptr : ℕ
  pub result : ℕ

-- The five bytes of `feature_response` in memory.
unfoldable pub status_bytes : BlStatus → List ℕ
status_bytes s =
    s.version ∷ s.busy_flags ∷ s.page_ptr % 2 ^ 8 ∷ s.page_ptr / 2 ^ 8 % 2 ^ 8 ∷ s.result ∷ []

-- The packed structure that the host reads behind the report number.
unfoldable pub status_of : List ℕ → BlStatus
status_of report = record {
  version = get_or report 0 0;
  busy_flags = get_or report 1 0;
  page_ptr = get_or report 2 0 + get_or report 3 0 * 2 ^ 8;
  result = get_or report 4 0;
}
