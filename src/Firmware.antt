-- ===== src/Firmware.antt =====
-- firmware/hid_bootloader/hid_bootloader.c: the handlers of the three HID reports, over the globals
-- `page_buffer`, `page_ptr` and `feature_response`.
pub mod Buffer
pub mod Commands
pub mod Tests
use hid_bootloader.Base.{
  ℕ, zero, suc, ◌+◌, ◌-◌, ◌*◌, ◌/◌, ◌%◌, ◌^◌, bit_and, u8, u16, u32, ltb, leb, ◌==◌, if◌then◌else◌,
  ◌&&◌, not, Memory, copy, overlay, List, [], ◌∷◌, Bool, true, false, Option, none, some,
}
use hid_bootloader.Protocol
use hid_bootloader.Protocol.{BlCommand, BlStatus, command_of, status_bytes, u16_0}
use hid_bootloader.Eeprom.{
  NvmAccess, enable_mapping, disable_mapping, load_page_buffer, atomic_write_page, load_bytes,
}
use hid_bootloader.Serial.{serial_text}
use hid_bootloader.Chip.{Chip, CrcAccess, reset1, source_flash_crc32, clear_busy, datain}

abbrev pub udi_hid_report_out_size : ℕ
udi_hid_report_out_size = 64

abbrev pub udi_hid_report_in_size : ℕ
udi_hid_report_in_size = 64

-- The globals, the buffer of the IN report with the flag that it is free, and the hardware.
pub record State (Hw : Type 0) : Type 0 where
  pub page_buffer : Memory
  pub page_ptr : ℕ
  pub feature_response : BlStatus
  pub report_in_free : Bool
  pub report_in : Memory
  pub hw : Hw

-- How a case of the switch ends: `return`, or `break` to the sending of `response`.
pub data Handled (Hw : Type 0) : Type 0 where
  returns : State Hw → Handled Hw
  breaks : Memory → State Hw → Handled Hw

-- The bytes of a 32-bit value in memory.
abbrev pub u32_bytes : ℕ → List ℕ → List ℕ
u32_bytes v rest = v % 2 ^ 8 ∷ v / 2 ^ 8 % 2 ^ 8 ∷ v / 2 ^ 16 % 2 ^ 8 ∷ v / 2 ^ 24 % 2 ^ 8 ∷ rest

module _ (chip : Chip) where
  abbrev pub Device : Type 0
  Device = State chip.Hw

  -- HID_report_out. `none` is a write past the end of `page_buffer`.
  unfoldable pub hid_report_out : Memory → Device → Option Device
  hid_report_out report s =
      if leb (s.page_ptr + udi_hid_report_out_size)
        (chip.app_section_page_size + udi_hid_report_out_size)
      then some (record s {
        page_buffer = copy udi_hid_report_out_size s.page_buffer s.page_ptr report 0;
        page_ptr =
            bit_and (u16 (s.page_ptr + udi_hid_report_out_size)) (chip.app_section_page_size - 1);
      })
      else none

  -- HID_get_feature_report_out: the payload, and the state with the refreshed response.
  unfoldable pub hid_get_feature_report_out : Device → List ℕ × Device
  hid_get_feature_report_out s =
      let response = record s.feature_response {
        busy_flags = bit_and (chip.nvm_status s.hw) (255 - chip.nvm_fload_bm);
        page_ptr = s.page_ptr;
      } in
      (status_bytes response, record s { feature_response = response })

  abbrev with_hw : Device → chip.Hw → Device
  with_hw s hw = record s { hw = hw }

  -- feature_response.result = -1
  abbrev pub fail : Device → Device
  fail s = record s { feature_response = record s.feature_response { result = 255 } }

  -- NVM and CRC register accesses, in order.
  unfoldable pub run_nvm : List NvmAccess → chip.Hw → chip.Hw
  run_nvm [] hw = hw
  run_nvm (a ∷ rest) hw = run_nvm rest (chip.nvm_access a hw)

  -- `while (i--) CRC.DATAIN = *ptr++`
  unfoldable pub feed_crc : ℕ → ℕ → chip.Hw → chip.Hw
  feed_crc zero ptr hw = hw
  feed_crc (suc i) ptr hw =
      feed_crc i (ptr + 1) (chip.crc_access (datain (chip.mapped_eeprom hw ptr)) hw)

  unfoldable pub read_flash : ℕ → Memory → Device → Handled chip.Hw
  read_flash address response s =
      if ltb chip.app_section_size address
      then returns (fail s)
      else breaks (copy 64 response 0 (chip.flash s.hw) address) s

  unfoldable pub erase_app_section : Device → Handled chip.Hw
  erase_app_section s =
      returns (with_hw s (chip.erase_application_section (chip.wait_for_spm s.hw)))

  unfoldable pub read_flash_crcs : Memory → Device → Handled chip.Hw
  read_flash_crcs response s =
      let hw = chip.wait_for_spm s.hw in
      breaks
        (overlay (u32_bytes (chip.application_crc hw) (u32_bytes (chip.boot_crc hw) (0xA5 ∷ [])))
          response)
        (with_hw s hw)

  unfoldable pub read_mcu_ids : Memory → Device → Handled chip.Hw
  read_mcu_ids response s =
      let id = chip.mcu_id s.hw in breaks (overlay (id 0 ∷ id 1 ∷ id 2 ∷ id 3 ∷ []) response) s

  -- A fuse byte that the chip does not have reads as 0.
  unfoldable pub fuse : chip.Hw → ℕ → ℕ
  fuse hw i = if chip.has_fuse i then chip.read_fuse_byte i hw else 0

  unfoldable pub read_fuses : Memory → Device → Handled chip.Hw
  read_fuses response s =
      let f = fuse s.hw in breaks (overlay (f 0 ∷ f 1 ∷ f 2 ∷ f 3 ∷ f 4 ∷ f 5 ∷ []) response) s

  unfoldable pub write_page : ℕ → Memory → Device → Handled chip.Hw
  write_page page response s =
      if ltb (chip.app_section_size / chip.app_section_page_size) page
      then returns (fail s)
      else (let loaded = chip.load_flash_page s.page_buffer (chip.wait_for_spm s.hw) in
          let address = u32 (chip.app_section_start + u32 (page * chip.app_section_page_size)) in
          breaks response
            (record s { page_ptr = 0; hw = chip.write_application_page address loaded }))

  unfoldable pub erase_user_sig_row : Memory → Device → Handled chip.Hw
  erase_user_sig_row response s =
      breaks response (with_hw s (chip.erase_user_signature_row (chip.wait_for_spm s.hw)))

  unfoldable pub write_user_sig_row : Memory → Device → Handled chip.Hw
  write_user_sig_row response s =
      let loaded = chip.load_flash_page s.page_buffer (chip.wait_for_spm s.hw) in
      breaks response (with_hw s (chip.write_user_signature_row loaded))

  unfoldable pub read_user_sig_row : ℕ → Memory → Device → Handled chip.Hw
  read_user_sig_row start response s =
      if ltb chip.user_signatures_page_size start
      then returns (fail s)
      else breaks
          (λ i.
            if ltb i udi_hid_report_out_size
            then chip.read_user_signature_byte (u16 (start + i)) s.hw
            else response i)
          s

  unfoldable pub read_serial : Memory → Device → Handled chip.Hw
  read_serial response s =
      breaks
        (overlay (serial_text (λ i. chip.read_calibration_byte (u8 (chip.lotnum0 + i)) s.hw))
          response)
        s

  unfoldable pub reset_mcu : Memory → Device → Handled chip.Hw
  reset_mcu response s = breaks response (with_hw s (chip.start_watchdog s.hw))

  unfoldable pub read_eeprom : ℕ → Memory → Device → Handled chip.Hw
  read_eeprom offset response s =
      if ltb chip.eeprom_size offset
      then returns (fail s)
      else (let mapped = chip.nvm_access enable_mapping s.hw in
          breaks (copy 64 response 0 (chip.mapped_eeprom mapped) offset)
            (with_hw s (chip.nvm_access disable_mapping mapped)))

  -- The `if` has no braces and no `return`: it guards the loading of the page buffer alone. The page
  -- size and the page number are passed as `uint8_t`.
  unfoldable pub write_eeprom_page : ℕ → Memory → Device → Handled chip.Hw
  write_eeprom_page page response s =
      let load = load_page_buffer chip.eeprom_page_size s.page_buffer (u8 chip.eeprom_page_size) in
      let loaded =
        if ltb (chip.eeprom_size / chip.eeprom_page_size) page then run_nvm load s.hw else s.hw in
      breaks response
        (with_hw s (run_nvm (atomic_write_page chip.eeprom_page_size (u8 page)) loaded))

  unfoldable pub read_eeprom_crc : Memory → Device → Handled chip.Hw
  read_eeprom_crc response s =
      let reset = chip.crc_access source_flash_crc32 (chip.crc_access reset1 s.hw) in
      let fed = feed_crc (u16 chip.eeprom_size) 0 (chip.nvm_access enable_mapping reset) in
      let done = chip.crc_access clear_busy (chip.nvm_access disable_mapping fed) in
      let sum = chip.crc_checksum done in
      breaks (overlay (sum 0 ∷ sum 1 ∷ sum 2 ∷ sum 3 ∷ []) response) (with_hw s done)

  -- The switch. `response` holds what the stack held.
  unfoldable pub execute : ℕ → ℕ → Memory → Device → Handled chip.Hw
  execute command p response s =
      if command == Protocol.cmd_nop
      then returns s
      else if command == Protocol.cmd_set_pointer
      then returns (record s { page_ptr = p % 2 ^ 16 })
      else if command == Protocol.cmd_read_flash
      then read_flash p response s
      else if command == Protocol.cmd_erase_app_section
      then erase_app_section s
      else if command == Protocol.cmd_read_flash_crcs
      then read_flash_crcs response s
      else if command == Protocol.cmd_read_mcu_ids
      then read_mcu_ids response s
      else if command == Protocol.cmd_read_fuses
      then read_fuses response s
      else if command == Protocol.cmd_write_page
      then write_page (p % 2 ^ 16) response s
      else if command == Protocol.cmd_erase_user_sig_row
      then erase_user_sig_row response s
      else if command == Protocol.cmd_write_user_sig_row
      then write_user_sig_row response s
      else if command == Protocol.cmd_read_user_sig_row
      then read_user_sig_row (p % 2 ^ 16) response s
      else if command == Protocol.cmd_read_serial
      then read_serial response s
      else if command == Protocol.cmd_reset_mcu
      then reset_mcu response s
      else if command == Protocol.cmd_read_eeprom
      then read_eeprom (p % 2 ^ 16) response s
      else if command == Protocol.cmd_write_eeprom_page
      then write_eeprom_page (p % 2 ^ 16) response s
      else if command == Protocol.cmd_read_eeprom_crc
      then read_eeprom_crc response s
      else returns (fail s)

  -- udi_hid_generic_send_report_in: nothing is sent while the last report is under way.
  unfoldable pub udi_hid_generic_send_report_in : Memory → Device → Bool × Device
  udi_hid_generic_send_report_in report s =
      if not s.report_in_free
      then (false, s)
      else (let filled = copy udi_hid_report_in_size (λ i. 0) 0 report 0 in
          let (accepted, hw) = chip.run_in_endpoint filled s.hw in
          (accepted, record s { report_in = filled; report_in_free = not accepted; hw = hw }))

  unfoldable pub finish : Handled chip.Hw → Device
  finish (returns s) = s
  finish (breaks response s) = (udi_hid_generic_send_report_in response s).1

  -- HID_set_feature_report_out
  unfoldable pub hid_set_feature_report_out : List ℕ → Memory → Device → Device
  hid_set_feature_report_out report stack s =
      let cmd = command_of report in
      let cleared = record s { feature_response = record s.feature_response { result = 0 } } in
      finish (execute cmd.command cmd.u32 stack cleared)
