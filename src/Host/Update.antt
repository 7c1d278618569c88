-- ===== src/Host/Update.antt =====
-- UpdateFirmware and VerifyFirmware of pc/hid_bootloader/hid_bootloader.c.
use hid_bootloader.Base.{
  ℕ, zero, suc, ◌+◌, ◌-◌, ◌*◌, ◌/◌, ◌^◌, bit_or, ltb, leb, ◌==◌, if◌then◌else◌, Memory, copy, write,
  Bool, true, false, not,
}
use hid_bootloader.Protocol
use hid_bootloader.Protocol.{BlCommand, set_u16_0}
use hid_bootloader.Host.{
  Hid, done, fault, ◌>>=◌, pure, undefined, is_minus_one, firmware_buffer_size, hid_data_bytes,
  Image, M, write_report, execute_hid_command, execute_hid_command_with_response, execute_and_wait,
}

-- The little-endian value that the reply to CMD_READ_FLASH_CRCS starts with.
unfoldable pub assemble : Memory → ℕ
assemble buffer =
    bit_or (bit_or (bit_or (buffer 0) (buffer 1 * 2 ^ 8)) (buffer 2 * 2 ^ 16)) (buffer 3 * 2 ^ 24)

-- The bytes that one report carries, behind the report number 0.
abbrev pub report_from : Memory → ℕ → Memory → Memory
report_from firmware offset buffer = copy hid_data_bytes (write buffer 0 0) 1 firmware offset

module _ (hid : Hid) (image : Image) where
  -- The loop that sends one page, with the reports that are left and the offset of the next in the
  -- firmware: false is a failed write.
  unfoldable pub send_page : ℕ → ℕ → Memory → M hid (record { ok : Bool; buffer : Memory })
  send_page zero offset buffer w = done (record { ok = true; buffer = buffer }) w
  send_page (suc left) offset buffer w =
      let rest = send_page left (offset + hid_data_bytes) in
      (if ltb firmware_buffer_size (offset + hid_data_bytes) then undefined else do
        let filled = report_from image.firmware_buffer offset buffer
        res ← write_report hid filled
        if is_minus_one res then pure (record { ok = false; buffer = filled }) else rest filled)
        w

  -- The loop over the pages, with the pages that are left.
  unfoldable pub write_pages :
      ℕ → ℕ → BlCommand → Memory → M hid (record { ok : Bool; cmd : BlCommand; buffer : Memory })
  write_pages zero page cmd buffer w = done (record { ok = true; cmd = cmd; buffer = buffer }) w
  write_pages (suc left) page cmd buffer w =
      let rest = write_pages left (page + 1) in
      let reports = (image.page_size_b + (hid_data_bytes - 1)) / hid_data_bytes in
      (do
        sent ← send_page reports (page * image.page_size_b) buffer
        if not sent.ok
            then pure (record { ok = false; cmd = cmd; buffer = sent.buffer })
            else (let cmd' = set_u16_0 page (record cmd { command = Protocol.cmd_write_page }) in
                do
                  written ← execute_and_wait hid cmd'
                  if written
                      then rest cmd' sent.buffer
                      else pure (record { ok = false; cmd = cmd'; buffer = sent.buffer })))
        w

  -- The reading of the checksums, and the comparison.
  unfoldable pub check_crc : ℕ → BlCommand → Memory → M hid Bool
  check_crc fuel cmd buffer = do
    reply ←
        execute_hid_command_with_response hid fuel
          (record cmd { command = Protocol.cmd_read_flash_crcs }) buffer
    if not reply.ok then pure false else pure (assemble reply.buffer == image.firmware_crc)

  -- UpdateFirmware. `stack` is what the uninitialised buffer holds.
  unfoldable pub update_firmware : ℕ → Memory → M hid Bool
  update_firmware fuel stack = if image.page_size_b == 0 then undefined else do
    let num_pages = image.flash_size_b / image.page_size_b
    let erase : BlCommand = record { command = Protocol.cmd_erase_app_section; u32 = 0 }
    erased ← execute_and_wait hid erase
    if not erased then pure false else do
      let point = set_u16_0 0 (record erase { command = Protocol.cmd_set_pointer })
      pointed ← execute_hid_command hid point
      if not pointed then pure false else do
        written ← write_pages num_pages 0 point stack
        if not written.ok then pure false else check_crc fuel written.cmd written.buffer

  -- The comparison of one report with the firmware: `none` is a read outside the firmware buffer.
  unfoldable pub compare_bytes : Memory → ℕ → ℕ → ℕ → M hid Bool
  compare_bytes buffer zero i addr w = done true w
  compare_bytes buffer (suc left) i addr w =
      let rest = compare_bytes buffer left (i + 1) (addr + 1) in
      if leb firmware_buffer_size addr
      then fault
      else if buffer i == image.firmware_buffer addr
      then rest w
      else done false w

  -- The loop of VerifyFirmware with the reports that are left.
  unfoldable pub verify_loop : ℕ → ℕ → ℕ → Memory → M hid Bool
  verify_loop fuel zero addr buffer w = done true w
  verify_loop fuel (suc left) addr buffer w =
      let rest = verify_loop fuel left (addr + hid_data_bytes) in
      (do
        let cmd : BlCommand = record { command = Protocol.cmd_read_flash; u32 = addr }
        reply ← execute_hid_command_with_response hid fuel cmd buffer
        if not reply.ok then pure false else do
          same ← compare_bytes reply.buffer hid_data_bytes 0 addr
          if same then rest reply.buffer else pure false)
        w

  -- VerifyFirmware: one report for every 64 addresses below the size.
  unfoldable pub verify_firmware : ℕ → Memory → M hid Bool
  verify_firmware fuel stack =
      verify_loop fuel ((image.flash_size_b + (hid_data_bytes - 1)) / hid_data_bytes) 0 stack
