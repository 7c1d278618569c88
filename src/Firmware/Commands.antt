-- ===== src/Firmware/Commands.antt =====
-- Where the tests of single commands let too much through.
use hid_bootloader.Base.{
  ℕ, ◌+◌, ◌*◌, ◌/◌, ◌%◌, ◌^◌, ◌≤◌, ◌<◌, ◌≡◌, refl, ap, ◌∙◌, arith, Memory, false, none, u32, ltb,
  le→ltb, inl, inr, Bool-cases,
}
use native.Mathlib.Nat.{mul-div_cancel}
use hid_bootloader.Protocol
use hid_bootloader.Protocol.{command_of}
use hid_bootloader.Chip.{Chip}
use hid_bootloader.Firmware.{
  Device, breaks, execute, finish, hid_report_out, write_page, write_eeprom_page,
  udi_hid_generic_send_report_in,
}
use hid_bootloader.Firmware.Buffer.{hid_report_out-none_iff}

module _ (chip : Chip) (stack : Memory) (s : Device chip) where
  -- On a board whose application section starts at 0 and is a whole number of pages, the page number
  -- that equals that number passes the test of CMD_WRITE_PAGE: the page buffer is loaded and written
  -- at the first address behind the section.
  pub write_page_behind_section :
      (pages : ℕ)
      → chip.app_section_start ≡ 0
      → 0 < chip.app_section_page_size
      → chip.app_section_size ≡ pages * chip.app_section_page_size
      → chip.app_section_size < 2 ^ 32
      → write_page chip pages stack s
        ≡ breaks stack (record s {
          page_ptr = 0;
          hw =
              chip.write_application_page chip.app_section_size
                (chip.load_flash_page s.page_buffer (chip.wait_for_spm s.hw));
        })
  unfolding write_page
  write_page_behind_section pages start pos size small =
      let count : chip.app_section_size / chip.app_section_page_size ≡ pages =
        ap (λ (t : ℕ). t / chip.app_section_page_size) size ∙ mul-div_cancel pages pos in
      let guard : ltb (chip.app_section_size / chip.app_section_page_size) pages ≡ false =
        rw count (le→ltb pages pages (omega arith)) in
      let address : u32 (chip.app_section_start + u32 (pages * chip.app_section_page_size))
          ≡ chip.app_section_size =
        omega arith in
      rw (guard, address)

  -- For a page number in its range, CMD_WRITE_EEPROM_PAGE does not pass on what was received: whatever
  -- the page buffer holds, the hardware is left in the same state.
  pub write_eeprom_page_ignores :
      (p : ℕ) (m : Memory)
      → p % 2 ^ 16 ≤ chip.eeprom_size / chip.eeprom_page_size
      → (finish chip
          (execute chip Protocol.cmd_write_eeprom_page p stack (record s { page_buffer = m }))).hw
        ≡ (finish chip (execute chip Protocol.cmd_write_eeprom_page p stack s)).hw
  unfolding execute finish write_eeprom_page udi_hid_generic_send_report_in
  write_eeprom_page_ignores p m h = elim (Bool-cases s.report_in_free) [
    | inl free ↦ rw (le→ltb _ _ h, free) refl
    | inr busy ↦ rw (le→ltb _ _ h, busy) refl
  ]

  -- CMD_SET_POINTER takes any 16-bit value. Beyond a page, the next OUT report is written past the end
  -- of the page buffer.
  pub set_pointer_overruns :
      (p : ℕ) (report : Memory)
      → chip.app_section_page_size < p % 2 ^ 16
      → hid_report_out chip report (finish chip (execute chip Protocol.cmd_set_pointer p stack s))
        ≡ none
  unfolding execute finish
  set_pointer_overruns p report h =
      (hid_report_out-none_iff chip report (record s { page_ptr = p % 2 ^ 16 })).1 h
