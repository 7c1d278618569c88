-- ===== src/Firmware/Buffer.antt =====
-- The page buffer and its pointer under HID_report_out.
use hid_bootloader.Base.{
  ℕ, ◌+◌, ◌-◌, ◌%◌, ◌^◌, ◌≤◌, ◌<◌, ◌≡◌, ◌↔◌, arith, Memory, true, none, some, leb, copy, bit_and,
  u16,
}
use hid_bootloader.Base.Bits.{bit_and_mask}
use hid_bootloader.Chip.{Chip}
use hid_bootloader.Firmware.{Device, hid_report_out}

module _ (chip : Chip) (report : Memory) (s : Device chip) where
  -- A report that fits the rest of a page is stored at the pointer, which moves on by its size and
  -- from the end of the page back to the start.
  pub hid_report_out_lem :
      (width : ℕ)
      → chip.app_section_page_size ≡ 2 ^ width
      → chip.app_section_page_size < 2 ^ 16
      → s.page_ptr + 64 ≤ chip.app_section_page_size
      → hid_report_out chip report s
        ≡ some (record s {
          page_buffer = copy 64 s.page_buffer s.page_ptr report 0;
          page_ptr = (s.page_ptr + 64) % chip.app_section_page_size;
        })
  unfolding hid_report_out
  hid_report_out_lem width pow small room =
      let mask : bit_and (s.page_ptr + 64) (chip.app_section_page_size - 1)
          ≡ (s.page_ptr + 64) % chip.app_section_page_size =
        rw pow (bit_and_mask width (s.page_ptr + 64)) in
      let fits : u16 (s.page_ptr + 64) ≡ s.page_ptr + 64 = omega arith in
      let guard : leb (s.page_ptr + 64) (chip.app_section_page_size + 64) ≡ true = ground arith in
      rw (guard, fits, mask)

  -- The handler itself tests nothing: it writes past the end of the array exactly when the pointer is
  -- beyond the page.
  pub hid_report_out-none_iff :
      (hid_report_out chip report s ≡ none) ↔ (chip.app_section_page_size < s.page_ptr)
  unfolding hid_report_out
  hid_report_out-none_iff = ground arith
