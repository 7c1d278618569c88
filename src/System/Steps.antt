-- ===== src/System/Steps.antt =====
-- What each command of an update does to the device, as the rest of the update sees it.
use mathlib.Core.List.{tail}
use hid_bootloader.Base.{
  ℕ, ◌+◌, ◌-◌, ◌*◌, ◌/◌, ◌%◌, ◌^◌, ◌≤◌, ◌<◌, ◌≡◌, refl, ap, ◌∙◌, arith, Memory, true, false, [],
  ◌∷◌, u32, ltb, copy, overlay,
}
use hid_bootloader.Protocol.{
  BlCommand, command_bytes, cmd_erase_app_section, cmd_set_pointer, cmd_write_page,
  cmd_read_flash_crcs, cmd_read_flash,
}
use hid_bootloader.Protocol.Wire.{command_of-command_bytes}
use hid_bootloader.Chip.{Chip}
use hid_bootloader.Firmware.{
  Device, hid_get_feature_report_out, hid_set_feature_report_out, execute, finish,
  erase_app_section, write_page, read_flash_crcs, read_flash, breaks,
  udi_hid_generic_send_report_in, u32_bytes,
}
use hid_bootloader.System.{FlashLaws, delivered}

module _ (chip : Chip) where
  abbrev pub cleared : Device chip → Device chip
  cleared s = record s { feature_response = record s.feature_response { result = 0 } }

  -- The handler sees the command that the host packed.
  pub handle_command :
      (c : BlCommand) (stack : Memory) (s : Device chip)
      → c.u32 < 2 ^ 32
      → hid_set_feature_report_out chip (tail (command_bytes c)) stack s
        ≡ finish chip (execute chip c.command c.u32 stack (cleared s))
  handle_command c stack s h =
      unfold hid_set_feature_report_out in rw (command_of-command_bytes c h)

  -- Between commands the IN buffer is free, and the flash holds `content`.
  pub record Holds (content : Memory) (pointer : ℕ) (d : Device chip) : Type 0 where
    pub free : d.report_in_free ≡ true
    pub points : d.page_ptr ≡ pointer
    pub holds : (a : ℕ) → a < chip.app_section_size → chip.flash d.hw a ≡ content a

  -- The reading of the status changes none of that.
  pub refreshed-Holds :
      {content : Memory} {pointer : ℕ} {d : Device chip}
      → Holds content pointer d
      → Holds content pointer (hid_get_feature_report_out chip d).1
  unfolding hid_get_feature_report_out
  refreshed-Holds h = record { free = h.free; points = h.points; holds = h.holds }

  -- The device after a reply was started.
  abbrev pub replied : Memory → Device chip → Device chip
  replied response d = record d {
    report_in_free = false;
    report_in = copy 64 (λ i. 0) 0 response 0;
    hw = (chip.run_in_endpoint (copy 64 (λ i. 0) 0 response 0) d.hw).1;
  }

  pub send_reply :
      (laws : FlashLaws chip) (response : Memory) (d : Device chip)
      → d.report_in_free ≡ true
      → finish chip (breaks response d) ≡ replied response d
  unfolding finish udi_hid_generic_send_report_in
  send_reply laws response d free =
      rw (free, laws.endpoint_accepts (copy 64 (λ i. 0) 0 response 0) d.hw)

  module _ (laws : FlashLaws chip) (stack : Memory) (s : Device chip) where
    pub erase_effect :
        (p : ℕ)
        → p < 2 ^ 32
        → let d =
            hid_set_feature_report_out chip
              (tail (command_bytes (record { command = cmd_erase_app_section; u32 = p })))
              stack
              s in
          (d.feature_response.result ≡ 0)
          × (d.report_in_free ≡ s.report_in_free)
          × Holds (λ a. 255) s.page_ptr (delivered d)
    erase_effect p h =
        rw (handle_command (record { command = cmd_erase_app_section; u32 = p }) stack s h) (
          unfold execute finish erase_app_section in
          (
            refl,
            refl,
            record { free = refl; points = refl; holds = λ a k. laws.flash_erase _ a k },
          ))

    pub set_pointer_effect :
        (p : ℕ)
        → p < 2 ^ 32
        → let d =
            hid_set_feature_report_out chip
              (tail (command_bytes (record { command = cmd_set_pointer; u32 = p })))
              stack
              s in
          (d.feature_response.result ≡ 0)
          × (d.report_in_free ≡ s.report_in_free)
          × (d.page_ptr ≡ p % 2 ^ 16)
          × (d.hw ≡ s.hw)
    set_pointer_effect p h =
        rw (handle_command (record { command = cmd_set_pointer; u32 = p }) stack s h)
          (unfold execute finish in (refl, refl, refl, refl))

    module _ (free : s.report_in_free ≡ true) where
      write_page_handled :
          (p address : ℕ)
          → p < 2 ^ 32
          → ltb (chip.app_section_size / chip.app_section_page_size) (p % 2 ^ 16) ≡ false
          → u32 (chip.app_section_start + u32 (p % 2 ^ 16 * chip.app_section_page_size)) ≡ address
          → hid_set_feature_report_out chip
              (tail (command_bytes (record { command = cmd_write_page; u32 = p })))
              stack
              s
            ≡ replied stack (record (cleared s) {
              page_ptr = 0;
              hw =
                  chip.write_application_page address
                    (chip.load_flash_page s.page_buffer (chip.wait_for_spm s.hw));
            })
      unfolding execute write_page
      write_page_handled p address h guard at =
          handle_command (record { command = cmd_write_page; u32 = p }) stack s h
          ∙ rw (guard, at) (send_reply laws stack _ free)

      -- A page that was erased holds the page buffer afterwards, and the pointer is back at its
      -- start.
      pub write_page_effect :
          (p address : ℕ) (content : Memory)
          → p < 2 ^ 32
          → ltb (chip.app_section_size / chip.app_section_page_size) (p % 2 ^ 16) ≡ false
          → u32 (chip.app_section_start + u32 (p % 2 ^ 16 * chip.app_section_page_size)) ≡ address
          → address + chip.app_section_page_size ≤ chip.app_section_size
          → ((a : ℕ) → a < chip.app_section_size → chip.flash s.hw a ≡ content a)
          → ((i : ℕ) → i < chip.app_section_page_size → content (address + i) ≡ 255)
          → let d =
              hid_set_feature_report_out chip
                (tail (command_bytes (record { command = cmd_write_page; u32 = p })))
                stack
                s in
            (d.feature_response.result ≡ 0)
            × Holds
                (copy chip.app_section_page_size content address s.page_buffer 0)
                0
                (delivered d)
      write_page_effect p address content h guard at fits holds erased =
          rw (write_page_handled p address h guard at)
            (refl, record { free = refl; points = refl; holds = λ a k. new_content a k })
        where
          loaded : chip.Hw
          loaded = chip.load_flash_page s.page_buffer (chip.wait_for_spm s.hw)

          before : (a : ℕ) → a < chip.app_section_size → chip.flash loaded a ≡ content a
          before a k =
              ap (λ (m : Memory). m a) (laws.flash_load s.page_buffer _ ∙ laws.flash_wait s.hw)
              ∙ holds a k

          new_content :
              (a : ℕ)
              → a < chip.app_section_size
              → chip.flash
                  (chip.run_in_endpoint
                    (copy 64 (λ i. 0) 0 stack 0)
                    (chip.write_application_page address loaded)).1
                  a
                ≡ copy chip.app_section_page_size content address s.page_buffer 0 a
          new_content a k =
              ap (λ (m : Memory). m a) (laws.flash_endpoint _ _)
              ∙ laws.flash_write loaded address fits
                  (λ i l. before (address + i) (omega arith) ∙ erased i l) a
              ∙ ground (
                arith,
                before a k,
                laws.buffer_load s.page_buffer (chip.wait_for_spm s.hw) (a - address),
              )

      -- The reply to the reading of the checksums.
      pub read_flash_crcs_effect :
          (p : ℕ)
          → p < 2 ^ 32
          → let d =
              hid_set_feature_report_out chip
                (tail (command_bytes (record { command = cmd_read_flash_crcs; u32 = p })))
                stack
                s in
            let crc = chip.application_crc (chip.wait_for_spm s.hw) in
            let boot = chip.boot_crc (chip.wait_for_spm s.hw) in
            (d.feature_response.result ≡ 0)
            × (d.report_in_free ≡ false)
            × ((i : ℕ)
                → i < 64
                → d.report_in i ≡ overlay (u32_bytes crc (u32_bytes boot (0xA5 ∷ []))) stack i)
            × (chip.flash d.hw ≡ chip.flash s.hw)
      unfolding execute read_flash_crcs
      read_flash_crcs_effect p h =
          rw
            (handle_command (record { command = cmd_read_flash_crcs; u32 = p }) stack s h
              ∙ send_reply laws _ _ free)
            (refl, refl, λ i k. ground arith, laws.flash_endpoint _ _ ∙ laws.flash_wait s.hw)

      read_flash_handled :
          (address : ℕ)
          → address < 2 ^ 32
          → address ≤ chip.app_section_size
          → hid_set_feature_report_out chip
              (tail (command_bytes (record { command = cmd_read_flash; u32 = address })))
              stack
              s
            ≡ replied (copy 64 stack 0 (chip.flash s.hw) address) (cleared s)
      unfolding execute read_flash
      read_flash_handled address h inside =
          let guard : ltb chip.app_section_size address ≡ false = ground arith in
          handle_command (record { command = cmd_read_flash; u32 = address }) stack s h
          ∙ rw guard (send_reply laws _ _ free)

      -- The reply to the reading of flash: 64 bytes from the address.
      pub read_flash_effect :
          (address : ℕ)
          → address < 2 ^ 32
          → address ≤ chip.app_section_size
          → let d =
              hid_set_feature_report_out chip
                (tail (command_bytes (record { command = cmd_read_flash; u32 = address })))
                stack
                s in
            (d.feature_response.result ≡ 0)
            × (d.report_in_free ≡ false)
            × ((i : ℕ) → i < 64 → d.report_in i ≡ chip.flash s.hw (address + i))
            × (chip.flash d.hw ≡ chip.flash s.hw)
      read_flash_effect address h inside =
          rw (read_flash_handled address h inside)
            (refl, refl, λ i k. ground arith, laws.flash_endpoint _ _)
