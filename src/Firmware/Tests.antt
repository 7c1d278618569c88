-- ===== src/Firmware/Tests.antt =====
-- The handlers' theorems at the sample chip.
use hid_bootloader.Base.{◌%◌, ◌≡◌, refl, arith, Memory, none, some, copy, true}
use hid_bootloader.Protocol
use hid_bootloader.Chip.Sample.{small_chip}
use hid_bootloader.Firmware.{Device, breaks, execute, finish, hid_report_out, write_page}
use hid_bootloader.Firmware.Buffer.{hid_report_out_lem}
use hid_bootloader.Firmware.Commands.{
  write_page_behind_section, write_eeprom_page_ignores, set_pointer_overruns,
}

-- A device whose pointer stands in the middle of the page.
abbrev waiting : Device small_chip
waiting = record {
  page_buffer = λ i. i;
  page_ptr = 64;
  feature_response = record { version = 1; busy_flags = 0; page_ptr = 0; result = 0 };
  report_in_free = true;
  report_in = λ i. 0;
  hw = record { cells = λ a. 0; page = λ i. 255 };
}

abbrev noise : Memory
noise i = 0xAA

hid_report_out_lem_example :
    hid_report_out small_chip noise waiting
    ≡ some (record waiting { page_buffer = copy 64 (λ i. i) 64 noise 0; page_ptr = 128 % 128 })
hid_report_out_lem_example =
    hid_report_out_lem small_chip noise waiting 7 refl (omega arith) (omega arith)

write_page_behind_section_example :
    write_page small_chip 2 noise waiting
    ≡ breaks noise (record waiting {
      page_ptr = 0;
      hw =
          small_chip.write_application_page 256
            (small_chip.load_flash_page (λ i. i) (small_chip.wait_for_spm waiting.hw));
    })
write_page_behind_section_example =
    write_page_behind_section small_chip noise waiting 2 refl (omega arith) refl (omega arith)

write_eeprom_page_ignores_example :
    (finish small_chip (
      execute small_chip Protocol.cmd_write_eeprom_page 1 noise
        (record waiting { page_buffer = λ i. 7 }))).hw
    ≡ (finish small_chip (execute small_chip Protocol.cmd_write_eeprom_page 1 noise waiting)).hw
write_eeprom_page_ignores_example =
    write_eeprom_page_ignores small_chip noise waiting 1 (λ i. 7) (omega arith)

set_pointer_overruns_example :
    hid_report_out small_chip noise
      (finish small_chip (execute small_chip Protocol.cmd_set_pointer 129 noise waiting))
    ≡ none
set_pointer_overruns_example = set_pointer_overruns small_chip noise waiting 129 noise (omega arith)
