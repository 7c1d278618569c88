-- ===== src/Usb/Process/Enumerate.antt =====
-- A host brings the device from the reset of the bus to its first command.
use hid_bootloader.Base.{ℕ, ◌==◌, ◌≡◌, refl, bit_and, true, false, Memory, List, length}
use hid_bootloader.Chip.{Chip}
use hid_bootloader.Firmware.{hid_set_feature_report_out}
use hid_bootloader.Usb.{Setup, Bus, Udd}
use hid_bootloader.Usb.Descriptors.{udi_hid_report_feature_size}
use hid_bootloader.Usb.Process.{process_setup, endofrequest}
use hid_bootloader.Usb.Process.Configure.Enable.{
  in_allocated, both_allocated, armed, set_configuration, configured, process_setup-configured,
}
use hid_bootloader.Usb.Process.Reports.{
  set_feature_report, set_address_request, filled, addressed_state, set_address-done,
  set_report-delivers,
}

module _ (chip : Chip) (udd : Udd chip.Hw) where
  -- A request without data, from its setup packet to the end of its handshake.
  abbrev pub control_transfer : Setup → Memory → Bus chip.Hw → Bus chip.Hw
  control_transfer r stack s = endofrequest chip udd r stack (process_setup chip udd r s).1

  -- The three requests of a host: an address, the configuration, and a command of five bytes.
  abbrev pub enumerated : ℕ → List ℕ → Memory → Bus chip.Hw → Bus chip.Hw
  enumerated address bytes stack s =
      let s1 = control_transfer (set_address_request address) stack s in
      let s2 = control_transfer (set_configuration 1) stack s1 in
      endofrequest chip udd set_feature_report stack
        (filled chip udd bytes (process_setup chip udd set_feature_report s2).1)

  pub configured-end :
      (s : Bus chip.Hw) (stack : Memory)
      → s.num_configuration ≡ 0
      → (udd.getaddress s.device.hw == 0) ≡ false
      → (in_allocated chip udd s.device.hw).0 ≡ true
      → (both_allocated chip udd s.device.hw).0 ≡ true
      → (armed chip udd s.device.hw).0 ≡ true
      → control_transfer (set_configuration 1) stack s ≡ configured chip udd s
  unfolding endofrequest
  configured-end s stack none_chosen addressed h k l =
      rw (process_setup-configured chip udd s none_chosen addressed h k l) refl

  -- From a state without a configuration: if the address that the driver has been given is not 0, and
  -- it then allocates the two endpoints and arms the OUT endpoint, then after SET_ADDRESS,
  -- SET_CONFIGURATION and the SET_REPORT of a command the device is as HID_set_feature_report_out leaves
  -- it, with the buffer of the IN report free, the OUT endpoint armed and the address set.
  pub enumerated-delivers :
      (s : Bus chip.Hw) (address : ℕ) (bytes : List ℕ) (stack : Memory)
      → s.num_configuration ≡ 0
      → length bytes ≡ udi_hid_report_feature_size
      → (udd.getaddress (udd.set_address (bit_and address 0x7F) s.device.hw) == 0) ≡ false
      → (in_allocated chip udd (udd.set_address (bit_and address 0x7F) s.device.hw)).0 ≡ true
      → (both_allocated chip udd (udd.set_address (bit_and address 0x7F) s.device.hw)).0 ≡ true
      → (armed chip udd (udd.set_address (bit_and address 0x7F) s.device.hw)).0 ≡ true
      → (enumerated address bytes stack s).device
        ≡ hid_set_feature_report_out chip bytes stack (record s.device {
          hw = (armed chip udd (udd.set_address (bit_and address 0x7F) s.device.hw)).1;
          report_in_free = true;
        })
  enumerated-delivers s address bytes stack none_chosen five addressed h k l =
      let s1 : Bus chip.Hw = addressed_state chip udd address s in
      rw (set_address-done chip udd s address stack) (
        rw (configured-end s1 stack none_chosen addressed h k l)
          (set_report-delivers chip udd (configured chip udd s1) bytes stack refl five).3)
