-- ===== src/Usb/Process/Reports.antt =====
-- The requests by which a host reaches the bootloader: the feature report in both directions, and the
-- address.
use hid_bootloader.Base.{ℕ, ◌==◌, ◌≡◌, refl, arith, bit_and, true, false, Memory, List, length}
use hid_bootloader.Chip.{Chip}
use hid_bootloader.Firmware.{hid_get_feature_report_out, hid_set_feature_report_out}
use hid_bootloader.Usb.{
  Setup, setup_type, no_callback, valid_address, setfeature_valid, fills_feature, sends, Bus, Udd,
}
use hid_bootloader.Usb.Protocol
use hid_bootloader.Usb.Descriptors.{udi_hid_report_feature_size}
use hid_bootloader.Usb.Hid.{
  generic_setreport, hid_get_request, hid_set_request, hid_setup, generic_setfeature_valid,
}
use hid_bootloader.Usb.Interface.{find_iface, update_iface_desc}
use hid_bootloader.Usb.Requests.{dev_set_address, set_valid_address}
use hid_bootloader.Usb.Process.{
  reqstd_set, reqstd, req_iface, req_ep, begun, process_setup, endofrequest,
}

-- SET_REPORT of the feature report, as a host sends it.
abbrev pub set_feature_report : Setup
set_feature_report = record {
  bm_request_type = 0x21;
  b_request = Protocol.req_hid_set_report;
  w_value = 0x300;
  w_index = 0;
  w_length = udi_hid_report_feature_size;
}

-- GET_REPORT with any type and length.
abbrev pub get_report : ℕ → ℕ → Setup
get_report w_value w_length = record {
  bm_request_type = 0xA1;
  b_request = Protocol.req_hid_get_report;
  w_value = w_value;
  w_index = 0;
  w_length = w_length;
}

abbrev pub set_address_request : ℕ → Setup
set_address_request address = record {
  bm_request_type = 0;
  b_request = Protocol.req_set_address;
  w_value = address;
  w_index = 0;
  w_length = 0;
}

module _ (chip : Chip) (udd : Udd chip.Hw) where
  -- The buffer holds what the host sent in the data stage.
  abbrev pub filled : List ℕ → Bus chip.Hw → Bus chip.Hw
  filled bytes s = record s {
    report_feature = bytes;
    control = record s.control { payload_size = length bytes };
  }

  -- With a configuration, the search finds the interface.
  update_iface_desc-first :
      (s : Bus chip.Hw)
      → (0 == s.num_configuration) ≡ false
      → update_iface_desc chip udd 0 0 s ≡ (true, record s { ptr_iface = 9 })
  unfolding update_iface_desc find_iface
  update_iface_desc-first s chosen = rw chosen refl

  req_iface-first :
      (r : Setup) (s : Bus chip.Hw)
      → (0 == s.num_configuration) ≡ false
      → r.w_index ≡ 0
      → req_iface chip udd r s ≡ hid_setup chip udd r (record s { ptr_iface = 9 })
  unfolding req_iface
  req_iface-first r s chosen at =
      let s1 : Bus chip.Hw = record s { ptr_iface = 9 } in
      ground
        (arith, chosen, at, update_iface_desc-first s chosen, update_iface_desc-first s1 chosen)

  pub set_report-accepted :
      (s : Bus chip.Hw)
      → (0 == s.num_configuration) ≡ false
      → process_setup chip udd set_feature_report s ≡ (
        true,
        record s {
          control = record {
            payload = fills_feature;
            payload_size = udi_hid_report_feature_size;
            callback = setfeature_valid;
          };
          ptr_iface = 9;
        },
      )
  unfolding process_setup hid_setup hid_set_request generic_setreport
  set_report-accepted s chosen =
      rw (req_iface-first set_feature_report (begun chip udd s) chosen refl) refl

  -- On a configured device, SET_REPORT of the feature report is accepted, its five bytes are received
  -- into the buffer of the feature report, and at the end of the request the device is as
  -- HID_set_feature_report_out of these bytes leaves it.
  pub set_report-delivers :
      (s : Bus chip.Hw) (bytes : List ℕ) (stack : Memory)
      → (0 == s.num_configuration) ≡ false
      → length bytes ≡ udi_hid_report_feature_size
      → (process_setup chip udd set_feature_report s).0 ≡ true
        × (process_setup chip udd set_feature_report s).1.control.payload ≡ fills_feature
        × (process_setup chip udd set_feature_report s).1.control.payload_size
          ≡ udi_hid_report_feature_size
        × (endofrequest chip udd set_feature_report stack
            (filled bytes (process_setup chip udd set_feature_report s).1)).device
          ≡ hid_set_feature_report_out chip bytes stack s.device
  unfolding endofrequest generic_setfeature_valid
  set_report-delivers s bytes stack chosen five =
      rw (set_report-accepted s chosen) (ground (arith, five))

  -- On a configured device, GET_REPORT runs HID_get_feature_report_out and sends the whole status,
  -- whatever the type of report and the number of bytes asked for, if it is not 0.
  pub get_report-answers :
      (s : Bus chip.Hw) (w_value w_length : ℕ)
      → (0 == s.num_configuration) ≡ false
      → (w_length == 0) ≡ false
      → process_setup chip udd (get_report w_value w_length) s ≡ (
        true,
        record s {
          device = (hid_get_feature_report_out chip s.device).1;
          control = record {
            payload = sends (hid_get_feature_report_out chip s.device).0;
            payload_size = length (hid_get_feature_report_out chip s.device).0;
            callback = no_callback;
          };
          ptr_iface = 9;
        },
      )
  unfolding process_setup hid_setup hid_get_request
  get_report-answers s w_value w_length chosen asked =
      rw asked
        (rw (req_iface-first (get_report w_value w_length) (begun chip udd s) chosen refl) refl)

  -- The state with an address set.
  abbrev pub addressed_state : ℕ → Bus chip.Hw → Bus chip.Hw
  addressed_state address s = record s {
    device = record s.device { hw = udd.set_address (bit_and address 0x7F) s.device.hw };
    control = record s.control { payload_size = 0; callback = valid_address };
  }

  pub set_address-done :
      (s : Bus chip.Hw) (address : ℕ) (stack : Memory)
      → endofrequest chip udd
          (set_address_request address)
          stack
          (process_setup chip udd (set_address_request address) s).1
        ≡ addressed_state address s
  unfolding process_setup reqstd reqstd_set dev_set_address endofrequest set_valid_address
  set_address-done s address stack = refl

  -- Without a configuration, every request that is not a standard one is refused, and changes nothing
  -- but the data of the control endpoint, which are none.
  pub process_setup-unconfigured :
      (r : Setup) (s : Bus chip.Hw)
      → s.num_configuration ≡ 0
      → (setup_type r == Protocol.req_type_standard) ≡ false
      → process_setup chip udd r s ≡ (false, begun chip udd s)
  unfolding process_setup req_iface req_ep
  process_setup-unconfigured r s none_chosen other = ground (arith, none_chosen, other)
