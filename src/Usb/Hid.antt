-- ===== src/Usb/Hid.antt =====
-- The HID interface: udi_hid_generic.c, with what udi_hid.c decodes of the requests to it.
use hid_bootloader.Base.{
  ℕ, ◌+◌, ◌/◌, ◌%◌, ◌^◌, u8, ltb, ◌==◌, Bool, true, false, not, if◌then◌else◌, ◌&&◌, Memory, [],
  ◌∷◌, drop, Option, none, some, length,
}
use hid_bootloader.Chip.{Chip}
use hid_bootloader.Firmware.{
  hid_report_out, hid_get_feature_report_out, hid_set_feature_report_out, udi_hid_report_out_size,
}
use hid_bootloader.Usb.{
  Setup, is_in, is_out, setup_type, setfeature_valid, fills_feature, Bus, Udd, with_bus_hw,
  set_setup_payload,
}
use hid_bootloader.Usb.Protocol
use hid_bootloader.Usb.Descriptors.{
  udi_hid_generic_report_desc, udi_hid_report_feature_size, udc_desc, conf_byte, conf_word,
}

-- min (a, b)
abbrev pub lesser : ℕ → ℕ → ℕ
lesser a b = if ltb a b then a else b

module _ (chip : Chip) (udd : Udd chip.Hw) where
  -- udi_hid_generic_report_out_enable
  unfoldable pub report_out_enable : Bus chip.Hw → Bool × Bus chip.Hw
  report_out_enable s = let (ok, hw) = udd.run_out_endpoint s.device.hw in (ok, with_bus_hw s hw)

  -- udi_hid_generic_enable
  unfoldable pub generic_enable : Bus chip.Hw → Bool × Bus chip.Hw
  unfolding report_out_enable
  generic_enable s =
      let (ok, s') =
        report_out_enable (record s {
          rate = 0;
          protocol = 0;
          device = record s.device { report_in_free = true };
        }) in
      if not ok then (false, s') else (true, s')

  -- udi_hid_generic_getsetting
  abbrev pub generic_getsetting : ℕ
  generic_getsetting = 0

  -- udi_hid_generic_setreport
  unfoldable pub generic_setreport : Setup → Bus chip.Hw → Bool × Bus chip.Hw
  generic_setreport r s =
      if Protocol.hid_report_type_feature == r.w_value / 2 ^ 8
        && 0 == r.w_value % 2 ^ 8
        && udi_hid_report_feature_size == r.w_length
      then (
        true,
        record s {
          control = record {
            payload = fills_feature;
            callback = setfeature_valid;
            payload_size = udi_hid_report_feature_size;
          };
        },
      )
      else (false, s)

  -- udi_hid_generic_setfeature_valid
  unfoldable pub generic_setfeature_valid : Memory → Bus chip.Hw → Bus chip.Hw
  generic_setfeature_valid stack s =
      if not (udi_hid_report_feature_size == s.control.payload_size)
      then s
      else record s { device = hid_set_feature_report_out chip s.report_feature stack s.device }

  -- udi_hid_generic_report_out_received with the status UDD_EP_TRANSFER_OK; any other does nothing.
  -- `none` is the write past the end of the page buffer.
  unfoldable pub generic_report_out_received : ℕ → Memory → Bus chip.Hw → Option (Bus chip.Hw)
  unfolding report_out_enable
  generic_report_out_received nb_received report s =
      if udi_hid_report_out_size == nb_received
      then (elim (hid_report_out chip report s.device) [
        | none ↦ none
        | some d ↦ some (report_out_enable (record s { device = d })).1
      ])
      else some (report_out_enable s).1

  -- udi_hid_generic_report_in_sent, with any status
  unfoldable pub generic_report_in_sent : Bus chip.Hw → Bus chip.Hw
  generic_report_in_sent s = record s { device = record s.device { report_in_free = true } }

  -- udi_hid_reqstdifaceget_descriptor: the HID descriptor stands behind the interface descriptor, of
  -- nine bytes.
  unfoldable pub reqstdifaceget_descriptor : Setup → Bus chip.Hw → Bool × Bus chip.Hw
  reqstdifaceget_descriptor r s =
      let hid_desc = s.ptr_iface + 9 in
      let kind = u8 (r.w_value / 2 ^ 8) in
      if not (Protocol.dt_hid == conf_byte (hid_desc + 1))
      then (false, s)
      else if Protocol.dt_hid == kind
      then (
        true,
        set_setup_payload (drop hid_desc udc_desc) (lesser r.w_length (conf_byte hid_desc)) s,
      )
      else if conf_byte (hid_desc + 6) == kind
      then (
        true,
        set_setup_payload udi_hid_generic_report_desc (lesser r.w_length (conf_word (hid_desc + 7)))
            s,
      )
      else (false, s)

  -- The class requests of udi_hid_setup to the device: the first is this program's own. The length of
  -- the request is not looked at.
  unfoldable pub hid_get_request : Setup → Bus chip.Hw → Bool × Bus chip.Hw
  hid_get_request r s =
      if r.b_request == Protocol.req_hid_get_report
      then (let (payload, d) = hid_get_feature_report_out chip s.device in
          (true, set_setup_payload payload (length payload) (record s { device = d })))
      else if r.b_request == Protocol.req_hid_get_idle
      then (true, set_setup_payload (s.rate ∷ []) 1 s)
      else if r.b_request == Protocol.req_hid_get_protocol
      then (true, set_setup_payload (s.protocol ∷ []) 1 s)
      else (false, s)

  unfoldable pub hid_set_request : Setup → Bus chip.Hw → Bool × Bus chip.Hw
  unfolding generic_setreport
  hid_set_request r s =
      if r.b_request == Protocol.req_hid_set_report
      then generic_setreport r s
      else if r.b_request == Protocol.req_hid_set_idle
      then (true, record s { rate = u8 (r.w_value / 2 ^ 8) })
      else if r.b_request == Protocol.req_hid_set_protocol
      then (if not (0 == r.w_length)
          then (false, s)
          else (true, record s { protocol = u8 r.w_value }))
      else (false, s)

  -- udi_hid_setup, as udi_hid_generic_setup calls it
  unfoldable pub hid_setup : Setup → Bus chip.Hw → Bool × Bus chip.Hw
  hid_setup r s =
      if is_in r
        && setup_type r == Protocol.req_type_standard
        && r.b_request == Protocol.req_get_descriptor
      then reqstdifaceget_descriptor r s
      else if is_in r && setup_type r == Protocol.req_type_class
      then hid_get_request r s
      else if is_out r && setup_type r == Protocol.req_type_class
      then hid_set_request r s
      else (false, s)
