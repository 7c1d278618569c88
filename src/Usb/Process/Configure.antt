-- ===== src/Usb/Process/Configure.antt =====
-- The configuration number: which request changes it, and to what.
pub mod Enable
use hid_bootloader.Base.{
  List, ℕ, zero, suc, ◌+◌, ◌*◌, ◌%◌, ◌^◌, ◌≤◌, ◌==◌, ◌≡◌, refl, sym, ap, ◌∙◌, arith, ltb, leb, Bool,
  true, false, not, if◌then◌else◌, ◌&&◌,
}
use hid_bootloader.Chip.{Chip}
use hid_bootloader.Usb.{Setup, is_in, is_out, setup_type, recipient, Control, Bus, Udd}
use hid_bootloader.Usb.Protocol
use hid_bootloader.Usb.Hid.{
  generic_setreport, reqstdifaceget_descriptor, hid_get_request, hid_set_request, hid_setup,
  generic_report_in_sent,
}
use hid_bootloader.Usb.Interface.{
  num_interfaces, update_iface_desc, iface_disable, iface_enable, reset,
}
use hid_bootloader.Usb.Requests.{
  dev_get_status, ep_get_status, dev_clear_feature, ep_clear_feature, dev_set_feature,
  ep_set_feature, dev_set_address, dev_get_str_desc, find_descriptor, dev_get_descriptor,
  dev_get_configuration, enable_ifaces, dev_set_configuration, iface_get_setting, iface_set_setting,
}
use hid_bootloader.Usb.Process.{
  reqstd_get, reqstd_set, reqstd, req_iface, req_ep_loop, req_ep, begun, or_else, process_setup,
}
use hid_bootloader.Usb.Process.Within.Standard.{enable_ifaces-frame, iface_set_setting-frame}
use hid_bootloader.Usb.Process.Within.Keeps.{frame, update_iface_desc-frame, reset-feature}

-- SET_CONFIGURATION, to a device that has an address, with a number that exists.
abbrev pub selects : Setup → ℕ → Bool
selects r address =
    not (is_in r)
    && setup_type r == Protocol.req_type_standard
    && recipient r == Protocol.req_recip_device
    && r.b_request == Protocol.req_set_configuration
    && r.w_length == 0
    && not (address == 0)
    && leb (r.w_value % 2 ^ 8) 1

-- The number of the chosen configuration behind a request, as this code has it. Chapter 9 of the USB
-- specification would leave the old number if the request is refused; here SET_CONFIGURATION sets the
-- new one also if it is refused afterwards, since an endpoint cannot be allocated.
abbrev pub configuration_after : Setup → ℕ → ℕ → ℕ
configuration_after r address number = if selects r address then r.w_value % 2 ^ 8 else number

-- The number of the configuration, and the buffer of the feature report.
abbrev pub kept : {Hw : Type 0} → Bus Hw → ℕ × List ℕ
kept s = (s.num_configuration, s.report_feature)

module _ (chip : Chip) (udd : Udd chip.Hw) (r : Setup) where
  dev_set_configuration-number :
      (s : Bus chip.Hw)
      → kept (dev_set_configuration chip udd r s).1 ≡ (
        if r.w_length == 0 && not (udd.getaddress s.device.hw == 0) && leb (r.w_value % 2 ^ 8) 1
            then r.w_value % 2 ^ 8
            else s.num_configuration,
        s.report_feature,
      )
  unfolding dev_set_configuration
  dev_set_configuration-number s =
      let s' : Bus chip.Hw = record (reset chip udd s) { num_configuration = r.w_value % 2 ^ 8 } in
      ground (arith, enable_ifaces-frame chip udd r num_interfaces 0 s', reset-feature chip udd s)

  dev_get_descriptor-number : (s : Bus chip.Hw) → kept (dev_get_descriptor chip udd r s).1 ≡ kept s
  unfolding dev_get_descriptor find_descriptor dev_get_str_desc
  dev_get_descriptor-number s = ground arith

  iface_get_setting-number : (s : Bus chip.Hw) → kept (iface_get_setting chip udd r s).1 ≡ kept s
  unfolding iface_get_setting
  iface_get_setting-number s =
      ground (arith, update_iface_desc-frame chip udd (r.w_index % 2 ^ 8) 0 s)

  reqstd_get-number : (s : Bus chip.Hw) → kept (reqstd_get chip udd r s).1 ≡ kept s
  unfolding reqstd_get dev_get_status ep_get_status dev_get_configuration
  reqstd_get-number s = ground (arith, dev_get_descriptor-number s, iface_get_setting-number s)

  ep_set_feature-number : (s : Bus chip.Hw) → kept (ep_set_feature chip udd r s).1 ≡ kept s
  unfolding ep_set_feature generic_report_in_sent
  ep_set_feature-number s = ground arith

  clear_feature-number :
      (s : Bus chip.Hw)
      → kept (dev_clear_feature chip udd r s).1 ≡ kept s
        × kept (ep_clear_feature chip udd r s).1 ≡ kept s
        × kept (dev_set_address chip udd r s).1 ≡ kept s
  unfolding dev_clear_feature ep_clear_feature dev_set_address
  clear_feature-number s = ground arith

  reqstd_set-number :
      (s : Bus chip.Hw)
      → kept (reqstd_set chip udd r s).1 ≡ (
        if recipient r == Protocol.req_recip_device
              && r.b_request == Protocol.req_set_configuration
              && r.w_length == 0
              && not (udd.getaddress s.device.hw == 0)
              && leb (r.w_value % 2 ^ 8) 1
            then r.w_value % 2 ^ 8
            else s.num_configuration,
        s.report_feature,
      )
  unfolding reqstd_set dev_set_feature
  reqstd_set-number s = ground (
    arith,
    dev_set_configuration-number s,
    ep_set_feature-number s,
    clear_feature-number s,
    iface_set_setting-frame chip udd r s,
  )

  reqstdifaceget_descriptor-number :
      (s : Bus chip.Hw) → kept (reqstdifaceget_descriptor chip udd r s).1 ≡ kept s
  unfolding reqstdifaceget_descriptor
  reqstdifaceget_descriptor-number s = ground arith

  hid_get_request-number : (s : Bus chip.Hw) → kept (hid_get_request chip udd r s).1 ≡ kept s
  unfolding hid_get_request
  hid_get_request-number s = ground arith

  hid_set_request-number : (s : Bus chip.Hw) → kept (hid_set_request chip udd r s).1 ≡ kept s
  unfolding hid_set_request generic_setreport
  hid_set_request-number s = ground arith

  hid_setup-number : (s : Bus chip.Hw) → kept (hid_setup chip udd r s).1 ≡ kept s
  unfolding hid_setup
  hid_setup-number s = ground (
    arith,
    reqstdifaceget_descriptor-number s,
    hid_get_request-number s,
    hid_set_request-number s,
  )

  req_iface-number : (s : Bus chip.Hw) → kept (req_iface chip udd r s).1 ≡ kept s
  unfolding req_iface
  req_iface-number s =
      let n : ℕ = r.w_index % 2 ^ 8 in
      let s1 : Bus chip.Hw = (update_iface_desc chip udd n 0 s).1 in
      ground (
        arith,
        update_iface_desc-frame chip udd n 0 s,
        update_iface_desc-frame chip udd n 0 s1,
        hid_setup-number (update_iface_desc chip udd n 0 s1).1,
      )

  req_ep_loop-number :
      (left n : ℕ) (s : Bus chip.Hw) → kept (req_ep_loop chip udd left n r s).1 ≡ kept s
  unfolding req_ep_loop
  req_ep_loop-number zero n s = refl
  req_ep_loop-number (suc left) n s =
      let s1 : Bus chip.Hw = (update_iface_desc chip udd n 0 s).1 in
      ground (
        arith,
        update_iface_desc-frame chip udd n 0 s,
        hid_setup-number s1,
        req_ep_loop-number left (n + 1) (hid_setup chip udd r s1).1,
      )

  req_ep-number : (s : Bus chip.Hw) → kept (req_ep chip udd r s).1 ≡ kept s
  unfolding req_ep
  req_ep-number s = ground (arith, req_ep_loop-number num_interfaces 0 s)

  reqstd-number :
      (s : Bus chip.Hw)
      → kept
          (if setup_type r == Protocol.req_type_standard then reqstd chip udd r s else (false, s)).1
        ≡ (configuration_after r (udd.getaddress s.device.hw) s.num_configuration, s.report_feature)
  unfolding reqstd
  reqstd-number s = ground (arith, reqstd_get-number s, reqstd_set-number s)

  to_iface-number :
      (s : Bus chip.Hw)
      → kept
          (if recipient r == Protocol.req_recip_interface
            then req_iface chip udd r s
            else (false, s)).1
        ≡ kept s
  to_iface-number s = ground (arith, req_iface-number s)

  to_ep-number :
      (s : Bus chip.Hw)
      → kept
          (if recipient r == Protocol.req_recip_endpoint then req_ep chip udd r s else (false, s)).1
        ≡ kept s
  to_ep-number s = ground (arith, req_ep-number s)

  or_else-number :
      (o : Bool × Bus chip.Hw) (next : Bus chip.Hw → Bool × Bus chip.Hw)
      → ((s : Bus chip.Hw) → kept (next s).1 ≡ kept s)
      → kept (or_else chip udd o next).1 ≡ kept o.1
  or_else-number (true, s) next h = refl
  or_else-number (false, s) next h = h s

  no_data-number :
      (s : Bus chip.Hw)
      → (is_in r && r.w_length == 0) ≡ true
      → configuration_after r (udd.getaddress s.device.hw) s.num_configuration ≡ s.num_configuration
  no_data-number s h = ground (arith, h)

  process_setup-kept :
      (s : Bus chip.Hw)
      → kept (process_setup chip udd r s).1
        ≡ (configuration_after r (udd.getaddress s.device.hw) s.num_configuration, s.report_feature)
  unfolding process_setup
  process_setup-kept s =
      let b : Bus chip.Hw = begun chip udd s in
      let std : Bool × Bus chip.Hw =
        if setup_type r == Protocol.req_type_standard then reqstd chip udd r b else (false, b) in
      let to_ep : Bus chip.Hw → Bool × Bus chip.Hw = λ t.
        if recipient r == Protocol.req_recip_endpoint then req_ep chip udd r t else (false, t) in
      let to_iface : Bus chip.Hw → Bool × Bus chip.Hw = λ t.
        if recipient r == Protocol.req_recip_interface
        then req_iface chip udd r t
        else (false, t) in
      let next : Bus chip.Hw → Bool × Bus chip.Hw = λ t. or_else chip udd (to_iface t) to_ep in
      elim (is_in r && r.w_length == 0)
          as (λ b'.
            (is_in r && r.w_length == 0) ≡ b'
            → kept (if b' then (false, b) else or_else chip udd std next).1 ≡ (
              configuration_after r (udd.getaddress s.device.hw) s.num_configuration,
              s.report_feature,
            )) [
              | true ↦ λ e. ap (λ n. (n, s.report_feature)) (sym (no_data-number s e))
              | false ↦ λ e.
                  or_else-number std next
                    (λ t. or_else-number (to_iface t) to_ep to_ep-number ∙ to_iface-number t)
                  ∙ reqstd-number b
            ]
        refl

  -- Behind any request, whether it is accepted or refused: SET_CONFIGURATION of a number that exists, to a
  -- device with an address, has set the number of the configuration, also where the request is then
  -- refused since an endpoint cannot be allocated, and no other request changes the number.
  pub process_setup-configuration :
      (s : Bus chip.Hw)
      → (process_setup chip udd r s).1.num_configuration
        ≡ configuration_after r (udd.getaddress s.device.hw) s.num_configuration
  process_setup-configuration s = ap (λ k. k.0) (process_setup-kept s)

  -- No request writes into the buffer of the feature report before its data stage.
  pub process_setup-feature :
      (s : Bus chip.Hw) → (process_setup chip udd r s).1.report_feature ≡ s.report_feature
  process_setup-feature s = ap (λ k. k.1) (process_setup-kept s)
