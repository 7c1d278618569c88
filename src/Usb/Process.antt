-- ===== src/Usb/Process.antt =====
-- udc.c: which routine a request goes to, and the end of a request.
pub mod Within
pub mod Configure
pub mod Reports
pub mod Enumerate
use hid_bootloader.Base.{
  ℕ, zero, suc, ◌+◌, ◌%◌, ◌^◌, ◌==◌, leb, Bool, true, false, not, if◌then◌else◌, ◌&&◌, Memory,
}
use hid_bootloader.Chip.{Chip}
use hid_bootloader.Usb.{
  Setup, is_in, setup_type, recipient, Control, Callback, no_callback, valid_address,
  setfeature_valid, Bus, Udd,
}
use hid_bootloader.Usb.Protocol
use hid_bootloader.Usb.Hid.{generic_getsetting, hid_setup, generic_setfeature_valid}
use hid_bootloader.Usb.Interface.{num_interfaces, update_iface_desc}
use hid_bootloader.Usb.Requests.{
  dev_get_status, ep_get_status, dev_clear_feature, ep_clear_feature, dev_set_feature,
  ep_set_feature, set_valid_address, dev_set_address, dev_get_descriptor, dev_get_configuration,
  dev_set_configuration, iface_get_setting, iface_set_setting,
}

module _ (chip : Chip) (udd : Udd chip.Hw) where
  -- The requests of udc_reqstd to the device.
  unfoldable pub reqstd_get : Setup → Bus chip.Hw → Bool × Bus chip.Hw
  reqstd_get r s =
      let recip = recipient r in
      let req = r.b_request in
      if r.w_length == 0
      then (false, s)
      else if recip == Protocol.req_recip_device && req == Protocol.req_get_status
      then dev_get_status chip udd r s
      else if recip == Protocol.req_recip_device && req == Protocol.req_get_descriptor
      then dev_get_descriptor chip udd r s
      else if recip == Protocol.req_recip_device && req == Protocol.req_get_configuration
      then dev_get_configuration chip udd r s
      else if recip == Protocol.req_recip_interface && req == Protocol.req_get_interface
      then iface_get_setting chip udd r s
      else if recip == Protocol.req_recip_endpoint && req == Protocol.req_get_status
      then ep_get_status chip udd r s
      else (false, s)

  -- The requests of udc_reqstd from the host.
  unfoldable pub reqstd_set : Setup → Bus chip.Hw → Bool × Bus chip.Hw
  reqstd_set r s =
      let recip = recipient r in
      let req = r.b_request in
      if recip == Protocol.req_recip_device && req == Protocol.req_set_address
      then dev_set_address chip udd r s
      else if recip == Protocol.req_recip_device && req == Protocol.req_clear_feature
      then dev_clear_feature chip udd r s
      else if recip == Protocol.req_recip_device && req == Protocol.req_set_feature
      then dev_set_feature chip udd r s
      else if recip == Protocol.req_recip_device && req == Protocol.req_set_configuration
      then dev_set_configuration chip udd r s
      else if recip == Protocol.req_recip_interface && req == Protocol.req_set_interface
      then iface_set_setting chip udd r s
      else if recip == Protocol.req_recip_endpoint && req == Protocol.req_clear_feature
      then ep_clear_feature chip udd r s
      else if recip == Protocol.req_recip_endpoint && req == Protocol.req_set_feature
      then ep_set_feature chip udd r s
      else (false, s)

  -- udc_reqstd
  unfoldable pub reqstd : Setup → Bus chip.Hw → Bool × Bus chip.Hw
  reqstd r s = if is_in r then reqstd_get r s else reqstd_set r s

  -- udc_req_iface
  unfoldable pub req_iface : Setup → Bus chip.Hw → Bool × Bus chip.Hw
  unfolding update_iface_desc
  req_iface r s =
      let iface_num = r.w_index % 2 ^ 8 in
      if 0 == s.num_configuration
      then (false, s)
      else if leb num_interfaces iface_num
      then (false, s)
      else (let (first, s1) = update_iface_desc chip udd iface_num 0 s in
          if not first
          then (false, s1)
          else (let (current, s2) =
                update_iface_desc chip udd iface_num (generic_getsetting chip udd) s1 in
              if not current then (false, s2) else hid_setup chip udd r s2))

  -- The loop of udc_req_ep, with the interfaces that are left.
  unfoldable pub req_ep_loop : ℕ → ℕ → Setup → Bus chip.Hw → Bool × Bus chip.Hw
  req_ep_loop zero iface_num r s = (false, s)
  req_ep_loop (suc left) iface_num r s =
      let rest = req_ep_loop left (iface_num + 1) r in
      let (found, s1) = update_iface_desc chip udd iface_num (generic_getsetting chip udd) s in
      if not found
      then (false, s1)
      else (let (done, s2) = hid_setup chip udd r s1 in if done then (true, s2) else rest s2)

  -- udc_req_ep
  unfoldable pub req_ep : Setup → Bus chip.Hw → Bool × Bus chip.Hw
  unfolding req_ep_loop
  req_ep r s = if 0 == s.num_configuration then (false, s) else req_ep_loop num_interfaces 0 r s

  -- The state at the start of a request: no data and no callback.
  abbrev pub begun : Bus chip.Hw → Bus chip.Hw
  begun s = record s { control = record s.control { payload_size = 0; callback = no_callback } }

  -- A request that one decoder does not take goes to the next.
  abbrev pub or_else : Bool × Bus chip.Hw → (Bus chip.Hw → Bool × Bus chip.Hw) → Bool × Bus chip.Hw
  or_else o next = if o.0 then o else next o.1

  -- udc_process_setup: false is a request that is stalled.
  unfoldable pub process_setup : Setup → Bus chip.Hw → Bool × Bus chip.Hw
  process_setup r s =
      if is_in r && r.w_length == 0
      then (false, begun s)
      else or_else
          (if setup_type r == Protocol.req_type_standard
            then reqstd r (begun s)
            else (false, begun s))
          (λ s1.
            or_else
              (if recipient r == Protocol.req_recip_interface then req_iface r s1 else (false, s1))
              (λ s2.
                if recipient r == Protocol.req_recip_endpoint then req_ep r s2 else (false, s2)))

  -- udd_ctrl_endofrequest of usb_device.c: the callback, behind the data and the handshake.
  unfoldable pub endofrequest : Setup → Memory → Bus chip.Hw → Bus chip.Hw
  unfolding set_valid_address generic_setfeature_valid
  endofrequest r stack s = elim s.control.callback [
    | no_callback ↦ s
    | valid_address ↦ set_valid_address chip udd r s
    | setfeature_valid ↦ generic_setfeature_valid chip udd stack s
  ]
