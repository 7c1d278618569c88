-- ===== src/Usb/Process/Within.antt =====
-- No request makes the device send from, or receive into, memory outside the buffer that it set.
pub mod Keeps
pub mod Standard
pub mod Length
use hid_bootloader.Base.{
  ℕ, zero, suc, ◌+◌, ◌*◌, ◌%◌, ◌^◌, ◌≤◌, ◌==◌, ◌≡◌, refl, sym, ap, ◌∙◌, arith, ltb, leb, Bool, true,
  false, not, if◌then◌else◌, ◌&&◌, List, [], ◌∷◌, length, Bool-cases, inl, inr,
}
use hid_bootloader.Chip.{Chip}
use hid_bootloader.Firmware.{hid_get_feature_report_out}
use hid_bootloader.Usb.{
  Setup, is_in, setup_type, recipient, Control, Payload, unset, sends, fills_feature, Bus, Udd,
}
use hid_bootloader.Usb.Protocol
use hid_bootloader.Usb.Descriptors.{udi_hid_report_feature_size}
use hid_bootloader.Usb.Hid.{
  generic_getsetting, generic_setreport, reqstdifaceget_descriptor, hid_get_request,
  hid_set_request, hid_setup, generic_report_in_sent,
}
use hid_bootloader.Usb.Interface.{
  num_interfaces, update_iface_desc, iface_disable, iface_enable, reset, aborted,
}
use hid_bootloader.Usb.Requests.{
  dev_get_status, ep_get_status, dev_clear_feature, ep_clear_feature, dev_set_feature,
  ep_set_feature, dev_set_address, dev_get_str_desc, find_descriptor, dev_get_descriptor,
  dev_get_configuration, enable_ifaces, dev_set_configuration, iface_get_setting, iface_set_setting,
}
use hid_bootloader.Usb.Process.{
  reqstd_get, reqstd_set, reqstd, req_iface, req_ep_loop, req_ep, begun, or_else, process_setup,
}
use Keeps.{
  frame, update_iface_desc-frame, update_iface_desc-found, iface_disable-frame, iface_enable-frame,
  reset-control,
}
use Standard.{capacity, IsWithin, reqstd-IsWithin}

module _ (chip : Chip) (udd : Udd chip.Hw) (r : Setup) where
  -- The HID descriptor and the report descriptor, which stand behind the interface at offset 9.
  reqstdifaceget_descriptor-IsWithin :
      (s : Bus chip.Hw)
      → s.ptr_iface ≡ 9
      → IsWithin s.control
      → IsWithin (reqstdifaceget_descriptor chip udd r s).1.control
  unfolding reqstdifaceget_descriptor
  reqstdifaceget_descriptor-IsWithin s at h = rw at (ground (arith, h))

  hid_get_request-IsWithin :
      (s : Bus chip.Hw) → IsWithin s.control → IsWithin (hid_get_request chip udd r s).1.control
  unfolding hid_get_request
  hid_get_request-IsWithin s h = ground arith

  hid_set_request-IsWithin :
      (s : Bus chip.Hw) → IsWithin s.control → IsWithin (hid_set_request chip udd r s).1.control
  unfolding hid_set_request generic_setreport
  hid_set_request-IsWithin s h = ground arith

  hid_setup-IsWithin :
      (s : Bus chip.Hw)
      → s.ptr_iface ≡ 9
      → IsWithin s.control
      → IsWithin (hid_setup chip udd r s).1.control
  unfolding hid_setup
  hid_setup-IsWithin s at h = ground (
    arith,
    reqstdifaceget_descriptor-IsWithin s at h,
    hid_get_request-IsWithin s h,
    hid_set_request-IsWithin s h,
  )

  -- The state that the search for the only setting of an interface leaves.
  searched : ℕ → Bus chip.Hw → Bus chip.Hw
  searched n s = (update_iface_desc chip udd n 0 s).1

  searched-IsWithin :
      (n : ℕ) (s : Bus chip.Hw) → IsWithin s.control → IsWithin (searched n s).control
  unfolding searched
  searched-IsWithin n s h = ground (arith, update_iface_desc-frame chip udd n 0 s)

  found-IsWithin :
      (n : ℕ) (s : Bus chip.Hw)
      → IsWithin s.control
      → (update_iface_desc chip udd n 0 s).0 ≡ true
      → IsWithin (hid_setup chip udd r (searched n s)).1.control
  unfolding searched
  found-IsWithin n s h e =
      hid_setup-IsWithin (searched n s) (update_iface_desc-found chip udd n s e)
        (searched-IsWithin n s h)

  req_iface-IsWithin :
      (s : Bus chip.Hw) → IsWithin s.control → IsWithin (req_iface chip udd r s).1.control
  unfolding req_iface searched
  req_iface-IsWithin s h =
      let n : ℕ = r.w_index % 2 ^ 8 in
      let s1 : Bus chip.Hw = searched n s in
      ground (
        arith,
        searched-IsWithin n s h,
        searched-IsWithin n s1 (searched-IsWithin n s h),
        found-IsWithin n s1 (searched-IsWithin n s h),
      )

  req_ep_loop-IsWithin :
      (left n : ℕ) (s : Bus chip.Hw)
      → IsWithin s.control
      → IsWithin (req_ep_loop chip udd left n r s).1.control
  unfolding req_ep_loop searched
  req_ep_loop-IsWithin zero n s h = h
  req_ep_loop-IsWithin (suc left) n s h =
      let s2 : Bus chip.Hw = (hid_setup chip udd r (searched n s)).1 in
      ground
        (arith, searched-IsWithin n s h, found-IsWithin n s h, req_ep_loop-IsWithin left (n + 1) s2)

  req_ep-IsWithin :
      (s : Bus chip.Hw) → IsWithin s.control → IsWithin (req_ep chip udd r s).1.control
  unfolding req_ep
  req_ep-IsWithin s h = ground (arith, req_ep_loop-IsWithin num_interfaces 0 s h)

  begun-IsWithin : (s : Bus chip.Hw) → IsWithin (begun chip udd s).control
  begun-IsWithin s = omega arith

  either-IsWithin :
      (b : Bool) (x y : Bool × Bus chip.Hw)
      → IsWithin x.1.control
      → IsWithin y.1.control
      → IsWithin (if b then x else y).1.control
  either-IsWithin true x y h k = h
  either-IsWithin false x y h k = k

  or_else-IsWithin :
      (o : Bool × Bus chip.Hw) (next : Bus chip.Hw → Bool × Bus chip.Hw)
      → IsWithin o.1.control
      → ((s : Bus chip.Hw) → IsWithin s.control → IsWithin (next s).1.control)
      → IsWithin (or_else chip udd o next).1.control
  or_else-IsWithin o next h f = either-IsWithin o.0 o (next o.1) h (f o.1 h)

  -- Whatever the request and the state, behind udc_process_setup the size of the payload is at most the
  -- size of what it points to: nothing behind a descriptor, a string or the feature report is sent, and
  -- nothing is received behind the buffer of the feature report.
  pub process_setup-IsWithin : (s : Bus chip.Hw) → IsWithin (process_setup chip udd r s).1.control
  unfolding process_setup
  process_setup-IsWithin s =
      let b = begun-IsWithin s in
      let std : Bool × Bus chip.Hw =
        if setup_type r == Protocol.req_type_standard
        then reqstd chip udd r (begun chip udd s)
        else (false, begun chip udd s) in
      let to_ep : Bus chip.Hw → Bool × Bus chip.Hw = λ s2.
        if recipient r == Protocol.req_recip_endpoint then req_ep chip udd r s2 else (false, s2) in
      let to_iface : Bus chip.Hw → Bool × Bus chip.Hw = λ s1.
        or_else chip udd
          (if recipient r == Protocol.req_recip_interface
            then req_iface chip udd r s1
            else (false, s1))
          to_ep in
      either-IsWithin (is_in r && r.w_length == 0) (false, begun chip udd s)
        (or_else chip udd std to_iface) b
        (or_else-IsWithin std to_iface
          (either-IsWithin (setup_type r == Protocol.req_type_standard)
            (reqstd chip udd r (begun chip udd s)) (false, begun chip udd s)
            (reqstd-IsWithin chip udd r (begun chip udd s) b) b)
          (λ s1 h.
            or_else-IsWithin
              (if recipient r == Protocol.req_recip_interface
                then req_iface chip udd r s1
                else (false, s1))
              to_ep
              (either-IsWithin (recipient r == Protocol.req_recip_interface)
                (req_iface chip udd r s1) (false, s1) (req_iface-IsWithin s1 h) h)
              (λ s2 k.
                either-IsWithin (recipient r == Protocol.req_recip_endpoint) (req_ep chip udd r s2)
                  (false, s2) (req_ep-IsWithin s2 k) k)))
