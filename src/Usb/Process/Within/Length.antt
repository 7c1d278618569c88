-- ===== src/Usb/Process/Within/Length.antt =====
-- The answers to standard requests are at most as long as the host asks for.
use hid_bootloader.Base.{
  ℕ, zero, suc, ◌+◌, ◌%◌, ◌^◌, ◌≤◌, ◌==◌, ◌≡◌, arith, Bool, true, false, if◌then◌else◌, ◌&&◌,
}
use hid_bootloader.Chip.{Chip}
use hid_bootloader.Usb.{Setup, is_in, setup_type, recipient, Bus, Udd}
use hid_bootloader.Usb.Protocol
use hid_bootloader.Usb.Hid.{reqstdifaceget_descriptor, hid_setup}
use hid_bootloader.Usb.Interface.{num_interfaces, update_iface_desc}
use hid_bootloader.Usb.Requests.{
  dev_get_status, ep_get_status, dev_get_descriptor, dev_get_configuration, iface_get_setting,
}
use hid_bootloader.Usb.Process.{
  reqstd_get, reqstd, req_iface, req_ep_loop, req_ep, begun, process_setup,
}

module _ (chip : Chip) (udd : Udd chip.Hw) (r : Setup) where
  -- If the request is accepted, then with a payload of at most the length that it asks for.
  abbrev Bounded : Bool × Bus chip.Hw → Type 0
  Bounded o = o.0 ≡ true → o.1.control.payload_size ≤ r.w_length

  dev_get_status-Bounded : (s : Bus chip.Hw) → Bounded (dev_get_status chip udd r s)
  unfolding dev_get_status
  dev_get_status-Bounded s = ground arith

  ep_get_status-Bounded : (s : Bus chip.Hw) → Bounded (ep_get_status chip udd r s)
  unfolding ep_get_status
  ep_get_status-Bounded s = ground arith

  dev_get_descriptor-Bounded : (s : Bus chip.Hw) → Bounded (dev_get_descriptor chip udd r s)
  unfolding dev_get_descriptor
  dev_get_descriptor-Bounded s = ground arith

  dev_get_configuration-Bounded : (s : Bus chip.Hw) → Bounded (dev_get_configuration chip udd r s)
  unfolding dev_get_configuration
  dev_get_configuration-Bounded s = ground arith

  iface_get_setting-Bounded : (s : Bus chip.Hw) → Bounded (iface_get_setting chip udd r s)
  unfolding iface_get_setting
  iface_get_setting-Bounded s = ground arith

  reqstd_get-Bounded : (s : Bus chip.Hw) → Bounded (reqstd_get chip udd r s)
  unfolding reqstd_get
  reqstd_get-Bounded s = ground (
    arith,
    dev_get_status-Bounded s,
    ep_get_status-Bounded s,
    dev_get_descriptor-Bounded s,
    dev_get_configuration-Bounded s,
    iface_get_setting-Bounded s,
  )

  reqstdifaceget_descriptor-Bounded :
      (s : Bus chip.Hw) → Bounded (reqstdifaceget_descriptor chip udd r s)
  unfolding reqstdifaceget_descriptor
  reqstdifaceget_descriptor-Bounded s = ground arith

  module _ (standard : setup_type r ≡ Protocol.req_type_standard) (asks : is_in r ≡ true) where
    reqstd-Bounded : (s : Bus chip.Hw) → Bounded (reqstd chip udd r s)
    unfolding reqstd
    reqstd-Bounded s = rw asks (reqstd_get-Bounded s)

    hid_setup-Bounded : (s : Bus chip.Hw) → Bounded (hid_setup chip udd r s)
    unfolding hid_setup
    hid_setup-Bounded s = rw standard (ground (arith, reqstdifaceget_descriptor-Bounded s))

    req_iface-Bounded : (s : Bus chip.Hw) → Bounded (req_iface chip udd r s)
    unfolding req_iface
    req_iface-Bounded s =
        let n : ℕ = r.w_index % 2 ^ 8 in
        let s1 : Bus chip.Hw = (update_iface_desc chip udd n 0 s).1 in
        let s2 : Bus chip.Hw = (update_iface_desc chip udd n 0 s1).1 in
        ground (arith, hid_setup-Bounded s2)

    req_ep_loop-Bounded : (left n : ℕ) (s : Bus chip.Hw) → Bounded (req_ep_loop chip udd left n r s)
    unfolding req_ep_loop
    req_ep_loop-Bounded zero n s = λ e. cc
    req_ep_loop-Bounded (suc left) n s =
        let s1 : Bus chip.Hw = (update_iface_desc chip udd n 0 s).1 in
        ground (
          arith,
          hid_setup-Bounded s1,
          req_ep_loop-Bounded left (n + 1) (hid_setup chip udd r s1).1,
        )

    req_ep-Bounded : (s : Bus chip.Hw) → Bounded (req_ep chip udd r s)
    unfolding req_ep
    req_ep-Bounded s = ground (arith, req_ep_loop-Bounded num_interfaces 0 s)

    either-Bounded :
        (b : Bool) (x y : Bool × Bus chip.Hw) → Bounded x → Bounded y → Bounded (if b then x else y)
    either-Bounded true x y h k = h
    either-Bounded false x y h k = k

    refused-Bounded : (s : Bus chip.Hw) → Bounded (false, s)
    refused-Bounded s e = cc

    -- A standard request for data that is accepted, by whichever decoder, is answered with at most the
    -- number of bytes that the host asks for.
    pub process_setup-fits :
        (s : Bus chip.Hw)
        → (process_setup chip udd r s).0 ≡ true
        → (process_setup chip udd r s).1.control.payload_size ≤ r.w_length
    unfolding process_setup
    process_setup-fits s =
        let b : Bus chip.Hw = begun chip udd s in
        let std : Bool × Bus chip.Hw =
          if setup_type r == Protocol.req_type_standard then reqstd chip udd r b else (false, b) in
        let iface : Bool × Bus chip.Hw =
          if recipient r == Protocol.req_recip_interface
          then req_iface chip udd r std.1
          else (false, std.1) in
        let ep : Bool × Bus chip.Hw =
          if recipient r == Protocol.req_recip_endpoint
          then req_ep chip udd r iface.1
          else (false, iface.1) in
        either-Bounded (is_in r && r.w_length == 0) (false, b)
          (if std.0 then std else if iface.0 then iface else ep) (refused-Bounded b)
          (either-Bounded std.0 std (if iface.0 then iface else ep)
            (either-Bounded (setup_type r == Protocol.req_type_standard) (reqstd chip udd r b)
              (false, b) (reqstd-Bounded b) (refused-Bounded b))
            (either-Bounded iface.0 iface ep
              (either-Bounded (recipient r == Protocol.req_recip_interface)
                (req_iface chip udd r std.1) (false, std.1) (req_iface-Bounded std.1)
                (refused-Bounded std.1))
              (either-Bounded (recipient r == Protocol.req_recip_endpoint)
                (req_ep chip udd r iface.1) (false, iface.1) (req_ep-Bounded iface.1)
                (refused-Bounded iface.1))))
