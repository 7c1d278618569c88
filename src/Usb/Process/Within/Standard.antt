-- ===== src/Usb/Process/Within/Standard.antt =====
-- The standard requests, and what a payload may be.
use hid_bootloader.Base.{ℕ, zero, suc, ◌+◌, ◌%◌, ◌^◌, ◌≤◌, ◌≡◌, refl, arith, length}
use hid_bootloader.Chip.{Chip}
use hid_bootloader.Usb.{Setup, Control, Payload, unset, sends, fills_feature, Bus, Udd}
use hid_bootloader.Usb.Descriptors.{udi_hid_report_feature_size}
use hid_bootloader.Usb.Hid.{generic_report_in_sent}
use hid_bootloader.Usb.Interface.{num_interfaces, iface_disable, iface_enable, reset}
use hid_bootloader.Usb.Requests.{
  dev_get_status, ep_get_status, dev_clear_feature, ep_clear_feature, dev_set_feature,
  ep_set_feature, dev_set_address, dev_get_str_desc, find_descriptor, dev_get_descriptor,
  dev_get_configuration, enable_ifaces, dev_set_configuration, iface_get_setting, iface_set_setting,
}
use hid_bootloader.Usb.Process.{reqstd_get, reqstd_set, reqstd}
use hid_bootloader.Usb.Process.Within.Keeps.{
  frame, update_iface_desc-frame, iface_disable-frame, iface_enable-frame, reset-control,
}

-- The bytes that may be read from the buffer, or written to it.
abbrev pub capacity : Payload → ℕ
capacity unset = 0
capacity (sends bytes) = length bytes
capacity fills_feature = udi_hid_report_feature_size

abbrev pub IsWithin : Control → Type 0
IsWithin c = c.payload_size ≤ capacity c.payload

module _ (chip : Chip) (udd : Udd chip.Hw) (r : Setup) where
  find_descriptor-IsWithin :
      (s : Bus chip.Hw) → IsWithin s.control → IsWithin (find_descriptor chip udd r s).1.control
  unfolding find_descriptor dev_get_str_desc
  find_descriptor-IsWithin s h = ground arith

  dev_get_status-IsWithin :
      (s : Bus chip.Hw) → IsWithin s.control → IsWithin (dev_get_status chip udd r s).1.control
  unfolding dev_get_status
  dev_get_status-IsWithin s h = ground (arith)

  ep_get_status-IsWithin :
      (s : Bus chip.Hw) → IsWithin s.control → IsWithin (ep_get_status chip udd r s).1.control
  unfolding ep_get_status
  ep_get_status-IsWithin s h = ground (arith)

  dev_get_descriptor-IsWithin :
      (s : Bus chip.Hw) → IsWithin s.control → IsWithin (dev_get_descriptor chip udd r s).1.control
  unfolding dev_get_descriptor
  dev_get_descriptor-IsWithin s h = ground (arith, find_descriptor-IsWithin s h)

  dev_get_configuration-IsWithin :
      (s : Bus chip.Hw)
      → IsWithin s.control
      → IsWithin (dev_get_configuration chip udd r s).1.control
  unfolding dev_get_configuration
  dev_get_configuration-IsWithin s h = ground (arith)

  iface_get_setting-IsWithin :
      (s : Bus chip.Hw) → IsWithin s.control → IsWithin (iface_get_setting chip udd r s).1.control
  unfolding iface_get_setting
  iface_get_setting-IsWithin s h =
      ground (arith, update_iface_desc-frame chip udd (r.w_index % 2 ^ 8) 0 s)

  reqstd_get-IsWithin :
      (s : Bus chip.Hw) → IsWithin s.control → IsWithin (reqstd_get chip udd r s).1.control
  unfolding reqstd_get
  reqstd_get-IsWithin s h = ground (
    arith,
    dev_get_status-IsWithin s h,
    dev_get_descriptor-IsWithin s h,
    dev_get_configuration-IsWithin s h,
    iface_get_setting-IsWithin s h,
    ep_get_status-IsWithin s h,
  )

  pub enable_ifaces-frame :
      (left n : ℕ) (s : Bus chip.Hw) → frame (enable_ifaces chip udd left n s).1 ≡ frame s
  unfolding enable_ifaces
  enable_ifaces-frame zero n s = refl
  enable_ifaces-frame (suc left) n s = ground (
    arith,
    enable_ifaces-frame left (n + 1) (iface_enable chip udd n 0 s).1,
    iface_enable-frame chip udd n 0 s,
  )

  dev_set_configuration-control :
      (s : Bus chip.Hw) → (dev_set_configuration chip udd r s).1.control ≡ s.control
  unfolding dev_set_configuration
  dev_set_configuration-control s =
      let s' : Bus chip.Hw = record (reset chip udd s) { num_configuration = r.w_value % 2 ^ 8 } in
      ground (arith, enable_ifaces-frame num_interfaces 0 s', reset-control chip udd s)

  pub iface_set_setting-frame :
      (s : Bus chip.Hw) → frame (iface_set_setting chip udd r s).1 ≡ frame s
  unfolding iface_set_setting
  iface_set_setting-frame s =
      let n : ℕ = r.w_index % 2 ^ 8 in
      ground (
        arith,
        iface_disable-frame chip udd n s,
        iface_enable-frame chip udd n (r.w_value % 2 ^ 8) (iface_disable chip udd n s).1,
      )

  dev_set_address-IsWithin :
      (s : Bus chip.Hw) → IsWithin s.control → IsWithin (dev_set_address chip udd r s).1.control
  unfolding dev_set_address
  dev_set_address-IsWithin s h = ground (arith)

  dev_clear_feature-IsWithin :
      (s : Bus chip.Hw) → IsWithin s.control → IsWithin (dev_clear_feature chip udd r s).1.control
  unfolding dev_clear_feature
  dev_clear_feature-IsWithin s h = ground (arith)

  ep_clear_feature-IsWithin :
      (s : Bus chip.Hw) → IsWithin s.control → IsWithin (ep_clear_feature chip udd r s).1.control
  unfolding ep_clear_feature
  ep_clear_feature-IsWithin s h = ground (arith)

  ep_set_feature-IsWithin :
      (s : Bus chip.Hw) → IsWithin s.control → IsWithin (ep_set_feature chip udd r s).1.control
  unfolding ep_set_feature generic_report_in_sent
  ep_set_feature-IsWithin s h = ground (arith)

  reqstd_set-IsWithin :
      (s : Bus chip.Hw) → IsWithin s.control → IsWithin (reqstd_set chip udd r s).1.control
  unfolding reqstd_set dev_set_feature
  reqstd_set-IsWithin s h = ground (
    arith,
    dev_set_address-IsWithin s h,
    dev_clear_feature-IsWithin s h,
    ep_clear_feature-IsWithin s h,
    ep_set_feature-IsWithin s h,
    dev_set_configuration-control s,
    iface_set_setting-frame s,
  )

  pub reqstd-IsWithin :
      (s : Bus chip.Hw) → IsWithin s.control → IsWithin (reqstd chip udd r s).1.control
  unfolding reqstd
  reqstd-IsWithin s h = ground (arith, reqstd_get-IsWithin s h, reqstd_set-IsWithin s h)
