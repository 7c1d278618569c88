-- ===== src/Usb/Interface.antt =====
-- udc.c: the search for descriptors, and the interfaces that a configuration enables.
use hid_bootloader.Base.{
  ℕ, zero, suc, ◌+◌, ◌==◌, ltb, leb, Bool, true, false, not, if◌then◌else◌, ◌&&◌, Option, none,
  some,
}
use hid_bootloader.Chip.{Chip}
use hid_bootloader.Usb.{Bus, Udd, with_bus_hw}
use hid_bootloader.Usb.Protocol
use hid_bootloader.Usb.Descriptors.{conf_byte, conf_word, udi_hid_generic_ep_in}
use hid_bootloader.Usb.Hid.{generic_enable, generic_getsetting, generic_report_in_sent}

-- udc_get_eof_conf, as an offset
abbrev pub eof_conf : ℕ
eof_conf = conf_word 2

abbrev pub num_interfaces : ℕ
num_interfaces = conf_byte 4

-- The loop of udc_next_desc_in_iface with the descriptors that it may still pass.
unfoldable pub next_desc_loop : ℕ → ℕ → ℕ → Option ℕ
next_desc_loop zero desc desc_id = none
next_desc_loop (suc fuel) desc desc_id =
    let rest = next_desc_loop fuel (desc + conf_byte desc) desc_id in
    if not (ltb desc eof_conf)
    then none
    else if Protocol.dt_interface == conf_byte (desc + 1)
    then none
    else if desc_id == conf_byte (desc + 1)
    then some desc
    else rest

-- udc_next_desc_in_iface: `none` is NULL. The offset grows with each descriptor, so the bytes of the
-- configuration bound the loop.
unfoldable pub next_desc_in_iface : ℕ → ℕ → Option ℕ
unfolding next_desc_loop
next_desc_in_iface desc desc_id = next_desc_loop eof_conf (desc + conf_byte desc) desc_id

-- The loop of udc_update_iface_desc: the result, and the last value of udc_ptr_iface.
unfoldable pub find_iface : ℕ → ℕ → ℕ → ℕ → Bool × ℕ
find_iface zero ptr iface_num setting_num = (false, ptr)
find_iface (suc fuel) ptr iface_num setting_num =
    let rest = find_iface fuel (ptr + conf_byte ptr) iface_num setting_num in
    if not (ltb ptr eof_conf)
    then (false, ptr)
    else if Protocol.dt_interface == conf_byte (ptr + 1)
        && iface_num == conf_byte (ptr + 2)
        && setting_num == conf_byte (ptr + 3)
    then (true, ptr)
    else rest

module _ (chip : Chip) (udd : Udd chip.Hw) where
  unfoldable pub update_iface_desc : ℕ → ℕ → Bus chip.Hw → Bool × Bus chip.Hw
  unfolding find_iface
  update_iface_desc iface_num setting_num s =
      if 0 == s.num_configuration
      then (false, s)
      else if leb num_interfaces iface_num
      then (false, s)
      else (let (found, ptr) = find_iface eof_conf 0 iface_num setting_num in
          (found, record s { ptr_iface = ptr }))

  -- The end of a transfer that was aborted: the callback of the IN endpoint frees its buffer, that of
  -- the OUT endpoint returns at once.
  abbrev pub aborted : ℕ → Bool → Bus chip.Hw → Bus chip.Hw
  aborted ep was s =
      if was && ep == udi_hid_generic_ep_in then generic_report_in_sent chip udd s else s

  abbrev pub free_endpoint : ℕ → Bus chip.Hw → Bus chip.Hw
  free_endpoint ep s =
      let (was, hw) = udd.ep_free ep s.device.hw in aborted ep was (with_bus_hw s hw)

  -- The loop of udc_iface_disable over the endpoints behind a descriptor.
  unfoldable pub free_endpoints : ℕ → ℕ → Bus chip.Hw → Bus chip.Hw
  free_endpoints zero ep_desc s = s
  free_endpoints (suc fuel) ep_desc s =
      let rest = free_endpoints fuel in
      elim (next_desc_in_iface ep_desc Protocol.dt_endpoint) [
        | none ↦ s
        | some ep ↦ rest ep (free_endpoint (conf_byte (ep + 2)) s)
      ]

  -- udc_iface_disable. Disabling the HID interface itself does nothing.
  unfoldable pub iface_disable : ℕ → Bus chip.Hw → Bool × Bus chip.Hw
  unfolding update_iface_desc
  iface_disable iface_num s =
      let (first, s1) = update_iface_desc iface_num 0 s in
      if not first
      then (false, s1)
      else (let (current, s2) = update_iface_desc iface_num (generic_getsetting chip udd) s1 in
          if not current then (false, s2) else (true, free_endpoints eof_conf s2.ptr_iface s2))

  -- The loop of udc_iface_enable over the endpoints.
  unfoldable pub alloc_endpoints : ℕ → ℕ → Bus chip.Hw → Bool × Bus chip.Hw
  alloc_endpoints zero ep_desc s = (true, s)
  alloc_endpoints (suc fuel) ep_desc s =
      let rest = alloc_endpoints fuel in
      elim (next_desc_in_iface ep_desc Protocol.dt_endpoint) [
        | none ↦ (true, s)
        | some ep ↦
            let (ok, hw) =
              udd.ep_alloc (conf_byte (ep + 2)) (conf_byte (ep + 3)) (conf_word (ep + 4))
                s.device.hw in
            if not ok then (false, with_bus_hw s hw) else rest ep (with_bus_hw s hw)
      ]

  -- udc_iface_enable
  unfoldable pub iface_enable : ℕ → ℕ → Bus chip.Hw → Bool × Bus chip.Hw
  unfolding update_iface_desc
  iface_enable iface_num setting_num s =
      let (found, s1) = update_iface_desc iface_num setting_num s in
      if not found
      then (false, s1)
      else (let (ok, s2) = alloc_endpoints eof_conf s1.ptr_iface s1 in
          if not ok then (false, s2) else generic_enable chip udd s2)

  -- The loop of udc_reset, with the interfaces that are left.
  unfoldable pub disable_ifaces : ℕ → ℕ → Bus chip.Hw → Bus chip.Hw
  disable_ifaces zero iface_num s = s
  disable_ifaces (suc left) iface_num s =
      let rest = disable_ifaces left (iface_num + 1) in rest (iface_disable iface_num s).1

  -- udc_reset
  unfoldable pub reset : Bus chip.Hw → Bus chip.Hw
  reset s =
      let s' = if s.num_configuration == 0 then s else disable_ifaces num_interfaces 0 s in
      record s' { num_configuration = 0; device_status = Protocol.dev_status_bus_powered }

  -- udc_start and udc_stop
  abbrev pub start : Bus chip.Hw → Bus chip.Hw
  start s = with_bus_hw s (udd.enable s.device.hw)

  abbrev pub stop : Bus chip.Hw → Bus chip.Hw
  stop s = reset (with_bus_hw s (udd.disable s.device.hw))
