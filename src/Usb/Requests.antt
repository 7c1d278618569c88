-- ===== src/Usb/Requests.antt =====
-- udc.c: the standard requests.
use hid_bootloader.Base.{
  ℕ, zero, suc, ◌+◌, ◌-◌, ◌*◌, ◌%◌, ◌^◌, ◌/◌, u8, bit_and, ◌==◌, ltb, leb, Bool, true, false, not,
  if◌then◌else◌, List, [], ◌∷◌, get_or, length,
}
use hid_bootloader.Chip.{Chip}
use hid_bootloader.Usb.{Setup, valid_address, Bus, Udd, with_bus_hw, set_setup_payload}
use hid_bootloader.Usb.Protocol
use hid_bootloader.Usb.Descriptors.{
  udc_desc, udc_device_desc, conf_word, udc_string_desc_languageid, udc_string_manufacturer_name,
  udc_string_product_name,
}
use hid_bootloader.Usb.Hid.{generic_getsetting, lesser}
use hid_bootloader.Usb.Interface.{
  num_interfaces, update_iface_desc, iface_disable, iface_enable, aborted, reset,
}

-- The characters of a string as 16-bit values.
abbrev pub wide : List ℕ → List ℕ
wide [] = []
wide (c ∷ cs) = c ∷ 0 ∷ wide cs

-- udc_string_desc, filled from a string
abbrev pub string_desc : List ℕ → List ℕ
string_desc str = u8 (2 + length str * 2) ∷ Protocol.dt_string ∷ wide str

-- udc_config.confdev_lsfs->bNumConfigurations
abbrev pub num_configurations : ℕ
num_configurations = get_or udc_device_desc 17 0

module _ (chip : Chip) (udd : Udd chip.Hw) where
  unfoldable pub dev_get_status : Setup → Bus chip.Hw → Bool × Bus chip.Hw
  dev_get_status r s =
      if not (r.w_length == 2)
      then (false, s)
      else (true, set_setup_payload (s.device_status % 2 ^ 8 ∷ s.device_status / 2 ^ 8 ∷ []) 2 s)

  unfoldable pub ep_get_status : Setup → Bus chip.Hw → Bool × Bus chip.Hw
  ep_get_status r s =
      if not (r.w_length == 2)
      then (false, s)
      else (let status =
            if udd.ep_is_halted (r.w_index % 2 ^ 8) s.device.hw
            then Protocol.ep_status_halted
            else 0 in
          (true, set_setup_payload (status ∷ 0 ∷ []) 2 s))

  -- The status loses its bit 1.
  unfoldable pub dev_clear_feature : Setup → Bus chip.Hw → Bool × Bus chip.Hw
  dev_clear_feature r s =
      if not (r.w_length == 0)
      then (false, s)
      else if r.w_value == Protocol.dev_feature_remote_wakeup
      then (
        true,
        record s {
          device_status = bit_and s.device_status (2 ^ 16 - 1 - Protocol.dev_status_remotewakeup);
        },
      )
      else (false, s)

  unfoldable pub ep_clear_feature : Setup → Bus chip.Hw → Bool × Bus chip.Hw
  ep_clear_feature r s =
      if not (r.w_length == 0)
      then (false, s)
      else if r.w_value == Protocol.ep_feature_halt
      then (let (ok, hw) = udd.ep_clear_halt (r.w_index % 2 ^ 8) s.device.hw in
          (ok, with_bus_hw s hw))
      else (false, s)

  -- Without remote wakeup and high speed, no feature can be set.
  unfoldable pub dev_set_feature : Setup → Bus chip.Hw → Bool × Bus chip.Hw
  dev_set_feature r s = (false, s)

  unfoldable pub ep_set_feature : Setup → Bus chip.Hw → Bool × Bus chip.Hw
  ep_set_feature r s =
      if not (r.w_length == 0)
      then (false, s)
      else if r.w_value == Protocol.ep_feature_halt
      then (let ep = r.w_index % 2 ^ 8 in
          let (was, hw) = udd.ep_abort ep s.device.hw in
          let s' = aborted chip udd ep was (with_bus_hw s hw) in
          let (ok, hw') = udd.ep_set_halt ep s'.device.hw in (ok, with_bus_hw s' hw'))
      else (false, s)

  -- udc_valid_address, at the end of the request
  unfoldable pub set_valid_address : Setup → Bus chip.Hw → Bus chip.Hw
  set_valid_address r s = with_bus_hw s (udd.set_address (bit_and r.w_value 0x7F) s.device.hw)

  unfoldable pub dev_set_address : Setup → Bus chip.Hw → Bool × Bus chip.Hw
  dev_set_address r s =
      if not (r.w_length == 0)
      then (false, s)
      else (true, record s { control = record s.control { callback = valid_address } })

  abbrev pub send_string : List ℕ → Bus chip.Hw → Bool × Bus chip.Hw
  send_string str s = (true, set_setup_payload (string_desc str) (u8 (2 + length str * 2)) s)

  unfoldable pub dev_get_str_desc : Setup → Bus chip.Hw → Bool × Bus chip.Hw
  dev_get_str_desc r s =
      let index = r.w_value % 2 ^ 8 in
      if index == 0
      then (true, set_setup_payload udc_string_desc_languageid 4 s)
      else if index == 1
      then send_string udc_string_manufacturer_name s
      else if index == 2
      then send_string udc_string_product_name s
      else (false, s)

  -- The switch of udc_req_std_dev_get_descriptor: there is no BOS descriptor.
  unfoldable pub find_descriptor : Setup → Bus chip.Hw → Bool × Bus chip.Hw
  unfolding dev_get_str_desc
  find_descriptor r s =
      let kind = u8 (r.w_value / 2 ^ 8) in
      let conf_num = r.w_value % 2 ^ 8 in
      if kind == Protocol.dt_device
      then (true, set_setup_payload udc_device_desc (get_or udc_device_desc 0 0) s)
      else if kind == Protocol.dt_configuration
      then (if leb num_configurations conf_num
          then (false, s)
          else (true, set_setup_payload udc_desc (conf_word 2) s))
      else if kind == Protocol.dt_string
      then dev_get_str_desc r s
      else (false, s)

  -- udc_req_std_dev_get_descriptor
  unfoldable pub dev_get_descriptor : Setup → Bus chip.Hw → Bool × Bus chip.Hw
  unfolding find_descriptor
  dev_get_descriptor r s =
      let (ok, s') = find_descriptor r s in
      if not ok then (false, s') else (
        true,
        record s' {
          control = record s'.control { payload_size = lesser r.w_length s'.control.payload_size };
        },
      )

  unfoldable pub dev_get_configuration : Setup → Bus chip.Hw → Bool × Bus chip.Hw
  dev_get_configuration r s =
      if not (r.w_length == 1)
      then (false, s)
      else (true, set_setup_payload (s.num_configuration ∷ []) 1 s)

  -- The loop of udc_req_std_dev_set_configuration, with the interfaces that are left.
  unfoldable pub enable_ifaces : ℕ → ℕ → Bus chip.Hw → Bool × Bus chip.Hw
  enable_ifaces zero iface_num s = (true, s)
  enable_ifaces (suc left) iface_num s =
      let rest = enable_ifaces left (iface_num + 1) in
      let (ok, s') = iface_enable chip udd iface_num 0 s in if not ok then (false, s') else rest s'

  -- udc_req_std_dev_set_configuration
  unfoldable pub dev_set_configuration : Setup → Bus chip.Hw → Bool × Bus chip.Hw
  unfolding enable_ifaces reset
  dev_set_configuration r s =
      let number = r.w_value % 2 ^ 8 in
      if not (r.w_length == 0)
      then (false, s)
      else if udd.getaddress s.device.hw == 0
      then (false, s)
      else if ltb num_configurations number
      then (false, s)
      else (let s' = record (reset chip udd s) { num_configuration = number } in
          if number == 0 then (true, s') else enable_ifaces num_interfaces 0 s')

  unfoldable pub iface_get_setting : Setup → Bus chip.Hw → Bool × Bus chip.Hw
  unfolding update_iface_desc
  iface_get_setting r s =
      let iface_num = r.w_index % 2 ^ 8 in
      if not (r.w_length == 1)
      then (false, s)
      else if s.num_configuration == 0
      then (false, s)
      else if leb num_interfaces iface_num
      then (false, s)
      else (let (found, s') = update_iface_desc chip udd iface_num 0 s in
          if not found
          then (false, s')
          else (let setting = generic_getsetting chip udd in
              (true, set_setup_payload (setting ∷ []) 1 (record s' { iface_setting = setting }))))

  unfoldable pub iface_set_setting : Setup → Bus chip.Hw → Bool × Bus chip.Hw
  unfolding iface_disable iface_enable
  iface_set_setting r s =
      let iface_num = r.w_index % 2 ^ 8 in
      if not (r.w_length == 0)
      then (false, s)
      else if s.num_configuration == 0
      then (false, s)
      else (let (ok, s') = iface_disable chip udd iface_num s in
          if not ok then (false, s') else iface_enable chip udd iface_num (r.w_value % 2 ^ 8) s')
