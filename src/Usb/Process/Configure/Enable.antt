-- ===== src/Usb/Process/Configure/Enable.antt =====
-- SET_CONFIGURATION of the bootloader's configuration.
use hid_bootloader.Base.{ℕ, ◌+◌, ◌∙◌, none, some, suc, ◌==◌, ◌≡◌, refl, arith, Bool, true, false}
use hid_bootloader.Chip.{Chip}
use hid_bootloader.Usb.{Setup, no_callback, Bus, Udd, with_bus_hw}
use hid_bootloader.Usb.Protocol
use hid_bootloader.Usb.Descriptors.{conf_byte, conf_word}
use hid_bootloader.Usb.Hid.{report_out_enable, generic_enable}
use hid_bootloader.Usb.Interface.{
  next_desc_loop, next_desc_in_iface, find_iface, update_iface_desc, alloc_endpoints, iface_enable,
  reset,
}
use hid_bootloader.Usb.Requests.{enable_ifaces, dev_set_configuration}
use hid_bootloader.Usb.Process.{reqstd_set, reqstd, begun, process_setup}

abbrev pub set_configuration : ℕ → Setup
set_configuration number = record {
  bm_request_type = 0;
  b_request = Protocol.req_set_configuration;
  w_value = number;
  w_index = 0;
  w_length = 0;
}

-- The endpoint descriptors of the interface.
pub endpoint_in : next_desc_in_iface 9 Protocol.dt_endpoint ≡ some 27
unfolding next_desc_in_iface next_desc_loop
endpoint_in = refl

pub endpoint_out : next_desc_in_iface 27 Protocol.dt_endpoint ≡ some 34
unfolding next_desc_in_iface next_desc_loop
endpoint_out = refl

pub endpoint_end : next_desc_in_iface 34 Protocol.dt_endpoint ≡ none
unfolding next_desc_in_iface next_desc_loop
endpoint_end = refl

module _ (chip : Chip) (udd : Udd chip.Hw) where
  -- The driver behind the allocation of the IN endpoint, of both, and with the OUT endpoint armed.
  abbrev pub in_allocated : chip.Hw → Bool × chip.Hw
  in_allocated hw = udd.ep_alloc 0x81 Protocol.ep_type_interrupt 64 hw

  abbrev pub both_allocated : chip.Hw → Bool × chip.Hw
  both_allocated hw = udd.ep_alloc 0x02 Protocol.ep_type_interrupt 64 (in_allocated hw).1

  abbrev pub armed : chip.Hw → Bool × chip.Hw
  armed hw = udd.run_out_endpoint (both_allocated hw).1

  alloc_endpoints-some :
      (fuel p ep : ℕ) (s : Bus chip.Hw)
      → next_desc_in_iface p Protocol.dt_endpoint ≡ some ep
      → (udd.ep_alloc (conf_byte (ep + 2)) (conf_byte (ep + 3)) (conf_word (ep + 4)) s.device.hw).0
        ≡ true
      → alloc_endpoints chip udd (suc fuel) p s
        ≡ alloc_endpoints chip udd fuel ep (
            with_bus_hw s
              (udd.ep_alloc
                (conf_byte (ep + 2))
                (conf_byte (ep + 3))
                (conf_word (ep + 4))
                s.device.hw).1)
  unfolding alloc_endpoints
  alloc_endpoints-some fuel p ep s h k = rw (h, alloc_endpoints) (rw k refl)

  alloc_endpoints-none :
      (fuel p : ℕ) (s : Bus chip.Hw)
      → next_desc_in_iface p Protocol.dt_endpoint ≡ none
      → alloc_endpoints chip udd (suc fuel) p s ≡ (true, s)
  unfolding alloc_endpoints
  alloc_endpoints-none fuel p s h = rw (h, alloc_endpoints) refl

  alloc_endpoints-both :
      (s : Bus chip.Hw)
      → (in_allocated s.device.hw).0 ≡ true
      → (both_allocated s.device.hw).0 ≡ true
      → alloc_endpoints chip udd 41 9 s ≡ (true, with_bus_hw s (both_allocated s.device.hw).1)
  alloc_endpoints-both s h k =
      let s1 : Bus chip.Hw = with_bus_hw s (in_allocated s.device.hw).1 in
      alloc_endpoints-some 40 9 27 s endpoint_in h
      ∙ alloc_endpoints-some 39 27 34 s1 endpoint_out k
      ∙ alloc_endpoints-none 38 34 (with_bus_hw s (both_allocated s.device.hw).1) endpoint_end

  -- The state with the configuration chosen and its endpoints in use.
  abbrev pub configured : Bus chip.Hw → Bus chip.Hw
  configured s = record s {
    device = record s.device { hw = (armed s.device.hw).1; report_in_free = true };
    control = record s.control { payload_size = 0; callback = no_callback };
    device_status = Protocol.dev_status_bus_powered;
    num_configuration = 1;
    ptr_iface = 9;
    rate = 0;
    protocol = 0;
  }

  enable_ifaces-configured :
      (s : Bus chip.Hw)
      → s.num_configuration ≡ 1
      → (in_allocated s.device.hw).0 ≡ true
      → (both_allocated s.device.hw).0 ≡ true
      → (armed s.device.hw).0 ≡ true
      → enable_ifaces chip udd 1 0 s ≡ (
        true,
        record s {
          device = record s.device { hw = (armed s.device.hw).1; report_in_free = true };
          ptr_iface = 9;
          rate = 0;
          protocol = 0;
        },
      )
  unfolding enable_ifaces iface_enable update_iface_desc find_iface generic_enable report_out_enable
  enable_ifaces-configured s one h k l =
      ground (arith, one, alloc_endpoints-both (record s { ptr_iface = 9 }) h k, l)

  -- reset without a configuration
  pub reset-unconfigured :
      (s : Bus chip.Hw)
      → s.num_configuration ≡ 0
      → reset chip udd s
        ≡ record s { num_configuration = 0; device_status = Protocol.dev_status_bus_powered }
  unfolding reset
  reset-unconfigured s none_chosen = rw none_chosen refl

  dev_set_configuration-configured :
      (s : Bus chip.Hw)
      → s.num_configuration ≡ 0
      → (udd.getaddress s.device.hw == 0) ≡ false
      → (in_allocated s.device.hw).0 ≡ true
      → (both_allocated s.device.hw).0 ≡ true
      → (armed s.device.hw).0 ≡ true
      → dev_set_configuration chip udd (set_configuration 1) s ≡ (
        true,
        record s {
          device = record s.device { hw = (armed s.device.hw).1; report_in_free = true };
          device_status = Protocol.dev_status_bus_powered;
          num_configuration = 1;
          ptr_iface = 9;
          rate = 0;
          protocol = 0;
        },
      )
  unfolding dev_set_configuration
  dev_set_configuration-configured s none_chosen addressed h k l =
      let s1 : Bus chip.Hw = record s {
        num_configuration = 1;
        device_status = Protocol.dev_status_bus_powered;
      } in
      ground
        (arith, addressed, reset-unconfigured s none_chosen, enable_ifaces-configured s1 refl h k l)

  -- On a device with an address and without a configuration, whose driver allocates the two endpoints and
  -- arms the OUT endpoint: SET_CONFIGURATION of configuration 1 is accepted. It allocates the IN endpoint
  -- 0x81 and the OUT endpoint 0x02, both interrupt endpoints of 64 bytes, in this order, arms the OUT
  -- endpoint, frees the buffer of the IN report, and resets the idle rate and the protocol.
  pub process_setup-configured :
      (s : Bus chip.Hw)
      → s.num_configuration ≡ 0
      → (udd.getaddress s.device.hw == 0) ≡ false
      → (in_allocated s.device.hw).0 ≡ true
      → (both_allocated s.device.hw).0 ≡ true
      → (armed s.device.hw).0 ≡ true
      → process_setup chip udd (set_configuration 1) s ≡ (true, configured s)
  unfolding process_setup reqstd reqstd_set
  process_setup-configured s none_chosen addressed h k l =
      rw (dev_set_configuration-configured (begun chip udd s) none_chosen addressed h k l) refl
