-- ===== src/Usb/Driver/Freed.antt =====
-- What udc_reset does of a configured device: both endpoints of its interface are freed.
use hid_bootloader.Base.{
  ℕ, suc, ◌+◌, ◌∙◌, ◌≡◌, refl, ap, arith, Bool, true, false, ◌||◌, none, some,
}
use hid_bootloader.Chip.{Chip}
use hid_bootloader.Usb.{Bus, Udd, with_bus_hw}
use hid_bootloader.Usb.Protocol
use hid_bootloader.Usb.Descriptors.{conf_byte, udi_hid_generic_ep_in, udi_hid_generic_ep_out}
use hid_bootloader.Usb.Hid.{generic_report_in_sent}
use hid_bootloader.Usb.Interface.{
  next_desc_in_iface, find_iface, update_iface_desc, aborted, free_endpoint, free_endpoints,
  iface_disable, disable_ifaces, reset,
}
use hid_bootloader.Usb.Process.Configure.Enable.{endpoint_in, endpoint_out, endpoint_end}

module _ (chip : Chip) (udd : Udd chip.Hw) where
  free_endpoints-some :
      (fuel p ep : ℕ) (s : Bus chip.Hw)
      → next_desc_in_iface p Protocol.dt_endpoint ≡ some ep
      → free_endpoints chip udd (suc fuel) p s
        ≡ free_endpoints chip udd fuel ep (free_endpoint chip udd (conf_byte (ep + 2)) s)
  unfolding free_endpoints
  free_endpoints-some fuel p ep s h = rw (h, free_endpoints) refl

  free_endpoints-none :
      (fuel p : ℕ) (s : Bus chip.Hw)
      → next_desc_in_iface p Protocol.dt_endpoint ≡ none
      → free_endpoints chip udd (suc fuel) p s ≡ s
  unfolding free_endpoints
  free_endpoints-none fuel p s h = rw (h, free_endpoints) refl

  -- Both endpoints are freed.
  abbrev pub freed : Bus chip.Hw → Bus chip.Hw
  freed s = free_endpoint chip udd 0x02 (free_endpoint chip udd 0x81 s)

  aborted-out : (was : Bool) (s : Bus chip.Hw) → aborted chip udd udi_hid_generic_ep_out was s ≡ s
  aborted-out true s = refl
  aborted-out false s = refl

  -- The buffer of the IN report is free if its transfer was aborted.
  abbrev pub aborted_in : Bool → Bus chip.Hw → Bus chip.Hw
  aborted_in was s = record s {
    device = record s.device { report_in_free = was || s.device.report_in_free };
  }

  pub aborted-in :
      (was : Bool) (s : Bus chip.Hw)
      → aborted chip udd udi_hid_generic_ep_in was s ≡ aborted_in was s
  unfolding generic_report_in_sent
  aborted-in true s = refl
  aborted-in false s = refl

  pub freed-lem :
      (s : Bus chip.Hw)
      → freed s ≡ record s {
        device = record s.device {
          hw = (udd.ep_free 0x02 (udd.ep_free 0x81 s.device.hw).1).1;
          report_in_free = (udd.ep_free 0x81 s.device.hw).0 || s.device.report_in_free;
        };
      }
  freed-lem s =
      ap (λ b. free_endpoint chip udd 0x02 b)
        (aborted-in (udd.ep_free 0x81 s.device.hw).0
          (with_bus_hw s (udd.ep_free 0x81 s.device.hw).1))
      ∙ aborted-out _ _

  free_endpoints-both : (s : Bus chip.Hw) → free_endpoints chip udd 41 9 s ≡ freed s
  free_endpoints-both s =
      free_endpoints-some 40 9 27 s endpoint_in
      ∙ free_endpoints-some 39 27 34 (free_endpoint chip udd 0x81 s) endpoint_out
      ∙ free_endpoints-none 38 34 (freed s) endpoint_end

  pub reset-configured :
      (s : Bus chip.Hw)
      → s.num_configuration ≡ 1
      → reset chip udd s ≡ record (freed (record s { ptr_iface = 9 })) {
        num_configuration = 0;
        device_status = Protocol.dev_status_bus_powered;
      }
  unfolding reset disable_ifaces iface_disable update_iface_desc find_iface
  reset-configured s one = ground (arith, one, free_endpoints-both (record s { ptr_iface = 9 }))
