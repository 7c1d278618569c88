-- ===== src/Usb/Process/Within/Keeps.antt =====
-- The interfaces are enabled and disabled beside the request and the configuration number.
use hid_bootloader.Base.{
  ℕ, zero, suc, ◌+◌, ◌≡◌, refl, ◌∙◌, arith, List, Bool, true, false, not, if◌then◌else◌, none, some,
}
use hid_bootloader.Chip.{Chip}
use hid_bootloader.Usb.{Control, Bus, Udd, with_bus_hw}
use hid_bootloader.Usb.Protocol
use hid_bootloader.Usb.Descriptors.{conf_byte, conf_word}
use hid_bootloader.Usb.Hid.{generic_enable, report_out_enable, generic_report_in_sent}
use hid_bootloader.Usb.Interface.{
  eof_conf, num_interfaces, next_desc_in_iface, update_iface_desc, free_endpoint, free_endpoints,
  iface_disable, alloc_endpoints, iface_enable, disable_ifaces, reset,
}

-- What an interface does not touch.
abbrev pub frame : {Hw : Type 0} → Bus Hw → Control × ℕ × List ℕ
frame s = (s.control, s.num_configuration, s.report_feature)

module _ (chip : Chip) (udd : Udd chip.Hw) where
  pub update_iface_desc-frame :
      (n k : ℕ) (s : Bus chip.Hw) → frame (update_iface_desc chip udd n k s).1 ≡ frame s
  unfolding update_iface_desc
  update_iface_desc-frame n k s = ground arith

  -- The only interface starts at offset 9.
  pub update_iface_desc-found :
      (n : ℕ) (s : Bus chip.Hw)
      → (update_iface_desc chip udd n 0 s).0 ≡ true
      → (update_iface_desc chip udd n 0 s).1.ptr_iface ≡ 9
  unfolding update_iface_desc
  update_iface_desc-found n s h = ground arith

  free_endpoint-frame : (ep : ℕ) (s : Bus chip.Hw) → frame (free_endpoint chip udd ep s) ≡ frame s
  unfolding generic_report_in_sent
  free_endpoint-frame ep s = ground arith

  free_endpoints-frame :
      (fuel p : ℕ) (s : Bus chip.Hw) → frame (free_endpoints chip udd fuel p s) ≡ frame s
  unfolding free_endpoints
  free_endpoints-frame zero p s = refl
  free_endpoints-frame (suc fuel) p s =
      elim (next_desc_in_iface p Protocol.dt_endpoint)
        as (λ o.
          frame (elim o as (λ _. Bus chip.Hw) [
            | none ↦ s
            | some ep ↦
                free_endpoints chip udd fuel ep (free_endpoint chip udd (conf_byte (ep + 2)) s)
          ])
          ≡ frame s) [
            | none ↦ refl
            | some ep ↦
                free_endpoints-frame fuel ep (free_endpoint chip udd (conf_byte (ep + 2)) s)
                ∙ free_endpoint-frame (conf_byte (ep + 2)) s
          ]

  pub iface_disable-frame :
      (n : ℕ) (s : Bus chip.Hw) → frame (iface_disable chip udd n s).1 ≡ frame s
  unfolding iface_disable
  iface_disable-frame n s = ground (
    arith,
    update_iface_desc-frame n 0 s,
    update_iface_desc-frame n 0 (update_iface_desc chip udd n 0 s).1,
    free_endpoints-frame eof_conf
        (update_iface_desc chip udd n 0 (update_iface_desc chip udd n 0 s).1).1.ptr_iface
        (update_iface_desc chip udd n 0 (update_iface_desc chip udd n 0 s).1).1,
  )

  -- The allocation, which stops at the first endpoint that fails.
  alloc_endpoints-frame :
      (fuel p : ℕ) (s : Bus chip.Hw) → frame (alloc_endpoints chip udd fuel p s).1 ≡ frame s
  unfolding alloc_endpoints
  alloc_endpoints-frame zero p s = refl
  alloc_endpoints-frame (suc fuel) p s =
      elim (next_desc_in_iface p Protocol.dt_endpoint)
        as (λ o.
          frame (
            (elim o as (λ _. Bool × Bus chip.Hw) [
              | none ↦ (true, s)
              | some ep ↦
                  let (ok, hw) =
                    udd.ep_alloc (conf_byte (ep + 2)) (conf_byte (ep + 3)) (conf_word (ep + 4))
                      s.device.hw in
                  if not ok
                  then (false, with_bus_hw s hw)
                  else alloc_endpoints chip udd fuel ep (with_bus_hw s hw)
            ]).1)
          ≡ frame s) [
            | none ↦ refl
            | some ep ↦
                let hw : chip.Hw =
                  (udd.ep_alloc (conf_byte (ep + 2)) (conf_byte (ep + 3)) (conf_word (ep + 4))
                    s.device.hw).1 in
                ground (arith, alloc_endpoints-frame fuel ep (with_bus_hw s hw))
          ]

  generic_enable-frame : (s : Bus chip.Hw) → frame (generic_enable chip udd s).1 ≡ frame s
  unfolding generic_enable report_out_enable
  generic_enable-frame s = ground arith

  pub iface_enable-frame :
      (n k : ℕ) (s : Bus chip.Hw) → frame (iface_enable chip udd n k s).1 ≡ frame s
  unfolding iface_enable
  iface_enable-frame n k s =
      let s1 : Bus chip.Hw = (update_iface_desc chip udd n k s).1 in
      let s2 : Bus chip.Hw = (alloc_endpoints chip udd eof_conf s1.ptr_iface s1).1 in
      ground (
        arith,
        update_iface_desc-frame n k s,
        alloc_endpoints-frame eof_conf s1.ptr_iface s1,
        generic_enable-frame s2,
      )

  disable_ifaces-frame :
      (left n : ℕ) (s : Bus chip.Hw) → frame (disable_ifaces chip udd left n s) ≡ frame s
  unfolding disable_ifaces
  disable_ifaces-frame zero n s = refl
  disable_ifaces-frame (suc left) n s =
      disable_ifaces-frame left (n + 1) (iface_disable chip udd n s).1 ∙ iface_disable-frame n s

  pub reset-control : (s : Bus chip.Hw) → (reset chip udd s).control ≡ s.control
  unfolding reset
  reset-control s = ground (arith, disable_ifaces-frame num_interfaces 0 s)

  pub reset-feature : (s : Bus chip.Hw) → (reset chip udd s).report_feature ≡ s.report_feature
  unfolding reset
  reset-feature s = ground (arith, disable_ifaces-frame num_interfaces 0 s)
