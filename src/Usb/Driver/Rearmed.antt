-- ===== src/Usb/Driver/Rearmed.antt =====
-- Closed endpoints, and the way of a host from there to a command.
use hid_bootloader.Base.{ℕ, ◌==◌, ◌≡◌, refl, sym, true, false, bit_and, Memory, List, length}
use mathlib.Core.Path.{subst}
use hid_bootloader.Chip.{Chip}
use hid_bootloader.Firmware.{hid_set_feature_report_out}
use hid_bootloader.Usb.{Bus}
use hid_bootloader.Usb.Descriptors.{udi_hid_report_feature_size}
use hid_bootloader.Usb.Process.Configure.Enable.{in_allocated, both_allocated, armed}
use hid_bootloader.Usb.Endpoint.{Endpoint, setup}
use hid_bootloader.Usb.Endpoint.BringUp.{brought_up, brought_up-delivers}
use hid_bootloader.Usb.Jobs.{Slot, disabled, trans_complet_out, ep_run, ep_abort, ep_alloc, ep_free}
use hid_bootloader.Usb.Driver.{Driver, on_slot, wired, driver_udd}

-- An endpoint that is not allocated and has no job.
pub record IsClosed (s : Slot) : Type 0 where
  pub disabled_kind : s.kind ≡ disabled
  pub idle : s.job.busy ≡ false

-- The two endpoints of the interface, in the table of the endpoints.
abbrev pub BothClosed : {Hw : Type 0} → Driver Hw → Type 0
BothClosed d = IsClosed (d.slot 3) × IsClosed (d.slot 4)

module _ (chip : Chip) where
  -- The driver allocates both endpoints and arms the OUT endpoint.
  pub both-IsArmed :
      (d : Driver chip.Hw)
      → BothClosed d
      → ((in_allocated (wired chip) driver_udd d).0 ≡ true)
        × ((both_allocated (wired chip) driver_udd d).0 ≡ true)
        × ((armed (wired chip) driver_udd d).0 ≡ true)
        × (((armed (wired chip) driver_udd d).1.slot 4).job.busy ≡ true)
        × (((armed (wired chip) driver_udd d).1.slot 3).job.busy ≡ false)
  unfolding ep_alloc ep_run trans_complet_out
  both-IsArmed d (closed_in, closed_out) = (
    rw closed_in.disabled_kind refl,
    rw closed_out.disabled_kind refl,
    rw (closed_out.disabled_kind, closed_out.idle) refl,
    rw (closed_out.disabled_kind, closed_out.idle) refl,
    rw (closed_in.disabled_kind, closed_in.idle) refl,
  )

  -- Whatever the jobs of the driver are, both endpoints are closed behind a reset of a configured device.
  pub ep_free-BothClosed :
      (d : Driver chip.Hw) → BothClosed (on_slot 0x02 ep_free (on_slot 0x81 ep_free d).1).1
  unfolding ep_free ep_abort
  ep_free-BothClosed d =
      (record { disabled_kind = refl; idle = refl }, record { disabled_kind = refl; idle = refl })

  -- The way from a reset whose bus is known.
  pub reset-delivers :
      (address : ℕ) (bytes : List ℕ) (stack : Memory) (b : Bus (wired chip).Hw)
      (f : Endpoint (wired chip).Hw)
      → f.bus ≡ b
      → f.state ≡ setup
      → b.num_configuration ≡ 0
      → length b.report_feature ≡ udi_hid_report_feature_size
      → length bytes ≡ udi_hid_report_feature_size
      → (bit_and address 0x7F == 0) ≡ false
      → (in_allocated
          (wired chip)
          driver_udd
          (record b.device.hw { address = bit_and address 0x7F })).0
        ≡ true
      → (both_allocated
          (wired chip)
          driver_udd
          (record b.device.hw { address = bit_and address 0x7F })).0
        ≡ true
      → (armed (wired chip) driver_udd (record b.device.hw { address = bit_and address 0x7F })).0
        ≡ true
      → ((brought_up (wired chip) driver_udd stack address bytes f).bus.device
          ≡ hid_set_feature_report_out (wired chip) bytes stack (record b.device {
            hw =
                (armed
                  (wired chip)
                  driver_udd
                  (record b.device.hw { address = bit_and address 0x7F })).1;
            report_in_free = true;
          }))
        × ((brought_up (wired chip) driver_udd stack address bytes f).state ≡ setup)
  reset-delivers address bytes stack b f same waits none_chosen room five valid h k l =
      let g : Endpoint (wired chip).Hw = record f { bus = b } in
      subst
        (λ (c : Bus (wired chip).Hw).
          ((brought_up (wired chip) driver_udd stack address bytes
              (record f { bus = c })).bus.device
            ≡ hid_set_feature_report_out (wired chip) bytes stack (record b.device {
              hw =
                  (armed (wired chip) driver_udd
                    (record b.device.hw { address = bit_and address 0x7F })).1;
              report_in_free = true;
            }))
          × ((brought_up (wired chip) driver_udd stack address bytes (record f { bus = c })).state
              ≡ setup))
        (sym same)
        (brought_up-delivers (wired chip) driver_udd stack address bytes g waits none_chosen five
          room valid h k l)
