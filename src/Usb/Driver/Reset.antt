-- ===== src/Usb/Driver/Reset.antt =====
-- A reset of the bus, and the way back to a device that takes commands.
use hid_bootloader.Base.{
  ℕ, ◌∙◌, ◌==◌, ◌≡◌, refl, sym, ap, Bool, true, false, ◌||◌, bit_and, Memory, none, List, length,
}
use mathlib.Core.Path.{subst}
use hid_bootloader.Chip.{Chip}
use hid_bootloader.Firmware.{hid_set_feature_report_out}
use hid_bootloader.Usb.{no_callback, Bus, with_bus_hw}
use hid_bootloader.Usb.Protocol
use hid_bootloader.Usb.Descriptors.{udi_hid_report_feature_size}
use hid_bootloader.Usb.Interface.{aborted, reset}
use hid_bootloader.Usb.Process.Configure.Enable.{armed}
use hid_bootloader.Usb.Endpoint.{Endpoint, setup, ctrl_init}
use hid_bootloader.Usb.Endpoint.Events.{Event, reset_of_bus}
use hid_bootloader.Usb.Endpoint.BringUp.{brought_up}
use hid_bootloader.Usb.Jobs.{control_type, bufsize_8, ep_abort, ep_free}
use hid_bootloader.Usb.Driver.{
  Driver, on_slot, wired, driver_udd, abort_endpoint, abort_endpoints, init_control, bus_reset,
}
use hid_bootloader.Usb.Driver.Freed.{aborted-in, freed-lem, reset-configured}
use hid_bootloader.Usb.Driver.Rearmed.{BothClosed, both-IsArmed, ep_free-BothClosed, reset-delivers}

-- What a reset of the bus brings about: the control endpoint and the device without address,
-- configuration and open endpoints.
pub record IsInitial {Hw : Type 0} (e : Endpoint (Driver Hw)) : Type 0 where
  pub waits : e.state ≡ setup
  pub no_packet : e.in_packet ≡ none
  pub takes_none : e.out_ready ≡ false
  pub free : e.stalled ≡ false
  pub uncalled : e.bus.control.callback ≡ no_callback
  pub empty : e.bus.control.payload_size ≡ 0
  pub unconfigured : e.bus.num_configuration ≡ 0
  pub unaddressed : e.bus.device.hw.address ≡ 0
  pub control_out :
      ((e.bus.device.hw.slot 0).kind ≡ control_type) × ((e.bus.device.hw.slot 0).size ≡ bufsize_8)
  pub control_in :
      ((e.bus.device.hw.slot 1).kind ≡ control_type) × ((e.bus.device.hw.slot 1).size ≡ bufsize_8)
  pub endpoints : BothClosed e.bus.device.hw

module _ (chip : Chip) where
  -- The state behind the aborts of the reset: endpoint 1 in both directions.
  abbrev pub ones_aborted : Bus (wired chip).Hw → Bus (wired chip).Hw
  ones_aborted s =
      let out = on_slot 0x01 ep_abort s.device.hw in
      let both = on_slot 0x81 ep_abort out.1 in
      record s {
        device = record s.device {
          hw = both.1;
          report_in_free = both.0 || s.device.report_in_free;
        };
      }

  aborted-one :
      (was : Bool) (s : Bus (wired chip).Hw) → aborted (wired chip) driver_udd 0x01 was s ≡ s
  aborted-one true s = refl
  aborted-one false s = refl

  pub abort_endpoints-ones : (s : Bus (wired chip).Hw) → abort_endpoints chip 1 1 s ≡ ones_aborted s
  unfolding abort_endpoints
  abort_endpoints-ones s =
      ap (λ b. abort_endpoint chip 0x81 b)
        (aborted-one (on_slot 0x01 ep_abort s.device.hw).0
          (with_bus_hw s (on_slot 0x01 ep_abort s.device.hw).1))
      ∙ aborted-in (wired chip) driver_udd _ _

  -- The bus behind a reset
  abbrev pub reset_bus : Bus (wired chip).Hw → Bus (wired chip).Hw
  reset_bus s =
      let s1 = ones_aborted s in
      let (was, hw) = on_slot 0x81 ep_free s1.device.hw in
      record s {
        device = record s.device {
          hw = init_control chip (on_slot 0x02 ep_free hw).1;
          report_in_free = was || s1.device.report_in_free;
        };
        control = record s.control { callback = no_callback; payload_size = 0 };
        num_configuration = 0;
        device_status = Protocol.dev_status_bus_powered;
        ptr_iface = 9;
      }

  -- What the reset does behind udc_reset.
  abbrev pub reinit : Bus (wired chip).Hw → Bus (wired chip).Hw
  reinit b = record b {
    device = record b.device { hw = init_control chip b.device.hw };
    control = record b.control { callback = no_callback; payload_size = 0 };
  }

  abbrev pub unchosen : Bus (wired chip).Hw → Bus (wired chip).Hw
  unchosen b = record b { num_configuration = 0; device_status = Protocol.dev_status_bus_powered }

  bus_reset-lem :
      (e : Endpoint (wired chip).Hw)
      → e.bus.num_configuration ≡ 1
      → (bus_reset chip e).bus ≡ reset_bus e.bus
  unfolding bus_reset
  bus_reset-lem e one =
      ap (λ b. reinit (reset (wired chip) driver_udd b)) (abort_endpoints-ones e.bus)
      ∙ ap reinit (
          reset-configured (wired chip) driver_udd (ones_aborted e.bus) one
          ∙ ap unchosen
              (freed-lem (wired chip) driver_udd (record (ones_aborted e.bus) { ptr_iface = 9 })))

  -- The rest of the interrupt, behind the aborts.
  abbrev resumed : Endpoint (wired chip).Hw → Bus (wired chip).Hw → Endpoint (wired chip).Hw
  resumed e b =
      let c = reset (wired chip) driver_udd b in
      ctrl_init (record e {
        bus = with_bus_hw c (init_control chip c.device.hw);
        out_ready = false;
        stalled = false;
      })

  -- The reset is one of the events of the control endpoint.
  pub bus_reset-Event :
      (stack : Memory) (e : Endpoint (wired chip).Hw)
      → Event (wired chip) driver_udd stack e (bus_reset chip e)
  unfolding bus_reset
  bus_reset-Event stack e =
      let c : Bus (wired chip).Hw = reset (wired chip) driver_udd (ones_aborted e.bus) in
      subst (λ (f : Endpoint (wired chip).Hw). Event (wired chip) driver_udd stack e f)
        (ap (λ b. resumed e b) (sym (abort_endpoints-ones e.bus)))
        (reset_of_bus (ones_aborted e.bus).device
          (record c.device { hw = init_control chip c.device.hw }) e)

  -- The endpoint behind a reset of the bus, an address, the configuration and a command, packet by packet.
  abbrev pub recovered : ℕ → List ℕ → Memory → Endpoint (wired chip).Hw → Endpoint (wired chip).Hw
  recovered address bytes stack e =
      brought_up (wired chip) driver_udd stack address bytes (bus_reset chip e)

  -- The driver with an address and both endpoints allocated, the OUT endpoint at work.
  abbrev pub rearmed : ℕ → Endpoint (wired chip).Hw → Driver chip.Hw
  rearmed address e =
      (armed (wired chip) driver_udd
        (record (reset_bus e.bus).device.hw { address = bit_and address 0x7F })).1

  reset_bus-IsInitial :
      (e f : Endpoint (wired chip).Hw)
      → f.bus ≡ reset_bus e.bus
      → f.state ≡ setup
      → f.in_packet ≡ none
      → f.out_ready ≡ false
      → f.stalled ≡ false
      → IsInitial f
  unfolding ep_free
  reset_bus-IsInitial e f same waits no_packet closed free = record {
    waits = waits;
    no_packet = no_packet;
    takes_none = closed;
    free = free;
    uncalled = ap (λ b. b.control.callback) same;
    empty = ap (λ b. b.control.payload_size) same;
    unconfigured = ap (λ b. b.num_configuration) same;
    unaddressed = ap (λ b. b.device.hw.address) same;
    control_out =
        (ap (λ b. (b.device.hw.slot 0).kind) same, ap (λ b. (b.device.hw.slot 0).size) same);
    control_in =
        (ap (λ b. (b.device.hw.slot 1).kind) same, ap (λ b. (b.device.hw.slot 1).size) same);
    endpoints =
        subst (λ (b : Bus (wired chip).Hw). BothClosed b.device.hw) (sym same)
          (ep_free-BothClosed chip
            (on_slot 0x81 ep_abort (on_slot 0x01 ep_abort e.bus.device.hw).1).1);
  }

  bus_reset-IsInitial :
      (e : Endpoint (wired chip).Hw) → e.bus.num_configuration ≡ 1 → IsInitial (bus_reset chip e)
  unfolding bus_reset
  bus_reset-IsInitial e one =
      reset_bus-IsInitial e (bus_reset chip e) (bus_reset-lem e one) refl refl refl refl

  -- A configured device, with five bytes in its feature buffer, and its control endpoint and the jobs of
  -- its endpoints in any state. Behind a reset of the bus the control endpoint is as udd_ctrl_init and
  -- udd_reset_ep_ctrl leave it: it waits for a SETUP packet, is not stalled, has no packet, takes no data
  -- and is due to call nothing; the device has no address and no configuration, and its two other
  -- endpoints are closed. The packets of SET_ADDRESS, for an address that is not a multiple of 128, of
  -- SET_CONFIGURATION and of a command of five bytes then lead to HID_set_feature_report_out. It is called
  -- on these bytes with the variables of the firmware as they were, the buffer of the IN report free, the
  -- address set, the OUT endpoint at work and the IN endpoint not. The control endpoint then waits for the
  -- next request.
  pub bus_reset-recovers :
      (e : Endpoint (wired chip).Hw) (address : ℕ) (bytes : List ℕ) (stack : Memory)
      → e.bus.num_configuration ≡ 1
      → length e.bus.report_feature ≡ udi_hid_report_feature_size
      → length bytes ≡ udi_hid_report_feature_size
      → (bit_and address 0x7F == 0) ≡ false
      → IsInitial (bus_reset chip e)
        × ((recovered address bytes stack e).bus.device
            ≡ hid_set_feature_report_out
                (wired chip)
                bytes
                stack
                (record e.bus.device { hw = rearmed address e; report_in_free = true }))
        × ((recovered address bytes stack e).state ≡ setup)
        × ((rearmed address e).address ≡ bit_and address 0x7F)
        × ((rearmed address e).hw ≡ e.bus.device.hw.hw)
        × (((rearmed address e).slot 4).job.busy ≡ true)
        × (((rearmed address e).slot 3).job.busy ≡ false)
  bus_reset-recovers e address bytes stack one room five valid =
      let d : Driver chip.Hw = record (reset_bus e.bus).device.hw {
        address = bit_and address 0x7F;
      } in
      let aborted_jobs : Driver chip.Hw =
        (on_slot 0x81 ep_abort (on_slot 0x01 ep_abort e.bus.device.hw).1).1 in
      let (h, k, l, busy, idle) = both-IsArmed chip d (ep_free-BothClosed chip aborted_jobs) in
      let (delivered, done) =
        reset-delivers chip address bytes stack (reset_bus e.bus) (bus_reset chip e)
          (bus_reset-lem e one) (bus_reset-IsInitial e one).waits refl room five valid h k l in
      (bus_reset-IsInitial e one, delivered, done, refl, refl, busy, idle)
