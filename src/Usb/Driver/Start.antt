-- ===== src/Usb/Driver/Start.antt =====
-- main of firmware/hid_bootloader/hid_bootloader.c: the steps from the reset of the chip to the endless
-- loop, and the first command behind them. The branch into the application is compiled out by `if (0)`.
use hid_bootloader.Base.{
  ℕ, ◌∙◌, ◌==◌, ◌≡◌, refl, sym, ap, true, false, bit_and, Memory, List, [], ◌∷◌, length,
}
use mathlib.Core.Path.{subst}
use hid_bootloader.Chip.{Chip}
use hid_bootloader.Firmware.{hid_set_feature_report_out}
use hid_bootloader.Usb.{unset, no_callback, Bus, with_bus_hw}
use hid_bootloader.Usb.Descriptors.{udi_hid_report_feature_size}
use hid_bootloader.Usb.Interface.{start, reset}
use hid_bootloader.Usb.Process.Configure.Enable.{armed, reset-unconfigured}
use hid_bootloader.Usb.Endpoint.{Endpoint, setup}
use hid_bootloader.Usb.Jobs.{ep_abort}
use hid_bootloader.Usb.Driver.{Driver, enable, wired, driver_udd, bus_reset}
use hid_bootloader.Usb.Driver.Rearmed.{BothClosed, both-IsArmed, reset-delivers}
use hid_bootloader.Usb.Driver.Reset.{
  ones_aborted, abort_endpoints-ones, reinit, unchosen, recovered,
}

-- What main does to the registers of the chip and in the routines of the framework, in order, and
-- udc_attach, which connects the device to the bus.
pub data StartAccess : Type 0 where
  unlock_ivsel set_ivsel clear_dir5 pull_down5 delay_1ms sysclk_init irq_initialize_vectors
        cpu_irq_enable udc_attach :
      StartAccess

unfoldable pub run_start : {Hw : Type 0} → (StartAccess → Hw → Hw) → List StartAccess → Hw → Hw
run_start access [] hw = hw
run_start access (a ∷ rest) hw = run_start access rest (access a hw)

-- The steps before udc_start
abbrev pub start_accesses : List StartAccess
start_accesses =
    unlock_ivsel ∷ set_ivsel ∷ clear_dir5 ∷ pull_down5 ∷ delay_1ms ∷ sysclk_init
    ∷ irq_initialize_vectors ∷ cpu_irq_enable ∷ []

module _ (chip : Chip) (access : StartAccess → Driver chip.Hw → Driver chip.Hw) where
  -- The variables at the reset of the chip: those of C that are initialised to 0, and the version.
  abbrev pub cleared_bus : Driver chip.Hw → Bus (wired chip).Hw
  cleared_bus d = record {
    device = record {
      page_buffer = λ i. 0;
      page_ptr = 0;
      feature_response = record { version = 1; busy_flags = 0; page_ptr = 0; result = 0 };
      report_in_free = false;
      report_in = λ i. 0;
      hw = d;
    };
    control = record { payload = unset; payload_size = 0; callback = no_callback };
    device_status = 0;
    num_configuration = 0;
    iface_setting = 0;
    ptr_iface = 0;
    rate = 0;
    protocol = 0;
    report_feature = 0 ∷ 0 ∷ 0 ∷ 0 ∷ 0 ∷ [];
  }

  -- main, up to its loop
  unfoldable pub firmware_main : Driver chip.Hw → Bus (wired chip).Hw
  unfolding run_start
  firmware_main d =
      let started =
        start (wired chip) driver_udd (cleared_bus (run_start access start_accesses d)) in
      with_bus_hw started (access udc_attach started.device.hw)

module _ (chip : Chip) where
  -- The bus behind a reset of a device without a configuration.
  abbrev reset_idle : Bus (wired chip).Hw → Bus (wired chip).Hw
  reset_idle s = reinit chip (unchosen chip (ones_aborted chip s))

  bus_reset-idle :
      (e : Endpoint (wired chip).Hw)
      → e.bus.num_configuration ≡ 0
      → (bus_reset chip e).bus ≡ reset_idle e.bus
  unfolding bus_reset
  bus_reset-idle e none_chosen =
      ap (λ b. reinit chip (reset (wired chip) driver_udd b)) (abort_endpoints-ones chip e.bus)
      ∙ ap (reinit chip)
          (reset-unconfigured (wired chip) driver_udd (ones_aborted chip e.bus) none_chosen)

  bus_reset-waits : (e : Endpoint (wired chip).Hw) → (bus_reset chip e).state ≡ setup
  unfolding bus_reset
  bus_reset-waits e = refl

  ones_aborted-BothClosed :
      (s : Bus (wired chip).Hw)
      → BothClosed s.device.hw
      → BothClosed (ones_aborted chip s).device.hw
  unfolding ep_abort
  ones_aborted-BothClosed s (closed_in, closed_out) =
      (record { disabled_kind = closed_in.disabled_kind; idle = refl }, closed_out)

  -- The driver with an address and both endpoints in use
  abbrev pub first_armed : ℕ → Bus (wired chip).Hw → Driver chip.Hw
  first_armed address s =
      (armed (wired chip) driver_udd
        (record (reset_idle s).device.hw { address = bit_and address 0x7F })).1

  closed-recovers :
      (e : Endpoint (wired chip).Hw) (address : ℕ) (bytes : List ℕ) (stack : Memory)
      → e.bus.num_configuration ≡ 0
      → BothClosed e.bus.device.hw
      → length e.bus.report_feature ≡ udi_hid_report_feature_size
      → length bytes ≡ udi_hid_report_feature_size
      → (bit_and address 0x7F == 0) ≡ false
      → ((recovered chip address bytes stack e).bus.device
          ≡ hid_set_feature_report_out
              (wired chip)
              bytes
              stack
              (record e.bus.device { hw = first_armed address e.bus; report_in_free = true }))
        × ((recovered chip address bytes stack e).state ≡ setup)
        × (((first_armed address e.bus).slot 4).job.busy ≡ true)
        × (((first_armed address e.bus).slot 3).job.busy ≡ false)
  closed-recovers e address bytes stack none_chosen closed room five valid =
      let d : Driver chip.Hw = record (reset_idle e.bus).device.hw {
        address = bit_and address 0x7F;
      } in
      let (h, k, l, busy, idle) = both-IsArmed chip d (ones_aborted-BothClosed e.bus closed) in
      let (delivered, done) =
        reset-delivers chip address bytes stack (reset_idle e.bus) (bus_reset chip e)
          (bus_reset-idle e none_chosen) (bus_reset-waits e) refl room five valid h k l in
      (delivered, done, busy, idle)

  module _ (access : StartAccess → Driver chip.Hw → Driver chip.Hw)
      (attach_slots : (d : Driver chip.Hw) → (access udc_attach d).slot ≡ d.slot) where
    attached-BothClosed : (d : Driver chip.Hw) → BothClosed (access udc_attach (enable d))
    attached-BothClosed d =
        rw (attach_slots (enable d)) (
          record { disabled_kind = refl; idle = refl },
          record { disabled_kind = refl; idle = refl },
        )

    firmware_main-BothClosed :
        (d : Driver chip.Hw) → BothClosed (firmware_main chip access d).device.hw
    unfolding firmware_main
    firmware_main-BothClosed d = attached-BothClosed _

    firmware_main-unconfigured :
        (d : Driver chip.Hw) → (firmware_main chip access d).num_configuration ≡ 0
    unfolding firmware_main
    firmware_main-unconfigured d = refl

    firmware_main-room :
        (d : Driver chip.Hw)
        → length (firmware_main chip access d).report_feature ≡ udi_hid_report_feature_size
    unfolding firmware_main
    firmware_main-room d = refl

    firmware_main-device :
        (d : Driver chip.Hw) (hw : Driver chip.Hw)
        → record (firmware_main chip access d).device { hw = hw; report_in_free = true }
          ≡ record (cleared_bus chip access d).device { hw = hw; report_in_free = true }
    unfolding firmware_main
    firmware_main-device d hw = refl

    -- If the connection to the bus leaves the table of the endpoints alone: whatever that table, the jobs
    -- and the control endpoint hold at the reset of the chip, behind main and a reset of the bus the control
    -- endpoint waits for a SETUP packet. The packets of SET_ADDRESS, for an address that is not a multiple
    -- of 128, of SET_CONFIGURATION and of a command of five bytes then lead to HID_set_feature_report_out.
    -- It is called on these bytes with the variables of the firmware as they are initialised, the buffer of
    -- the IN report free, the address set, the OUT endpoint at work and the IN endpoint not. The control
    -- endpoint then waits for the next request.
    pub firmware_main-takes_commands :
        (d : Driver chip.Hw) (e : Endpoint (wired chip).Hw) (address : ℕ) (bytes : List ℕ)
        (stack : Memory)
        → e.bus ≡ firmware_main chip access d
        → length bytes ≡ udi_hid_report_feature_size
        → (bit_and address 0x7F == 0) ≡ false
        → ((bus_reset chip e).state ≡ setup)
          × ((recovered chip address bytes stack e).bus.device
              ≡ hid_set_feature_report_out
                  (wired chip)
                  bytes
                  stack
                  (record (cleared_bus chip access d).device {
                    hw = first_armed address e.bus;
                    report_in_free = true;
                  }))
          × ((recovered chip address bytes stack e).state ≡ setup)
          × ((first_armed address e.bus).address ≡ bit_and address 0x7F)
          × (((first_armed address e.bus).slot 4).job.busy ≡ true)
          × (((first_armed address e.bus).slot 3).job.busy ≡ false)
    firmware_main-takes_commands d e address bytes stack here five valid =
        let none_chosen = ap (λ b. b.num_configuration) here ∙ firmware_main-unconfigured d in
        let closed =
          subst (λ (b : Bus (wired chip).Hw). BothClosed b.device.hw) (sym here)
            (firmware_main-BothClosed d) in
        let room = ap (λ b. length b.report_feature) here ∙ firmware_main-room d in
        let (delivered, done, busy, idle) =
          closed-recovers e address bytes stack none_chosen closed room five valid in
        let hw : Driver chip.Hw = first_armed address e.bus in
        (
          bus_reset-waits e,
          delivered
              ∙ ap (λ v. hid_set_feature_report_out (wired chip) bytes stack v)
                  (ap
                      (λ (b : Bus (wired chip).Hw). record b.device {
                        hw = hw;
                        report_in_free = true;
                      })
                      here
                    ∙ firmware_main-device d hw),
          done,
          refl,
          busy,
          idle,
        )
