-- ===== src/Usb/Endpoint/BringUp.antt =====
-- A host brings the device to its first command, packet by packet at the control endpoint.
use hid_bootloader.Base.{
  ℕ, ◌+◌, ◌*◌, ◌^◌, ◌==◌, ◌≡◌, refl, sym, ap, ◌∙◌, arith, bit_and, true, false, Memory, List, [],
  ◌∷◌, length, none, some,
}
use mathlib.Core.Path.{subst}
use hid_bootloader.Chip.{Chip}
use hid_bootloader.Firmware.{hid_set_feature_report_out}
use hid_bootloader.Usb.{is_in, Udd}
use hid_bootloader.Usb.Protocol
use hid_bootloader.Usb.Descriptors.{udi_hid_report_feature_size}
use hid_bootloader.Usb.Requests.{dev_set_address, set_valid_address}
use hid_bootloader.Usb.Process.{reqstd_set, reqstd, process_setup, endofrequest}
use hid_bootloader.Usb.Process.Configure.Enable.{
  in_allocated, both_allocated, armed, set_configuration, configured, process_setup-configured,
}
use hid_bootloader.Usb.Process.Enumerate.{control_transfer, configured-end}
use hid_bootloader.Usb.Process.Reports.{set_address_request, addressed_state}
use hid_bootloader.Usb.Endpoint.{
  Endpoint, setup, setup_of, ctrl_init, in_sent, setup_received, interrupt_tc_setup,
}
use hid_bootloader.Usb.Endpoint.Commands.{command_transfer, command_transfer-delivers}

-- The SETUP packets of SET_ADDRESS and of SET_CONFIGURATION 1.
abbrev pub set_address_packet : ℕ → List ℕ
set_address_packet address = 0 ∷ Protocol.req_set_address ∷ address ∷ 0 ∷ 0 ∷ 0 ∷ 0 ∷ 0 ∷ []

abbrev pub set_configuration_packet : List ℕ
set_configuration_packet = 0 ∷ Protocol.req_set_configuration ∷ 1 ∷ 0 ∷ 0 ∷ 0 ∷ 0 ∷ 0 ∷ []

module _ (chip : Chip) (udd : Udd chip.Hw) (stack : Memory) where
  -- The host fetches a packet as the handshake, if there is one.
  abbrev pub fetch_handshake : Endpoint chip.Hw → Endpoint chip.Hw
  fetch_handshake e = elim e.in_packet [ none ↦ e | some bytes ↦ in_sent chip udd stack e ]

  -- A request without data: its SETUP packet and the handshake.
  abbrev pub plain_transfer : List ℕ → Endpoint chip.Hw → Endpoint chip.Hw
  plain_transfer packet e = fetch_handshake (interrupt_tc_setup chip udd stack 8 packet e)

  -- What a request without data leaves.
  abbrev plainly : List ℕ → Endpoint chip.Hw → Endpoint chip.Hw
  plainly packet e = ctrl_init (record e {
    bus = control_transfer chip udd (setup_of packet) stack e.bus;
    request = setup_of packet;
    stalled = false;
  })

  plain_transfer_lem :
      (packet : List ℕ) (e : Endpoint chip.Hw)
      → e.state ≡ setup
      → is_in (setup_of packet) ≡ false
      → (0 == (setup_of packet).w_length) ≡ true
      → (process_setup chip udd (setup_of packet) e.bus).0 ≡ true
      → plain_transfer packet e ≡ plainly packet e
  unfolding setup_received in_sent
  plain_transfer_lem packet e waits sends empty accepted = rw (waits, accepted, sends, empty) refl

  -- The three requests of a host: an address, the configuration, and a command of five bytes.
  abbrev pub brought_up : ℕ → List ℕ → Endpoint chip.Hw → Endpoint chip.Hw
  brought_up address bytes e =
      command_transfer chip udd stack bytes
        (plain_transfer set_configuration_packet (plain_transfer (set_address_packet address) e))

  -- The endpoint with an address set, and with the configuration chosen.
  abbrev addressed_endpoint : ℕ → Endpoint chip.Hw → Endpoint chip.Hw
  addressed_endpoint address e = ctrl_init (record e {
    bus = addressed_state chip udd address e.bus;
    request = set_address_request address;
    stalled = false;
  })

  addressed_lem :
      (address : ℕ) (e : Endpoint chip.Hw)
      → e.state ≡ setup
      → plain_transfer (set_address_packet address) e ≡ addressed_endpoint address e
  unfolding process_setup reqstd reqstd_set dev_set_address endofrequest set_valid_address
  addressed_lem address e waits =
      let same : address + 0 * 2 ^ 8 ≡ address = omega arith in
      plain_transfer_lem (set_address_packet address) e waits refl refl refl
      ∙ ap (λ n. addressed_endpoint n e) same

  abbrev configured_endpoint : Endpoint chip.Hw → Endpoint chip.Hw
  configured_endpoint e =
      ctrl_init (record e {
        bus = configured chip udd e.bus;
        request = set_configuration 1;
        stalled = false;
      })

  configured_lem :
      (e : Endpoint chip.Hw)
      → e.state ≡ setup
      → e.bus.num_configuration ≡ 0
      → (udd.getaddress e.bus.device.hw == 0) ≡ false
      → (in_allocated chip udd e.bus.device.hw).0 ≡ true
      → (both_allocated chip udd e.bus.device.hw).0 ≡ true
      → (armed chip udd e.bus.device.hw).0 ≡ true
      → plain_transfer set_configuration_packet e ≡ configured_endpoint e
  configured_lem e waits none_chosen addressed h k l =
      plain_transfer_lem set_configuration_packet e waits refl refl
        (ap (λ o. o.0) (process_setup-configured chip udd e.bus none_chosen addressed h k l))
      ∙ ap (λ b. ctrl_init (record e { bus = b; request = set_configuration 1; stalled = false }))
          (configured-end chip udd e.bus stack none_chosen addressed h k l)

  -- If the endpoint waits for a request on a device without a configuration, with five bytes in its feature
  -- buffer, and the driver then has the address and allocates the two endpoints and arms the OUT endpoint:
  -- the packets of SET_ADDRESS, of SET_CONFIGURATION and of a command of five bytes lead to
  -- HID_set_feature_report_out, which is called on the bytes of the command, on the device with both
  -- endpoints in use and the buffer of the IN report free. The endpoint then waits for the next request.
  pub brought_up-delivers :
      (address : ℕ) (bytes : List ℕ) (e : Endpoint chip.Hw)
      → e.state ≡ setup
      → e.bus.num_configuration ≡ 0
      → length bytes ≡ udi_hid_report_feature_size
      → length e.bus.report_feature ≡ udi_hid_report_feature_size
      → (udd.getaddress (udd.set_address (bit_and address 0x7F) e.bus.device.hw) == 0) ≡ false
      → (in_allocated chip udd (udd.set_address (bit_and address 0x7F) e.bus.device.hw)).0 ≡ true
      → (both_allocated chip udd (udd.set_address (bit_and address 0x7F) e.bus.device.hw)).0 ≡ true
      → (armed chip udd (udd.set_address (bit_and address 0x7F) e.bus.device.hw)).0 ≡ true
      → ((brought_up address bytes e).bus.device
          ≡ hid_set_feature_report_out chip bytes stack (record e.bus.device {
            hw = (armed chip udd (udd.set_address (bit_and address 0x7F) e.bus.device.hw)).1;
            report_in_free = true;
          }))
        × ((brought_up address bytes e).state ≡ setup)
  brought_up-delivers address bytes e waits none_chosen five room addressed h k l =
      let e1 : Endpoint chip.Hw = addressed_endpoint address e in
      let path : plain_transfer set_configuration_packet
            (plain_transfer (set_address_packet address) e)
          ≡ configured_endpoint e1 =
        ap (λ f. plain_transfer set_configuration_packet f) (addressed_lem address e waits)
        ∙ configured_lem e1 refl none_chosen addressed h k l in
      subst
        (λ (f : Endpoint chip.Hw).
          ((command_transfer chip udd stack bytes f).bus.device
            ≡ hid_set_feature_report_out chip bytes stack (record e.bus.device {
              hw = (armed chip udd (udd.set_address (bit_and address 0x7F) e.bus.device.hw)).1;
              report_in_free = true;
            }))
          × ((command_transfer chip udd stack bytes f).state ≡ setup))
        (sym path)
        (command_transfer-delivers chip udd stack bytes (configured_endpoint e1) refl five room)
