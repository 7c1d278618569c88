-- ===== src/Usb/Endpoint/Commands.antt =====
-- The two transfers of a command: the feature report to the device, and the status back.
use hid_bootloader.Base.{
  ℕ, ◌+◌, ◌-◌, ◌*◌, ◌^◌, ◌==◌, ◌≡◌, refl, sym, ap, ◌∙◌, arith, Bool, true, false, Memory, List, [],
  ◌∷◌, ◌++◌, none, length, take, drop, take-all, drop-all, append-none,
}
use hid_bootloader.Chip.{Chip}
use hid_bootloader.Protocol.{status_bytes}
use hid_bootloader.Firmware.{hid_get_feature_report_out, hid_set_feature_report_out}
use hid_bootloader.Usb.{sends, fills_feature, setfeature_valid, no_callback, Bus, Udd}
use hid_bootloader.Usb.Protocol
use hid_bootloader.Usb.Descriptors.{udi_hid_report_feature_size}
use hid_bootloader.Usb.Hid.{generic_setfeature_valid}
use hid_bootloader.Usb.Process.{process_setup, endofrequest}
use hid_bootloader.Usb.Process.Reports.{set_feature_report, set_report-accepted, get_report-answers}
use hid_bootloader.Usb.Endpoint.{
  Endpoint, setup, data_out, handshake_wait_out_zlp, setup_of, payload_bytes, place,
  data_out_received, out_received, nothing, underflow, in_sent, setup_received,
}
use hid_bootloader.Usb.Endpoint.Stages.{ready, fetch_all, setup_received-IsSent}

-- The SETUP packet of set_feature_report.
abbrev pub set_report_packet : List ℕ
set_report_packet = 0x21 ∷ Protocol.req_hid_set_report ∷ 0 ∷ 3 ∷ 0 ∷ 0 ∷ 5 ∷ 0 ∷ []

-- The SETUP packet of GET_REPORT with a type and a length.
abbrev pub get_report_packet : ℕ → ℕ → List ℕ
get_report_packet kind size = 0xA1 ∷ Protocol.req_hid_get_report ∷ 0 ∷ kind ∷ 0 ∷ 0 ∷ size ∷ 0 ∷ []

module _ (chip : Chip) (udd : Udd chip.Hw) (stack : Memory) where
  -- The data stage of a command is open.
  abbrev receiving : Endpoint chip.Hw → Endpoint chip.Hw
  receiving e = record e {
    bus = record e.bus {
      control = record {
        payload = fills_feature;
        payload_size = udi_hid_report_feature_size;
        callback = setfeature_valid;
      };
      ptr_iface = 9;
    };
    request = set_feature_report;
    state = data_out;
    in_packet = none;
    payload_nb_trans = 0;
    prev_payload_nb_trans = 0;
    out_ready = true;
  }

  setup_received-receiving :
      (e : Endpoint chip.Hw)
      → (0 == e.bus.num_configuration) ≡ false
      → setup_received chip udd stack 8 set_report_packet (ready chip udd stack e) ≡ receiving e
  unfolding setup_received
  setup_received-receiving e chosen = rw (set_report-accepted chip udd e.bus chosen) refl

  -- A command of five bytes: its SETUP packet, its data, and the handshake.
  abbrev pub command_transfer : List ℕ → Endpoint chip.Hw → Endpoint chip.Hw
  command_transfer bytes e = in_sent chip udd stack (
      out_received chip udd stack (length bytes) bytes
        (setup_received chip udd stack 8 set_report_packet (ready chip udd stack e)))

  place-all : (new old : List ℕ) → length new ≡ length old → place 0 new old ≡ new
  place-all new old h =
      let n : length old ≡ 0 + length new = omega (arith, h) in
      ap (λ i. new ++ drop i old) (sym n) ∙ ap (λ xs. new ++ xs) (drop-all old) ∙ append-none new

  received :
      (bytes : List ℕ) (e : Endpoint chip.Hw)
      → length bytes ≡ udi_hid_report_feature_size
      → length e.bus.report_feature ≡ udi_hid_report_feature_size
      → (in_sent chip udd stack
          (out_received chip udd stack (length bytes) bytes (receiving e))).bus.device
        ≡ hid_set_feature_report_out chip bytes stack e.bus.device
  unfolding in_sent out_received data_out_received endofrequest generic_setfeature_valid
  received bytes e five room = rw five (
      ap (λ bs. hid_set_feature_report_out chip bs stack e.bus.device)
        (ap (λ bs. place 0 bs e.bus.report_feature) (take-all 5 bytes (sym five))
          ∙ place-all bytes e.bus.report_feature (omega (arith, five, room))))

  -- On a configured device, a SETUP packet of SET_REPORT, an OUT packet of five bytes and the handshake
  -- run HID_set_feature_report_out on these bytes, and the endpoint then waits for the next request.
  pub command_transfer-delivers :
      (bytes : List ℕ) (e : Endpoint chip.Hw)
      → (0 == e.bus.num_configuration) ≡ false
      → length bytes ≡ udi_hid_report_feature_size
      → length e.bus.report_feature ≡ udi_hid_report_feature_size
      → ((command_transfer bytes e).bus.device
          ≡ hid_set_feature_report_out chip bytes stack e.bus.device)
        × ((command_transfer bytes e).state ≡ setup)
  unfolding in_sent out_received data_out_received
  command_transfer-delivers bytes e chosen five room =
      rw (setup_received-receiving e chosen) (received bytes e five room, rw five refl)

  -- On a configured device, if the host asks for the handshake of a command without having sent its data,
  -- HID_set_feature_report_out runs on the bytes of the command before.
  pub command_transfer-repeats :
      (e : Endpoint chip.Hw)
      → (0 == e.bus.num_configuration) ≡ false
      → (in_sent chip udd stack (
          underflow chip udd stack nothing (
            setup_received chip udd stack 8 set_report_packet (ready chip udd stack e)))).bus.device
        ≡ hid_set_feature_report_out chip e.bus.report_feature stack e.bus.device
  unfolding underflow in_sent endofrequest generic_setfeature_valid
  command_transfer-repeats e chosen = rw (setup_received-receiving e chosen) refl

  -- The answer to GET_REPORT.
  abbrev answer : Bus chip.Hw → Bool × Bus chip.Hw
  answer b = (
    true,
    record b {
      device = (hid_get_feature_report_out chip b.device).1;
      control = record {
        payload = sends (hid_get_feature_report_out chip b.device).0;
        payload_size = length (hid_get_feature_report_out chip b.device).0;
        callback = no_callback;
      };
      ptr_iface = 9;
    },
  )

  -- On a configured device, the host that asks for a report, of any type and with any length but 0,
  -- fetches the five bytes of the status that HID_get_feature_report_out packs, if it goes on until the
  -- device is done.
  pub status_fetched :
      (kind size : ℕ) (e : Endpoint chip.Hw)
      → (0 == e.bus.num_configuration) ≡ false
      → (size == 0) ≡ false
      → ((fetch_all chip udd stack 7 (
            setup_received chip udd stack 8
              (get_report_packet kind size)
              (ready chip udd stack e))).0
          ≡ (hid_get_feature_report_out chip e.bus.device).0)
        × (length (hid_get_feature_report_out chip e.bus.device).0 ≡ 5)
  unfolding hid_get_feature_report_out status_bytes
  status_fetched kind size e chosen asked =
      let answered : process_setup chip udd (setup_of (get_report_packet kind size)) e.bus
          ≡ answer e.bus =
        get_report-answers chip udd e.bus (0 + kind * 2 ^ 8) (size + 0 * 2 ^ 8) chosen
          (ground (arith, asked)) in
      let size_five : (process_setup chip udd (setup_of (get_report_packet kind size))
            e.bus).1.control.payload_size
          ≡ 5 =
        ap (λ o. o.1.control.payload_size) answered in
      let sent =
        setup_received-IsSent chip udd stack 7 (get_report_packet kind size) e refl
          (ap (λ o. o.0) answered) (omega (arith, size_five)) (omega (arith, size_five)) in
      (
        sent.bytes
            ∙ ap (λ o. take (o.1.control.payload_size - 0) (drop 0 (payload_bytes o.1))) answered,
        refl,
      )

  -- What a command leaves of the bus: the configuration, and room for the next command.
  pub command_transfer-IsKept :
      (bytes : List ℕ) (e : Endpoint chip.Hw)
      → (0 == e.bus.num_configuration) ≡ false
      → length bytes ≡ udi_hid_report_feature_size
      → length e.bus.report_feature ≡ udi_hid_report_feature_size
      → ((command_transfer bytes e).bus.num_configuration ≡ e.bus.num_configuration)
        × (length (command_transfer bytes e).bus.report_feature ≡ udi_hid_report_feature_size)
  unfolding in_sent out_received data_out_received endofrequest generic_setfeature_valid
  command_transfer-IsKept bytes e chosen five room = rw (setup_received-receiving e chosen) (
      rw five (
        refl,
        ap (λ bs. length (place 0 bs e.bus.report_feature)) (take-all 5 bytes (sym five))
            ∙ ap (λ bs. length bs)
                (place-all bytes e.bus.report_feature (omega (arith, five, room)))
            ∙ five,
      ))

  -- GET_REPORT of the feature report: its SETUP packet, the packets of the answer, and the handshake.
  abbrev pub status_transfer : Endpoint chip.Hw → List ℕ × Endpoint chip.Hw
  status_transfer e =
      let (bytes, e') =
        fetch_all chip udd stack 7
          (setup_received chip udd stack 8 (get_report_packet 3 5) (ready chip udd stack e)) in
      (bytes, out_received chip udd stack 0 [] e')

  -- The end of a request for data that has no callback
  handshake_lem :
      (o : Endpoint chip.Hw)
      → o.state ≡ handshake_wait_out_zlp
      → o.bus.control.callback ≡ no_callback
      → ((out_received chip udd stack 0 [] o).bus.device ≡ o.bus.device)
        × ((out_received chip udd stack 0 [] o).bus.num_configuration ≡ o.bus.num_configuration)
        × ((out_received chip udd stack 0 [] o).bus.report_feature ≡ o.bus.report_feature)
  unfolding out_received endofrequest
  handshake_lem o waits none_due = rw (waits, none_due) (refl, refl, refl)

  -- What a request for the status gives, and what it leaves.
  pub status_transfer_lem :
      (e : Endpoint chip.Hw)
      → (0 == e.bus.num_configuration) ≡ false
      → ((status_transfer e).0 ≡ (hid_get_feature_report_out chip e.bus.device).0)
        × ((status_transfer e).1.bus.device ≡ (hid_get_feature_report_out chip e.bus.device).1)
        × ((status_transfer e).1.bus.num_configuration ≡ e.bus.num_configuration)
        × ((status_transfer e).1.bus.report_feature ≡ e.bus.report_feature)
  unfolding hid_get_feature_report_out status_bytes
  status_transfer_lem e chosen =
      let answered : process_setup chip udd (setup_of (get_report_packet 3 5)) e.bus
          ≡ answer e.bus =
        get_report-answers chip udd e.bus 0x300 5 chosen refl in
      let size_five : (process_setup chip udd (setup_of (get_report_packet 3 5))
            e.bus).1.control.payload_size
          ≡ 5 =
        ap (λ o. o.1.control.payload_size) answered in
      let sent =
        setup_received-IsSent chip udd stack 7 (get_report_packet 3 5) e refl
          (ap (λ o. o.0) answered) (omega (arith, size_five)) (omega (arith, size_five)) in
      let after = sent.bus_same ∙ ap (λ o. o.1) answered in
      let (device, number, feature) =
        handshake_lem _ sent.waits (ap (λ b. b.control.callback) after) in
      (
        sent.bytes
            ∙ ap (λ o. take (o.1.control.payload_size - 0) (drop 0 (payload_bytes o.1))) answered,
        device ∙ ap (λ b. b.device) after,
        number ∙ ap (λ b. b.num_configuration) after,
        feature ∙ ap (λ b. b.report_feature) after,
      )
