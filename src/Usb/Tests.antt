-- ===== src/Usb/Tests.antt =====
-- The theorems about the USB side, at the sample chip with a driver that always succeeds.
use hid_bootloader.Base.{
  ◌||◌, ℕ, ◌+◌, ◌^◌, ◌≤◌, ◌<◌, ◌≡◌, refl, arith, true, false, Memory, List, [], ◌∷◌, none, length,
}
use hid_bootloader.Chip.Sample.{Silicon, small_chip}
use hid_bootloader.Firmware.{hid_get_feature_report_out, hid_set_feature_report_out}
use hid_bootloader.Usb.{Setup, unset, no_callback, Bus, Udd}
use hid_bootloader.Usb.Protocol
use hid_bootloader.Usb.Hid.{hid_setup, hid_set_request, generic_setreport}
use hid_bootloader.Usb.Interface.{update_iface_desc, find_iface}
use hid_bootloader.Usb.Requests.{find_descriptor, dev_get_descriptor}
use hid_bootloader.Usb.Process.{req_iface, reqstd_get, reqstd, process_setup}
use hid_bootloader.Usb.Process.Within.{process_setup-IsWithin}
use hid_bootloader.Usb.Process.Within.Standard.{IsWithin}
use hid_bootloader.Usb.Process.Within.Length.{process_setup-fits}
use hid_bootloader.Usb.Process.Configure.{configuration_after, process_setup-configuration}
use hid_bootloader.Usb.Process.Configure.Enable.{
  set_configuration, configured, process_setup-configured,
}
use hid_bootloader.Usb.Process.Enumerate.{enumerated, enumerated-delivers}
use hid_bootloader.Usb.Endpoint.{
  is_data_in, is_data_out, waits_in_zlp, waits_out_zlp, interrupt_tc_setup, out_received,
  data_out_received, Endpoint, setup, setup_of, setup_received, in_sent, nothing, underflow,
}
use hid_bootloader.Usb.Endpoint.Events.{
  setup_packet, in_packet_sent, out_packet_received, Reaches, at_once, behind, IsSafe,
  Reaches-IsSafe,
}
use hid_bootloader.Usb.Endpoint.Stages.{ready, fetch_all, IsSent}
use hid_bootloader.Usb.Endpoint.BringUp.{brought_up, brought_up-delivers}
use hid_bootloader.Usb.Endpoint.Packets.{FetchesSmall, setup_received-IsFetched}
use hid_bootloader.Usb.Endpoint.Commands.{
  set_report_packet, command_transfer, command_transfer-delivers, command_transfer-repeats,
  get_report_packet, status_fetched,
}

-- A driver on an address 5, with no transfer to abort.
abbrev pub willing : Udd Silicon
willing = record {
  enable = λ h. h;
  disable = λ h. h;
  set_address = λ a h. h;
  getaddress = λ h. 5;
  ep_alloc = λ ep attributes size h. (true, h);
  ep_free = λ ep h. (false, h);
  ep_abort = λ ep h. (false, h);
  ep_is_halted = λ ep h. false;
  ep_set_halt = λ ep h. (true, h);
  ep_clear_halt = λ ep h. (true, h);
  run_out_endpoint = λ h. (true, h);
}

abbrev pub noise : Memory
noise i = 0xAA

-- A device behind a reset of the bus, and one with its configuration.
abbrev pub fresh : Bus Silicon
fresh = record {
  device = record {
    page_buffer = λ i. i;
    page_ptr = 64;
    feature_response = record { version = 1; busy_flags = 0; page_ptr = 0; result = 0 };
    report_in_free = false;
    report_in = λ i. 0;
    hw = record { cells = λ a. 0; page = λ i. 255 };
  };
  control = record { payload = unset; payload_size = 0; callback = no_callback };
  device_status = 0;
  num_configuration = 0;
  iface_setting = 0;
  ptr_iface = 0;
  rate = 4;
  protocol = 0;
  report_feature = 0 ∷ 0 ∷ 0 ∷ 0 ∷ 0 ∷ [];
}

abbrev pub chosen : Bus Silicon
chosen = record fresh { num_configuration = 1 }

abbrev pub waiting : Endpoint Silicon
waiting = record {
  bus = chosen;
  request = set_configuration 1;
  state = setup;
  payload_nb_trans = 0;
  prev_payload_nb_trans = 0;
  b_shortpacket = false;
  in_packet = none;
  out_ready = false;
  stalled = false;
}

-- The command 0x01, with a parameter.
abbrev pub command : List ℕ
command = 1 ∷ 0x40 ∷ 0 ∷ 0 ∷ 0 ∷ []

-- GET_DESCRIPTOR of the configuration, with room for 255 bytes.
abbrev get_configuration_packet : List ℕ
get_configuration_packet =
    0x80 ∷ Protocol.req_get_descriptor ∷ 0 ∷ Protocol.dt_configuration ∷ 0 ∷ 0 ∷ 255 ∷ 0 ∷ []

abbrev get_configuration : Setup
get_configuration = setup_of get_configuration_packet

-- Its descriptor, of 41 bytes, is found.
accepted : (process_setup small_chip willing get_configuration fresh).0 ≡ true
unfolding process_setup reqstd reqstd_get dev_get_descriptor find_descriptor
accepted = refl

accepted_chosen : (process_setup small_chip willing get_configuration chosen).0 ≡ true
unfolding process_setup reqstd reqstd_get dev_get_descriptor find_descriptor
accepted_chosen = refl

small_size :
    (process_setup small_chip willing get_configuration chosen).1.control.payload_size < 2 ^ 16
unfolding process_setup reqstd reqstd_get dev_get_descriptor find_descriptor
small_size = omega arith

enough : (process_setup small_chip willing get_configuration chosen).1.control.payload_size + 2 ≤ 43
unfolding process_setup reqstd reqstd_get dev_get_descriptor find_descriptor
enough = omega arith

process_setup-IsWithin_example :
    IsWithin (process_setup small_chip willing get_configuration fresh).1.control
process_setup-IsWithin_example = process_setup-IsWithin small_chip willing get_configuration fresh

process_setup-fits_example :
    (process_setup small_chip willing get_configuration fresh).1.control.payload_size ≤ 255
process_setup-fits_example =
    process_setup-fits small_chip willing get_configuration refl refl fresh accepted

process_setup-configuration_example :
    (process_setup small_chip willing (set_configuration 1) fresh).1.num_configuration
    ≡ configuration_after (set_configuration 1) 5 0
process_setup-configuration_example =
    process_setup-configuration small_chip willing (set_configuration 1) fresh

process_setup-configured_example :
    process_setup small_chip willing (set_configuration 1) fresh
    ≡ (true, configured small_chip willing fresh)
process_setup-configured_example =
    process_setup-configured small_chip willing fresh refl refl refl refl refl

enumerated-delivers_example :
    (enumerated small_chip willing 5 command noise fresh).device
    ≡ hid_set_feature_report_out small_chip command noise
        (record fresh.device { report_in_free = true })
enumerated-delivers_example =
    enumerated-delivers small_chip willing fresh 5 command noise refl refl refl refl refl refl

-- The same device, with its control endpoint.
abbrev plugged_in : Endpoint small_chip.Hw
plugged_in = record waiting { bus = fresh }

brought_up-delivers_example :
    ((brought_up small_chip willing noise 5 command plugged_in).bus.device
      ≡ hid_set_feature_report_out small_chip command noise
          (record fresh.device { report_in_free = true }))
    × ((brought_up small_chip willing noise 5 command plugged_in).state ≡ setup)
brought_up-delivers_example =
    brought_up-delivers small_chip willing noise 5 command plugged_in refl refl refl refl refl refl
      refl refl

setup_received-IsFetched_example :
    IsSent small_chip willing noise 0
      (record waiting {
        bus = (process_setup small_chip willing get_configuration chosen).1;
        request = get_configuration;
      })
      (fetch_all small_chip willing noise 43 (
        setup_received small_chip willing noise 8 get_configuration_packet
          (ready small_chip willing noise waiting)))
    × FetchesSmall small_chip willing noise 43 (
        setup_received small_chip willing noise 8 get_configuration_packet
          (ready small_chip willing noise waiting))
setup_received-IsFetched_example =
    setup_received-IsFetched small_chip willing noise 43 get_configuration_packet waiting refl
      accepted_chosen small_size enough

command_transfer-delivers_example :
    ((command_transfer small_chip willing noise command waiting).bus.device
      ≡ hid_set_feature_report_out small_chip command noise chosen.device)
    × ((command_transfer small_chip willing noise command waiting).state ≡ setup)
command_transfer-delivers_example =
    command_transfer-delivers small_chip willing noise command waiting refl refl refl

command_transfer-repeats_example :
    (in_sent small_chip willing noise (
      underflow small_chip willing noise nothing (
        setup_received small_chip willing noise 8 set_report_packet
          (ready small_chip willing noise waiting)))).bus.device
    ≡ hid_set_feature_report_out small_chip chosen.report_feature noise chosen.device
command_transfer-repeats_example = command_transfer-repeats small_chip willing noise waiting refl

status_fetched_example :
    ((fetch_all small_chip willing noise 7 (
        setup_received small_chip willing noise 8
          (get_report_packet 3 2)
          (ready small_chip willing noise waiting))).0
      ≡ (hid_get_feature_report_out small_chip chosen.device).0)
    × (length (hid_get_feature_report_out small_chip chosen.device).0 ≡ 5)
status_fetched_example = status_fetched small_chip willing noise 3 2 waiting refl refl

-- The SETUP packet of a command, its data and the fetch of the handshake.
abbrev opened : Endpoint Silicon
opened = interrupt_tc_setup small_chip willing noise 8 set_report_packet waiting

abbrev filled_up : Endpoint Silicon
filled_up = out_received small_chip willing noise 5 command opened

opened_stage : (is_data_out opened.state || waits_out_zlp opened.state) ≡ true
unfolding setup_received process_setup req_iface update_iface_desc find_iface hid_setup
    hid_set_request generic_setreport
opened_stage = refl

filled_stage : (is_data_in filled_up.state || waits_in_zlp filled_up.state) ≡ true
unfolding out_received data_out_received setup_received process_setup req_iface update_iface_desc
    find_iface hid_setup hid_set_request generic_setreport
filled_stage = refl

abbrev command_path :
    Reaches small_chip willing noise waiting (in_sent small_chip willing noise filled_up)
command_path =
    behind
      (behind (behind at_once (setup_packet 8 set_report_packet waiting))
        (out_packet_received 5 command opened opened_stage))
      (in_packet_sent filled_up filled_stage)

Reaches-IsSafe_example : IsSafe (in_sent small_chip willing noise filled_up)
Reaches-IsSafe_example =
    Reaches-IsSafe small_chip willing noise {e = waiting}
      {f = in_sent small_chip willing noise filled_up}
      (omega arith, λ k. omega arith, refl, omega arith) command_path
