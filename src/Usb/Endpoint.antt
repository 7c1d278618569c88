-- ===== src/Usb/Endpoint.antt =====
-- The control endpoint of xmega/drivers/usb/usb_device.c: its stages, and the packets that it sends and
-- takes. `over_under_run` is NULL in every request of this program.
pub mod Stages
pub mod Packets
pub mod Commands
pub mod BringUp
pub mod Events
use hid_bootloader.Base.{
  ℕ, zero, suc, ◌+◌, ◌-◌, ◌*◌, ◌%◌, ◌^◌, u16, ◌==◌, ltb, leb, Bool, true, false, not, if◌then◌else◌,
  ◌||◌, Memory, List, [], ◌∷◌, ◌++◌, Option, none, some, length, get_or, take, drop,
}
use hid_bootloader.Chip.{Chip}
use hid_bootloader.Usb.{
  Setup, is_in, Payload, unset, sends, fills_feature, no_callback, Control, Bus, Udd,
}
use hid_bootloader.Usb.Descriptors.{usb_device_ep_ctrl_size}
use hid_bootloader.Usb.Process.{process_setup, endofrequest}

-- udd_ctrl_ep_state_t
pub data EpState : Type 0 where
  setup data_out data_in handshake_wait_in_zlp handshake_wait_out_zlp stall_req : EpState

abbrev pub is_setup : EpState → Bool
is_setup setup = true
is_setup _ = false

abbrev pub is_data_out : EpState → Bool
is_data_out data_out = true
is_data_out _ = false

abbrev pub is_data_in : EpState → Bool
is_data_in data_in = true
is_data_in _ = false

abbrev pub waits_in_zlp : EpState → Bool
waits_in_zlp handshake_wait_in_zlp = true
waits_in_zlp _ = false

abbrev pub waits_out_zlp : EpState → Bool
waits_out_zlp handshake_wait_out_zlp = true
waits_out_zlp _ = false

-- The variables of the driver, and what the endpoint's registers let the host do: the packet that it
-- may fetch, whether an OUT packet is taken, and whether both directions are stalled.
pub record Endpoint (Hw : Type 0) : Type 0 where
  pub bus : Bus Hw
  pub request : Setup
  pub state : EpState
  pub payload_nb_trans : ℕ
  pub prev_payload_nb_trans : ℕ
  pub b_shortpacket : Bool
  pub in_packet : Option (List ℕ)
  pub out_ready : Bool
  pub stalled : Bool

-- The request in the eight bytes of a SETUP packet.
abbrev pub setup_of : List ℕ → Setup
setup_of bytes = record {
  bm_request_type = get_or bytes 0 0;
  b_request = get_or bytes 1 0;
  w_value = get_or bytes 2 0 + get_or bytes 3 0 * 2 ^ 8;
  w_index = get_or bytes 4 0 + get_or bytes 5 0 * 2 ^ 8;
  w_length = get_or bytes 6 0 + get_or bytes 7 0 * 2 ^ 8;
}

-- memcpy to an offset of a buffer
abbrev pub place : ℕ → List ℕ → List ℕ → List ℕ
place offset new old = take offset old ++ new ++ drop (offset + length new) old

module _ {Hw : Type 0} where
  -- The bytes of the buffer that `payload` points to.
  abbrev pub payload_bytes : Bus Hw → List ℕ
  payload_bytes b = elim b.control.payload [
    | unset ↦ []
    | sends bytes ↦ bytes
    | fills_feature ↦ b.report_feature
  ]

  -- memcpy to `payload`
  abbrev pub store : ℕ → List ℕ → Bus Hw → Bus Hw
  store offset new b = elim b.control.payload [
    | unset ↦ b
    | sends bytes ↦ record b {
      control = record b.control { payload = sends (place offset new bytes) };
    }
    | fills_feature ↦ record b { report_feature = place offset new b.report_feature }
  ]

  abbrev pub send_zlp_in : Endpoint Hw → Endpoint Hw
  send_zlp_in e = record e { state = handshake_wait_in_zlp; in_packet = some [] }

  abbrev pub send_zlp_out : Endpoint Hw → Endpoint Hw
  send_zlp_out e = record e { state = handshake_wait_out_zlp; out_ready = true }

  abbrev pub stall_data : Endpoint Hw → Endpoint Hw
  stall_data e = record e { state = stall_req; stalled = true }

  -- udd_ctrl_init
  abbrev pub ctrl_init : Endpoint Hw → Endpoint Hw
  ctrl_init e = record e {
    bus = record e.bus {
      control = record e.bus.control { callback = no_callback; payload_size = 0 };
    };
    state = setup;
    in_packet = none;
  }

  -- The part of udd_ctrl_in_sent that sends the next packet, with what is left. The source reads `size`
  -- bytes from the payload on; here the packet ends with the bytes that the payload points to, which is the
  -- same for a payload that is no larger.
  abbrev pub send_packet : ℕ → Endpoint Hw → Endpoint Hw
  send_packet left e =
      let size = if leb usb_device_ep_ctrl_size left then usb_device_ep_ctrl_size else left in
      record e {
        b_shortpacket = not (leb usb_device_ep_ctrl_size left);
        in_packet = some (take size (drop e.payload_nb_trans (payload_bytes e.bus)));
        payload_nb_trans = u16 (e.payload_nb_trans + size);
      }

  -- The data stage of udd_ctrl_in_sent.
  unfoldable pub data_in_sent : Endpoint Hw → Endpoint Hw
  data_in_sent e =
      let left = u16 (e.bus.control.payload_size + 2 ^ 16 - e.payload_nb_trans) in
      if 0 == left
      then (let prev = u16 (e.prev_payload_nb_trans + e.payload_nb_trans) in
          let e' = record e { prev_payload_nb_trans = prev } in
          if e.request.w_length == prev || e.b_shortpacket
          then send_zlp_out e'
          else send_packet 0 e')
      else send_packet left e

  -- The data stage of udd_ctrl_out_received, for `count` bytes in udd_ctrl_buffer.
  unfoldable pub data_out_received : ℕ → List ℕ → Endpoint Hw → Endpoint Hw
  data_out_received count buffer e =
      let size = e.bus.control.payload_size in
      let nb_data =
        if ltb size (e.payload_nb_trans + count) then size - e.payload_nb_trans else count in
      let nb_trans = u16 (e.payload_nb_trans + nb_data) in
      let b = store e.payload_nb_trans (take nb_data buffer) e.bus in
      if not (usb_device_ep_ctrl_size == nb_data)
        || leb e.request.w_length (e.prev_payload_nb_trans + nb_trans)
      then send_zlp_in (record e {
        bus = record b { control = record b.control { payload_size = nb_trans } };
        payload_nb_trans = nb_trans;
      })
      else if size == nb_trans
      then stall_data (record e { bus = b; payload_nb_trans = nb_trans })
      else record e { bus = b; payload_nb_trans = nb_trans; out_ready = true }

-- What else the interrupt finds for the control endpoint: nothing, the end of a transfer, which
-- udd_is_tc_event reports, or a SETUP packet.
pub data Waiting : Type 0 where
  nothing transfer_event : Waiting
  setup_event : ℕ → List ℕ → Waiting

module _ (chip : Chip) (udd : Udd chip.Hw) (stack : Memory) where
  -- The end of a request, and the endpoint ready for the next.
  abbrev pub finish_request : Endpoint chip.Hw → Endpoint chip.Hw
  finish_request e = ctrl_init (record e { bus = endofrequest chip udd e.request stack e.bus })

  -- udd_ctrl_in_sent
  unfoldable pub in_sent : Endpoint chip.Hw → Endpoint chip.Hw
  unfolding data_in_sent
  in_sent e = if waits_in_zlp e.state then finish_request e else data_in_sent e

  -- udd_ctrl_out_received
  unfoldable pub out_received : ℕ → List ℕ → Endpoint chip.Hw → Endpoint chip.Hw
  unfolding data_out_received
  out_received count buffer e =
      if waits_out_zlp e.state then finish_request e else data_out_received count buffer e

  -- What udd_ctrl_setup_received does of an unfinished request.
  abbrev pub begin : Endpoint chip.Hw → Endpoint chip.Hw
  begin e =
      if is_setup e.state
      then e
      else if waits_in_zlp e.state || waits_out_zlp e.state
      then finish_request e
      else ctrl_init e

  -- The stage that follows an accepted request.
  abbrev pub next_stage : Endpoint chip.Hw → Endpoint chip.Hw
  next_stage e =
      let e' = record e { prev_payload_nb_trans = 0; payload_nb_trans = 0 } in
      if is_in e.request
      then in_sent (record e' { state = data_in })
      else if 0 == e.request.w_length
      then send_zlp_in e
      else record e' { state = data_out; out_ready = true }

  -- udd_ctrl_setup_received, for `count` bytes in udd_ctrl_buffer
  unfoldable pub setup_received : ℕ → List ℕ → Endpoint chip.Hw → Endpoint chip.Hw
  unfolding in_sent
  setup_received count buffer e =
      let e1 = begin e in
      if not (8 == count)
      then e1
      else (let r = setup_of buffer in
          let (ok, b) = process_setup chip udd r e1.bus in
          let e2 = record e1 { bus = b; request = r } in
          if not ok then stall_data e2 else next_stage e2)

  -- udd_ctrl_interrupt_tc_setup, when a SETUP packet is there: the hardware lifts the stall at such a
  -- packet, and the routine acknowledges its flags.
  abbrev pub interrupt_tc_setup : ℕ → List ℕ → Endpoint chip.Hw → Endpoint chip.Hw
  interrupt_tc_setup count buffer e = setup_received count buffer (record e { stalled = false })

  -- udd_ctrl_underflow: the host asks for IN data that are not there.
  unfoldable pub underflow : Waiting → Endpoint chip.Hw → Endpoint chip.Hw
  underflow transfer_event e = e
  underflow (setup_event count buffer) e = interrupt_tc_setup count buffer e
  underflow nothing e =
      if is_data_out e.state
      then send_zlp_in e
      else if waits_out_zlp e.state
      then record e { stalled = true }
      else e

  -- udd_ctrl_overflow: the host sends OUT data that are not taken.
  unfoldable pub overflow : Waiting → Endpoint chip.Hw → Endpoint chip.Hw
  overflow transfer_event e = e
  overflow (setup_event count buffer) e = interrupt_tc_setup count buffer e
  overflow nothing e =
      if is_data_in e.state
      then send_zlp_out e
      else if waits_in_zlp e.state
      then record e { stalled = true }
      else e
