-- ===== src/Usb/Endpoint/Packets.antt =====
-- The packets of a data stage from the device: their size, and the bytes in them.
use hid_bootloader.Base.{
  ℕ, u16, zero, suc, ◌+◌, ◌-◌, ◌≤◌, ◌<◌, ◌^◌, ◌≡◌, ◌==◌, ◌||◌, arith, leb, Bool, true, false,
  if◌then◌else◌, Memory, List, length, Option, none, some, drop, length-take,
}
use hid_bootloader.Chip.{Chip}
use hid_bootloader.Usb.{is_in, Udd}
use hid_bootloader.Usb.Descriptors.{usb_device_ep_ctrl_size}
use hid_bootloader.Usb.Process.{process_setup}
use hid_bootloader.Usb.Endpoint.{
  Endpoint, data_in, waits_in_zlp, setup_of, payload_bytes, send_packet, data_in_sent, in_sent,
  setup_received,
}
use hid_bootloader.Usb.Endpoint.Stages.{ready, fetch_all, IsSent, setup_received-IsSent}

module _ (chip : Chip) (udd : Udd chip.Hw) (stack : Memory) where
  -- A packet that the host may fetch has at most eight bytes.
  abbrev pub IsSmall : Option (List ℕ) → Type 0
  IsSmall none = Unit
  IsSmall (some bytes) = length bytes ≤ 8

  -- So has every packet that the host fetches on the way of fetch_all.
  pub FetchesSmall : ℕ → Endpoint chip.Hw → Type 0
  FetchesSmall zero e = Unit
  FetchesSmall (suc fuel) e =
      IsSmall e.in_packet
      × FetchesSmall fuel (in_sent chip udd stack (record e { in_packet = none }))

  send_packet-IsSmall : (left : ℕ) (e : Endpoint chip.Hw) → IsSmall (send_packet left e).in_packet
  send_packet-IsSmall left e =
      let cut =
        length-take (if leb usb_device_ep_ctrl_size left then usb_device_ep_ctrl_size else left)
          (drop e.payload_nb_trans (payload_bytes e.bus)) in
      ground (arith, cut)

  one_of :
      (b : Bool) (x y : Endpoint chip.Hw)
      → IsSmall x.in_packet
      → IsSmall y.in_packet
      → IsSmall (if b then x else y).in_packet
  one_of true x y h k = h
  one_of false x y h k = k

  in_sent-IsSmall :
      (e : Endpoint chip.Hw)
      → IsSmall (in_sent chip udd stack (record e { in_packet = none })).in_packet
  unfolding in_sent data_in_sent
  in_sent-IsSmall e =
      let e1 : Endpoint chip.Hw = record e { in_packet = none } in
      let left : ℕ = u16 (e.bus.control.payload_size + 2 ^ 16 - e.payload_nb_trans) in
      let prev : ℕ = u16 (e.prev_payload_nb_trans + e.payload_nb_trans) in
      let more : Endpoint chip.Hw = record e1 { prev_payload_nb_trans = prev } in
      one_of (waits_in_zlp e.state) _ _ tt (
        one_of (0 == left) _ _
          (one_of (e.request.w_length == prev || e.b_shortpacket) _ _ tt
            (send_packet-IsSmall 0 more))
          (send_packet-IsSmall left e1))

  FetchesSmall-lem : (fuel : ℕ) (e : Endpoint chip.Hw) → IsSmall e.in_packet → FetchesSmall fuel e
  unfolding FetchesSmall
  FetchesSmall-lem zero e h = tt
  FetchesSmall-lem (suc fuel) e h = (
    h,
    FetchesSmall-lem fuel (in_sent chip udd stack (record e { in_packet = none }))
        (in_sent-IsSmall e),
  )

  setup_received-FetchesSmall :
      (fuel : ℕ) (buffer : List ℕ) (e : Endpoint chip.Hw)
      → is_in (setup_of buffer) ≡ true
      → (process_setup chip udd (setup_of buffer) e.bus).0 ≡ true
      → FetchesSmall fuel (setup_received chip udd stack 8 buffer (ready chip udd stack e))
  unfolding setup_received
  setup_received-FetchesSmall fuel buffer e asks accepted = FetchesSmall-lem fuel _ (
      rw (accepted, asks)
        (in_sent-IsSmall (record e {
          bus = (process_setup chip udd (setup_of buffer) e.bus).1;
          request = setup_of buffer;
          state = data_in;
          in_packet = none;
          payload_nb_trans = 0;
          prev_payload_nb_trans = 0;
        })))

  -- If a request for data is accepted, with a payload below 65536 bytes, and the fuel exceeds its size by
  -- two: after its SETUP packet the host fetches exactly the payload, in packets of at most eight bytes
  -- each, and the endpoint then waits for its handshake and takes it, with the state that the request
  -- left.
  pub setup_received-IsFetched :
      (fuel : ℕ) (buffer : List ℕ) (e : Endpoint chip.Hw)
      → is_in (setup_of buffer) ≡ true
      → (process_setup chip udd (setup_of buffer) e.bus).0 ≡ true
      → (process_setup chip udd (setup_of buffer) e.bus).1.control.payload_size < 2 ^ 16
      → (process_setup chip udd (setup_of buffer) e.bus).1.control.payload_size + 2 ≤ fuel
      → IsSent chip udd stack 0
          (record e {
            bus = (process_setup chip udd (setup_of buffer) e.bus).1;
            request = setup_of buffer;
          })
          (fetch_all chip udd stack fuel
            (setup_received chip udd stack 8 buffer (ready chip udd stack e)))
        × FetchesSmall fuel (setup_received chip udd stack 8 buffer (ready chip udd stack e))
  setup_received-IsFetched fuel buffer e asks accepted fits enough = (
    setup_received-IsSent chip udd stack fuel buffer e asks accepted fits enough,
    setup_received-FetchesSmall fuel buffer e asks accepted,
  )
