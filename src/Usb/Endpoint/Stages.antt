-- ===== src/Usb/Endpoint/Stages.antt =====
-- The data stage from the device: what a host reads in packets of eight bytes.
use hid_bootloader.Base.{
  ℕ, zero, suc, ◌+◌, ◌-◌, ◌^◌, ◌≤◌, ◌<◌, u16, ◌==◌, ◌≡◌, refl, sym, ap, ◌∙◌, arith, leb, Bool, true,
  false, not, if◌then◌else◌, ◌||◌, Memory, List, [], ◌++◌, none, some, take, drop, take-add,
  Bool-cases, inl, inr,
}
use native.Mathlib.Decide.{dec_lt}
use hid_bootloader.Chip.{Chip}
use hid_bootloader.Usb.{is_in, Udd}
use hid_bootloader.Usb.Descriptors.{usb_device_ep_ctrl_size}
use hid_bootloader.Usb.Process.{process_setup}
use hid_bootloader.Usb.Endpoint.{
  Endpoint, setup, setup_of, setup_received, data_in, handshake_wait_out_zlp, payload_bytes,
  send_zlp_out, send_packet, data_in_sent, in_sent,
}

module _ (chip : Chip) (udd : Udd chip.Hw) (stack : Memory) where
  -- The host fetches packets as long as there is one, and the driver is told of each: the bytes, and the
  -- endpoint then.
  unfoldable pub fetch_all : ℕ → Endpoint chip.Hw → List ℕ × Endpoint chip.Hw
  fetch_all zero e = ([], e)
  fetch_all (suc fuel) e =
      let rest = fetch_all fuel in
      elim e.in_packet [
        | none ↦ ([], e)
        | some bytes ↦
            let (more, e') = rest (in_sent chip udd stack (record e { in_packet = none })) in
            (bytes ++ more, e')
      ]

  -- A data stage with `t` bytes sent, whose next packet is due.
  abbrev pub due : ℕ → ℕ → Bool → Endpoint chip.Hw → Endpoint chip.Hw
  due t prev short e = record e {
    state = data_in;
    in_packet = none;
    payload_nb_trans = t;
    prev_payload_nb_trans = prev;
    b_shortpacket = short;
  }

  -- The bytes behind the first `t` were sent, and the endpoint waits for the handshake of the host.
  pub record IsSent (t : ℕ) (e : Endpoint chip.Hw) (o : List ℕ × Endpoint chip.Hw) : Type 0 where
    pub bytes : o.0 ≡ take (e.bus.control.payload_size - t) (drop t (payload_bytes e.bus))
    pub bus_same : o.1.bus ≡ e.bus
    pub request_same : o.1.request ≡ e.request
    pub waits : o.1.state ≡ handshake_wait_out_zlp
    pub takes : o.1.out_ready ≡ true

  fetch_all-none :
      (fuel : ℕ) (e : Endpoint chip.Hw)
      → fetch_all fuel (record e { in_packet = none }) ≡ ([], record e { in_packet = none })
  unfolding fetch_all
  fetch_all-none zero e = refl
  fetch_all-none (suc fuel) e = refl

  -- The handshake, with nothing left.
  ended-IsSent :
      (fuel t prev : ℕ) (short : Bool) (e : Endpoint chip.Hw)
      → t ≡ e.bus.control.payload_size
      → IsSent t e (fetch_all fuel (send_zlp_out (due t prev short e)))
  ended-IsSent fuel t prev short e full =
      rw (fetch_all-none fuel (send_zlp_out (due t prev short e))) (
        let nothing : e.bus.control.payload_size - t ≡ 0 = omega (arith, full) in
        record {
          bytes = sym (ap (λ i. take i (drop t (payload_bytes e.bus))) nothing);
          bus_same = refl;
          request_same = refl;
          waits = refl;
          takes = refl;
        })

  data_in_sent-ended :
      (t prev : ℕ) (short : Bool) (e : Endpoint chip.Hw)
      → t ≡ e.bus.control.payload_size
      → (e.request.w_length == u16 (prev + t) || short) ≡ true
      → data_in_sent (due t prev short e) ≡ send_zlp_out (due t (u16 (prev + t)) short e)
  unfolding data_in_sent
  data_in_sent-ended t prev short e full done =
      let nothing : (0 == u16 (e.bus.control.payload_size + 2 ^ 16 - t)) ≡ true =
        ground (arith, full) in
      rw nothing (rw done refl)

  data_in_sent-zlp :
      (t prev : ℕ) (short : Bool) (e : Endpoint chip.Hw)
      → t ≡ e.bus.control.payload_size
      → (e.request.w_length == u16 (prev + t) || short) ≡ false
      → data_in_sent (due t prev short e) ≡ send_packet 0 (due t (u16 (prev + t)) short e)
  unfolding data_in_sent
  data_in_sent-zlp t prev short e full more =
      let nothing : (0 == u16 (e.bus.control.payload_size + 2 ^ 16 - t)) ≡ true =
        ground (arith, full) in
      rw nothing (rw more refl)

  data_in_sent-more :
      (t prev : ℕ) (short : Bool) (e : Endpoint chip.Hw)
      → t < e.bus.control.payload_size
      → e.bus.control.payload_size < 2 ^ 16
      → data_in_sent (due t prev short e)
        ≡ send_packet (e.bus.control.payload_size - t) (due t prev short e)
  unfolding data_in_sent
  data_in_sent-more t prev short e h fits =
      let left : u16 (e.bus.control.payload_size + 2 ^ 16 - t) ≡ e.bus.control.payload_size - t =
        ground (arith, h, fits) in
      let some_left : (0 == e.bus.control.payload_size - t) ≡ false = ground (arith, h) in
      rw left (rw some_left refl)

  -- The size of the next packet.
  abbrev chunk : ℕ → ℕ
  chunk left = if leb usb_device_ep_ctrl_size left then usb_device_ep_ctrl_size else left

  -- The host fetches a packet, and the driver sends the next one.
  fetch_all-packet :
      (fuel left t prev : ℕ) (short : Bool) (e : Endpoint chip.Hw) (o : List ℕ × Endpoint chip.Hw)
      → fetch_all fuel (
          data_in_sent (due (u16 (t + chunk left)) prev (not (leb usb_device_ep_ctrl_size left)) e))
        ≡ o
      → fetch_all (suc fuel) (send_packet left (due t prev short e))
        ≡ (take (chunk left) (drop t (payload_bytes e.bus)) ++ o.0, o.1)
  unfolding fetch_all in_sent
  fetch_all-packet fuel left t prev short e o h =
      ap (λ x. (take (chunk left) (drop t (payload_bytes e.bus)) ++ x.0, x.1)) h

  -- A packet before the rest.
  packet-IsSent :
      (fuel left t prev : ℕ) (short : Bool) (e : Endpoint chip.Hw)
      → u16 (t + chunk left) ≡ t + chunk left
      → t + chunk left ≤ e.bus.control.payload_size
      → IsSent (t + chunk left) e (
          fetch_all fuel
            (data_in_sent (due (t + chunk left) prev (not (leb usb_device_ep_ctrl_size left)) e)))
      → IsSent t e (fetch_all (suc fuel) (send_packet left (due t prev short e)))
  packet-IsSent fuel left t prev short e fits le h =
      let o : List ℕ × Endpoint chip.Hw =
        fetch_all fuel
          (data_in_sent (due (t + chunk left) prev (not (leb usb_device_ep_ctrl_size left)) e)) in
      let size : ℕ = e.bus.control.payload_size in
      let parts : size - t ≡ chunk left + (size - (t + chunk left)) = omega (arith, le) in
      let next : fetch_all fuel (
            data_in_sent
              (due (u16 (t + chunk left)) prev (not (leb usb_device_ep_ctrl_size left)) e))
          ≡ o =
        ap
          (λ n.
            fetch_all fuel (data_in_sent (due n prev (not (leb usb_device_ep_ctrl_size left)) e)))
          fits in
      rw (fetch_all-packet fuel left t prev short e o next) (record {
        bytes =
            ap (λ bs. take (chunk left) (drop t (payload_bytes e.bus)) ++ bs) h.bytes
            ∙ sym (take-add (chunk left) (size - (t + chunk left)) t (payload_bytes e.bus))
            ∙ ap (λ n. take n (drop t (payload_bytes e.bus))) (sym parts);
        bus_same = h.bus_same;
        request_same = h.request_same;
        waits = h.waits;
        takes = h.takes;
      })

  shortened :
      (prev t : ℕ) (e : Endpoint chip.Hw) → (e.request.w_length == u16 (prev + t) || true) ≡ true
  shortened prev t e = elim (Bool-cases (e.request.w_length == u16 (prev + t))) [
    | inl h ↦ rw h refl
    | inr h ↦ rw h refl
  ]

  -- With nothing left: the handshake, or an empty packet and then the handshake.
  full-IsSent :
      (fuel t prev : ℕ) (short : Bool) (e : Endpoint chip.Hw)
      → t ≡ e.bus.control.payload_size
      → e.bus.control.payload_size < 2 ^ 16
      → IsSent t e (fetch_all (suc (suc fuel)) (data_in_sent (due t prev short e)))
  full-IsSent fuel t prev short e full fits =
      let prev' : ℕ = u16 (prev + t) in
      let same : u16 (t + chunk 0) ≡ t + chunk 0 = ground (arith, full, fits) in
      let still : t + chunk 0 ≡ e.bus.control.payload_size = ground (arith, full) in
      elim (Bool-cases (e.request.w_length == prev' || short)) [
        | inl done ↦
            rw (data_in_sent-ended t prev short e full done)
              (ended-IsSent (suc (suc fuel)) t prev' short e full)
        | inr more ↦ rw (data_in_sent-zlp t prev short e full more) (
            packet-IsSent (suc fuel) 0 t prev' short e same (omega (arith, still)) (
              rw
                (data_in_sent-ended (t + chunk 0) prev' true e still
                  (shortened prev' (t + chunk 0) e))
                (ended-IsSent (suc fuel) (t + chunk 0) (u16 (prev' + (t + chunk 0))) true e still)))
      ]

  -- Fuel for the bytes left, and two for an empty packet and the handshake, is enough.
  data_in_sent-IsSent :
      (fuel t prev : ℕ) (short : Bool) (e : Endpoint chip.Hw)
      → t ≤ e.bus.control.payload_size
      → e.bus.control.payload_size < 2 ^ 16
      → e.bus.control.payload_size + 2 ≤ fuel + t
      → IsSent t e (fetch_all fuel (data_in_sent (due t prev short e)))
  data_in_sent-IsSent zero t prev short e le fits enough = absurd (omega (arith, le, enough))
  data_in_sent-IsSent (suc zero) t prev short e le fits enough = absurd (omega (arith, le, enough))
  data_in_sent-IsSent (suc (suc fuel)) t prev short e le fits enough =
      elim (dec_lt t e.bus.control.payload_size) [
        | no all ↦ full-IsSent fuel t prev short e (omega (arith, le, all)) fits
        | yes some_left ↦
            let left : ℕ = e.bus.control.payload_size - t in
            let size_le : chunk left ≤ left = ground (arith) in
            let size_pos : 1 ≤ chunk left = ground (arith, some_left) in
            rw (data_in_sent-more t prev short e some_left fits) (
              packet-IsSent (suc fuel) left t prev short e
                (ground (arith, size_le, some_left, fits)) (omega (arith, size_le, some_left))
                (data_in_sent-IsSent (suc fuel) (t + chunk left) prev
                  (not (leb usb_device_ep_ctrl_size left)) e (omega (arith, size_le, some_left))
                  fits (omega (arith, size_pos, enough))))
      ]

  -- An endpoint that waits for a request.
  abbrev pub ready : Endpoint chip.Hw → Endpoint chip.Hw
  ready e = record e { state = setup; in_packet = none }

  -- The bytes that a host fetches behind the SETUP packet of an accepted request.
  pub setup_received-IsSent :
      (fuel : ℕ) (buffer : List ℕ) (e : Endpoint chip.Hw)
      → is_in (setup_of buffer) ≡ true
      → (process_setup chip udd (setup_of buffer) e.bus).0 ≡ true
      → (process_setup chip udd (setup_of buffer) e.bus).1.control.payload_size < 2 ^ 16
      → (process_setup chip udd (setup_of buffer) e.bus).1.control.payload_size + 2 ≤ fuel
      → IsSent 0
          (record e {
            bus = (process_setup chip udd (setup_of buffer) e.bus).1;
            request = setup_of buffer;
          })
          (fetch_all fuel (setup_received chip udd stack 8 buffer (ready e)))
  unfolding setup_received in_sent
  setup_received-IsSent fuel buffer e asks accepted fits enough = rw accepted (
      rw asks (
        data_in_sent-IsSent fuel 0 0 e.b_shortpacket
          (record e {
            bus = (process_setup chip udd (setup_of buffer) e.bus).1;
            request = setup_of buffer;
          })
          (omega arith) fits (omega (arith, enough))))
