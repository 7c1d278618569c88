-- ===== src/Usb/Endpoint/Events.antt =====
-- The events of the control endpoint as steps, and what holds after any sequence of them.
use hid_bootloader.Base.{
  ℕ, ◌+◌, ◌-◌, ◌≤◌, u16, ◌==◌, ◌≡◌, refl, ap, ◌∙◌, arith, ltb, Bool, true, false, not,
  if◌then◌else◌, ◌||◌, Memory, List, length, take, length-take, length-replaced,
}
use hid_bootloader.Chip.{Chip}
use hid_bootloader.Usb.{Setup, unset, sends, fills_feature, Bus, Udd}
use hid_bootloader.Usb.Descriptors.{udi_hid_report_feature_size}
use hid_bootloader.Usb.Hid.{generic_setfeature_valid}
use hid_bootloader.Usb.Requests.{set_valid_address}
use hid_bootloader.Usb.Interface.{reset}
use hid_bootloader.Usb.Process.Within.Keeps.{reset-feature}
use hid_bootloader.Firmware.{State}
use hid_bootloader.Usb.Process.{process_setup, endofrequest}
use hid_bootloader.Usb.Process.Within.{process_setup-IsWithin}
use hid_bootloader.Usb.Process.Within.Standard.{capacity, IsWithin}
use hid_bootloader.Usb.Process.Configure.{process_setup-configuration, process_setup-feature}
use hid_bootloader.Usb.Endpoint.{
  Endpoint, data_in, is_data_in, is_data_out, waits_in_zlp, waits_out_zlp, setup_of, store,
  ctrl_init, finish_request, send_zlp_in, stall_data, data_in_sent, data_out_received, in_sent,
  out_received, begin, next_stage, setup_received, interrupt_tc_setup, Waiting, nothing,
  transfer_event, setup_event, underflow, overflow,
}

-- In a data stage, no more was transferred than the payload has; the report buffer has its five bytes.
abbrev pub IsSafe : {Hw : Type 0} → Endpoint Hw → Type 0
IsSafe e =
    IsWithin e.bus.control
    × ((is_data_in e.state || is_data_out e.state) ≡ true
        → e.payload_nb_trans ≤ e.bus.control.payload_size)
    × (length e.bus.report_feature ≡ udi_hid_report_feature_size)
    × (e.bus.num_configuration ≤ 1)

module _ {Hw : Type 0} where
  data_in_sent-IsSafe :
      (e : Endpoint Hw)
      → IsSafe e
      → e.payload_nb_trans ≤ e.bus.control.payload_size
      → IsSafe (data_in_sent e)
  unfolding data_in_sent
  data_in_sent-IsSafe e h sent = ground (arith, h, sent)

  -- What is received stays in the buffer.
  store-capacity :
      (t : ℕ) (new : List ℕ) (b : Bus Hw)
      → t + length new ≤ capacity b.control.payload
      → length b.report_feature ≡ udi_hid_report_feature_size
      → (capacity (store t new b).control.payload ≡ capacity b.control.payload)
        × (length (store t new b).report_feature ≡ udi_hid_report_feature_size)
        × ((store t new b).num_configuration ≡ b.num_configuration)
        × ((store t new b).control.payload_size ≡ b.control.payload_size)
  store-capacity t new b h five =
      elim b.control.payload
          as (λ p.
            (t + length new ≤ capacity p)
            → (capacity
                  (store t new
                    (record b { control = record b.control { payload = p } })).control.payload
                ≡ capacity p)
              × (length
                    (store t new
                      (record b { control = record b.control { payload = p } })).report_feature
                  ≡ udi_hid_report_feature_size)
              × ((store t new
                    (record b { control = record b.control { payload = p } })).num_configuration
                  ≡ b.num_configuration)
              × ((store t new
                    (record b { control = record b.control { payload = p } })).control.payload_size
                  ≡ b.control.payload_size)) [
                    | unset ↦ λ k. (refl, five, refl, refl)
                    | sends bytes ↦ λ k. (length-replaced t new bytes k, five, refl, refl)
                    | fills_feature ↦ λ k. (
                      refl,
                      length-replaced t new b.report_feature (omega (arith, k, five)) ∙ five,
                      refl,
                      refl,
                    )
                  ]
        h

  -- The three ends of an OUT packet, with `n` bytes then received.
  received-IsSafe :
      (last full : Bool) (e : Endpoint Hw) (b : Bus Hw) (n : ℕ)
      → IsWithin b.control
      → n ≤ b.control.payload_size
      → length b.report_feature ≡ udi_hid_report_feature_size
      → b.num_configuration ≤ 1
      → IsSafe (
          if last
          then send_zlp_in (record e {
            bus = record b { control = record b.control { payload_size = n } };
            payload_nb_trans = n;
          })
          else if full
          then stall_data (record e { bus = b; payload_nb_trans = n })
          else record e { bus = b; payload_nb_trans = n; out_ready = true })
  received-IsSafe true full e b n h k five number = (omega (arith, h, k), λ x. cc, five, number)
  received-IsSafe false true e b n h k five number = (h, λ x. cc, five, number)
  received-IsSafe false false e b n h k five number = (h, λ x. k, five, number)

  data_out_received-IsSafe :
      (count : ℕ) (buffer : List ℕ) (e : Endpoint Hw)
      → IsSafe e
      → e.payload_nb_trans ≤ e.bus.control.payload_size
      → IsSafe (data_out_received count buffer e)
  unfolding data_out_received
  data_out_received-IsSafe count buffer e h sent =
      let t : ℕ = e.payload_nb_trans in
      let size : ℕ = e.bus.control.payload_size in
      let nb_data : ℕ = if ltb size (t + count) then size - t else count in
      let fits : t + nb_data ≤ size = ground (arith, sent) in
      let new : List ℕ = take nb_data buffer in
      let small : length new ≤ nb_data = length-take nb_data buffer in
      let (cap, five, number, same) =
        store-capacity t new e.bus (omega (arith, fits, small, h.0)) h.2 in
      let cut : u16 (t + nb_data) ≤ t + nb_data = omega arith in
      received-IsSafe _ _ e (store t new e.bus) (u16 (t + nb_data)) (omega (arith, same, cap, h.0))
        (omega (arith, cut, fits, same)) five (omega (arith, number, h.3))

module _ (chip : Chip) (udd : Udd chip.Hw) (stack : Memory) where
  -- A reset of the bus, that leaves the variables of the device as `d` behind the aborts of the jobs, and
  -- as `d'` in the end.
  abbrev pub reset_endpoint : State chip.Hw → State chip.Hw → Endpoint chip.Hw → Endpoint chip.Hw
  reset_endpoint d d' e = ctrl_init (record e {
    bus = record (reset chip udd (record e.bus { device = d })) { device = d' };
    out_ready = false;
    stalled = false;
  })

  -- The events of the endpoint, a reset of the bus included. An OUT or IN packet is reported only in its
  -- data stage or as the handshake: the driver states this in assertions, which are not compiled, and the
  -- hardware keeps to it as long as no packet that was armed before a SETUP packet or a reset is reported
  -- behind it.
  pub data Event : Endpoint chip.Hw → Endpoint chip.Hw → Type 0 where
    setup_packet :
        (count : ℕ) (buffer : List ℕ) (e : Endpoint chip.Hw)
        → Event e (interrupt_tc_setup chip udd stack count buffer e)
    in_packet_sent :
        (e : Endpoint chip.Hw)
        → (is_data_in e.state || waits_in_zlp e.state) ≡ true
        → Event e (in_sent chip udd stack e)
    out_packet_received :
        (count : ℕ) (buffer : List ℕ) (e : Endpoint chip.Hw)
        → (is_data_out e.state || waits_out_zlp e.state) ≡ true
        → Event e (out_received chip udd stack count buffer e)
    in_underflow : (w : Waiting) (e : Endpoint chip.Hw) → Event e (underflow chip udd stack w e)
    out_overflow : (w : Waiting) (e : Endpoint chip.Hw) → Event e (overflow chip udd stack w e)
    reset_of_bus : (d d' : State chip.Hw) (e : Endpoint chip.Hw) → Event e (reset_endpoint d d' e)

  pub data Reaches (e : Endpoint chip.Hw) : Endpoint chip.Hw → Type 0 where
    at_once : Reaches e e
    behind : {f g : Endpoint chip.Hw} → Reaches e f → Event f g → Reaches e g

  finish_request-IsSafe :
      (e : Endpoint chip.Hw) → IsSafe e → IsSafe (finish_request chip udd stack e)
  unfolding endofrequest set_valid_address generic_setfeature_valid
  finish_request-IsSafe e h = ground (arith, h)

  ctrl_init-IsSafe : (e : Endpoint chip.Hw) → IsSafe e → IsSafe (ctrl_init e)
  ctrl_init-IsSafe e h = ground (arith, h)

  begin-IsSafe : (e : Endpoint chip.Hw) → IsSafe e → IsSafe (begin chip udd stack e)
  begin-IsSafe e h = ground (arith, h, finish_request-IsSafe e h, ctrl_init-IsSafe e h)

  in_sent-IsSafe :
      (e : Endpoint chip.Hw)
      → IsSafe e
      → (is_data_in e.state || waits_in_zlp e.state) ≡ true
      → IsSafe (in_sent chip udd stack e)
  unfolding in_sent
  in_sent-IsSafe e h k = ground (arith, h, k, finish_request-IsSafe e h, data_in_sent-IsSafe e h)

  out_received-IsSafe :
      (count : ℕ) (buffer : List ℕ) (e : Endpoint chip.Hw)
      → IsSafe e
      → (is_data_out e.state || waits_out_zlp e.state) ≡ true
      → IsSafe (out_received chip udd stack count buffer e)
  unfolding out_received
  out_received-IsSafe count buffer e h k =
      ground (arith, h, k, finish_request-IsSafe e h, data_out_received-IsSafe count buffer e h)

  next_stage-IsSafe :
      (e : Endpoint chip.Hw)
      → IsWithin e.bus.control
      → length e.bus.report_feature ≡ udi_hid_report_feature_size
      → e.bus.num_configuration ≤ 1
      → IsSafe (next_stage chip udd stack e)
  unfolding in_sent
  next_stage-IsSafe e h five number =
      let sending : Endpoint chip.Hw = record e {
        prev_payload_nb_trans = 0;
        payload_nb_trans = 0;
        state = data_in;
      } in
      let sent : IsSafe (data_in_sent sending) =
        data_in_sent-IsSafe sending (h, λ k. omega arith, five, number) (omega arith) in
      ground (arith, h, five, number, sent)

  setup_received-IsSafe :
      (count : ℕ) (buffer : List ℕ) (e : Endpoint chip.Hw)
      → IsSafe e
      → IsSafe (setup_received chip udd stack count buffer e)
  unfolding setup_received
  setup_received-IsSafe count buffer e h =
      let e1 : Endpoint chip.Hw = begin chip udd stack e in
      let safe : IsSafe e1 = begin-IsSafe e h in
      let r : Setup = setup_of buffer in
      let b : Bus chip.Hw = (process_setup chip udd r e1.bus).1 in
      let within = process_setup-IsWithin chip udd r e1.bus in
      let five : length b.report_feature ≡ udi_hid_report_feature_size =
        ap (λ bytes. length bytes) (process_setup-feature chip udd r e1.bus) ∙ safe.2 in
      let number : b.num_configuration ≤ 1 =
        ground (arith, safe, process_setup-configuration chip udd r e1.bus) in
      let e2 : Endpoint chip.Hw = record e1 { bus = b; request = r } in
      let refused : IsSafe (stall_data e2) = (within, λ k. cc, five, number) in
      chosen_one (8 == count) (process_setup chip udd r e1.bus).0 e1 (stall_data e2)
        (next_stage chip udd stack e2) safe refused (next_stage-IsSafe e2 within five number)
    where
      chosen_one :
          (whole ok : Bool) (x y z : Endpoint chip.Hw)
          → IsSafe x
          → IsSafe y
          → IsSafe z
          → IsSafe (if not whole then x else if not ok then y else z)
      chosen_one true true x y z a b c = c
      chosen_one true false x y z a b c = b
      chosen_one false ok x y z a b c = a

  reset_endpoint-IsSafe :
      (d d' : State chip.Hw) (e : Endpoint chip.Hw) → IsSafe e → IsSafe (reset_endpoint d d' e)
  unfolding reset
  reset_endpoint-IsSafe d d' e h = (
    omega arith,
    λ k. cc,
    ap (λ bytes. length bytes) (reset-feature chip udd (record e.bus { device = d })) ∙ h.2,
    omega arith,
  )

  underflow-IsSafe :
      (w : Waiting) (e : Endpoint chip.Hw) → IsSafe e → IsSafe (underflow chip udd stack w e)
  unfolding underflow
  underflow-IsSafe nothing e h = ground (arith, h)
  underflow-IsSafe transfer_event e h = h
  underflow-IsSafe (setup_event count buffer) e h =
      setup_received-IsSafe count buffer (record e { stalled = false }) h

  overflow-IsSafe :
      (w : Waiting) (e : Endpoint chip.Hw) → IsSafe e → IsSafe (overflow chip udd stack w e)
  unfolding overflow
  overflow-IsSafe nothing e h = ground (arith, h)
  overflow-IsSafe transfer_event e h = h
  overflow-IsSafe (setup_event count buffer) e h =
      setup_received-IsSafe count buffer (record e { stalled = false }) h

  Event-IsSafe : {e f : Endpoint chip.Hw} → Event e f → IsSafe e → IsSafe f
  Event-IsSafe (setup_packet count buffer e) h =
      setup_received-IsSafe count buffer (record e { stalled = false }) h
  Event-IsSafe (in_packet_sent e k) h = in_sent-IsSafe e h k
  Event-IsSafe (out_packet_received count buffer e k) h = out_received-IsSafe count buffer e h k
  Event-IsSafe (in_underflow w e) h = underflow-IsSafe w e h
  Event-IsSafe (out_overflow w e) h = overflow-IsSafe w e h
  Event-IsSafe (reset_of_bus d d' e) h = reset_endpoint-IsSafe d d' e h

  -- After any sequence of events of the control endpoint from a safe state, resets of the bus included,
  -- with any packets, of which the hardware reports an OUT or IN packet only in its data stage or as the
  -- handshake: the payload
  -- is no larger than what it points to, no more of it was transferred in a data stage than it has, the
  -- buffer of the feature report has its five bytes, and the chosen configuration is 0 or 1.
  pub Reaches-IsSafe : {e f : Endpoint chip.Hw} → IsSafe e → Reaches e f → IsSafe f
  Reaches-IsSafe h at_once = h
  Reaches-IsSafe h (behind path event) = Event-IsSafe event (Reaches-IsSafe h path)
