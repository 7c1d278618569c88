-- ===== src/Usb/Driver.antt =====
-- xmega/drivers/usb/usb_device.c as the driver below udc.c: the endpoints with their jobs and the address
-- of the device, beside the rest of the hardware, and its interrupts.
pub mod Freed
pub mod Rearmed
pub mod Reset
pub mod Start
pub mod Tests
use hid_bootloader.Base.{
  ℕ, zero, suc, ◌+◌, ◌-◌, ◌*◌, ◌==◌, ltb, bit_and, Bool, true, false, if◌then◌else◌, Memory, Option,
  none, some, List,
}
use hid_bootloader.Chip.{Chip}
use hid_bootloader.Firmware.{udi_hid_report_in_size, udi_hid_report_out_size}
use hid_bootloader.Usb.{Bus, Udd, with_bus_hw}
use hid_bootloader.Usb.Protocol
use hid_bootloader.Usb.Descriptors.{
  usb_device_ep_ctrl_size, udi_hid_generic_ep_in, udi_hid_generic_ep_out,
}
use hid_bootloader.Usb.Hid.{generic_report_in_sent, generic_report_out_received}
use hid_bootloader.Usb.Interface.{aborted, reset}
use hid_bootloader.Usb.Endpoint.{
  Endpoint, ctrl_init, Waiting, underflow, overflow, in_sent, out_received, interrupt_tc_setup,
}
use hid_bootloader.Usb.Jobs.{
  Slot, disabled, bufsize_8, trans_complet_in, trans_complet_out, ep_run, ep_abort, ep_init,
  ep_alloc, ep_free, ep_set_halt, ep_clear_halt,
}

-- USB_DEVICE_MAX_EP
abbrev pub usb_device_max_ep : ℕ
usb_device_max_ep = 2

-- udd_ep_get_ctrl: the place of an endpoint in the table.
abbrev pub ep_index : ℕ → ℕ
ep_index ep = 2 * bit_and ep 0x0F + (if bit_and ep 0x80 == 0 then 0 else 1)

pub record Driver (Hw : Type 0) : Type 0 where
  pub hw : Hw
  pub slot : ℕ → Slot
  pub address : ℕ

module _ {Hw : Type 0} where
  abbrev pub with_slot : ℕ → Slot → Driver Hw → Driver Hw
  with_slot ep s d = record d { slot = λ i. if i == ep_index ep then s else d.slot i }

  -- An operation on the slot of an endpoint
  abbrev pub on_slot : ℕ → (Slot → Bool × Slot) → Driver Hw → Bool × Driver Hw
  on_slot ep f d = let (b, s) = f (d.slot (ep_index ep)) in (b, with_slot ep s d)

  -- udd_ep_run, of which the job is taken, on a buffer of `size` bytes.
  abbrev pub run_on : ℕ → Bool → Memory → ℕ → Driver Hw → Bool × Driver Hw
  run_on ep is_dir_in buf size d =
      let (ok, call, s) = ep_run is_dir_in false buf size (d.slot (ep_index ep)) in
      (ok, with_slot ep s d)

  -- udd_enable, of what the slots and the address have of it
  abbrev pub enable : Driver Hw → Driver Hw
  enable d = record d {
    slot = λ i.
        let s = d.slot i in
        let s' =
          if ltb i ((usb_device_max_ep + 1) * 2)
          then record s { kind = disabled; size = bufsize_8; stall = false }
          else s in
        record s' { job = record s'.job { busy = false } };
  }

-- The chip with the driver: the operations of the hardware go through to it.
abbrev pub wired : Chip → Chip
wired chip = record {
  board = chip.board;
  Hw = Driver chip.Hw;
  wait_for_spm = λ d. record d { hw = chip.wait_for_spm d.hw };
  erase_application_section = λ d. record d { hw = chip.erase_application_section d.hw };
  erase_user_signature_row = λ d. record d { hw = chip.erase_user_signature_row d.hw };
  write_user_signature_row = λ d. record d { hw = chip.write_user_signature_row d.hw };
  load_flash_page = λ m d. record d { hw = chip.load_flash_page m d.hw };
  write_application_page = λ a d. record d { hw = chip.write_application_page a d.hw };
  application_crc = λ d. chip.application_crc d.hw;
  boot_crc = λ d. chip.boot_crc d.hw;
  read_fuse_byte = λ i d. chip.read_fuse_byte i d.hw;
  read_user_signature_byte = λ i d. chip.read_user_signature_byte i d.hw;
  read_calibration_byte = λ i d. chip.read_calibration_byte i d.hw;
  flash = λ d. chip.flash d.hw;
  mcu_id = λ d. chip.mcu_id d.hw;
  nvm_status = λ d. chip.nvm_status d.hw;
  nvm_access = λ a d. record d { hw = chip.nvm_access a d.hw };
  mapped_eeprom = λ d. chip.mapped_eeprom d.hw;
  crc_access = λ a d. record d { hw = chip.crc_access a d.hw };
  crc_checksum = λ d. chip.crc_checksum d.hw;
  start_watchdog = λ d. record d { hw = chip.start_watchdog d.hw };
  run_in_endpoint = λ buf d. run_on udi_hid_generic_ep_in true buf udi_hid_report_in_size d;
}

-- The driver itself. The buffer of the OUT report is the one that its last job left.
abbrev pub driver_udd : {Hw : Type 0} → Udd (Driver Hw)
driver_udd = record {
  enable = enable;
  disable = λ d. d;
  set_address = λ address d. record d { address = address };
  getaddress = λ d. d.address;
  ep_alloc = λ ep attributes size d. on_slot ep (ep_alloc attributes size) d;
  ep_free = λ ep d. on_slot ep ep_free d;
  ep_abort = λ ep d. on_slot ep ep_abort d;
  ep_is_halted = λ ep d. (d.slot (ep_index ep)).stall;
  ep_set_halt = λ ep d. (true, (on_slot ep ep_set_halt d).1);
  ep_clear_halt = λ ep d. (true, (on_slot ep ep_clear_halt d).1);
  run_out_endpoint = λ d.
      run_on udi_hid_generic_ep_out false (d.slot (ep_index udi_hid_generic_ep_out)).job.buf
        udi_hid_report_out_size d;
}

-- udd_ctrl_interrupt_error, with the flags of the two events, whether the control endpoint has them, and
-- what else is there for it: whether there was one.
unfoldable pub interrupt_error :
    (chip : Chip)
    → Udd chip.Hw
    → Memory
    → Bool
    → Bool
    → Bool
    → Bool
    → Waiting
    → Endpoint chip.Hw
    → Bool × Endpoint chip.Hw
interrupt_error chip udd stack underflow_event in_underflow overflow_event out_overflow w e =
    if underflow_event
    then (true, if in_underflow then underflow chip udd stack w e else e)
    else if overflow_event
    then (true, if out_overflow then overflow chip udd stack w e else e)
    else (false, e)

-- What the interrupt USB_TRNCOMPL finds done: a packet of the control endpoint, or a transfer of another.
pub data Completion : Type 0 where
  control_out : ℕ → List ℕ → Completion
  control_in : Completion
  transfer : ℕ → Completion

module _ (chip : Chip) where
  -- An abort with its callback
  abbrev pub abort_endpoint : ℕ → Bus (wired chip).Hw → Bus (wired chip).Hw
  abort_endpoint ep s =
      let (was, hw) = on_slot ep ep_abort s.device.hw in
      aborted (wired chip) driver_udd ep was (with_bus_hw s hw)

  -- The loop over the endpoints of the reset, from 1 to below USB_DEVICE_MAX_EP.
  unfoldable pub abort_endpoints : ℕ → ℕ → Bus (wired chip).Hw → Bus (wired chip).Hw
  abort_endpoints zero i s = s
  abort_endpoints (suc left) i s =
      let rest = abort_endpoints left (i + 1) in
      rest (abort_endpoint (i + 0x80) (abort_endpoint i s))

  -- What the reset does of the address and the control endpoint.
  abbrev pub init_control : Driver chip.Hw → Driver chip.Hw
  init_control d =
      let d' = record d { address = 0 } in
      let out = with_slot 0 (ep_init 0 usb_device_ep_ctrl_size (d'.slot (ep_index 0))) d' in
      with_slot 0x80 (ep_init 0 usb_device_ep_ctrl_size (out.slot (ep_index 0x80))) out

  -- The branch of the interrupt USB_BUSEVENT for a reset of the bus
  unfoldable pub bus_reset : Endpoint (wired chip).Hw → Endpoint (wired chip).Hw
  unfolding abort_endpoints
  bus_reset e =
      let b = reset (wired chip) driver_udd (abort_endpoints (usb_device_max_ep - 1) 1 e.bus) in
      ctrl_init (record e {
        bus = with_bus_hw b (init_control b.device.hw);
        out_ready = false;
        stalled = false;
      })

  module _ (stack : Memory) where
    -- The callback of a transfer, if it is told of one.
    unfoldable pub trans_complet : ℕ → Bus (wired chip).Hw → Option (Bus (wired chip).Hw)
    trans_complet ep s =
        let d : Driver chip.Hw = s.device.hw in
        let slot = d.slot (ep_index ep) in
        if bit_and ep 0x80 == 0
        then (let (call, slot') = trans_complet_out slot in
            let s' = with_bus_hw s (with_slot ep slot' d) in
            elim call [
              | none ↦ some s'
              | some n ↦ generic_report_out_received (wired chip) driver_udd n slot'.job.buf s'
            ])
        else (let (call, slot') = trans_complet_in slot in
            let s' = with_bus_hw s (with_slot ep slot' d) in
            elim call [
              | none ↦ some s'
              | some n ↦ some (generic_report_in_sent (wired chip) driver_udd s')
            ])

    -- The interrupt USB_TRNCOMPL, behind the acknowledgement. `none` is the write past the page buffer.
    unfoldable pub transfer_complete :
        Completion → Endpoint (wired chip).Hw → Option (Endpoint (wired chip).Hw)
    unfolding trans_complet
    transfer_complete (control_out count buffer) e =
        some (out_received (wired chip) driver_udd stack count buffer e)
    transfer_complete control_in e = some (in_sent (wired chip) driver_udd stack e)
    transfer_complete (transfer ep) e = elim (trans_complet ep e.bus) [
      | none ↦ none
      | some b ↦ some (record e { bus = b })
    ]
