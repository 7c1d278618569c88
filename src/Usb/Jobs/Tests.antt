-- ===== src/Usb/Jobs/Tests.antt =====
-- The theorems about the jobs, at endpoints of 64 bytes.
use hid_bootloader.Base.{◌+◌, ◌≤◌, ◌≡◌, refl, arith, true, false, Memory, none}
use hid_bootloader.Usb.Protocol.{ep_type_interrupt}
use hid_bootloader.Usb.Jobs.{
  Slot, disabled, bufsize_8, in_buf, trans_complet_out, ep_run, ep_alloc, is_enable, is_isochronous,
  ep_get_size,
}
use hid_bootloader.Usb.Jobs.Sending.{fetch_job}
use hid_bootloader.Usb.Jobs.Sent.{with_job, IsJobSent, TransfersFit, ep_run-IsJobSent}
use hid_bootloader.Usb.Jobs.Storing.{send_job}
use hid_bootloader.Usb.Jobs.Received.{IsJobReceived, ep_run-IsJobReceived}
use hid_bootloader.Usb.Jobs.Reachable.{
  allocated, started, Reachable, enabled, and_then, HasRoom, Reachable-HasRoom,
}

-- A slot that was never used
abbrev unused : Slot
unused = record {
  job = record {
    busy = false;
    b_shortpacket = false;
    b_use_out_cache_buffer = false;
    buf = λ i. 0;
    buf_size = 0;
    nb_trans = 0;
  };
  kind = disabled;
  size = bufsize_8;
  stall = false;
  nack = false;
  cnt = 0;
  aux = 0;
  dataptr = in_buf 0;
  cache = λ i. 0;
}

abbrev ready_slot : Slot
ready_slot = (ep_alloc ep_type_interrupt 64 unused).1

abbrev report : Memory
report i = i + 1

ready_enabled : is_enable ready_slot.kind ≡ true
unfolding ep_alloc
ready_enabled = refl

ready_free : ready_slot.stall ≡ false
unfolding ep_alloc
ready_free = refl

ready_idle : ready_slot.job.busy ≡ false
unfolding ep_alloc
ready_idle = refl

ep_run-IsJobSent_example :
    ((ep_run true false report 200 ready_slot).0 ≡ true)
    × ((ep_run true false report 200 ready_slot).1 ≡ none)
    × IsJobSent 0
        (with_job report 200 ready_slot)
        (fetch_job 202 (ep_run true false report 200 ready_slot).2)
    × TransfersFit 202 (ep_run true false report 200 ready_slot).2
ep_run-IsJobSent_example =
    ep_run-IsJobSent 202 false report 200 ready_slot ready_enabled ready_free ready_idle
      (omega arith) (omega arith) (omega arith)

-- A job of 100 bytes.
abbrev working : Slot
working = (ep_run false false report 100 ready_slot).2

abbrev working_path : Reachable working
working_path =
    and_then ready_slot working
      (and_then unused ready_slot (enabled unused refl refl refl refl refl refl)
        (allocated ep_type_interrupt 64 unused (omega arith) refl))
      (started false report 100 ready_slot (omega arith))

working_enabled : is_enable working.kind ≡ true
unfolding ep_alloc ep_run trans_complet_out
working_enabled = refl

working_takes : working.nack ≡ false
unfolding ep_alloc ep_run trans_complet_out
working_takes = refl

working_asks : 64 ≤ working.aux
unfolding ep_alloc ep_run trans_complet_out
working_asks = omega arith

Reachable-HasRoom_example :
    (working.job.busy ≡ true) × (working.stall ≡ false) × HasRoom 64 working.dataptr working.job
Reachable-HasRoom_example =
    Reachable-HasRoom working 64 working_path working_enabled working_takes working_asks

ready_steady : is_isochronous ready_slot.kind ≡ false
unfolding ep_alloc
ready_steady = refl

ready_small : ep_get_size ready_slot.size ≤ 64
unfolding ep_alloc
ready_small = omega arith

ep_run-IsJobReceived_example :
    ((ep_run false false (λ i. 0) 100 ready_slot).0 ≡ true)
    × ((ep_run false false (λ i. 0) 100 ready_slot).1 ≡ none)
    × IsJobReceived report 100 (send_job 101 report (ep_run false false (λ i. 0) 100 ready_slot).2)
ep_run-IsJobReceived_example =
    ep_run-IsJobReceived 101 false (λ i. 0) report 100 ready_slot ready_enabled ready_steady
      ready_free ready_idle ready_small (omega arith) (omega arith) (omega arith)
