-- ===== src/Usb/Jobs/Reachable.antt =====
-- An OUT endpoint under its driver: which slots the operations of usb_device.c and the packets of the
-- host lead to, and what the hardware writes in them.
use hid_bootloader.Base.{ℕ, ◌+◌, ◌^◌, ◌≤◌, ◌<◌, ◌≡◌, refl, arith, Bool, true, false, Memory}
use hid_bootloader.Usb.Jobs.{
  Slot, Job, disabled, is_enable, is_isochronous, bufsize_8, DataPtr, in_buf, in_cache,
  trans_complet_out, ep_run, ep_abort, ep_alloc, ep_free, ep_set_halt, ep_clear_halt, type_of,
}
use hid_bootloader.Usb.Jobs.Receiving.{stored}
use hid_bootloader.Usb.Jobs.Safe.{
  IsSafe, works, transfer-IsSafe, ep_run-IsSafe, ep_alloc-IsSafe, ep_abort-IsSafe, ep_free-IsSafe,
  ep_set_halt-IsSafe, ep_clear_halt-IsSafe,
}

-- What can happen to an OUT endpoint that is not isochronous. Its size is 64 at most on a full-speed bus,
-- which is also the size of the cache buffer. The host sends what the endpoint asks for or less, in a
-- transfer that the hardware ends with the bit NACK0.
pub data Step : Slot → Slot → Type 0 where
  allocated :
      (attributes size : ℕ) (s : Slot)
      → size ≤ 64
      → is_isochronous (type_of attributes) ≡ false
      → Step s (ep_alloc attributes size s).1
  released : (s : Slot) → Step s (ep_free s).1
  aborted : (s : Slot) → Step s (ep_abort s).1
  halt_set : (s : Slot) → Step s (ep_set_halt s).1
  halt_cleared : (s : Slot) → Step s (ep_clear_halt s).1
  started :
      (short : Bool) (buf : Memory) (buf_size : ℕ) (s : Slot)
      → buf_size < 2 ^ 15
      → Step s (ep_run false short buf buf_size s).2
  transferred :
      (ptr : DataPtr) (c : ℕ) (bytes : Memory) (s : Slot)
      → is_enable s.kind ≡ true
      → s.nack ≡ false
      → c ≤ s.aux
      → Step
          (record s { dataptr = ptr })
          (trans_complet_out (stored c bytes (record s { dataptr = ptr }))).1

-- From a slot as udd_enable leaves it.
pub data Reachable : Slot → Type 0 where
  enabled :
      (s : Slot)
      → s.kind ≡ disabled
      → s.size ≡ bufsize_8
      → s.stall ≡ false
      → s.job.busy ≡ false
      → s.job.nb_trans ≡ 0
      → s.job.buf_size ≡ 0
      → Reachable s
  and_then : (s s' : Slot) → Reachable s → Step s s' → Reachable s'

Step-IsSafe : (s s' : Slot) → Step s s' → IsSafe s → IsSafe s'
Step-IsSafe _ _ (allocated attributes size s le plain) h =
    ep_alloc-IsSafe attributes size s h le plain
Step-IsSafe _ _ (released s) h = ep_free-IsSafe s h
Step-IsSafe _ _ (aborted s) h = ep_abort-IsSafe s h
Step-IsSafe _ _ (halt_set s) h = ep_set_halt-IsSafe s h
Step-IsSafe _ _ (halt_cleared s) h = ep_clear_halt-IsSafe s h
Step-IsSafe _ _ (started short buf buf_size s fits) h = ep_run-IsSafe short buf buf_size s h fits
Step-IsSafe _ _ (transferred ptr c bytes s on taking le) h =
    transfer-IsSafe ptr c bytes s h on taking le

Reachable-IsSafe : (s : Slot) → Reachable s → IsSafe s
Reachable-IsSafe s (enabled _ kind size stall busy nb n) = record {
  bounded = record { within = omega (arith, nb, n); fits = omega (arith, n); target = λ b. cc };
  small = rw size (omega arith);
  waits = rw kind (λ e b. cc);
  halted = λ e. busy;
  closed = λ e. busy;
  steady = rw kind refl;
}
Reachable-IsSafe s (and_then s0 _ before step) = Step-IsSafe s0 s step (Reachable-IsSafe s0 before)

-- The bytes that the hardware stores lie in the buffer of the job, which is not yet complete, or in the
-- cache buffer, of 64 bytes.
pub HasRoom : ℕ → DataPtr → Job → Type 0
HasRoom c (in_buf at) j = (at ≡ j.nb_trans) × (at + c ≤ j.buf_size)
HasRoom c in_cache j = (c ≤ 64) × (j.nb_trans ≤ j.buf_size)

room :
    (ptr : DataPtr) (c : ℕ) (s : Slot)
    → IsSafe (record s { dataptr = ptr })
    → s.job.busy ≡ true
    → c ≤ s.aux
    → HasRoom c ptr s.job
unfolding HasRoom
room (in_buf at) c s h busy le =
    let (same, fits, _, _, _) = h.bounded.target busy in (same, omega (arith, fits, le))
room in_cache c s h busy le =
    let (whole, _, _, _) = h.bounded.target busy in
    (omega (arith, whole, h.small, le), h.bounded.within)

-- Whatever the program and the host do with an OUT endpoint that is not isochronous, of up to 64 bytes
-- and with jobs below 32768 bytes: when the endpoint takes packets, there is a job and no halt, and what
-- the host sends goes right behind the bytes that are there and within the buffer of the job, or into the
-- cache buffer and within it.
pub Reachable-HasRoom :
    (s : Slot) (c : ℕ)
    → Reachable s
    → is_enable s.kind ≡ true
    → s.nack ≡ false
    → c ≤ s.aux
    → (s.job.busy ≡ true) × (s.stall ≡ false) × HasRoom c s.dataptr s.job
Reachable-HasRoom s c reach on taking le =
    let h = Reachable-IsSafe s reach in
    let (busy, free) = works s h on taking in (busy, free, room s.dataptr c s h busy le)
