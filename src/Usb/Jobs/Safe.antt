-- ===== src/Usb/Jobs/Safe.antt =====
-- An OUT endpoint under its driver: what every operation of usb_device.c and every transfer of the host
-- keeps of its slot.
use hid_bootloader.Base.{
  ℕ, ◌%◌, ◌^◌, ◌≤◌, ◌<◌, ◌==◌, ◌≡◌, refl, sym, ap, ◌∙◌, arith, ltb, Bool, true, false, not,
  if◌then◌else◌, ◌&&◌, ◌||◌, Memory, Option, none, Bool-cases, inl, inr,
}
use hid_bootloader.Usb.Jobs.{
  Slot, is_enable, is_isochronous, ep_get_size, DataPtr, in_buf, in_cache, next_out, complete,
  trans_complet_out, ep_run, ep_abort, ep_init, ep_alloc, ep_free, ep_set_halt, ep_clear_halt,
  size_of, type_of,
}
use hid_bootloader.Usb.Jobs.Receiving.{
  zero_mod, stored, IsBounded, chosen-IsBounded, received, counted, trans_complet_out-IsBounded,
}

-- A slot is bounded, takes packets only for a job, and has no job when it is halted or closed.
pub record IsSafe (s : Slot) : Type 0 where
  pub bounded : IsBounded s
  pub small : ep_get_size s.size ≤ 64
  pub waits : is_enable s.kind ≡ true → s.job.busy ≡ false → s.nack ≡ true
  pub halted : s.stall ≡ true → s.job.busy ≡ false
  pub closed : is_enable s.kind ≡ false → s.job.busy ≡ false
  pub steady : is_isochronous s.kind ≡ false

-- What an operation leaves: the registers but NACK0, which it clears for a job only.
Keeps : Slot → Slot → Type 0
Keeps s s' =
    (s'.kind ≡ s.kind)
    × (s'.size ≡ s.size)
    × (s'.stall ≡ s.stall)
    × (s.job.busy ≡ false → s'.job.busy ≡ false)
    × (s'.job.busy ≡ false → s'.nack ≡ s.nack)

next_out-Keeps : (nb : ℕ) (s : Slot) → s.job.busy ≡ true → Keeps s (next_out nb s)
unfolding Keeps
next_out-Keeps nb s b = ground (arith, b)

complete-Keeps : (s : Slot) → Keeps s (complete s).1
unfolding Keeps
complete-Keeps s = ground arith

chosen-Keeps :
    (full : Bool) (s : Slot)
    → (full ≡ true → s.job.busy ≡ true)
    → Keeps s (if full then (none, next_out s.job.nb_trans s) else complete s).1
chosen-Keeps true s h = next_out-Keeps s.job.nb_trans s (h refl)
chosen-Keeps false s h = complete-Keeps s

-- A slot that is bounded and keeps the registers is safe.
kept-IsSafe :
    (s s' : Slot)
    → Keeps s s'
    → IsBounded s'
    → ep_get_size s.size ≤ 64
    → (is_enable s.kind ≡ true → s.nack ≡ true)
    → (s.stall ≡ true → s.job.busy ≡ false)
    → (is_enable s.kind ≡ false → s.job.busy ≡ false)
    → is_isochronous s.kind ≡ false
    → IsSafe s'
unfolding Keeps
kept-IsSafe s s' (kind, size, stall, busy, nack) bounded small waits halted closed steady = record {
  bounded = bounded;
  small = rw size small;
  waits = λ e b. nack b ∙ waits (ap is_enable (sym kind) ∙ e);
  halted = λ e. busy (halted (sym stall ∙ e));
  closed = λ e. busy (closed (ap is_enable (sym kind) ∙ e));
  steady = ap is_isochronous kind ∙ steady;
}

-- A slot without a job.
idle-IsSafe :
    (s : Slot)
    → s.job.nb_trans ≤ s.job.buf_size
    → s.job.buf_size < 2 ^ 15
    → ep_get_size s.size ≤ 64
    → s.job.busy ≡ false
    → (is_enable s.kind ≡ true → s.nack ≡ true)
    → is_isochronous s.kind ≡ false
    → IsSafe s
idle-IsSafe s within fits small free waits steady = record {
  bounded = record { within = within; fits = fits; target = λ b. cc };
  small = small;
  waits = λ e b. waits e;
  halted = λ e. free;
  closed = λ e. free;
  steady = steady;
}

-- The end of a transfer, when the hardware has set NACK0.
ended-IsSafe :
    (s : Slot)
    → IsBounded (trans_complet_out s).1
    → ep_get_size s.size ≤ 64
    → s.nack ≡ true
    → s.stall ≡ false
    → is_enable s.kind ≡ true
    → s.job.busy ≡ true
    → is_isochronous s.kind ≡ false
    → IsSafe (trans_complet_out s).1
unfolding trans_complet_out counted Keeps
ended-IsSafe s bounded small shut free on busy steady =
    kept-IsSafe s _
      (chosen-Keeps (s.cnt == s.aux && not (counted s.job.nb_trans s.cnt s == s.job.buf_size))
        (received (counted s.job.nb_trans s.cnt s) s) (λ e. busy))
      bounded small (λ e. shut) (λ e. cc) (λ e. cc) steady

-- The busy slot that takes a transfer.
pub works :
    (s : Slot)
    → IsSafe s
    → is_enable s.kind ≡ true
    → s.nack ≡ false
    → (s.job.busy ≡ true) × (s.stall ≡ false)
works s h on taking = elim (Bool-cases s.job.busy) [
  | inl b ↦ (b, elim (Bool-cases s.stall) [ inl e ↦ (let idle = h.halted e in cc) | inr e ↦ e ])
  | inr b ↦ (let shut = h.waits on b in cc)
]

pub transfer-IsSafe :
    (ptr : DataPtr) (c : ℕ) (bytes : Memory) (s : Slot)
    → IsSafe (record s { dataptr = ptr })
    → is_enable s.kind ≡ true
    → s.nack ≡ false
    → c ≤ s.aux
    → IsSafe (trans_complet_out (stored c bytes (record s { dataptr = ptr }))).1
transfer-IsSafe (in_buf at) c bytes s h on taking le =
    let (busy, free) = works (record s { dataptr = in_buf at }) h on taking in
    ended-IsSafe (stored c bytes (record s { dataptr = in_buf at }))
      (trans_complet_out-IsBounded (in_buf at) c bytes s h.bounded busy le) h.small refl free on
      busy h.steady
transfer-IsSafe in_cache c bytes s h on taking le =
    let (busy, free) = works (record s { dataptr = in_cache }) h on taking in
    ended-IsSafe (stored c bytes (record s { dataptr = in_cache }))
      (trans_complet_out-IsBounded in_cache c bytes s h.bounded busy le) h.small refl free on busy
      h.steady

-- A job that begins, as the end of an empty transfer.
abbrev job_begun : Bool → Memory → ℕ → Slot → Slot
job_begun short buf buf_size s = record s {
  job = record {
    busy = true;
    b_shortpacket = short || buf_size == 0;
    b_use_out_cache_buffer = false;
    buf = buf;
    buf_size = buf_size;
    nb_trans = 0;
  };
  aux = 0;
  cnt = 0;
}

job_begun-IsSafe :
    (short : Bool) (buf : Memory) (buf_size : ℕ) (s : Slot)
    → IsSafe s
    → is_enable s.kind ≡ true
    → s.stall ≡ false
    → s.job.busy ≡ false
    → buf_size < 2 ^ 15
    → IsSafe (trans_complet_out (job_begun short buf buf_size s)).1
unfolding trans_complet_out Keeps
job_begun-IsSafe short buf buf_size s h on free idle fits =
    let n : ℕ = if ltb buf_size 0 then buf_size else 0 in
    let none_yet : n ≡ 0 = ground arith in
    let first : Slot = received n (job_begun short buf buf_size s) in
    kept-IsSafe (job_begun short buf buf_size s) _
      (chosen-Keeps (not (n == buf_size)) first (λ e. refl))
      (chosen-IsBounded (not (n == buf_size)) first (omega (arith, none_yet)) fits (λ e. (
        ap (λ k. k % ep_get_size s.size) none_yet ∙ zero_mod s.size,
        refl,
        ground (arith, e, none_yet),
      )))
      h.small (λ e. h.waits on idle) (λ e. cc) (λ e. cc) h.steady

size_of-small : (size : ℕ) → size ≤ 64 → ep_get_size (size_of size) ≤ 64
size_of-small size h = ground (arith, h)

-- The three guards of udd_ep_run.
guarded-IsSafe :
    (on halt busy : Bool) (s : Slot) (o : Bool × Option ℕ × Slot)
    → IsSafe s
    → (on ≡ true → halt ≡ false → busy ≡ false → IsSafe o.2)
    → IsSafe
        (if not on
          then (false, none, s)
          else if halt
          then (false, none, s)
          else if busy
          then (false, none, s)
          else o).2
guarded-IsSafe false halt busy s o h k = h
guarded-IsSafe true true busy s o h k = h
guarded-IsSafe true false true s o h k = h
guarded-IsSafe true false false s o h k = k refl refl refl

pub ep_run-IsSafe :
    (short : Bool) (buf : Memory) (buf_size : ℕ) (s : Slot)
    → IsSafe s
    → buf_size < 2 ^ 15
    → IsSafe (ep_run false short buf buf_size s).2
unfolding ep_run
ep_run-IsSafe short buf buf_size s h fits =
    guarded-IsSafe (is_enable s.kind) (not (is_isochronous s.kind) && s.stall) s.job.busy s _ h
      (λ on halt idle.
        let free : s.stall ≡ false = ground (arith, halt, h.steady) in
        rw h.steady (job_begun-IsSafe short buf buf_size s h on free idle fits))

pub ep_alloc-IsSafe :
    (attributes size : ℕ) (s : Slot)
    → IsSafe s
    → size ≤ 64
    → is_isochronous (type_of attributes) ≡ false
    → IsSafe (ep_alloc attributes size s).1
unfolding ep_alloc
ep_alloc-IsSafe attributes size s h le steady = elim (Bool-cases (is_enable s.kind)) [
  | inl on ↦ rw on h
  | inr off ↦
      let free = h.closed off in
      rw off (
        idle-IsSafe (ep_init attributes size s) h.bounded.within h.bounded.fits
          (size_of-small size le) free (λ e. refl) steady)
]

pub ep_abort-IsSafe : (s : Slot) → IsSafe s → IsSafe (ep_abort s).1
unfolding ep_abort
ep_abort-IsSafe s h =
    idle-IsSafe _ h.bounded.within h.bounded.fits h.small refl (λ e. refl) h.steady

pub ep_free-IsSafe : (s : Slot) → IsSafe s → IsSafe (ep_free s).1
unfolding ep_free ep_abort
ep_free-IsSafe s h =
    idle-IsSafe _ h.bounded.within h.bounded.fits (omega arith) refl (λ e. refl) refl

pub ep_set_halt-IsSafe : (s : Slot) → IsSafe s → IsSafe (ep_set_halt s).1
unfolding ep_set_halt ep_abort
ep_set_halt-IsSafe s h =
    idle-IsSafe _ h.bounded.within h.bounded.fits h.small refl (λ e. refl) h.steady

-- The guard of udd_ep_clear_halt.
cleared-IsSafe :
    (halt : Bool) (s : Slot) (o : Bool × Slot)
    → IsSafe s
    → (halt ≡ true → IsSafe o.1)
    → IsSafe (if not halt then (false, s) else o).1
cleared-IsSafe false s o h k = h
cleared-IsSafe true s o h k = k refl

pub ep_clear_halt-IsSafe : (s : Slot) → IsSafe s → IsSafe (ep_clear_halt s).1
unfolding ep_clear_halt
ep_clear_halt-IsSafe s h = cleared-IsSafe s.stall s _ h (λ e.
    idle-IsSafe _ h.bounded.within h.bounded.fits h.small refl (λ on. h.waits on (h.halted e))
      h.steady)
