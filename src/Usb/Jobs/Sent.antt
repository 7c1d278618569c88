-- ===== src/Usb/Jobs/Sent.antt =====
-- A job on an IN endpoint: what the host gets of its buffer.
use hid_bootloader.Base.{
  ℕ, zero, suc, ◌+◌, ◌-◌, ◌%◌, ◌^◌, ◌≤◌, ◌<◌, u16, ◌==◌, ◌≡◌, refl, sym, ap, ◌∙◌, arith, Bool, true,
  false, not, ◌&&◌, ◌||◌, Memory, List, ◌++◌, Option, none, some,
}
use mathlib.Core.Path.{subst}
use native.Mathlib.Decide.{dec_lt}
use hid_bootloader.Usb.Jobs.{
  Slot, is_enable, is_isochronous, ep_get_size, next_in, trans_complet_in, ep_run,
}
use hid_bootloader.Usb.Jobs.Sending.{
  slice, slice-append, fetch_job, next_in-bounds, armed, fetched, next_short, trans_complet_in-more,
  trans_complet_in-zlp, trans_complet_in-last,
}

-- The bytes behind the first `t` were sent, and the callback of the job is told the size of the buffer.
pub record IsJobSent (t : ℕ) (s : Slot) (o : List ℕ × Option ℕ × Slot) : Type 0 where
  pub bytes : o.0 ≡ slice s.job.buf t (s.job.buf_size - t)
  pub called : o.1 ≡ some s.job.buf_size
  pub idle : o.2.job.busy ≡ false

-- What the driver's answer to a transfer leads to.
abbrev continued : ℕ → List ℕ → Option ℕ × Slot → List ℕ × Option ℕ × Slot
continued fuel bytes o = elim o.0 [
  | some n ↦ (bytes, some n, o.1)
  | none ↦ (let (more, call, s') = fetch_job fuel o.1 in (bytes ++ more, call, s'))
]

fetch_job-continued :
    (fuel p t c : ℕ) (short : Bool) (s : Slot) (o : Option ℕ × Slot)
    → trans_complet_in (fetched p t c short s) ≡ o
    → fetch_job (suc fuel) (armed p t c short s) ≡ continued fuel (slice s.job.buf p c) o
unfolding fetch_job
fetch_job-continued fuel p t c short s o h = ap (λ x. continued fuel (slice s.job.buf p c) x) h

last-IsJobSent :
    (fuel t c : ℕ) (s : Slot)
    → t + c ≡ s.job.buf_size
    → s.job.buf_size < 2 ^ 16
    → IsJobSent t s (fetch_job (suc fuel) (armed t t c false s))
last-IsJobSent fuel t c s h fits =
    let rest : s.job.buf_size - t ≡ c = omega (arith, h) in
    rw (fetch_job-continued fuel t t c false s _ (trans_complet_in-last t t c s h fits)) (record {
      bytes = ap (λ n. slice s.job.buf t n) (sym rest);
      called = ap (λ n. some n) h;
      idle = refl;
    })

-- A transfer before the rest.
more-IsJobSent :
    (fuel t c : ℕ) (short : Bool) (s s' : Slot)
    → t + c ≤ s.job.buf_size
    → trans_complet_in (fetched t t c short s) ≡ (none, s')
    → IsJobSent (t + c) s (fetch_job fuel s')
    → IsJobSent t s (fetch_job (suc fuel) (armed t t c short s))
more-IsJobSent fuel t c short s s' le e h =
    let parts : s.job.buf_size - t ≡ c + (s.job.buf_size - (t + c)) = omega (arith, le) in
    rw (fetch_job-continued fuel t t c short s _ e) (record {
      bytes =
          ap (λ bytes. slice s.job.buf t c ++ bytes) h.bytes
          ∙ sym (slice-append s.job.buf t c (s.job.buf_size - (t + c)))
          ∙ ap (λ n. slice s.job.buf t n) (sym parts);
      called = h.called;
      idle = h.idle;
    })

-- The empty packet behind a buffer that ends in a full one.
zlp-IsJobSent :
    (fuel p : ℕ) (s : Slot)
    → s.job.buf_size < 2 ^ 16
    → IsJobSent s.job.buf_size s (fetch_job (suc fuel) (armed p s.job.buf_size 0 false s))
zlp-IsJobSent fuel p s fits =
    let n : ℕ = s.job.buf_size in
    let same : n + 0 ≡ n = omega arith in
    let rest : n - n ≡ 0 = omega arith in
    rw (fetch_job-continued fuel p n 0 false s _ (trans_complet_in-last p n 0 s same fits))
      (record {
        bytes = ap (λ k. slice s.job.buf n k) (sym rest);
        called = ap (λ k. some k) same;
        idle = refl;
      })

full-IsJobSent :
    (fuel t c : ℕ) (short : Bool) (s : Slot)
    → t + c ≡ s.job.buf_size
    → s.job.buf_size < 2 ^ 16
    → IsJobSent t s (fetch_job (suc (suc fuel)) (armed t t c short s))
full-IsJobSent fuel t c false s full fits = last-IsJobSent (suc fuel) t c s full fits
full-IsJobSent fuel t c true s full fits =
    more-IsJobSent (suc fuel) t c true s _ (omega (arith, full))
      (trans_complet_in-zlp t t c s full fits)
      (subst (λ k. IsJobSent k s (fetch_job (suc fuel) (armed t k 0 false s))) (sym full)
        (zlp-IsJobSent fuel t s fits))

-- The slot with a new job.
abbrev pub with_job : Memory → ℕ → Slot → Slot
with_job buf buf_size s = record s {
  job = record s.job { b_use_out_cache_buffer = false; buf = buf; buf_size = buf_size };
}

-- Fuel for the bytes left, and two for the last transfer and an empty packet, is enough.
armed-IsJobSent :
    (fuel t c : ℕ) (short : Bool) (s : Slot)
    → t + c ≤ s.job.buf_size
    → 1 ≤ c
    → s.job.buf_size < 2 ^ 16
    → s.job.buf_size + 2 ≤ fuel + t
    → IsJobSent t s (fetch_job fuel (armed t t c short s))
armed-IsJobSent zero t c short s le pos fits enough = absurd (omega (arith, le, enough))
armed-IsJobSent (suc zero) t c short s le pos fits enough = absurd (omega (arith, le, pos, enough))
armed-IsJobSent (suc (suc fuel)) t c short s le pos fits enough =
    elim (dec_lt (t + c) s.job.buf_size) [
      | yes more ↦
          let bounds = next_in-bounds s.size (s.job.buf_size - (t + c)) (omega (arith, more)) in
          more-IsJobSent (suc fuel) t c short s _ le (trans_complet_in-more t t c short s more fits)
            (armed-IsJobSent (suc fuel) (t + c)
              (next_in (s.job.buf_size - (t + c)) (ep_get_size s.size)) (next_short (t + c) short s)
              s (omega (arith, bounds.1, more)) bounds.0 fits (omega (arith, pos, enough)))
      | no all ↦
          let full : t + c ≡ s.job.buf_size = omega (arith, le, all) in
          full-IsJobSent fuel t c short s full fits
    ]

run_short : Bool → ℕ → Slot → Bool
run_short short buf_size s =
    (short || buf_size == 0)
    && 0 == next_in (buf_size - 0) (ep_get_size s.size) % ep_get_size s.size

ep_run-taken :
    (short : Bool) (buf : Memory) (buf_size : ℕ) (s : Slot)
    → is_enable s.kind ≡ true
    → s.stall ≡ false
    → s.job.busy ≡ false
    → 0 < buf_size
    → buf_size < 2 ^ 16
    → ep_run true short buf buf_size s ≡ (
      true,
      none,
      armed 0 0
          (next_in (buf_size - 0) (ep_get_size s.size))
          (run_short short buf_size s)
          (with_job buf buf_size s),
    )
unfolding ep_run trans_complet_in run_short
ep_run-taken short buf buf_size s enabled free idle pos fits =
    let clear : (not (is_isochronous s.kind) && s.stall) ≡ false = ground (arith, free) in
    let differs : (0 == buf_size) ≡ false = ground (arith, pos) in
    let left : u16 (buf_size + 2 ^ 16 - 0) ≡ buf_size - 0 = omega (arith, fits) in
    rw (enabled, clear, idle, differs, left) refl

-- Every transfer that the host fetches on the way of fetch_job has at most 1023 bytes.
pub TransfersFit : ℕ → Slot → Type 0
TransfersFit zero s = Unit
TransfersFit (suc fuel) s =
    (s.cnt ≤ 1023) × TransfersFit fuel (trans_complet_in (record s { aux = s.cnt; nack = true })).1

trans_complet_in-cnt : (s : Slot) → s.cnt ≤ 1023 → (trans_complet_in s).1.cnt ≤ 1023
unfolding trans_complet_in
trans_complet_in-cnt s h = ground (arith, h)

TransfersFit-lem : (fuel : ℕ) (s : Slot) → s.cnt ≤ 1023 → TransfersFit fuel s
unfolding TransfersFit
TransfersFit-lem zero s h = tt
TransfersFit-lem (suc fuel) s h =
    (h, TransfersFit-lem fuel _ (trans_complet_in-cnt (record s { aux = s.cnt; nack = true }) h))

next_in-le : (left size : ℕ) → next_in left size ≤ 1023
next_in-le left size = ground arith

-- On an allocated IN endpoint that is neither halted nor at work, of any size, a job of 1 to 65535 bytes
-- is taken. With fuel for its bytes and two more, the host then fetches exactly the bytes of the buffer,
-- in transfers of up to 1023 bytes, and the callback of the job is told once that all were sent; the
-- endpoint is idle again.
pub ep_run-IsJobSent :
    (fuel : ℕ) (short : Bool) (buf : Memory) (buf_size : ℕ) (s : Slot)
    → is_enable s.kind ≡ true
    → s.stall ≡ false
    → s.job.busy ≡ false
    → 0 < buf_size
    → buf_size < 2 ^ 16
    → buf_size + 2 ≤ fuel
    → ((ep_run true short buf buf_size s).0 ≡ true)
      × ((ep_run true short buf buf_size s).1 ≡ none)
      × IsJobSent 0 (with_job buf buf_size s) (fetch_job fuel (ep_run true short buf buf_size s).2)
      × TransfersFit fuel (ep_run true short buf buf_size s).2
ep_run-IsJobSent fuel short buf buf_size s enabled free idle pos fits enough =
    let taken = ep_run-taken short buf buf_size s enabled free idle pos fits in
    let bounds = next_in-bounds s.size (buf_size - 0) (omega (arith, pos)) in
    let sends =
      armed-IsJobSent fuel 0 (next_in (buf_size - 0) (ep_get_size s.size))
        (run_short short buf_size s) (with_job buf buf_size s) (omega (arith, bounds.1)) bounds.0
        fits (omega (arith, enough)) in
    rw taken
      (refl, refl, sends, TransfersFit-lem fuel _ (next_in-le (buf_size - 0) (ep_get_size s.size)))
