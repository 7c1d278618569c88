-- ===== src/Usb/Jobs/Received.antt =====
-- A job on an OUT endpoint: what its buffer holds when it ends.
use hid_bootloader.Base.{
  ℕ, zero, suc, ◌+◌, ◌-◌, ◌%◌, ◌^◌, ◌≤◌, ◌<◌, ◌==◌, ◌≡◌, refl, sym, ap, ◌∙◌, arith, ltb, Bool, true,
  false, if◌then◌else◌, ◌||◌, Memory, Option, none, some,
}
use mathlib.Core.Path.{subst}
use native.Mathlib.Decide.{dec_lt}
use hid_bootloader.Usb.Jobs.{
  Slot, is_enable, is_isochronous, ep_get_size, next_out, trans_complet_out, ep_run,
}
use hid_bootloader.Usb.Jobs.Receiving.{IsNext, next_size, next_size_lem, aligned-add, zero_mod}
use hid_bootloader.Usb.Jobs.Storing.{
  send_next, send_job, asked, asked_cache, Wants, advanced, advanced-content, send_next-more, over,
  send_next-last, size_pos, rest_mod, cached, send_next-cache, cached-content,
}

-- The callback is told that all `n` bytes came, they are in the buffer, and the endpoint is idle.
pub record IsJobReceived (stream : Memory) (n : ℕ) (o : Option ℕ × Slot) : Type 0 where
  pub called : o.0 ≡ some n
  pub content : (i : ℕ) → i < n → o.1.job.buf i ≡ stream i
  pub idle : o.1.job.busy ≡ false

-- What the driver's answer to a transfer leads to.
abbrev continued : ℕ → Memory → Option ℕ × Slot → Option ℕ × Slot
continued fuel stream o = elim o.0 [ some n ↦ (some n, o.1) | none ↦ send_job fuel stream o.1 ]

abbrev taking : Slot → Slot
taking s = record s { nack = false }

send_job-continued :
    (fuel : ℕ) (stream : Memory) (s : Slot) (o : Option ℕ × Slot)
    → send_next stream (taking s) ≡ o
    → send_job (suc fuel) stream (taking s) ≡ continued fuel stream o
unfolding send_job
send_job-continued fuel stream s o h = ap (λ x. continued fuel stream x) h

-- The answer of the driver ends the job.
ended-IsJobReceived :
    (fuel : ℕ) (stream : Memory) (n : ℕ) (s s' : Slot)
    → send_next stream (taking s) ≡ (some n, s')
    → ((i : ℕ) → i < n → s'.job.buf i ≡ stream i)
    → s'.job.busy ≡ false
    → IsJobReceived stream n (send_job (suc fuel) stream (taking s))
ended-IsJobReceived fuel stream n s s' e content idle =
    subst (IsJobReceived stream n) (sym (send_job-continued fuel stream s (some n, s') e))
      (record { called = refl; content = content; idle = idle })

-- The answer of the driver goes on.
more-IsJobReceived :
    (fuel : ℕ) (stream : Memory) (n : ℕ) (s s' : Slot)
    → send_next stream (taking s) ≡ (none, s')
    → IsJobReceived stream n (send_job fuel stream s')
    → IsJobReceived stream n (send_job (suc fuel) stream (taking s))
more-IsJobReceived fuel stream n s s' e h =
    subst (IsJobReceived stream n) (sym (send_job-continued fuel stream s (none, s') e)) h

cached-IsJobReceived :
    (fuel : ℕ) (stream : Memory) (n : ℕ) (s : Slot)
    → Wants stream n s
    → n < s.job.nb_trans + ep_get_size s.size
    → IsJobReceived stream n (send_job (suc fuel) stream (asked_cache s))
cached-IsJobReceived fuel stream n s w short =
    let c : ℕ = n - s.job.nb_trans in
    let size = w.size in
    let all : s.job.nb_trans + c ≡ n = omega (arith, w.less) in
    let small : c < ep_get_size s.size = omega (arith, short, w.less) in
    let rest : s.job.buf_size % ep_get_size s.size ≡ c =
      ap (λ k. k % ep_get_size s.size) size
      ∙ rest_mod s.size n s.job.nb_trans w.aligned w.less short in
    let sent =
      send_next-cache c stream s (all ∙ sym size) small rest (omega (arith, size, w.small))
        w.busy in
    ended-IsJobReceived fuel stream n (asked_cache s) _
      (sent ∙ ap (λ k. (some k, over (cached c stream s))) all)
      (λ i k. cached-content c stream s w.content i (omega (arith, k, all))) refl

-- What holds of both ways of a test
of_two :
    (b : Bool) (x y : Slot) (P : Slot → Type 0)
    → (b ≡ true → P x)
    → (b ≡ false → P y)
    → P (if b then x else y)
of_two true x y P h k = h refl
of_two false x y P h k = k refl

-- How the endpoint goes on from bytes that are there.
next_out-IsJobReceived :
    (fuel : ℕ) (stream : Memory) (n : ℕ) (s : Slot)
    → Wants stream n s
    → ((a : ℕ)
        → 1 ≤ a
        → s.job.nb_trans + a ≤ n
        → a % ep_get_size s.size ≡ 0
        → IsJobReceived stream n (send_job (suc fuel) stream (asked a s)))
    → IsJobReceived stream n (send_job (suc fuel) stream (next_out s.job.nb_trans s))
unfolding IsNext
next_out-IsJobReceived fuel stream n s w go =
    let size = w.size in
    let (last, le, even) =
      next_size_lem s.size s.job.buf_size s.job.nb_trans (omega (arith, size, w.less)) w.aligned in
    let pos = size_pos s.size in
    of_two
      (ltb (next_size (s.job.buf_size - s.job.nb_trans) (ep_get_size s.size)) (ep_get_size s.size))
      (asked_cache s) (asked (next_size (s.job.buf_size - s.job.nb_trans) (ep_get_size s.size)) s)
      (λ t. IsJobReceived stream n (send_job (suc fuel) stream t))
      (λ small.
        let (_, short) = last (ground (arith, small)) in
        cached-IsJobReceived fuel stream n s w (omega (arith, short, size)))
      (λ large.
        go (next_size (s.job.buf_size - s.job.nb_trans) (ep_get_size s.size))
          (ground (arith, large, pos)) (omega (arith, le, size, w.less)) even)

-- The job with `a` bytes more
advanced-Wants :
    (a : ℕ) (stream : Memory) (n : ℕ) (s : Slot)
    → Wants stream n s
    → s.job.nb_trans + a < n
    → a % ep_get_size s.size ≡ 0
    → Wants stream n (advanced a stream s)
advanced-Wants a stream n s w more even = record {
  busy = w.busy;
  size = w.size;
  less = more;
  small = w.small;
  aligned = aligned-add s.size s.job.nb_trans a w.aligned even;
  content = advanced-content a stream s w.content;
  direct = w.direct;
}

-- Fuel for the bytes left is enough.
asked-IsJobReceived :
    (fuel a : ℕ) (stream : Memory) (n : ℕ) (s : Slot)
    → Wants stream n s
    → 1 ≤ a
    → s.job.nb_trans + a ≤ n
    → a % ep_get_size s.size ≡ 0
    → n + 1 ≤ fuel + s.job.nb_trans
    → IsJobReceived stream n (send_job fuel stream (asked a s))
asked-IsJobReceived zero a stream n s w pos le even enough =
    absurd (let less = w.less in omega (arith, less, enough))
asked-IsJobReceived (suc zero) a stream n s w pos le even enough =
    absurd (let less = w.less in omega (arith, less, enough))
asked-IsJobReceived (suc (suc fuel)) a stream n s w pos le even enough =
    let size = w.size in
    let small = w.small in
    elim (dec_lt (s.job.nb_trans + a) n) [
      | yes more ↦
          more-IsJobReceived (suc fuel) stream n (asked a s) _
            (send_next-more a stream s (omega (arith, more, size)) (omega (arith, size, small))
              w.direct)
            (next_out-IsJobReceived fuel stream n (advanced a stream s)
              (advanced-Wants a stream n s w more even)
              (λ a' pos' le' even'.
                asked-IsJobReceived (suc fuel) a' stream n (advanced a stream s)
                  (advanced-Wants a stream n s w more even) pos' le' even'
                  (omega (arith, pos, enough))))
      | no full ↦
          let all : s.job.nb_trans + a ≡ n = omega (arith, le, full) in
          ended-IsJobReceived (suc fuel) stream n (asked a s) _
            (send_next-last a stream s (all ∙ sym size) (omega (arith, size, small)) w.direct w.busy
              ∙ ap (λ k. (some k, over (advanced a stream s))) all)
            (λ i k. advanced-content a stream s w.content i (omega (arith, k, all))) refl
    ]

-- The job as udd_ep_run begins it.
abbrev fresh_job : Bool → Memory → ℕ → Slot → Slot
fresh_job short buf n s = record s {
  job = record {
    busy = true;
    b_shortpacket = short || n == 0;
    b_use_out_cache_buffer = false;
    buf = buf;
    buf_size = n;
    nb_trans = 0;
  };
  aux = 0;
  cnt = 0;
}

ep_run-asks :
    (short : Bool) (buf : Memory) (n : ℕ) (s : Slot)
    → is_enable s.kind ≡ true
    → is_isochronous s.kind ≡ false
    → s.stall ≡ false
    → s.job.busy ≡ false
    → 0 < n
    → ep_run false short buf n s ≡ (true, none, next_out 0 (fresh_job short buf n s))
unfolding ep_run trans_complet_out
ep_run-asks short buf n s on steady free idle pos =
    let under : ltb n 0 ≡ false = ground arith in
    let differs : (0 == n) ≡ false = ground (arith, pos) in
    rw (on, steady, free, idle, under, differs) refl

-- On an allocated OUT endpoint of up to 64 bytes, the size of its cache buffer, that is not isochronous
-- and neither halted nor at work, a job of 1 to 32767 bytes is taken. If the host sends that many bytes, whatever they are, and with fuel above
-- their number, the callback of the job is told the number once, the buffer then holds exactly these
-- bytes, and the endpoint is idle again.
pub ep_run-IsJobReceived :
    (fuel : ℕ) (short : Bool) (buf stream : Memory) (n : ℕ) (s : Slot)
    → is_enable s.kind ≡ true
    → is_isochronous s.kind ≡ false
    → s.stall ≡ false
    → s.job.busy ≡ false
    → ep_get_size s.size ≤ 64
    → 0 < n
    → n < 2 ^ 15
    → n < fuel
    → ((ep_run false short buf n s).0 ≡ true)
      × ((ep_run false short buf n s).1 ≡ none)
      × IsJobReceived stream n (send_job fuel stream (ep_run false short buf n s).2)
ep_run-IsJobReceived zero short buf stream n s on steady free idle cache pos fits enough =
    absurd (omega (arith, enough))
ep_run-IsJobReceived (suc fuel) short buf stream n s on steady free idle cache pos fits enough =
    let wants : Wants stream n (fresh_job short buf n s) = record {
      busy = refl;
      size = refl;
      less = pos;
      small = fits;
      aligned = zero_mod s.size;
      content = λ i k. absurd (omega (arith, k));
      direct = refl;
    } in
    let begins = ep_run-asks short buf n s on steady free idle pos in
    (
      ap (λ o. o.0) begins,
      ap (λ o. o.1) begins,
      subst
          (λ (o : Bool × Option ℕ × Slot). IsJobReceived stream n (send_job (suc fuel) stream o.2))
          (sym begins)
          (next_out-IsJobReceived fuel stream n (fresh_job short buf n s) wants (λ a pos' le' even'.
            asked-IsJobReceived (suc fuel) a stream n (fresh_job short buf n s) wants pos' le' even'
              (omega (arith, enough)))),
    )
