-- ===== src/Usb/Jobs/Storing.antt =====
-- A job on an OUT endpoint: what each transfer of the host leads to.
use hid_bootloader.Base.{
  ℕ, zero, suc, ◌+◌, ◌-◌, ◌%◌, ◌^◌, ◌≤◌, ◌<◌, u16, ◌==◌, ◌≡◌, refl, ap, arith, ltb, true, false,
  if◌then◌else◌, Memory, copy, Option, none, some,
}
use native.Mathlib.Decide.{dec_lt}
use hid_bootloader.Usb.Jobs.{
  Slot, BufSize, bufsize_8, bufsize_16, bufsize_32, bufsize_64, bufsize_128, bufsize_256,
  bufsize_512, bufsize_1023, ep_get_size, in_buf, in_cache, next_out, trans_complet_out,
}
use hid_bootloader.Usb.Jobs.Receiving.{stored}

-- The host has as many bytes as the job wants. It sends what the endpoint asks for, or what is left.
unfoldable pub send_next : Memory → Slot → Option ℕ × Slot
send_next stream s =
    let left = s.job.buf_size - s.job.nb_trans in
    let c = if ltb s.aux left then s.aux else left in
    trans_complet_out (stored c (λ i. stream (s.job.nb_trans + i)) s)

-- It goes on as long as the endpoint takes packets, until the driver tells the callback.
unfoldable pub send_job : ℕ → Memory → Slot → Option ℕ × Slot
unfolding send_next
send_job zero stream s = (none, s)
send_job (suc fuel) stream s =
    let rest = send_job fuel stream in
    if s.nack
    then (none, s)
    else (let (call, s') = send_next stream s in
        elim call [ some n ↦ (some n, s') | none ↦ rest s' ])

-- The endpoint asks for `a` bytes right behind those that are there, or into the cache buffer.
abbrev pub asked : ℕ → Slot → Slot
asked a s = record s { dataptr = in_buf s.job.nb_trans; cnt = 0; aux = a; nack = false }

abbrev pub asked_cache : Slot → Slot
asked_cache s = record s {
  job = record s.job { b_use_out_cache_buffer = true };
  dataptr = in_cache;
  cnt = 0;
  aux = ep_get_size s.size;
  nack = false;
}

-- The job has its first bytes, and wants more.
pub record Wants (stream : Memory) (n : ℕ) (s : Slot) : Type 0 where
  pub busy : s.job.busy ≡ true
  pub size : s.job.buf_size ≡ n
  pub less : s.job.nb_trans < n
  pub small : n < 2 ^ 15
  pub aligned : s.job.nb_trans % ep_get_size s.size ≡ 0
  pub content : (i : ℕ) → i < s.job.nb_trans → s.job.buf i ≡ stream i
  pub direct : s.job.b_use_out_cache_buffer ≡ false

-- The bytes that were asked for are there.
abbrev pub advanced : ℕ → Memory → Slot → Slot
advanced a stream s = record (asked a s) {
  job = record s.job {
    buf = copy a s.job.buf s.job.nb_trans (λ i. stream (s.job.nb_trans + i)) 0;
    nb_trans = s.job.nb_trans + a;
  };
  cnt = a;
  nack = true;
}

pub advanced-content :
    (a : ℕ) (stream : Memory) (s : Slot)
    → ((i : ℕ) → i < s.job.nb_trans → s.job.buf i ≡ stream i)
    → (i : ℕ) → i < s.job.nb_trans + a
    → (advanced a stream s).job.buf i ≡ stream i
advanced-content a stream s h i k = elim (dec_lt i s.job.nb_trans) [
  | yes before ↦ ground (arith, h i before, before)
  | no behind ↦
      let place : s.job.nb_trans + (0 + (i - s.job.nb_trans)) ≡ i = omega (arith, behind) in
      ground (arith, behind, k, ap stream place)
]

pub send_next-more :
    (a : ℕ) (stream : Memory) (s : Slot)
    → s.job.nb_trans + a < s.job.buf_size
    → s.job.buf_size < 2 ^ 15
    → s.job.b_use_out_cache_buffer ≡ false
    → send_next stream (asked a s) ≡ (none, next_out (s.job.nb_trans + a) (advanced a stream s))
unfolding send_next trans_complet_out
send_next-more a stream s more small direct =
    let take : ltb a (s.job.buf_size - s.job.nb_trans) ≡ true = ground (arith, more) in
    let sum : u16 (s.job.nb_trans + a) ≡ s.job.nb_trans + a = omega (arith, more, small) in
    let under : ltb s.job.buf_size (s.job.nb_trans + a) ≡ false = ground (arith, more) in
    let whole : (a == a) ≡ true = ground arith in
    let differs : (s.job.nb_trans + a == s.job.buf_size) ≡ false = ground (arith, more) in
    rw (take, sum, under, direct, whole, differs) refl

-- The job is over.
abbrev pub over : Slot → Slot
over s = record s { job = record s.job { busy = false } }

pub send_next-last :
    (a : ℕ) (stream : Memory) (s : Slot)
    → s.job.nb_trans + a ≡ s.job.buf_size
    → s.job.buf_size < 2 ^ 15
    → s.job.b_use_out_cache_buffer ≡ false
    → s.job.busy ≡ true
    → send_next stream (asked a s) ≡ (some (s.job.nb_trans + a), over (advanced a stream s))
unfolding send_next trans_complet_out
send_next-last a stream s all small direct busy =
    let left : s.job.buf_size - s.job.nb_trans ≡ a = omega (arith, all) in
    let take : ltb a a ≡ false = ground arith in
    let sum : u16 (s.job.nb_trans + a) ≡ s.job.nb_trans + a = omega (arith, all, small) in
    let under : ltb s.job.buf_size (s.job.nb_trans + a) ≡ false = ground (arith, all) in
    let whole : (s.job.nb_trans + a == s.job.buf_size) ≡ true = ground (arith, all) in
    let same : (a == a) ≡ true = ground arith in
    rw (left, take, sum, under, direct, same, whole, busy) refl

pub size_pos : (b : BufSize) → 1 ≤ ep_get_size b
size_pos bufsize_8 = omega arith
size_pos bufsize_16 = omega arith
size_pos bufsize_32 = omega arith
size_pos bufsize_64 = omega arith
size_pos bufsize_128 = omega arith
size_pos bufsize_256 = omega arith
size_pos bufsize_512 = omega arith
size_pos bufsize_1023 = omega arith

pub rest_mod :
    (b : BufSize) (n t : ℕ)
    → t % ep_get_size b ≡ 0
    → t < n
    → n < t + ep_get_size b
    → n % ep_get_size b ≡ n - t
rest_mod bufsize_8 n t h k l = omega (arith, h, k, l)
rest_mod bufsize_16 n t h k l = omega (arith, h, k, l)
rest_mod bufsize_32 n t h k l = omega (arith, h, k, l)
rest_mod bufsize_64 n t h k l = omega (arith, h, k, l)
rest_mod bufsize_128 n t h k l = omega (arith, h, k, l)
rest_mod bufsize_256 n t h k l = omega (arith, h, k, l)
rest_mod bufsize_512 n t h k l = omega (arith, h, k, l)
rest_mod bufsize_1023 n t h k l = omega (arith, h, k, l)

-- The last `c` bytes came by the cache buffer.
abbrev pub cached : ℕ → Memory → Slot → Slot
cached c stream s =
    let cache = copy c s.cache 0 (λ i. stream (s.job.nb_trans + i)) 0 in
    record (asked_cache s) {
      job = record s.job {
        b_use_out_cache_buffer = true;
        buf = copy c s.job.buf s.job.nb_trans cache 0;
        nb_trans = s.job.nb_trans + c;
      };
      cache = cache;
      cnt = c;
      nack = true;
    }

pub send_next-cache :
    (c : ℕ) (stream : Memory) (s : Slot)
    → s.job.nb_trans + c ≡ s.job.buf_size
    → c < ep_get_size s.size
    → s.job.buf_size % ep_get_size s.size ≡ c
    → s.job.buf_size < 2 ^ 15
    → s.job.busy ≡ true
    → send_next stream (asked_cache s) ≡ (some (s.job.nb_trans + c), over (cached c stream s))
unfolding send_next trans_complet_out
send_next-cache c stream s all short rest small busy =
    let left : s.job.buf_size - s.job.nb_trans ≡ c = omega (arith, all) in
    let take : ltb (ep_get_size s.size) c ≡ false = ground (arith, short) in
    let sum : u16 (s.job.nb_trans + c) ≡ s.job.nb_trans + c = omega (arith, all, small) in
    let under : ltb s.job.buf_size (s.job.nb_trans + c) ≡ false = ground (arith, all) in
    let partial : (c == ep_get_size s.size) ≡ false = ground (arith, short) in
    rw (left, take, sum, under, rest, partial, busy) refl

pub cached-content :
    (c : ℕ) (stream : Memory) (s : Slot)
    → ((i : ℕ) → i < s.job.nb_trans → s.job.buf i ≡ stream i)
    → (i : ℕ) → i < s.job.nb_trans + c
    → (cached c stream s).job.buf i ≡ stream i
cached-content c stream s h i k = elim (dec_lt i s.job.nb_trans) [
  | yes before ↦ ground (arith, h i before, before)
  | no behind ↦
      let place : s.job.nb_trans + (0 + (0 + (i - s.job.nb_trans) - 0)) ≡ i =
        omega (arith, behind) in
      ground (arith, behind, k, ap stream place)
]
