-- ===== src/Usb/Jobs/Sending.antt =====
-- A job on an IN endpoint: what the end of a transfer leads to.
use hid_bootloader.Base.{
  ℕ, zero, suc, ◌+◌, ◌-◌, ◌%◌, ◌^◌, ◌≤◌, ◌<◌, u16, ◌==◌, ◌≡◌, refl, ap, ◌∙◌, arith, Bool, true,
  false, if◌then◌else◌, ◌&&◌, Memory, List, [], ◌∷◌, ◌++◌, Option, none, some,
}
use hid_bootloader.Usb.Jobs.{
  Slot, BufSize, ep_get_size, bufsize_8, bufsize_16, bufsize_32, bufsize_64, bufsize_128,
  bufsize_256, bufsize_512, bufsize_1023, in_buf, in_cache, next_in, trans_complet_in,
}

-- n bytes of a buffer from an offset on
abbrev pub slice : Memory → ℕ → ℕ → List ℕ
slice m at zero = []
slice m at (suc n) = m at ∷ slice m (at + 1) n

pub slice-append :
    (m : Memory) (at a b : ℕ) → slice m at (a + b) ≡ slice m at a ++ slice m (at + a) b
slice-append m at zero b =
    let e : 0 + b ≡ b = omega arith in
    let e' : at ≡ at + 0 = omega arith in ap (λ n. slice m at n) e ∙ ap (λ i. slice m i b) e'
slice-append m at (suc a) b =
    let e : suc a + b ≡ suc (a + b) = omega arith in
    let e' : at + 1 + a ≡ at + suc a = omega arith in
    ap (λ n. slice m at n) e
    ∙ ap (λ bytes. m at ∷ bytes)
        (slice-append m (at + 1) a b ∙ ap (λ i. slice m (at + 1) a ++ slice m i b) e')

-- The bytes that the hardware sends for the registers of a slot.
abbrev pub sent : Slot → List ℕ
sent s = elim s.dataptr [ in_buf at ↦ slice s.job.buf at s.cnt | in_cache ↦ slice s.cache 0 s.cnt ]

-- The host fetches the transfers of a job, as long as there is one, and the driver is told of each.
unfoldable pub fetch_job : ℕ → Slot → List ℕ × Option ℕ × Slot
fetch_job zero s = ([], none, s)
fetch_job (suc fuel) s =
    let rest = fetch_job fuel in
    if s.nack
    then ([], none, s)
    else (let (call, s') = trans_complet_in (record s { aux = s.cnt; nack = true }) in
        elim call [
          | some n ↦ (sent s, some n, s')
          | none ↦ (let (bytes, call', s'') = rest s' in (sent s ++ bytes, call', s''))
        ])

pub next_in-bounds :
    (size : BufSize) (left : ℕ)
    → 0 < left
    → (1 ≤ next_in left (ep_get_size size)) × (next_in left (ep_get_size size) ≤ left)
next_in-bounds bufsize_8 left h = ground (arith, h)
next_in-bounds bufsize_16 left h = ground (arith, h)
next_in-bounds bufsize_32 left h = ground (arith, h)
next_in-bounds bufsize_64 left h = ground (arith, h)
next_in-bounds bufsize_128 left h = ground (arith, h)
next_in-bounds bufsize_256 left h = ground (arith, h)
next_in-bounds bufsize_512 left h = ground (arith, h)
next_in-bounds bufsize_1023 left h = ground (arith, h)

-- A slot whose job has sent `t` bytes, with a transfer of `c` bytes from the offset `p` under way.
abbrev pub armed : ℕ → ℕ → ℕ → Bool → Slot → Slot
armed p t c short s = record s {
  job = record s.job { busy = true; b_shortpacket = short; nb_trans = t };
  dataptr = in_buf p;
  cnt = c;
  aux = 0;
  nack = false;
}

-- The transfer is over.
abbrev pub fetched : ℕ → ℕ → ℕ → Bool → Slot → Slot
fetched p t c short s = record (armed p t c short s) { aux = c; nack = true }

unfoldable pub next_short : ℕ → Bool → Slot → Bool
next_short t short s =
    short && 0 == next_in (s.job.buf_size - t) (ep_get_size s.size) % ep_get_size s.size

pub trans_complet_in-more :
    (p t c : ℕ) (short : Bool) (s : Slot)
    → t + c < s.job.buf_size
    → s.job.buf_size < 2 ^ 16
    → trans_complet_in (fetched p t c short s) ≡ (
      none,
      armed
          (t + c)
          (t + c)
          (next_in (s.job.buf_size - (t + c)) (ep_get_size s.size))
          (next_short (t + c) short s)
          s,
    )
unfolding trans_complet_in next_short
trans_complet_in-more p t c short s h fits =
    let sum : u16 (t + c) ≡ t + c = omega (arith, h, fits) in
    let left : u16 (s.job.buf_size + 2 ^ 16 - (t + c)) ≡ s.job.buf_size - (t + c) =
      omega (arith, h, fits) in
    let differs : (t + c == s.job.buf_size) ≡ false = ground (arith, h) in
    rw (sum, left, differs) refl

pub trans_complet_in-zlp :
    (p t c : ℕ) (s : Slot)
    → t + c ≡ s.job.buf_size
    → s.job.buf_size < 2 ^ 16
    → trans_complet_in (fetched p t c true s) ≡ (none, armed p (t + c) 0 false s)
unfolding trans_complet_in
trans_complet_in-zlp p t c s h fits =
    let sum : u16 (t + c) ≡ t + c = omega (arith, h, fits) in
    let all : (t + c == s.job.buf_size) ≡ true = ground (arith, h) in rw (sum, all) refl

pub trans_complet_in-last :
    (p t c : ℕ) (s : Slot)
    → t + c ≡ s.job.buf_size
    → s.job.buf_size < 2 ^ 16
    → trans_complet_in (fetched p t c false s) ≡ (
      some (t + c),
      record (fetched p t c false s) {
        job = record s.job { busy = false; b_shortpacket = false; nb_trans = t + c };
      },
    )
unfolding trans_complet_in
trans_complet_in-last p t c s h fits =
    let sum : u16 (t + c) ≡ t + c = omega (arith, h, fits) in
    let all : (t + c == s.job.buf_size) ≡ true = ground (arith, h) in rw (sum, all) refl
