-- ===== src/Usb/Jobs/Receiving.antt =====
-- A job on an OUT endpoint: where the bytes of the host go.
use hid_bootloader.Base.{
  ℕ, ◌+◌, ◌-◌, ◌%◌, ◌^◌, ◌≤◌, ◌<◌, u16, ◌==◌, ◌≡◌, refl, ap, ◌∙◌, arith, ltb, Bool, true, false,
  not, if◌then◌else◌, ◌&&◌, Memory, copy, none, Bool-cases, inl, inr,
}
use hid_bootloader.Usb.Jobs.{
  Slot, BufSize, ep_get_size, bufsize_8, bufsize_16, bufsize_32, bufsize_64, bufsize_128,
  bufsize_256, bufsize_512, bufsize_1023, DataPtr, in_buf, in_cache, endpoint_max_trans, next_out,
  with_cache, complete, trans_complet_out,
}

-- The hardware stores `c` bytes of the host, and the endpoint takes no more.
abbrev pub stored : ℕ → Memory → Slot → Slot
stored c bytes s = elim s.dataptr [
  | in_buf at ↦ record s {
    job = record s.job { buf = copy c s.job.buf at bytes 0 };
    cnt = c;
    nack = true;
  }
  | in_cache ↦ record s { cache = copy c s.cache 0 bytes 0; cnt = c; nack = true }
]

-- The bytes that are asked for lie in the buffer behind those that are there, or in the cache buffer, of
-- which the last part of the buffer is then filled.
abbrev pub Destination : DataPtr → Slot → Type 0
Destination (in_buf at) s =
    (at ≡ s.job.nb_trans)
    × (at + s.aux ≤ s.job.buf_size)
    × (s.job.nb_trans % ep_get_size s.size ≡ 0)
    × (s.aux % ep_get_size s.size ≡ 0)
    × (s.job.b_use_out_cache_buffer ≡ false)
Destination in_cache s =
    (s.aux ≡ ep_get_size s.size)
    × (s.job.nb_trans + s.job.buf_size % ep_get_size s.size ≤ s.job.buf_size)
    × (s.job.buf_size < s.job.nb_trans + ep_get_size s.size)
    × (s.job.b_use_out_cache_buffer ≡ true)

pub record IsBounded (s : Slot) : Type 0 where
  pub within : s.job.nb_trans ≤ s.job.buf_size
  pub fits : s.job.buf_size < 2 ^ 15
  pub target : s.job.busy ≡ true → Destination s.dataptr s

-- The size of the next transfer from the host, of a multiple of the size of the endpoint.
abbrev pub next_size : ℕ → ℕ → ℕ
next_size left size =
    if ltb endpoint_max_trans left
    then endpoint_max_trans - endpoint_max_trans % size
    else left - left % size

-- With `nb` of `n` bytes received.
unfoldable pub IsNext : BufSize → ℕ → ℕ → Type 0
IsNext b n nb =
    let size = ep_get_size b in
    (next_size (n - nb) size < size → (nb + n % size ≤ n) × (n < nb + size))
    × (next_size (n - nb) size ≤ n - nb)
    × (next_size (n - nb) size % size ≡ 0)

pub next_size_lem : (b : BufSize) (n nb : ℕ) → nb < n → nb % ep_get_size b ≡ 0 → IsNext b n nb
unfolding IsNext
next_size_lem bufsize_8 n nb h k = ground (arith, h, k)
next_size_lem bufsize_16 n nb h k = ground (arith, h, k)
next_size_lem bufsize_32 n nb h k = ground (arith, h, k)
next_size_lem bufsize_64 n nb h k = ground (arith, h, k)
next_size_lem bufsize_128 n nb h k = ground (arith, h, k)
next_size_lem bufsize_256 n nb h k = ground (arith, h, k)
next_size_lem bufsize_512 n nb h k = ground (arith, h, k)
next_size_lem bufsize_1023 n nb h k = ground (arith, h, k)

pub next_out-IsBounded :
    (s : Slot)
    → s.job.nb_trans < s.job.buf_size
    → s.job.buf_size < 2 ^ 15
    → s.job.nb_trans % ep_get_size s.size ≡ 0
    → s.job.b_use_out_cache_buffer ≡ false
    → IsBounded (next_out s.job.nb_trans s)
unfolding IsNext
next_out-IsBounded s more fits aligned plain =
    let (small, le, even) = next_size_lem s.size s.job.buf_size s.job.nb_trans more aligned in
    elim (Bool-cases (
      ltb (next_size (s.job.buf_size - s.job.nb_trans) (ep_get_size s.size))
        (ep_get_size s.size))) [
          | inl last ↦ rw last (
              let (room, short) = small (ground (arith, last)) in
              record {
                within = omega (arith, more);
                fits = fits;
                target = λ b. (refl, room, short, refl);
              })
          | inr large ↦ rw large (record {
            within = omega (arith, more);
            fits = fits;
            target = λ b. (refl, omega (arith, le, more), aligned, even, plain);
          })
        ]

-- The callback is due, or there was no job.
pub complete-IsBounded :
    (s : Slot)
    → s.job.nb_trans ≤ s.job.buf_size
    → s.job.buf_size < 2 ^ 15
    → IsBounded (complete s).1
complete-IsBounded s le fits = elim (Bool-cases s.job.busy) [
  | inl b ↦ rw b (record { within = le; fits = fits; target = λ x. cc })
  | inr b ↦ rw b (record { within = le; fits = fits; target = λ x. cc })
]

pub zero_mod : (b : BufSize) → 0 % ep_get_size b ≡ 0
zero_mod bufsize_8 = refl
zero_mod bufsize_16 = refl
zero_mod bufsize_32 = refl
zero_mod bufsize_64 = refl
zero_mod bufsize_128 = refl
zero_mod bufsize_256 = refl
zero_mod bufsize_512 = refl
zero_mod bufsize_1023 = refl

pub aligned-add :
    (b : BufSize) (x y : ℕ)
    → x % ep_get_size b ≡ 0
    → y % ep_get_size b ≡ 0
    → (x + y) % ep_get_size b ≡ 0
aligned-add bufsize_8 x y h k = omega (arith, h, k)
aligned-add bufsize_16 x y h k = omega (arith, h, k)
aligned-add bufsize_32 x y h k = omega (arith, h, k)
aligned-add bufsize_64 x y h k = omega (arith, h, k)
aligned-add bufsize_128 x y h k = omega (arith, h, k)
aligned-add bufsize_256 x y h k = omega (arith, h, k)
aligned-add bufsize_512 x y h k = omega (arith, h, k)
aligned-add bufsize_1023 x y h k = omega (arith, h, k)

ep_get_size-le : (b : BufSize) → ep_get_size b ≤ 1023
ep_get_size-le bufsize_8 = omega arith
ep_get_size-le bufsize_16 = omega arith
ep_get_size-le bufsize_32 = omega arith
ep_get_size-le bufsize_64 = omega arith
ep_get_size-le bufsize_128 = omega arith
ep_get_size-le bufsize_256 = omega arith
ep_get_size-le bufsize_512 = omega arith
ep_get_size-le bufsize_1023 = omega arith

-- The three ways on, with `nb` bytes received and `all` whether as many as were asked for.
pub chosen-IsBounded :
    (full : Bool) (s : Slot)
    → s.job.nb_trans ≤ s.job.buf_size
    → s.job.buf_size < 2 ^ 15
    → (full ≡ true
        → (s.job.nb_trans % ep_get_size s.size ≡ 0)
          × (s.job.b_use_out_cache_buffer ≡ false)
          × (s.job.nb_trans < s.job.buf_size))
    → IsBounded (if full then (none, next_out s.job.nb_trans s) else complete s).1
chosen-IsBounded true s le fits more =
    let (aligned, plain, less) = more refl in next_out-IsBounded s less fits aligned plain
chosen-IsBounded false s le fits more = complete-IsBounded s le fits

-- The slot with the bytes that were received taken into account.
abbrev pub received : ℕ → Slot → Slot
received nb s = record s { job = record s.job { buf = with_cache s; nb_trans = nb } }

-- What counts as received.
unfoldable pub counted : ℕ → ℕ → Slot → ℕ
counted t c s = let sum = u16 (t + c) in if ltb s.job.buf_size sum then s.job.buf_size else sum

pub counted-le : (t c : ℕ) (s : Slot) → counted t c s ≤ s.job.buf_size
unfolding counted
counted-le t c s = ground arith

pub trans_complet_out-IsBounded :
    (ptr : DataPtr) (c : ℕ) (bytes : Memory) (s : Slot)
    → IsBounded (record s { dataptr = ptr })
    → s.job.busy ≡ true
    → c ≤ s.aux
    → IsBounded (trans_complet_out (stored c bytes (record s { dataptr = ptr }))).1
unfolding trans_complet_out counted
trans_complet_out-IsBounded (in_buf at) c bytes s h b le =
    let (_, room, aligned, even, plain) = h.target b in
    let sum : u16 (s.job.nb_trans + c) ≡ s.job.nb_trans + c =
      omega (arith, le, room, h.fits, h.within) in
    chosen-IsBounded (c == s.aux && not (counted s.job.nb_trans c s == s.job.buf_size))
      (received (counted s.job.nb_trans c s) (stored c bytes (record s { dataptr = in_buf at })))
      (counted-le s.job.nb_trans c s) h.fits
      (λ e.
        let all : c ≡ s.aux = ground (arith, e) in
        let less : ¬ (counted s.job.nb_trans c s ≡ s.job.buf_size) = ground (arith, e) in
        let exact : counted s.job.nb_trans c s ≡ s.job.nb_trans + s.aux =
          ground (arith, sum, all, room) in
        (
          ap (λ n. n % ep_get_size s.size) exact
              ∙ aligned-add s.size s.job.nb_trans s.aux aligned even,
          plain,
          ground (arith, less, counted-le s.job.nb_trans c s),
        ))
trans_complet_out-IsBounded in_cache c bytes s h b le =
    let (whole, _, short, cached) = h.target b in
    let small = ep_get_size-le s.size in
    let sum : u16 (s.job.nb_trans + c) ≡ s.job.nb_trans + c =
      omega (arith, le, whole, small, h.fits, h.within) in
    chosen-IsBounded (c == s.aux && not (counted s.job.nb_trans c s == s.job.buf_size))
      (received (counted s.job.nb_trans c s) (stored c bytes (record s { dataptr = in_cache })))
      (counted-le s.job.nb_trans c s) h.fits (λ e. absurd (ground (arith, e, sum, whole, short)))
