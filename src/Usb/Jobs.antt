-- ===== src/Usb/Jobs.antt =====
-- The jobs of xmega/drivers/usb/usb_device.c: the transfers on the endpoints other than the control
-- endpoint. A slot has the job of an endpoint and the fields of its registers.
pub mod Sending
pub mod Sent
pub mod Receiving
pub mod Storing
pub mod Received
pub mod Safe
pub mod Reachable
pub mod Tests
use hid_bootloader.Base.{
  ℕ, zero, suc, ◌+◌, ◌-◌, ◌%◌, ◌^◌, u16, ◌==◌, ltb, Bool, true, false, not, if◌then◌else◌, ◌&&◌,
  ◌||◌, Memory, copy, List, [], ◌∷◌, Option, none, some, bit_and,
}

-- The type and the size of an endpoint, in its control register.
pub data EpType : Type 0 where
  disabled control_type isochronous bulk : EpType

pub data BufSize : Type 0 where
  bufsize_8 bufsize_16 bufsize_32 bufsize_64 bufsize_128 bufsize_256 bufsize_512 bufsize_1023 :
      BufSize

abbrev pub is_enable : EpType → Bool
is_enable disabled = false
is_enable _ = true

abbrev pub is_isochronous : EpType → Bool
is_isochronous isochronous = true
is_isochronous _ = false

-- udd_ep_get_size
abbrev pub ep_get_size : BufSize → ℕ
ep_get_size bufsize_8 = 8
ep_get_size bufsize_16 = 16
ep_get_size bufsize_32 = 32
ep_get_size bufsize_64 = 64
ep_get_size bufsize_128 = 128
ep_get_size bufsize_256 = 256
ep_get_size bufsize_512 = 512
ep_get_size bufsize_1023 = 1023

-- Where the hardware reads or writes: an offset in the buffer of the job, or the cache buffer.
pub data DataPtr : Type 0 where
  in_buf : ℕ → DataPtr
  in_cache : DataPtr

-- udd_ep_job_t, with what `buf` points to
pub record Job : Type 0 where
  pub busy : Bool
  pub b_shortpacket : Bool
  pub b_use_out_cache_buffer : Bool
  pub buf : Memory
  pub buf_size : ℕ
  pub nb_trans : ℕ

-- The job, and UDD_EP_t: the fields of CTRL, the bit NACK0, CNT, AUXDATA and DATAPTR; behind them the
-- cache buffer of the endpoint, udd_ep_out_cache_buffer, of which the source has 64 bytes. The memory here has
-- no end: what is said about the OUT direction is said of endpoints of up to 64 bytes.
pub record Slot : Type 0 where
  pub job : Job
  pub kind : EpType
  pub size : BufSize
  pub stall : Bool
  pub nack : Bool
  pub cnt : ℕ
  pub aux : ℕ
  pub dataptr : DataPtr
  pub cache : Memory

-- UDD_ENDPOINT_MAX_TRANS
abbrev pub endpoint_max_trans : ℕ
endpoint_max_trans = 0x3FF

-- The end of udd_ep_trans_complet: the number of bytes that the callback is told, if there is a job.
abbrev pub complete : Slot → Option ℕ × Slot
complete s =
    if s.job.busy
    then (some s.job.nb_trans, record s { job = record s.job { busy = false } })
    else (none, s)

-- The size of the next transfer to the host.
abbrev pub next_in : ℕ → ℕ → ℕ
next_in left size =
    if ltb endpoint_max_trans left then endpoint_max_trans - endpoint_max_trans % size else left

-- udd_ep_trans_complet for an IN endpoint
unfoldable pub trans_complet_in : Slot → Option ℕ × Slot
trans_complet_in s =
    let size = ep_get_size s.size in
    let nb = u16 (s.job.nb_trans + s.aux) in
    if not (nb == s.job.buf_size)
    then (let next_trans = next_in (u16 (s.job.buf_size + 2 ^ 16 - nb)) size in
        (
          none,
          record s {
            job = record s.job {
              nb_trans = nb;
              b_shortpacket = s.job.b_shortpacket && 0 == next_trans % size;
            };
            aux = 0;
            cnt = next_trans;
            dataptr = in_buf nb;
            nack = false;
          },
        ))
    else if s.job.b_shortpacket
    then (
      none,
      record s {
        job = record s.job { nb_trans = nb; b_shortpacket = false };
        aux = 0;
        cnt = 0;
        nack = false;
      },
    )
    else complete (record s { job = record s.job { nb_trans = nb } })

-- The part of udd_ep_trans_complet that asks for more from the host, with `nb` bytes received.
abbrev pub next_out : ℕ → Slot → Slot
next_out nb s =
    let size = ep_get_size s.size in
    let left = s.job.buf_size - nb in
    let next_trans =
      if ltb endpoint_max_trans left
      then endpoint_max_trans - endpoint_max_trans % size
      else left - left % size in
    if ltb next_trans size
    then record s {
      job = record s.job { b_use_out_cache_buffer = true };
      dataptr = in_cache;
      cnt = 0;
      aux = size;
      nack = false;
    }
    else record s { dataptr = in_buf nb; cnt = 0; aux = next_trans; nack = false }

-- The buffer with the last part from the cache buffer.
abbrev pub with_cache : Slot → Memory
with_cache s =
    if s.job.b_use_out_cache_buffer
    then copy (s.job.buf_size % ep_get_size s.size) s.job.buf s.job.nb_trans s.cache 0
    else s.job.buf

-- udd_ep_trans_complet for an OUT endpoint
unfoldable pub trans_complet_out : Slot → Option ℕ × Slot
trans_complet_out s =
    let sum = u16 (s.job.nb_trans + s.cnt) in
    let nb = if ltb s.job.buf_size sum then s.job.buf_size else sum in
    let s' = record s { job = record s.job { buf = with_cache s; nb_trans = nb } } in
    if s.cnt == s.aux && not (nb == s.job.buf_size) then (none, next_out nb s') else complete s'

-- udd_ep_run: whether the job is taken, and what its callback is told if it is over at once.
unfoldable pub ep_run : Bool → Bool → Memory → ℕ → Slot → Bool × Option ℕ × Slot
unfolding trans_complet_in trans_complet_out
ep_run is_dir_in short buf buf_size s =
    let taken = record s {
      job = record {
        busy = true;
        b_shortpacket = short || buf_size == 0;
        b_use_out_cache_buffer = false;
        buf = buf;
        buf_size = buf_size;
        nb_trans = 0;
      };
      aux = 0;
    } in
    if not (is_enable s.kind)
    then (false, none, s)
    else if not (is_isochronous s.kind) && s.stall
    then (false, none, s)
    else if s.job.busy
    then (false, none, s)
    else if is_dir_in
    then (let (call, s') = trans_complet_in taken in (true, call, s'))
    else if is_isochronous s.kind && not (buf_size % ep_get_size s.size == 0)
    then (false, none, record taken { job = record taken.job { busy = false }; aux = s.aux })
    else (let (call, s') = trans_complet_out (record taken { cnt = 0 }) in (true, call, s'))

-- udd_ep_abort: whether a callback is called.
unfoldable pub ep_abort : Slot → Bool × Slot
ep_abort s = (s.job.busy, record s { nack = true; job = record s.job { busy = false } })

-- udd_ep_init
abbrev pub type_of : ℕ → EpType
type_of attributes =
    if bit_and attributes 3 == 0
    then control_type
    else if bit_and attributes 3 == 1
    then isochronous
    else bulk

abbrev pub size_of : ℕ → BufSize
size_of size =
    if size == 16
    then bufsize_16
    else if size == 32
    then bufsize_32
    else if size == 64
    then bufsize_64
    else if size == 128
    then bufsize_128
    else if size == 256
    then bufsize_256
    else if size == 512
    then bufsize_512
    else if size == 1023
    then bufsize_1023
    else bufsize_8

abbrev pub ep_init : ℕ → ℕ → Slot → Slot
ep_init attributes size s = record s {
  kind = type_of attributes;
  size = size_of size;
  stall = false;
  nack = true;
}

-- udd_ep_alloc
unfoldable pub ep_alloc : ℕ → ℕ → Slot → Bool × Slot
ep_alloc attributes size s =
    if is_enable s.kind then (false, s) else (true, ep_init attributes size s)

-- udd_ep_free: the control register is 0 then.
unfoldable pub ep_free : Slot → Bool × Slot
unfolding ep_abort
ep_free s =
    let (was, s') = ep_abort s in
    (was, record s' { kind = disabled; size = bufsize_8; stall = false })

-- udd_ep_set_halt
unfoldable pub ep_set_halt : Slot → Bool × Slot
unfolding ep_abort
ep_set_halt s = ep_abort (record s { stall = true })

-- udd_ep_clear_halt: whether a callback is called.
unfoldable pub ep_clear_halt : Slot → Bool × Slot
ep_clear_halt s =
    if not s.stall
    then (false, s)
    else (s.job.busy, record s { stall = false; job = record s.job { busy = false } })

-- udd_ep_wait_stall_clear, which the program does not call: whether the wait is taken, and whether the
-- callback is called at once.
unfoldable pub ep_wait_stall_clear : Slot → Bool × Bool × Slot
ep_wait_stall_clear s =
    if s.stall
    then (if s.job.busy
        then (false, false, s)
        else (true, false, record s { job = record s.job { busy = true } }))
    else (true, true, s)
