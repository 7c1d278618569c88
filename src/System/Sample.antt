-- ===== src/System/Sample.antt =====
-- A computer that is connected to the sample chip, and an image for that chip.
use mathlib.Core.List.{tail}
use hid_bootloader.Base.{
  ℕ, ◌+◌, ◌-◌, ◌<◌, ◌≡◌, refl, ap, ◌∙◌, arith, Memory, true, if◌then◌else◌, Option, none, some,
  List, [], ◌∷◌, ltb, leb, ◌&&◌, copy,
}
use hid_bootloader.Crc.{xmega_nvm_crc32}
use hid_bootloader.Chip.Sample.{Silicon, small_chip}
use hid_bootloader.Firmware.{
  Device, hid_report_out, hid_get_feature_report_out, hid_set_feature_report_out,
}
use hid_bootloader.Host.{Hid, Image}
use hid_bootloader.System.{Cable, FlashLaws, Fits, delivered, queued}

-- The computer's end: the device and the reports that were not read. A device that wrote out of its
-- bounds is kept as it was.
pub record Bench : Type 0 where
  pub dev : Device small_chip
  pub unread : List Memory

abbrev handled_by : List ℕ → Bench → Device small_chip
handled_by b w = hid_set_feature_report_out small_chip (tail b) (λ i. 0xAA) w.dev

abbrev next_device : Option (Device small_chip) → Device small_chip → Device small_chip
next_device none d = d
next_device (some d') d = d'

abbrev read_bench : List Memory → Memory → Bench → Option ℕ × Memory × Bench
read_bench [] buffer w = (some 0, buffer, w)
read_bench (r ∷ q) buffer w = (some 64, copy 64 buffer 0 r 0, record w { unread = q })

abbrev pub bench : Hid
bench = record {
  World = Bench;
  hid_send_feature_report = λ b w. (
    some 6,
    record { dev = delivered (handled_by b w); unread = queued (handled_by b w) w.unread },
  );
  hid_get_feature_report = λ w.
      let (bytes, d) = hid_get_feature_report_out small_chip w.dev in
      (some 5, bytes, record w { dev = d });
  hid_write = λ b w. (
    some 65,
    record w { dev = next_device (hid_report_out small_chip (λ i. b (i + 1)) w.dev) w.dev },
  );
  hid_read_timeout = λ t buffer w. read_bench w.unread buffer w;
}

pub read-dev :
    (q : List Memory) (buffer : Memory) (w : Bench) → (read_bench q buffer w).2.dev ≡ w.dev
read-dev [] buffer w = refl
read-dev (r ∷ q) buffer w = refl

pub read-empty :
    (q : List Memory) (buffer : Memory) (w : Bench)
    → w.unread ≡ q
    → q ≡ []
    → ((read_bench q buffer w).0 ≡ some 0) × ((read_bench q buffer w).2.unread ≡ [])
read-empty [] buffer w e h = (refl, e)
read-empty (r ∷ q) buffer w e h = cc

from_start : (buffer r : Memory) (i : ℕ) → i < 64 → copy 64 buffer 0 r 0 i ≡ r i
from_start buffer r i k = ground arith

heads : (a b : Memory) (p q : List Memory) → a ∷ p ≡ b ∷ q → a ≡ b
heads a b p q h = cc

tails : (a b : Memory) (p q : List Memory) → a ∷ p ≡ b ∷ q → p ≡ q
tails a b p q h = cc

pub read-next :
    (q : List Memory) (buffer : Memory) (w : Bench) (r : Memory) (rest : List Memory)
    → q ≡ r ∷ rest
    → ((read_bench q buffer w).0 ≡ some 64)
      × ((i : ℕ) → i < 64 → (read_bench q buffer w).1 i ≡ r i)
      × ((read_bench q buffer w).2.unread ≡ rest)
read-next [] buffer w r rest h = cc
read-next (r' ∷ q) buffer w r rest h = (
  refl,
  λ i k. from_start buffer r' i k ∙ ap (λ (m : Memory). m i) (heads r' r q rest h),
  tails r' r q rest h,
)

abbrev pub bench_cable : Cable small_chip bench
bench_cable = record {
  device = λ w. w.dev;
  pending = λ w. w.unread;
  stack = λ w i. 0xAA;
  send_result = λ b w. refl;
  send_device = λ b w. refl;
  send_pending = λ b w. refl;
  get_result = λ w. refl;
  get_bytes = λ w. refl;
  get_device = λ w. refl;
  get_pending = λ w. refl;
  write_result = λ b w. refl;
  write_device = λ b w d h. ap (λ o. next_device o w.dev) h;
  write_pending = λ b w. refl;
  read_device = λ t b w. read-dev w.unread b w;
  read_empty = λ t b w h. read-empty w.unread b w refl h;
  read_next = λ t b w r q h. read-next w.unread b w r q h;
}

pub erased_cell : (h : Silicon) (a : ℕ) → a < 256 → (if ltb a 256 then 255 else h.cells a) ≡ 255
erased_cell h a k = ground arith

pub written_cell :
    (h : Silicon) (address a : ℕ)
    → copy 128 h.cells address h.page 0 a
      ≡ (if leb address a && ltb a (address + 128) then h.page (a - address) else h.cells a)
written_cell h address a = ground arith

abbrev pub silicon_laws : FlashLaws small_chip
silicon_laws = record {
  buffer = λ h. h.page;
  flash_wait = λ h. refl;
  flash_erase = λ h a k. erased_cell h a k;
  flash_load = λ m h. refl;
  buffer_load = λ m h i k. refl;
  flash_write = λ h address inside erased a. written_cell h address a;
  crc_lem = λ h. refl;
  endpoint_accepts = λ m h. refl;
  flash_endpoint = λ m h. refl;
}

-- An image that fills the first page and a part of the second.
abbrev pub blinker : Memory
blinker a = if ltb a 200 then a else 255

abbrev pub blinker_image : Image
blinker_image = record {
  firmware_buffer = blinker;
  firmware_crc = xmega_nvm_crc32 blinker 256;
  flash_size_b = 256;
  page_size_b = 128;
  mcu_signature = 0x1E ∷ 0x97 ∷ 0x42 ∷ [];
}

abbrev pub blinker_fit : Fits small_chip blinker_image
blinker_fit = record {
  start = refl;
  width = 7;
  page_width = refl;
  reports = 2;
  page_reports = refl;
  page_small = omega arith;
  pages = 2;
  size_pages = refl;
  pages_small = omega arith;
  fits_buffer = omega arith;
  flash_size = refl;
  page_size = refl;
  crc = refl;
  reports_pos = omega arith;
}

-- A device with an old program in its flash, a pointer in the middle, and a report on the way.
abbrev pub start : Bench
start = record {
  dev = record {
    page_buffer = λ i. 0;
    page_ptr = 64;
    feature_response = record { version = 1; busy_flags = 0; page_ptr = 0; result = 0 };
    report_in_free = true;
    report_in = λ i. 0;
    hw = record { cells = λ a. 0; page = λ i. 255 };
  };
  unread = (λ i. 7) ∷ [];
}
