-- ===== src/IntelHex/Records.antt =====
-- The records of an Intel HEX file that the reader knows, what a file of them means, and that the
-- reader leaves just that in the firmware buffer.
use hid_bootloader.Base.{
  ℕ, zero, suc, ◌+◌, ◌*◌, ◌^◌, ◌≤◌, ◌<◌, ◌≡◌, sym, ap, ◌∙◌, arith, fun_ext, Memory, copy, write, u8,
  u16, u32, ltb, ◌==◌, if◌then◌else◌, false, ==_ne, le→ltb,
}
use mathlib.Core.Path.{subst}
use hid_bootloader.Host.{firmware_buffer_size}
use hid_bootloader.IntelHex.{Loader, next, data_bytes, read_base16}
use hid_bootloader.IntelHex.Digits.{Written, read_base16-Written}

-- A record: bytes at an address of the segment, the choice of a segment, or one of another type.
pub data Record : Type 0 where
  bytes_at : (addr len : ℕ) → Memory → Record
  segment : ℕ → Record
  other : ℕ → Record

-- The line is the record in print, without its checksum.
pub record PrintsBytes (line : Memory) (addr len : ℕ) (bytes : Memory) : Type 0 where
  pub colon : line 0 ≡ b':'
  pub length_field : Written line 1 2 len
  pub address_field : Written line 3 4 addr
  pub type_field : Written line 7 2 0
  pub data_field : (k : ℕ) → k < len → Written line (9 + k * 2) 2 (bytes k)

pub record PrintsSegment (line : Memory) (s : ℕ) : Type 0 where
  pub colon : line 0 ≡ b':'
  pub length_field : Written line 1 2 2
  pub type_field : Written line 7 2 2
  pub segment_field : Written line 9 4 s

pub record PrintsOther (line : Memory) (type : ℕ) : Type 0 where
  pub colon : line 0 ≡ b':'
  pub type_field : Written line 7 2 type
  pub not_data : (type == 0) ≡ false
  pub not_segment : (type == 2) ≡ false

abbrev pub Prints : Memory → Record → Type 0
Prints line (bytes_at addr len bytes) = PrintsBytes line addr len bytes
Prints line (segment s) = PrintsSegment line s
Prints line (other type) = PrintsOther line type

pub moved :
    {line : Memory} {c c' n v v' : ℕ} → c ≡ c' → v ≡ v' → Written line c n v → Written line c' n v'
moved {line = line} {c' = c'} {n = n} {v = v} p q w =
    subst (λ t. Written line c' n t) q (subst (λ t. Written line t n v) p w)

copy_nothing : (m bytes : Memory) (d j : ℕ) → copy 0 m d bytes j ≡ m
copy_nothing m bytes d j = fun_ext (λ i. ground arith)

-- One byte and the bytes behind it.
copy_next :
    (m bytes : Memory) (n d j : ℕ)
    → copy n (write m d (bytes j)) (d + 1) bytes (j + 1) ≡ copy (suc n) m d bytes j
copy_next m bytes n d j = fun_ext (λ i. grind arith)

-- The loader after a byte was stored.
abbrev stored_at : Loader → ℕ → ℕ → Loader
stored_at l a v = record l {
  firmware_buffer = write l.firmware_buffer a v;
  firmware_size = if ltb l.firmware_size a then a else l.firmware_size;
}

-- One round of the loop, for a byte that is written and lies in the buffer.
data_bytes_step :
    (line : Memory) (left c addr v : ℕ) (l : Loader)
    → Written line c 2 v
    → l.base_addr + addr < firmware_buffer_size
    → data_bytes line (suc left) c addr l
      ≡ data_bytes line left (c + 2) (u16 (addr + 1)) (stored_at l (l.base_addr + addr) v)
unfolding data_bytes
data_bytes_step line left c addr v l char room =
    let absadr : u32 (l.base_addr + addr) ≡ l.base_addr + addr = omega (arith, room) in
    let inside : ltb firmware_buffer_size (l.base_addr + addr) ≡ false =
      le→ltb _ _ (omega (arith, room)) in
    let before : (l.base_addr + addr == firmware_buffer_size) ≡ false =
      ==_ne _ _ (omega (arith, room)) in
    let read : u8 (read_base16 line c 2) ≡ v =
      omega (arith, read_base16-Written line c 2 v (omega arith) char, char.fits) in
    rw (absadr, inside, before, read)

-- The bytes of a loop of data: they are placed from the address on.
pub data_bytes_lem :
    (line : Memory) (bytes : Memory) (left c j start addr : ℕ) (l : Loader)
    → ((k : ℕ) → k < left → Written line (c + k * 2) 2 (bytes (j + k)))
    → (0 < left → addr ≡ start)
    → start + left ≤ 2 ^ 16
    → l.base_addr + start + left ≤ firmware_buffer_size
    → (size : ℕ) × (data_bytes line left c addr l
        ≡ next (record l {
          firmware_buffer = copy left l.firmware_buffer (l.base_addr + start) bytes j;
          firmware_size = size;
        }))
unfolding data_bytes
data_bytes_lem line bytes zero c j start addr l digits same segment_end room = (
  l.firmware_size,
  ap (λ (m : Memory). next (record l { firmware_buffer = m }))
      (sym (copy_nothing l.firmware_buffer bytes (l.base_addr + start) j)),
)
data_bytes_lem line bytes (suc left) c j start addr l digits same segment_end room =
    let here : addr ≡ start = same (omega arith) in
    let there : l.base_addr + addr ≡ l.base_addr + start = omega (arith, here) in
    let char : Written line c 2 (bytes j) =
      moved (omega arith) (ap bytes (omega arith)) (digits 0 (omega arith)) in
    let l' : Loader = stored_at l (l.base_addr + start) (bytes j) in
    let (size, runs) =
      data_bytes_lem line bytes left (c + 2) (j + 1) (start + 1) (u16 (addr + 1)) l'
        (λ k h. moved (omega arith) (ap bytes (omega arith)) (digits (suc k) (omega arith)))
        (λ h. omega (arith, here, segment_end)) (omega (arith, segment_end))
        (omega (arith, room)) in
    let behind : l.base_addr + (start + 1) ≡ l.base_addr + start + 1 = omega arith in
    let placed =
      ap
        (λ (d : ℕ).
          copy left (write l.firmware_buffer (l.base_addr + start) (bytes j)) d bytes (j + 1))
        behind
      ∙ copy_next l.firmware_buffer bytes left (l.base_addr + start) j in
    (
      size,
      data_bytes_step line left c addr (bytes j) l char (omega (arith, here, room))
          ∙ ap (λ (a : ℕ). data_bytes line left (c + 2) (u16 (addr + 1)) (stored_at l a (bytes j)))
              there
          ∙ runs
          ∙ ap (λ (m : Memory). next (record l { firmware_buffer = m; firmware_size = size }))
              placed,
    )
