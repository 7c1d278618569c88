-- ===== src/IntelHex/Described.antt =====
-- What a file of printed records leaves in the firmware buffer.
use hid_bootloader.Base.{
  ℕ, ◌+◌, ◌*◌, ◌^◌, ◌≤◌, ◌≡◌, refl, ap, ◌∙◌, arith, Memory, copy, u8, u16, u32, List, [], ◌∷◌,
}
use hid_bootloader.Host.{firmware_buffer_size}
use hid_bootloader.IntelHex.{
  Loader, next, stop, exit, overrun, data_bytes, read_line, read_lines, read_base16,
}
use hid_bootloader.IntelHex.Digits.{read_base16-Written}
use hid_bootloader.IntelHex.Records.{
  Record, bytes_at, segment, other, PrintsBytes, PrintsSegment, PrintsOther, Prints, data_bytes_lem,
  moved,
}

-- The memory that records describe, from a memory and the address of the chosen segment on.
abbrev pub described : List Record → ℕ → Memory → Memory
described [] base m = m
described (bytes_at addr len bytes ∷ rs) base m =
    described rs base (copy len m (base + addr) bytes 0)
described (segment s ∷ rs) base m = described rs (s * 16) m
described (other type ∷ rs) base m = described rs base m

-- Each record lies in the firmware buffer and does not run over the end of its segment.
abbrev pub InBuffer : List Record → ℕ → Type 0
InBuffer [] base = Unit
InBuffer (bytes_at addr len bytes ∷ rs) base =
    (addr + len ≤ 2 ^ 16) × (base + addr + len ≤ firmware_buffer_size) × InBuffer rs base
InBuffer (segment s ∷ rs) base = InBuffer rs (s * 16)
InBuffer (other type ∷ rs) base = InBuffer rs base

-- The lines are the records in print, one each.
abbrev pub PrintsAll : List Memory → List Record → Type 0
PrintsAll [] [] = Unit
PrintsAll [] (r ∷ rs) = ⊥
PrintsAll (line ∷ lines) [] = ⊥
PrintsAll (line ∷ lines) (r ∷ rs) = Prints line r × PrintsAll lines rs

pub read_line-data :
    (line : Memory) (addr len : ℕ) (bytes : Memory) (l : Loader)
    → PrintsBytes line addr len bytes
    → read_line line l ≡ data_bytes line len 9 addr l
unfolding read_line
read_line-data line addr len bytes l p =
    let count : u8 (read_base16 line 1 2) ≡ len =
      omega (
        arith,
        read_base16-Written line 1 2 len (omega arith) p.length_field,
        p.length_field.fits,
      ) in
    let place : u16 (read_base16 line 3 4) ≡ addr = omega (
      arith,
      read_base16-Written line 3 4 addr (omega arith) p.address_field,
      p.address_field.fits,
    ) in
    let kind : u8 (read_base16 line 7 2) ≡ 0 =
      omega (arith, read_base16-Written line 7 2 0 (omega arith) p.type_field) in
    rw (p.colon, count, place, kind) refl

read_line-bytes :
    (line : Memory) (addr len : ℕ) (bytes : Memory) (l : Loader)
    → PrintsBytes line addr len bytes
    → addr + len ≤ 2 ^ 16
    → l.base_addr + addr + len ≤ firmware_buffer_size
    → (size : ℕ) × (read_line line l
        ≡ next (record l {
          firmware_buffer = copy len l.firmware_buffer (l.base_addr + addr) bytes 0;
          firmware_size = size;
        }))
read_line-bytes line addr len bytes l p segment_end room =
    let (size, runs) =
      data_bytes_lem line bytes len 9 0 addr addr l
        (λ k h. moved refl (ap bytes (omega arith)) (p.data_field k h)) (λ h. refl) segment_end
        room in
    (size, read_line-data line addr len bytes l p ∙ runs)

read_line-segment :
    (line : Memory) (s : ℕ) (l : Loader)
    → PrintsSegment line s
    → read_line line l ≡ next (record l { base_addr = s * 16 })
unfolding read_line
read_line-segment line s l p =
    let count : u8 (read_base16 line 1 2) ≡ 2 =
      omega (arith, read_base16-Written line 1 2 2 (omega arith) p.length_field) in
    let kind : u8 (read_base16 line 7 2) ≡ 2 =
      omega (arith, read_base16-Written line 7 2 2 (omega arith) p.type_field) in
    let base : u32 (read_base16 line 9 4 * 2 ^ 4) ≡ s * 16 =
      omega (
        arith,
        read_base16-Written line 9 4 s (omega arith) p.segment_field,
        p.segment_field.fits,
      ) in
    rw (p.colon, count, kind, base)

read_line-other :
    (line : Memory) (type : ℕ) (l : Loader) → PrintsOther line type → read_line line l ≡ next l
unfolding read_line
read_line-other line type l p =
    let kind : u8 (read_base16 line 7 2) ≡ type =
      omega
        (arith, read_base16-Written line 7 2 type (omega arith) p.type_field, p.type_field.fits) in
    rw (p.colon, kind, p.not_data, p.not_segment)

read_lines-next :
    (line : Memory) (lines : List Memory) (l l' : Loader)
    → read_line line l ≡ next l'
    → read_lines (line ∷ lines) l ≡ read_lines lines l'
unfolding read_lines
read_lines-next line lines l l' h =
    ap
      (λ t. elim t [
        | next k ↦ read_lines lines k
        | stop k ↦ stop k
        | exit ↦ exit
        | overrun ↦ overrun
      ])
      h

-- The reader of a file of printed records that lie in the firmware buffer comes to the end of the
-- file, and the firmware buffer is what the records describe. The types other than 0 and 2 are
-- passed over.
pub read_lines-described :
    (lines : List Memory) (rs : List Record) (l : Loader)
    → PrintsAll lines rs
    → InBuffer rs l.base_addr
    → (l' : Loader) × (read_lines lines l ≡ next l')
      × (l'.firmware_buffer ≡ described rs l.base_addr l.firmware_buffer)
unfolding read_lines
read_lines-described [] [] l p inside = (l, refl, refl)
read_lines-described [] (_ ∷ rs) l p inside = elim p [ ]
read_lines-described (line ∷ lines) [] l p inside = elim p [ ]
read_lines-described (line ∷ lines) (bytes_at addr len bytes ∷ rs) l (p, ps) (e, room, inside) =
    let (size, reads) = read_line-bytes line addr len bytes l p e room in
    let (l', rest, holds) =
      read_lines-described lines rs
        (record l {
          firmware_buffer = copy len l.firmware_buffer (l.base_addr + addr) bytes 0;
          firmware_size = size;
        })
        ps inside in
    (l', read_lines-next line lines l _ reads ∙ rest, holds)
read_lines-described (line ∷ lines) (segment s ∷ rs) l (p, ps) inside =
    let (l', rest, holds) =
      read_lines-described lines rs (record l { base_addr = s * 16 }) ps inside in
    (l', read_lines-next line lines l _ (read_line-segment line s l p) ∙ rest, holds)
read_lines-described (line ∷ lines) (other type ∷ rs) l (p, ps) inside =
    let (l', rest, holds) = read_lines-described lines rs l ps inside in
    (l', read_lines-next line lines l _ (read_line-other line type l p) ∙ rest, holds)
