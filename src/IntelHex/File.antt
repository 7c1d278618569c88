-- ===== src/IntelHex/File.antt =====
-- ReadHexFile as a whole: which image it hands to the update.
use hid_bootloader.Base.{
  ℕ, zero, suc, ◌+◌, ◌-◌, ◌^◌, ◌≤◌, ◌<◌, ◌≡◌, refl, ap, ◌∙◌, arith, Memory, u32, ◌==◌, ltb, le→ltb,
  if◌then◌else◌, true, false, List,
}
use hid_bootloader.Host.{firmware_buffer_size}
use hid_bootloader.IntelHex.{
  Loader, next, stop, exit, overrun, data_bytes, read_line, loaded, refused, outside, use_info,
  finish_reading, read_hex_file, flash_size_at, image_at,
}
use hid_bootloader.IntelHex.Records.{Record, PrintsBytes}
use hid_bootloader.IntelHex.Described.{
  described, InBuffer, PrintsAll, read_lines-described, read_line-data,
}
use hid_bootloader.IntelHex.Info.{First, find_embedded_info_iff}

-- The buffer that the records of a whole file describe.
abbrev pub content : List Record → Memory
content rs = described rs 0 (λ a. 0xFF)

read_hex_file-finish :
    (lines : List Memory) (rs : List Record)
    → PrintsAll lines rs
    → InBuffer rs 0
    → read_hex_file lines ≡ finish_reading true (content rs)
unfolding read_hex_file
read_hex_file-finish lines rs p inside =
    let (l, reads, holds) =
      read_lines-described lines rs
        (record { firmware_buffer = λ a. 0xFF; firmware_size = 0; base_addr = 0 }) p inside in
    ap
      (λ t. elim t [
        | next k ↦ finish_reading true k.firmware_buffer
        | stop k ↦ finish_reading false k.firmware_buffer
        | exit ↦ refused
        | overrun ↦ outside
      ])
      reads
    ∙ ap (finish_reading true) holds

-- A file of printed records that lie in the firmware buffer is loaded if the memory that they describe
-- has the embedded structure, whole and with a flash size up to the size of the buffer. The image is
-- that memory, with the sizes and the signature of the structure that begins lowest, and with the
-- checksum of the memory up to the flash size.
pub read_hex_file-described :
    (lines : List Memory) (rs : List Record) (ptr : ℕ)
    → PrintsAll lines rs
    → InBuffer rs 0
    → First (content rs) (firmware_buffer_size - 8) 0 ptr
    → ptr + 19 ≤ firmware_buffer_size
    → flash_size_at (content rs) ptr ≤ firmware_buffer_size
    → read_hex_file lines ≡ loaded (image_at (content rs) ptr)
unfolding finish_reading use_info
read_hex_file-described lines rs ptr p inside first whole small =
    let found = (find_embedded_info_iff (content rs) ptr).1 first in
    read_hex_file-finish lines rs p inside
    ∙ ap (use_info true (content rs)) found
    ∙ (let head : ltb firmware_buffer_size (ptr + 17) ≡ false = le→ltb _ _ (omega (arith, whole)) in
        rw (head, le→ltb _ _ small, le→ltb _ _ whole) refl)

-- A data record that begins at the address that equals the size of the buffer is written past the
-- end of it. Only behind that address, within 32 bits, is the record refused.
pub read_line_behind :
    (line : Memory) (addr len : ℕ) (bytes : Memory) (l : Loader)
    → PrintsBytes line addr len bytes
    → 0 < len
    → firmware_buffer_size ≤ l.base_addr + addr
    → l.base_addr + addr < 2 ^ 32
    → read_line line l ≡ (if l.base_addr + addr == firmware_buffer_size then overrun else exit)
unfolding data_bytes
read_line_behind line addr zero bytes l p pos from small = absurd (omega arith)
read_line_behind line addr (suc len) bytes l p pos from small =
    let absadr : u32 (l.base_addr + addr) ≡ l.base_addr + addr = omega (arith, small) in
    read_line-data line addr (suc len) bytes l p ∙ rw absadr (ground (arith, from))
