-- ===== src/IntelHex.antt =====
-- pc/hid_bootloader/intel_hex.c: the reader of the firmware image. A file is the sequence of what
-- fgets leaves in `line`, up to its NULL. What is printed is left out.
pub mod Digits
pub mod Records
pub mod Described
pub mod Print
pub mod Info
pub mod File
pub mod Sample
pub mod Tests
use hid_bootloader.Base.{
  ℕ, zero, suc, ◌+◌, ◌-◌, ◌*◌, ◌%◌, ◌^◌, u8, u16, u32, ltb, leb, ◌==◌, if◌then◌else◌, ◌&&◌, ◌||◌,
  not, Memory, write, List, [], ◌∷◌, Bool, true, false, Option, none, some,
}
use hid_bootloader.Crc.{xmega_nvm_crc32}
use hid_bootloader.Host.{Image, firmware_buffer_size}

-- `*c <= '9' ? *c - '0' : *c - 'A' + 10` as a 32-bit value. A char is signed: codes from 128 on are
-- negative.
unfoldable pub digit_value : ℕ → ℕ
digit_value c =
    if leb 128 c
    then u32 (2 ^ 32 + c - 256 - b'0')
    else if leb c b'9'
    then u32 (2 ^ 32 + c - b'0')
    else c + 10 - b'A'

-- The loop of ReadBase16 with the characters that are left, the index of the next and the value.
unfoldable pub read_digits : Memory → ℕ → ℕ → ℕ → ℕ
unfolding digit_value
read_digits line zero c val = val
read_digits line (suc num_chars) c val =
    read_digits line num_chars (c + 1) (u32 (val + digit_value (line c) * 2 ^ (num_chars * 4)))

-- ReadBase16: `c` is the index of the first character in the line.
unfoldable pub read_base16 : Memory → ℕ → ℕ → ℕ
unfolding read_digits
read_base16 line c num_chars = read_digits line num_chars c 0

-- The variables that outlive a line.
pub record Loader : Type 0 where
  pub firmware_buffer : Memory
  pub firmware_size : ℕ
  pub base_addr : ℕ

-- How a line ends: the next is read; `res` is false and the loop is left; `goto exit`; or a write
-- past the end of the firmware buffer.
pub data Progress : Type 0 where
  next stop : Loader → Progress
  exit overrun : Progress

-- The loop of a data record with the bytes that are left.
unfoldable pub data_bytes : Memory → ℕ → ℕ → ℕ → Loader → Progress
unfolding read_base16
data_bytes line zero c addr l = next l
data_bytes line (suc left) c addr l =
    let absadr = u32 (l.base_addr + addr) in
    let rest = data_bytes line left (c + 2) (u16 (addr + 1)) in
    if ltb firmware_buffer_size absadr
    then exit
    else if absadr == firmware_buffer_size
    then overrun
    else rest (record l {
      firmware_buffer = write l.firmware_buffer absadr (u8 (read_base16 line c 2));
      firmware_size = if ltb l.firmware_size absadr then absadr else l.firmware_size;
    })

-- One line. The checksum is read and not looked at, and records of other types are passed over.
unfoldable pub read_line : Memory → Loader → Progress
unfolding read_base16 data_bytes
read_line line l =
    if not (line 0 == b':')
    then stop l
    else (let len = u8 (read_base16 line 1 2) in
        let addr = u16 (read_base16 line 3 4) in
        let type = u8 (read_base16 line 7 2) in
        if type == 0
        then data_bytes line len 9 addr l
        else if type == 2
        then (if not (len == 2)
            then stop l
            else next (record l { base_addr = u32 (read_base16 line 9 4 * 2 ^ 4) }))
        else next l)

-- The loop over the lines: `next` is the end of the file.
unfoldable pub read_lines : List Memory → Loader → Progress
read_lines [] l = next l
read_lines (line ∷ lines) l =
    let rest = read_lines lines in
    elim (read_line line l) [
      | next l' ↦ rest l'
      | stop l' ↦ stop l'
      | exit ↦ exit
      | overrun ↦ overrun
    ]

-- memcmp (&firmware_buffer[addr], "YamaNeko", 8) == 0
unfoldable pub is_magic : Memory → ℕ → Bool
is_magic b a =
    b a == b'Y'
    && b (a + 1) == b'a'
    && b (a + 2) == b'm'
    && b (a + 3) == b'a'
    && b (a + 4) == b'N'
    && b (a + 5) == b'e'
    && b (a + 6) == b'k'
    && b (a + 7) == b'o'

-- The loop of FindEmbeddedInfo with the addresses that are left.
unfoldable pub find_from : Memory → ℕ → ℕ → Option ℕ
unfolding is_magic
find_from b zero addr = none
find_from b (suc left) addr =
    let rest = find_from b left (addr + 1) in if is_magic b addr then some addr else rest

-- FindEmbeddedInfo: `none` is 0xFFFFFFFF.
unfoldable pub find_embedded_info : Memory → Option ℕ
unfolding find_from
find_embedded_info b = find_from b (firmware_buffer_size - 8) 0

-- What ReadHexFile leaves: its result true with the image, its result false, or an access outside
-- the firmware buffer.
pub data Loaded : Type 0 where
  loaded : Image → Loaded
  refused outside : Loaded

-- FW_INFO_t is packed: flash_size_b is at offset 13, page_size_b at offset 17.
abbrev pub flash_size_at : Memory → ℕ → ℕ
flash_size_at b ptr =
    b (ptr + 13) + b (ptr + 14) * 2 ^ 8 + b (ptr + 15) * 2 ^ 16 + b (ptr + 16) * 2 ^ 24

abbrev pub image_at : Memory → ℕ → Image
image_at b ptr = record {
  firmware_buffer = b;
  firmware_crc = xmega_nvm_crc32 b (flash_size_at b ptr);
  flash_size_b = flash_size_at b ptr;
  page_size_b = b (ptr + 17) + b (ptr + 18) * 2 ^ 8;
  mcu_signature = b (ptr + 10) ∷ b (ptr + 11) ∷ b (ptr + 12) ∷ [];
}

-- Behind the search: `ok` is `res`. The last test is for the page size, which is read here to be printed,
-- unless printing is quiet, and again by UpdateFirmware.
unfoldable pub use_info : Bool → Memory → Option ℕ → Loaded
use_info ok b none = refused
use_info ok b (some ptr) =
    if ltb firmware_buffer_size (ptr + 17)
    then outside
    else if ltb firmware_buffer_size (flash_size_at b ptr)
    then refused
    else if ltb firmware_buffer_size (ptr + 19)
    then outside
    else if ok
    then loaded (image_at b ptr)
    else refused

unfoldable pub finish_reading : Bool → Memory → Loaded
finish_reading ok b = use_info ok b (find_embedded_info b)

-- ReadHexFile, for a file that opens.
unfoldable pub read_hex_file : List Memory → Loaded
read_hex_file lines =
    elim (read_lines lines
      (record { firmware_buffer = λ a. 0xFF; firmware_size = 0; base_addr = 0 })) [
        | next l ↦ finish_reading true l.firmware_buffer
        | stop l ↦ finish_reading false l.firmware_buffer
        | exit ↦ refused
        | overrun ↦ outside
      ]
