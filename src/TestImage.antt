-- ===== src/TestImage.antt =====
-- test_image/test_image/test_image.c: the structure that an application embeds in its image, so that the
-- host's program can read it. The rest of the application is an endless loop.
use hid_bootloader.Base.{
  ℕ, zero, suc, ◌+◌, ◌-◌, ◌*◌, ◌/◌, ◌%◌, ◌^◌, ◌≤◌, ◌<◌, ◌==◌, ◌≡◌, refl, sym, ap, ◌∙◌, arith,
  Memory, Bool, true, false, ltb, List, [], ◌∷◌, get_or, some,
}
use hid_bootloader.Chip.{Board}
use hid_bootloader.Crc.{xmega_nvm_crc32}
use hid_bootloader.Host.{Image, firmware_buffer_size}
use hid_bootloader.IntelHex.{
  is_magic, flash_size_at, image_at, Loaded, loaded, find_embedded_info, use_info, finish_reading,
}
use hid_bootloader.IntelHex.Info.{First, find_embedded_info_iff}
pub mod Tests

abbrev pub version_major : ℕ
version_major = 1

abbrev pub version_minor : ℕ
version_minor = 0

-- The values of uint16_t and uint32_t in memory, low byte first
abbrev pub word16 : ℕ → List ℕ → List ℕ
word16 v rest = v % 2 ^ 8 ∷ v / 2 ^ 8 % 2 ^ 8 ∷ rest

abbrev pub word32 : ℕ → List ℕ → List ℕ
word32 v rest = v % 2 ^ 8 ∷ v / 2 ^ 8 % 2 ^ 8 ∷ v / 2 ^ 16 % 2 ^ 8 ∷ v / 2 ^ 24 % 2 ^ 8 ∷ rest

-- firmware_info, for a board and its signature: the compiler of the chip does not pad.
unfoldable pub firmware_info : Board → ℕ → ℕ → ℕ → List ℕ
firmware_info board signature_0 signature_1 signature_2 =
    0x59
    ∷ 0x61
    ∷ 0x6D
    ∷ 0x61
    ∷ 0x4E
    ∷ 0x65
    ∷ 0x6B
    ∷ 0x6F
    ∷ version_major
    ∷ version_minor
    ∷ signature_0
    ∷ signature_1
    ∷ signature_2
    ∷ word32 board.app_section_size (
        word16 board.app_section_page_size
          (word32 board.eeprom_size (word16 board.eeprom_page_size [])))

-- The image holds the structure at an address.
pub Embeds : Memory → ℕ → List ℕ → Type 0
Embeds b ptr bytes = (i : ℕ) → i < 31 → b (ptr + i) ≡ get_or bytes i 0

module _ (board : Board) (s0 s1 s2 : ℕ) (b : Memory) (ptr : ℕ)
    (embeds : Embeds b ptr (firmware_info board s0 s1 s2)) where
  is_magic-firmware_info : is_magic b ptr ≡ true
  unfolding is_magic firmware_info Embeds
  is_magic-firmware_info =
      let start : ptr ≡ ptr + 0 = omega arith in
      rw
        (
          ap b start ∙ embeds 0 (omega arith),
          embeds 1 (omega arith),
          embeds 2 (omega arith),
          embeds 3 (omega arith),
          embeds 4 (omega arith),
          embeds 5 (omega arith),
          embeds 6 (omega arith),
          embeds 7 (omega arith),
        )
        refl

  -- What ReadHexFile makes of the fields.
  image_at-firmware_info :
      board.app_section_size < 2 ^ 32
      → board.app_section_page_size < 2 ^ 16
      → image_at b ptr ≡ record {
        firmware_buffer = b;
        firmware_crc = xmega_nvm_crc32 b board.app_section_size;
        flash_size_b = board.app_section_size;
        page_size_b = board.app_section_page_size;
        mcu_signature = s0 ∷ s1 ∷ s2 ∷ [];
      }
  unfolding firmware_info Embeds
  image_at-firmware_info size_fits page_fits =
      let size : flash_size_at b ptr ≡ board.app_section_size = omega (
        arith,
        embeds 13 (omega arith),
        embeds 14 (omega arith),
        embeds 15 (omega arith),
        embeds 16 (omega arith),
        size_fits,
      ) in
      let page : b (ptr + 17) + b (ptr + 18) * 2 ^ 8 ≡ board.app_section_page_size =
        omega (arith, embeds 17 (omega arith), embeds 18 (omega arith), page_fits) in
      rw (size, page, embeds 10 (omega arith), embeds 11 (omega arith), embeds 12 (omega arith))
        refl

  -- If an application embeds the structure for its board, as the test image does, in an image in which the
  -- magic string begins nowhere before, whole within the firmware buffer, for a flash size up to the size
  -- of the buffer and a 16-bit page size: ReadHexFile, at the end of the file, takes the image with the
  -- flash size, the page size and the signature of the board, and with the checksum of its bytes up to the
  -- flash size.
  pub finish_reading-firmware_info :
      ((i : ℕ) → i < ptr → is_magic b i ≡ false)
      → ptr + 31 ≤ firmware_buffer_size
      → board.app_section_size ≤ firmware_buffer_size
      → board.app_section_page_size < 2 ^ 16
      → finish_reading true b
        ≡ loaded (record {
          firmware_buffer = b;
          firmware_crc = xmega_nvm_crc32 b board.app_section_size;
          flash_size_b = board.app_section_size;
          page_size_b = board.app_section_page_size;
          mcu_signature = s0 ∷ s1 ∷ s2 ∷ [];
        })
  unfolding finish_reading use_info
  finish_reading-firmware_info first inside size_fits page_fits =
      let image = image_at-firmware_info (omega (arith, size_fits)) page_fits in
      let found : find_embedded_info b ≡ some ptr = (find_embedded_info_iff b ptr).1 (record {
        from = omega arith;
        below = omega (arith, inside);
        magic = is_magic-firmware_info;
        first = λ i p q. first i q;
      }) in
      let size = ap (λ (m : Image). m.flash_size_b) image in
      let in_size : ltb firmware_buffer_size (ptr + 17) ≡ false = ground (arith, inside) in
      let in_buffer : ltb firmware_buffer_size (flash_size_at b ptr) ≡ false =
        ground (arith, size, size_fits) in
      let in_page : ltb firmware_buffer_size (ptr + 19) ≡ false = ground (arith, inside) in
      let taken : use_info true b (some ptr) ≡ loaded (image_at b ptr) =
        rw (in_size, in_buffer, in_page) refl in
      ap (λ o. use_info true b o) found ∙ taken ∙ ap loaded image
