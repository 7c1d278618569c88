-- ===== src/System.antt =====
-- The host program and the firmware together. What lies between them and
-- under the firmware is assumed: a cable that loses nothing, and flash memory as the chip's manual describes it.
pub mod Deliver
pub mod Steps
pub mod Page
pub mod Pages
pub mod Update
pub mod Verify
pub mod Session
pub mod Main
pub mod Sample
pub mod Tests
use mathlib.Core.List.{tail}
use hid_bootloader.Base.{
  ℕ, ◌+◌, ◌-◌, ◌*◌, ◌/◌, ◌^◌, ◌≤◌, ◌<◌, ◌≡◌, Memory, Bool, true, false, if◌then◌else◌, Option, none,
  some, List, [], ◌∷◌, ◌++◌, length, u32, ltb, leb, ◌&&◌, IsBytes,
}
use hid_bootloader.Crc.{xmega_nvm_crc32}
use hid_bootloader.Chip.{Chip}
use hid_bootloader.Firmware.{
  State, Device, hid_report_out, hid_get_feature_report_out, hid_set_feature_report_out,
}
use hid_bootloader.Host.{Hid, Image, firmware_buffer_size}

module _ {Hw : Type 0} where
  -- The transfer of the IN report is over, and its callback has freed the buffer.
  abbrev pub delivered : State Hw → State Hw
  delivered d = record d { report_in_free = true }

  -- A report that was started goes to the end of the host's queue.
  abbrev pub queued : State Hw → List Memory → List Memory
  queued d q = if d.report_in_free then q else q ++ d.report_in ∷ []

-- HIDAPI and the USB stacks, connected to a device: a feature report runs the handler of the
-- firmware, an OUT report too, and IN reports are read in the order in which they were sent.
pub record Cable (chip : Chip) (hid : Hid) : Type 0 where
  pub device : hid.World → Device chip
  -- the IN reports that the host has not read
  pub pending : hid.World → List Memory
  -- what the handler's stack holds at its next call
  pub stack : hid.World → Memory
  pub send_result : (b : List ℕ) (w : hid.World) → (hid.hid_send_feature_report b w).0 ≡ some 6
  pub send_device :
      (b : List ℕ) (w : hid.World)
      → device (hid.hid_send_feature_report b w).1
        ≡ delivered (hid_set_feature_report_out chip (tail b) (stack w) (device w))
  pub send_pending :
      (b : List ℕ) (w : hid.World)
      → pending (hid.hid_send_feature_report b w).1
        ≡ queued (hid_set_feature_report_out chip (tail b) (stack w) (device w)) (pending w)
  -- the report number is not counted
  pub get_result : (w : hid.World) → (hid.hid_get_feature_report w).0 ≡ some 5
  pub get_bytes :
      (w : hid.World)
      → (hid.hid_get_feature_report w).1 ≡ (hid_get_feature_report_out chip (device w)).0
  pub get_device :
      (w : hid.World)
      → device (hid.hid_get_feature_report w).2 ≡ (hid_get_feature_report_out chip (device w)).1
  pub get_pending : (w : hid.World) → pending (hid.hid_get_feature_report w).2 ≡ pending w
  pub write_result : (b : Memory) (w : hid.World) → (hid.hid_write b w).0 ≡ some 65
  pub write_device :
      (b : Memory) (w : hid.World) (d : Device chip)
      → hid_report_out chip (λ i. b (i + 1)) (device w) ≡ some d
      → device (hid.hid_write b w).1 ≡ d
  pub write_pending : (b : Memory) (w : hid.World) → pending (hid.hid_write b w).1 ≡ pending w
  pub read_device :
      (t : ℕ) (b : Memory) (w : hid.World) → device (hid.hid_read_timeout t b w).2 ≡ device w
  pub read_empty :
      (t : ℕ) (b : Memory) (w : hid.World)
      → pending w ≡ []
      → ((hid.hid_read_timeout t b w).0 ≡ some 0) × (pending (hid.hid_read_timeout t b w).2 ≡ [])
  pub read_next :
      (t : ℕ) (b : Memory) (w : hid.World) (r : Memory) (q : List Memory)
      → pending w ≡ r ∷ q
      → ((hid.hid_read_timeout t b w).0 ≡ some 64)
        × ((i : ℕ) → i < 64 → (hid.hid_read_timeout t b w).1 i ≡ r i)
        × (pending (hid.hid_read_timeout t b w).2 ≡ q)

-- The flash memory under the self-programming driver.
pub record FlashLaws (chip : Chip) : Type 0 where
  -- the page buffer of the flash controller
  pub buffer : chip.Hw → Memory
  pub flash_wait : (h : chip.Hw) → chip.flash (chip.wait_for_spm h) ≡ chip.flash h
  pub flash_erase :
      (h : chip.Hw) (a : ℕ)
      → a < chip.app_section_size
      → chip.flash (chip.erase_application_section h) a ≡ 255
  pub flash_load : (m : Memory) (h : chip.Hw) → chip.flash (chip.load_flash_page m h) ≡ chip.flash h
  pub buffer_load :
      (m : Memory) (h : chip.Hw) (i : ℕ)
      → i < chip.app_section_page_size
      → buffer (chip.load_flash_page m h) i ≡ m i
  -- a page that is erased takes over the buffer, and no other byte changes
  pub flash_write :
      (h : chip.Hw) (address : ℕ)
      → address + chip.app_section_page_size ≤ chip.app_section_size
      → ((i : ℕ) → i < chip.app_section_page_size → chip.flash h (address + i) ≡ 255)
      → (a : ℕ)
      → chip.flash (chip.write_application_page address h) a ≡ (
          if leb address a && ltb a (address + chip.app_section_page_size)
          then buffer h (a - address)
          else chip.flash h a)
  pub crc_lem :
      (h : chip.Hw) → chip.application_crc h ≡ xmega_nvm_crc32 (chip.flash h) chip.app_section_size
  -- the IN endpoint is in use and its last report was fetched: the firmware starts a report only with its
  -- buffer free, and the cable fetches each report
  pub endpoint_accepts : (m : Memory) (h : chip.Hw) → (chip.run_in_endpoint m h).0 ≡ true
  pub flash_endpoint :
      (m : Memory) (h : chip.Hw) → chip.flash (chip.run_in_endpoint m h).1 ≡ chip.flash h

-- The image was built for this board, as its embedded header says, and its checksum is the one that
-- ReadHexFile computes. Pages are a power of two and hold whole reports.
pub record Fits (chip : Chip) (image : Image) : Type 0 where
  pub start : chip.app_section_start ≡ 0
  pub width : ℕ
  pub page_width : chip.app_section_page_size ≡ 2 ^ width
  pub reports : ℕ
  pub page_reports : chip.app_section_page_size ≡ 64 * reports
  pub page_small : chip.app_section_page_size < 2 ^ 16
  pub pages : ℕ
  pub size_pages : chip.app_section_size ≡ pages * chip.app_section_page_size
  pub pages_small : pages < 2 ^ 16
  pub fits_buffer : chip.app_section_size ≤ firmware_buffer_size
  pub flash_size : image.flash_size_b ≡ chip.app_section_size
  pub page_size : image.page_size_b ≡ chip.app_section_page_size
  pub crc : image.firmware_crc ≡ xmega_nvm_crc32 image.firmware_buffer image.flash_size_b
  pub reports_pos : 0 < reports
