-- ===== src/System/Tests.antt =====
-- The theorems at the sample chip, with a cable to it and an image for it.
use hid_bootloader.Base.{
  List, Option, ◌*◌, ◌+◌, ◌-◌, ◌==◌, ◌&&◌, ℕ, ◌<◌, ◌≡◌, ◌↔◌, refl, arith, Bool, true, false, [],
  ◌∷◌, some, get_or, Memory,
}
use hid_bootloader.Chip.Sample.{Silicon, small_chip}
use hid_bootloader.Host.Session.{program}
use hid_bootloader.Host.Args.{Args, no_args, parse_args, main}
use hid_bootloader.Host.Args.Laws.{described, parse_args_lem}
use hid_bootloader.System.Main.{main_refused, main-writes}
use hid_bootloader.IntelHex.Sample.{small_file, small_image, small_file_loads}
use hid_bootloader.System.{Fits}
use hid_bootloader.System.Session.{program_mismatch}
use hid_bootloader.System.Sample.{
  Bench, bench, bench_cable, silicon_laws, blinker, blinker_image, blinker_fit, start,
}
use hid_bootloader.Host.{done}
use hid_bootloader.Host.Update.{update_firmware, verify_firmware}
use hid_bootloader.System.Update.{update_firmware-writes}
use hid_bootloader.System.Verify.{Agree, verify_firmware_iff}

-- The ID registers of the sample chip.
abbrev small_id : Memory
small_id i = get_or (0x1E ∷ 0x97 ∷ 0x42 ∷ 0x01 ∷ []) i 0

update_firmware-writes_example :
    (v : Bench) × (update_firmware bench blinker_image 4 (λ i. 0) start ≡ done true v)
    × ((a : ℕ) → a < 256 → v.dev.hw.cells a ≡ blinker a)
    × (v.dev.report_in_free ≡ true)
    × (v.unread ≡ [])
update_firmware-writes_example =
    update_firmware-writes small_chip bench bench_cable silicon_laws blinker_image blinker_fit 4
      (λ i. 0) start refl (omega arith)

verify_firmware_iff_example :
    (b : Bool) × (v : Bench) × (verify_firmware bench blinker_image 2 (λ i. 0) start ≡ done b v)
    × ((b ≡ true) ↔ Agree (λ a. 0) blinker 0 256)
verify_firmware_iff_example =
    verify_firmware_iff small_chip bench bench_cable silicon_laws blinker_image blinker_fit 2
      (λ i. 0) start refl (omega arith)

ids_fixed : (h : Silicon) (i : ℕ) → small_chip.mcu_id h i ≡ small_id i
ids_fixed h i = refl

abbrev small_fit : Fits small_chip (small_image 0x42)
small_fit = record {
  start = refl;
  width = 7;
  page_width = refl;
  reports = 2;
  page_reports = refl;
  page_small = omega arith;
  pages = 2;
  size_pages = refl;
  pages_small = omega arith;
  fits_buffer = omega arith;
  flash_size = refl;
  page_size = refl;
  crc = refl;
  reports_pos = omega arith;
}

program_mismatch_example :
    (v : Bench) × (program bench true true 2 (λ i. 0) (some (small_file 0x43)) start ≡ done 1 v)
    × (v.dev.hw.cells ≡ start.dev.hw.cells)
program_mismatch_example =
    program_mismatch small_chip silicon_laws bench bench_cable small_id ids_fixed true true 2
      (λ i. 0) (some (small_file 0x43)) (small_image 0x43) start
      (small_file_loads 0x43 (omega arith)) refl refl (omega arith)

-- A strtol for numbers in decimal, the numbers of the bootloader, and a file that opens.
abbrev decimal_from : ℕ → List ℕ → ℕ
decimal_from n [] = n
decimal_from n (c ∷ cs) = decimal_from (n * 10 + (c - 48)) cs

abbrev decimal : List ℕ → ℕ
decimal text = decimal_from 0 text

abbrev vid_text : List ℕ
vid_text = b'3' ∷ b'3' ∷ b'4' ∷ b'1' ∷ b'0' ∷ []

abbrev pid_text : List ℕ
pid_text = b'4' ∷ b'6' ∷ b'8' ∷ b'7' ∷ b'7' ∷ []

abbrev attached : ℕ → ℕ → Bool
attached vid pid = vid == 0x8282 && pid == 0xB71D

abbrev opened : Option (List ℕ) → Option (List Memory)
opened name = some (small_file 0x42)

parse_args_lem_example :
    parse_args decimal (b'v' ∷ b's' ∷ []) (vid_text ∷ pid_text ∷ (b'f' ∷ []) ∷ []) no_args
    ≡ described decimal (b'v' ∷ b's' ∷ []) (vid_text ∷ pid_text ∷ (b'f' ∷ []) ∷ [])
parse_args_lem_example =
    parse_args_lem decimal (b'v' ∷ b's' ∷ []) (vid_text ∷ pid_text ∷ (b'f' ∷ []) ∷ [])

no_device :
    (a : Args (List ℕ))
    → described decimal (b'v' ∷ []) (vid_text ∷ []) ≡ some a
    → attached a.vid a.pid ≡ false
no_device a e = cc

main_refused_example :
    main decimal bench attached opened 4 (λ i. 0) (b'v' ∷ []) (vid_text ∷ []) start ≡ done 1 start
main_refused_example =
    main_refused decimal bench attached opened (b'v' ∷ []) (vid_text ∷ []) 4 (λ i. 0) start
      (λ a e. no_device a e)

main-writes_example :
    (t : Bench) × (main decimal bench attached opened 4
        (λ i. 0)
        (b'v' ∷ [])
        (vid_text ∷ pid_text ∷ (b'f' ∷ []) ∷ [])
        start
      ≡ done 0 t)
    × ((a : ℕ) → a < 256 → t.dev.hw.cells a ≡ (small_image 0x42).firmware_buffer a)
main-writes_example =
    main-writes decimal bench attached opened small_chip silicon_laws bench_cable small_id ids_fixed
      (b'v' ∷ []) vid_text pid_text (b'f' ∷ []) 4 (λ i. 0) (small_image 0x42) small_fit start refl
      refl refl refl refl (small_file_loads 0x42 (omega arith)) refl refl (omega arith)
