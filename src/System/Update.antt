-- ===== src/System/Update.antt =====
-- UpdateFirmware over the cable, as a whole.
use mathlib.Core.Path.{subst, ap₂}
use native.Mathlib.Nat.{mul-div_cancel}
use hid_bootloader.Base.{
  ℕ, zero, suc, ◌+◌, ◌*◌, ◌/◌, ◌^◌, ◌<◌, ◌≡◌, refl, sym, ap, ◌∙◌, arith, Memory, true, false, List,
  [], ◌∷◌, length, get_or, ◌==◌, ==_iff, ==_ne, overlay,
}
use hid_bootloader.Protocol.{
  BlCommand, set_u16_0, cmd_erase_app_section, cmd_set_pointer, cmd_read_flash_crcs,
}
use hid_bootloader.Crc.{xmega_nvm_crc32}
use hid_bootloader.Crc.Detect.{xmega_nvm_crc32-lt, xmega_nvm_crc32_ext}
use hid_bootloader.Chip.{Chip}
use hid_bootloader.Firmware.{Device, u32_bytes, hid_get_feature_report_out}
use hid_bootloader.Host.{
  Hid, done, bind_done, Image, execute_and_wait, execute_hid_command,
  execute_hid_command_with_response,
}
use hid_bootloader.Host.Update.{write_pages, check_crc, assemble, update_firmware}
use hid_bootloader.Host.Assemble.{assemble_lem}
use hid_bootloader.System.{Cable, FlashLaws, Fits, delivered, queued}
use hid_bootloader.System.Deliver.{
  handled, execute_and_wait_lem, execute_hid_command_lem, with_response_lem,
}
use hid_bootloader.System.Steps.{
  Holds, refreshed-Holds, erase_effect, set_pointer_effect, read_flash_crcs_effect,
}
use hid_bootloader.System.Pages.{progress, write_pages_lem}

-- The first four bytes of a reply that starts with a value.
first_four :
    (x : ℕ) (rest : List ℕ) (stack : Memory) (i : ℕ)
    → i < 4
    → overlay (u32_bytes x rest) stack i ≡ get_or (u32_bytes x []) i 0
first_four x rest stack zero h = refl
first_four x rest stack (suc zero) h = refl
first_four x rest stack (suc (suc zero)) h = refl
first_four x rest stack (suc (suc (suc zero))) h = refl
first_four x rest stack (suc (suc (suc (suc i)))) h = absurd (omega arith)

module _ (chip : Chip) (hid : Hid) (cable : Cable chip hid) (laws : FlashLaws chip) (image : Image)
    (fit : Fits chip image) where
  abbrev ps : ℕ
  ps = chip.app_section_page_size

  -- A device that holds the image computes the checksum that the host computed.
  crc_agrees :
      (d : Device chip)
      → ((a : ℕ) → a < chip.app_section_size → chip.flash d.hw a ≡ image.firmware_buffer a)
      → chip.application_crc (chip.wait_for_spm d.hw) ≡ image.firmware_crc
  crc_agrees d holds =
      let words : ℕ = fit.pages * (32 * fit.reports) in
      let size : chip.app_section_size ≡ 2 * words =
        fit.size_pages ∙ ap (λ (t : ℕ). fit.pages * t) fit.page_reports ∙ omega arith in
      laws.crc_lem (chip.wait_for_spm d.hw)
      ∙ ap (λ m. xmega_nvm_crc32 m chip.app_section_size) (laws.flash_wait d.hw)
      ∙ ap (xmega_nvm_crc32 (chip.flash d.hw)) size
      ∙ xmega_nvm_crc32_ext (chip.flash d.hw) image.firmware_buffer words
          (λ i k. holds i (rw size k))
      ∙ ap (xmega_nvm_crc32 image.firmware_buffer) (sym size ∙ sym fit.flash_size)
      ∙ sym fit.crc

  crc-lt : image.firmware_crc < 2 ^ 32
  crc-lt =
      let small = xmega_nvm_crc32-lt image.firmware_buffer image.flash_size_b in
      omega (arith, fit.crc)

  crc_effect :
      (cmd : BlCommand) (v : hid.World)
      → cmd.u32 < 2 ^ 32
      → Holds chip image.firmware_buffer 0 (cable.device v)
      → let d = handled chip hid cable (record cmd { command = cmd_read_flash_crcs }) v in
        (d.feature_response.result ≡ 0)
        × (d.report_in_free ≡ false)
        × ((i : ℕ) → i < 4 → d.report_in i ≡ get_or (u32_bytes image.firmware_crc []) i 0)
        × (chip.flash d.hw ≡ chip.flash (cable.device v).hw)
  crc_effect cmd v small h =
      let (ok, busy, content, same) =
        read_flash_crcs_effect chip laws (cable.stack v) (cable.device v) h.free cmd.u32 small in
      (
        ok,
        busy,
        λ i k.
            content i (omega arith)
            ∙ first_four _
                (u32_bytes (chip.boot_crc (chip.wait_for_spm (cable.device v).hw)) (0xA5 ∷ []))
                (cable.stack v) i k
            ∙ ap (λ x. get_or (u32_bytes x []) i 0) (crc_agrees (cable.device v) h.holds),
        same,
      )

  -- The comparison of the checksums succeeds on a device that holds the image.
  check_crc_lem :
      (fuel : ℕ) (cmd : BlCommand) (buffer : Memory) (w : hid.World)
      → cmd.u32 < 2 ^ 32
      → length (cable.pending w) < fuel
      → Holds chip image.firmware_buffer 0 (cable.device w)
      → (v : hid.World) × (check_crc hid image fuel cmd buffer w ≡ done true v)
        × ((a : ℕ)
            → a < chip.app_section_size
            → chip.flash (cable.device v).hw a ≡ image.firmware_buffer a)
        × ((cable.device v).report_in_free ≡ true)
        × (cable.pending v ≡ [])
  unfolding check_crc
  check_crc_lem fuel cmd buffer w small enough h =
      let c : BlCommand = record cmd { command = cmd_read_flash_crcs } in
      let at = λ (v : hid.World) (e : cable.device v ≡ cable.device w).
        subst (Holds chip image.firmware_buffer 0) (sym e) h in
      let (b, u, v, runs, content, same, dev, none_left) =
        with_response_lem chip hid cable fuel c buffer w 4
          (λ i. get_or (u32_bytes image.firmware_crc []) i 0) (omega arith) enough
          (λ v e. let effect = crc_effect cmd v small (at v e) in (effect.0, effect.1, effect.2)) in
      let assembled : assemble b ≡ image.firmware_crc =
        assemble_lem b image.firmware_crc crc-lt (content 0 (omega arith)) (content 1 (omega arith))
          (content 2 (omega arith)) (content 3 (omega arith)) in
      let equal : (assemble b == image.firmware_crc) ≡ true =
        (==_iff (assemble b) image.firmware_crc).1 assembled in
      (
        v,
        bind_done (execute_hid_command_with_response hid fuel c buffer) _ runs ∙ rw equal,
        λ a k.
            seen (handled chip hid cable c u) dev a
            ∙ ap (λ (m : Memory). m a) (crc_effect cmd u small (at u same)).3
            ∙ (at u same).holds a k,
        ap (λ (d : Device chip). d.report_in_free) dev
            ∙ refreshed_free (handled chip hid cable c u),
        none_left,
      )
    where
      refreshed_free :
          (d : Device chip)
          → (hid_get_feature_report_out chip (delivered d)).1.report_in_free ≡ true
      refreshed_free d = unfold hid_get_feature_report_out in refl

      seen :
          (d : Device chip) {e : Device chip}
          → e ≡ (hid_get_feature_report_out chip (delivered d)).1
          → (a : ℕ) → chip.flash e.hw a ≡ chip.flash d.hw a
      seen d p a =
          ap (λ (d : Device chip). chip.flash d.hw a) p ∙ unfold hid_get_feature_report_out in refl

  -- Erasing, and setting the pointer: the flash is blank and the page buffer starts at 0.
  prepare_lem :
      (w : hid.World)
      → (cable.device w).report_in_free ≡ true
      → (u : hid.World) × (v : hid.World) × (execute_and_wait hid
            (record { command = cmd_erase_app_section; u32 = 0 })
            w
          ≡ done true u)
        × (execute_hid_command hid (set_u16_0 0 (record { command = cmd_set_pointer; u32 = 0 })) u
            ≡ done true v)
        × Holds chip (λ a. 255) 0 (cable.device v)
        × (cable.pending v ≡ cable.pending w)
  prepare_lem w free =
      let (ok, busy, blank) =
        erase_effect chip laws (cable.stack w) (cable.device w) 0 (omega arith) in
      let (u, erases, dev, queue) =
        execute_and_wait_lem chip hid cable (record { command = cmd_erase_app_section; u32 = 0 }) w
          ok in
      let blank_u : Holds chip (λ a. 255) (cable.device w).page_ptr (cable.device u) =
        subst (Holds chip (λ a. 255) (cable.device w).page_ptr) (sym dev)
          (refreshed-Holds chip (refreshed-Holds chip blank)) in
      let (ok', busy', zero_ptr, same_hw) =
        set_pointer_effect chip laws (cable.stack u) (cable.device u) 0 (omega arith) in
      let (v, points, dev', queue') =
        execute_hid_command_lem chip hid cable (record { command = cmd_set_pointer; u32 = 0 }) u
          ok' in
      (
        u,
        v,
        erases,
        points,
        subst (Holds chip (λ a. 255) 0) (sym dev') (
            refreshed-Holds chip (record {
              free = refl;
              points = zero_ptr;
              holds = λ a k. ap (λ (t : chip.Hw). chip.flash t a) same_hw ∙ blank_u.holds a k;
            })),
        queue'
            ∙ unqueued (handled chip hid cable (record { command = cmd_set_pointer; u32 = 0 }) u)
                (busy' ∙ blank_u.free)
            ∙ queue
            ∙ unqueued
                (handled chip hid cable (record { command = cmd_erase_app_section; u32 = 0 }) w)
                (busy ∙ free),
      )
    where
      unqueued : (d : Device chip) {q : List Memory} → d.report_in_free ≡ true → queued d q ≡ q
      unqueued d e = rw e

  -- On a board that the image fits, over a cable that loses nothing, from a free IN buffer, and with
  -- fuel for the reports that were unread and one for each page, UpdateFirmware returns true. The
  -- application section then holds the image, byte for byte, the IN buffer is free, and no report is
  -- unread.
  pub update_firmware-writes :
      (fuel : ℕ) (stack : Memory) (w : hid.World)
      → (cable.device w).report_in_free ≡ true
      → length (cable.pending w) + fit.pages < fuel
      → (v : hid.World) × (update_firmware hid image fuel stack w ≡ done true v)
        × ((a : ℕ)
            → a < image.flash_size_b
            → chip.flash (cable.device v).hw a ≡ image.firmware_buffer a)
        × ((cable.device v).report_in_free ≡ true)
        × (cable.pending v ≡ [])
  update_firmware-writes fuel stack w free enough =
      let (u, p, erases, points, blank, queue) = prepare_lem w free in
      let begin : Holds chip (progress image.firmware_buffer (0 * ps)) 0 (cable.device p) = record {
        free = blank.free;
        points = blank.points;
        holds = λ a k. ground (arith, blank.holds a k);
      } in
      let (c, b, t, writes, small, full, queue') =
        write_pages_lem chip hid cable laws image fit fit.pages 0
          (set_u16_0 0 (record { command = cmd_set_pointer; u32 = 0 })) stack p (omega arith)
          (omega arith) begin in
      let whole : Holds chip image.firmware_buffer 0 (cable.device t) = record {
        free = full.free;
        points = full.points;
        holds = λ a k. full.holds a k ∙ ground (arith, fit.size_pages);
      } in
      let (v, checks, content, free', none_left) =
        check_crc_lem fuel c b t small (omega (arith, ap (λ q. length q) queue)) whole in
      (
        v,
        composed fuel stack w u p t v c b erases points writes checks,
        λ a k. content a (omega (arith, fit.flash_size)),
        free',
        none_left,
      )
    where
      composed :
          (fuel : ℕ) (stack : Memory) (w u p t v : hid.World) (c : BlCommand) (b : Memory)
          → execute_and_wait hid (record { command = cmd_erase_app_section; u32 = 0 }) w
            ≡ done true u
          → execute_hid_command hid (set_u16_0 0 (record { command = cmd_set_pointer; u32 = 0 })) u
            ≡ done true p
          → write_pages hid image fit.pages 0
              (set_u16_0 0 (record { command = cmd_set_pointer; u32 = 0 }))
              stack
              p
            ≡ done (record { ok = true; cmd = c; buffer = b }) t
          → check_crc hid image fuel c b t ≡ done true v
          → update_firmware hid image fuel stack w ≡ done true v
      composed fuel stack w u p t v c b erases points writes checks =
          let pos : 0 < ps = omega (arith, fit.page_reports, fit.reports_pos) in
          let some_pages : (image.page_size_b == 0) ≡ false =
            ==_ne _ _ (omega (arith, fit.page_size)) in
          let count : image.flash_size_b / image.page_size_b ≡ fit.pages =
            ap₂ ◌/◌ (fit.flash_size ∙ fit.size_pages) fit.page_size
            ∙ mul-div_cancel fit.pages pos in
          unfold update_firmware in
          rw (some_pages, count)
            (bind_done (execute_and_wait hid (record { command = cmd_erase_app_section; u32 = 0 }))
                _ erases
              ∙ bind_done
                  (execute_hid_command hid
                    (set_u16_0 0 (record { command = cmd_set_pointer; u32 = 0 })))
                  _ points
              ∙ bind_done
                  (write_pages hid image fit.pages 0
                    (set_u16_0 0 (record { command = cmd_set_pointer; u32 = 0 })) stack)
                  _ writes
              ∙ checks)
