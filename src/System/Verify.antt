-- ===== src/System/Verify.antt =====
-- VerifyFirmware over the cable decides whether the flash holds the image.
use mathlib.Core.Path.{subst}
use hid_bootloader.Base.{
  ℕ, zero, suc, ◌+◌, ◌*◌, ◌/◌, ◌≤◌, ◌<◌, ◌≡◌, ◌↔◌, inl, inr, refl, sym, ap, ◌∙◌, arith, Memory,
  Bool, true, false, [], length, ltb, leb, ◌==◌, ==_iff, Bool-cases,
}
use hid_bootloader.Protocol.{BlCommand, cmd_read_flash}
use hid_bootloader.Chip.{Chip}
use hid_bootloader.Firmware.{Device, hid_get_feature_report_out}
use hid_bootloader.Host.{
  Hid, done, bind_done, Image, firmware_buffer_size, execute_hid_command_with_response,
}
use hid_bootloader.Host.Update.{compare_bytes, verify_loop, verify_firmware}
use hid_bootloader.System.{Cable, FlashLaws, Fits, delivered}
use hid_bootloader.System.Deliver.{handled, with_response_lem}
use hid_bootloader.System.Steps.{read_flash_effect}

-- The firmware's bytes from `lo` up to `hi` are those of `m`.
abbrev pub Agree : Memory → Memory → ℕ → ℕ → Type 0
Agree m firmware lo hi = (a : ℕ) → lo ≤ a → a < hi → m a ≡ firmware a

module _ (hid : Hid) (image : Image) where
  compare_bytes_lem :
      (left i addr : ℕ) (buffer m : Memory) (w : hid.World)
      → addr + left ≤ firmware_buffer_size
      → ((j : ℕ) → j < left → buffer (i + j) ≡ m (addr + j))
      → (b : Bool) × (compare_bytes hid image buffer left i addr w ≡ done b w)
        × ((b ≡ true) ↔ Agree m image.firmware_buffer addr (addr + left))
  unfolding compare_bytes
  compare_bytes_lem zero i addr buffer m w room same =
      (true, refl, (λ e a h k. absurd (omega arith), λ h. refl))
  compare_bytes_lem (suc left) i addr buffer m w room same =
      let inside : leb firmware_buffer_size addr ≡ false = ground arith in
      let here : buffer i ≡ m addr = ground (arith, same 0) in
      let (b, runs, iff) =
        compare_bytes_lem left (i + 1) (addr + 1) buffer m w (omega arith)
          (λ j k. ground (arith, same (suc j))) in
      elim (Bool-cases (buffer i == image.firmware_buffer addr)) [
        | inl equal ↦ (
          b,
          rw (inside, equal) runs,
          (
            λ e a h k. agree_from (==_of (buffer i) _ equal) here (iff.0 e) a h k,
            λ all. iff.1 (λ a h k. all a (omega arith) (omega arith)),
          ),
        )
        | inr differ ↦ (
          false,
          rw (inside, differ),
          (
            λ e a h k. cc,
            λ all. absurd_differ differ (here ∙ all addr (omega arith) (omega arith)),
          ),
        )
      ]
    where
      ==_of : (x y : ℕ) → (x == y) ≡ true → x ≡ y
      ==_of x y e = (==_iff x y).0 e

      absurd_differ : {x y : ℕ} → (x == y) ≡ false → x ≡ y → false ≡ true
      absurd_differ {x} {y} d e = sym d ∙ (==_iff x y).1 e

      agree_from :
          buffer i ≡ image.firmware_buffer addr
          → buffer i ≡ m addr
          → Agree m image.firmware_buffer (addr + 1) (addr + 1 + left)
          → Agree m image.firmware_buffer addr (addr + suc left)
      agree_from equal here rest a h k = elim (Bool-cases (a == addr)) [
        | inl first ↦ let at : a ≡ addr = ==_of a addr first in rw at (sym here ∙ equal)
        | inr later ↦ rest a (ground arith) (omega arith)
      ]

module _ (chip : Chip) (hid : Hid) (cable : Cable chip hid) (laws : FlashLaws chip) (image : Image)
    (fit : Fits chip image) where
  seen_flash :
      (d : Device chip) {e : Device chip}
      → e ≡ (hid_get_feature_report_out chip (delivered d)).1
      → (chip.flash e.hw ≡ chip.flash d.hw) × (e.report_in_free ≡ true)
  unfolding hid_get_feature_report_out
  seen_flash d p =
      (ap (λ (d : Device chip). chip.flash d.hw) p, ap (λ (d : Device chip). d.report_in_free) p)

  -- One report: what the host has read are the bytes of the flash.
  read_lem :
      (fuel addr : ℕ) (buffer : Memory) (w : hid.World)
      → addr ≤ chip.app_section_size
      → (cable.device w).report_in_free ≡ true
      → length (cable.pending w) < fuel
      → (b : Memory) × (v : hid.World) × (execute_hid_command_with_response hid fuel
            (record { command = cmd_read_flash; u32 = addr })
            buffer
            w
          ≡ done (record { ok = true; buffer = b }) v)
        × ((i : ℕ) → i < 64 → b i ≡ chip.flash (cable.device w).hw (addr + i))
        × (chip.flash (cable.device v).hw ≡ chip.flash (cable.device w).hw)
        × ((cable.device v).report_in_free ≡ true)
        × (cable.pending v ≡ [])
  read_lem fuel addr buffer w inside free enough =
      let c : BlCommand = record { command = cmd_read_flash; u32 = addr } in
      let effect = λ (v : hid.World) (e : cable.device v ≡ cable.device w).
        read_flash_effect chip laws (cable.stack v) (cable.device v)
          (ap (λ (d : Device chip). d.report_in_free) e ∙ free) addr
          (omega (arith, fit.fits_buffer)) inside in
      let (b, u, v, runs, content, same, dev, none_left) =
        with_response_lem chip hid cable fuel c buffer w 64
          (λ i. chip.flash (cable.device w).hw (addr + i)) (omega arith) enough
          (λ v e. (
            (effect v e).0,
            (effect v e).1,
            λ i k. (effect v e).2 i k ∙ ap (λ (d : Device chip). chip.flash d.hw (addr + i)) e,
          )) in
      let (flash_v, free_v) = seen_flash (handled chip hid cable c u) dev in
      (
        b,
        v,
        runs,
        content,
        flash_v ∙ (effect u same).3 ∙ ap (λ (d : Device chip). chip.flash d.hw) same,
        free_v,
        none_left,
      )

  verify_loop_lem :
      (fuel left addr : ℕ) (buffer : Memory) (w : hid.World)
      → addr + 64 * left ≤ chip.app_section_size
      → (cable.device w).report_in_free ≡ true
      → length (cable.pending w) < fuel
      → (b : Bool) × (v : hid.World) × (verify_loop hid image fuel left addr buffer w ≡ done b v)
        × ((b ≡ true)
            ↔ Agree (chip.flash (cable.device w).hw) image.firmware_buffer addr (addr + 64 * left))
        × (chip.flash (cable.device v).hw ≡ chip.flash (cable.device w).hw)
  unfolding verify_loop
  verify_loop_lem fuel zero addr buffer w room free enough =
      (true, w, refl, (λ e a h k. absurd (omega arith), λ h. refl), refl)
  verify_loop_lem fuel (suc left) addr buffer w room free enough =
      let flash_w : Memory = chip.flash (cable.device w).hw in
      let (r, v, runs, content, same, free', none_left) =
        read_lem fuel addr buffer w (omega arith) free enough in
      let (b1, compares, first) =
        compare_bytes_lem hid image 64 0 addr r flash_w v (omega (arith, fit.fits_buffer))
          (λ j k. ap r (omega arith) ∙ content j k) in
      let (b2, t, loops, others, kept) =
        verify_loop_lem fuel left (addr + 64) r v (omega arith) free' (ground (arith, none_left)) in
      let others_w =
        subst
          (λ (m : Memory).
            (b2 ≡ true) ↔ Agree m image.firmware_buffer (addr + 64) (addr + 64 + 64 * left))
          same others in
      elim (Bool-cases b1) [
        | inl matches ↦ (
          b2,
          t,
          bind_done
                (execute_hid_command_with_response hid fuel
                  (record { command = cmd_read_flash; u32 = addr }) buffer)
                _ runs
              ∙ bind_done (compare_bytes hid image r 64 0 addr) _ compares
              ∙ rw matches loops,
          (
            λ e a h k. joined (first.0 matches) (others_w.0 e) a h k,
            λ all. others_w.1 (λ a h k. all a (omega arith) (omega arith)),
          ),
          kept ∙ same,
        )
        | inr differs ↦ (
          false,
          v,
          bind_done
                (execute_hid_command_with_response hid fuel
                  (record { command = cmd_read_flash; u32 = addr }) buffer)
                _ runs
              ∙ bind_done (compare_bytes hid image r 64 0 addr) _ compares
              ∙ rw differs,
          (λ e. cc, λ all. sym differs ∙ first.1 (λ a h k. all a (omega arith) (omega arith))),
          same,
        )
      ]
    where
      joined :
          {m : Memory}
          → Agree m image.firmware_buffer addr (addr + 64)
          → Agree m image.firmware_buffer (addr + 64) (addr + 64 + 64 * left)
          → Agree m image.firmware_buffer addr (addr + 64 * suc left)
      joined low high a h k = elim (Bool-cases (ltb a (addr + 64))) [
        | inl early ↦ low a h (ground arith)
        | inr late ↦ high a (ground arith) (omega arith)
      ]

  -- The whole verification, which leaves the flash as it was.
  pub verify_firmware_lem :
      (fuel : ℕ) (stack : Memory) (w : hid.World)
      → (cable.device w).report_in_free ≡ true
      → length (cable.pending w) < fuel
      → (b : Bool) × (v : hid.World) × (verify_firmware hid image fuel stack w ≡ done b v)
        × ((b ≡ true)
            ↔ Agree (chip.flash (cable.device w).hw) image.firmware_buffer 0 image.flash_size_b)
        × (chip.flash (cable.device v).hw ≡ chip.flash (cable.device w).hw)
  unfolding verify_firmware
  verify_firmware_lem fuel stack w free enough =
      let reports : ℕ = fit.pages * fit.reports in
      let size : image.flash_size_b ≡ 64 * reports =
        fit.flash_size
        ∙ fit.size_pages
        ∙ ap (λ (t : ℕ). fit.pages * t) fit.page_reports
        ∙ omega arith in
      let count : (image.flash_size_b + 63) / 64 ≡ reports = omega arith in
      let (b, v, runs, iff, kept) =
        verify_loop_lem fuel reports 0 stack w (omega (arith, fit.flash_size)) free enough in
      (
        b,
        v,
        ap (λ n. verify_loop hid image fuel n 0 stack w) count ∙ runs,
        (λ e a h k. iff.0 e a h (omega arith), λ all. iff.1 (λ a h k. all a h (omega arith))),
        kept,
      )

  -- On a board that the image fits, over a cable that loses nothing, from a free IN buffer, and with
  -- fuel for the unread reports, VerifyFirmware returns, and it returns true exactly if the flash holds
  -- the image.
  pub verify_firmware_iff :
      (fuel : ℕ) (stack : Memory) (w : hid.World)
      → (cable.device w).report_in_free ≡ true
      → length (cable.pending w) < fuel
      → (b : Bool) × (v : hid.World) × (verify_firmware hid image fuel stack w ≡ done b v)
        × ((b ≡ true)
            ↔ Agree (chip.flash (cable.device w).hw) image.firmware_buffer 0 image.flash_size_b)
  verify_firmware_iff fuel stack w free enough =
      let (b, v, runs, iff, _) = verify_firmware_lem fuel stack w free enough in (b, v, runs, iff)
