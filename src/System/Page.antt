-- ===== src/System/Page.antt =====
-- The reports of one page fill the page buffer of the device with that page of the firmware.
use native.Mathlib.Nat.{mod-eq_of_lt}
use hid_bootloader.Base.{
  ℕ, zero, suc, ◌+◌, ◌*◌, ◌%◌, ◌≤◌, ◌<◌, ◌≡◌, refl, ap, ◌∙◌, arith, Memory, true, false, some, ltb,
  copy,
}
use hid_bootloader.Chip.{Chip}
use hid_bootloader.Firmware.{Device, hid_report_out}
use hid_bootloader.Firmware.Buffer.{hid_report_out_lem}
use hid_bootloader.Host.{Hid, done, Image, firmware_buffer_size}
use hid_bootloader.Host.Update.{send_page, report_from}
use hid_bootloader.System.{Cable, Fits}

module _ (chip : Chip) (hid : Hid) (cable : Cable chip hid) (image : Image)
    (fit : Fits chip image) where
  -- The first `j` reports of the page at `base` have arrived.
  pub record Filling (base : ℕ) (hw : chip.Hw) (j : ℕ) (d : Device chip) : Type 0 where
    pub free : d.report_in_free ≡ true
    pub points : d.page_ptr ≡ 64 * j % chip.app_section_page_size
    pub same_hw : d.hw ≡ hw
    pub filled : (i : ℕ) → i < 64 * j → d.page_buffer i ≡ image.firmware_buffer (base + i)

  module _ (base : ℕ) (hw : chip.Hw)
      (in_buffer : base + chip.app_section_page_size ≤ firmware_buffer_size) where
    -- One report.
    one_report :
        (j offset : ℕ) (buffer : Memory) (d : Device chip)
        → j < fit.reports
        → offset ≡ base + 64 * j
        → Filling base hw j d
        → (d' : Device chip) × (hid_report_out chip
              (λ i. report_from image.firmware_buffer offset buffer (i + 1))
              d
            ≡ some d')
          × Filling base hw (suc j) d'
    one_report j offset buffer d less o f = (
      record d {
        page_buffer = copy 64 d.page_buffer d.page_ptr report 0;
        page_ptr = (d.page_ptr + 64) % chip.app_section_page_size;
      },
      hid_report_out_lem chip report d fit.width fit.page_width fit.page_small
          (omega (arith, at, fit.page_reports)),
      record {
        free = f.free;
        points =
            ap (λ (t : ℕ). (t + 64) % chip.app_section_page_size) at
            ∙ ap (λ (t : ℕ). t % chip.app_section_page_size) next;
        same_hw = f.same_hw;
        filled = λ i k. rw at (ground (arith, f.filled i));
      },
    )
      where
        report : Memory
        report i = report_from image.firmware_buffer offset buffer (i + 1)

        at : d.page_ptr ≡ 64 * j
        at = f.points ∙ mod-eq_of_lt (omega (arith, fit.page_reports))

        next : 64 * j + 64 ≡ 64 * suc j
        next = omega arith

    -- The rest of the page, from its report `j` on.
    pub send_page_lem :
        (left j offset : ℕ) (buffer : Memory) (w : hid.World)
        → j + left ≡ fit.reports
        → offset ≡ base + 64 * j
        → Filling base hw j (cable.device w)
        → (b : Memory) × (v : hid.World) × (send_page hid image left offset buffer w
            ≡ done (record { ok = true; buffer = b }) v)
          × Filling base hw fit.reports (cable.device v)
          × (cable.pending v ≡ cable.pending w)
    unfolding send_page
    send_page_lem zero j offset buffer w e o f =
        let all : j ≡ fit.reports = omega arith in (buffer, w, refl, rw all at f, refl)
    send_page_lem (suc left) j offset buffer w e o f =
        let filled : Memory = report_from image.firmware_buffer offset buffer in
        let less : j < fit.reports = omega arith in
        let (d, stores, f') = one_report j offset buffer (cable.device w) less o f in
        let w' : hid.World = (hid.hid_write filled w).1 in
        let dev : cable.device w' ≡ d = cable.write_device filled w d stores in
        let inside : ltb firmware_buffer_size (offset + 64) ≡ false =
          ground (arith, fit.page_reports) in
        let (b, v, runs, full, same) =
          send_page_lem left (suc j) (offset + 64) filled w' (omega arith) (omega arith)
            (rw dev f') in
        (
          b,
          v,
          rw (inside, cable.write_result filled w) runs,
          full,
          same ∙ cable.write_pending filled w,
        )
