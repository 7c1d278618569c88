-- ===== src/System/Pages.antt =====
-- The pages of an update, one after the other.
use mathlib.Core.Path.{subst}
use native.Mathlib.Nat.{mod-eq_of_lt, mul-div_cancel}
use hid_bootloader.Base.{
  ℕ, zero, suc, ◌+◌, ◌-◌, ◌*◌, ◌/◌, ◌%◌, ◌^◌, ◌≤◌, ◌<◌, ◌≡◌, refl, sym, ap, ◌∙◌, arith, Memory,
  Bool, true, false, if◌then◌else◌, List, [], ◌∷◌, ◌++◌, length, ltb, copy, u32, u16,
}
use hid_bootloader.Protocol.{BlCommand, set_u16_0, cmd_write_page}
use hid_bootloader.Chip.{Chip}
use hid_bootloader.Firmware.{State, Device}
use hid_bootloader.Host.{Hid, Outcome, done, bind_done, Image, execute_and_wait}
use hid_bootloader.Host.Update.{send_page, write_pages}
use hid_bootloader.System.{Cable, FlashLaws, Fits, delivered, queued}
use hid_bootloader.System.Deliver.{handled, execute_and_wait_lem}
use hid_bootloader.System.Steps.{Holds, refreshed-Holds, write_page_effect}
use hid_bootloader.System.Page.{Filling, send_page_lem}

length-append_one {ℓ} : {A : Type ℓ} (q : List A) (r : A) → length (q ++ r ∷ []) ≡ length q + 1
length-append_one [] r = omega arith
length-append_one (x ∷ q) r = omega (arith, length-append_one q r)

-- One exchange adds at most one report to the host's queue.
pub length-queued :
    {Hw : Type 0} (d : State Hw) (q : List Memory) → length (queued d q) ≤ length q + 1
length-queued d q = ground (arith, length-append_one q d.report_in)

-- A flash of which the first `n` bytes are written and the others erased.
abbrev pub progress : Memory → ℕ → Memory
progress firmware n a = if ltb a n then firmware a else 255

module _ (chip : Chip) (hid : Hid) (cable : Cable chip hid) (laws : FlashLaws chip) (image : Image)
    (fit : Fits chip image) where
  abbrev ps : ℕ
  ps = chip.app_section_page_size

  page_inside : (p : ℕ) → p < fit.pages → p * ps + ps ≤ chip.app_section_size
  page_inside p h = rw fit.size_pages (grind arith)

  page_guard : (p : ℕ) → p < fit.pages → ltb (chip.app_section_size / ps) p ≡ false
  page_guard p h =
      let count : chip.app_section_size / ps ≡ fit.pages =
        ap (λ (t : ℕ). t / ps) fit.size_pages
        ∙ mul-div_cancel fit.pages (omega (arith, fit.page_reports, fit.reports_pos)) in
      ground arith

  page_address : (p : ℕ) → p < fit.pages → u32 (chip.app_section_start + u32 (p * ps)) ≡ p * ps
  page_address p h = let inside = page_inside p h in omega (arith, fit.start, fit.fits_buffer)

  Holds-ext :
      {content content' : Memory} {pointer : ℕ} {d : Device chip}
      → Holds chip content pointer d
      → ((a : ℕ) → a < chip.app_section_size → content a ≡ content' a)
      → Holds chip content' pointer d
  Holds-ext h e = record { free = h.free; points = h.points; holds = λ a k. h.holds a k ∙ e a k }

  -- The page that is written extends what is written.
  next_content :
      (p : ℕ) (page : Memory)
      → ((i : ℕ) → i < ps → page i ≡ image.firmware_buffer (p * ps + i))
      → (a : ℕ)
      → copy ps (progress image.firmware_buffer (p * ps)) (p * ps) page 0 a
        ≡ progress image.firmware_buffer (suc p * ps) a
  next_content p page full a =
      let more : suc p * ps ≡ p * ps + ps = omega arith in
      rw more (ground (arith, full (a - p * ps)))

  -- The command that writes page `p`, from a filled page buffer.
  written :
      (p : ℕ) (cmd : BlCommand) (w : hid.World)
      → p < fit.pages
      → cmd.u32 < 2 ^ 32
      → (cable.device w).report_in_free ≡ true
      → ((i : ℕ) → i < ps → (cable.device w).page_buffer i ≡ image.firmware_buffer (p * ps + i))
      → ((a : ℕ)
          → a < chip.app_section_size
          → chip.flash (cable.device w).hw a ≡ progress image.firmware_buffer (p * ps) a)
      → let d = handled chip hid cable (set_u16_0 p (record cmd { command = cmd_write_page })) w in
        (d.feature_response.result ≡ 0)
        × Holds chip (progress image.firmware_buffer (suc p * ps)) 0 (delivered d)
  written p cmd w less small free full before =
      let low : (cmd.u32 / 2 ^ 16 * 2 ^ 16 + u16 p) % 2 ^ 16 ≡ p = omega (arith, fit.pages_small) in
      let (ok, after) =
        write_page_effect chip laws (cable.stack w) (cable.device w) free
          (cmd.u32 / 2 ^ 16 * 2 ^ 16 + u16 p) (p * ps) (progress image.firmware_buffer (p * ps))
          (omega arith) (rw low (page_guard p less)) (rw low (page_address p less))
          (page_inside p less) before (λ i k. ground arith) in
      (ok, Holds-ext after (λ a k. next_content p (cable.device w).page_buffer full a))

  -- The command and the wait.
  one_page :
      (p : ℕ) (cmd : BlCommand) (w : hid.World)
      → p < fit.pages
      → cmd.u32 < 2 ^ 32
      → (cable.device w).report_in_free ≡ true
      → ((i : ℕ) → i < ps → (cable.device w).page_buffer i ≡ image.firmware_buffer (p * ps + i))
      → ((a : ℕ)
          → a < chip.app_section_size
          → chip.flash (cable.device w).hw a ≡ progress image.firmware_buffer (p * ps) a)
      → (v : hid.World) × (execute_and_wait hid
            (set_u16_0 p (record cmd { command = cmd_write_page }))
            w
          ≡ done true v)
        × Holds chip (progress image.firmware_buffer (suc p * ps)) 0 (cable.device v)
        × (length (cable.pending v) ≤ length (cable.pending w) + 1)
  one_page p cmd w less small free full before =
      let c : BlCommand = set_u16_0 p (record cmd { command = cmd_write_page }) in
      let (ok, after) = written p cmd w less small free full before in
      let (v, runs, dev, queue) = execute_and_wait_lem chip hid cable c w ok in
      (
        v,
        runs,
        subst (Holds chip (progress image.firmware_buffer (suc p * ps)) 0) (sym dev)
            (refreshed-Holds chip (refreshed-Holds chip after)),
        subst (λ q. length q ≤ length (cable.pending w) + 1) (sym queue)
            (length-queued (handled chip hid cable c w) (cable.pending w)),
      )

  -- One round of the loop over the pages, from what its parts do.
  write_pages_round :
      (left p : ℕ) (cmd : BlCommand) (buffer b : Memory) (w u v : hid.World)
      {r : Outcome hid.World (record { ok : Bool; cmd : BlCommand; buffer : Memory })}
      → send_page hid image fit.reports (p * image.page_size_b) buffer w
        ≡ done (record { ok = true; buffer = b }) u
      → execute_and_wait hid (set_u16_0 p (record cmd { command = cmd_write_page })) u ≡ done true v
      → write_pages hid image left
          (suc p)
          (set_u16_0 p (record cmd { command = cmd_write_page }))
          b
          v
        ≡ r
      → write_pages hid image (suc left) p cmd buffer w ≡ r
  unfolding write_pages
  write_pages_round left p cmd buffer b w u v sends runs rest =
      let count : (image.page_size_b + 63) / 64 ≡ fit.reports =
        omega (arith, fit.page_size, fit.page_reports) in
      let next : p + 1 ≡ suc p = omega arith in
      rw (count, next)
        (bind_done (send_page hid image fit.reports (p * image.page_size_b) buffer) _ sends
          ∙ bind_done (execute_and_wait hid (set_u16_0 p (record cmd { command = cmd_write_page })))
              _ runs
          ∙ rest)

  -- The pages from `p` on.
  pub write_pages_lem :
      (left p : ℕ) (cmd : BlCommand) (buffer : Memory) (w : hid.World)
      → p + left ≡ fit.pages
      → cmd.u32 < 2 ^ 32
      → Holds chip (progress image.firmware_buffer (p * ps)) 0 (cable.device w)
      → (c : BlCommand) × (b : Memory) × (v : hid.World) × (write_pages hid image left p cmd buffer
            w
          ≡ done (record { ok = true; cmd = c; buffer = b }) v)
        × (c.u32 < 2 ^ 32)
        × Holds chip (progress image.firmware_buffer (fit.pages * ps)) 0 (cable.device v)
        × (length (cable.pending v) ≤ length (cable.pending w) + left)
  write_pages_lem zero p cmd buffer w e small h =
      let all : p ≡ fit.pages = omega arith in
      (cmd, buffer, w, unfold write_pages in refl, small, rw all at h, omega arith)
  write_pages_lem (suc left) p cmd buffer w e small h =
      let less : p < fit.pages = omega arith in
      let inside : p * ps + ps ≤ chip.app_section_size = page_inside p less in
      let empty : Filling chip hid cable image fit (p * ps) (cable.device w).hw 0 (cable.device w) =
        record {
          free = h.free;
          points = h.points ∙ sym (mod-eq_of_lt (omega (arith, fit.page_reports, fit.reports_pos)));
          same_hw = refl;
          filled = λ i k. absurd (omega arith);
        } in
      let offset : p * image.page_size_b ≡ p * ps + 64 * 0 =
        ap (λ (t : ℕ). p * t) fit.page_size ∙ omega arith in
      let (b, u, sends, full, queue) =
        send_page_lem chip hid cable image fit (p * ps) (cable.device w).hw
          (omega (arith, fit.fits_buffer)) fit.reports 0 (p * image.page_size_b) buffer w
          (omega arith) offset empty in
      let (v, runs, holds, queue') =
        one_page p cmd u less small full.free
          (λ i k. full.filled i (omega (arith, fit.page_reports)))
          (λ a k. ap (λ (t : chip.Hw). chip.flash t a) full.same_hw ∙ h.holds a k) in
      let (c, b', t, rest, small', whole, queue'') =
        write_pages_lem left (suc p) (set_u16_0 p (record cmd { command = cmd_write_page })) b v
          (omega arith) (omega arith) holds in
      (
        c,
        b',
        t,
        write_pages_round left p cmd buffer b w u v sends runs rest,
        small',
        whole,
        omega (arith, ap (λ q. length q) queue),
      )
