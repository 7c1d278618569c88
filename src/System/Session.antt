-- ===== src/System/Session.antt =====
-- The host's session with a device: what GetBootloaderInfo learns, and what main makes of it.
use mathlib.Core.List.{tail}
use mathlib.Core.Path.{subst}
use hid_bootloader.Base.{
  ℕ, zero, suc, ◌+◌, ◌≤◌, ◌<◌, ◌≡◌, refl, sym, ap, ◌∙◌, arith, Memory, Bool, true, false,
  if◌then◌else◌, Option, List, [], ◌∷◌, length, overlay, write, u8,
}
use hid_bootloader.Protocol.{command_bytes, cmd_read_serial, cmd_read_mcu_ids, cmd_read_fuses}
use hid_bootloader.Serial.{serial_text}
use hid_bootloader.Chip.{Chip}
use hid_bootloader.Firmware.{
  Device, breaks, hid_set_feature_report_out, hid_get_feature_report_out, execute, finish,
  read_serial, read_mcu_ids, read_fuses, fuse,
}
use hid_bootloader.Host.{Hid, done, pure, bind_done, Image, execute_hid_command_with_response}
use hid_bootloader.Host.Update.{update_firmware, verify_firmware}
use hid_bootloader.Host.Session.{
  Target, no_target, plain, get_bootloader_info, same_signature, update_target, reset_target,
  program, read_file,
}
use hid_bootloader.IntelHex.{loaded}
use hid_bootloader.System.{Cable, FlashLaws, Fits, delivered}
use hid_bootloader.System.Deliver.{refreshed, with_response_lem}
use hid_bootloader.System.Steps.{cleared, handle_command, replied, send_reply}
use hid_bootloader.System.Update.{update_firmware-writes}
use hid_bootloader.System.Verify.{verify_firmware_lem}

module _ (chip : Chip) (laws : FlashLaws chip) where
  -- A command that only asks: its handler leaves the hardware alone and replies.
  record Asks (command : ℕ) (reply : Memory → Device chip → Memory) : Type 0 where
    answer :
        (stack : Memory) (s : Device chip)
        → execute chip command 0 stack s ≡ breaks (reply stack s) s

  asked :
      (command : ℕ) (reply : Memory → Device chip → Memory) (stack : Memory) (s : Device chip)
      → Asks command reply
      → s.report_in_free ≡ true
      → hid_set_feature_report_out chip (tail (command_bytes (plain command))) stack s
        ≡ replied chip (reply stack (cleared chip s)) (cleared chip s)
  asked command reply stack s asks free =
      handle_command chip (plain command) stack s (omega arith)
      ∙ ap (finish chip) (asks.answer stack (cleared chip s))
      ∙ send_reply chip laws _ _ free

  asked_report :
      (response : Memory) (s : Device chip) (i : ℕ)
      → i < 64
      → (replied chip response s).report_in i ≡ response i
  asked_report response s i h = ground arith

  -- After the reply was delivered and the status read.
  settled :
      (response : Memory) (s : Device chip)
      → let d = (hid_get_feature_report_out chip (delivered (replied chip response s))).1 in
        (d.report_in_free ≡ true) × (chip.flash d.hw ≡ chip.flash s.hw)
  unfolding hid_get_feature_report_out
  settled response s = (refl, laws.flash_endpoint _ s.hw)

  abbrev serial_reply : Memory → Device chip → Memory
  serial_reply stack s =
      overlay (serial_text (λ i. chip.read_calibration_byte (u8 (chip.lotnum0 + i)) s.hw)) stack

  abbrev ids_reply : Memory → Device chip → Memory
  ids_reply stack s = let id = chip.mcu_id s.hw in overlay (id 0 ∷ id 1 ∷ id 2 ∷ id 3 ∷ []) stack

  abbrev fuses_reply : Memory → Device chip → Memory
  fuses_reply stack s =
      let f = fuse chip s.hw in overlay (f 0 ∷ f 1 ∷ f 2 ∷ f 3 ∷ f 4 ∷ f 5 ∷ []) stack

  serial-Asks : Asks cmd_read_serial serial_reply
  unfolding execute read_serial
  serial-Asks = record { answer = λ stack s. refl }

  ids-Asks : Asks cmd_read_mcu_ids ids_reply
  unfolding execute read_mcu_ids
  ids-Asks = record { answer = λ stack s. refl }

  fuses-Asks : Asks cmd_read_fuses fuses_reply
  unfolding execute read_fuses
  fuses-Asks = record { answer = λ stack s. refl }

  module _ (hid : Hid) (cable : Cable chip hid) where
    -- Between commands: the IN buffer is free, no report is unread, and the flash is as given.
    pub record Quiet (content : Memory) (w : hid.World) : Type 0 where
      pub free : (cable.device w).report_in_free ≡ true
      pub nothing_left : cable.pending w ≡ []
      pub flash_is : chip.flash (cable.device w).hw ≡ content

    -- The exchange of a command that only asks, of whose reply the first bytes are known.
    ask_lem :
        (command : ℕ) (reply : Memory → Device chip → Memory) (n : ℕ) (report : Memory)
        → Asks command reply
        → n ≤ 64
        → ((stack : Memory) (s : Device chip) (i : ℕ) → i < n → reply stack s i ≡ report i)
        → (fuel : ℕ) (buffer : Memory) (w : hid.World) → (cable.device w).report_in_free ≡ true
        → length (cable.pending w) < fuel
        → (b : Memory) × (v : hid.World) × (execute_hid_command_with_response hid fuel
              (plain command)
              buffer
              w
            ≡ done (record { ok = true; buffer = b }) v)
          × ((i : ℕ) → i < n → b i ≡ report i)
          × Quiet (chip.flash (cable.device w).hw) v
    ask_lem command reply n report asks fits known fuel buffer w free enough =
        let free_at = λ (v : hid.World) (e : cable.device v ≡ cable.device w).
          subst (λ (d : Device chip). d.report_in_free ≡ true) (sym e) free in
        let runs_as = λ (v : hid.World) (e : cable.device v ≡ cable.device w).
          asked command reply (cable.stack v) (cable.device v) asks (free_at v e) in
        let (b, u, v, runs, content, same, dev, none_left) =
          with_response_lem chip hid cable fuel (plain command) buffer w n report fits enough
            (λ v e. (
              ap (λ (d : Device chip). d.feature_response.result) (runs_as v e),
              ap (λ (d : Device chip). d.report_in_free) (runs_as v e),
              λ i h.
                  ap (λ (d : Device chip). d.report_in i) (runs_as v e)
                  ∙ asked_report (reply (cable.stack v) (cleared chip (cable.device v)))
                      (cleared chip (cable.device v)) i (omega arith)
                  ∙ known (cable.stack v) (cleared chip (cable.device v)) i h,
            )) in
        let r : Memory = reply (cable.stack u) (cleared chip (cable.device u)) in
        let (free', kept) = settled r (cleared chip (cable.device u)) in
        let ends =
          dev ∙ ap (λ (d : Device chip). refreshed chip hid cable (delivered d)) (runs_as u same) in
        (
          b,
          v,
          runs,
          content,
          record {
            free = ap (λ (d : Device chip). d.report_in_free) ends ∙ free';
            nothing_left = none_left;
            flash_is =
                ap (λ (d : Device chip). chip.flash d.hw) ends
                ∙ kept
                ∙ ap (λ (d : Device chip). chip.flash d.hw) same;
          },
        )

    module _ (id : ℕ → ℕ) (fixed : (h : chip.Hw) (i : ℕ) → chip.mcu_id h i ≡ id i) where
      ids_known : (stack : Memory) (s : Device chip) (i : ℕ) → i < 4 → ids_reply stack s i ≡ id i
      ids_known stack s zero h = fixed s.hw 0
      ids_known stack s (suc zero) h = fixed s.hw 1
      ids_known stack s (suc (suc zero)) h = fixed s.hw 2
      ids_known stack s (suc (suc (suc zero))) h = fixed s.hw 3
      ids_known stack s (suc (suc (suc (suc i)))) h = absurd (omega arith)

      four :
          (b : Memory)
          → ((i : ℕ) → i < 4 → b i ≡ id i)
          → b 0 ∷ b 1 ∷ b 2 ∷ b 3 ∷ [] ≡ id 0 ∷ id 1 ∷ id 2 ∷ id 3 ∷ []
      four b h =
          rw (h 0 (omega arith), h 1 (omega arith), h 2 (omega arith), h 3 (omega arith)) refl

      -- GetBootloaderInfo learns the ID of the chip, and leaves the flash as it was.
      get_bootloader_info_lem :
          (fuel : ℕ) (stack : Memory) (w : hid.World)
          → (cable.device w).report_in_free ≡ true
          → length (cable.pending w) < fuel
          → (target : Target) × (v : hid.World) × (get_bootloader_info hid fuel stack no_target w
              ≡ done (record { ok = true; target = target }) v)
            × (target.target_mcu_id ≡ id 0 ∷ id 1 ∷ id 2 ∷ id 3 ∷ [])
            × Quiet (chip.flash (cable.device w).hw) v
      unfolding get_bootloader_info
      get_bootloader_info_lem fuel stack w free enough =
          let (b, v, runs, _, q) =
            ask_lem cmd_read_serial serial_reply 0 (λ i. 0) serial-Asks (omega arith)
              (λ stack s i h. absurd (omega arith)) fuel stack w free enough in
          let (b', v', runs', ids, q') =
            ask_lem cmd_read_mcu_ids ids_reply 4 id ids-Asks (omega arith) ids_known fuel
              (write b 64 0) v q.free
              (omega (arith, enough, ap (λ (r : List Memory). length r) q.nothing_left)) in
          let (b'', v'', runs'', _, q'') =
            ask_lem cmd_read_fuses fuses_reply 0 (λ i. 0) fuses-Asks (omega arith)
              (λ stack s i h. absurd (omega arith)) fuel b' v' q'.free
              (omega (arith, enough, ap (λ (r : List Memory). length r) q'.nothing_left)) in
          let target : Target = record {
            target_mcu_id = b' 0 ∷ b' 1 ∷ b' 2 ∷ b' 3 ∷ [];
            target_mcu_fuses = b'' 0 ∷ b'' 1 ∷ b'' 2 ∷ b'' 3 ∷ b'' 4 ∷ b'' 5 ∷ [];
          } in
          (
            target,
            v'',
            bind_done (execute_hid_command_with_response hid fuel (plain cmd_read_serial) stack) _
                  runs
                ∙ bind_done
                    (execute_hid_command_with_response hid fuel (plain cmd_read_mcu_ids)
                      (write b 64 0))
                    _ runs'
                ∙ bind_done (execute_hid_command_with_response hid fuel (plain cmd_read_fuses) b') _
                    runs'',
            four b' ids,
            record {
              free = q''.free;
              nothing_left = q''.nothing_left;
              flash_is = q''.flash_is ∙ q'.flash_is ∙ q.flash_is;
            },
          )

      -- Over a cable that loses nothing, to a chip with fixed ID registers and a free IN buffer, and
      -- with fuel for the unread reports: a file whose image has another signature than the chip's ends
      -- the program with status 1, whatever the options, and the flash is as it was.
      pub program_mismatch :
          (opt_verify opt_reset : Bool) (fuel : ℕ) (stack : Memory) (file : Option (List Memory))
          (image : Image) (w : hid.World)
          → read_file file ≡ loaded image
          → same_signature hid image.mcu_signature (id 0 ∷ id 1 ∷ id 2 ∷ id 3 ∷ []) ≡ false
          → (cable.device w).report_in_free ≡ true
          → length (cable.pending w) < fuel
          → (v : hid.World) × (program hid opt_verify opt_reset fuel stack file w ≡ done 1 v)
            × (chip.flash (cable.device v).hw ≡ chip.flash (cable.device w).hw)
      unfolding program update_target
      program_mismatch opt_verify opt_reset fuel stack file image w reads differs free enough =
          let (target, v, info, ids, quiet) = get_bootloader_info_lem fuel stack w free enough in
          let other : same_signature hid image.mcu_signature target.target_mcu_id ≡ false =
            ap (same_signature hid image.mcu_signature) ids ∙ differs in
          (
            v,
            bind_done (get_bootloader_info hid fuel stack no_target) _ info
                ∙ rw (reads, other) refl,
            quiet.flash_is,
          )

      -- The verification behind an update, where it is asked for, finds what was written.
      verified :
          (opt_verify : Bool) (fuel : ℕ) (stack : Memory) (image : Image) (fit : Fits chip image)
          (w : hid.World)
          → ((a : ℕ)
              → a < image.flash_size_b
              → chip.flash (cable.device w).hw a ≡ image.firmware_buffer a)
          → (cable.device w).report_in_free ≡ true
          → length (cable.pending w) < fuel
          → (v : hid.World) × ((if opt_verify
                  then verify_firmware hid image fuel stack
                  else pure true)
                w
              ≡ done true v)
            × (chip.flash (cable.device v).hw ≡ chip.flash (cable.device w).hw)
      verified false fuel stack image fit w content free enough = (w, refl, refl)
      verified true fuel stack image fit w content free enough =
          let (b, v, runs, iff, kept) =
            verify_firmware_lem chip hid cable laws image fit fuel stack w free enough in
          (v, runs ∙ ap (λ (ok : Bool). done ok v) (iff.1 (λ a below h. content a h)), kept)

      -- Over a cable that loses nothing, to a chip with fixed ID registers and a free IN buffer, and
      -- with fuel for the unread reports and one for each page: without the option for the reset, with
      -- or without the verification, and with a file whose image fits the board and has the chip's
      -- signature, the program ends with status 0, and the application section holds the image, byte for
      -- byte.
      pub program-writes :
          (opt_verify : Bool) (fuel : ℕ) (stack : Memory) (file : Option (List Memory))
          (image : Image) (fit : Fits chip image) (w : hid.World)
          → read_file file ≡ loaded image
          → same_signature hid image.mcu_signature (id 0 ∷ id 1 ∷ id 2 ∷ id 3 ∷ []) ≡ true
          → (cable.device w).report_in_free ≡ true
          → length (cable.pending w) + fit.pages < fuel
          → (v : hid.World) × (program hid opt_verify false fuel stack file w ≡ done 0 v)
            × ((a : ℕ)
                → a < image.flash_size_b
                → chip.flash (cable.device v).hw a ≡ image.firmware_buffer a)
      unfolding program update_target reset_target
      program-writes opt_verify fuel stack file image fit w reads matches free enough =
          let (target, u, info, ids, quiet) =
            get_bootloader_info_lem fuel stack w free (omega (arith, enough)) in
          let same : same_signature hid image.mcu_signature target.target_mcu_id ≡ true =
            ap (same_signature hid image.mcu_signature) ids ∙ matches in
          let (v, updates, content, free_v, none_left) =
            update_firmware-writes chip hid cable laws image fit fuel stack u quiet.free
              (omega (arith, enough, ap (λ (r : List Memory). length r) quiet.nothing_left)) in
          let (t, verifies, kept) =
            verified opt_verify fuel stack image fit v content free_v
              (omega (arith, enough, ap (λ (r : List Memory). length r) none_left)) in
          (
            t,
            bind_done (get_bootloader_info hid fuel stack no_target) _ info
                ∙ rw (reads, same)
                    (bind_done (update_firmware hid image fuel stack) _ updates
                      ∙ bind_done
                          (if opt_verify then verify_firmware hid image fuel stack else pure true) _
                          verifies),
            λ a h. ap (λ (m : Memory). m a) kept ∙ content a h,
          )
