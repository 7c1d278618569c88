-- ===== src/Host/Session.antt =====
-- GetBootloaderInfo, and main from the open device on, of pc/hid_bootloader/hid_bootloader.c.
use hid_bootloader.Base.{
  ℕ, ◌==◌, if◌then◌else◌, Memory, write, Bool, true, false, not, ◌&&◌, List, [], ◌∷◌, Option, none,
  some,
}
use hid_bootloader.Protocol
use hid_bootloader.Protocol.{BlCommand}
use hid_bootloader.Host.{
  Hid, ◌>>=◌, pure, undefined, Image, M, execute_hid_command, execute_hid_command_with_response,
}
use hid_bootloader.Host.Update.{update_firmware, verify_firmware}
use hid_bootloader.IntelHex.{Loaded, loaded, refused, outside, read_hex_file}

-- The globals that GetBootloaderInfo fills in.
pub record Target : Type 0 where
  pub target_mcu_id : List ℕ
  pub target_mcu_fuses : List ℕ

abbrev pub no_target : Target
no_target = record {
  target_mcu_id = 0 ∷ 0 ∷ 0 ∷ 0 ∷ [];
  target_mcu_fuses = 0 ∷ 0 ∷ 0 ∷ 0 ∷ 0 ∷ 0 ∷ [];
}

abbrev pub plain : ℕ → BlCommand
plain command = record { command = command; u32 = 0 }

-- ReadHexFile, which fails if the file does not open.
abbrev pub read_file : Option (List Memory) → Loaded
read_file none = refused
read_file (some lines) = read_hex_file lines

module _ (hid : Hid) where
  unfoldable pub get_bootloader_info :
      ℕ → Memory → Target → M hid (record { ok : Bool; target : Target })
  get_bootloader_info fuel stack target = do
    serial ← execute_hid_command_with_response hid fuel (plain Protocol.cmd_read_serial) stack
    if not serial.ok then pure (record { ok = false; target = target }) else do
      ids ←
          execute_hid_command_with_response hid fuel (plain Protocol.cmd_read_mcu_ids)
            (write serial.buffer 64 0)
      if not ids.ok then pure (record { ok = false; target = target }) else do
        let id = ids.buffer
        let known = record target { target_mcu_id = id 0 ∷ id 1 ∷ id 2 ∷ id 3 ∷ [] }
        fuses ← execute_hid_command_with_response hid fuel (plain Protocol.cmd_read_fuses) id
        if not fuses.ok then pure (record { ok = false; target = known }) else do
          let f = fuses.buffer
          pure (record {
            ok = true;
            target = record known { target_mcu_fuses = f 0 ∷ f 1 ∷ f 2 ∷ f 3 ∷ f 4 ∷ f 5 ∷ [] };
          })

  -- memcmp (a, b, 3) == 0
  abbrev pub same_signature : List ℕ → List ℕ → Bool
  same_signature (a ∷ b ∷ c ∷ _) (a' ∷ b' ∷ c' ∷ _) = a == a' && b == b' && c == c'
  same_signature _ _ = false

  -- The reset at the end of main. Its failure ends in `return false`, which is 0.
  unfoldable pub reset_target : Bool → M hid ℕ
  reset_target opt_reset = if not opt_reset then pure 0 else do
    reset ← execute_hid_command hid (plain Protocol.cmd_reset_mcu)
    if not reset then pure 0 else pure 0

  -- main from the comparison of the signatures on.
  unfoldable pub update_target :
      (opt_verify opt_reset : Bool) → ℕ → Memory → Image → Target → M hid ℕ
  update_target opt_verify opt_reset fuel stack image target =
      if not (same_signature image.mcu_signature target.target_mcu_id) then pure 1 else do
        updated ← update_firmware hid image fuel stack
        if not updated then pure 1 else do
          verified ← (if opt_verify then verify_firmware hid image fuel stack else pure true)
          if not verified then pure 1 else reset_target opt_reset

  -- main from the open device on: `file` has the lines of the HEX file, if that opens.
  unfoldable pub program :
      (opt_verify opt_reset : Bool) → ℕ → Memory → Option (List Memory) → M hid ℕ
  program opt_verify opt_reset fuel stack file = do
    info ← get_bootloader_info fuel stack no_target
    if not info.ok then pure 1 else (elim (read_file file) [
      | refused ↦ pure 1
      | outside ↦ undefined
      | loaded image ↦ update_target opt_verify opt_reset fuel stack image info.target
    ])
