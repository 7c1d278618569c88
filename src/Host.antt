-- ===== src/Host.antt =====
-- pc/hid_bootloader/hid_bootloader.c: the commands that the host sends through HIDAPI, and what it
-- does with them. What is printed is left out.
pub mod Update
pub mod Assemble
pub mod Polling
pub mod Session
pub mod Args
pub mod Tests
use hid_bootloader.Base.{
  ℕ, zero, suc, ◌+◌, ◌-◌, ◌*◌, ◌/◌, ◌%◌, ◌^◌, bit_or, ltb, leb, ◌==◌, if◌then◌else◌, ◌&&◌, ◌||◌,
  not, Memory, copy, write, get_or, List, [], ◌∷◌, Bool, true, false, Option, none, some, ◌≡◌, ap,
}
use hid_bootloader.Protocol
use hid_bootloader.Protocol.{BlCommand, command_bytes, set_u16_0, status_of}

-- An open device of HIDAPI. A result `none` is the -1 of its functions.
pub record Hid : Type 1 where
  -- the operating system, the cable and the device
  pub World : Type 0
  pub hid_send_feature_report : List ℕ → World → Option ℕ × World
  -- the result, and the bytes behind the report number
  pub hid_get_feature_report : World → Option ℕ × List ℕ × World
  pub hid_write : Memory → World → Option ℕ × World
  -- the timeout in ms and the buffer before; the result and the buffer after
  pub hid_read_timeout : ℕ → Memory → World → Option ℕ × Memory × World

-- How a run ends: with a value, in undefined behaviour (a read outside an array, a division by
-- zero), or without end as far as the fuel shows.
pub data Outcome (W A : Type 0) : Type 0 where
  done : A → W → Outcome W A
  fault spinning : Outcome W A

infixl 5 ◌>>=◌
abbrev pub ◌>>=◌ : {W A B : Type 0} → (W → Outcome W A) → (A → W → Outcome W B) → W → Outcome W B
◌>>=◌ m f w = elim (m w) [ done a w' ↦ f a w' | fault ↦ fault | spinning ↦ spinning ]

-- A step that is done hands its value on.
pub bind_done :
    {W A B : Type 0} (m : W → Outcome W A) (f : A → W → Outcome W B) {w w' : W} {a : A}
    → m w ≡ done a w'
    → (m >>= f) w ≡ f a w'
bind_done m f h = ap (λ o. elim o [ done a w' ↦ f a w' | fault ↦ fault | spinning ↦ spinning ]) h

abbrev pub pure : {W A : Type 0} → A → W → Outcome W A
pure a w = done a w

abbrev pub undefined : {W A : Type 0} → W → Outcome W A
undefined w = fault

-- res == n for an `int` result
abbrev pub is_count : ℕ → Option ℕ → Bool
is_count n none = false
is_count n (some m) = m == n

abbrev pub is_minus_one : Option ℕ → Bool
is_minus_one none = true
is_minus_one (some m) = false

abbrev pub is_positive : Option ℕ → Bool
is_positive none = false
is_positive (some m) = ltb 0 m

abbrev pub firmware_buffer_size : ℕ
firmware_buffer_size = (512 + 8) * 512

abbrev pub hid_data_bytes : ℕ
hid_data_bytes = 64

-- The globals of intel_hex.c that the update reads. `fw_info` points into the buffer, which does not
-- change after loading: its fields are kept beside it.
pub record Image : Type 0 where
  pub firmware_buffer : Memory
  pub firmware_crc : ℕ
  pub flash_size_b : ℕ
  pub page_size_b : ℕ
  pub mcu_signature : List ℕ

module _ (hid : Hid) where
  abbrev pub M : Type 0 → Type 0
  M A = hid.World → Outcome hid.World A

  abbrev pub send : List ℕ → M (Option ℕ)
  send bytes w = let (res, w') = hid.hid_send_feature_report bytes w in done res w'

  abbrev pub get_feature : M (record { res : Option ℕ; bytes : List ℕ })
  get_feature w =
      let (r, b, w') = hid.hid_get_feature_report w in done (record { res = r; bytes = b }) w'

  abbrev pub write_report : Memory → M (Option ℕ)
  write_report buffer w = let (res, w') = hid.hid_write buffer w in done res w'

  abbrev pub read_report : ℕ → Memory → M (record { res : Option ℕ; buffer : Memory })
  read_report timeout buffer w =
      let (r, b, w') = hid.hid_read_timeout timeout buffer w in
      done (record { res = r; buffer = b }) w'

  -- CheckBusy
  unfoldable pub check_busy : M Bool
  unfolding status_of
  check_busy = do
    reply ← get_feature
    pure (is_count 6 reply.res && ((status_of reply.bytes).busy_flags == 0))

  -- The loop of WaitNotBusy with the value of `timeout`, which starts above 0.
  unfoldable pub wait_loop : ℕ → M Bool
  wait_loop zero w = done false w
  wait_loop (suc timeout) w =
      let again = wait_loop timeout in
      (do
        busy ← check_busy
        if busy then (if timeout == 0 then pure false else again) else pure true)
        w

  -- WaitNotBusy
  unfoldable pub wait_not_busy : M Bool
  unfolding wait_loop
  wait_not_busy = wait_loop 100

  -- ExecuteHIDCommand
  unfoldable pub execute_hid_command : BlCommand → M Bool
  unfolding command_bytes status_of
  execute_hid_command cmd = do
    res ← send (command_bytes cmd)
    if is_minus_one res then pure false else do
      reply ← get_feature
      if not (is_count 5 reply.res) || not ((status_of reply.bytes).result == 0)
          then pure false
          else pure true

  -- `while ((hid_read_timeout (handle, buffer, buffer_size, 0)) > 0);`
  unfoldable pub drain : ℕ → Memory → M Memory
  drain zero buffer w = spinning
  drain (suc fuel) buffer w =
      let again = drain fuel in
      (do
        reply ← read_report 0 buffer
        if is_positive reply.res then again reply.buffer else pure reply.buffer)
        w

  -- ExecuteHIDCommandWithResponse: the result, and the caller's buffer.
  unfoldable pub execute_hid_command_with_response :
      ℕ → BlCommand → Memory → M (record { ok : Bool; buffer : Memory })
  execute_hid_command_with_response fuel cmd buffer = do
    drained ← drain fuel buffer
    executed ← execute_hid_command cmd
    if not executed then pure (record { ok = false; buffer = drained }) else do
      reply ← read_report 100 drained
      if is_minus_one reply.res || is_count 0 reply.res
          then pure (record { ok = false; buffer = reply.buffer })
          else pure (record { ok = true; buffer = reply.buffer })

  -- A command followed by the wait, as `(!ExecuteHIDCommand (…)) || (!WaitNotBusy (…))` runs them.
  unfoldable pub execute_and_wait : BlCommand → M Bool
  execute_and_wait cmd = do
    executed ← execute_hid_command cmd
    if executed then wait_not_busy else pure false
