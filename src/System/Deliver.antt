-- ===== src/System/Deliver.antt =====
-- What one exchange over the cable does: a command with its status, the wait, and a command with its
-- reply.
use mathlib.Core.List.{tail}
use hid_bootloader.Base.{
  ℕ, zero, suc, ◌≤◌, ◌<◌, ◌≡◌, refl, ap, ◌∙◌, arith, Memory, true, false, if◌then◌else◌, Option,
  List, [], ◌∷◌, ◌++◌, length,
}
use hid_bootloader.Protocol.{BlCommand, command_bytes, status_of, status_bytes}
use hid_bootloader.Chip.{Chip}
use hid_bootloader.Firmware.{Device, hid_get_feature_report_out, hid_set_feature_report_out}
use hid_bootloader.Host.{
  Hid, done, bind_done, check_busy, wait_not_busy, execute_hid_command, drain,
  execute_hid_command_with_response, execute_and_wait,
}
use hid_bootloader.System.{Cable, delivered, queued}

module _ (chip : Chip) (hid : Hid) (cable : Cable chip hid) where
  -- The device after a command, before its status is read.
  abbrev pub handled : BlCommand → hid.World → Device chip
  handled c w =
      hid_set_feature_report_out chip (tail (command_bytes c)) (cable.stack w) (cable.device w)

  abbrev pub refreshed : Device chip → Device chip
  refreshed d = (hid_get_feature_report_out chip d).1

  refreshed_result :
      (d : Device chip)
      → (status_of (hid_get_feature_report_out chip d).0).result ≡ d.feature_response.result
  unfolding hid_get_feature_report_out status_of status_bytes
  refreshed_result d = refl

  -- A command that the device carries out with result 0 is reported as executed.
  pub execute_hid_command_lem :
      (c : BlCommand) (w : hid.World)
      → (handled c w).feature_response.result ≡ 0
      → (v : hid.World) × (execute_hid_command hid c w ≡ done true v)
        × (cable.device v ≡ refreshed (delivered (handled c w)))
        × (cable.pending v ≡ queued (handled c w) (cable.pending w))
  unfolding execute_hid_command
  execute_hid_command_lem c w ok =
      let w1 : hid.World = (hid.hid_send_feature_report (command_bytes c) w).1 in
      let v : hid.World = (hid.hid_get_feature_report w1).2 in
      let zero_result : (status_of (hid.hid_get_feature_report w1).1).result ≡ 0 =
        ap (λ t. (status_of t).result) (cable.get_bytes w1)
        ∙ refreshed_result (cable.device w1)
        ∙ ap (λ (t : Device chip). t.feature_response.result)
            (cable.send_device (command_bytes c) w)
        ∙ ok in
      (
        v,
        rw (cable.send_result (command_bytes c) w, cable.get_result w1, zero_result),
        cable.get_device w1 ∙ ap refreshed (cable.send_device (command_bytes c) w),
        cable.get_pending w1 ∙ cable.send_pending (command_bytes c) w,
      )

  -- The wait ends at its first poll: the reply has five bytes, and the test for busy wants six.
  pub wait_not_busy_lem :
      (w : hid.World)
      → (v : hid.World) × (wait_not_busy hid w ≡ done true v)
        × (cable.device v ≡ refreshed (cable.device w))
        × (cable.pending v ≡ cable.pending w)
  unfolding wait_not_busy check_busy
  wait_not_busy_lem w = (
    (hid.hid_get_feature_report w).2,
    rw (cable.get_result w),
    cable.get_device w,
    cable.get_pending w,
  )

  drain_from :
      (fuel : ℕ) (buffer : Memory) (w : hid.World) (q : List Memory)
      → cable.pending w ≡ q
      → length q < fuel
      → (b : Memory) × (v : hid.World) × (drain hid fuel buffer w ≡ done b v)
        × (cable.device v ≡ cable.device w)
        × (cable.pending v ≡ [])
  unfolding drain
  drain_from zero buffer w q e h = absurd (omega arith)
  drain_from (suc fuel) buffer w [] e h =
      let out : Option ℕ × Memory × hid.World = hid.hid_read_timeout 0 buffer w in
      let empty = cable.read_empty 0 buffer w e in
      (out.1, out.2, rw empty.0, cable.read_device 0 buffer w, empty.1)
  drain_from (suc fuel) buffer w (r ∷ q) e h =
      let out : Option ℕ × Memory × hid.World = hid.hid_read_timeout 0 buffer w in
      let front = cable.read_next 0 buffer w r q e in
      let (b, v, runs, dev, none_left) = drain_from fuel out.1 out.2 q front.2 (omega arith) in
      (b, v, rw front.0 runs, dev ∙ cable.read_device 0 buffer w, none_left)

  -- With fuel for every unread report, draining leaves none, and the device as it was.
  pub drain_lem :
      (fuel : ℕ) (buffer : Memory) (w : hid.World)
      → length (cable.pending w) < fuel
      → (b : Memory) × (v : hid.World) × (drain hid fuel buffer w ≡ done b v)
        × (cable.device v ≡ cable.device w)
        × (cable.pending v ≡ [])
  drain_lem fuel buffer w h = drain_from fuel buffer w (cable.pending w) refl h

  -- A command that sends one report, of which the first `n` bytes are known, gives them to the caller,
  -- whatever was unread before. The handler runs at the device as it stood.
  pub with_response_lem :
      (fuel : ℕ) (c : BlCommand) (buffer : Memory) (w : hid.World) (n : ℕ) (report : Memory)
      → n ≤ 64
      → length (cable.pending w) < fuel
      → ((v : hid.World)
          → cable.device v ≡ cable.device w
          → ((handled c v).feature_response.result ≡ 0)
            × ((handled c v).report_in_free ≡ false)
            × ((i : ℕ) → i < n → (handled c v).report_in i ≡ report i))
      → (b : Memory) × (u : hid.World) × (v : hid.World) × (execute_hid_command_with_response hid
            fuel c buffer w
          ≡ done (record { ok = true; buffer = b }) v)
        × ((i : ℕ) → i < n → b i ≡ report i)
        × (cable.device u ≡ cable.device w)
        × (cable.device v ≡ refreshed (delivered (handled c u)))
        × (cable.pending v ≡ [])
  unfolding execute_hid_command_with_response
  with_response_lem fuel c buffer w n report fits h effect =
      let (b, u, drains, same, none_left) = drain_lem fuel buffer w h in
      let (ok, busy, content) = effect u same in
      let (v, executes, dev, queue) = execute_hid_command_lem c u ok in
      let r : Memory = (handled c u).report_in in
      let one : cable.pending v ≡ r ∷ [] =
        queue
        ∙ ap (λ f. if f then cable.pending u else cable.pending u ++ r ∷ []) busy
        ∙ ap (λ q. q ++ r ∷ []) none_left in
      let out : Option ℕ × Memory × hid.World = hid.hid_read_timeout 100 b v in
      let front = cable.read_next 100 b v r [] one in
      (
        out.1,
        u,
        out.2,
        bind_done (drain hid fuel buffer) _ drains
            ∙ bind_done (execute_hid_command hid c) _ executes
            ∙ rw front.0,
        λ i k. front.1 i (omega arith) ∙ content i k,
        same,
        cable.read_device 100 b v ∙ dev,
        front.2,
      )

  -- A command with the wait behind it.
  pub execute_and_wait_lem :
      (c : BlCommand) (w : hid.World)
      → (handled c w).feature_response.result ≡ 0
      → (v : hid.World) × (execute_and_wait hid c w ≡ done true v)
        × (cable.device v ≡ refreshed (refreshed (delivered (handled c w))))
        × (cable.pending v ≡ queued (handled c w) (cable.pending w))
  unfolding execute_and_wait
  execute_and_wait_lem c w ok =
      let (u, executes, dev, queue) = execute_hid_command_lem c w ok in
      let (v, waits, dev', queue') = wait_not_busy_lem u in
      (
        v,
        bind_done (execute_hid_command hid c) _ executes ∙ waits,
        dev' ∙ ap refreshed dev,
        queue' ∙ queue,
      )
