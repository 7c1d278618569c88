-- ===== src/Host/Tests.antt =====
-- The host's theorems at a device that answers every poll like one that is not busy.
use hid_bootloader.Base.{
  suc, ℕ, ◌+◌, ◌<◌, ◌≡◌, ◌↔◌, Memory, Bool, true, false, none, some, [], ◌∷◌, get_or,
}
use hid_bootloader.Host.{Hid, done, wait_not_busy}
use hid_bootloader.Host.Polling.{polled, idle, wait_not_busy_iff}

-- The state counts the polls.
abbrev counting : Hid
counting = record {
  World = ℕ;
  hid_send_feature_report = λ b w. (none, w);
  hid_get_feature_report = λ w. (some 6, 1 ∷ 0 ∷ 0 ∷ 0 ∷ 0 ∷ [], w + 1);
  hid_write = λ b w. (none, w);
  hid_read_timeout = λ t b w. (none, b, w);
}

wait_not_busy_iff_example :
    ((b : Bool) × (v : ℕ) × (wait_not_busy counting 0 ≡ done b v)
      × ((b ≡ false) ↔ ((k : ℕ) → k < 100 → idle counting (polled counting k 0) ≡ true)))
    × (((k : ℕ) → k < 100 → idle counting (polled counting k 0) ≡ true)
        → wait_not_busy counting 0 ≡ done false (polled counting 100 0))
    × ((k : ℕ)
        → k < 100
        → ((j : ℕ) → j < k → idle counting (polled counting j 0) ≡ true)
        → idle counting (polled counting k 0) ≡ false
        → wait_not_busy counting 0 ≡ done true (polled counting (suc k) 0))
wait_not_busy_iff_example = wait_not_busy_iff counting 0

abbrev crc_reply : Memory
crc_reply i = get_or (0x0E ∷ 0xC2 ∷ 0x03 ∷ 0x00 ∷ []) i 0xFF
