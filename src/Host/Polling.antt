-- ===== src/Host/Polling.antt =====
-- WaitNotBusy of pc/hid_bootloader/hid_bootloader.c: when it ends, and with what.
use Prim.{absurd}
use hid_bootloader.Base.{
  ℕ, zero, suc, ◌<◌, ◌≡◌, ◌↔◌, refl, sym, ◌∙◌, arith, Bool, true, false, ◌&&◌, ◌==◌, Bool-cases,
  ==_ne, inl, inr,
}
use hid_bootloader.Protocol.{status_of}
use hid_bootloader.Host.{Hid, done, bind_done, is_count, check_busy, wait_loop, wait_not_busy}

module _ (hid : Hid) where
  -- The world after a number of polls.
  abbrev pub polled : ℕ → hid.World → hid.World
  polled zero w = w
  polled (suc k) w = polled k (hid.hid_get_feature_report w).2

  -- A poll is answered by six bytes without a busy flag.
  abbrev pub idle : hid.World → Bool
  idle w =
      is_count 6 (hid.hid_get_feature_report w).0
      && ((status_of (hid.hid_get_feature_report w).1).busy_flags == 0)

  check_busy_lem :
      (w : hid.World) → check_busy hid w ≡ done (idle w) (hid.hid_get_feature_report w).2
  unfolding check_busy
  check_busy_lem w = refl

  wait_loop-zero : (w : hid.World) → wait_loop hid 0 w ≡ done false w
  unfolding wait_loop
  wait_loop-zero w = refl

  -- One round of the loop, at each answer of the poll.
  wait_loop_step :
      (n : ℕ) (w : hid.World)
      → (idle w ≡ false → wait_loop hid (suc n) w ≡ done true (hid.hid_get_feature_report w).2)
        × (idle w ≡ true
            → wait_loop hid (suc n) w ≡ wait_loop hid n (hid.hid_get_feature_report w).2)
  unfolding wait_loop
  wait_loop_step zero w = (
    λ h. bind_done (check_busy hid) _ (check_busy_lem w) ∙ rw h refl,
    λ h. bind_done (check_busy hid) _ (check_busy_lem w) ∙ rw h refl,
  )
  wait_loop_step (suc n) w = (
    λ h. bind_done (check_busy hid) _ (check_busy_lem w) ∙ rw h refl,
    λ h.
        bind_done (check_busy hid) _ (check_busy_lem w)
        ∙ rw (h, ==_ne (suc n) 0 (omega arith)) refl,
  )

  wait_loop_lem :
      (n : ℕ) (w : hid.World)
      → (b : Bool) × (v : hid.World) × (wait_loop hid n w ≡ done b v)
        × ((b ≡ false) ↔ ((k : ℕ) → k < n → idle (polled k w) ≡ true))
  wait_loop_lem zero w = (false, w, wait_loop-zero w, (λ e k h. absurd (omega arith), λ f. refl))
  wait_loop_lem (suc n) w = elim (Bool-cases (idle w)) [
    | inl answered ↦
        let (b, v, ends, gives_up) = wait_loop_lem n (hid.hid_get_feature_report w).2 in
        (
          b,
          v,
          (wait_loop_step n w).1 answered ∙ ends,
          (
            λ e. every n w answered (gives_up.0 e),
            λ f. gives_up.1 (λ k h. f (suc k) (omega arith)),
          ),
        )
    | inr other ↦ (
      true,
      (hid.hid_get_feature_report w).2,
      (wait_loop_step n w).0 other,
      (λ e. cc, λ f. absurd (true_and_false (sym (f 0 (omega arith)) ∙ other))),
    )
  ]
    where
      true_and_false : true ≡ false → ⊥
      true_and_false e = cc

      every :
          (n : ℕ) (w : hid.World)
          → idle w ≡ true
          → ((k : ℕ) → k < n → idle (polled k (hid.hid_get_feature_report w).2) ≡ true)
          → (k : ℕ) → k < suc n
          → idle (polled k w) ≡ true
      every n w h f zero lt = h
      every n w h f (suc k) lt = f k (omega arith)

  -- What the polls decide: the loop stops at the first answer of another kind, or behind the last poll.
  wait_loop_stops :
      (n k : ℕ) (w : hid.World)
      → k < n
      → ((j : ℕ) → j < k → idle (polled j w) ≡ true)
      → idle (polled k w) ≡ false
      → wait_loop hid n w ≡ done true (polled (suc k) w)
  wait_loop_stops zero k w lt before other = absurd (omega arith)
  wait_loop_stops (suc n) zero w lt before other = (wait_loop_step n w).0 other
  wait_loop_stops (suc n) (suc k) w lt before other =
      (wait_loop_step n w).1 (before 0 (omega arith))
      ∙ wait_loop_stops n k (hid.hid_get_feature_report w).2 (omega arith)
          (λ j h. before (suc j) (omega arith)) other

  wait_loop_gives_up :
      (n : ℕ) (w : hid.World)
      → ((k : ℕ) → k < n → idle (polled k w) ≡ true)
      → wait_loop hid n w ≡ done false (polled n w)
  wait_loop_gives_up zero w all = wait_loop-zero w
  wait_loop_gives_up (suc n) w all =
      (wait_loop_step n w).1 (all 0 (omega arith))
      ∙ wait_loop_gives_up n (hid.hid_get_feature_report w).2 (λ k h. all (suc k) (omega arith))

  -- WaitNotBusy ends whatever the device answers. It returns false exactly if each of its 100 polls is
  -- answered by six bytes without a busy flag, and then behind exactly 100 polls. Otherwise it returns
  -- true behind the first poll with another answer, and asks no more: a device that shows a busy flag
  -- ends the wait at once.
  pub wait_not_busy_iff :
      (w : hid.World)
      → ((b : Bool) × (v : hid.World) × (wait_not_busy hid w ≡ done b v)
          × ((b ≡ false) ↔ ((k : ℕ) → k < 100 → idle (polled k w) ≡ true)))
        × (((k : ℕ) → k < 100 → idle (polled k w) ≡ true)
            → wait_not_busy hid w ≡ done false (polled 100 w))
        × ((k : ℕ)
            → k < 100
            → ((j : ℕ) → j < k → idle (polled j w) ≡ true)
            → idle (polled k w) ≡ false
            → wait_not_busy hid w ≡ done true (polled (suc k) w))
  unfolding wait_not_busy
  wait_not_busy_iff w = (
    wait_loop_lem 100 w,
    λ all. wait_loop_gives_up 100 w all,
    λ k lt before other. wait_loop_stops 100 k w lt before other,
  )
