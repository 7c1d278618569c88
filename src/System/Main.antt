-- ===== src/System/Main.antt =====
-- The whole run of the host's program, from its command line on.
use hid_bootloader.Base.{
  ℕ, ◌+◌, ◌<◌, ◌≡◌, refl, ap, ◌∙◌, u16, Memory, Bool, true, false, ◌||◌, Option, none, some, List,
  [], ◌∷◌, length,
}
use hid_bootloader.Chip.{Chip}
use hid_bootloader.Host.{Hid, done, Image}
use hid_bootloader.Host.Session.{program, read_file, same_signature}
use hid_bootloader.Host.Args.{Args, no_args, too_big, parse_args, run, main}
use hid_bootloader.Host.Args.Laws.{has, with_options, described, parse_args_lem}
use hid_bootloader.IntelHex.{loaded}
use hid_bootloader.System.{Cable, FlashLaws, Fits}
use hid_bootloader.System.Session.{program-writes}

module _ {Text : Type 0} (strtol : Text → ℕ) (hid : Hid) (hid_open : ℕ → ℕ → Bool)
    (lines : Option Text → Option (List Memory)) where
  -- The values that the command line sets.
  abbrev set_by : List ℕ → Text → Text → Text → Args Text
  set_by options v p f = record (with_options options no_args) {
    vid = u16 (strtol v);
    pid = u16 (strtol p);
    hexfile = some f;
  }

  described-set_by :
      (options : List ℕ) (v p f : Text)
      → has b'?' options ≡ false
      → too_big (strtol v) ≡ false
      → too_big (strtol p) ≡ false
      → parse_args strtol options (v ∷ p ∷ f ∷ []) no_args ≡ some (set_by options v p f)
  described-set_by options v p f known small_v small_p =
      parse_args_lem strtol options (v ∷ p ∷ f ∷ []) ∙ rw (known, small_v, small_p) refl

  run_found :
      (fuel : ℕ) (stack : Memory) (a : Args Text) (w : hid.World)
      → hid_open a.vid a.pid ≡ true
      → run strtol hid hid_open lines fuel stack (some a) w
        ≡ program hid a.opt_verify a.opt_reset fuel stack (lines a.hexfile) w
  unfolding run
  run_found fuel stack a w found = rw found refl

  run_refused :
      (fuel : ℕ) (stack : Memory) (w : hid.World)
      → run strtol hid hid_open lines fuel stack none w ≡ done 1 w
  unfolding run
  run_refused fuel stack w = refl

  run_absent :
      (fuel : ℕ) (stack : Memory) (a : Args Text) (w : hid.World)
      → hid_open a.vid a.pid ≡ false
      → run strtol hid hid_open lines fuel stack (some a) w ≡ done 1 w
  unfolding run
  run_absent fuel stack a w absent = rw absent refl

  main_taken :
      (options : List ℕ) (v p f : Text) (fuel : ℕ) (stack : Memory) (w : hid.World)
      → has b'?' options ≡ false
      → too_big (strtol v) ≡ false
      → too_big (strtol p) ≡ false
      → hid_open (u16 (strtol v)) (u16 (strtol p)) ≡ true
      → main strtol hid hid_open lines fuel stack options (v ∷ p ∷ f ∷ []) w
        ≡ program hid
            (set_by options v p f).opt_verify
            (set_by options v p f).opt_reset
            fuel
            stack
            (lines (some f))
            w
  unfolding main
  main_taken options v p f fuel stack w known small_v small_p found =
      ap (λ o. run strtol hid hid_open lines fuel stack o w)
        (described-set_by options v p f known small_v small_p)
      ∙ run_found fuel stack (set_by options v p f) w found

  -- The program ends with status 1, and has sent nothing, if the command line is not one of those that
  -- parse_args takes, or if there is no device with its numbers.
  pub main_refused :
      (options : List ℕ) (args : List Text) (fuel : ℕ) (stack : Memory) (w : hid.World)
      → ((a : Args Text) → described strtol options args ≡ some a → hid_open a.vid a.pid ≡ false)
      → main strtol hid hid_open lines fuel stack options args w ≡ done 1 w
  unfolding main
  main_refused options args fuel stack w absent =
      ap (λ o. run strtol hid hid_open lines fuel stack o w) (parse_args_lem strtol options args)
      ∙ refused (described strtol options args) absent
    where
      refused :
          (o : Option (Args Text))
          → ((a : Args Text) → o ≡ some a → hid_open a.vid a.pid ≡ false)
          → run strtol hid hid_open lines fuel stack o w ≡ done 1 w
      refused none h = run_refused fuel stack w
      refused (some a) h = run_absent fuel stack a w (h a refl)

  module _ (chip : Chip) (laws : FlashLaws chip) (cable : Cable chip hid) (id : ℕ → ℕ)
      (fixed : (h : chip.Hw) (i : ℕ) → chip.mcu_id h i ≡ id i) where
    -- Over a cable that loses nothing, to a chip with fixed ID registers and a free IN buffer, and with
    -- fuel for the unread reports and one for each page: main with the numbers of a device that is found
    -- and a file whose image fits the board and has the chip's signature, with any known options but -r,
    -- ends with status 0, and the application section holds the image, byte for byte.
    pub main-writes :
        (options : List ℕ) (v p f : Text) (fuel : ℕ) (stack : Memory) (image : Image)
        (fit : Fits chip image) (w : hid.World)
        → has b'?' options ≡ false
        → has b'r' options ≡ false
        → too_big (strtol v) ≡ false
        → too_big (strtol p) ≡ false
        → hid_open (u16 (strtol v)) (u16 (strtol p)) ≡ true
        → read_file (lines (some f)) ≡ loaded image
        → same_signature hid image.mcu_signature (id 0 ∷ id 1 ∷ id 2 ∷ id 3 ∷ []) ≡ true
        → (cable.device w).report_in_free ≡ true
        → length (cable.pending w) + fit.pages < fuel
        → (t : hid.World) × (main strtol hid hid_open lines fuel stack options (v ∷ p ∷ f ∷ []) w
            ≡ done 0 t)
          × ((a : ℕ)
              → a < image.flash_size_b
              → chip.flash (cable.device t).hw a ≡ image.firmware_buffer a)
    main-writes options v p f fuel stack image fit w known stays small_v small_p found reads matches
          free enough =
        let (t, runs, content) =
          program-writes chip laws hid cable id fixed (has b'v' options || false) fuel stack
            (lines (some f)) image fit w reads matches free enough in
        let no_reset : has b'r' options || false ≡ false = rw stays refl in
        (
          t,
          main_taken options v p f fuel stack w known small_v small_p found
              ∙ ap (λ r. program hid (has b'v' options || false) r fuel stack (lines (some f)) w)
                  no_reset
              ∙ runs,
          content,
        )
