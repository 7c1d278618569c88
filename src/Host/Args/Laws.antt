-- ===== src/Host/Args/Laws.antt =====
-- Which command lines are taken, and what they set.
use hid_bootloader.Base.{
  ℕ, u16, ◌==◌, ◌≡◌, refl, arith, Bool, true, false, if◌then◌else◌, ◌||◌, List, [], ◌∷◌, Option,
  none, some,
}
use hid_bootloader.Host.Args.{Args, no_args, too_big, parse_options, parse_arguments, parse_args}

abbrev pub has : ℕ → List ℕ → Bool
has c [] = false
has c (d ∷ ds) = d == c || has c ds

module _ {Text : Type 0} where
  -- What the options say, whatever their order.
  abbrev pub with_options : List ℕ → Args Text → Args Text
  with_options options a = record a {
    opt_reset = has b'r' options || a.opt_reset;
    opt_quiet = has b'q' options || has b's' options || a.opt_quiet;
    opt_silent = has b's' options || a.opt_silent;
    opt_verify = has b'v' options || a.opt_verify;
  }

  parse_options_lem :
      (options : List ℕ) (a : Args Text)
      → parse_options options a ≡ (if has b'?' options then none else some (with_options options a))
  unfolding parse_options
  parse_options_lem [] a = refl
  parse_options_lem (c ∷ options) a = ground (
    arith,
    parse_options_lem options a,
    parse_options_lem options (record a { opt_reset = true }),
    parse_options_lem options (record a { opt_quiet = true }),
    parse_options_lem options (record a { opt_silent = true; opt_quiet = true }),
    parse_options_lem options (record a { opt_verify = true }),
  )

  module _ (strtol : Text → ℕ) where
    -- The command lines that are taken have three arguments, of which the first two are numbers up to
    -- 0xFFFF or negative, and no option that getopt does not know.
    abbrev pub described : List ℕ → List Text → Option (Args Text)
    described options (v ∷ p ∷ f ∷ []) =
        if has b'?' options || too_big (strtol v) || too_big (strtol p)
        then none
        else some (record (with_options options no_args) {
          vid = u16 (strtol v);
          pid = u16 (strtol p);
          hexfile = some f;
        })
    described options _ = none

    -- parse_args takes exactly these command lines, sets an option exactly if it is given, in whatever
    -- order, -s sets also what -q sets, and keeps the low 16 bits of the two numbers.
    pub parse_args_lem :
        (options : List ℕ) (args : List Text)
        → parse_args strtol options args no_args ≡ described options args
    unfolding parse_args parse_arguments
    parse_args_lem options [] = ground (arith, parse_options_lem options no_args)
    parse_args_lem options (v ∷ []) = ground (arith, parse_options_lem options no_args)
    parse_args_lem options (v ∷ p ∷ []) = ground (arith, parse_options_lem options no_args)
    parse_args_lem options (v ∷ p ∷ f ∷ []) = ground (arith, parse_options_lem options no_args)
    parse_args_lem options (v ∷ p ∷ f ∷ more ∷ args) =
        ground (arith, parse_options_lem options no_args)
