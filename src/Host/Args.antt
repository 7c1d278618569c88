-- ===== src/Host/Args.antt =====
-- parse_args of pc/hid_bootloader/hid_bootloader.c, and the opening of main.
pub mod Laws
use hid_bootloader.Base.{
  ℕ, zero, suc, ◌+◌, ◌%◌, ◌^◌, u16, ◌==◌, ltb, Bool, true, false, not, if◌then◌else◌, ◌&&◌, Memory,
  List, [], ◌∷◌, Option, none, some,
}
use hid_bootloader.Host.{Hid, M, pure}
use hid_bootloader.Host.Session.{program}

-- The globals that the command line sets; `vid` and `pid` are unsigned short.
pub record Args (Text : Type 0) : Type 0 where
  pub opt_reset : Bool
  pub opt_quiet : Bool
  pub opt_silent : Bool
  pub opt_verify : Bool
  pub vid : ℕ
  pub pid : ℕ
  pub hexfile : Option Text

abbrev pub no_args : {Text : Type 0} → Args Text
no_args = record {
  opt_reset = false;
  opt_quiet = false;
  opt_silent = false;
  opt_verify = false;
  vid = 0;
  pid = 0;
  hexfile = none;
}

-- temp > 0xFFFF, for a long of 32 bits in two's complement.
abbrev pub too_big : ℕ → Bool
too_big temp = ltb 0xFFFF temp && ltb temp (2 ^ 31)

module _ {Text : Type 0} where
  -- The loop over the options, with what getopt returns before -1. `none` is `return 1`.
  unfoldable pub parse_options : List ℕ → Args Text → Option (Args Text)
  parse_options [] a = some a
  parse_options (c ∷ options) a =
      let rest = parse_options options in
      if c == b'r'
      then rest (record a { opt_reset = true })
      else if c == b'q'
      then rest (record a { opt_quiet = true })
      else if c == b's'
      then rest (record a { opt_silent = true; opt_quiet = true })
      else if c == b'v'
      then rest (record a { opt_verify = true })
      else if c == b'?'
      then none
      else rest a

  module _ (strtol : Text → ℕ) where
    -- The loop over the other arguments, with `j` of them behind.
    unfoldable pub parse_arguments : ℕ → List Text → Args Text → Option (ℕ × Args Text)
    parse_arguments j [] a = some (j, a)
    parse_arguments j (arg ∷ args) a =
        let rest = parse_arguments (j + 1) args in
        if j == 0
        then (if too_big (strtol arg) then none else rest (record a { vid = u16 (strtol arg) }))
        else if j == 1
        then (if too_big (strtol arg) then none else rest (record a { pid = u16 (strtol arg) }))
        else if j == 2
        then rest (record a { hexfile = some arg })
        else none

    -- parse_args, with the options and the other arguments as getopt sorts them.
    unfoldable pub parse_args : List ℕ → List Text → Args Text → Option (Args Text)
    unfolding parse_options parse_arguments
    parse_args options args a = elim (parse_options options a) [
      | none ↦ none
      | some a1 ↦ elim (parse_arguments 0 args a1) [
        | none ↦ none
        | some o ↦ if ltb o.0 3 then none else some o.1
      ]
    ]

    module _ (hid : Hid) (hid_open : ℕ → ℕ → Bool)
        (lines : Option Text → Option (List Memory)) where
      -- main behind parse_args.
      unfoldable pub run : ℕ → Memory → Option (Args Text) → M hid ℕ
      run fuel stack none = pure 1
      run fuel stack (some a) =
          if not (hid_open a.vid a.pid)
          then pure 1
          else program hid a.opt_verify a.opt_reset fuel stack (lines a.hexfile)

      -- main: `hid_open` tells whether the device is found, and `lines` are those of a file that opens.
      unfoldable pub main : ℕ → Memory → List ℕ → List Text → M hid ℕ
      unfolding parse_args run
      main fuel stack options args = run fuel stack (parse_args options args no_args)
