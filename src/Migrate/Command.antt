-- ===== src/Migrate/Command.antt =====
-- parse_options. getopt_long and atoi are the library's: their answers are arguments.
use rt_tests.Base.{
  ℕ, ◌*◌, ◌%◌, ◌^◌, ◌<◌, ◌≡◌, Bool, true, false, ◌||◌, List, [], ◌∷◌, arith, if◌then◌else◌,
}
use rt_tests.Base.Int.{ℤ, pos, negsuc, ltb_ℤ, leb_ℤ, ◌≤ℤ◌}
use rt_tests.Base.Word.{to_u64}

pub data Opt : Type 0 where
  prio run_time sleep_time loops maxerr : ℤ → Opt
  check help : Opt

pub record Config : Type 0 where
  pub prio_start : ℤ
  pub run_interval : ℕ
  pub interval : ℕ
  pub nr_runs : ℤ
  pub max_err : ℕ
  pub check : Bool

-- The initial values of the file's variables.
abbrev pub defaults : Config
defaults = record {
  prio_start = pos 2;
  run_interval = 20_000_000;
  interval = 100_000_000;
  nr_runs = pos 50;
  max_err = 1_000_000;
  check = false;
}

-- ms2nano and usec2nano, in unsigned long long.
unfoldable pub ms2nano : ℤ → ℕ
ms2nano ms = to_u64 ms * 1_000_000 % 2 ^ 64

unfoldable pub usec2nano : ℤ → ℕ
usec2nano sec = to_u64 sec * 1000 % 2 ^ 64

-- The end of parse_options: it returns, or it exits with a status.
pub data Parsed : Type 0 where
  ok : Config → Parsed
  exited : ℤ → Parsed

unfoldable pub validate : Config → Parsed
validate c =
    if leb_ℤ c.nr_runs (pos 0)
    then Parsed.exited (negsuc 0)
    else if ltb_ℤ c.prio_start (pos 1) || ltb_ℤ (pos 99) c.prio_start
    then Parsed.exited (negsuc 0)
    else Parsed.ok c

unfoldable pub parse_from : List Opt → Config → Parsed
parse_from [] c = validate c
parse_from (Opt.prio v ∷ os) c = parse_from os (record c { prio_start = v })
parse_from (Opt.run_time v ∷ os) c = parse_from os (record c { run_interval = ms2nano v })
parse_from (Opt.sleep_time v ∷ os) c = parse_from os (record c { interval = ms2nano v })
parse_from (Opt.loops v ∷ os) c = parse_from os (record c { nr_runs = v })
parse_from (Opt.maxerr v ∷ os) c = parse_from os (record c { max_err = usec2nano v })
parse_from (Opt.check ∷ os) c = parse_from os (record c { check = true })
parse_from (Opt.help ∷ os) c = Parsed.exited (pos 0)

unfoldable pub parse_options : List Opt → Parsed
parse_options os = parse_from os defaults

abbrev pub IsAccepted : Config → Type 0
IsAccepted c =
    (pos 1 ≤ℤ c.nr_runs)
    × (pos 1 ≤ℤ c.prio_start)
    × (c.prio_start ≤ℤ pos 99)
    × (c.run_interval < 2 ^ 64)
    × (c.interval < 2 ^ 64)
    × (c.max_err < 2 ^ 64)

abbrev WordsFit : Config → Type 0
WordsFit c = (c.run_interval < 2 ^ 64) × (c.interval < 2 ^ 64) × (c.max_err < 2 ^ 64)

parse_from-IsAccepted :
    (os : List Opt) (c c' : Config) → WordsFit c → parse_from os c ≡ Parsed.ok c' → IsAccepted c'
unfolding parse_from validate ms2nano usec2nano
parse_from-IsAccepted [] c c' w e = ground arith
parse_from-IsAccepted (Opt.prio v ∷ os) c c' w e = parse_from-IsAccepted os _ c' w e
parse_from-IsAccepted (Opt.run_time v ∷ os) c c' w e =
    parse_from-IsAccepted os _ c' (omega arith, w.1, w.2) e
parse_from-IsAccepted (Opt.sleep_time v ∷ os) c c' w e =
    parse_from-IsAccepted os _ c' (w.0, omega arith, w.2) e
parse_from-IsAccepted (Opt.loops v ∷ os) c c' w e = parse_from-IsAccepted os _ c' w e
parse_from-IsAccepted (Opt.maxerr v ∷ os) c c' w e =
    parse_from-IsAccepted os _ c' (w.0, w.1, omega arith) e
parse_from-IsAccepted (Opt.check ∷ os) c c' w e = parse_from-IsAccepted os _ c' w e
parse_from-IsAccepted (Opt.help ∷ os) c c' w e = ground arith

-- Whatever the options, when parse_options of rt-migrate-test returns, there is at least one run,
-- the base priority is from 1 to 99, and the times are numbers of 64 bits.
parse_options-IsAccepted :
    (os : List Opt) (c : Config) → parse_options os ≡ Parsed.ok c → IsAccepted c
unfolding parse_options
parse_options-IsAccepted os c e =
    parse_from-IsAccepted os defaults c (omega arith, omega arith, omega arith) e
