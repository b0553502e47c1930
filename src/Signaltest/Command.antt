-- ===== src/Signaltest/Command.antt =====
-- process_options of src/signaltest/signaltest.c, and the ring that main sets up from it. An option
-- comes with its argument as atoi reads it; the letters c, d, i, n, r and s do nothing.
use mathlib.Core.Path.{subst}
use rt_tests.Base.{
  ℕ, suc, ◌-◌, ◌≤◌, ◌≡◌, Bool, true, false, ◌||◌, Option, none, some, List, [], ◌∷◌, arith,
  if◌then◌else◌, guard_some,
}
use rt_tests.Base.Int.{ℤ, pos, pos_part, ltb_ℤ}
use rt_tests.Cyclictest.Time.{Timespec}
use rt_tests.Signaltest.{Settings, Ring, Reach}
use rt_tests.Signaltest.Turn.{HasTurn, signal_turn}

pub data Opt : Type 0 where
  breaktrace loops priority threads : ℤ → Opt
  quiet mlockall verbose help ignored : Opt

pub record Config : Type 0 where
  pub tracelimit : ℤ
  pub max_cycles : ℤ
  pub priority : ℤ
  pub quiet : Bool
  pub num_threads : ℤ
  pub lockall : Bool
  pub verbose : Bool
  pub error : Bool

abbrev pub defaults : Config
defaults = record {
  tracelimit = pos 0;
  max_cycles = pos 0;
  priority = pos 0;
  quiet = false;
  num_threads = pos 2;
  lockall = false;
  verbose = false;
  error = false;
}

-- The `switch`.
unfoldable pub apply_option : Opt → Config → Config
apply_option (Opt.breaktrace v) c = record c { tracelimit = v }
apply_option (Opt.loops v) c = record c { max_cycles = v }
apply_option (Opt.priority v) c = record c { priority = v }
apply_option Opt.quiet c = record c { quiet = true }
apply_option (Opt.threads v) c = record c { num_threads = v }
apply_option Opt.mlockall c = record c { lockall = true }
apply_option Opt.verbose c = record c { verbose = true }
apply_option Opt.help c = record c { error = true }
apply_option Opt.ignored c = c

unfoldable pub apply_options : List Opt → Config → Config
apply_options [] c = c
apply_options (o ∷ os) c = apply_options os (apply_option o c)

-- The conditions that set `error`, or an option that did.
unfoldable pub has_error : Config → Bool
has_error c =
    c.error
    || (ltb_ℤ c.priority (pos 0) || ltb_ℤ (pos 99) c.priority)
    || ltb_ℤ c.num_threads (pos 2)

-- `none`: display_help ends the process.
unfoldable pub process_options : List Opt → Option Config
process_options os = let c = apply_options os defaults in if has_error c then none else some c

-- What signalthread reads of the settings.
unfoldable pub settings_of : Config → Settings
settings_of c = record { max_cycles = c.max_cycles; tracelimit = c.tracelimit; verbose = c.verbose }

enough_threads :
    (c : Config)
    → has_error c ≡ false
    → pos_part c.num_threads ≡ suc (suc (pos_part c.num_threads - 2))
unfolding has_error
enough_threads c h = ground arith

suc_pred : (n : ℕ) → 2 ≤ n → suc (n - 1) ≡ n
suc_pred n h = omega arith

-- From a command line that signaltest accepts, in every state that its threads reach, as many as were
-- asked for and two at least, it is the turn of one thread.
process_options-HasTurn :
    (os : List Opt) (c : Config) (t : Timespec) {s : Ring}
    → process_options os ≡ some c
    → Reach (settings_of c) t (pos_part c.num_threads - 1) s
    → (2 ≤ pos_part c.num_threads) × HasTurn (pos_part c.num_threads) s
unfolding process_options
process_options-HasTurn os c t {s} e r =
    let (ok, same) = guard_some (has_error (apply_options os defaults)) e in
    let n = enough_threads c (rw (← same) ok) in
    (
      omega (arith, n),
      subst (λ k. HasTurn k s) (suc_pred (pos_part c.num_threads) (omega (arith, n)))
          (signal_turn (settings_of c) t (pos_part c.num_threads - 1) r),
    )
