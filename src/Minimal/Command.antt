-- ===== src/Minimal/Command.antt =====
-- process_options of cyclictest_minimal.c, and the loop of main that sets up the threads. An option
-- comes with its argument as atoi reads it. `interval` is taken not to leave an int.
use rt_tests.Base.{
  ℕ, zero, suc, ◌≤◌, ◌≡◌, refl, Bool, true, false, ◌||◌, Option, none, some, List, [], ◌∷◌, ◌==◌,
  if◌then◌else◌, arith,
}
use rt_tests.Base.{length, ap, guard_some, ◌-◌}
use rt_tests.Base.Int.{add_suc_mul, add_zero_mul, ℤ, pos, pos_part, ltb_ℤ, eqb_ℤ, ◌+ℤ◌, ◌-ℤ◌, ◌*ℤ◌}
use rt_tests.Base.Word.{to_u64}
use rt_tests.Cyclictest.Timer.{Mode}
use rt_tests.Minimal.{Param}

pub data Opt : Type 0 where
  breaktrace clock distance interval loops priority threads : ℤ → Opt
  ftrace nanosleep quiet relative system verbose help : Opt

pub record Config : Type 0 where
  pub tracelimit : ℤ
  pub clocksel : ℤ
  pub distance : ℤ
  pub ftrace : Bool
  pub interval : ℤ
  pub max_cycles : ℤ
  pub use_nanosleep : ℕ
  pub priority : ℤ
  pub quiet : Bool
  pub absolute : Bool
  pub use_system : ℕ
  pub num_threads : ℤ
  pub verbose : Bool
  pub error : Bool

abbrev pub defaults : Config
defaults = record {
  tracelimit = pos 0;
  clocksel = pos 0;
  distance = pos 500;
  ftrace = false;
  interval = pos 1000;
  max_cycles = pos 0;
  use_nanosleep = 0;
  priority = pos 0;
  quiet = false;
  absolute = true;
  use_system = 0;
  num_threads = pos 1;
  verbose = false;
  error = false;
}

-- The `switch`.
unfoldable pub apply_option : Opt → Config → Config
apply_option (Opt.breaktrace v) c = record c { tracelimit = v }
apply_option (Opt.clock v) c = record c { clocksel = v }
apply_option (Opt.distance v) c = record c { distance = v }
apply_option Opt.ftrace c = record c { ftrace = true }
apply_option (Opt.interval v) c = record c { interval = v }
apply_option (Opt.loops v) c = record c { max_cycles = v }
apply_option Opt.nanosleep c = record c { use_nanosleep = 1 }
apply_option (Opt.priority v) c = record c { priority = v }
apply_option Opt.quiet c = record c { quiet = true }
apply_option Opt.relative c = record c { absolute = false }
apply_option Opt.system c = record c { use_system = 2 }
apply_option (Opt.threads v) c = record c { num_threads = v }
apply_option Opt.verbose c = record c { verbose = true }
apply_option Opt.help c = record c { error = true }

unfoldable pub apply_options : List Opt → Config → Config
apply_options [] c = c
apply_options (o ∷ os) c = apply_options os (apply_option o c)

-- The conditions that set `error`, or an option that did.
unfoldable pub has_error : Config → Bool
has_error c =
    c.error
    || ltb_ℤ c.clocksel (pos 0)
    || ltb_ℤ (pos 2) c.clocksel
    || ltb_ℤ c.priority (pos 0)
    || ltb_ℤ (pos 99) c.priority
    || ltb_ℤ c.num_threads (pos 1)

-- `none`: display_help ends the process.
unfoldable pub process_options : List Opt → Option Config
process_options os = let c = apply_options os defaults in if has_error c then none else some c

-- `mode = use_nanosleep + use_system`
unfoldable pub mode_of : Config → Mode
mode_of c =
    if c.use_nanosleep == 0
    then (if c.use_system == 0 then Mode.cyclic else Mode.sys_itimer)
    else (if c.use_system == 0 then Mode.clock_nanosleep else Mode.sys_nanosleep)

-- The block of a thread, for the priority and the interval that the loop has reached.
unfoldable pub param : Config → ℤ → ℤ → Param
param c prio intv = record {
  prio = prio;
  mode = mode_of c;
  absolute = c.absolute;
  max_cycles = to_u64 c.max_cycles;
  bufmsk = if c.verbose then 16_383 else 0;
  interval = to_u64 intv;
}

-- `n` rounds of the loop: `priority--` while it is not 0, and `interval += distance`.
unfoldable pub setup : Config → ℕ → ℤ → ℤ → List Param
setup c zero prio intv = []
setup c (suc n) prio intv =
    param c prio intv
    ∷ setup c n (if eqb_ℤ prio (pos 0) then prio else prio -ℤ pos 1) (intv +ℤ c.distance)

unfoldable pub threads_of : Config → List Param
threads_of c = setup c (pos_part c.num_threads) c.priority c.interval

-- Thread i of the list has the priority less i, and 0 at least, and the interval with i times the
-- distance added.
abbrev pub AreParams : Config → ℕ → List Param → Type 0
AreParams c i [] = Unit
AreParams c i (p ∷ ps) =
    ((p.prio ≡ pos (pos_part c.priority - i))
      × (p.interval ≡ to_u64 (c.interval +ℤ (i *ℤ c.distance))))
    × AreParams c (suc i) ps

lower :
    (p i : ℕ)
    → (if eqb_ℤ (pos (p - i)) (pos 0) then pos (p - i) else pos (p - i) -ℤ pos 1) ≡ pos (p - suc i)
unfolding ◌-ℤ◌
lower p i = ground arith

setup-AreParams :
    (c : Config) (n i : ℕ) (prio intv : ℤ)
    → prio ≡ pos (pos_part c.priority - i)
    → intv ≡ c.interval +ℤ (i *ℤ c.distance)
    → (length (setup c n prio intv) ≡ n) × AreParams c i (setup c n prio intv)
unfolding setup param
setup-AreParams c zero i prio intv e f = (refl, tt)
setup-AreParams c (suc n) i prio intv e f =
    let (l, a) =
      setup-AreParams c n (suc i) _ _ (rw e (lower (pos_part c.priority) i))
        (rw f (add_suc_mul c.interval c.distance i)) in
    (ap suc l, ((e, ap to_u64 f), a))

priority_range :
    (c : Config)
    → has_error c ≡ false
    → (c.priority ≡ pos (pos_part c.priority - 0))
      × (pos_part c.priority ≤ 99)
      × (1 ≤ pos_part c.num_threads)
unfolding has_error
priority_range c h = ground arith

-- A command line that the minimal cyclictest accepts sets up at least one thread and as many as were
-- asked for; thread i has the priority lowered by i, from at most 99 and down to 0, and the interval
-- with i times the distance added, as an unsigned long.
process_options-AreParams :
    (os : List Opt) (c : Config)
    → process_options os ≡ some c
    → (length (threads_of c) ≡ pos_part c.num_threads)
      × (1 ≤ pos_part c.num_threads)
      × (pos_part c.priority ≤ 99)
      × AreParams c 0 (threads_of c)
unfolding process_options threads_of
process_options-AreParams os c e = accepted (apply_options os defaults) e
  where
    accepted :
        (d : Config)
        → (if has_error d then none else some d) ≡ some c
        → (length (threads_of c) ≡ pos_part c.num_threads)
          × (1 ≤ pos_part c.num_threads)
          × (pos_part c.priority ≤ 99)
          × AreParams c 0 (threads_of c)
    accepted d f =
        let (ok, same) = guard_some (has_error d) f in
        let (p, high, many) = priority_range c (rw (← same) ok) in
        let (l, a) =
          setup-AreParams c (pos_part c.num_threads) 0 c.priority c.interval p
            (add_zero_mul c.interval c.distance) in
        (l, many, high, a)
