-- ===== src/Pmqtest/Options.antt =====
-- process_options of src/pmqtest/pmqtest.c. getopt_long and atoi are the library's: an option comes
-- with its argument read as a number.
use rt_tests.Base.{
  Bool, true, false, ◌&&◌, ◌||◌, not, Option, none, some, List, [], ◌∷◌, if◌then◌else◌,
}
use rt_tests.Base.Int.{ℤ, pos, eqb_ℤ, ltb_ℤ, leb_ℤ}
use rt_tests.Cyclictest.Options.Config.{OptArg}
use rt_tests.Cyclictest.Options.Apply.{opt_arg}

pub data SetAffinity : Type 0 where
  unspecified specified useall : SetAffinity

pub data Opt : Type 0 where
  affinity threads : OptArg → Opt
  breaktrace distance forcetimeout interval loops priority timeout : ℤ → Opt
  smp help : Opt

-- The file's variables, and the `error` of process_options.
pub record Config : Type 0 where
  pub setaffinity : SetAffinity
  pub affinity : ℤ
  pub tracelimit : ℤ
  pub priority : ℤ
  pub num_threads : ℤ
  pub max_cycles : ℤ
  pub interval : ℤ
  pub distance : ℤ
  pub smp : Bool
  pub sameprio : Bool
  pub timeout : ℤ
  pub forcetimeout : ℤ
  pub error : Bool

abbrev pub defaults : Config
defaults = record {
  setaffinity = SetAffinity.unspecified;
  affinity = pos 0;
  tracelimit = pos 0;
  priority = pos 0;
  num_threads = pos 1;
  max_cycles = pos 0;
  interval = pos 1000;
  distance = pos 500;
  smp = false;
  sameprio = false;
  timeout = pos 0;
  forcetimeout = pos 0;
  error = false;
}

-- case 'a', with `optarg` or the next word if it is a number other than 0.
unfoldable pub apply_affinity : OptArg → Config → Config
apply_affinity a c = if c.smp then c else elim a.here [
  | some v ↦ record c { affinity = v; setaffinity = SetAffinity.specified }
  | none ↦ elim a.behind [
    | some v ↦
        if eqb_ℤ v (pos 0)
        then record c { setaffinity = SetAffinity.useall }
        else record c { affinity = v; setaffinity = SetAffinity.specified }
    | none ↦ record c { setaffinity = SetAffinity.useall }
  ]
]

-- The `switch`.
unfoldable pub apply_option : ℤ → Opt → Config → Config
apply_option max_cpus (Opt.affinity a) c = apply_affinity a c
apply_option max_cpus (Opt.breaktrace v) c = record c { tracelimit = v }
apply_option max_cpus (Opt.distance v) c = record c { distance = v }
apply_option max_cpus (Opt.forcetimeout v) c = record c { forcetimeout = v }
apply_option max_cpus (Opt.interval v) c = record c { interval = v }
apply_option max_cpus (Opt.loops v) c = record c { max_cycles = v }
apply_option max_cpus (Opt.priority v) c = record c { priority = v }
apply_option max_cpus Opt.smp c = record c {
  smp = true;
  num_threads = max_cpus;
  setaffinity = SetAffinity.useall;
}
apply_option max_cpus (Opt.threads a) c =
    if c.smp then c else record c { num_threads = opt_arg a max_cpus }
apply_option max_cpus (Opt.timeout v) c = record c { timeout = v }
apply_option max_cpus Opt.help c = record c { error = true }

unfoldable pub apply_options : ℤ → List Opt → Config → Config
apply_options max_cpus [] c = c
apply_options max_cpus (o ∷ os) c = apply_options max_cpus os (apply_option max_cpus o c)

abbrev pub is_specified : SetAffinity → Bool
is_specified SetAffinity.specified = true
is_specified _ = false

-- The conditions that set `error` behind the loop.
unfoldable pub has_error : ℤ → Config → Bool
has_error max_cpus c =
    (is_specified c.setaffinity && (ltb_ℤ c.affinity (pos 0) || leb_ℤ max_cpus c.affinity))
    || (ltb_ℤ c.num_threads (pos 0) || ltb_ℤ (pos 255) c.num_threads)
    || (ltb_ℤ c.priority (pos 0) || ltb_ℤ (pos 99) c.priority)
    || ltb_ℤ c.num_threads (pos 1)
    || (not (eqb_ℤ c.forcetimeout (pos 0)) && eqb_ℤ c.timeout (pos 0))
    || c.error

-- What follows the loop; `none` is display_help, which exits.
unfoldable pub validate : ℤ → Config → Option Config
validate max_cpus c =
    if has_error max_cpus c
    then none
    else some (record c { sameprio = not (eqb_ℤ c.priority (pos 0)) && c.smp || c.sameprio })

unfoldable pub process_options : ℤ → List Opt → Option Config
process_options max_cpus os = validate max_cpus (apply_options max_cpus os defaults)
