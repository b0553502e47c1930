-- ===== src/Svsematest/Options.antt =====
-- process_options of src/svsematest/svsematest.c. getopt_long and atoi are the library's: an option
-- comes with its argument read as a number, but for the argument of --fork, a string of bytes.
use rt_tests.Base.{
  ℕ, Bool, true, false, ◌&&◌, ◌||◌, not, Option, none, some, List, [], ◌∷◌, ◌==◌, if◌then◌else◌,
}
use rt_tests.Base.Int.{ℤ, pos, negsuc, eqb_ℤ, ltb_ℤ, leb_ℤ}
use rt_tests.Cyclictest.Options.Config.{OptArg}
use rt_tests.Cyclictest.Options.Apply.{opt_arg}

pub data SetAffinity : Type 0 where
  unspecified specified useall : SetAffinity

pub data Opt : Type 0 where
  affinity threads : OptArg → Opt
  breaktrace distance interval loops priority : ℤ → Opt
  fork : Option (List ℕ) → Opt
  smp help : Opt

-- The file's variables, with `thistracelimit` and `error` of process_options.
pub record Config : Type 0 where
  pub setaffinity : SetAffinity
  pub affinity : ℤ
  pub mustfork : Bool
  pub wasforked : Bool
  pub wasforked_sender : ℤ
  pub wasforked_threadno : ℤ
  pub thistracelimit : ℤ
  pub tracelimit : ℤ
  pub priority : ℤ
  pub num_threads : ℤ
  pub max_cycles : ℤ
  pub interval : ℤ
  pub distance : ℤ
  pub smp : Bool
  pub sameprio : Bool
  pub error : Bool

abbrev pub defaults : Config
defaults = record {
  setaffinity = SetAffinity.unspecified;
  affinity = pos 0;
  mustfork = false;
  wasforked = false;
  wasforked_sender = negsuc 0;
  wasforked_threadno = negsuc 0;
  thistracelimit = pos 0;
  tracelimit = pos 0;
  priority = pos 0;
  num_threads = pos 1;
  max_cycles = pos 0;
  interval = pos 1000;
  distance = pos 500;
  smp = false;
  sameprio = false;
  error = false;
}

-- case 'a', with `optarg` or the next word if it is a number other than 0.
unfoldable pub apply_affinity : OptArg → Config → Config
apply_affinity a c = if c.smp then c else elim a.here [
  | some v ↦ record c { affinity = v; setaffinity = SetAffinity.specified }
  | none ↦ elim a.behind [
    | some v ↦
        if eqb_ℤ v (pos 0)
        then record c { setaffinity = SetAffinity.useall }
        else record c { affinity = v; setaffinity = SetAffinity.specified }
    | none ↦ record c { setaffinity = SetAffinity.useall }
  ]
]

-- case 'f': which thread of which array a child is. An empty `optarg` has no byte to look at.
unfoldable pub apply_fork : (List ℕ → ℤ) → Option (List ℕ) → Config → Config
apply_fork atoi none c = record c { mustfork = true }
apply_fork atoi (some []) c = record c { wasforked = true; wasforked_threadno = atoi [] }
apply_fork atoi (some (b ∷ bs)) c = record c {
  wasforked = true;
  wasforked_sender = if b == b's' then pos 1 else if b == b'r' then pos 0 else c.wasforked_sender;
  wasforked_threadno = atoi bs;
}

-- The `switch`.
unfoldable pub apply_option : (List ℕ → ℤ) → ℤ → Opt → Config → Config
apply_option atoi max_cpus (Opt.affinity a) c = apply_affinity a c
apply_option atoi max_cpus (Opt.breaktrace v) c = record c { thistracelimit = v }
apply_option atoi max_cpus (Opt.distance v) c = record c { distance = v }
apply_option atoi max_cpus (Opt.fork a) c = apply_fork atoi a c
apply_option atoi max_cpus (Opt.interval v) c = record c { interval = v }
apply_option atoi max_cpus (Opt.loops v) c = record c { max_cycles = v }
apply_option atoi max_cpus (Opt.priority v) c = record c { priority = v }
apply_option atoi max_cpus Opt.smp c = record c {
  smp = true;
  num_threads = max_cpus;
  setaffinity = SetAffinity.useall;
}
apply_option atoi max_cpus (Opt.threads a) c =
    if c.smp then c else record c { num_threads = opt_arg a max_cpus }
apply_option atoi max_cpus Opt.help c = record c { error = true }

unfoldable pub apply_options : (List ℕ → ℤ) → ℤ → List Opt → Config → Config
apply_options atoi max_cpus [] c = c
apply_options atoi max_cpus (o ∷ os) c =
    apply_options atoi max_cpus os (apply_option atoi max_cpus o c)

abbrev pub is_specified : SetAffinity → Bool
is_specified SetAffinity.specified = true
is_specified _ = false

-- The conditions that set `error` when the program is no child.
unfoldable pub has_error : ℤ → Config → Bool
has_error max_cpus c =
    (is_specified c.setaffinity && (ltb_ℤ c.affinity (pos 0) || leb_ℤ max_cpus c.affinity))
    || (ltb_ℤ c.num_threads (pos 1) || ltb_ℤ (pos 255) c.num_threads)
    || (ltb_ℤ c.priority (pos 0) || ltb_ℤ (pos 99) c.priority)

-- What follows the loop; `none` is display_help, which exits.
unfoldable pub validate : ℤ → Config → Option Config
validate max_cpus c =
    if c.wasforked
    then (if c.error then none else some c)
    else if has_error max_cpus c || c.error
    then none
    else some (record c {
      sameprio = not (eqb_ℤ c.priority (pos 0)) && c.smp || c.sameprio;
      tracelimit = c.thistracelimit;
    })

unfoldable pub process_options : (List ℕ → ℤ) → ℤ → List Opt → Option Config
process_options atoi max_cpus os = validate max_cpus (apply_options atoi max_cpus os defaults)
