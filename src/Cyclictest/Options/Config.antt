-- ===== src/Cyclictest/Options/Config.antt =====
-- The file's variables that the command line sets, and the options.
use rt_tests.Base.{ℕ, Bool, true, false, Option, none, List, []}
use rt_tests.Base.Int.{ℤ, pos, negsuc}
use Prim.Native.String.{String}

pub data Policy : Type 0 where
  other fifo rr batch idle : Policy

pub data TraceType : Type 0 where
  notrace ctxtswitch irqsoff preemptoff preemptirqsoff wakeup wakeuprt function custom : TraceType

pub data SetAffinity : Type 0 where
  unspecified specified useall : SetAffinity

-- An optional argument: `optarg`, and the word behind the option, both as numbers.
pub record OptArg : Type 0 where
  pub here : Option ℤ
  pub behind : Option ℤ

-- One answer of getopt_long, named by its long option.
pub data Opt : Type 0 where
  affinity aligned secaligned threads : OptArg → Opt
  breaktrace clock distance histogram histofall interval loops oscope priority latency : ℤ → Opt
  duration : ℤ → ℕ → Opt
  fifo_path traceopt tracer : String → Opt
  policy : List ℕ → Opt
  preemptirqs context event ftrace irqs_off lock_all refresh nanosleep nsecs : Opt
  preempt_off quiet relative resolution system smp unbuffered numa verbose : Opt
  wake_up wake_up_rt help priospread no_trace dbg laptop : Opt

-- `use_nanosleep` and `use_system` are the two summands of `mode`; `absolute` is
-- `timermode == TIMER_ABSTIME`; the affinity mask holds the one CPU that a build without NUMA reads.
pub record Config : Type 0 where
  pub tracelimit : ℤ
  pub tracetype : TraceType
  pub clocksel : ℤ
  pub distance : ℤ
  pub duration : ℤ
  pub enable_events : Bool
  pub ftrace : Bool
  pub fifopath : Option String
  pub histofall : Bool
  pub histogram : ℤ
  pub interval : ℤ
  pub tracer : String
  pub max_cycles : ℤ
  pub lockall : Bool
  pub refresh_on_max : Bool
  pub use_nanosleep : ℕ
  pub use_nsecs : Bool
  pub oscope_reduction : ℤ
  pub traceopts : List String
  pub priority : ℤ
  pub policy : Policy
  pub quiet : Bool
  pub absolute : Bool
  pub check_clock_resolution : Bool
  pub use_system : ℕ
  pub smp : Bool
  pub num_threads : ℤ
  pub setaffinity : SetAffinity
  pub affinity_mask : Option ℕ
  pub unbuffered : Bool
  pub verbose : Bool
  pub priospread : Bool
  pub latency_target : ℤ
  pub notrace : Bool
  pub ct_debug : Bool
  pub laptop : Bool
  pub aligned : Bool
  pub secaligned : Bool
  pub offset : ℤ

-- The values at the start of the program.
abbrev pub defaults : Config
defaults = record {
  tracelimit = pos 0;
  tracetype = TraceType.notrace;
  clocksel = pos 0;
  distance = negsuc 0;
  duration = pos 0;
  enable_events = false;
  ftrace = false;
  fifopath = none;
  histofall = false;
  histogram = pos 0;
  interval = pos 1000;
  tracer = "";
  max_cycles = pos 0;
  lockall = false;
  refresh_on_max = false;
  use_nanosleep = 0;
  use_nsecs = false;
  oscope_reduction = pos 1;
  traceopts = [];
  priority = pos 0;
  policy = Policy.other;
  quiet = false;
  absolute = true;
  check_clock_resolution = false;
  use_system = 0;
  smp = false;
  num_threads = pos 1;
  setaffinity = SetAffinity.unspecified;
  affinity_mask = none;
  unbuffered = false;
  verbose = false;
  priospread = false;
  latency_target = pos 0;
  notrace = false;
  ct_debug = false;
  laptop = false;
  aligned = false;
  secaligned = false;
  offset = pos 0;
}

-- `ok`, or the end of the process: display_help with or without an error, or fatal.
pub data Parsed {ℓ} (A : Type ℓ) : Type ℓ where
  ok : A → Parsed A
  help_shown usage_error fatal : Parsed A

infixl 5 ◌>>=◌
abbrev pub ◌>>=◌ {ℓ κ} : {A : Type ℓ} {B : Type κ} → Parsed A → (A → Parsed B) → Parsed B
ok a >>= f = f a
help_shown >>= f = help_shown
usage_error >>= f = usage_error
fatal >>= f = fatal
