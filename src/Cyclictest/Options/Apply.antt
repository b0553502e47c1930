-- ===== src/Cyclictest/Options/Apply.antt =====
-- The loop of process_options over the options.
use rt_tests.Base.{
  ℕ, ◌+◌, Bool, true, false, ◌&&◌, ◌||◌, none, some, List, [], ◌∷◌, ◌++◌, leb, ◌==◌, if◌then◌else◌,
}
use rt_tests.Base.Int.{ℤ, pos, pos_part, ◌*ℤ◌, eqb_ℤ, ltb_ℤ, leb_ℤ}
use rt_tests.Base.Word.{to_int}
use rt_tests.Cyclictest.Options.Config.{
  Policy, TraceType, SetAffinity, OptArg, Opt, Config, Parsed, ok, help_shown, usage_error, fatal,
  ◌>>=◌,
}

-- parse_time_string, on what strtol finds: the number and the character behind it.
unfoldable pub parse_time_string : ℤ → ℕ → ℤ
unfolding to_int ◌*ℤ◌
parse_time_string t end =
    if end == b'm' || end == b'M'
    then to_int (60 *ℤ t)
    else if end == b'h' || end == b'H'
    then to_int (3600 *ℤ t)
    else if end == b'd' || end == b'D'
    then to_int (86400 *ℤ t)
    else t

-- Comparison of bytes without regard to case, and strncasecmp(s, p, strlen(p)) == 0.
abbrev pub lower : ℕ → ℕ
lower c = if leb b'A' c && leb c b'Z' then c + 32 else c

unfoldable pub begins_with : List ℕ → List ℕ → Bool
begins_with s [] = true
begins_with [] (p ∷ ps) = false
begins_with (c ∷ cs) (p ∷ ps) = lower c == lower p && begins_with cs ps

unfoldable pub handlepolicy : List ℕ → Policy
handlepolicy s =
    if begins_with s (b'o' ∷ b't' ∷ b'h' ∷ b'e' ∷ b'r' ∷ [])
    then Policy.other
    else if begins_with s (b'b' ∷ b'a' ∷ b't' ∷ b'c' ∷ b'h' ∷ [])
    then Policy.batch
    else if begins_with s (b'i' ∷ b'd' ∷ b'l' ∷ b'e' ∷ [])
    then Policy.idle
    else if begins_with s (b'f' ∷ b'i' ∷ b'f' ∷ b'o' ∷ [])
    then Policy.fifo
    else if begins_with s (b'r' ∷ b'r' ∷ [])
    then Policy.rr
    else Policy.other

unfoldable pub policyname : Policy → List ℕ
policyname Policy.other = b'o' ∷ b't' ∷ b'h' ∷ b'e' ∷ b'r' ∷ []
policyname Policy.fifo = b'f' ∷ b'i' ∷ b'f' ∷ b'o' ∷ []
policyname Policy.rr = b'r' ∷ b'r' ∷ []
policyname Policy.batch = b'b' ∷ b'a' ∷ b't' ∷ b'c' ∷ b'h' ∷ []
policyname Policy.idle = b'i' ∷ b'd' ∷ b'l' ∷ b'e' ∷ []

-- `optarg`, else the word behind if it is a number other than 0, else the default.
unfoldable pub opt_arg : OptArg → ℤ → ℤ
opt_arg a fallback = elim a.here [
  | some v ↦ v
  | none ↦ elim a.behind [ some v ↦ if eqb_ℤ v (pos 0) then fallback else v | none ↦ fallback ]
]

-- parse_cpumask: rt_numa_parse_cpustring of a build without NUMA takes one CPU. The test by
-- is_cpumask_zero is left out: a mask of one CPU is never empty, and Mask.Single gives what the code's
-- own test of its bits makes of it, CPU by CPU.
unfoldable pub parse_cpumask : ℤ → ℤ → Config → Parsed Config
parse_cpumask max_cpus cpu c =
    if leb_ℤ (pos 0) cpu && ltb_ℤ cpu max_cpus
    then ok (record c { affinity_mask = some (pos_part cpu); setaffinity = SetAffinity.specified })
    else usage_error

-- case 'a'
unfoldable pub apply_affinity : ℤ → OptArg → Config → Parsed Config
apply_affinity max_cpus a c = if c.smp then ok c else elim a.here [
  | some v ↦ parse_cpumask max_cpus v c
  | none ↦ elim a.behind [
    | some v ↦
        if eqb_ℤ v (pos 0)
        then ok (record c { setaffinity = SetAffinity.useall })
        else parse_cpumask max_cpus v c
    | none ↦ ok (record c { setaffinity = SetAffinity.useall })
  ]
]

abbrev pub is_preemptoff : TraceType → Bool
is_preemptoff TraceType.preemptoff = true
is_preemptoff _ = false

abbrev pub is_irqsoff : TraceType → Bool
is_irqsoff TraceType.irqsoff = true
is_irqsoff _ = false

abbrev pub is_realtime : Policy → Bool
is_realtime Policy.fifo = true
is_realtime Policy.rr = true
is_realtime _ = false

-- case 'I', case 'P': the two together make PREEMPTIRQSOFF.
unfoldable pub apply_irqsoff : Config → Config
apply_irqsoff c =
    if is_preemptoff c.tracetype
    then record c { tracetype = TraceType.preemptirqsoff; tracer = "preemptirqsoff" }
    else record c { tracetype = TraceType.irqsoff; tracer = "irqsoff" }

unfoldable pub apply_preemptoff : Config → Config
apply_preemptoff c =
    if is_irqsoff c.tracetype
    then record c { tracetype = TraceType.preemptirqsoff; tracer = "preemptirqsoff" }
    else record c { tracetype = TraceType.preemptoff; tracer = "preemptoff" }

-- The `switch`.
unfoldable pub apply_option : ℤ → Opt → Config → Parsed Config
apply_option max_cpus (Opt.affinity a) c = apply_affinity max_cpus a c
apply_option max_cpus (Opt.aligned a) c =
    ok (record c { aligned = true; offset = to_int (1000 *ℤ opt_arg a (pos 0)) })
apply_option max_cpus (Opt.secaligned a) c =
    ok (record c { secaligned = true; offset = to_int (1000 *ℤ opt_arg a (pos 0)) })
apply_option max_cpus (Opt.threads a) c =
    if c.smp then ok c else ok (record c { num_threads = opt_arg a max_cpus })
apply_option max_cpus (Opt.breaktrace v) c = ok (record c { tracelimit = v })
apply_option max_cpus (Opt.clock v) c = ok (record c { clocksel = v })
apply_option max_cpus (Opt.distance v) c = ok (record c { distance = v })
apply_option max_cpus (Opt.histogram v) c = ok (record c { histogram = v })
apply_option max_cpus (Opt.histofall v) c = ok (record c { histofall = true; histogram = v })
apply_option max_cpus (Opt.interval v) c = ok (record c { interval = v })
apply_option max_cpus (Opt.loops v) c = ok (record c { max_cycles = v })
apply_option max_cpus (Opt.oscope v) c = ok (record c { oscope_reduction = v })
apply_option max_cpus (Opt.priority v) c =
    ok (record c { priority = v; policy = if is_realtime c.policy then c.policy else Policy.fifo })
apply_option max_cpus (Opt.latency v) c =
    ok (record c { latency_target = if ltb_ℤ v (pos 0) then pos 0 else v })
apply_option max_cpus (Opt.duration t end) c = ok (record c { duration = parse_time_string t end })
apply_option max_cpus (Opt.fifo_path p) c = ok (record c { fifopath = some p })
apply_option max_cpus (Opt.traceopt o) c = ok (record c { traceopts = c.traceopts ++ (o ∷ []) })
apply_option max_cpus (Opt.tracer t) c = ok (record c { tracetype = TraceType.custom; tracer = t })
apply_option max_cpus (Opt.policy s) c = ok (record c { policy = handlepolicy s })
apply_option max_cpus Opt.preemptirqs c = ok (record c { tracetype = TraceType.preemptirqsoff })
apply_option max_cpus Opt.context c = ok (record c { tracetype = TraceType.ctxtswitch })
apply_option max_cpus Opt.event c = ok (record c { enable_events = true })
apply_option max_cpus Opt.ftrace c = ok (record c { tracetype = TraceType.function; ftrace = true })
apply_option max_cpus Opt.irqs_off c = ok (apply_irqsoff c)
apply_option max_cpus Opt.lock_all c = ok (record c { lockall = true })
apply_option max_cpus Opt.refresh c = ok (record c { refresh_on_max = true })
apply_option max_cpus Opt.nanosleep c = ok (record c { use_nanosleep = 1 })
apply_option max_cpus Opt.nsecs c = ok (record c { use_nsecs = true })
apply_option max_cpus Opt.preempt_off c = ok (apply_preemptoff c)
apply_option max_cpus Opt.quiet c = ok (record c { quiet = true })
apply_option max_cpus Opt.relative c = ok (record c { absolute = false })
apply_option max_cpus Opt.resolution c = ok (record c { check_clock_resolution = true })
apply_option max_cpus Opt.system c = ok (record c { use_system = 2 })
apply_option max_cpus Opt.smp c = ok (record c {
  smp = true;
  num_threads = max_cpus;
  setaffinity = SetAffinity.useall;
  use_nanosleep = 1;
})
apply_option max_cpus Opt.unbuffered c = ok (record c { unbuffered = true })
apply_option max_cpus Opt.numa c = if c.smp then fatal else ok c
apply_option max_cpus Opt.verbose c = ok (record c { verbose = true })
apply_option max_cpus Opt.wake_up c = ok (record c { tracetype = TraceType.wakeup })
apply_option max_cpus Opt.wake_up_rt c = ok (record c { tracetype = TraceType.wakeuprt })
apply_option max_cpus Opt.help c = help_shown
apply_option max_cpus Opt.priospread c = ok (record c { priospread = true })
apply_option max_cpus Opt.no_trace c = ok (record c { notrace = true })
apply_option max_cpus Opt.dbg c = ok (record c { ct_debug = true })
apply_option max_cpus Opt.laptop c = ok (record c { laptop = true })

unfoldable pub apply_options : ℤ → List Opt → Config → Parsed Config
apply_options max_cpus [] c = ok c
apply_options max_cpus (o ∷ os) c = apply_option max_cpus o c >>= apply_options max_cpus os
