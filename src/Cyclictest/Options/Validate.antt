-- ===== src/Cyclictest/Options/Validate.antt =====
-- What process_options does behind its loop, and process_options as a whole.
-- The sum num_threads + 1 is taken not to overflow.
use rt_tests.Base.{ℕ, Bool, ◌&&◌, ◌||◌, not, List, if◌then◌else◌, Option, get_elem?, [], ◌∷◌}
use rt_tests.Base.Int.{ℤ, pos, negsuc, pos_part, ◌+ℤ◌, eqb_ℤ, ltb_ℤ}
use rt_tests.Cyclictest.Options.Config.{
  Policy, Opt, Config, defaults, Parsed, ok, usage_error, ◌>>=◌,
}
use rt_tests.Cyclictest.Options.Apply.{is_realtime, apply_options}

-- HIST_MAX, DEFAULT_DISTANCE, ARRAY_SIZE(clocksources)
abbrev pub hist_max : ℕ
hist_max = 1_000_000

abbrev pub default_distance : ℕ
default_distance = 500

pub data Clock : Type 0 where
  monotonic realtime : Clock

abbrev pub clocksources : List Clock
clocksources = Clock.monotonic ∷ Clock.realtime ∷ []

abbrev pub clock_count : ℕ
clock_count = 2

-- The conditions that set `error`.
unfoldable pub has_error : Config → Bool
has_error c =
    ltb_ℤ c.clocksel (pos 0)
    || ltb_ℤ (pos clock_count) c.clocksel
    || ltb_ℤ c.oscope_reduction (pos 1)
    || (ltb_ℤ (pos 1) c.oscope_reduction && not c.verbose)
    || ltb_ℤ c.histogram (pos 0)
    || (ltb_ℤ c.priority (pos 0) || ltb_ℤ (pos 99) c.priority)
    || ltb_ℤ c.num_threads (pos 1)
    || (c.aligned && c.secaligned)

unfoldable pub clamp_histogram : Config → Config
clamp_histogram c = record c {
  histogram = if ltb_ℤ (pos hist_max) c.histogram then pos hist_max else c.histogram;
  distance = if eqb_ℤ c.distance (negsuc 0) then pos default_distance else c.distance;
}

-- `if (priospread && priority == 0)`
unfoldable pub spread_priority : Config → Config
unfolding ◌+ℤ◌
spread_priority c =
    if c.priospread && eqb_ℤ c.priority (pos 0)
    then record c { priority = c.num_threads +ℤ pos 1 }
    else c

-- `if (priority && (policy != SCHED_FIFO && policy != SCHED_RR))`
unfoldable pub match_policy : Config → Config
match_policy c =
    if not (eqb_ℤ c.priority (pos 0)) && not (is_realtime c.policy)
    then record c { policy = Policy.fifo }
    else c

-- `if ((policy == SCHED_FIFO || policy == SCHED_RR) && priority == 0)`
unfoldable pub default_priority : Config → Config
unfolding ◌+ℤ◌
default_priority c =
    if is_realtime c.policy && eqb_ℤ c.priority (pos 0)
    then record c { priority = c.num_threads +ℤ pos 1 }
    else c

unfoldable pub validate : Config → Parsed Config
validate c =
    if has_error c
    then usage_error
    else ok (default_priority (match_policy (spread_priority (clamp_histogram c))))

unfoldable pub process_options : ℤ → List Opt → Parsed Config
process_options max_cpus os = apply_options max_cpus os defaults >>= validate

-- `clocksources[clocksel]`; `none` is a read behind the array.
unfoldable pub clock_of : Config → Option Clock
clock_of c = get_elem? clocksources (pos_part c.clocksel)
