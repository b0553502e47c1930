-- ===== src/Cyclictest/Options/Accept.antt =====
-- What holds of a command line that process_options accepts, and what it fails to exclude.
use mathlib.Core.Path.{subst}
use rt_tests.Base.{
  Bool-cases, inl, inr, sym, ◌∙◌, ap, ap₂, false, ◌&&◌, not, List, none, ◌≡◌, ◌≢◌, ◌⊎◌, arith, refl,
}
use rt_tests.Base.Int.{ℤ, pos, negsuc, ◌+ℤ◌, ◌≤ℤ◌, eqb_ℤ}
use rt_tests.Cyclictest.Options.Config.{
  Opt, Config, defaults, Parsed, ok, help_shown, fatal, usage_error, ◌>>=◌,
}
use rt_tests.Cyclictest.Options.Apply.{is_realtime, apply_options}
use rt_tests.Cyclictest.Options.Validate.{
  hist_max, has_error, clamp_histogram, spread_priority, match_policy, default_priority, validate,
  process_options, clock_of,
}

-- The settings that the rest of the program relies on.
pub record IsAccepted (c : Config) : Type 0 where
  pub histogram_low : pos 0 ≤ℤ c.histogram
  pub histogram_high : c.histogram ≤ℤ pos hist_max
  pub oscope : pos 1 ≤ℤ c.oscope_reduction
  pub oscope_verbose : c.verbose ≡ false → c.oscope_reduction ≡ pos 1
  pub threads : pos 1 ≤ℤ c.num_threads
  pub distance : c.distance ≢ negsuc 0
  pub alignment : c.aligned && c.secaligned ≡ false
  pub priority : (c.priority ≤ℤ pos 99) ⊎ (c.priority ≡ c.num_threads +ℤ pos 1)
  pub realtime : pos 0 ≤ℤ c.priority
  pub policy_match : is_realtime c.policy ≡ not (eqb_ℤ c.priority (pos 0))

-- What the absence of an error says of the settings as they were given.
record InRange (c : Config) : Type 0 where
  histogram_low : pos 0 ≤ℤ c.histogram
  oscope : pos 1 ≤ℤ c.oscope_reduction
  oscope_verbose : c.verbose ≡ false → c.oscope_reduction ≤ℤ pos 1
  threads : pos 1 ≤ℤ c.num_threads
  alignment : c.aligned && c.secaligned ≡ false
  priority_low : pos 0 ≤ℤ c.priority
  priority_high : c.priority ≤ℤ pos 99

has_error-InRange : (c : Config) → has_error c ≡ false → InRange c
unfolding has_error
has_error-InRange c h = record {
  histogram_low = ground arith;
  oscope = ground arith;
  oscope_verbose = λ v. ground arith;
  threads = ground arith;
  alignment = ground arith;
  priority_low = ground arith;
  priority_high = ground arith;
}

-- The three steps on the priority, and what they do.
abbrev prioritise : Config → Config
prioritise c = default_priority (match_policy (spread_priority c))

prioritise_policy :
    (c : Config)
    → let d = prioritise c in ((d.priority ≡ c.priority) ⊎ (d.priority ≡ c.num_threads +ℤ pos 1))
unfolding spread_priority match_policy default_priority
prioritise_policy c = ground arith

prioritise_match :
    (c : Config)
    → pos 1 ≤ℤ c.num_threads
    → let d = prioritise c in is_realtime d.policy ≡ not (eqb_ℤ d.priority (pos 0))
unfolding spread_priority match_policy default_priority
prioritise_match c h = ground arith

prioritise_keeps :
    (c : Config)
    → let d = prioritise c in
      (d.histogram ≡ c.histogram)
      × (d.oscope_reduction ≡ c.oscope_reduction)
      × (d.verbose ≡ c.verbose)
      × (d.num_threads ≡ c.num_threads)
      × (d.distance ≡ c.distance)
      × (d.aligned ≡ c.aligned)
      × (d.secaligned ≡ c.secaligned)
unfolding spread_priority match_policy default_priority
prioritise_keeps c = ground arith

clamped_range :
    (c : Config)
    → InRange c
    → ((clamp_histogram c).histogram ≤ℤ pos hist_max)
      × ((clamp_histogram c).distance ≢ negsuc 0)
      × (pos 0 ≤ℤ (clamp_histogram c).histogram)
unfolding clamp_histogram
clamped_range c r = ground arith

clamped_InRange : (c : Config) → InRange c → InRange (clamp_histogram c)
unfolding clamp_histogram
clamped_InRange c r = record {
  histogram_low = (clamped_range c r).2;
  oscope = r.oscope;
  oscope_verbose = r.oscope_verbose;
  threads = r.threads;
  alignment = r.alignment;
  priority_low = r.priority_low;
  priority_high = r.priority_high;
}

priority_bounds :
    (p q n : ℤ)
    → pos 1 ≤ℤ n
    → pos 0 ≤ℤ p
    → p ≤ℤ pos 99
    → (q ≡ p) ⊎ (q ≡ n +ℤ pos 1)
    → ((q ≤ℤ pos 99) ⊎ (q ≡ n +ℤ pos 1)) × (pos 0 ≤ℤ q)
unfolding ◌+ℤ◌
priority_bounds p q n hn lo hi (inl e) = (inl (rw e hi), rw e lo)
priority_bounds p q n hn lo hi (inr e) = (inr e, rw e (ground arith))

oscope_one : (v : ℤ) → pos 1 ≤ℤ v → v ≤ℤ pos 1 → v ≡ pos 1
oscope_one v lo hi = ground arith

prioritised-IsAccepted :
    (c : Config)
    → InRange c
    → c.histogram ≤ℤ pos hist_max
    → c.distance ≢ negsuc 0
    → IsAccepted (prioritise c)
prioritised-IsAccepted c r hi di =
    let k = prioritise_keeps c in
    let b =
      priority_bounds c.priority (prioritise c).priority c.num_threads r.threads r.priority_low
        r.priority_high (prioritise_policy c) in
    record {
      histogram_low = rw k.0 r.histogram_low;
      histogram_high = rw k.0 hi;
      oscope = rw k.1 r.oscope;
      oscope_verbose =
          λ v. k.1 ∙ oscope_one c.oscope_reduction r.oscope (r.oscope_verbose (sym k.2 ∙ v));
      threads = rw k.3 r.threads;
      distance = λ e. di (sym k.4 ∙ e);
      alignment = ap₂ ◌&&◌ k.5 k.6 ∙ r.alignment;
      priority =
          subst (λ n. ((prioritise c).priority ≤ℤ pos 99) ⊎ ((prioritise c).priority ≡ n +ℤ pos 1))
            (sym k.3) b.0;
      realtime = b.1;
      policy_match = prioritise_match c r.threads;
    }

-- Whatever settings the options gave, those that validation lets pass are as IsAccepted says; above 99
-- the priority can only be the default num_threads + 1.
pub validate-IsAccepted : (c d : Config) → validate c ≡ ok d → IsAccepted d
unfolding validate
validate-IsAccepted c d h = elim (Bool-cases (has_error c)) [
  | inl e ↦ cc e
  | inr e ↦
      let r = has_error-InRange c e in
      let m = clamped_range c r in
      let a = prioritised-IsAccepted (clamp_histogram c) (clamped_InRange c r) m.0 m.1 in
      subst IsAccepted (ground arith) a
]

-- A command line that is accepted leaves the histogram bound from 0 to HIST_MAX, at least one thread,
-- an oscilloscope reduction of at least 1, and of 1 unless verbose, a distance that is not -1, at most
-- one kind of alignment, a priority that is not negative and is at most 99 or num_threads + 1, and a
-- real-time policy exactly where the priority is not 0. Neither the interval nor the clock's number is
-- bounded.
pub process_options-IsAccepted :
    (max_cpus : ℤ) (os : List Opt) (d : Config) → process_options max_cpus os ≡ ok d → IsAccepted d
unfolding process_options
process_options-IsAccepted max_cpus os d h = accepted (apply_options max_cpus os defaults) h
  where
    accepted : (p : Parsed Config) → (p >>= validate) ≡ ok d → IsAccepted d
    accepted (ok c) e = validate-IsAccepted c d e
    accepted help_shown e = cc
    accepted usage_error e = cc
    accepted fatal e = cc

-- The settings behind validation, which look neither at the clock nor at the interval.
abbrev finish : Config → Config
finish c = prioritise (clamp_histogram c)

with_clock-prioritise :
    (c : Config) (k : ℤ)
    → prioritise (record c { clocksel = k }) ≡ record (prioritise c) { clocksel = k }
unfolding spread_priority match_policy default_priority
with_clock-prioritise c k = ground arith

with_interval-prioritise :
    (c : Config) (k : ℤ)
    → prioritise (record c { interval = k }) ≡ record (prioritise c) { interval = k }
unfolding spread_priority match_policy default_priority
with_interval-prioritise c k = ground arith

with_clock-finish :
    (c : Config) (k : ℤ) → finish (record c { clocksel = k }) ≡ record (finish c) { clocksel = k }
unfolding clamp_histogram
with_clock-finish c k = with_clock-prioritise (clamp_histogram c) k

with_interval-finish :
    (c : Config) (k : ℤ) → finish (record c { interval = k }) ≡ record (finish c) { interval = k }
unfolding clamp_histogram
with_interval-finish c k = with_interval-prioritise (clamp_histogram c) k

validate-ok : (c d : Config) → validate c ≡ ok d → (has_error c ≡ false) × (finish c ≡ d)
unfolding validate
validate-ok c d h = elim (Bool-cases (has_error c)) [ inl e ↦ cc e | inr e ↦ (e, ground arith) ]

ok-validate : (c d : Config) → has_error c ≡ false → finish c ≡ d → validate c ≡ ok d
unfolding validate
ok-validate c d e f = rw e (ap ok f)

-- The test of the clock number is one too wide: settings that are accepted with clock 1 are
-- accepted with clock 2 in its place, and the clock is then read from behind the array.
clock_two-accepted :
    (c d : Config)
    → validate (record c { clocksel = pos 1 }) ≡ ok d
    → (validate (record c { clocksel = pos 2 }) ≡ ok (record d { clocksel = pos 2 }))
      × (clock_of (record d { clocksel = pos 2 }) ≡ none)
unfolding has_error clock_of
clock_two-accepted c d h =
    let (e, f) = validate-ok (record c { clocksel = pos 1 }) d h in
    let g = with_clock-finish (record c { clocksel = pos 1 }) (pos 2) in
    (
      ok-validate (record c { clocksel = pos 2 }) (record d { clocksel = pos 2 }) e
          (g ∙ ap (λ (x : Config). record x { clocksel = pos 2 }) f),
      refl,
    )

-- Validation does not look at the interval: it accepts 0 wherever it accepts another.
interval_zero-accepted :
    (c d : Config)
    → validate c ≡ ok d
    → validate (record c { interval = pos 0 }) ≡ ok (record d { interval = pos 0 })
unfolding has_error
interval_zero-accepted c d h =
    let (e, f) = validate-ok c d h in
    ok-validate (record c { interval = pos 0 }) (record d { interval = pos 0 }) e
      (with_interval-finish c (pos 0) ∙ ap (λ (x : Config). record x { interval = pos 0 }) f)
