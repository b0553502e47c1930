-- ===== src/Cyclictest/Timer/Rounds.antt =====
-- The loop of timerthread in the modes that keep an absolute wake-up time.
use rt_tests.Base.{
  ◌+◌, ◌≤◌, ◌<◌, ◌≡◌, ◌⊎◌, Bool, true, false, Option, none, some, List, [], ◌∷◌, arith, inl, inr,
  Bool-cases, Option-cases, not, ◌==◌, ◌||◌,
}
use mathlib.Core.Path.{subst}
use rt_tests.Cyclictest.Time.{Timespec, total, IsNormal}
use rt_tests.Cyclictest.Timer.{
  Mode, Settings, ThreadParam, Running, Round, Outcome, again, out, hung, wait_period, latency,
  end_round, measure, round, rounds, cyclic, clock_nanosleep, sys_itimer, sys_nanosleep,
}
use rt_tests.Cyclictest.Timer.Phase.{InStep, Ends, Ends-follow, noted, noted_lem, end_round_lem}

-- Whether the mode takes a new wake-up time from the clock in every round.
abbrev pub relative : Mode → Bool → Bool
relative clock_nanosleep absolute = not absolute
relative sys_nanosleep absolute = true
relative _ absolute = false

wait_keeps :
    (m : Mode) (absolute : Bool) (interval : Timespec) (r : Round) (next : Timespec)
    → relative m absolute ≡ false
    → (wait_period m absolute interval r next ≡ none)
      ⊎ (wait_period m absolute interval r next ≡ some next)
unfolding wait_period
wait_keeps cyclic absolute interval r next h = ground arith
wait_keeps sys_itimer absolute interval r next h = ground arith
wait_keeps clock_nanosleep true interval r next h = ground arith
wait_keeps clock_nanosleep false interval r next h = cc
wait_keeps sys_nanosleep absolute interval r next h = cc

-- Every clock reading after a sleep is normalised.
abbrev pub IsReading : Option Timespec → Type 0
IsReading none = Unit
IsReading (some t) = IsNormal t

abbrev pub AllReadings : List Round → Type 0
AllReadings [] = Unit
AllReadings (r ∷ rs) = IsReading r.woke × AllReadings rs

Ends-map :
    (P Q : Running → Type 0) (o : Outcome) → ((s : Running) → P s → Q s) → Ends P o → Ends Q o
Ends-map P Q (again s) f e = f s e
Ends-map P Q (out s) f e = f s e
Ends-map P Q hung f e = e

InStep-trans :
    {interval before : Timespec} {s t : Running}
    → InStep interval before s
    → InStep interval s.next t
    → InStep interval before t
InStep-trans {interval} i j = record {
  rounds = i.rounds + j.rounds;
  in_step = omega (arith, i.in_step, j.in_step);
  normal = j.normal;
  reached = j.reached;
}

module _ (set : Settings) (par : ThreadParam) (interval stop : Timespec)
    (keeps : relative par.mode par.absolute ≡ false) (pi : 0 < total interval) where
  stays : (s : Running) → IsNormal s.next → total s.now ≤ total s.next → InStep interval s.next s
  stays s n h = record { rounds = 0; in_step = omega arith; normal = n; reached = h }

  measure_lem :
      (r : Round) (s : Running)
      → IsNormal s.now
      → Ends (InStep interval s.next) (measure set par interval stop r s)
  unfolding measure
  measure_lem r s nn =
      let diff = latency set s.now s.next in
      let f = noted_lem set par stop diff s in
      let e = end_round_lem par interval r (noted set par stop diff s) pi (rw f.0 nn) in
      subst (λ n. Ends (InStep interval n) (end_round par interval r (noted set par stop diff s)))
        f.1 e

  round_lem :
      (r : Round) (s : Running)
      → IsNormal s.next
      → total s.now ≤ total s.next
      → IsReading r.woke
      → Ends (InStep interval s.next) (round set par interval stop r s)
  unfolding round
  round_lem r s n h rd = elim (Bool-cases (r.stop_seen || not (s.shutdown == 0))) [
    | inl e ↦ rw (e, Ends, round) (stays s n h)
    | inr e ↦ elim (wait_keeps par.mode par.absolute interval r s.next keeps) [
      | inl w ↦ rw (e, w, Ends, round) (stays s n h)
      | inr w ↦ elim (Option-cases r.woke) [
        | inl k ↦ rw (e, w, k, Ends, round) (stays s n h)
        | inr (now, k) ↦
            rw (e, w, k, Ends, round)
              (measure_lem r (record s { now = now }) (subst IsReading k rd))
      ]
    ]
  ]

  -- From a wake-up time not in the past, any number of rounds ends: the catch-up loop is left in
  -- each, `next` is then a whole number of intervals after the first wake-up time, and not before `now`.
  pub rounds_lem :
      (rs : List Round) (s : Running)
      → IsNormal s.next
      → total s.now ≤ total s.next
      → AllReadings rs
      → Ends (InStep interval s.next) (rounds set par interval stop rs s)
  unfolding rounds
  rounds_lem [] s n h rd = stays s n h
  rounds_lem (r ∷ rs) s n h rd =
      Ends-follow (InStep interval s.next) (InStep interval s.next)
        (rounds set par interval stop rs) (round set par interval stop r s) (round_lem r s n h rd.0)
        (λ s' i.
          Ends-map (InStep interval s'.next) (InStep interval s.next)
            (rounds set par interval stop rs s') (λ s'' i'. InStep-trans i i')
            (rounds_lem rs s' i.normal i.reached rd.1))
        (λ s' i. i)
