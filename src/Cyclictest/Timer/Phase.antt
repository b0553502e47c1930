-- ===== src/Cyclictest/Timer/Phase.antt =====
-- A round of timerthread: what it does to `next`, and that it ends.
use rt_tests.Base.{
  ℕ, suc, ◌+◌, ◌-◌, ◌*◌, ◌≤◌, ◌<◌, ◌≡◌, sym, ◌∙◌, ap, some, arith, inl, inr, Bool-cases, not, ◌==◌,
  ◌&&◌,
}
use mathlib.Core.Path.{subst}
use rt_tests.Base.Word.{add64}
use rt_tests.Cyclictest.Time.{Timespec, catch_up, total, IsNormal}
use rt_tests.Cyclictest.Time.Norm.{tsnorm_lem}
use rt_tests.Cyclictest.Time.Catchup.{catch_up_total}
use rt_tests.Cyclictest.Stat.{ThreadStat, note_cycle, note_histogram, note_value}
use rt_tests.Cyclictest.Timer.{
  Mode, Settings, ThreadParam, Running, Round, Outcome, again, out, hung, check_duration,
  check_break, check_cycles, add_overrun, step_next, note_latency, note_rest, end_round, follow,
  cyclic, clock_nanosleep, sys_itimer, sys_nanosleep,
}

add_overrun_lem :
    (m : Mode) (interval : Timespec) (r : Round) (next : Timespec)
    → (k : ℕ) × (total (add_overrun m interval r next) ≡ total next + k * total interval)
unfolding add_overrun
add_overrun_lem cyclic interval r next = (r.overrun, omega arith)
add_overrun_lem clock_nanosleep interval r next = (0, omega arith)
add_overrun_lem sys_itimer interval r next = (0, omega arith)
add_overrun_lem sys_nanosleep interval r next = (0, omega arith)

-- step_next adds a whole number of intervals, at least one, and normalises.
pub step_next_lem :
    (par : ThreadParam) (interval : Timespec) (r : Round) (next : Timespec)
    → (k : ℕ) × (total (step_next par interval r next) ≡ total next + (k + 1) * total interval)
      × IsNormal (step_next par interval r next)
unfolding step_next
step_next_lem par interval r next =
    let base : Timespec = record {
      sec = next.sec + interval.sec;
      nsec = next.nsec + interval.nsec;
    } in
    let (k, e) = add_overrun_lem par.mode interval r base in
    let n = tsnorm_lem (add_overrun par.mode interval r base) in (k, omega (arith, n, e), n.1)

-- What the way out of a round leaves: still in step with `next`, at or after `now`.
pub record InStep (interval before : Timespec) (s : Running) : Type 0 where
  pub rounds : ℕ
  pub in_step : total s.next ≡ total before + rounds * total interval
  pub normal : IsNormal s.next
  pub reached : total s.now ≤ total s.next

-- The round ends, and either way out has the property.
abbrev pub Ends : (Running → Type 0) → Outcome → Type 0
Ends P (again s) = P s
Ends P (out s) = P s
Ends P hung = ⊥

pub Ends-check_cycles :
    (P : Running → Type 0) (par : ThreadParam) (s : Running) → P s → Ends P (check_cycles par s)
unfolding check_cycles
Ends-check_cycles P par s h =
    elim (Bool-cases (not (par.max_cycles == 0) && par.max_cycles == s.stat.cycles)) [
      | inl e ↦ rw e h
      | inr e ↦ rw e h
    ]

pub end_round_eq :
    (par : ThreadParam) (interval : Timespec) (r : Round) (s : Running) (next' : Timespec)
    → let next = step_next par interval r s.next in
      catch_up (suc (total s.now - total next)) s.now interval next ≡ some next'
      → end_round par interval r s ≡ check_cycles par (record s { next = next' })
unfolding end_round
end_round_eq par interval r s next' f = rw (f, end_round)

pub end_round_lem :
    (par : ThreadParam) (interval : Timespec) (r : Round) (s : Running)
    → 0 < total interval
    → IsNormal s.now
    → Ends (InStep interval s.next) (end_round par interval r s)
end_round_lem par interval r s pi nn =
    let next : Timespec = step_next par interval r s.next in
    let (k, e, n) = step_next_lem par interval r s.next in
    let (next', f, c) =
      catch_up_total (suc (total s.now - total next)) s.now interval next nn n pi (omega arith) in
    subst (Ends (InStep interval s.next)) (sym (end_round_eq par interval r s next' f)) (
      Ends-check_cycles (InStep interval s.next) par (record s { next = next' })
        (record {
          rounds = k + 1 + c.rounds;
          in_step = omega (arith, e, c.in_step);
          normal = c.normal;
          reached = c.reached;
        }))

check_duration_keeps :
    (set : Settings) (stop : Timespec) (s : Running)
    → let s' = check_duration set stop s in
      (s'.now ≡ s.now) × (s'.next ≡ s.next) × (s'.stat ≡ s.stat)
unfolding check_duration
check_duration_keeps set stop s = ground arith

check_break_keeps :
    (set : Settings) (diff : ℕ) (s : Running)
    → let s' = check_break set diff s in (s'.now ≡ s.now) × (s'.next ≡ s.next) × (s'.stat ≡ s.stat)
unfolding check_break
check_break_keeps set diff s = ground arith

-- What stands before `end_round` in a round.
abbrev pub noted : Settings → ThreadParam → Timespec → ℕ → Running → Running
noted set par stop diff s =
    note_rest set par diff
      (check_break set diff (check_duration set stop (note_latency set diff s)))

note_rest_stat : Settings → ThreadParam → ℕ → ThreadStat → ThreadStat
note_rest_stat set par diff stat =
    let noted = note_histogram set.histogram diff (note_value par.bufmsk diff stat) in
    record noted { cycles = add64 noted.cycles 1 }

-- The parts of a round before its end leave `now` and `next` alone, and note the latency.
pub noted_lem :
    (set : Settings) (par : ThreadParam) (stop : Timespec) (diff : ℕ) (s : Running)
    → let s' = noted set par stop diff s in
      (s'.now ≡ s.now)
      × (s'.next ≡ s.next)
      × (s'.stat ≡ note_cycle set.histogram par.bufmsk diff s.stat)
unfolding note_rest note_cycle note_latency note_rest_stat
noted_lem set par stop diff s =
    let a = check_duration_keeps set stop (note_latency set diff s) in
    let b = check_break_keeps set diff (check_duration set stop (note_latency set diff s)) in
    (b.0 ∙ a.0, b.1 ∙ a.1, ap (λ st. note_rest_stat set par diff st) (b.2 ∙ a.2))

pub Ends-follow :
    (P Q : Running → Type 0) (f : Running → Outcome) (o : Outcome)
    → Ends P o
    → ((s : Running) → P s → Ends Q (f s))
    → ((s : Running) → P s → Q s)
    → Ends Q (follow f o)
unfolding follow
Ends-follow P Q f (again s) e more stop = more s e
Ends-follow P Q f (out s) e more stop = stop s e
Ends-follow P Q f hung e more stop = e

-- What holds of the state if the loop is left or goes on; nothing is said if it hangs.
abbrev pub Holds : (Running → Type 0) → Outcome → Type 0
Holds P (again s) = P s
Holds P (out s) = P s
Holds P hung = Unit

pub Holds-follow :
    (P Q : Running → Type 0) (f : Running → Outcome) (o : Outcome)
    → Holds P o
    → ((s : Running) → P s → Holds Q (f s))
    → ((s : Running) → P s → Q s)
    → Holds Q (follow f o)
unfolding follow
Holds-follow P Q f (again s) e more stop = more s e
Holds-follow P Q f (out s) e more stop = stop s e
Holds-follow P Q f hung e more stop = tt
