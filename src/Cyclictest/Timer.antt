-- ===== src/Cyclictest/Timer.antt =====
-- timerthread of src/cyclictest/cyclictest.c: set-up, the loop of rounds, and the way out.
-- The clock, the sleeping calls and the other threads are the environment's: what they give in a
-- round is a `Round`, and a run is a list of them. A failing call of setscheduler ends the process.
-- `offset` is taken to be at least 0.
pub mod Phase
pub mod Rounds
pub mod Notes
pub mod Keep
use rt_tests.Base.{
  ℕ, zero, suc, ◌+◌, ◌-◌, ◌*◌, ◌<◌, Bool, true, false, ◌&&◌, ◌||◌, not, Option, none, some, List,
  [], ◌∷◌, ltb, leb, ◌==◌, if◌then◌else◌,
}
use rt_tests.Base.Int.{ℤ, pos, negsuc, eqb_ℤ, leb_ℤ}
use rt_tests.Base.Word.{to_u64}
use rt_tests.Cyclictest.Time.{
  Timespec, tsnorm, interval_of, catch_up, calcdiff, calcdiff_ns, advance, total,
}
use rt_tests.Cyclictest.Stat.{ThreadStat, note_extremes, note_value, note_histogram}
use rt_tests.Base.Word.{add64}

-- MODE_CYCLIC, MODE_CLOCK_NANOSLEEP, MODE_SYS_ITIMER, MODE_SYS_NANOSLEEP
pub data Mode : Type 0 where
  cyclic clock_nanosleep sys_itimer sys_nanosleep : Mode

-- The file's variables that the thread reads.
pub record Settings : Type 0 where
  pub use_nsecs : Bool
  pub histogram : ℕ
  pub duration : ℤ
  pub tracelimit : ℤ
  pub aligned : Bool
  pub secaligned : Bool
  pub offset : ℕ
  pub refresh_on_max : Bool

-- struct thread_param; `absolute` is `timermode == TIMER_ABSTIME`.
pub record ThreadParam : Type 0 where
  pub mode : Mode
  pub absolute : Bool
  pub max_cycles : ℕ
  pub bufmsk : ℕ
  pub interval : ℕ
  pub tnum : ℕ

-- The calls that arm and disarm a timer, and the other effects of a round.
pub data Call : Type 0 where
  timer_create timer_delete itimer_on itimer_off set_normal : Call
  timer_settime : Timespec → Call
  cond_signal tracing_off : Call

-- The thread's variables, the shared ones among them, and its calls, the last one first.
pub record Running : Type 0 where
  pub now : Timespec
  pub next : Timespec
  pub stat : ThreadStat
  pub stopped : Bool
  pub shutdown : ℕ
  pub break_thread_id : ℕ
  pub break_thread_value : ℕ
  pub calls : List Call

-- A round: whether another thread or a signal set `shutdown`, whether the waiting call succeeded,
-- the clock before it (read in the relative modes) and after it, and timer_getoverrun.
pub record Round : Type 0 where
  pub stop_seen : Bool
  pub wait_ok : Bool
  pub before : Option Timespec
  pub woke : Option Timespec
  pub overrun : ℕ

-- `again`: the loop goes on. `out`: it is left. `hung`: the catch-up loop does not end.
pub data Outcome : Type 0 where
  again out : Running → Outcome
  hung : Outcome

-- `globalt` as thread 0 sets it from its clock.
unfoldable pub align_start : Settings → Timespec → Timespec
align_start set t =
    if set.secaligned
    then record { sec = if ltb 900_000_000 t.nsec then t.sec + 2 else t.sec + 1; nsec = 0 }
    else t

-- `now` before the first round, from `globalt` or from the thread's own clock.
unfoldable pub first_now : Settings → ThreadParam → Timespec → Timespec → Timespec
first_now set par globalt own =
    if set.aligned || set.secaligned
    then if set.offset == 0
      then globalt
      else tsnorm (record globalt {
        nsec = globalt.nsec + (if set.aligned then set.offset * par.tnum else set.offset);
      })
    else own

-- The sleep of a relative mode: `next` is an interval after the clock read before it.
unfoldable pub wait_relative : Timespec → Round → Option Timespec
wait_relative interval r = elim r.before [
  | none ↦ none
  | some t ↦ if r.wait_ok then some (advance t interval) else none
]

-- "Wait for next period": the new `next`, or `none` for `goto out`.
unfoldable pub wait_period : Mode → Bool → Timespec → Round → Timespec → Option Timespec
wait_period cyclic absolute interval r next = if r.wait_ok then some next else none
wait_period sys_itimer absolute interval r next = if r.wait_ok then some next else none
wait_period clock_nanosleep absolute interval r next =
    if absolute then (if r.wait_ok then some next else none) else wait_relative interval r
wait_period sys_nanosleep absolute interval r next = wait_relative interval r

-- The latency of a round as the uint64_t that the code holds.
unfoldable pub latency : Settings → Timespec → Timespec → ℕ
latency set now next = to_u64 (if set.use_nsecs then calcdiff_ns now next else calcdiff now next)

-- `if (duration && (calcdiff(now, stop) >= 0)) shutdown++`
unfoldable pub check_duration : Settings → Timespec → Running → Running
check_duration set stop s =
    if not (eqb_ℤ set.duration (pos 0)) && leb_ℤ (pos 0) (calcdiff s.now stop)
    then record s { shutdown = s.shutdown + 1 }
    else s

-- `if (!stopped && tracelimit && (diff > tracelimit))`
unfoldable pub check_break : Settings → ℕ → Running → Running
check_break set diff s =
    if not s.stopped && (not (eqb_ℤ set.tracelimit (pos 0)) && ltb (to_u64 set.tracelimit) diff)
    then record s {
      stopped = true;
      shutdown = s.shutdown + 1;
      break_thread_id = if s.break_thread_id == 0 then s.stat.tid else s.break_thread_id;
      break_thread_value = diff;
      calls = tracing_off ∷ s.calls;
    }
    else s

-- `if (par->mode == MODE_CYCLIC) ...`: the periods that the timer overran.
unfoldable pub add_overrun : Mode → Timespec → Round → Timespec → Timespec
add_overrun cyclic interval r next = record {
  sec = next.sec + r.overrun * interval.sec;
  nsec = next.nsec + r.overrun * interval.nsec;
}
add_overrun _ interval r next = next

-- The wake-up time before the catch-up loop.
unfoldable pub step_next : ThreadParam → Timespec → Round → Timespec → Timespec
step_next par interval r next = tsnorm (
    add_overrun par.mode interval r
      (record { sec = next.sec + interval.sec; nsec = next.nsec + interval.nsec }))

-- The statistics of a round, with the signal to the display thread on a new maximum.
unfoldable pub note_latency : Settings → ℕ → Running → Running
note_latency set diff s = record s {
  stat = note_extremes diff s.stat;
  calls = if ltb s.stat.max diff && set.refresh_on_max then cond_signal ∷ s.calls else s.calls;
}

unfoldable pub note_rest : Settings → ThreadParam → ℕ → Running → Running
note_rest set par diff s =
    let noted = note_histogram set.histogram diff (note_value par.bufmsk diff s.stat) in
    record s { stat = record noted { cycles = add64 noted.cycles 1 } }

-- `if (par->max_cycles && par->max_cycles == stat->cycles) break`
unfoldable pub check_cycles : ThreadParam → Running → Outcome
check_cycles par s =
    if not (par.max_cycles == 0) && par.max_cycles == s.stat.cycles then out s else again s

-- The end of a round: `next` moves on, and catches up with `now`.
unfoldable pub end_round : ThreadParam → Timespec → Round → Running → Outcome
end_round par interval r s =
    let next = step_next par interval r s.next in
    elim (catch_up (suc (total s.now - total next)) s.now interval next) [
      | none ↦ hung
      | some next' ↦ check_cycles par (record s { next = next' })
    ]

-- What follows clock_gettime in a round.
unfoldable pub measure : Settings → ThreadParam → Timespec → Timespec → Round → Running → Outcome
measure set par interval stop r s =
    let diff = latency set s.now s.next in
    end_round par interval r (
      note_rest set par diff
        (check_break set diff (check_duration set stop (note_latency set diff s))))

-- One round of `while (!shutdown)`.
unfoldable pub round : Settings → ThreadParam → Timespec → Timespec → Round → Running → Outcome
round set par interval stop r s =
    if r.stop_seen || not (s.shutdown == 0)
    then out s
    else elim (wait_period par.mode par.absolute interval r s.next) [
      | none ↦ out s
      | some next ↦ elim r.woke [
        | none ↦ out (record s { next = next })
        | some now ↦ measure set par interval stop r (record s { next = next; now = now })
      ]
    ]

-- The loop goes on only from `again`.
unfoldable pub follow : (Running → Outcome) → Outcome → Outcome
follow f (again s) = f s
follow f (out s) = out s
follow f hung = hung

unfoldable pub rounds :
    Settings → ThreadParam → Timespec → Timespec → List Round → Running → Outcome
rounds set par interval stop [] s = again s
rounds set par interval stop (r ∷ rs) s =
    follow (rounds set par interval stop rs) (round set par interval stop r s)
