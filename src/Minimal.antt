-- ===== src/Minimal.antt =====
-- timerthread and print_stat of cyclictest_minimal.c, the cyclictest for QNX: one file of its own,
-- with the time arithmetic of src/cyclictest/cyclictest.c and the calcdiff of
-- src/signaltest/signaltest.c. The clock, the sleeping calls and the signals are the environment's.
-- The calls that arm and disarm a timer and the commands that set up a trace are left out.
pub mod Command
pub mod Print
mod Tests
use rt_tests.Base.{
  ℕ, zero, suc, ◌+◌, ◌-◌, ◌%◌, Bool, true, false, ◌&&◌, ◌||◌, not, Option, none, some, List, [],
  ◌∷◌, ◌==◌, if◌then◌else◌, get_or, set, replicate,
}
use rt_tests.Base.Int.{ℤ, pos, negsuc, ltb_ℤ, eqb_ℤ, ◌+ℤ◌}
use rt_tests.Base.Word.{add64, sub64}
use rt_tests.Cyclictest.Time.{Timespec, catch_up, advance, interval_of, total}
use rt_tests.Cyclictest.Timer.{Mode}
use rt_tests.Signaltest.{calcdiff}

-- VALBUF_SIZE
abbrev pub valbuf_size : ℕ
valbuf_size = 16384

-- struct thread_param; `absolute` is `timermode == TIMER_ABSTIME`.
pub record Param : Type 0 where
  pub prio : ℤ
  pub mode : Mode
  pub absolute : Bool
  pub max_cycles : ℕ
  pub bufmsk : ℕ
  pub interval : ℕ

-- struct thread_stat; `avg`, a double, sums whole numbers.
pub record Stat : Type 0 where
  pub cycles : ℕ
  pub cyclesread : ℕ
  pub min : ℤ
  pub max : ℤ
  pub act : ℤ
  pub avg : ℤ
  pub values : List ℤ
  pub threadstarted : ℤ

-- The block that main sets up.
unfoldable pub fresh : Bool → Stat
fresh verbose = record {
  cycles = 0;
  cyclesread = 0;
  min = pos 1_000_000;
  max = negsuc 999_999;
  act = pos 0;
  avg = pos 0;
  values = if verbose then replicate valbuf_size (pos 0) else [];
  threadstarted = pos 1;
}

-- The statistics of a round; `values` is written after `cycles++`.
unfoldable pub note : ℕ → ℤ → Stat → Stat
unfolding ◌+ℤ◌
note bufmsk diff s = record s {
  min = if ltb_ℤ diff s.min then diff else s.min;
  max = if ltb_ℤ s.max diff then diff else s.max;
  avg = s.avg +ℤ diff;
  act = diff;
  cycles = add64 s.cycles 1;
  values = if bufmsk == 0 then s.values else set s.values (add64 s.cycles 1 % (bufmsk + 1)) diff;
}

unfoldable pub note_all : ℕ → List ℤ → Stat → Stat
note_all bufmsk [] s = s
note_all bufmsk (diff ∷ diffs) s = note_all bufmsk diffs (note bufmsk diff s)

-- The thread's variables and the global `shutdown`.
pub record Running : Type 0 where
  pub now : Timespec
  pub next : Timespec
  pub stat : Stat
  pub stopped : Bool
  pub shutdown : ℕ

-- A round: whether a signal set `shutdown`, whether sigwait succeeded, the clock before the sleep
-- (read in the relative modes) and after it. The results of the sleeping calls are not looked at.
pub record Round : Type 0 where
  pub stop_seen : Bool
  pub sigwait_ok : Bool
  pub before : Timespec
  pub woke : Timespec

-- `again`: the loop goes on. `out`: it is left. `hung`: the catch-up loop does not end.
pub data Outcome : Type 0 where
  again out : Running → Outcome
  hung : Outcome

-- "Wait for next period": the new `next`, or `none` for `goto out`.
unfoldable pub wait_period : Mode → Bool → Timespec → Round → Timespec → Option Timespec
wait_period Mode.cyclic absolute interval r next = if r.sigwait_ok then some next else none
wait_period Mode.sys_itimer absolute interval r next = if r.sigwait_ok then some next else none
wait_period Mode.clock_nanosleep absolute interval r next =
    if absolute then some next else some (advance r.before interval)
wait_period Mode.sys_nanosleep absolute interval r next = some (advance r.before interval)

-- `if (!stopped && tracelimit && (diff > tracelimit))`
unfoldable pub check_break : ℤ → ℤ → Running → Running
check_break tracelimit diff s =
    if not s.stopped && (not (eqb_ℤ tracelimit (pos 0)) && ltb_ℤ tracelimit diff)
    then record s { stopped = true; shutdown = s.shutdown + 1 }
    else s

-- `if (par->max_cycles && par->max_cycles == stat->cycles) break`
unfoldable pub check_cycles : Param → Running → Outcome
check_cycles par s =
    if not (par.max_cycles == 0) && par.max_cycles == s.stat.cycles then out s else again s

-- What follows clock_gettime in a round.
unfoldable pub measure : ℤ → Param → Timespec → Running → Outcome
measure tracelimit par interval s =
    let diff = calcdiff s.now s.next in
    let s' = check_break tracelimit diff s in
    let next = advance s.next interval in
    elim (catch_up (suc (total s.now - total next)) s.now interval next) [
      | none ↦ hung
      | some next' ↦
          check_cycles par (record s' { stat = note par.bufmsk diff s.stat; next = next' })
    ]

-- One round of `while (!shutdown)`.
unfoldable pub round : ℤ → Param → Timespec → Round → Running → Outcome
round tracelimit par interval r s =
    if r.stop_seen || not (s.shutdown == 0)
    then out s
    else elim (wait_period par.mode par.absolute interval r s.next) [
      | none ↦ out s
      | some next ↦ measure tracelimit par interval (record s { next = next; now = r.woke })
    ]

-- The loop goes on only from `again`.
unfoldable pub follow : (Running → Outcome) → Outcome → Outcome
follow f (again s) = f s
follow f (out s) = out s
follow f hung = hung

unfoldable pub rounds : ℤ → Param → Timespec → List Round → Running → Outcome
rounds tracelimit par interval [] s = again s
rounds tracelimit par interval (r ∷ rs) s =
    follow (rounds tracelimit par interval rs) (round tracelimit par interval r s)

-- From the first reading of the clock to the loop.
unfoldable pub begin : Param → Timespec → Stat → Running
unfolding ◌+ℤ◌
begin par t stat = record {
  now = t;
  next = advance t (interval_of par.interval);
  stat = record stat { threadstarted = stat.threadstarted +ℤ pos 1 };
  stopped = false;
  shutdown = 0;
}

-- "switch to normal", and the last assignment.
unfoldable pub leave : Running → Running
leave s = record s { stat = record s.stat { threadstarted = negsuc 0 } }
