-- ===== src/Cyclictest/Thread.antt =====
-- timerthread of src/cyclictest/cyclictest.c from its first call to its last: the set-up, the loop
-- of Timer, and what follows the label `out`.
pub mod Clean
pub mod Aligned
use rt_tests.Base.{
  ℕ, ◌+◌, Bool, true, false, Option, none, some, List, [], ◌∷◌, ◌==◌, if◌then◌else◌,
}
use rt_tests.Base.Int.{ℤ, pos, negsuc, pos_part, ◌+ℤ◌, eqb_ℤ}
use rt_tests.Cyclictest.Time.{Timespec, interval_of, advance}
use rt_tests.Cyclictest.Stat.{ThreadStat}
use rt_tests.Cyclictest.Timer.{
  Mode, cyclic, clock_nanosleep, sys_itimer, sys_nanosleep, Settings, ThreadParam, Call,
  timer_create, timer_delete, itimer_on, itimer_off, set_normal, timer_settime, Running, Round,
  Outcome, again, out, hung, align_start, first_now, rounds,
}

-- What the thread finds: whether setscheduler succeeds, its thread id, the clock as it reads it and
-- as thread 0 reads it for `globalt`, its block, and the shared variables.
pub record Begin : Type 0 where
  pub prio_ok : Bool
  pub tid : ℕ
  pub own : Timespec
  pub global : Timespec
  pub stat : ThreadStat
  pub shutdown : ℕ
  pub break_thread_id : ℕ
  pub break_thread_value : ℕ

-- `fatal`: the process ends. `running`: the rounds given have passed. `stuck`: a loop that does not end.
pub data Result : Type 0 where
  fatal stuck : Result
  running finished : Running → Result

-- timer_create before the clock is read; timer_settime or setitimer after it.
unfoldable pub arm : Mode → Bool → Timespec → Timespec → List Call
arm cyclic absolute interval next =
    timer_settime (if absolute then next else interval) ∷ timer_create ∷ []
arm sys_itimer absolute interval next = itimer_on ∷ []
arm _ absolute interval next = []

-- The instant at which `duration` has passed. (A duration below zero that would lead before
-- second 0 is cut there, and with no duration the result is not used.)
unfoldable pub stop_time : Settings → Timespec → Timespec
unfolding ◌+ℤ◌
stop_time set now =
    if eqb_ℤ set.duration (pos 0)
    then now
    else record now { sec = pos_part (pos now.sec +ℤ set.duration) }

-- The variables as the loop finds them.
unfoldable pub begin : Settings → ThreadParam → Begin → Running
begin set par b =
    let now = first_now set par (align_start set b.global) b.own in
    let next = advance now (interval_of par.interval) in
    record {
      now = now;
      next = next;
      stat = record b.stat { tid = b.tid; threadstarted = b.stat.threadstarted +ℤ pos 1 };
      stopped = false;
      shutdown = b.shutdown;
      break_thread_id = b.break_thread_id;
      break_thread_value = b.break_thread_value;
      calls = arm par.mode par.absolute (interval_of par.interval) next;
    }

-- What follows `out:`.
unfoldable pub disarm : Mode → List Call → List Call
disarm cyclic calls = set_normal ∷ timer_delete ∷ calls
disarm sys_itimer calls = set_normal ∷ itimer_off ∷ calls
disarm _ calls = set_normal ∷ calls

unfoldable pub leave : ThreadParam → Running → Running
leave par s = record s {
  calls = disarm par.mode s.calls;
  stat = record s.stat { threadstarted = negsuc 0 };
}

unfoldable pub conclude : ThreadParam → Outcome → Result
conclude par (again s) = running s
conclude par (out s) = finished (leave par s)
conclude par hung = stuck

unfoldable pub timerthread : Settings → ThreadParam → Begin → List Round → Result
timerthread set par b rs =
    if b.prio_ok
    then (let s = begin set par b in
        conclude par (rounds set par (interval_of par.interval) (stop_time set s.now) rs s))
    else fatal
