-- ===== src/Cyclictest/Thread/Clean.antt =====
-- A thread that leaves its loop, for whatever reason, has disarmed what it armed.
use rt_tests.Base.{
  Bool-cases, inl, inr, ℕ, ◌≡◌, refl, ◌∙◌, ap, Bool, true, false, List, [], ◌∷◌, arith,
}
use rt_tests.Base.Int.{ℤ, pos, negsuc, ◌+ℤ◌}
use rt_tests.Cyclictest.Time.{Timespec, interval_of}
use rt_tests.Cyclictest.Stat.{
  ThreadStat, note_extremes, note_value, note_overflow, note_bucket, note_histogram, note_cycle,
}
use rt_tests.Cyclictest.Timer.{
  Mode, cyclic, clock_nanosleep, sys_itimer, sys_nanosleep, Settings, ThreadParam, Call,
  timer_create, timer_delete, itimer_on, itimer_off, Running, Round, Outcome, again, out, hung,
  note_latency, note_rest, check_break, check_duration,
}
use rt_tests.Cyclictest.Timer.Phase.{Holds, noted, noted_lem}
use rt_tests.Cyclictest.Timer.Keep.{rounds-keeps}
use rt_tests.Cyclictest.Thread.{
  Begin, Result, fatal, stuck, running, finished, arm, begin, disarm, leave, conclude, stop_time,
  timerthread,
}

-- How many timers are created and not deleted, and whether the interval timer runs, after the
-- calls (the last one first).
abbrev pub live_timers : List Call → ℤ
live_timers [] = pos 0
live_timers (timer_create ∷ cs) = live_timers cs +ℤ pos 1
live_timers (timer_delete ∷ cs) = live_timers cs +ℤ negsuc 0
live_timers (c ∷ cs) = live_timers cs

abbrev pub itimer_runs : List Call → Bool
itimer_runs [] = false
itimer_runs (itimer_on ∷ cs) = true
itimer_runs (itimer_off ∷ cs) = false
itimer_runs (c ∷ cs) = itimer_runs cs

-- Nothing was armed or disarmed since `s`, and `threadstarted` is as it was.
record SameTimers (s s' : Running) : Type 0 where
  timers : live_timers s'.calls ≡ live_timers s.calls
  itimer : itimer_runs s'.calls ≡ itimer_runs s.calls
  started : s'.stat.threadstarted ≡ s.stat.threadstarted

note_cycle-started :
    (h b d : ℕ) (stat : ThreadStat) → (note_cycle h b d stat).threadstarted ≡ stat.threadstarted
unfolding note_cycle note_histogram note_overflow note_bucket note_value note_extremes
note_cycle-started h b d stat = ground arith

noted-timers :
    (set : Settings) (par : ThreadParam) (stop : Timespec) (diff : ℕ) (s : Running)
    → let s' = noted set par stop diff s in
      (live_timers s'.calls ≡ live_timers s.calls) × (itimer_runs s'.calls ≡ itimer_runs s.calls)
unfolding note_rest check_break check_duration note_latency
noted-timers set par stop diff s = ground arith

noted-SameTimers :
    (set : Settings) (par : ThreadParam) (stop : Timespec) (before : Running) (diff : ℕ)
    (s : Running)
    → SameTimers before s
    → SameTimers before (noted set par stop diff s)
noted-SameTimers set par stop before diff s k =
    let n = noted-timers set par stop diff s in
    record {
      timers = n.0 ∙ k.timers;
      itimer = n.1 ∙ k.itimer;
      started =
          ap (λ (t : ThreadStat). t.threadstarted) (noted_lem set par stop diff s).2
          ∙ note_cycle-started set.histogram par.bufmsk diff s.stat
          ∙ k.started;
    }

arm-disarm :
    (m : Mode) (absolute : Bool) (interval next : Timespec) (calls : List Call)
    → live_timers calls ≡ live_timers (arm m absolute interval next)
    → itimer_runs calls ≡ itimer_runs (arm m absolute interval next)
    → (live_timers (disarm m calls) ≡ pos 0) × (itimer_runs (disarm m calls) ≡ false)
unfolding arm disarm ◌+ℤ◌
arm-disarm cyclic absolute interval next calls e f = (rw e refl, f)
arm-disarm clock_nanosleep absolute interval next calls e f = (e, f)
arm-disarm sys_itimer absolute interval next calls e f = (e, refl)
arm-disarm sys_nanosleep absolute interval next calls e f = (e, f)

-- What is known of a result.
abbrev pub IsClean : ℤ → Result → Type 0
IsClean started fatal = Unit
IsClean started stuck = Unit
IsClean started (running s) = s.stat.threadstarted ≡ started +ℤ pos 1
IsClean started (finished s) =
    (live_timers s.calls ≡ pos 0)
    × (itimer_runs s.calls ≡ false)
    × (s.stat.threadstarted ≡ negsuc 0)

conclude-IsClean :
    (set : Settings) (par : ThreadParam) (b : Begin) (o : Outcome)
    → Holds (SameTimers (begin set par b)) o
    → IsClean b.stat.threadstarted (conclude par o)
unfolding conclude leave begin
conclude-IsClean set par b (again s) k = k.started
conclude-IsClean set par b (out s) k =
    let a = arm-disarm par.mode par.absolute _ _ s.calls k.timers k.itimer in (a.0, a.1, refl)
conclude-IsClean set par b hung k = tt

-- A thread that has left its loop has deleted the timer it created and stopped the interval timer
-- it started, and `threadstarted` is -1; while it runs, `threadstarted` is one above what main set.
pub timerthread-IsClean :
    (set : Settings) (par : ThreadParam) (b : Begin) (rs : List Round)
    → IsClean b.stat.threadstarted (timerthread set par b rs)
unfolding timerthread begin
timerthread-IsClean set par b rs = elim (Bool-cases b.prio_ok) [
  | inl e ↦
      rw (e, timerthread, IsClean)
        (conclude-IsClean set par b _ (
          rounds-keeps set par (interval_of par.interval) (stop_time set (begin set par b).now)
            (SameTimers (begin set par b))
            (λ now next s k. record { timers = k.timers; itimer = k.itimer; started = k.started })
            (noted-SameTimers set par (stop_time set (begin set par b).now) (begin set par b)) rs
            (begin set par b) (record { timers = refl; itimer = refl; started = refl })))
  | inr e ↦ rw (e, timerthread, IsClean) tt
]
