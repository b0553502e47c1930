-- ===== src/Cyclictest/Tests.antt =====
-- Runs of the models of src/cyclictest/cyclictest.c at concrete inputs.
use rt_tests.Base.{ℕ, ◌≡◌, refl, true, false, none, some, List, [], ◌∷◌, arith, length-replicate}
use rt_tests.Base.Int.{pos}
use rt_tests.Cyclictest.Time.{Timespec, tsnorm, catch_up}
use rt_tests.Cyclictest.Time.Diff.{FitsInt}
use rt_tests.Cyclictest.Time.Catchup.{CaughtUp, catch_up_total}
use rt_tests.Cyclictest.Stat.{fresh_stat, note_all, valbuf_size}
use rt_tests.Cyclictest.Stat.Histogram.{Accounts, note_all-histogram}
use rt_tests.Cyclictest.Stat.Ring.{InRing}
use rt_tests.Cyclictest.Print.{print_stat}
use rt_tests.Cyclictest.Print.Lines.{IsReady, numbered, verbose_mask, print_stat-note_all}
use rt_tests.Cyclictest.Timer.{
  Settings, ThreadParam, Running, Round, clock_nanosleep, cyclic, rounds,
}
use rt_tests.Cyclictest.Timer.Phase.{Ends, InStep}
use rt_tests.Cyclictest.Timer.Rounds.{rounds_lem}
use rt_tests.Cyclictest.Timer.Notes.{RunNotes, rounds-notes}
use rt_tests.Cyclictest.Thread.{Begin, timerthread}
use rt_tests.Cyclictest.Thread.Clean.{IsClean, timerthread-IsClean}

abbrev at_time : ℕ → ℕ → Timespec
at_time s n = record { sec = s; nsec = n }

-- An overrun of more than a second has to be normalised twice.
tsnorm-twice : tsnorm (at_time 4 2_300_000_000) ≡ at_time 6 300_000_000
unfolding tsnorm
tsnorm-twice = refl

fits_late : FitsInt (at_time 5 1000)
fits_late = record { seconds = omega arith; normal = omega arith }

fits_early : FitsInt (at_time 4 999_999_500)
fits_early = record { seconds = omega arith; normal = omega arith }

-- Two and a half intervals late.
catch_up_total_example :
    (next' : Timespec) × (catch_up 2_600_000
        (at_time 7 2_500_000)
        (at_time 0 1_000_000)
        (at_time 7 0)
      ≡ some next')
    × CaughtUp (at_time 7 2_500_000) (at_time 0 1_000_000) (at_time 7 0) next'
catch_up_total_example =
    catch_up_total 2_600_000 (at_time 7 2_500_000) (at_time 0 1_000_000) (at_time 7 0) (omega arith)
      (omega arith) (omega arith) (omega arith)

abbrev some_latencies : List ℕ
some_latencies = 2 ∷ 7 ∷ 2 ∷ 1 ∷ 9 ∷ []

note_all-histogram_example :
    Accounts 4 some_latencies (note_all 4 0 some_latencies (fresh_stat 4 false))
note_all-histogram_example = note_all-histogram 4 0 false some_latencies (omega arith) (omega arith)

fresh-InRing : InRing (fresh_stat 0 true)
unfolding fresh_stat
fresh-InRing = record {
  room = length-replicate {A = ℕ} valbuf_size 0;
  behind = omega arith;
  near = omega arith;
}

fresh-IsReady : IsReady (fresh_stat 0 true)
unfolding fresh_stat
fresh-IsReady = record { no_reduce = refl; no_redmax = refl }

print_stat-note_all_example :
    let (lines, stat') =
      print_stat 1 3 verbose_mask (note_all 0 verbose_mask some_latencies (fresh_stat 0 true)) in
    (lines ≡ numbered 3 0 some_latencies) × (stat'.cyclesread ≡ 5) × IsReady stat'
unfolding fresh_stat
print_stat-note_all_example =
    print_stat-note_all 3 0 some_latencies (fresh_stat 0 true) fresh-InRing fresh-IsReady
      (omega arith) (omega arith) (omega arith)

abbrev settings : Settings
settings = record {
  use_nsecs = false;
  histogram = 0;
  duration = pos 0;
  tracelimit = pos 0;
  aligned = true;
  secaligned = false;
  offset = 250;
  refresh_on_max = false;
}

abbrev thread_two : ThreadParam
thread_two = record {
  mode = clock_nanosleep;
  absolute = true;
  max_cycles = 0;
  bufmsk = 0;
  interval = 1000;
  tnum = 2;
}

abbrev woken : ℕ → Round
woken ns = record {
  stop_seen = false;
  wait_ok = true;
  before = none;
  woke = some (at_time 1 ns);
  overrun = 0;
}

-- The second round wakes up two intervals late.
abbrev two_rounds : List Round
two_rounds = woken 1_020_000 ∷ woken 4_100_000 ∷ []

abbrev ready : Running
ready = record {
  now = at_time 1 0;
  next = at_time 1 1_000_000;
  stat = fresh_stat 0 false;
  stopped = false;
  shutdown = 0;
  break_thread_id = 0;
  break_thread_value = 0;
  calls = [];
}

rounds_lem_example :
    Ends
      (InStep (at_time 0 1_000_000) (at_time 1 1_000_000))
      (rounds settings thread_two (at_time 0 1_000_000) (at_time 0 0) two_rounds ready)
rounds_lem_example =
    rounds_lem settings thread_two (at_time 0 1_000_000) (at_time 0 0) refl (omega arith) two_rounds
      ready (omega arith) (omega arith) (omega arith)

rounds-notes_example :
    RunNotes settings thread_two
      (at_time 0 1_000_000)
      (at_time 0 0)
      two_rounds
      ready
      (rounds settings thread_two (at_time 0 1_000_000) (at_time 0 0) two_rounds ready)
rounds-notes_example =
    rounds-notes settings thread_two (at_time 0 1_000_000) (at_time 0 0) two_rounds ready

abbrev begun : Begin
begun = record {
  prio_ok = true;
  tid = 77;
  own = at_time 1 0;
  global = at_time 1 0;
  stat = fresh_stat 0 false;
  shutdown = 0;
  break_thread_id = 0;
  break_thread_value = 0;
}

-- A cyclic timer, and a round in which another thread has asked to stop.
timerthread-IsClean_example : IsClean begun.stat.threadstarted (
    timerthread settings
      (record thread_two { mode = cyclic })
      begun
      (woken 1_020_000 ∷ record (woken 0) { stop_seen = true } ∷ []))
timerthread-IsClean_example =
    timerthread-IsClean settings (record thread_two { mode = cyclic }) begun
      (woken 1_020_000 ∷ record (woken 0) { stop_seen = true } ∷ [])
