-- ===== src/ClassicPi/Machine.antt =====
-- The steps of the threads of classic_pi and the processor that they share.
use rt_tests.Base.{ℕ, zero, suc, Bool, true, false, ◌&&◌, not, Option, none, some, if◌then◌else◌}
use rt_tests.Base.Int.{ℤ}
use rt_tests.ClassicPi.{
  Low, Med, High, Main, Owner, State, Who, block, wait_ready, wait_start, wait_locked, wait_elevate,
  wait_finish, wait_done, is_positive, decrement, is_free, is_low, low_locks, high_locks,
}

-- A step of low_priority.
unfoldable pub low_step : Low → State → State
unfolding is_positive decrement wait_ready wait_start wait_locked wait_elevate wait_finish wait_done
    block
low_step Low.ready s = wait_ready Who.low s
low_step Low.check s = record s {
  low = if is_positive s.low_inversions then Low.start else Low.exit;
  low_inversions = decrement s.low_inversions;
}
low_step Low.start s = wait_start Who.low s
low_step Low.lock s =
    if is_free s.mutex then record s { mutex = Owner.low; low = Low.locked } else block Who.low s
low_step Low.locked s = wait_locked Who.low s
low_step Low.clear s = record s { low_unlocked = false; low = Low.elevate }
low_step Low.elevate s = wait_elevate Who.low s
low_step Low.set s = record s { low_unlocked = true; low = Low.unlock }
low_step Low.unlock s = record s {
  mutex = Owner.free;
  high_waits = if high_locks s.high then false else s.high_waits;
  low = Low.finish;
}
low_step Low.finish s = wait_finish Who.low s
low_step Low.exit s = wait_done Who.low s
low_step Low.over s = s

-- A step of med_priority.
unfoldable pub med_step : Med → State → State
unfolding is_positive decrement wait_ready wait_start wait_elevate wait_finish wait_done
med_step Med.ready s = wait_ready Who.med s
med_step Med.check s = record s {
  med = if is_positive s.med_inversions then Med.start else Med.exit;
  med_inversions = decrement s.med_inversions;
}
med_step Med.start s = wait_start Who.med s
med_step Med.elevate s = wait_elevate Who.med s
med_step Med.test s = record s {
  med = if not s.high_has_run && not s.low_unlocked then Med.elevate else Med.finish;
}
med_step Med.finish s = wait_finish Who.med s
med_step Med.exit s = wait_done Who.med s
med_step Med.over s = s

-- A step of high_priority.
unfoldable pub high_step : High → State → State
unfolding is_positive decrement wait_ready wait_start wait_locked wait_finish wait_done block
high_step High.ready s = wait_ready Who.high s
high_step High.check s = record s {
  high = if is_positive s.high_inversions then High.clear else High.exit;
  high_inversions = decrement s.high_inversions;
}
high_step High.clear s = record s { high_has_run = false; high = High.start }
high_step High.start s = wait_start Who.high s
high_step High.locked s = wait_locked Who.high s
high_step High.lock s =
    if is_free s.mutex then record s { mutex = Owner.high; high = High.set } else block Who.high s
high_step High.set s = record s { high_has_run = true; high = High.unlock }
high_step High.unlock s = record s {
  mutex = Owner.free;
  low_waits = if low_locks s.low then false else s.low_waits;
  high = High.finish;
}
high_step High.finish s = wait_finish Who.high s
high_step High.exit s = wait_done Who.high s
high_step High.over s = s

unfoldable pub main_step : Main → State → State
unfolding wait_ready wait_done
main_step Main.ready s = wait_ready Who.main s
main_step Main.exit s = wait_done Who.main s
main_step Main.over s = s

abbrev pub main_over : Main → Bool
main_over Main.over = true
main_over _ = false

abbrev pub low_over : Low → Bool
low_over Low.over = true
low_over _ = false

abbrev pub med_over : Med → Bool
med_over Med.over = true
med_over _ = false

abbrev pub high_over : High → Bool
high_over High.over = true
high_over _ = false

-- Whether low_priority has the priority of high_priority, which waits for its mutex.
abbrev pub is_boosted : Bool → State → Bool
is_boosted use_pi_mutex s = use_pi_mutex && is_low s.mutex && high_locks s.high && s.high_waits

-- The thread that runs: MAIN_PRIO is above HIGH_PRIO, that above MED_PRIO, that above LOW_PRIO.
unfoldable pub schedule : Bool → State → Option Who
schedule use_pi_mutex s =
    if not s.main_waits && not (main_over s.main)
    then some Who.main
    else if not s.high_waits && not (high_over s.high)
    then some Who.high
    else if not s.low_waits && not (low_over s.low) && is_boosted use_pi_mutex s
    then some Who.low
    else if not s.med_waits && not (med_over s.med)
    then some Who.med
    else if not s.low_waits && not (low_over s.low)
    then some Who.low
    else none

unfoldable pub step_of : Option Who → State → State
unfolding main_step low_step med_step high_step
step_of none s = s
step_of (some Who.main) s = main_step s.main s
step_of (some Who.low) s = low_step s.low s
step_of (some Who.med) s = med_step s.med s
step_of (some Who.high) s = high_step s.high s

-- `n` steps.
unfoldable pub run : Bool → ℕ → State → State
unfolding schedule step_of
run use_pi_mutex zero s = s
run use_pi_mutex (suc n) s = run use_pi_mutex n (step_of (schedule use_pi_mutex s) s)

-- When main has created the threads.
abbrev pub created : ℤ → State
created inversions = record {
  main = Main.ready;
  low = Low.ready;
  med = Med.ready;
  high = High.ready;
  main_waits = false;
  low_waits = false;
  med_waits = false;
  high_waits = false;
  low_inversions = inversions;
  med_inversions = inversions;
  high_inversions = inversions;
  mutex = Owner.free;
  high_has_run = false;
  low_unlocked = false;
  all_threads_ready = 0;
  start_barrier = 0;
  locked_barrier = 0;
  elevate_barrier = 0;
  finish_barrier = 0;
  all_threads_done = 0;
}
