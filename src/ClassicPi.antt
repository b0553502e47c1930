-- ===== src/ClassicPi.antt =====
-- src/pi_tests/classic_pi.c: low_priority, med_priority, high_priority and main, as they run under
-- SCHED_FIFO on the one processor that set_cpu_affinity leaves them. A step is that of the thread with
-- the highest priority among those that can run; a thread that waits for a mutex with priority
-- inheritance lends its priority to the owner. No call fails. The counts of `inversions` are taken not
-- to overflow, and the alarm is left out: a state in which no thread can run is what it detects.
pub mod Machine
pub mod Passes
mod Tests
use rt_tests.Base.{
  ℕ, zero, suc, ◌+◌, Bool, true, false, ◌&&◌, not, Option, none, some, ◌==◌, if◌then◌else◌,
}
use rt_tests.Base.Int.{ℤ, pos, negsuc}

-- Where a thread stands: about to make the call, or the assignment, of the name. `check` is the head of
-- the loop, `exit` the wait for all_threads_done, `over` the end.
pub data Low : Type 0 where
  ready check start lock locked clear elevate set unlock finish exit over : Low

-- `test`: the condition of the inner loop.
pub data Med : Type 0 where
  ready check start elevate test finish exit over : Med

pub data High : Type 0 where
  ready check clear start locked lock set unlock finish exit over : High

pub data Main : Type 0 where
  ready exit over : Main

pub data Owner : Type 0 where
  free low high : Owner

-- The threads, whether each is blocked in a call, their `inversions`, the mutex, the flags, and how many
-- wait at each barrier.
pub record State : Type 0 where
  pub main : Main
  pub low : Low
  pub med : Med
  pub high : High
  pub main_waits : Bool
  pub low_waits : Bool
  pub med_waits : Bool
  pub high_waits : Bool
  pub low_inversions : ℤ
  pub med_inversions : ℤ
  pub high_inversions : ℤ
  pub mutex : Owner
  pub high_has_run : Bool
  pub low_unlocked : Bool
  pub all_threads_ready : ℕ
  pub start_barrier : ℕ
  pub locked_barrier : ℕ
  pub elevate_barrier : ℕ
  pub finish_barrier : ℕ
  pub all_threads_done : ℕ

pub data Who : Type 0 where
  main low med high : Who

unfoldable pub block : Who → State → State
block Who.main s = record s { main_waits = true }
block Who.low s = record s { low_waits = true }
block Who.med s = record s { med_waits = true }
block Who.high s = record s { high_waits = true }

-- pthread_barrier_wait on each barrier: the last of its threads lets them all go on.
unfoldable pub wait_ready : Who → State → State
unfolding block
wait_ready w s =
    if s.all_threads_ready + 1 == 4
    then record s {
      main = Main.exit;
      low = Low.check;
      med = Med.check;
      high = High.check;
      main_waits = false;
      low_waits = false;
      med_waits = false;
      high_waits = false;
      all_threads_ready = 0;
    }
    else block w (record s { all_threads_ready = s.all_threads_ready + 1 })

unfoldable pub wait_start : Who → State → State
unfolding block
wait_start w s =
    if s.start_barrier + 1 == 3
    then record s {
      low = Low.lock;
      med = Med.elevate;
      high = High.locked;
      low_waits = false;
      med_waits = false;
      high_waits = false;
      start_barrier = 0;
    }
    else block w (record s { start_barrier = s.start_barrier + 1 })

unfoldable pub wait_locked : Who → State → State
unfolding block
wait_locked w s =
    if s.locked_barrier + 1 == 2
    then record s {
      low = Low.clear;
      high = High.lock;
      low_waits = false;
      high_waits = false;
      locked_barrier = 0;
    }
    else block w (record s { locked_barrier = s.locked_barrier + 1 })

unfoldable pub wait_elevate : Who → State → State
unfolding block
wait_elevate w s =
    if s.elevate_barrier + 1 == 2
    then record s {
      low = Low.set;
      med = Med.test;
      low_waits = false;
      med_waits = false;
      elevate_barrier = 0;
    }
    else block w (record s { elevate_barrier = s.elevate_barrier + 1 })

unfoldable pub wait_finish : Who → State → State
unfolding block
wait_finish w s =
    if s.finish_barrier + 1 == 3
    then record s {
      low = Low.check;
      med = Med.check;
      high = High.check;
      low_waits = false;
      med_waits = false;
      high_waits = false;
      finish_barrier = 0;
    }
    else block w (record s { finish_barrier = s.finish_barrier + 1 })

unfoldable pub wait_done : Who → State → State
unfolding block
wait_done w s =
    if s.all_threads_done + 1 == 4
    then record s {
      main = Main.over;
      low = Low.over;
      med = Med.over;
      high = High.over;
      main_waits = false;
      low_waits = false;
      med_waits = false;
      high_waits = false;
      all_threads_done = 0;
    }
    else block w (record s { all_threads_done = s.all_threads_done + 1 })

-- `p->inversions-- > 0`
unfoldable pub is_positive : ℤ → Bool
is_positive (pos (suc n)) = true
is_positive _ = false

unfoldable pub decrement : ℤ → ℤ
decrement (pos zero) = negsuc 0
decrement (pos (suc n)) = pos n
decrement (negsuc n) = negsuc (suc n)

abbrev pub is_free : Owner → Bool
is_free Owner.free = true
is_free _ = false

abbrev pub is_low : Owner → Bool
is_low Owner.low = true
is_low _ = false

-- Whether a thread is at its pthread_mutex_lock.
abbrev pub low_locks : Low → Bool
low_locks Low.lock = true
low_locks _ = false

abbrev pub high_locks : High → Bool
high_locks High.lock = true
high_locks _ = false
