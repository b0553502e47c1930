-- ===== src/PiStress/Group.antt =====
-- One group of src/pi_tests/pi_stress.c: the loops of low_priority, med_priority and
-- high_priority as a step relation over their program counters and the group's shared state.
-- pthread's barriers and mutexes are the library's: a barrier is one step of all its parties, and
-- a mutex is taken only when free. A call that fails ends its thread and is not modelled; nor is
-- what comes after the loop, where the thread waits for all_threads_done.
pub mod Inv
pub mod Progress
use rt_tests.Base.{ℕ, zero, suc, ◌+◌, ◌≤◌, ◌≡◌, Bool, true, false}
use rt_tests.Base.Int.{ℤ, pos, ◌≤ℤ◌}

-- Where a thread stands. `check`: at the head of the loop. `loop_wait`, `start_wait`, …: about to
-- call pthread_barrier_wait. `serial`: it got PTHREAD_BARRIER_SERIAL_THREAD and looks at `shutdown`.
-- `done`: it has left the loop.
pub data Low : Type 0 where
  check loop_wait serial start_wait lock locked_wait elevate_wait unlock finish_wait done : Low

pub data Med : Type 0 where
  check loop_wait serial start_wait elevate_wait finish_wait done : Med

-- `count`: before `p->total++; p->watchdog++`.
pub data High : Type 0 where
  check loop_wait serial start_wait locked_wait lock unlock finish_wait count done : High

pub data Owner : Type 0 where
  free low high : Owner

-- struct group_parameters, with the global `shutdown`; `inversions` below 0 means no bound.
pub record Group : Type 0 where
  pub low : Low
  pub med : Med
  pub high : High
  pub mutex : Owner
  pub loop : Bool
  pub shutdown : Bool
  pub inversions : ℤ
  pub total : ℕ
  pub watchdog : ℕ

-- `!unbounded && p->total >= p->inversions`
abbrev pub Reached : Group → Type 0
Reached g = (pos 0 ≤ℤ g.inversions) × (g.inversions ≤ℤ pos g.total)

-- Which of the three threads gets PTHREAD_BARRIER_SERIAL_THREAD.
pub data Serial : Type 0 where
  low med high : Serial

abbrev pub low_after : Serial → Low
low_after Serial.low = Low.serial
low_after _ = Low.start_wait

abbrev pub med_after : Serial → Med
med_after Serial.med = Med.serial
med_after _ = Med.start_wait

abbrev pub high_after : Serial → High
high_after Serial.high = High.serial
high_after _ = High.start_wait

-- `if (shutdown) *loop = 0`, by the serial thread.
abbrev pub loop_after : Group → Bool
loop_after g = elim g.shutdown [ true ↦ false | false ↦ g.loop ]

-- A move of a thread, or of the parties of a barrier.
pub data Move (g : Group) : Group → Type 0 where
  -- the test of `*loop` under loop_mtx
  low_enter : g.low ≡ Low.check → g.loop ≡ true → Move g (record g { low = Low.loop_wait })
  low_leave :
      g.low ≡ Low.check → g.loop ≡ false → Move g (record g { low = Low.done; shutdown = true })
  med_enter : g.med ≡ Med.check → g.loop ≡ true → Move g (record g { med = Med.loop_wait })
  med_leave :
      g.med ≡ Med.check → g.loop ≡ false → Move g (record g { med = Med.done; shutdown = true })
  high_enter : g.high ≡ High.check → g.loop ≡ true → Move g (record g { high = High.loop_wait })
  high_leave :
      g.high ≡ High.check → g.loop ≡ false → Move g (record g { high = High.done; shutdown = true })
  loop_barrier :
      (s : Serial)
      → g.low ≡ Low.loop_wait
      → g.med ≡ Med.loop_wait
      → g.high ≡ High.loop_wait
      → Move g (record g { low = low_after s; med = med_after s; high = high_after s })
  low_serial : g.low ≡ Low.serial → Move g (record g { low = Low.start_wait; loop = loop_after g })
  med_serial : g.med ≡ Med.serial → Move g (record g { med = Med.start_wait; loop = loop_after g })
  high_serial :
      g.high ≡ High.serial → Move g (record g { high = High.start_wait; loop = loop_after g })
  start_barrier :
      g.low ≡ Low.start_wait
      → g.med ≡ Med.start_wait
      → g.high ≡ High.start_wait
      → Move g (record g { low = Low.lock; med = Med.elevate_wait; high = High.locked_wait })
  low_lock :
      g.low ≡ Low.lock
      → g.mutex ≡ Owner.free
      → Move g (record g { low = Low.locked_wait; mutex = Owner.low })
  locked_barrier :
      g.low ≡ Low.locked_wait
      → g.high ≡ High.locked_wait
      → Move g (record g { low = Low.elevate_wait; high = High.lock })
  elevate_barrier :
      g.low ≡ Low.elevate_wait
      → g.med ≡ Med.elevate_wait
      → Move g (record g { low = Low.unlock; med = Med.finish_wait })
  low_unlock : g.low ≡ Low.unlock → Move g (record g { low = Low.finish_wait; mutex = Owner.free })
  high_lock :
      g.high ≡ High.lock
      → g.mutex ≡ Owner.free
      → Move g (record g { high = High.unlock; mutex = Owner.high })
  high_unlock :
      g.high ≡ High.unlock → Move g (record g { high = High.finish_wait; mutex = Owner.free })
  finish_barrier :
      g.low ≡ Low.finish_wait
      → g.med ≡ Med.finish_wait
      → g.high ≡ High.finish_wait
      → Move g (record g { low = Low.check; med = Med.check; high = High.count })
  high_count :
      g.high ≡ High.count
      → Move g (record g { high = High.check; total = g.total + 1; watchdog = g.watchdog + 1 })

-- `shutdown` is set by a thread of this group that has reached its number of inversions, and by
-- main, the reporter or another group at any time.
pub data Step (g : Group) : Group → Type 0 where
  moved : {h : Group} → Move g h → Step g h
  reached : Reached g → Step g (record g { shutdown = true })
  set_shutdown : Step g (record g { shutdown = true })

-- What initialize_group leaves, when the threads have passed all_threads_ready.
abbrev pub start : ℤ → Group
start inversions = record {
  low = Low.check;
  med = Med.check;
  high = High.check;
  mutex = Owner.free;
  loop = true;
  shutdown = false;
  inversions = inversions;
  total = 0;
  watchdog = 0;
}

pub data Reach (inversions : ℤ) : Group → Type 0 where
  here : Reach inversions (start inversions)
  next : {g h : Group} → Reach inversions g → Step g h → Reach inversions h
