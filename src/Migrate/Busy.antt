-- ===== src/Migrate/Busy.antt =====
-- busy_loop on the readings of a clock.
use rt_tests.Base.{ℕ, ◌+◌, ◌<◌, ◌≤◌, ◌≡◌, some, List, [], ◌∷◌, ◌++◌, arith, length}
use rt_tests.Base.Word.{sub64}
use rt_tests.Migrate.{busy_loop, busy_loop_from}

abbrev pub AllEarly : ℕ → ℕ → List ℕ → Type 0
AllEarly run_interval start_time [] = Unit
AllEarly run_interval start_time (time ∷ times) =
    (sub64 time start_time < run_interval) × AllEarly run_interval start_time times

busy_loop_from_lem :
    (run_interval start_time l : ℕ) (early later : List ℕ) (time : ℕ)
    → AllEarly run_interval start_time early
    → run_interval ≤ sub64 time start_time
    → busy_loop_from run_interval start_time l (early ++ (time ∷ later))
      ≡ some (l + length early + 1)
unfolding busy_loop_from
busy_loop_from_lem run_interval start_time l [] later time a h = ground arith
busy_loop_from_lem run_interval start_time l (t ∷ early) later time (p, a) h =
    ground (arith, busy_loop_from_lem run_interval start_time (l + 1) early later time a h)

-- busy_loop returns at the first reading that is `run_interval` or more after its start, and counts
-- the readings up to that one.
busy_loop_lem :
    (run_interval start_time : ℕ) (early later : List ℕ) (time : ℕ)
    → AllEarly run_interval start_time early
    → run_interval ≤ sub64 time start_time
    → busy_loop run_interval start_time (early ++ (time ∷ later)) ≡ some (length early + 1)
unfolding busy_loop
busy_loop_lem run_interval start_time early later time a h =
    ground (arith, busy_loop_from_lem run_interval start_time 0 early later time a h)
