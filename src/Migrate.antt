-- ===== src/Migrate.antt =====
-- src/rt-migrate-test/rt-migrate-test.c: parse_options, record_time, busy_loop, check_times, the
-- loop of main and what print_results computes. The clock, the scheduler and the barriers are the
-- system's: the readings of the clock and the rounds of the tasks are arguments.
pub mod Check
pub mod Busy
pub mod Results
pub mod Main
pub mod Rows
pub mod Verdict
pub mod Rotate
pub mod Command
mod Tests
use rt_tests.Base.{
  ℕ, zero, suc, ◌+◌, ◌-◌, ◌*◌, ◌/◌, ◌%◌, ◌^◌, Bool, true, false, ◌&&◌, ◌||◌, not, Option, none,
  some, List, [], ◌∷◌, ltb, leb, ◌==◌, get_or, set, if◌then◌else◌,
}
use rt_tests.Base.Int.{ℤ, pos, negsuc, ltb_ℤ, leb_ℤ, eqb_ℤ}
use rt_tests.Base.Word.{add64, sub64, to_u64}

-- The entries of `intervals`, `intervals_length` and `intervals_loops` at one [loop][id].
pub record Entry : Type 0 where
  pub interval : ℕ
  pub len : ℕ
  pub loops : ℕ

abbrev pub zeroed : Entry
zeroed = record { interval = 0; len = 0; loops = 0 }

-- The three tables, a row of entries for each run.
abbrev pub Table : Type 0
Table = List (List Entry)

-- What a task reports when it calls record_time: the time it started, the time that get_time gives
-- there, and the loops it made.
pub record Report : Type 0 where
  pub time : ℕ
  pub ended : ℕ
  pub loops : ℕ

-- The entry that record_time writes.
unfoldable pub entry_of : ℕ → Report → Entry
entry_of now r = record { interval = sub64 r.time now; len = sub64 r.ended now; loops = r.loops }

-- record_time
unfoldable pub record_time : ℕ → ℕ → ℕ → ℕ → Report → Table → Table
record_time nr_runs loop now id r table =
    if leb nr_runs loop
    then table
    else set table loop (set (get_or table loop []) id (entry_of now r))

-- The body of the do loop of busy_loop, on the readings that get_time gives; `none`: it still spins
-- when the readings end.
unfoldable pub busy_loop_from : ℕ → ℕ → ℕ → List ℕ → Option ℕ
busy_loop_from run_interval start_time l [] = none
busy_loop_from run_interval start_time l (time ∷ times) =
    let rest = busy_loop_from run_interval start_time (l + 1) times in
    if ltb (sub64 time start_time) run_interval then rest else some (l + 1)

unfoldable pub busy_loop : ℕ → ℕ → List ℕ → Option ℕ
busy_loop run_interval start_time times = busy_loop_from run_interval start_time 0 times

-- The tests of check_times on a task and the one before it.
unfoldable pub is_quicker : ℕ → Entry → Entry → Bool
is_quicker max_err last e =
    ltb last.interval e.interval
    && ltb max_err (sub64 e.interval last.interval)
    && (ltb e.loops last.loops
        || ltb last.len e.interval
        || (ltb last.len e.len && ltb max_err (sub64 e.len last.len)))

unfoldable pub check_from : ℕ → Entry → List Entry → Bool
check_from max_err last [] = false
check_from max_err last (e ∷ es) = is_quicker max_err last e || check_from max_err e es

-- check_times on the row of a run; the first task has no task before it.
unfoldable pub check_times : ℕ → List Entry → Bool
check_times max_err [] = false
check_times max_err (e ∷ es) = check_from max_err e es

-- tasks_max, tasks_min and tasks_avg of one task, over the intervals of its runs.
pub record TaskResult : Type 0 where
  pub max : ℕ
  pub min : ℕ
  pub tot : ℕ

unfoldable pub add_run : TaskResult → ℕ → TaskResult
add_run t itv = record {
  max = if ltb t.max itv then itv else t.max;
  min = if ltb itv t.min then itv else t.min;
  tot = add64 t.tot itv;
}

unfoldable pub add_runs : TaskResult → List ℕ → TaskResult
add_runs t [] = t
add_runs t (itv ∷ itvs) = add_runs (add_run t itv) itvs

unfoldable pub task_result : List ℕ → TaskResult
task_result itvs = add_runs (record { max = 0; min = 2 ^ 64 - 1; tot = 0 }) itvs

-- nano2usec
abbrev pub nano2usec : ℕ → ℕ
nano2usec nan = nan / 1000
