-- ===== src/Cyclictest/Print.antt =====
-- print_stat of src/cyclictest/cyclictest.c: the lines of the verbose mode, read out of the ring
-- `values` that the timer thread fills.
pub mod Lines
use rt_tests.Base.{ℕ, zero, suc, ◌+◌, ◌<◌, Bool, List, [], ◌∷◌, ◌++◌, ◌==◌, get_or, if◌then◌else◌}
use rt_tests.Base.Int.{ℤ, pos, ltb_ℤ}
use rt_tests.Base.Word.{add64, sub64, to_long}
use rt_tests.Cyclictest.Stat.{ThreadStat, and_mask}

-- `"%8d:%8lu:%8ld\n"`: the thread, the number of the round, the latency.
pub record Line : Type 0 where
  pub index : ℕ
  pub cycle : ℕ
  pub latency : ℤ

-- `if (diff > stat->redmax) ...`
unfoldable pub note_redmax : ℤ → ThreadStat → ThreadStat
note_redmax diff stat = record stat {
  redmax = if ltb_ℤ stat.redmax diff then diff else stat.redmax;
  cycleofmax = if ltb_ℤ stat.redmax diff then stat.cyclesread else stat.cycleofmax;
}

-- The rest of a round of the loop: a line after every `oscope` values.
unfoldable pub emit : ℕ → ℕ → ThreadStat → List Line × ThreadStat
emit oscope index stat =
    if stat.reduce + 1 == oscope
    then (
      record { index = index; cycle = stat.cycleofmax; latency = stat.redmax } ∷ [],
      record stat { reduce = 0; redmax = pos 0; cyclesread = add64 stat.cyclesread 1 },
    )
    else ([], record stat { reduce = stat.reduce + 1; cyclesread = add64 stat.cyclesread 1 })

-- `while (stat->cycles != stat->cyclesread)`. The fuel is the number of unread rounds.
unfoldable pub print_loop : ℕ → ℕ → ℕ → ℕ → ThreadStat → List Line × ThreadStat
print_loop oscope index bufmsk zero stat = ([], stat)
print_loop oscope index bufmsk (suc fuel) stat =
    let diff = to_long (get_or stat.values (and_mask stat.cyclesread bufmsk) 0) in
    let (lines, stat') = emit oscope index (note_redmax diff stat) in
    let (lines', stat'') = print_loop oscope index bufmsk fuel stat' in
    if stat.cycles == stat.cyclesread then ([], stat) else (lines ++ lines', stat'')

-- The verbose branch of print_stat.
unfoldable pub print_stat : ℕ → ℕ → ℕ → ThreadStat → List Line × ThreadStat
print_stat oscope index bufmsk stat =
    print_loop oscope index bufmsk (sub64 stat.cycles stat.cyclesread) stat
