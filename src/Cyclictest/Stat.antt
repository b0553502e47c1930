-- ===== src/Cyclictest/Stat.antt =====
-- The statistics of a timer thread, src/cyclictest/cyclictest.c: struct thread_stat, and what
-- timerthread writes there in a round, from `diff < stat->min` to `stat->cycles++`.
-- A `long` that timerthread compares with its uint64_t `diff` is held as its bit pattern, since C
-- makes that comparison unsigned. `avg` is a double that sums whole numbers, which it holds exactly
-- below 2 ^ 53: it is a number here.
pub mod Extremes
pub mod Histogram
pub mod Ring
use rt_tests.Base.{
  ℕ, zero, suc, ◌+◌, ◌-◌, ◌%◌, ◌<◌, ◌≤◌, Bool, true, false, List, [], ◌∷◌, ltb, leb, ◌==◌, get_or,
  set, replicate, if◌then◌else◌,
}
use rt_tests.Base.Int.{ℤ, pos, negsuc, ltb_ℤ, ◌+ℤ◌}
use rt_tests.Base.Word.{add64, to_long}

-- VALBUF_SIZE
abbrev pub valbuf_size : ℕ
valbuf_size = 16384

pub record ThreadStat : Type 0 where
  pub cycles : ℕ
  pub cyclesread : ℕ
  pub min : ℕ
  pub max : ℕ
  pub act : ℕ
  pub avg : ℕ
  pub values : List ℕ
  pub hist_array : List ℕ
  pub outliers : List ℕ
  pub threadstarted : ℤ
  pub tid : ℕ
  pub reduce : ℕ
  pub redmax : ℤ
  pub cycleofmax : ℕ
  pub hist_overflow : ℕ
  pub num_outliers : ℕ

-- The block that main sets up for a thread. `histogram` is the bound of the histogram, 0 for none.
unfoldable pub fresh_stat : ℕ → Bool → ThreadStat
fresh_stat histogram verbose = record {
  cycles = 0;
  cyclesread = 0;
  min = 1_000_000;
  max = 0;
  act = 0;
  avg = 0;
  values = if verbose then replicate valbuf_size 0 else [];
  hist_array = replicate histogram 0;
  outliers = replicate histogram 0;
  threadstarted = pos 1;
  tid = 0;
  reduce = 0;
  redmax = pos 0;
  cycleofmax = 0;
  hist_overflow = 0;
  num_outliers = 0;
}

-- `x & bufmsk` for a mask of low bits, 2 ^ k - 1.
abbrev pub and_mask : ℕ → ℕ → ℕ
and_mask x bufmsk = x % (bufmsk + 1)

-- `if (diff < stat->min) ... if (diff > stat->max) ... stat->avg += (double) diff`
unfoldable pub note_extremes : ℕ → ThreadStat → ThreadStat
note_extremes diff stat = record stat {
  min = if ltb diff stat.min then diff else stat.min;
  max = if ltb stat.max diff then diff else stat.max;
  avg = stat.avg + diff;
}

-- `stat->act = diff; if (par->bufmsk) stat->values[stat->cycles & par->bufmsk] = diff`
unfoldable pub note_value : ℕ → ℕ → ThreadStat → ThreadStat
note_value bufmsk diff stat = record stat {
  act = diff;
  values = if bufmsk == 0 then stat.values else set stat.values (and_mask stat.cycles bufmsk) diff;
}

-- `stat->hist_overflow++`, and the number of the cycle while there is room.
unfoldable pub note_overflow : ℕ → ThreadStat → ThreadStat
note_overflow histogram stat =
    if ltb stat.num_outliers histogram
    then record stat {
      hist_overflow = add64 stat.hist_overflow 1;
      outliers = set stat.outliers stat.num_outliers stat.cycles;
      num_outliers = stat.num_outliers + 1;
    }
    else record stat { hist_overflow = add64 stat.hist_overflow 1 }

-- `stat->hist_array[diff]++`
unfoldable pub note_bucket : ℕ → ThreadStat → ThreadStat
note_bucket diff stat = record stat {
  hist_array = set stat.hist_array diff (add64 (get_or stat.hist_array diff 0) 1);
}

-- "Update the histogram"
unfoldable pub note_histogram : ℕ → ℕ → ThreadStat → ThreadStat
note_histogram histogram diff stat =
    if histogram == 0
    then stat
    else if leb histogram diff
    then note_overflow histogram stat
    else note_bucket diff stat

-- All that a round with latency `diff` writes.
unfoldable pub note_cycle : ℕ → ℕ → ℕ → ThreadStat → ThreadStat
note_cycle histogram bufmsk diff stat =
    let noted = note_histogram histogram diff (note_value bufmsk diff (note_extremes diff stat)) in
    record noted { cycles = add64 noted.cycles 1 }

-- The rounds of a run, in order.
unfoldable pub note_all : ℕ → ℕ → List ℕ → ThreadStat → ThreadStat
note_all histogram bufmsk [] stat = stat
note_all histogram bufmsk (diff ∷ diffs) stat =
    note_all histogram bufmsk diffs (note_cycle histogram bufmsk diff stat)
