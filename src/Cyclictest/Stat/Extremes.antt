-- ===== src/Cyclictest/Stat/Extremes.antt =====
-- Minimum, maximum, sum and number of the latencies.
use rt_tests.Base.{ℕ, ◌+◌, ◌<◌, ◌≡◌, ◌^◌, Bool, List, [], ◌∷◌, arith, length, min, max}
use rt_tests.Base.Word.{add64}
use rt_tests.Cyclictest.Stat.{
  ThreadStat, fresh_stat, note_extremes, note_value, note_overflow, note_bucket, note_histogram,
  note_cycle, note_all,
}

-- The least of a list and a start value, the greatest, the sum.
abbrev pub least : ℕ → List ℕ → ℕ
least m [] = m
least m (x ∷ xs) = least (min m x) xs

abbrev pub greatest : ℕ → List ℕ → ℕ
greatest m [] = m
greatest m (x ∷ xs) = greatest (max m x) xs

abbrev pub sum : List ℕ → ℕ
sum [] = 0
sum (x ∷ xs) = x + sum xs

module _ (histogram bufmsk : ℕ) where
  -- One round.
  pub note_cycle-extremes :
      (diff : ℕ) (stat : ThreadStat)
      → let stat' = note_cycle histogram bufmsk diff stat in
        (stat'.min ≡ min stat.min diff)
        × (stat'.max ≡ max stat.max diff)
        × (stat'.avg ≡ stat.avg + diff)
        × (stat'.act ≡ diff)
        × (stat'.cycles ≡ add64 stat.cycles 1)
  unfolding note_cycle note_histogram note_overflow note_bucket note_value note_extremes
  note_cycle-extremes diff stat = ground arith

  note_all-extremes :
      (diffs : List ℕ) (stat : ThreadStat)
      → let stat' = note_all histogram bufmsk diffs stat in
        (stat'.min ≡ least stat.min diffs)
        × (stat'.max ≡ greatest stat.max diffs)
        × (stat'.avg ≡ stat.avg + sum diffs)
  unfolding note_all
  note_all-extremes [] stat = omega arith
  note_all-extremes (diff ∷ diffs) stat = ground (
    arith,
    note_cycle-extremes diff stat,
    note_all-extremes diffs (note_cycle histogram bufmsk diff stat),
  )

  note_all-cycles :
      (diffs : List ℕ) (stat : ThreadStat)
      → stat.cycles + length diffs < 2 ^ 64
      → (note_all histogram bufmsk diffs stat).cycles ≡ stat.cycles + length diffs
  unfolding note_all
  note_all-cycles [] stat h = omega arith
  note_all-cycles (diff ∷ diffs) stat h =
      let e = note_cycle-extremes diff stat in
      omega
        (arith, e, note_all-cycles diffs (note_cycle histogram bufmsk diff stat) (omega (arith, e)))

-- After any run of fewer than 2 ^ 64 rounds from a fresh block, `min` is the least of the latencies
-- and 1000000, `max` the greatest of them and 0, `avg` their sum and `cycles` their number.
note_all-fresh :
    (histogram bufmsk : ℕ) (verbose : Bool) (diffs : List ℕ)
    → length diffs < 2 ^ 64
    → let stat = note_all histogram bufmsk diffs (fresh_stat histogram verbose) in
      (stat.min ≡ least 1_000_000 diffs)
      × (stat.max ≡ greatest 0 diffs)
      × (stat.avg ≡ sum diffs)
      × (stat.cycles ≡ length diffs)
unfolding fresh_stat
note_all-fresh histogram bufmsk verbose diffs h =
    let stat = fresh_stat histogram verbose in
    omega (
      arith,
      note_all-extremes histogram bufmsk diffs stat,
      note_all-cycles histogram bufmsk diffs stat (omega arith),
    )
