-- ===== src/Cyclictest/Hist/Tests.antt =====
-- The histogram of two threads with three buckets.
use rt_tests.Base.{ℕ, ◌≡◌, true, false, refl, List, [], ◌∷◌, map, arith}
use rt_tests.Cyclictest.Stat.{
  note_all, note_cycle, note_extremes, note_value, note_histogram, note_overflow, note_bucket,
  fresh_stat,
}
use rt_tests.Cyclictest.Hist.{
  print_hist, print_rows, add_row, sum_row, summary, max_of, overflows_of,
}
use rt_tests.Cyclictest.Hist.Balance.{AllBalance, print_hist-AllBalance}

abbrev two_threads : List (List ℕ)
two_threads = (0 ∷ 2 ∷ 5 ∷ []) ∷ (1 ∷ 1 ∷ []) ∷ []

two_threads-totals :
    (print_hist 3 true (map (λ ds. note_all 3 0 ds (fresh_stat 3 false)) two_threads)).totals
    ≡ 2 ∷ 2 ∷ []
unfolding print_hist print_rows add_row sum_row summary max_of overflows_of note_all note_cycle
    note_extremes note_value note_histogram note_overflow note_bucket fresh_stat
two_threads-totals = refl

print_hist-AllBalance_example :
    let h = print_hist 3 true (map (λ ds. note_all 3 0 ds (fresh_stat 3 false)) two_threads) in
    AllBalance 3 two_threads h.totals h.summaries
print_hist-AllBalance_example =
    print_hist-AllBalance 3 0 false true two_threads (omega arith) (omega arith, (omega arith, tt))
