-- ===== src/Cyclictest/Hist.antt =====
-- print_hist of src/cyclictest/cyclictest.c: the histograms of all threads, as what is printed.
pub mod Balance
mod Tests
use rt_tests.Base.{
  ℕ, zero, suc, ◌+◌, ◌-◌, ◌/◌, Bool, true, false, ◌&&◌, Option, none, some, List, [], ◌∷◌, map, ltb,
  ◌==◌, if◌then◌else◌, get_or, take, length, replicate,
}
use rt_tests.Base.Word.{add64}
use rt_tests.Cyclictest.Stat.{ThreadStat}

-- A line of the histogram: an entry for each thread, and their sum under --histofall.
pub record Row : Type 0 where
  pub index : ℕ
  pub entries : List ℕ
  pub allthreads : Option ℕ

-- What is printed for a thread behind the histogram; `others` if there are any.
pub record Summary : Type 0 where
  pub min : ℕ
  pub avg : ℕ
  pub max : ℕ
  pub hist_overflow : ℕ
  pub outliers : List ℕ
  pub others : Option ℕ

pub record Histogram : Type 0 where
  pub rows : List Row
  pub totals : List ℕ
  pub total_all : Option ℕ
  pub summaries : List Summary
  pub maxmax : Option ℕ
  pub alloverflows : Option ℕ

-- `log_entries[j] += curr_latency`, for each thread.
unfoldable pub add_row : ℕ → List ThreadStat → List ℕ → List ℕ
add_row i [] log_entries = []
add_row i (s ∷ ss) [] = []
add_row i (s ∷ ss) (l ∷ ls) = add64 l (get_or s.hist_array i 0) ∷ add_row i ss ls

-- `allthreads += curr_latency`, for each thread.
unfoldable pub sum_row : ℕ → List ThreadStat → ℕ → ℕ
sum_row i [] allthreads = allthreads
sum_row i (s ∷ ss) allthreads = sum_row i ss (add64 allthreads (get_or s.hist_array i 0))

-- `histofall && nthreads > 1`
abbrev pub for_all : Bool → List ThreadStat → Bool
for_all histofall ss = histofall && ltb 1 (length ss)

abbrev pub if_all : Bool → List ThreadStat → ℕ → Option ℕ
if_all histofall ss a = if for_all histofall ss then some a else none

-- The loop over the lines, with `n` to go: the lines and `log_entries`, its last entry apart.
unfoldable pub print_rows : Bool → List ThreadStat → ℕ → ℕ → List ℕ → ℕ → List Row × (List ℕ × ℕ)
print_rows histofall ss zero i log_entries all = ([], (log_entries, all))
print_rows histofall ss (suc n) i log_entries all =
    let allthreads = sum_row i ss 0 in
    let rest =
      print_rows histofall ss n (i + 1) (add_row i ss log_entries)
        (if for_all histofall ss then add64 all allthreads else all) in
    (
      record {
        index = i;
        entries = map (λ (s : ThreadStat). get_or s.hist_array i 0) ss;
        allthreads = if_all histofall ss allthreads;
      }
          ∷ rest.0,
      rest.1,
    )

unfoldable pub summary : ThreadStat → Summary
summary s = record {
  min = s.min;
  avg = if s.cycles == 0 then 0 else s.avg / s.cycles;
  max = s.max;
  hist_overflow = s.hist_overflow;
  outliers = take s.num_outliers s.outliers;
  others =
      if ltb s.num_outliers s.hist_overflow then some (s.hist_overflow - s.num_outliers) else none;
}

-- `if (max > maxmax) maxmax = max`
unfoldable pub max_of : List ThreadStat → ℕ → ℕ
max_of [] maxmax = maxmax
max_of (s ∷ ss) maxmax = max_of ss (if ltb maxmax s.max then s.max else maxmax)

unfoldable pub overflows_of : List ThreadStat → ℕ → ℕ
overflows_of [] alloverflows = alloverflows
overflows_of (s ∷ ss) alloverflows = overflows_of ss (add64 alloverflows s.hist_overflow)

unfoldable pub print_hist : ℕ → Bool → List ThreadStat → Histogram
print_hist histogram histofall ss =
    let r = print_rows histofall ss histogram 0 (replicate (length ss) 0) 0 in
    record {
      rows = r.0;
      totals = r.1.0;
      total_all = if_all histofall ss r.1.1;
      summaries = map summary ss;
      maxmax = if_all histofall ss (max_of ss 0);
      alloverflows = if_all histofall ss (overflows_of ss 0);
    }
