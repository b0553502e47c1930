-- ===== src/Cyclictest/Stat/Histogram.antt =====
-- The histogram accounts for every round: buckets, overflow count and outlier list.
use rt_tests.Base.{
  get_or-set, take_all, take_enough, take-set, ℕ, zero, suc, ◌+◌, ◌≤◌, ◌<◌, ◌≡◌, ◌^◌, refl, Bool,
  List, [], ◌∷◌, ◌++◌, arith, length, min, get_or, ◌==◌, leb, if◌then◌else◌, length-set,
  length-append, take, replicate, length-replicate,
}
use mathlib.Core.List.{append-nil, append_assoc}
use rt_tests.Base.Word.{add64}
use rt_tests.Cyclictest.Stat.{
  ThreadStat, fresh_stat, note_extremes, note_value, note_overflow, note_bucket, note_histogram,
  note_cycle, note_all,
}

-- How many latencies fall in bucket d, how many at or above the bound, and the numbers of the
-- rounds where they did, counting from i.
abbrev pub count : ℕ → List ℕ → ℕ
count d [] = 0
count d (x ∷ xs) = (if x == d then 1 else 0) + count d xs

abbrev pub count_above : ℕ → List ℕ → ℕ
count_above b [] = 0
count_above b (x ∷ xs) = (if leb b x then 1 else 0) + count_above b xs

abbrev pub rounds_above : ℕ → ℕ → List ℕ → List ℕ
rounds_above b i [] = []
rounds_above b i (x ∷ xs) =
    if leb b x then i ∷ rounds_above b (i + 1) xs else rounds_above b (i + 1) xs

count-snoc :
    (d x : ℕ) (xs : List ℕ) → count d (xs ++ (x ∷ [])) ≡ count d xs + (if x == d then 1 else 0)
count-snoc d x [] = omega arith
count-snoc d x (y ∷ ys) = omega (arith, count-snoc d x ys)

count_above-snoc :
    (b x : ℕ) (xs : List ℕ)
    → count_above b (xs ++ (x ∷ [])) ≡ count_above b xs + (if leb b x then 1 else 0)
count_above-snoc b x [] = omega arith
count_above-snoc b x (y ∷ ys) = omega (arith, count_above-snoc b x ys)

count-le-length : (d : ℕ) (xs : List ℕ) → count d xs ≤ length xs
count-le-length d [] = omega arith
count-le-length d (x ∷ xs) = ground (arith, count-le-length d xs)

count_above-le-length : (d : ℕ) (xs : List ℕ) → count_above d xs ≤ length xs
count_above-le-length d [] = omega arith
count_above-le-length d (x ∷ xs) = ground (arith, count_above-le-length d xs)

rounds_above-snoc :
    (b i x : ℕ) (xs : List ℕ)
    → rounds_above b i (xs ++ (x ∷ []))
      ≡ rounds_above b i xs ++ (if leb b x then (i + length xs) ∷ [] else [])
rounds_above-snoc b i x [] = ground arith
rounds_above-snoc b i x (y ∷ ys) = ground (arith, rounds_above-snoc b (i + 1) x ys)

length-rounds_above : (b i : ℕ) (xs : List ℕ) → length (rounds_above b i xs) ≡ count_above b xs
length-rounds_above b i [] = refl
length-rounds_above b i (x ∷ xs) = ground (arith, length-rounds_above b (i + 1) xs)

-- The block accounts for the latencies `diffs`, bound `b`.
pub record Accounts (b : ℕ) (diffs : List ℕ) (stat : ThreadStat) : Type 0 where
  pub buckets_room : length stat.hist_array ≡ b
  pub outliers_room : length stat.outliers ≡ b
  pub cycles_all : stat.cycles ≡ length diffs
  pub buckets_count : (d : ℕ) → d < b → get_or stat.hist_array d 0 ≡ count d diffs
  pub overflow_count : stat.hist_overflow ≡ count_above b diffs
  pub outliers_count : stat.num_outliers ≡ min (count_above b diffs) b
  pub outliers_first : take stat.num_outliers stat.outliers ≡ take b (rounds_above b 0 diffs)

-- What the histogram part of a round does to the fields of Accounts, branch by branch.
module _ (b bufmsk diff : ℕ) (on : 0 < b) (diffs : List ℕ) (stat : ThreadStat)
    (a : Accounts b diffs stat) (few : length diffs + 1 < 2 ^ 64) where
  buckets_count' :
      (d : ℕ)
      → d < b
      → get_or (note_cycle b bufmsk diff stat).hist_array d 0 ≡ count d (diffs ++ (diff ∷ []))
  unfolding note_cycle note_histogram note_overflow note_bucket note_value note_extremes
  buckets_count' d h = ground (
    arith,
    count-snoc d diff diffs,
    a.buckets_count d h,
    count-le-length d diffs,
    get_or-set stat.hist_array diff d (add64 (get_or stat.hist_array diff 0) 1),
  )

  counters' :
      let stat' = note_cycle b bufmsk diff stat in
      (length stat'.hist_array ≡ b)
      × (length stat'.outliers ≡ b)
      × (stat'.cycles ≡ length (diffs ++ (diff ∷ [])))
      × (stat'.hist_overflow ≡ count_above b (diffs ++ (diff ∷ [])))
      × (stat'.num_outliers ≡ min (count_above b (diffs ++ (diff ∷ []))) b)
  unfolding note_cycle note_histogram note_overflow note_bucket note_value note_extremes
  counters' = ground (
    arith,
    count_above-snoc b diff diffs,
    count_above-le-length b diffs,
    length-append diffs (diff ∷ []),
    length-set stat.hist_array diff (add64 (get_or stat.hist_array diff 0) 1),
    length-set stat.outliers stat.num_outliers stat.cycles,
  )

  outliers_first' :
      let stat' = note_cycle b bufmsk diff stat in
      take stat'.num_outliers stat'.outliers ≡ take b (rounds_above b 0 (diffs ++ (diff ∷ [])))
  unfolding note_cycle note_histogram note_overflow note_bucket note_value note_extremes
  outliers_first' = ground (
    arith,
    rounds_above-snoc b 0 diff diffs,
    length-rounds_above b 0 diffs,
    append-nil (rounds_above b 0 diffs),
    take_all b (rounds_above b 0 diffs),
    take_all b (rounds_above b 0 diffs ++ (length diffs ∷ [])),
    length-append (rounds_above b 0 diffs) (length diffs ∷ []),
    take_enough b (rounds_above b 0 diffs) (length diffs ∷ []),
    take-set stat.outliers stat.num_outliers stat.cycles,
  )

  pub note_cycle-Accounts : Accounts b (diffs ++ (diff ∷ [])) (note_cycle b bufmsk diff stat)
  note_cycle-Accounts =
      let c = counters' in
      record {
        buckets_room = c.0;
        outliers_room = c.1;
        cycles_all = c.2;
        buckets_count = buckets_count';
        overflow_count = c.3;
        outliers_count = c.4;
        outliers_first = outliers_first';
      }

note_all-Accounts :
    (b bufmsk : ℕ) (diffs past : List ℕ) (stat : ThreadStat)
    → 0 < b
    → Accounts b past stat
    → length past + length diffs < 2 ^ 64
    → Accounts b (past ++ diffs) (note_all b bufmsk diffs stat)
unfolding note_all
note_all-Accounts b bufmsk [] past stat on a few = rw (append-nil past) a
note_all-Accounts b bufmsk (diff ∷ diffs) past stat on a few =
    let a' = note_cycle-Accounts b bufmsk diff on past stat a (omega arith) in
    let l = length-append past (diff ∷ []) in
    rw (← append_assoc past (diff ∷ []) diffs) (
      note_all-Accounts b bufmsk diffs (past ++ (diff ∷ [])) (note_cycle b bufmsk diff stat) on a'
        (omega arith))

take_nothing : (n : ℕ) → ◌≡◌ {A = List ℕ} [] (take n [])
take_nothing zero = refl
take_nothing (suc n) = refl

get_or-replicate : (n d : ℕ) → ◌≡◌ {A = ℕ} (get_or (replicate n 0) d 0) 0
get_or-replicate zero d = refl
get_or-replicate (suc n) zero = refl
get_or-replicate (suc n) (suc d) = get_or-replicate n d

fresh-Accounts : (b : ℕ) (verbose : Bool) → Accounts b [] (fresh_stat b verbose)
unfolding fresh_stat
fresh-Accounts b verbose = record {
  buckets_room = length-replicate b 0;
  outliers_room = length-replicate b 0;
  cycles_all = refl;
  buckets_count = λ d h. get_or-replicate b d;
  overflow_count = refl;
  outliers_count = omega arith;
  outliers_first = take_nothing b;
}

-- After a run of fewer than 2 ^ 64 rounds from a fresh block with a histogram of b > 0 buckets,
-- bucket d < b holds the number of latencies equal to d, `hist_overflow` the number at or above b,
-- and `outliers` begins with the numbers of the first min(overflow, b) rounds that overflowed, in
-- order, with `num_outliers` their number.
pub note_all-histogram :
    (b bufmsk : ℕ) (verbose : Bool) (diffs : List ℕ)
    → 0 < b
    → length diffs < 2 ^ 64
    → Accounts b diffs (note_all b bufmsk diffs (fresh_stat b verbose))
note_all-histogram b bufmsk verbose diffs on few =
    note_all-Accounts b bufmsk diffs [] (fresh_stat b verbose) on (fresh-Accounts b verbose)
      (omega arith)
