-- ===== src/Cyclictest/Hist/Balance.antt =====
-- The printed histogram accounts for every round of every thread.
use mathlib.Core.Path.{subst}
use rt_tests.Base.{
  sym, ℕ, zero, suc, ◌+◌, ◌^◌, ◌<◌, ◌≤◌, ◌≡◌, ◌∙◌, refl, ap, ap₂, Bool, List, [], ◌∷◌, map, arith,
  ltb, if◌then◌else◌, take, length, replicate, All, Option, none, some,
}
use rt_tests.Base.Word.{add64}
use rt_tests.Cyclictest.Stat.{ThreadStat, note_all, fresh_stat}
use rt_tests.Cyclictest.Stat.Histogram.{
  Accounts, count, count_above, rounds_above, note_all-histogram,
}
use rt_tests.Cyclictest.Hist.{Summary, add_row, print_rows, summary, print_hist}

-- How many latencies fall below n.
abbrev pub count_below : ℕ → List ℕ → ℕ
count_below zero xs = 0
count_below (suc n) xs = count_below n xs + count n xs

count_below-empty : (n : ℕ) → count_below n [] ≡ 0
count_below-empty zero = refl
count_below-empty (suc n) = omega (arith, count_below-empty n)

count_below-cons :
    (n x : ℕ) (xs : List ℕ) → count_below n (x ∷ xs) ≡ (if ltb x n then 1 else 0) + count_below n xs
count_below-cons zero x xs = ground arith
count_below-cons (suc n) x xs = ground (arith, count_below-cons n x xs)

-- Every latency is below the bound or not.
count_below-above : (b : ℕ) (xs : List ℕ) → count_below b xs + count_above b xs ≡ length xs
count_below-above b [] = omega (arith, count_below-empty b)
count_below-above b (x ∷ xs) = ground (arith, count_below-cons b x xs, count_below-above b xs)

count_below-le-length : (b : ℕ) (xs : List ℕ) → count_below b xs ≤ length xs
count_below-le-length b xs = omega (arith, count_below-above b xs)

-- The sum of a line does not overflow.
row_entry :
    (n : ℕ) (ds : List ℕ) (entry : ℕ)
    → entry ≡ count n ds
    → length ds < 2 ^ 64
    → add64 (count_below n ds) entry ≡ count_below (suc n) ds
row_entry n ds entry e few = omega (arith, e, count_below-le-length (suc n) ds)

suc_one : (i : ℕ) → suc i ≡ i + 1
suc_one i = omega arith

-- The entries of `log_entries` after n lines.
abbrev logged : ℕ → List (List ℕ) → List ℕ
logged n [] = []
logged n (ds ∷ dss) = count_below n ds ∷ logged n dss

logged_none :
    (dss : List (List ℕ)) {B : Type 0} (f : List ℕ → B)
    → replicate (length (map f dss)) 0 ≡ logged 0 dss
logged_none [] f = refl
logged_none (ds ∷ dss) f = ap (λ r. 0 ∷ r) (logged_none dss f)

-- The overflows beyond the first b, or none.
abbrev pub Others : ℕ → ℕ → Option ℕ → Type 0
Others b overflow (some n) = (0 < n) × (b + n ≡ overflow)
Others b overflow none = overflow ≤ b

-- A thread's line of totals, overflows and outliers accounts for its latencies.
pub record Balances (b : ℕ) (diffs : List ℕ) (total : ℕ) (u : Summary) : Type 0 where
  pub all_rounds : total + u.hist_overflow ≡ length diffs
  pub first_outliers : u.outliers ≡ take b (rounds_above b 0 diffs)
  pub other_outliers : Others b u.hist_overflow u.others

abbrev pub AllBalance : ℕ → List (List ℕ) → List ℕ → List Summary → Type 0
AllBalance b (ds ∷ dss) (t ∷ ts) (u ∷ us) = Balances b ds t u × AllBalance b dss ts us
AllBalance b [] [] [] = Unit
AllBalance b _ _ _ = ⊥

summary-Balances :
    (b : ℕ) (diffs : List ℕ) (s : ThreadStat)
    → Accounts b diffs s
    → Balances b diffs (count_below b diffs) (summary s)
unfolding summary
summary-Balances b diffs s a = record {
  all_rounds = omega (arith, a.overflow_count, count_below-above b diffs);
  first_outliers = a.outliers_first;
  other_outliers = ground (arith, a.overflow_count, a.outliers_count);
}

module _ (b bufmsk : ℕ) (verbose : Bool) (on : 0 < b) where
  -- The block of a thread whose rounds had these latencies.
  abbrev pub block : List ℕ → ThreadStat
  block diffs = note_all b bufmsk diffs (fresh_stat b verbose)

  abbrev pub IsShort : List ℕ → Type 0
  IsShort diffs = length diffs < 2 ^ 64

  add_row-logged :
      (n : ℕ) (dss : List (List ℕ))
      → n < b
      → All IsShort dss
      → add_row n (map block dss) (logged n dss) ≡ logged (suc n) dss
  unfolding add_row
  add_row-logged n [] lt a = refl
  add_row-logged n (ds ∷ dss) lt (few, rest) =
      let a = note_all-histogram b bufmsk verbose ds on few in
      ap₂ ◌∷◌ (row_entry n ds _ (a.buckets_count n lt) few) (add_row-logged n dss lt rest)

  print_rows-logged :
      (histofall : Bool) (dss : List (List ℕ)) (n i e all : ℕ)
      → All IsShort dss
      → i + n ≡ e
      → e ≤ b
      → (print_rows histofall (map block dss) n i (logged i dss) all).1.0 ≡ logged e dss
  unfolding print_rows
  print_rows-logged histofall dss zero i e all few h le = ap (λ k. logged k dss) (omega arith)
  print_rows-logged histofall dss (suc n) i e all few h le =
      rw (add_row-logged i dss (omega arith) few ∙ ap (λ k. logged k dss) (suc_one i))
        (print_rows-logged histofall dss n (i + 1) e _ few (omega arith) le)

  totals-logged :
      (histofall : Bool) (dss : List (List ℕ))
      → All IsShort dss
      → (print_hist b histofall (map block dss)).totals ≡ logged b dss
  unfolding print_hist
  totals-logged histofall dss few =
      subst (λ log. (print_rows histofall (map block dss) b 0 log 0).1.0 ≡ logged b dss)
        (sym (logged_none dss block))
        (print_rows-logged histofall dss b 0 b 0 few (omega arith) (omega arith))

  blocks-AllBalance :
      (dss : List (List ℕ))
      → All IsShort dss
      → AllBalance b dss (logged b dss) (map summary (map block dss))
  blocks-AllBalance [] few = tt
  blocks-AllBalance (ds ∷ dss) (few, rest) = (
    summary-Balances b ds (block ds) (note_all-histogram b bufmsk verbose ds on few),
    blocks-AllBalance dss rest,
  )

-- With a histogram of b > 0 buckets and fewer than 2 ^ 64 rounds for each thread, whatever their
-- latencies: the total printed for a thread and its overflows add up to the number of its rounds, the
-- numbers printed behind are those of its first b rounds at or above the bound, and the others, if
-- any, are counted.
pub print_hist-AllBalance :
    (b bufmsk : ℕ) (verbose histofall : Bool) (dss : List (List ℕ))
    → 0 < b
    → All (λ ds. length ds < 2 ^ 64) dss
    → let h =
        print_hist b histofall (map (λ ds. note_all b bufmsk ds (fresh_stat b verbose)) dss) in
      AllBalance b dss h.totals h.summaries
unfolding print_hist
print_hist-AllBalance b bufmsk verbose histofall dss on few =
    subst (λ ts. AllBalance b dss ts (map summary (map (block b bufmsk verbose on) dss)))
      (sym (totals-logged b bufmsk verbose on histofall dss few))
      (blocks-AllBalance b bufmsk verbose on dss few)
