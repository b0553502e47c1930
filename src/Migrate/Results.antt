-- ===== src/Migrate/Results.antt =====
-- The summary of a task in print_results.
use rt_tests.Base.{
  ℕ, ◌+◌, ◌-◌, ◌*◌, ◌/◌, ◌<◌, ◌≤◌, ◌≡◌, ◌^◌, List, [], ◌∷◌, arith, length, min, max,
}
use rt_tests.Base.Word.{add64}
use rt_tests.Cyclictest.Stat.Extremes.{least, greatest, sum}
use rt_tests.Migrate.{TaskResult, add_run, add_runs, task_result, nano2usec}

add_run_lem :
    (t : TaskResult) (itv : ℕ)
    → ((add_run t itv).max ≡ max t.max itv)
      × ((add_run t itv).min ≡ min t.min itv)
      × ((add_run t itv).tot ≡ add64 t.tot itv)
unfolding add_run
add_run_lem t itv = ground arith

add_runs_lem :
    (t : TaskResult) (itvs : List ℕ)
    → t.tot + sum itvs < 2 ^ 64
    → ((add_runs t itvs).max ≡ greatest t.max itvs)
      × ((add_runs t itvs).min ≡ least t.min itvs)
      × ((add_runs t itvs).tot ≡ t.tot + sum itvs)
unfolding add_runs
add_runs_lem t [] h = omega arith
add_runs_lem t (itv ∷ itvs) h =
    let e = add_run_lem t itv in
    ground (arith, e, add_runs_lem (add_run t itv) itvs (omega (arith, e)))

-- The least of a list times its length is at most its sum, and the greatest at least.
least_le : (m : ℕ) (xs : List ℕ) → least m xs ≤ m
least_le m [] = omega arith
least_le m (x ∷ xs) = omega (arith, least_le (min m x) xs)

greatest_ge : (m : ℕ) (xs : List ℕ) → m ≤ greatest m xs
greatest_ge m [] = omega arith
greatest_ge m (x ∷ xs) = omega (arith, greatest_ge (max m x) xs)

sum_ge : (m b : ℕ) (xs : List ℕ) → b ≤ least m xs → length xs * b ≤ sum xs
sum_ge m b [] h = omega arith
sum_ge m b (x ∷ xs) h = omega (arith, least_le (min m x) xs, sum_ge (min m x) b xs h)

sum_le : (m b : ℕ) (xs : List ℕ) → greatest m xs ≤ b → sum xs ≤ length xs * b
sum_le m b [] h = omega arith
sum_le m b (x ∷ xs) h = omega (arith, greatest_ge (max m x) xs, sum_le (max m x) b xs h)

sum_min : (n a s : ℕ) → 0 < n → n * a ≤ s → a ≤ s / n
sum_min n a s h l = grind arith

sum_max : (n b s : ℕ) → 0 < n → s ≤ n * b → s / n ≤ b
sum_max n b s h l = grind arith

div_mono : (a b : ℕ) → a ≤ b → nano2usec a ≤ nano2usec b
div_mono a b h = omega arith

-- For a task with one run or more whose intervals add up to less than 2 ^ 64, print_results finds
-- their greatest, their least and their sum, and prints a minimum that is at most the average,
-- which is at most the maximum.
task_result_lem :
    (itvs : List ℕ)
    → 0 < length itvs
    → sum itvs < 2 ^ 64
    → let t = task_result itvs in
      (t.max ≡ greatest 0 itvs)
      × (t.min ≡ least (2 ^ 64 - 1) itvs)
      × (t.tot ≡ sum itvs)
      × (nano2usec t.min ≤ nano2usec (t.tot / length itvs))
      × (nano2usec (t.tot / length itvs) ≤ nano2usec t.max)
unfolding task_result
task_result_lem itvs n h =
    let t = task_result itvs in
    let e = add_runs_lem (record { max = 0; min = 2 ^ 64 - 1; tot = 0 }) itvs (omega arith) in
    let low = sum_ge (2 ^ 64 - 1) t.min itvs (omega (arith, e)) in
    let high = sum_le 0 t.max itvs (omega (arith, e)) in
    (
      omega (arith, e),
      omega (arith, e),
      omega (arith, e),
      div_mono t.min (t.tot / length itvs)
          (sum_min (length itvs) t.min t.tot n (omega (arith, e, low))),
      div_mono (t.tot / length itvs) t.max
          (sum_max (length itvs) t.max t.tot n (omega (arith, e, high))),
    )
