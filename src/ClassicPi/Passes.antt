-- ===== src/ClassicPi/Passes.antt =====
-- How the test of src/pi_tests/classic_pi.c ends.
use rt_tests.Base.{ℕ, zero, suc, ◌+◌, ◌*◌, ◌≡◌, ◌∙◌, ap, refl, Bool, true, false, none, arith}
use rt_tests.Base.Int.{ℤ, pos, negsuc}
use rt_tests.ClassicPi.{State, Main, Low, Med, High}
use rt_tests.ClassicPi.Machine.{created, run, schedule, step_of}

-- In front of the inversion loops, with n inversions to go.
abbrev at_loop : ℤ → Bool → Bool → State
at_loop n a b = record (created n) {
  main = Main.exit;
  low = Low.check;
  med = Med.check;
  high = High.check;
  main_waits = true;
  high_has_run = a;
  low_unlocked = b;
  all_threads_done = 1;
}

-- All threads have returned, and main with SUCCESS.
abbrev pub finished : Bool → Bool → State
finished a b = record (at_loop (negsuc 0) a b) {
  main = Main.over;
  low = Low.over;
  med = Med.over;
  high = High.over;
  main_waits = false;
  all_threads_done = 0;
}

add_zero : (k : ℕ) → 0 + k ≡ k
add_zero k = omega arith

add_suc : (m k : ℕ) → suc m + k ≡ suc (m + k)
add_suc m k = omega arith

steps_suc : (n : ℕ) → 23 * suc n + 6 ≡ 23 + (23 * n + 6)
steps_suc n = omega arith

run-add : (p : Bool) (m k : ℕ) (s : State) → run p (m + k) s ≡ run p k (run p m s)
unfolding run
run-add p zero k s = ap (λ n. run p n s) (add_zero k)
run-add p (suc m) k s = ap (λ n. run p n s) (add_suc m k) ∙ run-add p m k (step_of (schedule p s) s)

enter_loop : (p : Bool) (n : ℤ) → run p 5 (created n) ≡ at_loop n false false
unfolding run
enter_loop true n = refl
enter_loop false n = refl

one_inversion :
    (n : ℕ) (a b : Bool) → run true 23 (at_loop (pos (suc n)) a b) ≡ at_loop (pos n) true true
unfolding run
one_inversion n a b = refl

leave_loop : (a b : Bool) → run true 6 (at_loop (pos 0) a b) ≡ finished a b
unfolding run
leave_loop a b = refl

finish_loop :
    (n : ℕ) (a b : Bool)
    → (c : Bool) × (d : Bool) × (run true (23 * n + 6) (at_loop (pos n) a b) ≡ finished c d)
finish_loop zero a b = (a, b, leave_loop a b)
finish_loop (suc n) a b =
    let (c, d, e) = finish_loop n true true in
    (
      c,
      d,
      ap (λ m. run true m (at_loop (pos (suc n)) a b)) (steps_suc n)
          ∙ run-add true 23 (23 * n + 6) (at_loop (pos (suc n)) a b)
          ∙ ap (run true (23 * n + 6)) (one_inversion n a b)
          ∙ e,
    )

-- With priority inheritance the test passes: for every number n of inversions, after 23 * n + 11 steps
-- all four threads have come to their ends.
pub pi_passes :
    (n : ℕ)
    → (a : Bool) × (b : Bool) × (run true (5 + (23 * n + 6)) (created (pos n)) ≡ finished a b)
pi_passes n =
    let (a, b, e) = finish_loop n false false in
    (
      a,
      b,
      run-add true 5 (23 * n + 6) (created (pos n))
          ∙ ap (run true (23 * n + 6)) (enter_loop true (pos n))
          ∙ e,
    )

-- In the first inversion, without priority inheritance.
abbrev pub deadlock : ℕ → State
deadlock n = record (at_loop (pos n) true true) {
  low = Low.finish;
  med = Med.elevate;
  high = High.finish;
  low_waits = true;
  med_waits = true;
  high_waits = true;
  elevate_barrier = 1;
  finish_barrier = 2;
}

first_inversion : (n : ℕ) → run false 24 (at_loop (pos (suc n)) false false) ≡ deadlock n
unfolding run
first_inversion n = refl

deadlock-stays : (n k : ℕ) → run false k (deadlock n) ≡ deadlock n
unfolding run
deadlock-stays n zero = refl
deadlock-stays n (suc k) = deadlock-stays n k

-- Without priority inheritance, and with one inversion or more, the test deadlocks, which the alarm
-- reports: after 29 steps low_priority and high_priority wait at the finish barrier, med_priority has
-- gone back to the elevate barrier, which low_priority has left, and so it stays.
pub no_pi_deadlocks :
    (n k : ℕ)
    → (run false (29 + k) (created (pos (suc n))) ≡ deadlock n)
      × (schedule false (deadlock n) ≡ none)
unfolding schedule
no_pi_deadlocks n k = (
  run-add false 29 k (created (pos (suc n)))
      ∙ ap (run false k) (
          run-add false 5 24 (created (pos (suc n)))
          ∙ ap (run false 24) (enter_loop false (pos (suc n)))
          ∙ first_inversion n)
      ∙ deadlock-stays n k,
  refl,
)
