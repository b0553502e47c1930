-- ===== src/PiStress/Watchdog.antt =====
-- watchdog_check and watchdog_clear of src/pi_tests/pi_stress.c, and the periods of its reporter.
-- `total` stays below 2 ^ 63, so its comparison with the int `inversions` is that of the numbers.
pub mod Idle
use rt_tests.Base.{ℕ, ◌+◌, Bool, true, false, ◌||◌, List, [], ◌∷◌, leb, ◌==◌, if◌then◌else◌}
use rt_tests.Base.Int.{ℤ, pos, eqb_ℤ}

-- WATCHDOG_LIMIT
abbrev pub watchdog_limit : ℕ
watchdog_limit = 5

-- The members of struct group_parameters that the watchdog reads.
pub record Counters : Type 0 where
  pub watchdog : ℕ
  pub watchdog_hits : ℕ
  pub total : ℕ
  pub inversions : ℤ

unfoldable pub watchdog_clear : List Counters → List Counters
watchdog_clear [] = []
watchdog_clear (g ∷ gs) = record g { watchdog = 0 } ∷ watchdog_clear gs

-- A pass of the loop of watchdog_check: the group, and whether `failures` grows.
unfoldable pub check_group : Counters → Counters × Bool
check_group g =
    let hits = g.watchdog_hits + 1 in
    if g.watchdog == 0
    then (if eqb_ℤ g.inversions (pos g.total)
        then (g, false)
        else (record g { watchdog_hits = hits }, leb watchdog_limit hits))
    else (record g { watchdog_hits = 0 }, false)

-- watchdog_check; `true` is FAILURE.
unfoldable pub watchdog_check : List Counters → List Counters × Bool
watchdog_check [] = ([], false)
watchdog_check (g ∷ gs) =
    let (g', fails) = check_group g in
    let (gs', failing) = watchdog_check gs in (g' ∷ gs', fails || failing)

-- high_priority counts `n` inversions.
abbrev pub count : ℕ → Counters → Counters
count n g = record g { watchdog = g.watchdog + n; total = g.total + n }

-- The reporter's watch over a program of one group, on the inversions of each period: whether a
-- call of watchdog_check fails, at which the reporter stops.
unfoldable pub reporter : List ℕ → List Counters → Bool
reporter [] gs = false
reporter (n ∷ ns) [] = false
reporter (n ∷ ns) (g ∷ gs) =
    let (gs', failing) = watchdog_check (count n g ∷ []) in
    let rest = reporter ns (watchdog_clear gs') in if failing then true else rest
