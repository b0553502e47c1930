-- ===== src/Cyclictest/Resolution/Tests.antt =====
-- Readings of clocks, and the number of readings.
use rt_tests.Base.{ℕ, ◌≡◌, ◌<◌, ◌⊎◌, ◌+◌, ◌*◌, [], ◌∷◌, arith}
use rt_tests.Cyclictest.Time.{Timespec}
use rt_tests.Cyclictest.Resolution.{min_non_zero_diff, uint64_max}
use rt_tests.Cyclictest.Resolution.Measured.{
  IsTick, AllSame, IsStep, IsLeast, steps, min_non_zero_diff_lem,
}

-- A clock that ticks every microsecond.
abbrev reading : ℕ → Timespec
reading k = record { sec = 7; nsec = 1000 * k }

reading-IsTick : (k : ℕ) → k < 1000 → IsTick 1000 (reading k)
reading-IsTick k h = record {
  fits = record { seconds = omega arith; normal = omega arith };
  tick = 7_000_000 + k;
  at = omega arith;
}

min_non_zero_diff_lem_example :
    (AllSame (reading 3) (reading 3 ∷ reading 5 ∷ [])
      × (min_non_zero_diff (reading 3) (reading 3 ∷ reading 5 ∷ []) ≡ uint64_max))
    ⊎ (IsStep 1000 (min_non_zero_diff (reading 3) (reading 3 ∷ reading 5 ∷ []))
        × IsLeast
            (steps (reading 3) (reading 3 ∷ reading 5 ∷ []))
            (min_non_zero_diff (reading 3) (reading 3 ∷ reading 5 ∷ [])))
min_non_zero_diff_lem_example =
    min_non_zero_diff_lem 1000 (reading 3) (reading 3 ∷ reading 5 ∷ [])
      (reading-IsTick 3 (omega arith))
      (
        (reading-IsTick 3 (omega arith), omega arith),
        ((reading-IsTick 5 (omega arith), omega arith), tt),
      )
