-- ===== src/Cyclictest/Resolution/Times.antt =====
-- How often the clock is read.
use rt_tests.Base.{
  dec_lt, ◌-◌, ◌^◌, if◌then◌else◌, ℕ, zero, suc, ◌*◌, ◌/◌, ◌<◌, ◌≡◌, ◌⊎◌, inl, inr, none, some,
  arith, refl,
}
use rt_tests.Base.Int.{ℤ, pos, negsuc, ◌≤ℤ◌, ltb_ℤ, div_trunc}
use rt_tests.Base.Word.{to_int, to_int_small}
use rt_tests.Cyclictest.Resolution.{calls_per_sec, times_for, checked_times, choose_times}

-- The number of readings is chosen from 1000 to 100000.
pub InBounds : ℤ → Type 0
InBounds times = (pos 1000 ≤ℤ times) × (times ≤ℤ pos 100_000)

checked : (times : ℤ) → (times ≡ negsuc 0) ⊎ (pos 1000 ≤ℤ times) → InBounds (checked_times times)
unfolding checked_times InBounds
checked times h = ground arith

-- At least 1000, whatever the clock does in a second.
at_least : (times : ℤ) → pos 1000 ≤ℤ (if ltb_ℤ times (pos 1000) then pos 1000 else times)
at_least times = ground arith

call_time_small : (n : ℕ) → n < 2 ^ 31 → to_int (pos n) ≡ pos n
call_time_small n h = to_int_small (pos n) (omega arith) (omega arith)

times_for-short : (d : ℕ) → suc d < 1000 → times_for (suc d) ≡ none
unfolding times_for calls_per_sec
times_for-short d h =
    let q : suc d / 1000 ≡ 0 = omega arith in
    rw q (rw (call_time_small 0 (omega arith)) (ground arith))

times_for-long :
    (d q : ℕ)
    → suc d / 1000 ≡ suc q
    → suc q < 2 ^ 31
    → (times : ℤ) × (times_for (suc d) ≡ some times) × (pos 1000 ≤ℤ times)
unfolding times_for calls_per_sec
times_for-long d q e h = (
  _,
  rw e (rw (call_time_small (suc q) h) (ground arith)),
  at_least (div_trunc (pos (1_000_000_000 / suc q)) 1000),
)

-- Where the thousand calls took less than 2 ^ 31 microseconds, the program divides by zero if they
-- took from 1 to 999 nanoseconds, and otherwise reads the clock from 1000 to 100000 times.
choose_times_lem :
    (diff : ℕ)
    → diff < 1000 * 2 ^ 31
    → ((0 < diff) × (diff < 1000) × (choose_times diff ≡ none))
      ⊎ ((times : ℤ) × (choose_times diff ≡ some times) × InBounds times)
unfolding choose_times times_for
choose_times_lem zero h = inr (checked_times (negsuc 0), refl, checked (negsuc 0) (inl refl))
choose_times_lem (suc d) h = elim (dec_lt (suc d) 1000) [
  | yes short ↦ inl (omega arith, short, rw (times_for-short d short) refl)
  | no long ↦
      let q : suc d / 1000 ≡ suc (suc d / 1000 - 1) = omega arith in
      let (times, e, low) = times_for-long d (suc d / 1000 - 1) q (omega arith) in
      inr (checked_times times, rw e refl, checked times (inr low))
]
