-- ===== src/Cyclictest/Resolution.antt =====
-- The check of the clock's resolution that main of src/cyclictest/cyclictest.c makes under
-- --resolution. The readings of the clock are the environment's.
pub mod Times
pub mod Measured
mod Tests
use rt_tests.Base.{
  ℕ, zero, suc, ◌+◌, ◌-◌, ◌*◌, ◌/◌, ◌^◌, Bool, true, false, ◌&&◌, ◌||◌, not, Option, none, some,
  ◌>>=◌, List, [], ◌∷◌, ltb, leb, ◌==◌, if◌then◌else◌,
}
use rt_tests.Base.Int.{ℤ, pos, negsuc, sub_ℕ, ltb_ℤ, leb_ℤ, div_trunc}
use rt_tests.Base.Word.{to_int, to_u64}
use rt_tests.Cyclictest.Time.{Timespec, nsec_per_sec, calcdiff_ns}

-- UINT64_MAX
abbrev pub uint64_max : ℕ
uint64_max = 2 ^ 64 - 1

-- `NSEC_PER_SEC / call_time`; a division by 0 is undefined.
unfoldable pub calls_per_sec : ℤ → Option ℤ
calls_per_sec (pos zero) = none
calls_per_sec (pos (suc n)) = some (pos (nsec_per_sec / suc n))
calls_per_sec (negsuc n) = some (sub_ℕ 0 (nsec_per_sec / suc n))

-- `times` where the first thousand calls took `diff` nanoseconds.
unfoldable pub times_for : ℕ → Option ℤ
times_for diff =
    if diff == 0
    then some (negsuc 0)
    else (calls_per_sec (to_int (pos (diff / 1000))) >>= (λ per_sec.
        let times = div_trunc per_sec 1000 in
        some (if ltb_ℤ times (pos 1000) then pos 1000 else times)))

-- The sanity check.
unfoldable pub checked_times : ℤ → ℤ
checked_times times =
    if leb_ℤ times (pos 0) || ltb_ℤ (pos 100_000) times then pos 100_000 else times

unfoldable pub choose_times : ℕ → Option ℤ
choose_times diff = times_for diff >>= (λ times. some (checked_times times))

-- The loop over the readings behind the first.
unfoldable pub min_diff : ℕ → Timespec → List Timespec → ℕ
min_diff least prev [] = least
min_diff least prev (t ∷ ts) =
    let diff = to_u64 (calcdiff_ns t prev) in
    min_diff (if not (diff == 0) && ltb diff least then diff else least) t ts

unfoldable pub min_non_zero_diff : Timespec → List Timespec → ℕ
min_non_zero_diff first later = min_diff uint64_max first later

-- `NSEC_PER_SEC * res.tv_sec + res.tv_nsec`, or UINT64_MAX where clock_getres fails.
unfoldable pub reported_resolution : Option Timespec → ℕ
reported_resolution none = uint64_max
reported_resolution (some res) = nsec_per_sec * res.sec + res.nsec

-- Whether the two resolutions are printed.
unfoldable pub warns : Bool → ℕ → ℕ → Bool
warns verbose measured reported = verbose || (not (measured == 0) && ltb reported measured)
