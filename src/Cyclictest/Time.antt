-- ===== src/Cyclictest/Time.antt =====
-- Time arithmetic of src/cyclictest/cyclictest.c: tsnorm, tsgreater, calcdiff, calcdiff_ns, and the
-- two places of timerthread that move the next wake-up on.
-- The sums of seconds and of nanoseconds stay far below 2 ^ 63 and are not wrapped.
pub mod Norm
pub mod Diff
pub mod Catchup
use rt_tests.Base.{
  ℕ, zero, suc, ◌+◌, ◌-◌, ◌*◌, ◌/◌, ◌%◌, ◌<◌, Bool, true, false, ◌&&◌, ◌||◌, Option, none, some,
  ltb, leb, ◌==◌, if◌then◌else◌,
}
use rt_tests.Base.Int.{ℤ, pos, ◌+ℤ◌, ◌-ℤ◌, ◌*ℤ◌, div_trunc}
use rt_tests.Base.Word.{to_int}

abbrev pub usec_per_sec : ℕ
usec_per_sec = 1_000_000

abbrev pub nsec_per_sec : ℕ
nsec_per_sec = 1_000_000_000

pub record Timespec : Type 0 where
  pub sec : ℕ
  pub nsec : ℕ

-- One round of the loop of `tsnorm`.
abbrev pub carry : Timespec → Timespec
carry ts = record { sec = ts.sec + 1; nsec = ts.nsec - nsec_per_sec }

-- The `while` of `tsnorm`, on fuel.
unfoldable pub tsnorm_loop : ℕ → Timespec → Timespec
tsnorm_loop zero ts = ts
tsnorm_loop (suc fuel) ts =
    let rest = tsnorm_loop fuel (carry ts) in if leb nsec_per_sec ts.nsec then rest else ts

-- Each round takes a billion from `nsec`, so this fuel is more than the rounds.
unfoldable pub tsnorm : Timespec → Timespec
unfolding tsnorm_loop
tsnorm ts = tsnorm_loop (suc ts.nsec) ts

unfoldable pub tsgreater : Timespec → Timespec → Bool
tsgreater a b = ltb b.sec a.sec || (a.sec == b.sec && ltb b.nsec a.nsec)

-- `(int) a - (int) b`. The difference of two `int`s is taken to wrap round.
unfoldable pub int_diff : ℕ → ℕ → ℤ
unfolding to_int ◌-ℤ◌
int_diff a b = to_int (to_int (pos a) -ℤ to_int (pos b))

unfoldable pub calcdiff : Timespec → Timespec → ℤ
calcdiff t1 t2 = usec_per_sec *ℤ int_diff t1.sec t2.sec +ℤ div_trunc (int_diff t1.nsec t2.nsec) 1000

unfoldable pub calcdiff_ns : Timespec → Timespec → ℤ
calcdiff_ns t1 t2 = nsec_per_sec *ℤ int_diff t1.sec t2.sec +ℤ int_diff t1.nsec t2.nsec

-- `par->interval` in microseconds as a `timespec`.
unfoldable pub interval_of : ℕ → Timespec
interval_of usec = record { sec = usec / usec_per_sec; nsec = (usec % usec_per_sec) * 1000 }

-- `next.tv_sec += d.tv_sec; next.tv_nsec += d.tv_nsec; tsnorm(&next)`
unfoldable pub advance : Timespec → Timespec → Timespec
unfolding tsnorm
advance next d = tsnorm (record { sec = next.sec + d.sec; nsec = next.nsec + d.nsec })

-- `while (tsgreater(&now, &next)) next += interval`, on fuel; `none` means that it ran out.
unfoldable pub catch_up : ℕ → Timespec → Timespec → Timespec → Option Timespec
catch_up zero now interval next = none
catch_up (suc fuel) now interval next =
    let rest = catch_up fuel now interval (advance next interval) in
    if tsgreater now next then rest else some next

-- The instant in nanoseconds, and the form that `clock_gettime` returns and `tsnorm` restores.
abbrev pub total : Timespec → ℕ
total t = t.sec * nsec_per_sec + t.nsec

abbrev pub IsNormal : Timespec → Type 0
IsNormal t = t.nsec < nsec_per_sec
