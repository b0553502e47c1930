-- ===== src/Cyclictest/Time/Norm.antt =====
-- tsnorm keeps the instant and normalises it; tsgreater orders normalised instants.
use rt_tests.Base.{◌≤◌, ℕ, zero, suc, ◌+◌, ◌*◌, ◌<◌, ◌≡◌, ◌↔◌, true, false, arith}
use rt_tests.Cyclictest.Time.{
  Timespec, carry, tsnorm_loop, tsnorm, tsgreater, interval_of, advance, total, IsNormal,
}

tsnorm_loop_lem :
    (fuel : ℕ) (ts : Timespec)
    → ts.nsec < fuel
    → (total (tsnorm_loop fuel ts) ≡ total ts) × IsNormal (tsnorm_loop fuel ts)
unfolding tsnorm_loop
tsnorm_loop_lem zero ts h = absurd (omega arith)
tsnorm_loop_lem (suc fuel) ts h = ground (arith, tsnorm_loop_lem fuel (carry ts))

-- The loop of tsnorm ends by its own test with a value below a second in the nanoseconds, and the
-- instant is the one it was given.
pub tsnorm_lem : (ts : Timespec) → (total (tsnorm ts) ≡ total ts) × IsNormal (tsnorm ts)
unfolding tsnorm
tsnorm_lem ts = tsnorm_loop_lem (suc ts.nsec) ts (omega arith)

-- Adding an interval adds its length to the instant, and the sum is normalised.
pub advance_lem :
    (next d : Timespec)
    → (total (advance next d) ≡ total next + total d) × IsNormal (advance next d)
unfolding advance
advance_lem next d =
    omega (arith, tsnorm_lem (record { sec = next.sec + d.sec; nsec = next.nsec + d.nsec }))

-- On normalised values tsgreater is the order of the instants.
pub tsgreater_iff :
    (a b : Timespec) → IsNormal a → IsNormal b → (tsgreater a b ≡ true) ↔ (total b < total a)
unfolding tsgreater
tsgreater_iff a b ha hb = ground arith

pub tsgreater-false :
    (a b : Timespec) → IsNormal a → IsNormal b → tsgreater a b ≡ false → total a ≤ total b
unfolding tsgreater
tsgreater-false a b ha hb h = ground arith

-- The `timespec` of an interval in microseconds is normalised and has its length.
pub interval_of_lem :
    (usec : ℕ) → (total (interval_of usec) ≡ usec * 1000) × IsNormal (interval_of usec)
unfolding interval_of
interval_of_lem usec = omega arith
