-- ===== src/Cyclictest/Thread/Aligned.antt =====
-- The start of the threads under --aligned and --secaligned.
use rt_tests.Base.{ℕ, ◌+◌, ◌*◌, ◌≤◌, ◌≡◌, true, arith}
use rt_tests.Cyclictest.Time.{Timespec, tsnorm, total, IsNormal}
use rt_tests.Cyclictest.Time.Norm.{tsnorm_lem}
use rt_tests.Cyclictest.Timer.{Settings, ThreadParam, align_start, first_now}

-- With --secaligned the common start is a whole second, at least 0.1 s and at most 1.1 s after
-- the clock was read: not in the past.
align_start-whole :
    (set : Settings) (t : Timespec)
    → set.secaligned ≡ true
    → IsNormal t
    → ((align_start set t).nsec ≡ 0)
      × (total t + 100_000_000 ≤ total (align_start set t))
      × (total (align_start set t) ≤ total t + 1_100_000_000)
unfolding align_start
align_start-whole set t e n = ground arith

offset_from :
    (globalt : Timespec) (d : ℕ)
    → total (tsnorm (record globalt { nsec = globalt.nsec + d })) ≡ total globalt + d
offset_from globalt d = omega (arith, tsnorm_lem (record globalt { nsec = globalt.nsec + d }))

-- With --aligned the first instant of thread k is k offsets after the common start: two threads of a
-- run stand apart by the difference of their numbers times the offset.
first_now-aligned :
    (set : Settings) (par : ThreadParam) (globalt own : Timespec)
    → set.aligned ≡ true
    → total (first_now set par globalt own) ≡ total globalt + set.offset * par.tnum
unfolding first_now
first_now-aligned set par globalt own e =
    ground (arith, offset_from globalt (set.offset * par.tnum))
