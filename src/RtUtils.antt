-- ===== src/RtUtils.antt =====
-- src/lib/rt-utils.c: Tracers is get_tracers and valid_tracer; here are check_privs and the names of the
-- scheduling policies. Strings are lists of bytes without their 0 byte.
pub mod Tracers
mod Privs
mod Tests
use rt_tests.Base.{ℕ, Bool, true, false, ◌||◌, ◌==◌, if◌then◌else◌}
use rt_tests.Base.Int.{ℤ, pos, negsuc}

-- SCHED_FIFO and SCHED_RR of <sched.h>.
abbrev pub sched_fifo : ℕ
sched_fifo = 1

abbrev pub sched_rr : ℕ
sched_rr = 2

-- The policy and the priority that the kernel has for the process.
pub record Sched : Type 0 where
  pub policy : ℕ
  pub sched_priority : ℕ

-- sched_setscheduler: it does what the kernel grants, or returns -1.
abbrev pub sched_setscheduler : (ℕ → ℕ → Bool) → ℕ → ℕ → Sched → Sched × ℤ
sched_setscheduler grants policy prio s =
    if grants policy prio
    then (record { policy = policy; sched_priority = prio }, pos 0)
    else (s, negsuc 0)

-- `readable`: whether sched_getparam succeeds. The result is the return value.
unfoldable pub check_privs : (ℕ → ℕ → Bool) → Bool → Sched → Sched × ℤ
check_privs grants readable s =
    if (s.policy == sched_fifo) || (s.policy == sched_rr)
    then (s, pos 0)
    else if readable
    then (if grants sched_fifo 1
        then sched_setscheduler grants s.policy s.sched_priority
            (record { policy = sched_fifo; sched_priority = 1 })
        else (s, pos 1))
    else (s, pos 1)
