-- ===== src/RtUtils/Privs.antt =====
-- What check_privs of src/lib/rt-utils.c finds out and leaves.
use rt_tests.Base.{ℕ, ◌≡◌, ◌↔◌, ◌⊎◌, Bool, true, arith}
use rt_tests.Base.Int.{pos}
use rt_tests.RtUtils.{Sched, sched_fifo, sched_rr, check_privs}

-- If the kernel grants the process the policy and priority it has, check_privs leaves them; and it
-- returns 0 just when the process is under a realtime policy or can read its parameters and change to
-- SCHED_FIFO.
check_privs_lem :
    (grants : ℕ → ℕ → Bool) (readable : Bool) (s : Sched)
    → grants s.policy s.sched_priority ≡ true
    → ((check_privs grants readable s).0 ≡ s)
      × ((check_privs grants readable s).1 ≡ pos 0
          ↔ (s.policy ≡ sched_fifo)
            ⊎ (s.policy ≡ sched_rr)
            ⊎ ((readable ≡ true) × (grants sched_fifo 1 ≡ true)))
unfolding check_privs
check_privs_lem grants readable s g = (ground arith, ground arith)
