-- ===== src/Cyclictest/Sched.antt =====
-- setscheduler and raise_soft_prio of src/cyclictest/cyclictest.c. The scheduler's and the resource
-- limits' system calls are a parameter, for one policy and one thread.
pub mod Retry
use rt_tests.Base.{
  ℕ, zero, suc, ◌+◌, ◌-◌, ◌^◌, ◌<◌, ◌≡◌, ◌≢◌, Bool, true, false, ◌&&◌, Option, none, some, ◌==◌,
  if◌then◌else◌,
}
use rt_tests.Base.Int.{ℤ, pos, negsuc, ltb_ℤ, leb_ℤ, eqb_ℤ, ◌≤ℤ◌}
use rt_tests.Base.Word.{to_int, to_u64}

-- An errno, or soft and hard limit of RLIMIT_RTPRIO.
pub data Limits : Type 0 where
  failed : ℕ → Limits
  got : ℕ → ℕ → Limits

-- sched_get_priority_max (-1 when it fails) and the errno then, getrlimit, setrlimit with an errno or
-- 0, and sched_setscheduler with an errno or 0.
pub record System (State : Type 0) : Type 1 where
  pub policy_max : ℤ
  pub no_policy : ℕ
  pub getrlimit : State → Limits
  pub setrlimit : State → ℕ → ℕ → State × ℕ
  pub sched_setscheduler : State → ℤ → State × ℕ

-- RLIM_INFINITY, EPERM
abbrev pub rlim_infinity : ℕ
rlim_infinity = 2 ^ 64 - 1

abbrev pub eperm : ℕ
eperm = 1

module _ {State : Type 0} (system : System State) where
  -- `rlim.rlim_cur == RLIM_INFINITY ? policy_max : rlim.rlim_cur`, as an int.
  unfoldable pub int_limit : ℕ → ℤ
  unfolding to_int
  int_limit l = if l == rlim_infinity then system.policy_max else to_int (pos l)

  -- raise_soft_prio from its call of getrlimit on.
  unfoldable pub raise_within : ℤ → Limits → State → State × ℤ
  raise_within prio (failed e) s = (s, pos e)
  raise_within prio (got soft hard) s =
      let answer = system.setrlimit s (to_u64 prio) hard in
      if ltb_ℤ (int_limit soft) prio && leb_ℤ prio (int_limit hard)
      then (answer.0, pos (answer.1))
      else (s, negsuc 0)

  unfoldable pub raise_soft_prio : ℤ → State → State × ℤ
  raise_soft_prio prio s =
      if eqb_ℤ system.policy_max (negsuc 0)
      then (s, pos system.no_policy)
      else raise_within prio (system.getrlimit s) s

  -- setscheduler, on the number of calls of sched_setscheduler that it may make; `none`: it makes more.
  unfoldable pub setscheduler : ℕ → ℤ → State → Option (State × ℕ)
  setscheduler zero prio s = none
  setscheduler (suc tries) prio s =
      let tried = system.sched_setscheduler s prio in
      let raised = raise_soft_prio prio (tried.0) in
      let rest = setscheduler tries prio (raised.0) in
      if tried.1 == eperm
      then (if eqb_ℤ (raised.1) (pos 0) then rest else some (raised.0, tried.1))
      else some tried
