-- ===== src/Cyclictest/Sched/Retry.antt =====
-- The retry of setscheduler ends.
use rt_tests.Base.{
  ℕ, ◌^◌, ◌<◌, ◌≡◌, ◌≢◌, inl, inr, refl, ◌∙◌, ◌&&◌, none, some, ◌==◌, arith, Bool-cases,
  Option-cases,
}
use rt_tests.Base.Int.{pos, negsuc, ltb_ℤ, leb_ℤ, eqb_ℤ}
use rt_tests.Base.Word.{to_int, to_u64}
use rt_tests.Cyclictest.Sched.{
  Limits, failed, got, System, int_limit, raise_within, raise_soft_prio, setscheduler, eperm,
}

module _ {State : Type 0} (system : System State) (prio : ℕ) (high : prio < 2 ^ 31)
    (no_policy : system.no_policy ≢ 0)
    (get_failed : (s : State) (e : ℕ) → system.getrlimit s ≡ failed e → e ≢ 0)
    (set_get : (s : State) (soft hard : ℕ)
      → (system.setrlimit s soft hard).1 ≡ 0
      → system.getrlimit ((system.setrlimit s soft hard).0) ≡ got soft hard)
    (try_keeps : (s : State)
      → system.getrlimit ((system.sched_setscheduler s (pos prio)).0) ≡ system.getrlimit s) where
  -- The soft limit is the priority.
  abbrev Raised : State → Type 0
  Raised s = (hard : ℕ) × (system.getrlimit s ≡ got (to_u64 (pos prio)) hard)

  int_limit_prio : int_limit system (to_u64 (pos prio)) ≡ pos prio
  unfolding int_limit to_u64 to_int
  int_limit_prio = ground arith

  refused_again :
      (hard : ℕ) (s : State)
      → (raise_within system (pos prio) (got (to_u64 (pos prio)) hard) s).1 ≡ negsuc 0
  unfolding raise_within
  refused_again hard s = rw int_limit_prio (ground arith)

  raise_again : (s : State) → Raised s → (raise_soft_prio system (pos prio) s).1 ≢ pos 0
  unfolding raise_soft_prio
  raise_again s (hard, e) = elim (Bool-cases (eqb_ℤ system.policy_max (negsuc 0))) [
    | inl t ↦ rw t (λ h. no_policy (ground arith))
    | inr t ↦ rw (t, e, refused_again hard s) (λ h. ground arith)
  ]

  within_once :
      (l : Limits) (s : State)
      → system.getrlimit s ≡ l
      → (raise_within system (pos prio) l s).1 ≡ pos 0
      → Raised ((raise_within system (pos prio) l s).0)
  unfolding raise_within
  within_once (failed e) s g h = absurd (get_failed s e g (ground arith))
  within_once (got soft hard) s g h =
      elim (Bool-cases
        (ltb_ℤ (int_limit system soft) (pos prio) && leb_ℤ (pos prio) (int_limit system hard))) [
          | inl t ↦ (hard, rw t (set_get s (to_u64 (pos prio)) hard (ground (arith, rw t at h))))
          | inr t ↦ absurd (ground (arith, rw t at h))
        ]

  raise_once :
      (s : State)
      → (raise_soft_prio system (pos prio) s).1 ≡ pos 0
      → Raised ((raise_soft_prio system (pos prio) s).0)
  unfolding raise_soft_prio
  raise_once s h = elim (Bool-cases (eqb_ℤ system.policy_max (negsuc 0))) [
    | inl t ↦ absurd (no_policy (ground (arith, rw t at h)))
    | inr t ↦ rw t (within_once (system.getrlimit s) s refl (ground (arith, rw t at h)))
  ]

  -- After a successful raise there is no third call.
  second_ends : (s : State) → Raised s → setscheduler system 1 (pos prio) s ≢ none
  unfolding setscheduler
  second_ends s (hard, e) =
      let again =
        raise_again ((system.sched_setscheduler s (pos prio)).0) (hard, try_keeps s ∙ e) in
      elim (Bool-cases ((system.sched_setscheduler s (pos prio)).1 == eperm)) [
        | inl t ↦ rw t (λ h. again (ground arith))
        | inr t ↦ rw t (λ h. ground arith)
      ]

  first_ends : (s : State) → setscheduler system 2 (pos prio) s ≢ none
  unfolding setscheduler
  first_ends s =
      let tried = (system.sched_setscheduler s (pos prio)).0 in
      let raised = raise_soft_prio system (pos prio) tried in
      elim (Bool-cases ((system.sched_setscheduler s (pos prio)).1 == eperm)) [
        | inl t ↦ elim (Bool-cases (eqb_ℤ (raised.1) (pos 0))) [
          | inl z ↦ rw (t, z) (second_ends (raised.0) (raise_once tried (ground arith)))
          | inr z ↦ rw (t, z) (λ h. ground arith)
        ]
        | inr t ↦ rw t (λ h. ground arith)
      ]

-- setscheduler returns after at most two calls of sched_setscheduler, for a priority that is not
-- negative: when the calls that fail leave an errno other than 0, a successful setrlimit is what
-- getrlimit then gives, and sched_setscheduler leaves the limits alone.
setscheduler_ends :
    {State : Type 0} (system : System State) (prio : ℕ)
    → prio < 2 ^ 31
    → system.no_policy ≢ 0
    → ((s : State) (e : ℕ) → system.getrlimit s ≡ failed e → e ≢ 0)
    → ((s : State) (soft hard : ℕ)
        → (system.setrlimit s soft hard).1 ≡ 0
        → system.getrlimit ((system.setrlimit s soft hard).0) ≡ got soft hard)
    → ((s : State)
        → system.getrlimit ((system.sched_setscheduler s (pos prio)).0) ≡ system.getrlimit s)
    → (s : State) → (r : State × ℕ) × (setscheduler system 2 (pos prio) s ≡ some r)
setscheduler_ends system prio high no_policy get_failed set_get try_keeps s =
    elim (Option-cases (setscheduler system 2 (pos prio) s)) [
      | inl e ↦ absurd (first_ends system prio high no_policy get_failed set_get try_keeps s e)
      | inr r ↦ r
    ]
