-- ===== src/Cyclictest/Timer/Keep.antt =====
-- A rule for the loop of timerthread: what noting a latency and moving the two times keep, a run keeps.
use rt_tests.Base.{
  ℕ, suc, ◌-◌, Bool-cases, Option-cases, sym, List, [], ◌∷◌, inl, inr, not, ◌==◌, ◌&&◌, ◌||◌,
}
use mathlib.Core.Path.{subst}
use rt_tests.Cyclictest.Time.{Timespec, catch_up, total}
use rt_tests.Cyclictest.Timer.{
  Settings, ThreadParam, Running, Round, wait_period, latency, check_cycles, step_next, end_round,
  measure, round, rounds,
}
use rt_tests.Cyclictest.Timer.Phase.{Holds, Holds-follow, noted, end_round_eq}

module _ (set : Settings) (par : ThreadParam) (interval stop : Timespec) (P : Running → Type 0)
    (moves : (now next : Timespec) (s : Running) → P s → P (record s { now = now; next = next }))
    (notes : (diff : ℕ) (s : Running) → P s → P (noted set par stop diff s)) where
  check_cycles-keeps : (s : Running) → P s → Holds P (check_cycles par s)
  unfolding check_cycles
  check_cycles-keeps s p =
      elim (Bool-cases (not (par.max_cycles == 0) && par.max_cycles == s.stat.cycles)) [
        | inl e ↦ rw e p
        | inr e ↦ rw e p
      ]

  end_round-keeps : (r : Round) (s : Running) → P s → Holds P (end_round par interval r s)
  unfolding end_round
  end_round-keeps r s p =
      elim (Option-cases (
        catch_up (suc (total s.now - total (step_next par interval r s.next))) s.now interval
          (step_next par interval r s.next))) [
            | inl e ↦ rw (e, end_round, Holds) tt
            | inr (next, e) ↦
                subst (Holds P) (sym (end_round_eq par interval r s next e))
                  (check_cycles-keeps (record s { next = next }) (moves s.now next s p))
          ]

  round-keeps : (r : Round) (s : Running) → P s → Holds P (round set par interval stop r s)
  unfolding round measure
  round-keeps r s p = elim (Bool-cases (r.stop_seen || not (s.shutdown == 0))) [
    | inl e ↦ rw (e, Holds, round) p
    | inr e ↦ elim (Option-cases (wait_period par.mode par.absolute interval r s.next)) [
      | inl w ↦ rw (e, w, Holds, round) p
      | inr (next, w) ↦ elim (Option-cases r.woke) [
        | inl k ↦ rw (e, w, k, Holds, round) (moves s.now next s p)
        | inr (now, k) ↦
            rw (e, w, k, Holds, round)
              (end_round-keeps r
                (noted set par stop (latency set now next) (record s { next = next; now = now }))
                (notes (latency set now next) (record s { next = next; now = now })
                  (moves now next s p)))
      ]
    ]
  ]

  pub rounds-keeps :
      (rs : List Round) (s : Running) → P s → Holds P (rounds set par interval stop rs s)
  unfolding rounds
  rounds-keeps [] s p = p
  rounds-keeps (r ∷ rs) s p =
      Holds-follow P P (rounds set par interval stop rs) (round set par interval stop r s)
        (round-keeps r s p) (λ s' q. rounds-keeps rs s' q) (λ s' q. q)
