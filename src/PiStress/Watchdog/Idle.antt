-- ===== src/PiStress/Watchdog/Idle.antt =====
-- When the watchdog of pi_stress reports a group.
use rt_tests.Base.{
  ℕ, zero, suc, ◌+◌, ◌-◌, ◌<◌, ◌≤◌, ◌≡◌, ◌↔◌, ◌⊎◌, inl, inr, refl, true, false, some, List, [], ◌∷◌,
  arith, get_elem?, leb, if◌then◌else◌, Bool-cases, ap, sym, ◌∙◌,
}
use rt_tests.Base.Int.{negsuc}
use rt_tests.PiStress.Watchdog.{
  watchdog_limit, Counters, watchdog_clear, check_group, watchdog_check, count, reporter,
}

-- `k` periods without an inversion, from the i-th on.
abbrev pub Idle : ℕ → List ℕ → ℕ → Type 0
Idle k ns i = (j : ℕ) → j < k → get_elem? ns (i + j) ≡ some 0

-- A group without a bound, between two periods.
abbrev pub between : ℕ → ℕ → ℕ → Counters
between bound total hits = record {
  watchdog = 0;
  watchdog_hits = hits;
  total = total;
  inversions = negsuc bound;
}

check_group-idle :
    (bound total hits : ℕ)
    → check_group (count 0 (between bound total hits))
      ≡ (between bound total (hits + 1), leb watchdog_limit (hits + 1))
unfolding check_group
check_group-idle bound total hits = ground arith

check_group-active :
    (bound total hits n : ℕ)
    → check_group (count (suc n) (between bound total hits))
      ≡ (record (between bound (total + suc n) 0) { watchdog = suc n }, false)
unfolding check_group
check_group-active bound total hits n = ground arith

reporter-idle :
    (bound total hits : ℕ) (ns : List ℕ)
    → reporter (0 ∷ ns) (between bound total hits ∷ []) ≡ (
        if leb watchdog_limit (hits + 1)
        then true
        else reporter ns (between bound total (hits + 1) ∷ []))
unfolding reporter watchdog_check watchdog_clear
reporter-idle bound total hits ns = elim (Bool-cases (leb watchdog_limit (hits + 1))) [
  | inl t ↦ rw (check_group-idle bound total hits, t) refl
  | inr t ↦ rw (check_group-idle bound total hits, t) refl
]

reporter-active :
    (bound total hits n : ℕ) (ns : List ℕ)
    → reporter (suc n ∷ ns) (between bound total hits ∷ [])
      ≡ reporter ns (between bound (total + suc n) 0 ∷ [])
unfolding reporter watchdog_check watchdog_clear
reporter-active bound total hits n ns = rw (check_group-active bound total hits n) refl

-- A period before the others.
suc_add : (i j : ℕ) → suc i + j ≡ suc (i + j)
suc_add i j = omega arith

later : (k n : ℕ) (ns : List ℕ) (i : ℕ) → Idle k ns i → Idle k (n ∷ ns) (suc i)
later k n ns i h j l = rw (suc_add i j) (h j l)

earlier : (k n : ℕ) (ns : List ℕ) (i : ℕ) → Idle k (n ∷ ns) (suc i) → Idle k ns i
earlier k n ns i h j l = ap (get_elem? (n ∷ ns)) (sym (suc_add i j)) ∙ h j l

zero_add : (i : ℕ) → 0 + i ≡ i
zero_add i = omega arith

extend : (k : ℕ) (ns : List ℕ) → Idle k ns 0 → Idle (suc k) (0 ∷ ns) 0
extend k ns d zero l = refl
extend k ns d (suc j) l =
    rw (zero_add (suc j)) (sym (ap (get_elem? ns) (zero_add j)) ∙ d j (omega arith))

fewer : (k k' : ℕ) (ns : List ℕ) (i : ℕ) → k' ≤ k → Idle k ns i → Idle k' ns i
fewer k k' ns i l d j m = d j (omega arith)

sound :
    (bound total hits : ℕ) (ns : List ℕ)
    → hits < 5
    → reporter ns (between bound total hits ∷ []) ≡ true
    → Idle (5 - hits) ns 0 ⊎ ((i : ℕ) × Idle 5 ns i)
unfolding reporter
sound bound total hits [] l h = ground arith
sound bound total hits (zero ∷ ns) l h =
    let rest = sym (reporter-idle bound total hits ns) ∙ h in
    elim (Bool-cases (leb watchdog_limit (hits + 1))) [
      | inl t ↦
          inl (
            fewer 1 (5 - hits) (0 ∷ ns) 0 (ground arith)
              (extend 0 ns (λ j m. absurd (omega arith))))
      | inr t ↦ elim (sound bound total (hits + 1) ns (ground arith) (rw t at rest)) [
        | inl d ↦ inl (
            fewer (suc (5 - (hits + 1))) (5 - hits) (0 ∷ ns) 0 (omega arith)
              (extend (5 - (hits + 1)) ns d))
        | inr (i, d) ↦ inr (suc i, later 5 0 ns i d)
      ]
    ]
sound bound total hits (suc n ∷ ns) l h =
    elim (sound bound (total + suc n) 0 ns (omega arith)
      (sym (reporter-active bound total hits n ns) ∙ h)) [
        | inl d ↦ inr (1, later 5 (suc n) ns 0 d)
        | inr (i, d) ↦ inr (suc i, later 5 (suc n) ns i d)
      ]

-- The first period of an idle time, and what is left of it.
first_idle : (k n : ℕ) (ns : List ℕ) → 0 < k → Idle k (n ∷ ns) 0 → n ≡ 0
first_idle k n ns l d = ground (arith, d 0 l)

rest_idle : (k n : ℕ) (ns : List ℕ) → Idle (suc k) (n ∷ ns) 0 → Idle k ns 0
rest_idle k n ns d j l =
    ap (get_elem? ns) (zero_add j)
    ∙ (ap (get_elem? (n ∷ ns)) (sym (zero_add (suc j))) ∙ d (suc j) (omega arith))

complete_now :
    (bound total hits : ℕ) (ns : List ℕ)
    → hits < 5
    → Idle (5 - hits) ns 0
    → reporter ns (between bound total hits ∷ []) ≡ true
unfolding reporter
complete_now bound total hits [] l d = ground (arith, d 0 (omega arith))
complete_now bound total hits (suc n ∷ ns) l d =
    absurd (omega (arith, first_idle (5 - hits) (suc n) ns (omega arith) d))
complete_now bound total hits (zero ∷ ns) l d =
    reporter-idle bound total hits ns ∙ elim (Bool-cases (leb watchdog_limit (hits + 1))) [
      | inl t ↦ rw t refl
      | inr t ↦ rw t (
          complete_now bound total (hits + 1) ns (ground arith) (
            rest_idle (5 - (hits + 1)) 0 ns
              (fewer (5 - hits) (suc (5 - (hits + 1))) (0 ∷ ns) 0 (ground arith) d)))
    ]

complete :
    (bound total hits : ℕ) (ns : List ℕ) (i : ℕ)
    → hits < 5
    → Idle 5 ns i
    → reporter ns (between bound total hits ∷ []) ≡ true
unfolding reporter
complete bound total hits ns zero l d =
    complete_now bound total hits ns l (fewer 5 (5 - hits) ns 0 (omega arith) d)
complete bound total hits [] (suc i) l d = ground (arith, d 0 (omega arith))
complete bound total hits (zero ∷ ns) (suc i) l d =
    reporter-idle bound total hits ns ∙ elim (Bool-cases (leb watchdog_limit (hits + 1))) [
      | inl t ↦ rw t refl
      | inr t ↦ rw t (complete bound total (hits + 1) ns i (ground arith) (earlier 5 0 ns i d))
    ]
complete bound total hits (suc n ∷ ns) (suc i) l d =
    reporter-active bound total hits n ns
    ∙ complete bound (total + suc n) 0 ns i (omega arith) (earlier 5 (suc n) ns i d)

-- The watchdog stops a run of one group without a bound on its inversions exactly if the group
-- makes no inversion in five successive periods of the reporter.
pub reporter_iff :
    (bound : ℕ) (ns : List ℕ)
    → (reporter ns (between bound 0 0 ∷ []) ≡ true) ↔ ((i : ℕ) × Idle 5 ns i)
reporter_iff bound ns = (
  λ h. elim (sound bound 0 0 ns (omega arith) h) [ inl d ↦ (0, d) | inr r ↦ r ],
  λ (i, d). complete bound 0 0 ns i (omega arith) d,
)
