-- ===== src/PipStress/Ends.antt =====
-- How the processes of pip_stress end.
use mathlib.Core.Path.{subst}
use mathlib.Core.Option.{some-injective}
use rt_tests.Base.{
  ℕ, suc, ◌+◌, ◌≤◌, ◌≡◌, ◌≢◌, ◌↔◌, ◌⊎◌, inl, inr, refl, Bool, true, false, none, some, bind-some,
  Option-cases, List, [], ◌∷◌, ap, arith, leb, length,
}
use rt_tests.PipStress.{
  Low, Medium, High, Owner, World, Process, forked, low_step, medium_step, high_step, step, run,
}
use rt_tests.PipStress.Report.{low_steps, high_steps}

abbrev medium_steps : Medium → ℕ
medium_steps Medium.note = 0
medium_steps Medium.leave = 1
medium_steps Medium.looping = 2
medium_steps Medium.killed = 2

-- Between the lock and the unlock of `resource`.
abbrev pub low_has : Low → Bool
low_has Low.note = true
low_has Low.leave = true
low_has Low.unlock = true
low_has _ = false

abbrev pub high_has : High → Bool
high_has High.note = true
high_has High.leave = true
high_has High.unlock = true
high_has _ = false

abbrev high_in : High → Bool
high_in High.leave_begin = true
high_in High.leave = true
high_in High.leave_report = true
high_in _ = false

-- Who owns the two mutexes.
record IsOwned (w : World) : Type 0 where
  resource_low : (w.resource ≡ Owner.low) ↔ (low_has w.low ≡ true)
  resource_high : (w.resource ≡ Owner.high) ↔ (high_has w.high ≡ true)
  resource_medium : w.resource ≢ Owner.medium
  mutex_low : (w.mutex ≡ Owner.low) → w.low ≡ Low.leave
  mutex_high : (w.mutex ≡ Owner.high) → high_in w.high ≡ true
  mutex_medium : (w.mutex ≡ Owner.medium) → (w.medium ≡ Medium.leave) ⊎ (w.medium ≡ Medium.killed)
  reaped : w.high ≡ High.reap → w.medium ≡ Medium.killed
  printed : leb 9 (high_steps w.high) ≡ true → w.printed ≢ none

low_step-IsOwned : (w w' : World) → low_step w ≡ some w' → IsOwned w → IsOwned w'
unfolding low_step
low_step-IsOwned w w' e h = ground arith

medium_step-IsOwned : (w w' : World) → medium_step w ≡ some w' → IsOwned w → IsOwned w'
unfolding medium_step
medium_step-IsOwned w w' e h = ground arith

high_step-IsOwned : (w w' : World) → high_step w ≡ some w' → IsOwned w → IsOwned w'
unfolding high_step
high_step-IsOwned w w' e h = ground arith

stuck :
    (w : World)
    → IsOwned w
    → low_step w ≡ none
    → medium_step w ≡ none
    → high_step w ≡ none
    → ((w.low ≡ Low.ended) × (w.high ≡ High.ended))
      ⊎ ((w.medium ≡ Medium.killed) × (w.mutex ≡ Owner.medium))
unfolding low_step medium_step high_step
stuck w h l m k = ground arith

-- The steps made so far.
abbrev steps : World → ℕ
steps w = low_steps w.low + medium_steps w.medium + high_steps w.high

low_step-steps : (w w' : World) → low_step w ≡ some w' → steps w + 1 ≡ steps w'
unfolding low_step
low_step-steps w w' e = ground arith

medium_step-steps : (w w' : World) → medium_step w ≡ some w' → steps w + 1 ≡ steps w'
unfolding medium_step
medium_step-steps w w' e = ground arith

-- The kill of the medium process skips the steps that it has not made.
medium_steps_le : (m : Medium) → medium_steps m ≤ medium_steps Medium.killed
medium_steps_le m = ground arith

high_step-counts :
    (w w' : World)
    → high_step w ≡ some w'
    → (w'.low ≡ w.low)
      × (high_steps w'.high ≡ suc (high_steps w.high))
      × ((w'.medium ≡ w.medium) ⊎ (w'.medium ≡ Medium.killed))
unfolding high_step
high_step-counts w w' e = ground arith

high_step-steps : (w w' : World) → high_step w ≡ some w' → steps w + 1 ≤ steps w'
high_step-steps w w' e =
    let (l, k, m) = high_step-counts w w' e in omega (arith, ap low_steps l, k, medium_grows m)
  where
    medium_grows :
        (w'.medium ≡ w.medium) ⊎ (w'.medium ≡ Medium.killed)
        → medium_steps w.medium ≤ medium_steps w'.medium
    medium_grows (inl e) = rw e (omega arith)
    medium_grows (inr e) = rw e (medium_steps_le w.medium)

low_steps_le : (l : Low) → low_steps l ≤ 5
low_steps_le l = ground arith

high_steps_le : (h : High) → high_steps h ≤ 10
high_steps_le h = ground arith

steps_le : (w : World) → steps w ≤ 17
steps_le w = omega (arith, low_steps_le w.low, medium_steps_le w.medium, high_steps_le w.high)

step-IsOwned :
    (p : Process) (w w' : World)
    → step p w ≡ some w'
    → IsOwned w
    → IsOwned w' × (steps w + 1 ≤ steps w')
unfolding step
step-IsOwned Process.low w w' e h =
    (low_step-IsOwned w w' e h, omega (arith, low_step-steps w w' e))
step-IsOwned Process.medium w w' e h =
    (medium_step-IsOwned w w' e h, omega (arith, medium_step-steps w w' e))
step-IsOwned Process.high w w' e h = (high_step-IsOwned w w' e h, high_step-steps w w' e)

run-IsOwned :
    (ps : List Process) (w w' : World)
    → run ps w ≡ some w'
    → IsOwned w
    → IsOwned w' × (steps w + length ps ≤ steps w')
unfolding run
run-IsOwned [] w w' e h =
    subst (λ x. IsOwned x × (steps w + 0 ≤ steps x)) (some-injective _ _ e) (h, omega arith)
run-IsOwned (p ∷ ps) w w' e h =
    let (m, e', e'') = bind-some (step p w) e in
    let (h', n) = step-IsOwned p w m e' h in
    let (h'', k) = run-IsOwned ps m w' e'' h' in (h'', omega arith)

forked-IsOwned : IsOwned forked
forked-IsOwned = record {
  resource_low = (λ e. cc, λ e. cc);
  resource_high = (λ e. cc, λ e. cc);
  resource_medium = λ e. cc;
  mutex_low = λ e. cc;
  mutex_high = λ e. cc;
  mutex_medium = λ e. cc;
  reaped = λ e. cc;
  printed = λ e. cc;
}

-- How a run can be over: with a report, or with the mutex of the structure held by a dead process.
abbrev pub IsOver : World → Type 0
IsOver w =
    ((w.low ≡ Low.ended) × (w.high ≡ High.ended) × (w.printed ≢ none))
    ⊎ ((w.medium ≡ Medium.killed) × (w.mutex ≡ Owner.medium))

next_or_IsOver :
    (w : World) → IsOwned w → IsOver w ⊎ ((p : Process) × (w' : World) × (step p w ≡ some w'))
unfolding step
next_or_IsOver w h = elim (Option-cases (low_step w)) [
  | inr (w', e) ↦ inr (Process.low, w', e)
  | inl l ↦ elim (Option-cases (medium_step w)) [
    | inr (w', e) ↦ inr (Process.medium, w', e)
    | inl m ↦ elim (Option-cases (high_step w)) [
      | inr (w', e) ↦ inr (Process.high, w', e)
      | inl k ↦ elim (stuck w h l m k) [
        | inl (a, b) ↦ inl (inl (a, b, h.printed (rw b refl)))
        | inr held ↦ inl (inr held)
      ]
    ]
  ]
]

-- A run of the three processes of pip_stress has at most 17 steps, and as long as it is not over,
-- with a report or with the mutex of the structure held by the medium process that was killed, some
-- process can go on.
pub run_ends :
    (ps : List Process) (w : World)
    → run ps forked ≡ some w
    → (length ps ≤ 17) × (IsOver w ⊎ ((p : Process) × (w' : World) × (step p w ≡ some w')))
run_ends ps w e =
    let (h, k) = run-IsOwned ps forked w e forked-IsOwned in
    (omega (arith, steps_le w), next_or_IsOver w h)
