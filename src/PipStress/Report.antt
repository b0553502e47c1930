-- ===== src/PipStress/Report.antt =====
-- What pip_stress reports of the order of the events.
use mathlib.Core.Path.{subst}
use mathlib.Core.Option.{some-injective, none-ne-some}
use rt_tests.Base.{
  ℕ, suc, ◌≡◌, ◌≢◌, ◌⊎◌, inl, refl, Bool, true, false, ◌&&◌, some, bind-some, List, [], ◌∷◌, arith,
  leb, ltb,
}
use rt_tests.PipStress.{
  Low, Medium, High, World, Process, forked, low_note, medium_note, high_note, low_step,
  medium_step, high_step, step, run,
}

-- The number of steps that a process has made.
abbrev pub low_steps : Low → ℕ
low_steps Low.lock = 0
low_steps Low.note = 1
low_steps Low.leave = 2
low_steps Low.unlock = 3
low_steps Low.reap = 4
low_steps Low.ended = 5

abbrev pub high_steps : High → ℕ
high_steps High.begin = 0
high_steps High.leave_begin = 1
high_steps High.lock = 2
high_steps High.note = 3
high_steps High.leave = 4
high_steps High.unlock = 5
high_steps High.kill = 6
high_steps High.reap = 7
high_steps High.report = 8
high_steps High.leave_report = 9
high_steps High.ended = 10

-- The report that fits an order of steps, of which low has made l before and high h: medium's first
-- step, with which it notes its start, comes after low's second, with which low notes that it owns the
-- resource, after high's first, with which high notes that it has started, and before high's fourth,
-- with which high notes that it owns the resource. Each note is made under the mutex of the structure;
-- the resource's own lock is taken with low's first step and high's third.
abbrev pub verdict : List Process → ℕ → ℕ → Bool
verdict [] l h = false
verdict (Process.low ∷ ps) l h = verdict ps (suc l) h
verdict (Process.medium ∷ ps) l h = leb 2 l && (leb 1 h && ltb h 4)
verdict (Process.high ∷ ps) l h = verdict ps l (suc h)

-- Behind medium's first step, where v is what is to be reported.
record Late (v : Bool) (w : World) : Type 0 where
  medium : w.shared.medium_started ≡ true
  started : w.medium ≢ Medium.note
  low : w.shared.low_owns_resource ≡ leb 2 (low_steps w.low)
  high : w.shared.high_owns_resource ≡ leb 4 (high_steps w.high)
  held : v ≡ true → (w.shared.low_owns_resource ≡ true) × (w.shared.inversion ≡ true)
  missed :
      v ≡ false
      → (w.shared.inversion ≡ false)
        ⊎ ((w.shared.low_owns_resource ≡ false) × (w.shared.high_owns_resource ≡ false))
  report : (b : Bool) → w.printed ≡ some b → b ≡ v

low_step-Late : (v : Bool) (w w' : World) → low_step w ≡ some w' → Late v w → Late v w'
unfolding low_step low_note
low_step-Late v w w' e h = ground arith

medium_step-Late : (v : Bool) (w w' : World) → medium_step w ≡ some w' → Late v w → Late v w'
unfolding medium_step medium_note
medium_step-Late v w w' e h = ground arith

high_step-Late : (v : Bool) (w w' : World) → high_step w ≡ some w' → Late v w → Late v w'
unfolding high_step high_note
high_step-Late v w w' e h = ground arith

-- Before medium's first step.
record Early (w : World) : Type 0 where
  idle : (w.medium ≡ Medium.note) ⊎ (w.medium ≡ Medium.killed)
  medium : w.shared.medium_started ≡ false
  started : w.shared.high_started ≡ leb 1 (high_steps w.high)
  low : w.shared.low_owns_resource ≡ leb 2 (low_steps w.low)
  high : w.shared.high_owns_resource ≡ leb 4 (high_steps w.high)
  inversion : w.shared.inversion ≡ ltb (high_steps w.high) 4
  report : (b : Bool) → w.printed ≡ some b → (b ≡ false) × (leb 9 (high_steps w.high) ≡ true)

low_step-Early :
    (w w' : World)
    → low_step w ≡ some w'
    → Early w
    → Early w'
      × (low_steps w'.low ≡ suc (low_steps w.low))
      × (high_steps w'.high ≡ high_steps w.high)
unfolding low_step low_note
low_step-Early w w' e h = ground arith

high_step-Early :
    (w w' : World)
    → high_step w ≡ some w'
    → Early w
    → Early w'
      × (low_steps w'.low ≡ low_steps w.low)
      × (high_steps w'.high ≡ suc (high_steps w.high))
unfolding high_step high_note
high_step-Early w w' e h = ground arith

medium_step-Early :
    (w w' : World)
    → medium_step w ≡ some w'
    → Early w
    → Late (leb 2 (low_steps w.low) && (leb 1 (high_steps w.high) && ltb (high_steps w.high) 4)) w'
unfolding medium_step medium_note
medium_step-Early w w' e h = ground arith

step-Late : (v : Bool) (p : Process) (w w' : World) → step p w ≡ some w' → Late v w → Late v w'
unfolding step
step-Late v Process.low w w' e h = low_step-Late v w w' e h
step-Late v Process.medium w w' e h = medium_step-Late v w w' e h
step-Late v Process.high w w' e h = high_step-Late v w w' e h

run-Late : (v : Bool) (ps : List Process) (w w' : World) → run ps w ≡ some w' → Late v w → Late v w'
unfolding run
run-Late v [] w w' e h = subst (Late v) (some-injective _ _ e) h
run-Late v (p ∷ ps) w w' e h =
    let (m, e', e'') = bind-some (step p w) e in run-Late v ps m w' e'' (step-Late v p w m e' h)

run-Early :
    (ps : List Process) (w w' : World) (b : Bool)
    → run ps w ≡ some w'
    → Early w
    → w'.printed ≡ some b
    → b ≡ verdict ps (low_steps w.low) (high_steps w.high)
unfolding run step
run-Early [] w w' b e h p = ((subst Early (some-injective _ _ e) h).report b p).0
run-Early (Process.low ∷ ps) w w' b e h p =
    let (m, e', e'') = bind-some (low_step w) e in
    let (h', l, k) = low_step-Early w m e' h in rw (← l) (rw (← k) (run-Early ps m w' b e'' h' p))
run-Early (Process.medium ∷ ps) w w' b e h p =
    let (m, e', e'') = bind-some (medium_step w) e in
    (run-Late _ ps m w' e'' (medium_step-Early w m e' h)).report b p
run-Early (Process.high ∷ ps) w w' b e h p =
    let (m, e', e'') = bind-some (high_step w) e in
    let (h', l, k) = high_step-Early w m e' h in rw (← l) (rw (← k) (run-Early ps m w' b e'' h' p))

forked-Early : Early forked
forked-Early = record {
  idle = inl refl;
  medium = refl;
  started = refl;
  low = refl;
  high = refl;
  inversion = refl;
  report = λ b e. absurd (none-ne-some _ e);
}

-- In whatever order the three processes go on, a report of pip_stress says that priority inheritance
-- was used exactly if the medium process noted its start after the low one had noted that it owns the
-- resource and the high one that it has started, and before the high one noted that it owns the
-- resource: what counts is the order of the notes, not that of taking the lock.
pub report_lem :
    (ps : List Process) (w : World) (b : Bool)
    → run ps forked ≡ some w
    → w.printed ≡ some b
    → b ≡ verdict ps 0 0
report_lem ps w b e p = run-Early ps forked w b e forked-Early p
