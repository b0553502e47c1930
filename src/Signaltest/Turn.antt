-- ===== src/Signaltest/Turn.antt =====
-- The turn of the threads of src/signaltest/signaltest.c: the one signal, and the rounds.
use rt_tests.Base.{
  ℕ, zero, suc, ◌+◌, ◌<◌, ◌≡◌, ◌≢◌, refl, sym, ◌∙◌, Bool, true, false, some, List, ◌∷◌, ltb, ◌==◌,
  length, get_elem?, set, replicate, if◌then◌else◌, arith, lt-get_elem?, set-cases, length-set,
  length-replicate, inl, inr, Bool-cases,
}
use mathlib.Core.Path.{subst}
use mathlib.Core.Option.{none-ne-some, some-injective}
use rt_tests.Cyclictest.Time.{Timespec}
use rt_tests.Signaltest.{
  Settings, Stage, Thread, Ring, Move, Reach, here, next, start, fresh, round, note_diff, is_last,
  tothread,
}

-- How often a thread has passed the signal on: the first time is not counted in cycles.
abbrev pub passes : Thread → ℕ
passes x = x.cycles + (if x.first then 0 else 1)

-- The turn is that of thread k in round r; it `holds` the signal once it has taken it.
abbrev pub ThreadFits : ℕ → ℕ → Bool → ℕ → Thread → Type 0
ThreadFits k r holds i x =
    (passes x ≡ (if ltb i k then r + 1 else r)) × (x.stage ≡ Stage.got → (i ≡ k) × (holds ≡ true))

abbrev pub SignalFits : ℕ → Bool → ℕ → Bool → Type 0
SignalFits k holds i b = b ≡ true → (i ≡ k) × (holds ≡ false)

pub record Turn (n k r : ℕ) (holds : Bool) (s : Ring) : Type 0 where
  pub below : k < n
  pub count : length s.threads ≡ n
  pub threads : (i : ℕ) (x : Thread) → get_elem? s.threads i ≡ some x → ThreadFits k r holds i x
  pub signals : (i : ℕ) (b : Bool) → get_elem? s.pending i ≡ some b → SignalFits k holds i b

abbrev pub HasTurn : ℕ → Ring → Type 0
HasTurn n s = (k : ℕ) × (r : ℕ) × (holds : Bool) × Turn n k r holds s

-- A write at i keeps what holds of the elements, if the others keep it and the new one has it.
set-each :
    {A : Type 0} (P Q : ℕ → A → Type 0) (xs : List A) (i : ℕ) (v : A)
    → ((c : ℕ) (a : A) → get_elem? xs c ≡ some a → P c a)
    → Q i v
    → ((c : ℕ) (a : A) → c ≢ i → c < length xs → P c a → Q c a)
    → (c : ℕ) (a : A) → get_elem? (set xs i v) c ≡ some a
    → Q c a
set-each P Q xs i v p q f c a e = elim (set-cases xs i c v a e) [
  | inl (d, g) ↦ subst (Q c) g (subst (λ j. Q j v) (sym d) q)
  | inr (d, g) ↦ f c a d (lt-get_elem? xs c a g) (p c a g)
]

-- A thread that goes on without the signal.
keep_turn :
    (n k r : ℕ) (holds : Bool) (s : Ring) (i : ℕ) (x : Thread) (g : Stage)
    → Turn n k r holds s
    → get_elem? s.threads i ≡ some x
    → g ≢ Stage.got
    → Turn n k r holds (record s { threads = set s.threads i (record x { stage = g }) })
keep_turn n k r holds s i x g v e d = record {
  below = v.below;
  count = length-set s.threads i _ ∙ v.count;
  threads =
      set-each (ThreadFits k r holds) (ThreadFits k r holds) s.threads i (record x { stage = g })
        v.threads ((v.threads i x e).0, λ h. absurd (d h)) (λ c a _ _ h. h);
  signals = v.signals;
}

round-passes :
    (conf : Settings) (now : Timespec) (x : Thread) → passes (round conf now x) ≡ passes x + 1
unfolding round note_diff
round-passes conf now x = elim (Bool-cases x.first) [
  | inl t ↦ rw t (omega arith)
  | inr t ↦ rw t (omega arith)
]

if-stage : (b : Bool) → (if b then Stage.done else Stage.check) ≢ Stage.got
if-stage true e = ground arith
if-stage false e = ground arith

round-stage : (conf : Settings) (now : Timespec) (x : Thread) → (round conf now x).stage ≢ Stage.got
unfolding round note_diff
round-stage conf now x = elim (Bool-cases x.first) [
  | inl t ↦ rw t (λ e. ground arith)
  | inr t ↦ rw t (if-stage (is_last conf (x.cycles + 1)))
]

-- The thread whose turn it is takes the signal.
take_turn :
    (n k r : ℕ) (holds : Bool) (s : Ring) (i : ℕ) (x : Thread) (t : Timespec)
    → Turn n k r holds s
    → get_elem? s.threads i ≡ some x
    → get_elem? s.pending i ≡ some true
    → Turn n k r true (record s {
      threads = set s.threads i (record x { stage = Stage.got; after = t });
      pending = set s.pending i false;
    })
take_turn n k r holds s i x t v e f =
    let (d, h) = v.signals i true f refl in
    record {
      below = v.below;
      count = length-set s.threads i _ ∙ v.count;
      threads =
          set-each (ThreadFits k r holds) (ThreadFits k r true) s.threads i
            (record x { stage = Stage.got; after = t }) v.threads
            ((v.threads i x e).0, λ _. (d, refl)) (λ c a _ _ p. (p.0, λ g. ((p.1 g).0, refl)));
      signals =
          set-each (SignalFits k holds) (SignalFits k true) s.pending i false v.signals
            (λ g. absurd (ground arith)) (λ c a m _ p g. absurd (m ((p g).0 ∙ sym d)));
    }

-- It passes the signal on, and the turn with it.
pass_turn :
    (conf : Settings) (n k r : ℕ) (holds : Bool) (s : Ring) (i : ℕ) (x : Thread) (now : Timespec)
    (b : Bool)
    → Turn n k r holds s
    → get_elem? s.threads i ≡ some x
    → x.stage ≡ Stage.got
    → HasTurn n (record {
      threads = set s.threads i (round conf now x);
      pending = set s.pending (tothread (length s.threads) i) true;
      shutdown = b;
    })
unfolding tothread
pass_turn conf n k r holds s i x now b v e g =
    let (p, q) = v.threads i x e in
    let (d, h) = q g in
    let once = round-passes conf now x in
    (
      tothread (length s.threads) i,
      (if i + 1 == n then r + 1 else r),
      false,
      record {
        below = ground (arith, v.below, v.count);
        count = length-set s.threads i _ ∙ v.count;
        threads =
            set-each (ThreadFits k r holds) (ThreadFits _ _ false) s.threads i (round conf now x)
              v.threads (ground (arith, v.count), λ y. absurd (round-stage conf now x y))
              (λ c a m l z. (ground (arith, v.count, z.0), λ y. absurd (m ((z.1 y).0 ∙ sym d))));
        signals =
            set-each (SignalFits k holds) (SignalFits _ false) s.pending _ true v.signals
              (λ y. (refl, refl)) (λ c a m l z y. absurd (ground (arith, (z y).1)));
      },
    )

Move-HasTurn : (conf : Settings) (n : ℕ) {s s' : Ring} → Move conf s s' → HasTurn n s → HasTurn n s'
Move-HasTurn conf n {s} (Move.enter i x e g h) (k, r, holds, v) =
    (k, r, holds, keep_turn n k r holds s i x Stage.wait v e (λ d. ground arith))
Move-HasTurn conf n {s} (Move.leave i x e g h) (k, r, holds, v) =
    (k, r, holds, keep_turn n k r holds s i x Stage.done v e (λ d. ground arith))
Move-HasTurn conf n {s} (Move.take i x t e g h) (k, r, holds, v) =
    (k, r, true, take_turn n k r holds s i x t v e h)
Move-HasTurn conf n {s} (Move.pass i x now e g) (k, r, holds, v) =
    pass_turn conf n k r holds s i x now _ v e g
Move-HasTurn conf n {s} Move.stop (k, r, holds, v) = (
  k,
  r,
  holds,
  record { below = v.below; count = v.count; threads = v.threads; signals = v.signals },
)

get_elem?-replicate :
    {A : Type 0} (n : ℕ) (a : A) (i : ℕ) (x : A) → get_elem? (replicate n a) i ≡ some x → a ≡ x
get_elem?-replicate zero a i x e = absurd (none-ne-some x e)
get_elem?-replicate (suc n) a zero x e = some-injective a x e
get_elem?-replicate (suc n) a (suc i) x e = get_elem?-replicate n a i x e

start_signal :
    (n i : ℕ) (b : Bool) → get_elem? (true ∷ replicate n false) i ≡ some b → SignalFits 0 false i b
start_signal n zero b e h = (refl, refl)
start_signal n (suc i) b e h = absurd (ground (arith, get_elem?-replicate n false i b e))

start-Turn : (conf : Settings) (t : Timespec) (n : ℕ) → Turn (suc n) 0 0 false (start conf t n)
start-Turn conf t n = record {
  below = omega arith;
  count = length-replicate (suc n) (fresh conf t);
  threads = λ i x e.
      subst (ThreadFits 0 0 false i) (get_elem?-replicate (suc n) (fresh conf t) i x e)
        (ground arith, λ h. ground arith);
  signals = start_signal n;
}

-- In every state that signaltest reaches it is the turn of one thread: no other has the signal
-- pending or in hand, that one does not have both, and the threads before it have passed the signal on
-- once more than it and those behind it.
pub signal_turn :
    (conf : Settings) (t : Timespec) (n : ℕ) {s : Ring} → Reach conf t n s → HasTurn (suc n) s
signal_turn conf t n here = (0, 0, false, start-Turn conf t n)
signal_turn conf t n (next r m) = Move-HasTurn conf (suc n) m (signal_turn conf t n r)
