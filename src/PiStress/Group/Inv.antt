-- ===== src/PiStress/Group/Inv.antt =====
-- The invariant of a group: the threads cross their barriers together.
use rt_tests.Base.{ℕ, ◌≡◌, Bool, true, false, arith}
use rt_tests.Base.Int.{ℤ}
use rt_tests.PiStress.Group.{Low, Med, High, Owner, Group, Move, Step, Reach, here, next}

-- Barriers of all three threads crossed since the head of the loop.
abbrev pub crossed_low : Low → ℕ
crossed_low Low.check = 0
crossed_low Low.loop_wait = 0
crossed_low Low.done = 0
crossed_low Low.serial = 1
crossed_low Low.start_wait = 1
crossed_low _ = 2

abbrev pub crossed_med : Med → ℕ
crossed_med Med.check = 0
crossed_med Med.loop_wait = 0
crossed_med Med.done = 0
crossed_med Med.serial = 1
crossed_med Med.start_wait = 1
crossed_med _ = 2

abbrev pub crossed_high : High → ℕ
crossed_high High.check = 0
crossed_high High.loop_wait = 0
crossed_high High.done = 0
crossed_high High.count = 0
crossed_high High.serial = 1
crossed_high High.start_wait = 1
crossed_high _ = 2

-- Whether the barrier of low and high, and that of low and med, is crossed in this iteration.
abbrev pub locked_low : Low → ℕ
locked_low Low.elevate_wait = 1
locked_low Low.unlock = 1
locked_low Low.finish_wait = 1
locked_low _ = 0

abbrev pub locked_high : High → ℕ
locked_high High.lock = 1
locked_high High.unlock = 1
locked_high High.finish_wait = 1
locked_high _ = 0

abbrev pub elevated_low : Low → ℕ
elevated_low Low.unlock = 1
elevated_low Low.finish_wait = 1
elevated_low _ = 0

abbrev pub elevated_med : Med → ℕ
elevated_med Med.finish_wait = 1
elevated_med _ = 0

-- Who holds the mutex, by the program counters.
abbrev pub owns_low : Low → ℕ
owns_low Low.locked_wait = 1
owns_low Low.elevate_wait = 1
owns_low Low.unlock = 1
owns_low _ = 0

abbrev pub owns_high : High → ℕ
owns_high High.unlock = 1
owns_high _ = 0

abbrev pub is_low : Owner → ℕ
is_low Owner.low = 1
is_low _ = 0

abbrev pub is_high : Owner → ℕ
is_high Owner.high = 1
is_high _ = 0

-- What a thread's place says of `loop`.
abbrev pub AgreesLow : Low → Bool → Type 0
AgreesLow Low.loop_wait loop = loop ≡ true
AgreesLow Low.done loop = loop ≡ false
AgreesLow _ loop = Unit

abbrev pub AgreesMed : Med → Bool → Type 0
AgreesMed Med.loop_wait loop = loop ≡ true
AgreesMed Med.done loop = loop ≡ false
AgreesMed _ loop = Unit

abbrev pub AgreesHigh : High → Bool → Type 0
AgreesHigh High.loop_wait loop = loop ≡ true
AgreesHigh High.done loop = loop ≡ false
AgreesHigh _ loop = Unit

pub record IsValid (g : Group) : Type 0 where
  pub with_med : crossed_low g.low ≡ crossed_med g.med
  pub with_high : crossed_low g.low ≡ crossed_high g.high
  pub locked : locked_low g.low ≡ locked_high g.high
  pub elevated : elevated_low g.low ≡ elevated_med g.med
  pub low_owns : is_low g.mutex ≡ owns_low g.low
  pub high_owns : is_high g.mutex ≡ owns_high g.high
  pub low_agrees : AgreesLow g.low g.loop
  pub med_agrees : AgreesMed g.med g.loop
  pub high_agrees : AgreesHigh g.high g.loop

Move-IsValid : {g h : Group} → Move g h → IsValid g → IsValid h
Move-IsValid {g} (Move.low_enter p q) v = ground arith
Move-IsValid {g} (Move.low_leave p q) v = ground arith
Move-IsValid {g} (Move.med_enter p q) v = ground arith
Move-IsValid {g} (Move.med_leave p q) v = ground arith
Move-IsValid {g} (Move.high_enter p q) v = ground arith
Move-IsValid {g} (Move.high_leave p q) v = ground arith
Move-IsValid {g} (Move.loop_barrier s p q r) v = ground arith
Move-IsValid {g} (Move.low_serial p) v = ground arith
Move-IsValid {g} (Move.med_serial p) v = ground arith
Move-IsValid {g} (Move.high_serial p) v = ground arith
Move-IsValid {g} (Move.start_barrier p q r) v = ground arith
Move-IsValid {g} (Move.low_lock p q) v = ground arith
Move-IsValid {g} (Move.locked_barrier p q) v = ground arith
Move-IsValid {g} (Move.elevate_barrier p q) v = ground arith
Move-IsValid {g} (Move.low_unlock p) v = ground arith
Move-IsValid {g} (Move.high_lock p q) v = ground arith
Move-IsValid {g} (Move.high_unlock p) v = ground arith
Move-IsValid {g} (Move.finish_barrier p q r) v = ground arith
Move-IsValid {g} (Move.high_count p) v = ground arith

-- Every step keeps the three threads between the same barriers, the mutex with the thread whose
-- place says so, and `loop` true while a thread waits to start an iteration and false once one has left.
pub Step-IsValid : {g h : Group} → Step g h → IsValid g → IsValid h
Step-IsValid (Step.moved m) v = Move-IsValid m v
Step-IsValid {g} (Step.reached p) v = ground arith
Step-IsValid {g} Step.set_shutdown v = ground arith

pub Reach-IsValid : {inversions : ℤ} {g : Group} → Reach inversions g → IsValid g
Reach-IsValid {inversions} here = ground arith
Reach-IsValid (next r st) = Step-IsValid st (Reach-IsValid r)
