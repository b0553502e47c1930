-- ===== src/PiStress/Group/Progress.antt =====
-- What a group of pi_stress does in every interleaving.
use rt_tests.Base.{◌≡◌, ◌≢◌, ◌⊎◌, inl, inr, refl, arith, Bool-cases}
use rt_tests.Base.Int.{ℤ}
use rt_tests.PiStress.Group.{Low, Med, High, Owner, Group, Serial, Move, Reach}
use rt_tests.PiStress.Group.Inv.{IsValid, Reach-IsValid}

-- All three threads have left the loop.
abbrev pub AllDone : Group → Type 0
AllDone g = (g.low ≡ Low.done) × (g.med ≡ Med.done) × (g.high ≡ High.done)

abbrev pub CanMove : Group → Type 0
CanMove g = (h : Group) × Move g h

-- In every reachable state in which the high-priority thread is about to take the mutex, the
-- low-priority thread holds it, or has held it in this iteration and released it already.
pub inversion_forced :
    {inversions : ℤ} {g : Group}
    → Reach inversions g
    → g.high ≡ High.lock
    → (g.mutex ≡ Owner.low) ⊎ ((g.low ≡ Low.finish_wait) × (g.mutex ≡ Owner.free))
inversion_forced {g = g} r e = let v = Reach-IsValid r in ground arith

-- "Either all threads go through the loop_barr, or none do": while one thread waits to begin an
-- iteration, none of the three has left the loop.
all_or_none :
    {inversions : ℤ} {g : Group}
    → Reach inversions g
    → (g.low ≡ Low.loop_wait) ⊎ (g.med ≡ Med.loop_wait) ⊎ (g.high ≡ High.loop_wait)
    → (g.low ≢ Low.done) × (g.med ≢ Med.done) × (g.high ≢ High.done)
all_or_none {g = g} r e = let v = Reach-IsValid r in ground arith

check_moves_low : (g : Group) → g.low ≡ Low.check → CanMove g
check_moves_low g e = elim (Bool-cases g.loop) [
  | inl l ↦ (_, Move.low_enter e l)
  | inr l ↦ (_, Move.low_leave e l)
]

check_moves_med : (g : Group) → g.med ≡ Med.check → CanMove g
check_moves_med g e = elim (Bool-cases g.loop) [
  | inl l ↦ (_, Move.med_enter e l)
  | inr l ↦ (_, Move.med_leave e l)
]

check_moves_high : (g : Group) → g.high ≡ High.check → CanMove g
check_moves_high g e = elim (Bool-cases g.loop) [
  | inl l ↦ (_, Move.high_enter e l)
  | inr l ↦ (_, Move.high_leave e l)
]

-- Where the other two threads can stand, for each place at which the low-priority thread waits.
med_at_loop :
    (g : Group) → IsValid g → g.low ≡ Low.loop_wait → (g.med ≡ Med.check) ⊎ (g.med ≡ Med.loop_wait)
med_at_loop g v e = ground arith

high_at_loop :
    (g : Group)
    → IsValid g
    → g.low ≡ Low.loop_wait
    → (g.high ≡ High.check) ⊎ (g.high ≡ High.loop_wait) ⊎ (g.high ≡ High.count)
high_at_loop g v e = ground arith

med_at_done : (g : Group) → IsValid g → g.low ≡ Low.done → (g.med ≡ Med.check) ⊎ (g.med ≡ Med.done)
med_at_done g v e = ground arith

high_at_done :
    (g : Group)
    → IsValid g
    → g.low ≡ Low.done
    → (g.high ≡ High.check) ⊎ (g.high ≡ High.done) ⊎ (g.high ≡ High.count)
high_at_done g v e = ground arith

med_at_start :
    (g : Group)
    → IsValid g
    → g.low ≡ Low.start_wait
    → (g.med ≡ Med.serial) ⊎ (g.med ≡ Med.start_wait)
med_at_start g v e = ground arith

high_at_start :
    (g : Group)
    → IsValid g
    → g.low ≡ Low.start_wait
    → (g.high ≡ High.serial) ⊎ (g.high ≡ High.start_wait)
high_at_start g v e = ground arith

high_at_finish :
    (g : Group)
    → IsValid g
    → g.low ≡ Low.finish_wait
    → ((g.high ≡ High.lock) × (g.mutex ≡ Owner.free))
      ⊎ (g.high ≡ High.unlock)
      ⊎ (g.high ≡ High.finish_wait)
high_at_finish g v e = ground arith

loop_moves : (g : Group) → IsValid g → g.low ≡ Low.loop_wait → CanMove g
loop_moves g v e = elim (med_at_loop g v e) [
  | inl m ↦ check_moves_med g m
  | inr m ↦ elim (high_at_loop g v e) [
    | inl h ↦ check_moves_high g h
    | inr (inl h) ↦ (_, Move.loop_barrier Serial.low e m h)
    | inr (inr h) ↦ (_, Move.high_count h)
  ]
]

start_moves : (g : Group) → IsValid g → g.low ≡ Low.start_wait → CanMove g
start_moves g v e = elim (med_at_start g v e) [
  | inl m ↦ (_, Move.med_serial m)
  | inr m ↦ elim (high_at_start g v e) [
    | inl h ↦ (_, Move.high_serial h)
    | inr h ↦ (_, Move.start_barrier e m h)
  ]
]

finish_moves : (g : Group) → IsValid g → g.low ≡ Low.finish_wait → CanMove g
finish_moves g v e = elim (high_at_finish g v e) [
  | inl (h, free) ↦ (_, Move.high_lock h free)
  | inr (inl h) ↦ (_, Move.high_unlock h)
  | inr (inr h) ↦ (_, Move.finish_barrier e (ground arith) h)
]

done_moves : (g : Group) → IsValid g → g.low ≡ Low.done → AllDone g ⊎ CanMove g
done_moves g v e = elim (med_at_done g v e) [
  | inl m ↦ inr (check_moves_med g m)
  | inr m ↦ elim (high_at_done g v e) [
    | inl h ↦ inr (check_moves_high g h)
    | inr (inl h) ↦ inl (e, m, h)
    | inr (inr h) ↦ inr (_, Move.high_count h)
  ]
]

low_moves : (g : Group) (l : Low) → IsValid g → g.low ≡ l → AllDone g ⊎ CanMove g
low_moves g Low.check v e = inr (check_moves_low g e)
low_moves g Low.loop_wait v e = inr (loop_moves g v e)
low_moves g Low.serial v e = inr (_, Move.low_serial e)
low_moves g Low.start_wait v e = inr (start_moves g v e)
low_moves g Low.lock v e = inr (_, Move.low_lock e (ground arith))
low_moves g Low.locked_wait v e = inr (_, Move.locked_barrier e (ground arith))
low_moves g Low.elevate_wait v e = inr (_, Move.elevate_barrier e (ground arith))
low_moves g Low.unlock v e = inr (_, Move.low_unlock e)
low_moves g Low.finish_wait v e = inr (finish_moves g v e)
low_moves g Low.done v e = done_moves g v e

-- A group cannot deadlock: in every reachable state, either all three threads have left their
-- loops, or one of them, or all the parties of a barrier, can move.
pub deadlock_free : {inversions : ℤ} {g : Group} → Reach inversions g → AllDone g ⊎ CanMove g
deadlock_free {g = g} r = low_moves g g.low (Reach-IsValid r) refl
