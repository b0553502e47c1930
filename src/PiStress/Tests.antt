-- ===== src/PiStress/Tests.antt =====
-- A run of a group of pi_stress.
use rt_tests.Base.{◌≡◌, ◌⊎◌, refl, ℕ, ◌↔◌, List, [], ◌∷◌, true}
use rt_tests.Base.Int.{negsuc}
use rt_tests.PiStress.Watchdog.{reporter}
use rt_tests.PiStress.Watchdog.Idle.{Idle, between, reporter_iff}
use rt_tests.PiStress.Group.{
  Low, Med, High, Owner, Group, Serial, Move, moved, start, Reach, here, next,
}
use rt_tests.PiStress.Group.Progress.{AllDone, CanMove, inversion_forced, deadlock_free}

-- Each line is the state before it, and a move.
abbrev at_loop : Group
at_loop = record (start (negsuc 0)) { low = Low.loop_wait }

at_loop-Reach : Reach (negsuc 0) at_loop
at_loop-Reach = next here (moved (Move.low_enter refl refl))

abbrev both_at_loop : Group
both_at_loop = record at_loop { med = Med.loop_wait; high = High.loop_wait }

both_at_loop-Reach : Reach (negsuc 0) both_at_loop
both_at_loop-Reach =
    next (next at_loop-Reach (moved (Move.med_enter refl refl))) (moved (Move.high_enter refl refl))

abbrev at_start : Group
at_start = record both_at_loop {
  low = Low.start_wait;
  med = Med.start_wait;
  high = High.start_wait;
}

at_start-Reach : Reach (negsuc 0) at_start
at_start-Reach =
    next (next both_at_loop-Reach (moved (Move.loop_barrier Serial.low refl refl refl)))
      (moved (Move.low_serial refl))

abbrev locked : Group
locked = record at_start {
  low = Low.elevate_wait;
  med = Med.elevate_wait;
  high = High.lock;
  mutex = Owner.low;
}

locked-Reach : Reach (negsuc 0) locked
locked-Reach =
    next
      (next (next at_start-Reach (moved (Move.start_barrier refl refl refl)))
        (moved (Move.low_lock refl refl)))
      (moved (Move.locked_barrier refl refl))

inversion_forced_example :
    (locked.mutex ≡ Owner.low) ⊎ ((locked.low ≡ Low.finish_wait) × (locked.mutex ≡ Owner.free))
inversion_forced_example = inversion_forced {g = locked} locked-Reach refl

deadlock_free_example : AllDone locked ⊎ CanMove locked
deadlock_free_example = deadlock_free {g = locked} locked-Reach

-- Seven periods, of which the second to the sixth are idle.
abbrev periods : List ℕ
periods = 12 ∷ 0 ∷ 0 ∷ 0 ∷ 0 ∷ 0 ∷ 3 ∷ []

reporter_iff_example : (reporter periods (between 0 0 0 ∷ []) ≡ true) ↔ ((i : ℕ) × Idle 5 periods i)
reporter_iff_example = reporter_iff 0 periods
