-- ===== src/Signaltest/Tests.antt =====
-- Runs of the model of src/signaltest/signaltest.c at concrete inputs.
use rt_tests.Base.{ℕ, ◌≡◌, refl, true, false, some, [], ◌∷◌, get_elem?}
use rt_tests.Base.Int.{pos}
use rt_tests.Cyclictest.Time.{Timespec}
use rt_tests.Signaltest.{
  Settings, Stage, Thread, Ring, Move, Reach, here, next, fresh, round, tothread, trips,
}
use rt_tests.Signaltest.Turn.{HasTurn, signal_turn}
use rt_tests.Signaltest.Hang.{shutdown_hangs}

abbrev at_time : ℕ → Timespec
at_time n = record { sec = 7; nsec = n }

abbrev five_rounds : Settings
five_rounds = record { max_cycles = pos 5; tracelimit = pos 0; verbose = false }

-- The first of three threads has passed the signal on.
abbrev second_turn : Ring
second_turn = record {
  threads =
      record (fresh five_rounds (at_time 0)) {
        first = false;
        before = at_time 20;
        after = at_time 10;
      }
      ∷ fresh five_rounds (at_time 0)
      ∷ fresh five_rounds (at_time 0)
      ∷ [];
  pending = false ∷ true ∷ false ∷ [];
  shutdown = false;
}

second_turn-Reach : Reach five_rounds (at_time 0) 2 second_turn
unfolding round tothread trips
second_turn-Reach =
    next
      (next (next here (Move.enter 0 _ refl refl refl)) (Move.take 0 _ (at_time 10) refl refl refl))
      (Move.pass 0 _ (at_time 20) refl refl)

signal_turn_example : HasTurn 3 second_turn
signal_turn_example = signal_turn five_rounds (at_time 0) 2 second_turn-Reach

shutdown_hangs_example :
    (s : Ring) × Reach five_rounds (at_time 0) 1 s
    × (s.shutdown ≡ true)
    × ((x : Thread) × (get_elem? s.threads 1 ≡ some x) × (x.stage ≡ Stage.wait))
    × ((s' : Ring) → Move five_rounds s s' → s' ≡ s)
shutdown_hangs_example = shutdown_hangs five_rounds (at_time 0)
