-- ===== src/Sigwaittest/Tests.antt =====
-- Runs of the model of src/sigwaittest/sigwaittest.c at concrete inputs.
use rt_tests.Base.{ℕ, refl}
use rt_tests.Base.Int.{pos}
use rt_tests.Pair.{Timeval, note_diff, timersub_usec, is_last, is_traced}
use rt_tests.Pair.Exchange.{Exchange}
use rt_tests.Sigwaittest.{
  Settings, Sender, Receiver, Pair, Move, Reach, here, next, start, send_signal, measure,
}

abbrev at_time : ℕ → Timeval
at_time n = record { sec = 7; usec = n }

abbrev five_rounds : Settings
five_rounds = record { max_cycles = pos 5; tracelimit = pos 0 }

-- The first message is sent, and received 30 µs later.
abbrev first_result : Pair
first_result = record (start (at_time 0)) {
  sender = Sender.wait;
  receiver = Receiver.answer;
  unblocked = at_time 10;
  received = at_time 40;
  sender_samples = 1;
  measured = record { samples = 1; mindiff = 30; maxdiff = 30; sumdiff = 30; diff = 30 };
}

first_result-Reach : Reach five_rounds (at_time 0) first_result
unfolding send_signal measure note_diff timersub_usec is_last is_traced
first_result-Reach =
    next
      (next
        (next (next (next here (Move.sender_enter (at_time 10) refl refl)) (Move.sender_kill refl))
          (Move.receiver_enter refl refl))
        (Move.receiver_wait (at_time 40) refl refl))
      (Move.receiver_measure refl)
