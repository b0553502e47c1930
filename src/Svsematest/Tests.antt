-- ===== src/Svsematest/Tests.antt =====
-- Runs of the model of src/svsematest/svsematest.c at concrete inputs.
use rt_tests.Base.{
  ℕ, ◌+◌, ◌-◌, ◌*◌, ◌/◌, ◌%◌, ◌<◌, ◌≤◌, ◌≡◌, refl, true, none, some, List, [], ◌∷◌, length, ltb,
  if◌then◌else◌, arith,
}
use rt_tests.Base.Int.{ℤ, pos, ◌+ℤ◌, ◌≤ℤ◌}
use rt_tests.Pair.{Timeval, note_diff, timersub_usec, is_last, is_traced}
use rt_tests.Svsematest.{
  Settings, Sender, Receiver, Pair, Move, Reach, here, next, start, unlock_sender, measure,
}
use rt_tests.Svsematest.Options.{
  Opt, Config, defaults, process_options, apply_options, apply_option, apply_fork, validate,
  has_error,
}
use rt_tests.Svsematest.Fork.{Role, f_opt, child, fork_children}
use rt_tests.Svsematest.Overrun.{endless, receiver_overruns}

abbrev at_time : ℕ → Timeval
at_time n = record { sec = 7; usec = n }

abbrev five_rounds : Settings
five_rounds = record { max_cycles = pos 5; tracelimit = pos 0 }

-- The first message is sent, and received 30 µs later.
abbrev first_result : Pair
first_result = record (start (at_time 0)) {
  sender = Sender.wait_receiver;
  receiver = Receiver.answer;
  unblocked = at_time 10;
  received = at_time 40;
  sender_samples = 1;
  measured = record { samples = 1; mindiff = 30; maxdiff = 30; sumdiff = 30; diff = 30 };
}

first_result-Reach : Reach five_rounds (at_time 0) first_result
unfolding unlock_sender measure note_diff timersub_usec is_last is_traced
first_result-Reach =
    next
      (next
        (next
          (next (next here (Move.sender_enter (at_time 10) refl refl)) (Move.sender_unlock refl))
          (Move.receiver_enter refl refl))
        (Move.receiver_lock 0 (at_time 40) refl refl))
      (Move.receiver_measure refl)

receiver_overruns_example :
    (s : Pair) × Reach endless (at_time 0) s × (s.sender_samples ≡ 1) × (s.measured.samples ≡ 3)
receiver_overruns_example = receiver_overruns 3 (at_time 0)

-- sprintf's %d below 1000, and atoi.
abbrev decimal : ℕ → List ℕ
decimal n =
    if ltb n 10
    then (48 + n) ∷ []
    else if ltb n 100
    then (48 + n / 10) ∷ (48 + n % 10) ∷ []
    else (48 + n / 100) ∷ (48 + n / 10 % 10) ∷ (48 + n % 10) ∷ []

abbrev value : List ℕ → ℕ → ℕ
value [] n = n
value (c ∷ cs) n = value cs (10 * n + (c - 48))

abbrev atoi : List ℕ → ℤ
atoi s = pos (value s 0)

printed : (n : ℕ) → n < 1000 → (atoi (decimal n) ≡ pos n) × (length (decimal n) ≤ 3)
printed n h = ground arith

-- svsematest -f -t 12
abbrev forking : Config
forking = record defaults { mustfork = true; num_threads = pos 12 }

forking_accepted :
    process_options atoi
      (pos 4)
      (Opt.fork none ∷ Opt.threads (record { here = some (pos 12); behind = none }) ∷ [])
    ≡ some forking
unfolding process_options apply_options apply_option apply_fork validate has_error
    rt_tests.Cyclictest.Options.Apply.opt_arg
forking_accepted = refl

twelve : pos 11 +ℤ pos 1 ≤ℤ pos 12
unfolding ◌+ℤ◌
twelve = omega arith

fork_children_example :
    (length (f_opt decimal true 11) + 1 ≤ 8)
    × (child atoi (pos 4) (f_opt decimal true 11) ≡ some (Role.thread true (pos 11)))
fork_children_example =
    fork_children atoi decimal (pos 4)
      (Opt.fork none ∷ Opt.threads (record { here = some (pos 12); behind = none }) ∷ []) forking 11
      true printed forking_accepted refl twelve
