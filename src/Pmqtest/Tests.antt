-- ===== src/Pmqtest/Tests.antt =====
-- Runs of the models of src/pmqtest/pmqtest.c at concrete inputs.
use rt_tests.Base.{ℕ, ◌≤◌, ◌≡◌, refl, true, none, some, List, [], ◌∷◌, length, arith}
use rt_tests.Base.Int.{pos}
use rt_tests.Pair.{Timeval, note_diff, timersub_usec, is_last, is_traced}
use rt_tests.Pair.Exchange.{Exchange, Reaches}
use rt_tests.Pmqtest.{
  Settings, Sender, Receiver, Pair, Move, Reach, here, next, start, after_send, measure,
}
use rt_tests.Pmqtest.Refine.{Stands, Timed, pmqtest_turns}
use rt_tests.Pmqtest.Timeout.{timeout_stalls}
use rt_tests.Pmqtest.Options.{
  SetAffinity, Opt, Config, defaults, process_options, apply_options, apply_option, apply_affinity,
  validate, has_error,
}
use rt_tests.Pmqtest.Setup.{AllFit, threads, process_options-threads}

abbrev at_time : ℕ → Timeval
at_time n = record { sec = 7; usec = n }

abbrev patient : Settings
patient = record { max_cycles = pos 5; tracelimit = pos 0; timeout = pos 0; forcetimeout = pos 0 }

abbrev hurried : Settings
hurried = record { max_cycles = pos 5; tracelimit = pos 0; timeout = pos 2; forcetimeout = pos 0 }

-- The first message is sent, and received 30 µs later.
abbrev first_result : Pair
first_result = record (start (at_time 0)) {
  sender = Sender.wait;
  receiver = Receiver.answer;
  sent = at_time 10;
  received = at_time 40;
  sender_samples = 1;
  measured = record { samples = 1; mindiff = 30; maxdiff = 30; sumdiff = 30; diff = 30 };
}

first_result-Reach : Reach patient (at_time 0) first_result
unfolding after_send measure note_diff timersub_usec is_last is_traced
first_result-Reach =
    next
      (next
        (next
          (next (next here (Move.sender_enter (at_time 10) refl refl)) (Move.sender_put refl refl))
          (Move.receiver_enter refl refl))
        (Move.receiver_get (at_time 40) refl refl))
      (Move.receiver_measure refl)

pmqtest_turns_example :
    (x : Exchange) × Reaches x
    × Stands first_result x
    × Timed (at_time 10 ∷ []) (at_time 40 ∷ []) first_result x
unfolding first_result-Reach
pmqtest_turns_example = pmqtest_turns patient (at_time 0) refl first_result-Reach

-- With a timeout, the sender has taken its answer and waits for another.
abbrev stalled : Pair
stalled = record first_result { receiver = Receiver.check }

stalled-Reach : Reach hurried (at_time 0) stalled
unfolding after_send measure note_diff timersub_usec is_last is_traced
stalled-Reach =
    next
      (next
        (next
          (next
            (next
              (next (next here (Move.sender_enter (at_time 10) refl refl))
                (Move.sender_put refl refl))
              (Move.receiver_enter refl refl))
            (Move.receiver_get (at_time 40) refl refl))
          (Move.receiver_measure refl))
        (Move.receiver_put refl refl))
      (Move.sender_timed refl refl)

timeout_stalls_example : stalled.sender_samples ≤ 1
timeout_stalls_example =
    timeout_stalls hurried (at_time 0) (λ e. absurd (ground arith)) stalled-Reach

-- pmqtest -S -p 99 on four CPUs.
abbrev smp_options : List Opt
smp_options = Opt.smp ∷ Opt.priority (pos 99) ∷ []

abbrev smp_config : Config
smp_config = record defaults {
  setaffinity = SetAffinity.useall;
  priority = pos 99;
  num_threads = pos 4;
  smp = true;
  sameprio = true;
}

smp_accepted : process_options (pos 4) smp_options ≡ some smp_config
unfolding process_options apply_options apply_option validate has_error
smp_accepted = refl

process_options-threads_example :
    (1 ≤ length (threads (pos 4) smp_config))
    × (length (threads (pos 4) smp_config) ≤ 255)
    × AllFit (pos 4) (pos 99) (threads (pos 4) smp_config)
process_options-threads_example =
    process_options-threads 4 smp_options smp_config (omega arith) smp_accepted

-- A CPU behind the last one is refused, and so is --force without --timeout.
no_such_cpu :
    process_options (pos 4) (Opt.affinity (record { here = some (pos 4); behind = none }) ∷ [])
    ≡ none
unfolding process_options apply_options apply_option apply_affinity validate has_error
no_such_cpu = refl

force_alone : process_options (pos 4) (Opt.forcetimeout (pos 1) ∷ []) ≡ none
unfolding process_options apply_options apply_option validate has_error
force_alone = refl
