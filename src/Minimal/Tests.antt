-- ===== src/Minimal/Tests.antt =====
-- Runs of the minimal cyclictest at concrete inputs.
use rt_tests.Base.{◌≡◌, refl, some, [], ◌∷◌, arith, true}
use rt_tests.Base.Int.{pos, negsuc}
use rt_tests.Minimal.{note_all, fresh}
use rt_tests.Minimal.Command.{
  Opt, Config, defaults, process_options, apply_options, apply_option, has_error,
}
use rt_tests.Minimal.Print.{print_stat, print_stat_behind}

-- Three rounds.
print_stat_behind_example :
    (print_stat 0 16_383 (note_all 16_383 (pos 12 ∷ pos 30 ∷ negsuc 4 ∷ []) (fresh true))).0
    ≡ record { index = 0; cycle = 0; latency = pos 0 }
      ∷ record { index = 0; cycle = 1; latency = pos 12 }
      ∷ record { index = 0; cycle = 2; latency = pos 30 }
      ∷ []
print_stat_behind_example = print_stat_behind 0 (pos 12 ∷ pos 30 ∷ negsuc 4 ∷ []) (omega arith)

-- cyclictest_minimal -p 1 -t 3 -n
abbrev three : Config
three = record defaults { priority = pos 1; num_threads = pos 3; use_nanosleep = 1 }

three-ok :
    process_options (Opt.priority (pos 1) ∷ Opt.threads (pos 3) ∷ Opt.nanosleep ∷ []) ≡ some three
unfolding process_options apply_options apply_option has_error
three-ok = refl
