-- ===== src/Cyclictest/Setup/Tests.antt =====
-- A machine of four CPUs, and the threads of two command lines.
use rt_tests.Base.{
  ◌≡◌, refl, Bool, zero, suc, true, none, some, List, [], ◌∷◌, arith, length, false, ℕ,
}
use rt_tests.Base.Int.{pos}
use rt_tests.Cyclictest.Options.Config.{Policy, SetAffinity, Opt, Config, defaults, ok}
use rt_tests.Cyclictest.Options.Apply.{
  opt_arg, apply_options, apply_option, apply_affinity, parse_cpumask,
}
use rt_tests.Cyclictest.Options.Validate.{
  Clock, process_options, validate, has_error, clamp_histogram, spread_priority, match_policy,
  default_priority, clock_of,
}
use rt_tests.Cyclictest.Mask.{
  count_loop, find_loop, rt_numa_bitmask_count, rt_numa_bitmask_isbitset, one_cpu, is_cpumask_zero,
  cpu_for_thread,
}
use rt_tests.Cyclictest.Mask.Choice.{tested}
use rt_tests.Cyclictest.Mask.Single.{one_cpu_lem}
use rt_tests.Cyclictest.Setup.{Param, Spread, setup}
use rt_tests.Cyclictest.Setup.Threads.{Placed, machine, AreThreads, process_options-AreThreads}

-- cyclictest -a 2 -t 3 -p 80 --priospread
abbrev spread_options : List Opt
spread_options =
    Opt.affinity (record { here = some (pos 2); behind = none })
    ∷ Opt.threads (record { here = some (pos 3); behind = none })
    ∷ Opt.priority (pos 80)
    ∷ Opt.priospread
    ∷ []

abbrev spread_result : Config
spread_result = record defaults {
  affinity_mask = some 2;
  setaffinity = SetAffinity.specified;
  num_threads = pos 3;
  priority = pos 80;
  policy = Policy.fifo;
  priospread = true;
  distance = pos 500;
}

spread_options-ok : process_options (pos 4) spread_options ≡ ok spread_result
unfolding process_options apply_options apply_option apply_affinity parse_cpumask validate has_error
    opt_arg clamp_histogram spread_priority match_policy default_priority
spread_options-ok = refl

spread_result-clock : clock_of spread_result ≡ some Clock.monotonic
unfolding clock_of
spread_result-clock = refl

process_options-AreThreads_example :
    (ps : List Param) × (v : Spread) × (setup spread_result (machine spread_result 4)
      ≡ some (ps, v))
    × (pos (length ps) ≡ pos 3)
    × AreThreads (Placed SetAffinity.specified (some 2) 4) spread_result 0 ps
process_options-AreThreads_example =
    process_options-AreThreads 4 spread_options spread_result Clock.monotonic (omega arith)
      (omega arith) spread_options-ok spread_result-clock

-- CPUs 1 and 3 of four: the third thread begins again with CPU 1.
abbrev odd_cpus : ℕ → Bool
odd_cpus (suc zero) = true
odd_cpus (suc (suc (suc zero))) = true
odd_cpus _ = false

cpu_for_thread-third : cpu_for_thread (tested odd_cpus) 4 2 4 ≡ some 1
unfolding cpu_for_thread rt_numa_bitmask_count count_loop find_loop
cpu_for_thread-third = refl

one_cpu_lem_example :
    (is_cpumask_zero (rt_numa_bitmask_isbitset (one_cpu 40 3)) 40 ≡ none)
    × (cpu_for_thread (rt_numa_bitmask_isbitset (one_cpu 40 3)) 40 5 40 ≡ none)
one_cpu_lem_example = one_cpu_lem 40 3 5 (omega arith)
