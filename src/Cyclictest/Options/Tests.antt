-- ===== src/Cyclictest/Options/Tests.antt =====
-- Command lines of cyclictest.
use rt_tests.Base.{◌≡◌, refl, true, none, some, List, [], ◌∷◌, ◌++◌}
use rt_tests.Base.Int.{pos}
use rt_tests.Cyclictest.Options.Config.{Policy, SetAffinity, OptArg, Opt, Config, defaults, ok}
use rt_tests.Cyclictest.Options.Apply.{
  apply_options, apply_option, apply_affinity, handlepolicy, begins_with,
}
use rt_tests.Cyclictest.Options.Validate.{
  process_options, validate, has_error, clamp_histogram, spread_priority, match_policy,
  default_priority,
}
use rt_tests.Cyclictest.Options.Accept.{IsAccepted, process_options-IsAccepted}
use rt_tests.Cyclictest.Options.Smp.{IsSmp, smp_wins}

abbrev no_arg : OptArg
no_arg = record { here = none; behind = none }

-- cyclictest -h 2000000 --policy=rr -q, with the policy in bytes.
abbrev some_options : List Opt
some_options = Opt.histogram (pos 2_000_000) ∷ Opt.policy (b'r' ∷ b'r' ∷ []) ∷ Opt.quiet ∷ []

abbrev some_result : Config
some_result = record defaults {
  histogram = pos 1_000_000;
  distance = pos 500;
  policy = Policy.rr;
  priority = pos 2;
  quiet = true;
}

some_options-ok : process_options (pos 4) some_options ≡ ok some_result
unfolding process_options apply_options apply_option handlepolicy begins_with validate has_error
    clamp_histogram spread_priority match_policy default_priority
some_options-ok = refl

process_options-IsAccepted_example : IsAccepted some_result
process_options-IsAccepted_example =
    process_options-IsAccepted (pos 4) some_options some_result some_options-ok

abbrev chosen : Config
chosen = record defaults { clocksel = pos 1; distance = pos 500 }

chosen-ok : validate (record defaults { clocksel = pos 1 }) ≡ ok chosen
unfolding validate has_error clamp_histogram spread_priority match_policy default_priority
chosen-ok = refl

-- cyclictest -n --smp -t 2 -a
abbrev smp_options : List Opt
smp_options =
    (Opt.nanosleep ∷ [])
    ++ (Opt.smp
        ∷ Opt.threads (record { here = some (pos 2); behind = none })
        ∷ Opt.affinity no_arg
        ∷ [])

abbrev smp_result : Config
smp_result = record defaults {
  smp = true;
  num_threads = pos 4;
  setaffinity = SetAffinity.useall;
  use_nanosleep = 1;
}

smp_options-ok : apply_options (pos 4) smp_options defaults ≡ ok smp_result
unfolding apply_options apply_option apply_affinity
smp_options-ok = refl

smp_wins_example : IsSmp (pos 4) smp_result
smp_wins_example =
    smp_wins (pos 4) (Opt.nanosleep ∷ [])
      (Opt.threads (record { here = some (pos 2); behind = none }) ∷ Opt.affinity no_arg ∷ [])
      defaults smp_result smp_options-ok
