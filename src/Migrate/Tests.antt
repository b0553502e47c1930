-- ===== src/Migrate/Tests.antt =====
-- Runs of the models of src/rt-migrate-test/rt-migrate-test.c at concrete inputs.
use rt_tests.Migrate.Rotate.{rotation, IsGap, rotation_lem}
use rt_tests.Base.{
  get_elem?, ◌==◌, ◌||◌, ℕ, ◌≤◌, ◌≡◌, ◌↔◌, refl, Bool, true, false, some, List, [], ◌∷◌, length,
  arith, replicate, get_or, zero, suc, ◌<◌, if◌then◌else◌,
}
use rt_tests.Base.Int.{negsuc, pos}
use rt_tests.Migrate.{Entry, zeroed, check_times}
use rt_tests.Migrate.Check.{Fits, Neighbours, check_times_iff}
use rt_tests.Migrate.Rows.{HasRoom}
use rt_tests.Migrate.Verdict.{some_refused, exit_status_lem}
use rt_tests.Migrate.Main.{exit_status, Main, Round, main_loop}
use rt_tests.Migrate.Command.{Opt, Config, defaults, Parsed, parse_options, parse_from, validate}

abbrev early : Entry
early = record { interval = 10; len = 3000; loops = 40 }

abbrev late : Entry
late = record { interval = 2500; len = 5600; loops = 12 }

entries-fit : Fits early × Fits late
entries-fit = (
  record { interval = omega arith; len = omega arith },
  record { interval = omega arith; len = omega arith },
)

check_times_iff_example :
    (check_times 1000 (early ∷ late ∷ []) ≡ true) ↔ Neighbours 1000 (early ∷ late ∷ [])
check_times_iff_example =
    check_times_iff 1000 (early ∷ late ∷ []) (entries-fit.0, (entries-fit.1, tt))

abbrev some_runs : List ℕ
some_runs = 7000 ∷ 2500 ∷ 11_000 ∷ []

abbrev two_runs : Main
two_runs = record { loop = 0; nr_runs = 2; check = pos 1; table = replicate 2 (replicate 2 zeroed) }

abbrev a_round : Round
a_round = record {
  now = 1000;
  reports =
      record { time = 1010; ended = 1500; loops = 8 }
      ∷ record { time = 1020; ended = 1510; loops = 9 }
      ∷ [];
  stop = false;
}

abbrev some_options : List Opt
some_options = Opt.prio (pos 40) ∷ Opt.loops (pos 3) ∷ Opt.check ∷ []

abbrev some_config : Config
some_config = record defaults { prio_start = pos 40; nr_runs = pos 3; check = true }

some_options-ok : parse_options some_options ≡ Parsed.ok some_config
unfolding parse_options parse_from validate
some_options-ok = refl

two_runs-HasRoom : HasRoom 2 two_runs
two_runs-HasRoom = record { runs = refl; tasks = row_length }
  where
    row_length :
        (j : ℕ) → two_runs.loop ≤ j → j < two_runs.nr_runs → length (get_or two_runs.table j []) ≡ 2
    row_length zero l h = refl
    row_length (suc zero) l h = refl
    row_length (suc (suc j)) l h = absurd (omega arith)

exit_status_lem_example :
    (stop : Bool) × (m' : Main) × (main_loop 1000 (a_round ∷ a_round ∷ []) two_runs
      ≡ some (stop, m'))
    × (exit_status stop m'
        ≡ (if some_refused 1000 (a_round ∷ a_round ∷ []) then negsuc 0 else pos 0))
exit_status_lem_example =
    exit_status_lem 1000 2 (a_round ∷ a_round ∷ []) two_runs two_runs-HasRoom refl refl refl
      (refl, refl, (refl, refl, tt))

-- The task may run on the CPUs 2 and 3 only, and asks for CPU 0 each time.
abbrev upper_cpus : ℕ → Bool
upper_cpus k = k == 2 || k == 3

upper_cpus-IsGap : IsGap upper_cpus 1
upper_cpus-IsGap = record {
  behind = omega arith;
  out = refl;
  before = λ k low high. absurd (omega arith);
}

rotation_lem_example : get_elem? (rotation upper_cpus 4 0) 3 ≡ some 0
rotation_lem_example = rotation_lem upper_cpus 1 4 3 upper_cpus-IsGap (omega arith)
