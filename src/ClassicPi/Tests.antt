-- ===== src/ClassicPi/Tests.antt =====
-- Runs of the model of src/pi_tests/classic_pi.c at concrete inputs.
use rt_tests.Base.{◌+◌, ◌*◌, ◌≡◌, Bool, true, false, none}
use rt_tests.Base.Int.{pos}
use rt_tests.ClassicPi.Machine.{created, run, schedule}
use rt_tests.ClassicPi.Passes.{finished, deadlock, pi_passes, no_pi_deadlocks}

pi_passes_example :
    (a : Bool) × (b : Bool) × (run true (5 + (23 * 4 + 6)) (created (pos 4)) ≡ finished a b)
pi_passes_example = pi_passes 4

no_pi_deadlocks_example :
    (run false (29 + 100) (created (pos 4)) ≡ deadlock 3) × (schedule false (deadlock 3) ≡ none)
no_pi_deadlocks_example = no_pi_deadlocks 3 100
