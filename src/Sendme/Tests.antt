-- ===== src/Sendme/Tests.antt =====
-- Runs of the model of src/backfire/sendme.c at concrete inputs.
use rt_tests.Base.{ℕ, false, true, List, [], ◌∷◌}
use rt_tests.Base.Int.{pos}
use rt_tests.Sendme.{Clock, Settings, Times}

abbrev at_time : ℕ → Clock
at_time n = record { sec = 1_700_000_000; usec = n }

abbrev two_rounds : List Times
two_rounds =
    record { before = at_time 10; sent = at_time 13; after = at_time 19; late = false }
    ∷ record { before = at_time 1010; sent = at_time 1015; after = at_time 1019; late = true }
    ∷ []

abbrev endless : Settings
endless = record { max_cycles = pos 0; tracelimit = pos 0 }
