-- ===== src/PipStress/Tests.antt =====
-- Orders of the three processes of pip_stress.
use rt_tests.Base.{◌≡◌, ◌≤◌, ◌⊎◌, refl, true, some, none, List, [], ◌∷◌, length}
use rt_tests.PipStress.{
  World, Process, forked, run, step, low_step, medium_step, high_step, low_note, medium_note,
  high_note,
}
use rt_tests.PipStress.Report.{verdict, report_lem}
use rt_tests.PipStress.Ends.{IsOver, run_ends}

-- low gets the resource, high waits for it, medium starts, and low gives it back.
abbrev inverted : List Process
inverted =
    Process.low ∷ Process.low ∷ Process.low ∷ Process.high ∷ Process.high ∷ Process.medium
    ∷ Process.medium ∷ Process.low ∷ Process.high ∷ Process.high ∷ Process.high ∷ Process.high
    ∷ Process.high ∷ Process.high ∷ Process.high ∷ []

-- low has given the resource back before high starts.
abbrev unhindered : List Process
unhindered =
    Process.low ∷ Process.low ∷ Process.low ∷ Process.low ∷ Process.high ∷ Process.high
    ∷ Process.medium ∷ Process.medium ∷ Process.high ∷ Process.high ∷ Process.high ∷ Process.high
    ∷ Process.high ∷ Process.high ∷ Process.high ∷ []

after : List Process → World
after ps = elim (run ps forked) [ some w ↦ w | none ↦ forked ]

unhindered-run : run unhindered forked ≡ some (after unhindered)
unfolding after run step low_step medium_step high_step low_note medium_note high_note
unhindered-run = refl

unhindered-printed : (after unhindered).printed ≡ some true
unfolding after run step low_step medium_step high_step low_note medium_note high_note
unhindered-printed = refl

-- "Successfully used priority inheritance" is printed though high never waits.
report_lem_example : true ≡ verdict unhindered 0 0
report_lem_example = report_lem unhindered (after unhindered) true unhindered-run unhindered-printed

inverted-run : run inverted forked ≡ some (after inverted)
unfolding after run step low_step medium_step high_step low_note medium_note high_note
inverted-run = refl

run_ends_example :
    (length inverted ≤ 17)
    × (IsOver (after inverted)
        ⊎ ((p : Process) × (w' : World) × (step p (after inverted) ≡ some w')))
run_ends_example = run_ends inverted (after inverted) inverted-run
