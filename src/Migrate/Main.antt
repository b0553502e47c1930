-- ===== src/Migrate/Main.antt =====
-- The loop of main, with the reports of the tasks in each round, and the exit status.
use rt_tests.Base.{
  ℕ, ◌+◌, ◌≤◌, ◌≡◌, Bool, true, false, ◌&&◌, not, Option, none, some, List, [], ◌∷◌, arith, length,
  ltb, leb, get_or, if◌then◌else◌, Bool-cases, inl, inr,
}
use rt_tests.Base.Int.{ℤ, pos, negsuc, ltb_ℤ, eqb_ℤ}
use rt_tests.Migrate.{Table, Report, record_time, check_times}

-- `loop`, `nr_runs`, `check` and the tables.
pub record Main : Type 0 where
  pub loop : ℕ
  pub nr_runs : ℕ
  pub check : ℤ
  pub table : Table

-- A round: `now`, the reports of the tasks in the order of their ids, and the value of `stop` when
-- the end barrier is crossed.
pub record Round : Type 0 where
  pub now : ℕ
  pub reports : List Report
  pub stop : Bool

-- The calls of record_time between the two barriers.
unfoldable pub record_all : ℕ → ℕ → ℕ → ℕ → List Report → Table → Table
record_all nr_runs loop now id [] table = table
record_all nr_runs loop now id (r ∷ rs) table =
    record_all nr_runs loop now (id + 1) rs (record_time nr_runs loop now id r table)

unfoldable pub recorded : Round → Main → Main
recorded r m = record m { table = record_all m.nr_runs m.loop r.now 0 r.reports m.table }

-- `check && check_times(loop)`, where check_times sets `check` to -1 when it refuses the row.
unfoldable pub refused : ℕ → Main → Bool
refused max_err m = not (eqb_ℤ m.check (pos 0)) && check_times max_err (get_or m.table m.loop [])

-- `loop++; nr_runs = loop`
abbrev pub broken_off : Main → Main
broken_off m = record m { loop = m.loop + 1; nr_runs = m.loop + 1 }

-- `for (loop = 0; loop < nr_runs; loop++)`, on the rounds to come. The results are `stop` and the
-- state behind the loop; `none`: the rounds end first.
unfoldable pub main_loop : ℕ → List Round → Main → Option (Bool × Main)
main_loop max_err [] m = if ltb m.loop m.nr_runs then none else some (false, m)
main_loop max_err (r ∷ rs) m =
    let m' = recorded r m in
    let rest = main_loop max_err rs (record m' { loop = m'.loop + 1 }) in
    if leb m.nr_runs m.loop
    then some (false, m)
    else if r.stop
    then some (true, broken_off m')
    else if refused max_err m'
    then some (false, broken_off (record m' { check = negsuc 0 }))
    else rest

-- The argument of exit.
unfoldable pub exit_status : Bool → Main → ℤ
exit_status stop m =
    if stop
    then (if ltb_ℤ m.check (pos 0) then negsuc 0 else pos 1)
    else (if ltb_ℤ m.check (pos 0) then negsuc 0 else pos 0)

-- Enough rounds end the loop, and then `loop` stands at `nr_runs`, so that the tasks' last passage
-- through their loop, in which `done` is set, records nothing.
main_loop-unrecorded :
    (max_err : ℕ) (rs : List Round) (m : Main)
    → m.loop ≤ m.nr_runs
    → m.nr_runs ≤ m.loop + length rs
    → (stop : Bool) × (m' : Main) × (main_loop max_err rs m ≡ some (stop, m'))
      × ((id now : ℕ) (r : Report) → record_time m'.nr_runs m'.loop now id r m'.table ≡ m'.table)
unfolding main_loop record_time recorded
main_loop-unrecorded max_err [] m h e = (false, m, ground arith, λ id now r. ground arith)
main_loop-unrecorded max_err (r ∷ rs) m h e =
    let m' = recorded r m in
    let m'' = record m' { loop = m'.loop + 1 } in
    elim (Bool-cases (leb m.nr_runs m.loop)) [
      | inl t ↦ (false, m, ground arith, λ id now r'. ground arith)
      | inr t ↦ elim (Bool-cases r.stop) [
        | inl s ↦ (true, broken_off m', ground arith, λ id now r'. ground arith)
        | inr s ↦ elim (Bool-cases (refused max_err m')) [
          | inl f ↦ (
            false,
            broken_off (record m' { check = negsuc 0 }),
            ground arith,
            λ id now r'. ground arith,
          )
          | inr f ↦
              (let ih = main_loop-unrecorded max_err rs m'' (ground arith) (ground arith) in
                (ih.0, ih.1, ground (arith, ih.2), ih.3))
        ]
      ]
    ]
