-- ===== src/Migrate/Verdict.antt =====
-- The exit status of rt-migrate-test under --check.
use rt_tests.Base.{
  ℕ, ◌+◌, ◌<◌, ◌≡◌, refl, sym, ap, ◌∙◌, Bool, false, ◌||◌, some, List, [], ◌∷◌, arith, length, leb,
  get_or, length-map, if◌then◌else◌, Bool-cases, inl, inr,
}
use rt_tests.Base.Int.{pos, negsuc}
use rt_tests.Migrate.{entry_of, check_times}
use rt_tests.Migrate.Main.{Main, Round, recorded, refused, broken_off, main_loop, exit_status}
use rt_tests.Migrate.Rows.{row_of, HasRoom, record_all-row, record_all-other, set_from_all}

-- Every task reports in every round, and nobody presses Ctrl-C.
abbrev pub AllReport : ℕ → List Round → Type 0
AllReport nr_tasks [] = Unit
AllReport nr_tasks (r ∷ rs) =
    (length r.reports ≡ nr_tasks) × (r.stop ≡ false) × AllReport nr_tasks rs

-- Whether check_times refuses the row of some round.
abbrev pub some_refused : ℕ → List Round → Bool
some_refused max_err [] = false
some_refused max_err (r ∷ rs) = check_times max_err (row_of r) || some_refused max_err rs

recorded-row :
    (nr_tasks : ℕ) (r : Round) (m : Main)
    → HasRoom nr_tasks m
    → m.loop < m.nr_runs
    → length r.reports ≡ nr_tasks
    → get_or (recorded r m).table m.loop [] ≡ row_of r
unfolding recorded
recorded-row nr_tasks r m room on n =
    let row =
      record_all-row m.nr_runs m.loop r.now on 0 r.reports m.table (omega (arith, room.runs)) in
    row.0
    ∙ set_from_all (row_of r) (get_or m.table m.loop [])
        (length-map r.reports (entry_of r.now) ∙ n ∙ sym (room.tasks m.loop (omega arith) on))

recorded-HasRoom :
    (nr_tasks : ℕ) (r : Round) (m : Main)
    → HasRoom nr_tasks m
    → m.loop < m.nr_runs
    → HasRoom nr_tasks (record (recorded r m) { loop = (recorded r m).loop + 1 })
unfolding recorded
recorded-HasRoom nr_tasks r m room on = record {
  runs =
      (record_all-row m.nr_runs m.loop r.now on 0 r.reports m.table (omega (arith, room.runs))).1
      ∙ room.runs;
  tasks = λ j l h.
      ap length
        (record_all-other m.nr_runs m.loop r.now on 0 r.reports m.table j (λ e. omega (arith, e)))
      ∙ room.tasks j (omega arith) h;
}

recorded-fields :
    (r : Round) (m : Main)
    → ((recorded r m).loop ≡ m.loop)
      × ((recorded r m).nr_runs ≡ m.nr_runs)
      × ((recorded r m).check ≡ m.check)
unfolding recorded
recorded-fields r m = (refl, refl, refl)

refused-recorded :
    (max_err nr_tasks : ℕ) (r : Round) (m : Main)
    → HasRoom nr_tasks m
    → m.loop < m.nr_runs
    → length r.reports ≡ nr_tasks
    → m.check ≡ pos 1
    → refused max_err (recorded r m) ≡ check_times max_err (row_of r)
unfolding refused recorded
refused-recorded max_err nr_tasks r m room on n c =
    rw c (ap (check_times max_err) (recorded-row nr_tasks r m room on n))

-- The loop from any round on.
verdict :
    (max_err nr_tasks : ℕ) (rs : List Round) (m : Main)
    → HasRoom nr_tasks m
    → m.check ≡ pos 1
    → m.loop + length rs ≡ m.nr_runs
    → AllReport nr_tasks rs
    → (stop : Bool) × (m' : Main) × (main_loop max_err rs m ≡ some (stop, m'))
      × (exit_status stop m' ≡ (if some_refused max_err rs then negsuc 0 else pos 0))
unfolding main_loop exit_status
verdict max_err nr_tasks [] m room c l a = (false, m, ground arith, ground arith)
verdict max_err nr_tasks (r ∷ rs) m room c l (n, stop, a) =
    let m' = recorded r m in
    let on : m.loop < m.nr_runs = omega arith in
    let e : leb m.nr_runs m.loop ≡ false = ground arith in
    let f = refused-recorded max_err nr_tasks r m room on n c in
    let k = recorded-fields r m in
    elim (Bool-cases (check_times max_err (row_of r))) [
      | inl t ↦ (
        false,
        broken_off (record m' { check = negsuc 0 }),
        simp (e, stop, f ∙ t) refl,
        rw t refl,
      )
      | inr t ↦
          (let ih =
              verdict max_err nr_tasks rs (record m' { loop = m'.loop + 1 })
                (recorded-HasRoom nr_tasks r m room on) (k.2 ∙ c) (omega (arith, k)) a in
            (ih.0, ih.1, simp (e, stop, f ∙ t) (ih.2), rw t (ih.3)))
    ]

-- Under --check, with tables of a row for each run and a place for each task, where all tasks report
-- in each of the nr_runs rounds and Ctrl-C is not pressed, the loop of main ends and the exit status
-- is -1 if check_times refuses the row that the reports of some round make, and 0 if it refuses none.
pub exit_status_lem :
    (max_err nr_tasks : ℕ) (rs : List Round) (m : Main)
    → HasRoom nr_tasks m
    → m.check ≡ pos 1
    → m.loop ≡ 0
    → length rs ≡ m.nr_runs
    → AllReport nr_tasks rs
    → (stop : Bool) × (m' : Main) × (main_loop max_err rs m ≡ some (stop, m'))
      × (exit_status stop m' ≡ (if some_refused max_err rs then negsuc 0 else pos 0))
exit_status_lem max_err nr_tasks rs m room c z l a =
    verdict max_err nr_tasks rs m room c (omega (arith, z, l)) a
