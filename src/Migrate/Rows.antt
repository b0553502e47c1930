-- ===== src/Migrate/Rows.antt =====
-- The rows that the tasks of rt-migrate-test record, and the verdict of its main loop.
use rt_tests.Base.{
  ℕ, zero, suc, ◌+◌, ◌<◌, ◌≤◌, ◌≡◌, ◌≢◌, refl, ap, ap₂, ◌∙◌, false, List, [], ◌∷◌, map, arith,
  length, leb, get_or, set, length-set,
}
use rt_tests.Migrate.{Entry, Table, Report, entry_of, record_time}
use rt_tests.Migrate.Main.{Main, Round, record_all}

row_set :
    (table : Table) (i : ℕ) (row : List Entry)
    → i < length table
    → get_or (set table i row) i [] ≡ row
row_set [] i row h = absurd (omega arith)
row_set (r ∷ table) zero row h = refl
row_set (r ∷ table) (suc i) row h = row_set table i row (omega arith)

row_set_ne :
    (table : Table) (i j : ℕ) (row : List Entry)
    → i ≢ j
    → get_or (set table i row) j [] ≡ get_or table j []
row_set_ne [] i j row h = refl
row_set_ne (r ∷ table) zero zero row h = absurd (h refl)
row_set_ne (r ∷ table) zero (suc j) row h = refl
row_set_ne (r ∷ table) (suc i) zero row h = refl
row_set_ne (r ∷ table) (suc i) (suc j) row h = row_set_ne table i j row (λ e. h (ap suc e))

-- Writing entries from `id` on.
unfoldable pub set_from : ℕ → List Entry → List Entry → List Entry
set_from id [] row = row
set_from id (e ∷ es) row = set_from (suc id) es (set row id e)

set_from_cons :
    (id : ℕ) (es row : List Entry) (x : Entry)
    → set_from (suc id) es (x ∷ row) ≡ x ∷ set_from id es row
unfolding set_from
set_from_cons id [] row x = refl
set_from_cons id (e ∷ es) row x = set_from_cons (suc id) es (set row id e) x

pub set_from_all : (es row : List Entry) → length es ≡ length row → set_from 0 es row ≡ es
unfolding set_from
set_from_all [] [] h = refl
set_from_all [] (x ∷ row) h = absurd (omega arith)
set_from_all (e ∷ es) [] h = absurd (omega arith)
set_from_all (e ∷ es) (x ∷ row) h =
    set_from_cons 0 es row e ∙ ap (λ r. e ∷ r) (set_from_all es row (omega arith))

plus_one : (n : ℕ) → n + 1 ≡ suc n
plus_one n = omega arith

module _ (nr_runs loop now : ℕ) (on : loop < nr_runs) where
  record_time-row :
      (id : ℕ) (r : Report) (table : Table)
      → loop < length table
      → (get_or (record_time nr_runs loop now id r table) loop []
          ≡ set (get_or table loop []) id (entry_of now r))
        × (length (record_time nr_runs loop now id r table) ≡ length table)
  unfolding record_time
  record_time-row id r table h =
      let row = set (get_or table loop []) id (entry_of now r) in
      let e : leb nr_runs loop ≡ false = ground arith in
      rw e (row_set table loop row h, length-set table loop row)

  record_time-other :
      (id : ℕ) (r : Report) (table : Table) (j : ℕ)
      → loop ≢ j
      → get_or (record_time nr_runs loop now id r table) j [] ≡ get_or table j []
  unfolding record_time
  record_time-other id r table j d =
      let e : leb nr_runs loop ≡ false = ground arith in
      rw e (row_set_ne table loop j (set (get_or table loop []) id (entry_of now r)) d)

  pub record_all-row :
      (id : ℕ) (rs : List Report) (table : Table)
      → loop < length table
      → (get_or (record_all nr_runs loop now id rs table) loop []
          ≡ set_from id (map (entry_of now) rs) (get_or table loop []))
        × (length (record_all nr_runs loop now id rs table) ≡ length table)
  unfolding record_all set_from
  record_all-row id [] table h = (refl, refl)
  record_all-row id (r ∷ rs) table h =
      let (p, l) = record_time-row id r table h in
      let (q, k) =
        record_all-row (id + 1) rs (record_time nr_runs loop now id r table) (omega (arith, l)) in
      (q ∙ ap₂ (λ i row. set_from i (map (entry_of now) rs) row) (plus_one id) p, k ∙ l)

  pub record_all-other :
      (id : ℕ) (rs : List Report) (table : Table) (j : ℕ)
      → loop ≢ j
      → get_or (record_all nr_runs loop now id rs table) j [] ≡ get_or table j []
  unfolding record_all
  record_all-other id [] table j d = refl
  record_all-other id (r ∷ rs) table j d =
      record_all-other (id + 1) rs (record_time nr_runs loop now id r table) j d
      ∙ record_time-other id r table j d

-- The row that a round's reports make.
abbrev pub row_of : Round → List Entry
row_of r = map (entry_of r.now) r.reports

-- Rows for the runs to come, each with a place for every task.
pub record HasRoom (nr_tasks : ℕ) (m : Main) : Type 0 where
  pub runs : length m.table ≡ m.nr_runs
  pub tasks : (j : ℕ) → m.loop ≤ j → j < m.nr_runs → length (get_or m.table j []) ≡ nr_tasks
