-- ===== src/PiStress/Sched/Tests.antt =====
-- Runs of the models of pi_stress's scheduling attributes and processors at concrete inputs.
use rt_tests.Base.{
  ℕ, ◌+◌, ◌*◌, ◌-◌, ◌<◌, ◌≡◌, ◌≢◌, refl, true, false, Option, none, some, List, [], ◌∷◌, get_elem?,
  leb, arith,
}
use rt_tests.Base.Int.{ℤ}
use rt_tests.PiStress.Sched.{
  Attrs, Line, unset, zero_attr, same, fields, set_key, read_pairs, store, process_sched_line,
  process_sched_lines, setup_sched_attr, setup_sched_config,
}
use rt_tests.PiStress.Sched.Order.{low_id, med_id, high_id, last_of, lines, sched_config}
use rt_tests.PiStress.Affinity.{
  Mask, Masks, first_set, only, from, spread, set_cpu_affinity, group_cpus, assign,
}
use rt_tests.PiStress.Affinity.Spread.{groups_off_admin}

-- A strtoul for strings of digits.
abbrev digits : List ℕ → ℕ → Option ℕ
digits [] n = some n
digits (c ∷ cs) n = digits cs (10 * n + (c - 48))

abbrev strtoul : List ℕ → Option ℕ
strtoul s = digits s 0

abbrev no_number : List ℕ → Option ℤ
no_number s = none

-- "id=low,priority=70"
abbrev low_line : List ℕ
low_line =
    b'i' ∷ b'd' ∷ b'=' ∷ b'l' ∷ b'o' ∷ b'w' ∷ b',' ∷ b'p' ∷ b'r' ∷ b'i' ∷ b'o' ∷ b'r' ∷ b'i' ∷ b't'
    ∷ b'y' ∷ b'=' ∷ b'7' ∷ b'0' ∷ []

abbrev low_set : Attrs
low_set = record unset { low = record zero_attr { sched_priority = 70 }; init_low = true }

low_line-set : process_sched_lines strtoul no_number (low_line ∷ []) unset ≡ some low_set
unfolding process_sched_lines process_sched_line fields read_pairs set_key same store
low_line-set = refl

-- The low priority threads have priority 70 then, under the default policy SCHED_OTHER; the others 2 to 4.
sched_config_example :
    let t = setup_sched_config 1 1 low_set in
    (ls : List Line) × (lines strtoul no_number (low_line ∷ []) ≡ some ls)
    × (t.low ≡ last_of low_id (setup_sched_attr 1 1 zero_attr) ls)
    × (t.med ≡ last_of med_id (setup_sched_attr 1 2 zero_attr) ls)
    × (t.high ≡ last_of high_id (setup_sched_attr 1 3 zero_attr) ls)
    × (t.admin ≡ setup_sched_attr 1 4 zero_attr)
sched_config_example = sched_config strtoul no_number (low_line ∷ []) low_set 1 1 low_line-set

abbrev cpu_1 : ℕ
cpu_1 = 1

-- Four processors, of which the admin thread has processor 1.
abbrev but_first : Mask
but_first i = leb 1 i

abbrev split_masks : Masks
split_masks = record { test = from 4 2; admin = only 1 }

split : set_cpu_affinity 4 false (some but_first) ≡ some split_masks
unfolding set_cpu_affinity spread first_set
split = refl

third_group : get_elem? (assign 4 3 split_masks.test) 2 ≡ some 0
unfolding assign group_cpus first_set
third_group = refl

groups_off_admin_example :
    (c : ℕ) × (get_elem? (assign 4 3 split_masks.test) 2 ≡ some c) × (c < 4) × (c ≢ cpu_1)
groups_off_admin_example =
    groups_off_admin 4 3 but_first split_masks 1 2 split refl (omega arith) (omega arith)
      (omega arith)

abbrev one_mask : Masks
one_mask = record { test = only 0; admin = only 0 }

one : set_cpu_affinity 4 true none ≡ some one_mask
unfolding set_cpu_affinity
one = refl

second_group : get_elem? (assign 4 3 one_mask.test) 1 ≡ some 1
unfolding assign group_cpus first_set
second_group = refl

-- Where only the last processor can be used, the first group is given one that does not exist.
last_only : get_elem? (assign 4 3 (from 4 4)) 0 ≡ some 4
unfolding assign group_cpus first_set
last_only = refl
