-- ===== src/Migrate/Rotate.antt =====
-- How start_task of src/rt-migrate-test/rt-migrate-test.c moves the task of the highest priority
-- from CPU to CPU. The mask is the one that sched_getaffinity gave the task.
use native.Mathlib.Nat.{zero-mod, mod-eq_of_lt, mod_self, mod-add-mod}
use rt_tests.Base.{
  if_same, sym, dec_lt, ap, ◌∙◌, ℕ, zero, suc, ◌+◌, ◌%◌, ◌≤◌, ◌<◌, ◌≡◌, Bool, true, false, List, [],
  ◌∷◌, if◌then◌else◌, arith, get_elem?, some,
}

-- `if (!CPU_ISSET(cpu, &save_cpumask)) cpu = 0`: the CPU that the task asks to run on.
unfoldable pub rotate_to : (ℕ → Bool) → ℕ → ℕ
rotate_to save_cpumask cpu = if save_cpumask cpu then cpu else 0

-- The CPUs of `n` iterations of the loop; `cpu++` follows each.
unfoldable pub rotation : (ℕ → Bool) → ℕ → ℕ → List ℕ
rotation save_cpumask zero cpu = []
rotation save_cpumask (suc n) cpu =
    rotate_to save_cpumask cpu ∷ rotation save_cpumask n (suc (rotate_to save_cpumask cpu))

-- g is the first CPU behind CPU 0 that is not in the mask.
pub record IsGap (save_cpumask : ℕ → Bool) (g : ℕ) : Type 0 where
  pub behind : 0 < g
  pub out : save_cpumask g ≡ false
  pub before : (k : ℕ) → 0 < k → k < g → save_cpumask k ≡ true

module _ (save_cpumask : ℕ → Bool) (g : ℕ) (gap : IsGap save_cpumask g) where
  rotate_to-mod : (cpu : ℕ) → cpu ≤ g → rotate_to save_cpumask cpu ≡ cpu % g
  unfolding rotate_to
  rotate_to-mod zero h = if_same (save_cpumask 0) 0 ∙ sym (zero-mod g)
  rotate_to-mod (suc c) h = elim (dec_lt (suc c) g) [
    | yes lt ↦ rw (gap.before (suc c) (omega arith) lt) (sym (mod-eq_of_lt lt))
    | no ge ↦ at_gap (suc c) (omega arith)
  ]
    where
      at_gap : (k : ℕ) → k ≡ g → (if save_cpumask k then k else 0) ≡ k % g
      at_gap k e = rw e (rw gap.out (sym (mod_self g)))

  get-rotation :
      (n i cpu : ℕ)
      → cpu ≤ g
      → i < n
      → get_elem? (rotation save_cpumask n cpu) i ≡ some ((cpu + i) % g)
  unfolding rotation
  get-rotation zero i cpu low lt = absurd (omega arith)
  get-rotation (suc n) zero cpu low lt =
      ap some (rotate_to-mod cpu low ∙ ap (λ k. k % g) (omega arith))
  get-rotation (suc n) (suc i) cpu low lt =
      let next : suc (cpu % g) ≤ g = omega (arith, gap.behind) in
      let shift : suc (cpu % g) + i ≡ cpu % g + suc i = omega arith in
      rw (rotate_to-mod cpu low) (
        get-rotation n i (suc (cpu % g)) next (omega arith)
        ∙ ap some (ap (λ k. k % g) shift ∙ mod-add-mod cpu g (suc i)))

-- Where g is the first CPU behind CPU 0 that is not in the mask, the task asks for the CPUs 0 to
-- g - 1 in turn, whether CPU 0 is in the mask or not, and for none from g on.
pub rotation_lem :
    (save_cpumask : ℕ → Bool) (g n i : ℕ)
    → IsGap save_cpumask g
    → i < n
    → get_elem? (rotation save_cpumask n 0) i ≡ some (i % g)
rotation_lem save_cpumask g n i gap lt =
    get-rotation save_cpumask g gap n i 0 (omega arith) lt ∙ ap some (ap (λ k. k % g) (omega arith))
