-- ===== src/PiStress/Affinity/Spread.antt =====
-- Where the groups of src/pi_tests/pi_stress.c run.
use rt_tests.Base.{
  ℕ, zero, suc, ◌+◌, ◌-◌, ◌<◌, ◌≤◌, ◌≡◌, ◌≢◌, refl, sym, ap, ◌∙◌, Bool, true, false, ◌||◌, Option,
  some, ltb, leb, ◌==◌, get_elem?, if◌then◌else◌, arith, Bool-cases, inl, inr, guard_some, ==_iff,
}
use mathlib.Core.Option.{none-ne-some, some-injective}
use rt_tests.PiStress.Affinity.{
  Mask, Masks, first_set, spread, only, from, set_cpu_affinity, group_cpus, assign, default_groups,
}

-- The i-th processor from core on, round and round.
group_cpus-step :
    (n ngroups core i c : ℕ)
    → core < n
    → get_elem? (group_cpus n ngroups core) i ≡ some c
    → i < n
    → c ≡ (if ltb (core + i) n then core + i else core + i - n)
unfolding group_cpus
group_cpus-step n zero core i c h e l = absurd (none-ne-some _ e)
group_cpus-step n (suc g) core zero c h e l = ground (arith, some-injective _ _ e)
group_cpus-step n (suc g) core (suc i) c h e l =
    let ih =
      group_cpus-step n g (if leb n (core + 1) then 0 else core + 1) i c (ground arith) e
        (omega arith) in
    ground (arith, ih)

first_set-from : (n k m i : ℕ) → i + m ≡ n → i ≤ k → k < n → first_set (from n k) m i ≡ k
unfolding first_set
first_set-from n k zero i e l h = absurd (omega arith)
first_set-from n k (suc m) i e l h = elim (Bool-cases (leb k i)) [
  | inl t ↦ ground arith
  | inr t ↦ ground (arith, first_set-from n k m (suc i) (omega arith) (ground arith) h)
]

if-false : {A : Type 0} (b : Bool) (x y : A) → b ≡ false → y ≡ (if b then x else y)
if-false true x y e = absurd (ground arith)
if-false false x y e = refl

if-true : {A : Type 0} (b : Bool) (x y : A) → b ≡ true → x ≡ (if b then x else y)
if-true true x y e = refl
if-true false x y e = absurd (ground arith)

-- What set_cpu_affinity leaves when the tests are to run on the other processors.
set_cpu_affinity_lem :
    (n : ℕ) (m : Mask) (k : Masks) (admin : ℕ)
    → 1 < n
    → set_cpu_affinity n false (some m) ≡ some k
    → k.admin admin ≡ true
    → k.test ≡ from n (admin + 1)
unfolding set_cpu_affinity spread
set_cpu_affinity_lem n m k admin h e a =
    let q =
      guard_some (leb n (first_set m n 0)) (if-false ((n == 1) || false) _ _ (ground arith) ∙ e) in
    let same = (==_iff admin (first_set m n 0)).0 (ap (λ y. y.admin admin) (q.1) ∙ a) in
    sym (ap (λ y. y.test) (q.1)) ∙ ap (λ i. from n (i + 1)) (sym same)

-- Every group gets something.
group_cpus-some :
    (n ngroups core i : ℕ)
    → i < ngroups
    → (c : ℕ) × (get_elem? (group_cpus n ngroups core) i ≡ some c)
unfolding group_cpus
group_cpus-some n zero core i h = absurd (omega arith)
group_cpus-some n (suc g) core zero h = (core, refl)
group_cpus-some n (suc g) core (suc i) h =
    group_cpus-some n g (if leb n (core + 1) then 0 else core + 1) i (omega arith)

-- Without --uniprocessor, when a processor above the admin's is there, and whatever the number of
-- groups: the groups up to the number that the code takes without --groups, one less than the
-- processors, each get a processor, and it is one that exists and is not the admin thread's.
pub groups_off_admin :
    (n ngroups : ℕ) (m : Mask) (k : Masks) (admin i : ℕ)
    → set_cpu_affinity n false (some m) ≡ some k
    → k.admin admin ≡ true
    → admin + 1 < n
    → i < ngroups
    → i < default_groups n
    → (c : ℕ) × (get_elem? (assign n ngroups k.test) i ≡ some c) × (c < n) × (c ≢ admin)
unfolding assign
groups_off_admin n ngroups m k admin i e a h g l =
    let t = set_cpu_affinity_lem n m k admin (omega arith) e a in
    let core =
      ap (λ t. first_set t n 0) t
      ∙ first_set-from n (admin + 1) n 0 (omega arith) (omega arith) h in
    let (c, f) = group_cpus-some n ngroups (admin + 1) i g in
    let c_is = group_cpus-step n ngroups (admin + 1) i c h f (ground arith) in
    (c, ap (λ j. get_elem? (group_cpus n ngroups j) i) core ∙ f, ground arith, λ q. ground arith)

first_set-0 : (n : ℕ) → first_set (only 0) n 0 ≡ 0
unfolding first_set
first_set-0 zero = refl
first_set-0 (suc n) = refl

-- Under --uniprocessor, on a machine with n processors, the first n groups are spread over all of
-- them, though both masks hold processor 0 alone.
uniprocessor_groups :
    (n ngroups : ℕ) (m : Option Mask) (k : Masks) (i c : ℕ)
    → set_cpu_affinity n true m ≡ some k
    → i < n
    → get_elem? (assign n ngroups k.test) i ≡ some c
    → (c ≡ i) × (k.test i ≡ (i == 0))
unfolding assign set_cpu_affinity
uniprocessor_groups n ngroups m k i c e h f =
    let both = if-true ((n == 1) || true) _ _ (ground arith) ∙ e in
    let test = ap (λ y. y.test) (some-injective _ _ both) in
    let at_0 = ap (λ t. first_set t n 0) (sym test) ∙ first_set-0 n in
    let c_is =
      group_cpus-step n ngroups 0 i c (omega (arith, h))
        (ap (λ j. get_elem? (group_cpus n ngroups j) i) (sym at_0) ∙ f) h in
    (ground arith, ap (λ t. t i) (sym test))
