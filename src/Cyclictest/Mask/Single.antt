-- ===== src/Cyclictest/Mask/Single.antt =====
-- The masks of a build without libnuma, which hold one CPU.
use rt_tests.Base.{
  dec_lt, lt→ltb, ℕ, zero, suc, ◌+◌, ◌-◌, ◌/◌, ◌%◌, ◌^◌, ◌≤◌, ◌<◌, ◌≡◌, ◌∙◌, inl, inr, ap, refl,
  Bool, true, false, ◌&&◌, Option, none, some, ◌>>=◌, if◌then◌else◌, ◌==◌, arith, ltb, Option-cases,
  ℕ_discrete,
}
use rt_tests.Cyclictest.Mask.{
  rt_numa_bitmask_isbitset, one_cpu, count_loop, rt_numa_bitmask_count, find_loop, is_cpumask_zero,
  cpu_for_thread,
}
use rt_tests.Cyclictest.Mask.Choice.{rank, tested, count_loop-rank, cpu_for_thread-IsChoice}

-- The loops look at the bits below their end only.
count_loop_agree :
    (isset : ℕ → Option Bool) (f : ℕ → Bool) (n i e acc : ℕ)
    → ((k : ℕ) → k < e → isset k ≡ some (f k))
    → i + n ≡ e
    → count_loop isset n i acc ≡ count_loop (tested f) n i acc
unfolding count_loop
count_loop_agree isset f zero i e acc same h = refl
count_loop_agree isset f (suc n) i e acc same h =
    rw (same i (omega arith)) (count_loop_agree isset f n (suc i) e _ same (omega arith))

find_loop_agree :
    (isset : ℕ → Option Bool) (f : ℕ → Bool) (m n i e cpu : ℕ)
    → ((k : ℕ) → k < e → isset k ≡ some (f k))
    → i + n ≡ e
    → find_loop isset m n i cpu ≡ find_loop (tested f) m n i cpu
unfolding find_loop
find_loop_agree isset f m zero i e cpu same h = refl
find_loop_agree isset f m (suc n) i e cpu same h = ground (
  arith,
  same i,
  find_loop_agree isset f m n (suc i) e (if f i then suc cpu else cpu) same (omega arith),
)

bind_agree : (o : Option ℕ) (f g : ℕ → Option ℕ) → ((a : ℕ) → f a ≡ g a) → (o >>= f) ≡ (o >>= g)
bind_agree none f g h = refl
bind_agree (some a) f g h = h a

choose_agree :
    (b : Bool) (x y : Option ℕ) → x ≡ y → (if b then none else x) ≡ (if b then none else y)
choose_agree b x y h = rw h refl

cpu_for_thread_agree :
    (isset : ℕ → Option Bool) (f : ℕ → Bool) (t n : ℕ)
    → ((k : ℕ) → k < n → isset k ≡ some (f k))
    → cpu_for_thread isset n t n ≡ cpu_for_thread (tested f) n t n
unfolding cpu_for_thread rt_numa_bitmask_count
cpu_for_thread_agree isset f t n same = rw (count_loop_agree isset f n 0 n 0 same (omega arith)) (
    bind_agree (count_loop (tested f) n 0 0) _ _
      (λ c. choose_agree (c == 0) _ _ (find_loop_agree isset f (t % c) n 0 n 0 same (omega arith))))

-- A table of the bits of 2 ^ cpu, for the numbers below 31.
all_below : ℕ → (ℕ → Bool) → Bool
all_below zero p = true
all_below (suc n) p = p n && all_below n p

all_below_lem : (n : ℕ) (p : ℕ → Bool) (x : ℕ) → all_below n p ≡ true → x < n → p x ≡ true
unfolding all_below
all_below_lem zero p x h lt = absurd (omega arith)
all_below_lem (suc n) p x h lt = ground (arith, all_below_lem n p x)

eqb : Bool → Bool → Bool
eqb true b = b
eqb false true = false
eqb false false = true

eqb→eq : (a b : Bool) → eqb a b ≡ true → a ≡ b
unfolding eqb
eqb→eq true true h = refl
eqb→eq true false h = cc
eqb→eq false true h = cc
eqb→eq false false h = refl

bit_table : all_below 31 (λ c. all_below 31 (λ i. eqb (2 ^ c / 2 ^ i % 2 == 1) (i == c))) ≡ true
unfolding all_below eqb
bit_table = refl

bit_of_power : (c i : ℕ) → c < 31 → i < 31 → (2 ^ c / 2 ^ i % 2 == 1) ≡ (i == c)
bit_of_power c i hc hi = eqb→eq _ _ (all_below_lem 31 _ i (all_below_lem 31 _ c bit_table hc) hi)

one_cpu-bits :
    (max_cpus cpu k : ℕ)
    → max_cpus < 32
    → cpu < max_cpus
    → k < max_cpus
    → rt_numa_bitmask_isbitset (one_cpu max_cpus cpu) k ≡ some (k == cpu)
unfolding rt_numa_bitmask_isbitset one_cpu
one_cpu-bits max_cpus cpu k few lt inside =
    let one : (max_cpus + 64 - 1) / 64 ≡ 1 = omega arith in
    let word : k / 64 ≡ 0 = omega arith in
    let bit : k % 64 ≡ k = omega arith in
    let word' : cpu / 64 ≡ 0 = omega arith in
    let bit' : cpu % 64 ≡ cpu = omega arith in
    let small : ltb k 31 ≡ true = ground arith in
    simp (one, word, bit, word', bit', small)
      (ap some (bit_of_power cpu k (omega arith) (omega arith)))

rank-one : (cpu n : ℕ) → rank (λ i. i == cpu) n ≡ (if ltb cpu n then 1 else 0)
rank-one cpu zero = ground arith
rank-one cpu (suc n) = ground (arith, rank-one cpu n)

-- A mask of one CPU, on a machine with at most 31 of them.
module _ (max_cpus cpu : ℕ) (few : max_cpus < 32) (there : cpu < max_cpus) where
  abbrev bits : ℕ → Option Bool
  bits = rt_numa_bitmask_isbitset (one_cpu max_cpus cpu)

  same : (k : ℕ) → k < max_cpus → bits k ≡ some (k == cpu)
  same k = one_cpu-bits max_cpus cpu k few there

  one_bit : rank (λ i. i == cpu) max_cpus ≡ 1
  one_bit = ground (arith, rank-one cpu max_cpus)

  one_cpu-not_zero : is_cpumask_zero bits max_cpus ≡ some false
  unfolding is_cpumask_zero rt_numa_bitmask_count
  one_cpu-not_zero = ground (
    arith,
    count_loop_agree bits (λ i. i == cpu) max_cpus 0 max_cpus 0 same (omega arith),
    count_loop-rank (λ i. i == cpu) max_cpus 0 max_cpus (omega arith),
    one_bit,
  )

  one_cpu-chosen : (t : ℕ) → cpu_for_thread bits max_cpus t max_cpus ≡ some cpu
  one_cpu-chosen t =
      let (c, found, choice) =
        cpu_for_thread-IsChoice (λ i. i == cpu) max_cpus t max_cpus (omega (arith, one_bit))
          (omega arith) in
      cpu_for_thread_agree bits (λ i. i == cpu) t max_cpus same
      ∙ found
      ∙ ap some (ground (arith, choice.member))

-- The loop of the count runs into bit 31, which the test cannot reach.
count_loop-undefined :
    (isset : ℕ → Option Bool) (b n i acc : ℕ)
    → isset b ≡ none
    → i ≤ b
    → b < i + n
    → count_loop isset n i acc ≡ none
unfolding count_loop
count_loop-undefined isset b zero i acc h low high = absurd (omega arith)
count_loop-undefined isset b (suc n) i acc h low high = elim (ℕ_discrete i b) [
  | yes e ↦ rw e (rw h refl)
  | no ne ↦ elim (Option-cases (isset i)) [
    | inl e ↦ rw e refl
    | inr (v, e) ↦ rw e (count_loop-undefined isset b n (suc i) _ h (omega arith) (omega arith))
  ]
]

-- In a build without libnuma, with a CPU that is there: on a machine with at most 31 CPUs its mask is
-- not found empty and every thread gets that CPU; on a larger one both tests are undefined.
pub one_cpu_lem :
    (max_cpus cpu t : ℕ)
    → cpu < max_cpus
    → let bits = rt_numa_bitmask_isbitset (one_cpu max_cpus cpu) in
      ((is_cpumask_zero bits max_cpus ≡ (if ltb max_cpus 32 then some false else none))
        × (cpu_for_thread bits max_cpus t max_cpus ≡ (if ltb max_cpus 32 then some cpu else none)))
unfolding is_cpumask_zero rt_numa_bitmask_count rt_numa_bitmask_isbitset cpu_for_thread
one_cpu_lem max_cpus cpu t there = elim (dec_lt max_cpus 32) [
  | yes few ↦
      rw (lt→ltb max_cpus 32 few)
        (one_cpu-not_zero max_cpus cpu few there, one_cpu-chosen max_cpus cpu few there t)
  | no many ↦
      let undefined =
        count_loop-undefined (rt_numa_bitmask_isbitset (one_cpu max_cpus cpu)) 31 max_cpus 0 0 refl
          (omega arith) (omega arith) in
      let large : ltb max_cpus 32 ≡ false = ground arith in rw large (rw undefined (refl, refl))
]
