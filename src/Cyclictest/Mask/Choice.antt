-- ===== src/Cyclictest/Mask/Choice.antt =====
-- Which CPU of a mask a thread is given.
use rt_tests.Base.{
  ℕ, zero, suc, ◌+◌, ◌%◌, ◌≤◌, ◌<◌, ◌≡◌, ap, ◌⊎◌, ◌≢◌, ℕ_discrete, inl, inr, Bool, true, false,
  Option, some, if◌then◌else◌, arith, Bool-cases,
}
use rt_tests.Cyclictest.Mask.{count_loop, rt_numa_bitmask_count, find_loop, cpu_for_thread}

-- The number of set bits below n.
abbrev pub rank : (ℕ → Bool) → ℕ → ℕ
rank f zero = 0
rank f (suc n) = rank f n + (if f n then 1 else 0)

-- The test of a mask whose bits can all be tested.
abbrev pub tested : (ℕ → Bool) → ℕ → Option Bool
tested f i = some (f i)

rank-next : (f : ℕ → Bool) (i : ℕ) → (if f i then suc (rank f i) else rank f i) ≡ rank f (suc i)
rank-next f i = ground arith

pub count_loop-rank :
    (f : ℕ → Bool) (n i e : ℕ) → i + n ≡ e → count_loop (tested f) n i (rank f i) ≡ some (rank f e)
unfolding count_loop
count_loop-rank f zero i e h = ap (λ k. some (rank f k)) (omega arith)
count_loop-rank f (suc n) i e h = rw (rank-next f i) (count_loop-rank f n (suc i) e (omega arith))

-- What the search returns: a CPU of the mask, below n, with m others of the mask before it.
pub record IsChoice (f : ℕ → Bool) (n m c : ℕ) : Type 0 where
  pub below : c < n
  pub member : f c ≡ true
  pub position : rank f c ≡ m

-- The search finds something of that kind from CPU i on.
abbrev Finds : (ℕ → Bool) → ℕ → ℕ → ℕ → ℕ → ℕ → Type 0
Finds f m n i e cpu = (c : ℕ) × (find_loop (tested f) m n i cpu ≡ some c) × IsChoice f e m c

find_loop-here :
    (f : ℕ → Bool) (m n i e : ℕ)
    → i < e
    → f i ≡ true
    → (rank f i ≡ m) ⊎ ((rank f i ≢ m) × Finds f m n (suc i) e (suc (rank f i)))
    → Finds f m (suc n) i e (rank f i)
unfolding find_loop
find_loop-here f m n i e lt set (inl h) =
    (i, ground arith, record { below = lt; member = set; position = h })
find_loop-here f m n i e lt set (inr (h, (c, found, choice))) = (c, ground arith, choice)

find_loop-past :
    (f : ℕ → Bool) (m n i e : ℕ)
    → f i ≡ false
    → Finds f m n (suc i) e (rank f i)
    → Finds f m (suc n) i e (rank f i)
unfolding find_loop
find_loop-past f m n i e clear (c, found, choice) = (c, ground arith, choice)

rank-set : (f : ℕ → Bool) (i : ℕ) → f i ≡ true → suc (rank f i) ≡ rank f (suc i)
rank-set f i h = ground arith

rank-clear : (f : ℕ → Bool) (i : ℕ) → f i ≡ false → rank f i ≡ rank f (suc i)
rank-clear f i h = ground arith

same_end : (i e : ℕ) → i + 0 ≡ e → i ≡ e
same_end i e h = omega arith

find_loop-IsChoice :
    (f : ℕ → Bool) (m n i e : ℕ)
    → i + n ≡ e
    → rank f i ≤ m
    → m < rank f e
    → Finds f m n i e (rank f i)
find_loop-IsChoice f m zero i e h low high = absurd (omega (arith, ap (rank f) (same_end i e h)))
find_loop-IsChoice f m (suc n) i e h low high =
    let later = find_loop-IsChoice f m n (suc i) e (omega arith) in
    elim (Bool-cases (f i)) [
      | inl set ↦ elim (ℕ_discrete (rank f i) m) [
        | yes at_m ↦ find_loop-here f m n i e (omega arith) set (inl at_m)
        | no off ↦
            find_loop-here f m n i e (omega arith) set
              (inr (off, rw (rank-set f i set) (later (omega (arith, rank-set f i set)) high)))
      ]
      | inr clear ↦
          find_loop-past f m n i e clear
            (rw (rank-clear f i clear) (later (omega (arith, rank-clear f i clear)) high))
    ]

-- Where no bit is set beyond the CPUs that are there, and some bit is set, a thread gets one of these CPUs, a member of the
-- mask with as many members before it as the thread's number leaves modulo their number.
pub cpu_for_thread-IsChoice :
    (f : ℕ → Bool) (size t max_cpus : ℕ)
    → 0 < rank f size
    → rank f size ≤ rank f max_cpus
    → (c : ℕ) × (cpu_for_thread (tested f) size t max_cpus ≡ some c)
      × IsChoice f max_cpus (t % rank f size) c
unfolding cpu_for_thread rt_numa_bitmask_count
cpu_for_thread-IsChoice f size t max_cpus some_set inside =
    let (c, found, choice) =
      find_loop-IsChoice f (t % rank f size) max_cpus 0 max_cpus (omega arith) (omega arith)
        (omega arith) in
    (c, ground (arith, count_loop-rank f size 0 size (omega arith), found), choice)
