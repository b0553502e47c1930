-- ===== src/Cyclictest/Setup/Threads.antt =====
-- The threads that a command line of cyclictest sets up, in a build without libnuma.
use rt_tests.Base.{
  ap, if_same, lt→ltb, ℕ, zero, suc, ◌%◌, ◌<◌, ◌≡◌, refl, ap, ◌∙◌, Bool, true, false, Option, none,
  some, List, [], ◌∷◌, if◌then◌else◌, length, arith,
}
use rt_tests.Base.Int.{
  add_suc_mul, add_zero_mul, ℤ, pos, negsuc, pos_part, ◌+ℤ◌, ◌-ℤ◌, ◌*ℤ◌, eqb_ℤ, eq_of_parts, ◌≤ℤ◌,
  -ℤ_parts,
}
use rt_tests.Base.Word.{to_u64}
use rt_tests.Cyclictest.Options.Config.{Policy, SetAffinity, Opt, Config, ok}
use rt_tests.Cyclictest.Options.Validate.{Clock, clock_of, process_options}
use rt_tests.Cyclictest.Mask.{cpu_for_thread, rt_numa_bitmask_isbitset, one_cpu}
use rt_tests.Cyclictest.Options.Masked.{IsMasked, process_options-IsMasked}
use rt_tests.Cyclictest.Options.Accept.{process_options-IsAccepted}
use rt_tests.Cyclictest.Mask.Single.{one_cpu_lem}
use rt_tests.Cyclictest.Setup.{
  Param, Spread, Machine, cpu_of, keeps_policy, param, spread, setup_loop, setup,
}

-- What thread i is given to run with.
pub record IsThread (c : Config) (i : ℕ) (p : Param) : Type 0 where
  pub number : p.tnum ≡ i
  pub priority : p.prio ≡ c.priority -ℤ pos (if c.priospread then i else 0)
  pub policy : p.policy ≡ (if keeps_policy c.policy p.prio then c.policy else Policy.other)
  pub interval :
      p.interval ≡ to_u64 (c.interval +ℤ (if eqb_ℤ c.histogram (pos 0) then i else 0) *ℤ c.distance)

-- The variables of the loop before thread i.
record IsSpread (c : Config) (i : ℕ) (v : Spread) : Type 0 where
  priority : v.priority ≡ c.priority -ℤ pos (if c.priospread then i else 0)
  interval : v.interval ≡ c.interval +ℤ (if eqb_ℤ c.histogram (pos 0) then i else 0) *ℤ c.distance

step_down : (a : ℤ) (i : ℕ) → (a -ℤ pos i) -ℤ pos 1 ≡ a -ℤ pos (suc i)
step_down a i =
    eq_of_parts _ _
      (omega (arith, -ℤ_parts a (pos i), -ℤ_parts (a -ℤ pos i) (pos 1), -ℤ_parts a (pos (suc i))))

spread-IsSpread :
    (c : Config) (i : ℕ) (v : Spread) → IsSpread c i v → IsSpread c (suc i) (spread c v)
unfolding spread
spread-IsSpread c i v h = record {
  priority = lower c.priospread v.priority h.priority;
  interval = widen (eqb_ℤ c.histogram (pos 0)) v.interval h.interval;
}
  where
    lower :
        (b : Bool) (p : ℤ)
        → p ≡ c.priority -ℤ pos (if b then i else 0)
        → (if b then p -ℤ pos 1 else p) ≡ c.priority -ℤ pos (if b then suc i else 0)
    lower true p e = rw e (step_down c.priority i)
    lower false p e = e

    widen :
        (b : Bool) (p : ℤ)
        → p ≡ c.interval +ℤ (if b then i else 0) *ℤ c.distance
        → (if b then p +ℤ c.distance else p) ≡ c.interval +ℤ (if b then suc i else 0) *ℤ c.distance
    widen true p e = rw e (add_suc_mul c.interval c.distance i)
    widen false p e = e

param-IsThread :
    (c : Config) (i : ℕ) (v : Spread) (clock : Clock) (cpu : ℤ)
    → IsSpread c i v
    → IsThread c i (param c v i clock cpu)
unfolding param
param-IsThread c i v clock cpu h = record {
  number = refl;
  priority = h.priority;
  policy = refl;
  interval = ap to_u64 h.interval;
}

-- Each thread of a list, numbered from i on, is set up and placed as `Placed` says.
abbrev pub AreThreads : (ℕ → ℤ → Type 0) → Config → ℕ → List Param → Type 0
AreThreads Placed c i [] = Unit
AreThreads Placed c i (p ∷ ps) = (IsThread c i p × Placed i p.cpu) × AreThreads Placed c (suc i) ps

module _ (c : Config) (m : Machine) (clock : Clock) (Placed : ℕ → ℤ → Type 0)
    (clocked : clock_of c ≡ some clock)
    (placed : (i : ℕ) → (cpu : ℤ) × (cpu_of m c.setaffinity i ≡ some cpu) × Placed i cpu) where
  setup_loop-AreThreads :
      (n i : ℕ) (v : Spread)
      → IsSpread c i v
      → (ps : List Param) × (v' : Spread) × (setup_loop c m n i v ≡ some (ps, v'))
        × (length ps ≡ n)
        × AreThreads Placed c i ps
  unfolding setup_loop param
  setup_loop-AreThreads zero i v h = ([], v, refl, refl, tt)
  setup_loop-AreThreads (suc n) i v h =
      let (cpu, e, at_cpu) = placed i in
      let (ps, v', f, l, t) =
        setup_loop-AreThreads n (suc i) (spread c v) (spread-IsSpread c i v h) in
      (
        param c v i clock cpu ∷ ps,
        v',
        simp (clocked, e, f) refl,
        ap suc l,
        ((param-IsThread c i v clock cpu h, at_cpu), t),
      )

minus_zero : (a : ℤ) → a ≡ a -ℤ pos 0
minus_zero a = eq_of_parts _ _ (omega (arith, -ℤ_parts a (pos 0)))

first-IsSpread :
    (c : Config)
    → IsSpread c 0
        (record { priority = c.priority; interval = c.interval; force_sched_other = false })
first-IsSpread c = record {
  priority = rw (if_same {A = ℕ} c.priospread 0) (minus_zero c.priority);
  interval =
      rw (if_same {A = ℕ} (eqb_ℤ c.histogram (pos 0)) 0) (add_zero_mul c.interval c.distance);
}

pos_pos_part : (a : ℤ) → pos 1 ≤ℤ a → pos (pos_part a) ≡ a
pos_pos_part a h = ground arith

-- The CPU that each way to place threads gives to thread i.
abbrev pub Placed : SetAffinity → Option ℕ → ℕ → ℕ → ℤ → Type 0
Placed SetAffinity.unspecified mask n i cpu = cpu ≡ negsuc 0
Placed SetAffinity.specified mask n i cpu = (k : ℕ) × (mask ≡ some k) × (k < n) × (cpu ≡ pos k)
Placed SetAffinity.useall mask n i cpu = (i % n < n) × (cpu ≡ pos (i % n))

-- The machine of a build without libnuma, with the mask of the one CPU that `-a` names.
abbrev pub machine : Config → ℕ → Machine
machine c n = record {
  isset = elim c.affinity_mask [
    | some k ↦ rt_numa_bitmask_isbitset (one_cpu n k)
    | none ↦ λ i. none
  ];
  size = n;
  max_cpus = n;
}

cpu_of-Placed :
    (n i : ℕ) (mask : Option ℕ) (isset : ℕ → Option Bool) (a : SetAffinity)
    → 0 < n
    → (a ≡ SetAffinity.specified
        → (k : ℕ) × (mask ≡ some k) × (k < n) × (cpu_for_thread isset n i n ≡ some k))
    → (cpu : ℤ) × (cpu_of (record { isset = isset; size = n; max_cpus = n }) a i ≡ some cpu)
      × Placed a mask n i cpu
unfolding cpu_of
cpu_of-Placed n i mask isset SetAffinity.unspecified on h = (negsuc 0, refl, refl)
cpu_of-Placed n i mask isset SetAffinity.specified on h =
    let (k, e, lt, found) = h refl in (pos k, simp found refl, (k, e, lt, refl))
cpu_of-Placed n i mask isset SetAffinity.useall on h =
    (pos (i % n), ground arith, (omega arith, refl))

machine-chosen :
    (c : Config) (n i : ℕ)
    → n < 32
    → IsMasked n c
    → c.setaffinity ≡ SetAffinity.specified
    → (k : ℕ) × (c.affinity_mask ≡ some k)
      × (k < n)
      × (cpu_for_thread (machine c n).isset n i n ≡ some k)
machine-chosen c n i few s e =
    let (k, m, lt) = s.named e in
    (k, m, lt, rw m ((one_cpu_lem n k i lt).1 ∙ rw (lt→ltb n 32 few) refl))

-- With an accepted command line and one of the two clocks, on a machine with 1 to 31 CPUs, main sets
-- up as many threads as were asked for. Thread i gets the number i, the priority lowered by i under
-- --priospread, the interval with i times the distance added unless a histogram is kept (as an unsigned long), the policy
-- asked for where its priority is not 0 and that policy is real-time, and SCHED_OTHER otherwise; and no CPU, the CPU that -a
-- names, or CPU i modulo their number.
pub process_options-AreThreads :
    (n : ℕ) (os : List Opt) (c : Config) (clock : Clock)
    → 0 < n
    → n < 32
    → process_options (pos n) os ≡ ok c
    → clock_of c ≡ some clock
    → (ps : List Param) × (v : Spread) × (setup c (machine c n) ≡ some (ps, v))
      × (pos (length ps) ≡ c.num_threads)
      × AreThreads (Placed c.setaffinity c.affinity_mask n) c 0 ps
unfolding setup
process_options-AreThreads n os c clock on few e clocked =
    let m = process_options-IsMasked n os c e in
    let (ps, v, s, l, t) =
      setup_loop-AreThreads c (machine c n) clock (Placed c.setaffinity c.affinity_mask n) clocked
        (λ i.
          cpu_of-Placed n i c.affinity_mask (machine c n).isset c.setaffinity on
            (machine-chosen c n i few m))
        (pos_part c.num_threads) 0
        (record { priority = c.priority; interval = c.interval; force_sched_other = false })
        (first-IsSpread c) in
    (
      ps,
      v,
      s,
      ap pos l ∙ pos_pos_part c.num_threads (process_options-IsAccepted (pos n) os c e).threads,
      t,
    )
