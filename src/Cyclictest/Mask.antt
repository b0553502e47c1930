-- ===== src/Cyclictest/Mask.antt =====
-- The masks of CPUs: rt_numa_bitmask_count and the masks of a build without libnuma in
-- src/cyclictest/rt_numa.h, cpu_for_thread and is_cpumask_zero of src/cyclictest/cyclictest.c.
-- rt_numa_bitmask_isbitset is a parameter, since with libnuma it is a call of that library; `none`
-- is undefined behaviour.
pub mod Choice
pub mod Single
use rt_tests.Base.{
  ℕ, zero, suc, ◌+◌, ◌-◌, ◌/◌, ◌%◌, ◌^◌, Bool, true, false, not, Option, none, some, ◌>>=◌, List,
  [], ◌∷◌, ltb, leb, ◌==◌, if◌then◌else◌, get_elem?, set, replicate,
}

-- BITS_PER_LONG, and the bits of an int that `1 <<` can reach.
abbrev pub bits_per_long : ℕ
bits_per_long = 64

abbrev pub int_bits : ℕ
int_bits = 31

-- struct bitmask
pub record Bitmask : Type 0 where
  pub size : ℕ
  pub maskp : List ℕ

-- `maskp[i/BITS_PER_LONG] & (1<<(i % BITS_PER_LONG))`: an int is shifted, which C defines for the
-- bits 0 to 30 only.
unfoldable pub rt_numa_bitmask_isbitset : Bitmask → ℕ → Option Bool
rt_numa_bitmask_isbitset mask i =
    if ltb (i % bits_per_long) int_bits
    then (get_elem? mask.maskp (i / bits_per_long)
        >>= (λ w. some (w / 2 ^ (i % bits_per_long) % 2 == 1)))
    else none

-- The mask of one CPU that rt_numa_parse_cpustring builds, where malloc succeeds:
-- an unsigned long is shifted here.
unfoldable pub one_cpu : ℕ → ℕ → Bitmask
one_cpu max_cpus cpu = record {
  size = max_cpus;
  maskp =
      set (replicate ((max_cpus + bits_per_long - 1) / bits_per_long) 0) (cpu / bits_per_long)
        (2 ^ (cpu % bits_per_long));
}

-- The loop of rt_numa_bitmask_count with `rest` rounds to go.
unfoldable pub count_loop : (ℕ → Option Bool) → ℕ → ℕ → ℕ → Option ℕ
count_loop isset zero i num_bits = some num_bits
count_loop isset (suc rest) i num_bits =
    isset i >>= λ b. count_loop isset rest (suc i) (if b then suc num_bits else num_bits)

unfoldable pub rt_numa_bitmask_count : (ℕ → Option Bool) → ℕ → Option ℕ
rt_numa_bitmask_count isset size = count_loop isset size 0 0

unfoldable pub is_cpumask_zero : (ℕ → Option Bool) → ℕ → Option Bool
is_cpumask_zero isset size = rt_numa_bitmask_count isset size >>= λ n. some (n == 0)

-- The loop of cpu_for_thread: past its end, "Bug in cpu mask handling code."
unfoldable pub find_loop : (ℕ → Option Bool) → ℕ → ℕ → ℕ → ℕ → Option ℕ
find_loop isset m zero i cpu = some 0
find_loop isset m (suc rest) i cpu = isset i >>= λ b.
    let later = find_loop isset m rest (suc i) (if b then suc cpu else cpu) in
    if b then (if cpu == m then some i else later) else later

-- A remainder by no CPUs is undefined.
unfoldable pub cpu_for_thread : (ℕ → Option Bool) → ℕ → ℕ → ℕ → Option ℕ
cpu_for_thread isset size thread_num max_cpus = rt_numa_bitmask_count isset size >>= λ num_cpus.
    if num_cpus == 0 then none else find_loop isset (thread_num % num_cpus) max_cpus 0 0
