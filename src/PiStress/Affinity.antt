-- ===== src/PiStress/Affinity.antt =====
-- The processors of src/pi_tests/pi_stress.c: set_cpu_affinity, and the loop of main that gives each
-- group one. A mask is a function of the processor's number; sched_getaffinity gives the current one,
-- and sched_setaffinity does not fail.
pub mod Spread
use rt_tests.Base.{
  ℕ, zero, suc, ◌+◌, ◌-◌, Bool, true, false, ◌||◌, ◌&&◌, Option, none, some, ◌>>=◌, List, [], ◌∷◌,
  ltb, leb, ◌==◌, if◌then◌else◌,
}

abbrev pub Mask : Type 0
Mask = ℕ → Bool

pub record Masks : Type 0 where
  pub test : Mask
  pub admin : Mask

-- The first processor of a mask from i on, when n more are to be looked at; past the last one if there
-- is none.
unfoldable pub first_set : Mask → ℕ → ℕ → ℕ
first_set m zero i = i
first_set m (suc n) i = let rest = first_set m n (suc i) in if m i then i else rest

-- CPU_ZERO and CPU_SET.
abbrev pub only : ℕ → Mask
only k i = i == k

-- CPU_SET for the processors from k to num_processors - 1.
abbrev pub from : ℕ → ℕ → Mask
from num_processors k i = leb k i && ltb i num_processors

-- The admin thread on the first processor of the current mask, the tests on those above it.
unfoldable pub spread : ℕ → Mask → Option Masks
spread num_processors m =
    let i = first_set m num_processors 0 in
    if leb num_processors i
    then none
    else some (record { test = from num_processors (i + 1); admin = only i })

-- `current`: none if sched_getaffinity fails. The result is none for FAILURE.
unfoldable pub set_cpu_affinity : ℕ → Bool → Option Mask → Option Masks
set_cpu_affinity num_processors uniprocessor current =
    if (num_processors == 1) || uniprocessor
    then some (record { test = only 0; admin = only 0 })
    else current >>= spread num_processors

-- `groups[i].cpu = core++; if (core >= num_processors) core = 0`
unfoldable pub group_cpus : ℕ → ℕ → ℕ → List ℕ
group_cpus num_processors zero core = []
group_cpus num_processors (suc n) core =
    core ∷ group_cpus num_processors n (if leb num_processors (core + 1) then 0 else core + 1)

-- The processors of the groups, for the mask of the test threads.
unfoldable pub assign : ℕ → ℕ → Mask → List ℕ
assign num_processors ngroups test =
    group_cpus num_processors ngroups (first_set test num_processors 0)

-- The number of groups when --groups does not set it.
abbrev pub default_groups : ℕ → ℕ
default_groups num_processors = if num_processors == 1 then 1 else num_processors - 1
