-- ===== src/Cyclictest/Setup.antt =====
-- The loop of main in src/cyclictest/cyclictest.c that sets up the threads, in a build without
-- libnuma: struct thread_param as a thread finds it, and the variables that the loop changes.
-- malloc and the calls of pthread succeed; `priority` and `interval` are taken not to leave an int.
pub mod Threads
mod Tests
use rt_tests.Base.{
  ℕ, zero, suc, ◌+◌, ◌-◌, ◌%◌, Bool, true, false, ◌&&◌, not, Option, none, some, ◌>>=◌, List, [],
  ◌∷◌, ◌==◌, if◌then◌else◌,
}
use rt_tests.Base.Int.{ℤ, pos, negsuc, pos_part, ◌+ℤ◌, ◌-ℤ◌, eqb_ℤ}
use rt_tests.Base.Word.{to_u64}
use rt_tests.Cyclictest.Options.Config.{Policy, SetAffinity, Config}
use rt_tests.Cyclictest.Options.Apply.{is_realtime}
use rt_tests.Cyclictest.Options.Validate.{Clock, clock_of}
use rt_tests.Cyclictest.Stat.{ThreadStat, fresh_stat, valbuf_size}
use rt_tests.Cyclictest.Mask.{cpu_for_thread}

-- The fields of struct thread_param that main sets; `cpu` is -1 for no CPU.
pub record Param : Type 0 where
  pub prio : ℤ
  pub policy : Policy
  pub clock : Clock
  pub mode : ℕ
  pub absolute : Bool
  pub interval : ℕ
  pub max_cycles : ℕ
  pub bufmsk : ℕ
  pub tnum : ℕ
  pub cpu : ℤ
  pub stats : ThreadStat

-- The file's variables that the loop changes.
pub record Spread : Type 0 where
  pub priority : ℤ
  pub interval : ℤ
  pub force_sched_other : Bool

-- The mask, as its test and its size, and the number of CPUs.
pub record Machine : Type 0 where
  pub isset : ℕ → Option Bool
  pub size : ℕ
  pub max_cpus : ℕ

-- `switch (setaffinity)`; a remainder by 0 is undefined.
unfoldable pub cpu_of : Machine → SetAffinity → ℕ → Option ℤ
cpu_of m SetAffinity.unspecified i = some (negsuc 0)
cpu_of m SetAffinity.specified i =
    cpu_for_thread m.isset m.size i m.max_cpus >>= λ cpu. some (pos cpu)
cpu_of m SetAffinity.useall i = if m.max_cpus == 0 then none else some (pos (i % m.max_cpus))

-- `priority && (policy == SCHED_FIFO || policy == SCHED_RR)`
unfoldable pub keeps_policy : Policy → ℤ → Bool
keeps_policy policy priority = not (eqb_ℤ priority (pos 0)) && is_realtime policy

-- The block of thread i.
unfoldable pub param : Config → Spread → ℕ → Clock → ℤ → Param
param c v i clock cpu = record {
  prio = v.priority;
  policy = if keeps_policy c.policy v.priority then c.policy else Policy.other;
  clock = clock;
  mode = c.use_nanosleep + c.use_system;
  absolute = c.absolute;
  interval = to_u64 v.interval;
  max_cycles = to_u64 c.max_cycles;
  bufmsk = if c.verbose then valbuf_size - 1 else 0;
  tnum = i;
  cpu = cpu;
  stats = fresh_stat (pos_part c.histogram) c.verbose;
}

-- What thread i changes for those behind it.
unfoldable pub spread : Config → Spread → Spread
spread c v = record {
  priority = if c.priospread then v.priority -ℤ pos 1 else v.priority;
  interval = if eqb_ℤ c.histogram (pos 0) then v.interval +ℤ c.distance else v.interval;
  force_sched_other = if keeps_policy c.policy v.priority then v.force_sched_other else true;
}

-- `n` rounds of the loop from thread i on; `none` is undefined behaviour.
unfoldable pub setup_loop : Config → Machine → ℕ → ℕ → Spread → Option (List Param × Spread)
setup_loop c m zero i v = some ([], v)
setup_loop c m (suc n) i v = clock_of c >>= λ clock. cpu_of m c.setaffinity i >>= λ cpu.
    setup_loop c m n (suc i) (spread c v) >>= λ r. some (param c v i clock cpu ∷ r.0, r.1)

-- The loop as main enters it.
unfoldable pub setup : Config → Machine → Option (List Param × Spread)
setup c m =
    setup_loop c m (pos_part c.num_threads) 0
      (record { priority = c.priority; interval = c.interval; force_sched_other = false })
