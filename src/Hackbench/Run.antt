-- ===== src/Hackbench/Run.antt =====
-- The groups of src/hackbench/hackbench.c under the options that it has accepted.
use rt_tests.Base.{ℕ, ◌*◌, ◌^◌, ◌<◌, ◌≡◌, ◌⊎◌, Bool, some, List}
use rt_tests.Hackbench.Options.{Opt, Config, process_options, process_options-Fits}
use rt_tests.Hackbench.Pump.{Settings, Group, Reach}
use rt_tests.Hackbench.Pump.Progress.{IsDone, CanStep, group_ends}

-- The variables that the workers read, and the bytes that a pipe or socket holds.
abbrev pub settings : Config → ℕ → Settings
settings c capacity = record {
  datasize = c.datasize;
  loops = c.loops;
  num_fds = c.num_fds;
  capacity = capacity;
}

-- With a command line that hackbench accepts, pipes that hold a byte or more, and less than 2 ^ 32
-- messages for a receiver, a group cannot hang: in every reachable state a sender can write or a
-- receiver can read, or all threads have returned, every receiver has its num_fds * loops messages,
-- and every pipe is empty.
pub process_options-group_ends :
    (word : ℕ → Bool) (os : List Opt) (c : Config) (capacity : ℕ) {s : Group}
    → process_options word os ≡ some c
    → 0 < capacity
    → c.num_fds * c.loops < 2 ^ 32
    → Reach (settings c capacity) s
    → IsDone (settings c capacity) s ⊎ CanStep (settings c capacity) s
process_options-group_ends word os c capacity e room few r =
    let f = process_options-Fits word os c e in
    group_ends (settings c capacity) (f.datasize.0) (f.num_fds.0) room few r
