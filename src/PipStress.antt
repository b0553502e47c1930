-- ===== src/PipStress.antt =====
-- src/pi_tests/pip_stress.c: three processes that share a priority-inheritance mutex, `resource`,
-- and a structure behind a plain one, from the two calls of fork on. Any process that can go on may
-- be the next one: the priorities make some of these orders likely. The calls of the library succeed.
pub mod Report
pub mod Ends
mod Tests
use rt_tests.Base.{
  ℕ, Bool, true, false, ◌&&◌, ◌||◌, not, Option, none, some, ◌>>=◌, List, [], ◌∷◌, if◌then◌else◌,
}

-- struct State, without its mutex.
pub record Shared : Type 0 where
  pub low_owns_resource : Bool
  pub high_started : Bool
  pub high_owns_resource : Bool
  pub medium_started : Bool
  pub inversion : Bool

-- The call that a process makes next; `leave` and the like unlock the mutex of the structure.
pub data Low : Type 0 where
  lock note leave unlock reap ended : Low

pub data Medium : Type 0 where
  note leave looping killed : Medium

pub data High : Type 0 where
  begin leave_begin lock note leave unlock kill reap report leave_report ended : High

pub data Owner : Type 0 where
  free low medium high : Owner

pub record World : Type 0 where
  pub low : Low
  pub medium : Medium
  pub high : High
  pub resource : Owner
  pub mutex : Owner
  pub shared : Shared
  pub printed : Option Bool

pub data Process : Type 0 where
  low medium high : Process

-- init_state
abbrev pub init_state : Shared
init_state = record {
  low_owns_resource = false;
  high_started = false;
  high_owns_resource = false;
  medium_started = false;
  inversion = true;
}

abbrev pub forked : World
forked = record {
  low = Low.lock;
  medium = Medium.note;
  high = High.begin;
  resource = Owner.free;
  mutex = Owner.free;
  shared = init_state;
  printed = none;
}

-- The three sections under the mutex that change the structure beyond a flag.
unfoldable pub low_note : Shared → Shared
low_note s = record s {
  low_owns_resource = true;
  inversion = if s.high_owns_resource || s.medium_started then false else s.inversion;
}

unfoldable pub medium_note : Shared → Shared
medium_note s = record s {
  medium_started = true;
  inversion = if not s.high_started then false else s.inversion;
}

unfoldable pub high_note : Shared → Shared
high_note s = record s {
  high_owns_resource = true;
  inversion = if not s.low_owns_resource || not s.medium_started then false else s.inversion;
}

-- `low`, by its next call and the owner of the mutex that this waits for.
unfoldable pub low_step : World → Option World
low_step w = elim w.low [
  | Low.lock ↦ elim w.resource [
    | Owner.free ↦ some (record w { resource = Owner.low; low = Low.note })
    | _ ↦ none
  ]
  | Low.note ↦ elim w.mutex [
    | Owner.free ↦
        some (record w { mutex = Owner.low; shared = low_note w.shared; low = Low.leave })
    | _ ↦ none
  ]
  | Low.leave ↦ some (record w { mutex = Owner.free; low = Low.unlock })
  | Low.unlock ↦ some (record w { resource = Owner.free; low = Low.reap })
  | Low.reap ↦ elim w.high [ High.ended ↦ some (record w { low = Low.ended }) | _ ↦ none ]
  | Low.ended ↦ none
]

-- `medium`, whose last loop changes nothing.
unfoldable pub medium_step : World → Option World
medium_step w = elim w.medium [
  | Medium.note ↦ elim w.mutex [
    | Owner.free ↦
        some
          (record w { mutex = Owner.medium; shared = medium_note w.shared; medium = Medium.leave })
    | _ ↦ none
  ]
  | Medium.leave ↦ some (record w { mutex = Owner.free; medium = Medium.looping })
  | Medium.looping ↦ none
  | Medium.killed ↦ none
]

-- `high`. A process that is killed keeps the mutex that it holds.
unfoldable pub high_step : World → Option World
high_step w = elim w.high [
  | High.begin ↦ elim w.mutex [
    | Owner.free ↦ some (record w {
      mutex = Owner.high;
      shared = record w.shared { high_started = true };
      high = High.leave_begin;
    })
    | _ ↦ none
  ]
  | High.leave_begin ↦ some (record w { mutex = Owner.free; high = High.lock })
  | High.lock ↦ elim w.resource [
    | Owner.free ↦ some (record w { resource = Owner.high; high = High.note })
    | _ ↦ none
  ]
  | High.note ↦ elim w.mutex [
    | Owner.free ↦
        some (record w { mutex = Owner.high; shared = high_note w.shared; high = High.leave })
    | _ ↦ none
  ]
  | High.leave ↦ some (record w { mutex = Owner.free; high = High.unlock })
  | High.unlock ↦ some (record w { resource = Owner.free; high = High.kill })
  | High.kill ↦ some (record w { medium = Medium.killed; high = High.reap })
  | High.reap ↦ elim w.medium [ Medium.killed ↦ some (record w { high = High.report }) | _ ↦ none ]
  | High.report ↦ elim w.mutex [
    | Owner.free ↦ some (record w {
      mutex = Owner.high;
      printed = some w.shared.inversion;
      high = High.leave_report;
    })
    | _ ↦ none
  ]
  | High.leave_report ↦ some (record w { mutex = Owner.free; high = High.ended })
  | High.ended ↦ none
]

unfoldable pub step : Process → World → Option World
step Process.low w = low_step w
step Process.medium w = medium_step w
step Process.high w = high_step w

-- The processes that go on, in their order.
unfoldable pub run : List Process → World → Option World
run [] w = some w
run (p ∷ ps) w = step p w >>= run ps
