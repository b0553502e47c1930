-- ===== src/Signaltest.antt =====
-- signalthread of src/signaltest/signaltest.c: the threads that pass a signal round, as a step
-- relation. Thread i sends SIGUSR1 to thread i + 1, the last one to thread 0, and main has sent the
-- first one to thread 0. A signal is pending until sigwait takes it, and sigwait does not fail. The
-- sleep of thread 0 in every 16th round is left out, as are the commands that set up a trace.
pub mod Turn
pub mod Hang
pub mod Command
mod Tests
use rt_tests.Base.{
  ℕ, zero, suc, ◌+◌, ◌*◌, ◌%◌, ◌≡◌, Bool, true, false, ◌&&◌, ◌||◌, not, Option, some, List, [], ◌∷◌,
  ltb, ◌==◌, length, get_elem?, set, replicate, if◌then◌else◌,
}
use rt_tests.Base.Int.{ℤ, pos, negsuc, eqb_ℤ, ltb_ℤ, ◌+ℤ◌, ◌*ℤ◌, div_trunc}
use rt_tests.Base.Word.{to_int, to_u64}
use rt_tests.Cyclictest.Time.{Timespec, int_diff}

-- `values` exists with --verbose only; bufmsk is then 16383.
pub record Settings : Type 0 where
  pub max_cycles : ℤ
  pub tracelimit : ℤ
  pub verbose : Bool

-- An overflow of the product of ints wraps round.
unfoldable pub calcdiff : Timespec → Timespec → ℤ
unfolding int_diff to_int ◌+ℤ◌ ◌*ℤ◌ div_trunc
calcdiff t1 t2 =
    to_int (1_000_000 *ℤ int_diff t1.sec t2.sec) +ℤ div_trunc (int_diff t1.nsec t2.nsec) 1000

-- `check`: at the head of the loop. `wait`: in sigwait. `got`: it has the signal and the time `after`.
pub data Stage : Type 0 where
  check wait got done : Stage

-- The variables of signalthread and its struct thread_stat. `avg`, a double, sums whole numbers.
pub record Thread : Type 0 where
  pub stage : Stage
  pub first : Bool
  pub stopped : Bool
  pub before : Timespec
  pub after : Timespec
  pub cycles : ℕ
  pub min : ℤ
  pub max : ℤ
  pub act : ℤ
  pub avg : ℤ
  pub values : List ℤ

-- The threads, whether SIGUSR1 is pending for each, and the global `shutdown`.
pub record Ring : Type 0 where
  pub threads : List Thread
  pub pending : List Bool
  pub shutdown : Bool

-- `!stopped && tracelimit && (diff > tracelimit)`
unfoldable pub is_over : Settings → Thread → ℤ → Bool
is_over set x diff =
    not x.stopped && not (eqb_ℤ set.tracelimit (pos 0)) && ltb_ℤ set.tracelimit diff

-- `par->max_cycles && par->max_cycles == stat->cycles`, in unsigned long.
unfoldable pub is_last : Settings → ℕ → Bool
is_last set cycles = not (to_u64 set.max_cycles == 0) && to_u64 set.max_cycles == cycles

-- `before = now; if (diff < stat->min) ...`, to the end of the round.
unfoldable pub note_diff : Settings → Timespec → ℤ → Thread → Thread
unfolding ◌+ℤ◌
note_diff conf now diff x = record {
  stage = if is_last conf (x.cycles + 1) then Stage.done else Stage.check;
  first = false;
  stopped = is_over conf x diff || x.stopped;
  before = now;
  after = x.after;
  cycles = x.cycles + 1;
  min = if ltb_ℤ diff x.min then diff else x.min;
  max = if ltb_ℤ x.max diff then diff else x.max;
  act = diff;
  avg = x.avg +ℤ diff;
  values = if conf.verbose then set x.values ((x.cycles + 1) % 16384) diff else x.values;
}

-- The round of a thread after it has passed the signal on at `now`.
unfoldable pub round : Settings → Timespec → Thread → Thread
unfolding note_diff
round conf now x =
    if x.first
    then record x { stage = Stage.check; first = false; before = now }
    else note_diff conf now (calcdiff x.after x.before) x

-- Whether the round ends the test with `shutdown++`.
unfoldable pub trips : Settings → Thread → Bool
trips conf x = not x.first && is_over conf x (calcdiff x.after x.before)

-- The index of `tothread`.
unfoldable pub tothread : ℕ → ℕ → ℕ
tothread n i = if i + 1 == n then 0 else i + 1

-- A step of the i-th thread. `stop`: main, or a signal to it, ends the test.
pub data Move (conf : Settings) (s : Ring) : Ring → Type 0 where
  enter :
      (i : ℕ) (x : Thread)
      → get_elem? s.threads i ≡ some x
      → x.stage ≡ Stage.check
      → s.shutdown ≡ false
      → Move conf s (record s { threads = set s.threads i (record x { stage = Stage.wait }) })
  leave :
      (i : ℕ) (x : Thread)
      → get_elem? s.threads i ≡ some x
      → x.stage ≡ Stage.check
      → s.shutdown ≡ true
      → Move conf s (record s { threads = set s.threads i (record x { stage = Stage.done }) })
  take :
      (i : ℕ) (x : Thread) (t : Timespec)
      → get_elem? s.threads i ≡ some x
      → x.stage ≡ Stage.wait
      → get_elem? s.pending i ≡ some true
      → Move conf s (record s {
        threads = set s.threads i (record x { stage = Stage.got; after = t });
        pending = set s.pending i false;
      })
  pass :
      (i : ℕ) (x : Thread) (now : Timespec)
      → get_elem? s.threads i ≡ some x
      → x.stage ≡ Stage.got
      → Move conf s (record {
        threads = set s.threads i (round conf now x);
        pending = set s.pending (tothread (length s.threads) i) true;
        shutdown = trips conf x || s.shutdown;
      })
  stop : Move conf s (record s { shutdown = true })

-- A thread that has just taken the time `t` in front of its loop.
abbrev pub fresh : Settings → Timespec → Thread
fresh conf t = record {
  stage = Stage.check;
  first = true;
  stopped = false;
  before = t;
  after = t;
  cycles = 0;
  min = pos 1_000_000;
  max = negsuc 999_999;
  act = pos 0;
  avg = pos 0;
  values = if conf.verbose then replicate 16384 (pos 0) else [];
}

-- `n + 1` threads that have started, when main has sent the first signal.
abbrev pub start : Settings → Timespec → ℕ → Ring
start conf t n = record {
  threads = replicate (suc n) (fresh conf t);
  pending = true ∷ replicate n false;
  shutdown = false;
}

pub data Reach (conf : Settings) (t : Timespec) (n : ℕ) : Ring → Type 0 where
  here : Reach conf t n (start conf t n)
  next : {s s' : Ring} → Reach conf t n s → Move conf s s' → Reach conf t n s'
