-- ===== src/Ptsematest.antt =====
-- semathread of src/ptsematest/ptsematest.c: the sender and the receiver of a pair, with the two
-- mutexes between them. Each thread locks a mutex that the other unlocks, as glibc's default mutexes
-- allow. The unlocking of both mutexes by main at the very end of a test is left out.
pub mod Refine
mod Tests
use rt_tests.Base.{ℕ, zero, suc, ◌+◌, ◌≡◌, Bool, true, false, ◌||◌}
use rt_tests.Base.Int.{ℤ}
use rt_tests.Pair.{Timeval, Measured, unmeasured, note_diff, is_last, is_traced}

pub record Settings : Type 0 where
  pub max_cycles : ℤ
  pub tracelimit : ℤ

-- `check`: at the head of the loop. `lock`: in pthread_mutex_lock(&syncmutex). `release`: the time is
-- taken, the unlocking of testmutex comes.
pub data Sender : Type 0 where
  check lock release done : Sender

-- `get`: in pthread_mutex_lock(&testmutex). `got`: it has the lock and the time. `answer`: about to
-- unlock syncmutex.
pub data Receiver : Type 0 where
  check get got answer done : Receiver

-- The members of the two struct params that the loops use, and the mutexes; `true` is locked.
-- `first`, which stays 1, is left out, and with it the locking of syncmutex that it guards.
pub record Pair : Type 0 where
  pub sender : Sender
  pub receiver : Receiver
  pub unblocked : Timeval
  pub received : Timeval
  pub sender_samples : ℕ
  pub measured : Measured
  pub sender_shutdown : Bool
  pub receiver_shutdown : Bool
  pub testmutex : Bool
  pub syncmutex : Bool

-- From the unlocking of testmutex to the end of the sender's round.
unfoldable pub release_test : Settings → Pair → Pair
release_test set s = record s {
  testmutex = false;
  sender_samples = s.sender_samples + 1;
  sender_shutdown = is_last set.max_cycles (s.sender_samples + 1) || s.sender_shutdown;
  sender = Sender.check;
}

-- From `par->samples++` of the receiver to its nanosleep.
unfoldable pub measure : Settings → Pair → Pair
measure set s =
    let m = note_diff s.received s.unblocked s.measured in
    record s {
      receiver = Receiver.answer;
      measured = m;
      receiver_shutdown =
          is_traced set.tracelimit m.maxdiff
          || is_last set.max_cycles m.samples
          || s.receiver_shutdown;
      sender_shutdown = is_traced set.tracelimit m.maxdiff || s.sender_shutdown;
    }

-- A step of one thread. `stop`: main ends the test.
pub data Move (set : Settings) (s : Pair) : Pair → Type 0 where
  sender_enter :
      s.sender ≡ Sender.check
      → s.sender_shutdown ≡ false
      → Move set s (record s { sender = Sender.lock })
  sender_leave :
      s.sender ≡ Sender.check
      → s.sender_shutdown ≡ true
      → Move set s (record s { sender = Sender.done })
  sender_lock :
      (t : Timeval)
      → s.sender ≡ Sender.lock
      → s.syncmutex ≡ false
      → Move set s (record s { syncmutex = true; unblocked = t; sender = Sender.release })
  sender_release : s.sender ≡ Sender.release → Move set s (release_test set s)
  receiver_enter :
      s.receiver ≡ Receiver.check
      → s.receiver_shutdown ≡ false
      → Move set s (record s { receiver = Receiver.get })
  receiver_leave :
      s.receiver ≡ Receiver.check
      → s.receiver_shutdown ≡ true
      → Move set s (record s { receiver = Receiver.done })
  receiver_lock :
      (t : Timeval)
      → s.receiver ≡ Receiver.get
      → s.testmutex ≡ false
      → Move set s (record s { testmutex = true; received = t; receiver = Receiver.got })
  receiver_measure : s.receiver ≡ Receiver.got → Move set s (measure set s)
  receiver_release :
      s.receiver ≡ Receiver.answer
      → Move set s (record s { syncmutex = false; receiver = Receiver.check })
  stop : Move set s (record s { sender_shutdown = true; receiver_shutdown = true })

-- A pair as main creates it: "Wait on first attempt".
abbrev pub start : Timeval → Pair
start t = record {
  sender = Sender.check;
  receiver = Receiver.check;
  unblocked = t;
  received = t;
  sender_samples = 0;
  measured = unmeasured;
  sender_shutdown = false;
  receiver_shutdown = false;
  testmutex = true;
  syncmutex = false;
}

pub data Reach (set : Settings) (t : Timeval) : Pair → Type 0 where
  here : Reach set t (start t)
  next : {s s' : Pair} → Reach set t s → Move set s s' → Reach set t s'
