-- ===== src/Sigwaittest.antt =====
-- semathread of src/sigwaittest/sigwaittest.c: the sender and the receiver of a pair, with the two
-- signals between them. A signal that is sent stays pending until sigwait takes it, and sending one
-- that is pending does nothing. Sending and waiting do not fail. Each thread blocks its signal before
-- the other sends it.
pub mod Refine
mod Tests
use rt_tests.Base.{ℕ, zero, suc, ◌+◌, ◌≡◌, Bool, true, false, ◌||◌}
use rt_tests.Base.Int.{ℤ}
use rt_tests.Pair.{Timeval, Measured, unmeasured, note_diff, is_last, is_traced}

pub record Settings : Type 0 where
  pub max_cycles : ℤ
  pub tracelimit : ℤ

-- `check`: at the head of the loop. `kill`: the time is taken, SIGUSR2 is sent next. `wait`: in
-- sigwait for SIGUSR1.
pub data Sender : Type 0 where
  check kill wait done : Sender

-- `get`: in sigwait for SIGUSR2. `got`: it has the signal and the time. `answer`: SIGUSR1 is sent next.
pub data Receiver : Type 0 where
  check get got answer done : Receiver

-- The members of the two struct params that the loops use, and whether each signal is pending.
pub record Pair : Type 0 where
  pub sender : Sender
  pub receiver : Receiver
  pub unblocked : Timeval
  pub received : Timeval
  pub sender_samples : ℕ
  pub measured : Measured
  pub sender_shutdown : Bool
  pub receiver_shutdown : Bool
  pub sigusr2 : Bool
  pub sigusr1 : Bool

-- From the sending of SIGUSR2 to the call of sigwait.
unfoldable pub send_signal : Settings → Pair → Pair
send_signal set s = record s {
  sigusr2 = true;
  sender_samples = s.sender_samples + 1;
  sender_shutdown = is_last set.max_cycles (s.sender_samples + 1) || s.sender_shutdown;
  sender = Sender.wait;
}

-- From `par->samples++` of the receiver to its nanosleep.
unfoldable pub measure : Settings → Pair → Pair
measure set s =
    let m = note_diff s.received s.unblocked s.measured in
    record s {
      receiver = Receiver.answer;
      measured = m;
      receiver_shutdown =
          is_traced set.tracelimit m.maxdiff
          || is_last set.max_cycles m.samples
          || s.receiver_shutdown;
      sender_shutdown = is_traced set.tracelimit m.maxdiff || s.sender_shutdown;
    }

-- A step of one thread. `stop`: main ends the test.
pub data Move (set : Settings) (s : Pair) : Pair → Type 0 where
  sender_enter :
      (t : Timeval)
      → s.sender ≡ Sender.check
      → s.sender_shutdown ≡ false
      → Move set s (record s { unblocked = t; sender = Sender.kill })
  sender_leave :
      s.sender ≡ Sender.check
      → s.sender_shutdown ≡ true
      → Move set s (record s { sender = Sender.done })
  sender_kill : s.sender ≡ Sender.kill → Move set s (send_signal set s)
  sender_wait :
      s.sender ≡ Sender.wait
      → s.sigusr1 ≡ true
      → Move set s (record s { sigusr1 = false; sender = Sender.check })
  receiver_enter :
      s.receiver ≡ Receiver.check
      → s.receiver_shutdown ≡ false
      → Move set s (record s { receiver = Receiver.get })
  receiver_leave :
      s.receiver ≡ Receiver.check
      → s.receiver_shutdown ≡ true
      → Move set s (record s { receiver = Receiver.done })
  receiver_wait :
      (t : Timeval)
      → s.receiver ≡ Receiver.get
      → s.sigusr2 ≡ true
      → Move set s (record s { sigusr2 = false; received = t; receiver = Receiver.got })
  receiver_measure : s.receiver ≡ Receiver.got → Move set s (measure set s)
  receiver_kill :
      s.receiver ≡ Receiver.answer
      → Move set s (record s { sigusr1 = true; receiver = Receiver.check })
  stop : Move set s (record s { sender_shutdown = true; receiver_shutdown = true })

-- A pair as main creates it.
abbrev pub start : Timeval → Pair
start t = record {
  sender = Sender.check;
  receiver = Receiver.check;
  unblocked = t;
  received = t;
  sender_samples = 0;
  measured = unmeasured;
  sender_shutdown = false;
  receiver_shutdown = false;
  sigusr2 = false;
  sigusr1 = false;
}

pub data Reach (set : Settings) (t : Timeval) : Pair → Type 0 where
  here : Reach set t (start t)
  next : {s s' : Pair} → Reach set t s → Move set s s' → Reach set t s'
