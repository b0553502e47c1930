-- ===== src/Svsematest.antt =====
-- semathread of src/svsematest/svsematest.c: the sender and the receiver of a pair, with the two
-- semaphores between them, which start at 0. An unlocking adds 1, a locking waits for 1 and takes it.
-- What the sender and the receiver do behind their loops, to free a partner that waits, is left out.
pub mod Overrun
pub mod Options
pub mod Fork
mod Tests
use rt_tests.Base.{ℕ, zero, suc, ◌+◌, ◌≡◌, Bool, true, false, ◌||◌}
use rt_tests.Base.Int.{ℤ}
use rt_tests.Pair.{Timeval, Measured, unmeasured, note_diff, is_last, is_traced}

pub record Settings : Type 0 where
  pub max_cycles : ℤ
  pub tracelimit : ℤ

-- `check`: at the head of the loop. `unlock`: the time is taken, the unlocking comes.
-- `wait_receiver`, `wait_sender`: in semop, locking the semaphore of that name.
pub data Sender : Type 0 where
  check unlock wait_receiver wait_sender done : Sender

-- `get`: in semop, locking SEM_WAIT_FOR_SENDER. `got`: it has the time. `answer`, `again`: about to
-- unlock SEM_WAIT_FOR_RECEIVER, and SEM_WAIT_FOR_SENDER.
pub data Receiver : Type 0 where
  check get got answer again done : Receiver

-- The members of the two struct params that the loops use, and the values of the semaphores
-- SEM_WAIT_FOR_SENDER and SEM_WAIT_FOR_RECEIVER.
pub record Pair : Type 0 where
  pub sender : Sender
  pub receiver : Receiver
  pub unblocked : Timeval
  pub received : Timeval
  pub sender_samples : ℕ
  pub measured : Measured
  pub sender_shutdown : Bool
  pub receiver_shutdown : Bool
  pub wait_for_sender : ℕ
  pub wait_for_receiver : ℕ

-- From the unlocking of SEM_WAIT_FOR_SENDER to the locking of SEM_WAIT_FOR_RECEIVER.
unfoldable pub unlock_sender : Settings → Pair → Pair
unlock_sender set s = record s {
  wait_for_sender = suc s.wait_for_sender;
  sender_samples = s.sender_samples + 1;
  sender_shutdown = is_last set.max_cycles (s.sender_samples + 1) || s.sender_shutdown;
  sender = Sender.wait_receiver;
}

-- From `par->samples++` of the receiver to the unlocking of SEM_WAIT_FOR_RECEIVER.
unfoldable pub measure : Settings → Pair → Pair
measure set s =
    let m = note_diff s.received s.unblocked s.measured in
    record s {
      receiver = Receiver.answer;
      measured = m;
      receiver_shutdown =
          is_traced set.tracelimit m.maxdiff
          || is_last set.max_cycles m.samples
          || s.receiver_shutdown;
      sender_shutdown = is_traced set.tracelimit m.maxdiff || s.sender_shutdown;
    }

-- A step of one thread. `stop`: main ends the test.
pub data Move (set : Settings) (s : Pair) : Pair → Type 0 where
  sender_enter :
      (t : Timeval)
      → s.sender ≡ Sender.check
      → s.sender_shutdown ≡ false
      → Move set s (record s { unblocked = t; sender = Sender.unlock })
  sender_leave :
      s.sender ≡ Sender.check
      → s.sender_shutdown ≡ true
      → Move set s (record s { sender = Sender.done })
  sender_unlock : s.sender ≡ Sender.unlock → Move set s (unlock_sender set s)
  sender_receiver :
      (n : ℕ)
      → s.sender ≡ Sender.wait_receiver
      → s.wait_for_receiver ≡ suc n
      → Move set s (record s { wait_for_receiver = n; sender = Sender.wait_sender })
  sender_sender :
      (n : ℕ)
      → s.sender ≡ Sender.wait_sender
      → s.wait_for_sender ≡ suc n
      → Move set s (record s { wait_for_sender = n; sender = Sender.check })
  receiver_enter :
      s.receiver ≡ Receiver.check
      → s.receiver_shutdown ≡ false
      → Move set s (record s { receiver = Receiver.get })
  receiver_leave :
      s.receiver ≡ Receiver.check
      → s.receiver_shutdown ≡ true
      → Move set s (record s { receiver = Receiver.done })
  receiver_lock :
      (n : ℕ) (t : Timeval)
      → s.receiver ≡ Receiver.get
      → s.wait_for_sender ≡ suc n
      → Move set s (record s { wait_for_sender = n; received = t; receiver = Receiver.got })
  receiver_measure : s.receiver ≡ Receiver.got → Move set s (measure set s)
  receiver_answer :
      s.receiver ≡ Receiver.answer
      → Move set s
          (record s { wait_for_receiver = suc s.wait_for_receiver; receiver = Receiver.again })
  receiver_again :
      s.receiver ≡ Receiver.again
      → Move set s (record s { wait_for_sender = suc s.wait_for_sender; receiver = Receiver.check })
  stop : Move set s (record s { sender_shutdown = true; receiver_shutdown = true })

-- A pair as main creates it.
abbrev pub start : Timeval → Pair
start t = record {
  sender = Sender.check;
  receiver = Receiver.check;
  unblocked = t;
  received = t;
  sender_samples = 0;
  measured = unmeasured;
  sender_shutdown = false;
  receiver_shutdown = false;
  wait_for_sender = 0;
  wait_for_receiver = 0;
}

pub data Reach (set : Settings) (t : Timeval) : Pair → Type 0 where
  here : Reach set t (start t)
  next : {s s' : Pair} → Reach set t s → Move set s s' → Reach set t s'
