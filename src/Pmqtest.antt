-- ===== src/Pmqtest.antt =====
-- pmqthread of src/pmqtest/pmqtest.c: the sender and the receiver of a pair, with the two message
-- queues between them. The queues hold one message (mq_maxmsg), and each carries one kind only, so a
-- queue is its flag `full`; a call blocks until the queue allows it. The clock gives any time.
pub mod Refine
pub mod Timeout
pub mod Options
pub mod Setup
mod Tests
use rt_tests.Base.{ℕ, zero, suc, ◌+◌, ◌≡◌, ◌≢◌, Bool, true, false, ◌||◌, not, if◌then◌else◌}
use rt_tests.Base.Int.{ℤ, pos, eqb_ℤ}
use rt_tests.Pair.{Timeval, Measured, unmeasured, note_diff, is_last, is_traced}

pub record Settings : Type 0 where
  pub max_cycles : ℤ
  pub tracelimit : ℤ
  pub timeout : ℤ
  pub forcetimeout : ℤ

-- Where a thread stands. `check`: at the head of the loop. `put`: the time is taken, mq_send comes.
-- `timed`: in mq_timedreceive of the sender. `wait`: in its mq_receive.
pub data Sender : Type 0 where
  check put timed wait done : Sender

-- `get`: in mq_receive or mq_timedreceive. `got`: the time of receipt is taken. `answer`: about to
-- send the sync message.
pub data Receiver : Type 0 where
  check get got answer done : Receiver

-- The members of the two struct params that the loops use, and the queues.
pub record Pair : Type 0 where
  pub sender : Sender
  pub receiver : Receiver
  pub sent : Timeval
  pub received : Timeval
  pub sender_samples : ℕ
  pub measured : Measured
  pub timeoutcount : ℕ
  pub sender_shutdown : Bool
  pub receiver_shutdown : Bool
  pub testmq : Bool
  pub syncmq : Bool

-- `par->samples++`, the test of max_cycles, and where the sender waits.
unfoldable pub after_send : Settings → Pair → Pair
after_send set s = record s {
  sender_samples = s.sender_samples + 1;
  sender_shutdown = is_last set.max_cycles (s.sender_samples + 1) || s.sender_shutdown;
  sender = if eqb_ℤ set.timeout (pos 0) then Sender.wait else Sender.timed;
}

-- From `par->samples++` of the receiver to its clock_nanosleep.
unfoldable pub measure : Settings → Pair → Pair
measure set s =
    let m = note_diff s.received s.sent s.measured in
    record s {
      receiver = Receiver.answer;
      measured = m;
      receiver_shutdown =
          is_traced set.tracelimit m.maxdiff
          || is_last set.max_cycles m.samples
          || s.receiver_shutdown;
      sender_shutdown = is_traced set.tracelimit m.maxdiff || s.sender_shutdown;
    }

-- A step of one thread in which no call fails. `stop`: main ends the test.
pub data Move (set : Settings) (s : Pair) : Pair → Type 0 where
  sender_enter :
      (t : Timeval)
      → s.sender ≡ Sender.check
      → s.sender_shutdown ≡ false
      → Move set s (record s { sender = Sender.put; sent = t })
  sender_leave :
      s.sender ≡ Sender.check
      → s.sender_shutdown ≡ true
      → Move set s (record s { sender = Sender.done })
  sender_put :
      s.sender ≡ Sender.put
      → s.testmq ≡ false
      → Move set s (after_send set (record s { testmq = true }))
  sender_timed :
      s.sender ≡ Sender.timed
      → s.syncmq ≡ true
      → Move set s (record s { syncmq = false; sender = Sender.wait })
  sender_wait :
      s.sender ≡ Sender.wait
      → s.syncmq ≡ true
      → Move set s (record s { syncmq = false; sender = Sender.check })
  receiver_enter :
      s.receiver ≡ Receiver.check
      → s.receiver_shutdown ≡ false
      → Move set s (record s {
        receiver = Receiver.get;
        timeoutcount = if eqb_ℤ set.timeout (pos 0) then s.timeoutcount else 0;
      })
  receiver_leave :
      s.receiver ≡ Receiver.check
      → s.receiver_shutdown ≡ true
      → Move set s (record s { receiver = Receiver.done })
  receiver_get :
      (t : Timeval)
      → s.receiver ≡ Receiver.get
      → s.testmq ≡ true
      → Move set s (record s { testmq = false; received = t; receiver = Receiver.got })
  receiver_measure : s.receiver ≡ Receiver.got → Move set s (measure set s)
  receiver_put :
      s.receiver ≡ Receiver.answer
      → s.syncmq ≡ false
      → Move set s (record s { syncmq = true; receiver = Receiver.check })
  stop : Move set s (record s { sender_shutdown = true; receiver_shutdown = true })

-- A call that fails, or one that runs into its timeout: the thread goes on, to find `shutdown` at the
-- head of its loop.
pub data Fault (set : Settings) (s : Pair) : Pair → Type 0 where
  sender_put :
      s.sender ≡ Sender.put → Fault set s (after_send set (record s { sender_shutdown = true }))
  sender_timed :
      s.sender ≡ Sender.timed
      → Fault set s (record s { sender_shutdown = true; sender = Sender.wait })
  sender_wait :
      s.sender ≡ Sender.wait
      → Fault set s (record s { sender_shutdown = true; sender = Sender.check })
  receiver_get :
      (t : Timeval)
      → s.receiver ≡ Receiver.get
      → Fault set s (record s { receiver_shutdown = true; received = t; receiver = Receiver.got })
  receiver_timeout :
      s.receiver ≡ Receiver.get
      → set.timeout ≢ pos 0
      → set.forcetimeout ≢ pos 0
      → Fault set s (record s { timeoutcount = s.timeoutcount + 1 })
  receiver_put :
      s.receiver ≡ Receiver.answer
      → Fault set s (record s { receiver_shutdown = true; receiver = Receiver.check })

-- A pair as main creates it, with empty queues.
abbrev pub start : Timeval → Pair
start t = record {
  sender = Sender.check;
  receiver = Receiver.check;
  sent = t;
  received = t;
  sender_samples = 0;
  measured = unmeasured;
  timeoutcount = 0;
  sender_shutdown = false;
  receiver_shutdown = false;
  testmq = false;
  syncmq = false;
}

-- What a run without failing calls comes to.
pub data Reach (set : Settings) (t : Timeval) : Pair → Type 0 where
  here : Reach set t (start t)
  next : {s s' : Pair} → Reach set t s → Move set s s' → Reach set t s'
