-- ===== src/Hackbench/Pump.antt =====
-- A group of src/hackbench/hackbench.c at work: num_fds senders, num_fds receivers, and a pipe or
-- socket for each receiver, into which every sender writes. A call of write or read moves at least one
-- byte and at most what it is asked for; a sender waits while the pipe is full, a receiver while it is
-- empty. A call that fails ends the program and is left out.
pub mod Balance
pub mod Progress
use rt_tests.Base.{
  ℕ, zero, suc, ◌+◌, ◌-◌, ◌*◌, ◌%◌, ◌^◌, ◌<◌, ◌≤◌, ◌≡◌, Option, none, some, List, [], ◌∷◌, ltb,
  length, get_elem?, set, replicate, if◌then◌else◌,
}

-- The variables of the program, and the bytes that a pipe holds.
pub record Settings : Type 0 where
  pub datasize : ℕ
  pub loops : ℕ
  pub num_fds : ℕ
  pub capacity : ℕ

-- `i`, `j` and `done` of sender. It has returned when i is loops.
pub record Sender : Type 0 where
  pub i : ℕ
  pub j : ℕ
  pub done : ℕ

-- `i` and `done` of receiver. It has returned when i is num_packets.
pub record Receiver : Type 0 where
  pub i : ℕ
  pub done : ℕ

pub record Group : Type 0 where
  pub senders : List Sender
  pub pipes : List ℕ
  pub receivers : List Receiver

-- `ctx->num_packets = num_fds*loops`, in unsigned int.
abbrev pub num_packets : Settings → ℕ
num_packets set = set.num_fds * set.loops % 2 ^ 32

-- `done += ret; if (done < sizeof(data)) goto again`, and the two loops around it.
unfoldable pub wrote : Settings → ℕ → Sender → Sender
wrote set n p =
    if ltb (p.done + n) set.datasize
    then record p { done = p.done + n }
    else if ltb (p.j + 1) set.num_fds
    then record p { j = p.j + 1; done = 0 }
    else record { i = p.i + 1; j = 0; done = 0 }

-- The same of receiver.
unfoldable pub took : Settings → ℕ → Receiver → Receiver
took set n q =
    if ltb (q.done + n) set.datasize
    then record q { done = q.done + n }
    else record { i = q.i + 1; done = 0 }

-- A call of write by the k-th sender that returns n, or one of read by the k-th receiver.
pub data Step (conf : Settings) (s : Group) : Group → Type 0 where
  write :
      (k n b : ℕ) (p : Sender)
      → get_elem? s.senders k ≡ some p
      → p.i < conf.loops
      → get_elem? s.pipes p.j ≡ some b
      → 0 < n
      → p.done + n ≤ conf.datasize
      → b + n ≤ conf.capacity
      → Step conf s
          (record s { senders = set s.senders k (wrote conf n p); pipes = set s.pipes p.j (b + n) })
  read :
      (k n b : ℕ) (q : Receiver)
      → get_elem? s.receivers k ≡ some q
      → q.i < num_packets conf
      → get_elem? s.pipes k ≡ some b
      → 0 < n
      → q.done + n ≤ conf.datasize
      → n ≤ b
      → Step conf s (record s {
        receivers = set s.receivers k (took conf n q);
        pipes = set s.pipes k (b - n);
      })

-- A group that group has created, when main has kicked it off.
abbrev pub start : Settings → Group
start conf = record {
  senders = replicate conf.num_fds (record { i = 0; j = 0; done = 0 });
  pipes = replicate conf.num_fds 0;
  receivers = replicate conf.num_fds (record { i = 0; done = 0 });
}

pub data Reach (conf : Settings) : Group → Type 0 where
  here : Reach conf (start conf)
  next : {s s' : Group} → Reach conf s → Step conf s s' → Reach conf s'
