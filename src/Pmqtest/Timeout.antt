-- ===== src/Pmqtest/Timeout.antt =====
-- A pair of pmqtest with option -T: the sender waits for two answers to one message.
use rt_tests.Base.{ℕ, ◌+◌, ◌≤◌, ◌≡◌, ◌≢◌, arith}
use rt_tests.Base.Int.{pos}
use rt_tests.Pair.{Timeval, note_diff}
use rt_tests.Pmqtest.{Settings, Sender, Pair, after_send, measure, Move, Reach, here, next}
use rt_tests.Pmqtest.Refine.{one, owes}

-- Whether the sender has sent, and whether it waits with a message of its under way.
abbrev has_sent : Sender → ℕ
has_sent Sender.timed = 1
has_sent Sender.wait = 1
has_sent _ = 0

abbrev is_timed : Sender → ℕ
is_timed Sender.timed = 1
is_timed _ = 0

record Stalls (s : Pair) : Type 0 where
  sends : s.sender_samples ≡ has_sent s.sender
  token : is_timed s.sender ≡ one s.testmq + owes s.receiver + one s.syncmq

Move-Stalls :
    (set : Settings) {s s' : Pair} → set.timeout ≢ pos 0 → Move set s s' → Stalls s → Stalls s'
unfolding after_send measure note_diff
Move-Stalls set {s} n (Move.sender_enter t p q) v = ground arith
Move-Stalls set {s} n (Move.sender_leave p q) v = ground arith
Move-Stalls set {s} n (Move.sender_put p q) v = ground arith
Move-Stalls set {s} n (Move.sender_timed p q) v = ground arith
Move-Stalls set {s} n (Move.sender_wait p q) v = ground arith
Move-Stalls set {s} n (Move.receiver_enter p q) v = ground arith
Move-Stalls set {s} n (Move.receiver_leave p q) v = ground arith
Move-Stalls set {s} n (Move.receiver_get t p q) v = ground arith
Move-Stalls set {s} n (Move.receiver_measure p) v = ground arith
Move-Stalls set {s} n (Move.receiver_put p q) v = ground arith
Move-Stalls set {s} n Move.stop v = ground arith

Reach-Stalls :
    (set : Settings) (t : Timeval) {s : Pair} → set.timeout ≢ pos 0 → Reach set t s → Stalls s
Reach-Stalls set t n here = ground arith
Reach-Stalls set t n (next r m) = Move-Stalls set n m (Reach-Stalls set t n r)

-- With a timeout, no run in which no call fails gets past the first message: the sender takes the
-- answer to it in mq_timedreceive and then waits in mq_receive for another.
pub timeout_stalls :
    (set : Settings) (t : Timeval) {s : Pair}
    → set.timeout ≢ pos 0
    → Reach set t s
    → s.sender_samples ≤ 1
timeout_stalls set t {s} n r = let v = Reach-Stalls set t n r in ground arith
