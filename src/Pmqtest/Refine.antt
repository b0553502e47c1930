-- ===== src/Pmqtest/Refine.antt =====
-- A pair of pmqtest keeps the contract of Exchange.
use rt_tests.Base.{
  ℕ, ◌+◌, ◌≡◌, ◌≢◌, ◌⊎◌, inl, inr, refl, Bool, true, false, if◌then◌else◌, arith, length, List, [],
  ◌∷◌, ◌++◌,
}
use rt_tests.Base.Int.{pos}
use rt_tests.Pair.{Timeval, note_diff}
use mathlib.Core.Path.{subst}
use rt_tests.Pair.Exchange
use rt_tests.Pair.Exchange.{Turn, idle, flying, Exchange, Turns, Reaches, measured_of}
use rt_tests.Pmqtest.{
  Settings, Sender, Receiver, Pair, after_send, measure, Move, Reach, here, next, start,
}

abbrev pub one : Bool → ℕ
one true = 1
one false = 0

-- Whether the sender waits for its answer, and whether the receiver owes one.
abbrev pub waits : Sender → ℕ
waits Sender.timed = 1
waits Sender.wait = 1
waits _ = 0

abbrev pub owes : Receiver → ℕ
owes Receiver.got = 1
owes Receiver.answer = 1
owes _ = 0

-- Whether a message has been sent and not yet measured.
abbrev pub flies : Pair → Bool
flies s = elim s.receiver [ Receiver.got ↦ true | _ ↦ s.testmq ]

-- The pair `s` stands for the exchange `x`.
pub record Stands (s : Pair) (x : Exchange) : Type 0 where
  pub token : waits s.sender ≡ one s.testmq + owes s.receiver + one s.syncmq
  pub no_timed : s.sender ≢ Sender.timed
  pub turn : x.turn ≡ (if flies s then flying s.sent else idle)
  pub sender_samples : s.sender_samples ≡ length x.results + one (flies s)
  pub measured : s.measured ≡ measured_of x.results
  pub samples : s.measured.samples ≡ length x.results

-- The times that the sender takes at the head of its loop, and the receiver behind its call.
abbrev pub sends : {set : Settings} {s s' : Pair} → Move set s s' → List Timeval
sends (Move.sender_enter t p q) = t ∷ []
sends _ = []

abbrev pub gets : {set : Settings} {s s' : Pair} → Move set s s' → List Timeval
gets (Move.receiver_get t p q) = t ∷ []
gets _ = []

-- Those of a whole run, the last first.
abbrev pub sent_times : {set : Settings} {t : Timeval} {s : Pair} → Reach set t s → List Timeval
sent_times here = []
sent_times (next r m) = sends m ++ sent_times r

abbrev pub got_times : {set : Settings} {t : Timeval} {s : Pair} → Reach set t s → List Timeval
got_times here = []
got_times (next r m) = gets m ++ got_times r

-- The two sides of the results.
abbrev pub senders : List (Timeval × Timeval) → List Timeval
senders [] = []
senders ((sent, received) ∷ rs) = sent ∷ senders rs

abbrev pub receivers : List (Timeval × Timeval) → List Timeval
receivers [] = []
receivers ((sent, received) ∷ rs) = received ∷ receivers rs

-- Whether the time of a message is taken and not yet measured, on either side.
abbrev pub is_sent : Pair → Bool
is_sent s = elim s.sender [ Sender.put ↦ true | _ ↦ flies s ]

abbrev pub is_got : Pair → Bool
is_got s = elim s.receiver [ Receiver.got ↦ true | _ ↦ false ]

-- The results hold the times ss of the sender and gs of the receiver in their order, but for those of
-- the message under way.
pub record Timed (ss gs : List Timeval) (s : Pair) (x : Exchange) : Type 0 where
  pub sent : ss ≡ (if is_sent s then s.sent ∷ [] else []) ++ senders x.results
  pub got : gs ≡ (if is_got s then s.received ∷ [] else []) ++ receivers x.results

-- What a move comes to: nothing, or a turn.
abbrev pub Follows : Exchange → Pair → List Timeval → List Timeval → Type 0
Follows x s ss gs = (y : Exchange) × ((y ≡ x) ⊎ Turns x y) × Stands s y × Timed ss gs s y

module _ (set : Settings) (no_timeout : set.timeout ≡ pos 0) where
  Move-Stands :
      {s s' : Pair} {x : Exchange} (ss gs : List Timeval) (m : Move set s s')
      → Stands s x
      → Timed ss gs s x
      → Follows x s' (sends m ++ ss) (gets m ++ gs)
  unfolding after_send measure note_diff
  Move-Stands {s} {s'} {x} ss gs (Move.sender_enter t p q) v w =
      (x, inl refl, ground arith, ground arith)
  Move-Stands {s} {s'} {x} ss gs (Move.sender_leave p q) v w =
      (x, inl refl, ground arith, ground arith)
  Move-Stands {s} {s'} {x} ss gs (Move.sender_put p q) v w = (
    record x { turn = flying s.sent },
    inr (Turns.send s.sent (ground arith)),
    ground arith,
    ground arith,
  )
  Move-Stands {s} {s'} {x} ss gs (Move.sender_timed p q) v w = absurd (v.no_timed p)
  Move-Stands {s} {s'} {x} ss gs (Move.sender_wait p q) v w =
      (x, inl refl, ground arith, ground arith)
  Move-Stands {s} {s'} {x} ss gs (Move.receiver_enter p q) v w =
      (x, inl refl, ground arith, ground arith)
  Move-Stands {s} {s'} {x} ss gs (Move.receiver_leave p q) v w =
      (x, inl refl, ground arith, ground arith)
  Move-Stands {s} {s'} {x} ss gs (Move.receiver_get t p q) v w =
      (x, inl refl, ground arith, ground arith)
  Move-Stands {s} {s'} {x} ss gs (Move.receiver_measure p) v w = (
    record { turn = idle; results = (s.sent, s.received) ∷ x.results },
    inr (Turns.receive s.sent s.received (ground arith)),
    ground arith,
    ground arith,
  )
  Move-Stands {s} {s'} {x} ss gs (Move.receiver_put p q) v w =
      (x, inl refl, ground arith, ground arith)
  Move-Stands {s} {s'} {x} ss gs Move.stop v w = (x, inl refl, ground arith, ground arith)

start-Stands : (t : Timeval) → Stands (start t) (record { turn = idle; results = [] })
start-Stands t = ground arith

-- Without a timeout, every state that a pair of pmqtest reaches when no call fails stands for an
-- exchange that its turns reach: as many samples as results, the statistics those of the results, and
-- the sender's count ahead by the message in flight, if there is one. The results hold, in order, the
-- times that the sender took in this run and those that the receiver took, each result those of one
-- round, but for the times of a message that is not measured yet.
pub pmqtest_turns :
    (set : Settings) (t : Timeval) {s : Pair}
    → set.timeout ≡ pos 0
    → (r : Reach set t s)
    → (x : Exchange) × Reaches x × Stands s x × Timed (sent_times r) (got_times r) s x
pmqtest_turns set t no_timeout here =
    (_, Exchange.here, start-Stands t, record { sent = refl; got = refl })
pmqtest_turns set t no_timeout (next {s' = s'} r m) =
    let (x, q, v, k) = pmqtest_turns set t no_timeout r in
    let (y, e, w, l) = Move-Stands set no_timeout (sent_times r) (got_times r) m v k in
    elim e [
      | inl same ↦ (
        x,
        q,
        subst (Stands s') same w,
        subst (Timed (sends m ++ sent_times r) (gets m ++ got_times r) s') same l,
      )
      | inr turn ↦ (y, Exchange.next q turn, w, l)
    ]
