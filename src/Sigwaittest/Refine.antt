-- ===== src/Sigwaittest/Refine.antt =====
-- A pair of sigwaittest keeps the contract of Exchange.
use rt_tests.Base.{ℕ, ◌+◌, ◌≡◌, ◌⊎◌, Bool, true, false, if◌then◌else◌, length}
use rt_tests.Pair.Exchange
use rt_tests.Pair.Exchange.{Turn, idle, flying, Exchange, Turns, measured_of}
use rt_tests.Sigwaittest.{Sender, Receiver, Pair}

abbrev one : Bool → ℕ
one true = 1
one false = 0

-- Whether the sender waits for its answer, and whether the receiver owes one.
abbrev waits : Sender → ℕ
waits Sender.wait = 1
waits _ = 0

abbrev owes : Receiver → ℕ
owes Receiver.got = 1
owes Receiver.answer = 1
owes _ = 0

-- Whether a signal has been sent and not yet measured.
abbrev flies : Pair → Bool
flies s = elim s.receiver [ Receiver.got ↦ true | _ ↦ s.sigusr2 ]

-- The pair `s` stands for the exchange `x`.
pub record Stands (s : Pair) (x : Exchange) : Type 0 where
  token : waits s.sender ≡ one s.sigusr2 + owes s.receiver + one s.sigusr1
  pub turn : x.turn ≡ (if flies s then flying s.unblocked else idle)
  pub sender_samples : s.sender_samples ≡ length x.results + one (flies s)
  pub measured : s.measured ≡ measured_of x.results
  pub samples : s.measured.samples ≡ length x.results

abbrev Follows : Exchange → Pair → Type 0
Follows x s = (y : Exchange) × ((y ≡ x) ⊎ Turns x y) × Stands s y
