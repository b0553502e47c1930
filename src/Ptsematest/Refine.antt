-- ===== src/Ptsematest/Refine.antt =====
-- A pair of ptsematest keeps the contract of Exchange.
use rt_tests.Base.{ℕ, ◌+◌, ◌≡◌, ◌⊎◌, Bool, true, false, if◌then◌else◌, length}
use rt_tests.Pair.Exchange
use rt_tests.Pair.Exchange.{Turn, idle, flying, Exchange, Turns, measured_of}
use rt_tests.Ptsematest.{Sender, Receiver, Pair}

-- Whether a mutex is free, and who stands between locking one and unlocking the other.
abbrev free : Bool → ℕ
free true = 0
free false = 1

abbrev holds : Sender → ℕ
holds Sender.release = 1
holds _ = 0

abbrev owes : Receiver → ℕ
owes Receiver.got = 1
owes Receiver.answer = 1
owes _ = 0

-- Whether a message has been sent and not yet measured.
abbrev flies : Pair → Bool
flies s = elim s.receiver [
  | Receiver.got ↦ true
  | _ ↦ elim s.testmutex [ true ↦ false | false ↦ true ]
]

abbrev flying_count : Pair → ℕ
flying_count s = elim s.receiver [ Receiver.got ↦ 1 | _ ↦ free s.testmutex ]

-- The pair `s` stands for the exchange `x`: of its two mutexes and two threads, one has the turn.
pub record Stands (s : Pair) (x : Exchange) : Type 0 where
  token : free s.syncmutex + holds s.sender + free s.testmutex + owes s.receiver ≡ 1
  pub turn : x.turn ≡ (if flies s then flying s.unblocked else idle)
  pub sender_samples : s.sender_samples ≡ length x.results + flying_count s
  pub measured : s.measured ≡ measured_of x.results
  pub samples : s.measured.samples ≡ length x.results

abbrev Follows : Exchange → Pair → Type 0
Follows x s = (y : Exchange) × ((y ≡ x) ⊎ Turns x y) × Stands s y
