-- ===== src/Pair/Exchange.antt =====
-- The contract of a pair: messages are sent and received in turns, and each result is a message's own
-- two times.
use rt_tests.Base.{◌≡◌, List, [], ◌∷◌}
use rt_tests.Pair.{Timeval, Measured, unmeasured, note_diff}

-- `flying t`: a message sent at t has not been received.
pub data Turn : Type 0 where
  idle : Turn
  flying : Timeval → Turn

-- The results are pairs of the time of sending and that of receipt, the last one first.
pub record Exchange : Type 0 where
  pub turn : Turn
  pub results : List (Timeval × Timeval)

pub data Turns (x : Exchange) : Exchange → Type 0 where
  send : (t : Timeval) → x.turn ≡ idle → Turns x (record x { turn = flying t })
  receive :
      (sent t : Timeval)
      → x.turn ≡ flying sent
      → Turns x (record { turn = idle; results = (sent, t) ∷ x.results })

pub data Reaches : Exchange → Type 0 where
  here : Reaches (record { turn = idle; results = [] })
  next : {x y : Exchange} → Reaches x → Turns x y → Reaches y

-- The statistics of the results.
abbrev pub measured_of : List (Timeval × Timeval) → Measured
measured_of [] = unmeasured
measured_of ((sent, received) ∷ rs) = note_diff received sent (measured_of rs)
