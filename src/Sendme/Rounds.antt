-- ===== src/Sendme/Rounds.antt =====
-- What the rounds of src/backfire/sendme.c measure together with the driver.
use rt_tests.Base.{ℕ, ◌+◌, ◌^◌, ◌<◌, ◌≤◌, ◌≡◌, ◌⊎◌, true, List, [], ◌∷◌, length, take}
use rt_tests.Sendme.{Times, Spread, State, timersub_usec, note}

-- Times whose seconds the driver can print as an int, and that are not those of 1970's first second.
abbrev pub IsPrintable : Times → Type 0
IsPrintable t = (t.sent.sec < 2 ^ 31) × (t.sent.usec < 1_000_000) × (0 < t.after.sec)

-- The latencies of the two ways, and what is made of them.
abbrev pub spread : (Times → ℕ) → List Times → Spread → Spread
spread f [] s = s
spread f (t ∷ ts) s = spread f ts (note (f t) s)

abbrev pub to_driver : Times → ℕ
to_driver t = timersub_usec t.sent t.before

abbrev pub from_driver : Times → ℕ
from_driver t = timersub_usec t.after t.sent

-- The state `s` is the one that the first n of the times lead to from `o`.
pub record Follows (o s : State) (ts : List Times) (n : ℕ) : Type 0 where
  pub within : n ≤ length ts
  pub counted : s.diffno ≡ o.diffno + n
  pub sent : s.way_to ≡ spread to_driver (take n ts) o.way_to
  pub returned : s.way_from ≡ spread from_driver (take n ts) o.way_from
  pub ended : (s.over ≡ true) ⊎ (n ≡ length ts)
