-- ===== src/Sendme.antt =====
-- main of src/backfire/sendme.c: it writes a signal's number to the driver of Backfire, waits for the
-- signal, and reads back when the driver sent it. A round is given by the three times that the clock
-- gives in it. Writing and reading the device do not fail, the driver's bytes arrive as they are, and
-- no SIGINT or SIGTERM comes.
pub mod Rounds
mod Tests
use rt_tests.Base.{
  ℕ, ◌+◌, ◌-◌, ◌^◌, ◌≡◌, Bool, true, false, ◌&&◌, ◌||◌, not, Option, none, some, ◌>>=◌, List, [],
  ◌∷◌, ltb, leb, ◌==◌, if◌then◌else◌,
}
use rt_tests.Base.Int.{ℤ, pos, negsuc, eqb_ℤ, ltb_ℤ}
use rt_tests.Base.Word.{low32, to_u64}
use rt_tests.Backfire.{Device, backfire_write, backfire_read}

-- struct timeval; `usec` is below a million.
pub record Clock : Type 0 where
  pub sec : ℕ
  pub usec : ℕ

pub record Settings : Type 0 where
  pub max_cycles : ℤ
  pub tracelimit : ℤ

-- What the clock gives in a round: `before`, the driver's `sendtime`, and the time that the handler of
-- the signal reads; the signal is `late` if it comes only when the loop already looks at `after`.
pub record Times : Type 0 where
  pub before : Clock
  pub sent : Clock
  pub after : Clock
  pub late : Bool

-- mindiff, maxdiff and sumdiff of one way; the double sums whole numbers.
pub record Spread : Type 0 where
  pub mindiff : ℕ
  pub maxdiff : ℕ
  pub sumdiff : ℕ

-- The variables of the loop, with the device and the `after` that the handler sets; `over` when it has
-- left the loop.
pub record State : Type 0 where
  pub device : Device
  pub after : Clock
  pub diffno : ℕ
  pub way_to : Spread
  pub way_from : Spread
  pub shutdown : Bool
  pub over : Bool

-- `tv_usec` of timersub(a, b).
unfoldable pub timersub_usec : Clock → Clock → ℕ
timersub_usec a b = if ltb a.usec b.usec then a.usec + 1_000_000 - b.usec else a.usec - b.usec

-- `if (diff.tv_usec < mindiff1) ... sumdiff1 += (double) diff.tv_usec`
unfoldable pub note : ℕ → Spread → Spread
note d s = record {
  mindiff = if ltb d s.mindiff then d else s.mindiff;
  maxdiff = if ltb s.maxdiff d then d else s.maxdiff;
  sumdiff = s.sumdiff + d;
}

-- What sscanf with %lu makes of a number that the driver prints with %d.
unfoldable pub scanned : ℤ × ℤ → Clock
scanned (s, u) = record { sec = to_u64 s; usec = to_u64 u }

-- `max_cycles && diffno >= max_cycles`, in unsigned int.
unfoldable pub is_last : Settings → ℕ → Bool
is_last conf diffno = not (eqb_ℤ conf.max_cycles (pos 0)) && leb (low32 conf.max_cycles) diffno

-- `tracelimit && diff.tv_usec > tracelimit`
unfoldable pub is_traced : Settings → ℕ → Bool
is_traced conf d = not (eqb_ℤ conf.tracelimit (pos 0)) && ltb_ℤ conf.tracelimit (pos d)

-- From `diffno++` to the end of the round.
unfoldable pub measure : Settings → Times → Clock → State → State
measure conf t sendtime s =
    let d = timersub_usec s.after sendtime in
    let shutdown = is_last conf (s.diffno + 1) || s.shutdown in
    record {
      device = s.device;
      after = record s.after { sec = 0 };
      diffno = s.diffno + 1;
      way_to = note (timersub_usec sendtime t.before) s.way_to;
      way_from = note d s.way_from;
      shutdown = shutdown;
      over = is_traced conf d || shutdown;
    }

-- `while (after.tv_sec == 0);`: the `after` that the loop goes on with, where `held` is the one from
-- before the round and the signal has been sent. A late signal finds the loop behind the test where
-- `held` is stale; `none` if the loop goes on for ever.
unfoldable pub await_after : Times → Clock → Option Clock
await_after t held =
    if t.late && not (held.sec == 0)
    then some held
    else if t.after.sec == 0
    then none
    else some t.after

-- A round: `none` if it waits for ever, as no signal comes or its time has the seconds 0. SIGTEST is
-- SIGHUP, 1, and it is written as one digit.
unfoldable pub round : Settings → Times → State → Option State
round conf t s =
    let w =
      backfire_write (some (pos 1)) (record { sec = pos t.sent.sec; usec = pos t.sent.usec }) 1
        s.device in
    elim (w.1) [
      | none ↦ none
      | some signo ↦ await_after t s.after >>= λ a.
          some
            (measure conf t (scanned (backfire_read (w.0))) (record s { device = w.0; after = a }))
    ]

-- The loop, for the times that the clock gives.
unfoldable pub rounds : Settings → List Times → State → Option State
rounds conf [] s = some s
rounds conf (t ∷ ts) s = if s.over then some s else round conf t s >>= rounds conf ts

abbrev pub unmeasured : Spread
unmeasured = record { mindiff = 2 ^ 32 - 1; maxdiff = 0; sumdiff = 0 }

-- The state in front of the loop, on an open device.
abbrev pub start : Device → State
start d = record {
  device = d;
  after = record { sec = 0; usec = 0 };
  diffno = 0;
  way_to = unmeasured;
  way_from = unmeasured;
  shutdown = false;
  over = false;
}
