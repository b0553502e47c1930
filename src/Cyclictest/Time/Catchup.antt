-- ===== src/Cyclictest/Time/Catchup.antt =====
-- The catch-up loop at the end of a round of timerthread: `while (tsgreater(&now, &next))`.
use rt_tests.Base.{
  ℕ, zero, suc, ◌+◌, ◌-◌, ◌*◌, ◌≤◌, ◌<◌, ◌≡◌, ◌⊎◌, refl, inl, inr, none, some, arith, Bool-cases,
}
use rt_tests.Cyclictest.Time.{Timespec, tsgreater, advance, catch_up, total, IsNormal}
use rt_tests.Cyclictest.Time.Norm.{advance_lem, tsgreater_iff, tsgreater-false}

-- What the loop has when it ends: a normalised wake-up time, some whole number of intervals after
-- `next`, not before `now`, and less than an interval after `now` if the loop moved it at all.
pub record CaughtUp (now interval next next' : Timespec) : Type 0 where
  pub rounds : ℕ
  pub in_step : total next' ≡ total next + rounds * total interval
  pub normal : IsNormal next'
  pub reached : total now ≤ total next'
  pub nearest : (next' ≡ next) ⊎ (total next' < total now + total interval)

-- One more round: what holds after the rest of the loop holds of the whole.
CaughtUp-next :
    {now interval next next' : Timespec}
    → total next < total now
    → total (advance next interval) ≡ total next + total interval
    → CaughtUp now interval (advance next interval) next'
    → CaughtUp now interval next next'
CaughtUp-next {now} {interval} {next} {next'} late a c = record {
  rounds = suc c.rounds;
  in_step = omega (arith, c.in_step);
  normal = c.normal;
  reached = c.reached;
  nearest = inr (near c.nearest);
}
  where
    near :
        (next' ≡ advance next interval) ⊎ (total next' < total now + total interval)
        → total next' < total now + total interval
    near (inl e) = rw e (omega arith)
    near (inr h) = h

-- From a positive interval the loop ends, on fuel above the distance to now, and its result is as CaughtUp says.
pub catch_up_total :
    (fuel : ℕ) (now interval next : Timespec)
    → IsNormal now
    → IsNormal next
    → 0 < total interval
    → total now - total next < fuel
    → (next' : Timespec) × (catch_up fuel now interval next ≡ some next')
      × CaughtUp now interval next next'
unfolding catch_up
catch_up_total zero now interval next nn nx pi h = absurd (omega arith)
catch_up_total (suc fuel) now interval next nn nx pi h = elim (Bool-cases (tsgreater now next)) [
  | inl late ↦
      let behind = (tsgreater_iff now next nn nx).0 late in
      let a = advance_lem next interval in
      let (next', e, c) =
        catch_up_total fuel now interval (advance next interval) nn a.1 pi (omega arith) in
      (next', rw late e, CaughtUp-next behind a.0 c)
  | inr there ↦ (
    next,
    rw there,
    record {
      rounds = 0;
      in_step = omega arith;
      normal = nx;
      reached = tsgreater-false now next nn nx there;
      nearest = inl refl;
    },
  )
]

-- Where the interval is zero and the wake-up time lies in the past, no fuel ends the loop.
catch_up_stuck :
    (fuel : ℕ) (now interval next : Timespec)
    → IsNormal now
    → IsNormal next
    → total interval ≡ 0
    → total next < total now
    → catch_up fuel now interval next ≡ none
unfolding catch_up
catch_up_stuck zero now interval next nn nx zi h = refl
catch_up_stuck (suc fuel) now interval next nn nx zi h =
    let a = advance_lem next interval in
    rw ((tsgreater_iff now next nn nx).1 h)
      (catch_up_stuck fuel now interval (advance next interval) nn a.1 zi (omega arith))
