-- ===== src/Cyclictest/Timer/Notes.antt =====
-- What the loop of timerthread leaves in the statistics, in every mode.
use rt_tests.Base.{
  ℕ, suc, ◌-◌, ◌≤◌, ◌≡◌, ◌≢◌, ◌⊎◌, refl, sym, ◌∙◌, ap, ap₂, true, false, Option, none, some, List,
  [], ◌∷◌, inl, inr, Bool-cases, Option-cases, not, ◌==◌, ◌&&◌, ◌||◌, map, arith, dec_lt,
}
use mathlib.Core.Path.{subst}
use mathlib.Core.Option.{none-ne-some}
use rt_tests.Cyclictest.Time.{Timespec, catch_up, total, nsec_per_sec}
use rt_tests.Cyclictest.Time.Catchup.{catch_up_total}
use rt_tests.Cyclictest.Stat.{note_cycle, note_all}
use rt_tests.Cyclictest.Timer.{
  Settings, ThreadParam, Running, Round, Outcome, again, out, hung, wait_period, latency,
  check_cycles, step_next, end_round, follow, measure, round, rounds,
}
use rt_tests.Cyclictest.Timer.Phase.{noted, noted_lem, end_round_eq, step_next_lem}

-- A reading of the clock with a thousand million nanoseconds or more.
abbrev pub IsOdd : Round → Type 0
IsOdd r = (now : Timespec) × (r.woke ≡ some now) × (nsec_per_sec ≤ now.nsec)

abbrev pub AnyOdd : List Round → Type 0
AnyOdd [] = ⊥
AnyOdd (r ∷ rs) = IsOdd r ⊎ AnyOdd rs

module _ (set : Settings) (par : ThreadParam) (interval stop : Timespec) where
  -- The wake-up time behind a round that was held to `held`.
  abbrev pub caught : Round → Timespec → Timespec → Option Timespec
  caught r now held =
      let next = step_next par interval r held in
      catch_up (suc (total now - total next)) now interval next

  -- A round that is not told to stop: from `next` it waits for `held` and wakes up at `now`, and
  -- leaves `next'`.
  pub record Step (r : Round) (next now held next' : Timespec) : Type 0 where
    pub told_nothing : r.stop_seen ≡ false
    pub waited : wait_period par.mode par.absolute interval r next ≡ some held
    pub woke : r.woke ≡ some now
    pub moved : caught r now held ≡ some next'

  -- Why a round is left before its latency is noted: a signal or another thread, `shutdown` from the
  -- round before, a call that waits, or the clock.
  pub data LeftBy (r : Round) (next : Timespec) (s : Running) : Type 0 where
    by_others : r.stop_seen ≡ true → LeftBy r next s
    by_shutdown : s.shutdown ≢ 0 → LeftBy r next s
    by_wait : wait_period par.mode par.absolute interval r next ≡ none → LeftBy r next s
    by_clock : r.woke ≡ none → LeftBy r next s

  abbrev pub LeftAt : List Round → Timespec → Running → Type 0
  LeftAt [] next s = ⊥
  LeftAt (r ∷ rs) next s = LeftBy r next s

  -- The number of cycles that --loops asks for is reached.
  abbrev pub IsLast : Running → Type 0
  IsLast s = (par.max_cycles ≢ 0) × (par.max_cycles ≡ s.stat.cycles)

  -- The pairs are the clock reading of each of the first rounds and the wake-up time that it was held
  -- to, each found from the one before, up to rounds and a wake-up time as E says.
  abbrev pub Chain :
      (List Round → Timespec → Type 0) → List Round → Timespec → List (Timespec × Timespec) → Type 0
  Chain E rs next [] = E rs next
  Chain E [] next (p ∷ ps) = ⊥
  Chain E (r ∷ rs) next ((now, held) ∷ ps) =
      (next' : Timespec) × Step r next now held next' × Chain E rs next' ps

  abbrev pub latencies : List (Timespec × Timespec) → List ℕ
  latencies = map (λ p. latency set p.0 p.1)

  abbrev pub Notes : (List Round → Timespec → Type 0) → List Round → Running → Running → Type 0
  Notes E rs s s' =
      (ps : List (Timespec × Timespec)) × Chain E rs s.next ps
      × (s'.stat ≡ note_all set.histogram par.bufmsk (latencies ps) s.stat)

  -- What a run notes: a loop that goes on has noted every round; one that is left has noted those up
  -- to its last, or those in front of the one that it is left in; it hangs only for the interval 0 or
  -- an odd reading.
  abbrev pub RunNotes : List Round → Running → Outcome → Type 0
  RunNotes rs s (again s') = Notes (λ rest next. (rest ≡ []) × (s'.next ≡ next)) rs s s'
  RunNotes rs s (out s') =
      Notes (λ rest next. (IsLast s' × (s'.next ≡ next)) ⊎ LeftAt rest next s') rs s s'
  RunNotes rs s hung = (total interval ≡ 0) ⊎ AnyOdd rs

  -- The same of one round.
  abbrev Noted : Round → Running → Running → Type 0
  Noted r s s' =
      (now : Timespec) × (held : Timespec) × Step r s.next now held s'.next
      × (s'.stat ≡ note_cycle set.histogram par.bufmsk (latency set now held) s.stat)

  abbrev RoundNotes : Round → Running → Outcome → Type 0
  RoundNotes r s (again s') = Noted r s s'
  RoundNotes r s (out s') = (Noted r s s' × IsLast s') ⊎ ((s'.stat ≡ s.stat) × LeftBy r s.next s')
  RoundNotes r s hung = (total interval ≡ 0) ⊎ IsOdd r

  check_cycles-notes :
      (r : Round) (s s' : Running) → Noted r s s' → RoundNotes r s (check_cycles par s')
  unfolding check_cycles
  check_cycles-notes r s s' n =
      elim (Bool-cases (not (par.max_cycles == 0) && par.max_cycles == s'.stat.cycles)) [
        | inl e ↦ rw (e, RoundNotes) (inl (n, ((λ z. ground arith), ground arith)))
        | inr e ↦ rw (e, RoundNotes) n
      ]

  -- Only for the interval 0 or an odd reading does the loop that catches up not end.
  caught-none :
      (r : Round) (now held : Timespec)
      → r.woke ≡ some now
      → caught r now held ≡ none
      → (total interval ≡ 0) ⊎ IsOdd r
  caught-none r now held w e = elim (dec_lt 0 (total interval)) [
    | no z ↦ inl (omega arith)
    | yes pi ↦ elim (dec_lt now.nsec nsec_per_sec) [
      | no z ↦ inr (now, w, omega arith)
      | yes nn ↦
          let next = step_next par interval r held in
          let (k, f, nx) = step_next_lem par interval r held in
          let (next', g, c) =
            catch_up_total (suc (total now - total next)) now interval next nn nx pi
              (omega arith) in
          absurd (none-ne-some next' (sym e ∙ g))
    ]
  ]

  end_round-notes :
      (r : Round) (s t : Running)
      → r.stop_seen ≡ false
      → wait_period par.mode par.absolute interval r s.next ≡ some t.next
      → r.woke ≡ some t.now
      → t.stat ≡ note_cycle set.histogram par.bufmsk (latency set t.now t.next) s.stat
      → RoundNotes r s (end_round par interval r t)
  unfolding end_round
  end_round-notes r s t b w k n = elim (Option-cases (caught r t.now t.next)) [
    | inl e ↦ rw (e, end_round, RoundNotes) (caught-none r t.now t.next k e)
    | inr (next, e) ↦ subst (RoundNotes r s) (sym (end_round_eq par interval r t next e)) (
        check_cycles-notes r s (record t { next = next })
          (t.now, t.next, record { told_nothing = b; waited = w; woke = k; moved = e }, n))
  ]

  measure-notes :
      (r : Round) (s t : Running)
      → r.stop_seen ≡ false
      → wait_period par.mode par.absolute interval r s.next ≡ some t.next
      → r.woke ≡ some t.now
      → t.stat ≡ s.stat
      → RoundNotes r s (measure set par interval stop r t)
  unfolding measure
  measure-notes r s t b w k same =
      let diff = latency set t.now t.next in
      let (a, c, d) = noted_lem set par stop diff t in
      end_round-notes r s (noted set par stop diff t) b (w ∙ ap some (sym c)) (k ∙ ap some (sym a))
        (d
          ∙ ap (note_cycle set.histogram par.bufmsk diff) same
          ∙ ap₂ (λ x y. note_cycle set.histogram par.bufmsk (latency set x y) s.stat) (sym a)
              (sym c))

  -- At the head of the loop.
  left_head :
      (r : Round) (s : Running) → r.stop_seen || not (s.shutdown == 0) ≡ true → LeftBy r s.next s
  left_head r s e = elim (Bool-cases r.stop_seen) [
    | inl b ↦ LeftBy.by_others b
    | inr b ↦ LeftBy.by_shutdown (λ z. ground arith)
  ]

  round-notes : (r : Round) (s : Running) → RoundNotes r s (round set par interval stop r s)
  unfolding round
  round-notes r s = elim (Bool-cases (r.stop_seen || not (s.shutdown == 0))) [
    | inl e ↦ rw (e, RoundNotes, round) (inr (refl, left_head r s e))
    | inr e ↦ elim (Option-cases (wait_period par.mode par.absolute interval r s.next)) [
      | inl w ↦ rw (e, w, RoundNotes, round) (inr (refl, LeftBy.by_wait w))
      | inr (next, w) ↦ elim (Option-cases r.woke) [
        | inl k ↦ rw (e, w, k, RoundNotes, round) (inr (refl, LeftBy.by_clock k))
        | inr (now, k) ↦
            rw (e, w, k, RoundNotes, round)
              (measure-notes r s (record s { next = next; now = now }) (ground arith) w k refl)
      ]
    ]
  ]

  -- A noted round in front of what follows it.
  Noted-RunNotes :
      (r : Round) (rs : List Round) (s s1 : Running) (o : Outcome)
      → Noted r s s1
      → RunNotes rs s1 o
      → RunNotes (r ∷ rs) s o
  unfolding note_all
  Noted-RunNotes r rs s s1 (again s') (now, held, st, e) (ps, c, f) = (
    (now, held) ∷ ps,
    (s1.next, st, c),
    f ∙ ap (note_all set.histogram par.bufmsk (latencies ps)) e,
  )
  Noted-RunNotes r rs s s1 (out s') (now, held, st, e) (ps, c, f) = (
    (now, held) ∷ ps,
    (s1.next, st, c),
    f ∙ ap (note_all set.histogram par.bufmsk (latencies ps)) e,
  )
  Noted-RunNotes r rs s s1 hung n (inl z) = inl z
  Noted-RunNotes r rs s s1 hung n (inr u) = inr (inr u)

  follow-notes :
      (r : Round) (rs : List Round) (s : Running) (o : Outcome)
      → RoundNotes r s o
      → ((t : Running) → RunNotes rs t (rounds set par interval stop rs t))
      → RunNotes (r ∷ rs) s (follow (rounds set par interval stop rs) o)
  unfolding follow note_all
  follow-notes r rs s (again t) n more = Noted-RunNotes r rs s t _ n (more t)
  follow-notes r rs s (out t) (inl ((now, held, st, e), last)) more =
      ((now, held) ∷ [], (t.next, st, inl (last, refl)), e)
  follow-notes r rs s (out t) (inr (e, left)) more = ([], inr left, e)
  follow-notes r rs s hung (inl z) more = inl z
  follow-notes r rs s hung (inr u) more = inr (inl u)

  -- Whatever the mode and however the loop is left, the statistics are those of a run of note_all over
  -- the latencies of the first rounds, one for each, the difference between that round's own clock
  -- reading and the wake-up time it was held to. That time is the one that wait_period gives from the
  -- `next` of the round before, moved on by step_next and caught up with the round's reading. The
  -- rounds are all of them if the loop goes on; if it is left, those up to the one that reaches the
  -- number of cycles, or up to one that stop_seen, `shutdown`, a wait or the clock ends. The loop hangs
  -- only if the interval is 0 or a reading has a thousand million nanoseconds or more.
  pub rounds-notes :
      (rs : List Round) (s : Running) → RunNotes rs s (rounds set par interval stop rs s)
  unfolding rounds note_all
  rounds-notes [] s = ([], (refl, refl), refl)
  rounds-notes (r ∷ rs) s =
      follow-notes r rs s (round set par interval stop r s) (round-notes r s) (rounds-notes rs)
