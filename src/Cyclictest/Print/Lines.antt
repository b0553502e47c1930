-- ===== src/Cyclictest/Print/Lines.antt =====
-- What the verbose mode prints with `-o 1`, the default, is each latency with its round.
use rt_tests.Base.{
  Bool-cases, inl, inr, ℕ, zero, suc, ◌+◌, ◌-◌, ◌%◌, ◌≤◌, ◌<◌, ◌≡◌, ◌^◌, refl, List, [], ◌∷◌, ◌++◌,
  arith, length, get_or, ◌==◌, ap, ap₂, ◌∙◌,
}
use rt_tests.Base.Int.{pos}
use rt_tests.Base.Word.{sub64, to_long}
use rt_tests.Cyclictest.Stat.{ThreadStat, valbuf_size, note_all}
use rt_tests.Cyclictest.Stat.Ring.{reads, unread, InRing, note_all-unread_from}
use rt_tests.Cyclictest.Print.{Line, note_redmax, emit, print_loop, print_stat}

-- One line for each value, the rounds counted from c.
abbrev pub numbered : ℕ → ℕ → List ℕ → List Line
numbered index c [] = []
numbered index c (v ∷ vs) =
    record { index = index; cycle = c; latency = pos v } ∷ numbered index (c + 1) vs

-- Latencies of at least 1 that a long holds.
abbrev pub AllPositive : List ℕ → Type 0
AllPositive [] = Unit
AllPositive (v ∷ vs) = (0 < v) × (v < 2 ^ 63) × AllPositive vs

-- The reader stands at the start of a line.
pub record IsReady (stat : ThreadStat) : Type 0 where
  pub no_reduce : stat.reduce ≡ 0
  pub no_redmax : stat.redmax ≡ pos 0

-- The block after one value with `oscope` 1.
abbrev read_one : ThreadStat → ThreadStat
read_one stat = record stat {
  cycleofmax = stat.cyclesread;
  reduce = 0;
  redmax = pos 0;
  cyclesread = stat.cyclesread + 1;
}

emit_one :
    (index v : ℕ) (stat : ThreadStat)
    → IsReady stat
    → (0 < v) × (v < 2 ^ 63)
    → stat.cyclesread + 1 < 2 ^ 64
    → emit 1 index (note_redmax (to_long v) stat)
      ≡ (record { index = index; cycle = stat.cyclesread; latency = pos v } ∷ [], read_one stat)
unfolding emit note_redmax to_long
emit_one index v stat r p few = ground (arith, r.no_reduce, r.no_redmax)

-- The mask of the verbose mode, VALBUF_SIZE - 1.
abbrev pub verbose_mask : ℕ
verbose_mask = valbuf_size - 1

module _ (index : ℕ) where
  print_loop-lines :
      (n : ℕ) (stat : ThreadStat)
      → stat.cyclesread + n ≡ stat.cycles
      → stat.cycles + 1 < 2 ^ 64
      → IsReady stat
      → AllPositive (reads stat.values stat.cyclesread n)
      → let (lines, stat') = print_loop 1 index verbose_mask n stat in
        (lines ≡ numbered index stat.cyclesread (reads stat.values stat.cyclesread n))
        × (stat'.cyclesread ≡ stat.cycles)
        × IsReady stat'
  unfolding print_loop
  print_loop-lines zero stat e few r p = (refl, omega arith, r)
  print_loop-lines (suc n) stat e few r p = elim (Bool-cases (stat.cycles == stat.cyclesread)) [
    | inl q ↦ absurd (ground arith)
    | inr q ↦
        let one =
          emit_one index (get_or stat.values (stat.cyclesread % valbuf_size) 0) stat r (p.0, p.1)
            (omega arith) in
        let line : Line = record {
          index = index;
          cycle = stat.cyclesread;
          latency = pos (get_or stat.values (stat.cyclesread % valbuf_size) 0);
        } in
        let ih =
          print_loop-lines n (read_one stat) (omega arith) few
            (record { no_reduce = refl; no_redmax = refl }) p.2 in
        rw q (rw one (ap (λ l. line ∷ l) ih.0, ih.1, ih.2))
  ]

  print_stat-lines :
      (stat : ThreadStat)
      → InRing stat
      → stat.cycles + 1 < 2 ^ 64
      → IsReady stat
      → AllPositive (unread stat)
      → let (lines, stat') = print_stat 1 index verbose_mask stat in
        (lines ≡ numbered index stat.cyclesread (unread stat))
        × (stat'.cyclesread ≡ stat.cycles)
        × IsReady stat'
  unfolding print_stat
  print_stat-lines stat r few ready p =
      let n : sub64 stat.cycles stat.cyclesread ≡ stat.cycles - stat.cyclesread = omega arith in
      rw n (print_loop-lines (stat.cycles - stat.cyclesread) stat (omega arith) few ready p)

-- From a ring whose unread rounds all fit and were read up to the start of a line, and where the rounds
-- counted with the further latencies are at most valbuf_size, 16384, ahead of cyclesread and below
-- 2 ^ 64 - 1, those latencies and the unread ones, all at least 1 and below 2 ^ 63, are printed by the
-- next verbose print_stat with reduction 1 as one line each, in order; the reader has then read every
-- round and is ready.
pub print_stat-note_all :
    (index histogram : ℕ) (diffs : List ℕ) (stat : ThreadStat)
    → InRing stat
    → IsReady stat
    → stat.cycles + length diffs ≤ stat.cyclesread + valbuf_size
    → stat.cycles + length diffs + 1 < 2 ^ 64
    → AllPositive (unread stat ++ diffs)
    → let (lines, stat') =
        print_stat 1 index verbose_mask (note_all histogram verbose_mask diffs stat) in
      (lines ≡ numbered index stat.cyclesread (unread stat ++ diffs))
      × (stat'.cyclesread ≡ stat.cycles + length diffs)
      × IsReady stat'
print_stat-note_all index histogram diffs stat r ready near few p =
    let (r', u, c, d, e, g) =
      note_all-unread_from histogram verbose_mask refl diffs stat r near (omega arith) in
    let ready' : IsReady (note_all histogram verbose_mask diffs stat) = record {
      no_reduce = e ∙ ready.no_reduce;
      no_redmax = g ∙ ready.no_redmax;
    } in
    let q =
      print_stat-lines index (note_all histogram verbose_mask diffs stat) r' (omega arith) ready'
        (rw u p) in
    (q.0 ∙ ap₂ (numbered index) d u, q.1 ∙ c, q.2)
