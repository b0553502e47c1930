-- ===== src/Cyclictest/Stat/Ring.antt =====
-- The ring `values` holds the latencies of the unread rounds, as long as these fit in it.
use rt_tests.Base.{
  get_or-set, sym, ◌∙◌, ℕ, zero, suc, ◌+◌, ◌-◌, ◌%◌, ◌≤◌, ◌<◌, ◌≡◌, ◌^◌, refl, List, [], ◌∷◌, ◌++◌,
  arith, length, get_or, set, length-set, ap, ap₂,
}
use mathlib.Core.List.{append-nil, append_assoc}
use rt_tests.Base.Word.{add64}
use rt_tests.Cyclictest.Stat.{
  ThreadStat, valbuf_size, note_extremes, note_value, note_overflow, note_bucket, note_histogram,
  note_cycle, note_all,
}

-- The values of n rounds from round c on.
abbrev pub reads : List ℕ → ℕ → ℕ → List ℕ
reads values c zero = []
reads values c (suc n) = get_or values (c % valbuf_size) 0 ∷ reads values (c + 1) n

abbrev pub unread : ThreadStat → List ℕ
unread stat = reads stat.values stat.cyclesread (stat.cycles - stat.cyclesread)

-- The ring of a verbose run, with `cyclesread` not ahead and at most the ring's size behind.
pub record InRing (stat : ThreadStat) : Type 0 where
  pub room : length stat.values ≡ valbuf_size
  pub behind : stat.cyclesread ≤ stat.cycles
  pub near : stat.cycles ≤ stat.cyclesread + valbuf_size

-- Writing round c + n reaches just behind the n rounds from c, and not them.
reads-set :
    (values : List ℕ) (v n c k : ℕ)
    → length values ≡ valbuf_size
    → c + n ≡ k
    → n < valbuf_size
    → reads (set values (k % valbuf_size) v) c (suc n) ≡ reads values c n ++ (v ∷ [])
reads-set values v zero c k room e few =
    let g = get_or-set values (k % valbuf_size) (c % valbuf_size) v (omega arith) in
    ap (λ x. x ∷ []) (ground arith)
reads-set values v (suc n) c k room e few =
    let g = get_or-set values (k % valbuf_size) (c % valbuf_size) v (omega arith) in
    ap₂ ◌∷◌ (ground arith) (reads-set values v n (c + 1) k room (omega arith) (omega arith))

module _ (histogram bufmsk : ℕ) (mask : bufmsk ≡ valbuf_size - 1) where
  note_cycle-fields :
      (diff : ℕ) (stat : ThreadStat)
      → let stat' = note_cycle histogram bufmsk diff stat in
        (stat'.values ≡ set stat.values (stat.cycles % valbuf_size) diff)
        × (stat'.cycles ≡ add64 stat.cycles 1)
        × (stat'.cyclesread ≡ stat.cyclesread)
        × (stat'.reduce ≡ stat.reduce)
        × (stat'.redmax ≡ stat.redmax)
  unfolding note_cycle note_histogram note_overflow note_bucket note_value note_extremes
  note_cycle-fields diff stat = ground arith

  pub note_cycle-unread :
      (diff : ℕ) (stat : ThreadStat)
      → InRing stat
      → stat.cycles < stat.cyclesread + valbuf_size
      → stat.cycles + 1 < 2 ^ 64
      → let stat' = note_cycle histogram bufmsk diff stat in
        InRing stat' × (unread stat' ≡ unread stat ++ (diff ∷ []))
  note_cycle-unread diff stat r near few =
      let f = note_cycle-fields diff stat in
      let e =
        reads-set stat.values diff (stat.cycles - stat.cyclesread) stat.cyclesread stat.cycles
          r.room (omega arith) (omega arith) in
      let l = length-set stat.values (stat.cycles % valbuf_size) diff in
      let n : (note_cycle histogram bufmsk diff stat).cycles - stat.cyclesread
          ≡ suc (stat.cycles - stat.cyclesread) =
        omega arith in
      (record { room = ground arith; behind = omega arith; near = omega arith }, rw (f.0, f.2, n) e)

  pub note_all-unread_from :
      (diffs : List ℕ) (stat : ThreadStat)
      → InRing stat
      → stat.cycles + length diffs ≤ stat.cyclesread + valbuf_size
      → stat.cycles + length diffs < 2 ^ 64
      → let stat' = note_all histogram bufmsk diffs stat in
        InRing stat'
        × (unread stat' ≡ unread stat ++ diffs)
        × (stat'.cycles ≡ stat.cycles + length diffs)
        × (stat'.cyclesread ≡ stat.cyclesread)
        × (stat'.reduce ≡ stat.reduce)
        × (stat'.redmax ≡ stat.redmax)
  unfolding note_all
  note_all-unread_from [] stat r near few =
      (r, sym (append-nil (unread stat)), omega arith, refl, refl, refl)
  note_all-unread_from (diff ∷ diffs) stat r near few =
      let stat' : ThreadStat = note_cycle histogram bufmsk diff stat in
      let f = note_cycle-fields diff stat in
      let u = note_cycle-unread diff stat r (omega arith) (omega arith) in
      let (r'', u'', c'', d'', e'', g'') =
        note_all-unread_from diffs stat' u.0 (omega arith) (omega arith) in
      (
        r'',
        u'' ∙ ap (λ l. l ++ diffs) u.1 ∙ append_assoc (unread stat) (diff ∷ []) diffs,
        omega arith,
        d'' ∙ f.2,
        e'' ∙ f.3,
        g'' ∙ f.4,
      )
