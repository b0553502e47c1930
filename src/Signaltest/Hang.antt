-- ===== src/Signaltest/Hang.antt =====
-- How the threads of src/signaltest/signaltest.c can miss the end of the test.
use rt_tests.Base.{
  ℕ, zero, suc, ◌≡◌, ◌⊎◌, inl, inr, refl, true, false, some, [], ◌∷◌, get_elem?, arith, sym, ap,
}
use mathlib.Core.Option.{none-ne-some, some-injective}
use rt_tests.Cyclictest.Time.{Timespec}
use rt_tests.Signaltest.{
  Settings, Stage, Thread, Ring, Move, Reach, here, next, fresh, round, tothread, trips,
}

-- A thread that has passed the first signal on.
abbrev passed : Settings → Timespec → Stage → Thread
passed conf t g = record (fresh conf t) { stage = g; first = false }

-- Thread 0 has left with the signal pending, thread 1 waits for it.
abbrev pub hung : Settings → Timespec → Ring
hung conf t = record {
  threads = passed conf t Stage.done ∷ passed conf t Stage.wait ∷ [];
  pending = true ∷ false ∷ [];
  shutdown = true;
}

hung-Reach : (conf : Settings) (t : Timespec) → Reach conf t 1 (hung conf t)
unfolding round tothread trips
hung-Reach conf t =
    next
      (next
        (next
          (next
            (next
              (next
                (next
                  (next (next here (Move.enter 0 _ refl refl refl))
                    (Move.take 0 _ t refl refl refl))
                  (Move.pass 0 _ t refl refl))
                (Move.enter 1 _ refl refl refl))
              (Move.take 1 _ t refl refl refl))
            (Move.pass 1 _ t refl refl))
          (Move.enter 1 _ refl refl refl))
        Move.stop)
      (Move.leave 0 _ refl refl refl)

hung_thread :
    (conf : Settings) (t : Timespec) (i : ℕ) (x : Thread)
    → get_elem? (hung conf t).threads i ≡ some x
    → (x.stage ≡ Stage.done) ⊎ ((i ≡ 1) × (x.stage ≡ Stage.wait))
hung_thread conf t zero x e = inl (ap (λ y. y.stage) (sym (some-injective _ x e)))
hung_thread conf t (suc zero) x e = inr (refl, ap (λ y. y.stage) (sym (some-injective _ x e)))
hung_thread conf t (suc (suc i)) x e = absurd (none-ne-some x e)

hung-stays :
    (conf : Settings) (t : Timespec) (s : Ring) → Move conf (hung conf t) s → s ≡ hung conf t
hung-stays conf t s (Move.enter i x e g h) = absurd (ground (arith, hung_thread conf t i x e))
hung-stays conf t s (Move.leave i x e g h) = absurd (ground (arith, hung_thread conf t i x e))
hung-stays conf t s (Move.take i x u e g h) = elim (hung_thread conf t i x e) [
  | inl d ↦ absurd (ground arith)
  | inr (d, w) ↦ absurd (ground arith)
]
hung-stays conf t s (Move.pass i x now e g) = absurd (ground (arith, hung_thread conf t i x e))
hung-stays conf t s Move.stop = refl

-- With the default of two threads, whatever the options, signaltest can miss its end: a run leads to a
-- state with `shutdown` set in which thread 1 waits for the signal, and which no step changes.
pub shutdown_hangs :
    (conf : Settings) (t : Timespec)
    → (s : Ring) × Reach conf t 1 s
      × (s.shutdown ≡ true)
      × ((x : Thread) × (get_elem? s.threads 1 ≡ some x) × (x.stage ≡ Stage.wait))
      × ((s' : Ring) → Move conf s s' → s' ≡ s)
shutdown_hangs conf t = (
  hung conf t,
  hung-Reach conf t,
  refl,
  (passed conf t Stage.wait, refl, refl),
  hung-stays conf t,
)
