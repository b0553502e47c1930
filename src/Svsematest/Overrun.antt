-- ===== src/Svsematest/Overrun.antt =====
-- How far the sender and the receiver of a pair of svsematest can run apart.
use rt_tests.Base.{ℕ, zero, suc, ◌+◌, ◌≤◌, ◌≡◌, refl, arith}
use rt_tests.Base.Int.{pos}
use rt_tests.Pair.{Timeval, Measured, unmeasured, note_diff, is_last, is_traced}
use rt_tests.Svsematest.{
  Settings, Sender, Receiver, Pair, unlock_sender, measure, Move, Reach, here, next, start,
}

abbrev waits : Sender → ℕ
waits Sender.wait_receiver = 1
waits _ = 0

abbrev answers : Receiver → ℕ
answers Receiver.answer = 1
answers _ = 0

-- Every sample of the receiver is an answer to come, one that is there, or one that the sender took.
abbrev Counts : Pair → Type 0
Counts s =
    s.sender_samples + s.wait_for_receiver + answers s.receiver
    ≡ s.measured.samples + waits s.sender

Move-Counts : (set : Settings) {s s' : Pair} → Move set s s' → Counts s → Counts s'
unfolding unlock_sender measure note_diff
Move-Counts set {s} (Move.sender_enter t p q) v = ground arith
Move-Counts set {s} (Move.sender_leave p q) v = ground arith
Move-Counts set {s} (Move.sender_unlock p) v = ground arith
Move-Counts set {s} (Move.sender_receiver n p q) v = ground arith
Move-Counts set {s} (Move.sender_sender n p q) v = ground arith
Move-Counts set {s} (Move.receiver_enter p q) v = ground arith
Move-Counts set {s} (Move.receiver_leave p q) v = ground arith
Move-Counts set {s} (Move.receiver_lock n t p q) v = ground arith
Move-Counts set {s} (Move.receiver_measure p) v = ground arith
Move-Counts set {s} (Move.receiver_answer p) v = ground arith
Move-Counts set {s} (Move.receiver_again p) v = ground arith
Move-Counts set {s} Move.stop v = v

Reach-Counts : (set : Settings) (t : Timeval) {s : Pair} → Reach set t s → Counts s
Reach-Counts set t here = refl
Reach-Counts set t (next r m) = Move-Counts set m (Reach-Counts set t r)

-- The sender is never more than one sample ahead of the receiver.
sender_near :
    (set : Settings) (t : Timeval) {s : Pair}
    → Reach set t s
    → s.sender_samples ≤ s.measured.samples + 1
sender_near set t {s} r = let v = Reach-Counts set t r in ground arith

abbrev pub endless : Settings
endless = record { max_cycles = pos 0; tracelimit = pos 0 }

abbrev repeated : ℕ → Timeval → Measured
repeated zero t = unmeasured
repeated (suc n) t = note_diff t t (repeated n t)

-- The sender has sent once and has not yet got to its semop; the receiver is at the head of its loop.
abbrev overrun : ℕ → Timeval → Pair
overrun n t = record (start t) {
  sender = Sender.wait_receiver;
  sender_samples = 1;
  measured = repeated n t;
  wait_for_sender = 1;
  wait_for_receiver = n;
}

samples-repeated : (n : ℕ) (t : Timeval) → (repeated n t).samples ≡ n
unfolding note_diff
samples-repeated zero t = refl
samples-repeated (suc n) t = omega (arith, samples-repeated n t)

overrun-Reach : (n : ℕ) (t : Timeval) → Reach endless t (overrun n t)
unfolding unlock_sender measure is_last is_traced
overrun-Reach zero t = next (next here (Move.sender_enter t refl refl)) (Move.sender_unlock refl)
overrun-Reach (suc n) t =
    next
      (next
        (next
          (next (next (overrun-Reach n t) (Move.receiver_enter refl refl))
            (Move.receiver_lock 0 t refl refl))
          (Move.receiver_measure refl))
        (Move.receiver_answer refl))
      (Move.receiver_again refl)

-- The receiver can run ahead without bound: SEM_WAIT_FOR_SENDER, which it unlocks at the end of its
-- round for the sender, it can lock itself at the start of the next. For every n there is a run in
-- which the sender has sent once and the receiver has counted n samples.
pub receiver_overruns :
    (n : ℕ) (t : Timeval)
    → (s : Pair) × Reach endless t s × (s.sender_samples ≡ 1) × (s.measured.samples ≡ n)
receiver_overruns n t = (overrun n t, overrun-Reach n t, refl, samples-repeated n t)
