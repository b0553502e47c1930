-- ===== src/Hackbench/Pump/Balance.antt =====
-- What a group has written and read: the invariant of its bytes.
use rt_tests.Base.{
  ℕ, zero, suc, ◌+◌, ◌-◌, ◌*◌, ◌<◌, ◌≤◌, ◌≡◌, refl, ap, ◌∙◌, some, List, [], ◌∷◌, ltb, ◌==◌, length,
  get_elem?, set, replicate, if◌then◌else◌, arith, All, All-get, All-set, length-set, lt-get_elem?,
  length-replicate, set-cases, inl, inr,
}
use mathlib.Core.Option.{none-ne-some, some-injective}
use rt_tests.Hackbench.Pump.{
  Settings, Sender, Receiver, Group, num_packets, wrote, took, Step, write, read, start, Reach,
  here, next,
}

-- The bytes that a sender has written to the pipe c, that all have, and that a receiver has read.
abbrev pub bytes_to : Settings → ℕ → Sender → ℕ
bytes_to conf c p =
    p.i * conf.datasize + (if ltb c p.j then conf.datasize else if c == p.j then p.done else 0)

abbrev pub sent : Settings → ℕ → List Sender → ℕ
sent conf c [] = 0
sent conf c (p ∷ ps) = bytes_to conf c p + sent conf c ps

abbrev pub bytes_read : Settings → Receiver → ℕ
bytes_read conf q = q.i * conf.datasize + q.done

-- A sender, and a receiver, within its loops or behind them.
pub record SenderFits (conf : Settings) (p : Sender) : Type 0 where
  pub pipe : p.j < conf.num_fds
  pub part : p.done < conf.datasize
  pub round : p.i ≤ conf.loops
  pub returned : p.i ≡ conf.loops → (p.j ≡ 0) × (p.done ≡ 0)

pub record ReceiverFits (conf : Settings) (q : Receiver) : Type 0 where
  pub part : q.done < conf.datasize
  pub round : q.i ≤ num_packets conf
  pub returned : q.i ≡ num_packets conf → q.done ≡ 0

wrote-SenderFits :
    (conf : Settings) (n : ℕ) (p : Sender)
    → SenderFits conf p
    → p.i < conf.loops
    → p.done + n ≤ conf.datasize
    → SenderFits conf (wrote conf n p)
unfolding wrote
wrote-SenderFits conf n p f l h = record {
  pipe = ground arith;
  part = ground arith;
  round = ground arith;
  returned = ground arith;
}

took-ReceiverFits :
    (conf : Settings) (n : ℕ) (q : Receiver)
    → ReceiverFits conf q
    → q.i < num_packets conf
    → q.done + n ≤ conf.datasize
    → ReceiverFits conf (took conf n q)
unfolding took
took-ReceiverFits conf n q f l h = record {
  part = ground arith;
  round = ground arith;
  returned = ground arith;
}

next_product : (i d : ℕ) → (i + 1) * d ≡ i * d + d
next_product i d = omega arith

bytes_to-wrote :
    (conf : Settings) (n c : ℕ) (p : Sender)
    → SenderFits conf p
    → p.done + n ≤ conf.datasize
    → c < conf.num_fds
    → bytes_to conf c (wrote conf n p) ≡ bytes_to conf c p + (if c == p.j then n else 0)
unfolding wrote
bytes_to-wrote conf n c p f h l = ground (arith, next_product p.i conf.datasize, f)

bytes_read-took :
    (conf : Settings) (n : ℕ) (q : Receiver)
    → ReceiverFits conf q
    → q.done + n ≤ conf.datasize
    → bytes_read conf (took conf n q) ≡ bytes_read conf q + n
unfolding took
bytes_read-took conf n q f h = ground (arith, next_product q.i conf.datasize, f)

-- One sender writes n more bytes to a pipe.
sent-set :
    (conf : Settings) (c k m : ℕ) (ps : List Sender) (p p' : Sender)
    → get_elem? ps k ≡ some p
    → bytes_to conf c p' ≡ bytes_to conf c p + m
    → sent conf c (set ps k p') ≡ sent conf c ps + m
sent-set conf c k m [] p p' e h = absurd (none-ne-some p e)
sent-set conf c zero m (x ∷ ps) p p' e h =
    let q = ap (bytes_to conf c) (some-injective x p e) in omega (arith, q, h)
sent-set conf c (suc k) m (x ∷ ps) p p' e h = omega (arith, sent-set conf c k m ps p p' e h)

-- The balance of every pipe: what was written is in it or read.
pub record IsValid (conf : Settings) (s : Group) : Type 0 where
  pub senders : length s.senders ≡ conf.num_fds
  pub pipes : length s.pipes ≡ conf.num_fds
  pub receivers : length s.receivers ≡ conf.num_fds
  pub senders_fit : All (SenderFits conf) s.senders
  pub receivers_fit : All (ReceiverFits conf) s.receivers
  pub room : All (λ b. b ≤ conf.capacity) s.pipes
  pub balance :
      (c b : ℕ) (q : Receiver)
      → get_elem? s.pipes c ≡ some b
      → get_elem? s.receivers c ≡ some q
      → sent conf c s.senders ≡ b + bytes_read conf q

write-balance :
    (conf : Settings) (s : Group) (k n b : ℕ) (p : Sender)
    → IsValid conf s
    → get_elem? s.senders k ≡ some p
    → get_elem? s.pipes p.j ≡ some b
    → p.done + n ≤ conf.datasize
    → (c b' : ℕ) (q : Receiver) → get_elem? (set s.pipes p.j (b + n)) c ≡ some b'
    → get_elem? s.receivers c ≡ some q
    → sent conf c (set s.senders k (wrote conf n p)) ≡ b' + bytes_read conf q
write-balance conf s k n b p v e f h c b' q g r =
    let fit = All-get (SenderFits conf) s.senders k p v.senders_fit e in
    let below : c < conf.num_fds = omega (arith, lt-get_elem? s.receivers c q r, v.receivers) in
    let w = bytes_to-wrote conf n c p fit h below in
    elim (set-cases s.pipes p.j c (b + n) b' g) [
      | inl (same, value) ↦
          let old = v.balance c b q (rw same f) r in
          let m = sent-set conf c k n s.senders p (wrote conf n p) e (ground (arith, w)) in
          omega (arith, old, m, value)
      | inr (apart, value) ↦
          let old = v.balance c b' q value r in
          let m = sent-set conf c k 0 s.senders p (wrote conf n p) e (ground (arith, w)) in
          omega (arith, old, m)
    ]

read-balance :
    (conf : Settings) (s : Group) (k n b : ℕ) (q : Receiver)
    → IsValid conf s
    → get_elem? s.receivers k ≡ some q
    → get_elem? s.pipes k ≡ some b
    → q.done + n ≤ conf.datasize
    → n ≤ b
    → (c b' : ℕ) (q' : Receiver) → get_elem? (set s.pipes k (b - n)) c ≡ some b'
    → get_elem? (set s.receivers k (took conf n q)) c ≡ some q'
    → sent conf c s.senders ≡ b' + bytes_read conf q'
read-balance conf s k n b q v e f h l c b' q' g r =
    let fit = All-get (ReceiverFits conf) s.receivers k q v.receivers_fit e in
    let t = bytes_read-took conf n q fit h in
    elim (set-cases s.pipes k c (b - n) b' g) [
      | inl (same, value) ↦ elim (set-cases s.receivers k c (took conf n q) q' r) [
        | inl (same', value') ↦
            let old = v.balance c b q (rw same f) (rw same e) in
            omega (arith, old, t, value, ap (bytes_read conf) value')
        | inr (apart', value') ↦ absurd (apart' same)
      ]
      | inr (apart, value) ↦ elim (set-cases s.receivers k c (took conf n q) q' r) [
        | inl (same', value') ↦ absurd (apart same')
        | inr (apart', value') ↦ v.balance c b' q' value value'
      ]
    ]

-- Every step keeps the balance.
Step-IsValid : (conf : Settings) {s s' : Group} → Step conf s s' → IsValid conf s → IsValid conf s'
Step-IsValid conf {s} (write k n b p e l f o h m) v = record {
  senders = length-set s.senders k (wrote conf n p) ∙ v.senders;
  pipes = length-set s.pipes p.j (b + n) ∙ v.pipes;
  receivers = v.receivers;
  senders_fit =
      All-set (SenderFits conf) s.senders k (wrote conf n p) v.senders_fit
        (wrote-SenderFits conf n p (All-get (SenderFits conf) s.senders k p v.senders_fit e) l h);
  receivers_fit = v.receivers_fit;
  room = All-set (λ x. x ≤ conf.capacity) s.pipes p.j (b + n) v.room m;
  balance = write-balance conf s k n b p v e f h;
}
Step-IsValid conf {s} (read k n b q e l f o h m) v = record {
  senders = v.senders;
  pipes = length-set s.pipes k (b - n) ∙ v.pipes;
  receivers = length-set s.receivers k (took conf n q) ∙ v.receivers;
  senders_fit = v.senders_fit;
  receivers_fit = All-set (ReceiverFits conf) s.receivers k (took conf n q) v.receivers_fit (
      took-ReceiverFits conf n q (All-get (ReceiverFits conf) s.receivers k q v.receivers_fit e) l
        h);
  room =
      All-set (λ x. x ≤ conf.capacity) s.pipes k (b - n) v.room
        (omega (arith, All-get (λ x. x ≤ conf.capacity) s.pipes k b v.room f));
  balance = read-balance conf s k n b q v e f h m;
}

All-replicate {ℓ κ} : {A : Type ℓ} (P : A → Type κ) (n : ℕ) (a : A) → P a → All P (replicate n a)
All-replicate P zero a p = tt
All-replicate P (suc n) a p = (p, All-replicate P n a p)

-- What is found in a list of one value.
replicate_get {ℓ} : {A : Type ℓ} (n i : ℕ) (a b : A) → get_elem? (replicate n a) i ≡ some b → a ≡ b
replicate_get zero i a b e = absurd (none-ne-some b e)
replicate_get (suc n) zero a b e = some-injective a b e
replicate_get (suc n) (suc i) a b e = replicate_get n i a b e

sent-start :
    (conf : Settings) (c n : ℕ) → sent conf c (replicate n (record { i = 0; j = 0; done = 0 })) ≡ 0
sent-start conf c zero = refl
sent-start conf c (suc n) = ground (arith, sent-start conf c n)

start-IsValid : (conf : Settings) → 0 < conf.datasize → 0 < conf.num_fds → IsValid conf (start conf)
start-IsValid conf d n = record {
  senders = length-replicate conf.num_fds (record { i = 0; j = 0; done = 0 });
  pipes = length-replicate conf.num_fds 0;
  receivers = length-replicate conf.num_fds (record { i = 0; done = 0 });
  senders_fit =
      All-replicate (SenderFits conf) conf.num_fds (record { i = 0; j = 0; done = 0 })
        (record { pipe = n; part = d; round = omega arith; returned = λ e. (refl, refl) });
  receivers_fit =
      All-replicate (ReceiverFits conf) conf.num_fds (record { i = 0; done = 0 })
        (record { part = d; round = omega arith; returned = λ e. refl });
  room = All-replicate (λ x. x ≤ conf.capacity) conf.num_fds 0 (omega arith);
  balance = λ c b q e f. omega (
    arith,
    sent-start conf c conf.num_fds,
    replicate_get conf.num_fds c 0 b e,
    ap (bytes_read conf) (replicate_get conf.num_fds c (record { i = 0; done = 0 }) q f),
  );
}

pub Reach-IsValid :
    (conf : Settings) {s : Group}
    → 0 < conf.datasize
    → 0 < conf.num_fds
    → Reach conf s
    → IsValid conf s
Reach-IsValid conf d n here = start-IsValid conf d n
Reach-IsValid conf d n (next r st) = Step-IsValid conf st (Reach-IsValid conf d n r)
