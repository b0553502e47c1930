-- ===== src/Hackbench/Pump/Progress.antt =====
-- A group of hackbench comes to its end, with every message delivered.
use rt_tests.Base.{
  ℕ, suc, ◌+◌, ◌*◌, ◌^◌, ◌<◌, ◌≤◌, ◌≡◌, ◌⊎◌, inl, inr, refl, sym, ap, ◌∙◌, some, List, [], ◌∷◌, ltb,
  length, get_elem?, get_elem?-lt, arith, All, All-get, Bool-cases, lt-get_elem?, get-All,
}
use mathlib.Core.Path.{subst}
use rt_tests.Hackbench.Pump.{
  Settings, Sender, Receiver, Group, num_packets, Step, write, read, Reach,
}
use rt_tests.Hackbench.Pump.Balance.{
  bytes_to, sent, bytes_read, SenderFits, ReceiverFits, IsValid, Reach-IsValid,
}

-- Every thread has returned, and every pipe is empty.
pub record IsDone (conf : Settings) (s : Group) : Type 0 where
  pub senders : All (λ p. p.i ≡ conf.loops) s.senders
  pub receivers : All (λ q. q.i ≡ conf.num_fds * conf.loops) s.receivers
  pub pipes : All (λ b. b ≡ 0) s.pipes

abbrev pub CanStep : Settings → Group → Type 0
CanStep conf s = (s' : Group) × Step conf s s'

find_sender :
    (conf : Settings) (ps : List Sender)
    → All (SenderFits conf) ps
    → All (λ p. p.i ≡ conf.loops) ps
      ⊎ ((k : ℕ) × (p : Sender) × (get_elem? ps k ≡ some p) × (p.i < conf.loops))
find_sender conf [] f = inl tt
find_sender conf (p ∷ ps) (f, fs) = elim (Bool-cases (ltb p.i conf.loops)) [
  | inl t ↦ inr (0, p, refl, ground arith)
  | inr t ↦ elim (find_sender conf ps fs) [
    | inl d ↦ inl (ground (arith, f.round), d)
    | inr (k, q, e, l) ↦ inr (suc k, q, e, l)
  ]
]

find_receiver :
    (conf : Settings) (qs : List Receiver)
    → All (ReceiverFits conf) qs
    → All (λ q. q.i ≡ num_packets conf) qs
      ⊎ ((k : ℕ) × (q : Receiver) × (get_elem? qs k ≡ some q) × (q.i < num_packets conf))
find_receiver conf [] f = inl tt
find_receiver conf (q ∷ qs) (f, fs) = elim (Bool-cases (ltb q.i (num_packets conf))) [
  | inl t ↦ inr (0, q, refl, ground arith)
  | inr t ↦ elim (find_receiver conf qs fs) [
    | inl d ↦ inl (ground (arith, f.round), d)
    | inr (k, r, e, l) ↦ inr (suc k, r, e, l)
  ]
]

product_le : (a b d : ℕ) → a ≤ b → a * d ≤ b * d
product_le a b d h = grind arith

next_product_le : (a b d : ℕ) → a < b → a * d + d ≤ b * d
next_product_le a b d h = omega (arith, product_le (a + 1) b d (omega arith))

bytes_to-returned :
    (conf : Settings) (c : ℕ) (p : Sender)
    → SenderFits conf p
    → p.i ≡ conf.loops
    → bytes_to conf c p ≡ conf.loops * conf.datasize
bytes_to-returned conf c p f e = ground (arith, ap (λ i. i * conf.datasize) e, f.returned e)

bytes_to_le :
    (conf : Settings) (c : ℕ) (p : Sender)
    → SenderFits conf p
    → bytes_to conf c p ≤ conf.loops * conf.datasize
bytes_to_le conf c p f = elim (Bool-cases (ltb p.i conf.loops)) [
  | inl t ↦ ground (arith, f.part, next_product_le p.i conf.loops conf.datasize (ground arith))
  | inr t ↦ omega (arith, bytes_to-returned conf c p f (ground (arith, f.round)))
]

sent_le :
    (conf : Settings) (c : ℕ) (ps : List Sender)
    → All (SenderFits conf) ps
    → sent conf c ps ≤ length ps * (conf.loops * conf.datasize)
sent_le conf c [] f = omega arith
sent_le conf c (p ∷ ps) (f, fs) = omega (arith, bytes_to_le conf c p f, sent_le conf c ps fs)

sent-returned :
    (conf : Settings) (c : ℕ) (ps : List Sender)
    → All (SenderFits conf) ps
    → All (λ p. p.i ≡ conf.loops) ps
    → sent conf c ps ≡ length ps * (conf.loops * conf.datasize)
sent-returned conf c [] f d = omega arith
sent-returned conf c (p ∷ ps) (f, fs) (d, ds) =
    omega (arith, bytes_to-returned conf c p f d, sent-returned conf c ps fs ds)

-- The bytes of a receiver that has returned, and of one that has not.
read_all :
    (conf : Settings) (q : Receiver)
    → ReceiverFits conf q
    → q.i ≡ num_packets conf
    → bytes_read conf q ≡ num_packets conf * conf.datasize
read_all conf q f e = omega (arith, ap (λ i. i * conf.datasize) e, f.returned e)

read_less :
    (conf : Settings) (q : Receiver)
    → ReceiverFits conf q
    → q.i < num_packets conf
    → bytes_read conf q < num_packets conf * conf.datasize
read_less conf q f h = omega (arith, f.part, next_product_le q.i (num_packets conf) conf.datasize h)

mul_assoc : (a b c : ℕ) → a * b * c ≡ a * (b * c)
mul_assoc a b c = omega arith

module _ (conf : Settings) (some_room : 0 < conf.capacity)
    (few : conf.num_fds * conf.loops < 2 ^ 32) (s : Group) (v : IsValid conf s) where
  packets : num_packets conf ≡ conf.num_fds * conf.loops
  packets = omega (arith, few)

  total : num_packets conf * conf.datasize ≡ length s.senders * (conf.loops * conf.datasize)
  total =
      ap (λ n. n * conf.datasize) packets
      ∙ (mul_assoc conf.num_fds conf.loops conf.datasize
          ∙ ap (λ n. n * (conf.loops * conf.datasize)) (sym v.senders))

  -- A receiver with something in its pipe is not done, and can read.
  can_read :
      (k b : ℕ) (q : Receiver)
      → get_elem? s.pipes k ≡ some b
      → get_elem? s.receivers k ≡ some q
      → 0 < b
      → CanStep conf s
  can_read k b q e f h =
      let fit = All-get (ReceiverFits conf) s.receivers k q v.receivers_fit f in
      elim (Bool-cases (ltb q.i (num_packets conf))) [
        | inl t ↦ (_, read k 1 b q f (ground arith) e (omega arith) (omega (arith, fit.part)) h)
        | inr t ↦
            let full = read_all conf q fit (ground (arith, fit.round)) in
            absurd (
              omega
                (arith, full, v.balance k b q e f, total, sent_le conf k s.senders v.senders_fit))
      ]

  -- A sender that has not returned can write, or its pipe is full.
  sender_moves :
      (k : ℕ) (p : Sender) → get_elem? s.senders k ≡ some p → p.i < conf.loops → CanStep conf s
  sender_moves k p e l =
      let fit = All-get (SenderFits conf) s.senders k p v.senders_fit e in
      let (b, f) = get_elem?-lt s.pipes p.j (omega (arith, fit.pipe, v.pipes)) in
      let (q, g) = get_elem?-lt s.receivers p.j (omega (arith, fit.pipe, v.receivers)) in
      elim (Bool-cases (ltb b conf.capacity)) [
        | inl t ↦ (_, write k 1 b p e l f (omega arith) (omega (arith, fit.part)) (ground arith))
        | inr t ↦ can_read p.j b q f g (ground arith)
      ]

  -- When all senders have returned, a receiver that has not finds something in its pipe.
  receiver_moves :
      All (λ p. p.i ≡ conf.loops) s.senders
      → (k : ℕ) (q : Receiver) → get_elem? s.receivers k ≡ some q
      → q.i < num_packets conf
      → CanStep conf s
  receiver_moves d k q e l =
      let fit = All-get (ReceiverFits conf) s.receivers k q v.receivers_fit e in
      let below = lt-get_elem? s.receivers k q e in
      let (b, f) = get_elem?-lt s.pipes k (omega (arith, below, v.pipes, v.receivers)) in
      let all = sent-returned conf k s.senders v.senders_fit d in
      can_read k b q f e (omega (arith, all, total, v.balance k b q f e, read_less conf q fit l))

  -- When all have returned, nothing is left in a pipe.
  pipe_empty :
      All (λ p. p.i ≡ conf.loops) s.senders
      → All (λ q. q.i ≡ num_packets conf) s.receivers
      → (k b : ℕ) → get_elem? s.pipes k ≡ some b
      → b ≡ 0
  pipe_empty d r k b f =
      let below = lt-get_elem? s.pipes k b f in
      let (q, e) = get_elem?-lt s.receivers k (omega (arith, below, v.pipes, v.receivers)) in
      let fit = All-get (ReceiverFits conf) s.receivers k q v.receivers_fit e in
      let full = read_all conf q fit (All-get (λ q. q.i ≡ num_packets conf) s.receivers k q r e) in
      omega
        (arith, full, total, v.balance k b q f e, sent-returned conf k s.senders v.senders_fit d)

  progress_lem : IsDone conf s ⊎ CanStep conf s
  progress_lem = elim (find_sender conf s.senders v.senders_fit) [
    | inr (k, p, e, l) ↦ inr (sender_moves k p e l)
    | inl d ↦ elim (find_receiver conf s.receivers v.receivers_fit) [
      | inr (k, q, e, l) ↦ inr (receiver_moves d k q e l)
      | inl r ↦ inl (record {
        senders = d;
        receivers = subst (λ n. All (λ q. q.i ≡ n) s.receivers) packets r;
        pipes = get-All (λ b. b ≡ 0) s.pipes (pipe_empty d r);
      })
    ]
  ]

-- With pipes that hold a byte or more, and at most 2 ^ 32 - 1 messages for a receiver, a group of
-- hackbench cannot hang: in every reachable state either a sender can write or a receiver read, or
-- all threads have returned, every receiver has its num_fds * loops messages, and every pipe is empty.
pub group_ends :
    (conf : Settings) {s : Group}
    → 0 < conf.datasize
    → 0 < conf.num_fds
    → 0 < conf.capacity
    → conf.num_fds * conf.loops < 2 ^ 32
    → Reach conf s
    → IsDone conf s ⊎ CanStep conf s
group_ends conf {s} d n c few r = progress_lem conf c few s (Reach-IsValid conf d n r)
