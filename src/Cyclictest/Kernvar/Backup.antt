-- ===== src/Cyclictest/Kernvar/Backup.antt =====
-- The entries of `kv` for one variable, under the backup of setkernvar.
use rt_tests.Base.{
  ℕ, suc, ◌+◌, ◌<◌, ◌≤◌, ◌≡◌, ◌↔◌, ◌⊎◌, inl, inr, Bool, true, none, some, List, [], ◌∷◌, arith,
  length, Bool-cases, take, length-take, length-append, ap, ltb,
}
use rt_tests.Cyclictest.Kernvar.{kvarnamelen, stored, Files, Slots, backup}

-- The entries that are taken.
abbrev pub taken : Slots → ℕ
taken [] = 0
taken (none ∷ kv) = taken kv
taken (some e ∷ kv) = suc (taken kv)

-- Taken entries come first.
abbrev pub Packed : Slots → Type 0
Packed [] = Unit
Packed (none ∷ kv) = taken kv ≡ 0
Packed (some e ∷ kv) = Packed kv

-- The entries of `name` hold its old value.
abbrev pub Holds : List ℕ → List ℕ → Slots → Type 0
Holds name old [] = Unit
Holds name old (none ∷ kv) = Holds name old kv
Holds name old (some (n, v) ∷ kv) = (n ≡ name → v ≡ old) × Holds name old kv

abbrev pub Has : List ℕ → Slots → Type 0
Has name [] = ⊥
Has name (none ∷ kv) = Has name kv
Has name (some (n, v) ∷ kv) = (n ≡ name) ⊎ Has name kv

none_taken : (name : List ℕ) (kv : Slots) → taken kv ≡ 0 → ¬ Has name kv
none_taken name [] e h = h
none_taken name (none ∷ kv) e h = none_taken name kv e h
none_taken name (some a ∷ kv) e h = omega arith

none-Packed : (kv : Slots) → taken kv ≡ 0 → Packed kv
none-Packed [] e = ground arith
none-Packed (none ∷ kv) e = e
none-Packed (some a ∷ kv) e = absurd (omega arith)

module _ {State : Type 0} (files : Files State) (strcmp_eq : List ℕ → List ℕ → Bool)
    (strcmp_lem : (a b : List ℕ) → (strcmp_eq a b ≡ true) ↔ (a ≡ b)) (name old : List ℕ)
    (name_short : length name < kvarnamelen) where
  -- Only the variable's own name is stored as it is.
  stored-long :
      (m v : List ℕ) → kvarnamelen ≤ length m → kvarnamelen ≤ length (stored files strcmp_eq m v)
  unfolding stored
  stored-long m v h =
      ground (arith, length-append (take kvarnamelen m) v, length-take kvarnamelen m)

  stored_lem : (m v : List ℕ) → stored files strcmp_eq m v ≡ name → m ≡ name
  unfolding stored
  stored_lem m v e = elim (Bool-cases (ltb (length m) kvarnamelen)) [
    | inl h ↦ ground arith
    | inr h ↦ absurd (omega (arith, stored-long m v (ground arith), ap length e, name_short))
  ]

  stored_own : (v : List ℕ) → stored files strcmp_eq name v ≡ name
  unfolding stored
  stored_own v = ground (arith, name_short)

  pub backup-Holds :
      (m v : List ℕ) (kv : Slots)
      → (m ≡ name → v ≡ old)
      → Holds name old kv
      → Holds name old (backup files strcmp_eq m v kv)
  unfolding backup
  backup-Holds m v [] e h = h
  backup-Holds m v (none ∷ kv) e h = (λ q. e (stored_lem m v q), h)
  backup-Holds m v (some (n, w) ∷ kv) e (a, h) =
      let ih = backup-Holds m v kv e h in
      elim (Bool-cases (strcmp_eq n m)) [ inl t ↦ ground arith | inr t ↦ ground arith ]

  pub backup-Has :
      (m v : List ℕ) (kv : Slots) → Has name kv → Has name (backup files strcmp_eq m v kv)
  unfolding backup
  backup-Has m v [] h = h
  backup-Has m v (none ∷ kv) h = inr h
  backup-Has m v (some (n, w) ∷ kv) h =
      let ih = backup-Has m v kv in
      elim (Bool-cases (strcmp_eq n m)) [ inl t ↦ ground arith | inr t ↦ ground arith ]

  -- With a free entry, the variable is in the table afterwards.
  pub backup-new :
      (v : List ℕ) (kv : Slots) → taken kv < length kv → Has name (backup files strcmp_eq name v kv)
  unfolding backup
  backup-new v [] h = absurd (omega arith)
  backup-new v (none ∷ kv) h = inl (stored_own v)
  backup-new v (some (n, w) ∷ kv) h = elim (Bool-cases (strcmp_eq n name)) [
    | inl t ↦ ground (arith, strcmp_lem n name)
    | inr t ↦ (let ih = backup-new v kv (omega arith) in ground arith)
  ]

  pub backup-taken :
      (m v : List ℕ) (kv : Slots)
      → (taken (backup files strcmp_eq m v kv) ≤ taken kv + 1)
        × (length (backup files strcmp_eq m v kv) ≡ length kv)
  unfolding backup
  backup-taken m v [] = omega arith
  backup-taken m v (none ∷ kv) = omega arith
  backup-taken m v (some (n, w) ∷ kv) =
      let ih = backup-taken m v kv in
      elim (Bool-cases (strcmp_eq n m)) [ inl t ↦ ground arith | inr t ↦ ground arith ]

  -- A variable that is in the table stays there with its old value.
  pub backup-found :
      (v : List ℕ) (kv : Slots)
      → Packed kv
      → Has name kv
      → Holds name old kv
      → Holds name old (backup files strcmp_eq name v kv)
  unfolding backup
  backup-found v [] p a h = h
  backup-found v (none ∷ kv) p a h = absurd (none_taken name kv p a)
  backup-found v (some (n, w) ∷ kv) p a (b, h) = elim (Bool-cases (strcmp_eq n name)) [
    | inl t ↦ ground arith
    | inr t ↦ (let ih = backup-found v kv p in ground (arith, strcmp_lem n name))
  ]

  pub backup-Packed :
      (m v : List ℕ) (kv : Slots) → Packed kv → Packed (backup files strcmp_eq m v kv)
  unfolding backup
  backup-Packed m v [] p = p
  backup-Packed m v (none ∷ kv) p = none-Packed kv p
  backup-Packed m v (some (n, w) ∷ kv) p =
      let ih = backup-Packed m v kv p in
      elim (Bool-cases (strcmp_eq n m)) [ inl t ↦ ground arith | inr t ↦ ground arith ]
