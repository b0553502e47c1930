-- ===== src/Cyclictest/Kernvar/Restore.antt =====
-- restorekernvars undoes the writes of setkernvar.
use rt_tests.Base.{ℕ, ◌<◌, ◌≡◌, ◌≢◌, ◌↔◌, ◌⊎◌, Bool, true, false, some, List, [], ◌∷◌, ◌++◌, length}
use rt_tests.Cyclictest.Kernvar.Backup.{Packed, Holds, Has}
use rt_tests.Cyclictest.Kernvar.{Files, Slots, kvaluelen, kvarnamelen, too_long}

module _ {State : Type 0} (files : Files State) (strcmp_eq : List ℕ → List ℕ → Bool)
    (strcmp_lem : (a b : List ℕ) → (strcmp_eq a b ≡ true) ↔ (a ≡ b)) (name old : List ℕ)
    (name_short : length name < kvarnamelen) (short : too_long files strcmp_eq name ≡ false)
    (old_short : length old < kvaluelen)
    (name_set : (s : State) (v : List ℕ)
      → files.read (files.write s name v) name ≡ some (v ++ (b'\n' ∷ [])))
    (name_kept : (s : State) (m v : List ℕ)
      → m ≢ name
      → files.read (files.write s m v) name ≡ files.read s name) where
  -- `name` reads as it did at the start.
  abbrev Untouched : State → Type 0
  Untouched s = files.read s name ≡ some (old ++ (b'\n' ∷ []))

  -- The state of a run: the entries of `name` are right, and while it has none it is untouched, or
  -- there is no free entry.
  abbrev Inv : State × Slots → Type 0
  Inv (s, kv) = Packed kv × Holds name old kv × (Has name kv ⊎ Untouched s)

  abbrev Kept : Slots → Type 0
  Kept kv = Packed kv × Holds name old kv × Has name kv
