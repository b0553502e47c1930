-- ===== src/Cyclictest/Kernvar.antt =====
-- The backup of kernel variables in src/cyclictest/cyclictest.c: kernvar, setkernvar and
-- restorekernvars. The kernel's files and strcmp are parameters. Strings are lists of bytes.
pub mod Backup
pub mod Restore
mod Tests
use rt_tests.Base.{
  ℕ, zero, suc, ◌+◌, ◌-◌, ◌<◌, ◌≤◌, ◌≡◌, Bool, true, false, Option, none, some, List, [], ◌∷◌, ◌++◌,
  ltb, length, take, if◌then◌else◌,
}

-- The files below `fileprefix`: what open and read give (none when one of them fails), and the
-- files after an open and a write, which may have failed.
pub record Files (State : Type 0) : Type 1 where
  pub read : State → List ℕ → Option (List ℕ)
  pub write : State → List ℕ → List ℕ → State
  pub prefix_len : ℕ

-- KVARS, KVALUELEN, the size of `filename`, and KVARNAMELEN.
abbrev pub kvars : ℕ
kvars = 32

abbrev pub kvaluelen : ℕ
kvaluelen = 32

abbrev pub filename_size : ℕ
filename_size = 128

abbrev pub kvarnamelen : ℕ
kvarnamelen = 32

-- `kv`: an entry is free while its name is empty.
abbrev pub Slots : Type 0
Slots = List (Option (List ℕ × List ℕ))

module _ {State : Type 0} (files : Files State) (strcmp_eq : List ℕ → List ℕ → Bool) where
  -- `value[got-1] = 0`: all but the last byte read.
  abbrev pub chop : List ℕ → List ℕ
  chop [] = []
  chop (c ∷ []) = []
  chop (c ∷ d ∷ cs) = c ∷ chop (d ∷ cs)

  -- `len_prefix + len_name + 1 > sizeof(filename)`
  abbrev pub too_long : List ℕ → Bool
  too_long name = ltb filename_size (files.prefix_len + length name + 1)

  -- What is made of the bytes that read gives; `none`: kernvar returns 1.
  unfoldable pub read_value : Option (List ℕ) → Option (List ℕ)
  read_value none = none
  read_value (some []) = none
  read_value (some (c ∷ cs)) = some (chop (take kvaluelen (c ∷ cs)))

  -- kernvar(O_RDONLY, name, value, KVALUELEN)
  unfoldable pub kernvar_read : List ℕ → State → Option (List ℕ)
  kernvar_read name s = if too_long name then none else read_value (files.read s name)

  -- kernvar(O_WRONLY, name, value, strlen(value))
  unfoldable pub kernvar_write : List ℕ → List ℕ → State → State
  kernvar_write name value s = if too_long name then s else files.write s name value

  -- What is read from `kv[i].name` after strncpy: a name that fills its 32 bytes has no terminator, so
  -- that it runs on into `kv[i].value`, which stands behind it.
  unfoldable pub stored : List ℕ → List ℕ → List ℕ
  stored name value = if ltb (length name) kvarnamelen then name else take kvarnamelen name ++ value

  -- The loop of setkernvar over `kv`.
  unfoldable pub backup : List ℕ → List ℕ → Slots → Slots
  backup name oldvalue [] = []
  backup name oldvalue (none ∷ kv) = some (stored name oldvalue, oldvalue) ∷ kv
  backup name oldvalue (some (n, v) ∷ kv) =
      let rest = backup name oldvalue kv in
      if strcmp_eq n name then some (n, v) ∷ kv else some (n, v) ∷ rest

  -- What setkernvar does to `kv` before it writes.
  unfoldable pub back_up_read : Option (List ℕ) → List ℕ → Slots → Slots
  back_up_read none name kv = kv
  back_up_read (some oldvalue) name kv = backup name oldvalue kv

  -- `kernelversion < KV_26_33` is the first argument.
  unfoldable pub setkernvar : Bool → List ℕ → List ℕ → State × Slots → State × Slots
  setkernvar is_old name value (s, kv) = (
    kernvar_write name value s,
    (if is_old then back_up_read (kernvar_read name s) name kv else kv),
  )

  unfoldable pub setkernvars : Bool → List (List ℕ × List ℕ) → State × Slots → State × Slots
  setkernvars is_old [] t = t
  setkernvars is_old ((name, value) ∷ calls) t =
      setkernvars is_old calls (setkernvar is_old name value t)

  -- restorekernvars
  unfoldable pub restorekernvars : Slots → State → State
  restorekernvars [] s = s
  restorekernvars (none ∷ kv) s = restorekernvars kv s
  restorekernvars (some (n, v) ∷ kv) s = restorekernvars kv (kernvar_write n v s)
