-- ===== src/PiStress/Sched/Order.antt =====
-- The attributes that the threads of src/pi_tests/pi_stress.c end up with.
use rt_tests.Base.{
  ℕ, ◌+◌, ◌≡◌, refl, ap, ◌∙◌, Bool, true, false, Option, none, some, ◌>>=◌, bind-some, List, [],
  ◌∷◌, if◌then◌else◌, arith,
}
use rt_tests.Base.Int.{ℤ}
use mathlib.Core.Path.{subst}
use mathlib.Core.Option.{some-injective}
use rt_tests.PiStress.Sched.{
  SchedAttr, Attrs, Line, same, unset, zero_attr, fields, read_pairs, store, process_sched_line,
  process_sched_lines, setup_sched_attr, setup_sched_config,
}

-- The three names that an option may have behind `id=`.
abbrev pub low_id : List ℕ
low_id = b'l' ∷ b'o' ∷ b'w' ∷ []

abbrev pub med_id : List ℕ
med_id = b'm' ∷ b'e' ∷ b'd' ∷ []

abbrev pub high_id : List ℕ
high_id = b'h' ∷ b'i' ∷ b'g' ∷ b'h' ∷ []

-- Is the line one for these threads?
abbrev pub is_for : List ℕ → Option (List ℕ) → Bool
is_for name none = false
is_for name (some id) = same id name

-- The attributes of the last line for the threads of a name, or `default` if there is none.
abbrev pub last_of : List ℕ → SchedAttr → List Line → SchedAttr
last_of name default [] = default
last_of name default (l ∷ ls) = last_of name (if is_for name l.id then l.sa else default) ls

-- What an attribute is, with its bit of sa_initialized, or the one given.
abbrev or_else : Bool → SchedAttr → SchedAttr → SchedAttr
or_else set a default = if set then a else default

-- From `s` to `t` the lines ls were stored, and no other.
record Stored (ls : List Line) (s t : Attrs) : Type 0 where
  low :
      (d : SchedAttr) → or_else t.init_low t.low d ≡ last_of low_id (or_else s.init_low s.low d) ls
  med :
      (d : SchedAttr) → or_else t.init_med t.med d ≡ last_of med_id (or_else s.init_med s.med d) ls
  high :
      (d : SchedAttr)
      → or_else t.init_high t.high d ≡ last_of high_id (or_else s.init_high s.high d) ls

-- What the options leave at 0.
record Kept (s : Attrs) : Type 0 where
  low : s.init_low ≡ false → s.low ≡ zero_attr
  med : s.init_med ≡ false → s.med ≡ zero_attr
  high : s.init_high ≡ false → s.high ≡ zero_attr
  admin : s.admin ≡ zero_attr

low_only :
    (id : List ℕ) → same id low_id ≡ true → (same id med_id ≡ false) × (same id high_id ≡ false)
unfolding same
low_only [] h = ground arith
low_only (a ∷ id) h = ground arith

med_only :
    (id : List ℕ) → same id med_id ≡ true → (same id low_id ≡ false) × (same id high_id ≡ false)
unfolding same
med_only [] h = ground arith
med_only (a ∷ id) h = ground arith

-- The choice that store makes, for the results of its three tests.
abbrev choose : Bool → Bool → Bool → SchedAttr → Attrs → Attrs
choose p q r sa s =
    if p
    then record s { low = sa; init_low = true }
    else if q
    then record s { med = sa; init_med = true }
    else if r
    then record s { high = sa; init_high = true }
    else s

choose-low :
    (p q r : Bool) (sa : SchedAttr) (s : Attrs) (d : SchedAttr)
    → let t = choose p q r sa s in
      or_else t.init_low t.low d ≡ (if p then sa else or_else s.init_low s.low d)
choose-low true q r sa s d = refl
choose-low false true r sa s d = refl
choose-low false false true sa s d = refl
choose-low false false false sa s d = refl

choose-med :
    (p q r : Bool) (sa : SchedAttr) (s : Attrs) (d : SchedAttr)
    → (p ≡ true → q ≡ false)
    → let t = choose p q r sa s in
      or_else t.init_med t.med d ≡ (if q then sa else or_else s.init_med s.med d)
choose-med true true r sa s d h = absurd (ground (arith, h refl))
choose-med true false r sa s d h = refl
choose-med false true r sa s d h = refl
choose-med false false true sa s d h = refl
choose-med false false false sa s d h = refl

choose-high :
    (p q r : Bool) (sa : SchedAttr) (s : Attrs) (d : SchedAttr)
    → (p ≡ true → r ≡ false)
    → (q ≡ true → r ≡ false)
    → let t = choose p q r sa s in
      or_else t.init_high t.high d ≡ (if r then sa else or_else s.init_high s.high d)
choose-high true q true sa s d h k = absurd (ground (arith, h refl))
choose-high true q false sa s d h k = refl
choose-high false true true sa s d h k = absurd (ground (arith, k refl))
choose-high false true false sa s d h k = refl
choose-high false false true sa s d h k = refl
choose-high false false false sa s d h k = refl

-- One line stores its attributes for the threads that it names, and for no others.
store-Stored :
    (id : Option (List ℕ)) (sa : SchedAttr) (s : Attrs)
    → Stored (record { id = id; sa = sa } ∷ []) s (store id sa s)
unfolding store
store-Stored none sa s = record { low = λ d. refl; med = λ d. refl; high = λ d. refl }
store-Stored (some id) sa s = record {
  low = choose-low (same id low_id) (same id med_id) (same id high_id) sa s;
  med = λ d.
      choose-med (same id low_id) (same id med_id) (same id high_id) sa s d
        (λ h. (low_only id h).0);
  high = λ d.
      choose-high (same id low_id) (same id med_id) (same id high_id) sa s d
        (λ h. (low_only id h).1) (λ h. (med_only id h).1);
}

Stored-trans :
    (l : Line) (ls : List Line) (s t u : Attrs)
    → Stored (l ∷ []) s t
    → Stored ls t u
    → Stored (l ∷ ls) s u
Stored-trans l ls s t u a b = record {
  low = λ d. b.low d ∙ ap (λ x. last_of low_id x ls) (a.low d);
  med = λ d. b.med d ∙ ap (λ x. last_of med_id x ls) (a.med d);
  high = λ d. b.high d ∙ ap (λ x. last_of high_id x ls) (a.high d);
}

if-Kept : (b : Bool) (x y : Attrs) → Kept x → Kept y → Kept (if b then x else y)
if-Kept true x y p q = p
if-Kept false x y p q = q

true-ne-false : {A : Type 0} → true ≡ false → A
true-ne-false e = absurd (ground arith)

low-Kept : (sa : SchedAttr) (s : Attrs) → Kept s → Kept (record s { low = sa; init_low = true })
low-Kept sa s k = record { low = true-ne-false; med = k.med; high = k.high; admin = k.admin }

med-Kept : (sa : SchedAttr) (s : Attrs) → Kept s → Kept (record s { med = sa; init_med = true })
med-Kept sa s k = record { low = k.low; med = true-ne-false; high = k.high; admin = k.admin }

high-Kept : (sa : SchedAttr) (s : Attrs) → Kept s → Kept (record s { high = sa; init_high = true })
high-Kept sa s k = record { low = k.low; med = k.med; high = true-ne-false; admin = k.admin }

store-Kept : (id : Option (List ℕ)) (sa : SchedAttr) (s : Attrs) → Kept s → Kept (store id sa s)
unfolding store
store-Kept none sa s k = k
store-Kept (some id) sa s k =
    if-Kept _ _ _ (low-Kept sa s k)
      (if-Kept _ _ _ (med-Kept sa s k) (if-Kept _ _ _ (high-Kept sa s k) k))

unset-Kept : Kept unset
unset-Kept = record { low = λ e. refl; med = λ e. refl; high = λ e. refl; admin = refl }

-- A default is made from attributes that are still 0.
default_or_set :
    (b : Bool) (f : SchedAttr → SchedAttr) (a : SchedAttr)
    → (b ≡ false → a ≡ zero_attr)
    → (if b then a else f a) ≡ or_else b a (f zero_attr)
default_or_set true f a h = refl
default_or_set false f a h = ap f (h refl)

module _ (strtoul : List ℕ → Option ℕ) (strtol : List ℕ → Option ℤ) where
  -- The lines of the options, each read by itself; `none` where a number in one cannot be read.
  abbrev pub lines : List (List ℕ) → Option (List Line)
  lines [] = some []
  lines (arg ∷ args) = do
    l ← read_pairs strtoul strtol (fields arg []) (record { id = none; sa = zero_attr })
    ls ← lines args
    some (l ∷ ls)

  lines-Stored :
      (args : List (List ℕ)) (s t : Attrs)
      → Kept s
      → process_sched_lines strtoul strtol args s ≡ some t
      → (ls : List Line) × (lines args ≡ some ls) × Stored ls s t × Kept t
  unfolding process_sched_lines process_sched_line
  lines-Stored [] s t k e = (
    [],
    refl,
    subst (Stored [] s) (some-injective _ _ e)
        (record { low = λ d. refl; med = λ d. refl; high = λ d. refl }),
    subst Kept (some-injective _ _ e) k,
  )
  lines-Stored (a ∷ args) s t k e =
      let (u, f, g) = bind-some (process_sched_line strtoul strtol a s) e in
      let (l, p, q) = bind-some (read_pairs strtoul strtol (fields a []) _) f in
      let v = some-injective _ _ q in
      let (ls, r, d, k') = lines-Stored args u t (subst Kept v (store-Kept l.id l.sa s k)) g in
      (
        l ∷ ls,
        ap (λ o. o >>= λ l. lines args >>= λ ls. some (l ∷ ls)) p
            ∙ ap (λ o. o >>= λ ls. some (l ∷ ls)) r,
        Stored-trans l ls s u t (subst (Stored (l ∷ []) s) v (store-Stored l.id l.sa s)) d,
        k',
      )

  -- Whatever --sched options pi_stress accepts, each of their arguments can be read as a line of
  -- attributes, and the low, medium and high priority threads have those of the last line with their
  -- name, or if there is none the policy of the command line with nothing else set and the minimal
  -- priority, one more, and two more; the admin threads, for which there is no option, have the policy
  -- and three more.
  pub sched_config :
      (args : List (List ℕ)) (s : Attrs) (policy prio_min : ℕ)
      → process_sched_lines strtoul strtol args unset ≡ some s
      → let t = setup_sched_config policy prio_min s in
        (ls : List Line) × (lines args ≡ some ls)
        × (t.low ≡ last_of low_id (setup_sched_attr policy prio_min zero_attr) ls)
        × (t.med ≡ last_of med_id (setup_sched_attr policy (prio_min + 1) zero_attr) ls)
        × (t.high ≡ last_of high_id (setup_sched_attr policy (prio_min + 2) zero_attr) ls)
        × (t.admin ≡ setup_sched_attr policy (prio_min + 3) zero_attr)
  unfolding setup_sched_config
  sched_config args s policy prio_min e =
      let (ls, r, d, k) = lines-Stored args unset s unset-Kept e in
      (
        ls,
        r,
        default_or_set s.init_low (setup_sched_attr policy prio_min) s.low k.low ∙ d.low _,
        default_or_set s.init_med (setup_sched_attr policy (prio_min + 1)) s.med k.med ∙ d.med _,
        default_or_set s.init_high (setup_sched_attr policy (prio_min + 2)) s.high k.high
            ∙ d.high _,
        ap (setup_sched_attr policy (prio_min + 3)) k.admin,
      )
