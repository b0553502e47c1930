-- ===== src/Migrate/Check.antt =====
-- check_times against a description of the rows it refuses.
use rt_tests.Base.{
  ℕ, zero, suc, ◌+◌, ◌<◌, ◌≡◌, ◌^◌, ◌⊎◌, ◌↔◌, inl, inr, refl, true, some, List, [], ◌∷◌, arith,
  get_elem?, Bool-cases,
}
use rt_tests.Migrate.{Entry, is_quicker, check_from, check_times}

-- The second task came more than `max_err` later than the first, and made fewer loops, came after
-- the first had ended, or ended more than `max_err` after it.
abbrev pub Quicker : ℕ → Entry → Entry → Type 0
Quicker max_err a b =
    (a.interval + max_err < b.interval)
    × ((b.loops < a.loops) ⊎ (a.len < b.interval) ⊎ (a.len + max_err < b.len))

-- The times fit their type.
pub record Fits (e : Entry) : Type 0 where
  pub interval : e.interval < 2 ^ 64
  pub len : e.len < 2 ^ 64

abbrev pub AllFit : List Entry → Type 0
AllFit [] = Unit
AllFit (e ∷ es) = Fits e × AllFit es

is_quicker_sound :
    (max_err : ℕ) (a b : Entry)
    → Fits a
    → Fits b
    → is_quicker max_err a b ≡ true
    → Quicker max_err a b
unfolding is_quicker
is_quicker_sound max_err a b fa fb h = ground arith

is_quicker_complete :
    (max_err : ℕ) (a b : Entry)
    → Fits a
    → Fits b
    → Quicker max_err a b
    → is_quicker max_err a b ≡ true
unfolding is_quicker
is_quicker_complete max_err a b fa fb q = ground arith

-- Two neighbours in a row of which the second is refused.
pub record Neighbours (max_err : ℕ) (es : List Entry) : Type 0 where
  pub index : ℕ
  pub lower : Entry
  pub higher : Entry
  pub at_lower : get_elem? es index ≡ some lower
  pub at_higher : get_elem? es (suc index) ≡ some higher
  pub quicker : Quicker max_err lower higher

later :
    {max_err : ℕ} {a : Entry} {es : List Entry}
    → Neighbours max_err es
    → Neighbours max_err (a ∷ es)
later n = record {
  index = suc n.index;
  lower = n.lower;
  higher = n.higher;
  at_lower = n.at_lower;
  at_higher = n.at_higher;
  quicker = n.quicker;
}

check_from_sound :
    (max_err : ℕ) (a : Entry) (es : List Entry)
    → Fits a
    → AllFit es
    → check_from max_err a es ≡ true
    → Neighbours max_err (a ∷ es)
unfolding check_from
check_from_sound max_err a [] fa fs h = ground arith
check_from_sound max_err a (b ∷ es) fa (fb, fs) h = elim (Bool-cases (is_quicker max_err a b)) [
  | inl q ↦ record {
    index = 0;
    lower = a;
    higher = b;
    at_lower = refl;
    at_higher = refl;
    quicker = is_quicker_sound max_err a b fa fb q;
  }
  | inr q ↦ later (check_from_sound max_err b es fb fs (ground arith))
]

check_from_complete :
    (max_err : ℕ) (a : Entry) (es : List Entry) (index : ℕ) (lower higher : Entry)
    → Fits a
    → AllFit es
    → get_elem? (a ∷ es) index ≡ some lower
    → get_elem? (a ∷ es) (suc index) ≡ some higher
    → Quicker max_err lower higher
    → check_from max_err a es ≡ true
unfolding check_from
check_from_complete max_err a [] zero lower higher fa fs p q r = ground arith
check_from_complete max_err a [] (suc index) lower higher fa fs p q r = ground arith
check_from_complete max_err a (b ∷ es) zero lower higher fa (fb, fs) p q r =
    ground (arith, is_quicker_complete max_err a b fa fb)
check_from_complete max_err a (b ∷ es) (suc index) lower higher fa (fb, fs) p q r =
    let rest = check_from_complete max_err b es index lower higher fb fs p q r in
    elim (Bool-cases (is_quicker max_err a b)) [ inl t ↦ ground arith | inr t ↦ ground arith ]

-- On times below 2 ^ 64, check_times refuses a row exactly if some task came more than `max_err`
-- later than its predecessor of lower priority, and also made fewer loops than it, came after it
-- had ended, or ended more than `max_err` after it.
pub check_times_iff :
    (max_err : ℕ) (row : List Entry)
    → AllFit row
    → (check_times max_err row ≡ true) ↔ Neighbours max_err row
unfolding check_times
check_times_iff max_err [] fs = (λ h. ground arith, λ n. ground (arith, n.at_lower))
check_times_iff max_err (a ∷ es) (fa, fs) = (
  λ h. check_from_sound max_err a es fa fs h,
  λ n.
      check_from_complete max_err a es n.index n.lower n.higher fa fs n.at_lower n.at_higher
        n.quicker,
)
