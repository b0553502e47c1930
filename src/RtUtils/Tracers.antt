-- ===== src/RtUtils/Tracers.antt =====
-- get_tracers and valid_tracer of src/lib/rt-utils.c, from what the file available_tracers holds.
-- With an empty file the program ends; here that is as with a blank one.
use rt_tests.Base.{
  ℕ, zero, suc, ◌≡◌, ◌↔◌, refl, ap₂, Bool, true, false, ◌&&◌, ◌||◌, Option, none, some, List, [],
  ◌∷◌, ◌++◌, map, length, get_elem?, ◌==◌, if◌then◌else◌, arith, Bool-cases, inl, inr,
}
use mathlib.Core.Path.{subst}
use mathlib.Core.Option.{none-ne-some, some-injective}

-- The delimiters of strtok, " \t\n\r".
unfoldable pub is_delim : ℕ → Bool
is_delim c = (c == b' ') || (c == 9) || (c == 10) || (c == 13)

abbrev pub flush : List ℕ → List (List ℕ) → List (List ℕ)
flush [] ts = ts
flush (c ∷ cs) ts = (c ∷ cs) ∷ ts

-- What the calls of strtok return, `cur` being the token that is under way.
unfoldable pub tokens : List ℕ → List ℕ → List (List ℕ)
tokens [] cur = flush cur []
tokens (c ∷ cs) cur =
    let rest = tokens cs [] in
    let more = tokens cs (cur ++ (c ∷ [])) in if is_delim c then flush cur rest else more

-- tracer_list; the loop stores the first result of strtok even if that is NULL.
abbrev pub or_null : List (List ℕ) → List (Option (List ℕ))
or_null [] = none ∷ []
or_null (t ∷ ts) = map some (t ∷ ts)

unfoldable pub get_tracers : List ℕ → List (Option (List ℕ))
unfolding tokens
get_tracers content = or_null (tokens content [])

-- `strncmp(a, b, n) == 0`
unfoldable pub strncmp_eq : ℕ → List ℕ → List ℕ → Bool
strncmp_eq zero a b = true
strncmp_eq (suc n) [] [] = true
strncmp_eq (suc n) [] (y ∷ b) = false
strncmp_eq (suc n) (x ∷ a) [] = false
strncmp_eq (suc n) (x ∷ a) (y ∷ b) = (x == y) && strncmp_eq n a b

-- The loop of valid_tracer; `none` is a NULL that strlen reads.
unfoldable pub any_tracer : List (Option (List ℕ)) → List ℕ → Option Bool
any_tracer [] name = some false
any_tracer (none ∷ ts) name = none
any_tracer (some t ∷ ts) name =
    let rest = any_tracer ts name in if strncmp_eq (length t) t name then some true else rest

-- valid_tracer; `none` for its argument is NULL.
unfoldable pub valid_tracer : List ℕ → Option (List ℕ) → Option Bool
unfolding get_tracers any_tracer
valid_tracer content none = some false
valid_tracer content (some name) = any_tracer (get_tracers content) name

-- The name begins with the tracer's.
abbrev pub Begins : List ℕ → List ℕ → Type 0
Begins t name = (rest : List ℕ) × (t ++ rest ≡ name)

abbrev pub SomeBegins : List (List ℕ) → List ℕ → Type 0
SomeBegins ts name = (i : ℕ) × (t : List ℕ) × (get_elem? ts i ≡ some t) × Begins t name

strncmp_eq-Begins : (t name : List ℕ) → strncmp_eq (length t) t name ≡ true → Begins t name
unfolding strncmp_eq
strncmp_eq-Begins [] name e = (name, refl)
strncmp_eq-Begins (x ∷ t) [] e = absurd (ground arith)
strncmp_eq-Begins (x ∷ t) (y ∷ name) e =
    let (rest, p) = strncmp_eq-Begins t name (ground arith) in
    (rest, ap₂ (λ c cs. c ∷ cs) (ground arith) p)

Begins-strncmp_eq : (t rest : List ℕ) → strncmp_eq (length t) t (t ++ rest) ≡ true
unfolding strncmp_eq
Begins-strncmp_eq [] rest = refl
Begins-strncmp_eq (x ∷ t) rest = ground (arith, Begins-strncmp_eq t rest)

any_tracer-SomeBegins :
    (ts : List (List ℕ)) (name : List ℕ)
    → any_tracer (map some ts) name ≡ some true
    → SomeBegins ts name
unfolding any_tracer
any_tracer-SomeBegins [] name e = absurd (ground arith)
any_tracer-SomeBegins (t ∷ ts) name e = elim (Bool-cases (strncmp_eq (length t) t name)) [
  | inl h ↦ (0, t, refl, strncmp_eq-Begins t name h)
  | inr h ↦ let (i, u, p, q) = any_tracer-SomeBegins ts name (rw h at e) in (suc i, u, p, q)
]

SomeBegins-any_tracer :
    (ts : List (List ℕ)) (i : ℕ) (t rest : List ℕ)
    → get_elem? ts i ≡ some t
    → any_tracer (map some ts) (t ++ rest) ≡ some true
unfolding any_tracer
SomeBegins-any_tracer [] i t rest e = absurd (none-ne-some _ e)
SomeBegins-any_tracer (u ∷ ts) zero t rest e =
    rw (some-injective _ _ e, Begins-strncmp_eq t rest) refl
SomeBegins-any_tracer (u ∷ ts) (suc i) t rest e =
    ground (arith, SomeBegins-any_tracer ts i t rest e)

or_null_iff :
    (ts : List (List ℕ)) (name : List ℕ)
    → (any_tracer (or_null ts) name ≡ some true) ↔ SomeBegins ts name
unfolding any_tracer
or_null_iff [] name = (λ e. absurd (none-ne-some _ e), λ (i, t, e, r). absurd (none-ne-some _ e))
or_null_iff (t ∷ ts) name = (
  any_tracer-SomeBegins (t ∷ ts) name,
  λ (i, u, e, (rest, p)).
      subst (λ n. any_tracer (map some (t ∷ ts)) n ≡ some true) p
        (SomeBegins-any_tracer (t ∷ ts) i u rest e),
)

-- valid_tracer accepts a name just when the name begins with one of the words of available_tracers.
valid_tracer_iff :
    (content name : List ℕ)
    → (valid_tracer content (some name) ≡ some true) ↔ SomeBegins (tokens content []) name
unfolding valid_tracer get_tracers
valid_tracer_iff content name = or_null_iff (tokens content []) name
