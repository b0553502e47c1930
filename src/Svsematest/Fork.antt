-- ===== src/Svsematest/Fork.antt =====
-- The children of svsematest --fork, main of src/svsematest/svsematest.c: it executes itself with the
-- argument -fr or -fs and the thread's number, which process_options reads. sprintf's %d and atoi are
-- the library's: `decimal` and `atoi`.
use rt_tests.Base.{
  ℕ, ◌+◌, ◌≤◌, ◌<◌, ◌≡◌, ap, Bool, true, false, ◌||◌, Option, none, some, List, [], ◌∷◌, length,
  ◌==◌, if◌then◌else◌, arith, Bool-cases, guard_some, inl, inr, not, ◌&&◌,
}
use rt_tests.Base.Int.{ℤ, pos, negsuc, eqb_ℤ, ◌≤ℤ◌, ◌+ℤ◌}
use mathlib.Core.Path.{subst}
use rt_tests.Svsematest.Options.{
  Opt, Config, apply_fork, apply_option, apply_options, has_error, validate, process_options,
}

-- f_opt, without its 0 byte: the sender's, or the receiver's.
unfoldable pub f_opt : (ℕ → List ℕ) → Bool → ℕ → List ℕ
f_opt decimal true i = b'-' ∷ b'f' ∷ b's' ∷ decimal i
f_opt decimal false i = b'-' ∷ b'f' ∷ b'r' ∷ decimal i

-- What getopt_long makes of such a word: the option f, with the rest as its argument.
unfoldable pub read_word : List ℕ → Option Opt
read_word (a ∷ b ∷ c ∷ cs) =
    if (a == b'-') && (b == b'f') then some (Opt.fork (some (c ∷ cs))) else none
read_word _ = none

-- What main does when `wasforked` is set and the shared memory is in order: it refuses the option, or
-- is the given thread of the sender's or the receiver's array.
pub data Role : Type 0 where
  invalid : Role
  thread : Bool → ℤ → Role

unfoldable pub role_of : Config → Role
role_of c =
    if eqb_ℤ c.wasforked_threadno (negsuc 0) || eqb_ℤ c.wasforked_sender (negsuc 0)
    then Role.invalid
    else Role.thread (not (eqb_ℤ c.wasforked_sender (pos 0))) c.wasforked_threadno

-- The role of a child that is executed with this word.
unfoldable pub child : (List ℕ → ℤ) → ℤ → List ℕ → Option Role
child atoi max_cpus w = elim (read_word w) [
  | none ↦ none
  | some o ↦ elim (process_options atoi max_cpus (o ∷ [])) [
    | none ↦ none
    | some c ↦ some (role_of c)
  ]
]

child-f_opt :
    (atoi : List ℕ → ℤ) (decimal : ℕ → List ℕ) (max_cpus : ℤ) (sender : Bool) (i : ℕ)
    → atoi (decimal i) ≡ pos i
    → child atoi max_cpus (f_opt decimal sender i) ≡ some (Role.thread sender (pos i))
unfolding child f_opt read_word role_of process_options apply_options apply_option apply_fork
    validate
child-f_opt atoi decimal max_cpus true i e = rw e (ground arith)
child-f_opt atoi decimal max_cpus false i e = rw e (ground arith)

has_error-num_threads :
    (max_cpus : ℤ) (c : Config) → has_error max_cpus c ≡ false → c.num_threads ≤ℤ pos 255
unfolding has_error
has_error-num_threads max_cpus c h = ground arith

validate-num_threads :
    (max_cpus : ℤ) (c d : Config)
    → validate max_cpus c ≡ some d
    → d.wasforked ≡ false
    → d.num_threads ≤ℤ pos 255
unfolding validate has_error
validate-num_threads max_cpus c d e h = elim (Bool-cases c.wasforked) [
  | inl t ↦
      let q = guard_some c.error (rw t at e) in absurd (ground (arith, ap (λ y. y.wasforked) (q.1)))
  | inr t ↦
      let q = guard_some (has_error max_cpus c || c.error) (rw t at e) in
      subst (λ y. y.num_threads ≤ℤ pos 255) (q.1)
        (has_error-num_threads max_cpus c (ground (arith, q.0)))
]

index_lt : (i : ℕ) (z : ℤ) → z ≤ℤ pos 255 → pos i +ℤ pos 1 ≤ℤ z → i < 255
unfolding ◌+ℤ◌
index_lt i z a b = ground arith

length-f_opt :
    (decimal : ℕ → List ℕ) (sender : Bool) (i : ℕ)
    → length (f_opt decimal sender i) ≡ 3 + length (decimal i)
unfolding f_opt
length-f_opt decimal true i = omega arith
length-f_opt decimal false i = omega arith

-- Where %d gives a number below 1000 at most three digits and atoi reads them back: when svsematest
-- accepts a command line and is no child itself, then for each of its threads the word for the
-- sender and that for the receiver fit, with their 0 byte, into f_opt[8], and the program that is
-- executed with one takes the place of that thread: the number and the side come back as they were.
pub fork_children :
    (atoi : List ℕ → ℤ) (decimal : ℕ → List ℕ) (max_cpus : ℤ) (os : List Opt) (c : Config) (i : ℕ)
    (sender : Bool)
    → ((n : ℕ) → n < 1000 → (atoi (decimal n) ≡ pos n) × (length (decimal n) ≤ 3))
    → process_options atoi max_cpus os ≡ some c
    → c.wasforked ≡ false
    → pos i +ℤ pos 1 ≤ℤ c.num_threads
    → (length (f_opt decimal sender i) + 1 ≤ 8)
      × (child atoi max_cpus (f_opt decimal sender i) ≡ some (Role.thread sender (pos i)))
unfolding process_options ◌+ℤ◌
fork_children atoi decimal max_cpus os c i sender print e f l =
    let few = validate-num_threads max_cpus _ c e f in
    let below = index_lt i c.num_threads few l in
    let (back, short) = print i (omega arith) in
    (omega (arith, length-f_opt decimal sender i), child-f_opt atoi decimal max_cpus sender i back)
