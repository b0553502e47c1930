-- ===== src/Pmqtest/Setup.antt =====
-- The threads that main of src/pmqtest/pmqtest.c creates from its options.
-- The sums of intervals are taken not to overflow.
use rt_tests.Base.{
  ℕ, zero, suc, ◌%◌, ◌≤◌, ◌<◌, ◌≡◌, ◌⊎◌, inl, inr, refl, ap, false, ◌&&◌, ◌||◌, not, some, List, [],
  ◌∷◌, length, arith, if◌then◌else◌, Bool-cases,
}
use rt_tests.Base.Int.{
  ℤ, pos, negsuc, pos_part, sub_ℕ, div_trunc, ltb_ℤ, leb_ℤ, eqb_ℤ, ◌+ℤ◌, ◌*ℤ◌, ◌≤ℤ◌,
}
use mathlib.Core.Path.{subst}
use mathlib.Core.Option.{some-injective}
use rt_tests.Pmqtest.Options.{
  SetAffinity, Opt, Config, defaults, is_specified, apply_options, has_error, validate,
  process_options,
}

-- What is set in receiver[i] and copied to sender[i].
pub record Thread : Type 0 where
  pub num : ℕ
  pub cpu : ℤ
  pub priority : ℤ
  pub delay_sec : ℤ
  pub delay_nsec : ℤ

-- C's remainder, of the sign of the dividend.
unfoldable pub rem_trunc : ℤ → ℕ → ℤ
rem_trunc (pos n) d = pos (n % d)
rem_trunc (negsuc n) d = sub_ℕ 0 (suc n % d)

-- `switch (setaffinity)`, with the CPU number -1 for none.
unfoldable pub cpu_of : ℤ → ℤ → ℕ → SetAffinity → ℤ
cpu_of max_cpus affinity i SetAffinity.unspecified = negsuc 0
cpu_of max_cpus affinity i SetAffinity.specified = affinity
cpu_of max_cpus affinity i SetAffinity.useall = pos (i % pos_part max_cpus)

-- A pass of the loop, with the variables `priority` and `interval` as they are then.
unfoldable pub thread_of : ℤ → Config → ℕ → ℤ → ℤ → Thread
thread_of max_cpus c i priority interval = record {
  num = i;
  cpu = cpu_of max_cpus c.affinity i c.setaffinity;
  priority = priority;
  delay_sec = div_trunc interval 1_000_000;
  delay_nsec = 1000 *ℤ rem_trunc interval 1_000_000;
}

-- `if (priority > 1 && !sameprio) priority--`
unfoldable pub lower_priority : Config → ℤ → ℤ
unfolding ◌+ℤ◌
lower_priority c priority =
    if ltb_ℤ (pos 1) priority && not c.sameprio then priority +ℤ negsuc 0 else priority

-- `n` passes of the loop from pass i on.
unfoldable pub threads_from : ℤ → Config → ℕ → ℕ → ℤ → ℤ → List Thread
unfolding ◌+ℤ◌
threads_from max_cpus c zero i priority interval = []
threads_from max_cpus c (suc n) i priority interval =
    thread_of max_cpus c i priority interval
    ∷ threads_from max_cpus c n (suc i) (lower_priority c priority) (interval +ℤ c.distance)

unfoldable pub threads : ℤ → Config → List Thread
threads max_cpus c = threads_from max_cpus c (pos_part c.num_threads) 0 c.priority c.interval

-- A CPU that exists, or none, and a priority that the system has, at most `top`.
abbrev pub IsFit : ℤ → ℤ → Thread → Type 0
IsFit max_cpus top t =
    ((t.cpu ≡ negsuc 0) ⊎ ((pos 0 ≤ℤ t.cpu) × (t.cpu +ℤ pos 1 ≤ℤ max_cpus)))
    × (pos 0 ≤ℤ t.priority)
    × (t.priority ≤ℤ top)

abbrev pub AllFit : ℤ → ℤ → List Thread → Type 0
AllFit max_cpus top [] = Unit
AllFit max_cpus top (t ∷ ts) = IsFit max_cpus top t × AllFit max_cpus top ts

-- What validation leaves.
abbrev CpuFits : ℤ → ℤ → SetAffinity → Type 0
CpuFits max_cpus affinity SetAffinity.specified =
    (pos 0 ≤ℤ affinity) × (affinity +ℤ pos 1 ≤ℤ max_cpus)
CpuFits max_cpus affinity _ = Unit

mod_below : (i n : ℕ) → 0 < n → i % n < n
mod_below i n h = grind arith

cpu_of_lem :
    (max_cpus : ℕ) (affinity : ℤ) (i : ℕ) (a : SetAffinity)
    → 0 < max_cpus
    → CpuFits (pos max_cpus) affinity a
    → (cpu_of (pos max_cpus) affinity i a ≡ negsuc 0)
      ⊎ ((pos 0 ≤ℤ cpu_of (pos max_cpus) affinity i a)
          × (cpu_of (pos max_cpus) affinity i a +ℤ pos 1 ≤ℤ pos max_cpus))
unfolding cpu_of ◌+ℤ◌
cpu_of_lem max_cpus affinity i SetAffinity.unspecified p f = inl refl
cpu_of_lem max_cpus affinity i SetAffinity.specified p f = inr f
cpu_of_lem max_cpus affinity i SetAffinity.useall p f =
    inr (ground arith, ground (arith, mod_below i max_cpus p))

lower_priority_lem :
    (c : Config) (priority top : ℤ)
    → pos 0 ≤ℤ priority
    → priority ≤ℤ top
    → (pos 0 ≤ℤ lower_priority c priority) × (lower_priority c priority ≤ℤ top)
unfolding lower_priority ◌+ℤ◌
lower_priority_lem c priority top l h = ground arith

threads_from_lem :
    (max_cpus : ℕ) (c : Config) (n i : ℕ) (priority top interval : ℤ)
    → 0 < max_cpus
    → CpuFits (pos max_cpus) c.affinity c.setaffinity
    → pos 0 ≤ℤ priority
    → priority ≤ℤ top
    → (length (threads_from (pos max_cpus) c n i priority interval) ≡ n)
      × AllFit (pos max_cpus) top (threads_from (pos max_cpus) c n i priority interval)
unfolding threads_from thread_of
threads_from_lem max_cpus c zero i priority top interval p f l h = (refl, tt)
threads_from_lem max_cpus c (suc n) i priority top interval p f l h =
    let (l', h') = lower_priority_lem c priority top l h in
    let ih =
      threads_from_lem max_cpus c n (suc i) (lower_priority c priority) top (interval +ℤ c.distance)
        p f l' h' in
    (ap suc (ih.0), ((cpu_of_lem max_cpus c.affinity i c.setaffinity p f, l, h), ih.1))

affinity-CpuFits :
    (max_cpus : ℕ) (affinity : ℤ) (a : SetAffinity)
    → (is_specified a && (ltb_ℤ affinity (pos 0) || leb_ℤ (pos max_cpus) affinity)) ≡ false
    → CpuFits (pos max_cpus) affinity a
unfolding ◌+ℤ◌
affinity-CpuFits max_cpus affinity SetAffinity.unspecified h = tt
affinity-CpuFits max_cpus affinity SetAffinity.specified h = (ground arith, ground arith)
affinity-CpuFits max_cpus affinity SetAffinity.useall h = tt

has_error_lem :
    (max_cpus : ℕ) (c : Config)
    → has_error (pos max_cpus) c ≡ false
    → ((is_specified c.setaffinity && (ltb_ℤ c.affinity (pos 0) || leb_ℤ (pos max_cpus) c.affinity))
        ≡ false)
      × (pos 1 ≤ℤ c.num_threads)
      × (c.num_threads ≤ℤ pos 255)
      × (pos 0 ≤ℤ c.priority)
      × (c.priority ≤ℤ pos 99)
unfolding has_error
has_error_lem max_cpus c h = (ground arith, ground arith, ground arith, ground arith, ground arith)

abbrev FitThreads : ℕ → Config → Type 0
FitThreads max_cpus c =
    (1 ≤ length (threads (pos max_cpus) c))
    × (length (threads (pos max_cpus) c) ≤ 255)
    × AllFit (pos max_cpus) (pos 99) (threads (pos max_cpus) c)

pos_part_le : (z : ℤ) (n : ℕ) → z ≤ℤ pos n → pos_part z ≤ n
pos_part_le (pos m) n h = omega arith
pos_part_le (negsuc m) n h = omega arith

threads_lem :
    (max_cpus : ℕ) (c : Config)
    → 0 < max_cpus
    → CpuFits (pos max_cpus) c.affinity c.setaffinity
    → (pos 1 ≤ℤ c.num_threads)
      × (c.num_threads ≤ℤ pos 255)
      × (pos 0 ≤ℤ c.priority)
      × (c.priority ≤ℤ pos 99)
    → FitThreads max_cpus c
unfolding threads
threads_lem max_cpus c p f (a, b, l, h) =
    let t =
      threads_from_lem max_cpus c (pos_part c.num_threads) 0 c.priority (pos 99) c.interval p f l
        h in
    (omega (arith, t.0), omega (arith, t.0, pos_part_le c.num_threads 255 b), t.1)

validate-threads :
    (max_cpus : ℕ) (c d : Config)
    → 0 < max_cpus
    → validate (pos max_cpus) c ≡ some d
    → FitThreads max_cpus d
unfolding validate
validate-threads max_cpus c d p e = elim (Bool-cases (has_error (pos max_cpus) c)) [
  | inl t ↦ absurd (ground (arith, rw t at e))
  | inr t ↦
      let f = has_error_lem max_cpus c t in
      subst (FitThreads max_cpus) (some-injective _ _ (rw t at e)) (
        threads_lem max_cpus
          (record c { sameprio = not (eqb_ℤ c.priority (pos 0)) && c.smp || c.sameprio }) p
          (affinity-CpuFits max_cpus c.affinity c.setaffinity (f.0)) (f.1, f.2, f.3, f.4))
]

-- From a command line that pmqtest accepts, main creates from 1 to 255 pairs of threads, each without
-- a CPU or with one that exists, and with a priority from 0 to 99.
pub process_options-threads :
    (max_cpus : ℕ) (os : List Opt) (c : Config)
    → 0 < max_cpus
    → process_options (pos max_cpus) os ≡ some c
    → (1 ≤ length (threads (pos max_cpus) c))
      × (length (threads (pos max_cpus) c) ≤ 255)
      × AllFit (pos max_cpus) (pos 99) (threads (pos max_cpus) c)
unfolding process_options
process_options-threads max_cpus os c p e =
    validate-threads max_cpus (apply_options (pos max_cpus) os defaults) c p e
