-- ===== src/Cyclictest/Options/Masked.antt =====
-- The CPU that `-a` names is one that is there.
use rt_tests.Base.{
  if◌then◌else◌, ◌≡◌, ◌<◌, Option, none, some, List, [], ◌∷◌, arith, refl, ◌∙◌, sym, ℕ,
}
use rt_tests.Base.Int.{ℤ, pos, negsuc, eqb_ℤ}
use rt_tests.Cyclictest.Options.Config.{OptArg, SetAffinity, Opt, Config, defaults, ok, usage_error}
use rt_tests.Cyclictest.Options.Apply.{
  apply_option, apply_options, apply_affinity, parse_cpumask, apply_irqsoff, apply_preemptoff,
}
use rt_tests.Cyclictest.Options.Validate.{
  process_options, validate, has_error, clamp_histogram, spread_priority, match_policy,
  default_priority,
}
use rt_tests.Cyclictest.Options.Gives.{Gives, Gives-ok, Gives->>=, Gives-if}

pub record IsMasked (max_cpus : ℕ) (c : Config) : Type 0 where
  pub named :
      c.setaffinity ≡ SetAffinity.specified → (k : ℕ) × (c.affinity_mask ≡ some k) × (k < max_cpus)

parse_cpumask-IsMasked :
    (n : ℕ) (v : ℤ) (c : Config) → Gives (IsMasked n) (parse_cpumask (pos n) v c)
unfolding parse_cpumask
parse_cpumask-IsMasked n (pos v) c =
    Gives-if (IsMasked n) _
      (ok (record c { affinity_mask = some v; setaffinity = SetAffinity.specified })) usage_error
      (λ e. record { named = λ _. (v, refl, ground arith) }) (λ e. tt)
parse_cpumask-IsMasked n (negsuc v) c =
    Gives-if (IsMasked n) _ (ok _) usage_error (λ e. absurd (ground arith)) (λ e. tt)

affinity-IsMasked :
    (n : ℕ) (a : OptArg) (c : Config)
    → IsMasked n c
    → Gives (IsMasked n) (apply_affinity (pos n) a c)
unfolding apply_affinity
affinity-IsMasked n a c s = Gives-if (IsMasked n) c.smp _ _ (λ e. s) (λ e. given a.here)
  where
    useall : IsMasked n (record c { setaffinity = SetAffinity.useall })
    useall = record { named = λ e. cc }

    behind :
        (o : Option ℤ)
        → Gives (IsMasked n) (elim o [
          | some v ↦
              if eqb_ℤ v (pos 0)
              then ok (record c { setaffinity = SetAffinity.useall })
              else parse_cpumask (pos n) v c
          | none ↦ ok (record c { setaffinity = SetAffinity.useall })
        ])
    behind none = useall
    behind (some v) =
        Gives-if (IsMasked n) (eqb_ℤ v (pos 0)) _ _ (λ e. useall)
          (λ e. parse_cpumask-IsMasked n v c)

    given :
        (o : Option ℤ)
        → Gives (IsMasked n) (elim o [
          | some v ↦ parse_cpumask (pos n) v c
          | none ↦ elim a.behind [
            | some v ↦
                if eqb_ℤ v (pos 0)
                then ok (record c { setaffinity = SetAffinity.useall })
                else parse_cpumask (pos n) v c
            | none ↦ ok (record c { setaffinity = SetAffinity.useall })
          ]
        ])
    given (some v) = parse_cpumask-IsMasked n v c
    given none = behind a.behind

apply_option-IsMasked :
    (n : ℕ) (o : Opt) (c : Config) → IsMasked n c → Gives (IsMasked n) (apply_option (pos n) o c)
unfolding apply_option apply_irqsoff apply_preemptoff
apply_option-IsMasked n (Opt.affinity a) c s = affinity-IsMasked n a c s
apply_option-IsMasked n (Opt.threads a) c s =
    Gives-if (IsMasked n) c.smp _ _ (λ e. s) (λ e. record { named = s.named })
apply_option-IsMasked n (Opt.tracer a) c s = record { named = s.named }
apply_option-IsMasked n _ c s = ground arith

apply_options-IsMasked :
    (n : ℕ) (os : List Opt) (c : Config)
    → IsMasked n c
    → Gives (IsMasked n) (apply_options (pos n) os c)
unfolding apply_options
apply_options-IsMasked n [] c s = s
apply_options-IsMasked n (o ∷ os) c s =
    Gives->>= (IsMasked n) (apply_option (pos n) o c) (apply_options (pos n) os)
      (apply_option-IsMasked n o c s) (apply_options-IsMasked n os)

validate_keeps :
    (c : Config)
    → let d = default_priority (match_policy (spread_priority (clamp_histogram c))) in
      (d.setaffinity ≡ c.setaffinity) × (d.affinity_mask ≡ c.affinity_mask)
unfolding clamp_histogram spread_priority match_policy default_priority
validate_keeps c = ground arith

validate-IsMasked : (n : ℕ) (c : Config) → IsMasked n c → Gives (IsMasked n) (validate c)
unfolding validate
validate-IsMasked n c s =
    Gives-if (IsMasked n) (has_error c) _ _ (λ e. tt)
      (λ e. let k = validate_keeps c in record { named = λ h. rw k.1 (s.named (sym k.0 ∙ h)) })

-- Where `-a` names a CPU on an accepted command line, the mask holds a CPU that is there.
pub process_options-IsMasked :
    (n : ℕ) (os : List Opt) (c : Config) → process_options (pos n) os ≡ ok c → IsMasked n c
unfolding process_options
process_options-IsMasked n os c e = Gives-ok (IsMasked n) (process_options (pos n) os) c e (
    Gives->>= (IsMasked n) (apply_options (pos n) os defaults) validate
      (apply_options-IsMasked n os defaults (record { named = λ e. cc })) (validate-IsMasked n))
