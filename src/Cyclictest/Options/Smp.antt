-- ===== src/Cyclictest/Options/Smp.antt =====
-- Options whose place on the command line matters, or does not.
use mathlib.Core.Path.{subst}
use rt_tests.Base.{sym, true, List, [], ◌∷◌, ◌++◌, ◌≡◌, arith, refl}
use rt_tests.Base.Int.{ℤ}
use rt_tests.Cyclictest.Options.Config.{
  OptArg, SetAffinity, Opt, Config, Parsed, ok, help_shown, usage_error, fatal, ◌>>=◌,
}
use rt_tests.Cyclictest.Options.Gives.{Gives, Gives-ok, Gives->>=}
use rt_tests.Cyclictest.Options.Apply.{
  apply_option, apply_options, apply_affinity, apply_irqsoff, apply_preemptoff,
}

-- One thread on each CPU, and none of it undone.
pub record IsSmp (max_cpus : ℤ) (c : Config) : Type 0 where
  pub on : c.smp ≡ true
  pub threads : c.num_threads ≡ max_cpus
  pub affinity : c.setaffinity ≡ SetAffinity.useall
  pub sleep : c.use_nanosleep ≡ 1

affinity_smp : (n : ℤ) (a : OptArg) (c : Config) → c.smp ≡ true → apply_affinity n a c ≡ ok c
unfolding apply_affinity
affinity_smp n a c e = simp e

threads_smp :
    (n : ℤ) (a : OptArg) (c : Config) → c.smp ≡ true → apply_option n (Opt.threads a) c ≡ ok c
unfolding apply_option
threads_smp n a c e = simp e

numa_smp : (n : ℤ) (c : Config) → c.smp ≡ true → apply_option n Opt.numa c ≡ fatal
unfolding apply_option
numa_smp n c e = simp e

apply_option-IsSmp :
    (n : ℤ) (o : Opt) (c : Config) → IsSmp n c → Gives (IsSmp n) (apply_option n o c)
unfolding apply_option apply_irqsoff apply_preemptoff
apply_option-IsSmp n (Opt.affinity a) c s =
    subst (Gives (IsSmp n)) (sym (affinity_smp n a c s.on)) s
apply_option-IsSmp n (Opt.threads a) c s = subst (Gives (IsSmp n)) (sym (threads_smp n a c s.on)) s
apply_option-IsSmp n Opt.numa c s = subst (Gives (IsSmp n)) (sym (numa_smp n c s.on)) tt
apply_option-IsSmp n Opt.irqs_off c s = ground arith
apply_option-IsSmp n Opt.preempt_off c s = ground arith
apply_option-IsSmp n _ c s = ground arith

apply_options-IsSmp :
    (n : ℤ) (os : List Opt) (c : Config) → IsSmp n c → Gives (IsSmp n) (apply_options n os c)
unfolding apply_options
apply_options-IsSmp n [] c s = s
apply_options-IsSmp n (o ∷ os) c s =
    Gives->>= (IsSmp n) (apply_option n o c) (apply_options n os) (apply_option-IsSmp n o c s)
      (apply_options-IsSmp n os)

-- Where the options are read to their end, --smp among them leaves as many threads as CPUs, all CPUs
-- used for them, and use_nanosleep set, whatever stands before and behind it: no later -t or -a undoes
-- that. With --system the mode is still that of nanosleep.
pub smp_wins :
    (n : ℤ) (before behind : List Opt) (c d : Config)
    → apply_options n (before ++ (Opt.smp ∷ behind)) c ≡ ok d
    → IsSmp n d
unfolding apply_options apply_option
smp_wins n [] behind c d e = Gives-ok (IsSmp n) (apply_options n behind _) d e (
    apply_options-IsSmp n behind _
      (record { on = refl; threads = refl; affinity = refl; sleep = refl }))
smp_wins n (o ∷ before) behind c d e = go (apply_option n o c) (smp_wins n before behind) e
  where
    go :
        (p : Parsed Config)
        → ((c' d' : Config)
            → apply_options n (before ++ (Opt.smp ∷ behind)) c' ≡ ok d'
            → IsSmp n d')
        → (p >>= apply_options n (before ++ (Opt.smp ∷ behind))) ≡ ok d
        → IsSmp n d
    go (ok c') rest f = rest c' d f
    go help_shown rest f = cc
    go usage_error rest f = cc
    go fatal rest f = cc
