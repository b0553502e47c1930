-- ===== src/Cyclictest/Options/Gives.antt =====
-- What holds of the settings that a step of process_options gives, if it gives any.
use mathlib.Core.Path.{subst}
use rt_tests.Base.{◌≡◌, Bool, true, false, arith, refl, if◌then◌else◌}
use rt_tests.Cyclictest.Options.Config.{Config, Parsed, ok, help_shown, usage_error, fatal, ◌>>=◌}

abbrev pub Gives : (Config → Type 0) → Parsed Config → Type 0
Gives P (ok c) = P c
Gives P help_shown = Unit
Gives P usage_error = Unit
Gives P fatal = Unit

module _ (P : Config → Type 0) where
  pub Gives-ok : (p : Parsed Config) (d : Config) → p ≡ ok d → Gives P p → P d
  Gives-ok (ok c) d e g = subst P (ground arith) g
  Gives-ok help_shown d e g = cc
  Gives-ok usage_error d e g = cc
  Gives-ok fatal d e g = cc

  pub Gives->>= :
      (p : Parsed Config) (f : Config → Parsed Config)
      → Gives P p
      → ((c : Config) → P c → Gives P (f c))
      → Gives P (p >>= f)
  Gives->>= (ok c) f g h = h c g
  Gives->>= help_shown f g h = tt
  Gives->>= usage_error f g h = tt
  Gives->>= fatal f g h = tt

  pub Gives-if :
      (b : Bool) (p q : Parsed Config)
      → (b ≡ true → Gives P p)
      → (b ≡ false → Gives P q)
      → Gives P (if b then p else q)
  Gives-if true p q f g = f refl
  Gives-if false p q f g = g refl
