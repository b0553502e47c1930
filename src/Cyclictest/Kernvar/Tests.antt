-- ===== src/Cyclictest/Kernvar/Tests.antt =====
-- A kernel with one variable, `b`.
use rt_tests.Base.{ℕ, Bool, true, false, ◌&&◌, none, some, List, [], ◌∷◌, ◌++◌, ◌==◌, if◌then◌else◌}
use rt_tests.Cyclictest.Kernvar.{Files}

abbrev same : List ℕ → List ℕ → Bool
same [] [] = true
same [] (b ∷ bs) = false
same (a ∷ as') [] = false
same (a ∷ as') (b ∷ bs) = (a == b) && same as' bs

abbrev var_b : List ℕ
var_b = b'b' ∷ []

abbrev one_var : Files (List ℕ)
one_var = record {
  read = λ s n. if same n var_b then some s else none;
  write = λ s n v. if same n var_b then v ++ (b'\n' ∷ []) else s;
  prefix_len = 17;
}

-- `b` is 1; it is set to 0, then to 7, with a write to a variable that does not exist between.
abbrev some_calls : List (List ℕ × List ℕ)
some_calls = (var_b, b'0' ∷ []) ∷ (b'c' ∷ [], b'1' ∷ []) ∷ (var_b, b'7' ∷ []) ∷ []
