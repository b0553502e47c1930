-- ===== src/RtUtils/Tests.antt =====
-- Runs of the models of src/lib/rt-utils.c at concrete inputs.
use rt_tests.Base.{ℕ, ◌≡◌, refl, true, none, some, List, [], ◌∷◌}
use rt_tests.RtUtils.{Sched}
use rt_tests.RtUtils.Tracers.{tokens, get_tracers, valid_tracer, is_delim, any_tracer, strncmp_eq}

-- "nop rt\\n"
abbrev available : List ℕ
available = b'n' ∷ b'o' ∷ b'p' ∷ b' ' ∷ b'r' ∷ b't' ∷ 10 ∷ []

-- "nope" is accepted, for it begins with "nop".
abbrev nope : List ℕ
nope = b'n' ∷ b'o' ∷ b'p' ∷ b'e' ∷ []

nope_valid : valid_tracer available (some nope) ≡ some true
unfolding valid_tracer get_tracers any_tracer strncmp_eq tokens is_delim
nope_valid = refl

-- With a file of blanks, the NULL that strtok returns is read.
blank_null : valid_tracer (10 ∷ []) (some nope) ≡ none
unfolding valid_tracer get_tracers any_tracer strncmp_eq tokens is_delim
blank_null = refl

-- An ordinary process that may change to SCHED_FIFO.
abbrev ordinary : Sched
ordinary = record { policy = 0; sched_priority = 0 }
