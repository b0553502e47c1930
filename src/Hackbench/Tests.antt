-- ===== src/Hackbench/Tests.antt =====
-- Runs of the models of src/hackbench/hackbench.c at concrete inputs.
use rt_tests.Base.{
  ℕ, zero, suc, ◌+◌, ◌*◌, ◌<◌, ◌≤◌, ◌≡◌, ◌⊎◌, refl, Bool, true, false, Option, none, some, List, [],
  ◌∷◌, ltb, arith,
}
use rt_tests.Base.Int.{pos, negsuc}
use rt_tests.Hackbench.Options.{
  Spelling, Opt, Config, defaults, process_options, apply_options, apply_option, accepts,
}
use rt_tests.Hackbench.Pump.{Settings, Group, Reach, here, next, start, write, wrote}
use rt_tests.Hackbench.Pump.Progress.{IsDone, CanStep}
use rt_tests.Hackbench.Run.{settings, process_options-group_ends}
use rt_tests.Hackbench.Workers.{
  Attempts, Creation, create_groups, group, create_receivers, create_senders, create_worker,
  is_error,
}
use rt_tests.Hackbench.Workers.Count.{CreationEnd, create_groups_lem}

-- The words of a command line of three, hackbench --groups 4.
abbrev three_words : ℕ → Bool
three_words i = ltb i 3

-- argv[3] is NULL: the option is refused.
long_groups : process_options three_words (Opt.groups Spelling.long (pos 4) ∷ []) ≡ none
unfolding process_options apply_options apply_option accepts
long_groups = refl

-- A negative size is taken for one near 2 ^ 32.
negative_size :
    process_options three_words (Opt.datasize Spelling.short (negsuc 4) ∷ [])
    ≡ some (record defaults { datasize = 4_294_967_291 })
unfolding process_options apply_options apply_option accepts
negative_size = refl

-- hackbench -f 2 -l 1, a group with one pipe written.
abbrev small : List Opt
small = Opt.fds Spelling.short (pos 2) ∷ Opt.loops Spelling.short (pos 1) ∷ []

abbrev small_config : Config
small_config = record defaults { num_fds = 2; loops = 1 }

small_accepted : process_options three_words small ≡ some small_config
unfolding process_options apply_options apply_option accepts
small_accepted = refl

abbrev small_settings : Settings
small_settings = settings small_config 300

abbrev written : Group
written = record (start small_settings) {
  senders = record { i = 0; j = 0; done = 40 } ∷ record { i = 0; j = 0; done = 0 } ∷ [];
  pipes = 40 ∷ 0 ∷ [];
}

written-Reach : Reach small_settings written
unfolding wrote
written-Reach = next here (
    write 0 40 0 (record { i = 0; j = 0; done = 0 }) refl (omega arith) refl (omega arith)
      (omega arith) (omega arith))

process_options-group_ends_example : IsDone small_settings written ⊎ CanStep small_settings written
process_options-group_ends_example =
    process_options-group_ends three_words small small_config 300 small_accepted (omega arith)
      (omega arith) written-Reach

abbrev sender_made : Bool → ℕ → Option ℕ
sender_made true (suc zero) = none
sender_made _ i = some (105 + i)

-- The second sender of the second group cannot be created.
abbrev attempts : ℕ → Attempts
attempts g = record {
  snd_ctx = true;
  ctx = λ i. true;
  receiver = λ i. some (100 + 10 * g + i);
  sender = λ i. sender_made (ltb 0 g) i;
}

create_groups_lem_example : CreationEnd (3 * (2 * 2)) (create_groups attempts 2 3 0 0 [])
create_groups_lem_example = create_groups_lem attempts 2 3 (omega arith)

-- main reaps six of the seven workers.
six_of_seven :
    create_groups attempts 2 3 0 0 []
    ≡ Creation.failed 6 (100 ∷ 101 ∷ 105 ∷ 106 ∷ 110 ∷ 111 ∷ 105 ∷ 18_446_744_073_709_551_615 ∷ [])
unfolding create_groups group create_receivers create_senders create_worker is_error
    rt_tests.Base.Word.to_long
six_of_seven = refl
