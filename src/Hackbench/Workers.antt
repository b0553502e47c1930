-- ===== src/Hackbench/Workers.antt =====
-- How group and main of src/hackbench/hackbench.c create the workers. Whether malloc, fork and
-- pthread_create succeed, and which identifiers they give, is the system's: an Attempts for each group.
-- fdpair succeeds; it ends the program otherwise.
-- The products of counts are taken to fit in unsigned int.
pub mod Count
use rt_tests.Base.{
  ℕ, zero, suc, ◌+◌, ◌-◌, ◌*◌, ◌%◌, ◌^◌, Bool, not, Option, none, some, List, [], ◌∷◌, ◌++◌, ltb,
  ◌==◌, if◌then◌else◌,
}
use rt_tests.Base.Int.{ℤ, pos, ltb_ℤ}
use rt_tests.Base.Word.{to_long, signed32}

-- A childinfo_t, the bits of the union of threadid, pid and error.
abbrev pub ChildInfo : Type 0
ChildInfo = ℕ

-- `child.error < 0`, and `child.pid`.
unfoldable pub is_error : ChildInfo → Bool
is_error w = ltb_ℤ (to_long w) (pos 0)

abbrev pub pid : ChildInfo → ℤ
pid w = signed32 (w % 2 ^ 32)

-- What the calls of a group return: whether malloc gives memory, and the identifiers of the workers.
pub record Attempts : Type 0 where
  pub snd_ctx : Bool
  pub ctx : ℕ → Bool
  pub receiver : ℕ → Option ℕ
  pub sender : ℕ → Option ℕ

-- The identifier in a union of zeros, or `child.error = -1`.
unfoldable pub create_worker : Option ℕ → ChildInfo
create_worker (some id) = id
create_worker none = 2 ^ 64 - 1

-- What group returns, if a loop has ended it, and the entries of child_tab that are written.
pub data Loop : Type 0 where
  ended : ℕ → List ChildInfo → Loop
  complete : List ChildInfo → Loop

-- `n` passes of the first loop from pass i on.
unfoldable pub create_receivers : Attempts → ℕ → ℕ → List ChildInfo → Loop
create_receivers env zero i tab = Loop.complete tab
create_receivers env (suc n) i tab =
    let child = create_worker (env.receiver i) in
    let rest = create_receivers env n (suc i) (tab ++ (child ∷ [])) in
    if not (env.ctx i)
    then Loop.ended (if ltb 0 i then i - 1 else 0) tab
    else if is_error child
    then Loop.ended (if ltb 0 i then i - 1 else 0) (tab ++ (child ∷ []))
    else rest

-- `n` passes of the second loop.
unfoldable pub create_senders : Attempts → ℕ → ℕ → ℕ → List ChildInfo → Loop
create_senders env num_fds zero i tab = Loop.complete tab
create_senders env num_fds (suc n) i tab =
    let child = create_worker (env.sender i) in
    let rest = create_senders env num_fds n (suc i) (tab ++ (child ∷ [])) in
    if is_error child then Loop.ended (num_fds + i - 1) (tab ++ (child ∷ [])) else rest

-- The return value of group, with the table.
pub record Returned : Type 0 where
  pub count : ℕ
  pub tab : List ChildInfo

abbrev pub end_group : ℕ → Loop → Returned
end_group num_fds (Loop.ended r tab) = record { count = r; tab = tab }
end_group num_fds (Loop.complete tab) = record { count = num_fds * 2; tab = tab }

abbrev pub then_senders : Attempts → ℕ → Loop → Returned
then_senders env num_fds (Loop.ended r tab) = record { count = r; tab = tab }
then_senders env num_fds (Loop.complete tab) =
    end_group num_fds (create_senders env num_fds num_fds 0 tab)

unfoldable pub group : Attempts → ℕ → List ChildInfo → Returned
group env num_fds tab =
    if not env.snd_ctx
    then record { count = 0; tab = tab }
    else then_senders env num_fds (create_receivers env num_fds 0 tab)

-- The loop of main over the groups: it reaps that many children and exits, or goes on with
-- total_children.
pub data Creation : Type 0 where
  failed : ℕ → List ChildInfo → Creation
  started : ℕ → List ChildInfo → Creation

-- `n` passes from group g on.
unfoldable pub create_groups : (ℕ → Attempts) → ℕ → ℕ → ℕ → ℕ → List ChildInfo → Creation
create_groups env num_fds zero g total tab = Creation.started total tab
create_groups env num_fds (suc n) g total tab =
    let c = group (env g) num_fds tab in
    let rest = create_groups env num_fds n (suc g) (total + c.count) (c.tab) in
    if c.count == num_fds * 2 then rest else Creation.failed (total + c.count) (c.tab)

-- The entries of the table that are workers, and so run: a pid and a thread's identifier are positive.
abbrev pub workers : List ChildInfo → ℕ
workers [] = 0
workers (w ∷ ws) = (if is_error w then 0 else 1) + workers ws
