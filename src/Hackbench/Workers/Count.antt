-- ===== src/Hackbench/Workers/Count.antt =====
-- How many workers run, and how many are reaped, in src/hackbench/hackbench.c.
use rt_tests.Base.{
  ℕ, zero, suc, ◌+◌, ◌-◌, ◌*◌, ◌<◌, ◌≤◌, ◌≡◌, ◌⊎◌, inl, inr, refl, Bool, true, false, not, List, [],
  ◌∷◌, ◌++◌, ◌==◌, if◌then◌else◌, arith,
}
use mathlib.Core.Path.{subst}
use rt_tests.Hackbench.Workers.{
  ChildInfo, is_error, Attempts, create_worker, Loop, create_receivers, create_senders, Returned,
  end_group, then_senders, group, Creation, create_groups, workers,
}

workers-snoc :
    (ws : List ChildInfo) (w : ChildInfo)
    → workers (ws ++ (w ∷ [])) ≡ workers ws + (if is_error w then 0 else 1)
workers-snoc [] w = omega arith
workers-snoc (v ∷ ws) w = omega (arith, workers-snoc ws w)

-- What the loop over the receivers has done, and that over the senders, in a group that found `base`
-- workers in the table.
abbrev ReceiversEnd : ℕ → ℕ → Loop → Type 0
ReceiversEnd base num_fds (Loop.ended r tab) =
    (workers tab < base + num_fds)
    × (base ≤ workers tab)
    × (r ≡ workers tab - base - 1)
    × (r < num_fds)
ReceiversEnd base num_fds (Loop.complete tab) = workers tab ≡ base + num_fds

abbrev SendersEnd : ℕ → ℕ → Loop → Type 0
SendersEnd base num_fds (Loop.ended r tab) =
    (workers tab < base + num_fds * 2) × (workers tab ≡ base + r + 1)
SendersEnd base num_fds (Loop.complete tab) = workers tab ≡ base + num_fds * 2

if-elim :
    {A : Type 0} (P : A → Type 0) (b : Bool) {x y : A}
    → (b ≡ true → P x)
    → (b ≡ false → P y)
    → P (if b then x else y)
if-elim P true f g = f refl
if-elim P false f g = g refl

create_receivers_lem :
    (env : Attempts) (base num_fds n i : ℕ) (tab : List ChildInfo)
    → i + n ≡ num_fds
    → workers tab ≡ base + i
    → ReceiversEnd base num_fds (create_receivers env n i tab)
unfolding create_receivers
create_receivers_lem env base num_fds zero i tab e w = omega arith
create_receivers_lem env base num_fds (suc n) i tab e w =
    let child = create_worker (env.receiver i) in
    let snoc = workers-snoc tab child in
    if-elim (ReceiversEnd base num_fds) (not (env.ctx i))
      (λ _. (omega arith, omega arith, ground arith, ground arith))
      (λ _.
        if-elim (ReceiversEnd base num_fds) (is_error child)
          (λ t. (ground (arith, snoc), ground (arith, snoc), ground (arith, snoc), ground arith))
          (λ t.
            create_receivers_lem env base num_fds n (suc i) (tab ++ (child ∷ [])) (omega arith)
              (ground (arith, snoc))))

create_senders_lem :
    (env : Attempts) (base num_fds n i : ℕ) (tab : List ChildInfo)
    → i + n ≡ num_fds
    → workers tab ≡ base + num_fds + i
    → SendersEnd base num_fds (create_senders env num_fds n i tab)
unfolding create_senders
create_senders_lem env base num_fds zero i tab e w = omega arith
create_senders_lem env base num_fds (suc n) i tab e w =
    let child = create_worker (env.sender i) in
    let snoc = workers-snoc tab child in
    if-elim (SendersEnd base num_fds) (is_error child)
      (λ t. (ground (arith, snoc), ground (arith, snoc)))
      (λ t.
        create_senders_lem env base num_fds n (suc i) (tab ++ (child ∷ [])) (omega arith)
          (ground (arith, snoc)))

-- A group that is complete, or that has stopped: the last worker that it has started is left out.
abbrev pub GroupEnd : ℕ → ℕ → Returned → Type 0
GroupEnd base num_fds r =
    ((r.count ≡ num_fds * 2) × (workers r.tab ≡ base + num_fds * 2))
    ⊎ ((r.count < num_fds * 2)
        × (workers r.tab < base + num_fds * 2)
        × ((workers r.tab ≡ base) × (r.count ≡ 0) ⊎ (workers r.tab ≡ base + r.count + 1)))

end_group-GroupEnd :
    (base num_fds : ℕ) (l : Loop)
    → SendersEnd base num_fds l
    → GroupEnd base num_fds (end_group num_fds l)
end_group-GroupEnd base num_fds (Loop.ended r tab) (a, b) = inr (omega arith, a, inr b)
end_group-GroupEnd base num_fds (Loop.complete tab) e = inl (refl, e)

-- Which entries of a group are workers, when the loops have ended.
then_senders-GroupEnd :
    (env : Attempts) (base num_fds : ℕ) (l : Loop)
    → ReceiversEnd base num_fds l
    → GroupEnd base num_fds (then_senders env num_fds l)
then_senders-GroupEnd env base num_fds (Loop.ended r tab) (a, b, c, d) =
    inr (omega arith, omega arith, ground arith)
then_senders-GroupEnd env base num_fds (Loop.complete tab) e =
    end_group-GroupEnd base num_fds (create_senders env num_fds num_fds 0 tab)
      (create_senders_lem env base num_fds num_fds 0 tab (omega arith) (omega (arith, e)))

group-GroupEnd :
    (env : Attempts) (num_fds : ℕ) (tab : List ChildInfo)
    → 0 < num_fds
    → GroupEnd (workers tab) num_fds (group env num_fds tab)
unfolding group
group-GroupEnd env num_fds tab h =
    if-elim (GroupEnd (workers tab) num_fds) (not env.snd_ctx)
      (λ _. inr (omega arith, omega arith, inl (refl, refl)))
      (λ _.
        then_senders-GroupEnd env (workers tab) num_fds (create_receivers env num_fds 0 tab) (
          create_receivers_lem env (workers tab) num_fds num_fds 0 tab (omega arith) (omega arith)))

-- What main makes of `expected` workers.
abbrev pub CreationEnd : ℕ → Creation → Type 0
CreationEnd expected (Creation.started total tab) = (total ≡ expected) × (workers tab ≡ expected)
CreationEnd expected (Creation.failed reaped tab) =
    (workers tab < expected) × ((workers tab ≡ reaped) ⊎ (workers tab ≡ reaped + 1))

next_total :
    (num_fds n total : ℕ) → total + suc n * (num_fds * 2) ≡ total + num_fds * 2 + n * (num_fds * 2)
next_total num_fds n total = grind arith

group-CreationEnd :
    (env : ℕ → Attempts) (num_fds n g total expected : ℕ) (c : Returned) (rest : Creation)
    → GroupEnd total num_fds c
    → expected ≡ total + suc n * (num_fds * 2)
    → (c.count ≡ num_fds * 2 → workers c.tab ≡ total + num_fds * 2 → CreationEnd expected rest)
    → CreationEnd expected
        (if c.count == num_fds * 2 then rest else Creation.failed (total + c.count) c.tab)
group-CreationEnd env num_fds n g total expected c rest (inl (a, b)) e f =
    if-elim (CreationEnd expected) (c.count == num_fds * 2) (λ _. f a b)
      (λ t. absurd (ground arith))
group-CreationEnd env num_fds n g total expected c rest (inr (a, b, d)) e f =
    if-elim (CreationEnd expected) (c.count == num_fds * 2) (λ t. absurd (ground arith))
      (λ _. (
        omega (arith, next_total num_fds n total),
        elim d [ inl (p, q) ↦ inl (omega arith) | inr p ↦ inr (omega arith) ],
      ))

create_groups_from :
    (env : ℕ → Attempts) (num_fds n g total expected : ℕ) (tab : List ChildInfo)
    → 0 < num_fds
    → workers tab ≡ total
    → expected ≡ total + n * (num_fds * 2)
    → CreationEnd expected (create_groups env num_fds n g total tab)
unfolding create_groups
create_groups_from env num_fds zero g total expected tab h w e = (omega arith, omega arith)
create_groups_from env num_fds (suc n) g total expected tab h w e =
    let c = group (env g) num_fds tab in
    let rest = create_groups env num_fds n (suc g) (total + c.count) c.tab in
    group-CreationEnd env num_fds n g total expected c rest
      (subst (λ t. GroupEnd t num_fds c) w (group-GroupEnd (env g) num_fds tab h)) e
      (λ a b.
        create_groups_from env num_fds n (suc g) (total + c.count) expected c.tab h (omega arith)
          (omega (arith, next_total num_fds n total)))

-- With one descriptor or more in a group, and whatever calls of malloc, fork and pthread_create fail:
-- either main has all num_groups * num_fds * 2 workers running, and that is total_children; or it
-- fails with fewer running, and reaps as many as are running or one fewer.
pub create_groups_lem :
    (env : ℕ → Attempts) (num_fds num_groups : ℕ)
    → 0 < num_fds
    → CreationEnd (num_groups * (num_fds * 2)) (create_groups env num_fds num_groups 0 0 [])
create_groups_lem env num_fds num_groups h =
    create_groups_from env num_fds num_groups 0 0 (num_groups * (num_fds * 2)) [] h refl
      (omega arith)
