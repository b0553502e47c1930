-- ===== src/Minimal/Print.antt =====
-- print_stat of cyclictest_minimal.c with --verbose, and what it makes of the ring of values.
use mathlib.Core.Option.{some-injective, none-ne-some}
use mathlib.Core.Path.{subst}
use mathlib.Core.List.{append-nil, append_assoc}
use rt_tests.Base.{
  get_elem?-set_self, get_elem?-set_ne, ℕ_discrete, ℕ, zero, suc, ◌+◌, ◌%◌, ◌<◌, ◌≤◌, ◌≡◌, ◌∙◌,
  refl, sym, ap, ap₂, true, false, List, [], ◌∷◌, ◌++◌, ◌==◌, if◌then◌else◌, get_or, get_elem?, set,
  take, length, replicate, arith, some, length-set, length-replicate, length-append,
}
use rt_tests.Base.Int.{ℤ, pos}
use rt_tests.Base.Word.{add64, sub64}
use rt_tests.Minimal.{Stat, note, note_all, fresh, valbuf_size}

-- `"%8d:%8lu:%8ld\n"`: the thread, the number of the round, the latency.
pub record Line : Type 0 where
  pub index : ℕ
  pub cycle : ℕ
  pub latency : ℤ

-- `while (stat->cycles != stat->cyclesread)`. The fuel is the number of unread rounds.
unfoldable pub print_loop : ℕ → ℕ → ℕ → Stat → List Line × Stat
print_loop index bufmsk zero s = ([], s)
print_loop index bufmsk (suc fuel) s =
    let diff = get_or s.values (s.cyclesread % (bufmsk + 1)) (pos 0) in
    let rest = print_loop index bufmsk fuel (record s { cyclesread = add64 s.cyclesread 1 }) in
    if s.cycles == s.cyclesread
    then ([], s)
    else (record { index = index; cycle = s.cyclesread; latency = diff } ∷ rest.0, rest.1)

-- The verbose branch of print_stat.
unfoldable pub print_stat : ℕ → ℕ → Stat → List Line × Stat
print_stat index bufmsk s = print_loop index bufmsk (sub64 s.cycles s.cyclesread) s

-- The lines of a thread from round k on.
abbrev pub numbered : ℕ → ℕ → List ℤ → List Line
numbered index k [] = []
numbered index k (x ∷ xs) =
    record { index = index; cycle = k; latency = x } ∷ numbered index (suc k) xs

-- The ring holds 0, and then the latencies of the rounds.
record Holds (past : List ℤ) (s : Stat) : Type 0 where
  cycles : s.cycles ≡ length past
  cyclesread : s.cyclesread ≡ 0
  room : length s.values ≡ valbuf_size
  held : (k : ℕ) → k ≤ length past → get_elem? s.values k ≡ get_elem? (pos 0 ∷ past) k

get_elem?-before :
    (xs : List ℤ) (x : ℤ) (k : ℕ) → k < length xs → get_elem? (xs ++ (x ∷ [])) k ≡ get_elem? xs k
get_elem?-before [] x k h = absurd (omega arith)
get_elem?-before (y ∷ ys) x zero h = refl
get_elem?-before (y ∷ ys) x (suc k) h = get_elem?-before ys x k (omega arith)

get_elem?-last :
    (xs : List ℤ) (x : ℤ) (k : ℕ) → k ≡ length xs → get_elem? (xs ++ (x ∷ [])) k ≡ some x
get_elem?-last [] x zero h = refl
get_elem?-last [] x (suc k) h = absurd (omega arith)
get_elem?-last (y ∷ ys) x zero h = absurd (omega arith)
get_elem?-last (y ∷ ys) x (suc k) h = get_elem?-last ys x k (omega arith)

-- Writing behind what the ring holds.
set-held :
    (past : List ℤ) (diff : ℤ) (values : List ℤ) (i k : ℕ)
    → i ≡ suc (length past)
    → i < length values
    → k ≤ suc (length past)
    → ((j : ℕ) → j ≤ length past → get_elem? values j ≡ get_elem? (pos 0 ∷ past) j)
    → get_elem? (set values i diff) k ≡ get_elem? ((pos 0 ∷ past) ++ (diff ∷ [])) k
set-held past diff values i k e room le held = elim (ℕ_discrete i k) [
  | yes same ↦
      subst (λ j. get_elem? (set values i diff) j ≡ get_elem? ((pos 0 ∷ past) ++ (diff ∷ [])) j)
        same (get_elem?-set_self values i diff room ∙ sym (get_elem?-last (pos 0 ∷ past) diff i e))
  | no other ↦
      get_elem?-set_ne values diff other
      ∙ held k (omega arith)
      ∙ sym (get_elem?-before (pos 0 ∷ past) diff k (omega arith))
]

note-Holds :
    (past : List ℤ) (diff : ℤ) (s : Stat)
    → length past + 1 < valbuf_size
    → Holds past s
    → Holds (past ++ (diff ∷ [])) (note 16_383 diff s)
unfolding note
note-Holds past diff s few h =
    let l = length-append past (diff ∷ []) in
    record {
      cycles = omega (arith, h.cycles, l);
      cyclesread = h.cyclesread;
      room = length-set s.values (add64 s.cycles 1 % 16_384) diff ∙ h.room;
      held = λ k le.
          set-held past diff s.values (add64 s.cycles 1 % 16_384) k (omega (arith, h.cycles))
            (omega (arith, h.cycles, h.room)) (omega (arith, l)) h.held;
    }

note_all-Holds :
    (diffs past : List ℤ) (s : Stat)
    → length past + length diffs < valbuf_size
    → Holds past s
    → Holds (past ++ diffs) (note_all 16_383 diffs s)
unfolding note_all
note_all-Holds [] past s few h = subst (λ r. Holds r s) (sym (append-nil past)) h
note_all-Holds (d ∷ ds) past s few h =
    let l = length-append past (d ∷ []) in
    subst (λ r. Holds r (note_all 16_383 ds (note 16_383 d s))) (append_assoc past (d ∷ []) ds)
      (note_all-Holds ds (past ++ (d ∷ [])) (note 16_383 d s) (omega arith)
        (note-Holds past d s (omega arith) h))

get_elem?-replicate : (n k : ℕ) → k < n → get_elem? (replicate n (pos 0)) k ≡ some (pos 0)
get_elem?-replicate zero k h = absurd (omega arith)
get_elem?-replicate (suc n) zero h = refl
get_elem?-replicate (suc n) (suc k) h = get_elem?-replicate n k (omega arith)

fresh-Holds : Holds [] (fresh true)
unfolding fresh
fresh-Holds = record {
  cycles = refl;
  cyclesread = refl;
  room = length-replicate valbuf_size (pos 0);
  held = at_zero;
}
  where
    at_zero :
        (k : ℕ) → k ≤ 0 → get_elem? (replicate valbuf_size (pos 0)) k ≡ get_elem? (pos 0 ∷ []) k
    at_zero zero le = get_elem?-replicate valbuf_size 0 (omega arith)
    at_zero (suc k) le = absurd (omega arith)

get_or-some : (xs : List ℤ) (k : ℕ) (x : ℤ) → get_elem? xs k ≡ some x → get_or xs k (pos 0) ≡ x
get_or-some [] k x e = absurd (none-ne-some x e)
get_or-some (y ∷ ys) zero x e = some-injective y x e
get_or-some (y ∷ ys) (suc k) x e = get_or-some ys k x e

from_zero : (k j : ℕ) → k ≡ 0 → k + j ≡ j
from_zero k j h = omega arith

shift : (k j : ℕ) → k < valbuf_size → add64 k 1 + j ≡ k + suc j
shift k j h = omega arith

print_loop-numbered :
    (n index : ℕ) (xs : List ℤ) (s : Stat)
    → s.cycles ≡ s.cyclesread + n
    → s.cyclesread + n < valbuf_size
    → n ≤ length xs
    → ((j : ℕ) → j < n → get_elem? s.values (s.cyclesread + j) ≡ get_elem? xs j)
    → (print_loop index 16_383 n s).0 ≡ numbered index s.cyclesread (take n xs)
unfolding print_loop
print_loop-numbered zero index xs s c few len held = refl
print_loop-numbered (suc n) index [] s c few len held = absurd (omega arith)
print_loop-numbered (suc n) index (x ∷ xs) s c few len held =
    let unread : (s.cycles == s.cyclesread) ≡ false = ground arith in
    let here : s.cyclesread % 16_384 ≡ s.cyclesread + 0 = omega arith in
    let entry =
      get_or-some s.values (s.cyclesread % 16_384) x
        (ap (get_elem? s.values) here ∙ held 0 (omega arith)) in
    let next : add64 s.cyclesread 1 ≡ suc s.cyclesread = omega arith in
    let rest =
      print_loop-numbered n index xs (record s { cyclesread = add64 s.cyclesread 1 }) (omega arith)
        (omega arith) (omega arith)
        (λ j lt.
          ap (get_elem? s.values) (shift s.cyclesread j (omega arith))
          ∙ held (suc j) (omega arith)) in
    rw unread (
      ap₂ (λ v r. record { index = index; cycle = s.cyclesread; latency = v } ∷ r) entry
        (rest ∙ ap (λ k. numbered index k (take n xs)) next))

print_stat-Holds :
    (index : ℕ) (past : List ℤ) (s : Stat)
    → Holds past s
    → length past < valbuf_size
    → (print_stat index 16_383 s).0 ≡ numbered index 0 (take (length past) (pos 0 ∷ past))
unfolding print_stat
print_stat-Holds index past s h few =
    let fuel : sub64 s.cycles s.cyclesread ≡ length past = omega (arith, h.cycles, h.cyclesread) in
    rw fuel (
      print_loop-numbered (length past) index (pos 0 ∷ past) s
        (omega (arith, h.cycles, h.cyclesread)) (omega (arith, h.cyclesread)) (omega arith)
        (λ j lt.
          ap (get_elem? s.values) (from_zero s.cyclesread j h.cyclesread) ∙ h.held j (omega arith))
      ∙ ap (λ k. numbered index k (take (length past) (pos 0 ∷ past))) h.cyclesread)

-- After fewer than 16384 rounds of a thread with --verbose, the lines of print_stat have the numbers
-- of the rounds from 0 on, but each shows the latency of the round before: the first shows 0, and the
-- latency of the last round is not printed.
pub print_stat_behind :
    (index : ℕ) (diffs : List ℤ)
    → length diffs < valbuf_size
    → (print_stat index 16_383 (note_all 16_383 diffs (fresh true))).0
      ≡ numbered index 0 (take (length diffs) (pos 0 ∷ diffs))
print_stat_behind index diffs few =
    print_stat-Holds index diffs (note_all 16_383 diffs (fresh true))
      (note_all-Holds diffs [] (fresh true) (omega arith) fresh-Holds) few
