-- ===== src/PiStress/Sched.antt =====
-- The scheduling attributes of src/pi_tests/pi_stress.c: process_sched_line, which reads the argument
-- of --sched, and setup_sched_config, which fills in the rest. Strings are lists of bytes. strtoul and
-- strtol are the library's, with none where parse_unsigned and parse_signed end the program.
pub mod Order
mod Tests
use rt_tests.Base.{
  ℕ, zero, suc, ◌+◌, ◌%◌, ◌^◌, Bool, true, false, ◌||◌, ◌&&◌, not, Option, none, some, ◌>>=◌, List,
  [], ◌∷◌, ◌++◌, ◌==◌, if◌then◌else◌,
}
use rt_tests.Base.Int.{ℤ, pos}
use rt_tests.Base.Word.{to_int}

-- struct sched_attr, as far as it is set.
pub record SchedAttr : Type 0 where
  pub sched_policy : ℕ
  pub sched_nice : ℤ
  pub sched_priority : ℕ
  pub sched_runtime : ℕ
  pub sched_deadline : ℕ
  pub sched_period : ℕ

abbrev pub zero_attr : SchedAttr
zero_attr = record {
  sched_policy = 0;
  sched_nice = pos 0;
  sched_priority = 0;
  sched_runtime = 0;
  sched_deadline = 0;
  sched_period = 0;
}

-- low_sa to admin_sa, and the bits of sa_initialized. SA_INIT_ADMIN is never set.
pub record Attrs : Type 0 where
  pub low : SchedAttr
  pub med : SchedAttr
  pub high : SchedAttr
  pub admin : SchedAttr
  pub init_low : Bool
  pub init_med : Bool
  pub init_high : Bool

abbrev pub unset : Attrs
unset = record {
  low = zero_attr;
  med = zero_attr;
  high = zero_attr;
  admin = zero_attr;
  init_low = false;
  init_med = false;
  init_high = false;
}

-- `strcmp(a, b) == 0`
unfoldable pub same : List ℕ → List ℕ → Bool
same [] [] = true
same (x ∷ a) (y ∷ b) = (x == y) && same a b
same _ _ = false

-- The fields that strsep with ",=" returns; `cur` is the one under way.
unfoldable pub fields : List ℕ → List ℕ → List (List ℕ)
fields [] cur = cur ∷ []
fields (c ∷ cs) cur =
    let rest = fields cs [] in
    let more = fields cs (cur ++ (c ∷ [])) in
    if (c == b',') || (c == b'=') then cur ∷ rest else more

-- string_to_policy of src/lib/rt-utils.c, with the numbers of <linux/sched.h>.
unfoldable pub string_to_policy : List ℕ → ℕ
unfolding same
string_to_policy s =
    if same s (b'o' ∷ b't' ∷ b'h' ∷ b'e' ∷ b'r' ∷ [])
    then 0
    else if same s (b'f' ∷ b'i' ∷ b'f' ∷ b'o' ∷ [])
    then 1
    else if same s (b'r' ∷ b'r' ∷ [])
    then 2
    else if same s (b'b' ∷ b'a' ∷ b't' ∷ b'c' ∷ b'h' ∷ [])
    then 3
    else if same s (b'i' ∷ b'd' ∷ b'l' ∷ b'e' ∷ [])
    then 5
    else if same s (b'd' ∷ b'e' ∷ b'a' ∷ b'd' ∷ b'l' ∷ b'i' ∷ b'n' ∷ b'e' ∷ [])
    then 6
    else 0

-- `id` and `sa` of process_sched_line.
pub record Line : Type 0 where
  pub id : Option (List ℕ)
  pub sa : SchedAttr

-- What follows the loop: the attributes that `id` names; with no such id, FAILURE, and none change.
unfoldable pub store : Option (List ℕ) → SchedAttr → Attrs → Attrs
unfolding same
store none sa s = s
store (some id) sa s =
    if same id (b'l' ∷ b'o' ∷ b'w' ∷ [])
    then record s { low = sa; init_low = true }
    else if same id (b'm' ∷ b'e' ∷ b'd' ∷ [])
    then record s { med = sa; init_med = true }
    else if same id (b'h' ∷ b'i' ∷ b'g' ∷ b'h' ∷ [])
    then record s { high = sa; init_high = true }
    else s

module _ (strtoul : List ℕ → Option ℕ) (strtol : List ℕ → Option ℤ) where
  -- The chain of strcmp on the key k, with the value v.
  unfoldable pub set_key : List ℕ → List ℕ → Line → Option Line
  unfolding same string_to_policy
  set_key k v l =
      if same k (b'i' ∷ b'd' ∷ [])
      then some (record l { id = some v })
      else if same k (b'p' ∷ b'o' ∷ b'l' ∷ b'i' ∷ b'c' ∷ b'y' ∷ [])
      then some (record l { sa = record l.sa { sched_policy = string_to_policy v } })
      else if same k (b'n' ∷ b'i' ∷ b'c' ∷ b'e' ∷ [])
      then (strtol v >>= λ n. some (record l { sa = record l.sa { sched_nice = to_int n } }))
      else if same k (b'p' ∷ b'r' ∷ b'i' ∷ b'o' ∷ b'r' ∷ b'i' ∷ b't' ∷ b'y' ∷ [])
      then (strtoul v >>= λ n. some (record l { sa = record l.sa { sched_priority = n % 2 ^ 32 } }))
      else if same k (b'r' ∷ b'u' ∷ b'n' ∷ b't' ∷ b'i' ∷ b'm' ∷ b'e' ∷ [])
      then (strtoul v >>= λ n. some (record l { sa = record l.sa { sched_runtime = n } }))
      else if same k (b'd' ∷ b'e' ∷ b'a' ∷ b'd' ∷ b'l' ∷ b'i' ∷ b'n' ∷ b'e' ∷ [])
      then (strtoul v >>= λ n. some (record l { sa = record l.sa { sched_deadline = n } }))
      else if same k (b'p' ∷ b'e' ∷ b'r' ∷ b'i' ∷ b'o' ∷ b'd' ∷ [])
      then (strtoul v >>= λ n. some (record l { sa = record l.sa { sched_period = n } }))
      else some l

  -- The loop: a key without a value ends it.
  unfoldable pub read_pairs : List (List ℕ) → Line → Option Line
  read_pairs [] l = some l
  read_pairs (k ∷ []) l = some l
  read_pairs (k ∷ v ∷ rest) l = set_key k v l >>= read_pairs rest

  -- `none` when the program exits.
  unfoldable pub process_sched_line : List ℕ → Attrs → Option Attrs
  process_sched_line arg s = do
    l ← read_pairs (fields arg []) (record { id = none; sa = zero_attr })
    some (store l.id l.sa s)

  -- The --sched options of a command line.
  unfoldable pub process_sched_lines : List (List ℕ) → Attrs → Option Attrs
  process_sched_lines [] s = some s
  process_sched_lines (a ∷ args) s = process_sched_line a s >>= process_sched_lines args

-- setup_sched_attr
abbrev pub setup_sched_attr : ℕ → ℕ → SchedAttr → SchedAttr
setup_sched_attr policy prio a = record a { sched_policy = policy; sched_priority = prio }

-- `prio_min` is what sched_get_priority_min gives for the policy.
unfoldable pub setup_sched_config : ℕ → ℕ → Attrs → Attrs
setup_sched_config policy prio_min s = record s {
  low = if s.init_low then s.low else setup_sched_attr policy prio_min s.low;
  med = if s.init_med then s.med else setup_sched_attr policy (prio_min + 1) s.med;
  high = if s.init_high then s.high else setup_sched_attr policy (prio_min + 2) s.high;
  admin = setup_sched_attr policy (prio_min + 3) s.admin;
}
