-- ===== src/Hackbench/Options.antt =====
-- process_options of src/hackbench/hackbench.c. getopt_long and atoi are the library's: an option comes
-- with its argument as a number and with the index that getopt_long stores for a long option.
use rt_tests.Base.{
  ℕ, ◌^◌, ◌<◌, ◌≡◌, Bool, true, false, ◌&&◌, Option, none, some, ◌>>=◌, bind-some, refl, List, [],
  ◌∷◌, ltb, if◌then◌else◌, arith, Bool-cases, inl, inr,
}
use rt_tests.Base.Int.{ℤ, pos, negsuc}
use rt_tests.Base.Word.{low32}
use mathlib.Core.Option.{none-ne-some, some-injective}
use mathlib.Core.Path.{subst}

-- The local `optind` behind the call: 0 for a short option, the index in longopts for a long one.
pub data Spelling : Type 0 where
  short long : Spelling

pub data Opt : Type 0 where
  datasize loops groups fds : Spelling → ℤ → Opt
  pipe threads processes fifo help unknown : Opt

-- The file's variables, and the `error` of process_options.
pub record Config : Type 0 where
  pub datasize : ℕ
  pub loops : ℕ
  pub num_groups : ℕ
  pub num_fds : ℕ
  pub fifo : Bool
  pub process_mode : Bool
  pub use_pipes : Bool
  pub error : Bool

abbrev pub defaults : Config
defaults = record {
  datasize = 100;
  loops = 100;
  num_groups = 10;
  num_fds = 20;
  fifo = false;
  process_mode = true;
  use_pipes = false;
  error = false;
}

abbrev pub index : ℕ → Spelling → ℕ
index i Spelling.short = 0
index i Spelling.long = i

-- `argv[optind] && (x = atoi(optarg)) > 0`, with what it leaves in the unsigned x: `word i` tells
-- whether argv[i] is not NULL.
unfoldable pub accepts : Bool → ℤ → Bool
accepts word v = word && ltb 0 (low32 v)

abbrev pub assigned : Bool → ℕ → ℤ → ℕ
assigned word x v = if word then low32 v else x

-- The `switch`; `none` is print_usage_exit.
unfoldable pub apply_option : (ℕ → Bool) → Opt → Config → Option Config
apply_option word (Opt.datasize s v) c = some (record c {
  datasize = assigned (word (index 1 s)) c.datasize v;
  error = if accepts (word (index 1 s)) v then c.error else true;
})
apply_option word (Opt.loops s v) c = some (record c {
  loops = assigned (word (index 2 s)) c.loops v;
  error = if accepts (word (index 2 s)) v then c.error else true;
})
apply_option word (Opt.groups s v) c = some (record c {
  num_groups = assigned (word (index 3 s)) c.num_groups v;
  error = if accepts (word (index 3 s)) v then c.error else true;
})
apply_option word (Opt.fds s v) c = some (record c {
  num_fds = assigned (word (index 4 s)) c.num_fds v;
  error = if accepts (word (index 4 s)) v then c.error else true;
})
apply_option word Opt.pipe c = some (record c { use_pipes = true })
apply_option word Opt.threads c = some (record c { process_mode = false })
apply_option word Opt.processes c = some (record c { process_mode = true })
apply_option word Opt.fifo c = some (record c { fifo = true })
apply_option word Opt.help c = none
apply_option word Opt.unknown c = some (record c { error = true })

unfoldable pub apply_options : (ℕ → Bool) → List Opt → Config → Option Config
apply_options word [] c = some c
apply_options word (o ∷ os) c = do d ← apply_option word o c; apply_options word os d

-- `none` when the program exits.
unfoldable pub process_options : (ℕ → Bool) → List Opt → Option Config
process_options word os = do c ← apply_options word os defaults; if c.error then none else some c

-- The sizes are positive and fit in unsigned int.
pub record Fits (c : Config) : Type 0 where
  pub datasize : (0 < c.datasize) × (c.datasize < 2 ^ 32)
  pub loops : (0 < c.loops) × (c.loops < 2 ^ 32)
  pub num_groups : (0 < c.num_groups) × (c.num_groups < 2 ^ 32)
  pub num_fds : (0 < c.num_fds) × (c.num_fds < 2 ^ 32)

low32-lt : (v : ℤ) → low32 v < 2 ^ 32
low32-lt (pos n) = omega arith
low32-lt (negsuc n) = omega arith

-- A size that is assigned without an error.
assigned_lem :
    (w error : Bool) (x : ℕ) (v : ℤ)
    → (if accepts w v then error else true) ≡ false
    → (error ≡ false) × (0 < assigned w x v) × (assigned w x v < 2 ^ 32)
unfolding accepts
assigned_lem false error x v e = absurd (ground arith)
assigned_lem true error x v e = (ground arith, ground arith, low32-lt v)

abbrev Good : Config → Type 0
Good c = c.error ≡ false → Fits c

-- The switches leave the sizes.
same :
    {c d : Config}
    → Fits c
    → c.datasize ≡ d.datasize
    → c.loops ≡ d.loops
    → c.num_groups ≡ d.num_groups
    → c.num_fds ≡ d.num_fds
    → Fits d
same f a b g n = record {
  datasize = rw a at f.datasize;
  loops = rw b at f.loops;
  num_groups = rw g at f.num_groups;
  num_fds = rw n at f.num_fds;
}

apply_option-Good :
    (word : ℕ → Bool) (o : Opt) (c d : Config) → Good c → apply_option word o c ≡ some d → Good d
unfolding apply_option
apply_option-Good word (Opt.datasize s v) c d f e = subst Good (some-injective _ _ e) (λ h.
    let (a, b, l) = assigned_lem (word (index 1 s)) c.error c.datasize v h in
    let g = f a in
    record { datasize = (b, l); loops = g.loops; num_groups = g.num_groups; num_fds = g.num_fds })
apply_option-Good word (Opt.loops s v) c d f e = subst Good (some-injective _ _ e) (λ h.
    let (a, b, l) = assigned_lem (word (index 2 s)) c.error c.loops v h in
    let g = f a in
    record {
      datasize = g.datasize;
      loops = (b, l);
      num_groups = g.num_groups;
      num_fds = g.num_fds;
    })
apply_option-Good word (Opt.groups s v) c d f e = subst Good (some-injective _ _ e) (λ h.
    let (a, b, l) = assigned_lem (word (index 3 s)) c.error c.num_groups v h in
    let g = f a in
    record { datasize = g.datasize; loops = g.loops; num_groups = (b, l); num_fds = g.num_fds })
apply_option-Good word (Opt.fds s v) c d f e = subst Good (some-injective _ _ e) (λ h.
    let (a, b, l) = assigned_lem (word (index 4 s)) c.error c.num_fds v h in
    let g = f a in
    record { datasize = g.datasize; loops = g.loops; num_groups = g.num_groups; num_fds = (b, l) })
apply_option-Good word Opt.pipe c d f e =
    subst Good (some-injective _ _ e) (λ h. same (f h) refl refl refl refl)
apply_option-Good word Opt.threads c d f e =
    subst Good (some-injective _ _ e) (λ h. same (f h) refl refl refl refl)
apply_option-Good word Opt.processes c d f e =
    subst Good (some-injective _ _ e) (λ h. same (f h) refl refl refl refl)
apply_option-Good word Opt.fifo c d f e =
    subst Good (some-injective _ _ e) (λ h. same (f h) refl refl refl refl)
apply_option-Good word Opt.help c d f e = absurd (none-ne-some _ e)
apply_option-Good word Opt.unknown c d f e =
    subst Good (some-injective _ _ e) (λ h. absurd (ground arith))

apply_options-Good :
    (word : ℕ → Bool) (os : List Opt) (c d : Config)
    → Good c
    → apply_options word os c ≡ some d
    → Good d
unfolding apply_options
apply_options-Good word [] c d f e = subst Good (some-injective _ _ e) f
apply_options-Good word (o ∷ os) c d f e =
    let (c', e', e'') = bind-some (apply_option word o c) e in
    apply_options-Good word os c' d (apply_option-Good word o c c' f e') e''

-- The sizes of a command line that hackbench accepts.
pub process_options-Fits :
    (word : ℕ → Bool) (os : List Opt) (c : Config) → process_options word os ≡ some c → Fits c
unfolding process_options
process_options-Fits word os c e =
    let (d, e', e'') = bind-some (apply_options word os defaults) e in
    elim (Bool-cases d.error) [
      | inl t ↦ absurd (none-ne-some _ (rw t at e''))
      | inr t ↦ subst Fits (some-injective _ _ (rw t at e'')) (
          apply_options-Good word os defaults d
            (λ _. record {
              datasize = (omega arith, omega arith);
              loops = (omega arith, omega arith);
              num_groups = (omega arith, omega arith);
              num_fds = (omega arith, omega arith);
            })
            e' t)
    ]
