-- ===== src/Backfire/Exclusive.antt =====
-- O_EXCL on the backfire device: it excludes, and it never lets go.
use mathlib.Core.Bool.{false≢true}
use rt_tests.Base.{
  Bool-cases, inl, inr, ◌&&◌, ◌||◌, sym, ◌∙◌, ℕ, zero, suc, ◌+◌, ◌≤◌, ◌≡◌, refl, ap, Bool, true,
  false, Option, none, some, List, [], ◌∷◌, arith, length, get_elem?,
}
use rt_tests.Base.Int.{ℤ, ltb_ℤ, pos}
use rt_tests.Backfire.{
  File, Timeval, Device, backfire_open, backfire_release, backfire_write, System, remove, Step,
  opened, refused, released, written, Reach, here, next, start,
}

-- The device agrees with its open files.
pub record IsValid (s : System) : Type 0 where
  pub counted : s.device.open_cnt ≡ pos (length s.files)
  pub excluded : s.device.mode_excl ≡ true → length s.files ≤ 1
  pub shared :
      s.device.mode_excl ≡ false
      → (i : ℕ) (f : File) → get_elem? s.files i ≡ some f
      → f.o_excl ≡ false

length-remove :
    (fs : List File) (i : ℕ) (f : File)
    → get_elem? fs i ≡ some f
    → length (remove fs i) + 1 ≡ length fs
length-remove [] i f h = cc
length-remove (g ∷ fs) zero f h = omega arith
length-remove (g ∷ fs) (suc i) f h = omega (arith, length-remove fs i f h)

get_elem?-remove :
    (fs : List File) (i j : ℕ) (f : File)
    → get_elem? (remove fs i) j ≡ some f
    → (k : ℕ) × (get_elem? fs k ≡ some f)
get_elem?-remove [] i j f h = (j, h)
get_elem?-remove (g ∷ fs) zero j f h = (suc j, h)
get_elem?-remove (g ∷ fs) (suc i) zero f h = (zero, h)
get_elem?-remove (g ∷ fs) (suc i) (suc j) f h =
    let (k, e) = get_elem?-remove fs i j f h in (suc k, e)

-- backfire_release never changes the O_EXCL bit of a valid system: the bit stands only while one
-- file is open, and the code clears it only where one file is left.
pub release-keeps_excl :
    {s : System} (i : ℕ) (f : File)
    → IsValid s
    → get_elem? s.files i ≡ some f
    → (backfire_release f s.device).mode_excl ≡ s.device.mode_excl
unfolding backfire_release
release-keeps_excl {s} i f v e = ground (arith, v.counted, v.excluded, length-remove s.files i f e)

opened-shared :
    (fs : List File) (f : File) (keep : Bool)
    → f.o_excl || keep ≡ false
    → ((i : ℕ) (g : File) → get_elem? fs i ≡ some g → g.o_excl ≡ false)
    → (j : ℕ) (g : File) → get_elem? (f ∷ fs) j ≡ some g
    → g.o_excl ≡ false
opened-shared fs f keep x old zero g h = ground arith
opened-shared fs f keep x old (suc j) g h = old j g h

opened-IsValid :
    (s : System) (f : File) (d : Device)
    → backfire_open f s.device ≡ some d
    → IsValid s
    → IsValid (record { device = d; files = f ∷ s.files })
unfolding backfire_open
opened-IsValid s f d e v = record {
  counted = ground (arith, v.counted);
  excluded = λ x. ground (arith, v.excluded, v.counted);
  shared = λ x.
      let b : f.o_excl || s.device.mode_excl ≡ false = ground arith in
      opened-shared s.files f s.device.mode_excl b (v.shared (ground arith));
}

release_count :
    (s : System) (i : ℕ) (f : File)
    → get_elem? s.files i ≡ some f
    → IsValid s
    → (backfire_release f s.device).open_cnt ≡ pos (length (remove s.files i))
unfolding backfire_release
release_count s i f e v = ground (arith, v.counted, length-remove s.files i f e)

released-IsValid :
    (s : System) (i : ℕ) (f : File)
    → get_elem? s.files i ≡ some f
    → IsValid s
    → IsValid (record { device = backfire_release f s.device; files = remove s.files i })
released-IsValid s i f e v =
    let kept = release-keeps_excl i f v e in
    record {
      counted = release_count s i f e v;
      excluded = λ x. omega (arith, length-remove s.files i f e, v.excluded (sym kept ∙ x));
      shared = λ x j g h.
          let (k, e') = get_elem?-remove s.files i j g h in v.shared (sym kept ∙ x) k g e';
    }

written-IsValid :
    (s : System) (parsed : Option ℤ) (now : Timeval) (size : ℕ)
    → IsValid s
    → IsValid (record { device = (backfire_write parsed now size s.device).0; files = s.files })
unfolding backfire_write
written-IsValid s none now size v = record {
  counted = v.counted;
  excluded = v.excluded;
  shared = v.shared;
}
written-IsValid s (some n) now size v = elim (Bool-cases (ltb_ℤ (pos 0) n && ltb_ℤ n (pos 32))) [
  | inl q ↦ rw q (record { counted = v.counted; excluded = v.excluded; shared = v.shared })
  | inr q ↦ rw q (record { counted = v.counted; excluded = v.excluded; shared = v.shared })
]

-- Every step of the kernel on the device keeps the count equal to the number of open files, and
-- the O_EXCL bit set with at most one file open, or clear with no open file opened by O_EXCL.
pub Step-IsValid : {s t : System} → Step s t → IsValid s → IsValid t
Step-IsValid {s} (opened f d e) v = opened-IsValid s f d e v
Step-IsValid {s} (refused f e) v = v
Step-IsValid {s} (released i f e) v = released-IsValid s i f e v
Step-IsValid {s} (written parsed now size) v = written-IsValid s parsed now size v

Reach-IsValid : {s t : System} → IsValid s → Reach s t → IsValid t
Reach-IsValid v here = v
Reach-IsValid v (next r st) = Step-IsValid st (Reach-IsValid v r)

start-IsValid : IsValid start
start-IsValid = record { counted = refl; excluded = λ x. cc; shared = λ x i f h. cc }

-- In every state reached from a freshly loaded driver, a file opened by O_EXCL is the only open
-- file, and the count of the driver is 1.
pub exclusive_alone :
    {t : System} (i : ℕ) (f : File)
    → Reach start t
    → get_elem? t.files i ≡ some f
    → f.o_excl ≡ true
    → (length t.files ≡ 1) × (t.device.open_cnt ≡ pos 1)
exclusive_alone {t} i f r e x =
    let v = Reach-IsValid start-IsValid r in
    let l = length-remove t.files i f e in
    elim (Bool-cases t.device.mode_excl) [
      | inl m ↦ let few = v.excluded m in (omega arith, v.counted ∙ ap pos (omega arith))
      | inr m ↦ absurd (false≢true (sym (v.shared m i f e) ∙ x))
    ]

Step-keeps_excl :
    {s t : System} → IsValid s → Step s t → s.device.mode_excl ≡ true → t.device.mode_excl ≡ true
unfolding backfire_open backfire_write
Step-keeps_excl {s} v (opened f d e) m = ground arith
Step-keeps_excl v (refused f e) m = m
Step-keeps_excl v (released i f e) m = release-keeps_excl i f v e ∙ m
Step-keeps_excl v (written none now size) m = m
Step-keeps_excl v (written (some n) now size) m = ground arith

Reach-keeps_excl :
    {s t : System} → IsValid s → Reach s t → s.device.mode_excl ≡ true → t.device.mode_excl ≡ true
Reach-keeps_excl v here m = m
Reach-keeps_excl v (next r st) m = Step-keeps_excl (Reach-IsValid v r) st (Reach-keeps_excl v r m)

open_of_excl : (f : File) (d : Device) → d.mode_excl ≡ true → backfire_open f d ≡ none
unfolding backfire_open
open_of_excl f d m = ground arith

opened_excl :
    (f : File) (d d' : Device) → f.o_excl ≡ true → backfire_open f d ≡ some d' → d'.mode_excl ≡ true
unfolding backfire_open
opened_excl f d d' x e = ground arith

-- Once a file has been opened by O_EXCL the device is busy for good: in every state reached
-- afterwards, also when that file has been released, every open is refused with -EBUSY.
pub exclusive_forever :
    {s t : System} (f : File) (d : Device)
    → Reach start s
    → f.o_excl ≡ true
    → backfire_open f s.device ≡ some d
    → Reach (record { device = d; files = f ∷ s.files }) t
    → (g : File) → backfire_open g t.device ≡ none
exclusive_forever {s} {t} f d r x e r' g =
    let v = opened-IsValid s f d e (Reach-IsValid start-IsValid r) in
    open_of_excl g t.device (Reach-keeps_excl v r' (opened_excl f s.device d x e))
