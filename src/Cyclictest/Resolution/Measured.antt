-- ===== src/Cyclictest/Resolution/Measured.antt =====
-- The resolution that the readings show.
use mathlib.Core.Path.{subst}
use native.Mathlib.Nat.{add-mul, mul-le-mul_right}
use rt_tests.Base.{
  ap, ℕ_discrete, dec_lt, ◌≢◌, ◌∙◌, ℕ, suc, ◌+◌, ◌-◌, ◌*◌, ◌^◌, ◌<◌, ◌≤◌, ◌≡◌, ◌⊎◌, inl, inr, refl,
  All, ◌&&◌, not, List, [], ◌∷◌, arith, ltb, ◌==◌, if◌then◌else◌,
}
use rt_tests.Base.Int.{sub_ℕ}
use rt_tests.Base.Word.{to_u64}
use rt_tests.Cyclictest.Time.{Timespec, calcdiff_ns, total}
use rt_tests.Cyclictest.Time.Diff.{FitsInt, calcdiff_ns_lem}
use rt_tests.Cyclictest.Resolution.{uint64_max, min_diff, min_non_zero_diff}

-- A reading of a clock that ticks every `res` nanoseconds.
pub record IsTick (res : ℕ) (t : Timespec) : Type 0 where
  pub fits : FitsInt t
  pub tick : ℕ
  pub at : total t ≡ tick * res

-- Readings behind `prev`, none earlier than the one before it.
abbrev pub AreTicks : ℕ → Timespec → List Timespec → Type 0
AreTicks res prev [] = Unit
AreTicks res prev (t ∷ ts) = (IsTick res t × (total prev ≤ total t)) × AreTicks res t ts

abbrev pub AllSame : Timespec → List Timespec → Type 0
AllSame prev [] = Unit
AllSame prev (t ∷ ts) = (total t ≡ total prev) × AllSame t ts

-- A whole number of ticks, one or more.
abbrev pub IsStep : ℕ → ℕ → Type 0
IsStep res d = (k : ℕ) × (d ≡ suc k * res)

to_u64_sub : (x y : ℕ) → y ≤ x → x < 2 ^ 64 → to_u64 (sub_ℕ x y) ≡ x - y
unfolding to_u64
to_u64_sub x y h k = ground arith

fits_u64 : (t : Timespec) → FitsInt t → total t < uint64_max
fits_u64 t f = omega (arith, f.seconds, f.normal)

diff_ns :
    (a b : Timespec)
    → FitsInt a
    → FitsInt b
    → total b ≤ total a
    → (to_u64 (calcdiff_ns a b) ≡ total a - total b) × (total a - total b < uint64_max)
diff_ns a b fa fb h =
    let k = fits_u64 a fa in
    (rw (calcdiff_ns_lem a b fa fb) (to_u64_sub (total a) (total b) h (omega arith)), omega arith)

ticks_between : (res x y i k : ℕ) → x ≡ i * res → y ≡ k * res → y < x → IsStep res (x - y)
ticks_between res x y i k e f h = elim (dec_lt k i) [
  | yes lt ↦
      let count : k + suc (i - k - 1) ≡ i = omega arith in
      (i - k - 1, omega (arith, ap (λ z. z * res) count, add-mul k (suc (i - k - 1)) res))
  | no ge ↦ let low : i ≤ k = omega arith in absurd (omega (arith, mul-le-mul_right res low))
]

diff-IsStep :
    (res : ℕ) (a b : Timespec)
    → IsTick res a
    → IsTick res b
    → total b < total a
    → IsStep res (total a - total b)
diff-IsStep res a b ta tb h = ticks_between res (total a) (total b) ta.tick tb.tick ta.at tb.at h

-- What a run of the loop from `least` gives.
abbrev Measures : ℕ → ℕ → Timespec → List Timespec → Type 0
Measures res least prev ts =
    (AllSame prev ts × (min_diff least prev ts ≡ least)) ⊎ IsStep res (min_diff least prev ts)

-- From a difference found before, the loop gives a difference.
from_IsStep :
    (res least : ℕ) (prev : Timespec) (ts : List Timespec)
    → IsStep res least
    → Measures res least prev ts
    → IsStep res (min_diff least prev ts)
from_IsStep res least prev ts (k, e) (inl (same, f)) = (k, f ∙ e)
from_IsStep res least prev ts l (inr h) = h

min_diff-same :
    (least d : ℕ) → ◌≡◌ {A = ℕ} d 0 → (if not (d == 0) && ltb d least then d else least) ≡ least
min_diff-same least d h = ground arith

min_diff_next :
    (res least d : ℕ)
    → (least ≡ uint64_max) ⊎ IsStep res least
    → d ≢ 0
    → d < uint64_max
    → IsStep res d
    → IsStep res (if not (d == 0) && ltb d least then d else least)
min_diff_next res least d l ne small (k, s) = elim (dec_lt d least) [
  | yes lt ↦
      let picked : (if not (d == 0) && ltb d least then d else least) ≡ d = ground arith in
      (k, picked ∙ s)
  | no ge ↦
      let kept : (if not (d == 0) && ltb d least then d else least) ≡ least = ground arith in
      elim l [ inl e ↦ absurd (omega arith) | inr (m, f) ↦ (m, kept ∙ f) ]
]

-- A reading that is not later than the one before it is passed over.
min_diff-again :
    (res least d : ℕ) (prev t : Timespec) (ts : List Timespec)
    → ◌≡◌ {A = ℕ} d 0
    → total t ≡ total prev
    → Measures res least t ts
    → (AllSame prev (t ∷ ts)
        × (min_diff (if not (d == 0) && ltb d least then d else least) t ts ≡ least))
      ⊎ IsStep res (min_diff (if not (d == 0) && ltb d least then d else least) t ts)
min_diff-again res least d prev t ts z h (inl (same, f)) =
    inl ((h, same), rw (min_diff-same least d z) f)
min_diff-again res least d prev t ts z h (inr (k, f)) = inr (k, rw (min_diff-same least d z) f)

min_diff_lem :
    (ts : List Timespec) (res least : ℕ) (prev : Timespec)
    → (least ≡ uint64_max) ⊎ IsStep res least
    → IsTick res prev
    → AreTicks res prev ts
    → Measures res least prev ts
unfolding min_diff
min_diff_lem [] res least prev l p a = inl (tt, refl)
min_diff_lem (t ∷ ts) res least prev l p ((q, up), a) =
    let (e, small) = diff_ns t prev q.fits p.fits up in
    let d = to_u64 (calcdiff_ns t prev) in
    elim (ℕ_discrete d 0) [
      | yes same ↦
          min_diff-again res least d prev t ts same (omega arith)
            (min_diff_lem ts res least t l q a)
      | no ne ↦
          let step : IsStep res d = rw e (diff-IsStep res t prev q p (omega arith)) in
          let next = min_diff_next res least d l ne (omega arith) step in
          inr (from_IsStep res _ t ts next (min_diff_lem ts res _ t (inr next) q a))
    ]

-- The nanoseconds from each reading to the next.
abbrev pub steps : Timespec → List Timespec → List ℕ
steps prev [] = []
steps prev (t ∷ ts) = (total t - total prev) ∷ steps t ts

abbrev pub Occurs : ℕ → List ℕ → Type 0
Occurs m [] = ⊥
Occurs m (d ∷ ds) = (m ≡ d) ⊎ Occurs m ds

-- The least of the numbers that are not 0.
pub record IsLeast (ds : List ℕ) (m : ℕ) : Type 0 where
  pub positive : m ≢ 0
  pub occurs : Occurs m ds
  pub least : All (λ d. (d ≡ 0) ⊎ (m ≤ d)) ds

-- One difference against the least one so far.
pick :
    (d least : ℕ)
    → let m = if not (d == 0) && ltb d least then d else least in
      ((d ≡ 0) ⊎ (m ≤ d)) × (m ≤ least) × ((m ≡ least) ⊎ ((m ≡ d) × (m ≢ 0)))
pick d least = ground arith

-- What the loop gives against the differences it has seen.
min_diff-least :
    (res least : ℕ) (prev : Timespec) (ts : List Timespec)
    → IsTick res prev
    → AreTicks res prev ts
    → let m = min_diff least prev ts in
      All (λ d. (d ≡ 0) ⊎ (m ≤ d)) (steps prev ts)
      × (m ≤ least)
      × ((m ≡ least) ⊎ ((m ≢ 0) × Occurs m (steps prev ts)))
unfolding min_diff
min_diff-least res least prev [] p a = (tt, omega arith, inl refl)
min_diff-least res least prev (t ∷ ts) p ((q, up), a) =
    let (e, small) = diff_ns t prev q.fits p.fits up in
    let d = to_u64 (calcdiff_ns t prev) in
    let (low, below, which) = pick d least in
    let (all, under, found) =
      min_diff-least res (if not (d == 0) && ltb d least then d else least) t ts q a in
    (
      (elim low [ inl z ↦ inl (omega arith) | inr l ↦ inr (omega arith) ], all),
      omega arith,
      elim found [
        | inr (ne, mem) ↦ inr (ne, inr mem)
        | inl same ↦ elim which [
          | inl kept ↦ inl (same ∙ kept)
          | inr (now, ne) ↦ inr (λ z. ne (omega arith), inl (same ∙ now ∙ e))
        ]
      ],
    )

-- No difference but 0 is possible where none is below 2 ^ 64 - 1.
none-AllSame :
    (res : ℕ) (prev : Timespec) (ts : List Timespec)
    → IsTick res prev
    → AreTicks res prev ts
    → All (λ d. (d ≡ 0) ⊎ (uint64_max ≤ d)) (steps prev ts)
    → AllSame prev ts
none-AllSame res prev [] p a h = tt
none-AllSame res prev (t ∷ ts) p ((q, up), a) (z, h) =
    let (e, small) = diff_ns t prev q.fits p.fits up in
    (
      elim z [ inl same ↦ omega arith | inr big ↦ absurd (omega arith) ],
      none-AllSame res t ts q a h,
    )

-- The readings of a clock that ticks every `res` nanoseconds, none earlier than the one before it and
-- their seconds within an int: the measured resolution is the least of the differences between
-- consecutive readings that are not 0, and a whole number of ticks, one or more; or, where all readings
-- are the same, it is 2 ^ 64 - 1.
pub min_non_zero_diff_lem :
    (res : ℕ) (first : Timespec) (later : List Timespec)
    → IsTick res first
    → AreTicks res first later
    → (AllSame first later × (min_non_zero_diff first later ≡ uint64_max))
      ⊎ (IsStep res (min_non_zero_diff first later)
          × IsLeast (steps first later) (min_non_zero_diff first later))
unfolding min_non_zero_diff
min_non_zero_diff_lem res first later p a =
    let (all, under, found) = min_diff-least res uint64_max first later p a in
    elim found [
      | inl e ↦ inl (
        none-AllSame res first later p a
            (subst (λ m. All (λ d. (d ≡ 0) ⊎ (m ≤ d)) (steps first later)) e all),
        e,
      )
      | inr (ne, mem) ↦ elim (min_diff_lem later res uint64_max first (inl refl) p a) [
        | inl same ↦ inl same
        | inr step ↦ inr (step, record { positive = ne; occurs = mem; least = all })
      ]
    ]
