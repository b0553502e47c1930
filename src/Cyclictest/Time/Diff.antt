-- ===== src/Cyclictest/Time/Diff.antt =====
-- calcdiff and calcdiff_ns measure the distance of two instants.
use rt_tests.Base.{ℕ, ◌+◌, ◌*◌, ◌^◌, ◌≤◌, ◌<◌, ◌≡◌, ap, arith}
use rt_tests.Base.Int.{
  int_laws, ℤ, pos, negsuc, pos_part, neg_part, ◌+ℤ◌, ◌*ℤ◌, ◌≤ℤ◌, sub_ℕ, div_trunc,
}
use rt_tests.Cyclictest.Time.{
  usec_per_sec, Timespec, nsec_per_sec, calcdiff, calcdiff_ns, int_diff, total, IsNormal,
}

-- The clock fits the `int` casts: seconds below 2 ^ 31, nanoseconds below a second.
pub record FitsInt (t : Timespec) : Type 0 where
  pub seconds : t.sec < 2 ^ 31
  pub normal : IsNormal t

int_diff_small : (a b : ℕ) → a < 2 ^ 31 → b < 2 ^ 31 → int_diff a b ≡ sub_ℕ a b
unfolding int_diff
int_diff_small a b ha hb = ground arith

-- Where the seconds of both fit an int, calcdiff_ns is the distance in nanoseconds.
pub calcdiff_ns_lem :
    (a b : Timespec) → FitsInt a → FitsInt b → calcdiff_ns a b ≡ sub_ℕ (total a) (total b)
unfolding calcdiff_ns ◌+ℤ◌ ◌*ℤ◌
calcdiff_ns_lem a b fa fb =
    rw (int_diff_small a.sec b.sec fa.seconds fb.seconds)
      (rw (int_diff_small a.nsec b.nsec (omega arith) (omega arith)) (ground arith))

-- Dividing by 1000 towards zero loses less than 1000.
div_trunc_parts :
    (z : ℤ)
    → (1000 * pos_part (div_trunc z 1000) ≤ pos_part z)
      × (pos_part z ≤ 1000 * pos_part (div_trunc z 1000) + 999)
      × (1000 * neg_part (div_trunc z 1000) ≤ neg_part z)
      × (neg_part z ≤ 1000 * neg_part (div_trunc z 1000) + 999)
unfolding div_trunc
div_trunc_parts (pos n) = ground arith
div_trunc_parts (negsuc n) = ground arith

ruleset micro_laws = (int_laws, div_trunc_parts)

micro_bounds :
    (s n d : ℤ)
    → nsec_per_sec *ℤ s +ℤ n ≡ d
    → (d ≤ℤ 1000 *ℤ (usec_per_sec *ℤ s +ℤ div_trunc n 1000) +ℤ pos 999)
      × (1000 *ℤ (usec_per_sec *ℤ s +ℤ div_trunc n 1000) ≤ℤ d +ℤ pos 999)
micro_bounds s n d e = let p = ap pos_part e in let q = ap neg_part e in omega micro_laws

-- Where the seconds of both fit an int, calcdiff is the distance in microseconds, with an error
-- below one microsecond in either direction.
calcdiff_lem :
    (a b : Timespec)
    → FitsInt a
    → FitsInt b
    → (sub_ℕ (total a) (total b) ≤ℤ 1000 *ℤ calcdiff a b +ℤ pos 999)
      × (1000 *ℤ calcdiff a b ≤ℤ sub_ℕ (total a) (total b) +ℤ pos 999)
unfolding calcdiff calcdiff_ns
calcdiff_lem a b fa fb =
    micro_bounds (int_diff a.sec b.sec) (int_diff a.nsec b.nsec) _ (calcdiff_ns_lem a b fa fb)

micro_nonneg :
    (s n d : ℤ)
    → nsec_per_sec *ℤ s +ℤ n ≡ d
    → pos 0 ≤ℤ d
    → pos 0 ≤ℤ usec_per_sec *ℤ s +ℤ div_trunc n 1000
micro_nonneg s n d e h = let p = ap pos_part e in let q = ap neg_part e in omega micro_laws

sub_ℕ_nonneg : (a b : ℕ) → b ≤ a → pos 0 ≤ℤ sub_ℕ a b
sub_ℕ_nonneg a b h = ground arith

-- For a at or after b neither difference is negative.
pub calcdiff_nonneg :
    (a b : Timespec)
    → FitsInt a
    → FitsInt b
    → total b ≤ total a
    → (pos 0 ≤ℤ calcdiff_ns a b) × (pos 0 ≤ℤ calcdiff a b)
unfolding calcdiff calcdiff_ns
calcdiff_nonneg a b fa fb h =
    let e = calcdiff_ns_lem a b fa fb in
    let p = sub_ℕ_nonneg (total a) (total b) h in
    (rw e p, micro_nonneg (int_diff a.sec b.sec) (int_diff a.nsec b.nsec) _ e p)
