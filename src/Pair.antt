-- ===== src/Pair.antt =====
-- What pmqtest, ptsematest, svsematest and sigwaittest share: a sender and a receiver take turns, and
-- the receiver measures the time from each sending to its receipt. Their sources repeat this code; the
-- line numbers of its definitions are those of src/pmqtest/pmqtest.c.
pub mod Exchange
use rt_tests.Base.{ℕ, ◌+◌, ◌-◌, ◌^◌, Bool, List, [], ◌∷◌, ltb, if◌then◌else◌, not, ◌&&◌}
use rt_tests.Base.Int.{ℤ, pos, eqb_ℤ, leb_ℤ}
use rt_tests.Base.Word.{low32}

-- struct timeval, from gettimeofday: `usec` is below a million.
pub record Timeval : Type 0 where
  pub sec : ℕ
  pub usec : ℕ

-- The `tv_usec` of timersub(a, b), the only part of the difference that the programs read.
unfoldable pub timersub_usec : Timeval → Timeval → ℕ
timersub_usec a b = if ltb a.usec b.usec then a.usec + 1_000_000 - b.usec else a.usec - b.usec

-- `samples`, `mindiff`, `maxdiff`, `sumdiff` and `diff.tv_usec` of a receiver. `sumdiff`, a double,
-- sums whole numbers.
pub record Measured : Type 0 where
  pub samples : ℕ
  pub mindiff : ℕ
  pub maxdiff : ℕ
  pub sumdiff : ℕ
  pub diff : ℕ

-- As main leaves it, from calloc, UINT_MAX and 0.
abbrev pub unmeasured : Measured
unmeasured = record { samples = 0; mindiff = 2 ^ 32 - 1; maxdiff = 0; sumdiff = 0; diff = 0 }

-- `par->samples++; timersub(...); if (par->diff.tv_usec < par->mindiff) ...`
unfoldable pub note_diff : Timeval → Timeval → Measured → Measured
note_diff received sent m =
    let d = timersub_usec received sent in
    record {
      samples = m.samples + 1;
      mindiff = if ltb d m.mindiff then d else m.mindiff;
      maxdiff = if ltb m.maxdiff d then d else m.maxdiff;
      sumdiff = m.sumdiff + d;
      diff = d;
    }

-- `par->max_cycles && par->samples >= par->max_cycles`
unfoldable pub is_last : ℤ → ℕ → Bool
is_last max_cycles samples = not (eqb_ℤ max_cycles (pos 0)) && leb_ℤ max_cycles (pos samples)

-- `par->tracelimit && par->maxdiff > par->tracelimit`, a comparison of unsigned ints.
unfoldable pub is_traced : ℤ → ℕ → Bool
is_traced tracelimit maxdiff = not (eqb_ℤ tracelimit (pos 0)) && ltb (low32 tracelimit) maxdiff
