-- ===== src/Estimator/Intervals.antt =====
-- Times as numbers of nanoseconds: how the intervals of the aggregator advance.
use estimators.Prelude.{ℕ, ◌+◌, ◌*◌, ◌<◌, ◌≡◌, ◌↔◌, arith}
use estimators.Seqno.{minus, null, plus}
use estimators.Estimator.{Timespec, one_second, set_next_interval, time_cmp}

-- The nanoseconds are less than a second.
pub record IsNormal (t : Timespec) : Type 0 where
  pub below : t.tv_nsec < one_second

abbrev pub nanoseconds : Timespec → ℕ
nanoseconds t = t.tv_sec * one_second + t.tv_nsec

-- On normal times the comparison is that of the numbers of nanoseconds.
time_cmp-nanoseconds :
    (s t : Timespec)
    → IsNormal s
    → IsNormal t
    → ((time_cmp s t ≡ plus) ↔ (nanoseconds t < nanoseconds s))
      × ((time_cmp s t ≡ null) ↔ (nanoseconds s ≡ nanoseconds t))
      × ((time_cmp s t ≡ minus) ↔ (nanoseconds s < nanoseconds t))
unfolding time_cmp
time_cmp-nanoseconds s t h k = ground (arith, h.below, k.below)

-- The end of the interval stays normal and advances by the nanoseconds of the increment only: its
-- seconds are not added.
pub set_next_interval-nanoseconds :
    (tv incr : Timespec)
    → IsNormal tv
    → IsNormal incr
    → IsNormal (set_next_interval tv incr)
      × (nanoseconds (set_next_interval tv incr) + incr.tv_sec * one_second
          ≡ nanoseconds tv + nanoseconds incr)
unfolding set_next_interval
set_next_interval-nanoseconds tv incr h k =
    (record { below = ground (arith, h.below, k.below) }, ground (arith, h.below, k.below))
