-- ===== src/Estimator.antt =====
-- The aggregator's clock in pd3_estimator.c: the end of the present interval, and its comparison with
-- the time. The service itself is in the modules below.
pub mod Intervals
pub mod Values
pub mod Service
pub mod Results
pub mod Reporter
pub mod Recycle
pub mod Thread
pub mod Exchange
pub mod Streams
pub mod Destroy
pub mod Lifecycle
pub mod Handles
pub mod Restart
pub mod Rounds
pub mod Batches
pub mod Based
pub mod Progress
pub mod Drained
pub mod Sharing
pub mod Trackers
pub mod Flows
pub mod Totals
pub mod Bins
pub mod Freed
pub mod Aggregator
pub mod Storage
pub mod Periods
use estimators.Prelude.{ℕ, ◌+◌, ◌-◌, ◌*◌, leb, ltb, if◌then◌else◌}
use estimators.Seqno.{Sign, minus, null, plus}

pub record Timespec : Type 0 where
  pub tv_sec : ℕ
  pub tv_nsec : ℕ

abbrev pub one_ms : ℕ
one_ms = 1000 * 1000

abbrev pub one_second : ℕ
one_second = 1000 * one_ms

unfoldable pub set_next_interval : Timespec → Timespec → Timespec
set_next_interval tv incr =
    let nsec = tv.tv_nsec + incr.tv_nsec in
    if leb one_second nsec
    then record { tv_sec = tv.tv_sec + 1; tv_nsec = nsec - one_second }
    else record { tv_sec = tv.tv_sec; tv_nsec = nsec }

unfoldable pub time_cmp : Timespec → Timespec → Sign
time_cmp lhs rhs =
    if ltb rhs.tv_sec lhs.tv_sec
    then plus
    else if ltb lhs.tv_sec rhs.tv_sec
    then minus
    else if ltb rhs.tv_nsec lhs.tv_nsec
    then plus
    else if ltb lhs.tv_nsec rhs.tv_nsec
    then minus
    else null
