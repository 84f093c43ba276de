-- ===== src/Tests/Clocks.antt =====
-- Runs of the aggregator's clock.
use estimators.Prelude.{◌+◌, ◌*◌, ◌≡◌, arith}
use estimators.Estimator.{Timespec, one_second, set_next_interval}
use estimators.Estimator.Intervals.{IsNormal, nanoseconds, set_next_interval-nanoseconds}

abbrev late : Timespec
late = record { tv_sec = 7; tv_nsec = 900000000 }

abbrev increment : Timespec
increment = record { tv_sec = 2; tv_nsec = 300000000 }

late-IsNormal : IsNormal late
late-IsNormal = record { below = omega arith }

increment-IsNormal : IsNormal increment
increment-IsNormal = record { below = omega arith }

set_next_interval-nanoseconds_example :
    IsNormal (set_next_interval late increment)
    × (nanoseconds (set_next_interval late increment) + 2 * one_second
        ≡ nanoseconds late + nanoseconds increment)
set_next_interval-nanoseconds_example =
    set_next_interval-nanoseconds late increment late-IsNormal increment-IsNormal
