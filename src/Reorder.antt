-- ===== src/Reorder.antt =====
-- reorderdata.h and the entry points of reorderdata.c that the aggregator and the accumulation use.
pub mod Containers
pub mod Density
pub mod Extent
pub mod Report
pub mod Window
pub mod Histogram
pub mod Sound
pub mod Frame
pub mod Ended
pub mod Endless
pub mod Accumulate
pub mod Destroy
use estimators.Prelude.{
  ℕ, zero, suc, ◌+◌, ◌*◌, Bool, true, false, not, ◌&&◌, ◌==◌, if◌then◌else◌, List, [], ◌∷◌, ◌++◌,
  Option, none, some, get_or, set, replicate, add32, sub32,
}
use estimators.Ranges.{Store, write, single_range, take_range}

abbrev pub reorder_max_extent : ℕ
reorder_max_extent = 255

abbrev pub reorder_dt : ℕ
reorder_dt = 8

abbrev pub reorder_window_size : ℕ
reorder_window_size = reorder_dt * 2 + 1

abbrev pub reorder_max_history : ℕ
reorder_max_history = reorder_max_extent * 2

-- The statics that `reorderdata_init` sets.
pub record Enabled : Type 0 where
  pub extent : Bool
  pub density : Bool

pub record ReorderDataR : Type 0 where
  pub extent_to_count : List ℕ
  pub fd : List ℕ
  pub extent_assumed_drops : ℕ
  pub rd_assumed_drops : ℕ

-- `memset(..., 0, ...)`
abbrev pub no_reorder : ReorderDataR
no_reorder = record {
  extent_to_count = replicate (reorder_max_extent + 1) 0;
  fd = replicate reorder_window_size 0;
  extent_assumed_drops = 0;
  rd_assumed_drops = 0;
}

-- `counts[i]++`
abbrev pub increment : List ℕ → ℕ → List ℕ
increment counts i = set counts i (add32 (get_or counts i 0) 1)

-- The tail of a list is its last address; the list grows there.
abbrev pub last_of : List ℕ → Option ℕ
last_of [] = none
last_of (p ∷ []) = some p
last_of (p ∷ q ∷ ps) = last_of (q ∷ ps)

abbrev pub continues_tail : Store → Option ℕ → ℕ → Bool
continues_tail h none seqno = false
continues_tail h (some p) seqno = (h p).high == sub32 seqno 1 && not (seqno == 0)

abbrev pub extend_tail : Store → Option ℕ → ℕ → Store
extend_tail h none seqno = h
extend_tail h (some p) seqno = write h p (record (h p) { high = seqno })

-- `none` is the return of -1, which leaves everything as it was.
unfoldable pub reorderdata_arrival :
    Option ℕ → Store → List ℕ → ℕ → List ℕ → Option (Store × List ℕ × List ℕ)
reorderdata_arrival malloc h ranges seqno free =
    if continues_tail h (last_of ranges) seqno
    then some (extend_tail h (last_of ranges) seqno, ranges, free)
    else elim (take_range malloc free) [
      | none ↦ none
      | some (p, rest) ↦ some (write h p (single_range seqno), ranges ++ p ∷ [], rest)
    ]

-- `for (i = 0; i < n; i++) to[i] += from[i]`, with the rounds that are left.
unfoldable pub add_buckets : ℕ → ℕ → List ℕ → List ℕ → List ℕ
add_buckets zero i to from = to
add_buckets (suc n) i to from =
    add_buckets n (i + 1) (set to i (add32 (get_or to i 0) (get_or from i 0))) from

-- The static `reorderdata_accumulate`, which is all that both accumulations do.
unfoldable pub reorderdata_accumulate : Enabled → ReorderDataR → ReorderDataR → ReorderDataR
reorderdata_accumulate enabled accum unit = record {
  extent_to_count =
      if enabled.extent
      then add_buckets reorder_max_extent 0 accum.extent_to_count unit.extent_to_count
      else accum.extent_to_count;
  fd = if enabled.density then add_buckets reorder_window_size 0 accum.fd unit.fd else accum.fd;
  extent_assumed_drops =
      if enabled.extent
      then add32 accum.extent_assumed_drops unit.extent_assumed_drops
      else accum.extent_assumed_drops;
  rd_assumed_drops =
      if enabled.density
      then add32 accum.rd_assumed_drops unit.rd_assumed_drops
      else accum.rd_assumed_drops;
}
