-- ===== src/Reorder/Accumulate.antt =====
-- What the accumulation does to each bucket of the two histograms.
use estimators.Prelude.{
  ℕ, zero, suc, ◌+◌, ◌≤◌, ◌≡◌, arith, true, ltb, leb, ◌==◌, ◌&&◌, if◌then◌else◌, List, length,
  length-set, get_or, set, get_or-set, add32,
}
use estimators.Reorder.{
  Enabled, ReorderDataR, reorder_max_extent, reorder_window_size, add_buckets,
  reorderdata_accumulate,
}

add_buckets-get :
    (n i j : ℕ) (to from : List ℕ)
    → i + n ≤ length to
    → get_or (add_buckets n i to from) j 0 ≡ (
        if leb i j && ltb j (i + n) then add32 (get_or to j 0) (get_or from j 0) else get_or to j 0)
unfolding add_buckets
add_buckets-get zero i j to from h = ground arith
add_buckets-get (suc n) i j to from h =
    let v = add32 (get_or to i 0) (get_or from i 0) in
    let rest = add_buckets-get n (i + 1) j (set to i v) from (omega (arith, length-set to i v)) in
    ground (arith, rest, get_or-set to i j v)

-- With both metrics enabled, accumulation adds every bucket of the distances, and every bucket of the
-- extents but the last one, number 255, where all extents from 255 on are counted: that one is left as
-- it was.
pub accumulate-buckets :
    (enabled : Enabled) (accum unit : ReorderDataR) (j : ℕ)
    → enabled.extent ≡ true
    → enabled.density ≡ true
    → length accum.extent_to_count ≡ reorder_max_extent + 1
    → length accum.fd ≡ reorder_window_size
    → j ≤ reorder_max_extent
    → (get_or (reorderdata_accumulate enabled accum unit).extent_to_count j 0 ≡ (
        if j == reorder_max_extent
        then get_or accum.extent_to_count j 0
        else add32 (get_or accum.extent_to_count j 0) (get_or unit.extent_to_count j 0)))
      × (get_or (reorderdata_accumulate enabled accum unit).fd j 0 ≡ (
          if ltb j reorder_window_size
          then add32 (get_or accum.fd j 0) (get_or unit.fd j 0)
          else get_or accum.fd j 0))
unfolding reorderdata_accumulate
accumulate-buckets enabled accum unit j e d l m h =
    rw (e, d)
      (
        ground (
          arith,
          add_buckets-get reorder_max_extent 0 j accum.extent_to_count unit.extent_to_count
              (omega arith),
        ),
        ground (arith, add_buckets-get reorder_window_size 0 j accum.fd unit.fd (omega arith)),
      )
