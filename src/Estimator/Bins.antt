-- ===== src/Estimator/Bins.antt =====
-- The histograms that `build_callback_results` hands to the callback, and when it says they are valid.
use estimators.Prelude.{
  ℕ, zero, suc, ◌+◌, ◌<◌, ◌≡◌, ◌↔◌, refl, ap, ◌∙◌, arith, true, false, ltb, ◌||◌, List, get_or,
  get_elem?, some,
}
use estimators.Reorder.{reorder_max_extent, reorder_window_size}
use estimators.Estimator.Values.{ReporterData}
use estimators.Estimator.Service.{Config}
use estimators.Estimator.Results.{
  RealOps, distance_of, copy_bins, nonzero_bins, density_bins, extent_results, density_results,
  build_callback_results,
}

copy_bins-get :
    (n i j : ℕ) (counts : List ℕ)
    → j < n
    → get_or (copy_bins n i counts) j 0 ≡ get_or counts (i + j) 0
unfolding copy_bins
copy_bins-get zero i j counts h = absurd (omega arith)
copy_bins-get (suc n) i zero counts h = ap (λ k. get_or counts k 0) (omega arith)
copy_bins-get (suc n) i (suc j) counts h =
    copy_bins-get n (i + 1) j counts (omega arith) ∙ ap (λ k. get_or counts k 0) (omega arith)

density_bins-get :
    (n i j : ℕ) (fd : List ℕ)
    → j < n
    → get_elem? (density_bins n i fd) j
      ≡ some (record { distance = distance_of (i + j); frequency = get_or fd (i + j) 0 })
unfolding density_bins
density_bins-get zero i j fd h = absurd (omega arith)
density_bins-get (suc n) i zero fd h =
    ap (λ k. some (record { distance = distance_of k; frequency = get_or fd k 0 })) (omega arith)
density_bins-get (suc n) i (suc j) fd h =
    density_bins-get n (i + 1) j fd (omega arith)
    ∙ ap (λ k. some (record { distance = distance_of k; frequency = get_or fd k 0 })) (omega arith)

-- All buckets from the `i`-th on are 0.
abbrev pub AllZero : ℕ → ℕ → List ℕ → Type 0
AllZero n i counts = (j : ℕ) → j < n → get_or counts (i + j) 0 ≡ 0

nonzero_bins-suc :
    (n i : ℕ) (counts : List ℕ)
    → (nonzero_bins (suc n) i counts ≡ 0)
      ↔ ((get_or counts i 0 ≡ 0) × (nonzero_bins n (i + 1) counts ≡ 0))
unfolding nonzero_bins
nonzero_bins-suc n i counts = ground arith

zero→AllZero : (n i : ℕ) (counts : List ℕ) → nonzero_bins n i counts ≡ 0 → AllZero n i counts
zero→AllZero zero i counts e j h = absurd (omega arith)
zero→AllZero (suc n) i counts e zero h =
    ap (λ k. get_or counts k 0) (omega arith) ∙ ((nonzero_bins-suc n i counts).0 e).0
zero→AllZero (suc n) i counts e (suc j) h =
    ap (λ k. get_or counts k 0) (omega arith)
    ∙ zero→AllZero n (i + 1) counts ((nonzero_bins-suc n i counts).0 e).1 j (omega arith)

AllZero→zero : (n i : ℕ) (counts : List ℕ) → AllZero n i counts → nonzero_bins n i counts ≡ 0
unfolding nonzero_bins
AllZero→zero zero i counts z = refl
AllZero→zero (suc n) i counts z = (nonzero_bins-suc n i counts).1 (
  ap (λ k. get_or counts k 0) (omega arith) ∙ z 0 (omega arith),
  AllZero→zero n (i + 1) counts
      (λ j h. ap (λ k. get_or counts k 0) (omega arith) ∙ z (suc j) (omega arith)),
)

flag_iff :
    (n drops : ℕ) (counts : List ℕ)
    → ((ltb 0 (nonzero_bins n 0 counts) || ltb 0 drops) ≡ false)
      ↔ (((j : ℕ) → j < n → get_or counts j 0 ≡ 0) × (drops ≡ 0))
flag_iff n drops counts = (
  λ e.
      let none_found : (nonzero_bins n 0 counts ≡ 0) × (drops ≡ 0) = ground (arith, e) in
      (
        λ j h. ap (λ k. get_or counts k 0) (omega arith) ∙ zero→AllZero n 0 counts none_found.0 j h,
        none_found.1,
      ),
  λ (z, none_dropped).
      let none_found =
        AllZero→zero n 0 counts (λ j h. ap (λ k. get_or counts k 0) (omega arith) ∙ z j h) in
      rw (none_found, none_dropped) refl,
)

-- With both metrics enabled, the callback is told the counts of all extents below 255 and of all
-- displacements, the latter with the displacement they stand for; and the extents, or the displacements,
-- are marked invalid exactly when all of these counts and the assumed drops are 0. The last bucket of
-- the extents, for 255 and more, has no part in either.
pub results-bins :
    (ops : RealOps) (config : Config) (flow_key : List ℕ) (rd : ReporterData) (duration : ℕ)
    → config.reorder_enabled.extent ≡ true
    → config.reorder_enabled.density ≡ true
    → let r = build_callback_results ops config flow_key rd duration in
      ((j : ℕ)
        → j < reorder_max_extent
        → get_or r.reorder_extent_results.bins j 0 ≡ get_or rd.reorder.extent_to_count j 0)
      × ((r.reorder_extent ≡ false) ↔ (
          ((j : ℕ) → j < reorder_max_extent → get_or rd.reorder.extent_to_count j 0 ≡ 0)
          × (rd.reorder.extent_assumed_drops ≡ 0)))
      × ((j : ℕ)
          → j < reorder_window_size
          → get_elem? r.reorder_density_results.bins j
            ≡ some (record { distance = distance_of j; frequency = get_or rd.reorder.fd j 0 }))
      × ((r.reorder_density ≡ false) ↔ (
          ((j : ℕ) → j < reorder_window_size → get_or rd.reorder.fd j 0 ≡ 0)
          × (rd.reorder.rd_assumed_drops ≡ 0)))
unfolding build_callback_results extent_results density_results
results-bins ops config flow_key rd duration e d =
    rw (e, d)
      (
        λ j h.
            copy_bins-get reorder_max_extent 0 j rd.reorder.extent_to_count h
            ∙ ap (λ k. get_or rd.reorder.extent_to_count k 0) (omega arith),
        flag_iff reorder_max_extent rd.reorder.extent_assumed_drops rd.reorder.extent_to_count,
        λ j h.
            density_bins-get reorder_window_size 0 j rd.reorder.fd h
            ∙ ap
                (λ k.
                  some (record { distance = distance_of k; frequency = get_or rd.reorder.fd k 0 }))
                (omega arith),
        flag_iff reorder_window_size rd.reorder.rd_assumed_drops rd.reorder.fd,
      )
