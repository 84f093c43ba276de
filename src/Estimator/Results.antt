-- ===== src/Estimator/Results.antt =====
-- `build_callback_results`: what a callback is told of a flow. `Real` is `double`, and the arithmetic on
-- it a parameter.
use estimators.Prelude.{
  ℕ, zero, suc, ◌+◌, ◌-◌, Bool, false, ◌||◌, ltb, ◌==◌, if◌then◌else◌, List, [], ◌∷◌, get_or,
  replicate,
}
use estimators.Prelude.Int.{ℤ, pos, negsuc}
use estimators.Loss.{LossDataR}
use estimators.Reorder.{ReorderDataR, reorder_max_extent, reorder_dt, reorder_window_size}
use estimators.Estimator.Values.{ReporterData}
use estimators.Estimator.Service.{Config}

-- The operators on `double` that the code uses.
pub record RealOps : Type 1 where
  pub Real : Type 0
  pub of_count : ℕ → Real
  pub plus_real : Real → Real → Real
  pub minus_real : Real → Real → Real
  pub times_real : Real → Real → Real
  pub over_real : Real → Real → Real

pub record LossResults (Real : Type 0) : Type 0 where
  pub packets_received : Real
  pub packets_dropped : Real
  pub value : Real
  pub consecutive_drops : Real
  pub autocorr : Real

pub record ReorderExtentResults : Type 0 where
  pub num_bins : ℕ
  pub bins : List ℕ
  pub assumed_drops : ℕ

pub record ReorderDensityBin : Type 0 where
  pub distance : ℤ
  pub frequency : ℕ

pub record ReorderDensityResults : Type 0 where
  pub num_bins : ℕ
  pub bins : List ReorderDensityBin

pub record EstimatorResults (Real : Type 0) : Type 0 where
  pub flow_key : List ℕ
  pub earliest : ℕ
  pub latest : ℕ
  pub duration : ℕ
  pub min_seq : ℕ
  pub max_seq : ℕ
  pub packet_count : ℕ
  pub loss : Bool
  pub loss_results : LossResults Real
  pub reorder_extent : Bool
  pub reorder_extent_results : ReorderExtentResults
  pub reorder_density : Bool
  pub reorder_density_results : ReorderDensityResults

-- `i - REORDER_DT`
abbrev pub distance_of : ℕ → ℤ
distance_of i = if ltb i reorder_dt then negsuc (reorder_dt - i - 1) else pos (i - reorder_dt)

-- The first `n` buckets from the `i`-th on, as the loops copy them, and how many of them are not 0.
unfoldable pub copy_bins : ℕ → ℕ → List ℕ → List ℕ
copy_bins zero i counts = []
copy_bins (suc n) i counts = get_or counts i 0 ∷ copy_bins n (i + 1) counts

unfoldable pub nonzero_bins : ℕ → ℕ → List ℕ → ℕ
nonzero_bins zero i counts = 0
nonzero_bins (suc n) i counts =
    let rest = nonzero_bins n (i + 1) counts in if ltb 0 (get_or counts i 0) then suc rest else rest

unfoldable pub density_bins : ℕ → ℕ → List ℕ → List ReorderDensityBin
density_bins zero i fd = []
density_bins (suc n) i fd =
    record { distance = distance_of i; frequency = get_or fd i 0 } ∷ density_bins n (i + 1) fd

abbrev pub no_bin : ReorderDensityBin
no_bin = record { distance = pos 0; frequency = 0 }

-- The extents, with the flag that there is something to say.
unfoldable pub extent_results : ReorderDataR → Bool × ReorderExtentResults
unfolding copy_bins nonzero_bins
extent_results rdr =
    let found = nonzero_bins reorder_max_extent 0 rdr.extent_to_count in
    (
      ltb 0 found || ltb 0 rdr.extent_assumed_drops,
      record {
        num_bins = if ltb 0 found then reorder_max_extent else 0;
        bins = copy_bins reorder_max_extent 0 rdr.extent_to_count;
        assumed_drops = rdr.extent_assumed_drops;
      },
    )

unfoldable pub density_results : ReorderDataR → Bool × ReorderDensityResults
unfolding nonzero_bins density_bins
density_results rdr =
    let found = nonzero_bins reorder_window_size 0 rdr.fd in
    (
      ltb 0 found || ltb 0 rdr.rd_assumed_drops,
      record {
        num_bins = if ltb 0 found then reorder_window_size else 0;
        bins = density_bins reorder_window_size 0 rdr.fd;
      },
    )

-- `memset(&results, 0, ...)`, part by part.
abbrev pub no_extents : ReorderExtentResults
no_extents = record { num_bins = 0; bins = replicate reorder_max_extent 0; assumed_drops = 0 }

abbrev pub no_densities : ReorderDensityResults
no_densities = record { num_bins = 0; bins = replicate reorder_window_size no_bin }

module _ (ops : RealOps) where
  open ops use {Real, of_count, plus_real, minus_real, times_real, over_real}

  abbrev pub no_losses : LossResults Real
  no_losses = record {
    packets_received = of_count 0;
    packets_dropped = of_count 0;
    value = of_count 0;
    consecutive_drops = of_count 0;
    autocorr = of_count 0;
  }

  -- `d != 0.0` holds just if the count is not 0.
  unfoldable pub loss_results_of : LossDataR → LossResults Real
  loss_results_of ldr =
      let r = of_count ldr.received in
      let d = of_count ldr.dropped in
      let c = of_count ldr.consecutive_drops in
      record {
        packets_received = r;
        packets_dropped = d;
        value = over_real d (plus_real r d);
        consecutive_drops = c;
        autocorr =
            if ldr.dropped == 0
            then of_count 0
            else over_real
                (minus_real (plus_real (times_real c r) (times_real c d)) (times_real d d))
                (times_real d r);
      }

  -- `flow_key` is the one of the item's key.
  unfoldable pub build_callback_results : Config → List ℕ → ReporterData → ℕ → EstimatorResults Real
  unfolding loss_results_of extent_results density_results
  build_callback_results config flow_key rep_data duration =
      let lossy = if config.loss_enabled then ltb 0 rep_data.loss.received else false in
      let extents : Bool × ReorderExtentResults =
        if config.reorder_enabled.extent
        then extent_results rep_data.reorder
        else (false, no_extents) in
      let densities : Bool × ReorderDensityResults =
        if config.reorder_enabled.density
        then density_results rep_data.reorder
        else (false, no_densities) in
      record {
        flow_key = flow_key;
        earliest = rep_data.received.earliest;
        latest = rep_data.received.latest;
        duration = duration;
        min_seq = rep_data.received.min_seq;
        max_seq = rep_data.received.max_seq;
        packet_count = rep_data.received.packet_count;
        loss = lossy;
        loss_results = if lossy then loss_results_of rep_data.loss else no_losses;
        reorder_extent = extents.0;
        reorder_extent_results = extents.1;
        reorder_density = densities.0;
        reorder_density_results = densities.1;
      }
