-- ===== src/Tests/Lives.antt =====
-- Runs of the life of the service, of its reports, and of the destructors.
use estimators.Prelude.{
  ℕ, ◌+◌, ◌-◌, ◌*◌, ◌/◌, ◌<◌, ◌≡◌, ◌≢◌, ◌↔◌, refl, arith, Bool, true, false, ◌==◌, if◌then◌else◌,
  List, [], ◌∷◌, replicate, some, get_or, get_elem?,
}
use estimators.Packet.{no_packets}
use estimators.Loss.{no_loss}
use estimators.Ranges.{single_range}
use estimators.Reorder.{reorder_max_extent, reorder_window_size}
use estimators.Reorder.Containers.{ok, Ends}
use estimators.Reorder.Report.{ReorderState}
use estimators.Hashmap.{Items, zeroed_item}
use estimators.Hashmap.Lists.{empty_hashmap}
use estimators.Schedule.{Schedule}
use estimators.Estimator.Values.{Value, zero_value, ReporterData}
use estimators.Estimator.Service.{Config, no_holding, Service}
use estimators.Estimator.Results.{RealOps, distance_of, build_callback_results}
use estimators.Estimator.Bins.{results-bins}
use estimators.Estimator.Thread.{Setting, Reporter, process_hashmaps}
use estimators.Estimator.Batches.{process_hashmaps-zero}
use estimators.Estimator.Lifecycle.{
  EstimatorOptions, Life, pd3_estimator_init, pd3_estimator_destroy,
}
use estimators.Estimator.Restart.{Outcome, parsed, specs_of, init-Outcome}
use estimators.Estimator.Freed.{Destroyed, destroy-Destroyed}
use estimators.Tests.Containers.{list_tree, list_queue}

abbrev idle_state : ReorderState (List ℕ) (List ℕ)
idle_state = record {
  initialized = false;
  ex = record {
    num_arrivals = 0;
    next_exp = 0;
    missing_packets = [];
    missing = λ k. record { observed = false; ref_index = 0 };
  };
  rd = record { state = 0; ri = 0; window_initialized = false; window = 4 ∷ []; buffer = [] };
}

abbrev pub idle_value : Value (List ℕ) (List ℕ)
idle_value = zero_value idle_state

abbrev idle_items : Items (Value (List ℕ) (List ℕ))
idle_items p = zeroed_item idle_value

abbrev no_batches : Config
no_batches = record {
  loss_enabled = true;
  reorder_enabled = record { extent = true; density = true };
  periods_to_wait = 0;
}

abbrev one_service : Service (List ℕ) (List ℕ)
one_service = record {
  agg = record no_holding { free_hashmapitems = 6 ∷ [] };
  shared = no_holding;
  rep = no_holding;
  free_hmis_local = 7 ∷ 8 ∷ [];
  reporter_sleeping = false;
  hashmaps = λ q. empty_hashmap;
  items = idle_items;
  ranges = λ p. single_range 0;
}

abbrev without_items : Schedule
without_items = record { timezero = 0; nitems = 0; schedule = [] }

abbrev no_life : Life (List ℕ) (List ℕ)
no_life = record {
  pd3_estimator_started = false;
  pd3_estimator_done = false;
  init_mutex = false;
  has_cb = false;
  aggregator_interval = record { tv_sec = 0; tv_nsec = 0 };
  config = no_batches;
  schedule = without_items;
  service = one_service;
  aggregators = 0;
  reporters = 0;
}

-- `c,5`
abbrev options : EstimatorOptions
options = record {
  is_negative = false;
  aggregation_interval = record { tv_sec = 0; tv_nsec = 500 };
  reporter_schedule = 99 ∷ 44 ∷ 53 ∷ [];
  reporter_min_batches = 1;
  measure_loss = true;
  measure_reorder_extent = true;
  measure_reorder_density = false;
}

abbrev one_digit : List ℕ → ℕ
one_digit [] = 0
one_digit (c ∷ s) = c - 48

abbrev not_zero : List ℕ → Bool
not_zero s = false

init-Outcome_example :
    Ends
      (λ r.
        Ends
          (Outcome true false (specs_of options) no_life r)
          (pd3_estimator_init one_digit not_zero true 100 true false (some options) true no_life))
      (parsed one_digit not_zero 100 options no_life)
init-Outcome_example =
    init-Outcome one_digit not_zero 100 true false options true no_life refl refl refl refl

abbrev one_life : Life (List ℕ) (List ℕ)
one_life = record no_life { pd3_estimator_started = true }

-- One free map, and one for a period, with an item.
abbrev full_service : Service (List ℕ) (List ℕ)
full_service = record one_service {
  agg = record no_holding {
    free_hashmaps = record { count = 1; maps = 40 ∷ [] };
    working = record { count = 1; maps = 41 ∷ [] };
  };
  hashmaps = λ q. if q == 41 then record empty_hashmap { items = 9 ∷ [] } else empty_hashmap;
}

destroy-Destroyed_example :
    Ends
      (Destroyed list_tree list_queue 2 full_service)
      (pd3_estimator_destroy list_tree list_queue 2 true true full_service one_life)
destroy-Destroyed_example =
    destroy-Destroyed list_tree list_queue 2 full_service one_life refl refl (λ p. omega arith)
      (
        (λ e. absurd (omega arith), (λ e. absurd (omega arith), tt)),
        ((λ e. absurd (omega arith), tt), (tt, tt)),
      )
      ((λ e. absurd (omega arith), tt), (tt, tt))

-- Numbers in place of `double`.
abbrev counting : RealOps
counting = record {
  Real = ℕ;
  of_count = λ n. n;
  plus_real = λ x y. x + y;
  minus_real = λ x y. x - y;
  times_real = λ x y. x * y;
  over_real = λ x y. x / y;
}

abbrev one_report : ReporterData
one_report = record {
  received = no_packets;
  loss = no_loss;
  reorder = record {
    extent_to_count = 0 ∷ 3 ∷ replicate 254 0;
    fd = 2 ∷ replicate 16 0;
    extent_assumed_drops = 0;
    rd_assumed_drops = 0;
  };
}

results-bins_example :
    let r = build_callback_results counting no_batches (1 ∷ []) one_report 5 in
    ((j : ℕ)
      → j < reorder_max_extent
      → get_or r.reorder_extent_results.bins j 0 ≡ get_or one_report.reorder.extent_to_count j 0)
    × ((r.reorder_extent ≡ false) ↔ (
        ((j : ℕ) → j < reorder_max_extent → get_or one_report.reorder.extent_to_count j 0 ≡ 0)
        × (one_report.reorder.extent_assumed_drops ≡ 0)))
    × ((j : ℕ)
        → j < reorder_window_size
        → get_elem? r.reorder_density_results.bins j
          ≡ some
              (record { distance = distance_of j; frequency = get_or one_report.reorder.fd j 0 }))
    × ((r.reorder_density ≡ false) ↔ (
        ((j : ℕ) → j < reorder_window_size → get_or one_report.reorder.fd j 0 ≡ 0)
        × (one_report.reorder.rd_assumed_drops ≡ 0)))
results-bins_example = results-bins counting no_batches (1 ∷ []) one_report 5 refl refl

abbrev pub setting : Setting
setting = record {
  tree = list_tree;
  queue = list_queue;
  ops = counting;
  bytes = λ k. k.stream.flow_key;
  blank = idle_value;
  malloc = λ n. 100 + n;
  tree_malloc = λ n. true;
  qsort = λ cmp xs. xs;
  calloc = λ n. true;
  double = record { ceil_div = λ a b. a; product = λ a b. a * b };
  past = 50;
  fuel = 10;
  has_cb = true;
  config = no_batches;
}

abbrev idle_reporter : Reporter setting
idle_reporter = record {
  service = one_service;
  trackers = empty_hashmap ∷ [];
  state_data = empty_hashmap;
  calls = 0;
  schedule = without_items;
}

abbrev clock : ℕ → ℕ → ℕ
clock round x = round

process_hashmaps-zero_example :
    process_hashmaps setting 3 clock clock idle_reporter ≢ ok ([], idle_reporter)
process_hashmaps-zero_example =
    process_hashmaps-zero setting refl 3 clock clock idle_reporter ([], idle_reporter)
