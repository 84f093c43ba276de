-- ===== src/Estimator/Lifecycle.antt =====
-- `pd3_estimator_init` and `pd3_estimator_destroy` of pd3_estimator.c. The options' `double`, the
-- allocations, the clock and what pthread does are parameters.
use estimators.Prelude.{
  ℕ, ◌+◌, ◌-◌, Bool, true, false, not, ◌||◌, if◌then◌else◌, List, [], ◌++◌, Option, none, some,
  take,
}
use estimators.Ranges.{free_seqnorangelist}
use estimators.Fistq.Registry.{Called, returns, deadlock}
use estimators.Reorder.Containers.{SeqTree, SeqQueue, Run, ok, ◌>>=◌}
use estimators.Hashmap.Lists.{no_maps}
use estimators.Schedule.{Schedule, set_schedule, destroy_schedule}
use estimators.Estimator.{Timespec}
use estimators.Estimator.Service.{Config, Service, no_holding}
use estimators.Estimator.Destroy.{
  Freed, nothing_freed, freed_then, hashmap_item_list_destroy, hashmap_list_destroy,
}

-- `aggregation_interval` is split into whole seconds and the nanoseconds of its fraction.
pub record EstimatorOptions : Type 0 where
  pub is_negative : Bool
  pub aggregation_interval : Timespec
  pub reporter_schedule : List ℕ
  pub reporter_min_batches : ℕ
  pub measure_loss : Bool
  pub measure_reorder_extent : Bool
  pub measure_reorder_density : Bool

-- The statics. `aggregators` and `reporters` are the threads that run.
pub record Life (Tree Queue : Type 0) : Type 0 where
  pub pd3_estimator_started : Bool
  pub pd3_estimator_done : Bool
  pub init_mutex : Bool
  pub has_cb : Bool
  pub aggregator_interval : Timespec
  pub config : Config
  pub schedule : Schedule
  pub service : Service Tree Queue
  pub aggregators : ℕ
  pub reporters : ℕ

-- `strncpy(schedule, ..., sizeof(schedule) - 1)` after the `memset`.
abbrev pub schedule_size : ℕ
schedule_size = 128

module _ {Tree Queue : Type 0} where
  -- The assignments before the schedule is set. The free items of the shared area and of the reporter
  -- are not touched.
  unfoldable pub store_options : EstimatorOptions → Bool → Life Tree Queue → Life Tree Queue
  store_options o has_cb l = record l {
    has_cb = has_cb;
    aggregator_interval = o.aggregation_interval;
    config = record (l.config) { periods_to_wait = o.reporter_min_batches };
    service = record (l.service) {
      agg = record (l.service.agg) {
        free_hashmaps = no_maps;
        free_hashmapitems = [];
        free_lossranges = [];
        free_reorderranges = [];
      };
      reporter_sleeping = false;
    };
  }

  -- `reorderdata_init` is only called if one of its metrics is wanted.
  unfoldable pub store_metrics : EstimatorOptions → Life Tree Queue → Life Tree Queue
  store_metrics o l = record l {
    config = record (l.config) {
      loss_enabled = o.measure_loss;
      reorder_enabled =
          if o.measure_reorder_extent || o.measure_reorder_density
          then record { extent = o.measure_reorder_extent; density = o.measure_reorder_density }
          else record { extent = false; density = false };
    };
  }

  -- The two calls of `pthread_create`, which succeed or not.
  unfoldable pub create_threads : Bool → Bool → Life Tree Queue → Called (Bool × Life Tree Queue)
  create_threads agg_created rep_created l =
      let running = record l { aggregators = l.aggregators + 1 } in
      if not agg_created
      then returns (false, record l { init_mutex = false })
      else if not rep_created
      then returns (false, record running { init_mutex = false })
      else returns (
        true,
        record running {
          reporters = l.reporters + 1;
          pd3_estimator_started = true;
          init_mutex = false;
        },
      )

  module _ (micros : List ℕ → ℕ) (is_zero : List ℕ → Bool) where
    -- With `init_mutex` held, and not started yet.
    unfoldable pub init_service :
        Bool
        → ℕ
        → Bool
        → Bool
        → EstimatorOptions
        → Bool
        → Life Tree Queue
        → Run (Called (Bool × Life Tree Queue))
    unfolding store_options store_metrics create_threads set_schedule
    init_service calloc time agg_created rep_created o has_cb l = do
      let stored = store_options o has_cb (record l { init_mutex = true })
      (valid, schedule) ←
          set_schedule micros is_zero calloc time (take (schedule_size - 1) o.reporter_schedule)
            l.schedule
      let scheduled = record stored { schedule = schedule }
      ok (
          if not valid
          then returns (false, scheduled)
          else create_threads agg_created rep_created (store_metrics o scheduled))

    -- The flag is false for the return of -1. `none` is NULL.
    unfoldable pub pd3_estimator_init :
        Bool
        → ℕ
        → Bool
        → Bool
        → Option EstimatorOptions
        → Bool
        → Life Tree Queue
        → Run (Called (Bool × Life Tree Queue))
    unfolding init_service
    pd3_estimator_init calloc time agg_created rep_created none has_cb l = ok (returns (false, l))
    pd3_estimator_init calloc time agg_created rep_created (some o) has_cb l =
        if o.is_negative
        then ok (returns (false, l))
        else if l.init_mutex
        then ok deadlock
        else if l.pd3_estimator_started
        then ok (returns (true, l))
        else init_service calloc time agg_created rep_created o has_cb l

module _ (tree : SeqTree) (queue : SeqQueue) (fuel : ℕ) where
  abbrev pub LifeOf : Type 0
  LifeOf = Life (SeqTree.Tree tree) (SeqQueue.Queue queue)

  -- The ranges of the six free lists.
  abbrev pub free_ranges : Service (SeqTree.Tree tree) (SeqQueue.Queue queue) → List ℕ
  free_ranges s =
      free_seqnorangelist s.agg.free_lossranges
      ++ free_seqnorangelist s.rep.free_lossranges
      ++ free_seqnorangelist s.shared.free_lossranges
      ++ free_seqnorangelist s.agg.free_reorderranges
      ++ free_seqnorangelist s.rep.free_reorderranges
      ++ free_seqnorangelist s.shared.free_reorderranges

  -- What is freed, in order, once the threads have ended.
  unfoldable pub free_storage : Service (SeqTree.Tree tree) (SeqQueue.Queue queue) → Run Freed
  unfolding free_seqnorangelist hashmap_item_list_destroy hashmap_list_destroy
  free_storage s =
      let of_items = hashmap_item_list_destroy tree queue fuel s.items in
      let of_maps = hashmap_list_destroy tree queue fuel s.items s.hashmaps in
      freed_then (ok (record nothing_freed { ranges = free_ranges s })) (
        freed_then (of_items s.free_hmis_local) (
          freed_then (of_items s.agg.free_hashmapitems) (
            freed_then (of_items s.rep.free_hashmapitems) (
              freed_then (of_items s.shared.free_hashmapitems) (
                freed_then (of_maps s.agg.free_hashmaps) (
                  freed_then (of_maps s.rep.free_hashmaps) (
                    freed_then (of_maps s.shared.free_hashmaps) (
                      freed_then (of_maps s.agg.working)
                        (freed_then (of_maps s.rep.working) (of_maps s.shared.working))))))))))

  -- Everything that the statics held is forgotten.
  unfoldable pub reset_statics : LifeOf → LifeOf
  unfolding destroy_schedule
  reset_statics l = record l {
    service = record (l.service) {
      agg = no_holding;
      shared = no_holding;
      rep = no_holding;
      free_hmis_local = [];
    };
    schedule = destroy_schedule l.schedule;
    pd3_estimator_started = false;
    pd3_estimator_done = false;
  }

  -- What `pd3_estimator_destroy` comes to, and what it freed; the two flags tell whether the calls of
  -- `pthread_join` succeed, and `last` is the service that the threads leave at their end.
  unfoldable pub pd3_estimator_destroy :
      Bool
      → Bool
      → Service (SeqTree.Tree tree) (SeqQueue.Queue queue)
      → LifeOf
      → Run (Called (Bool × LifeOf × Freed))
  unfolding free_storage reset_statics
  pd3_estimator_destroy agg_joined rep_joined last l =
      let ending = record l { pd3_estimator_done = true } in
      let agg_ended = record ending { aggregators = l.aggregators - 1 } in
      let ended = record agg_ended { reporters = l.reporters - 1; service = last } in
      let freed = free_storage last in
      if l.init_mutex
      then ok deadlock
      else if not l.pd3_estimator_started
      then ok (returns (true, l, nothing_freed))
      else if not agg_joined
      then ok (returns (false, ending, nothing_freed))
      else if not rep_joined
      then ok (returns (false, agg_ended, nothing_freed))
      else do storage ← freed; ok (returns (true, reset_statics ended, storage))
