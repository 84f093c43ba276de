-- ===== src/Estimator/Thread.antt =====
-- One round of `reporter_thread` of pd3_estimator.c, and the loop of its rounds. The tree and the queue
-- of the reorder data, `qsort`, the arithmetic of doubles, the clock, `malloc` and `calloc` are parameters.
use estimators.Prelude.{
  ℕ, zero, suc, Bool, not, ◌||◌, leb, ◌==◌, if◌then◌else◌, List, [], ◌∷◌, ◌++◌, map, replicate,
  Option, none, some,
}
use estimators.Seqno.{Sign}
use estimators.Packet.{packetdata_a2r}
use estimators.Loss.{no_loss}
use estimators.Loss.Report.{lossdata_a2r}
use estimators.Reorder.{no_reorder}
use estimators.Reorder.Containers.{SeqTree, SeqQueue, Run, ok, fault, unfinished, ◌>>=◌}
use estimators.Reorder.Report.{reorderdata_a2r}
use estimators.Hashmap.{HashMap, HashMapKey, Items, hashmap_retrieve, zeroout_hashmap}
use estimators.Hashmap.Lists.{empty_hashmap}
use estimators.Schedule.{DoubleOps, Schedule, schedule_parallelism}
use estimators.Estimator.Values.{ReporterData, Value}
use estimators.Estimator.Service.{Config, Service, reorder_wanted}
use estimators.Estimator.Results.{RealOps, EstimatorResults}
use estimators.Estimator.Reporter.{Desk, force_local, put_state, track, report_all}
use estimators.Estimator.Recycle.{recycle_earliest}

abbrev pub of_option {ℓ} : {A : Type ℓ} → Option A → Run A
of_option none = fault
of_option (some a) = ok a

-- What the reporter calls and what it was configured with. `past` is the address of the local
-- range of `lossdata_a2r`, and `fuel` a number of rounds for the loops of the reorder data.
pub record Setting : Type 1 where
  pub tree : SeqTree
  pub queue : SeqQueue
  pub ops : RealOps
  pub bytes : HashMapKey → List ℕ
  pub blank : Value (SeqTree.Tree tree) (SeqQueue.Queue queue)
  pub malloc : ℕ → ℕ
  pub tree_malloc : ℕ → Bool
  pub qsort : (ℕ → ℕ → Sign) → List ℕ → List ℕ
  pub calloc : ℕ → Bool
  pub double : DoubleOps
  pub past : ℕ
  pub fuel : ℕ
  pub has_cb : Bool
  pub config : Config

module _ (env : Setting) where
  abbrev pub TreeOf : Type 0
  TreeOf = SeqTree.Tree (Setting.tree env)

  abbrev pub QueueOf : Type 0
  QueueOf = SeqQueue.Queue (Setting.queue env)

  abbrev pub DeskOf : Type 0
  DeskOf = Desk TreeOf QueueOf

  abbrev pub ToldOf : Type 0
  ToldOf = List (EstimatorResults (RealOps.Real (Setting.ops env)))

  -- The ranges that a key has in the maps of later periods.
  abbrev pub future_ranges :
      Items (Value TreeOf QueueOf) → List HashMap → HashMapKey → List (Option (List ℕ))
  future_ranges h later k =
      map
        (λ hm. elim (hashmap_retrieve env.bytes h hm k).0 [
          | none ↦ none
          | some p ↦ some (h p).value.agg_data.loss.ranges
        ])
        later

  -- The aggregator's data of the item `p` become a reporter's, with the state of the item `st`.
  unfoldable pub convert : ℕ → ℕ → List HashMap → DeskOf → Run (ReporterData × DeskOf)
  unfolding packetdata_a2r lossdata_a2r reorderdata_a2r hashmap_retrieve
  convert p st later desk =
      let ad = (desk.items p).value.agg_data in
      let state = (desk.items st).value.state_data in
      let lossy = of_option (
        lossdata_a2r env.qsort env.calloc env.past desk.ranges no_loss ad.loss state.loss
          (future_ranges desk.items later (desk.items p).key)
          (Config.periods_to_wait env.config)) in
      do
        (ranges, loss, loss_state) ←
            if Config.loss_enabled env.config then lossy else ok (desk.ranges, no_loss, state.loss)
        (reorder_state, reorder) ←
            if reorder_wanted env.config
            then reorderdata_a2r env.tree env.queue env.tree_malloc
                (Config.reorder_enabled env.config) env.fuel ranges ad.reorder state.reorder
                no_reorder
            else ok (state.reorder, no_reorder)
        ok (
          record { received = packetdata_a2r ad.received; loss = loss; reorder = reorder },
          put_state (record desk { ranges = ranges }) st
              (record { loss = loss_state; reorder = reorder_state }),
        )

  -- The loop over the items of the earliest map.
  unfoldable pub take_streams : List ℕ → List HashMap → DeskOf → Run DeskOf
  unfolding force_local convert track
  take_streams [] later desk = ok desk
  take_streams (p ∷ ps) later desk =
      let key = (desk.items p).key in
      let (st, state_data, stated) =
        force_local env.bytes env.blank env.malloc desk.state_data key desk in
      do
        (rd, converted) ← convert p st later (record stated { state_data = state_data })
        let (trackers, tracked) =
            track env.bytes env.blank env.malloc env.config key rd converted.trackers converted
        take_streams ps later (record tracked { trackers = trackers })

  -- The service, the reporter's own variables without the copies of the stores, and the schedule.
  pub record Reporter : Type 0 where
    pub service : Service TreeOf QueueOf
    pub trackers : List HashMap
    pub state_data : HashMap
    pub calls : ℕ
    pub schedule : Schedule

  abbrev pub desk_of : Reporter → DeskOf
  desk_of r = record {
    trackers = r.trackers;
    state_data = r.state_data;
    items = r.service.items;
    free_hmis_local = r.service.free_hmis_local;
    ranges = r.service.ranges;
    calls = r.calls;
  }

  abbrev pub with_desk : Reporter → DeskOf → Reporter
  with_desk r desk = record r {
    service = record (r.service) {
      items = desk.items;
      free_hmis_local = desk.free_hmis_local;
      ranges = desk.ranges;
    };
    trackers = desk.trackers;
    state_data = desk.state_data;
    calls = desk.calls;
  }

  -- One round: the earliest map `m` is taken into the trackers, what is due is reported, and the storage
  -- is recycled.
  unfoldable pub process_map : (ℕ → ℕ) → (ℕ → ℕ) → ℕ → List ℕ → Reporter → Run (ToldOf × Reporter)
  unfolding take_streams report_all recycle_earliest
  process_map time time' m later r = do
    let hm = r.service.hashmaps m
    taken ← take_streams hm.items (map r.service.hashmaps later) (desk_of r)
    (told, trackers, schedule, reported) ←
        report_all env.bytes env.blank env.malloc env.config env.ops env.double env.has_cb time
          time' 0 taken.trackers r.schedule taken
    let done = with_desk r (record reported { trackers = trackers })
    service ← of_option (recycle_earliest done.service)
    ok (told, record done { service = service; schedule = schedule })

  -- With no map the code reads through NULL.
  unfoldable pub process_earliest : (ℕ → ℕ) → (ℕ → ℕ) → Reporter → Run (ToldOf × Reporter)
  unfolding process_map
  process_earliest time time' r = elim r.service.rep.working.maps [
    | [] ↦ fault
    | m ∷ later ↦ process_map time time' m later r
  ]

  -- `while (working_r.count >= periods_to_wait)`, with the two readings of the clock for each round.
  unfoldable pub process_hashmaps :
      ℕ → (ℕ → ℕ → ℕ) → (ℕ → ℕ → ℕ) → Reporter → Run (ToldOf × Reporter)
  unfolding process_earliest
  process_hashmaps zero time time' r =
      if leb (Config.periods_to_wait env.config) r.service.rep.working.count
      then unfinished
      else ok ([], r)
  process_hashmaps (suc rounds) time time' r =
      let more = (do
        (told, r') ← process_earliest (time rounds) (time' rounds) r
        (told', r'') ← process_hashmaps rounds time time' r'
        ok (told ++ told', r'')) in
      if leb (Config.periods_to_wait env.config) r.service.rep.working.count
      then more
      else ok ([], r)

  -- The end of the thread: the items of its maps go back to its free list.
  unfoldable pub clear_trackers : List HashMap → List ℕ → List HashMap × List ℕ
  unfolding zeroout_hashmap
  clear_trackers [] free = ([], free)
  clear_trackers (hm ∷ rest) free =
      let (cleared, free') = zeroout_hashmap hm free in
      let (rest', free'') = clear_trackers rest free' in (cleared ∷ rest', free'')

  unfoldable pub reporter_end : Reporter → Reporter
  unfolding clear_trackers zeroout_hashmap
  reporter_end r =
      let (trackers, free) = clear_trackers r.trackers r.service.free_hmis_local in
      let (state_data, free') = zeroout_hashmap r.state_data free in
      record r {
        service = record (r.service) { free_hmis_local = free' };
        trackers = trackers;
        state_data = state_data;
      }

  -- The thread's variables at its start; with no tracker, or no memory for them, it ends at once.
  unfoldable pub reporter_start : Bool → Service TreeOf QueueOf → Schedule → Option Reporter
  reporter_start calloc s sch =
      if schedule_parallelism sch == 0 || not calloc
      then none
      else some (record {
        service = s;
        trackers = replicate (schedule_parallelism sch) empty_hashmap;
        state_data = empty_hashmap;
        calls = 0;
        schedule = sch;
      })
