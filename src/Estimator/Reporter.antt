-- ===== src/Estimator/Reporter.antt =====
-- `reporter_thread` of pd3_estimator.c: what it does with the maps that it took over. `Desk` has its
-- local variables beside the statics that it uses. What `malloc` gives at a call is a parameter, by the
-- number of the call. A fault is an access through NULL or outside an array.
use estimators.Prelude.{
  ℕ, ◌+◌, Bool, true, false, ◌&&◌, not, ◌==◌, if◌then◌else◌, List, [], ◌∷◌, ◌++◌, none, some,
}
use estimators.Ranges.{Store}
use estimators.Reorder.Containers.{Run, ok, ◌>>=◌, elem}
use estimators.Hashmap.{
  HashMap, HashMapKey, HashMapKeyType, Items, hmk_streamtuple, hmk_flowtuple, hashmap_force,
  put_item, set_flowtuple, zeroout_hashmap,
}
use estimators.Schedule.{DoubleOps, Schedule, schedule_outlets, schedule_reset, get_duration}
use estimators.Estimator.Values.{ReporterData, StateData, Value}
use estimators.Estimator.Service.{Config, accumulate_time, accumulate_flow}
use estimators.Estimator.Results.{RealOps, EstimatorResults, build_callback_results}

pub record Desk (Tree Queue : Type 0) : Type 0 where
  pub trackers : List HashMap
  pub state_data : HashMap
  pub items : Items (Value Tree Queue)
  pub free_hmis_local : List ℕ
  pub ranges : Store
  pub calls : ℕ

abbrev pub is_stream : HashMapKeyType → Bool
is_stream hmk_streamtuple = true
is_stream _ = false

abbrev pub is_flow : HashMapKeyType → Bool
is_flow hmk_flowtuple = true
is_flow _ = false

-- The byte that names the callback among the outlets.
abbrev pub letter_c : ℕ
letter_c = 99

module _ {Tree Queue : Type 0} where
  abbrev pub put_rep : Desk Tree Queue → ℕ → ReporterData → Desk Tree Queue
  put_rep desk p rd = record desk {
    items =
        put_item desk.items p
          (record (desk.items p) { value = record ((desk.items p).value) { rep_data = rd } });
  }

  abbrev pub put_state : Desk Tree Queue → ℕ → StateData Tree Queue → Desk Tree Queue
  put_state desk p st = record desk {
    items =
        put_item desk.items p
          (record (desk.items p) { value = record ((desk.items p).value) { state_data = st } });
  }

module _ {Tree Queue : Type 0} (bytes : HashMapKey → List ℕ) (blank : Value Tree Queue)
    (malloc : ℕ → ℕ) where
  -- `hashmap_force(hm, k, &free_hmis_local)`: the item, what becomes of the map, and the desk.
  unfoldable pub force_local :
      HashMap → HashMapKey → Desk Tree Queue → ℕ × HashMap × Desk Tree Queue
  unfolding hashmap_force
  force_local hm k desk =
      let forced =
        hashmap_force bytes blank (malloc desk.calls) desk.items hm k desk.free_hmis_local in
      (
        forced.item,
        forced.map,
        record desk { items = forced.store; free_hmis_local = forced.free; calls = desk.calls + 1 },
      )

  module _ (config : Config) where
    -- The loop over the trackers, for one stream: each of the maps, in order, and the desk.
    unfoldable pub track :
        HashMapKey → ReporterData → List HashMap → Desk Tree Queue → List HashMap × Desk Tree Queue
    unfolding force_local accumulate_time
    track k rd [] desk = ([], desk)
    track k rd (hm ∷ rest) desk =
        let (p, hm', forced) = force_local hm k desk in
        let timed = put_rep forced p (accumulate_time config (forced.items p).value.rep_data rd) in
        let (rest', done) = track k rd rest timed in (hm' ∷ rest', done)

    -- The consolidation of the streams among the items of a tracker into its flows. New flows go
    -- before the items that are left, so the list of items is the one of the start.
    unfoldable pub consolidate : List ℕ → HashMap → Desk Tree Queue → HashMap × Desk Tree Queue
    unfolding force_local accumulate_flow
    consolidate [] hm desk = (hm, desk)
    consolidate (p ∷ ps) hm desk =
        let key = (desk.items p).key in
        let (q, state_data, stated) = force_local desk.state_data key desk in
        let (g, hm', forced) =
          force_local hm (set_flowtuple key.stream) (record stated { state_data = state_data }) in
        let summed = put_rep forced g (
          accumulate_flow config (forced.items g).value.rep_data (forced.items p).value.rep_data) in
        let streamed = consolidate ps hm' summed in
        let skipped = consolidate ps hm desk in if is_stream key.keytype then streamed else skipped

    -- The results for the callback, one for each flow that has packets, in the order of the items.
    module _ (ops : RealOps) where
      unfoldable pub flow_results :
          List ℕ → Items (Value Tree Queue) → ℕ → List (EstimatorResults (RealOps.Real ops))
      unfolding build_callback_results
      flow_results [] h duration = []
      flow_results (p ∷ ps) h duration =
          let rest = flow_results ps h duration in
          let rd = (h p).value.rep_data in
          if is_flow (h p).key.keytype && not (rd.received.packet_count == 0)
          then build_callback_results ops config (h p).key.stream.flow_key rd duration ∷ rest
          else rest

      abbrev pub Told : Type 0
      Told = List (EstimatorResults (RealOps.Real ops))

      -- What is due of tracker `x`. The clock is read by `schedule_outlets` and by `schedule_reset`. The
      -- results are what the callback is told, the tracker, the schedule and the desk.
      unfoldable pub report_due :
          DoubleOps
          → Bool
          → ℕ
          → ℕ
          → ℕ
          → List ℕ
          → HashMap
          → Schedule
          → Desk Tree Queue
          → Run (Told × HashMap × Schedule × Desk Tree Queue)
      unfolding consolidate flow_results get_duration schedule_reset zeroout_hashmap
      report_due double has_cb time time' x outlets hm sch desk = do
        let (hm', summed) = consolidate hm.items hm desk
        duration ← get_duration sch x
        let told =
            if elem letter_c outlets && has_cb
            then flow_results hm'.items summed.items duration
            else []
        sch' ← schedule_reset double time' sch x
        let (cleared, free) = zeroout_hashmap hm' summed.free_hmis_local
        ok (told, cleared, sch', record summed { free_hmis_local = free })

      -- The loop over the trackers: what each of them, from `x` on, reports. `time` and `time'` give the
      -- two readings of the clock for a tracker.
      unfoldable pub report_all :
          DoubleOps
          → Bool
          → (ℕ → ℕ)
          → (ℕ → ℕ)
          → ℕ
          → List HashMap
          → Schedule
          → Desk Tree Queue
          → Run (Told × List HashMap × Schedule × Desk Tree Queue)
      unfolding report_due schedule_outlets
      report_all double has_cb time time' x [] sch desk = ok ([], [], sch, desk)
      report_all double has_cb time time' x (hm ∷ rest) sch desk = do
        outlets ← schedule_outlets (time x) sch x
        (told, hm', sch', reported) ← elim outlets [
          | none ↦ ok ([], hm, sch, desk)
          | some o ↦ report_due double has_cb (time x) (time' x) x o hm sch desk
        ]
        (told', rest', sch'', done) ← report_all double has_cb time time' (x + 1) rest sch' reported
        ok (told ++ told', hm' ∷ rest', sch'', done)
