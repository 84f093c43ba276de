-- ===== src/Estimator/Service.antt =====
-- The statics of pd3_estimator.c, the arrival of a packet, and the exchange of data between the
-- aggregator and the reporter. Each exchange runs under the mutex, so it is one step.
use estimators.Prelude.{
  ℕ, Bool, true, false, ◌||◌, ◌==◌, if◌then◌else◌, List, [], Option, none, some,
}
use estimators.Packet.{packetdata_arrival, packetdata_accumulate}
use estimators.Ranges.{Store, move_seqnorangelist}
use estimators.Loss.{lossdata_arrival, lossdata_accumulate_time, lossdata_accumulate_flows}
use estimators.Reorder.{Enabled, reorderdata_arrival, reorderdata_accumulate, last_of}
use estimators.Hashmap.{
  HashMap, HashMapKey, Items, StreamTuple, set_streamtuple, hashmap_force, put_item, move_hmilist,
}
use estimators.Hashmap.Lists.{
  HashMapList, no_maps, add_hashmap, moveone_hashmap, moveall_hashmap, put_map,
}
use estimators.Estimator.Values.{AggregatorData, ReporterData, Value}

-- The five lists that the aggregator (`..._a`), the reporter (`..._r`) and the shared area (`..._sh`)
-- have: the maps of the periods, and the free maps, items and ranges.
pub record Holding : Type 0 where
  pub working : HashMapList
  pub free_hashmaps : HashMapList
  pub free_hashmapitems : List ℕ
  pub free_lossranges : List ℕ
  pub free_reorderranges : List ℕ

-- What `pd3_estimator_init` takes from the options.
pub record Config : Type 0 where
  pub loss_enabled : Bool
  pub reorder_enabled : Enabled
  pub periods_to_wait : ℕ

-- The shared area is under `shared_mutex`; the maps, items and ranges lie in the three stores.
pub record Service (Tree Queue : Type 0) : Type 0 where
  pub agg : Holding
  pub shared : Holding
  pub rep : Holding
  pub free_hmis_local : List ℕ
  pub reporter_sleeping : Bool
  pub hashmaps : ℕ → HashMap
  pub items : Items (Value Tree Queue)
  pub ranges : Store

-- `reorder_extent_enabled || reorder_density_enabled`
abbrev pub reorder_wanted : Config → Bool
reorder_wanted config = config.reorder_enabled.extent || config.reorder_enabled.density

-- `to` takes the free lists of `from`. The results are `to` and `from`.
unfoldable pub move_freelists : Holding → Holding → Holding × Holding
unfolding moveall_hashmap move_hmilist move_seqnorangelist
move_freelists to from =
    let (maps, maps') = moveall_hashmap to.free_hashmaps from.free_hashmaps in
    let (items, items') = move_hmilist to.free_hashmapitems from.free_hashmapitems in
    let (loss, loss') = move_seqnorangelist to.free_lossranges from.free_lossranges in
    let (reorder, reorder') = move_seqnorangelist to.free_reorderranges from.free_reorderranges in
    (
      record to {
        free_hashmaps = maps;
        free_hashmapitems = items;
        free_lossranges = loss;
        free_reorderranges = reorder;
      },
      record from {
        free_hashmaps = maps';
        free_hashmapitems = items';
        free_lossranges = loss';
        free_reorderranges = reorder';
      },
    )

-- The results are the aggregator's and the shared lists.
unfoldable pub data_exchange_aggregator_unsafe : Holding → Holding → Holding × Holding
unfolding moveone_hashmap move_freelists
data_exchange_aggregator_unsafe agg shared =
    let (sh, a) = moveone_hashmap shared.working agg.working in
    move_freelists (record agg { working = a }) (record shared { working = sh })

-- The results are the shared and the reporter's lists.
unfoldable pub data_exchange_reporter_unsafe : Holding → Holding → Holding × Holding
unfolding moveall_hashmap move_freelists
data_exchange_reporter_unsafe shared rep =
    let (r, sh) = moveall_hashmap rep.working shared.working in
    let (shared', rep') =
      move_freelists (record shared { working = sh }) (record rep { working = r }) in
    (shared', rep')

abbrev pub pending_hashmaps : Holding → ℕ
pending_hashmaps shared = shared.working.count

abbrev pub no_holding : Holding
no_holding = record {
  working = no_maps;
  free_hashmaps = no_maps;
  free_hashmapitems = [];
  free_lossranges = [];
  free_reorderranges = [];
}

pub data Woken (Tree Queue : Type 0) : Type 0 where
  sleeps : Service Tree Queue → Woken Tree Queue
  stops : Service Tree Queue → Woken Tree Queue
  takes : Service Tree Queue → Woken Tree Queue

module _ {Tree Queue : Type 0} where
  -- The flag tells that the condition variable is signalled; `malloc` is the address of a new map.
  unfoldable pub period_transition : ℕ → Service Tree Queue → Bool × Service Tree Queue
  unfolding data_exchange_aggregator_unsafe add_hashmap
  period_transition malloc s =
      let (agg, shared) = data_exchange_aggregator_unsafe s.agg s.shared in
      let (working, free, maps) = add_hashmap malloc agg.working agg.free_hashmaps s.hashmaps in
      (
        s.reporter_sleeping,
        record s {
          agg = record agg { working = working; free_hashmaps = free };
          shared = shared;
          hashmaps = maps;
        },
      )

  -- The statics are 0, and the aggregator's thread adds the initial map.
  unfoldable pub started : ℕ → (ℕ → HashMap) → Items (Value Tree Queue) → Store → Service Tree Queue
  unfolding add_hashmap
  started malloc hashmaps items ranges =
      let (working, free, maps) = add_hashmap malloc no_maps no_maps hashmaps in
      record {
        agg = record no_holding { working = working };
        shared = no_holding;
        rep = no_holding;
        free_hmis_local = [];
        reporter_sleeping = false;
        hashmaps = maps;
        items = items;
        ranges = ranges;
      }

  -- The part of the reporter's loop under the mutex: it sleeps, it ends, or it takes the maps over.
  unfoldable pub reporter_wait : Bool → Service Tree Queue → Woken Tree Queue
  unfolding data_exchange_reporter_unsafe
  reporter_wait done s =
      let (shared, rep) = data_exchange_reporter_unsafe s.shared s.rep in
      if done
      then stops (record s { reporter_sleeping = false })
      else if pending_hashmaps s.shared == 0
      then sleeps (record s { reporter_sleeping = true })
      else takes (record s { shared = shared; rep = rep; reporter_sleeping = false })

-- What the allocations of one arrival give: the address of an item, and those of two ranges, if there is
-- memory for them.
pub record Mallocs : Type 0 where
  pub item : ℕ
  pub loss : Option ℕ
  pub reorder : Option ℕ

-- The data of a stream, the ranges' store and the two free lists of ranges.
abbrev pub Arrived : Type 0
Arrived = AggregatorData × Store × List ℕ × List ℕ

-- The caller ignores the result of the arrival.
unfoldable pub loss_arrival : Config → Option ℕ → ℕ → Arrived → Arrived
unfolding lossdata_arrival
loss_arrival config malloc seq (ad, h, loss, reorder) =
    if config.loss_enabled
    then elim (lossdata_arrival malloc h ad.loss seq loss) [
      | none ↦ (ad, h, loss, reorder)
      | some (h', lda, rest) ↦ (record ad { loss = lda }, h', rest, reorder)
    ]
    else (ad, h, loss, reorder)

unfoldable pub reorder_arrival : Config → Option ℕ → ℕ → Arrived → Arrived
unfolding reorderdata_arrival
reorder_arrival config malloc seq (ad, h, loss, reorder) =
    if reorder_wanted config
    then elim (reorderdata_arrival malloc h ad.reorder seq reorder) [
      | none ↦ (ad, h, loss, reorder)
      | some (h', ranges, rest) ↦ (record ad { reorder = ranges }, h', loss, rest)
    ]
    else (ad, h, loss, reorder)

unfoldable pub tell_parties : Config → Mallocs → ℕ → ℕ → Arrived → Arrived
unfolding packetdata_arrival loss_arrival reorder_arrival
tell_parties config mallocs ts seq (ad, h, loss, reorder) =
    let counted = record ad { received = packetdata_arrival ad.received ts seq } in
    reorder_arrival config mallocs.reorder seq
      (loss_arrival config mallocs.loss seq (counted, h, loss, reorder))

pub record PacketInfo : Type 0 where
  pub stream : StreamTuple
  pub seq : ℕ

module _ {Tree Queue : Type 0} (bytes : HashMapKey → List ℕ) (zero : Value Tree Queue)
    (config : Config) where
  -- On the map `m`. `ts` is the time in microseconds.
  unfoldable pub arrival_in :
      Mallocs → ℕ → ℕ → StreamTuple → ℕ → Service Tree Queue → Service Tree Queue
  unfolding hashmap_force tell_parties
  arrival_in mallocs m ts stream seq s =
      let forced =
        hashmap_force bytes zero mallocs.item s.items (s.hashmaps m) (set_streamtuple stream)
          s.agg.free_hashmapitems in
      let item = forced.store forced.item in
      let (ad, h, loss, reorder) =
        tell_parties config mallocs ts seq
          (item.value.agg_data, s.ranges, s.agg.free_lossranges, s.agg.free_reorderranges) in
      record s {
        agg = record (s.agg) {
          free_hashmapitems = forced.free;
          free_lossranges = loss;
          free_reorderranges = reorder;
        };
        hashmaps = put_map s.hashmaps m forced.map;
        items =
            put_item forced.store forced.item
              (record item { value = record (item.value) { agg_data = ad } });
        ranges = h;
      }

  -- `none` is a read through NULL, when there is no map.
  unfoldable pub handle_packet_arrival :
      Mallocs → ℕ → PacketInfo → Service Tree Queue → Option (Service Tree Queue)
  unfolding arrival_in
  handle_packet_arrival mallocs ts ppi s = elim (last_of s.agg.working.maps) [
    | none ↦ none
    | some latest ↦ some (arrival_in mallocs latest ts ppi.stream ppi.seq s)
  ]

module _ (config : Config) where
  unfoldable pub accumulate_time : ReporterData → ReporterData → ReporterData
  unfolding packetdata_accumulate lossdata_accumulate_time reorderdata_accumulate
  accumulate_time accum unit = record {
    received = packetdata_accumulate accum.received unit.received;
    loss =
        if config.loss_enabled then lossdata_accumulate_time accum.loss unit.loss else accum.loss;
    reorder =
        if reorder_wanted config
        then reorderdata_accumulate config.reorder_enabled accum.reorder unit.reorder
        else accum.reorder;
  }

  unfoldable pub accumulate_flow : ReporterData → ReporterData → ReporterData
  unfolding packetdata_accumulate lossdata_accumulate_flows reorderdata_accumulate
  accumulate_flow accum unit = record {
    received = packetdata_accumulate accum.received unit.received;
    loss =
        if config.loss_enabled then lossdata_accumulate_flows accum.loss unit.loss else accum.loss;
    reorder =
        if reorder_wanted config
        then reorderdata_accumulate config.reorder_enabled accum.reorder unit.reorder
        else accum.reorder;
  }
