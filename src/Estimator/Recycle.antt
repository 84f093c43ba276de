-- ===== src/Estimator/Recycle.antt =====
-- The end of a round of `reporter_thread`: the ranges, the items and the map of the earliest period go
-- to the reporter's free lists.
use estimators.Prelude.{ℕ, List, [], ◌∷◌, Option, none, some}
use estimators.Ranges.{move_seqnorangelist}
use estimators.Hashmap.{Items, put_item, move_hmilist}
use estimators.Hashmap.Lists.{put_map, moveone_hashmap}
use estimators.Estimator.Values.{Value}
use estimators.Estimator.Service.{Service}

-- The items' ranges, and the two free lists of ranges.
unfoldable pub release_ranges :
    {Tree Queue : Type 0}
    → List ℕ
    → Items (Value Tree Queue)
    → List ℕ
    → List ℕ
    → Items (Value Tree Queue) × List ℕ × List ℕ
unfolding move_seqnorangelist
release_ranges [] h loss reorder = (h, loss, reorder)
release_ranges (p ∷ ps) h loss reorder =
    let ad = (h p).value.agg_data in
    let (loss', left) = move_seqnorangelist loss ad.loss.ranges in
    let (reorder', left') = move_seqnorangelist reorder ad.reorder in
    let emptied = record ad { loss = record (ad.loss) { ranges = left }; reorder = left' } in
    release_ranges ps
      (put_item h p (record (h p) { value = record ((h p).value) { agg_data = emptied } })) loss'
      reorder'

module _ {Tree Queue : Type 0} where
  unfoldable pub recycle_map : ℕ → Service Tree Queue → Service Tree Queue
  unfolding release_ranges move_hmilist moveone_hashmap
  recycle_map m s =
      let hm = s.hashmaps m in
      let (items, loss, reorder) =
        release_ranges hm.items s.items s.rep.free_lossranges s.rep.free_reorderranges in
      let (hmis, left) = move_hmilist s.rep.free_hashmapitems hm.items in
      let (free, working) = moveone_hashmap s.rep.free_hashmaps s.rep.working in
      record s {
        rep = record {
          working = working;
          free_hashmaps = free;
          free_hashmapitems = hmis;
          free_lossranges = loss;
          free_reorderranges = reorder;
        };
        hashmaps = put_map s.hashmaps m (record hm { items = left });
        items = items;
      }

  -- `none` is a read through NULL, when there is no map.
  unfoldable pub recycle_earliest : Service Tree Queue → Option (Service Tree Queue)
  unfolding recycle_map
  recycle_earliest s = elim s.rep.working.maps [ [] ↦ none | m ∷ later ↦ some (recycle_map m s) ]
