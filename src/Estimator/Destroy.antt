-- ===== src/Estimator/Destroy.antt =====
-- `hashmap_item_destroy`, `hashmap_item_list_destroy` and `hashmap_list_destroy` of hashmap2.c: what is
-- freed, by its address or, for the nodes of the trees and the queue, by its key.
use estimators.Prelude.{ℕ, List, [], ◌∷◌, ◌++◌}
use estimators.Ranges.{free_seqnorangelist}
use estimators.Reorder.Containers.{SeqTree, SeqQueue, Run, ok, ◌>>=◌}
use estimators.Reorder.Destroy.{
  reorderdata_destroy_missing_packets, reorderdata_destroy_rd_buffer, reorderdata_destroy_rd_window,
}
use estimators.Hashmap.{HashMap, Items}
use estimators.Hashmap.Lists.{HashMapList}
use estimators.Estimator.Values.{Value}

pub record Freed : Type 0 where
  pub missing_packets : List ℕ
  pub rd_buffer : List ℕ
  pub rd_window : List ℕ
  pub ranges : List ℕ
  pub items : List ℕ
  pub maps : List ℕ

abbrev pub nothing_freed : Freed
nothing_freed = record {
  missing_packets = [];
  rd_buffer = [];
  rd_window = [];
  ranges = [];
  items = [];
  maps = [];
}

abbrev pub both_freed : Freed → Freed → Freed
both_freed f g = record {
  missing_packets = f.missing_packets ++ g.missing_packets;
  rd_buffer = f.rd_buffer ++ g.rd_buffer;
  rd_window = f.rd_window ++ g.rd_window;
  ranges = f.ranges ++ g.ranges;
  items = f.items ++ g.items;
  maps = f.maps ++ g.maps;
}

-- What one part of the code frees, and then another one.
abbrev pub freed_then : Run Freed → Run Freed → Run Freed
freed_then first second = do f ← first; g ← second; ok (both_freed f g)

module _ (tree : SeqTree) (queue : SeqQueue) (fuel : ℕ) where
  abbrev pub ItemsOf : Type 0
  ItemsOf = Items (Value (SeqTree.Tree tree) (SeqQueue.Queue queue))

  -- The reporter's ranges are linked by `next_r` while they are in use, and the list is empty then.
  unfoldable pub hashmap_item_destroy : ItemsOf → ℕ → Run Freed
  unfolding reorderdata_destroy_missing_packets reorderdata_destroy_rd_buffer
      reorderdata_destroy_rd_window free_seqnorangelist
  hashmap_item_destroy h p =
      let value = (h p).value in
      let state = value.state_data.reorder in
      do
        (window, left) ← reorderdata_destroy_rd_window queue fuel state.rd.window
        ok (record {
          missing_packets = (reorderdata_destroy_missing_packets tree state.ex.missing_packets).0;
          rd_buffer = (reorderdata_destroy_rd_buffer tree state.rd.buffer).0;
          rd_window = window;
          ranges =
              free_seqnorangelist value.agg_data.reorder
              ++ free_seqnorangelist value.agg_data.loss.ranges
              ++ free_seqnorangelist value.rep_data.loss.ranges;
          items = p ∷ [];
          maps = [];
        })

  unfoldable pub hashmap_item_list_destroy : ItemsOf → List ℕ → Run Freed
  unfolding hashmap_item_destroy
  hashmap_item_list_destroy h [] = ok nothing_freed
  hashmap_item_list_destroy h (p ∷ ps) =
      freed_then (hashmap_item_destroy h p) (hashmap_item_list_destroy h ps)

  -- The addresses along a list of maps.
  unfoldable pub maps_destroy : ItemsOf → (ℕ → HashMap) → List ℕ → Run Freed
  unfolding hashmap_item_list_destroy
  maps_destroy h hashmaps [] = ok nothing_freed
  maps_destroy h hashmaps (m ∷ ms) =
      freed_then (hashmap_item_list_destroy h (hashmaps m).items)
        (freed_then (ok (record nothing_freed { maps = m ∷ [] })) (maps_destroy h hashmaps ms))

  unfoldable pub hashmap_list_destroy : ItemsOf → (ℕ → HashMap) → HashMapList → Run Freed
  unfolding maps_destroy
  hashmap_list_destroy h hashmaps list = maps_destroy h hashmaps list.maps
