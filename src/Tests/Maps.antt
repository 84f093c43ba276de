-- ===== src/Tests/Maps.antt =====
-- Runs of the hash map.
use estimators.Prelude.{ℕ, ◌≡◌, true, false, [], ◌∷◌}
use estimators.Hashmap.{HashMapItem, HashMap, Items, hmk_unknown}
use estimators.Hashmap.{hashtablesize}
use estimators.Hashmap.Partition.{
  IsPartition, partition_hashmap, size, population, partition_hashmap-IsPartition,
}

abbrev blank : HashMapItem ℕ
blank = record {
  key = record {
    keytype = hmk_unknown;
    stream = record { flow_key = []; stream_id = 0 };
    has_hash = false;
    hash = 0;
  };
  value = 0;
  marked_for_deletion = true;
}

abbrev items : Items ℕ
items p = blank

abbrev empty_map : HashMap
empty_map = record { hash_table = λ i. []; items = [] }

-- Every bucket holds the marked item 3.
abbrev full_map : HashMap
full_map = record { hash_table = λ i. 3 ∷ []; items = 3 ∷ [] }

partition_hashmap-IsPartition_example :
    IsPartition items full_map empty_map (partition_hashmap items full_map empty_map)
    × (size (partition_hashmap items full_map empty_map) ≡ population full_map hashtablesize 0)
partition_hashmap-IsPartition_example = partition_hashmap-IsPartition items full_map empty_map
