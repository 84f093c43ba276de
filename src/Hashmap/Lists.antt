-- ===== src/Hashmap/Lists.antt =====
-- The lists of hash maps: the maps of the periods in order, and the free ones. A list is the addresses
-- of its maps from the earliest to the latest, along `next`, with the count that the code keeps beside.
use estimators.Prelude.{
  ℕ, ◌==◌, if◌then◌else◌, List, [], ◌∷◌, ◌++◌, Option, none, some, add32, sub32,
}
use estimators.Hashmap.{HashMap}

pub record HashMapList : Type 0 where
  pub count : ℕ
  pub maps : List ℕ

-- `memset(..., 0, ...)`
abbrev pub no_maps : HashMapList
no_maps = record { count = 0; maps = [] }

abbrev pub empty_hashmap : HashMap
empty_hashmap = record { hash_table = λ i. []; items = [] }

abbrev pub put_map : (ℕ → HashMap) → ℕ → HashMap → ℕ → HashMap
put_map f p hm q = if p == q then hm else f q

-- `none` is NULL, for an empty list.
unfoldable pub pop_earliest : HashMapList → Option (ℕ × HashMapList)
pop_earliest from = elim from.maps [
  | [] ↦ none
  | p ∷ rest ↦ some (p, record { count = sub32 from.count 1; maps = rest })
]

unfoldable pub push_latest : HashMapList → ℕ → HashMapList
push_latest to hm = record { count = add32 to.count 1; maps = to.maps ++ hm ∷ [] }

-- The map comes from the free list, or else from `malloc`, whose result the code does not check: it is taken
-- to be the address of a map, as with memory given. A NULL free list is as good as an empty one.
unfoldable pub take_map : ℕ → HashMapList → ℕ × HashMapList
unfolding pop_earliest
take_map malloc freelist = elim (pop_earliest freelist) [ none ↦ (malloc, freelist) | some r ↦ r ]

-- The list, the free list and the maps, of which the new one is empty.
unfoldable pub add_hashmap :
    ℕ → HashMapList → HashMapList → (ℕ → HashMap) → HashMapList × HashMapList × (ℕ → HashMap)
unfolding take_map push_latest
add_hashmap malloc list freelist store =
    let (p, rest) = take_map malloc freelist in
    (push_latest list p, rest, put_map store p empty_hashmap)

-- The results are `to` and `from`.
unfoldable pub moveone_hashmap : HashMapList → HashMapList → HashMapList × HashMapList
unfolding pop_earliest push_latest
moveone_hashmap to from = elim (pop_earliest from) [
  | none ↦ (to, from)
  | some (p, rest) ↦ (push_latest to p, rest)
]

-- An empty `from` changes nothing; the maps of the other one go behind those of `to`.
unfoldable pub moveall_hashmap : HashMapList → HashMapList → HashMapList × HashMapList
moveall_hashmap to from = elim from.maps [
  | [] ↦ (to, from)
  | p ∷ rest ↦ (record { count = add32 to.count from.count; maps = to.maps ++ from.maps }, no_maps)
]
