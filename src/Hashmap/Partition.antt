-- ===== src/Hashmap/Partition.antt =====
-- `partition_hashmap` and `partition_cleanup`: the items of one map by whether another map has their key.
use estimators.Prelude.{
  ℕ, zero, suc, ◌+◌, ◌≡◌, arith, List, [], ◌∷◌, All, Option, none, some, Option-cases, inl, inr,
  length, true,
}
use estimators.Reorder.Containers.{elem}
use estimators.Hashmap.{HashMap, Items, hashtablesize, find_item}

pub record HashMapPartition : Type 0 where
  pub intersection : List ℕ
  pub difference : List ℕ

-- Where `hashlist_contains` finds an item, it goes to the head of the intersection, otherwise to that of
-- the difference.
abbrev pub place : HashMapPartition → ℕ → Option ℕ → HashMapPartition
place hmp p none = record hmp { difference = p ∷ hmp.difference }
place hmp p (some q) = record hmp { intersection = p ∷ hmp.intersection }

-- Both loops set the links of the lists back to NULL.
unfoldable pub partition_cleanup : HashMapPartition → HashMapPartition
partition_cleanup hmp = record { intersection = []; difference = [] }

abbrev pub size : HashMapPartition → ℕ
size hmp = length hmp.intersection + length hmp.difference

-- The number of items in `n` buckets from `i` on.
abbrev pub population : HashMap → ℕ → ℕ → ℕ
population hm zero i = 0
population hm (suc n) i = length (hm.hash_table i) + population hm n (i + 1)

elem-head : (p : ℕ) (ps : List ℕ) → elem p (p ∷ ps) ≡ true
elem-head p ps = ground arith

elem-tail : (x p : ℕ) (ps : List ℕ) → elem x ps ≡ true → elem x (p ∷ ps) ≡ true
elem-tail x p ps e = ground (arith, e)

module _ {ℓ} {V : Type ℓ} where
  -- The loop along a bucket of the map, with the reference's bucket of the same index.
  unfoldable pub partition_bucket : Items V → List ℕ → List ℕ → HashMapPartition → HashMapPartition
  partition_bucket h reference [] hmp = hmp
  partition_bucket h reference (p ∷ ps) hmp =
      partition_bucket h reference ps (place hmp p (find_item h reference (h p).key))

  -- The loop over the buckets, with the rounds that are left.
  unfoldable pub partition_buckets :
      ℕ → ℕ → Items V → HashMap → HashMap → HashMapPartition → HashMapPartition
  unfolding partition_bucket
  partition_buckets zero i h splitme reference hmp = hmp
  partition_buckets (suc n) i h splitme reference hmp =
      partition_buckets n (i + 1) h splitme reference
        (partition_bucket h (reference.hash_table i) (splitme.hash_table i) hmp)

  unfoldable pub partition_hashmap : Items V → HashMap → HashMap → HashMapPartition
  unfolding partition_buckets
  partition_hashmap h splitme reference =
      partition_buckets hashtablesize 0 h splitme reference
        (record { intersection = []; difference = [] })

  -- Each item on the side where it belongs.
  pub record IsPartition (h : Items V) (splitme reference : HashMap) (hmp : HashMapPartition)
      : Type 0 where
    pub both :
        All
          (λ p.
            (i : ℕ) × (q : ℕ) × (elem p (splitme.hash_table i) ≡ true)
            × (find_item h (reference.hash_table i) (h p).key ≡ some q))
          hmp.intersection
    pub one :
        All
          (λ p.
            (i : ℕ) × (elem p (splitme.hash_table i) ≡ true)
            × (find_item h (reference.hash_table i) (h p).key ≡ none))
          hmp.difference

  place-IsPartition :
      (h : Items V) (splitme reference : HashMap) (i p : ℕ) (hmp : HashMapPartition)
      → elem p (splitme.hash_table i) ≡ true
      → IsPartition h splitme reference hmp
      → let placed = place hmp p (find_item h (reference.hash_table i) (h p).key) in
        IsPartition h splitme reference placed × (size placed ≡ size hmp + 1)
  place-IsPartition h splitme reference i p hmp here v =
      elim (Option-cases (find_item h (reference.hash_table i) (h p).key)) [
        | inl e ↦ rw e (record { both = v.both; one = ((i, here, e), v.one) }, omega arith)
        | inr (q, e) ↦ rw e (record { both = ((i, q, here, e), v.both); one = v.one }, omega arith)
      ]

  bucket-IsPartition :
      (h : Items V) (splitme reference : HashMap) (i : ℕ) (ps : List ℕ) (hmp : HashMapPartition)
      → ((x : ℕ) → elem x ps ≡ true → elem x (splitme.hash_table i) ≡ true)
      → IsPartition h splitme reference hmp
      → let r = partition_bucket h (reference.hash_table i) ps hmp in
        IsPartition h splitme reference r × (size r ≡ size hmp + length ps)
  unfolding partition_bucket
  bucket-IsPartition h splitme reference i [] hmp within v = (v, omega arith)
  bucket-IsPartition h splitme reference i (p ∷ ps) hmp within v =
      let first = place-IsPartition h splitme reference i p hmp (within p (elem-head p ps)) v in
      let rest =
        bucket-IsPartition h splitme reference i ps
          (place hmp p (find_item h (reference.hash_table i) (h p).key))
          (λ x e. within x (elem-tail x p ps e)) first.0 in
      (rest.0, omega (arith, rest.1, first.1))

  buckets-IsPartition :
      (n i : ℕ) (h : Items V) (splitme reference : HashMap) (hmp : HashMapPartition)
      → IsPartition h splitme reference hmp
      → let r = partition_buckets n i h splitme reference hmp in
        IsPartition h splitme reference r × (size r ≡ size hmp + population splitme n i)
  unfolding partition_buckets
  buckets-IsPartition zero i h splitme reference hmp v = (v, omega arith)
  buckets-IsPartition (suc n) i h splitme reference hmp v =
      let first =
        bucket-IsPartition h splitme reference i (splitme.hash_table i) hmp (λ x e. e) v in
      let rest =
        buckets-IsPartition n (i + 1) h splitme reference
          (partition_bucket h (reference.hash_table i) (splitme.hash_table i) hmp) first.0 in
      (rest.0, omega (arith, rest.1, first.1))

  all-IsPartition :
      (n : ℕ) (h : Items V) (splitme reference : HashMap)
      → let r =
          partition_buckets n 0 h splitme reference
            (record { intersection = []; difference = [] }) in
        IsPartition h splitme reference r × (size r ≡ population splitme n 0)
  all-IsPartition n h splitme reference =
      let all =
        buckets-IsPartition n 0 h splitme reference (record { intersection = []; difference = [] })
          (record { both = tt; one = tt }) in
      (all.0, omega (arith, all.1))

  -- A partition puts into the intersection only items of a bucket of the map whose key the reference's
  -- bucket of the same index has, into the difference only items of a bucket whose key that bucket does
  -- not have, and the two together have as many items as the buckets of the map.
  pub partition_hashmap-IsPartition :
      (h : Items V) (splitme reference : HashMap)
      → IsPartition h splitme reference (partition_hashmap h splitme reference)
        × (size (partition_hashmap h splitme reference) ≡ population splitme hashtablesize 0)
  unfolding partition_hashmap
  partition_hashmap-IsPartition h splitme reference =
      all-IsPartition hashtablesize h splitme reference
