-- ===== src/Hashmap.antt =====
-- hashmap2.h and hashmap2.c: the hash map from streams and flows to their items. An item lies in a
-- store under its address; a bucket is the addresses of its chain from the head on, along `hashnext`,
-- and the list of all items goes along `next`. The bytes of a key in memory are a parameter.
pub mod Lookup
pub mod Partition
pub mod View
pub mod Apart
pub mod Frame
pub mod Supply
pub mod Lists
use estimators.Prelude.{
  ℕ, zero, suc, ◌+◌, ◌-◌, ◌^◌, ◌%◌, Bool, true, false, not, ◌&&◌, ◌==◌, if◌then◌else◌, List, [],
  ◌∷◌, ◌++◌, Option, none, some,
}
use estimators.Crc.{crc_generate}

abbrev pub hashtablesize : ℕ
hashtablesize = 1024

pub data HashMapKeyType : Type 0 where
  hmk_unknown hmk_streamtuple hmk_flowtuple : HashMapKeyType

pub record StreamTuple : Type 0 where
  pub flow_key : List ℕ
  pub stream_id : ℕ

pub record HashMapKey : Type 0 where
  pub keytype : HashMapKeyType
  pub stream : StreamTuple
  pub has_hash : Bool
  pub hash : ℕ

unfoldable pub set_streamtuple : StreamTuple → HashMapKey
set_streamtuple stream = record {
  keytype = hmk_streamtuple;
  stream = stream;
  has_hash = false;
  hash = 0;
}

unfoldable pub set_flowtuple : StreamTuple → HashMapKey
set_flowtuple stream = record {
  keytype = hmk_flowtuple;
  stream = record stream { stream_id = 0 };
  has_hash = false;
  hash = 0;
}

abbrev pub keytype_code : HashMapKeyType → ℕ
keytype_code hmk_unknown = 0
keytype_code hmk_streamtuple = 1
keytype_code hmk_flowtuple = 2

abbrev pub same_bytes : List ℕ → List ℕ → Bool
same_bytes [] [] = true
same_bytes [] (c ∷ t) = false
same_bytes (b ∷ s) [] = false
same_bytes (b ∷ s) (c ∷ t) = b == c && same_bytes s t

abbrev pub same_flag : Bool → Bool → Bool
same_flag true b = b
same_flag false b = not b

-- The macro `equal_key` compares whole structs, the stored hash included.
unfoldable pub equal_key : HashMapKey → HashMapKey → Bool
equal_key j k =
    keytype_code j.keytype == keytype_code k.keytype
    && same_bytes j.stream.flow_key k.stream.flow_key
    && j.stream.stream_id == k.stream.stream_id
    && same_flag j.has_hash k.has_hash
    && j.hash == k.hash

pub record HashMapItem {ℓ} (V : Type ℓ) : Type ℓ where
  pub key : HashMapKey
  pub value : V
  pub marked_for_deletion : Bool

pub record HashMap : Type 0 where
  pub hash_table : ℕ → List ℕ
  pub items : List ℕ

-- Appends `from` to `to`, and leaves `from` empty.
unfoldable pub move_hmilist : List ℕ → List ℕ → List ℕ × List ℕ
move_hmilist to [] = (to, [])
move_hmilist [] (p ∷ from) = (p ∷ from, [])
move_hmilist (t ∷ to) (p ∷ from) = ((t ∷ to) ++ p ∷ from, [])

-- A new item comes from the free list, or else from `malloc`, whose result the code does not check:
-- it is taken to be the address of an item, as with memory given.
unfoldable pub take_item : ℕ → List ℕ → ℕ × List ℕ
take_item malloc [] = (malloc, [])
take_item malloc (p ∷ free) = (p, free)

abbrev pub put_bucket : (ℕ → List ℕ) → ℕ → List ℕ → ℕ → List ℕ
put_bucket table i chain j = if i == j then chain else table j

unfoldable pub zeroout_hashmap : HashMap → List ℕ → HashMap × List ℕ
unfolding move_hmilist
zeroout_hashmap hm freelist = (
  record { hash_table = λ i. []; items = (move_hmilist freelist hm.items).1 },
  (move_hmilist freelist hm.items).0,
)

abbrev pub Items {ℓ} : Type ℓ → Type ℓ
Items V = ℕ → HashMapItem V

module _ {ℓ} {V : Type ℓ} where
  abbrev pub put_item : Items V → ℕ → HashMapItem V → Items V
  put_item h p item q = if p == q then item else h q

  -- The loop along a chain.
  unfoldable pub find_item : Items V → List ℕ → HashMapKey → Option ℕ
  unfolding equal_key
  find_item h [] k = none
  find_item h (p ∷ ps) k = if equal_key (h p).key k then some p else find_item h ps k

  -- The addresses of the items that stay, in order.
  unfoldable pub unmarked : Items V → List ℕ → List ℕ
  unmarked h [] = []
  unmarked h (p ∷ ps) =
      let rest = unmarked h ps in if (h p).marked_for_deletion then rest else p ∷ rest

  -- The list without the marked items, which go to the head of the free list, one after the other.
  unfoldable pub purge_hmilist : Items V → List ℕ → List ℕ → List ℕ × List ℕ
  purge_hmilist h [] freelist = ([], freelist)
  purge_hmilist h (p ∷ ps) freelist =
      let gone = purge_hmilist h ps (p ∷ freelist) in
      let stays = purge_hmilist h ps freelist in
      if (h p).marked_for_deletion then gone else (p ∷ stays.0, stays.1)

  unfoldable pub purge_hashmap : Items V → HashMap → List ℕ → HashMap × List ℕ
  unfolding unmarked purge_hmilist
  purge_hashmap h hm freelist =
      let purged = purge_hmilist h hm.items freelist in
      (record { hash_table = λ i. unmarked h (hm.hash_table i); items = purged.0 }, purged.1)

  -- `memset(hmi, 0, ...)`; `zero_value` is the value with all its bytes 0.
  abbrev pub zeroed_item : V → HashMapItem V
  zeroed_item zero_value = record {
    key = record {
      keytype = hmk_unknown;
      stream = record { flow_key = []; stream_id = 0 };
      has_hash = false;
      hash = 0;
    };
    value = zero_value;
    marked_for_deletion = false;
  }

  -- The new item at the head of the list, and the free list that is left.
  unfoldable pub add_hashmapitem : V → ℕ → Items V → List ℕ → List ℕ → ℕ × Items V × List ℕ × List ℕ
  unfolding take_item
  add_hashmapitem zero_value malloc h list freelist =
      let (p, rest) = take_item malloc freelist in
      (p, put_item h p (zeroed_item zero_value), p ∷ list, rest)

module _ (bytes : HashMapKey → List ℕ) where
  -- The hash is computed once, with `has_hash` set already.
  unfoldable pub hash_key : HashMapKey → HashMapKey
  hash_key k =
      if k.has_hash
      then k
      else record k { has_hash = true; hash = crc_generate (bytes (record k { has_hash = true })) }

  abbrev pub bucket_of : HashMapKey → ℕ
  bucket_of k = (hash_key k).hash % hashtablesize

  -- The item, if there is one, and the key with its hash.
  unfoldable pub hashmap_retrieve {ℓ} :
      {V : Type ℓ} → Items V → HashMap → HashMapKey → Option ℕ × HashMapKey
  unfolding hash_key find_item
  hashmap_retrieve h hm k = (find_item h (hm.hash_table (bucket_of k)) (hash_key k), hash_key k)

  -- What `hashmap_force` leaves: the item, the store, the map and the free list.
  pub record Forced {ℓ} (V : Type ℓ) : Type ℓ where
    pub item : ℕ
    pub store : ℕ → HashMapItem V
    pub map : HashMap
    pub free : List ℕ

  unfoldable pub insert_item {ℓ} :
      {V : Type ℓ} → V → ℕ → Items V → HashMap → HashMapKey → List ℕ → Forced V
  unfolding hash_key add_hashmapitem
  insert_item zero_value malloc h hm k freelist =
      let (p, h', items, rest) = add_hashmapitem zero_value malloc h hm.items freelist in
      let i = bucket_of k in
      record {
        item = p;
        store = put_item h' p (record (h' p) { key = hash_key k });
        map = record {
          hash_table = put_bucket hm.hash_table i (p ∷ hm.hash_table i);
          items = items;
        };
        free = rest;
      }

  unfoldable pub hashmap_force {ℓ} :
      {V : Type ℓ} → V → ℕ → Items V → HashMap → HashMapKey → List ℕ → Forced V
  unfolding hash_key find_item insert_item
  hashmap_force zero_value malloc h hm k freelist =
      elim (find_item h (hm.hash_table (bucket_of k)) (hash_key k)) [
        | some p ↦ record { item = p; store = h; map = hm; free = freelist }
        | none ↦ insert_item zero_value malloc h hm k freelist
      ]
