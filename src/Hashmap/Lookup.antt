-- ===== src/Hashmap/Lookup.antt =====
-- Which item a key finds, after an insertion and after a purge.
use estimators.Prelude.{
  ℕ, ◌≡◌, refl, sym, ap, ap₂, ◌∙◌, subst, arith, Bool, true, false, ◌==◌, ◌%◌, Bool-cases,
  Option-cases, inl, inr, List, [], ◌∷◌, Option, none, some, if◌then◌else◌,
}
use estimators.Ranges.{Apart}
use estimators.Hashmap.{
  HashMapKey, HashMapKeyType, HashMapItem, HashMap, Items, keytype_code, same_bytes, same_flag,
  equal_key, find_item, unmarked, purge_hashmap, put_item, put_bucket, take_item, add_hashmapitem,
  zeroed_item, hash_key, bucket_of, hashmap_retrieve, insert_item, hashmap_force,
}

same_bytes_refl : (bs : List ℕ) → same_bytes bs bs ≡ true
same_bytes_refl [] = refl
same_bytes_refl (b ∷ bs) = ground (arith, same_bytes_refl bs)

same_flag_refl : (b : Bool) → same_flag b b ≡ true
same_flag_refl true = refl
same_flag_refl false = refl

pub equal_key_refl : (k : HashMapKey) → equal_key k k ≡ true
unfolding equal_key
equal_key_refl k = ground (arith, same_bytes_refl k.stream.flow_key, same_flag_refl k.has_hash)

module _ {ℓ} {V : Type ℓ} where
  find-put :
      (h : Items V) (p : ℕ) (item : HashMapItem V) (ps : List ℕ) (k : HashMapKey)
      → Apart p ps
      → find_item (put_item h p item) ps k ≡ find_item h ps k
  unfolding find_item
  find-put h p item [] k a = refl
  find-put h p item (q ∷ ps) k a =
      let other : (p == q) ≡ false = ground (arith, a.0) in
      rw (other, find-put h p item ps k a.1) refl

  find-head :
      (h : Items V) (p : ℕ) (ps : List ℕ) (k : HashMapKey)
      → equal_key (h p).key k ≡ true
      → find_item h (p ∷ ps) k ≡ some p
  unfolding find_item
  find-head h p ps k e = rw e refl

  find-skip :
      (h : Items V) (p : ℕ) (ps : List ℕ) (k : HashMapKey)
      → equal_key (h p).key k ≡ false
      → find_item h (p ∷ ps) k ≡ find_item h ps k
  unfolding find_item
  find-skip h p ps k e = rw e refl

  -- An item that is not marked is found as before, and a marked one no longer.
  find-unmarked :
      (h : Items V) (ps : List ℕ) (k : HashMapKey) (p : ℕ)
      → (find_item h ps k ≡ some p
          → (h p).marked_for_deletion ≡ false
          → find_item h (unmarked h ps) k ≡ some p)
        × (find_item h (unmarked h ps) k ≡ some p → (h p).marked_for_deletion ≡ false)
  unfolding find_item unmarked
  find-unmarked h [] k p = ((λ e m. e), (λ e. absurd (cc e)))
  find-unmarked h (q ∷ ps) k p =
      let rest = find-unmarked h ps k p in
      elim (Bool-cases (h q).marked_for_deletion) [
        | inl gone ↦ elim (Bool-cases (equal_key (h q).key k)) [
          | inl same ↦ rw (gone, same) ((λ e m. absurd (cc (e, m, gone))), rest.1)
          | inr other ↦ rw (gone, other) rest
        ]
        | inr stays ↦ elim (Bool-cases (equal_key (h q).key k)) [
          | inl same ↦ rw (stays, same) ((λ e m. e), (λ e. cc (e, stays)))
          | inr other ↦ rw (stays, other) rest
        ]
      ]

same_bytes-eq : (bs cs : List ℕ) → same_bytes bs cs ≡ true → bs ≡ cs
same_bytes-eq [] [] e = refl
same_bytes-eq [] (c ∷ cs) e = absurd (cc e)
same_bytes-eq (b ∷ bs) [] e = absurd (cc e)
same_bytes-eq (b ∷ bs) (c ∷ cs) e =
    ap₂ (λ x xs. x ∷ xs) (ground arith) (same_bytes-eq bs cs (ground arith))

same_flag-eq : (a b : Bool) → same_flag a b ≡ true → a ≡ b
same_flag-eq true b e = sym e
same_flag-eq false true e = absurd (cc e)
same_flag-eq false false e = refl

keytype_code-eq : (a b : HashMapKeyType) → keytype_code a ≡ keytype_code b → a ≡ b
keytype_code-eq a b e = ground arith

abbrev key_of : HashMapKeyType → List ℕ → ℕ → Bool → ℕ → HashMapKey
key_of t f s b n = record {
  keytype = t;
  stream = record { flow_key = f; stream_id = s };
  has_hash = b;
  hash = n;
}

pub equal_key-eq : (j k : HashMapKey) → equal_key j k ≡ true → j ≡ k
unfolding equal_key
equal_key-eq j k e =
    ap (λ t. key_of t j.stream.flow_key j.stream.stream_id j.has_hash j.hash)
      (keytype_code-eq j.keytype k.keytype (ground arith))
    ∙ ap (λ f. key_of k.keytype f j.stream.stream_id j.has_hash j.hash)
        (same_bytes-eq j.stream.flow_key k.stream.flow_key (ground arith))
    ∙ ap (λ s. key_of k.keytype k.stream.flow_key s j.has_hash j.hash) (ground arith)
    ∙ ap (λ b. key_of k.keytype k.stream.flow_key k.stream.stream_id b j.hash)
        (same_flag-eq j.has_hash k.has_hash (ground arith))
    ∙ ap (λ n. key_of k.keytype k.stream.flow_key k.stream.stream_id k.has_hash n) (ground arith)

pub same-bucket :
    (bytes : HashMapKey → List ℕ) (k j : HashMapKey)
    → equal_key (hash_key bytes k) (hash_key bytes j) ≡ true
    → bucket_of bytes k ≡ bucket_of bytes j
same-bucket bytes k j e =
    ap (λ l. l.hash % 1024) (equal_key-eq (hash_key bytes k) (hash_key bytes j) e)

module _ {ℓ} {V : Type ℓ} where
  pub put_item_self : (h : Items V) (p : ℕ) (item : HashMapItem V) → put_item h p item p ≡ item
  put_item_self h p item = let e : (p == p) ≡ true = ground arith in rw e refl

  -- A lookup along a chain that has, or has not, the new item at its head.
  chain-lookup :
      (h : Items V) (p : ℕ) (zero_item item : HashMapItem V) (ps : List ℕ) (k : HashMapKey)
      → Apart p ps
      → equal_key item.key k ≡ false
      → (find_item (put_item (put_item h p zero_item) p item) ps k ≡ find_item h ps k)
        × (find_item (put_item (put_item h p zero_item) p item) (p ∷ ps) k ≡ find_item h ps k)
  chain-lookup h p zero_item item ps k a differs =
      let h' = put_item h p zero_item in
      let kept = find-put h' p item ps k a ∙ find-put h p zero_item ps k a in
      (kept, find-skip (put_item h' p item) p ps k (rw (put_item_self h' p item) differs) ∙ kept)

  bucket-lookup :
      (table : ℕ → List ℕ) (h : Items V) (p : ℕ) (zero_item item : HashMapItem V) (i j : ℕ)
      (k : HashMapKey)
      → Apart p (table j)
      → (equal_key item.key k ≡ true → i ≡ j)
      → find_item (put_item (put_item h p zero_item) p item) (put_bucket table i (p ∷ table i) j) k
        ≡ (if equal_key item.key k then some p else find_item h (table j) k)
  bucket-lookup table h p zero_item item i j k a same_place =
      let h' = put_item h p zero_item in
      elim (Bool-cases (equal_key item.key k)) [
        | inl same ↦
            let here : (i == j) ≡ true = ground (arith, same_place same) in
            rw (here, same)
              (find-head (put_item h' p item) p (table i) k (rw (put_item_self h' p item) same))
        | inr differs ↦ elim (Bool-cases (i == j)) [
          | inl e ↦
              let there : i ≡ j = ground (arith, e) in
              rw (e, differs)
                (subst
                  (λ b. find_item (put_item h' p item) (p ∷ table b) k ≡ find_item h (table j) k)
                  (sym there) (chain-lookup h p zero_item item (table j) k a differs).1)
          | inr e ↦ rw (e, differs) ((chain-lookup h p zero_item item (table j) k a differs).0)
        ]
      ]

  module _ (bytes : HashMapKey → List ℕ) where
    abbrev pub lookup : Items V → HashMap → HashMapKey → Option ℕ
    lookup h hm k = (hashmap_retrieve bytes h hm k).0

    insert-lookup :
        (zero_value : V) (malloc : ℕ) (h : Items V) (hm : HashMap) (k j : HashMapKey)
        (freelist : List ℕ)
        → Apart (take_item malloc freelist).0 (hm.hash_table (bucket_of bytes j))
        → let r = insert_item bytes zero_value malloc h hm k freelist in
          (r.item ≡ (take_item malloc freelist).0)
          × (lookup r.store r.map j ≡ (
              if equal_key (hash_key bytes k) (hash_key bytes j)
              then some (take_item malloc freelist).0
              else lookup h hm j))
    unfolding insert_item add_hashmapitem hashmap_retrieve
    insert-lookup zero_value malloc h hm k j freelist a = (
      refl,
      rw (put_item_self h (take_item malloc freelist).0 (zeroed_item zero_value)) (
          bucket-lookup hm.hash_table h (take_item malloc freelist).0 (zeroed_item zero_value)
            (record (zeroed_item zero_value) { key = hash_key bytes k }) (bucket_of bytes k)
            (bucket_of bytes j) (hash_key bytes j) a (same-bucket bytes k j)),
    )

    pub force-missing :
        (zero_value : V) (malloc : ℕ) (h : Items V) (hm : HashMap) (k : HashMapKey)
        (freelist : List ℕ)
        → find_item h (hm.hash_table (bucket_of bytes k)) (hash_key bytes k) ≡ none
        → hashmap_force bytes zero_value malloc h hm k freelist
          ≡ insert_item bytes zero_value malloc h hm k freelist
    unfolding hashmap_force
    force-missing zero_value malloc h hm k freelist e = rw (e, hashmap_force) refl

    pub force-found :
        (zero_value : V) (malloc : ℕ) (h : Items V) (hm : HashMap) (k : HashMapKey)
        (freelist : List ℕ) (p : ℕ)
        → find_item h (hm.hash_table (bucket_of bytes k)) (hash_key bytes k) ≡ some p
        → hashmap_force bytes zero_value malloc h hm k freelist
          ≡ record { item = p; store = h; map = hm; free = freelist }
    unfolding hashmap_force
    force-found zero_value malloc h hm k freelist p e = rw (e, hashmap_force) refl

    -- Forcing a key gives an item that the key then finds, and every other key finds what it found
    -- before, if the new item's address, should one be needed, is not in the key's bucket. Keys are
    -- the same if they are equal once both have their hash.
    pub force-lookup :
        (zero_value : V) (malloc : ℕ) (h : Items V) (hm : HashMap) (k j : HashMapKey)
        (freelist : List ℕ)
        → Apart (take_item malloc freelist).0 (hm.hash_table (bucket_of bytes j))
        → let r = hashmap_force bytes zero_value malloc h hm k freelist in
          lookup r.store r.map j
          ≡ (if equal_key (hash_key bytes k) (hash_key bytes j) then some r.item else lookup h hm j)
    unfolding hashmap_retrieve
    force-lookup zero_value malloc h hm k j freelist a =
        elim (Option-cases (find_item h (hm.hash_table (bucket_of bytes k)) (hash_key bytes k))) [
          | inl missing ↦
              let done = insert-lookup zero_value malloc h hm k j freelist a in
              rw (force-missing zero_value malloc h hm k freelist missing, done.0) done.1
          | inr (p, found) ↦ elim (Bool-cases (equal_key (hash_key bytes k) (hash_key bytes j))) [
            | inl same ↦
                rw (force-found zero_value malloc h hm k freelist p found, same)
                  (subst (λ l. find_item h (hm.hash_table (l.hash % 1024)) l ≡ some p)
                    (equal_key-eq (hash_key bytes k) (hash_key bytes j) same) found)
            | inr differs ↦ rw (force-found zero_value malloc h hm k freelist p found, differs) refl
          ]
        ]

    -- A purge takes every marked item out of reach, and an item that is not marked is found as before.
    purge-lookup :
        (h : Items V) (hm : HashMap) (k : HashMapKey) (p : ℕ) (freelist : List ℕ)
        → let hm' = (purge_hashmap h hm freelist).0 in
          (lookup h hm k ≡ some p → (h p).marked_for_deletion ≡ false → lookup h hm' k ≡ some p)
          × (lookup h hm' k ≡ some p → (h p).marked_for_deletion ≡ false)
    unfolding purge_hashmap hashmap_retrieve
    purge-lookup h hm k p freelist =
        find-unmarked h (hm.hash_table (bucket_of bytes k)) (hash_key bytes k) p
