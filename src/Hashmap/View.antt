-- ===== src/Hashmap/View.antt =====
-- The hash map as a function from keys to values: `hashmap_force`, and a change of the value it gives,
-- change that function at one key.
use estimators.Prelude.{
  ℕ, ◌≡◌, ◌≢◌, refl, sym, ap, ◌∙◌, subst, arith, Bool, true, false, ◌==◌, ◌%◌, Bool-cases,
  Option-cases, inl, inr, List, [], ◌∷◌, Option, none, some, if◌then◌else◌,
}
use estimators.Ranges.{Apart}
use estimators.Hashmap.{
  HashMapKey, HashMapItem, HashMap, Items, equal_key, find_item, put_item, take_item,
  add_hashmapitem, hash_key, bucket_of, hashtablesize, hashmap_retrieve, insert_item, hashmap_force,
  Forced, zeroed_item,
}
use estimators.Hashmap.Lookup.{
  lookup, force-lookup, force-missing, force-found, put_item_self, equal_key-eq, equal_key_refl,
}

-- Keys are the same if they are equal once both have their hash.
abbrev pub same_key : (HashMapKey → List ℕ) → HashMapKey → HashMapKey → Bool
same_key bytes k j = equal_key (hash_key bytes k) (hash_key bytes j)

module _ {ℓ} {V : Type ℓ} where
  -- The value of an item is replaced by its image.
  abbrev pub update_value : Items V → ℕ → (V → V) → Items V
  update_value h p f = put_item h p (record (h p) { value = f (h p).value })

  pub update-key :
      (h : Items V) (p : ℕ) (f : V → V) (q : ℕ) → (update_value h p f q).key ≡ (h q).key
  update-key h p f q = elim (Bool-cases (p == q)) [
    | inl e ↦ let same : p ≡ q = ground (arith, e) in rw e (ap (λ x. (h x).key) same)
    | inr e ↦ rw e refl
  ]

  pub find-update :
      (h : Items V) (p : ℕ) (f : V → V) (ps : List ℕ) (k : HashMapKey)
      → find_item (update_value h p f) ps k ≡ find_item h ps k
  unfolding find_item
  find-update h p f [] k = refl
  find-update h p f (q ∷ ps) k = rw (update-key h p f q, find-update h p f ps k) refl

  -- What is found has the key, and stands in the chain.
  pub find-equal :
      (h : Items V) (ps : List ℕ) (k : HashMapKey) (p : ℕ)
      → find_item h ps k ≡ some p
      → equal_key (h p).key k ≡ true
  unfolding find_item
  find-equal h [] k p e = absurd (cc e)
  find-equal h (q ∷ ps) k p e = elim (Bool-cases (equal_key (h q).key k)) [
    | inl same ↦ subst (λ x. equal_key (h x).key k ≡ true) (cc (rw same at e)) same
    | inr other ↦ find-equal h ps k p (rw other at e)
  ]

  pub find-Apart :
      (h : Items V) (ps : List ℕ) (k : HashMapKey) (p q : ℕ)
      → find_item h ps k ≡ some p
      → Apart q ps
      → q ≢ p
  unfolding find_item
  find-Apart h [] k p q e a = absurd (cc e)
  find-Apart h (r ∷ ps) k p q e a = elim (Bool-cases (equal_key (h r).key k)) [
    | inl same ↦ subst (λ x. q ≢ x) (cc (rw same at e)) a.0
    | inr other ↦ find-Apart h ps k p q (rw other at e) a.1
  ]

  abbrev pub value_at : V → Items V → Option ℕ → V
  value_at zero_value h none = zero_value
  value_at zero_value h (some p) = (h p).value

  pub put_item_elsewhere :
      (h : Items V) (p : ℕ) (item : HashMapItem V) (q : ℕ) → p ≢ q → put_item h p item q ≡ h q
  put_item_elsewhere h p item q d = let e : (p == q) ≡ false = ground (arith, d) in rw e refl

  module _ (bytes : HashMapKey → List ℕ) (zero_value : V) where
    -- The value of a key, zero for a key without an item.
    abbrev pub view : Items V → HashMap → HashMapKey → V
    view h hm k = value_at zero_value h (lookup bytes h hm k)

    view-same :
        (h : Items V) (hm : HashMap) (k j : HashMapKey)
        → same_key bytes k j ≡ true
        → view h hm k ≡ view h hm j
    unfolding hashmap_retrieve
    view-same h hm k j same =
        ap (λ x. value_at zero_value h (find_item h (hm.hash_table (x.hash % hashtablesize)) x))
          (equal_key-eq (hash_key bytes k) (hash_key bytes j) same)

    pub insert-store :
        (malloc : ℕ) (h : Items V) (hm : HashMap) (k : HashMapKey) (freelist : List ℕ)
        → let r = insert_item bytes zero_value malloc h hm k freelist in
          (r.item ≡ (take_item malloc freelist).0)
          × ((r.store r.item).value ≡ zero_value)
          × ((q : ℕ) → r.item ≢ q → r.store q ≡ h q)
    unfolding insert_item add_hashmapitem
    insert-store malloc h hm k freelist =
        let p = (take_item malloc freelist).0 in
        let h' = put_item h p (zeroed_item zero_value) in
        let keyed : HashMapItem V = record (h' p) { key = hash_key bytes k } in
        (
          refl,
          ap (λ item. item.value) (put_item_self h' p keyed)
              ∙ ap (λ item. item.value) (put_item_self h p (zeroed_item zero_value)),
          λ q d.
              put_item_elsewhere h' p keyed q d
              ∙ put_item_elsewhere h p (zeroed_item zero_value) q d,
        )

    lookup-update :
        (h : Items V) (hm : HashMap) (p : ℕ) (f : V → V) (j : HashMapKey)
        → lookup bytes (update_value h p f) hm j ≡ lookup bytes h hm j
    unfolding hashmap_retrieve
    lookup-update h hm p f j =
        find-update h p f (hm.hash_table (bucket_of bytes j)) (hash_key bytes j)

    -- What a forced item is, and that no other item changes.
    pub record IsForced (h : Items V) (hm : HashMap) (k : HashMapKey) (r : Forced bytes V)
        : Type ℓ where
      pub value : (r.store r.item).value ≡ view h hm k
      pub others : (q : ℕ) → r.item ≢ q → r.store q ≡ h q
      pub apart :
          (j : HashMapKey) (q : ℕ)
          → same_key bytes k j ≡ false
          → lookup bytes h hm j ≡ some q
          → r.item ≢ q

    pub force-IsForced :
        (malloc : ℕ) (h : Items V) (hm : HashMap) (k : HashMapKey) (freelist : List ℕ)
        → ((i : ℕ) → Apart (take_item malloc freelist).0 (hm.hash_table i))
        → IsForced h hm k (hashmap_force bytes zero_value malloc h hm k freelist)
    unfolding hashmap_retrieve
    force-IsForced malloc h hm k freelist a =
        elim (Option-cases (find_item h (hm.hash_table (bucket_of bytes k)) (hash_key bytes k))) [
          | inl missing ↦
              let stored = insert-store malloc h hm k freelist in
              rw (force-missing bytes zero_value malloc h hm k freelist missing) (record {
                value = stored.1 ∙ rw missing refl;
                others = stored.2;
                apart = λ j q differs e.
                    subst (λ x. x ≢ q) (sym stored.0)
                      (find-Apart h (hm.hash_table (bucket_of bytes j)) (hash_key bytes j) q
                        (take_item malloc freelist).0 e (a (bucket_of bytes j)));
              })
          | inr (p, found) ↦
              rw (force-found bytes zero_value malloc h hm k freelist p found) (record {
                value = rw found refl;
                others = λ q d. refl;
                apart = λ j q differs e same.
                    let key_k = equal_key-eq (h p).key (hash_key bytes k) (
                      find-equal h (hm.hash_table (bucket_of bytes k)) (hash_key bytes k) p
                        found) in
                    let key_j =
                      equal_key-eq (h q).key (hash_key bytes j)
                        (find-equal h (hm.hash_table (bucket_of bytes j)) (hash_key bytes j) q e) in
                    cc (
                      sym key_k ∙ ap (λ x. (h x).key) same ∙ key_j,
                      equal_key_refl (hash_key bytes k),
                      differs,
                    );
              })
        ]

    other-value :
        (h : Items V) (hm : HashMap) (k j : HashMapKey) (r : Forced bytes V)
        → IsForced h hm k r
        → (f : V → V) → same_key bytes k j ≡ false
        → (o : Option ℕ) → lookup bytes h hm j ≡ o
        → value_at zero_value (update_value r.store r.item f) o ≡ value_at zero_value h o
    other-value h hm k j r v f differs none e = refl
    other-value h hm k j r v f differs (some q) e =
        let d = v.apart j q differs e in
        ap (λ item. item.value)
          (put_item_elsewhere r.store r.item
              (record (r.store r.item) { value = f (r.store r.item).value }) q d
            ∙ v.others q d)

    -- Forcing a key and replacing the value of its item by an image replaces the key's value by the
    -- image, a zero value where the key had no item, and keeps the value of every other key.
    pub force_update-view :
        (malloc : ℕ) (h : Items V) (hm : HashMap) (k j : HashMapKey) (freelist : List ℕ) (f : V → V)
        → ((i : ℕ) → Apart (take_item malloc freelist).0 (hm.hash_table i))
        → let r = hashmap_force bytes zero_value malloc h hm k freelist in
          view (update_value r.store r.item f) r.map j
          ≡ (if same_key bytes k j then f (view h hm j) else view h hm j)
    force_update-view malloc h hm k j freelist f a =
        let r = hashmap_force bytes zero_value malloc h hm k freelist in
        let v = force-IsForced malloc h hm k freelist a in
        let changed = record (r.store r.item) { value = f (r.store r.item).value } in
        let found =
          lookup-update r.store r.map r.item f j
          ∙ force-lookup bytes zero_value malloc h hm k j freelist (a (bucket_of bytes j)) in
        elim (Bool-cases (same_key bytes k j)) [
          | inl same ↦
              rw (found, same)
                (ap (λ item. item.value) (put_item_self r.store r.item changed)
                  ∙ ap f (v.value ∙ view-same h hm k j same))
          | inr differs ↦
              rw (found, differs) (other-value h hm k j r v f differs (lookup bytes h hm j) refl)
        ]
