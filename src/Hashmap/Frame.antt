-- ===== src/Hashmap/Frame.antt =====
-- What `hashmap_force` leaves of the single items of the store.
use estimators.Prelude.{ℕ, ◌≡◌, ◌≢◌, refl, sym, ap, ◌∙◌, Option-cases, inl, inr, List, ◌∷◌, ◌++◌}
use estimators.Hashmap.{
  HashMapKey, HashMap, Items, find_item, take_item, hash_key, bucket_of, insert_item, hashmap_force,
}
use estimators.Hashmap.Lookup.{force-missing, force-found, equal_key-eq}
use estimators.Hashmap.Supply.{IsSupply, take_item-IsSupply, drop-IsSupply}
use estimators.Hashmap.View.{find-equal, insert-store}

module _ {ℓ} {V : Type ℓ} (bytes : HashMapKey → List ℕ) (zero_value : V) where
  -- A supply for any map stays one.
  pub force_other-IsSupply :
      (m : ℕ) (h : Items V) (hm other : HashMap) (k : HashMapKey) (free ms : List ℕ)
      → IsSupply other (free ++ m ∷ ms)
      → IsSupply other ((hashmap_force bytes zero_value m h hm k free).free ++ ms)
  unfolding insert_item
  force_other-IsSupply m h hm other k free ms v =
      elim (Option-cases (find_item h (hm.hash_table (bucket_of bytes k)) (hash_key bytes k))) [
        | inl missing ↦
            rw (force-missing bytes zero_value m h hm k free missing)
              (take_item-IsSupply other free m ms v).2
        | inr (p, found) ↦
            rw (force-found bytes zero_value m h hm k free p found)
              (drop-IsSupply other free m ms v)
      ]

  -- An item in use keeps its key.
  pub force-key :
      (m : ℕ) (h : Items V) (hm : HashMap) (k : HashMapKey) (free : List ℕ) (q : ℕ)
      → (take_item m free).0 ≢ q
      → ((hashmap_force bytes zero_value m h hm k free).store q).key ≡ (h q).key
  force-key m h hm k free q d =
      elim (Option-cases (find_item h (hm.hash_table (bucket_of bytes k)) (hash_key bytes k))) [
        | inl missing ↦
            let (same, value, others) = insert-store bytes zero_value m h hm k free in
            rw (force-missing bytes zero_value m h hm k free missing)
              (ap (λ x. x.key) (others q (λ e. d (sym same ∙ e))))
        | inr (p, found) ↦ rw (force-found bytes zero_value m h hm k free p found) refl
      ]

  -- An item in use that has another key is not the forced one.
  pub force-stranger :
      (m : ℕ) (h : Items V) (hm : HashMap) (k : HashMapKey) (free : List ℕ) (q : ℕ)
      → (take_item m free).0 ≢ q
      → (h q).key ≢ hash_key bytes k
      → (hashmap_force bytes zero_value m h hm k free).item ≢ q
  force-stranger m h hm k free q d differs =
      let chain = hm.hash_table (bucket_of bytes k) in
      elim (Option-cases (find_item h chain (hash_key bytes k))) [
        | inl missing ↦
            let (same, value, others) = insert-store bytes zero_value m h hm k free in
            rw (force-missing bytes zero_value m h hm k free missing) (λ e. d (sym same ∙ e))
        | inr (p, found) ↦
            let key =
              equal_key-eq (h p).key (hash_key bytes k)
                (find-equal h chain (hash_key bytes k) p found) in
            rw (force-found bytes zero_value m h hm k free p found)
              (λ e. differs (ap (λ x. (h x).key) (sym e) ∙ key))
      ]
