-- ===== src/Hashmap/Supply.antt =====
-- Where new items come from: the free list and, once that is empty, the results of `malloc`.
use estimators.Prelude.{
  ℕ, ◌≢◌, sym, ◌==◌, Bool-cases, Option-cases, inl, inr, List, [], ◌∷◌, ◌++◌, All,
}
use estimators.Ranges.{Apart, Distinct}
use estimators.Hashmap.{
  HashMapKey, HashMap, Items, find_item, put_bucket, take_item, add_hashmapitem, hash_key,
  bucket_of, insert_item, hashmap_force,
}
use estimators.Hashmap.Lookup.{force-missing, force-found}

-- The addresses for new items, each once, and none of them in a bucket.
pub record IsSupply (hm : HashMap) (s : List ℕ) : Type 0 where
  pub unused : All (λ p. (i : ℕ) → Apart p (hm.hash_table i)) s
  pub distinct : Distinct s

All-drop {κ} :
    (P : ℕ → Type κ) (xs : List ℕ) (m : ℕ) (ms : List ℕ) → All P (xs ++ m ∷ ms) → All P (xs ++ ms)
All-drop P [] m ms h = h.1
All-drop P (x ∷ xs) m ms h = (h.0, All-drop P xs m ms h.1)

Distinct-drop : (xs : List ℕ) (m : ℕ) (ms : List ℕ) → Distinct (xs ++ m ∷ ms) → Distinct (xs ++ ms)
Distinct-drop [] m ms d = d.1
Distinct-drop (x ∷ xs) m ms d = (All-drop (λ q. x ≢ q) xs m ms d.0, Distinct-drop xs m ms d.1)

pub drop-IsSupply :
    (hm : HashMap) (xs : List ℕ) (m : ℕ) (ms : List ℕ)
    → IsSupply hm (xs ++ m ∷ ms)
    → IsSupply hm (xs ++ ms)
drop-IsSupply hm xs m ms v = record {
  unused = All-drop (λ p. (i : ℕ) → Apart p (hm.hash_table i)) xs m ms v.unused;
  distinct = Distinct-drop xs m ms v.distinct;
}

-- The address that is taken is in no bucket and is not left in the supply.
pub take_item-IsSupply :
    (hm : HashMap) (free : List ℕ) (m : ℕ) (ms : List ℕ)
    → IsSupply hm (free ++ m ∷ ms)
    → ((i : ℕ) → Apart (take_item m free).0 (hm.hash_table i))
      × Apart (take_item m free).0 ((take_item m free).1 ++ ms)
      × IsSupply hm ((take_item m free).1 ++ ms)
unfolding take_item
take_item-IsSupply hm [] m ms v =
    (v.unused.0, v.distinct.0, record { unused = v.unused.1; distinct = v.distinct.1 })
take_item-IsSupply hm (p ∷ free) m ms v =
    let rest = drop-IsSupply hm (p ∷ free) m ms v in
    (rest.unused.0, rest.distinct.0, record { unused = rest.unused.1; distinct = rest.distinct.1 })

unused-put :
    (table : ℕ → List ℕ) (b p : ℕ) (s : List ℕ)
    → Apart p s
    → All (λ x. (i : ℕ) → Apart x (table i)) s
    → All (λ x. (i : ℕ) → Apart x (put_bucket table b (p ∷ table b) i)) s
unused-put table b p [] a u = tt
unused-put table b p (x ∷ s) a u =
    (unused_one table b p x (λ e. a.0 (sym e)) u.0, unused-put table b p s a.1 u.1)
  where
    unused_one :
        (table : ℕ → List ℕ) (b p x : ℕ)
        → x ≢ p
        → ((i : ℕ) → Apart x (table i))
        → (i : ℕ) → Apart x (put_bucket table b (p ∷ table b) i)
    unused_one table b p x d u i = elim (Bool-cases (b == i)) [
      | inl e ↦ rw e (d, u b)
      | inr e ↦ rw e (u i)
    ]

module _ {ℓ} {V : Type ℓ} (bytes : HashMapKey → List ℕ) (zero_value : V) where
  insert-IsSupply :
      (m : ℕ) (h : Items V) (hm : HashMap) (k : HashMapKey) (free ms : List ℕ)
      → IsSupply hm (free ++ m ∷ ms)
      → let r = insert_item bytes zero_value m h hm k free in IsSupply r.map (r.free ++ ms)
  unfolding insert_item add_hashmapitem
  insert-IsSupply m h hm k free ms v =
      let (u, apart, rest) = take_item-IsSupply hm free m ms v in
      record {
        unused =
            unused-put hm.hash_table (bucket_of bytes k) (take_item m free).0
              ((take_item m free).1 ++ ms) apart rest.unused;
        distinct = rest.distinct;
      }

  -- With a supply that `malloc`'s next result is part of, forcing a key leaves a supply.
  pub force-IsSupply :
      (m : ℕ) (h : Items V) (hm : HashMap) (k : HashMapKey) (free ms : List ℕ)
      → IsSupply hm (free ++ m ∷ ms)
      → let r = hashmap_force bytes zero_value m h hm k free in IsSupply r.map (r.free ++ ms)
  force-IsSupply m h hm k free ms v =
      elim (Option-cases (find_item h (hm.hash_table (bucket_of bytes k)) (hash_key bytes k))) [
        | inl missing ↦
            rw (force-missing bytes zero_value m h hm k free missing)
              (insert-IsSupply m h hm k free ms v)
        | inr (p, found) ↦
            rw (force-found bytes zero_value m h hm k free p found) (drop-IsSupply hm free m ms v)
      ]
