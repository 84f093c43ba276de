-- ===== src/Hashmap/Apart.antt =====
-- Hash maps that share the store of their items: forcing a key in one of them leaves the others alone.
use estimators.Prelude.{
  ℕ, ◌≡◌, ◌≢◌, refl, sym, ap, ◌∙◌, subst, ◌==◌, Bool-cases, Option-cases, inl, inr, List, [], ◌∷◌,
  ◌++◌, All, some,
}
use estimators.Ranges.{Apart}
use estimators.Hashmap.{
  HashMapKey, HashMap, Items, equal_key, find_item, put_bucket, take_item, add_hashmapitem,
  hash_key, bucket_of, insert_item, hashmap_retrieve, hashmap_force, Forced,
}
use estimators.Hashmap.Lookup.{force-missing, force-found}
use estimators.Hashmap.Supply.{IsSupply, take_item-IsSupply, drop-IsSupply}
use estimators.Hashmap.View.{view, update_value, put_item_elsewhere, IsForced}

-- The address is in no bucket.
abbrev pub Clear : ℕ → HashMap → Type 0
Clear p hm = (i : ℕ) → Apart p (hm.hash_table i)

-- No address is in buckets of both.
abbrev pub Disjoint : HashMap → HashMap → Type 0
Disjoint hm other = (i : ℕ) → All (λ p. Clear p other) (hm.hash_table i)

Apart-swap : (ps qs : List ℕ) → All (λ p. Apart p qs) ps → All (λ q. Apart q ps) qs
Apart-swap ps [] a = tt
Apart-swap ps (q ∷ qs) a = (first ps q qs a, Apart-swap ps qs (rest ps q qs a))
  where
    first : (ps : List ℕ) (q : ℕ) (qs : List ℕ) → All (λ p. Apart p (q ∷ qs)) ps → Apart q ps
    first [] q qs a = tt
    first (p ∷ ps) q qs a = (λ e. a.0.0 (sym e), first ps q qs a.1)

    rest :
        (ps : List ℕ) (q : ℕ) (qs : List ℕ)
        → All (λ p. Apart p (q ∷ qs)) ps
        → All (λ p. Apart p qs) ps
    rest [] q qs a = tt
    rest (p ∷ ps) q qs a = (a.0.1, rest ps q qs a.1)

All-at {κ} :
    (P : ℕ → ℕ → Type κ) (ps : List ℕ) (j : ℕ) → All (λ p. (i : ℕ) → P p i) ps → All (λ p. P p j) ps
All-at P [] j a = tt
All-at P (p ∷ ps) j a = (a.0 j, All-at P ps j a.1)

All-every {κ} :
    (P : ℕ → ℕ → Type κ) (ps : List ℕ)
    → ((j : ℕ) → All (λ p. P p j) ps)
    → All (λ p. (j : ℕ) → P p j) ps
All-every P [] a = tt
All-every P (p ∷ ps) a = (λ j. (a j).0, All-every P ps (λ j. (a j).1))

pub Disjoint-sym : (hm other : HashMap) → Disjoint hm other → Disjoint other hm
Disjoint-sym hm other d j =
    All-every (λ q i. Apart q (hm.hash_table i)) (other.hash_table j)
      (λ i.
        Apart-swap (hm.hash_table i) (other.hash_table j)
          (All-at (λ p k. Apart p (other.hash_table k)) (hm.hash_table i) j (d i)))

put_bucket-Disjoint :
    (hm other : HashMap) (b p : ℕ)
    → Disjoint hm other
    → Clear p other
    → (i : ℕ) → All (λ q. Clear q other) (put_bucket hm.hash_table b (p ∷ hm.hash_table b) i)
put_bucket-Disjoint hm other b p d c i = elim (Bool-cases (b == i)) [
  | inl e ↦ rw e (c, d b)
  | inr e ↦ rw e (d i)
]

module _ {ℓ} {V : Type ℓ} where
  find-All {κ} :
      (P : ℕ → Type κ) (h : Items V) (ps : List ℕ) (k : HashMapKey) (p : ℕ)
      → find_item h ps k ≡ some p
      → All P ps
      → P p
  unfolding find_item
  find-All P h [] k p e a = absurd (cc e)
  find-All P h (q ∷ ps) k p e a = elim (Bool-cases (equal_key (h q).key k)) [
    | inl same ↦ subst P (cc (rw same at e)) a.0
    | inr other ↦ find-All P h ps k p (rw other at e) a.1
  ]

  find-agree :
      (h h' : Items V) (ps : List ℕ) (k : HashMapKey)
      → All (λ q. h' q ≡ h q) ps
      → find_item h' ps k ≡ find_item h ps k
  unfolding find_item
  find-agree h h' [] k a = refl
  find-agree h h' (q ∷ ps) k a =
      let same : (h' q).key ≡ (h q).key = ap (λ x. x.key) a.0 in
      rw (same, find-agree h h' ps k a.1) refl

  -- A store that agrees on the items of a map has the same values for its keys.
  pub view-agree :
      (bytes : HashMapKey → List ℕ) (zero_value : V) (h h' : Items V) (hm : HashMap)
      (k : HashMapKey)
      → ((i : ℕ) → All (λ q. h' q ≡ h q) (hm.hash_table i))
      → view bytes zero_value h' hm k ≡ view bytes zero_value h hm k
  unfolding hashmap_retrieve
  view-agree bytes zero_value h h' hm k a =
      let chain = hm.hash_table (bucket_of bytes k) in
      let found = find-agree h h' chain (hash_key bytes k) (a (bucket_of bytes k)) in
      elim (Option-cases (find_item h chain (hash_key bytes k))) [
        | inl e ↦ rw (found, e) refl
        | inr (p, e) ↦
            rw (found, e)
              (ap (λ x. x.value)
                (find-All (λ q. h' q ≡ h q) h chain (hash_key bytes k) p e (a (bucket_of bytes k))))
      ]

  Clear-agree :
      (h h' : Items V) (p : ℕ) (ps : List ℕ)
      → ((q : ℕ) → p ≢ q → h' q ≡ h q)
      → Apart p ps
      → All (λ q. h' q ≡ h q) ps
  Clear-agree h h' p [] a c = tt
  Clear-agree h h' p (q ∷ ps) a c = (a q c.0, Clear-agree h h' p ps a c.1)

  module _ (bytes : HashMapKey → List ℕ) (zero_value : V) where
    -- After a key is forced in a map, another one has none of its addresses.
    pub record IsIsolated (other : HashMap) (ms : List ℕ) (r : Forced bytes V) : Type 0 where
      pub clear : Clear r.item other
      pub disjoint : Disjoint r.map other
      pub supply : IsSupply other (r.free ++ ms)

    pub force-IsIsolated :
        (m : ℕ) (h : Items V) (hm other : HashMap) (k : HashMapKey) (free ms : List ℕ)
        → IsSupply other (free ++ m ∷ ms)
        → Disjoint hm other
        → IsIsolated other ms (hashmap_force bytes zero_value m h hm k free)
    unfolding insert_item add_hashmapitem
    force-IsIsolated m h hm other k free ms v d =
        let chain = hm.hash_table (bucket_of bytes k) in
        elim (Option-cases (find_item h chain (hash_key bytes k))) [
          | inl missing ↦
              let (clear, apart, rest) = take_item-IsSupply other free m ms v in
              rw (force-missing bytes zero_value m h hm k free missing) (record {
                clear = clear;
                disjoint =
                    put_bucket-Disjoint hm other (bucket_of bytes k) (take_item m free).0 d clear;
                supply = rest;
              })
          | inr (p, found) ↦ rw (force-found bytes zero_value m h hm k free p found) (record {
            clear =
                find-All (λ q. Clear q other) h chain (hash_key bytes k) p found
                  (d (bucket_of bytes k));
            disjoint = d;
            supply = drop-IsSupply other free m ms v;
          })
        ]

    -- So their items are as they were.
    pub isolated-items :
        (h : Items V) (hm : HashMap) (k : HashMapKey) (r : Forced bytes V) (ps : List ℕ)
        → IsForced bytes zero_value h hm k r
        → Apart r.item ps
        → All (λ q. r.store q ≡ h q) ps
    isolated-items h hm k r ps v c = Clear-agree h r.store r.item ps v.others c

    -- They stay so, whatever becomes of the value of the forced item.
    pub isolated-updated :
        (h : Items V) (hm : HashMap) (k : HashMapKey) (f : V → V) (r : Forced bytes V) (ps : List ℕ)
        → IsForced bytes zero_value h hm k r
        → Apart r.item ps
        → All (λ q. update_value r.store r.item f q ≡ h q) ps
    isolated-updated h hm k f r ps v c =
        Clear-agree h (update_value r.store r.item f) r.item ps
          (λ q d. put_item_elsewhere r.store r.item _ q d ∙ v.others q d) c
