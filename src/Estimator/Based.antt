-- ===== src/Estimator/Based.antt =====
-- What the reporter does to the items of its maps, for a property of the values of all items: a change
-- of an item's report leaves the state of every stream alone, and a new item has the state of none.
use estimators.Prelude.{
  ℕ, suc, ◌≡◌, refl, ap, ◌==◌, if_split, Option-cases, inl, inr, List, [], ◌∷◌, length,
}
use estimators.Loss.Total.{HasBase}
use estimators.Hashmap.{
  HashMap, HashMapItem, HashMapKey, Items, put_item, set_flowtuple, find_item, hash_key, bucket_of,
  add_hashmapitem, take_item, insert_item, hashmap_force, zeroed_item,
}
use estimators.Hashmap.Lookup.{force-missing, force-found}
use estimators.Estimator.Values.{ReporterData, Value}
use estimators.Estimator.Service.{Config, accumulate_time, accumulate_flow}
use estimators.Estimator.Reporter.{Desk, is_stream, put_rep, force_local, track, consolidate}

module _ {ℓ κ} {V : Type ℓ} (Q : V → Type κ) where
  -- Every item's value has the property, those of free items included.
  abbrev pub AllItems : Items V → Type κ
  AllItems h = (p : ℕ) → Q (h p).value

  pub put-AllItems :
      (h : Items V) (p : ℕ) (item : HashMapItem V)
      → Q item.value
      → AllItems h
      → AllItems (put_item h p item)
  put-AllItems h p item v a q =
      if_split (λ x. Q (HashMapItem.value x)) (p == q) item (h q) (λ e. v) (λ e. a q)

  pub force-AllItems :
      (bytes : HashMapKey → List ℕ) (blank : V) (malloc : ℕ) (h : Items V) (hm : HashMap)
      (k : HashMapKey) (free : List ℕ)
      → Q blank
      → AllItems h
      → AllItems (hashmap_force bytes blank malloc h hm k free).store
  unfolding insert_item add_hashmapitem
  force-AllItems bytes blank malloc h hm k free v a =
      elim (Option-cases (find_item h (hm.hash_table (bucket_of bytes k)) (hash_key bytes k))) [
        | inl missing ↦
            let p = (take_item malloc free).0 in
            let h' = put_item h p (zeroed_item blank) in
            let placed = put-AllItems h p (zeroed_item blank) v a in
            rw (force-missing bytes blank malloc h hm k free missing)
              (put-AllItems h' p (record (h' p) { key = hash_key bytes k }) (placed p) placed)
        | inr (p, found) ↦ rw (force-found bytes blank malloc h hm k free p found) a
      ]

module _ {Tree Queue : Type 0} where
  -- The streams of all items have a base for their losses.
  abbrev pub AllBased : Items (Value Tree Queue) → Type 0
  AllBased = AllItems (λ v. HasBase v.state_data.loss)

module _ {Tree Queue : Type 0} (bytes : HashMapKey → List ℕ) (blank : Value Tree Queue)
    (malloc : ℕ → ℕ) (fresh : HasBase blank.state_data.loss) where
  pub force_local-AllBased :
      (hm : HashMap) (k : HashMapKey) (desk : Desk Tree Queue)
      → AllBased desk.items
      → AllBased (force_local bytes blank malloc hm k desk).2.items
  unfolding force_local
  force_local-AllBased hm k desk a =
      force-AllItems (λ v. HasBase v.state_data.loss) bytes blank (malloc desk.calls) desk.items hm
        k desk.free_hmis_local fresh a

  pub put_rep-AllBased :
      (desk : Desk Tree Queue) (p : ℕ) (rd : ReporterData)
      → AllBased desk.items
      → AllBased (put_rep desk p rd).items
  put_rep-AllBased desk p rd a =
      put-AllItems (λ v. HasBase v.state_data.loss) desk.items p _ (a p) a

  module _ (config : Config) where
    -- A report goes into as many trackers as there are.
    pub track-AllBased :
        (k : HashMapKey) (rd : ReporterData) (trackers : List HashMap) (desk : Desk Tree Queue)
        → AllBased desk.items
        → let r = track bytes blank malloc config k rd trackers desk in
          (length r.0 ≡ length trackers) × AllBased r.1.items
    unfolding track
    track-AllBased k rd [] desk a = (refl, a)
    track-AllBased k rd (hm ∷ rest) desk a =
        let (p, hm', forced) = force_local bytes blank malloc hm k desk in
        let summed = accumulate_time config (forced.items p).value.rep_data rd in
        let timed = put_rep forced p summed in
        let (same, b) =
          track-AllBased k rd rest timed
            (put_rep-AllBased forced p summed (force_local-AllBased hm k desk a)) in
        (ap suc same, b)

    pub consolidate-AllBased :
        (ps : List ℕ) (hm : HashMap) (desk : Desk Tree Queue)
        → AllBased desk.items
        → AllBased (consolidate bytes blank malloc config ps hm desk).1.items
    unfolding consolidate
    consolidate-AllBased [] hm desk a = a
    consolidate-AllBased (p ∷ ps) hm desk a =
        let key = (desk.items p).key in
        let (q, state_data, stated) = force_local bytes blank malloc desk.state_data key desk in
        let stated' = record stated { state_data = state_data } in
        let (g, hm', forced) =
          force_local bytes blank malloc hm (set_flowtuple key.stream) stated' in
        let b =
          force_local-AllBased hm (set_flowtuple key.stream) stated'
            (force_local-AllBased desk.state_data key desk a) in
        let sum =
          accumulate_flow config (forced.items g).value.rep_data (forced.items p).value.rep_data in
        if_split (λ (x : HashMap × Desk Tree Queue). AllBased x.1.items) (is_stream key.keytype) _ _
          (λ e.
            consolidate-AllBased ps hm' (put_rep forced g sum) (put_rep-AllBased forced g sum b))
          (λ e. consolidate-AllBased ps hm desk a)
