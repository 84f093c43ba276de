-- ===== src/Estimator/Flows.antt =====
-- What the consolidation of a tracker's streams comes to, for each of its keys.
pub mod Sums
use estimators.Prelude.{
  ℕ, suc, ◌+◌, ◌≡◌, ◌≢◌, refl, sym, ap, ◌∙◌, arith, Bool, true, false, ◌&&◌, ◌==◌, if◌then◌else◌,
  Bool-cases, inl, inr, List, [], ◌∷◌, ◌++◌, All, All-map,
}
use estimators.Ranges.{Apart}
use estimators.Hashmap.{
  HashMap, HashMapKey, Items, hmk_streamtuple, put_item, take_item, hash_key, set_flowtuple,
}
use estimators.Hashmap.Supply.{IsSupply, take_item-IsSupply}
use estimators.Hashmap.View.{
  view, same_key, update_value, update-key, put_item_elsewhere, IsForced, force-IsForced,
}
use estimators.Hashmap.Apart.{
  Clear, Disjoint, Disjoint-sym, IsIsolated, force-IsIsolated, isolated-items, view-agree,
}
use estimators.Hashmap.Frame.{force_other-IsSupply, force-key, force-stranger}
use estimators.Estimator.Values.{ReporterData, Value}
use estimators.Estimator.Service.{Config, accumulate_flow}
use estimators.Estimator.Reporter.{Desk, is_stream, put_rep, force_local, consolidate}
use estimators.Estimator.Sharing.{
  upcoming, IsFresh, IsShared, swap-IsShared, force-IsShared, forced_in, forced_desk, forced_map,
  forced-own, new-Clear,
}

-- A list of items as a map, whose buckets all hold them.
abbrev pub as_map : List ℕ → HashMap
as_map ps = record { hash_table = λ i. ps; items = ps }

hash_key-keytype :
    (bytes : HashMapKey → List ℕ) (k : HashMapKey) → (hash_key bytes k).keytype ≡ k.keytype
unfolding hash_key
hash_key-keytype bytes k = ground arith

-- No flow's key is a stream's.
flow-differs :
    (bytes : HashMapKey → List ℕ) (j k : HashMapKey)
    → is_stream j.keytype ≡ true
    → j ≢ hash_key bytes (set_flowtuple k.stream)
unfolding set_flowtuple
flow-differs bytes j k s e =
    let t = ap (λ x. is_stream x.keytype) e ∙ ap is_stream (hash_key-keytype bytes _) in
    absurd (cc (s, t))

-- An item keeps its key and, if it is a stream's, its value.
abbrev Same :
    {Tree Queue : Type 0} → Items (Value Tree Queue) → Items (Value Tree Queue) → ℕ → Type 0
Same h h' q =
    ((h' q).key ≡ (h q).key) × (is_stream (h q).key.keytype ≡ true → (h' q).value ≡ (h q).value)

module _ {Tree Queue : Type 0} (bytes : HashMapKey → List ℕ) (config : Config) where
  -- The reports of the streams among the items that belong to the key's flow, added up in order.
  abbrev pub sum_flows :
      HashMapKey → List ℕ → Items (Value Tree Queue) → ReporterData → ReporterData
  sum_flows j [] h rd = rd
  sum_flows j (p ∷ ps) h rd =
      let mine = is_stream (h p).key.keytype && same_key bytes (set_flowtuple (h p).key.stream) j in
      sum_flows j ps h (if mine then accumulate_flow config rd (h p).value.rep_data else rd)

  sum_flows-Same :
      (j : HashMapKey) (ps : List ℕ) (h h' : Items (Value Tree Queue)) (rd : ReporterData)
      → All (Same h h') ps
      → sum_flows j ps h' rd ≡ sum_flows j ps h rd
  sum_flows-Same j [] h h' rd a = refl
  sum_flows-Same j (p ∷ ps) h h' rd a = elim (Bool-cases (is_stream (h p).key.keytype)) [
    | inl s ↦ rw (a.0.0, a.0.1 s, s) (sum_flows-Same j ps h h' _ a.1)
    | inr f ↦ rw (a.0.0, f) (sum_flows-Same j ps h h' rd a.1)
  ]

module _ {Tree Queue : Type 0} (malloc : ℕ → ℕ) where
  -- The maps and the items left share the new items, and the states' items are those of neither.
  pub record IsApart (desk : Desk Tree Queue) (hm : HashMap) (ps : List ℕ) : Type 0 where
    pub maps : IsShared malloc desk.free_hmis_local desk.calls (desk.state_data ∷ hm ∷ [])
    pub items : IsShared malloc desk.free_hmis_local desk.calls (desk.state_data ∷ as_map ps ∷ [])

  tail-IsApart :
      (desk : Desk Tree Queue) (hm : HashMap) (p : ℕ) (ps : List ℕ)
      → IsApart desk hm (p ∷ ps)
      → IsApart desk hm ps
  tail-IsApart desk hm p ps v = record {
    maps = v.maps;
    items = record {
      separate = (
        (
          λ i. All-map (desk.state_data.hash_table i) (λ q c k. (c k).1) (v.items.separate.0.0 i),
          tt,
        ),
        (tt, tt),
      );
      fresh = (
        v.items.fresh.0,
        (
          λ n.
              let s = v.items.fresh.1.0 n in
              record {
                unused =
                    All-map (desk.free_hmis_local ++ upcoming malloc desk.calls n)
                      (λ q c k. (c k).1) s.unused;
                distinct = s.distinct;
              },
          tt,
        ),
      );
    };
  }

module _ {Tree Queue : Type 0} (bytes : HashMapKey → List ℕ) (blank : Value Tree Queue)
    (malloc : ℕ → ℕ) where
  -- After the state of a key is forced.
  abbrev pub stated : HashMapKey → Desk Tree Queue → Desk Tree Queue
  stated k desk = record (forced_desk bytes blank malloc desk.state_data k desk) {
    state_data = forced_map bytes blank malloc desk.state_data k desk;
  }

  stated-IsApart :
      (k : HashMapKey) (desk : Desk Tree Queue) (hm : HashMap) (ps : List ℕ)
      → IsApart malloc desk hm ps
      → IsApart malloc (stated k desk) hm ps
  stated-IsApart k desk hm ps v = record {
    maps = force-IsShared bytes blank malloc desk.state_data k desk (hm ∷ []) v.maps;
    items = force-IsShared bytes blank malloc desk.state_data k desk (as_map ps ∷ []) v.items;
  }

  pub stated-items :
      (k : HashMapKey) (desk : Desk Tree Queue) (other : HashMap) (i : ℕ)
      → IsShared malloc desk.free_hmis_local desk.calls (desk.state_data ∷ other ∷ [])
      → All (λ q. (stated k desk).items q ≡ desk.items q) (other.hash_table i)
  unfolding force_local
  stated-items k desk other i v =
      let isolated =
        force-IsIsolated bytes blank (malloc desk.calls) desk.items desk.state_data other k
          desk.free_hmis_local [] (v.fresh.1.0 1) v.separate.0.0 in
      isolated-items bytes blank desk.items desk.state_data k
        (forced_in bytes blank malloc desk.state_data k desk) (other.hash_table i)
        (force-IsForced bytes blank (malloc desk.calls) desk.items desk.state_data k
          desk.free_hmis_local (new-Clear bytes blank malloc desk.state_data desk v.fresh.0))
        (isolated.clear i)
