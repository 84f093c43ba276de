-- ===== src/Estimator/Sharing.antt =====
-- The maps of the reporter share the store of their items and the supply of new ones.
use estimators.Prelude.{ℕ, zero, suc, ◌+◌, ◌≡◌, if◌then◌else◌, List, [], ◌∷◌, ◌++◌, All}
use estimators.Hashmap.{HashMap, HashMapKey, Forced, take_item, hashmap_force}
use estimators.Hashmap.Supply.{IsSupply, take_item-IsSupply, force-IsSupply}
use estimators.Hashmap.View.{view, same_key, update_value, force-IsForced, force_update-view}
use estimators.Hashmap.Apart.{
  Clear, Disjoint, Disjoint-sym, IsIsolated, force-IsIsolated, isolated-updated, view-agree,
}
use estimators.Estimator.Values.{Value}
use estimators.Estimator.Reporter.{Desk, force_local}

-- What `malloc` gives at the calls from one on.
abbrev pub upcoming : (ℕ → ℕ) → ℕ → ℕ → List ℕ
upcoming malloc c zero = []
upcoming malloc c (suc n) = malloc c ∷ upcoming malloc (c + 1) n

abbrev pub AllDisjoint : HashMap → List HashMap → Type 0
AllDisjoint hm = All (λ other. Disjoint hm other)

abbrev pub Separate : List HashMap → Type 0
Separate [] = Unit
Separate (hm ∷ rest) = AllDisjoint hm rest × Separate rest

module _ (malloc : ℕ → ℕ) where
  -- However many new items there are to come, none is in use in the map, and no two are the same.
  abbrev pub IsFresh : List ℕ → ℕ → HashMap → Type 0
  IsFresh free calls hm = (n : ℕ) → IsSupply hm (free ++ upcoming malloc calls n)

  -- The maps share the new items, and nothing else.
  pub record IsShared (free : List ℕ) (calls : ℕ) (hms : List HashMap) : Type 0 where
    pub separate : Separate hms
    pub fresh : All (IsFresh free calls) hms

  pub swap-IsShared :
      (free : List ℕ) (calls : ℕ) (hm other : HashMap) (rest : List HashMap)
      → IsShared free calls (hm ∷ other ∷ rest)
      → IsShared free calls (other ∷ hm ∷ rest)
  swap-IsShared free calls hm other rest v = record {
    separate =
        ((Disjoint-sym hm other v.separate.0.0, v.separate.1.0), (v.separate.0.1, v.separate.1.1));
    fresh = (v.fresh.1.0, (v.fresh.0, v.fresh.1.1));
  }

  pub rest-IsShared :
      (free : List ℕ) (calls : ℕ) (hm : HashMap) (rest : List HashMap)
      → IsShared free calls (hm ∷ rest)
      → IsShared free calls rest
  rest-IsShared free calls hm rest v = record { separate = v.separate.1; fresh = v.fresh.1 }

  front_apart :
      (x : HashMap) (xs : List HashMap) (hm : HashMap) (ys : List HashMap)
      → AllDisjoint x (xs ++ hm ∷ ys)
      → Disjoint x hm × AllDisjoint x (xs ++ ys)
  front_apart x [] hm ys a = a
  front_apart x (z ∷ xs) hm ys a =
      let (first, rest) = front_apart x xs hm ys a.1 in (first, (a.0, rest))

  back_apart :
      (x : HashMap) (xs : List HashMap) (hm : HashMap) (ys : List HashMap)
      → Disjoint x hm
      → AllDisjoint x (xs ++ ys)
      → AllDisjoint x (xs ++ hm ∷ ys)
  back_apart x [] hm ys h a = (h, a)
  back_apart x (z ∷ xs) hm ys h a = (a.0, back_apart x xs hm ys h a.1)

  cons-IsShared :
      (free : List ℕ) (calls : ℕ) (hm : HashMap) (rest : List HashMap)
      → AllDisjoint hm rest
      → IsFresh free calls hm
      → IsShared free calls rest
      → IsShared free calls (hm ∷ rest)
  cons-IsShared free calls hm rest d f v = record {
    separate = (d, v.separate);
    fresh = (f, v.fresh);
  }

  -- The order of the maps does not matter.
  pub front-IsShared :
      (free : List ℕ) (calls : ℕ) (xs : List HashMap) (hm : HashMap) (ys : List HashMap)
      → IsShared free calls (xs ++ hm ∷ ys)
      → IsShared free calls (hm ∷ (xs ++ ys))
  front-IsShared free calls [] hm ys v = v
  front-IsShared free calls (x ∷ xs) hm ys v =
      let rest =
        front-IsShared free calls xs hm ys (rest-IsShared free calls x (xs ++ hm ∷ ys) v) in
      swap-IsShared free calls x hm (xs ++ ys) (
        cons-IsShared free calls x (hm ∷ (xs ++ ys)) (front_apart x xs hm ys v.separate.0) v.fresh.0
          rest)

  pub back-IsShared :
      (free : List ℕ) (calls : ℕ) (xs : List HashMap) (hm : HashMap) (ys : List HashMap)
      → IsShared free calls (hm ∷ (xs ++ ys))
      → IsShared free calls (xs ++ hm ∷ ys)
  back-IsShared free calls [] hm ys v = v
  back-IsShared free calls (x ∷ xs) hm ys v =
      let w = swap-IsShared free calls hm x (xs ++ ys) v in
      cons-IsShared free calls x (xs ++ hm ∷ ys)
        (back_apart x xs hm ys w.separate.0.0 w.separate.0.1) w.fresh.0
        (back-IsShared free calls xs hm ys (rest-IsShared free calls x (hm ∷ (xs ++ ys)) w))

module _ {Tree Queue : Type 0} (bytes : HashMapKey → List ℕ) (blank : Value Tree Queue)
    (malloc : ℕ → ℕ) where
  -- The parts of what the reporter's `hashmap_force` leaves.
  abbrev pub forced_in : HashMap → HashMapKey → Desk Tree Queue → Forced bytes (Value Tree Queue)
  forced_in hm k desk =
      hashmap_force bytes blank (malloc desk.calls) desk.items hm k desk.free_hmis_local

  pub new-Clear :
      (hm : HashMap) (desk : Desk Tree Queue)
      → IsFresh malloc desk.free_hmis_local desk.calls hm
      → Clear (take_item (malloc desk.calls) desk.free_hmis_local).0 hm
  new-Clear hm desk v = (take_item-IsSupply hm desk.free_hmis_local (malloc desk.calls) [] (v 1)).0

  abbrev pub forced_desk : HashMap → HashMapKey → Desk Tree Queue → Desk Tree Queue
  forced_desk hm k desk = (force_local bytes blank malloc hm k desk).2

  abbrev pub forced_map : HashMap → HashMapKey → Desk Tree Queue → HashMap
  forced_map hm k desk = (force_local bytes blank malloc hm k desk).1

  force-AllDisjoint :
      (hm : HashMap) (k : HashMapKey) (desk : Desk Tree Queue) (others : List HashMap)
      → AllDisjoint hm others
      → All (IsFresh malloc desk.free_hmis_local desk.calls) others
      → AllDisjoint (forced_map hm k desk) others
        × All
            (IsFresh malloc (forced_desk hm k desk).free_hmis_local (forced_desk hm k desk).calls)
            others
  unfolding force_local
  force-AllDisjoint hm k desk [] d v = (tt, tt)
  force-AllDisjoint hm k desk (other ∷ rest) d v =
      let isolated = λ (n : ℕ).
        force-IsIsolated bytes blank (malloc desk.calls) desk.items hm other k desk.free_hmis_local
          (upcoming malloc (desk.calls + 1) n) (v.0 (suc n)) d.0 in
      let (e, w) = force-AllDisjoint hm k desk rest d.1 v.1 in
      ((IsIsolated.disjoint (isolated 0), e), (λ n. IsIsolated.supply (isolated n), w))

  -- A key that is forced in the first of the maps.
  pub force-IsShared :
      (hm : HashMap) (k : HashMapKey) (desk : Desk Tree Queue) (others : List HashMap)
      → IsShared malloc desk.free_hmis_local desk.calls (hm ∷ others)
      → IsShared malloc
          (forced_desk hm k desk).free_hmis_local
          (forced_desk hm k desk).calls
          (forced_map hm k desk ∷ others)
  unfolding force_local
  force-IsShared hm k desk others v =
      let (d, w) = force-AllDisjoint hm k desk others v.separate.0 v.fresh.1 in
      record {
        separate = (d, v.separate.1);
        fresh = (
          λ n.
              force-IsSupply bytes blank (malloc desk.calls) desk.items hm k desk.free_hmis_local
                (upcoming malloc (desk.calls + 1) n) (v.fresh.0 (suc n)),
          w,
        );
      }

  -- Where the value of the forced item is replaced by an image, the value of its key is.
  pub forced-own :
      (hm : HashMap) (k j : HashMapKey) (desk : Desk Tree Queue)
      (f : Value Tree Queue → Value Tree Queue)
      → IsFresh malloc desk.free_hmis_local desk.calls hm
      → let r = forced_in hm k desk in
        view bytes blank (update_value r.store r.item f) r.map j ≡ (
          if same_key bytes k j
          then f (view bytes blank desk.items hm j)
          else view bytes blank desk.items hm j)
  forced-own hm k j desk f v =
      force_update-view bytes blank (malloc desk.calls) desk.items hm k j desk.free_hmis_local f
        (new-Clear hm desk v)

  -- The items of the other maps stay.
  pub forced-items :
      (hm other : HashMap) (k : HashMapKey) (desk : Desk Tree Queue)
      (f : Value Tree Queue → Value Tree Queue) (i : ℕ)
      → IsFresh malloc desk.free_hmis_local desk.calls hm
      → IsFresh malloc desk.free_hmis_local desk.calls other
      → Disjoint hm other
      → let r = forced_in hm k desk in
        All (λ q. update_value r.store r.item f q ≡ desk.items q) (other.hash_table i)
  forced-items hm other k desk f i v w d =
      let isolated =
        force-IsIsolated bytes blank (malloc desk.calls) desk.items hm other k desk.free_hmis_local
          [] (w 1) d in
      isolated-updated bytes blank desk.items hm k f (forced_in hm k desk) (other.hash_table i)
        (force-IsForced bytes blank (malloc desk.calls) desk.items hm k desk.free_hmis_local
          (new-Clear hm desk v))
        (isolated.clear i)

  -- And so do the values of their keys.
  pub forced-other :
      (hm other : HashMap) (k j : HashMapKey) (desk : Desk Tree Queue)
      (f : Value Tree Queue → Value Tree Queue)
      → IsFresh malloc desk.free_hmis_local desk.calls hm
      → IsFresh malloc desk.free_hmis_local desk.calls other
      → Disjoint hm other
      → let r = forced_in hm k desk in
        view bytes blank (update_value r.store r.item f) other j
        ≡ view bytes blank desk.items other j
  forced-other hm other k j desk f v w d =
      let r = forced_in hm k desk in
      view-agree bytes blank desk.items (update_value r.store r.item f) other j
        (λ i. forced-items hm other k desk f i v w d)
