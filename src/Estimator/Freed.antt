-- ===== src/Estimator/Freed.antt =====
-- `pd3_estimator_destroy`: the items and the maps that it frees, and the statics that it leaves.
use estimators.Prelude.{
  ℕ, ◌≤◌, ◌≡◌, refl, sym, ap₂, subst, Bool, true, false, List, [], ◌∷◌, ◌++◌, length,
}
use estimators.Ranges.{Distinct}
use estimators.Fistq.Registry.{Called, returns, deadlock}
use estimators.Reorder.Containers.{SeqTree, SeqQueue, Run, ok, fault, unfinished, Ends, Ends-bind}
use estimators.Reorder.Destroy.{reorderdata_destroy_rd_window, destroy_rd_window-Ends, IsDrained}
use estimators.Hashmap.{HashMap}
use estimators.Hashmap.Lists.{HashMapList}
use estimators.Schedule.{destroy_schedule}
use estimators.Estimator.Service.{Service, no_holding}
use estimators.Estimator.Destroy.{
  Freed, nothing_freed, freed_then, ItemsOf, hashmap_item_destroy, hashmap_item_list_destroy,
  maps_destroy, hashmap_list_destroy,
}
use estimators.Estimator.Lifecycle.{
  LifeOf, free_storage, free_ranges, reset_statics, pd3_estimator_destroy,
}

-- These items and these maps are freed.
abbrev pub Frees : List ℕ → List ℕ → Freed → Type 0
Frees items maps f = (f.items ≡ items) × (f.maps ≡ maps)

then-Frees :
    (xs ys ms ns : List ℕ) (r s : Run Freed)
    → Ends (Frees xs ms) r
    → Ends (Frees ys ns) s
    → Ends (Frees (xs ++ ys) (ms ++ ns)) (freed_then r s)
then-Frees xs ys ms ns (ok f) (ok g) (a, b) (c, d) =
    (ap₂ (λ x y. x ++ y) a c, ap₂ (λ x y. x ++ y) b d)
then-Frees xs ys ms ns (ok f) fault h k = k
then-Frees xs ys ms ns (ok f) unfinished h k = k
then-Frees xs ys ms ns fault s h k = h
then-Frees xs ys ms ns unfinished s h k = h

-- The items of some maps, one map after the other.
abbrev pub items_of : (ℕ → HashMap) → List ℕ → List ℕ
items_of hashmaps [] = []
items_of hashmaps (m ∷ ms) = (hashmaps m).items ++ items_of hashmaps ms

module _ (tree : SeqTree) (queue : SeqQueue) (fuel : ℕ) where
  -- The rounds are enough for the window of every item.
  abbrev pub WindowsFit : ItemsOf tree queue fuel → Type 0
  WindowsFit h =
      (p : ℕ) → length (SeqQueue.entries queue (h p).value.state_data.reorder.rd.window) ≤ fuel

  item-Frees :
      (h : ItemsOf tree queue fuel) (p : ℕ)
      → WindowsFit h
      → Ends (Frees (p ∷ []) []) (hashmap_item_destroy tree queue fuel h p)
  unfolding hashmap_item_destroy
  item-Frees h p fit =
      let window = (h p).value.state_data.reorder.rd.window in
      Ends-bind (IsDrained queue (SeqQueue.entries queue window)) (Frees (p ∷ []) [])
        (reorderdata_destroy_rd_window queue fuel window) _
        (destroy_rd_window-Ends queue fuel window (fit p)) (λ x drained. (refl, refl))

  list-Frees :
      (h : ItemsOf tree queue fuel) (ps : List ℕ)
      → WindowsFit h
      → Ends (Frees ps []) (hashmap_item_list_destroy tree queue fuel h ps)
  unfolding hashmap_item_list_destroy
  list-Frees h [] fit = (refl, refl)
  list-Frees h (p ∷ ps) fit =
      then-Frees (p ∷ []) ps [] [] (hashmap_item_destroy tree queue fuel h p)
        (hashmap_item_list_destroy tree queue fuel h ps) (item-Frees h p fit) (list-Frees h ps fit)

  maps-Frees :
      (h : ItemsOf tree queue fuel) (hashmaps : ℕ → HashMap) (ms : List ℕ)
      → WindowsFit h
      → Ends (Frees (items_of hashmaps ms) ms) (maps_destroy tree queue fuel h hashmaps ms)
  unfolding maps_destroy
  maps-Frees h hashmaps [] fit = (refl, refl)
  maps-Frees h hashmaps (m ∷ ms) fit =
      let one : Run Freed = ok (record nothing_freed { maps = m ∷ [] }) in
      let rest = maps_destroy tree queue fuel h hashmaps ms in
      then-Frees (hashmaps m).items (items_of hashmaps ms) [] (m ∷ ms)
        (hashmap_item_list_destroy tree queue fuel h (hashmaps m).items) (freed_then one rest)
        (list-Frees h (hashmaps m).items fit)
        (then-Frees [] (items_of hashmaps ms) (m ∷ []) ms one rest (refl, refl)
          (maps-Frees h hashmaps ms fit))

  abbrev pub ServiceOf : Type 0
  ServiceOf = Service (SeqTree.Tree tree) (SeqQueue.Queue queue)

  -- The items in the free lists, in the free maps and in the maps of the periods.
  abbrev pub items_held : ServiceOf → List ℕ
  items_held s =
      let of_maps : HashMapList → List ℕ = λ list. items_of s.hashmaps list.maps in
      s.free_hmis_local
      ++ (s.agg.free_hashmapitems
          ++ (s.rep.free_hashmapitems
              ++ (s.shared.free_hashmapitems
                  ++ (of_maps s.agg.free_hashmaps
                      ++ (of_maps s.rep.free_hashmaps
                          ++ (of_maps s.shared.free_hashmaps
                              ++ (of_maps s.agg.working
                                  ++ (of_maps s.rep.working ++ of_maps s.shared.working))))))))

  -- The free maps and the maps of the periods.
  abbrev pub all_maps : ServiceOf → List ℕ
  all_maps s =
      s.agg.free_hashmaps.maps
      ++ (s.rep.free_hashmaps.maps
          ++ (s.shared.free_hashmaps.maps
              ++ (s.agg.working.maps ++ (s.rep.working.maps ++ s.shared.working.maps))))

  storage-Frees :
      (s : ServiceOf)
      → WindowsFit s.items
      → Ends (Frees (items_held s) (all_maps s)) (free_storage tree queue fuel s)
  unfolding free_storage hashmap_list_destroy
  storage-Frees s fit =
      let of_maps : (ms : List ℕ)
          → Ends (Frees (items_of s.hashmaps ms) ms)
              (maps_destroy tree queue fuel s.items s.hashmaps ms) =
        λ ms. maps-Frees s.items s.hashmaps ms fit in
      let of_items : (ps : List ℕ)
          → Ends (Frees ps []) (hashmap_item_list_destroy tree queue fuel s.items ps) =
        λ ps. list-Frees s.items ps fit in
      let ranges : Run Freed =
        ok (record nothing_freed { ranges = free_ranges tree queue fuel s }) in
      then-Frees [] _ [] _ ranges _ (refl, refl)
        (then-Frees _ _ [] _ _ _ (of_items s.free_hmis_local) (
          then-Frees _ _ [] _ _ _ (of_items s.agg.free_hashmapitems) (
            then-Frees _ _ [] _ _ _ (of_items s.rep.free_hashmapitems) (
              then-Frees _ _ [] _ _ _ (of_items s.shared.free_hashmapitems) (
                then-Frees _ _ _ _ _ _ (of_maps s.agg.free_hashmaps.maps) (
                  then-Frees _ _ _ _ _ _ (of_maps s.rep.free_hashmaps.maps) (
                    then-Frees _ _ _ _ _ _ (of_maps s.shared.free_hashmaps.maps) (
                      then-Frees _ _ _ _ _ _ (of_maps s.agg.working.maps) (
                        then-Frees _ _ _ _ _ _ (of_maps s.rep.working.maps)
                          (of_maps s.shared.working.maps))))))))))

  -- What `pd3_estimator_init` expects of the statics.
  abbrev pub IsFresh : LifeOf tree queue fuel → Type 0
  IsFresh l =
      (l.init_mutex ≡ false)
      × (l.pd3_estimator_started ≡ false)
      × (l.pd3_estimator_done ≡ false)
      × (l.schedule.nitems ≡ 0)
      × (l.service.agg ≡ no_holding)
      × (l.service.shared ≡ no_holding)
      × (l.service.rep ≡ no_holding)
      × (l.service.free_hmis_local ≡ [])

  abbrev pub Destroyed : ServiceOf → Called (Bool × LifeOf tree queue fuel × Freed) → Type 0
  Destroyed last deadlock = ⊥
  Destroyed last (returns (success, l, freed)) =
      (success ≡ true)
      × IsFresh l
      × Frees (items_held last) (all_maps last) freed
      × Distinct freed.items
      × Distinct freed.maps

  -- Once both threads have ended, `pd3_estimator_destroy` of a service that has started and whose mutex
  -- is free comes to an end and succeeds. It frees the items of the free lists and of the maps, and the
  -- maps, in order; where the service holds no item and no map twice, none of them is freed twice. It
  -- leaves the statics as `pd3_estimator_init` expects them. The rounds have to be enough for the window
  -- of each item.
  pub destroy-Destroyed :
      (last : ServiceOf) (l : LifeOf tree queue fuel)
      → l.init_mutex ≡ false
      → l.pd3_estimator_started ≡ true
      → WindowsFit last.items
      → Distinct (items_held last)
      → Distinct (all_maps last)
      → Ends (Destroyed last) (pd3_estimator_destroy tree queue fuel true true last l)
  unfolding pd3_estimator_destroy reset_statics destroy_schedule
  destroy-Destroyed last l m s fit items maps =
      rw (m, s)
        (Ends-bind (Frees (items_held last) (all_maps last)) (Destroyed last)
          (free_storage tree queue fuel last) _ (storage-Frees last fit)
          (λ freed (a, b). (
            refl,
            (refl, refl, refl, refl, refl, refl, refl, refl),
            (a, b),
            subst Distinct (sym a) items,
            subst Distinct (sym b) maps,
          )))
