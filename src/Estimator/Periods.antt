-- ===== src/Estimator/Periods.antt =====
-- A whole period: the transition opens an empty map, and the packets that arrive until the next one are
-- what that map has as the packet data of the streams.
use estimators.Prelude.{ℕ, ◌≡◌, sym, ap, ◌∙◌, subst, List, [], ◌∷◌, ◌++◌, map, All}
use estimators.Packet.{no_packets}
use estimators.Ranges.{Apart, Distinct}
use estimators.Reorder.Containers.{Given}
use estimators.Reorder.Report.{ReorderState}
use estimators.Hashmap.{HashMapKey, hashmap_retrieve, find_item}
use estimators.Hashmap.Lists.{empty_hashmap, add_hashmap, push_latest}
use estimators.Hashmap.Supply.{IsSupply}
use estimators.Hashmap.View.{view}
use estimators.Estimator.Values.{zero_value}
use estimators.Estimator.Service.{Service, period_transition, data_exchange_aggregator_unsafe}
use estimators.Estimator.Thread.{Setting, TreeOf, QueueOf}
use estimators.Estimator.Exchange.{SystemOf, Reach, opens}
use estimators.Estimator.Exchange.Maps.{moveone-first}
use estimators.Estimator.Exchange.Order.{IsInOrder, Reach-IsInOrder}
use estimators.Estimator.Streams.{
  Arrival, handle_arrivals, own_packets, received_by, IsSupplied, arrivals-received, put_map_self,
}

unused_empty : (ps : List ℕ) → All (λ p. (i : ℕ) → Apart p (empty_hashmap.hash_table i)) ps
unused_empty [] = tt
unused_empty (p ∷ ps) = (λ i. tt, unused_empty ps)

-- A new item's value is zeroed: all of it but the structs behind the queue and the tree.
abbrev pub IsZeroed : Setting → Type 0
IsZeroed env =
    (state : ReorderState (TreeOf env) (QueueOf env)) × (Setting.blank env ≡ zero_value state)

module _ (env : Setting) (zeroed : IsZeroed env) where
  transition-current :
      (malloc m : ℕ) (s : Service (TreeOf env) (QueueOf env))
      → s.agg.working.maps ≡ m ∷ []
      → (period_transition malloc s).1.agg.working.maps ≡ opens malloc s ∷ []
  unfolding period_transition data_exchange_aggregator_unsafe add_hashmap push_latest
  transition-current malloc m s e =
      let moved = moveone-first s.shared.working s.agg.working m [] e in
      ap (λ x. x ++ opens malloc s ∷ []) moved.1

  transition-empty :
      (malloc : ℕ) (s : Service (TreeOf env) (QueueOf env))
      → (period_transition malloc s).1.hashmaps (opens malloc s) ≡ empty_hashmap
  unfolding period_transition data_exchange_aggregator_unsafe add_hashmap
  transition-empty malloc s = put_map_self s.hashmaps (opens malloc s) empty_hashmap

  empty-received :
      (m : ℕ) (k : HashMapKey) (s : Service (TreeOf env) (QueueOf env))
      → s.hashmaps m ≡ empty_hashmap
      → received_by env.bytes env.blank m k s ≡ no_packets
  unfolding hashmap_retrieve find_item
  empty-received m k s e =
      ap (λ hm. (view env.bytes env.blank s.items hm k).agg_data.received) e
      ∙ ap (λ v. v.agg_data.received) zeroed.1

  -- In every state that the threads reach: after the transition to a new period, the handler takes all
  -- packets that arrive, and the packet data of each stream in the new map, its count, times and
  -- extreme sequence numbers, are just those of the stream's own packets of the period, in the order of
  -- their arrival. New items are zeroed, and the free items and what `malloc` gives, which it does each
  -- time, have to be distinct.
  pub period-received :
      (malloc : ℕ) (k : HashMapKey) (arrivals : List Arrival) (t : SystemOf env)
      → Reach env t
      → Distinct (
          (period_transition malloc t.service).1.agg.free_hashmapitems
          ++ map (λ (a : Arrival). a.mallocs.item) arrivals)
      → Given
          (λ s'.
            received_by env.bytes env.blank (opens malloc t.service) k s'
            ≡ own_packets env.bytes k arrivals no_packets)
          (handle_arrivals env.bytes env.blank env.config arrivals
            (period_transition malloc t.service).1)
  period-received malloc k arrivals t r d =
      let s = (period_transition malloc t.service).1 in
      let p = opens malloc t.service in
      let (m, current) = IsInOrder.current (Reach-IsInOrder env t r) in
      let empty = transition-empty malloc t.service in
      let addresses = s.agg.free_hashmapitems ++ map (λ (a : Arrival). a.mallocs.item) arrivals in
      let supplied : IsSupplied p arrivals s =
        subst (λ hm. IsSupply hm addresses) (sym empty)
          (record { unused = unused_empty addresses; distinct = d }) in
      subst
        (λ x.
          Given (λ s'. received_by env.bytes env.blank p k s' ≡ own_packets env.bytes k arrivals x)
            (handle_arrivals env.bytes env.blank env.config arrivals s))
        (empty-received p k s empty)
        (arrivals-received env.bytes env.blank env.config p k arrivals s
          (transition-current malloc m t.service current) supplied)
