-- ===== src/Estimator/Exchange/Order.antt =====
-- The maps of the periods stay in order under any interleaving of the two threads.

use estimators.Prelude.{
  ℕ, ◌≡◌, ◌≢◌, refl, ap, subst, Bool, true, false, ◌==◌, Bool-cases, Option-cases, inl, inr, List,
  [], ◌∷◌, ◌++◌, none, some,
}
use estimators.Ranges.{Store}
use estimators.Hashmap.{HashMap, HashMapKey, Items}
use estimators.Reorder.{last_of}
use estimators.Hashmap.Lists.{take_map, pop_earliest, push_latest, moveone_hashmap, add_hashmap}
use estimators.Estimator.Values.{Value}
use estimators.Estimator.Service.{
  Config, Service, Mallocs, PacketInfo, sleeps, takes, started, reporter_wait, period_transition,
  handle_packet_arrival, arrival_in, data_exchange_aggregator_unsafe, data_exchange_reporter_unsafe,
}
use estimators.Estimator.Recycle.{recycle_earliest, recycle_map}
use estimators.Schedule.{Schedule}
use estimators.Estimator.Thread.{Setting, TreeOf, QueueOf, reporter_end}
use estimators.Estimator.Exchange.{
  System, SystemOf, opens, Step, step-transition, step-arrival, step-sleep, step-take, step-streams,
  step-reports, step-end, step-recycle, Reach, reach-start, reach-step,
}
use estimators.Estimator.Exchange.Maps.{
  IsCounted, moveall-maps, moveone-first, append-last, append-middle, append-first, push-IsCounted,
}

-- The three lists of maps on their way, and their counts.
pub record IsInOrder {Tree Queue : Type 0} (t : System Tree Queue) : Type 0 where
  pub order :
      t.closed ++ t.service.rep.working.maps ++ t.service.shared.working.maps
        ++ t.service.agg.working.maps
      ≡ t.opened
  pub current : (m : ℕ) × (t.service.agg.working.maps ≡ m ∷ [])
  pub counted :
      IsCounted t.service.rep.working
      × IsCounted t.service.shared.working
      × IsCounted t.service.agg.working

module _ {Tree Queue : Type 0} where
  transition-IsInOrder :
      (malloc : ℕ) (t : System Tree Queue)
      → IsInOrder t
      → IsInOrder (record t {
        service = (period_transition malloc t.service).1;
        opened = t.opened ++ opens malloc t.service ∷ [];
      })
  unfolding period_transition data_exchange_aggregator_unsafe add_hashmap push_latest
  transition-IsInOrder malloc t v =
      let (m, e) = v.current in
      let (c, d, f) = v.counted in
      let p = opens malloc t.service in
      let (sh, rest, count_to, count_from) =
        moveone-first t.service.shared.working t.service.agg.working m [] e in
      record {
        order =
            rw (sh, rest)
              (append-last t.closed t.service.rep.working.maps t.service.shared.working.maps
                t.opened m p
                (subst
                  (λ x.
                    t.closed ++ t.service.rep.working.maps ++ t.service.shared.working.maps ++ x
                    ≡ t.opened)
                  e v.order));
        current = (p, ap (λ x. x ++ p ∷ []) rest);
        counted = (
          c,
          count_to d,
          push-IsCounted (moveone_hashmap t.service.shared.working t.service.agg.working).1 p
              (count_from f),
        );
      }

  take-lem :
      (done : Bool) (s u : Service Tree Queue)
      → reporter_wait done s ≡ takes u
      → let (shared, rep) = data_exchange_reporter_unsafe s.shared s.rep in
        (u.agg ≡ s.agg) × (u.shared ≡ shared) × (u.rep ≡ rep)
  unfolding reporter_wait
  take-lem true s u e = absurd (cc e)
  take-lem false s u e = elim (Bool-cases (s.shared.working.count == 0)) [
    | inl z ↦ absurd (cc (rw z at e))
    | inr z ↦
        let (shared, rep) = data_exchange_reporter_unsafe s.shared s.rep in
        let same : record s { shared = shared; rep = rep; reporter_sleeping = false } ≡ u =
          cc (rw z at e) in
        subst (λ (x : Service Tree Queue). (x.agg ≡ s.agg) × (x.shared ≡ shared) × (x.rep ≡ rep))
          same (refl, refl, refl)
  ]

  sleep-lem :
      (done : Bool) (s u : Service Tree Queue)
      → reporter_wait done s ≡ sleeps u
      → (u.agg ≡ s.agg) × (u.shared ≡ s.shared) × (u.rep ≡ s.rep)
  unfolding reporter_wait
  sleep-lem true s u e = absurd (cc e)
  sleep-lem false s u e = elim (Bool-cases (s.shared.working.count == 0)) [
    | inl z ↦
        let same : record s { reporter_sleeping = true } ≡ u = cc (rw z at e) in
        subst
          (λ (x : Service Tree Queue). (x.agg ≡ s.agg) × (x.shared ≡ s.shared) × (x.rep ≡ s.rep))
          same (refl, refl, refl)
    | inr z ↦ absurd (cc (rw z at e))
  ]

  recycle-lem :
      (m : ℕ) (later : List ℕ) (s u : Service Tree Queue)
      → s.rep.working.maps ≡ m ∷ later
      → recycle_earliest s ≡ some u
      → recycle_map m s ≡ u
  unfolding recycle_earliest
  recycle-lem m later s u e r = cc (rw e at r)

  -- What keeps the three lists of maps keeps the order.
  same-IsInOrder :
      (t : System Tree Queue) (u : Service Tree Queue)
      → u.agg.working ≡ t.service.agg.working
      → u.shared ≡ t.service.shared
      → u.rep ≡ t.service.rep
      → IsInOrder t
      → IsInOrder (record t { service = u })
  same-IsInOrder t u a b c v = record {
    order = rw (a, b, c) v.order;
    current = rw a v.current;
    counted = rw (a, b, c) v.counted;
  }

  take-IsInOrder :
      (done : Bool) (t : System Tree Queue) (u : Service Tree Queue)
      → reporter_wait done t.service ≡ takes u
      → IsInOrder t
      → IsInOrder (record t { service = u })
  unfolding data_exchange_reporter_unsafe
  take-IsInOrder done t u e v =
      let s = t.service in
      let (agg, shared, rep) = take-lem done s u e in
      let (moved, left, counts) =
        moveall-maps s.rep.working s.shared.working.count s.shared.working.maps in
      let (c, d, f) = v.counted in
      let (cr, cs) = counts c d in
      record {
        order =
            rw (agg, shared, rep, moved, left)
              (append-middle t.closed s.rep.working.maps s.shared.working.maps s.agg.working.maps
                t.opened v.order);
        current = rw agg v.current;
        counted = rw (agg, shared, rep) (cr, cs, f);
      }

  recycle-IsInOrder :
      (t : System Tree Queue) (m : ℕ) (later : List ℕ) (u : Service Tree Queue)
      → t.service.rep.working.maps ≡ m ∷ later
      → recycle_earliest t.service ≡ some u
      → IsInOrder t
      → IsInOrder (record t { service = u; closed = t.closed ++ m ∷ [] })
  unfolding recycle_map
  recycle-IsInOrder t m later u e r v =
      let s = t.service in
      let (moved, left, count_to, count_from) =
        moveone-first s.rep.free_hashmaps s.rep.working m later e in
      let (c, d, f) = v.counted in
      subst
        (λ (x : Service Tree Queue).
          IsInOrder (record t { service = x; closed = t.closed ++ m ∷ [] }))
        (recycle-lem m later s u e r)
        (record {
          order = rw left (
              append-first t.closed later s.shared.working.maps s.agg.working.maps t.opened m (
                subst (λ x. t.closed ++ x ++ s.shared.working.maps ++ s.agg.working.maps ≡ t.opened)
                  e v.order));
          current = v.current;
          counted = (count_from c, d, f);
        })

  -- An arrival changes none of the lists of maps.
  arrival-working :
      (bytes : HashMapKey → List ℕ) (blank : Value Tree Queue) (config : Config) (mallocs : Mallocs)
      (ts : ℕ) (ppi : PacketInfo) (s u : Service Tree Queue)
      → handle_packet_arrival bytes blank config mallocs ts ppi s ≡ some u
      → (u.agg.working ≡ s.agg.working) × (u.shared ≡ s.shared) × (u.rep ≡ s.rep)
  unfolding handle_packet_arrival arrival_in
  arrival-working bytes blank config mallocs ts ppi s u e =
      elim (Option-cases (last_of s.agg.working.maps)) [
        | inl n ↦ absurd (cc (rw (n, handle_packet_arrival) at e))
        | inr (m, l) ↦
            let same : arrival_in bytes blank config mallocs m ts ppi.stream ppi.seq s ≡ u =
              cc (rw (l, handle_packet_arrival) at e) in
            subst
              (λ (x : Service Tree Queue).
                (x.agg.working ≡ s.agg.working) × (x.shared ≡ s.shared) × (x.rep ≡ s.rep))
              same (refl, refl, refl)
      ]

module _ (env : Setting) where
  Step-IsInOrder : (t u : SystemOf env) → Step env t u → IsInOrder t → IsInOrder u
  unfolding reporter_end
  Step-IsInOrder _ _ (step-transition malloc t) v = transition-IsInOrder malloc t v
  Step-IsInOrder _ _ (step-arrival mallocs ts ppi t s e) v =
      let (a, b, c) = arrival-working env.bytes env.blank env.config mallocs ts ppi t.service s e in
      same-IsInOrder t s a b c v
  Step-IsInOrder _ _ (step-sleep done t s e) v =
      let (a, b, c) = sleep-lem done t.service s e in
      same-IsInOrder t s (ap (λ x. x.working) a) b c v
  Step-IsInOrder _ _ (step-take done t s e) v = take-IsInOrder done t s e v
  Step-IsInOrder _ _ (step-streams t m later before ps after desk e f ran) v = record {
    order = v.order;
    current = v.current;
    counted = v.counted;
  }
  Step-IsInOrder _ _ (step-reports t time time' before part after part' told schedule desk e ran)
        v =
      record { order = v.order; current = v.current; counted = v.counted }
  Step-IsInOrder _ _ (step-end t) v = record {
    order = v.order;
    current = v.current;
    counted = v.counted;
  }
  Step-IsInOrder _ _ (step-recycle t m later s e r) v = recycle-IsInOrder t m later s e r v

  start-IsInOrder :
      (malloc : ℕ) (hashmaps : ℕ → HashMap) (items : Items (Value (TreeOf env) (QueueOf env)))
      (ranges : Store) (trackers : List HashMap) (state_data : HashMap) (calls : ℕ)
      (schedule : Schedule)
      → IsInOrder {Tree = TreeOf env} {Queue = QueueOf env} (record {
        service = started malloc hashmaps items ranges;
        trackers = trackers;
        state_data = state_data;
        calls = calls;
        schedule = schedule;
        opened = malloc ∷ [];
        closed = [];
      })
  unfolding started add_hashmap take_map pop_earliest push_latest
  start-IsInOrder malloc hashmaps items ranges trackers state_data calls schedule = record {
    order = refl;
    current = (malloc, refl);
    counted = (refl, refl, refl);
  }

  -- Whatever the aggregator and the reporter do and in whichever order, the processing of streams and
  -- the reports included, the maps that were processed, those the reporter has, those in the shared area and the aggregator's one map are, one after the
  -- other, the maps that were opened, in the order of their periods; and the counts of the three lists
  -- are their lengths modulo 2^32.
  pub Reach-IsInOrder : (t : SystemOf env) → Reach env t → IsInOrder t
  Reach-IsInOrder _ (reach-start malloc hashmaps items ranges trackers state_data calls schedule) =
      start-IsInOrder malloc hashmaps items ranges trackers state_data calls schedule
  Reach-IsInOrder _ (reach-step t u r s) = Step-IsInOrder t u s (Reach-IsInOrder t r)

  -- In every state that the two threads reach, the aggregator has a map for the packet that arrives:
  -- the handler does not read through NULL.
  pub Reach-arrival :
      (mallocs : Mallocs) (ts : ℕ) (ppi : PacketInfo) (t : SystemOf env)
      → Reach env t
      → handle_packet_arrival env.bytes env.blank env.config mallocs ts ppi t.service ≢ none
  unfolding handle_packet_arrival
  Reach-arrival mallocs ts ppi t r e =
      let (m, current) = IsInOrder.current (Reach-IsInOrder t r) in
      absurd (cc (rw (current, handle_packet_arrival) at e))
