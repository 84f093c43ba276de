-- ===== src/Estimator/Streams.antt =====
-- `handle_packet_arrival` over the packets of a period: what each stream's item has as packet data.
use estimators.Prelude.{
  ℕ, ◌≡◌, refl, sym, ap, ◌∙◌, subst, arith, true, ◌==◌, Bool-cases, Option-cases, inl, inr,
  if◌then◌else◌, List, [], ◌∷◌, ◌++◌, map, Option, none, some, ◌>>=◌,
}
use estimators.Packet.{PacketData, packetdata_arrival}
use estimators.Loss.{lossdata_arrival}
use estimators.Reorder.{reorderdata_arrival, last_of}
use estimators.Reorder.Containers.{Given}
use estimators.Hashmap.{HashMap, HashMapKey, Items, set_streamtuple, hashmap_force}
use estimators.Hashmap.Lists.{put_map}
use estimators.Hashmap.View.{view, same_key, update_value, force_update-view}
use estimators.Hashmap.Supply.{IsSupply, take_item-IsSupply, force-IsSupply}
use estimators.Estimator.Values.{AggregatorData, Value}
use estimators.Estimator.Service.{
  Config, Service, Mallocs, PacketInfo, Arrived, loss_arrival, reorder_arrival, tell_parties,
  arrival_in, handle_packet_arrival, reorder_wanted,
}

loss-received :
    (config : Config) (malloc : Option ℕ) (seq : ℕ) (a : Arrived)
    → (loss_arrival config malloc seq a).0.received ≡ a.0.received
unfolding loss_arrival
loss-received config malloc seq (ad, h, loss, reorder) = elim (Bool-cases config.loss_enabled) [
  | inl e ↦ elim (Option-cases (lossdata_arrival malloc h ad.loss seq loss)) [
    | inl n ↦ rw (e, n, loss_arrival) refl
    | inr (r, f) ↦ rw (e, f, loss_arrival) refl
  ]
  | inr e ↦ rw (e) refl
]

reorder-received :
    (config : Config) (malloc : Option ℕ) (seq : ℕ) (a : Arrived)
    → (reorder_arrival config malloc seq a).0.received ≡ a.0.received
unfolding reorder_arrival
reorder-received config malloc seq (ad, h, loss, reorder) =
    elim (Bool-cases (reorder_wanted config)) [
      | inl e ↦ elim (Option-cases (reorderdata_arrival malloc h ad.reorder seq reorder)) [
        | inl n ↦ rw (e, n, reorder_arrival) refl
        | inr (r, f) ↦ rw (e, f, reorder_arrival) refl
      ]
      | inr e ↦ rw (e) refl
    ]

tell-received :
    (config : Config) (mallocs : Mallocs) (ts seq : ℕ) (a : Arrived)
    → (tell_parties config mallocs ts seq a).0.received ≡ packetdata_arrival a.0.received ts seq
unfolding tell_parties
tell-received config mallocs ts seq (ad, h, loss, reorder) =
    let counted : Arrived =
      (record ad { received = packetdata_arrival ad.received ts seq }, h, loss, reorder) in
    reorder-received config mallocs.reorder seq (loss_arrival config mallocs.loss seq counted)
    ∙ loss-received config mallocs.loss seq counted

-- A packet, the time of its arrival, and what the allocations give.
pub record Arrival : Type 0 where
  pub mallocs : Mallocs
  pub ts : ℕ
  pub ppi : PacketInfo

pub put_map_self : (f : ℕ → HashMap) (m : ℕ) (hm : HashMap) → put_map f m hm m ≡ hm
put_map_self f m hm = let e : (m == m) ≡ true = ground arith in rw e refl

-- The summary of a stream's packets, from what it was before.
abbrev pub own_packets : (HashMapKey → List ℕ) → HashMapKey → List Arrival → PacketData → PacketData
own_packets bytes k [] pd = pd
own_packets bytes k (a ∷ rest) pd = own_packets bytes k rest (
    if same_key bytes (set_streamtuple a.ppi.stream) k
    then packetdata_arrival pd a.ts a.ppi.seq
    else pd)

-- What the map `m` says of the packets of a stream.
abbrev pub received_by :
    {Tree Queue : Type 0}
    → (HashMapKey → List ℕ)
    → Value Tree Queue
    → ℕ
    → HashMapKey
    → Service Tree Queue
    → PacketData
received_by bytes blank m k s = (view bytes blank s.items (s.hashmaps m) k).agg_data.received

-- The addresses for new items of the map `m`, those of the free list and of `malloc`.
abbrev pub IsSupplied : {Tree Queue : Type 0} → ℕ → List Arrival → Service Tree Queue → Type 0
IsSupplied m arrivals s =
    IsSupply (s.hashmaps m)
      (s.agg.free_hashmapitems ++ map (λ (a : Arrival). a.mallocs.item) arrivals)

module _ {Tree Queue : Type 0} (bytes : HashMapKey → List ℕ) (blank : Value Tree Queue)
    (config : Config) where
  -- The calls of the handler, one for each packet.
  abbrev pub handle_arrivals : List Arrival → Service Tree Queue → Option (Service Tree Queue)
  handle_arrivals [] s = some s
  handle_arrivals (a ∷ rest) s =
      handle_packet_arrival bytes blank config a.mallocs a.ts a.ppi s >>= handle_arrivals rest

  put-view :
      (m : ℕ) (hm : HashMap) (k : HashMapKey) (s : Service Tree Queue)
      (h : Items (Value Tree Queue))
      → (view bytes blank h (put_map s.hashmaps m hm m) k).agg_data.received
        ≡ (view bytes blank h hm k).agg_data.received
  put-view m hm k s h =
      ap (λ x. (view bytes blank h x k).agg_data.received) (put_map_self s.hashmaps m hm)

  arrival-lem :
      (m : ℕ) (k : HashMapKey) (a : Arrival) (rest : List Arrival) (s : Service Tree Queue)
      → IsSupplied m (a ∷ rest) s
      → let s' = arrival_in bytes blank config a.mallocs m a.ts a.ppi.stream a.ppi.seq s in
        (received_by bytes blank m k s'
          ≡ own_packets bytes k (a ∷ []) (received_by bytes blank m k s))
        × IsSupplied m rest s'
  unfolding arrival_in
  arrival-lem m k a rest s v =
      let key = set_streamtuple a.ppi.stream in
      let hm = s.hashmaps m in
      let free = s.agg.free_hashmapitems in
      let malloc = a.mallocs.item in
      let later = map (λ (b : Arrival). b.mallocs.item) rest in
      let told : AggregatorData → Arrived = λ ad.
        tell_parties config a.mallocs a.ts a.ppi.seq
          (ad, s.ranges, s.agg.free_lossranges, s.agg.free_reorderranges) in
      let f : Value Tree Queue → Value Tree Queue =
        λ v. record v { agg_data = (told v.agg_data).0 } in
      let forced = hashmap_force bytes blank malloc s.items hm key free in
      let supplied = (take_item-IsSupply hm free malloc later v).0 in
      let viewed = force_update-view bytes blank malloc s.items hm key k free f supplied in
      let received = ap (λ (x : Value Tree Queue). x.agg_data.received) viewed in
      (
        put-view m forced.map k s (update_value forced.store forced.item f)
            ∙ received
            ∙ elim (Bool-cases (same_key bytes key k)) [
              | inl e ↦ rw (e) (
                  tell-received config a.mallocs a.ts a.ppi.seq (
                    (view bytes blank s.items hm k).agg_data,
                    s.ranges,
                    s.agg.free_lossranges,
                    s.agg.free_reorderranges,
                  ))
              | inr e ↦ rw (e) refl
            ],
        subst (λ x. IsSupply x (forced.free ++ later)) (sym (put_map_self s.hashmaps m forced.map))
            (force-IsSupply bytes blank malloc s.items hm key free later v),
      )

  step-lem :
      (m : ℕ) (a : Arrival) (s : Service Tree Queue)
      → s.agg.working.maps ≡ m ∷ []
      → handle_packet_arrival bytes blank config a.mallocs a.ts a.ppi s
        ≡ some (arrival_in bytes blank config a.mallocs m a.ts a.ppi.stream a.ppi.seq s)
  unfolding handle_packet_arrival
  step-lem m a s e =
      ap
        (λ maps. elim (last_of maps) [
          | none ↦ none
          | some latest ↦
              some (arrival_in bytes blank config a.mallocs latest a.ts a.ppi.stream a.ppi.seq s)
        ])
        e

  -- The packets of a period, each with its arrival's time: the handler takes them all, and the packet
  -- data that the period's map then has of a stream, its count, times and extreme sequence numbers, are
  -- those of before, followed by the stream's own packets in the order of their arrival; the packets of
  -- other streams do not touch them. This holds if the map is the aggregator's only one, and if the free
  -- items and what `malloc` gives, which it does each time, are unused and distinct.
  pub arrivals-received :
      (m : ℕ) (k : HashMapKey) (arrivals : List Arrival) (s : Service Tree Queue)
      → s.agg.working.maps ≡ m ∷ []
      → IsSupplied m arrivals s
      → Given
          (λ s'.
            received_by bytes blank m k s'
            ≡ own_packets bytes k arrivals (received_by bytes blank m k s))
          (handle_arrivals arrivals s)
  unfolding arrival_in
  arrivals-received m k [] s e v = refl
  arrivals-received m k (a ∷ rest) s e v =
      let s' = arrival_in bytes blank config a.mallocs m a.ts a.ppi.stream a.ppi.seq s in
      let (first, supplied) = arrival-lem m k a rest s v in
      let later = arrivals-received m k rest s' e supplied in
      rw (step-lem m a s e) (
        subst
          (λ x.
            Given (λ s''. received_by bytes blank m k s'' ≡ own_packets bytes k rest x)
              (handle_arrivals rest s'))
          first later)
