-- ===== src/Packet/Summary.antt =====
-- Packet data as a summary of the packets seen: joining two summaries is seeing all the packets.
use estimators.Prelude.{
  ℕ, ◌+◌, ◌^◌, ◌≤◌, ◌<◌, ◌≡◌, refl, sym, subst, ◌∙◌, ap, arith, List, [], ◌∷◌, ◌++◌, length,
  length-append, All, false,
}
use estimators.Packet.{
  PacketData, no_packets, seq_lt, seq_gt, packetdata_arrival, packetdata_accumulate,
}
use estimators.Packet.Extent.{
  Packet, IsTimely, Extent, single, extend, join, IsTight, seq_at, data_of, seq_lt_offsets,
  seq_gt_offsets, arrival-extend, accumulate-join,
}

module _ (base : ℕ) where
  -- All packets of a list, arriving in order.
  abbrev pub arrivals : PacketData → List Packet → PacketData
  arrivals pd [] = pd
  arrivals pd (p ∷ ps) = arrivals (packetdata_arrival pd p.time (seq_at base p.offset)) ps

  abbrev pub extents : Extent → List Packet → Extent
  extents e [] = e
  extents e (p ∷ ps) = extents (extend e p) ps

  extend-IsTight : {e : Extent} {p : Packet} → IsTight e → IsTimely p → IsTight (extend e p)
  extend-IsTight t w = ground arith

  arrivals-extents :
      (ps : List Packet) (e : Extent)
      → IsTight e
      → All IsTimely ps
      → e.count + length ps < 2 ^ 32
      → (arrivals (data_of base e) ps ≡ data_of base (extents e ps)) × IsTight (extents e ps)
  arrivals-extents [] e t w small = (refl, t)
  arrivals-extents (p ∷ ps) e t w small =
      let rest = arrivals-extents ps (extend e p) (extend-IsTight t w.0) w.1 (omega arith) in
      (rw (arrival-extend base e p t w.0 (omega arith)) rest.0, rest.1)

  join-extend : (d e : Extent) (p : Packet) → join d (extend e p) ≡ extend (join d e) p
  join-extend d e p = ground arith

  join-extents : (ps : List Packet) (d e : Extent) → join d (extents e ps) ≡ extents (join d e) ps
  join-extents [] d e = refl
  join-extents (p ∷ ps) d e =
      join-extents ps d (extend e p) ∙ ap (λ x. extents x ps) (join-extend d e p)

  extents-append :
      (ps qs : List Packet) (e : Extent) → extents e (ps ++ qs) ≡ extents (extents e ps) qs
  extents-append [] qs e = refl
  extents-append (p ∷ ps) qs e = extents-append ps qs (extend e p)

  All-append : (ps qs : List Packet) → All IsTimely ps → All IsTimely qs → All IsTimely (ps ++ qs)
  All-append [] qs h k = k
  All-append (p ∷ ps) qs h k = (h.0, All-append ps qs h.1 k)

  single-IsTight : {p : Packet} → IsTimely p → IsTight (single p)
  single-IsTight w = omega arith

  -- The first packet sets every field, and the rest only widen the extent.
  arrivals-first :
      (p : Packet) (ps : List Packet)
      → All IsTimely (p ∷ ps)
      → length ps + 1 < 2 ^ 32
      → (arrivals no_packets (p ∷ ps) ≡ data_of base (extents (single p) ps))
        × IsTight (extents (single p) ps)
  unfolding packetdata_arrival
  arrivals-first p ps w small =
      arrivals-extents ps (single p) (single-IsTight w.0) w.1 (omega arith)

  extents-count : (ps : List Packet) (e : Extent) → (extents e ps).count ≡ e.count + length ps
  extents-count [] e = omega arith
  extents-count (p ∷ ps) e = omega (arith, extents-count ps (extend e p))

  -- Accumulating the data of two nonempty periods gives the data of all their packets: in time,
  -- across streams, and also where sequence numbers wrap, as long as times are positive, there are
  -- fewer than 2 ^ 32 packets and their sequence numbers lie in a window of half the circle.
  pub accumulate-arrivals :
      (p q : Packet) (ps qs : List Packet)
      → All IsTimely (p ∷ ps)
      → All IsTimely (q ∷ qs)
      → length ps + length qs + 2 < 2 ^ 32
      → packetdata_accumulate (arrivals no_packets (p ∷ ps)) (arrivals no_packets (q ∷ qs))
        ≡ arrivals no_packets ((p ∷ ps) ++ q ∷ qs)
  accumulate-arrivals p q ps qs w v small =
      let first = arrivals-first p ps w (omega arith) in
      let second = arrivals-first q qs v (omega arith) in
      let both =
        arrivals-first p (ps ++ q ∷ qs) (w.0, All-append ps (q ∷ qs) w.1 v)
          (omega (arith, length-append ps (q ∷ qs))) in
      rw (first.0, second.0, both.0, extents-append)
        (accumulate-join base (extents (single p) ps) (extents (single q) qs) first.1 second.1
            (omega (arith, extents-count ps (single p)))
          ∙ ap (data_of base) (join-extents qs (extents (single p) ps) (single q)))

  -- A packet lies within the extremes.
  abbrev pub IsWithin : Extent → Packet → Type 0
  IsWithin e p = (e.first ≤ p.time) × (p.time ≤ e.last) × (e.low ≤ p.offset) × (p.offset ≤ e.high)

  extents-keep :
      (ps : List Packet) (e : Extent) (p : Packet) → IsWithin e p → IsWithin (extents e ps) p
  extents-keep [] e p h = h
  extents-keep (q ∷ ps) e p h = extents-keep ps (extend e q) p (ground arith)

  extents-cover : (ps : List Packet) (e : Extent) → All (IsWithin (extents e ps)) ps
  extents-cover [] e = tt
  extents-cover (p ∷ ps) e =
      (extents-keep ps (extend e p) p (ground arith), extents-cover ps (extend e p))

  -- What the record says of one packet, in the code's own terms.
  abbrev pub IsCovered : PacketData → Packet → Type 0
  IsCovered pd p =
      (pd.earliest ≤ p.time)
      × (p.time ≤ pd.latest)
      × (seq_lt (seq_at base p.offset) pd.min_seq ≡ false)
      × (seq_gt (seq_at base p.offset) pd.max_seq ≡ false)

  All-IsCovered :
      (e : Extent) (ps : List Packet)
      → IsTight e
      → All IsTimely ps
      → All (IsWithin e) ps
      → All (IsCovered (data_of base e)) ps
  All-IsCovered e [] t w h = tt
  All-IsCovered e (p ∷ ps) t w h = (
    (
      h.0.0,
      h.0.1,
      rw (seq_lt_offsets base p.offset e.low w.0.windowed t.lowest) (ground arith),
      rw (seq_gt_offsets base p.offset e.high w.0.windowed t.highest) (ground arith),
    ),
    All-IsCovered e ps t w.1 h.1,
  )

  -- After any nonempty sequence of arrivals, with positive times and sequence numbers in a window of
  -- half the circle, the count is their number and every packet lies within the recorded times and,
  -- by the code's own comparison, within the recorded sequence numbers.
  pub arrivals-cover :
      (p : Packet) (ps : List Packet)
      → All IsTimely (p ∷ ps)
      → length ps + 1 < 2 ^ 32
      → ((arrivals no_packets (p ∷ ps)).packet_count ≡ length ps + 1)
        × All (IsCovered (arrivals no_packets (p ∷ ps))) (p ∷ ps)
  arrivals-cover p ps w small =
      let first = arrivals-first p ps w small in
      subst (λ d. (d.packet_count ≡ length ps + 1) × All (IsCovered d) (p ∷ ps)) (sym first.0)
        (
          omega (arith, extents-count ps (single p)),
          All-IsCovered (extents (single p) ps) (p ∷ ps) first.1 w
              (extents-keep ps (single p) p (omega arith), extents-cover ps (single p)),
        )
