-- ===== src/Reorder/Sound.antt =====
-- Whole ranges keep the histogram sound, on both cases of `reorderdata_a2r`, and their loops end unless
-- the range ends in the last sequence number.
use estimators.Prelude.{
  ℕ, zero, suc, ◌+◌, ◌-◌, ◌^◌, ◌≤◌, ◌<◌, ◌≡◌, inl, inr, refl, ◌∙◌, arith, Bool, Bool-cases, true,
  leb, length, length-set, get_or, sum-set, get_or-le-sum, add32, sub32, add64,
}
use estimators.Packet.{seq_lt, seq_gt}
use estimators.Reorder.{ReorderDataR}
use estimators.Reorder.Containers.{SeqTree, ok, Ends, Ends-bind, Ends-if, Ends-weaken}
use estimators.Reorder.Extent.{
  ExtentState, reorderdata_record_missing_packet, record_missing, record_gap, take_in_order,
  take_packet, take_packets, take_range_extent,
}
use estimators.Reorder.Histogram.{hist, IsSound, Taken, take_packet-Taken}

module _ (tree : SeqTree) (malloc : ℕ → Bool) where
  open tree use {Tree, rbtree_lookup_key, rbtree_insert, lookup-insert}

  -- Between two states of one stream: arrivals only grow, by `n` at most, and the histogram by no more
  -- than they do.
  pub record Grows (n : ℕ) (ex : ExtentState Tree) (dr : ReorderDataR)
      (r : ExtentState Tree × ReorderDataR) : Type 0 where
    pub sound : IsSound tree malloc r.0 r.1
    pub later : ex.num_arrivals ≤ r.0.num_arrivals
    pub few : r.0.num_arrivals ≤ ex.num_arrivals + n
    pub fair : hist r.1 + ex.num_arrivals ≤ hist dr + r.0.num_arrivals

  Grows-trans :
      {i n : ℕ} {ex : ExtentState Tree} {dr : ReorderDataR} (r : ExtentState Tree × ReorderDataR)
      (u : ExtentState Tree × ReorderDataR)
      → 0 < n
      → Taken tree malloc ex dr i r
      → Grows (n - 1) r.0 r.1 u
      → Grows n ex dr u
  Grows-trans r u pos t g = record {
    sound = g.sound;
    later = ground (arith, t.1, g.later);
    few = ground (arith, t.1, g.few);
    fair = ground (arith, t.1, g.fair);
  }

  -- `for (SEQNO i = r->low; i <= r->high; i++)` of case 2.
  take_packets-Grows :
      (fuel i high n : ℕ) (ex : ExtentState Tree) (dr : ReorderDataR)
      → high + 1 < 2 ^ 32
      → high < i + fuel
      → high + 1 ≤ i + n
      → ex.num_arrivals + n < 2 ^ 31
      → IsSound tree malloc ex dr
      → Ends (Grows n ex dr) (take_packets tree malloc fuel i high (ex, dr))
  unfolding take_packets
  take_packets-Grows zero i high n ex dr below enough long small v = ground arith
  take_packets-Grows (suc fuel) i high n ex dr below enough long small v =
      Ends-if (Grows n ex dr) (leb i high) _ (ok (ex, dr))
        (λ more.
          let next : add32 i 1 ≡ i + 1 = ground (arith, more) in
          let short : i ≤ high = ground (arith, more) in
          Ends-bind (Taken tree malloc ex dr i) (Grows n ex dr) (take_packet tree malloc ex dr i) _
            (take_packet-Taken tree malloc ex dr i v (omega arith))
            (λ r t.
              Ends-weaken (Grows (n - 1) r.0 r.1) (Grows n ex dr)
                (take_packets tree malloc fuel (add32 i 1) high r)
                (λ u g. Grows-trans r u (omega arith) t g)
                (take_packets-Grows fuel (add32 i 1) high (n - 1) r.0 r.1 below (omega arith)
                  (omega arith) (ground (arith, t.1)) t.0)))
        (λ past. record { sound = v; later = omega arith; few = omega arith; fair = omega arith })

  -- All references of recorded packets lie within a bound.
  abbrev Below : ℕ → ExtentState Tree → Type 0
  Below b ex =
      (k : ℕ) → rbtree_lookup_key ex.missing_packets k ≡ true → (ex.missing k).ref_index ≤ b

  record_one-Below :
      (ex : ExtentState Tree) (seq ref b : ℕ)
      → ref ≤ b
      → Below b ex
      → Below b (reorderdata_record_missing_packet tree malloc ex seq ref)
        × ((reorderdata_record_missing_packet tree malloc ex seq ref).num_arrivals
            ≡ ex.num_arrivals)
  unfolding reorderdata_record_missing_packet
  record_one-Below ex seq ref b h w = elim (Bool-cases (malloc seq)) [
    | inr failed ↦ rw failed (w, refl)
    | inl given ↦
        rw given (λ k q. ground (arith, w k, lookup-insert ex.missing_packets seq k), refl)
  ]

  record_missing-Below :
      (n i ref b : ℕ) (ex : ExtentState Tree)
      → ref ≤ b
      → Below b ex
      → Below b (record_missing tree malloc n i ref ex)
        × ((record_missing tree malloc n i ref ex).num_arrivals ≡ ex.num_arrivals)
  unfolding record_missing
  record_missing-Below zero i ref b ex h w = (w, refl)
  record_missing-Below (suc n) i ref b ex h w =
      let (below, same) = record_one-Below ex i ref b h w in
      let (rest, kept) = record_missing-Below n (add32 i 1) ref b _ h below in (rest, kept ∙ same)

  record_gap-Below :
      (ex : ExtentState Tree) (low : ℕ)
      → ex.num_arrivals + 1 < 2 ^ 31
      → Below ex.num_arrivals ex
      → Below (ex.num_arrivals + 1) (record_gap tree malloc ex low)
        × ((record_gap tree malloc ex low).num_arrivals ≡ ex.num_arrivals)
  unfolding record_gap
  record_gap-Below ex low small w =
      let wide : Below (ex.num_arrivals + 1) ex = λ k q. omega (arith, w k q) in
      elim (Bool-cases (seq_gt low ex.next_exp)) [
        | inr near ↦ rw near (wide, refl)
        | inl far ↦ rw far (record_missing-Below _ _ _ (ex.num_arrivals + 1) ex (omega arith) wide)
      ]

  take_in_order-Grows :
      (ex : ExtentState Tree) (dr : ReorderDataR) (low high : ℕ)
      → low ≤ high
      → high + 1 < 2 ^ 32
      → ex.num_arrivals + (high + 1 - low) < 2 ^ 31
      → IsSound tree malloc ex dr
      → Grows (high + 1 - low) ex dr (take_in_order tree malloc ex dr low high)
  unfolding take_in_order
  take_in_order-Grows ex dr low high h k small v =
      let (below, same) = record_gap-Below ex low (omega arith) v.refs in
      let size : add32 (sub32 high low) 1 ≡ high + 1 - low = omega arith in
      let first : 0 < length dr.extent_to_count = omega (arith, v.buckets) in
      let bucket = get_or-le-sum dr.extent_to_count 0 in
      let grown =
        sum-set dr.extent_to_count 0 (add32 (get_or dr.extent_to_count 0 0) (high + 1 - low))
          first in
      let arrivals : add64 (record_gap tree malloc ex low).num_arrivals (high + 1 - low)
          ≡ ex.num_arrivals + (high + 1 - low) =
        omega (arith, same) in
      rw (size, arrivals)
        (record {
          sound = record {
            buckets = length-set dr.extent_to_count 0 _ ∙ v.buckets;
            counted = omega (arith, bucket, grown, v.counted);
            refs = λ j q. omega (arith, below j q);
          };
          later = omega arith;
          few = omega arith;
          fair = omega (arith, bucket, grown, v.counted);
        })

  -- A range that does not end in the last sequence number, with enough rounds and fewer than 2 ^ 31
  -- arrivals in all, is taken without a fault in either case: every access to the histogram of extents
  -- is within its 256 buckets; the arrivals grow by no more than the size of the range, and the
  -- histogram by no more than the arrivals.
  pub take_range_extent-Grows :
      (fuel low high : ℕ) (ex : ExtentState Tree) (dr : ReorderDataR)
      → low ≤ high
      → high + 1 < 2 ^ 32
      → high < low + fuel
      → ex.num_arrivals + (high + 1 - low) < 2 ^ 31
      → IsSound tree malloc ex dr
      → Ends (Grows (high + 1 - low) ex dr) (take_range_extent tree malloc fuel ex dr low high)
  unfolding take_range_extent
  take_range_extent-Grows fuel low high ex dr h k enough small v =
      Ends-if (Grows (high + 1 - low) ex dr) (seq_lt low ex.next_exp) _ _
        (λ late.
          take_packets-Grows fuel low high (high + 1 - low) ex dr k enough (omega arith) small v)
        (λ timely. take_in_order-Grows ex dr low high h k small v)
