-- ===== src/Reorder/Histogram.antt =====
-- The histogram of extents: every access is inside it, and it counts no more packets than arrived.
use estimators.Prelude.{
  ℕ, ◌+◌, ◌^◌, ◌%◌, ◌≤◌, ◌<◌, ◌≡◌, ◌⊎◌, inl, inr, refl, ◌∙◌, arith, Bool, true, false, not, List,
  ltb, if_true, length, length-set, get_or, sum, sum-set, get_or-le-sum, add32, sub32, add64, sub64,
}
use estimators.Prelude.Int.{pos, signed32}
use estimators.Packet.{seq_lt, min}
use estimators.Reorder.{ReorderDataR, reorder_max_extent, increment}
use estimators.Reorder.Containers.{SeqTree, ok, fault, Ends, Ends-bind, Ends-if}
use estimators.Reorder.Extent.{
  ExtentState, count_extent, reorderdata_resolve_missing_packet, take_packet,
}

abbrev pub hist : ReorderDataR → ℕ
hist dr = sum dr.extent_to_count

sum-increment :
    (xs : List ℕ) (i : ℕ) → i < length xs → sum xs + 1 < 2 ^ 32 → sum (increment xs i) ≡ sum xs + 1
sum-increment xs i h k = omega (arith, sum-set xs i (add32 (get_or xs i 0) 1) h, get_or-le-sum xs i)

signed32-pos : (w : ℕ) → w < 2 ^ 31 → signed32 w ≡ pos w
signed32-pos w h = ground arith

-- One more packet in a histogram of 256 buckets, and nothing else.
record Bumped (dr dr' : ReorderDataR) : Type 0 where
  more : hist dr' ≡ hist dr + 1
  buckets : length dr'.extent_to_count ≡ length dr.extent_to_count

count_extent-Bumped :
    (dr : ReorderDataR) (n : ℕ)
    → length dr.extent_to_count ≡ 256
    → hist dr + 1 < 2 ^ 32
    → Ends (Bumped dr) (count_extent dr (pos n))
unfolding count_extent
count_extent-Bumped dr n h k =
    let i = min n reorder_max_extent in
    let low : i < length dr.extent_to_count = ground arith in
    rw
      (if_true (ltb i (reorder_max_extent + 1))
        (ok (record dr { extent_to_count = increment dr.extent_to_count i })) fault (ground arith))
      (record {
        more = sum-increment dr.extent_to_count i low k;
        buckets = length-set dr.extent_to_count i _;
      })

module _ (tree : SeqTree) (malloc : ℕ → Bool) where
  open tree use {Tree, rbtree_lookup_key, rbtree_insert, lookup-insert}

  -- The reference index of a missing packet is not past the arrivals, and the histogram counts no
  -- more than those.
  pub record IsSound (ex : ExtentState Tree) (dr : ReorderDataR) : Type 0 where
    pub buckets : length dr.extent_to_count ≡ 256
    pub counted : hist dr ≤ ex.num_arrivals
    pub refs :
        (k : ℕ)
        → rbtree_lookup_key ex.missing_packets k ≡ true
        → (ex.missing k).ref_index ≤ ex.num_arrivals

  -- The three outcomes of a packet of a reordered range, for the arrivals and the histogram.
  abbrev pub Outcome :
      ExtentState Tree → ReorderDataR → ℕ → ExtentState Tree → ReorderDataR → Type 0
  Outcome ex dr i ex' dr' =
      ((ex'.num_arrivals ≡ ex.num_arrivals)
        × (hist dr' ≡ hist dr)
        × (rbtree_lookup_key ex.missing_packets i ≡ true)
        × ((ex.missing i).observed ≡ true))
      ⊎ ((ex'.num_arrivals ≡ ex.num_arrivals + 1) × (hist dr' ≡ hist dr + 1))
      ⊎ ((ex'.num_arrivals ≡ ex.num_arrivals + 1)
          × (hist dr' ≡ hist dr)
          × (rbtree_lookup_key ex.missing_packets i ≡ false))

  abbrev pub Taken : ExtentState Tree → ReorderDataR → ℕ → ExtentState Tree × ReorderDataR → Type 0
  Taken ex dr i r = IsSound r.0 r.1 × Outcome ex dr i r.0 r.1

  resolve-Taken :
      (ex arrived : ExtentState Tree) (dr : ReorderDataR) (i : ℕ)
      → IsSound ex dr
      → ex.num_arrivals + 1 < 2 ^ 31
      → arrived ≡ record ex { num_arrivals = ex.num_arrivals + 1 }
      → Ends (Taken ex dr i) (reorderdata_resolve_missing_packet tree malloc dr arrived i)
  unfolding reorderdata_resolve_missing_packet
  resolve-Taken ex arrived dr i v small e = rw e (
      Ends-if (Taken ex dr i) (not (rbtree_lookup_key ex.missing_packets i)) _ _
        (λ unknown. (
          record {
            buckets = v.buckets;
            counted = omega (arith, v.counted);
            refs = λ k h. omega (arith, v.refs k h);
          },
          inr (inr (refl, refl, ground arith)),
        ))
        (λ known.
          Ends-if (Taken ex dr i) (ex.missing i).observed _ _
            (λ seen.
              let back : sub64 (ex.num_arrivals + 1) 1 ≡ ex.num_arrivals = omega arith in
              rw back (v, inl (refl, refl, ground arith, seen)))
            (λ unseen.
              let mp = ex.missing i in
              let ref : mp.ref_index ≤ ex.num_arrivals = v.refs i (ground arith) in
              let extent = sub32 ((ex.num_arrivals + 1) % 2 ^ 32) mp.ref_index in
              rw (signed32-pos extent (omega arith)) (
                Ends-bind (Bumped dr) (Taken ex dr i) (count_extent dr (pos extent)) _
                  (count_extent-Bumped dr extent v.buckets (omega (arith, v.counted)))
                  (λ dr' b. (
                    record {
                      buckets = b.buckets ∙ v.buckets;
                      counted = omega (arith, b.more, v.counted);
                      refs = λ k h. ground (arith, v.refs k h);
                    },
                    inr (inl (refl, b.more)),
                  ))))))

  -- One packet of a reordered range, with fewer than 2 ^ 31 arrivals before it, is taken without a fault
  -- and keeps the state sound. Either it is a duplicate of a missing packet, which undoes its arrival; or
  -- it counts as one arrival and in one bucket; or it is one arrival that no bucket counts, of a number
  -- that is not recorded as missing.
  pub take_packet-Taken :
      (ex : ExtentState Tree) (dr : ReorderDataR) (i : ℕ)
      → IsSound ex dr
      → ex.num_arrivals + 1 < 2 ^ 31
      → Ends (Taken ex dr i) (take_packet tree malloc ex dr i)
  unfolding take_packet
  take_packet-Taken ex dr i v small =
      let up : add64 ex.num_arrivals 1 ≡ ex.num_arrivals + 1 = omega arith in
      let more : hist dr + 1 < 2 ^ 32 = omega (arith, v.counted) in
      let first : 0 < length dr.extent_to_count = omega (arith, v.buckets) in
      let bumped = sum-increment dr.extent_to_count 0 first more in
      Ends-if (Taken ex dr i) (seq_lt i ex.next_exp) _ _
        (λ late. resolve-Taken ex _ dr i v small (rw up))
        (λ timely. rw up (
          record {
            buckets = length-set dr.extent_to_count 0 _ ∙ v.buckets;
            counted = omega (arith, bumped, v.counted);
            refs = λ k h. omega (arith, v.refs k h);
          },
          inr (inl (refl, bumped)),
        ))
