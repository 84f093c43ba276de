-- ===== src/Reorder/Ended/Ranges.antt =====
-- The ranges of a report, one after the other, and the pruning.
use estimators.Prelude.{
  ℕ, ◌+◌, ◌^◌, ◌≤◌, ◌<◌, ◌≡◌, refl, ap, ◌∙◌, arith, Bool, true, false, not, ◌&&◌, if_split,
  if◌then◌else◌, List, [], ◌∷◌, All, length, sum,
}
use estimators.Ranges.{SeqnoRange, Store}
use estimators.Reorder.{ReorderDataR, Enabled}
use estimators.Reorder.Containers.{
  SeqTree, SeqQueue, Run, ok, Ends, Ends-bind, Ends-if, Ends-weaken,
}
use estimators.Reorder.Density.{RdState, rd_loop}
use estimators.Reorder.Extent.{ExtentState, take_range_extent, reorderdata_prune_missing_packets}
use estimators.Reorder.Histogram.{hist}
use estimators.Reorder.Sound.{Grows, take_range_extent-Grows}
use estimators.Reorder.Window.{IsWindow, rd_loop-IsWindow}
use estimators.Reorder.Frame.{Ends-Keeps, loop-Same}
use estimators.Reorder.Report.{init_state, take_one_range, reorderdata_a2r}
use estimators.Reorder.Ended.{
  IsGranted, size_of, sizes, StateOf, AreRefs, IsFit, init-Started, prune-Pruned,
}

module _ (tree : SeqTree) (queue : SeqQueue) (malloc : ℕ → Bool) (enabled : Enabled) where
  open tree use {Tree}
  open queue use {Queue}

  module _ (alloc : (seq : ℕ) → malloc seq ≡ true) where
    -- After a range.
    record Took (n : ℕ) (s : StateOf tree queue malloc enabled)
        (x : Bool × StateOf tree queue malloc enabled × ReorderDataR) : Type 0 where
      goes_on : x.0 ≡ false
      begun : x.1.initialized ≡ true
      fit : IsFit tree queue malloc enabled x.1 x.2
      few : x.1.ex.num_arrivals ≤ s.ex.num_arrivals + n

    abbrev Dense : ReorderDataR → Bool × RdState Tree Queue × ReorderDataR → Type 0
    Dense dr x =
        (x.0 ≡ false)
        × (enabled.density ≡ true → IsWindow tree queue malloc x.1)
        × (x.2.extent_to_count ≡ dr.extent_to_count)

    density-Dense :
        (fuel : ℕ) (r : SeqnoRange) (s : StateOf tree queue malloc enabled) (dr : ReorderDataR)
        → IsGranted fuel r
        → s.initialized ≡ true
        → IsFit tree queue malloc enabled s dr
        → Ends (Dense dr) (
            if enabled.density
            then rd_loop tree queue malloc fuel r.low r.high (s.rd, dr)
            else ok (false, s.rd, dr))
    density-Dense fuel r s dr g t v =
        Ends-if (Dense dr) enabled.density _ (ok (false, s.rd, dr))
          (λ e.
            Ends-weaken _ (Dense dr) (rd_loop tree queue malloc fuel r.low r.high (s.rd, dr))
              (λ x (w, k). (w.0, λ f. w.1, k))
              (Ends-Keeps _ _ (rd_loop tree queue malloc fuel r.low r.high (s.rd, dr))
                (rd_loop-IsWindow tree queue malloc alloc fuel r.low r.high s.rd dr g.1 g.2
                  (v.window e t))
                (loop-Same tree queue malloc fuel r.low r.high s.rd dr dr refl)))
          (λ e. (refl, λ f. absurd (cc (e, f)), refl))

    -- After the extents of a range.
    record Counted (n : ℕ) (s : StateOf tree queue malloc enabled)
        (y : ExtentState Tree × ReorderDataR) : Type 0 where
      buckets : length y.1.extent_to_count ≡ 256
      counted : hist y.1 ≤ y.0.num_arrivals
      refs : enabled.extent ≡ true → AreRefs tree queue malloc enabled y.0
      few : y.0.num_arrivals ≤ s.ex.num_arrivals + n

    extent-Counted :
        (fuel : ℕ) (r : SeqnoRange) (s : StateOf tree queue malloc enabled) (dr dr₁ : ReorderDataR)
        (stopped : Bool)
        → IsGranted fuel r
        → s.initialized ≡ true
        → IsFit tree queue malloc enabled s dr
        → dr₁.extent_to_count ≡ dr.extent_to_count
        → stopped ≡ false
        → s.ex.num_arrivals + size_of r < 2 ^ 31
        → Ends (Counted (size_of r) s) (
            if enabled.extent && not stopped
            then take_range_extent tree malloc fuel s.ex dr₁ r.low r.high
            else ok (s.ex, dr₁))
    extent-Counted fuel r s dr dr₁ stopped g t v same on small =
        let counted : hist dr₁ ≤ s.ex.num_arrivals = omega (arith, v.counted, ap sum same) in
        let buckets : length dr₁.extent_to_count ≡ 256 = ap length same ∙ v.buckets in
        Ends-if (Counted (size_of r) s) (enabled.extent && not stopped) _ (ok (s.ex, dr₁))
          (λ e.
            let wanted : enabled.extent ≡ true = ground (arith, e) in
            Ends-weaken (Grows tree malloc (size_of r) s.ex dr₁) (Counted (size_of r) s)
              (take_range_extent tree malloc fuel s.ex dr₁ r.low r.high)
              (λ y w. record {
                buckets = w.sound.buckets;
                counted = w.sound.counted;
                refs = λ f. w.sound.refs;
                few = w.few;
              })
              (take_range_extent-Grows tree malloc fuel r.low r.high s.ex dr₁ g.0 g.1 g.2 small
                (record { buckets = buckets; counted = counted; refs = v.refs wanted t })))
          (λ e. record {
            buckets = buckets;
            counted = counted;
            refs = λ f. v.refs f t;
            few = omega arith;
          })

    take_one-Took :
        (fuel : ℕ) (r : SeqnoRange) (s : StateOf tree queue malloc enabled) (dr : ReorderDataR)
        → IsGranted fuel r
        → s.ex.num_arrivals + size_of r < 2 ^ 31
        → IsFit tree queue malloc enabled s dr
        → Ends (Took (size_of r) s) (take_one_range tree queue malloc enabled fuel s dr r)
    unfolding take_one_range
    take_one-Took fuel r s dr g small v =
        let s' = init_state tree queue malloc enabled s r in
        let (begun, fit, same) = init-Started tree queue malloc enabled s dr r v in
        let density : Run (Bool × RdState Tree Queue × ReorderDataR) =
          if enabled.density
          then rd_loop tree queue malloc fuel r.low r.high (s'.rd, dr)
          else ok (false, s'.rd, dr) in
        Ends-bind (Dense dr) (Took (size_of r) s) density _ (density-Dense fuel r s' dr g begun fit)
          (λ x (on, window, kept).
            Ends-bind (Counted (size_of r) s') (Took (size_of r) s)
              (if enabled.extent && not x.0
                then take_range_extent tree malloc fuel s'.ex x.2 r.low r.high
                else ok (s'.ex, x.2))
              _
              (extent-Counted fuel r s' dr x.2 x.0 g begun fit kept on (omega (arith, same, small)))
              (λ y c. record {
                goes_on = on;
                begun = begun;
                fit = record {
                  buckets = c.buckets;
                  counted = c.counted;
                  refs = λ f t. c.refs f;
                  window = λ f t. window f;
                };
                few = omega (arith, c.few, same);
              }))

    -- What a report leaves behind.
    abbrev pub Reported :
        ℕ
        → StateOf tree queue malloc enabled
        → StateOf tree queue malloc enabled × ReorderDataR
        → Type 0
    Reported n s x =
        IsFit tree queue malloc enabled x.0 x.1 × (x.0.ex.num_arrivals ≤ s.ex.num_arrivals + n)

    prune-Reported :
        (s : StateOf tree queue malloc enabled) (dr : ReorderDataR)
        → IsFit tree queue malloc enabled s dr
        → let (ex, dr') = reorderdata_prune_missing_packets tree malloc dr s.ex in
          Reported 0 s (if enabled.extent then (record s { ex = ex }, dr') else (s, dr))
    unfolding reorderdata_prune_missing_packets
    prune-Reported s dr v =
        let (kept, same, refs) =
          prune-Pruned tree queue malloc enabled (SeqTree.inorder tree s.ex.missing_packets) s.ex
            dr in
        if_split (Reported 0 s) enabled.extent _ (s, dr)
          (λ e. (
            record {
              buckets = ap length kept ∙ v.buckets;
              counted = omega (arith, v.counted, ap sum kept, same);
              refs = λ f t. refs (v.refs f t);
              window = v.window;
            },
            omega (arith, same),
          ))
          (λ e. (v, omega arith))

    -- With all allocations successful, with a round for each number of every range, with no range that
    -- ends in the last sequence number, and with fewer than 2 ^ 31 arrivals in all, a report of the
    -- reordering comes to an end for any combination of the metrics: it neither takes an entry off an
    -- empty window nor counts outside the 256 buckets of the extents. The histogram counts no more than
    -- the arrivals, which grow by no more than the sizes of the ranges, and the window and the
    -- missing packets are then again as the next report needs them.
    pub reorderdata_a2r-Reported :
        (fuel : ℕ) (h : Store) (ranges : List ℕ) (s : StateOf tree queue malloc enabled)
        (dr : ReorderDataR)
        → All (λ p. IsGranted fuel (h p)) ranges
        → s.ex.num_arrivals + sizes h ranges < 2 ^ 31
        → IsFit tree queue malloc enabled s dr
        → Ends
            (Reported (sizes h ranges) s)
            (reorderdata_a2r tree queue malloc enabled fuel h ranges s dr)
    unfolding reorderdata_a2r
    reorderdata_a2r-Reported fuel h [] s dr g small v = prune-Reported s dr v
    reorderdata_a2r-Reported fuel h (p ∷ ps) s dr g small v =
        Ends-bind (Took (size_of (h p)) s) (Reported (sizes h (p ∷ ps)) s)
          (take_one_range tree queue malloc enabled fuel s dr (h p)) _
          (take_one-Took fuel (h p) s dr g.0 (omega (arith, small)) v)
          (λ x w.
            Ends-if (Reported (sizes h (p ∷ ps)) s) x.0 (ok (x.1, x.2)) _
              (λ e. absurd (cc (e, w.goes_on)))
              (λ e.
                Ends-weaken (Reported (sizes h ps) x.1) (Reported (sizes h (p ∷ ps)) s)
                  (reorderdata_a2r tree queue malloc enabled fuel h ps x.1 x.2)
                  (λ y (fit, few). (fit, omega (arith, few, w.few)))
                  (reorderdata_a2r-Reported fuel h ps x.1 x.2 g.1 (omega (arith, small, w.few))
                    w.fit)))
