-- ===== src/Reorder/Ended.antt =====
-- What a report of the reordering needs of a stream's state, and what starting and pruning make of it.
pub mod Ranges
use estimators.Prelude.{
  ℕ, zero, suc, ◌+◌, ◌-◌, ◌^◌, ◌≤◌, ◌<◌, ◌≡◌, refl, sym, ap, ◌∙◌, subst, arith, Bool, true, false,
  not, ◌&&◌, Bool-cases, inl, inr, if_true, if_false, if_split, if◌then◌else◌, List, [], ◌∷◌, All,
  length, sum,
}
use estimators.Ranges.{SeqnoRange, Store}
use estimators.Reorder.{ReorderDataR, Enabled}
use estimators.Reorder.Containers.{
  SeqTree, SeqQueue, Run, ok, ◌>>=◌, Ends, Ends-bind, Ends-if, Ends-weaken,
}
use estimators.Reorder.Density.{RdState, rd_loop}
use estimators.Reorder.Extent.{
  ExtentState, take_range_extent, prune_nodes, reorderdata_prune_missing_packets,
}
use estimators.Reorder.Histogram.{hist, IsSound}
use estimators.Reorder.Sound.{Grows, take_range_extent-Grows}
use estimators.Reorder.Window.{IsWindow, rd_loop-IsWindow}
use estimators.Reorder.Frame.{Ends-Keeps, loop-Same}
use estimators.Reorder.Report.{ReorderState, init_state, take_one_range, reorderdata_a2r}

-- A range that does not end in the last sequence number, with a round for each of its numbers.
abbrev pub IsGranted : ℕ → SeqnoRange → Type 0
IsGranted fuel r = (r.low ≤ r.high) × (r.high + 1 < 2 ^ 32) × (r.high < r.low + fuel)

abbrev pub size_of : SeqnoRange → ℕ
size_of r = r.high + 1 - r.low

abbrev pub sizes : Store → List ℕ → ℕ
sizes h [] = 0
sizes h (p ∷ ps) = size_of (h p) + sizes h ps

module _ (tree : SeqTree) (queue : SeqQueue) (malloc : ℕ → Bool) (enabled : Enabled) where
  open tree use {Tree, rbtree_init, rbtree_lookup_key, rbtree_remove, lookup-init, lookup-remove}
  open queue use {Queue, queue_init, entries, entries-init}

  abbrev StateOf : Type 0
  StateOf = ReorderState Tree Queue

  -- The references of the missing packets lie among the arrivals.
  abbrev AreRefs : ExtentState Tree → Type 0
  AreRefs ex =
      (k : ℕ)
      → rbtree_lookup_key ex.missing_packets k ≡ true
      → (ex.missing k).ref_index ≤ ex.num_arrivals

  -- The state of a stream, once it has one, and the histogram of the report.
  pub record IsFit (s : StateOf) (dr : ReorderDataR) : Type 0 where
    pub buckets : length dr.extent_to_count ≡ 256
    pub counted : hist dr ≤ s.ex.num_arrivals
    pub refs : enabled.extent ≡ true → s.initialized ≡ true → AreRefs s.ex
    pub window : enabled.density ≡ true → s.initialized ≡ true → IsWindow tree queue malloc s.rd

  abbrev Started : StateOf → ReorderDataR → StateOf → Type 0
  Started s dr s' = (s'.initialized ≡ true) × IsFit s' dr × (s'.ex.num_arrivals ≡ s.ex.num_arrivals)

  init-Started :
      (s : StateOf) (dr : ReorderDataR) (r : SeqnoRange)
      → IsFit s dr
      → Started s dr (init_state tree queue malloc enabled s r)
  unfolding init_state
  init-Started s dr r v =
      if_split (Started s dr) s.initialized s _ (λ e. (e, v, refl))
        (λ e.
          let ex =
            if enabled.extent
            then record (s.ex) { next_exp = r.low; missing_packets = rbtree_init }
            else s.ex in
          let same : ex.num_arrivals ≡ s.ex.num_arrivals =
            if_split (λ (x : ExtentState Tree). x.num_arrivals ≡ s.ex.num_arrivals) enabled.extent _
              s.ex (λ f. refl) (λ f. refl) in
          (
            refl,
            record {
              buckets = v.buckets;
              counted = omega (arith, same, v.counted);
              refs = λ f t k q. absurd (cc (lookup-init k));
              window = λ f t. rw f (record {
                flag = omega arith;
                filling = λ g. (refl, rw entries-init (omega arith));
                full = λ g. absurd (cc g);
              });
            },
            same,
          ))

  -- Pruning takes nodes out of the tree, and touches neither the histogram nor the arrivals.
  abbrev Pruned : ExtentState Tree → ReorderDataR → ExtentState Tree × ReorderDataR → Type 0
  Pruned ex dr r =
      (r.1.extent_to_count ≡ dr.extent_to_count)
      × (r.0.num_arrivals ≡ ex.num_arrivals)
      × (AreRefs ex → AreRefs r.0)

  prune_one :
      (ex : ExtentState Tree) (seq : ℕ) (old : Bool)
      → let ex' =
          if old
          then record ex { missing_packets = rbtree_remove ex.missing_packets seq }
          else ex in
        (ex'.num_arrivals ≡ ex.num_arrivals) × (AreRefs ex → AreRefs ex')
  prune_one ex seq true =
      (refl, λ a k q. a k (ground (arith, q, lookup-remove ex.missing_packets seq k)))
  prune_one ex seq false = (refl, λ a. a)

  prune-Pruned :
      (nodes : List ℕ) (ex : ExtentState Tree) (dr : ReorderDataR)
      → Pruned ex dr (prune_nodes tree malloc nodes ex dr)
  unfolding prune_nodes
  prune-Pruned [] ex dr = (refl, refl, λ a. a)
  prune-Pruned (seq ∷ rest) ex dr =
      let (one, refs) = prune_one ex seq _ in
      let (kept, same, more) = prune-Pruned rest _ _ in
      (
        kept
            ∙ if_split (λ (x : ReorderDataR). x.extent_to_count ≡ dr.extent_to_count) _ _ dr
                (λ e. refl) (λ e. refl),
        same ∙ one,
        λ a. more (refs a),
      )
