-- ===== src/Reorder/Report.antt =====
-- `reorderdata_a2r`: the ranges of a period, in order, update the state of their stream.
use estimators.Prelude.{ℕ, Bool, true, false, not, ◌&&◌, if◌then◌else◌, List, [], ◌∷◌}
use estimators.Ranges.{SeqnoRange, Store}
use estimators.Reorder.{ReorderDataR, Enabled}
use estimators.Reorder.Containers.{SeqTree, SeqQueue, Run, ok, ◌>>=◌}
use estimators.Reorder.Density.{RdState, rd_loop}
use estimators.Reorder.Extent.{ExtentState, take_range_extent, reorderdata_prune_missing_packets}

pub record ReorderState (Tree Queue : Type 0) : Type 0 where
  pub initialized : Bool
  pub ex : ExtentState Tree
  pub rd : RdState Tree Queue

module _ (tree : SeqTree) (queue : SeqQueue) (malloc : ℕ → Bool) (enabled : Enabled) where
  open tree use {Tree, rbtree_init}
  open queue use {Queue, queue_init}

  abbrev pub State : Type 0
  State = ReorderState Tree Queue

  -- The special case of the first packet.
  unfoldable pub init_state : State → SeqnoRange → State
  init_state s r = if s.initialized then s else record s {
    initialized = true;
    ex =
        if enabled.extent
        then record (s.ex) { next_exp = r.low; missing_packets = rbtree_init }
        else s.ex;
    rd =
        if enabled.density
        then record {
          state = 0;
          ri = 0;
          window_initialized = false;
          window = queue_init;
          buffer = rbtree_init;
        }
        else s.rd;
  }

  -- One range. The flag tells that the function returned early.
  unfoldable pub take_one_range :
      ℕ → State → ReorderDataR → SeqnoRange → Run (Bool × State × ReorderDataR)
  unfolding init_state rd_loop take_range_extent
  take_one_range fuel s dr r =
      let started = init_state s r in
      let density : Run (Bool × RdState Tree Queue × ReorderDataR) =
        if enabled.density
        then rd_loop tree queue malloc fuel r.low r.high (started.rd, dr)
        else ok (false, started.rd, dr) in
      do
        (stopped, rd, dr₁) ← density
        (ex, dr₂) ←
            if enabled.extent && not stopped
            then take_range_extent tree malloc fuel started.ex dr₁ r.low r.high
            else ok (started.ex, dr₁)
        ok (stopped, record started { ex = ex; rd = rd }, dr₂)

  -- `for (r = da->ranges.head; r; r = r->next)`, and the pruning at the end.
  unfoldable pub reorderdata_a2r :
      ℕ → Store → List ℕ → State → ReorderDataR → Run (State × ReorderDataR)
  unfolding take_one_range reorderdata_prune_missing_packets
  reorderdata_a2r fuel h [] s dr =
      let (ex, dr') = reorderdata_prune_missing_packets tree malloc dr s.ex in
      ok (if enabled.extent then (record s { ex = ex }, dr') else (s, dr))
  reorderdata_a2r fuel h (p ∷ ps) s dr = do
    (stopped, s', dr') ← take_one_range fuel s dr (h p)
    let rest = reorderdata_a2r fuel h ps s' dr'
    if stopped then ok (s', dr') else rest
