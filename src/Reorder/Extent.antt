-- ===== src/Reorder/Extent.antt =====
-- The reorder extent part of reorderdata.c: missing packets, and the loops over a range.
use estimators.Prelude.{
  ℕ, zero, suc, ◌+◌, ◌^◌, ◌%◌, Bool, true, false, not, ◌&&◌, ltb, leb, ◌==◌, if◌then◌else◌, List,
  [], ◌∷◌, get_or, set, add32, sub32, add64, sub64,
}
use estimators.Prelude.Int.{ℤ, pos, negsuc, signed32}
use estimators.Packet.{seq_lt, seq_gt, min}
use estimators.Seqno.{modular_distance}
use estimators.Reorder.{ReorderDataR, reorder_max_extent, reorder_max_history, increment}
use estimators.Reorder.Containers.{SeqTree, Run, ok, fault, unfinished, ◌>>=◌}

-- The key `seq` is the address here; `extent` is -1 from the start and never read or written again.
pub record MissingPacket : Type 0 where
  pub observed : Bool
  pub ref_index : ℕ

-- The fields of `struct reorderState` for the extent; `missing` gives the struct behind a key.
pub record ExtentState (Tree : Type 0) : Type 0 where
  pub num_arrivals : ℕ
  pub next_exp : ℕ
  pub missing_packets : Tree
  pub missing : ℕ → MissingPacket

abbrev pub put_missing : (ℕ → MissingPacket) → ℕ → MissingPacket → ℕ → MissingPacket
put_missing f k m q = if k == q then m else f q

-- `dr->extentToCount[extent]++` for an `int` that was capped from above; an index outside of the
-- array is a fault.
unfoldable pub count_extent : ReorderDataR → ℤ → Run ReorderDataR
count_extent dr (negsuc n) = fault
count_extent dr (pos n) =
    let i = min n reorder_max_extent in
    if ltb i (reorder_max_extent + 1)
    then ok (record dr { extent_to_count = increment dr.extent_to_count i })
    else fault

module _ (tree : SeqTree) (malloc : ℕ → Bool) where
  open tree use {Tree, rbtree_lookup_key, rbtree_insert, rbtree_remove, inorder}

  abbrev pub Ex : Type 0
  Ex = ExtentState Tree

  -- The caller ignores a failed allocation.
  unfoldable pub reorderdata_record_missing_packet : Ex → ℕ → ℕ → Ex
  reorderdata_record_missing_packet ex seq ref_index =
      if malloc seq
      then record ex {
        missing_packets = rbtree_insert ex.missing_packets seq;
        missing = put_missing ex.missing seq (record { observed = false; ref_index = ref_index });
      }
      else ex

  -- `for (i = nextExp; i != r->low; i++)`, whose rounds are the steps from one to the other.
  unfoldable pub record_missing : ℕ → ℕ → ℕ → Ex → Ex
  unfolding reorderdata_record_missing_packet
  record_missing zero i ref_index ex = ex
  record_missing (suc n) i ref_index ex =
      record_missing n (add32 i 1) ref_index (reorderdata_record_missing_packet ex i ref_index)

  unfoldable pub reorderdata_resolve_missing_packet :
      ReorderDataR → Ex → ℕ → Run (Ex × ReorderDataR)
  reorderdata_resolve_missing_packet dr ex seq =
      let mp = ex.missing seq in
      let arrival_index = ex.num_arrivals % 2 ^ 32 in
      if not (rbtree_lookup_key ex.missing_packets seq)
      then ok (ex, dr)
      else if mp.observed
      then ok (record ex { num_arrivals = sub64 ex.num_arrivals 1 }, dr)
      else do
        counted ← count_extent dr (signed32 (sub32 arrival_index mp.ref_index))
        ok (
          record ex { missing = put_missing ex.missing seq (record mp { observed = true }) },
          counted,
        )

  -- The gap before a range that lies ahead of the next expected packet.
  unfoldable pub record_gap : Ex → ℕ → Ex
  record_gap ex low =
      let ref_index = add64 ex.num_arrivals 1 % 2 ^ 32 in
      if seq_gt low ex.next_exp
      then record_missing (sub32 low ex.next_exp) ex.next_exp ref_index ex
      else ex

  -- Case 1: the whole range is in order, with or without a gap before it.
  unfoldable pub take_in_order : Ex → ReorderDataR → ℕ → ℕ → Ex × ReorderDataR
  take_in_order ex dr low high =
      let range_size = add32 (sub32 high low) 1 in
      let ex' = record_gap ex low in
      (
        record ex' { next_exp = add32 high 1; num_arrivals = add64 ex'.num_arrivals range_size },
        record dr {
          extent_to_count =
              set dr.extent_to_count 0 (add32 (get_or dr.extent_to_count 0 0) range_size);
        },
      )

  -- Case 2, one packet.
  unfoldable pub take_packet : Ex → ReorderDataR → ℕ → Run (Ex × ReorderDataR)
  take_packet ex dr i =
      let arrived : Ex = record ex { num_arrivals = add64 ex.num_arrivals 1 } in
      if seq_lt i ex.next_exp
      then reorderdata_resolve_missing_packet dr arrived i
      else ok (
        record arrived { next_exp = add32 i 1 },
        record dr { extent_to_count = increment dr.extent_to_count 0 },
      )

  -- Case 2, `for (SEQNO i = r->low; i <= r->high; i++)`, with the rounds that are granted.
  unfoldable pub take_packets : ℕ → ℕ → ℕ → Ex × ReorderDataR → Run (Ex × ReorderDataR)
  take_packets zero i high (ex, dr) = if leb i high then unfinished else ok (ex, dr)
  take_packets (suc fuel) i high (ex, dr) =
      let rest = take_packet ex dr i >>= take_packets fuel (add32 i 1) high in
      if leb i high then rest else ok (ex, dr)

  unfoldable pub take_range_extent : ℕ → Ex → ReorderDataR → ℕ → ℕ → Run (Ex × ReorderDataR)
  take_range_extent fuel ex dr low high =
      if seq_lt low ex.next_exp
      then take_packets fuel low high (ex, dr)
      else ok (take_in_order ex dr low high)

  -- The loop of `reorderdata_prune_missing_packets` over the nodes in order.
  unfoldable pub prune_nodes : List ℕ → Ex → ReorderDataR → Ex × ReorderDataR
  prune_nodes [] ex dr = (ex, dr)
  prune_nodes (seq ∷ rest) ex dr =
      let old =
        seq_lt seq ex.next_exp && ltb reorder_max_history (modular_distance seq ex.next_exp) in
      prune_nodes rest
        (if old then record ex { missing_packets = rbtree_remove ex.missing_packets seq } else ex)
        (if old && not (ex.missing seq).observed
          then record dr { extent_assumed_drops = add32 dr.extent_assumed_drops 1 }
          else dr)

  unfoldable pub reorderdata_prune_missing_packets : ReorderDataR → Ex → Ex × ReorderDataR
  unfolding prune_nodes
  reorderdata_prune_missing_packets dr ex = prune_nodes (inorder ex.missing_packets) ex dr
