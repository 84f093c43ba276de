-- ===== src/Reorder/Density.antt =====
-- The reorder density part of reorderdata.c: the functions `rd_...` and the loop over a range.
use estimators.Prelude.{
  ℕ, zero, suc, ◌+◌, ◌-◌, ◌^◌, Bool, true, false, not, ◌&&◌, ◌||◌, ltb, leb, ◌==◌, if◌then◌else◌,
  List, [], ◌∷◌, Option, none, some, length, add32, sub32,
}
use estimators.Prelude.Int.{ℤ, pos, negsuc, signed32, magnitude}
use estimators.Reorder.{ReorderDataR, reorder_dt, increment}
use estimators.Reorder.Containers.{SeqTree, SeqQueue, elem, Run, ok, fault, unfinished, ◌>>=◌}

pub record RdState (Tree Queue : Type 0) : Type 0 where
  pub state : ℕ
  pub ri : ℕ
  pub window_initialized : Bool
  pub window : Queue
  pub buffer : Tree

-- `D + REORDER_DT`: `lower` maps to 0 and `upper` to twice the threshold.
abbrev pub distance_index : ℤ → ℕ
distance_index (pos n) = n + reorder_dt
distance_index (negsuc n) = reorder_dt - (n + 1)

-- `AD <= REORDER_DT`, where `-D` of the least `int` is taken to wrap around to itself, which is
-- below the threshold.
abbrev pub within_threshold : ℤ → Bool
within_threshold (pos n) = leb n reorder_dt
within_threshold (negsuc n) = leb (n + 1) reorder_dt || n + 1 == 2 ^ 31

-- Distances outside -DT to DT are not counted.
unfoldable pub rd_record_distance : ReorderDataR → ℤ → ReorderDataR
rd_record_distance dr d =
    if ltb reorder_dt (magnitude d)
    then dr
    else record dr { fd = increment dr.fd (distance_index d) }

-- `if (e->seq < min) min = e->seq`, along the queue.
abbrev pub least : ℕ → List ℕ → ℕ
least m [] = m
least m (x ∷ xs) = least (if ltb x m then x else m) xs

abbrev pub first_or : ℕ → List ℕ → ℕ
first_or m [] = m
first_or m (x ∷ xs) = x

-- `(SEQNO)-1`
abbrev pub max_seqno : ℕ
max_seqno = 2 ^ 32 - 1

abbrev pub is_negative : ℤ → Bool
is_negative (pos n) = false
is_negative (negsuc n) = true

-- `malloc` tells of each sequence number whether the allocation of an entry for it succeeds.
module _ (tree : SeqTree) (queue : SeqQueue) (malloc : ℕ → Bool) where
  open tree use {Tree, rbtree_init, rbtree_lookup_key, rbtree_insert, rbtree_remove, inorder}
  open queue use {Queue, queue_init, queue_push, queue_pop, entries}

  abbrev pub Rd : Type 0
  Rd = RdState Tree Queue

  unfoldable pub rd_window_contains : Rd → ℕ → Bool
  rd_window_contains rd seq = elem seq (entries rd.window)

  unfoldable pub rd_buffer_contains : Rd → ℕ → Bool
  rd_buffer_contains rd seq = rbtree_lookup_key rd.buffer seq

  -- The size of the window; `none` is the return of -1.
  unfoldable pub rd_maybe_add_seq_to_window : Rd → ℕ → Option (ℕ × Rd)
  unfolding rd_window_contains
  rd_maybe_add_seq_to_window rd i =
      if rd_window_contains rd i
      then some (length (entries rd.window), rd)
      else if malloc i
      then some
          (length (entries (queue_push rd.window i)), record rd { window = queue_push rd.window i })
      else none

  -- The caller ignores a failed allocation.
  unfoldable pub rd_add_seq_to_window : Rd → ℕ → Rd
  rd_add_seq_to_window rd i = if malloc i then record rd { window = queue_push rd.window i } else rd

  unfoldable pub rd_maybe_add_new_arrival_to_window : Rd → ℕ → Rd
  unfolding rd_window_contains rd_buffer_contains rd_add_seq_to_window
  rd_maybe_add_new_arrival_to_window rd seq =
      if rd.state == 0
      then rd
      else if leb rd.ri seq && not (rd_window_contains rd seq) && not (rd_buffer_contains rd seq)
      then record (rd_add_seq_to_window rd seq) { state = 0 }
      else rd

  unfoldable pub rd_maybe_delete_from_buffer : Rd → ℕ → Rd
  rd_maybe_delete_from_buffer rd seq =
      if rbtree_lookup_key rd.buffer seq
      then record rd { buffer = rbtree_remove rd.buffer seq }
      else rd

  unfoldable pub rd_add_to_buffer : Rd → ℕ → Rd
  rd_add_to_buffer rd seq =
      if malloc seq then record rd { buffer = rbtree_insert rd.buffer seq } else rd

  unfoldable pub rd_window_min : Rd → ℕ
  rd_window_min rd = least max_seqno (entries rd.window)

  unfoldable pub rd_buffer_min : Rd → ℕ
  rd_buffer_min rd = first_or max_seqno (inorder rd.buffer)

  unfoldable pub rd_advance_ri : Rd → Rd
  unfolding rd_window_min rd_buffer_min
  rd_advance_ri rd =
      let s1 = rd_window_min rd in
      let s2 = rd_buffer_min rd in
      let m = if leb s1 s2 then s1 else s2 in
      record rd { ri = if ltb rd.ri m then m else add32 rd.ri 1 }

  -- A displacement within the threshold; `d` is `state->RI - e->seq` as an `int`.
  unfoldable pub rd_place : Rd → ReorderDataR → ℕ → ℤ → Rd × ReorderDataR
  unfolding rd_record_distance rd_maybe_delete_from_buffer rd_add_to_buffer
  rd_place rd dr seq d =
      let deleted = rd_maybe_delete_from_buffer rd rd.ri in
      let kept = if is_negative d then rd_add_to_buffer deleted seq else deleted in
      (record kept { ri = add32 rd.ri 1 }, rd_record_distance dr d)

  -- Taking an entry off an empty window reads through NULL.
  unfoldable pub rd_process_next_packet : Rd → ReorderDataR → Run (Rd × ReorderDataR)
  unfolding rd_window_contains rd_buffer_contains rd_advance_ri rd_place
  rd_process_next_packet rd dr =
      if rd_window_contains rd rd.ri || rd_buffer_contains rd rd.ri
      then elim (queue_pop rd.window) [
        | none ↦ fault
        | some (seq, rest) ↦
            let d = signed32 (sub32 rd.ri seq) in
            let popped : Rd = record rd { window = rest } in
            let (next, counted) = rd_place popped dr seq d in
            if within_threshold d
            then ok (record next { state = 1 }, counted)
            else ok (record popped { state = 1 }, dr)
      ]
      else ok (record (rd_advance_ri rd) { state = 0 }, dr)

  -- The attempt to initialise the window; `none` is the early return of the caller.
  unfoldable pub rd_fill_window : Rd → ℕ → Option Rd
  unfolding rd_maybe_add_seq_to_window
  rd_fill_window rd i =
      if rd.window_initialized then some rd else elim (rd_maybe_add_seq_to_window rd i) [
        | none ↦ none
        | some (num_unique, rd') ↦
            if num_unique == reorder_dt + 1
            then some (record rd' { ri = 0; window_initialized = true })
            else some rd'
      ]

  -- The rest of one round, for a window that is full. `processed_this` is the test of the state at
  -- its start.
  unfoldable pub rd_active_round : Rd → ReorderDataR → ℕ → Run (Rd × ReorderDataR)
  rd_active_round rd dr i =
      let processed_this = rd.state == 1 in
      let rd₁ = if processed_this then rd_maybe_add_new_arrival_to_window rd i else rd in
      (if rd₁.state == 0 then rd_process_next_packet rd₁ dr else ok (rd₁, dr)) >>= λ r. ok (
        if r.0.state == 1 && not processed_this
            then rd_maybe_add_new_arrival_to_window r.0 i
            else r.0,
        r.1,
      )

  -- A window that is still filling up moves on to the next packet.
  unfoldable pub rd_round : Rd → ReorderDataR → ℕ → Run (Rd × ReorderDataR)
  unfolding rd_active_round rd_maybe_add_new_arrival_to_window rd_process_next_packet
  rd_round rd dr i = if not rd.window_initialized then ok (rd, dr) else rd_active_round rd dr i

  -- A round for a window that was just filled, or the early return where that failed; the flag tells
  -- of it.
  unfoldable pub rd_continue :
      (Rd × ReorderDataR → Run (Bool × Rd × ReorderDataR))
      → Rd
      → ReorderDataR
      → ℕ
      → Option Rd
      → Run (Bool × Rd × ReorderDataR)
  unfolding rd_round
  rd_continue next rd dr i none = ok (true, rd, dr)
  rd_continue next rd dr i (some filled) = rd_round filled dr i >>= next

  -- `for (SEQNO i = r->low; i <= r->high; i++)`, with the rounds that are granted.
  unfoldable pub rd_loop : ℕ → ℕ → ℕ → Rd × ReorderDataR → Run (Bool × Rd × ReorderDataR)
  unfolding rd_fill_window rd_continue
  rd_loop zero i high (rd, dr) = if leb i high then unfinished else ok (false, rd, dr)
  rd_loop (suc fuel) i high (rd, dr) =
      let rest = rd_continue (rd_loop fuel (add32 i 1) high) rd dr i (rd_fill_window rd i) in
      if leb i high then rest else ok (false, rd, dr)
