-- ===== src/Reorder/Window.antt =====
-- The window of the reorder density never runs empty: it holds DT + 1 entries while packets are
-- processed and DT while the next arrival is looked for.
use estimators.Prelude.{
  ℕ, zero, suc, ◌+◌, ◌^◌, ◌≤◌, ◌<◌, ◌≡◌, inl, inr, refl, ap, arith, Bool, Bool-cases, true, false,
  not, ◌&&◌, leb, ◌==◌, if◌then◌else◌, List, [], ◌∷◌, Option, none, some, length, length-append,
  add32, sub32,
}
use estimators.Prelude.Int.{ℤ, signed32}
use estimators.Reorder.{ReorderDataR, reorder_dt}
use estimators.Reorder.Containers.{
  SeqTree, SeqQueue, Run, ok, Ends, Ends-bind, Ends-if, Ends-weaken, Given,
}
use estimators.Reorder.Density.{
  RdState, rd_place, rd_process_next_packet, rd_maybe_add_new_arrival_to_window, rd_fill_window,
  rd_active_round, rd_round, rd_continue, rd_loop,
}

nonempty : (xs : List ℕ) → 0 < length xs → (x : ℕ) × (ys : List ℕ) × (xs ≡ x ∷ ys)
nonempty [] h = absurd (omega arith)
nonempty (x ∷ ys) h = (x, ys, refl)

module _ (tree : SeqTree) (queue : SeqQueue) (malloc : ℕ → Bool) where
  open tree use {Tree}
  open queue use {Queue, queue_push, queue_pop, entries, entries-push, pop-cons}

  abbrev pub size : RdState Tree Queue → ℕ
  size rd = length (entries rd.window)

  -- A window that is filling up has no more than DT entries; a full one DT + 1, less the one that
  -- was taken off and not replaced yet.
  pub record IsWindow (rd : RdState Tree Queue) : Type 0 where
    pub flag : rd.state ≤ 1
    pub filling : rd.window_initialized ≡ false → (rd.state ≡ 0) × (size rd ≤ reorder_dt)
    pub full : rd.window_initialized ≡ true → size rd + rd.state ≡ reorder_dt + 1

  size-push : (q : Queue) (x : ℕ) → length (entries (queue_push q x)) ≡ length (entries q) + 1
  size-push q x = omega (arith, ap length (entries-push q x), length-append (entries q) (x ∷ []))

  -- The other fields of the window stay.
  place-window :
      (rd : RdState Tree Queue) (dr : ReorderDataR) (seq : ℕ) (d : ℤ)
      → ((rd_place tree queue malloc rd dr seq d).0.window ≡ rd.window)
        × ((rd_place tree queue malloc rd dr seq d).0.window_initialized ≡ rd.window_initialized)
  unfolding rd_place
  place-window rd dr seq d = ground arith

  module _ (alloc : (seq : ℕ) → malloc seq ≡ true) where
    fill-IsWindow :
        (rd : RdState Tree Queue) (i : ℕ)
        → IsWindow rd
        → Given IsWindow (rd_fill_window tree queue malloc rd i)
    unfolding rd_fill_window
    fill-IsWindow rd i v = ground (arith, size-push rd.window i, alloc i)

    arrival-IsWindow :
        (rd : RdState Tree Queue) (i : ℕ)
        → rd.window_initialized ≡ true
        → IsWindow rd
        → IsWindow (rd_maybe_add_new_arrival_to_window tree queue malloc rd i)
          × (((rd_maybe_add_new_arrival_to_window tree queue malloc rd i).window_initialized)
              ≡ true)
    unfolding rd_maybe_add_new_arrival_to_window
    arrival-IsWindow rd i full v = ground (arith, size-push rd.window i, alloc i, v.full full)

    process-IsWindow :
        (rd : RdState Tree Queue) (dr : ReorderDataR)
        → rd.window_initialized ≡ true
        → rd.state ≡ 0
        → IsWindow rd
        → Ends
            (λ r. IsWindow r.0 × (r.0.window_initialized ≡ true))
            (rd_process_next_packet tree queue malloc rd dr)
    unfolding rd_process_next_packet
    process-IsWindow rd dr full zero_state v =
        let (x, xs, e) = nonempty (entries rd.window) (omega (arith, v.full full)) in
        let (q, popped, left) = pop-cons rd.window x xs e in
        ground (
          arith,
          popped,
          ap length e,
          ap length left,
          v.full full,
          place-window (record rd { window = q }) dr x (signed32 (sub32 rd.ri x)),
        )

    abbrev IsFull : RdState Tree Queue × ReorderDataR → Type 0
    IsFull r = IsWindow r.0 × (r.0.window_initialized ≡ true)

    finish :
        (r : RdState Tree Queue × ReorderDataR) (processed_this : Bool) (i : ℕ)
        → IsFull r
        → IsFull (
          if r.0.state == 1 && not processed_this
              then rd_maybe_add_new_arrival_to_window tree queue malloc r.0 i
              else r.0,
          r.1,
        )
    finish r processed_this i w = ground (arith, arrival-IsWindow r.0 i w.1 w.0)

    -- The two steps of a round.
    abbrev look : RdState Tree Queue → ℕ → RdState Tree Queue
    look rd i =
        if rd.state == 1 then rd_maybe_add_new_arrival_to_window tree queue malloc rd i else rd

    abbrev process : RdState Tree Queue → ReorderDataR → ℕ → Run (RdState Tree Queue × ReorderDataR)
    process rd dr i =
        if (look rd i).state == 0
        then rd_process_next_packet tree queue malloc (look rd i) dr
        else ok (look rd i, dr)

    active-IsFull :
        (rd : RdState Tree Queue) (dr : ReorderDataR) (i : ℕ)
        → rd.window_initialized ≡ true
        → IsWindow rd
        → Ends IsFull (rd_active_round tree queue malloc rd dr i)
    unfolding rd_active_round
    active-IsFull rd dr i full v =
        let looked : IsFull (look rd i, dr) = ground (arith, arrival-IsWindow rd i full v) in
        let processed : Ends IsFull (process rd dr i) = elim (Bool-cases ((look rd i).state == 0)) [
          | inl e ↦ rw e (process-IsWindow (look rd i) dr looked.1 (ground (arith, e)) looked.0)
          | inr e ↦ rw e looked
        ] in
        Ends-bind IsFull IsFull (process rd dr i) _ processed (λ r w. finish r (rd.state == 1) i w)

    round-IsWindow :
        (rd : RdState Tree Queue) (dr : ReorderDataR) (i : ℕ)
        → IsWindow rd
        → Ends (λ r. IsWindow r.0) (rd_round tree queue malloc rd dr i)
    unfolding rd_round
    round-IsWindow rd dr i v =
        Ends-if (λ r. IsWindow r.0) (not rd.window_initialized) (ok (rd, dr)) _ (λ e. v)
          (λ e.
            Ends-weaken IsFull (λ r. IsWindow r.0) (rd_active_round tree queue malloc rd dr i)
              (λ r w. w.0) (active-IsFull rd dr i (ground arith) v))

    continue-IsWindow :
        (P : Bool × RdState Tree Queue × ReorderDataR → Type 0)
        (next : RdState Tree Queue × ReorderDataR → Run (Bool × RdState Tree Queue × ReorderDataR))
        (rd : RdState Tree Queue) (dr : ReorderDataR) (i : ℕ) (filled : Option (RdState Tree Queue))
        → Given IsWindow filled
        → ((r : RdState Tree Queue × ReorderDataR) → IsWindow r.0 → Ends P (next r))
        → Ends P (rd_continue tree queue malloc next rd dr i filled)
    unfolding rd_continue
    continue-IsWindow P next rd dr i none g k = absurd g
    continue-IsWindow P next rd dr i (some rd') g k =
        Ends-bind (λ r. IsWindow r.0) P (rd_round tree queue malloc rd' dr i) next
          (round-IsWindow rd' dr i g) k

    abbrev Done : Bool × RdState Tree Queue × ReorderDataR → Type 0
    Done r = (r.0 ≡ false) × IsWindow r.1

    -- Over a range that ends below the last sequence number, with a round for each of its numbers, the
    -- loop ends with no early return, never takes an entry off an empty window, and keeps the window at
    -- its size: at most DT entries while it fills up, and then DT + 1 while a packet is processed and DT
    -- while the next arrival is looked for. No allocation fails.
    pub rd_loop-IsWindow :
        (fuel i high : ℕ) (rd : RdState Tree Queue) (dr : ReorderDataR)
        → high + 1 < 2 ^ 32
        → high < i + fuel
        → IsWindow rd
        → Ends (λ r. (r.0 ≡ false) × IsWindow r.1) (rd_loop tree queue malloc fuel i high (rd, dr))
    unfolding rd_loop
    rd_loop-IsWindow zero i high rd dr below enough v = ground arith
    rd_loop-IsWindow (suc fuel) i high rd dr below enough v =
        Ends-if Done (leb i high) _ (ok (false, rd, dr))
          (λ more.
            let next : add32 i 1 ≡ i + 1 = ground (arith, more) in
            continue-IsWindow Done (rd_loop tree queue malloc fuel (add32 i 1) high) rd dr i
              (rd_fill_window tree queue malloc rd i) (fill-IsWindow rd i v)
              (λ r u. rd_loop-IsWindow fuel (add32 i 1) high r.0 r.1 below (omega arith) u))
          (λ past. (refl, v))
