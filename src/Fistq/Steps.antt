-- ===== src/Fistq/Steps.antt =====
-- What enqueueing and dequeueing with a time-out do with the nodes of the local and the shared queue.
use mathlib.Core.List.{append_assoc, append-nil}
use estimators.Prelude.{
  ◌+◌, ◌^◌, ◌≡◌, ◌<◌, ◌⊎◌, inl, inr, refl, sym, ap, ◌∙◌, arith, Bool, true, false, Bool-cases, List,
  [], ◌∷◌, ◌++◌, length, length-append, none, some, sub32, ◌==◌, leb, if◌then◌else◌,
}
use estimators.Fistq.{
  QueueNode, DataQueue, LocalQueue, Dequeued, waiting, timed_out, item, FlushOption, FistqDataType,
  fistq_default, fistq_flush_now, fistq_noflush, append_node, append_queue, emptied, taken_over,
  pop_local, flushed_or, fistq_direct, fistq_flush, fistq_enqueue_any, fistq_dequeue_any,
  fistq_timeddequeue_any,
}

module _ {ℓ} {A : Type ℓ} where
  length-nil : (xs : List (QueueNode A)) → length xs ≡ 0 → xs ≡ []
  length-nil [] e = refl
  length-nil (x ∷ xs) e = absurd (omega arith)

  -- The size is the number of nodes.
  pub record IsCounted (q : DataQueue A) : Type 0 where
    pub counted : q.size ≡ length q.nodes

  -- The nodes of the shared queue and behind them those of the local one.
  abbrev pub line : LocalQueue A → DataQueue A → List (QueueNode A)
  line fh internal = internal.nodes ++ fh.lq.nodes

  append_node-IsCounted :
      (q : DataQueue A) (n : QueueNode A)
      → IsCounted q
      → length q.nodes + 1 < 2 ^ 32
      → IsCounted (append_node q n)
  append_node-IsCounted q n c h = record {
    counted = omega (arith, c.counted, length-append q.nodes (n ∷ []));
  }

  append_queue-IsCounted :
      (p q : DataQueue A)
      → IsCounted p
      → IsCounted q
      → length p.nodes + length q.nodes < 2 ^ 32
      → IsCounted (append_queue p q)
  append_queue-IsCounted p q c d h = record {
    counted = omega (arith, c.counted, d.counted, length-append p.nodes q.nodes);
  }

  emptied-IsCounted : (q : DataQueue A) → IsCounted (emptied q)
  emptied-IsCounted q = record { counted = refl }

  -- A flush succeeds unless the local queue is empty; it leaves the local queue empty and the line of
  -- nodes, shared queue first, as it was.
  flush-line :
      (fh : LocalQueue A) (internal : DataQueue A)
      → IsCounted fh.lq
      → IsCounted internal
      → length internal.nodes + length fh.lq.nodes < 2 ^ 32
      → ((fh.lq.nodes ≡ []) × (fistq_flush fh internal ≡ none))
        ⊎ ((r : LocalQueue A × DataQueue A) × (fistq_flush fh internal ≡ some r)
            × (r.0.lq.nodes ≡ [])
            × (line r.0 r.1 ≡ line fh internal)
            × IsCounted r.0.lq
            × IsCounted r.1)
  unfolding fistq_flush
  flush-line fh internal c d h = elim (Bool-cases (fh.lq.size == 0)) [
    | inl e ↦ inl (length-nil fh.lq.nodes (ground (arith, c.counted)), rw e refl)
    | inr e ↦ rw e (
        inr (
          (record fh { lq = emptied fh.lq }, append_queue internal fh.lq),
          refl,
          refl,
          append-nil _,
          emptied-IsCounted fh.lq,
          append_queue-IsCounted internal fh.lq d c h,
        ))
  ]

  -- What enqueueing a node has done, by the flush option.
  abbrev pub Enqueued :
      FlushOption → LocalQueue A → DataQueue A → QueueNode A → LocalQueue A → DataQueue A → Type ℓ
  Enqueued fistq_flush_now fh internal n fh' internal' =
      (fh' ≡ fh) × (internal'.nodes ≡ internal.nodes ++ n ∷ [])
  Enqueued fistq_noflush fh internal n fh' internal' =
      (internal' ≡ internal) × (line fh' internal' ≡ line fh internal ++ n ∷ [])
  Enqueued fistq_default fh internal n fh' internal' =
      ((fh'.lq.nodes ≡ []) ⊎ (length fh'.lq.nodes < fh.threshold))
      × (line fh' internal' ≡ line fh internal ++ n ∷ [])

  default-Enqueued :
      (fh : LocalQueue A) (internal : DataQueue A) (n : QueueNode A)
      → IsCounted fh.lq
      → IsCounted internal
      → length internal.nodes + length fh.lq.nodes + 1 < 2 ^ 32
      → let fh' : LocalQueue A = record fh { lq = append_node fh.lq n } in
        let r =
          if leb fh.threshold fh'.lq.size
          then flushed_or fh' internal (fistq_flush fh' internal)
          else (fh', internal) in
        Enqueued fistq_default fh internal n r.0 r.1 × IsCounted r.0.lq × IsCounted r.1
  default-Enqueued fh internal n c d h =
      let fh' : LocalQueue A = record fh { lq = append_node fh.lq n } in
      let c' = append_node-IsCounted fh.lq n c (omega arith) in
      let small : length internal.nodes + length fh'.lq.nodes < 2 ^ 32 =
        omega (arith, length-append fh.lq.nodes (n ∷ [])) in
      let one_more : line fh' internal ≡ line fh internal ++ n ∷ [] =
        sym (append_assoc internal.nodes fh.lq.nodes (n ∷ [])) in
      elim (Bool-cases (leb fh.threshold fh'.lq.size)) [
        | inl due ↦ elim (flush-line fh' internal c' d small) [
          | inl (e, left) ↦ rw (due, left) ((inl e, one_more), c', d)
          | inr (r, ran, e, same, u, v) ↦ rw (due, ran) ((inl e, same ∙ one_more), u, v)
        ]
        | inr early ↦ rw early ((inr (ground (arith, c'.counted)), one_more), c', d)
      ]

  -- With memory for the node, and fewer than 2 ^ 32 nodes in all, enqueueing succeeds and keeps the
  -- sizes right. The flushing option does not flush the local queue after the enqueue, as the comment
  -- of the function has it: it puts the node at the end of the shared queue, past what is still in the
  -- local one, which stays as it is. The others put it at the end of the line; with the default option the local queue
  -- is then empty or below the threshold, and with the non-flushing one the shared queue is untouched.
  pub enqueue-Enqueued :
      (fh : LocalQueue A) (internal : DataQueue A) (x : A) (type : FistqDataType) (op : FlushOption)
      → IsCounted fh.lq
      → IsCounted internal
      → length internal.nodes + length fh.lq.nodes + 1 < 2 ^ 32
      → (r : LocalQueue A × DataQueue A) × (fistq_enqueue_any true fh internal (some x) type op
          ≡ some r)
        × Enqueued op fh internal (record { data_of = x; type_of = type }) r.0 r.1
        × IsCounted r.0.lq
        × IsCounted r.1
  unfolding fistq_enqueue_any
  enqueue-Enqueued fh internal x type fistq_default c d h =
      let n : QueueNode A = record { data_of = x; type_of = type } in
      let fh' : LocalQueue A = record fh { lq = append_node fh.lq n } in
      let done = default-Enqueued fh internal n c d h in
      elim (Bool-cases (leb fh.threshold fh'.lq.size)) [
        | inl due ↦
            let all = rw due at done in
            (flushed_or fh' internal (fistq_flush fh' internal), rw due refl, all.0, all.1, all.2)
        | inr early ↦
            let all = rw early at done in ((fh', internal), rw early refl, all.0, all.1, all.2)
      ]
  enqueue-Enqueued fh internal x type fistq_noflush c d h =
      let n : QueueNode A = record { data_of = x; type_of = type } in
      (
        (record fh { lq = append_node fh.lq n }, internal),
        refl,
        (refl, sym (append_assoc internal.nodes fh.lq.nodes (n ∷ []))),
        append_node-IsCounted fh.lq n c (omega arith),
        d,
      )
  enqueue-Enqueued fh internal x type fistq_flush_now c d h =
      let n : QueueNode A = record { data_of = x; type_of = type } in
      (
        (fh, fistq_direct internal n),
        refl,
        (refl, unfold fistq_direct in refl),
        c,
        unfold fistq_direct in append_node-IsCounted internal n d (omega arith),
      )

  popped-item :
      (fh : LocalQueue A) (internal : DataQueue A) (nodes : List (QueueNode A))
      → nodes ≡ fh.lq.nodes
      → IsCounted fh.lq
      → 0 < length nodes
      → length nodes < 2 ^ 32
      → (n : QueueNode A) × (fh' : LocalQueue A) × (pop_local fh nodes internal
          ≡ item n fh' internal)
        × (nodes ≡ n ∷ fh'.lq.nodes)
        × IsCounted fh'.lq
  unfolding pop_local
  popped-item fh internal [] e c some_node h = absurd (omega arith)
  popped-item fh internal (n ∷ rest) e c some_node h = (
    n,
    record fh { lq = record (fh.lq) { size = sub32 fh.lq.size 1; nodes = rest } },
    refl,
    refl,
    record { counted = omega (arith, c.counted, ap length e) },
  )

  pop_local-item :
      (fh : LocalQueue A) (internal : DataQueue A)
      → IsCounted fh.lq
      → 0 < length fh.lq.nodes
      → length fh.lq.nodes < 2 ^ 32
      → (n : QueueNode A) × (fh' : LocalQueue A) × (pop_local fh fh.lq.nodes internal
          ≡ item n fh' internal)
        × (fh.lq.nodes ≡ n ∷ fh'.lq.nodes)
        × IsCounted fh'.lq
  pop_local-item fh internal c some_node h = popped-item fh internal fh.lq.nodes refl c some_node h

  -- What taking a node off has done: it was the oldest of the local queue and, behind it, the shared
  -- one, and the others stay in their order.
  abbrev pub Taken : LocalQueue A → DataQueue A → Dequeued A → Type ℓ
  Taken fh internal result =
      (n : QueueNode A) × (fh' : LocalQueue A) × (internal' : DataQueue A) × (result
        ≡ item n fh' internal')
      × (fh.lq.nodes ++ internal.nodes ≡ n ∷ (fh'.lq.nodes ++ internal'.nodes))
      × IsCounted fh'.lq
      × IsCounted internal'

  local-Taken :
      (fh : LocalQueue A) (internal : DataQueue A)
      → IsCounted fh.lq
      → IsCounted internal
      → 0 < length fh.lq.nodes
      → length fh.lq.nodes < 2 ^ 32
      → Taken fh internal (pop_local fh fh.lq.nodes internal)
  local-Taken fh internal c d some_node h =
      let (n, fh', ran, e, c') = pop_local-item fh internal c some_node h in
      (n, fh', internal, ran, ap (λ l. l ++ internal.nodes) e, c', d)

  shared-Taken :
      (fh : LocalQueue A) (internal : DataQueue A)
      → IsCounted fh.lq
      → IsCounted internal
      → 0 < length internal.nodes
      → length fh.lq.nodes + length internal.nodes < 2 ^ 32
      → Taken fh internal
          (pop_local (taken_over fh internal) (taken_over fh internal).lq.nodes (emptied internal))
  shared-Taken fh internal c d some_node h =
      let all = length-append fh.lq.nodes internal.nodes in
      let (n, fh', ran, e, c') =
        pop_local-item (taken_over fh internal) (emptied internal)
          (append_queue-IsCounted fh.lq internal c d h) (omega arith) (omega arith) in
      (
        n,
        fh',
        emptied internal,
        ran,
        e ∙ ap (λ l. n ∷ l) (sym (append-nil fh'.lq.nodes)),
        c',
        emptied-IsCounted internal,
      )

  -- With fewer than 2 ^ 32 nodes in the two queues, a timed dequeue waits, or returns when the time is
  -- up, only if both queues are empty; otherwise it returns the oldest node and never reads through NULL.
  pub timeddequeue-Taken :
      (expired : Bool) (fh : LocalQueue A) (internal : DataQueue A)
      → IsCounted fh.lq
      → IsCounted internal
      → length fh.lq.nodes + length internal.nodes < 2 ^ 32
      → ((fh.lq.nodes ≡ [])
          × (internal.nodes ≡ [])
          × (fistq_timeddequeue_any expired fh internal ≡ (if expired then timed_out else waiting)))
        ⊎ Taken fh internal (fistq_timeddequeue_any expired fh internal)
  unfolding fistq_timeddequeue_any
  timeddequeue-Taken expired fh internal c d h = elim (Bool-cases (fh.lq.size == 0)) [
    | inr full ↦
        rw full (inr (local-Taken fh internal c d (ground (arith, c.counted)) (omega arith)))
    | inl none_here ↦ elim (Bool-cases (internal.size == 0)) [
      | inl none_there ↦
          rw (none_here, none_there)
            (inl (
              length-nil fh.lq.nodes (ground (arith, c.counted)),
              length-nil internal.nodes (ground (arith, d.counted)),
              refl,
            ))
      | inr full ↦
          rw (none_here, full) (inr (shared-Taken fh internal c d (ground (arith, d.counted)) h))
    ]
  ]

  -- The same for a dequeue without a time: the thread waits only if both queues are empty, and then
  -- returns the oldest node, never NULL.
  dequeue-Taken :
      (fh : LocalQueue A) (internal : DataQueue A)
      → IsCounted fh.lq
      → IsCounted internal
      → length fh.lq.nodes + length internal.nodes < 2 ^ 32
      → ((fh.lq.nodes ≡ []) × (internal.nodes ≡ []) × (fistq_dequeue_any fh internal ≡ waiting))
        ⊎ Taken fh internal (fistq_dequeue_any fh internal)
  unfolding fistq_dequeue_any
  dequeue-Taken fh internal c d h = elim (Bool-cases (fh.lq.size == 0)) [
    | inr full ↦
        rw full (inr (local-Taken fh internal c d (ground (arith, c.counted)) (omega arith)))
    | inl none_here ↦ elim (Bool-cases (internal.size == 0)) [
      | inl none_there ↦
          rw (none_here, none_there)
            (inl (
              length-nil fh.lq.nodes (ground (arith, c.counted)),
              length-nil internal.nodes (ground (arith, d.counted)),
              refl,
            ))
      | inr full ↦
          let still : ((taken_over fh internal).lq.size == 0) ≡ false =
            ground (arith, c.counted, d.counted) in
          rw (none_here, full, still)
            (inr (shared-Taken fh internal c d (ground (arith, d.counted)) h))
    ]
  ]
