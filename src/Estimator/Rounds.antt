-- ===== src/Estimator/Rounds.antt =====
-- The aggregator's thread over the queue and the service: a round of it is a step of the service, and,
-- with memory given, never reads through NULL.
use estimators.Prelude.{
  ℕ, ◌+◌, ◌^◌, ◌<◌, ◌≡◌, refl, sym, ap, ◌∙◌, subst, Bool, true, false, Bool-cases, Option-cases,
  inl, inr, ◌⊎◌, if◌then◌else◌, [], ◌∷◌, ◌++◌, length,
}
use estimators.Fistq.{
  LocalQueue, DataQueue, QueueNode, Dequeued, waiting, timed_out, nothing, item, fault,
  fistq_timeddequeue_any,
}
use estimators.Fistq.Steps.{IsCounted, timeddequeue-Taken}
use estimators.Estimator.{Timespec}
use estimators.Estimator.Service.{Mallocs, PacketInfo, period_transition, handle_packet_arrival}
use estimators.Estimator.Thread.{Setting, TreeOf, QueueOf}
use estimators.Estimator.Exchange.{SystemOf, Step, step-transition, step-arrival, Reach, opens}
use estimators.Estimator.Exchange.Order.{Reach-arrival}
use estimators.Estimator.Aggregator.{
  Aggregator, Round, completes, waits, faults, is_later, is_pinfo, next_period, process_node,
  after_dequeue, aggregator_round,
}

module _ (env : Setting) where
  -- A round that is complete took at most one step of the service.
  abbrev pub Stepped : SystemOf env → Round (TreeOf env) (QueueOf env) → Type 0
  Stepped t waits = Unit
  Stepped t faults = ⊥
  Stepped t (completes a) =
      (a.service ≡ t.service) ⊎ ((u : SystemOf env) × Step env t u × (u.service ≡ a.service))

  period-Stepped :
      (interval : Timespec) (malloc : ℕ) (a : Aggregator (TreeOf env) (QueueOf env))
      (t : SystemOf env)
      → a.service ≡ t.service
      → Stepped t (completes (next_period interval malloc a))
  unfolding next_period
  period-Stepped interval malloc a t e = inr (
    record t {
      service = (period_transition malloc t.service).1;
      opened = t.opened ++ opens malloc t.service ∷ [];
    },
    step-transition malloc t,
    ap (λ s. (period_transition malloc s).1) (sym e),
  )

  node-Stepped :
      (mallocs : Mallocs) (ts : ℕ) (node : QueueNode PacketInfo)
      (a : Aggregator (TreeOf env) (QueueOf env)) (t : SystemOf env)
      → Reach env t
      → a.service ≡ t.service
      → Stepped t (process_node env.bytes env.blank env.config mallocs ts node a)
  unfolding process_node
  node-Stepped mallocs ts node a t r e = elim (Bool-cases (is_pinfo node.type_of)) [
    | inr other ↦ rw other (inl e)
    | inl pinfo ↦
        elim (Option-cases (
          handle_packet_arrival env.bytes env.blank env.config mallocs ts node.data_of a.service)) [
            | inl missing ↦ absurd (
                Reach-arrival env mallocs ts node.data_of t r (
                  ap
                    (λ s.
                      handle_packet_arrival env.bytes env.blank env.config mallocs ts node.data_of
                        s)
                    (sym e)
                  ∙ missing))
            | inr (s, found) ↦
                rw (pinfo, found)
                  (inr (
                    record t { service = s },
                    step-arrival mallocs ts node.data_of t s (
                        ap
                          (λ s.
                            handle_packet_arrival env.bytes env.blank env.config mallocs ts
                              node.data_of s)
                          (sym e)
                        ∙ found),
                    refl,
                  ))
          ]
  ]

  -- What the dequeue came to is not a read through NULL.
  abbrev Sound : Dequeued PacketInfo → Type 0
  Sound fault = ⊥
  Sound _ = Unit

  dequeue-Stepped :
      (interval : Timespec) (malloc : ℕ) (mallocs : Mallocs) (ts : ℕ)
      (a : Aggregator (TreeOf env) (QueueOf env)) (t : SystemOf env) (d : Dequeued PacketInfo)
      → Reach env t
      → a.service ≡ t.service
      → Sound d
      → Stepped t (after_dequeue env.bytes env.blank env.config interval malloc mallocs ts a d)
  unfolding after_dequeue
  dequeue-Stepped interval malloc mallocs ts a t waiting r e sound = tt
  dequeue-Stepped interval malloc mallocs ts a t timed_out r e sound =
      period-Stepped interval malloc a t e
  dequeue-Stepped interval malloc mallocs ts a t (nothing fh internal) r e sound =
      period-Stepped interval malloc (record a { client2agg = fh; internal = internal }) t e
  dequeue-Stepped interval malloc mallocs ts a t (item node fh internal) r e sound =
      node-Stepped mallocs ts node (record a { client2agg = fh; internal = internal }) t r e
  dequeue-Stepped interval malloc mallocs ts a t fault r e sound = absurd sound

  timeddequeue-Sound :
      (expired : Bool) (fh : LocalQueue PacketInfo) (internal : DataQueue PacketInfo)
      → IsCounted fh.lq
      → IsCounted internal
      → length fh.lq.nodes + length internal.nodes < 2 ^ 32
      → Sound (fistq_timeddequeue_any expired fh internal)
  timeddequeue-Sound expired fh internal c d h =
      elim (timeddequeue-Taken expired fh internal c d h) [
        | inl (none_here, none_there, e) ↦ subst Sound (sym e) (quiet expired)
        | inr (n, fh', internal', e, line, c', d') ↦ subst Sound (sym e) tt
      ]
    where
      quiet : (b : Bool) → Sound (if b then timed_out else waiting)
      quiet true = tt
      quiet false = tt

  -- In every state that the threads reach, a round of the aggregator's thread does not read through
  -- NULL; it waits for data, or it is complete with the service as it was or one step further. The
  -- sizes of the two queues have to be their lengths, there are fewer than 2^32 nodes, and memory for a new item or map is given.
  pub round-Stepped :
      (interval : Timespec) (malloc : ℕ) (mallocs : Mallocs) (ts : ℕ) (now : Timespec)
      (expired : Bool) (a : Aggregator (TreeOf env) (QueueOf env)) (t : SystemOf env)
      → Reach env t
      → a.service ≡ t.service
      → IsCounted a.client2agg.lq
      → IsCounted a.internal
      → length a.client2agg.lq.nodes + length a.internal.nodes < 2 ^ 32
      → Stepped t
          (aggregator_round env.bytes env.blank env.config interval malloc mallocs ts now expired a)
  unfolding aggregator_round
  round-Stepped interval malloc mallocs ts now expired a t r e c d h =
      let sound = timeddequeue-Sound expired a.client2agg a.internal c d h in
      let later =
        dequeue-Stepped interval malloc mallocs ts a t
          (fistq_timeddequeue_any expired a.client2agg a.internal) r e sound in
      elim (Bool-cases (is_later now a.ref)) [
        | inl passed ↦ rw passed (period-Stepped interval malloc a t e)
        | inr early ↦ rw early later
      ]
