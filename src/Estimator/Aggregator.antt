-- ===== src/Estimator/Aggregator.antt =====
-- One round of the loop of `aggregator_thread` of pd3_estimator.c.
use estimators.Prelude.{ℕ, Bool, true, false, if◌then◌else◌, List, Option, none, some}
use estimators.Seqno.{plus}
use estimators.Fistq.{
  LocalQueue, DataQueue, QueueNode, FistqDataType, fistq_type_pinfo, Dequeued, waiting, timed_out,
  nothing, item, fault, fistq_timeddequeue_any,
}
use estimators.Hashmap.{HashMapKey}
use estimators.Estimator.{Timespec, set_next_interval, time_cmp}
use estimators.Estimator.Values.{Value}
use estimators.Estimator.Service.{
  Config, Mallocs, PacketInfo, Service, period_transition, handle_packet_arrival,
}

-- What the thread works with: the end of the interval, its own queue and the shared one, and the
-- service.
pub record Aggregator (Tree Queue : Type 0) : Type 0 where
  pub ref : Timespec
  pub client2agg : LocalQueue PacketInfo
  pub internal : DataQueue PacketInfo
  pub service : Service Tree Queue

-- A round is complete, the thread waits for data, or it reads through NULL.
pub data Round (Tree Queue : Type 0) : Type 0 where
  completes : Aggregator Tree Queue → Round Tree Queue
  waits : Round Tree Queue
  faults : Round Tree Queue

abbrev pub is_pinfo : FistqDataType → Bool
is_pinfo fistq_type_pinfo = true
is_pinfo _ = false

abbrev pub is_later : Timespec → Timespec → Bool
is_later now ref = elim (time_cmp now ref) [ plus ↦ true | _ ↦ false ]

module _ {Tree Queue : Type 0} where
  -- `interval` is the aggregation interval, and `malloc` the address of a new map.
  unfoldable pub next_period : Timespec → ℕ → Aggregator Tree Queue → Aggregator Tree Queue
  unfolding period_transition set_next_interval
  next_period interval malloc a = record a {
    ref = set_next_interval a.ref interval;
    service = (period_transition malloc a.service).1;
  }

  abbrev pub served : Aggregator Tree Queue → Option (Service Tree Queue) → Round Tree Queue
  served a none = faults
  served a (some s) = completes (record a { service = s })

  module _ (bytes : HashMapKey → List ℕ) (blank : Value Tree Queue) (config : Config) where
    -- Data of another type is only freed.
    unfoldable pub process_node :
        Mallocs → ℕ → QueueNode PacketInfo → Aggregator Tree Queue → Round Tree Queue
    unfolding handle_packet_arrival
    process_node mallocs ts node a =
        if is_pinfo node.type_of
        then served a (handle_packet_arrival bytes blank config mallocs ts node.data_of a.service)
        else completes a

    -- What the thread does with the result of the dequeue.
    unfoldable pub after_dequeue :
        Timespec → ℕ → Mallocs → ℕ → Aggregator Tree Queue → Dequeued PacketInfo → Round Tree Queue
    unfolding next_period process_node
    after_dequeue interval malloc mallocs ts a waiting = waits
    after_dequeue interval malloc mallocs ts a timed_out = completes (next_period interval malloc a)
    after_dequeue interval malloc mallocs ts a (nothing fh internal) =
        completes (next_period interval malloc (record a { client2agg = fh; internal = internal }))
    after_dequeue interval malloc mallocs ts a (item node fh internal) =
        process_node mallocs ts node (record a { client2agg = fh; internal = internal })
    after_dequeue interval malloc mallocs ts a fault = faults

    -- `expired` tells that a wait for data ends by the time-out.
    unfoldable pub aggregator_round :
        Timespec → ℕ → Mallocs → ℕ → Timespec → Bool → Aggregator Tree Queue → Round Tree Queue
    unfolding next_period after_dequeue fistq_timeddequeue_any time_cmp
    aggregator_round interval malloc mallocs ts now expired a =
        if is_later now a.ref
        then completes (next_period interval malloc a)
        else after_dequeue interval malloc mallocs ts a
            (fistq_timeddequeue_any expired a.client2agg a.internal)
