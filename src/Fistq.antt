-- ===== src/Fistq.antt =====
-- fistq.h and fistq.c: the queue by which threads pass data, as a shared queue behind a mutex and the
-- local queue of each handle. A queue is its nodes from head to tail. Each section that the code runs
-- under the mutex is one step, and a handle's own queue is used by its thread alone.
pub mod Registry
pub mod Steps
pub mod Order
use estimators.Prelude.{
  ℕ, ◌+◌, ◌-◌, ◌^◌, ◌%◌, Bool, true, false, not, ◌&&◌, ◌==◌, leb, if◌then◌else◌, List, [], ◌∷◌,
  ◌++◌, map, Option, none, some, add32, sub32,
}

pub data FlushOption : Type 0 where
  fistq_default fistq_flush_now fistq_noflush : FlushOption

pub data FreeOption : Type 0 where
  fistq_free_data fistq_nofree : FreeOption

pub data FistqDataType : Type 0 where
  fistq_type_null fistq_type_timeout fistq_type_pinfo : FistqDataType

abbrev pub default_threshold : ℕ
default_threshold = 5

pub record QueueNode {ℓ} (A : Type ℓ) : Type ℓ where
  pub data_of : A
  pub type_of : FistqDataType

pub record DataQueue {ℓ} (A : Type ℓ) : Type ℓ where
  pub size : ℕ
  pub nodes : List (QueueNode A)
  pub free_data : FreeOption

-- `fq` is the address of the shared queue's `fistq_t`.
pub record LocalQueue {ℓ} (A : Type ℓ) : Type ℓ where
  pub fq : ℕ
  pub lq : DataQueue A
  pub threshold : ℕ

-- How a call of `fistq_dequeue_any` or `fistq_timeddequeue_any` goes on: the thread waits for the
-- condition variable, the time is up, there is nothing to return, a node's data is returned, or the
-- code reads through NULL.
pub data Dequeued {ℓ} (A : Type ℓ) : Type ℓ where
  waiting : Dequeued A
  timed_out : Dequeued A
  nothing : LocalQueue A → DataQueue A → Dequeued A
  item : QueueNode A → LocalQueue A → DataQueue A → Dequeued A
  fault : Dequeued A

abbrev pub is_flush : FlushOption → Bool
is_flush fistq_flush_now = true
is_flush _ = false

abbrev pub is_noflush : FlushOption → Bool
is_noflush fistq_noflush = true
is_noflush _ = false

module _ {ℓ} {A : Type ℓ} where
  -- `tail->next = qn; tail = qn; size++`
  abbrev pub append_node : DataQueue A → QueueNode A → DataQueue A
  append_node q n = record q { size = add32 q.size 1; nodes = q.nodes ++ n ∷ [] }

  abbrev pub emptied : DataQueue A → DataQueue A
  emptied q = record q { size = 0; nodes = [] }

  -- Moves all nodes of `from` behind those of `to`; `from` is emptied next.
  abbrev pub append_queue : DataQueue A → DataQueue A → DataQueue A
  append_queue to from = record to {
    size = add32 to.size from.size;
    nodes = to.nodes ++ from.nodes;
  }

  -- The data that is disposed of, by the callback if there is one and by `free` otherwise.
  unfoldable pub queue_free : DataQueue A → List A
  queue_free q = elim q.free_data [
    | fistq_free_data ↦ map (λ n. n.data_of) q.nodes
    | fistq_nofree ↦ []
  ]

  unfoldable pub fistq_direct : DataQueue A → QueueNode A → DataQueue A
  fistq_direct internal qn = append_node internal qn

  -- `none` is the return of -1, which changes nothing.
  unfoldable pub fistq_flush : LocalQueue A → DataQueue A → Option (LocalQueue A × DataQueue A)
  fistq_flush fh internal =
      if fh.lq.size == 0
      then none
      else some (record fh { lq = emptied fh.lq }, append_queue internal fh.lq)

  -- The caller ignores the result of the flush.
  abbrev pub flushed_or :
      LocalQueue A → DataQueue A → Option (LocalQueue A × DataQueue A) → LocalQueue A × DataQueue A
  flushed_or fh internal none = (fh, internal)
  flushed_or fh internal (some r) = r

  -- `calloc` tells whether the node could be allocated; `none` as data is NULL, and as a result it is
  -- the return of -1, which changes nothing.
  unfoldable pub fistq_enqueue_any :
      Bool
      → LocalQueue A
      → DataQueue A
      → Option A
      → FistqDataType
      → FlushOption
      → Option (LocalQueue A × DataQueue A)
  unfolding fistq_direct fistq_flush
  fistq_enqueue_any calloc fh internal none type op = none
  fistq_enqueue_any calloc fh internal (some x) type op =
      let qn : QueueNode A = record { data_of = x; type_of = type } in
      let fh' : LocalQueue A = record fh { lq = append_node fh.lq qn } in
      if not calloc
      then none
      else if is_flush op
      then some (fh, fistq_direct internal qn)
      else if not (is_noflush op) && leb fh.threshold fh'.lq.size
      then some (flushed_or fh' internal (fistq_flush fh' internal))
      else some (fh', internal)

  -- From `qn = fh->lq.head.next` on.
  unfoldable pub pop_local : LocalQueue A → List (QueueNode A) → DataQueue A → Dequeued A
  pop_local fh [] internal = fault
  pop_local fh (qn ∷ rest) internal =
      item qn (record fh { lq = record (fh.lq) { size = sub32 fh.lq.size 1; nodes = rest } })
        internal

  -- The move from the internal queue to the local one.
  abbrev pub taken_over : LocalQueue A → DataQueue A → LocalQueue A
  taken_over fh internal = record fh { lq = append_queue fh.lq internal }

  unfoldable pub fistq_dequeue_any : LocalQueue A → DataQueue A → Dequeued A
  unfolding pop_local
  fistq_dequeue_any fh internal =
      let fh' = taken_over fh internal in
      if not (fh.lq.size == 0)
      then pop_local fh fh.lq.nodes internal
      else if internal.size == 0
      then waiting
      else if fh'.lq.size == 0
      then nothing fh' (emptied internal)
      else pop_local fh' fh'.lq.nodes (emptied internal)

  -- `expired` tells that the wait for the condition variable ends by the time-out.
  unfoldable pub fistq_timeddequeue_any : Bool → LocalQueue A → DataQueue A → Dequeued A
  unfolding pop_local
  fistq_timeddequeue_any expired fh internal =
      let fh' = taken_over fh internal in
      if not (fh.lq.size == 0)
      then pop_local fh fh.lq.nodes internal
      else if internal.size == 0
      then (if expired then timed_out else waiting)
      else pop_local fh' fh'.lq.nodes (emptied internal)

  unfoldable pub fistq_set_threshold : LocalQueue A → ℕ → LocalQueue A
  fistq_set_threshold fh t = record fh { threshold = t % 2 ^ 16 }

  unfoldable pub fistq_get_local_size : LocalQueue A → ℕ
  fistq_get_local_size fh = fh.lq.size

  unfoldable pub fistq_get_size : DataQueue A → ℕ
  fistq_get_size internal = internal.size
