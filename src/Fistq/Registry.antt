-- ===== src/Fistq/Registry.antt =====
-- The part of fistq.c that manages the queues: the global list of shared queues behind its lock, and
-- the handles that threads get and destroy. A shared queue lies in a heap under its address, and the
-- list is the addresses from the head on. A name is its characters.
pub mod Lock
pub mod Handles
use estimators.Prelude.{
  ℕ, ◌+◌, ◌-◌, ◌^◌, ◌%◌, Bool, true, false, not, ◌&&◌, ◌||◌, ◌==◌, if◌then◌else◌, List, [], ◌∷◌,
  ◌++◌, map, Option, none, some, add32, sub32,
}
use estimators.Fistq.{
  QueueNode, DataQueue, LocalQueue, FreeOption, fistq_free_data, fistq_nofree, default_threshold,
  queue_free,
}

pub record Fistq {ℓ} (A : Type ℓ) : Type ℓ where
  pub internal : DataQueue A
  pub src : List ℕ
  pub dst : List ℕ
  pub value : ℕ
  pub ref_count : ℕ

-- `locked` is the state of `fistq_list_lock`.
pub record Registry {ℓ} (A : Type ℓ) : Type ℓ where
  pub fistqs : List ℕ
  pub list_size : ℕ
  pub heap : ℕ → Fistq A
  pub locked : Bool

-- A call returns, or waits for a lock that nobody releases.
pub data Called {ℓ} (R : Type ℓ) : Type ℓ where
  returns : R → Called R
  deadlock : Called R

-- `strcmp(s, t) == 0`
unfoldable pub same_name : List ℕ → List ℕ → Bool
same_name [] [] = true
same_name [] (d ∷ t) = false
same_name (c ∷ s) [] = false
same_name (c ∷ s) (d ∷ t) = c == d && same_name s t

-- The name of a pointer that is neither NULL nor the empty string.
abbrev pub given_name : Option (List ℕ) → Option (List ℕ)
given_name none = none
given_name (some []) = none
given_name (some (c ∷ s)) = some (c ∷ s)

-- `(free_option_t)value`, of which only `FISTQ_FREE`, 0, is told apart.
abbrev pub free_option : ℕ → FreeOption
free_option value = if value == 0 then fistq_free_data else fistq_nofree

-- The list without a node.
unfoldable pub unlink : ℕ → List ℕ → List ℕ
unlink p [] = []
unlink p (q ∷ qs) = if p == q then qs else q ∷ unlink p qs

module _ {ℓ} {A : Type ℓ} where
  abbrev pub store_fistq : (ℕ → Fistq A) → ℕ → Fistq A → ℕ → Fistq A
  store_fistq heap p fq q = if p == q then fq else heap q

  abbrev pub empty_queue : ℕ → DataQueue A
  empty_queue value = record { size = 0; nodes = []; free_data = free_option value }

  -- The linear search.
  unfoldable pub find_fistq : (ℕ → Fistq A) → List ℕ → List ℕ → List ℕ → Option ℕ
  unfolding same_name
  find_fistq heap [] src dst = none
  find_fistq heap (p ∷ ps) src dst =
      if same_name (heap p).src src && same_name (heap p).dst dst
      then some p
      else find_fistq heap ps src dst

  -- A found queue has one more reference.
  unfoldable pub fistq_find_unsafe : Registry A → List ℕ → List ℕ → Option (ℕ × Registry A)
  unfolding find_fistq
  fistq_find_unsafe reg src dst = elim (find_fistq reg.heap reg.fistqs src dst) [
    | none ↦ none
    | some p ↦ some (
      p,
      record reg {
        heap =
            store_fistq reg.heap p
              (record (reg.heap p) { ref_count = add32 (reg.heap p).ref_count 1 });
      },
    )
  ]

  -- `calloc` is the address of the new queue, if there is memory for it.
  unfoldable pub fistq_create_unsafe :
      Option ℕ → Registry A → List ℕ → List ℕ → ℕ → Option (ℕ × Registry A)
  fistq_create_unsafe none reg src dst value = none
  fistq_create_unsafe (some p) reg src dst value = some (
    p,
    record reg {
      heap = store_fistq reg.heap p (record {
        internal = empty_queue value;
        src = src;
        dst = dst;
        value = value;
        ref_count = 1;
      });
      fistqs = p ∷ reg.fistqs;
      list_size = add32 reg.list_size 1;
    },
  )

  abbrev pub new_handle : ℕ → ℕ → LocalQueue A
  new_handle value p = record { fq = p; lq = empty_queue value; threshold = default_threshold }

  -- Where the queue was neither found nor created, the function returns NULL with the lock held.
  abbrev pub got_handle :
      Registry A → ℕ → Option (ℕ × Registry A) → Called (Option (LocalQueue A) × Registry A)
  got_handle reg value none = returns (none, record reg { locked = true })
  got_handle reg value (some (p, reg')) = returns (some (new_handle value p), reg')

  abbrev pub found_or_created :
      Option (ℕ × Registry A) → Option (ℕ × Registry A) → Option (ℕ × Registry A)
  found_or_created (some r) created = some r
  found_or_created none created = created

  -- From the allocation of the handle on; `handle_memory` tells whether it succeeds.
  unfoldable pub open_handle :
      Bool
      → Option ℕ
      → Registry A
      → List ℕ
      → List ℕ
      → ℕ
      → Called (Option (LocalQueue A) × Registry A)
  unfolding fistq_find_unsafe fistq_create_unsafe
  open_handle handle_memory calloc reg src dst value =
      if not handle_memory
      then returns (none, reg)
      else if reg.locked
      then deadlock
      else got_handle reg value (
          found_or_created (fistq_find_unsafe reg src dst)
            (fistq_create_unsafe calloc reg src dst value))

  unfoldable pub fistq_get_handle :
      Bool
      → Option ℕ
      → Registry A
      → Option (List ℕ)
      → Option (List ℕ)
      → ℕ
      → Called (Option (LocalQueue A) × Registry A)
  unfolding open_handle
  fistq_get_handle handle_memory calloc reg src dst value = elim (given_name src) [
    | none ↦ returns (none, reg)
    | some s ↦ elim (given_name dst) [
      | none ↦ returns (none, reg)
      | some d ↦ open_handle handle_memory calloc reg s d value
    ]
  ]

  abbrev pub release : Registry A → ℕ → Registry A
  release reg p = record reg {
    heap =
        store_fistq reg.heap p (record (reg.heap p) { ref_count = sub32 (reg.heap p).ref_count 1 });
  }

  -- The data that are disposed of, and the registry; `none` is the return of -1 for NULL.
  unfoldable pub fistq_destroy_handle :
      Registry A → Option (LocalQueue A) → Called (Option (List A) × Registry A)
  unfolding queue_free unlink
  fistq_destroy_handle reg none = returns (none, reg)
  fistq_destroy_handle reg (some fh) =
      let reg' = release reg fh.fq in
      if reg.locked
      then deadlock
      else if (reg'.heap fh.fq).ref_count == 0
      then returns (
        some (queue_free fh.lq ++ queue_free (reg.heap fh.fq).internal),
        record reg' { fistqs = unlink fh.fq reg.fistqs; list_size = sub32 reg.list_size 1 },
      )
      else returns (some (queue_free fh.lq), reg')

  -- Any registry at first: the heap is what it was.
  unfoldable pub fistq_init : (ℕ → Fistq A) → Registry A
  fistq_init heap = record { fistqs = []; list_size = 0; heap = heap; locked = false }

  -- The data that the loop of `fistq_destroy` disposes of.
  unfoldable pub free_fistqs : (ℕ → Fistq A) → List ℕ → List A
  unfolding queue_free
  free_fistqs heap [] = []
  free_fistqs heap (p ∷ ps) = queue_free (heap p).internal ++ free_fistqs heap ps

  unfoldable pub fistq_destroy : Registry A → Called (List A × Registry A)
  unfolding free_fistqs
  fistq_destroy reg =
      if reg.locked
      then deadlock
      else returns (free_fistqs reg.heap reg.fistqs, record reg { fistqs = [] })
