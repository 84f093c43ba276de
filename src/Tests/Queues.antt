-- ===== src/Tests/Queues.antt =====
-- Runs of the queues between threads and of the checksum.
use estimators.Prelude.{
  ℕ, ◌^◌, ◌%◌, ◌≡◌, ◌↔◌, ◌⊎◌, refl, arith, List, [], ◌∷◌, get_or, Option, none, some, true, false,
  ◌==◌, if◌then◌else◌,
}
use estimators.Crc.{crc_c, crc_build_table_entry}
use estimators.Crc.Table.{crc_c-entry}
use estimators.Fistq.{
  QueueNode, DataQueue, LocalQueue, waiting, timed_out, fistq_type_pinfo, fistq_nofree,
  fistq_default, fistq_enqueue_any, fistq_timeddequeue_any,
}
use estimators.Fistq.Steps.{IsCounted, Enqueued, Taken, enqueue-Enqueued, timeddequeue-Taken}
use estimators.Fistq.Order.{
  System, IsOrdered, Reach, here, step, enqueued, destroyed, Reach-IsOrdered,
}
use estimators.Fistq.Registry.{Registry, Fistq, find_fistq, open_handle, deadlock}
use estimators.Fistq.Registry.Lock.{Leaves, open_handle-held}
use estimators.Fistq.Registry.Handles.{Restored, get-destroy}

crc_c-entry_example : get_or crc_c 200 0 ≡ crc_build_table_entry 200 % 2 ^ 32
crc_c-entry_example = crc_c-entry 200 (omega arith)

abbrev node : ℕ → QueueNode ℕ
node x = record { data_of = x; type_of = fistq_type_pinfo }

abbrev local_queue : LocalQueue ℕ
local_queue = record {
  fq = 7;
  lq = record { size = 1; nodes = node 4 ∷ []; free_data = fistq_nofree };
  threshold = 2;
}

abbrev shared_queue : DataQueue ℕ
shared_queue = record { size = 2; nodes = node 2 ∷ node 3 ∷ []; free_data = fistq_nofree }

local_queue-IsCounted : IsCounted local_queue.lq
local_queue-IsCounted = record { counted = refl }

shared_queue-IsCounted : IsCounted shared_queue
shared_queue-IsCounted = record { counted = refl }

-- The second node makes the local queue reach its threshold.
enqueue-Enqueued_example :
    (r : LocalQueue ℕ × DataQueue ℕ) × (fistq_enqueue_any true local_queue shared_queue
        (some 5)
        fistq_type_pinfo
        fistq_default
      ≡ some r)
    × Enqueued fistq_default local_queue shared_queue (node 5) r.0 r.1
    × IsCounted r.0.lq
    × IsCounted r.1
enqueue-Enqueued_example =
    enqueue-Enqueued local_queue shared_queue 5 fistq_type_pinfo fistq_default local_queue-IsCounted
      shared_queue-IsCounted (omega arith)

timeddequeue-Taken_example :
    ((local_queue.lq.nodes ≡ [])
      × (shared_queue.nodes ≡ [])
      × (fistq_timeddequeue_any true local_queue shared_queue
          ≡ (if true then timed_out else waiting)))
    ⊎ Taken local_queue shared_queue (fistq_timeddequeue_any true local_queue shared_queue)
timeddequeue-Taken_example =
    timeddequeue-Taken true local_queue shared_queue local_queue-IsCounted shared_queue-IsCounted
      (omega arith)

abbrev nobody : LocalQueue (ℕ × ℕ)
nobody = record {
  fq = 7;
  lq = record { size = 0; nodes = []; free_data = fistq_nofree };
  threshold = 5;
}

abbrev idle : System
idle = record {
  writers = λ w. nobody;
  internal = nobody.lq;
  reader = nobody;
  sent = λ w. [];
  received = [];
}

idle-IsOrdered : IsOrdered idle
idle-IsOrdered = record { own = λ v. tt; order = λ w. refl }

abbrev packet : QueueNode (ℕ × ℕ)
packet = record { data_of = (3, 9); type_of = fistq_type_pinfo }

abbrev busy : LocalQueue (ℕ × ℕ)
busy = record nobody { lq = record { size = 1; nodes = packet ∷ []; free_data = fistq_nofree } }

-- Client 3 enqueues a packet.
abbrev after : System
after = record idle {
  writers = λ v. if 3 == v then busy else nobody;
  sent = λ v. if 3 == v then packet ∷ [] else [];
}

idle-after : Reach idle after
unfolding fistq_enqueue_any
idle-after = step idle after here (enqueued idle 3 9 fistq_type_pinfo busy nobody.lq refl)

-- Client 3 destroys its handle.
abbrev gone : System
gone = record after {
  writers = λ v. if 3 == v then nobody else after.writers v;
  sent = λ v. if 3 == v then [] else after.sent v;
}

Reach-IsOrdered_example : IsOrdered gone
Reach-IsOrdered_example =
    Reach-IsOrdered idle gone idle-IsOrdered
      (step after gone idle-after (destroyed after 3 nobody refl))

abbrev unused : Fistq ℕ
unused = record { internal = shared_queue; src = 97 ∷ []; dst = 98 ∷ []; value = 1; ref_count = 1 }

-- One queue, at address 4, from "a" to "b".
abbrev one_queue : Registry ℕ
one_queue = record { fistqs = 4 ∷ []; list_size = 1; heap = λ p. unused; locked = false }

abbrev no_memory : Option ℕ
no_memory = none

open_handle-held_example :
    (Leaves true (open_handle true no_memory one_queue (97 ∷ []) (97 ∷ []) 1)
      ↔ ((find_fistq one_queue.heap (4 ∷ []) (97 ∷ []) (97 ∷ []) ≡ none) × (no_memory ≡ none)))
    × ((other : Option ℕ) (s d : List ℕ) (v : ℕ)
        → open_handle true other (record one_queue { locked = true }) s d v ≡ deadlock)
open_handle-held_example = open_handle-held no_memory one_queue (97 ∷ []) (97 ∷ []) 1 refl

get-destroy_example : Restored one_queue (open_handle true (some 5) one_queue (97 ∷ []) (98 ∷ []) 1)
get-destroy_example =
    get-destroy 5 one_queue (97 ∷ []) (98 ∷ []) 1 refl ((omega arith, omega arith), tt)
      (ground arith, tt) (omega arith)
