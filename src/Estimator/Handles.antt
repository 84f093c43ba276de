-- ===== src/Estimator/Handles.antt =====
-- The handles of pd3_estimator.c: a handle is a struct with a handle of the queue to the aggregator.
use estimators.Prelude.{ℕ, Bool, true, false, List, [], ◌∷◌, Option, none, some, if◌then◌else◌}
use estimators.Fistq.{
  LocalQueue, DataQueue, fistq_type_pinfo, fistq_noflush, fistq_enqueue_any, fistq_flush,
}
use estimators.Fistq.Registry.{
  Registry, Called, returns, deadlock, fistq_get_handle, fistq_destroy_handle, unlink,
}
use estimators.Estimator.Service.{PacketInfo}

-- "pd3_estimator_client" and "pd3_estimator_aggregator"
abbrev pub fistq_src : List ℕ
fistq_src =
    112 ∷ 100 ∷ 51 ∷ 95 ∷ 101 ∷ 115 ∷ 116 ∷ 105 ∷ 109 ∷ 97 ∷ 116 ∷ 111 ∷ 114 ∷ 95 ∷ 99 ∷ 108 ∷ 105
    ∷ 101 ∷ 110 ∷ 116 ∷ []

abbrev pub fistq_dst : List ℕ
fistq_dst =
    112 ∷ 100 ∷ 51 ∷ 95 ∷ 101 ∷ 115 ∷ 116 ∷ 105 ∷ 109 ∷ 97 ∷ 116 ∷ 111 ∷ 114 ∷ 95 ∷ 97 ∷ 103 ∷ 103
    ∷ 114 ∷ 101 ∷ 103 ∷ 97 ∷ 116 ∷ 111 ∷ 114 ∷ []

-- The address of the struct, and what is in it.
pub record EstimatorHandle : Type 0 where
  pub address : ℕ
  pub handle : LocalQueue PacketInfo

-- The registry of queues, and the blocks that hold the structs of handles.
pub record Handles : Type 0 where
  pub registry : Registry PacketInfo
  pub blocks : List ℕ

-- What `fistq_getHandle` gave; where it gave NULL the struct stays allocated.
abbrev pub created :
    ℕ
    → List ℕ
    → Called (Option (LocalQueue PacketInfo) × Registry PacketInfo)
    → Called (Option EstimatorHandle × Handles)
created h blocks deadlock = deadlock
created h blocks (returns (none, registry)) =
    returns (none, record { registry = registry; blocks = h ∷ blocks })
created h blocks (returns (some fh, registry)) = returns (
  some (record { address = h; handle = fh }),
  record { registry = registry; blocks = h ∷ blocks },
)

-- `malloc` is the address of the struct, if there is memory for it; `handle_memory` and `calloc` are
-- the allocations of `fistq_getHandle`. `FISTQ_FREE` is 0.
unfoldable pub pd3_estimator_create_handle :
    Option ℕ → Bool → Option ℕ → Handles → Called (Option EstimatorHandle × Handles)
unfolding fistq_get_handle
pd3_estimator_create_handle none handle_memory calloc hs = returns (none, hs)
pd3_estimator_create_handle (some h) handle_memory calloc hs =
    created h hs.blocks
      (fistq_get_handle handle_memory calloc hs.registry (some fistq_src) (some fistq_dst) 0)

-- `malloc` and `calloc` tell whether there is memory for the copy of the packet's data and for the
-- node; `none` is the return of -1, or a handle that is NULL.
unfoldable pub pd3_estimator_push_packet_info :
    Bool
    → Bool
    → Option (LocalQueue PacketInfo)
    → PacketInfo
    → DataQueue PacketInfo
    → Option (LocalQueue PacketInfo × DataQueue PacketInfo)
unfolding fistq_enqueue_any
pd3_estimator_push_packet_info malloc calloc none pinfo internal = none
pd3_estimator_push_packet_info malloc calloc (some handle) pinfo internal =
    let pushed =
      fistq_enqueue_any calloc handle internal (some pinfo) fistq_type_pinfo fistq_noflush in
    if malloc then pushed else none

unfoldable pub pd3_estimator_flush :
    LocalQueue PacketInfo
    → DataQueue PacketInfo
    → Option (LocalQueue PacketInfo × DataQueue PacketInfo)
unfolding fistq_flush
pd3_estimator_flush handle internal = fistq_flush handle internal

-- The result of `fistq_destroyHandle` is not used. The flag is false for the return of -1, for NULL.
unfoldable pub pd3_estimator_destroy_handle :
    Option EstimatorHandle → Handles → Called (Bool × Option (List PacketInfo) × Handles)
unfolding fistq_destroy_handle unlink
pd3_estimator_destroy_handle none hs = returns (false, none, hs)
pd3_estimator_destroy_handle (some h) hs = elim (fistq_destroy_handle hs.registry (some h.handle)) [
  | deadlock ↦ deadlock
  | returns (freed, registry) ↦
      returns (true, freed, record { registry = registry; blocks = unlink h.address hs.blocks })
]
