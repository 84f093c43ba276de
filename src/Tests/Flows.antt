-- ===== src/Tests/Flows.antt =====
-- Runs of the comparison of sequence numbers, the flow states and the packet data.
use estimators.Prelude.{
  ℕ, ◌+◌, ◌-◌, ◌^◌, ◌%◌, ◌<◌, ◌≡◌, ◌↔◌, arith, [], ◌∷◌, ◌++◌, length, All, if◌then◌else◌, ltb,
}
use estimators.Seqno.{null, minus, seqcmp, modular_distance}
use estimators.Seqno.Order.{seqcmp_window, modular_distance_steps}
use estimators.FlowState.{fs_null, fs_p, flowstate_concatenate, flowstate_error}
use estimators.FlowState.Events.{
  packet, delimiter, replay, has_pdp, replay-concatenate, error-iff-reappears,
}
use estimators.Packet.{no_packets, packetdata_accumulate}
use estimators.Packet.Extent.{Packet, IsTimely}
use estimators.Packet.Summary.{arrivals, IsCovered, accumulate-arrivals, arrivals-cover}

abbrev near_end : ℕ
near_end = 4294967290

abbrev wrapping : ℕ
wrapping = 4294967294

-- Across the wrap.
seqcmp_window_example :
    ((seqcmp near_end 3 ≡ null) ↔ (near_end ≡ 3))
    × ((seqcmp near_end 3 ≡ minus)
        ↔ ((0 < (3 + 2 ^ 32 - near_end) % 2 ^ 32) × ((3 + 2 ^ 32 - near_end) % 2 ^ 32 < 2 ^ 31)))
seqcmp_window_example = seqcmp_window near_end 3 (omega arith) (omega arith)

modular_distance_steps_example :
    ((near_end + modular_distance near_end 3 + (if ltb 3 near_end then 1 else 0)) % 2 ^ 32 ≡ 3)
    × (modular_distance near_end 3 < 2 ^ 32)
modular_distance_steps_example = modular_distance_steps near_end 3 (omega arith) (omega arith)

replay-concatenate_example :
    replay fs_p (delimiter ∷ packet ∷ [])
    ≡ flowstate_concatenate fs_p (replay fs_null (delimiter ∷ packet ∷ []))
replay-concatenate_example = replay-concatenate fs_p (delimiter ∷ packet ∷ [])

error-iff-reappears_example :
    flowstate_error (replay fs_null (packet ∷ delimiter ∷ packet ∷ []))
    ≡ has_pdp (packet ∷ delimiter ∷ packet ∷ [])
error-iff-reappears_example = error-iff-reappears (packet ∷ delimiter ∷ packet ∷ [])

abbrev first : Packet
first = record { time = 5; offset = 2 }

abbrev second : Packet
second = record { time = 7; offset = 1 }

first-IsTimely : IsTimely first
first-IsTimely = record { started = omega arith; windowed = omega arith }

second-IsTimely : IsTimely second
second-IsTimely = record { started = omega arith; windowed = omega arith }

-- The sequence numbers wrap between the two packets.
accumulate-arrivals_example :
    packetdata_accumulate
      (arrivals wrapping no_packets (first ∷ []))
      (arrivals wrapping no_packets (second ∷ []))
    ≡ arrivals wrapping no_packets ((first ∷ []) ++ second ∷ [])
accumulate-arrivals_example =
    accumulate-arrivals wrapping first second [] [] (first-IsTimely, tt) (second-IsTimely, tt)
      (omega arith)

arrivals-cover_example :
    ((arrivals wrapping no_packets (first ∷ second ∷ [])).packet_count ≡ length (second ∷ []) + 1)
    × All
        (IsCovered wrapping (arrivals wrapping no_packets (first ∷ second ∷ [])))
        (first ∷ second ∷ [])
arrivals-cover_example =
    arrivals-cover wrapping first (second ∷ []) (first-IsTimely, (second-IsTimely, tt))
      (omega arith)
