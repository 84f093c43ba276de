-- ===== src/Packet.antt =====
-- packetdata.c: how many packets came, when, and between which sequence numbers.
pub mod Extent
pub mod Summary
use estimators.Prelude.{ℕ, ◌||◌, ltb, leb, ◌==◌, if◌then◌else◌, Bool, true, false, add32}
use estimators.Seqno.{Sign, minus, plus, null, seqcmp}

pub record PacketData : Type 0 where
  pub packet_count : ℕ
  pub earliest : ℕ
  pub latest : ℕ
  pub min_seq : ℕ
  pub max_seq : ℕ

-- `memset(..., 0, ...)`
abbrev pub no_packets : PacketData
no_packets = record { packet_count = 0; earliest = 0; latest = 0; min_seq = 0; max_seq = 0 }

-- `seqcmp(s, t) < 0` and `seqcmp(s, t) > 0`
abbrev pub seq_lt : ℕ → ℕ → Bool
seq_lt s t = elim (seqcmp s t) [ minus ↦ true | _ ↦ false ]

abbrev pub seq_gt : ℕ → ℕ → Bool
seq_gt s t = elim (seqcmp s t) [ plus ↦ true | _ ↦ false ]

-- Each assignment is under its own test; all of them read the count of before the packet.
unfoldable pub packetdata_arrival : PacketData → ℕ → ℕ → PacketData
packetdata_arrival pd ts seq =
    let first = pd.packet_count == 0 in
    record {
      packet_count = add32 pd.packet_count 1;
      earliest = if first || ltb ts pd.earliest then ts else pd.earliest;
      latest = if first || ltb pd.latest ts then ts else pd.latest;
      min_seq = if first || seq_lt seq pd.min_seq then seq else pd.min_seq;
      max_seq = if first || seq_gt seq pd.max_seq then seq else pd.max_seq;
    }

-- The macros `min` and `max` of datatypes.h.
abbrev pub min : ℕ → ℕ → ℕ
min x y = if leb x y then x else y

abbrev pub max : ℕ → ℕ → ℕ
max x y = if leb y x then x else y

unfoldable pub packetdata_accumulate : PacketData → PacketData → PacketData
packetdata_accumulate accum unit =
    let fresh = accum.packet_count == 0 in
    record {
      packet_count = add32 accum.packet_count unit.packet_count;
      earliest = if accum.earliest == 0 then unit.earliest else min accum.earliest unit.earliest;
      latest = max accum.latest unit.latest;
      min_seq = if fresh || seq_lt unit.min_seq accum.min_seq then unit.min_seq else accum.min_seq;
      max_seq = if fresh || seq_gt unit.max_seq accum.max_seq then unit.max_seq else accum.max_seq;
    }

-- The macro `packetdata_a2r` copies the record.
unfoldable pub packetdata_a2r : PacketData → PacketData
packetdata_a2r from = from
