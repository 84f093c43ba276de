-- ===== src/Packet/Extent.antt =====
-- The extremes of a set of packets on the unwrapped line, and how the record of packetdata.c stands for
-- them.
use estimators.Prelude.{ℕ, ◌+◌, ◌^◌, ◌%◌, ◌<◌, ◌≡◌, refl, arith, ltb, ◌==◌, if◌then◌else◌, false}
use estimators.Seqno.{seqcmp}
use estimators.Packet.{
  PacketData, seq_lt, seq_gt, min, max, packetdata_arrival, packetdata_accumulate,
}

-- A packet is its time of arrival and the offset of its sequence number from a base.
pub record Packet : Type 0 where
  pub time : ℕ
  pub offset : ℕ

-- Times are positive, and the offsets lie in a window of half the circle.
pub record IsTimely (p : Packet) : Type 0 where
  pub started : 0 < p.time
  pub windowed : p.offset < 2 ^ 31

-- The extremes of the packets seen, without wrap-around and without sequence numbers.
pub record Extent : Type 0 where
  pub count : ℕ
  pub first : ℕ
  pub last : ℕ
  pub low : ℕ
  pub high : ℕ

abbrev pub single : Packet → Extent
single p = record { count = 1; first = p.time; last = p.time; low = p.offset; high = p.offset }

abbrev pub extend : Extent → Packet → Extent
extend e p = record {
  count = e.count + 1;
  first = min e.first p.time;
  last = max e.last p.time;
  low = min e.low p.offset;
  high = max e.high p.offset;
}

abbrev pub join : Extent → Extent → Extent
join d e = record {
  count = d.count + e.count;
  first = min d.first e.first;
  last = max d.last e.last;
  low = min d.low e.low;
  high = max d.high e.high;
}

pub record IsTight (e : Extent) : Type 0 where
  pub seen : 0 < e.count
  pub started : 0 < e.first
  pub lowest : e.low < 2 ^ 31
  pub highest : e.high < 2 ^ 31

-- A choice by a test is the extreme, also under a function.
pick_low {ℓ} : {A : Type ℓ} (f : ℕ → A) (a b : ℕ) → (if ltb a b then f a else f b) ≡ f (min b a)
pick_low f a b = ground arith

pick_high {ℓ} : {A : Type ℓ} (f : ℕ → A) (a b : ℕ) → (if ltb b a then f a else f b) ≡ f (max b a)
pick_high f a b = ground arith

data_path :
    {c d : PacketData}
    → c.packet_count ≡ d.packet_count
    → c.earliest ≡ d.earliest
    → c.latest ≡ d.latest
    → c.min_seq ≡ d.min_seq
    → c.max_seq ≡ d.max_seq
    → c ≡ d
data_path p q r s t = ground arith

counted : (n : ℕ) → 0 < n → n < 2 ^ 32 → ((n % 2 ^ 32) == 0) ≡ false
counted n h k = ground arith

module _ (base : ℕ) where
  abbrev pub seq_at : ℕ → ℕ
  seq_at o = (base + o) % 2 ^ 32

  -- The record that stands for an extent.
  abbrev pub data_of : Extent → PacketData
  data_of e = record {
    packet_count = e.count % 2 ^ 32;
    earliest = e.first;
    latest = e.last;
    min_seq = seq_at e.low;
    max_seq = seq_at e.high;
  }

  pub seq_lt_offsets : (i j : ℕ) → i < 2 ^ 31 → j < 2 ^ 31 → seq_lt (seq_at i) (seq_at j) ≡ ltb i j
  unfolding seqcmp
  seq_lt_offsets i j hi hj = ground arith

  pub seq_gt_offsets : (i j : ℕ) → i < 2 ^ 31 → j < 2 ^ 31 → seq_gt (seq_at i) (seq_at j) ≡ ltb j i
  unfolding seqcmp
  seq_gt_offsets i j hi hj = ground arith

  pub arrival-extend :
      (e : Extent) (p : Packet)
      → IsTight e
      → IsTimely p
      → e.count < 2 ^ 32
      → packetdata_arrival (data_of e) p.time (seq_at p.offset) ≡ data_of (extend e p)
  unfolding packetdata_arrival
  arrival-extend e p t w small =
      rw
        (
          counted e.count t.seen small,
          seq_lt_offsets p.offset e.low w.windowed t.lowest,
          seq_gt_offsets p.offset e.high w.windowed t.highest,
        )
        (data_path (omega arith) (pick_low (λ x. x) p.time e.first)
          (pick_high (λ x. x) p.time e.last) (pick_low seq_at p.offset e.low)
          (pick_high seq_at p.offset e.high))

  pub accumulate-join :
      (d e : Extent)
      → IsTight d
      → IsTight e
      → d.count < 2 ^ 32
      → packetdata_accumulate (data_of d) (data_of e) ≡ data_of (join d e)
  unfolding packetdata_accumulate
  accumulate-join d e s t small =
      rw
        (
          counted d.count s.seen small,
          seq_lt_offsets e.low d.low t.lowest s.lowest,
          seq_gt_offsets e.high d.high t.highest s.highest,
        )
        (data_path (omega arith) (ground arith) refl (pick_low seq_at e.low d.low)
          (pick_high seq_at e.high d.high))
