-- ===== src/Loss/Tally.antt =====
-- The loop of `lossdata_a2r_compute` over the sorted ranges.
use estimators.Prelude.{
  ℕ, zero, suc, ◌+◌, ◌-◌, ◌&&◌, ◌||◌, Bool, ltb, leb, ◌==◌, if◌then◌else◌, List, Option, none, some,
  get_elem?, add32, sub32,
}
use estimators.Packet.{min}
use estimators.Seqno.{modular_distance}
use estimators.Ranges.{SeqnoRange, Store, write}
use estimators.Loss.{LossDataR}

-- What the loop changes: the ranges, the tallies and `state->last_range`.
pub record Tally : Type 0 where
  pub store : Store
  pub ldr : LossDataR
  pub prev : SeqnoRange

-- `ldr->received += recd` down to `ldr->gap_count++`.
unfoldable pub add_gap : LossDataR → ℕ → ℕ → LossDataR
add_gap ldr recd gap = record ldr {
  received = add32 ldr.received recd;
  dropped = add32 ldr.dropped gap;
  consecutive_drops =
      if ltb 1 gap then add32 ldr.consecutive_drops (gap - 1) else ldr.consecutive_drops;
  gap_min = if ltb 0 gap && (ldr.gap_count == 0 || ltb gap ldr.gap_min) then gap else ldr.gap_min;
  gap_max = if ltb 0 gap && (ldr.gap_count == 0 || ltb ldr.gap_max gap) then gap else ldr.gap_max;
  gap_total = if ltb 0 gap then add32 ldr.gap_total gap else ldr.gap_total;
  gap_count = if ltb 0 gap then add32 ldr.gap_count 1 else ldr.gap_count;
}

-- The two corrections of the range: the overlap is cut off, and a wrap to the base is stopped.
unfoldable pub trim : ℕ → SeqnoRange → SeqnoRange → SeqnoRange
trim base prev r =
    let low =
      if leb (modular_distance base r.low) (modular_distance base prev.high)
      then add32 (min r.high prev.high) 1
      else r.low in
    record r { low = low; high = if ltb r.high low then sub32 base 1 else r.high }

-- The overlapping range that ends by the end of the previous one is skipped.
unfoldable pub is_subsumed : ℕ → SeqnoRange → SeqnoRange → Bool
is_subsumed base prev r =
    leb (modular_distance base r.low) (modular_distance base prev.high)
    && leb (modular_distance base r.high) (modular_distance base prev.high)

unfoldable pub gap_to : SeqnoRange → SeqnoRange → ℕ
gap_to prev r =
    let distance = modular_distance prev.high r.low in if ltb 0 distance then distance - 1 else 0

-- One round, at the range with address `p`.
unfoldable pub tally_range : ℕ → Tally → ℕ → Tally
tally_range base t p =
    let r = trim base t.prev (t.store p) in
    if is_subsumed base t.prev (t.store p) then t else record {
      store = write t.store p r;
      ldr = add_gap t.ldr (add32 (sub32 r.high r.low) 1) (gap_to t.prev r);
      prev = r;
    }

-- `for (i = begin; i <= end; i++)`, with the rounds that are left; `none` is a read past the array.
unfoldable pub tally_ranges : ℕ → List ℕ → ℕ → ℕ → Tally → Option Tally
tally_ranges base array zero i t = some t
tally_ranges base array (suc rounds) i t = elim (get_elem? array i) [
  | none ↦ none
  | some p ↦ tally_ranges base array rounds (i + 1) (tally_range base t p)
]
