-- ===== src/Loss.antt =====
-- lossdata.h and lossdata.c: the ranges of sequence numbers that arrive, and the loss they show.
pub mod Arrival
pub mod Tally
pub mod Conservation
pub mod Coverage
pub mod Compute
pub mod Report
pub mod Sort
pub mod Total
use estimators.Prelude.{
  ℕ, zero, suc, ◌+◌, ◌-◌, ◌^◌, ◌%◌, Bool, true, false, not, ◌&&◌, ◌||◌, ltb, leb, ◌==◌,
  if◌then◌else◌, List, [], ◌∷◌, Option, none, some, add32, sub32,
}
use estimators.FlowState.{FlowState, flowstate_packet, flowstate_concatenate, flowstate_error}
use estimators.Packet.{min, max}
use estimators.Ranges.{SeqnoRange, Store, write, single_range, take_range}

pub record LossDataA : Type 0 where
  pub ranges : List ℕ
  pub flowstate : FlowState

pub record LossDataR : Type 0 where
  pub ranges : List ℕ
  pub flowstate : FlowState
  pub badflows : ℕ
  pub received : ℕ
  pub dropped : ℕ
  pub consecutive_drops : ℕ
  pub gap_total : ℕ
  pub gap_count : ℕ
  pub gap_min : ℕ
  pub gap_max : ℕ

pub record LossState : Type 0 where
  pub has_high_seqno : Bool
  pub high_seqno : ℕ
  pub has_last_range : Bool
  pub last_range : SeqnoRange

-- `memset(..., 0, ...)`
abbrev pub no_loss : LossDataR
no_loss = record {
  ranges = [];
  flowstate = FlowState.fs_null;
  badflows = 0;
  received = 0;
  dropped = 0;
  consecutive_drops = 0;
  gap_total = 0;
  gap_count = 0;
  gap_min = 0;
  gap_max = 0;
}

abbrev pub fresh_state : LossState
fresh_state = record {
  has_high_seqno = false;
  high_seqno = 0;
  has_last_range = false;
  last_range = single_range 0;
}

-- `lda->ranges.head && lda->ranges.head->high == seqno - 1 && seqno != 0`
unfoldable pub continues : Store → List ℕ → ℕ → Bool
continues h [] seqno = false
continues h (p ∷ ps) seqno = (h p).high == sub32 seqno 1 && not (seqno == 0)

abbrev extend_head : Store → List ℕ → ℕ → Store
extend_head h [] seqno = h
extend_head h (p ∷ ps) seqno = write h p (record (h p) { high = seqno })

-- `none` is the return of -1, which leaves everything as it was.
unfoldable pub lossdata_arrival :
    Option ℕ → Store → LossDataA → ℕ → List ℕ → Option (Store × LossDataA × List ℕ)
unfolding continues
lossdata_arrival malloc h lda seqno free =
    if continues h lda.ranges seqno
    then some (
      extend_head h lda.ranges seqno,
      record lda { flowstate = flowstate_packet lda.flowstate },
      free,
    )
    else elim (take_range malloc free) [
      | none ↦ none
      | some (p, rest) ↦ some (
        write h p (single_range seqno),
        record { ranges = p ∷ lda.ranges; flowstate = flowstate_packet lda.flowstate },
        rest,
      )
    ]

-- The static `lossdata_accumulate`; the `memcpy` takes every field of the unit.
unfoldable pub lossdata_accumulate : LossDataR → LossDataR → LossDataR
lossdata_accumulate accum unit =
    let counted = not (add32 accum.received accum.dropped == 0) in
    let news = not (add32 unit.received unit.dropped == 0) in
    if counted && news
    then record accum {
      received = add32 accum.received unit.received;
      dropped = add32 accum.dropped unit.dropped;
      consecutive_drops = add32 accum.consecutive_drops unit.consecutive_drops;
      gap_total = add32 accum.gap_total unit.gap_total;
      gap_count = add32 accum.gap_count unit.gap_count;
      gap_min = min accum.gap_min unit.gap_min;
      gap_max = max accum.gap_max unit.gap_max;
    }
    else if news
    then unit
    else accum

-- The assignment of the flow state reads `accum` after the `memcpy`.
unfoldable pub lossdata_accumulate_time : LossDataR → LossDataR → LossDataR
unfolding lossdata_accumulate
lossdata_accumulate_time accum unit =
    let done = lossdata_accumulate accum unit in
    record done { flowstate = flowstate_concatenate done.flowstate unit.flowstate }

unfoldable pub lossdata_accumulate_flows : LossDataR → LossDataR → LossDataR
unfolding lossdata_accumulate
lossdata_accumulate_flows accum unit =
    if flowstate_error unit.flowstate
    then record accum { badflows = add32 accum.badflows 1 }
    else lossdata_accumulate accum unit
