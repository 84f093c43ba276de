-- ===== src/Loss/Report.antt =====
-- `lossdata_a2r` and the two functions that link the ranges for it. The chain of `next_r` is the list
-- `ldr.ranges`; the ranges themselves are shared with the aggregator's lists.
use estimators.Prelude.{
  ℕ, zero, suc, ◌-◌, Bool, true, false, ◌&&◌, if◌then◌else◌, List, [], ◌∷◌, Option, none, some,
  ◌>>=◌,
}
use estimators.FlowState.{flowstate_beginp}
use estimators.Seqno.{Sign}
use estimators.Ranges.{Store, write, single_range, ArrivalPeriod, arr_past, arr_future}
use estimators.Loss.{LossDataA, LossDataR, LossState}
use estimators.Loss.Compute.{lossdata_a2r_compute, clean_ranges}

-- Every range of the present is reset; `next_r` becomes `next`.
unfoldable pub lossdata_a2r_begin : Store → LossDataR → LossDataA → Store × LossDataR
unfolding clean_ranges
lossdata_a2r_begin h ldr lda = (clean_ranges h lda.ranges, record ldr { ranges = lda.ranges })

unfoldable pub lossdata_a2r_add : Store × LossDataR → ℕ → ArrivalPeriod → Store × LossDataR
lossdata_a2r_add (h, ldr) r arr = (
  write h r (record (h r) { wraparound = 0; arrival_period = arr }),
  record ldr { ranges = r ∷ ldr.ranges },
)

-- The ranges of one later period.
unfoldable pub add_future : Store × LossDataR → List ℕ → Store × LossDataR
unfolding lossdata_a2r_add
add_future linked [] = linked
add_future linked (r ∷ rs) = add_future (lossdata_a2r_add linked r arr_future) rs

-- `hashmap_retrieve` in each later period's map gives its ranges, if the key is there; `rounds` is
-- `periods_to_wait - 1`, none for 0.
unfoldable pub link_future : ℕ → Store × LossDataR → List (Option (List ℕ)) → Store × LossDataR
unfolding add_future
link_future zero linked future = linked
link_future (suc rounds) linked [] = linked
link_future (suc rounds) linked (none ∷ future) = link_future rounds linked future
link_future (suc rounds) linked (some rs ∷ future) =
    link_future rounds (add_future linked rs) future

-- `past` is the address of the local `past_seqno`.
unfoldable pub add_past : ℕ → Store × LossDataR → LossDataA → LossState → Store × LossDataR
unfolding lossdata_a2r_add
add_past past (h, ldr) lda lstate =
    if flowstate_beginp lda.flowstate && lstate.has_high_seqno
    then lossdata_a2r_add (write h past (single_range lstate.high_seqno), ldr) past arr_past
    else (h, ldr)

-- `lstate->has_high_seqno` and `lstate->high_seqno`, by what `lossdata_a2r_compute` returned.
unfoldable pub note_high : LossState → Option ℕ → LossState
note_high lstate none = record lstate { has_high_seqno = false }
note_high lstate (some present_high) = record lstate {
  has_high_seqno = true;
  high_seqno = present_high;
}

module _ (qsort : (ℕ → ℕ → Sign) → List ℕ → List ℕ) (calloc : ℕ → Bool) where
  unfoldable pub lossdata_a2r :
      ℕ
      → Store
      → LossDataR
      → LossDataA
      → LossState
      → List (Option (List ℕ))
      → ℕ
      → Option (Store × LossDataR × LossState)
  unfolding lossdata_a2r_begin link_future add_past note_high
  lossdata_a2r past h ldr lda lstate future periods_to_wait = do
    let (h', begun) = lossdata_a2r_begin h ldr lda
    let present = add_past past (h', record begun { flowstate = lda.flowstate }) lda lstate
    let (h'', linked) = link_future (periods_to_wait - 1) present future
    done ← lossdata_a2r_compute qsort calloc h'' linked lstate
    some (done.store, done.ldr, note_high done.state done.present_high)
