-- ===== src/Tests/Losses.antt =====
-- Runs of the loss data.
use mathlib.Core.List.Permᴰ
use estimators.Prelude.{
  ℕ, zero, suc, ◌≡◌, refl, arith, List, [], ◌∷◌, ◌++◌, map, some, length, true,
}
use estimators.FlowState.{fs_null}
use estimators.Ranges.{SeqnoRange, Store, arr_past}
use estimators.Ranges.Spans.{sequence}
use estimators.Loss.{LossDataA, LossState, no_loss}
use estimators.Loss.Arrival.{IsRecord, arrivals, arrivals-sequence}
use estimators.Loss.Tally.{Tally, tally_ranges}
use estimators.Loss.Conservation.{IsAhead}
use estimators.Loss.Report.{lossdata_a2r}
use estimators.Loss.Total.{HasBase, lossdata_a2r-HasBase}
use estimators.Reorder.Containers.{Given}
use estimators.Loss.Coverage.{Counted, tally_ranges-Counted}

abbrev range : ℕ → ℕ → SeqnoRange
range low high = record { low = low; high = high; wraparound = 0; arrival_period = arr_past }

-- The range at address 0 is 3 to 5, at any other address 4 to 9.
abbrev store : Store
store zero = range 3 5
store (suc p) = range 4 9

abbrev one_range : LossDataA
one_range = record { ranges = 0 ∷ []; flowstate = fs_null }

abbrev empty : LossDataA
empty = record { ranges = []; flowstate = fs_null }

one_range-IsRecord : IsRecord store (0 ∷ [])
one_range-IsRecord = record {
  distinct = (tt, tt);
  ranges = (record { ordered = omega arith; fits = omega arith }, tt);
}

empty-IsRecord : IsRecord store []
empty-IsRecord = record { distinct = tt; ranges = tt }

abbrev no_free : List ℕ
no_free = []

arrivals-sequence_example :
    (r : Store × LossDataA × List ℕ) × (arrivals store empty (8 ∷ 9 ∷ 2 ∷ []) (4 ∷ 5 ∷ 6 ∷ [])
      ≡ some r)
    × (sequence r.0 r.1.ranges ≡ [] ++ 8 ∷ 9 ∷ 2 ∷ [])
arrivals-sequence_example =
    arrivals-sequence (8 ∷ 9 ∷ 2 ∷ []) store empty (4 ∷ 5 ∷ 6 ∷ [])
      (omega arith, (omega arith, (omega arith, tt))) empty-IsRecord (tt, (tt, (tt, tt)))
      ((ground arith, (ground arith, tt)), ((ground arith, tt), (tt, tt))) (omega arith)

abbrev before : Tally
before = record { store = store; ldr = no_loss; prev = range 0 1 }

zero-IsAhead : IsAhead 1 (range 0 1) (range 3 5)
zero-IsAhead = record {
  reached = omega arith;
  above = omega arith;
  ordered = omega arith;
  fits = omega arith;
  prev_fits = omega arith;
}

abbrev two : List ℕ
two = 0 ∷ 1 ∷ []

-- The two ranges overlap, and 2 is missing before them.
tally_ranges-Counted_example :
    (t' : Tally) × (tally_ranges 1
        (no_free ++ (two ++ no_free))
        (length two)
        (length no_free)
        before
      ≡ some t')
    × Counted before t' (map store two)
tally_ranges-Counted_example =
    tally_ranges-Counted no_free two no_free 1 1 before ((ground arith, tt), (tt, tt)) (omega arith)
      (omega arith) (omega arith)
      (
        record { ordered = omega arith; fits = omega arith },
        omega arith,
        (record { ordered = omega arith; fits = omega arith }, omega arith, tt),
      )

-- The stream has seen up to 1, and a later period has the range at 1.
abbrev seen : LossState
seen = record {
  has_high_seqno = true;
  high_seqno = 1;
  has_last_range = true;
  last_range = range 0 1;
}

lossdata_a2r-HasBase_example :
    Given
      (λ r. HasBase r.2)
      (lossdata_a2r
        (λ cmp xs. xs)
        (λ n. true)
        9
        store
        no_loss
        one_range
        seen
        (some (1 ∷ []) ∷ [])
        2)
lossdata_a2r-HasBase_example =
    lossdata_a2r-HasBase (λ cmp xs. xs) (record { permutes = λ cmp xs. Permᴰ.refl xs }) (λ n. true)
      (λ n. refl) 9 store no_loss one_range seen (some (1 ∷ []) ∷ []) 2 (λ e. refl)
