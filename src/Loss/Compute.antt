-- ===== src/Loss/Compute.antt =====
-- `rangecmp`, `lossdata_a2r_compute` and `lossdata_a2r`. `qsort` is the C library's, a parameter.
use estimators.Prelude.{
  ℕ, ◌+◌, ◌-◌, ◌^◌, ◌/◌, Bool, true, false, not, ltb, leb, ◌==◌, if◌then◌else◌, List, [], ◌∷◌,
  Option, none, some, ◌>>=◌, length, get_elem?, sub32,
}
use estimators.Seqno.{Sign, minus, null, plus}
use estimators.Ranges.{
  SeqnoRange, Store, write, single_range, ArrivalPeriod, arr_past, arr_present, arr_future,
}
use estimators.Loss.{LossDataR, LossState}
use estimators.Loss.Tally.{tally_ranges}

-- An unsigned difference returned as an `int`.
abbrev pub int_sign : ℕ → Sign
int_sign d = if d == 0 then null else if ltb d (2 ^ 31) then plus else minus

unfoldable pub rangecmp : SeqnoRange → SeqnoRange → Sign
rangecmp rx ry =
    if rx.wraparound == ry.wraparound
    then int_sign (sub32 rx.low ry.low)
    else int_sign (sub32 ry.wraparound rx.wraparound)

abbrev pub is_past : ArrivalPeriod → Bool
is_past arr_past = true
is_past _ = false

abbrev pub is_future : ArrivalPeriod → Bool
is_future arr_future = true
is_future _ = false

-- `WRAPAROUND / 2`, of `((SEQNO) 1) << (sizeof(SEQNO) * 4)`.
abbrev pub half_wraparound : ℕ
half_wraparound = 2 ^ 16 / 2

-- The loop that detects wraparound: it marks ranges up to the first wide gap, and tells whether
-- there was one.
unfoldable pub mark_wraparound : Store → List ℕ → Store × Bool
mark_wraparound h [] = (h, false)
mark_wraparound h (p ∷ []) = (write h p (record (h p) { wraparound = 1 }), false)
mark_wraparound h (p ∷ q ∷ ps) =
    let h' = write h p (record (h p) { wraparound = 1 }) in
    let rest = mark_wraparound h' (q ∷ ps) in
    if ltb half_wraparound (sub32 (h' q).low (h' p).high) then (h', true) else rest

-- The loop that finds `begin` and `end`.
unfoldable pub find_bounds : Store → List ℕ → ℕ → ℕ × ℕ → ℕ × ℕ
find_bounds h [] i found = found
find_bounds h (p ∷ ps) i (begin, end) = find_bounds h ps (i + 1) (
  if is_past (h p).arrival_period then i + 1 else begin,
  if is_future (h p).arrival_period then end else i,
)

-- `for (r = ldr->ranges.head; r; r = r->next_r)` of the clean-up: as it sets `r->next_r` to NULL
-- before it goes on to it, it cleans the first range only.
unfoldable pub clean_first : Store → List ℕ → Store
clean_first h [] = h
clean_first h (p ∷ ps) = write h p (record (h p) { wraparound = 0; arrival_period = arr_present })

-- The loop of `lossdata_a2r_begin` over the ranges of the period.
unfoldable pub clean_ranges : Store → List ℕ → Store
clean_ranges h [] = h
clean_ranges h (p ∷ ps) =
    clean_ranges (write h p (record (h p) { wraparound = 0; arrival_period = arr_present })) ps

-- What the function leaves behind: its result with `*present_high`, if that is set.
pub record Computed : Type 0 where
  pub present_high : Option ℕ
  pub store : Store
  pub ldr : LossDataR
  pub state : LossState

-- `if (!state->has_last_range)`: the packet just before the first range counts as received. Only
-- then is `array[begin]` read; `none` is a read past the array.
unfoldable pub start_state : Store → LossState → List ℕ → ℕ → Option LossState
start_state h state array begin =
    if state.has_last_range then some state else elim (get_elem? array begin) [
      | none ↦ none
      | some p ↦
          some
            (record state { has_last_range = true; last_range = single_range (sub32 (h p).low 1) })
    ]

-- From the choice of the first base to the end: the loop and the clean-up.
unfoldable pub compute_from : Store → LossDataR → LossState → List ℕ → ℕ → ℕ → Option Computed
unfolding start_state clean_first
compute_from h ldr state array begin end = do
  started ← start_state h state array begin
  t ←
      tally_ranges started.last_range.high array (end + 1 - begin) begin
        (record { store = h; ldr = ldr; prev = started.last_range })
  last ← get_elem? array end
  some (record {
    present_high = some (t.store last).high;
    store = clean_first t.store ldr.ranges;
    ldr = record (t.ldr) { ranges = [] };
    state = record started { last_range = t.prev };
  })

-- `calloc` tells of a number of ranges whether the array that was kept is large enough for them, or
-- else `calloc` gives one; without, the array is written through NULL.
module _ (qsort : (ℕ → ℕ → Sign) → List ℕ → List ℕ) (calloc : ℕ → Bool) where
  abbrev pub sort_ranges : Store → List ℕ → List ℕ
  sort_ranges h = qsort (λ p q. rangecmp (h p) (h q))

  -- The sorted array, with the second sort if a wide gap was found.
  unfoldable pub sorted_array : Store → List ℕ → Store × List ℕ
  unfolding mark_wraparound rangecmp
  sorted_array h ranges =
      let array = sort_ranges h ranges in
      let (h', wide) = mark_wraparound h array in (h', if wide then sort_ranges h' array else array)

  unfoldable pub lossdata_a2r_compute : Store → LossDataR → LossState → Option Computed
  unfolding sorted_array find_bounds compute_from
  lossdata_a2r_compute h ldr state =
      let n = length ldr.ranges in
      let (h', array) = sorted_array h ldr.ranges in
      let (begin, end) = find_bounds h' array 0 (0, n) in
      if n == 0
      then some (record { present_high = none; store = h; ldr = ldr; state = state })
      else if not (calloc n)
      then none
      else if leb n end
      then some (record { present_high = none; store = h'; ldr = ldr; state = state })
      else compute_from h' ldr state array begin end
