-- ===== src/Loss/Total.antt =====
-- `lossdata_a2r` reads inside its array and comes to an end, with memory for the array and for every
-- outcome of the sort.
use mathlib.Core.List.{Permᴰ}
use estimators.Prelude.{
  ℕ, zero, suc, ◌+◌, ◌-◌, ◌≤◌, ◌<◌, ◌≡◌, ◌⊎◌, inl, inr, refl, ap, arith, Bool, true, ◌&&◌, ◌==◌,
  leb, if_true, if_split, get_elem?-some, Bool-cases, List, [], ◌∷◌, All, All-map, Option, none,
  some, ◌>>=◌, length,
}
use estimators.Seqno.{Sign}
use estimators.FlowState.{flowstate_beginp}
use estimators.Ranges.{Store, arr_future}
use estimators.Reorder.Containers.{Given}
use estimators.Loss.{LossDataA, LossDataR, LossState}
use estimators.Loss.Tally.{Tally, tally_range, tally_ranges}
use estimators.Loss.Compute.{
  Computed, is_past, mark_wraparound, find_bounds, clean_ranges, start_state, compute_from,
  rangecmp, sort_ranges, sorted_array, lossdata_a2r_compute,
}
use estimators.Loss.Report.{
  lossdata_a2r_begin, lossdata_a2r_add, add_future, link_future, add_past, note_high, lossdata_a2r,
}
use estimators.Loss.Sort.{
  IsQsort, length-perm, All-perm, NotPast, find_bounds-begin, write-NotPast, write_self,
  mark-NotPast, clean-present,
}

-- A stream whose highest number of the period before is known has a range to go on from.
abbrev pub HasBase : LossState → Type 0
HasBase s = s.has_high_seqno ≡ true → s.has_last_range ≡ true

abbrev Linked : Store × LossDataR → Type 0
Linked x = All (NotPast x.0) x.1.ranges

add_future-Linked : (rs : List ℕ) (x : Store × LossDataR) → Linked x → Linked (add_future x rs)
unfolding add_future lossdata_a2r_add
add_future-Linked [] x v = v
add_future-Linked (r ∷ rs) x v =
    let later = record (x.0 r) { wraparound = 0; arrival_period = arr_future } in
    add_future-Linked rs (lossdata_a2r_add x r arr_future) (
      ap (λ s. is_past s.arrival_period) (write_self x.0 r later),
      All-map x.1.ranges (λ q. write-NotPast x.0 r later q (λ m. refl)) v,
    )

link_future-Linked :
    (rounds : ℕ) (x : Store × LossDataR) (future : List (Option (List ℕ)))
    → Linked x
    → Linked (link_future rounds x future)
unfolding link_future
link_future-Linked zero x future v = v
link_future-Linked (suc rounds) x [] v = v
link_future-Linked (suc rounds) x (none ∷ future) v = link_future-Linked rounds x future v
link_future-Linked (suc rounds) x (some rs ∷ future) v =
    link_future-Linked rounds (add_future x rs) future (add_future-Linked rs x v)

tally-some :
    (rounds base i : ℕ) (array : List ℕ) (t : Tally)
    → rounds ≤ length array - i
    → (t' : Tally) × (tally_ranges base array rounds i t ≡ some t')
unfolding tally_ranges
tally-some zero base i array t h = (t, refl)
tally-some (suc rounds) base i array t h =
    let (p, e) = get_elem?-some array i (omega arith) in
    let (t', f) = tally-some rounds base (i + 1) array (tally_range base t p) (omega arith) in
    (t', rw (e, tally_ranges) f)

-- What the computation ends in: no range of the present, or a range to go on from.
abbrev Based : Computed → Type 0
Based c = (c.present_high ≡ none) ⊎ (c.state.has_last_range ≡ true)

start-Given :
    (h : Store) (state : LossState) (array : List ℕ) (begin : ℕ)
    → (state.has_last_range ≡ true) ⊎ (begin < length array)
    → Given (λ s. s.has_last_range ≡ true) (start_state h state array begin)
unfolding start_state
start-Given h state array begin v = elim (Bool-cases state.has_last_range) [
  | inl e ↦ rw (if_true state.has_last_range (some state) _ e) e
  | inr e ↦ let (p, f) = get_elem?-some array begin (ground (arith, v, e)) in rw (e, f) refl
]

pub Given-bind {ℓ κ} :
    {A : Type ℓ} {B : Type κ} (P : A → Type 0) (Q : B → Type 0) (m : Option A) (f : A → Option B)
    → Given P m
    → ((a : A) → P a → Given Q (f a))
    → Given Q (m >>= f)
Given-bind P Q (some a) f h k = k a h
Given-bind P Q none f h k = h

compute_from-Based :
    (h : Store) (ldr : LossDataR) (state : LossState) (array : List ℕ) (begin end : ℕ)
    → end < length array
    → (state.has_last_range ≡ true) ⊎ (begin < length array)
    → Given Based (compute_from h ldr state array begin end)
unfolding compute_from
compute_from-Based h ldr state array begin end low v =
    Given-bind (λ s. s.has_last_range ≡ true) Based (start_state h state array begin) _
      (start-Given h state array begin v)
      (λ s based.
        let t₀ : Tally = record { store = h; ldr = ldr; prev = s.last_range } in
        let (t, e) = tally-some (end + 1 - begin) s.last_range.high begin array t₀ (omega arith) in
        let (p, f) = get_elem?-some array end low in rw (e, f) (inr based))

module _ (qsort : (ℕ → ℕ → Sign) → List ℕ → List ℕ) (sorts : IsQsort qsort) (calloc : ℕ → Bool)
    (memory : (n : ℕ) → calloc n ≡ true) where
  sorted_array-perm :
      (h : Store) (ranges : List ℕ) → Permᴰ ranges (sorted_array qsort calloc h ranges).1
  unfolding sorted_array
  sorted_array-perm h ranges =
      let array = sort_ranges qsort calloc h ranges in
      let (h', wide) = mark_wraparound h array in
      let once = IsQsort.permutes sorts (λ p q. rangecmp (h p) (h q)) ranges in
      let again = IsQsort.permutes sorts (λ p q. rangecmp (h' p) (h' q)) array in
      if_split (Permᴰ ranges) wide (sort_ranges qsort calloc h' array) array
        (λ e. Permᴰ.trans once again) (λ e. once)

  sorted_array-NotPast :
      (h : Store) (ranges : List ℕ) (q : ℕ)
      → NotPast h q
      → NotPast (sorted_array qsort calloc h ranges).0 q
  unfolding sorted_array
  sorted_array-NotPast h ranges q n = mark-NotPast h (sort_ranges qsort calloc h ranges) q n

  -- With a base, or with no range of the past, the first read of the array is within it.
  begins :
      (h : Store) (ranges : List ℕ) (state : LossState)
      → (state.has_last_range ≡ true) ⊎ All (NotPast h) ranges
      → 0 < length ranges
      → let array = (sorted_array qsort calloc h ranges).1 in
        let begin =
          (find_bounds (sorted_array qsort calloc h ranges).0 array 0 (0, length ranges)).0 in
        (state.has_last_range ≡ true) ⊎ (begin < length array)
  begins h ranges state (inl based) some_left = inl based
  begins h ranges state (inr present) some_left =
      let d = sorted_array-perm h ranges in
      let (h', array) = sorted_array qsort calloc h ranges in
      let at_first =
        find_bounds-begin (sorted_array qsort calloc h ranges).0
          (sorted_array qsort calloc h ranges).1 0 0 (length ranges)
          (All-map (sorted_array qsort calloc h ranges).1 (sorted_array-NotPast h ranges)
            (All-perm (NotPast h) d present)) in
      inr (omega (arith, at_first, length-perm d))

  compute-Based :
      (h : Store) (ldr : LossDataR) (state : LossState)
      → (state.has_last_range ≡ true) ⊎ All (NotPast h) ldr.ranges
      → Given Based (lossdata_a2r_compute qsort calloc h ldr state)
  unfolding lossdata_a2r_compute
  compute-Based h ldr state v =
      let n = length ldr.ranges in
      let h' = (sorted_array qsort calloc h ldr.ranges).0 in
      let array = (sorted_array qsort calloc h ldr.ranges).1 in
      let same = length-perm (sorted_array-perm h ldr.ranges) in
      let bounds = find_bounds h' array 0 (0, n) in
      if_split (Given Based) (n == 0) _ _ (λ e. inl refl)
        (λ nonempty. rw (memory n) (
          if_split (Given Based) (leb n bounds.1) _ _ (λ e. inl refl)
            (λ below.
              compute_from-Based h' ldr state array bounds.0 bounds.1 (ground (arith, below, same))
                (begins h ldr.ranges state v (ground (arith, nonempty))))))

  -- A past range is only added for a stream that has a base.
  past-Linked :
      (past : ℕ) (h : Store) (ldr : LossDataR) (lda : LossDataA) (state : LossState)
      → HasBase state
      → Linked (h, ldr)
      → (state.has_last_range ≡ true) ⊎ Linked (add_past past (h, ldr) lda state)
  unfolding add_past
  past-Linked past h ldr lda state based v = elim (Bool-cases state.has_high_seqno) [
    | inl e ↦ inl (based e)
    | inr e ↦ inr (
        if_split Linked (flowstate_beginp lda.flowstate && state.has_high_seqno) _ (h, ldr)
          (λ both. absurd (ground (arith, both, e))) (λ unknown. v))
  ]

  noted-HasBase :
      (state : LossState) (high : Option ℕ)
      → (high ≡ none) ⊎ (state.has_last_range ≡ true)
      → HasBase (note_high state high)
  unfolding note_high
  noted-HasBase state none v e = absurd (cc e)
  noted-HasBase state (some high) v e = ground (arith, v)

  -- Whatever ranges the stream has in this period and the later ones, however they are sorted and
  -- whatever the number of periods to wait, a report of the loss reads inside its array and gives a
  -- result, if the stream has a range to go on from whenever its highest number is known; and then so
  -- it is again after the report. `qsort` permutes, and there is memory for the array.
  pub lossdata_a2r-HasBase :
      (past : ℕ) (h : Store) (ldr : LossDataR) (lda : LossDataA) (state : LossState)
      (future : List (Option (List ℕ))) (periods_to_wait : ℕ)
      → HasBase state
      → Given
          (λ r. HasBase r.2)
          (lossdata_a2r qsort calloc past h ldr lda state future periods_to_wait)
  unfolding lossdata_a2r lossdata_a2r_begin
  lossdata_a2r-HasBase past h ldr lda state future periods_to_wait based =
      let h' = clean_ranges h lda.ranges in
      let begun = record ldr { ranges = lda.ranges; flowstate = lda.flowstate } in
      let present = add_past past (h', begun) lda state in
      let linked = link_future (periods_to_wait - 1) present future in
      let v : (state.has_last_range ≡ true) ⊎ Linked linked =
        elim (past-Linked past h' begun lda state based (clean-present lda.ranges h)) [
          | inl e ↦ inl e
          | inr all ↦ inr (link_future-Linked (periods_to_wait - 1) present future all)
        ] in
      Given-bind Based (λ r. HasBase r.2)
        (lossdata_a2r_compute qsort calloc linked.0 linked.1 state) _
        (compute-Based linked.0 linked.1 state v) (λ c b. noted-HasBase c.state c.present_high b)
