-- ===== src/Loss/Arrival.antt =====
-- The ranges of a period are a lossless record of the sequence numbers that arrived in it.
use mathlib.Core.List.{append_assoc, append-nil}
use estimators.Prelude.{
  ℕ, ◌+◌, ◌^◌, ◌≤◌, ◌<◌, ◌≡◌, ◌↔◌, ◌⊎◌, inl, inr, refl, sym, ap, ◌∙◌, arith, List, [], ◌∷◌, ◌++◌,
  Option, none, some, ◌>>=◌, length, All, true, false, Bool-cases,
}
use estimators.FlowState.{flowstate_packet}
use estimators.Ranges.{SeqnoRange, Store, write, single_range, take_range, Apart, Distinct}
use estimators.Ranges.Spans.{
  span, sequence, IsRange, All-write, sequence-write, write_self, span-extend, span-single,
}
use estimators.Loss.{LossDataA, continues, extend_head, lossdata_arrival}

-- A list as arrivals build it: no range twice, and none that wraps.
pub record IsRecord (h : Store) (ps : List ℕ) : Type 0 where
  pub distinct : Distinct ps
  pub ranges : All (λ p. IsRange (h p)) ps

-- What an arrival has done with the list: one number more at the end, and one event more.
pub record Recorded (h : Store) (lda : LossDataA) (seqno : ℕ) (h' : Store) (lda' : LossDataA)
    : Type 0 where
  pub appended : sequence h' lda'.ranges ≡ sequence h lda.ranges ++ seqno ∷ []
  pub valid : IsRecord h' lda'.ranges
  pub observed : lda'.flowstate ≡ flowstate_packet lda.flowstate

head-extended :
    (h : Store) (ps : List ℕ) (seqno : ℕ)
    → seqno < 2 ^ 32
    → IsRecord h ps
    → continues h ps seqno ≡ true
    → (sequence (extend_head h ps seqno) ps ≡ sequence h ps ++ seqno ∷ [])
      × IsRecord (extend_head h ps seqno) ps
unfolding continues
head-extended h [] seqno lt v c = cc
head-extended h (p ∷ ps) seqno lt v c =
    let r : SeqnoRange = record (h p) { high = seqno } in
    let next : seqno ≡ (h p).high + 1 = ground (arith, v.ranges.0) in
    (
      rw
          (
            sequence-write h p r ps v.distinct.0,
            write_self h p r,
            span-extend (h p) seqno v.ranges.0.ordered next,
          )
          (sym (append_assoc (sequence h ps) (span (h p)) (seqno ∷ []))),
      record {
        distinct = v.distinct;
        ranges = (
          rw (write_self h p r) (omega (arith, v.ranges.0)),
          All-write IsRange h p r ps v.distinct.0 v.ranges.1,
        );
      },
    )

fresh-added :
    (h : Store) (ps : List ℕ) (seqno p : ℕ)
    → seqno < 2 ^ 32
    → IsRecord h ps
    → Apart p ps
    → let h' = write h p (single_range seqno) in
      (sequence h' (p ∷ ps) ≡ sequence h ps ++ seqno ∷ []) × IsRecord h' (p ∷ ps)
fresh-added h ps seqno p lt v a =
    let r = single_range seqno in
    (
      rw (sequence-write h p r ps a, write_self h p r, span-single r refl),
      record {
        distinct = (a, v.distinct);
        ranges = (rw (write_self h p r) (omega arith), All-write IsRange h p r ps a v.ranges);
      },
    )

-- With a range to take, from the free list or from `malloc`, that is not in the record yet, an arrival
-- succeeds: it appends its sequence number to the record, keeps the ranges apart and free of
-- wrap-around, counts as one packet for the flow state, and takes the range or leaves the free list.
arrival-Recorded :
    (malloc : Option ℕ) (h : Store) (lda : LossDataA) (seqno : ℕ) (free : List ℕ) (p : ℕ)
    (rest : List ℕ)
    → seqno < 2 ^ 32
    → IsRecord h lda.ranges
    → take_range malloc free ≡ some (p, rest)
    → Apart p lda.ranges
    → (r : Store × LossDataA × List ℕ) × (lossdata_arrival malloc h lda seqno free ≡ some r)
      × Recorded h lda seqno r.0 r.1
      × (((r.1.ranges ≡ lda.ranges) × (r.2 ≡ free))
          ⊎ ((r.1.ranges ≡ p ∷ lda.ranges) × (r.2 ≡ rest)))
unfolding lossdata_arrival
arrival-Recorded malloc h lda seqno free p rest lt v took apart =
    elim (Bool-cases (continues h lda.ranges seqno)) [
      | inl more ↦
          let (appended, valid) = head-extended h lda.ranges seqno lt v more in
          (
            (_, _, _),
            rw more,
            record { appended = appended; valid = valid; observed = refl },
            inl (refl, refl),
          )
      | inr new ↦
          let (appended, valid) = fresh-added h lda.ranges seqno p lt v apart in
          (
            (_, _, _),
            rw (new, took),
            record { appended = appended; valid = valid; observed = refl },
            inr (refl, refl),
          )
    ]

-- An arrival fails, with -1, exactly when the number does not continue the newest range, the free list
-- is empty and `malloc` returns NULL.
arrival-none :
    (malloc : Option ℕ) (h : Store) (lda : LossDataA) (seqno : ℕ) (free : List ℕ)
    → (lossdata_arrival malloc h lda seqno free ≡ none)
      ↔ ((continues h lda.ranges seqno ≡ false) × (free ≡ []) × (malloc ≡ none))
unfolding lossdata_arrival take_range
arrival-none malloc h lda seqno free = ground arith

-- The addresses in one list are not in the other.
abbrev pub Disjoint : List ℕ → List ℕ → Type 0
Disjoint ps qs = All (λ p. Apart p qs) ps

-- The arrivals of a period, which take their ranges from the free list.
abbrev pub arrivals : Store → LossDataA → List ℕ → List ℕ → Option (Store × LossDataA × List ℕ)
arrivals h lda [] free = some (h, lda, free)
arrivals h lda (s ∷ ss) free = do
  (h', lda', free') ← lossdata_arrival none h lda s free
  arrivals h' lda' ss free'

Disjoint-cons :
    (free : List ℕ) (p : ℕ) (ps : List ℕ) → Apart p free → Disjoint free ps → Disjoint free (p ∷ ps)
Disjoint-cons [] p ps a d = tt
Disjoint-cons (q ∷ free) p ps a d = ((λ e. a.0 (sym e), d.0), Disjoint-cons free p ps a.1 d.1)

-- A period's arrivals, taking distinct ranges that the record does not hold from a long enough free
-- list, all succeed, and the record then lists exactly the numbers that arrived, in their order.
pub arrivals-sequence :
    (ss : List ℕ) (h : Store) (lda : LossDataA) (free : List ℕ)
    → All (λ s. s < 2 ^ 32) ss
    → IsRecord h lda.ranges
    → Disjoint free lda.ranges
    → Distinct free
    → length ss ≤ length free
    → (r : Store × LossDataA × List ℕ) × (arrivals h lda ss free ≡ some r)
      × (sequence r.0 r.1.ranges ≡ sequence h lda.ranges ++ ss)
arrivals-sequence [] h lda free lt v d u enough = ((h, lda, free), refl, sym (append-nil _))
arrivals-sequence (s ∷ ss) h lda [] lt v d u enough = absurd (omega arith)
arrivals-sequence (s ∷ ss) h lda (p ∷ free) lt v d u enough =
    let ((h', lda', left), ran, done, taken) =
      arrival-Recorded none h lda s (p ∷ free) p free lt.0 v (unfold take_range in refl) d.0 in
    let next : Disjoint left lda'.ranges × Distinct left × (length ss ≤ length left) = elim taken [
      | inl (same, kept) ↦ rw (same, kept) (d, u, omega arith)
      | inr (more, fewer) ↦
          rw (more, fewer) (Disjoint-cons free p lda.ranges u.0 d.1, u.1, omega arith)
    ] in
    let (r, rest, listed) =
      arrivals-sequence ss h' lda' left lt.1 done.valid next.0 next.1 next.2 in
    (
      r,
      rw ran rest,
      listed ∙ ap (λ l. l ++ ss) done.appended ∙ append_assoc (sequence h lda.ranges) (s ∷ []) ss,
    )
