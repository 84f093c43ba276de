-- ===== src/Loss/Conservation.antt =====
-- Every sequence number between the last range of the previous call and that of this one is counted
-- once, as received or as dropped.
use estimators.Prelude.{
  ℕ, ◌+◌, ◌-◌, ◌^◌, ◌%◌, ◌≤◌, ◌<◌, ◌≡◌, refl, arith, Bool-cases, inl, inr, leb, if◌then◌else◌,
  add32, sub32,
}
use estimators.Seqno.{modular_distance}
use estimators.Ranges.{SeqnoRange}
use estimators.Loss.{LossDataR}
use estimators.Loss.Tally.{Tally, add_gap, trim, is_subsumed, gap_to, tally_range}

-- In the regime without a wrap: nothing reaches below the base.
pub record IsAhead (base : ℕ) (prev r : SeqnoRange) : Type 0 where
  pub reached : base ≤ prev.high
  pub above : base ≤ r.low
  pub ordered : r.low ≤ r.high
  pub fits : r.high < 2 ^ 32
  pub prev_fits : prev.high < 2 ^ 32

subsumed_lem :
    (base : ℕ) (prev r : SeqnoRange)
    → IsAhead base prev r
    → is_subsumed base prev r ≡ leb r.high prev.high
unfolding is_subsumed modular_distance
subsumed_lem base prev r a = ground arith

trim_lem :
    (base : ℕ) (prev r : SeqnoRange)
    → IsAhead base prev r
    → prev.high < r.high
    → ((trim base prev r).high ≡ r.high)
      × ((trim base prev r).low ≡ (if leb r.low prev.high then prev.high + 1 else r.low))
unfolding trim modular_distance
trim_lem base prev r a h = ground arith

-- The gap before a trimmed range, and its length.
gap_lem :
    (base : ℕ) (prev r : SeqnoRange)
    → IsAhead base prev r
    → prev.high < r.high
    → let r' = trim base prev r in
      (prev.high < r'.low)
      × (r'.low ≤ r'.high)
      × (gap_to prev r' + prev.high + 1 ≡ r'.low)
      × (sub32 r'.high r'.low ≡ r'.high - r'.low)
unfolding gap_to modular_distance
gap_lem base prev r a h = ground (arith, trim_lem base prev r a h)

-- The two counters together.
abbrev pub total : LossDataR → ℕ
total ldr = ldr.received + ldr.dropped

total-add_gap :
    (ldr : LossDataR) (recd gap : ℕ)
    → total (add_gap ldr recd gap) % 2 ^ 32 ≡ (total ldr + recd + gap) % 2 ^ 32
unfolding add_gap
total-add_gap ldr recd gap = omega arith

-- One round at a range from the base on. A range that ends by the end of the previous one changes
-- nothing. Any other moves the end to its own, the numbers past the old end that it covers are added to
-- `received`, and the two counters together grow by as much as the end: modulo 2 ^ 32, as they are.
pub tally_range-advance :
    (base : ℕ) (t : Tally) (p : ℕ)
    → IsAhead base t.prev (t.store p)
    → let t' = tally_range base t p in
      let r = t.store p in
      (t'.prev.high ≡ (if leb r.high t.prev.high then t.prev.high else r.high))
      × ((total t'.ldr + t.prev.high) % 2 ^ 32 ≡ (total t.ldr + t'.prev.high) % 2 ^ 32)
      × (t'.ldr.received ≡ (
          if leb r.high t.prev.high
          then t.ldr.received
          else add32 t.ldr.received
              (r.high + 1 - (if leb r.low t.prev.high then t.prev.high + 1 else r.low))))
unfolding tally_range
tally_range-advance base t p a = elim (Bool-cases (leb (t.store p).high t.prev.high)) [
  | inl old ↦ rw (subsumed_lem base t.prev (t.store p) a, old) (refl, refl, refl)
  | inr new ↦
      let r = t.store p in
      let r' = trim base t.prev r in
      let past : t.prev.high < r.high = ground (arith, new) in
      let cut = trim_lem base t.prev r a past in
      let gap = gap_lem base t.prev r a past in
      rw (subsumed_lem base t.prev r a, new)
        (
          cut.0,
          omega (arith, total-add_gap t.ldr (add32 (sub32 r'.high r'.low) 1) (gap_to t.prev r')),
          unfold add_gap in rw (gap.3, cut.0, cut.1) (ground arith),
        )
]
