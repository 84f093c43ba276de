-- ===== src/Loss/Coverage.antt =====
-- What the loop of `lossdata_a2r_compute` counts over sorted ranges: the covered and the missing
-- numbers between the ends of the last ranges of two calls.
use mathlib.Core.List.{append_assoc}
use estimators.Prelude.{
  ℕ, ◌+◌, ◌-◌, ◌^◌, ◌%◌, ◌≤◌, ◌<◌, ◌≡◌, refl, subst, sym, ap, ◌∙◌, arith, List, [], ◌∷◌, ◌++◌, map,
  some, Bool, Bool-cases, inl, inr, false, not, leb, ◌&&◌, ◌||◌, if◌then◌else◌, length, get_elem?,
  length-append,
}
use estimators.Prelude.Count.{count, count-add, count-ext, count-not, count-from}
use estimators.Ranges.{SeqnoRange, Store, write, Apart, Distinct}
use estimators.Ranges.Spans.{IsRange}
use estimators.Loss.Tally.{Tally, trim, is_subsumed, tally_range, tally_ranges}
use estimators.Loss.Conservation.{IsAhead, total, tally_range-advance}

-- Whether some range holds the number.
abbrev pub covers : List SeqnoRange → ℕ → Bool
covers [] x = false
covers (r ∷ rs) x = leb r.low x && leb x r.high || covers rs x

-- The ranges do not wrap, start at the base or later, and are sorted by their lows.
abbrev pub FromOn : ℕ → List SeqnoRange → Type 0
FromOn low [] = Unit
FromOn low (r ∷ rs) = IsRange r × (low ≤ r.low) × FromOn r.low rs

-- The largest number reached.
abbrev pub reach : ℕ → List SeqnoRange → ℕ
reach m [] = m
reach m (r ∷ rs) = reach (if leb r.high m then m else r.high) rs

reach-le : (rs : List SeqnoRange) (m : ℕ) → m ≤ reach m rs
reach-le [] m = omega arith
reach-le (r ∷ rs) m = ground (arith, reach-le rs (if leb r.high m then m else r.high))

reach-fits : (rs : List SeqnoRange) (low m : ℕ) → FromOn low rs → m < 2 ^ 32 → reach m rs < 2 ^ 32
reach-fits [] low m f h = h
reach-fits (r ∷ rs) low m f h =
    reach-fits rs r.low (if leb r.high m then m else r.high) f.2 (ground (arith, f.0))

-- Below its low a sorted list covers nothing.
covers-below : (rs : List SeqnoRange) (low x : ℕ) → FromOn low rs → x < low → covers rs x ≡ false
covers-below [] low x f h = refl
covers-below (r ∷ rs) low x f h = ground (arith, covers-below rs r.low x f.2 (omega arith))

-- One round of the count, in numbers alone.
count-round :
    (r : SeqnoRange) (rs : List SeqnoRange) (low m : ℕ)
    → FromOn low (r ∷ rs)
    → let m' = if leb r.high m then m else r.high in
      let end = reach m' rs in
      count (covers (r ∷ rs)) m (end - m)
      ≡ (if leb r.high m then 0 else r.high + 1 - (if leb r.low m then m + 1 else r.low))
        + count (covers rs) m' (end - m')
count-round r rs low m f = elim (Bool-cases (leb r.high m)) [
  | inl old ↦ rw old (
      omega
        (arith, count-ext (covers (r ∷ rs)) (covers rs) (reach m rs - m) m (λ x p q. ground arith)))
  | inr new ↦
      let past : m < r.high = ground arith in
      let end = reach r.high rs in
      let up : r.high ≤ end = reach-le rs r.high in
      let split =
        count-add (covers (r ∷ rs)) (r.high - m) m r.high (end - r.high) (end - m) (omega arith)
          (omega arith) in
      let first =
        count-ext (covers (r ∷ rs)) (λ x. leb r.low x) (r.high - m) m
          (λ x p q. ground (arith, covers-below rs r.low x f.2)) in
      let second =
        count-ext (covers (r ∷ rs)) (covers rs) (end - r.high) r.high (λ x p q. ground arith) in
      rw new (omega (arith, split, first, second, count-from r.low (r.high - m) m))
]

map-write :
    (h : Store) (p : ℕ) (r : SeqnoRange) (ps : List ℕ)
    → Apart p ps
    → map (write h p r) ps ≡ map h ps
map-write h p r [] a = refl
map-write h p r (q ∷ ps) a =
    let e : write h p r q ≡ h q = ground (arith, a.0) in rw (e, map-write h p r ps a.1)

-- A round changes the store at its own address at most.
store-round :
    (base : ℕ) (t : Tally) (p : ℕ) (ps : List ℕ)
    → Apart p ps
    → map (tally_range base t p).store ps ≡ map t.store ps
unfolding tally_range
store-round base t p ps a = elim (Bool-cases (is_subsumed base t.prev (t.store p))) [
  | inl e ↦ rw e
  | inr e ↦ rw e (map-write t.store p (trim base t.prev (t.store p)) ps a)
]

-- The loop over a list of addresses.
abbrev pub tally_list : ℕ → Tally → List ℕ → Tally
tally_list base t [] = t
tally_list base t (p ∷ ps) = tally_list base (tally_range base t p) ps

-- What the loop has counted, from the end of the last range before it on.
pub record Counted (t t' : Tally) (rs : List SeqnoRange) : Type 0 where
  pub end : t'.prev.high ≡ reach t.prev.high rs
  pub received :
      t'.ldr.received % 2 ^ 32
      ≡ (t.ldr.received + count (covers rs) t.prev.high (t'.prev.high - t.prev.high)) % 2 ^ 32
  pub dropped :
      t'.ldr.dropped % 2 ^ 32
      ≡ (t.ldr.dropped + count (λ x. not (covers rs x)) t.prev.high (t'.prev.high - t.prev.high))
        % 2 ^ 32

record Counting (t t' : Tally) (rs : List SeqnoRange) : Type 0 where
  end : t'.prev.high ≡ reach t.prev.high rs
  received :
      t'.ldr.received % 2 ^ 32
      ≡ (t.ldr.received + count (covers rs) t.prev.high (reach t.prev.high rs - t.prev.high))
        % 2 ^ 32
  both : (total t'.ldr + t.prev.high) % 2 ^ 32 ≡ (total t.ldr + t'.prev.high) % 2 ^ 32

counting :
    (ps : List ℕ) (base : ℕ) (t : Tally) (low : ℕ)
    → Distinct ps
    → base ≤ low
    → base ≤ t.prev.high
    → t.prev.high < 2 ^ 32
    → FromOn low (map t.store ps)
    → Counting t (tally_list base t ps) (map t.store ps)
counting [] base t low d b m fit f = record {
  end = refl;
  received = let still : t.prev.high - t.prev.high ≡ 0 = omega arith in rw still (omega arith);
  both = refl;
}
counting (p ∷ ps) base t low d b m fit f =
    let r = t.store p in
    let rs = map t.store ps in
    let t' = tally_range base t p in
    let ahead : IsAhead base t.prev r = record {
      reached = m;
      above = omega (arith, f.1);
      ordered = f.0.ordered;
      fits = f.0.fits;
      prev_fits = fit;
    } in
    let (moved, sums, counted) = tally_range-advance base t p ahead in
    let same = store-round base t p ps d.0 in
    let rest : Counting t' (tally_list base t' ps) rs =
      subst (Counting t' (tally_list base t' ps)) same (
        counting ps base t' r.low d.1 (omega (arith, f.1)) (ground (arith, moved))
          (ground (arith, moved, f.0)) (rw same f.2)) in
    let more = rw moved at rest.received in
    record {
      end = rest.end ∙ ap (λ k. reach k rs) moved;
      received = ground (arith, more, counted, count-round r rs low t.prev.high f);
      both = omega (arith, sums, rest.both);
    }

Counted-dropped :
    (ps : List ℕ) (base : ℕ) (t : Tally) (low : ℕ)
    → Distinct ps
    → base ≤ low
    → base ≤ t.prev.high
    → t.prev.high < 2 ^ 32
    → FromOn low (map t.store ps)
    → Counted t (tally_list base t ps) (map t.store ps)
Counted-dropped ps base t low d b m fit f =
    let c = counting ps base t low d b m fit f in
    let rs = map t.store ps in
    let n = reach t.prev.high rs - t.prev.high in
    let up = reach-le rs t.prev.high in
    record {
      end = c.end;
      received = rw c.end c.received;
      dropped =
          rw c.end
            (omega (arith, c.received, c.both, c.end, up, count-not (covers rs) n t.prev.high));
    }

get_elem?-middle :
    (pre : List ℕ) (p : ℕ) (rest : List ℕ) → get_elem? (pre ++ p ∷ rest) (length pre) ≡ some p
get_elem?-middle [] p rest = refl
get_elem?-middle (q ∷ pre) p rest = get_elem?-middle pre p rest

-- The loop by index over a part of the array is the loop over that part, and reads no further.
tally_ranges-list :
    (mid pre post array : List ℕ) (base i : ℕ) (t : Tally)
    → array ≡ pre ++ (mid ++ post)
    → i ≡ length pre
    → tally_ranges base array (length mid) i t ≡ some (tally_list base t mid)
unfolding tally_ranges
tally_ranges-list [] pre post array base i t e j = refl
tally_ranges-list (p ∷ mid) pre post array base i t e j =
    let found : get_elem? array i ≡ some p = rw (e, j) (get_elem?-middle pre p (mid ++ post)) in
    rw (found, tally_ranges)
      (tally_ranges-list mid (pre ++ p ∷ []) post array base (i + 1) (tally_range base t p)
        (e ∙ sym (append_assoc pre (p ∷ []) (mid ++ post)))
        (omega (arith, length-append pre (p ∷ []))))

-- Over a part of the array whose ranges do not wrap, stand at distinct addresses, are sorted by their
-- lows and start at the base or later, the loop succeeds and ends at the largest number reached; of the
-- numbers between the last range's end before and after it, those that some range covers are added to
-- `received` and the others to `dropped`, each once, modulo 2 ^ 32, however the ranges overlap.
pub tally_ranges-Counted :
    (pre mid post : List ℕ) (base low : ℕ) (t : Tally)
    → Distinct mid
    → base ≤ low
    → base ≤ t.prev.high
    → t.prev.high < 2 ^ 32
    → FromOn low (map t.store mid)
    → (t' : Tally) × (tally_ranges base (pre ++ (mid ++ post)) (length mid) (length pre) t
        ≡ some t')
      × Counted t t' (map t.store mid)
tally_ranges-Counted pre mid post base low t d b m fit f = (
  tally_list base t mid,
  tally_ranges-list mid pre post (pre ++ (mid ++ post)) base (length pre) t refl refl,
  Counted-dropped mid base t low d b m fit f,
)
