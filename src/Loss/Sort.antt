-- ===== src/Loss/Sort.antt =====
-- The array of `lossdata_a2r_compute`: what a sort of it keeps, where its bounds lie, and which ranges
-- are of the past.
use mathlib.Core.List.{Permᴰ}
use estimators.Prelude.{
  ℕ, suc, ◌+◌, ◌≡◌, inl, inr, refl, sym, ap, ◌∙◌, subst, arith, Bool, true, false, ◌==◌,
  if◌then◌else◌, if_false, if_split, Bool-cases, List, [], ◌∷◌, All, length,
}
use estimators.Seqno.{Sign}
use estimators.Ranges.{SeqnoRange, Store, write, arr_present}
use estimators.Loss.Compute.{is_past, is_future, mark_wraparound, find_bounds, clean_ranges}

-- The C library's `qsort` rearranges the items of its array, whatever the comparison says of them.
pub record IsQsort (qsort : (ℕ → ℕ → Sign) → List ℕ → List ℕ) : Type 0 where
  pub permutes : (cmp : ℕ → ℕ → Sign) (xs : List ℕ) → Permᴰ xs (qsort cmp xs)

pub length-perm : {xs ys : List ℕ} → Permᴰ xs ys → length xs ≡ length ys
length-perm Permᴰ.nil = refl
length-perm (Permᴰ.cons e d) = ap suc (length-perm d)
length-perm (Permᴰ.swap e f) = refl
length-perm (Permᴰ.trans d e) = length-perm d ∙ length-perm e

pub All-perm {κ} : (P : ℕ → Type κ) {xs ys : List ℕ} → Permᴰ xs ys → All P xs → All P ys
All-perm P Permᴰ.nil h = h
All-perm P (Permᴰ.cons e d) h = (subst P e h.0, All-perm P d h.1)
All-perm P (Permᴰ.swap e f) h = (subst P f h.1.0, (subst P e h.0, h.1.1))
All-perm P (Permᴰ.trans d e) h = All-perm P e (All-perm P d h)

abbrev pub NotPast : Store → ℕ → Type 0
NotPast h p = is_past (h p).arrival_period ≡ false

pub find_bounds-begin :
    (h : Store) (ps : List ℕ) (i begin end : ℕ)
    → All (NotPast h) ps
    → (find_bounds h ps i (begin, end)).0 ≡ begin
unfolding find_bounds
find_bounds-begin h [] i begin end a = refl
find_bounds-begin h (p ∷ ps) i begin end a =
    find_bounds-begin h ps (i + 1) _ (if is_future (h p).arrival_period then end else i) a.1
    ∙ if_false (is_past (h p).arrival_period) (i + 1) begin a.0

pub write-NotPast :
    (h : Store) (p : ℕ) (r : SeqnoRange) (q : ℕ)
    → (NotPast h p → is_past r.arrival_period ≡ false)
    → NotPast h q
    → NotPast (write h p r) q
write-NotPast h p r q k n = elim (Bool-cases (p == q)) [
  | inl e ↦ let same : p ≡ q = ground (arith, e) in rw e (k (subst (NotPast h) (sym same) n))
  | inr e ↦ rw e n
]

pub mark-NotPast :
    (h : Store) (ps : List ℕ) (q : ℕ) → NotPast h q → NotPast (mark_wraparound h ps).0 q
unfolding mark_wraparound
mark-NotPast h [] q n = n
mark-NotPast h (p ∷ []) q n = write-NotPast h p (record (h p) { wraparound = 1 }) q (λ m. m) n
mark-NotPast h (p ∷ r ∷ ps) q n =
    let h' = write h p (record (h p) { wraparound = 1 }) in
    let first = write-NotPast h p (record (h p) { wraparound = 1 }) q (λ m. m) n in
    if_split (λ (x : Store × Bool). NotPast x.0 q) _ (h', true) (mark_wraparound h' (r ∷ ps))
      (λ e. first) (λ e. mark-NotPast h' (r ∷ ps) q first)

abbrev cleaned : SeqnoRange → SeqnoRange
cleaned r = record r { wraparound = 0; arrival_period = arr_present }

clean-NotPast : (ps : List ℕ) (h : Store) (q : ℕ) → NotPast h q → NotPast (clean_ranges h ps) q
unfolding clean_ranges
clean-NotPast [] h q n = n
clean-NotPast (p ∷ ps) h q n =
    clean-NotPast ps (write h p (cleaned (h p))) q
      (write-NotPast h p (cleaned (h p)) q (λ m. refl) n)

pub write_self : (h : Store) (p : ℕ) (r : SeqnoRange) → write h p r p ≡ r
write_self h p r = let e : (p == p) ≡ true = ground arith in rw e refl

-- After the clean-up none of the ranges is of the past.
pub clean-present : (ps : List ℕ) (h : Store) → All (NotPast (clean_ranges h ps)) ps
unfolding clean_ranges
clean-present [] h = tt
clean-present (p ∷ ps) h =
    let h' = write h p (cleaned (h p)) in
    (
      clean-NotPast ps h' p (ap (λ r. is_past r.arrival_period) (write_self h p (cleaned (h p)))),
      clean-present ps h',
    )
