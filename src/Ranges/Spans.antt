-- ===== src/Ranges/Spans.antt =====
-- The sequence numbers that ranges stand for.
use estimators.Prelude.{
  ℕ, zero, suc, ◌+◌, ◌-◌, ◌^◌, ◌≤◌, ◌<◌, ◌≡◌, refl, ap, ◌∙◌, arith, List, [], ◌∷◌, ◌++◌, All,
}
use estimators.Ranges.{SeqnoRange, Store, write, Apart}

-- `count` numbers from `low` on.
abbrev pub count_from : ℕ → ℕ → List ℕ
count_from low zero = []
count_from low (suc n) = low ∷ count_from (low + 1) n

pub count_from-snoc : (n low : ℕ) → count_from low (suc n) ≡ count_from low n ++ (low + n) ∷ []
count_from-snoc zero low = ap (λ k. k ∷ []) (omega arith)
count_from-snoc (suc n) low =
    ap (λ l. low ∷ l)
      (count_from-snoc n (low + 1) ∙ ap (λ k. count_from (low + 1) n ++ k ∷ []) (omega arith))

abbrev pub span : SeqnoRange → List ℕ
span r = count_from r.low (r.high + 1 - r.low)

-- A range as arrivals make them: it does not wrap.
pub record IsRange (r : SeqnoRange) : Type 0 where
  pub ordered : r.low ≤ r.high
  pub fits : r.high < 2 ^ 32

-- A write at an address that a list does not hold is not seen through the list.
pub All-write :
    (P : SeqnoRange → Type 0) (h : Store) (p : ℕ) (r : SeqnoRange) (ps : List ℕ)
    → Apart p ps
    → All (λ q. P (h q)) ps
    → All (λ q. P (write h p r q)) ps
All-write P h p r [] a w = tt
All-write P h p r (q ∷ ps) a w =
    let e : write h p r q ≡ h q = ground (arith, a.0) in (rw e w.0, All-write P h p r ps a.1 w.1)

-- The sequence numbers of a list that grows at its head: the oldest range stands last.
abbrev pub sequence : Store → List ℕ → List ℕ
sequence h [] = []
sequence h (p ∷ ps) = sequence h ps ++ span (h p)

pub sequence-write :
    (h : Store) (p : ℕ) (r : SeqnoRange) (ps : List ℕ)
    → Apart p ps
    → sequence (write h p r) ps ≡ sequence h ps
sequence-write h p r [] a = refl
sequence-write h p r (q ∷ ps) a =
    let e : write h p r q ≡ h q = ground (arith, a.0) in rw (e, sequence-write h p r ps a.1)

pub write_self : (h : Store) (p : ℕ) (r : SeqnoRange) → write h p r p ≡ r
write_self h p r = ground arith

-- One number more at the end of a range.
pub span-extend :
    (r : SeqnoRange) (n : ℕ)
    → r.low ≤ r.high
    → n ≡ r.high + 1
    → span (record r { high = n }) ≡ span r ++ n ∷ []
span-extend r n h e =
    let longer : n + 1 - r.low ≡ suc (r.high + 1 - r.low) = omega arith in
    rw longer
      (count_from-snoc (r.high + 1 - r.low) r.low ∙ ap (λ k. span r ++ k ∷ []) (omega arith))

pub span-single : (r : SeqnoRange) → r.low ≡ r.high → span r ≡ r.high ∷ []
span-single r e =
    let one : r.high + 1 - r.low ≡ suc zero = omega arith in rw one (ap (λ k. k ∷ []) e)
