-- ===== src/Ranges.antt =====
-- datatypes.h and datatypes.c: ranges of sequence numbers, and the lists of them. A range lies in a
-- store under its address; a list is the addresses from head to tail, in the order of `next`.
pub mod Spans
use estimators.Prelude.{
  ℕ, ◌≡◌, ◌≢◌, List, [], ◌∷◌, ◌++◌, All, Option, none, some, ◌==◌, if◌then◌else◌,
}

pub data ArrivalPeriod : Type 0 where
  arr_past arr_present arr_future : ArrivalPeriod

pub record SeqnoRange : Type 0 where
  pub low : ℕ
  pub high : ℕ
  pub wraparound : ℕ
  pub arrival_period : ArrivalPeriod

abbrev pub Store : Type 0
Store = ℕ → SeqnoRange

abbrev pub write : Store → ℕ → SeqnoRange → Store
write h p r q = if p == q then r else h q

-- `memset(newrange, 0, ...)`, then `low` and `high`; the period 0 is `ARR_PAST`.
abbrev pub single_range : ℕ → SeqnoRange
single_range seqno = record { low = seqno; high = seqno; wraparound = 0; arrival_period = arr_past }

-- Appends `from` to `to`, and leaves `from` empty.
unfoldable pub move_seqnorangelist : List ℕ → List ℕ → List ℕ × List ℕ
move_seqnorangelist to [] = (to, [])
move_seqnorangelist [] (p ∷ from) = (p ∷ from, [])
move_seqnorangelist (t ∷ to) (p ∷ from) = ((t ∷ to) ++ p ∷ from, [])

-- The addresses that are freed, in order.
unfoldable pub free_seqnorangelist : List ℕ → List ℕ
free_seqnorangelist [] = []
free_seqnorangelist (r ∷ rest) = r ∷ free_seqnorangelist rest

-- A new range comes from the free list, or else from `malloc`, whose result is a parameter.
unfoldable pub take_range : Option ℕ → List ℕ → Option (ℕ × List ℕ)
take_range malloc (p ∷ free) = some (p, free)
take_range none [] = none
take_range (some p) [] = some (p, [])

abbrev pub Apart : ℕ → List ℕ → Type 0
Apart p = All (λ q. p ≢ q)

abbrev pub Distinct : List ℕ → Type 0
Distinct [] = Unit
Distinct (p ∷ ps) = Apart p ps × Distinct ps
