-- ===== src/Reorder/Endless.antt =====
-- A range that ends in the last sequence number: the counter of the loop wraps to 0 and stays within.
use estimators.Prelude.{
  ℕ, zero, suc, ◌^◌, ◌<◌, ◌≡◌, refl, arith, Bool, true, false, leb, if◌then◌else◌, Option, none,
  some, add32,
}
use estimators.Reorder.{ReorderDataR}
use estimators.Reorder.Containers.{SeqTree, SeqQueue, Run, ok, fault, unfinished, ◌>>=◌}
use estimators.Reorder.Density.{RdState, max_seqno, rd_fill_window, rd_round, rd_continue, rd_loop}
use estimators.Reorder.Extent.{ExtentState, take_packet, take_packets}

-- The results that a run may have, if it returns.
abbrev pub Only {ℓ} : {A : Type ℓ} → (A → Type 0) → Run A → Type 0
Only P (ok a) = P a
Only P fault = Unit
Only P unfinished = Unit

Only-bind {ℓ κ} :
    {A : Type ℓ} {B : Type κ} (P : B → Type 0) (m : Run A) (f : A → Run B)
    → ((a : A) → Only P (f a))
    → Only P (m >>= f)
Only-bind P (ok a) f h = h a
Only-bind P fault f h = tt
Only-bind P unfinished f h = tt

Only-then {ℓ} :
    {A : Type ℓ} (P : A → Type 0) (b : Bool) (m n : Run A)
    → b ≡ true
    → Only P m
    → Only P (if b then m else n)
Only-then P true m n e h = h
Only-then P false m n e h = absurd (cc e)

within : (i : ℕ) → i < 2 ^ 32 → leb i max_seqno ≡ true
within i h = ground arith

module _ (tree : SeqTree) (queue : SeqQueue) (malloc : ℕ → Bool) where
  open tree use {Tree}
  open queue use {Queue}

  -- Case 2 of the extent never returns from a range that ends in 2 ^ 32 - 1, whatever the number of
  -- rounds.
  pub take_packets-endless :
      (fuel i : ℕ) (s : ExtentState Tree × ReorderDataR)
      → i < 2 ^ 32
      → Only (λ _. ⊥) (take_packets tree malloc fuel i max_seqno s)
  unfolding take_packets
  take_packets-endless zero i (ex, dr) h =
      Only-then (λ _. ⊥) (leb i max_seqno) unfinished (ok (ex, dr)) (within i h) tt
  take_packets-endless (suc fuel) i (ex, dr) h =
      Only-then (λ _. ⊥) (leb i max_seqno) _ (ok (ex, dr)) (within i h)
        (Only-bind (λ _. ⊥) (take_packet tree malloc ex dr i) _
          (λ s. take_packets-endless fuel (add32 i 1) s (omega arith)))

  -- The flag of the density loop: it can only leave by the early return for a failed allocation.
  abbrev pub Early : Bool × RdState Tree Queue × ReorderDataR → Type 0
  Early r = r.0 ≡ true

  continue-Early :
      (next : RdState Tree Queue × ReorderDataR → Run (Bool × RdState Tree Queue × ReorderDataR))
      (rd : RdState Tree Queue) (dr : ReorderDataR) (i : ℕ) (filled : Option (RdState Tree Queue))
      → ((s : RdState Tree Queue × ReorderDataR) → Only Early (next s))
      → Only Early (rd_continue tree queue malloc next rd dr i filled)
  unfolding rd_continue
  continue-Early next rd dr i none h = refl
  continue-Early next rd dr i (some rd') h =
      Only-bind Early (rd_round tree queue malloc rd' dr i) next h

  -- Whatever the number of rounds, the density loop over a range that ends in 2 ^ 32 - 1 returns, if at
  -- all, by the early return for a failed allocation.
  pub rd_loop-endless :
      (fuel i : ℕ) (s : RdState Tree Queue × ReorderDataR)
      → i < 2 ^ 32
      → Only Early (rd_loop tree queue malloc fuel i max_seqno s)
  unfolding rd_loop
  rd_loop-endless zero i (rd, dr) h =
      Only-then Early (leb i max_seqno) unfinished (ok (false, rd, dr)) (within i h) tt
  rd_loop-endless (suc fuel) i (rd, dr) h =
      Only-then Early (leb i max_seqno) _ (ok (false, rd, dr)) (within i h) (
        continue-Early (rd_loop tree queue malloc fuel (add32 i 1) max_seqno) rd dr i
          (rd_fill_window tree queue malloc rd i)
          (λ s. rd_loop-endless fuel (add32 i 1) s (omega arith)))
