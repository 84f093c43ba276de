-- ===== src/Reorder/Frame.antt =====
-- The loop of the reorder density leaves the histogram of the extents alone.
use estimators.Prelude.{
  ℕ, zero, suc, ◌≡◌, refl, ◌∙◌, arith, Bool, true, false, not, leb, ◌==◌, add32, sub32,
  if◌then◌else◌, Option, none, some, Option-cases, inl, inr, if_split,
}
use estimators.Prelude.Int.{ℤ, signed32}
use estimators.Reorder.{ReorderDataR}
use estimators.Reorder.Containers.{SeqTree, SeqQueue, Run, ok, fault, unfinished, ◌>>=◌, Ends}
use estimators.Reorder.Density.{
  RdState, rd_record_distance, rd_place, rd_process_next_packet, rd_maybe_add_new_arrival_to_window,
  rd_fill_window, rd_active_round, rd_round, rd_continue, rd_loop,
}

-- The property holds of the result, if there is one.
abbrev pub Keeps {ℓ} : {A : Type ℓ} → (A → Type 0) → Run A → Type 0
Keeps P (ok a) = P a
Keeps P fault = Unit
Keeps P unfinished = Unit

Keeps-bind {ℓ κ} :
    {A : Type ℓ} {B : Type κ} (P : A → Type 0) (Q : B → Type 0) (m : Run A) (f : A → Run B)
    → Keeps P m
    → ((a : A) → P a → Keeps Q (f a))
    → Keeps Q (m >>= f)
Keeps-bind P Q (ok a) f h k = k a h
Keeps-bind P Q fault f h k = tt
Keeps-bind P Q unfinished f h k = tt

pub Ends-Keeps {ℓ} :
    {A : Type ℓ} (P Q : A → Type 0) (m : Run A) → Ends P m → Keeps Q m → Ends (λ a. P a × Q a) m
Ends-Keeps P Q (ok a) h k = (h, k)
Ends-Keeps P Q fault h k = h
Ends-Keeps P Q unfinished h k = h

module _ (tree : SeqTree) (queue : SeqQueue) (malloc : ℕ → Bool) where
  open tree use {Tree}
  open queue use {Queue, queue_pop}

  abbrev Same : ReorderDataR → RdState Tree Queue × ReorderDataR → Type 0
  Same dr r = r.1.extent_to_count ≡ dr.extent_to_count

  place-Same :
      (rd : RdState Tree Queue) (dr : ReorderDataR) (seq : ℕ) (d : ℤ)
      → Same dr (rd_place tree queue malloc rd dr seq d)
  unfolding rd_place rd_record_distance
  place-Same rd dr seq d = ground arith

  process-Same :
      (rd : RdState Tree Queue) (dr : ReorderDataR)
      → Keeps (Same dr) (rd_process_next_packet tree queue malloc rd dr)
  unfolding rd_process_next_packet
  process-Same rd dr = elim (Option-cases (queue_pop rd.window)) [
    | inl e ↦ ground (arith, e)
    | inr ((seq, q), e) ↦
        ground (arith, e, place-Same (record rd { window = q }) dr seq (signed32 (sub32 rd.ri seq)))
  ]

  round-Same :
      (rd : RdState Tree Queue) (dr : ReorderDataR) (i : ℕ)
      → Keeps (Same dr) (rd_round tree queue malloc rd dr i)
  unfolding rd_round rd_active_round
  round-Same rd dr i =
      if_split (Keeps (Same dr)) (not rd.window_initialized) (ok (rd, dr)) _ (λ e. refl)
        (λ e.
          let looked =
            if rd.state == 1
            then rd_maybe_add_new_arrival_to_window tree queue malloc rd i
            else rd in
          let processed = rd_process_next_packet tree queue malloc looked dr in
          Keeps-bind (Same dr) (Same dr) (if looked.state == 0 then processed else ok (looked, dr))
            _
            (if_split (Keeps (Same dr)) (looked.state == 0) processed (ok (looked, dr))
              (λ f. process-Same looked dr) (λ f. refl))
            (λ r s. s))

  continue-Same :
      (P : Bool × RdState Tree Queue × ReorderDataR → Type 0)
      (next : RdState Tree Queue × ReorderDataR → Run (Bool × RdState Tree Queue × ReorderDataR))
      (rd : RdState Tree Queue) (dr : ReorderDataR) (i : ℕ) (filled : Option (RdState Tree Queue))
      → P (true, rd, dr)
      → ((r : RdState Tree Queue × ReorderDataR) → Same dr r → Keeps P (next r))
      → Keeps P (rd_continue tree queue malloc next rd dr i filled)
  unfolding rd_continue
  continue-Same P next rd dr i none h k = h
  continue-Same P next rd dr i (some rd') h k =
      Keeps-bind (Same dr) P (rd_round tree queue malloc rd' dr i) next (round-Same rd' dr i) k

  -- Whatever the loop ends in.
  pub loop-Same :
      (fuel i high : ℕ) (rd : RdState Tree Queue) (dr dr₀ : ReorderDataR)
      → dr.extent_to_count ≡ dr₀.extent_to_count
      → Keeps
          (λ r. r.2.extent_to_count ≡ dr₀.extent_to_count)
          (rd_loop tree queue malloc fuel i high (rd, dr))
  unfolding rd_loop
  loop-Same zero i high rd dr dr₀ e =
      if_split (Keeps (λ r. r.2.extent_to_count ≡ dr₀.extent_to_count)) (leb i high) unfinished
        (ok (false, rd, dr)) (λ more. tt) (λ past. e)
  loop-Same (suc fuel) i high rd dr dr₀ e =
      if_split (Keeps (λ r. r.2.extent_to_count ≡ dr₀.extent_to_count)) (leb i high) _
        (ok (false, rd, dr))
        (λ more.
          continue-Same (λ r. r.2.extent_to_count ≡ dr₀.extent_to_count)
            (rd_loop tree queue malloc fuel (add32 i 1) high) rd dr i
            (rd_fill_window tree queue malloc rd i) e
            (λ r s. loop-Same fuel (add32 i 1) high r.0 r.1 dr₀ (s ∙ e)))
        (λ past. e)
