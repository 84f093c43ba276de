-- ===== src/Fistq/Registry/Lock.antt =====
-- When the lock of the list of queues stays held.
use estimators.Prelude.{
  ℕ, ◌≡◌, ◌↔◌, refl, Bool, true, false, Option-cases, inl, inr, List, Option, none, some, if_false,
  add32,
}
use estimators.Fistq.{LocalQueue}
use estimators.Fistq.Registry.{
  Registry, Called, returns, deadlock, find_fistq, fistq_find_unsafe, fistq_create_unsafe,
  open_handle, got_handle, found_or_created, store_fistq,
}

abbrev none_found : Option ℕ
none_found = none

module _ {ℓ} {A : Type ℓ} where
  pub open_handle-free :
      (calloc : Option ℕ) (reg : Registry A) (src dst : List ℕ) (value : ℕ)
      → reg.locked ≡ false
      → open_handle true calloc reg src dst value
        ≡ got_handle reg value (
            found_or_created
              (fistq_find_unsafe reg src dst)
              (fistq_create_unsafe calloc reg src dst value))
  unfolding open_handle
  open_handle-free calloc reg src dst value free = if_false reg.locked _ _ free

  -- The queue found, with its new reference.
  abbrev pub referred : Registry A → ℕ → Registry A
  referred reg p = record reg {
    heap =
        store_fistq reg.heap p (record (reg.heap p) { ref_count = add32 (reg.heap p).ref_count 1 });
  }

  pub find-none :
      (reg : Registry A) (src dst : List ℕ)
      → find_fistq reg.heap reg.fistqs src dst ≡ none
      → fistq_find_unsafe reg src dst ≡ none
  unfolding fistq_find_unsafe
  find-none reg src dst e = rw (e, fistq_find_unsafe) refl

  pub find-some :
      (reg : Registry A) (src dst : List ℕ) (p : ℕ)
      → find_fistq reg.heap reg.fistqs src dst ≡ some p
      → fistq_find_unsafe reg src dst ≡ some (p, referred reg p)
  unfolding fistq_find_unsafe
  find-some reg src dst p e = rw (e, fistq_find_unsafe) refl

  -- The lock after a call, or that the call never returned.
  abbrev pub Leaves : Bool → Called (Option (LocalQueue A) × Registry A) → Type 0
  Leaves b (returns r) = r.1.locked ≡ b
  Leaves b deadlock = ⊥

  held :
      (calloc : Option ℕ) (reg : Registry A) (src dst : List ℕ) (value : ℕ)
      → reg.locked ≡ false
      → Leaves true (got_handle reg value (fistq_create_unsafe calloc reg src dst value))
        ↔ ((none_found ≡ none) × (calloc ≡ none))
  unfolding fistq_create_unsafe
  held none reg src dst value free = ((λ h. (refl, refl)), (λ h. refl))
  held (some p) reg src dst value free = ((λ h. absurd (cc (free, h))), (λ h. absurd (cc (h.1))))

  -- With memory for a handle and the lock free, getting a handle leaves the lock held exactly when no
  -- queue of these names is in the list and there is no memory for a new one. Then every later call
  -- that gets as far as the lock never returns.
  pub open_handle-held :
      (calloc : Option ℕ) (reg : Registry A) (src dst : List ℕ) (value : ℕ)
      → reg.locked ≡ false
      → (Leaves true (open_handle true calloc reg src dst value)
          ↔ ((find_fistq reg.heap reg.fistqs src dst ≡ none) × (calloc ≡ none)))
        × ((other : Option ℕ) (s d : List ℕ) (v : ℕ)
            → open_handle true other (record reg { locked = true }) s d v ≡ deadlock)
  open_handle-held calloc reg src dst value free = (
    rw (open_handle-free calloc reg src dst value free)
        (elim (Option-cases (find_fistq reg.heap reg.fistqs src dst)) [
          | inl missing ↦
              rw (find-none reg src dst missing, missing) (held calloc reg src dst value free)
          | inr (p, found) ↦
              rw (find-some reg src dst p found, found)
                ((λ h. absurd (cc (free, h))), (λ h. absurd (cc (h.0))))
        ]),
    λ other s d v. unfold open_handle in refl,
  )
