-- ===== src/Fistq/Registry/Handles.antt =====
-- Getting a handle and destroying it again.
use estimators.Prelude.{
  ℕ, ◌+◌, ◌^◌, ◌≡◌, ◌≢◌, ◌<◌, refl, ap, ◌∙◌, ◌++◌, subst, arith, true, false, Bool-cases,
  Option-cases, if_false, if_true, inl, inr, List, [], ◌∷◌, All, Option, some, ◌==◌, ◌&&◌, add32,
  sub32,
}
use estimators.Ranges.{Apart}
use estimators.Fistq.Registry.Lock.{referred, open_handle-free, find-none, find-some}
use estimators.Fistq.{LocalQueue, queue_free}
use estimators.Fistq.Registry.{
  Fistq, Registry, Called, returns, find_fistq, fistq_create_unsafe, open_handle, unlink,
  empty_queue, new_handle, fistq_destroy_handle, same_name, store_fistq, release,
}

unlink-head : (p : ℕ) (ps : List ℕ) → unlink p (p ∷ ps) ≡ ps
unfolding unlink
unlink-head p ps = let e : (p == p) ≡ true = ground arith in rw e refl

module _ {ℓ} {A : Type ℓ} where
  -- Every queue of the list is in use by at least one handle.
  abbrev pub InUse : Registry A → Type 0
  InUse reg =
      All (λ p. (0 < (reg.heap p).ref_count) × ((reg.heap p).ref_count + 1 < 2 ^ 32)) reg.fistqs

  -- The list of queues, its size and the free lock are the same, and so is every queue of the list.
  pub record IsSame (reg reg' : Registry A) : Type ℓ where
    pub fistqs : reg'.fistqs ≡ reg.fistqs
    pub list_size : reg'.list_size ≡ reg.list_size
    pub locked : reg'.locked ≡ reg.locked
    pub heap : All (λ p. reg'.heap p ≡ reg.heap p) reg.fistqs

  free_empty : (value : ℕ) → queue_free {A = A} (empty_queue value) ≡ []
  unfolding queue_free
  free_empty value = elim (Bool-cases (value == 0)) [ inl e ↦ rw e refl | inr e ↦ rw e refl ]

  find-All :
      (P : ℕ → Type 0) (heap : ℕ → Fistq A) (ps src dst : List ℕ) (p : ℕ)
      → find_fistq heap ps src dst ≡ some p
      → All P ps
      → P p
  unfolding find_fistq
  find-All P heap [] src dst p e h = absurd (cc e)
  find-All P heap (q ∷ ps) src dst p e h =
      elim (Bool-cases (same_name (heap q).src src && same_name (heap q).dst dst)) [
        | inl same ↦ subst P (cc (rw same at e)) h.0
        | inr other ↦ find-All P heap ps src dst p (rw other at e) h.1
      ]

  stored : (heap : ℕ → Fistq A) (p : ℕ) (fq : Fistq A) → store_fistq heap p fq p ≡ fq
  stored heap p fq = let e : (p == p) ≡ true = ground arith in rw e refl

  stored_elsewhere :
      (heap : ℕ → Fistq A) (p : ℕ) (fq : Fistq A) (q : ℕ) → p ≢ q → store_fistq heap p fq q ≡ heap q
  stored_elsewhere heap p fq q d = let e : (p == q) ≡ false = ground (arith, d) in rw e refl

  destroy-kept :
      (reg : Registry A) (fh : LocalQueue A)
      → reg.locked ≡ false
      → (((release reg fh.fq).heap fh.fq).ref_count == 0) ≡ false
      → fistq_destroy_handle reg (some fh) ≡ returns (some (queue_free fh.lq), release reg fh.fq)
  unfolding fistq_destroy_handle
  destroy-kept reg fh free used =
      if_false reg.locked _ _ free
      ∙ if_false (((release reg fh.fq).heap fh.fq).ref_count == 0) _ _ used

  destroy-removed :
      (reg : Registry A) (fh : LocalQueue A)
      → reg.locked ≡ false
      → (((release reg fh.fq).heap fh.fq).ref_count == 0) ≡ true
      → fistq_destroy_handle reg (some fh)
        ≡ returns (
          some (queue_free fh.lq ++ queue_free (reg.heap fh.fq).internal),
          record (release reg fh.fq) {
            fistqs = unlink fh.fq reg.fistqs;
            list_size = sub32 reg.list_size 1;
          },
        )
  unfolding fistq_destroy_handle
  destroy-removed reg fh free unused =
      if_false reg.locked _ _ free
      ∙ if_true (((release reg fh.fq).heap fh.fq).ref_count == 0) _ _ unused

  -- What getting a handle and destroying it does to the registry.
  abbrev pub Restored : Registry A → Called (Option (LocalQueue A) × Registry A) → Type ℓ
  Restored reg called =
      (fh : LocalQueue A) × (got : Registry A) × (r : Registry A) × (called
        ≡ returns (some fh, got))
      × (fistq_destroy_handle got (some fh) ≡ returns (some [], r))
      × IsSame reg r

  abbrev one_more : Fistq A → Fistq A
  one_more fq = record fq { ref_count = add32 fq.ref_count 1 }

  abbrev one_less : Fistq A → Fistq A
  one_less fq = record fq { ref_count = sub32 fq.ref_count 1 }

  one_less-one_more : (fq : Fistq A) → fq.ref_count + 1 < 2 ^ 32 → one_less (one_more fq) ≡ fq
  one_less-one_more fq h = ap (λ n. record fq { ref_count = n }) (omega arith)

  released-same :
      (reg : Registry A) (q x : ℕ)
      → (reg.heap q).ref_count + 1 < 2 ^ 32
      → (release (referred reg q) q).heap x ≡ reg.heap x
  released-same reg q x h =
      let heap = store_fistq reg.heap q (one_more (reg.heap q)) in
      elim (Bool-cases (q == x)) [
        | inl e ↦
            subst (λ y. (release (referred reg q) q).heap y ≡ reg.heap y) (ground (arith, e))
              (stored heap q (one_less (heap q))
                ∙ ap one_less (stored reg.heap q (one_more (reg.heap q)))
                ∙ one_less-one_more (reg.heap q) h)
        | inr e ↦
            let d : q ≢ x = ground (arith, e) in
            stored_elsewhere heap q (one_less (heap q)) x d
            ∙ stored_elsewhere reg.heap q (one_more (reg.heap q)) x d
      ]

  same_over :
      (reg reg' : Registry A) (ps : List ℕ)
      → ((x : ℕ) → reg'.heap x ≡ reg.heap x)
      → All (λ x. reg'.heap x ≡ reg.heap x) ps
  same_over reg reg' [] h = tt
  same_over reg reg' (x ∷ ps) h = (h x, same_over reg reg' ps h)

  found-Restored :
      (reg : Registry A) (q value : ℕ)
      → reg.locked ≡ false
      → (0 < (reg.heap q).ref_count) × ((reg.heap q).ref_count + 1 < 2 ^ 32)
      → Restored reg (returns (some (new_handle value q), referred reg q))
  found-Restored reg q value free used =
      let fh : LocalQueue A = new_handle value q in
      let got = referred reg q in
      let one : ((release got q).heap q) ≡ reg.heap q = released-same reg q q used.1 in
      (
        fh,
        got,
        release got q,
        refl,
        destroy-kept got fh free (rw (ap (λ fq. fq.ref_count) one) (ground (arith, used)))
            ∙ ap (λ l. returns (some l, release got q)) (free_empty value),
        record {
          fistqs = refl;
          list_size = refl;
          locked = refl;
          heap = same_over reg (release got q) reg.fistqs (λ x. released-same reg q x used.1);
        },
      )

  abbrev created : List ℕ → List ℕ → ℕ → Fistq A
  created src dst value = record {
    internal = empty_queue value;
    src = src;
    dst = dst;
    value = value;
    ref_count = 1;
  }

  abbrev with_created : ℕ → Registry A → Fistq A → Registry A
  with_created p reg fq = record reg {
    heap = store_fistq reg.heap p fq;
    fistqs = p ∷ reg.fistqs;
    list_size = add32 reg.list_size 1;
  }

  others_same :
      (reg reg' : Registry A) (p : ℕ) (ps : List ℕ)
      → Apart p ps
      → ((x : ℕ) → p ≢ x → reg'.heap x ≡ reg.heap x)
      → All (λ x. reg'.heap x ≡ reg.heap x) ps
  others_same reg reg' p [] a h = tt
  others_same reg reg' p (x ∷ ps) a h = (h x a.0, others_same reg reg' p ps a.1 h)

  created-Restored :
      (reg : Registry A) (p : ℕ) (src dst : List ℕ) (value : ℕ)
      → reg.locked ≡ false
      → Apart p reg.fistqs
      → reg.list_size + 1 < 2 ^ 32
      → Restored reg
          (returns (some (new_handle value p), with_created p reg (created src dst value)))
  created-Restored reg p src dst value free a small =
      let fh : LocalQueue A = new_handle value p in
      let fq = created src dst value in
      let got = with_created p reg fq in
      let now : got.heap p ≡ fq = stored reg.heap p fq in
      let gone : ((release got p).heap p) ≡ one_less fq =
        stored got.heap p (one_less (got.heap p)) ∙ ap one_less now in
      let r : Registry A = record (release got p) {
        fistqs = unlink p got.fistqs;
        list_size = sub32 got.list_size 1;
      } in
      (
        fh,
        got,
        r,
        refl,
        destroy-removed got fh free (rw (ap (λ f. f.ref_count) gone) refl)
            ∙ ap (λ l. returns (some (l ++ queue_free (got.heap p).internal), r)) (free_empty value)
            ∙ ap (λ f. returns (some (queue_free f.internal), r)) now
            ∙ ap (λ l. returns (some l, r)) (free_empty value),
        record {
          fistqs = unlink-head p reg.fistqs;
          list_size = omega arith;
          locked = refl;
          heap = others_same reg r p reg.fistqs a (λ x d.
              stored_elsewhere got.heap p (one_less (got.heap p)) x d
              ∙ stored_elsewhere reg.heap p fq x d);
        },
      )

  -- With the lock free and memory for a handle and, at an address that the list does not hold, for a
  -- queue, getting a handle and destroying it again disposes of no data and restores the list, its
  -- size, the free lock and every queue of the list, reference counts included, whether the queue was
  -- found or had to be created.
  pub get-destroy :
      (p : ℕ) (reg : Registry A) (src dst : List ℕ) (value : ℕ)
      → reg.locked ≡ false
      → InUse reg
      → Apart p reg.fistqs
      → reg.list_size + 1 < 2 ^ 32
      → Restored reg (open_handle true (some p) reg src dst value)
  unfolding fistq_create_unsafe
  get-destroy p reg src dst value free used a small =
      rw (open_handle-free (some p) reg src dst value free)
        (elim (Option-cases (find_fistq reg.heap reg.fistqs src dst)) [
          | inl missing ↦
              rw (find-none reg src dst missing) (created-Restored reg p src dst value free a small)
          | inr (q, found) ↦ rw (find-some reg src dst q found) (
              found-Restored reg q value free (
                find-All (λ x. (0 < (reg.heap x).ref_count) × ((reg.heap x).ref_count + 1 < 2 ^ 32))
                  reg.heap reg.fistqs src dst q found used))
        ])
