-- ===== src/Fistq/Order.antt =====
-- The queue as the estimator uses it: any number of client threads that enqueue without flushing, flush
-- and destroy their handles when they like, and one thread that dequeues with a time-out.
use mathlib.Core.List.{append_assoc, append-nil}
use estimators.Prelude.{
  ℕ, zero, suc, ◌-◌, ◌≡◌, ◌≢◌, refl, sym, ap, ◌∙◌, subst, arith, Bool, true, false, Bool-cases, inl,
  inr, List, [], ◌∷◌, ◌++◌, take, length, length-append, All, Option, none, some, ◌==◌,
  if◌then◌else◌,
}
use estimators.Fistq.{
  QueueNode, DataQueue, LocalQueue, Dequeued, waiting, timed_out, nothing, item, fault,
  FistqDataType, fistq_noflush, emptied, taken_over, pop_local, fistq_flush, fistq_enqueue_any,
  fistq_timeddequeue_any,
}

-- What holds of the result of a dequeue that returns a node, and of a call that does not fail.
abbrev Settled {ℓ} : {A : Type ℓ} → List (QueueNode A) → Dequeued A → Type ℓ
Settled nodes waiting = Unit
Settled nodes timed_out = Unit
Settled nodes (nothing fh internal) = Unit
Settled nodes (item n fh internal) = nodes ≡ n ∷ (fh.lq.nodes ++ internal.nodes)
Settled nodes fault = Unit

abbrev Ran {ℓ κ} : {A : Type ℓ} → (A → Type κ) → Option A → Type κ
Ran P none = Unit
Ran P (some r) = P r

module _ {ℓ} {A : Type ℓ} where
  pop_local-Settled :
      (fh : LocalQueue A) (nodes : List (QueueNode A)) (internal : DataQueue A)
      → Settled (nodes ++ internal.nodes) (pop_local fh nodes internal)
  unfolding pop_local
  pop_local-Settled fh [] internal = tt
  pop_local-Settled fh (n ∷ rest) internal = refl

  timeout-Settled :
      (expired : Bool) (nodes : List (QueueNode A))
      → Settled nodes (if expired then timed_out else waiting)
  timeout-Settled true nodes = tt
  timeout-Settled false nodes = tt

  dequeue-Settled :
      (expired : Bool) (fh : LocalQueue A) (internal : DataQueue A)
      → Settled (fh.lq.nodes ++ internal.nodes) (fistq_timeddequeue_any expired fh internal)
  unfolding fistq_timeddequeue_any
  dequeue-Settled expired fh internal = elim (Bool-cases (fh.lq.size == 0)) [
    | inr full ↦ rw full (pop_local-Settled fh fh.lq.nodes internal)
    | inl none_here ↦ elim (Bool-cases (internal.size == 0)) [
      | inl none_there ↦ rw (none_here, none_there) (timeout-Settled expired _)
      | inr full ↦
          rw (none_here, full)
            (subst
              (λ l. Settled l (
                pop_local (taken_over fh internal) (fh.lq.nodes ++ internal.nodes)
                  (emptied internal)))
              (append-nil _)
              (pop_local-Settled (taken_over fh internal) (fh.lq.nodes ++ internal.nodes)
                (emptied internal)))
    ]
  ]

  Moved : LocalQueue A → DataQueue A → LocalQueue A × DataQueue A → Type ℓ
  Moved fh internal r = (r.0.lq.nodes ≡ []) × (r.1.nodes ≡ internal.nodes ++ fh.lq.nodes)

  flush-Moved :
      (fh : LocalQueue A) (internal : DataQueue A)
      → Ran (Moved fh internal) (fistq_flush fh internal)
  unfolding fistq_flush Moved
  flush-Moved fh internal = elim (Bool-cases (fh.lq.size == 0)) [
    | inl e ↦ rw e tt
    | inr e ↦ rw e (refl, refl)
  ]

  Added : LocalQueue A → DataQueue A → QueueNode A → LocalQueue A × DataQueue A → Type ℓ
  Added fh internal n r = (r.0.lq.nodes ≡ fh.lq.nodes ++ n ∷ []) × (r.1 ≡ internal)

  enqueue-Added :
      (fh : LocalQueue A) (internal : DataQueue A) (x : A) (type : FistqDataType)
      → Ran
          (Added fh internal (record { data_of = x; type_of = type }))
          (fistq_enqueue_any true fh internal (some x) type fistq_noflush)
  unfolding fistq_enqueue_any Added
  enqueue-Added fh internal x type = (refl, refl)

-- The client threads, each with its handle, the reader and what has passed: the nodes each client has
-- enqueued, and those the reader has taken. A node's data are its client and a payload.
pub record System : Type 0 where
  pub writers : ℕ → LocalQueue (ℕ × ℕ)
  pub internal : DataQueue (ℕ × ℕ)
  pub reader : LocalQueue (ℕ × ℕ)
  pub sent : ℕ → List (QueueNode (ℕ × ℕ))
  pub received : List (QueueNode (ℕ × ℕ))

abbrev put {ℓ} : {A : Type ℓ} → (ℕ → A) → ℕ → A → ℕ → A
put f w a v = if w == v then a else f v

-- What is left of the nodes that a client has enqueued when those at their end are freed.
abbrev pub without_last {ℓ} : {A : Type ℓ} → List A → List A → List A
without_last sent freed = take (length sent - length freed) sent

-- The steps of the threads, in any interleaving: each is a call that goes through. With `destroyed` the
-- handle of a client is destroyed and its own queue is freed, and the client goes on with the handle of
-- another, empty queue; the thread that dequeues keeps its handle, so the shared queue stays. What is
-- freed does not count as sent any more.
pub data Step : System → System → Type 0 where
  enqueued :
      (s : System) (w x : ℕ) (type : FistqDataType) (fh : LocalQueue (ℕ × ℕ))
      (q : DataQueue (ℕ × ℕ))
      → fistq_enqueue_any true (s.writers w) s.internal (some (w, x)) type fistq_noflush
        ≡ some (fh, q)
      → Step s (record s {
        writers = put s.writers w fh;
        internal = q;
        sent = put s.sent w (s.sent w ++ record { data_of = (w, x); type_of = type } ∷ []);
      })
  flushed :
      (s : System) (w : ℕ) (fh : LocalQueue (ℕ × ℕ)) (q : DataQueue (ℕ × ℕ))
      → fistq_flush (s.writers w) s.internal ≡ some (fh, q)
      → Step s (record s { writers = put s.writers w fh; internal = q })
  destroyed :
      (s : System) (w : ℕ) (fh : LocalQueue (ℕ × ℕ))
      → fh.lq.nodes ≡ []
      → Step s (record s {
        writers = put s.writers w fh;
        sent = put s.sent w (without_last (s.sent w) (s.writers w).lq.nodes);
      })
  dequeued :
      (s : System) (expired : Bool) (n : QueueNode (ℕ × ℕ)) (fh : LocalQueue (ℕ × ℕ))
      (q : DataQueue (ℕ × ℕ))
      → fistq_timeddequeue_any expired s.reader s.internal ≡ item n fh q
      → Step s (record s { internal = q; reader = fh; received = s.received ++ n ∷ [] })

-- The states that a start leads to.
pub data Reach (start : System) : System → Type 0 where
  here : Reach start start
  step : (s t : System) → Reach start s → Step s t → Reach start t

-- The nodes of one client.
abbrev pub from : ℕ → List (QueueNode (ℕ × ℕ)) → List (QueueNode (ℕ × ℕ))
from w [] = []
from w (n ∷ ns) = let rest = from w ns in if n.data_of.0 == w then n ∷ rest else rest

from-append :
    (w : ℕ) (ns ms : List (QueueNode (ℕ × ℕ))) → from w (ns ++ ms) ≡ from w ns ++ from w ms
from-append w [] ms = refl
from-append w (n ∷ ns) ms = ground (arith, from-append w ns ms)

from-own : (w : ℕ) (ns : List (QueueNode (ℕ × ℕ))) → All (λ n. n.data_of.0 ≡ w) ns → from w ns ≡ ns
from-own w [] h = refl
from-own w (n ∷ ns) h = ground (arith, from-own w ns h.1, h.0)

from-others :
    (v w : ℕ) (ns : List (QueueNode (ℕ × ℕ)))
    → v ≢ w
    → All (λ n. n.data_of.0 ≡ v) ns
    → from w ns ≡ []
from-others v w [] d h = refl
from-others v w (n ∷ ns) d h = ground (arith, from-others v w ns d h.1, h.0)

-- Everything a client has enqueued, by where it is now.
abbrev pub journey : System → ℕ → List (QueueNode (ℕ × ℕ))
journey s w =
    from w (s.received ++ (s.reader.lq.nodes ++ s.internal.nodes)) ++ (s.writers w).lq.nodes

pub record IsOrdered (s : System) : Type 0 where
  pub own : (v : ℕ) → All (λ n. n.data_of.0 ≡ v) (s.writers v).lq.nodes
  pub order : (w : ℕ) → journey s w ≡ s.sent w

at_owner : (P : ℕ → Type 0) (w : ℕ) → P w → ((v : ℕ) → w ≢ v → P v) → (v : ℕ) → P v
at_owner P w own others v = elim (Bool-cases (w == v)) [
  | inl e ↦ subst P (ground (arith, e)) own
  | inr e ↦ others v (ground (arith, e))
]

module _ {ℓ} {A : Type ℓ} (f : ℕ → A) (w : ℕ) (x : A) where
  put-owner : put f w x w ≡ x
  put-owner = let e : (w == w) ≡ true = ground arith in rw e refl

  put-others : (v : ℕ) → w ≢ v → put f w x v ≡ f v
  put-others v d = let e : (w == v) ≡ false = ground (arith, d) in rw e refl

All-snoc :
    (v : ℕ) (ns : List (QueueNode (ℕ × ℕ))) (n : QueueNode (ℕ × ℕ))
    → All (λ m. m.data_of.0 ≡ v) ns
    → n.data_of.0 ≡ v
    → All (λ m. m.data_of.0 ≡ v) (ns ++ n ∷ [])
All-snoc v [] n h e = (e, tt)
All-snoc v (m ∷ ns) n h e = (h.0, All-snoc v ns n h.1 e)

enqueued-IsOrdered :
    (s : System) (w x : ℕ) (type : FistqDataType) (fh : LocalQueue (ℕ × ℕ)) (q : DataQueue (ℕ × ℕ))
    → IsOrdered s
    → Added (s.writers w) s.internal (record { data_of = (w, x); type_of = type }) (fh, q)
    → IsOrdered (record s {
      writers = put s.writers w fh;
      internal = q;
      sent = put s.sent w (s.sent w ++ record { data_of = (w, x); type_of = type } ∷ []);
    })
unfolding Added
enqueued-IsOrdered s w x type fh q v a =
    let n : QueueNode (ℕ × ℕ) = record { data_of = (w, x); type_of = type } in
    let seen : ℕ → List (QueueNode (ℕ × ℕ)) =
      λ u. from u (s.received ++ (s.reader.lq.nodes ++ q.nodes)) in
    let before : (u : ℕ) → seen u ++ (s.writers u).lq.nodes ≡ s.sent u = λ u. rw a.1 (v.order u) in
    record {
      own =
          at_owner (λ u. All (λ m. m.data_of.0 ≡ u) (put s.writers w fh u).lq.nodes) w
            (rw (put-owner s.writers w fh, a.0)
              (All-snoc w (s.writers w).lq.nodes n (v.own w) refl))
            (λ u d. rw (put-others s.writers w fh u d) (v.own u));
      order =
          at_owner
            (λ u. seen u ++ (put s.writers w fh u).lq.nodes ≡ put s.sent w (s.sent w ++ n ∷ []) u) w
            (rw (put-owner s.writers w fh, put-owner s.sent w (s.sent w ++ n ∷ []), a.0)
              (sym (append_assoc (seen w) (s.writers w).lq.nodes (n ∷ []))
                ∙ ap (λ l. l ++ n ∷ []) (before w)))
            (λ u d.
              rw (put-others s.writers w fh u d, put-others s.sent w (s.sent w ++ n ∷ []) u d)
                (before u));
    }

flushed-IsOrdered :
    (s : System) (w : ℕ) (fh : LocalQueue (ℕ × ℕ)) (q : DataQueue (ℕ × ℕ))
    → IsOrdered s
    → Moved (s.writers w) s.internal (fh, q)
    → IsOrdered (record s { writers = put s.writers w fh; internal = q })
unfolding Moved
flushed-IsOrdered s w fh q v m =
    let wr = (s.writers w).lq.nodes in
    let seen : (u : ℕ)
        → from u (s.received ++ (s.reader.lq.nodes ++ q.nodes))
          ≡ from u (s.received ++ (s.reader.lq.nodes ++ s.internal.nodes)) ++ from u wr =
      λ u. rw m.1 (
        ap (from u) (
          ap (λ l. s.received ++ l) (sym (append_assoc s.reader.lq.nodes s.internal.nodes wr))
          ∙ sym (append_assoc s.received (s.reader.lq.nodes ++ s.internal.nodes) wr))
        ∙ from-append u (s.received ++ (s.reader.lq.nodes ++ s.internal.nodes)) wr) in
    record {
      own =
          at_owner (λ u. All (λ n. n.data_of.0 ≡ u) (put s.writers w fh u).lq.nodes) w
            (rw (put-owner s.writers w fh, m.0) tt)
            (λ u d. rw (put-others s.writers w fh u d) (v.own u));
      order =
          at_owner
            (λ u.
              from u (s.received ++ (s.reader.lq.nodes ++ q.nodes))
                ++ (put s.writers w fh u).lq.nodes
              ≡ s.sent u)
            w
            (rw (put-owner s.writers w fh, seen w, from-own w wr (v.own w), m.0)
              (append-nil _ ∙ v.order w))
            (λ u d.
              rw
                (
                  put-others s.writers w fh u d,
                  seen u,
                  from-others w u wr d (v.own w),
                  append-nil (from u (s.received ++ (s.reader.lq.nodes ++ s.internal.nodes))),
                )
                (v.order u));
    }

take-prefix : {A : Type 0} → (n : ℕ) (xs ys : List A) → n ≡ length xs → take n (xs ++ ys) ≡ xs
take-prefix zero [] ys e = refl
take-prefix zero (x ∷ xs) ys e = absurd (omega (arith, e))
take-prefix (suc n) [] ys e = absurd (omega (arith, e))
take-prefix (suc n) (x ∷ xs) ys e = ap (λ l. x ∷ l) (take-prefix n xs ys (omega (arith, e)))

destroyed-IsOrdered :
    (s : System) (w : ℕ) (fh : LocalQueue (ℕ × ℕ))
    → IsOrdered s
    → fh.lq.nodes ≡ []
    → IsOrdered (record s {
      writers = put s.writers w fh;
      sent = put s.sent w (without_last (s.sent w) (s.writers w).lq.nodes);
    })
destroyed-IsOrdered s w fh v e =
    let wr = (s.writers w).lq.nodes in
    let seen : ℕ → List (QueueNode (ℕ × ℕ)) =
      λ u. from u (s.received ++ (s.reader.lq.nodes ++ s.internal.nodes)) in
    let left : without_last (s.sent w) wr ≡ seen w =
      subst (λ l. without_last l wr ≡ seen w) (v.order w)
        (take-prefix (length (seen w ++ wr) - length wr) (seen w) wr
          (omega (arith, length-append (seen w) wr))) in
    record {
      own =
          at_owner (λ u. All (λ n. n.data_of.0 ≡ u) (put s.writers w fh u).lq.nodes) w
            (rw (put-owner s.writers w fh, e) tt)
            (λ u d. rw (put-others s.writers w fh u d) (v.own u));
      order =
          at_owner
            (λ u.
              seen u ++ (put s.writers w fh u).lq.nodes
              ≡ put s.sent w (without_last (s.sent w) wr) u)
            w
            (rw (put-owner s.writers w fh, put-owner s.sent w (without_last (s.sent w) wr), e)
              (append-nil _ ∙ sym left))
            (λ u d.
              rw
                (
                  put-others s.writers w fh u d,
                  put-others s.sent w (without_last (s.sent w) wr) u d,
                )
                (v.order u));
    }

dequeued-IsOrdered :
    (s : System) (n : QueueNode (ℕ × ℕ)) (fh : LocalQueue (ℕ × ℕ)) (q : DataQueue (ℕ × ℕ))
    → IsOrdered s
    → s.reader.lq.nodes ++ s.internal.nodes ≡ n ∷ (fh.lq.nodes ++ q.nodes)
    → IsOrdered (record s { internal = q; reader = fh; received = s.received ++ n ∷ [] })
dequeued-IsOrdered s n fh q v e = record {
  own = v.own;
  order = λ u.
      ap (λ l. from u l ++ (s.writers u).lq.nodes)
        (append_assoc s.received (n ∷ []) (fh.lq.nodes ++ q.nodes)
          ∙ ap (λ l. s.received ++ l) (sym e))
      ∙ v.order u;
}

Step-IsOrdered : (s t : System) → Step s t → IsOrdered s → IsOrdered t
Step-IsOrdered _ _ (enqueued s w x type fh q ran) v = enqueued-IsOrdered s w x type fh q v (
    subst (Ran (Added (s.writers w) s.internal (record { data_of = (w, x); type_of = type }))) ran
      (enqueue-Added (s.writers w) s.internal (w, x) type))
Step-IsOrdered _ _ (flushed s w fh q ran) v =
    flushed-IsOrdered s w fh q v
      (subst (Ran (Moved (s.writers w) s.internal)) ran (flush-Moved (s.writers w) s.internal))
Step-IsOrdered _ _ (destroyed s w fh e) v = destroyed-IsOrdered s w fh v e
Step-IsOrdered _ _ (dequeued s expired n fh q ran) v = dequeued-IsOrdered s n fh q v (
    subst (Settled (s.reader.lq.nodes ++ s.internal.nodes)) ran
      (dequeue-Settled expired s.reader s.internal))

-- However the threads' enqueueing without flushing, flushing, destroying of a client's handle and
-- dequeueing with a time-out interleave, from a state in which it holds on: of each client, the nodes
-- that the reader has taken, those in the reader's queue, in the shared queue and in the client's own
-- queue are, in this order, exactly the nodes it has enqueued, without those that were in its own queue
-- when its handle was destroyed. With these calls no other node is lost, and none doubled or overtaken.
pub Reach-IsOrdered : (s t : System) → IsOrdered s → Reach s t → IsOrdered t
Reach-IsOrdered s _ v here = v
Reach-IsOrdered s _ v (step u t r m) = Step-IsOrdered u t m (Reach-IsOrdered s u v r)
