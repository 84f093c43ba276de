-- ===== src/Reorder/Destroy.antt =====
-- The destructors of reorderdata.c, and the comparisons of the trees' keys.
use estimators.Prelude.{
  ℕ, zero, suc, ◌≤◌, ◌≡◌, refl, ap, ◌∙◌, arith, Bool, true, false, ◌==◌, ltb, Bool-cases, inl, inr,
  if◌then◌else◌, List, [], ◌∷◌, length, none, some,
}
use estimators.Seqno.{Sign, minus, null, plus}
use estimators.Reorder.Containers.{SeqTree, SeqQueue, elem, Run, ok, fault, unfinished, Ends}

-- The comparison of a key with that of a node.
unfoldable pub mp_compare : ℕ → ℕ → Sign
mp_compare seq node = if ltb seq node then minus else if ltb node seq then plus else null

unfoldable pub buffer_compare : ℕ → ℕ → Sign
buffer_compare seq node = if ltb seq node then minus else if ltb node seq then plus else null

order_eq : (seq node : ℕ) → mp_compare seq node ≡ null → seq ≡ node
unfolding mp_compare
order_eq seq node e = elim (Bool-cases (ltb seq node)) [
  | inl l ↦ absurd (cc (rw l at e))
  | inr l ↦ elim (Bool-cases (ltb node seq)) [
    | inl m ↦ absurd (cc (rw (l, m) at e))
    | inr m ↦ ground (arith, l, m)
  ]
]

both_false : (b : Bool) → (if b then false else false) ≡ false
both_false true = refl
both_false false = refl

none_left : (b : Bool) → (if b then false else b) ≡ false
none_left true = refl
none_left false = refl

-- Either comparison is that of the numbers, and none of it depends on the wrap-around.
pub compare_order :
    (seq node : ℕ)
    → (mp_compare seq node ≡ buffer_compare seq node)
      × (mp_compare seq node ≡ null → seq ≡ node)
      × (mp_compare seq seq ≡ null)
unfolding mp_compare buffer_compare
compare_order seq node = (refl, λ e. order_eq seq node e, ground arith)

module _ (tree : SeqTree) where
  open tree use {Tree, rbtree_lookup_key, rbtree_remove, inorder, lookup-remove, inorder-lookup}

  -- `rbtree_for_each_safe` over the keys that the tree has at the start.
  abbrev pub remove_all : List ℕ → Tree → Tree
  remove_all [] t = t
  remove_all (k ∷ ks) t = remove_all ks (rbtree_remove t k)

  -- The keys whose nodes are freed, in order, and the tree that is left.
  unfoldable pub reorderdata_destroy_missing_packets : Tree → List ℕ × Tree
  reorderdata_destroy_missing_packets t = (inorder t, remove_all (inorder t) t)

  unfoldable pub reorderdata_destroy_rd_buffer : Tree → List ℕ × Tree
  reorderdata_destroy_rd_buffer t = (inorder t, remove_all (inorder t) t)

  remove_all-lookup :
      (ks : List ℕ) (t : Tree) (k : ℕ)
      → rbtree_lookup_key (remove_all ks t) k ≡ (if elem k ks then false else rbtree_lookup_key t k)
  remove_all-lookup [] t k = refl
  remove_all-lookup (j ∷ ks) t k =
      remove_all-lookup ks (rbtree_remove t j) k ∙ elim (Bool-cases (j == k)) [
        | inl e ↦ rw (lookup-remove t j k, e) (both_false (elem k ks))
        | inr e ↦ rw (lookup-remove t j k, e) refl
      ]

  -- The destructors of the trees free the node of each key that is in the tree, and leave a tree in
  -- which no key is found.
  pub destroy-lookup :
      (t : Tree) (k : ℕ)
      → (elem k (reorderdata_destroy_missing_packets t).0 ≡ rbtree_lookup_key t k)
        × (rbtree_lookup_key (reorderdata_destroy_missing_packets t).1 k ≡ false)
        × (elem k (reorderdata_destroy_rd_buffer t).0 ≡ rbtree_lookup_key t k)
        × (rbtree_lookup_key (reorderdata_destroy_rd_buffer t).1 k ≡ false)
  unfolding reorderdata_destroy_missing_packets reorderdata_destroy_rd_buffer
  destroy-lookup t k =
      let all = remove_all-lookup (inorder t) t k in
      let gone : rbtree_lookup_key (remove_all (inorder t) t) k ≡ false =
        all ∙ rw (inorder-lookup t k) (none_left (rbtree_lookup_key t k)) in
      (inorder-lookup t k, gone, inorder-lookup t k, gone)

module _ (queue : SeqQueue) where
  open queue use {Queue, queue_pop, entries, pop-nil, pop-cons}

  -- `while (!queue_empty(window))`, with what is freed.
  unfoldable pub reorderdata_destroy_rd_window : ℕ → Queue → Run (List ℕ × Queue)
  reorderdata_destroy_rd_window zero window = elim (queue_pop window) [
    | none ↦ ok ([], window)
    | some r ↦ unfinished
  ]
  reorderdata_destroy_rd_window (suc rounds) window = elim (queue_pop window) [
    | none ↦ ok ([], window)
    | some (x, rest) ↦ elim (reorderdata_destroy_rd_window rounds rest) [
      | ok (freed, left) ↦ ok (x ∷ freed, left)
      | fault ↦ fault
      | unfinished ↦ unfinished
    ]
  ]

  abbrev pub IsDrained : List ℕ → List ℕ × Queue → Type 0
  IsDrained xs (freed, left) = (freed ≡ xs) × (entries left ≡ []) × (queue_pop left ≡ none)

  push-freed :
      (x : ℕ) (xs : List ℕ) (r : Run (List ℕ × Queue))
      → Ends (IsDrained xs) r
      → Ends (IsDrained (x ∷ xs)) (elim r [
        | ok (freed, left) ↦ ok (x ∷ freed, left)
        | fault ↦ fault
        | unfinished ↦ unfinished
      ])
  push-freed x xs (ok (freed, left)) (e, l, n) = (ap (λ ys. x ∷ ys) e, l, n)
  push-freed x xs fault h = h
  push-freed x xs unfinished h = h

  window-nil :
      (rounds : ℕ) (window : Queue)
      → queue_pop window ≡ none
      → reorderdata_destroy_rd_window rounds window ≡ ok ([], window)
  unfolding reorderdata_destroy_rd_window
  window-nil zero window p = rw (p, reorderdata_destroy_rd_window) refl
  window-nil (suc rounds) window p = rw (p, reorderdata_destroy_rd_window) refl

  window-cons :
      (rounds : ℕ) (window rest : Queue) (x : ℕ)
      → queue_pop window ≡ some (x, rest)
      → reorderdata_destroy_rd_window (suc rounds) window
        ≡ elim (reorderdata_destroy_rd_window rounds rest) [
          | ok (freed, left) ↦ ok (x ∷ freed, left)
          | fault ↦ fault
          | unfinished ↦ unfinished
        ]
  unfolding reorderdata_destroy_rd_window
  window-cons rounds window rest x p = rw (p, reorderdata_destroy_rd_window) refl

  drain-lem :
      (xs : List ℕ) (rounds : ℕ) (window : Queue)
      → entries window ≡ xs
      → length xs ≤ rounds
      → Ends (IsDrained xs) (reorderdata_destroy_rd_window rounds window)
  drain-lem [] rounds window e h =
      let p = pop-nil window e in rw (window-nil rounds window p) (refl, e, p)
  drain-lem (x ∷ xs) zero window e h = absurd (omega arith)
  drain-lem (x ∷ xs) (suc rounds) window e h =
      let (rest, popped, left) = pop-cons window x xs e in
      rw (window-cons rounds window rest x popped) (
        push-freed x xs (reorderdata_destroy_rd_window rounds rest)
          (drain-lem xs rounds rest left (omega arith)))

  -- The destructor of the window frees its entries in their order, and leaves it empty; as many rounds
  -- as there are entries are enough.
  pub destroy_rd_window-Ends :
      (rounds : ℕ) (window : Queue)
      → length (entries window) ≤ rounds
      → Ends (IsDrained (entries window)) (reorderdata_destroy_rd_window rounds window)
  destroy_rd_window-Ends rounds window h = drain-lem (entries window) rounds window refl h
