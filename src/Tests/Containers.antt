-- ===== src/Tests/Containers.antt =====
-- Lists as the containers of the reorder analysis: they satisfy the laws of the two interfaces.
use estimators.Prelude.{
  ℕ, ◌≡◌, refl, true, false, ◌==◌, if◌then◌else◌, List, [], ◌∷◌, ◌++◌, Option, none, some, arith,
}
use estimators.Reorder.Containers.{elem, SeqTree, SeqQueue}

abbrev pub remove : List ℕ → ℕ → List ℕ
remove [] k = []
remove (x ∷ xs) k = let rest = remove xs k in if x == k then rest else x ∷ rest

pub elem-remove :
    (xs : List ℕ) (k j : ℕ) → elem j (remove xs k) ≡ (if k == j then false else elem j xs)
elem-remove [] k j = ground arith
elem-remove (x ∷ xs) k j = ground (arith, elem-remove xs k j)

pub elem-insert : (xs : List ℕ) (k j : ℕ) → elem j (k ∷ xs) ≡ (if k == j then true else elem j xs)
elem-insert xs k j = ground arith

abbrev pub list_tree : SeqTree
list_tree = record {
  Tree = List ℕ;
  rbtree_init = [];
  rbtree_lookup_key = λ t k. elem k t;
  rbtree_insert = λ t k. k ∷ t;
  rbtree_remove = remove;
  inorder = λ t. t;
  lookup-init = λ k. refl;
  lookup-insert = elem-insert;
  lookup-remove = elem-remove;
  inorder-lookup = λ t k. refl;
}

abbrev pub pop : List ℕ → Option (ℕ × List ℕ)
pop [] = none
pop (x ∷ xs) = some (x, xs)

pub pop-empty : (q : List ℕ) → q ≡ [] → pop q ≡ none
pop-empty [] e = refl
pop-empty (x ∷ q) e = absurd (cc e)

abbrev pub list_queue : SeqQueue
list_queue = record {
  Queue = List ℕ;
  queue_init = [];
  queue_push = λ q x. q ++ x ∷ [];
  queue_pop = pop;
  entries = λ q. q;
  entries-init = refl;
  entries-push = λ q x. refl;
  pop-nil = pop-empty;
  pop-cons = λ q x xs e. (xs, rw e refl, refl);
}
