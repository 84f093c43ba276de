-- ===== src/Reorder/Containers.antt =====
-- The red-black tree and the queue that reorderdata.c calls, as interfaces with the behaviour that
-- rbtree.h and queue.h document. Their nodes hold a sequence number here: it is the key of a tree
-- node, and the whole of a queue entry.
use estimators.Prelude.{
  ℕ, ◌≡◌, refl, Bool, true, false, ◌||◌, ◌==◌, if◌then◌else◌, List, [], ◌∷◌, ◌++◌, Option, none,
  some,
}

abbrev pub elem : ℕ → List ℕ → Bool
elem k [] = false
elem k (x ∷ xs) = x == k || elem k xs

pub record SeqTree : Type 1 where
  pub Tree : Type 0
  pub rbtree_init : Tree
  pub rbtree_lookup_key : Tree → ℕ → Bool
  pub rbtree_insert : Tree → ℕ → Tree
  pub rbtree_remove : Tree → ℕ → Tree
  -- The order of `rbtree_for_each_safe`, which starts at `rbtree_first`.
  pub inorder : Tree → List ℕ
  pub lookup-init : (k : ℕ) → rbtree_lookup_key rbtree_init k ≡ false
  pub lookup-insert :
      (t : Tree) (k j : ℕ)
      → rbtree_lookup_key (rbtree_insert t k) j ≡ (if k == j then true else rbtree_lookup_key t j)
  pub lookup-remove :
      (t : Tree) (k j : ℕ)
      → rbtree_lookup_key (rbtree_remove t k) j ≡ (if k == j then false else rbtree_lookup_key t j)
  pub inorder-lookup : (t : Tree) (k : ℕ) → elem k (inorder t) ≡ rbtree_lookup_key t k

pub record SeqQueue : Type 1 where
  pub Queue : Type 0
  pub queue_init : Queue
  pub queue_push : Queue → ℕ → Queue
  -- `none` is the NULL of an empty queue.
  pub queue_pop : Queue → Option (ℕ × Queue)
  -- The order of `queue_for_each`.
  pub entries : Queue → List ℕ
  pub entries-init : entries queue_init ≡ []
  pub entries-push : (q : Queue) (x : ℕ) → entries (queue_push q x) ≡ entries q ++ x ∷ []
  pub pop-nil : (q : Queue) → entries q ≡ [] → queue_pop q ≡ none
  pub pop-cons :
      (q : Queue) (x : ℕ) (xs : List ℕ)
      → entries q ≡ x ∷ xs
      → (q' : Queue) × (queue_pop q ≡ some (x, q')) × (entries q' ≡ xs)

-- How a run of the reporter's code ends. `fault` is an access outside an array or through NULL, and
-- `unfinished` a loop that the given number of rounds did not end.
pub data Run {ℓ} (A : Type ℓ) : Type ℓ where
  ok : A → Run A
  fault : Run A
  unfinished : Run A

infixl 5 ◌>>=◌
abbrev pub ◌>>=◌ {ℓ κ} : {A : Type ℓ} {B : Type κ} → Run A → (A → Run B) → Run B
ok a >>= f = f a
fault >>= f = fault
unfinished >>= f = unfinished

-- A run that ends well, in a result with the given property.
abbrev pub Ends {ℓ} : {A : Type ℓ} → (A → Type 0) → Run A → Type 0
Ends P (ok a) = P a
Ends P fault = ⊥
Ends P unfinished = ⊥

pub Ends-bind {ℓ κ} :
    {A : Type ℓ} {B : Type κ} (P : A → Type 0) (Q : B → Type 0) (m : Run A) (f : A → Run B)
    → Ends P m
    → ((a : A) → P a → Ends Q (f a))
    → Ends Q (m >>= f)
Ends-bind P Q (ok a) f h k = k a h
Ends-bind P Q fault f h k = h
Ends-bind P Q unfinished f h k = h

-- An optional result that is there and has the property.
abbrev pub Given {ℓ} : {A : Type ℓ} → (A → Type 0) → Option A → Type 0
Given P (some a) = P a
Given P none = ⊥

pub Ends-if {ℓ} :
    {A : Type ℓ} (P : A → Type 0) (b : Bool) (m n : Run A)
    → (b ≡ true → Ends P m)
    → (b ≡ false → Ends P n)
    → Ends P (if b then m else n)
Ends-if P true m n h k = h refl
Ends-if P false m n h k = k refl

pub Ends-weaken {ℓ} :
    {A : Type ℓ} (P Q : A → Type 0) (m : Run A) → ((a : A) → P a → Q a) → Ends P m → Ends Q m
Ends-weaken P Q (ok a) k h = k a h
Ends-weaken P Q fault k h = h
Ends-weaken P Q unfinished k h = h
