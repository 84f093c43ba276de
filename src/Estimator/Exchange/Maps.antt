-- ===== src/Estimator/Exchange/Maps.antt =====
-- The moves between the lists of maps, and the counts beside the lists.
use mathlib.Core.List.{append_assoc, append-nil}
use estimators.Prelude.{
  ℕ, ◌%◌, ◌^◌, ◌≡◌, refl, sym, ap, subst, arith, List, [], ◌∷◌, ◌++◌, length, length-append,
}
use estimators.Hashmap.Lists.{
  HashMapList, pop_earliest, push_latest, moveone_hashmap, moveall_hashmap,
}

abbrev pub IsCounted : HashMapList → Type 0
IsCounted l = l.count ≡ length l.maps % 2 ^ 32

pub moveall-maps :
    (to : HashMapList) (n : ℕ) (ms : List ℕ)
    → let from : HashMapList = record { count = n; maps = ms } in
      let moved = moveall_hashmap to from in
      (moved.0.maps ≡ to.maps ++ ms)
      × (moved.1.maps ≡ [])
      × (IsCounted to → IsCounted from → IsCounted moved.0 × IsCounted moved.1)
unfolding moveall_hashmap
moveall-maps to n [] = (sym (append-nil to.maps), refl, λ c d. (c, d))
moveall-maps to n (m ∷ ms) =
    (refl, refl, λ c d. (omega (arith, c, d, length-append to.maps (m ∷ ms)), refl))

moveone-maps :
    (to : HashMapList) (n m : ℕ) (ms : List ℕ)
    → let from : HashMapList = record { count = n; maps = m ∷ ms } in
      let moved = moveone_hashmap to from in
      (moved.0.maps ≡ to.maps ++ m ∷ [])
      × (moved.1.maps ≡ ms)
      × (IsCounted to → IsCounted moved.0)
      × (IsCounted from → IsCounted moved.1)
unfolding moveone_hashmap pop_earliest push_latest
moveone-maps to n m ms =
    (refl, refl, λ c. omega (arith, c, length-append to.maps (m ∷ [])), λ d. omega (arith, d))

pub moveone-first :
    (to from : HashMapList) (m : ℕ) (ms : List ℕ)
    → from.maps ≡ m ∷ ms
    → let moved = moveone_hashmap to from in
      (moved.0.maps ≡ to.maps ++ m ∷ [])
      × (moved.1.maps ≡ ms)
      × (IsCounted to → IsCounted moved.0)
      × (IsCounted from → IsCounted moved.1)
moveone-first to from m ms e =
    subst
      (λ f.
        ((moveone_hashmap to f).0.maps ≡ to.maps ++ m ∷ [])
        × ((moveone_hashmap to f).1.maps ≡ ms)
        × (IsCounted to → IsCounted (moveone_hashmap to f).0)
        × (IsCounted f → IsCounted (moveone_hashmap to f).1))
      (ap (λ xs. record { count = from.count; maps = xs }) (sym e))
      (moveone-maps to from.count m ms)

pub append-last :
    (c r s o : List ℕ) (m p : ℕ)
    → c ++ r ++ s ++ m ∷ [] ≡ o
    → c ++ r ++ (s ++ m ∷ []) ++ p ∷ [] ≡ o ++ p ∷ []
append-last c r s o m p e = rw (sym e) (simp append_assoc)

pub append-middle : (c r s a o : List ℕ) → c ++ r ++ s ++ a ≡ o → c ++ (r ++ s) ++ [] ++ a ≡ o
append-middle c r s a o e = rw (sym e) (simp append_assoc)

pub append-first :
    (c r s a o : List ℕ) (m : ℕ) → c ++ (m ∷ r) ++ s ++ a ≡ o → (c ++ m ∷ []) ++ r ++ s ++ a ≡ o
append-first c r s a o m e = rw (sym e) (simp append_assoc)

pub push-IsCounted : (l : HashMapList) (p : ℕ) → IsCounted l → IsCounted (push_latest l p)
unfolding push_latest
push-IsCounted l p c = omega (arith, c, length-append l.maps (p ∷ []))
