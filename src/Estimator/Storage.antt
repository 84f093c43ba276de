-- ===== src/Estimator/Storage.antt =====
-- The exchanges between aggregator, shared area and reporter: no storage is lost and none is given away
-- twice.

use estimators.Prelude.{ℕ, ◌+◌, ◌≡◌, refl, arith, ◌==◌, if◌then◌else◌, List, [], ◌∷◌, ◌++◌}
use estimators.Ranges.{move_seqnorangelist}
use estimators.Hashmap.{move_hmilist}
use estimators.Hashmap.Lists.{
  HashMapList, pop_earliest, push_latest, moveone_hashmap, moveall_hashmap,
}
use estimators.Estimator.Service.{
  Holding, move_freelists, data_exchange_aggregator_unsafe, data_exchange_reporter_unsafe,
}
use estimators.Estimator.Exchange.Maps.{moveall-maps}

-- How often an address is in a list.
abbrev pub occurs : ℕ → List ℕ → ℕ
occurs p [] = 0
occurs p (q ∷ qs) = (if p == q then 1 else 0) + occurs p qs

pub occurs-append : (p : ℕ) (xs ys : List ℕ) → occurs p (xs ++ ys) ≡ occurs p xs + occurs p ys
occurs-append p [] ys = omega arith
occurs-append p (x ∷ xs) ys = omega (arith, occurs-append p xs ys)

-- An address is in two lists, taken together, as often as in two others.
abbrev pub SameTotal : ℕ → List ℕ × List ℕ → List ℕ × List ℕ → Type 0
SameTotal p (a, b) (c, d) = occurs p a + occurs p b ≡ occurs p c + occurs p d

-- All maps of a holding, those of the periods and the free ones.
abbrev pub maps_held : Holding → List ℕ
maps_held hd = hd.working.maps ++ hd.free_hashmaps.maps

-- Two holdings have, taken together, the maps, the items and the ranges of two others.
pub record Conserves (after before : Holding × Holding) : Type 0 where
  pub maps :
      (p : ℕ)
      → SameTotal p (maps_held after.0, maps_held after.1) (maps_held before.0, maps_held before.1)
  pub items :
      (p : ℕ)
      → SameTotal p
          (after.0.free_hashmapitems, after.1.free_hashmapitems)
          (before.0.free_hashmapitems, before.1.free_hashmapitems)
  pub lossranges :
      (p : ℕ)
      → SameTotal p
          (after.0.free_lossranges, after.1.free_lossranges)
          (before.0.free_lossranges, before.1.free_lossranges)
  pub reorderranges :
      (p : ℕ)
      → SameTotal p
          (after.0.free_reorderranges, after.1.free_reorderranges)
          (before.0.free_reorderranges, before.1.free_reorderranges)

hmilist-SameTotal : (p : ℕ) (to from : List ℕ) → SameTotal p (move_hmilist to from) (to, from)
unfolding move_hmilist
hmilist-SameTotal p to [] = refl
hmilist-SameTotal p [] (x ∷ from) = omega arith
hmilist-SameTotal p (t ∷ to) (x ∷ from) = omega (arith, occurs-append p (t ∷ to) (x ∷ from))

ranges-SameTotal : (p : ℕ) (to from : List ℕ) → SameTotal p (move_seqnorangelist to from) (to, from)
unfolding move_seqnorangelist
ranges-SameTotal p to [] = refl
ranges-SameTotal p [] (x ∷ from) = omega arith
ranges-SameTotal p (t ∷ to) (x ∷ from) = omega (arith, occurs-append p (t ∷ to) (x ∷ from))

moveall-SameTotal :
    (p : ℕ) (to from : HashMapList)
    → let moved = moveall_hashmap to from in
      SameTotal p (moved.0.maps, moved.1.maps) (to.maps, from.maps)
moveall-SameTotal p to from =
    let (moved, left, counts) = moveall-maps to from.count from.maps in
    rw (moved, left) (omega (arith, occurs-append p to.maps from.maps))

moveone-SameTotal :
    (p n : ℕ) (to : HashMapList) (ms : List ℕ)
    → let moved = moveone_hashmap to (record { count = n; maps = ms }) in
      SameTotal p (moved.0.maps, moved.1.maps) (to.maps, ms)
unfolding moveone_hashmap pop_earliest push_latest
moveone-SameTotal p n to [] = refl
moveone-SameTotal p n to (m ∷ ms) = omega (arith, occurs-append p to.maps (m ∷ []))

-- Each of the two exchanges leaves every map, every free item and every free range of the two sides
-- with one of them, and as often as it was there.
pub exchange-Conserves :
    (agg shared rep : Holding)
    → Conserves (data_exchange_aggregator_unsafe agg shared) (agg, shared)
      × Conserves (data_exchange_reporter_unsafe shared rep) (shared, rep)
unfolding data_exchange_aggregator_unsafe data_exchange_reporter_unsafe move_freelists
exchange-Conserves agg shared rep = (
  record {
    maps = λ p.
        let one = moveone-SameTotal p agg.working.count shared.working agg.working.maps in
        let free = moveall-SameTotal p agg.free_hashmaps shared.free_hashmaps in
        let moved = moveone_hashmap shared.working agg.working in
        let frees = moveall_hashmap agg.free_hashmaps shared.free_hashmaps in
        omega (
          arith,
          one,
          free,
          occurs-append p moved.1.maps frees.0.maps,
          occurs-append p moved.0.maps frees.1.maps,
          occurs-append p agg.working.maps agg.free_hashmaps.maps,
          occurs-append p shared.working.maps shared.free_hashmaps.maps,
        );
    items = λ p. hmilist-SameTotal p agg.free_hashmapitems shared.free_hashmapitems;
    lossranges = λ p. ranges-SameTotal p agg.free_lossranges shared.free_lossranges;
    reorderranges = λ p. ranges-SameTotal p agg.free_reorderranges shared.free_reorderranges;
  },
  record {
    maps = λ p.
        let all = moveall-SameTotal p rep.working shared.working in
        let free = moveall-SameTotal p shared.free_hashmaps rep.free_hashmaps in
        let moved = moveall_hashmap rep.working shared.working in
        let frees = moveall_hashmap shared.free_hashmaps rep.free_hashmaps in
        omega (
          arith,
          all,
          free,
          occurs-append p moved.1.maps frees.0.maps,
          occurs-append p moved.0.maps frees.1.maps,
          occurs-append p shared.working.maps shared.free_hashmaps.maps,
          occurs-append p rep.working.maps rep.free_hashmaps.maps,
        );
    items = λ p. hmilist-SameTotal p shared.free_hashmapitems rep.free_hashmapitems;
    lossranges = λ p. ranges-SameTotal p shared.free_lossranges rep.free_lossranges;
    reorderranges = λ p. ranges-SameTotal p shared.free_reorderranges rep.free_reorderranges;
  },
)
