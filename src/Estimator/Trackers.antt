-- ===== src/Estimator/Trackers.antt =====
-- What the loop of `reporter_thread` over the trackers does to what each of them says of the keys.
use estimators.Prelude.{
  ℕ, ◌≡◌, refl, ap, ◌∙◌, if◌then◌else◌, List, [], ◌∷◌, ◌++◌, All, All-both, All-every,
}
use estimators.Hashmap.{HashMap, HashMapKey, Items}
use estimators.Hashmap.Apart.{view-agree}
use estimators.Hashmap.View.{view, same_key}
use estimators.Estimator.Values.{ReporterData, Value}
use estimators.Estimator.Service.{Config, accumulate_time}
use estimators.Estimator.Reporter.{Desk, put_rep, force_local, track}
use estimators.Estimator.Sharing.{
  IsShared, swap-IsShared, rest-IsShared, front-IsShared, back-IsShared, force-IsShared, forced_in,
  forced_desk, forced_map, forced-own, forced-items, forced-other,
}

-- The report added to the one that a value holds.
abbrev pub with_report :
    {Tree Queue : Type 0} → Config → ReporterData → Value Tree Queue → Value Tree Queue
with_report config rd v = record v { rep_data = accumulate_time config v.rep_data rd }

module _ {Tree Queue : Type 0} (bytes : HashMapKey → List ℕ) (blank : Value Tree Queue)
    (malloc : ℕ → ℕ) (config : Config) where
  -- One tracker's share of the loop.
  abbrev timed : HashMapKey → ReporterData → HashMap → Desk Tree Queue → Desk Tree Queue
  timed k rd hm desk =
      let forced = forced_desk bytes blank malloc hm k desk in
      let p = (forced_in bytes blank malloc hm k desk).item in
      put_rep forced p (accumulate_time config (forced.items p).value.rep_data rd)

  pub track-items :
      (k : HashMapKey) (rd : ReporterData) (hms : List HashMap) (other : HashMap) (i : ℕ)
      (desk : Desk Tree Queue)
      → IsShared malloc desk.free_hmis_local desk.calls (other ∷ hms)
      → All
          (λ q. (track bytes blank malloc config k rd hms desk).1.items q ≡ desk.items q)
          (other.hash_table i)
  unfolding track force_local
  track-items k rd [] other i desk v = All-every (other.hash_table i) (λ q. refl)
  track-items k rd (hm ∷ rest) other i desk v =
      let w = swap-IsShared malloc desk.free_hmis_local desk.calls other hm rest v in
      let next = force-IsShared bytes blank malloc hm k desk (other ∷ rest) w in
      let later = track-items k rd rest other i (timed k rd hm desk) (
        rest-IsShared malloc (timed k rd hm desk).free_hmis_local (timed k rd hm desk).calls
          (forced_map bytes blank malloc hm k desk) (other ∷ rest) next) in
      let first =
        forced-items bytes blank malloc hm other k desk (with_report config rd) i w.fresh.0
          w.fresh.1.0 w.separate.0.0 in
      All-both (other.hash_table i) (λ q e f. e ∙ f) later first

  -- The trackers go on sharing, with any other maps that share with them.
  pub track-IsShared :
      (k : HashMapKey) (rd : ReporterData) (others hms : List HashMap) (desk : Desk Tree Queue)
      → IsShared malloc desk.free_hmis_local desk.calls (others ++ hms)
      → let r = track bytes blank malloc config k rd hms desk in
        IsShared malloc r.1.free_hmis_local r.1.calls (others ++ r.0)
  unfolding track force_local
  track-IsShared k rd others [] desk v = v
  track-IsShared k rd others (hm ∷ rest) desk v =
      let hm' = forced_map bytes blank malloc hm k desk in
      let desk' = timed k rd hm desk in
      let r = track bytes blank malloc config k rd rest desk' in
      let next =
        force-IsShared bytes blank malloc hm k desk (others ++ rest)
          (front-IsShared malloc desk.free_hmis_local desk.calls others hm rest v) in
      back-IsShared malloc r.1.free_hmis_local r.1.calls others hm' r.0
        (track-IsShared k rd (hm' ∷ others) rest desk' next)

  track-other :
      (k j : HashMapKey) (rd : ReporterData) (hms : List HashMap) (other : HashMap)
      (desk : Desk Tree Queue)
      → IsShared malloc desk.free_hmis_local desk.calls (other ∷ hms)
      → view bytes blank (track bytes blank malloc config k rd hms desk).1.items other j
        ≡ view bytes blank desk.items other j
  track-other k j rd hms other desk v =
      view-agree bytes blank desk.items (track bytes blank malloc config k rd hms desk).1.items
        other j (λ i. track-items k rd hms other i desk v)

  -- The maps before and after.
  abbrev pub Tracked :
      HashMapKey
      → ReporterData
      → Items (Value Tree Queue)
      → Items (Value Tree Queue)
      → List HashMap
      → List HashMap
      → Type 0
  Tracked k rd h h' [] [] = Unit
  Tracked k rd h h' (hm ∷ rest) (hm' ∷ rest') =
      ((j : HashMapKey)
        → view bytes blank h' hm' j ≡ (
            if same_key bytes k j
            then with_report config rd (view bytes blank h hm j)
            else view bytes blank h hm j))
      × Tracked k rd h h' rest rest'
  Tracked k rd h h' _ _ = ⊥

  pub Tracked-before :
      (k : HashMapKey) (rd : ReporterData) (h₀ h h' : Items (Value Tree Queue))
      (hms hms' : List HashMap)
      → All (λ hm. (j : HashMapKey) → view bytes blank h hm j ≡ view bytes blank h₀ hm j) hms
      → Tracked k rd h h' hms hms'
      → Tracked k rd h₀ h' hms hms'
  Tracked-before k rd h₀ h h' [] [] a t = tt
  Tracked-before k rd h₀ h h' (hm ∷ rest) (hm' ∷ rest') a t = (
    λ j. t.0 j ∙ ap (λ v. if same_key bytes k j then with_report config rd v else v) (a.0 j),
    Tracked-before k rd h₀ h h' rest rest' a.1 t.1,
  )
  Tracked-before k rd h₀ h h' [] (hm' ∷ rest') a t = t
  Tracked-before k rd h₀ h h' (hm ∷ rest) [] a t = t

  timed-others :
      (k : HashMapKey) (rd : ReporterData) (hm : HashMap) (desk : Desk Tree Queue)
      (others : List HashMap)
      → IsShared malloc desk.free_hmis_local desk.calls (hm ∷ others)
      → All
          (λ other.
            (j : HashMapKey)
            → view bytes blank (timed k rd hm desk).items other j
              ≡ view bytes blank desk.items other j)
          others
  unfolding force_local
  timed-others k rd hm desk [] v = tt
  timed-others k rd hm desk (other ∷ rest) v =
      let w = swap-IsShared malloc desk.free_hmis_local desk.calls hm other rest v in
      (
        λ j.
            forced-other bytes blank malloc hm other k j desk (with_report config rd) v.fresh.0
              v.fresh.1.0 v.separate.0.0,
        timed-others k rd hm desk rest
            (rest-IsShared malloc desk.free_hmis_local desk.calls other (hm ∷ rest) w),
      )

  -- A stream's report is added, in every tracker, to what the tracker holds of the stream's key, to
  -- nothing if it holds none, and every other key of every tracker keeps its values. The trackers have
  -- no item in common, and new items are in none of them.
  pub track-Tracked :
      (k : HashMapKey) (rd : ReporterData) (trackers : List HashMap) (desk : Desk Tree Queue)
      → IsShared malloc desk.free_hmis_local desk.calls trackers
      → let r = track bytes blank malloc config k rd trackers desk in
        Tracked k rd desk.items r.1.items trackers r.0
  unfolding track force_local
  track-Tracked k rd [] desk v = tt
  track-Tracked k rd (hm ∷ rest) desk v =
      let next = force-IsShared bytes blank malloc hm k desk rest v in
      let desk' = timed k rd hm desk in
      let r = track bytes blank malloc config k rd rest desk' in
      let t = track-Tracked k rd rest desk' (
        rest-IsShared malloc desk'.free_hmis_local desk'.calls
          (forced_map bytes blank malloc hm k desk) rest next) in
      (
        λ j.
            track-other k j rd rest (forced_map bytes blank malloc hm k desk) desk' next
            ∙ forced-own bytes blank malloc hm k j desk (with_report config rd) v.fresh.0,
        Tracked-before k rd desk.items desk'.items r.1.items rest r.0
            (timed-others k rd hm desk rest v) t,
      )
