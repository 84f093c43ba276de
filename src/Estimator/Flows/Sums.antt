-- ===== src/Estimator/Flows/Sums.antt =====
-- The consolidation itself, stream after stream.
use estimators.Prelude.{
  ℕ, suc, ◌+◌, ◌≡◌, ◌≢◌, refl, sym, ap, ◌∙◌, arith, Bool, true, false, ◌&&◌, if◌then◌else◌,
  Bool-cases, inl, inr, List, [], ◌∷◌, All, All-map,
}
use estimators.Ranges.{Apart}
use estimators.Hashmap.{HashMap, HashMapKey, Items, take_item, hash_key, set_flowtuple}
use estimators.Hashmap.View.{
  view, same_key, update-key, put_item_elsewhere, IsForced, force-IsForced,
}
use estimators.Hashmap.Apart.{view-agree}
use estimators.Hashmap.Lookup.{equal_key-eq}
use estimators.Hashmap.Frame.{force_other-IsSupply, force-key, force-stranger}
use estimators.Estimator.Values.{ReporterData, Value}
use estimators.Estimator.Service.{Config, accumulate_flow}
use estimators.Estimator.Reporter.{Desk, is_stream, put_rep, force_local, consolidate}
use estimators.Estimator.Sharing.{
  upcoming, IsFresh, swap-IsShared, force-IsShared, forced_in, forced_desk, forced_map, forced-own,
  new-Clear,
}
use estimators.Estimator.Flows.{
  as_map, hash_key-keytype, flow-differs, sum_flows, Same, sum_flows-Same, IsApart, tail-IsApart,
  stated, stated-IsApart, stated-items,
}

module _ {Tree Queue : Type 0} (bytes : HashMapKey → List ℕ) (blank : Value Tree Queue)
    (malloc : ℕ → ℕ) (config : Config) where
  abbrev flow_of : HashMapKey → HashMapKey
  flow_of key = set_flowtuple key.stream

  -- After a report is added to a flow's.
  abbrev with_flow : ReporterData → Value Tree Queue → Value Tree Queue
  with_flow unit v = record v { rep_data = accumulate_flow config v.rep_data unit }

  abbrev summed : HashMapKey → ReporterData → HashMap → Desk Tree Queue → Desk Tree Queue
  summed key unit hm desk =
      let forced = forced_desk bytes blank malloc hm (flow_of key) desk in
      let g = (forced_in bytes blank malloc hm (flow_of key) desk).item in
      put_rep forced g (accumulate_flow config (forced.items g).value.rep_data unit)

  summed-IsApart :
      (key : HashMapKey) (unit : ReporterData) (desk : Desk Tree Queue) (hm : HashMap) (ps : List ℕ)
      → IsApart malloc desk hm ps
      → IsApart malloc
          (summed key unit hm desk)
          (forced_map bytes blank malloc hm (flow_of key) desk)
          ps
  unfolding force_local
  summed-IsApart key unit desk hm ps v =
      let forced = forced_desk bytes blank malloc hm (flow_of key) desk in
      let swapped =
        swap-IsShared malloc desk.free_hmis_local desk.calls desk.state_data hm [] v.maps in
      let shared =
        swap-IsShared malloc forced.free_hmis_local forced.calls
          (forced_map bytes blank malloc hm (flow_of key) desk) desk.state_data []
          (force-IsShared bytes blank malloc hm (flow_of key) desk (desk.state_data ∷ [])
            swapped) in
      record {
        maps = shared;
        items = record {
          separate = v.items.separate;
          fresh = (
            shared.fresh.0,
            (
              λ n.
                  force_other-IsSupply bytes blank (malloc desk.calls) desk.items hm (as_map ps)
                    (flow_of key) desk.free_hmis_local (upcoming malloc (desk.calls + 1) n)
                    (v.items.fresh.1.0 (suc n)),
              tt,
            ),
          );
        };
      }

  abbrev new_item : Desk Tree Queue → ℕ
  new_item desk = (take_item (malloc desk.calls) desk.free_hmis_local).0

  -- A stream's item is not the one of a flow.
  stream-apart :
      (key : HashMapKey) (desk : Desk Tree Queue) (hm : HashMap) (q : ℕ)
      → new_item desk ≢ q
      → is_stream (desk.items q).key.keytype ≡ true
      → (forced_in bytes blank malloc hm (flow_of key) desk).item ≢ q
  stream-apart key desk hm q d s =
      force-stranger bytes blank (malloc desk.calls) desk.items hm (flow_of key)
        desk.free_hmis_local q d (flow-differs bytes (desk.items q).key key s)

  flow-others :
      (key : HashMapKey) (desk : Desk Tree Queue) (hm : HashMap) (q : ℕ)
      → IsFresh malloc desk.free_hmis_local desk.calls hm
      → (forced_in bytes blank malloc hm (flow_of key) desk).item ≢ q
      → (forced_desk bytes blank malloc hm (flow_of key) desk).items q ≡ desk.items q
  unfolding force_local
  flow-others key desk hm q v d =
      IsForced.others
        (force-IsForced bytes blank (malloc desk.calls) desk.items hm (flow_of key)
          desk.free_hmis_local (new-Clear bytes blank malloc hm desk v))
        q d

  summed-Same :
      (key : HashMapKey) (unit : ReporterData) (desk : Desk Tree Queue) (hm : HashMap) (ps : List ℕ)
      → IsFresh malloc desk.free_hmis_local desk.calls hm
      → Apart (new_item desk) ps
      → All (Same desk.items (summed key unit hm desk).items) ps
  unfolding force_local
  summed-Same key unit desk hm ps v a =
      All-map ps
        (λ q d. (
          update-key (forced_desk bytes blank malloc hm (flow_of key) desk).items
                (forced_in bytes blank malloc hm (flow_of key) desk).item (with_flow unit) q
              ∙ force-key bytes blank (malloc desk.calls) desk.items hm (flow_of key)
                  desk.free_hmis_local q d,
          λ s.
              let apart = stream-apart key desk hm q d s in
              ap (λ x. x.value)
                (put_item_elsewhere (forced_desk bytes blank malloc hm (flow_of key) desk).items
                    (forced_in bytes blank malloc hm (flow_of key) desk).item _ q apart
                  ∙ flow-others key desk hm q v apart),
        ))
        a

  flow_value :
      (mine : Bool) (v w : Value Tree Queue) (unit unit' : ReporterData)
      → v ≡ w
      → unit ≡ unit'
      → (if mine then with_flow unit v else v).rep_data
        ≡ (if mine then accumulate_flow config w.rep_data unit' else w.rep_data)
  flow_value true v w unit unit' e f = rw (e, f) refl
  flow_value false v w unit unit' e f = ap (λ x. x.rep_data) e

  -- One stream: what the map says of a key after the stream's report went into its flow.
  summed-view :
      (p : ℕ) (j : HashMapKey) (desk : Desk Tree Queue) (hm : HashMap) (ps : List ℕ)
      → IsApart malloc desk hm (p ∷ ps)
      → is_stream (desk.items p).key.keytype ≡ true
      → let key = (desk.items p).key in
        let desk' = stated bytes blank malloc key desk in
        let unit =
          ((forced_desk bytes blank malloc hm (flow_of key) desk').items p).value.rep_data in
        (view bytes blank
          (summed key unit hm desk').items
          (forced_map bytes blank malloc hm (flow_of key) desk')
          j).rep_data
        ≡ (if same_key bytes (flow_of key) j
            then accumulate_flow config
                (view bytes blank desk.items hm j).rep_data
                (desk.items p).value.rep_data
            else (view bytes blank desk.items hm j).rep_data)
  unfolding force_local
  summed-view p j desk hm ps v s =
      let key = (desk.items p).key in
      let desk' = stated bytes blank malloc key desk in
      let w = stated-IsApart bytes blank malloc key desk hm (p ∷ ps) v in
      let kept = (stated-items bytes blank malloc key desk (as_map (p ∷ ps)) 0 v.items).0 in
      let new = new-Clear bytes blank malloc (as_map (p ∷ ps)) desk' w.items.fresh.1.0 0 in
      let apart = stream-apart key desk' hm p new.0 (ap (λ x. is_stream x.key.keytype) kept ∙ s) in
      let unit_same =
        ap (λ x. x.value.rep_data) (flow-others key desk' hm p w.maps.fresh.1.0 apart ∙ kept) in
      let unit = ((forced_desk bytes blank malloc hm (flow_of key) desk').items p).value.rep_data in
      let before =
        view-agree bytes blank desk.items desk'.items hm j
          (λ i. stated-items bytes blank malloc key desk hm i v.maps) in
      let own =
        forced-own bytes blank malloc hm (flow_of key) j desk' (with_flow unit) w.maps.fresh.1.0 in
      ap (λ x. x.rep_data) own
      ∙ flow_value (same_key bytes (flow_of key) j) _ _ unit _ before unit_same

  -- Each key's report becomes the sum over the items, whose keys and streams stay on the way.
  consolidate-sums :
      (ps : List ℕ) (j : HashMapKey) (hm : HashMap) (desk : Desk Tree Queue)
      → IsApart malloc desk hm ps
      → let r = consolidate bytes blank malloc config ps hm desk in
        (view bytes blank r.1.items r.0 j).rep_data
        ≡ sum_flows bytes config j ps desk.items (view bytes blank desk.items hm j).rep_data
  unfolding consolidate force_local
  consolidate-sums [] j hm desk v = refl
  consolidate-sums (p ∷ ps) j hm desk v =
      let key = (desk.items p).key in
      let tail = tail-IsApart malloc desk hm p ps v in
      elim (Bool-cases (is_stream key.keytype)) [
        | inr flow ↦ rw flow (consolidate-sums ps j hm desk tail)
        | inl s ↦
            let desk₁ = stated bytes blank malloc key desk in
            let v₁ = stated-IsApart bytes blank malloc key desk hm ps tail in
            let unit =
              ((forced_desk bytes blank malloc hm (flow_of key) desk₁).items p).value.rep_data in
            let desk₂ = summed key unit hm desk₁ in
            let hm' = forced_map bytes blank malloc hm (flow_of key) desk₁ in
            let rest = consolidate-sums ps j hm' desk₂ (summed-IsApart key unit desk₁ hm ps v₁) in
            let rd = (view bytes blank desk₂.items hm' j).rep_data in
            let new = new-Clear bytes blank malloc (as_map ps) desk₁ v₁.items.fresh.1.0 0 in
            let later =
              sum_flows-Same bytes config j ps desk₁.items desk₂.items rd
                (summed-Same key unit desk₁ hm ps v₁.maps.fresh.1.0 new) in
            let first = sum_flows-Same bytes config j ps desk.items desk₁.items rd (
              All-map ps (λ q e. (ap (λ x. x.key) e, λ t. ap (λ x. x.value) e))
                (stated-items bytes blank malloc key desk (as_map ps) 0 tail.items)) in
            rw s (
              rest
              ∙ later
              ∙ first
              ∙ ap (λ x. sum_flows bytes config j ps desk.items x) (summed-view p j desk hm ps v s))
      ]

  stream-differs :
      (j k : HashMapKey) → is_stream j.keytype ≡ true → same_key bytes (flow_of k) j ≡ false
  stream-differs j k s = elim (Bool-cases (same_key bytes (flow_of k) j)) [
    | inr other ↦ other
    | inl same ↦
        let equal = equal_key-eq (hash_key bytes (flow_of k)) (hash_key bytes j) same in
        absurd (
          flow-differs bytes (hash_key bytes j) k (ap is_stream (hash_key-keytype bytes j) ∙ s)
            (sym equal))
  ]

  sum_flows-stream :
      (j : HashMapKey) (ps : List ℕ) (h : Items (Value Tree Queue)) (rd : ReporterData)
      → is_stream j.keytype ≡ true
      → sum_flows bytes config j ps h rd ≡ rd
  sum_flows-stream j [] h rd s = refl
  sum_flows-stream j (p ∷ ps) h rd s =
      let none_mine : (is_stream (h p).key.keytype && same_key bytes (flow_of (h p).key) j)
          ≡ false =
        ground (arith, stream-differs j (h p).key s) in
      rw none_mine (sum_flows-stream j ps h rd s)

  -- The consolidation adds to a flow's report, in the order of the items, the reports that its own
  -- streams had at the start, and keeps every stream's report. The states have no item in common with
  -- the tracker or with the items left, and new items are in use in none of them.
  pub consolidate-flows :
      (ps : List ℕ) (j : HashMapKey) (hm : HashMap) (desk : Desk Tree Queue)
      → IsApart malloc desk hm ps
      → let r = consolidate bytes blank malloc config ps hm desk in
        let before = (view bytes blank desk.items hm j).rep_data in
        let after = (view bytes blank r.1.items r.0 j).rep_data in
        (after ≡ sum_flows bytes config j ps desk.items before)
        × (is_stream j.keytype ≡ true → after ≡ before)
  consolidate-flows ps j hm desk v =
      let sums = consolidate-sums ps j hm desk v in
      (
        sums,
        λ s. sums ∙ sum_flows-stream j ps desk.items (view bytes blank desk.items hm j).rep_data s,
      )
