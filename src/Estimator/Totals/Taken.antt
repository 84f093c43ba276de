-- ===== src/Estimator/Totals/Taken.antt =====
-- The loop over the items of a map, item after item.
use estimators.Prelude.{ℕ, ◌≡◌, refl, sym, ap, ◌∙◌, subst, false, List, [], ◌∷◌, All, All-both}
use estimators.Packet.{packetdata_a2r}
use estimators.Ranges.{Store}
use estimators.Reorder.Containers.{Ends, Ends-bind, Ends-weaken}
use estimators.Hashmap.{HashMap, HashMapKey}
use estimators.Estimator.Values.{ReporterData, StateData, Value}
use estimators.Estimator.Service.{Config, reorder_wanted}
use estimators.Estimator.Reporter.{Desk, put_state, force_local, track}
use estimators.Estimator.Thread.{Setting, DeskOf, convert, take_streams}
use estimators.Estimator.Based.{AllBased, put-AllItems, force_local-AllBased, track-AllBased}
use estimators.Estimator.Progress.{IsSane, Converted, convert-Converted}
use estimators.Estimator.Sharing.{
  IsShared, rest-IsShared, force-IsShared, forced_in, forced_map, forced-items, forced-other,
}
use estimators.Estimator.Trackers.{
  Tracked, Tracked-before, track-Tracked, track-items, track-IsShared,
}
use estimators.Estimator.Flows.{as_map, stated, stated-items}
use estimators.Loss.Total.{HasBase}
use estimators.Estimator.Totals.{Totals, Totals-refl, Totals-cons, shorter-IsShared}

module _ {Tree Queue : Type 0} (bytes : HashMapKey → List ℕ) (blank : Value Tree Queue)
    (malloc : ℕ → ℕ) (config : Config) where
  track-state_data :
      (k : HashMapKey) (rd : ReporterData) (hms : List HashMap) (desk : Desk Tree Queue)
      → (track bytes blank malloc config k rd hms desk).1.state_data ≡ desk.state_data
  unfolding track force_local
  track-state_data k rd [] desk = refl
  track-state_data k rd (hm ∷ rest) desk = track-state_data k rd rest _

  -- What is between the conversion of an item's data and the next item: the state is stored, and the
  -- report goes into the trackers.
  abbrev converted : HashMapKey → StateData Tree Queue → Store → Desk Tree Queue → Desk Tree Queue
  converted k x ranges desk =
      put_state (record (stated bytes blank malloc k desk) { ranges = ranges })
        (forced_in bytes blank malloc desk.state_data k desk).item x

  abbrev tracked : HashMapKey → ReporterData → Desk Tree Queue → List HashMap × Desk Tree Queue
  tracked k rd desk = track bytes blank malloc config k rd desk.trackers desk

  -- The items that are left stay, the trackers have the report, and all go on sharing.
  record Advanced (k : HashMapKey) (rd : ReporterData) (ps : List ℕ) (desk : Desk Tree Queue)
      (r : List HashMap × Desk Tree Queue) : Type 0 where
    left : All (λ q. r.1.items q ≡ desk.items q) ps
    trackers : Tracked bytes blank malloc config k rd desk.items r.1.items desk.trackers r.0
    shared : IsShared malloc r.1.free_hmis_local r.1.calls (r.1.state_data ∷ as_map ps ∷ r.0)

  tracked-Advanced :
      (k : HashMapKey) (rd : ReporterData) (x : StateData Tree Queue) (ranges : Store) (p : ℕ)
      (ps : List ℕ) (desk : Desk Tree Queue)
      → IsShared malloc desk.free_hmis_local desk.calls
          (desk.state_data ∷ as_map (p ∷ ps) ∷ desk.trackers)
      → Advanced k rd ps desk (tracked k rd (converted k x ranges desk))
  unfolding force_local
  tracked-Advanced k rd x ranges p ps desk v =
      let desk' = converted k x ranges desk in
      let r = tracked k rd desk' in
      let f : Value Tree Queue → Value Tree Queue = λ y. record y { state_data = x } in
      let before =
        shorter-IsShared malloc desk.free_hmis_local desk.calls desk.state_data p ps desk.trackers
          v in
      let state = forced_map bytes blank malloc desk.state_data k desk in
      let after =
        force-IsShared bytes blank malloc desk.state_data k desk (as_map ps ∷ desk.trackers)
          before in
      let others =
        rest-IsShared malloc desk'.free_hmis_local desk'.calls state (as_map ps ∷ desk.trackers)
          after in
      let maps =
        rest-IsShared malloc desk'.free_hmis_local desk'.calls (as_map ps) desk.trackers others in
      let kept =
        forced-items bytes blank malloc desk.state_data (as_map ps) k desk f 0 before.fresh.0
          before.fresh.1.0 before.separate.0.0 in
      let same =
        All-both desk.trackers
          (λ hm d fresh j.
            forced-other bytes blank malloc desk.state_data hm k j desk f before.fresh.0 fresh d)
          before.separate.0.1 before.fresh.1.1 in
      record {
        left =
            All-both ps (λ q e g. e ∙ g)
              (track-items bytes blank malloc config k rd desk.trackers (as_map ps) 0 desk' others)
              kept;
        trackers =
            Tracked-before bytes blank malloc config k rd desk.items desk'.items r.1.items
              desk.trackers r.0 same
              (track-Tracked bytes blank malloc config k rd desk.trackers desk' maps);
        shared =
            subst (λ st. IsShared malloc r.1.free_hmis_local r.1.calls (st ∷ as_map ps ∷ r.0))
              (sym (track-state_data k rd desk.trackers desk'))
              (track-IsShared bytes blank malloc config k rd (state ∷ as_map ps ∷ []) desk.trackers
                desk' after);
      }

module _ (env : Setting) (sane : IsSane env) (off : reorder_wanted env.config ≡ false) where
  -- A round over the items of a map comes to an end, and then each tracker has, for each key, the packet
  -- data of the items of that key accumulated in order onto what it had, and what it had for a key
  -- without items. This is without the reorder metrics, for a `qsort` that permutes, with memory for new
  -- items and for the array of the sort, and new items without a highest number; the states, the items of the map and the trackers have nothing in common,
  -- new items are in use in none of them, and every stream has a range to go on from whenever its
  -- highest number is known.
  pub take_streams-Totals :
      (ps : List ℕ) (later : List HashMap) (desk : DeskOf env)
      → AllBased desk.items
      → IsShared env.malloc desk.free_hmis_local desk.calls
          (desk.state_data ∷ as_map ps ∷ desk.trackers)
      → Ends
          (λ d. Totals env.bytes env.blank ps desk.items d.items desk.trackers d.trackers)
          (take_streams env ps later desk)
  unfolding take_streams force_local
  take_streams-Totals [] later desk a v = Totals-refl env.bytes env.blank desk.items desk.trackers
  take_streams-Totals (p ∷ ps) later desk a v =
      let key = (desk.items p).key in
      let st = (forced_in env.bytes env.blank env.malloc desk.state_data key desk).item in
      let desk₁ = stated env.bytes env.blank env.malloc key desk in
      let b =
        force_local-AllBased env.bytes env.blank env.malloc sane.fresh desk.state_data key desk a in
      let same =
        (stated-items env.bytes env.blank env.malloc key desk (as_map (p ∷ ps)) 0 (record {
          separate = ((v.separate.0.0, tt), (tt, tt));
          fresh = (v.fresh.0, (v.fresh.1.0, tt));
        })).0 in
      let Q = λ (d : DeskOf env).
        Totals env.bytes env.blank (p ∷ ps) desk.items d.items desk.trackers d.trackers in
      Ends-bind (Converted env sane off p st desk₁) Q (convert env p st later desk₁) _
        (convert-Converted env sane off p st later desk₁ b)
        (λ r (x, ranges, e, based, received).
          let track_in = tracked env.bytes env.blank env.malloc env.config key r.0 in
          let desk₂ = converted env.bytes env.blank env.malloc env.config key x ranges desk in
          let next = record ((track_in desk₂).1) { trackers = (track_in desk₂).0 } in
          let moved =
            tracked-Advanced env.bytes env.blank env.malloc env.config key r.0 x ranges p ps desk
              v in
          let c = put-AllItems (λ y. HasBase y.state_data.loss) desk₁.items st _ based b in
          let (n, d) =
            track-AllBased env.bytes env.blank env.malloc sane.fresh env.config key r.0
              desk₂.trackers desk₂ c in
          subst
            (λ (y : DeskOf env).
              Ends Q
                (take_streams env ps later (record ((track_in y).1) { trackers = (track_in y).0 })))
            (sym e)
            (Ends-weaken
              (λ z. Totals env.bytes env.blank ps next.items z.items next.trackers z.trackers) Q
              (take_streams env ps later next)
              (λ z u.
                Totals-cons env.bytes env.blank env.malloc env.config p ps r.0 desk.items next.items
                  z.items desk.trackers next.trackers z.trackers
                  (received ∙ ap (λ i. packetdata_a2r i.value.agg_data.received) same) moved.left
                  moved.trackers u)
              (take_streams-Totals ps later next d moved.shared)))
