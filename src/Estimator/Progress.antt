-- ===== src/Estimator/Progress.antt =====
-- The rounds of `reporter_thread` without the reorder metrics: with memory given, none reads through
-- NULL or outside an array.
use estimators.Prelude.{
  ℕ, suc, ◌+◌, ◌≤◌, ◌<◌, ◌≡◌, refl, sym, ap, ◌∙◌, subst, arith, true, false, ltb, if◌then◌else◌,
  List, [], ◌∷◌, Option, none, some, length, length-set, get_elem?-some,
}
use estimators.Packet.{packetdata_a2r}
use estimators.Ranges.{Store}
use estimators.Loss.{no_loss}
use estimators.Loss.Sort.{IsQsort}
use estimators.Loss.Total.{HasBase, lossdata_a2r-HasBase}
use estimators.Reorder.Containers.{Run, ok, Ends, Ends-bind, Ends-if, Ends-weaken, Given}
use estimators.Hashmap.{HashMap}
use estimators.Schedule.{DoubleOps, Schedule, get_duration, schedule_outlets, schedule_reset}
use estimators.Schedule.Runs.{reset-item}
use estimators.Estimator.Values.{ReporterData, StateData}
use estimators.Estimator.Service.{reorder_wanted}
use estimators.Estimator.Reporter.{put_state, force_local, track, report_due, report_all}
use estimators.Estimator.Thread.{
  Setting, TreeOf, QueueOf, DeskOf, ToldOf, of_option, future_ranges, convert, take_streams,
}
use estimators.Estimator.Based.{
  AllBased, put-AllItems, force_local-AllBased, track-AllBased, consolidate-AllBased,
}

pub Given→Ends {ℓ} : {A : Type ℓ} (P : A → Type 0) (o : Option A) → Given P o → Ends P (of_option o)
Given→Ends P (some a) h = h
Given→Ends P none h = h

-- The tracker's item is in the array of the schedule, so it is read and reset there.
duration-Ends :
    (sch : Schedule) (x : ℕ) → x < length sch.schedule → Ends (λ n. Unit) (get_duration sch x)
unfolding get_duration
duration-Ends sch x h =
    let (item, e) = get_elem?-some sch.schedule x h in
    Ends-if (λ n. Unit) (ltb x sch.nitems) _ (ok 0) (λ f. rw e tt) (λ f. tt)

outlets-Ends :
    (time : ℕ) (sch : Schedule) (x : ℕ)
    → x < length sch.schedule
    → Ends (λ o. Unit) (schedule_outlets time sch x)
unfolding schedule_outlets
outlets-Ends time sch x h =
    let (item, e) = get_elem?-some sch.schedule x h in rw (e, schedule_outlets, Ends) tt

reset-Ends :
    (double : DoubleOps) (time : ℕ) (sch : Schedule) (x : ℕ)
    → x < length sch.schedule
    → Ends (λ s. length s.schedule ≡ length sch.schedule) (schedule_reset double time sch x)
reset-Ends double time sch x h =
    let (item, e) = get_elem?-some sch.schedule x h in
    rw (reset-item double time sch x item e) (length-set sch.schedule x _)

-- What makes the environment of the thread the one of the code: `qsort` permutes, there is memory for
-- the arrays, and new items are zeroed.
pub record IsSane (env : Setting) : Type 0 where
  pub sorts : IsQsort env.qsort
  pub memory : (n : ℕ) → env.calloc n ≡ true
  pub fresh : HasBase (Setting.blank env).state_data.loss

module _ (env : Setting) (sane : IsSane env) where
  abbrev pub Kept : DeskOf env → DeskOf env → Type 0
  Kept desk d = AllBased d.items × (length d.trackers ≡ length desk.trackers)

  module _ (off : reorder_wanted env.config ≡ false) where
    -- The item of the state gets a state with a base, and no other item changes.
    abbrev pub Converted : ℕ → ℕ → DeskOf env → ReporterData × DeskOf env → Type 0
    Converted p st desk r =
        (x : StateData (TreeOf env) (QueueOf env)) × (ranges : Store) × (r.1
          ≡ put_state (record desk { ranges = ranges }) st x)
        × HasBase x.loss
        × (r.0.received ≡ packetdata_a2r (desk.items p).value.agg_data.received)

    pub convert-Converted :
        (p st : ℕ) (later : List HashMap) (desk : DeskOf env)
        → AllBased desk.items
        → Ends (Converted p st desk) (convert env p st later desk)
    unfolding convert
    convert-Converted p st later desk a =
        let ad = (desk.items p).value.agg_data in
        let state = (desk.items st).value.state_data in
        Ends-bind (λ x. HasBase x.2) (Converted p st desk)
          (if env.config.loss_enabled then _ else _) _
          (Ends-if (λ x. HasBase x.2) env.config.loss_enabled _ _
            (λ e.
              Given→Ends (λ x. HasBase x.2) _
                (lossdata_a2r-HasBase env.qsort sane.sorts env.calloc sane.memory env.past
                  desk.ranges no_loss ad.loss state.loss
                  (future_ranges env desk.items later (desk.items p).key) env.config.periods_to_wait
                  (a st)))
            (λ e. a st))
          (λ x based.
            Ends-bind (λ y. Unit) (Converted p st desk) (if reorder_wanted env.config then _ else _)
              _
              (Ends-if (λ y. Unit) (reorder_wanted env.config) _ _ (λ on. absurd (cc (on, off)))
                (λ e. tt))
              (λ y u. (_, x.0, refl, based, refl)))

    convert-Kept :
        (p st : ℕ) (later : List HashMap) (desk : DeskOf env)
        → AllBased desk.items
        → Ends (λ r. Kept desk r.1) (convert env p st later desk)
    convert-Kept p st later desk a =
        Ends-weaken (Converted p st desk) (λ r. Kept desk r.1) (convert env p st later desk)
          (λ r (x, ranges, e, based, received).
            subst (Kept desk) (sym e)
              (put-AllItems (λ v. HasBase v.state_data.loss) desk.items st _ based a, refl))
          (convert-Converted p st later desk a)

    pub take_streams-Kept :
        (ps : List ℕ) (later : List HashMap) (desk : DeskOf env)
        → AllBased desk.items
        → Ends (Kept desk) (take_streams env ps later desk)
    unfolding take_streams
    take_streams-Kept [] later desk a = (a, refl)
    take_streams-Kept (p ∷ ps) later desk a =
        let key = (desk.items p).key in
        let (st, state_data, stated) =
          force_local env.bytes env.blank env.malloc desk.state_data key desk in
        let b =
          force_local-AllBased env.bytes env.blank env.malloc sane.fresh desk.state_data key desk
            a in
        let stated' = record stated { state_data = state_data } in
        Ends-bind (λ r. Kept stated' r.1) (Kept desk) (convert env p st later stated') _
          (convert-Kept p st later stated' b)
          (λ r c.
            let (trackers, tracked) =
              track env.bytes env.blank env.malloc env.config key r.0 r.1.trackers r.1 in
            let (same, d) =
              track-AllBased env.bytes env.blank env.malloc sane.fresh env.config key r.0
                r.1.trackers r.1 c.0 in
            let next = record tracked { trackers = trackers } in
            Ends-weaken (Kept next) (Kept desk) (take_streams env ps later next)
              (λ u k. (k.0, k.1 ∙ same ∙ c.1)) (take_streams-Kept ps later next d))

  -- The schedule keeps its items.
  abbrev Due : Schedule → ToldOf env × HashMap × Schedule × DeskOf env → Type 0
  Due sch r = (length r.2.schedule ≡ length sch.schedule) × AllBased r.3.items

  abbrev pub AllDue :
      List HashMap → Schedule → ToldOf env × List HashMap × Schedule × DeskOf env → Type 0
  AllDue trackers sch r =
      (length r.1 ≡ length trackers)
      × (length r.2.schedule ≡ length sch.schedule)
      × AllBased r.3.items

  report_due-Due :
      (time time' x : ℕ) (outlets : List ℕ) (hm : HashMap) (sch : Schedule) (desk : DeskOf env)
      → x < length sch.schedule
      → AllBased desk.items
      → Ends (Due sch) (
          report_due env.bytes env.blank env.malloc env.config env.ops env.double env.has_cb time
            time' x outlets hm sch desk)
  unfolding report_due
  report_due-Due time time' x outlets hm sch desk h a =
      let b =
        consolidate-AllBased env.bytes env.blank env.malloc sane.fresh env.config hm.items hm desk
          a in
      Ends-bind (λ n. Unit) (Due sch) (get_duration sch x) _ (duration-Ends sch x h)
        (λ n u.
          Ends-bind (λ s. length s.schedule ≡ length sch.schedule) (Due sch)
            (schedule_reset env.double time' sch x) _ (reset-Ends env.double time' sch x h)
            (λ s same. (same, b)))

  -- What becomes of a tracker, by the outlets that are due.
  abbrev report_one :
      ℕ
      → ℕ
      → ℕ
      → HashMap
      → Schedule
      → DeskOf env
      → Option (List ℕ)
      → Run (ToldOf env × HashMap × Schedule × DeskOf env)
  report_one time time' x hm sch desk none = ok ([], hm, sch, desk)
  report_one time time' x hm sch desk (some outlets) =
      report_due env.bytes env.blank env.malloc env.config env.ops env.double env.has_cb time time'
        x outlets hm sch desk

  report_one-Due :
      (time time' x : ℕ) (hm : HashMap) (sch : Schedule) (desk : DeskOf env)
      (outlets : Option (List ℕ))
      → x < length sch.schedule
      → AllBased desk.items
      → Ends (Due sch) (report_one time time' x hm sch desk outlets)
  report_one-Due time time' x hm sch desk none h a = (refl, a)
  report_one-Due time time' x hm sch desk (some outlets) h a =
      report_due-Due time time' x outlets hm sch desk h a

  pub report_all-AllDue :
      (time time' : ℕ → ℕ) (x : ℕ) (trackers : List HashMap) (sch : Schedule) (desk : DeskOf env)
      → x + length trackers ≤ length sch.schedule
      → AllBased desk.items
      → Ends (AllDue trackers sch) (
          report_all env.bytes env.blank env.malloc env.config env.ops env.double env.has_cb time
            time' x trackers sch desk)
  unfolding report_all
  report_all-AllDue time time' x [] sch desk h a = (refl, refl, a)
  report_all-AllDue time time' x (hm ∷ rest) sch desk h a =
      let low : x < length sch.schedule = omega arith in
      Ends-bind (λ o. Unit) (AllDue (hm ∷ rest) sch) (schedule_outlets (time x) sch x) _
        (outlets-Ends (time x) sch x low)
        (λ o u.
          Ends-bind (Due sch) (AllDue (hm ∷ rest) sch)
            (report_one (time x) (time' x) x hm sch desk o) _
            (report_one-Due (time x) (time' x) x hm sch desk o low a)
            (λ r (same, b).
              Ends-bind (AllDue rest r.2) (AllDue (hm ∷ rest) sch) _ _
                (report_all-AllDue time time' (x + 1) rest r.2 r.3 (omega (arith, same)) b)
                (λ t (n, kept, c). (ap suc n, kept ∙ same, c))))
