-- ===== src/Estimator/Restart.antt =====
-- The start of the service: what a call of `pd3_estimator_init` that gets as far as `set_schedule` comes
-- to, by what `set_schedule` returns.
use estimators.Prelude.{
  ℕ, ◌+◌, ◌-◌, ◌≡◌, refl, sym, ap, ◌∙◌, arith, Bool, true, false, not, ◌&&◌, Bool-cases, inl, inr,
  if◌then◌else◌, if_false, subst, List, some, take,
}
use estimators.Fistq.Registry.{Called, returns, deadlock}
use estimators.Reorder.Containers.{Run, ok, fault, unfinished, ◌>>=◌, Ends}
use estimators.Schedule.{Schedule, separators, set_schedule}
use estimators.Schedule.Parse.{Accepts, set_schedule-Ends}
use estimators.Estimator.Lifecycle.{
  EstimatorOptions, Life, schedule_size, init_service, pd3_estimator_init, create_threads,
  store_options, store_metrics,
}

-- By what `set_schedule` returned. A valid schedule: the call succeeds just if both threads are created,
-- and the mutex is free. One that is refused: the call fails with the mutex locked.
abbrev pub Outcome :
    {Tree Queue : Type 0}
    → Bool
    → Bool
    → ℕ
    → Life Tree Queue
    → Bool × Schedule
    → Called (Bool × Life Tree Queue)
    → Type 0
Outcome agg rep n l (valid, schedule) deadlock = ⊥
Outcome agg rep n l (valid, schedule) (returns (success, l')) =
    (l'.init_mutex ≡ not valid)
    × (l'.schedule ≡ schedule)
    × (success ≡ (valid && agg && rep))
    × (l'.pd3_estimator_started ≡ success)
    × (valid ≡ true → l'.schedule.nitems ≡ n)
    × (l'.aggregators ≡ l.aggregators + (if valid && agg then 1 else 0))
    × (l'.reporters ≡ l.reporters + (if success then 1 else 0))

Ends-given {ℓ κ} :
    {A : Type ℓ} {B : Type κ} (P : A → Type 0) (Q : A → B → Type 0) (m : Run A) (f : A → Run B)
    → Ends P m
    → ((a : A) → P a → Ends (Q a) (f a))
    → Ends (λ a. Ends (Q a) (m >>= f)) m
Ends-given P Q (ok a) f h k = k a h
Ends-given P Q fault f h k = h
Ends-given P Q unfinished f h k = h

-- The number of specifications that the service reads of the options' schedule.
abbrev pub specs_of : EstimatorOptions → ℕ
specs_of o = 1 + separators (take (schedule_size - 1) o.reporter_schedule)

module _ {Tree Queue : Type 0} where
  threads-Outcome :
      (agg rep : Bool) (n : ℕ) (l k : Life Tree Queue) (schedule : Schedule)
      → k.pd3_estimator_started ≡ false
      → k.schedule ≡ schedule
      → schedule.nitems ≡ n
      → k.aggregators ≡ l.aggregators
      → k.reporters ≡ l.reporters
      → Outcome agg rep n l (true, schedule) (create_threads agg rep k)
  unfolding create_threads
  threads-Outcome false rep n l k schedule s e c a r =
      (refl, e, refl, s, λ v. ap (λ x. x.nitems) e ∙ c, omega (arith, a), omega (arith, r))
  threads-Outcome true false n l k schedule s e c a r =
      (refl, e, refl, s, λ v. ap (λ x. x.nitems) e ∙ c, omega (arith, a), omega (arith, r))
  threads-Outcome true true n l k schedule s e c a r =
      (refl, e, refl, refl, λ v. ap (λ x. x.nitems) e ∙ c, omega (arith, a), omega (arith, r))

  module _ (micros : List ℕ → ℕ) (is_zero : List ℕ → Bool) where
    -- What `set_schedule` makes of the options' schedule.
    abbrev pub parsed : ℕ → EstimatorOptions → Life Tree Queue → Run (Bool × Schedule)
    parsed time o l =
        set_schedule micros is_zero true time (take (schedule_size - 1) o.reporter_schedule)
          l.schedule

    init_service-Outcome :
        (time : ℕ) (agg rep : Bool) (o : EstimatorOptions) (has_cb : Bool) (l : Life Tree Queue)
        → l.pd3_estimator_started ≡ false
        → l.schedule.nitems ≡ 0
        → Ends
            (λ r.
              Ends
                (Outcome agg rep (specs_of o) l r)
                (init_service micros is_zero true time agg rep o has_cb l))
            (parsed time o l)
    unfolding init_service store_options store_metrics
    init_service-Outcome time agg rep o has_cb l s e =
        let stored = store_options o has_cb (record l { init_mutex = true }) in
        Ends-given (Accepts (specs_of o)) (Outcome agg rep (specs_of o) l) (parsed time o l)
          (λ r. ok (
            if not r.0
            then returns (false, record stored { schedule = r.1 })
            else create_threads agg rep (store_metrics o (record stored { schedule = r.1 }))))
          (set_schedule-Ends micros is_zero time (take (schedule_size - 1) o.reporter_schedule)
            l.schedule e)
          (λ (valid, schedule) accepts. elim (Bool-cases valid) [
            | inl v ↦ rw v (
                threads-Outcome agg rep (specs_of o) l
                  (store_metrics o (record stored { schedule = schedule })) schedule s refl
                  (accepts.0 v) refl refl)
            | inr refused ↦
                rw refused (refl, refl, refl, s, λ v. absurd (cc v), omega arith, omega arith)
          ])

    to_service :
        (time : ℕ) (agg rep : Bool) (o : EstimatorOptions) (has_cb : Bool) (l : Life Tree Queue)
        → o.is_negative ≡ false
        → l.init_mutex ≡ false
        → l.pd3_estimator_started ≡ false
        → pd3_estimator_init micros is_zero true time agg rep (some o) has_cb l
          ≡ init_service micros is_zero true time agg rep o has_cb l
    unfolding pd3_estimator_init
    to_service time agg rep o has_cb l p m s =
        let service = init_service micros is_zero true time agg rep o has_cb l in
        let started : Run (Called (Bool × Life Tree Queue)) = ok (returns (true, l)) in
        let open_service = if l.pd3_estimator_started then started else service in
        if_false o.is_negative (ok (returns (false, l)))
          (if l.init_mutex then ok deadlock else open_service) p
        ∙ if_false l.init_mutex (ok deadlock) open_service m
        ∙ if_false l.pd3_estimator_started started service s

    -- A call of `pd3_estimator_init` on a service that has not started, has no items and whose mutex is
    -- free, with options whose interval is not negative, and with memory for the schedule, comes to an
    -- end, as `set_schedule` of the options' schedule does, and leaves the schedule that `set_schedule`
    -- does. If that accepts the schedule, the mutex is free again, there is an item for each
    -- specification, and the call succeeds, and the service counts as started, just if both threads were
    -- created; the aggregator's thread stays where only the reporter's could not be created. If it
    -- refuses the schedule, the call fails with the mutex locked and without threads.
    pub init-Outcome :
        (time : ℕ) (agg rep : Bool) (o : EstimatorOptions) (has_cb : Bool) (l : Life Tree Queue)
        → o.is_negative ≡ false
        → l.init_mutex ≡ false
        → l.pd3_estimator_started ≡ false
        → l.schedule.nitems ≡ 0
        → Ends
            (λ r.
              Ends
                (Outcome agg rep (specs_of o) l r)
                (pd3_estimator_init micros is_zero true time agg rep (some o) has_cb l))
            (parsed time o l)
    init-Outcome time agg rep o has_cb l p m s e =
        subst (λ x. Ends (λ r. Ends (Outcome agg rep (specs_of o) l r) x) (parsed time o l))
          (sym (to_service time agg rep o has_cb l p m s))
          (init_service-Outcome time agg rep o has_cb l s e)
