-- ===== src/Estimator/Drained.antt =====
-- The loop of `reporter_thread` over the maps of the periods, without the reorder metrics.
use estimators.Prelude.{
  ℕ, zero, suc, none, some, ◌+◌, ◌-◌, ◌^◌, ◌≤◌, ◌<◌, ◌≡◌, ◌≢◌, refl, sym, ap, ◌∙◌, arith, false,
  leb, List, [], ◌∷◌, ◌++◌, map, length,
}
use estimators.Packet.{min}
use estimators.Loss.Total.{HasBase}
use estimators.Reorder.Containers.{Run, fault, Ends, Ends-bind, Ends-if, Given}
use estimators.Hashmap.{Items}
use estimators.Estimator.Values.{Value}
use estimators.Estimator.Service.{Service, reorder_wanted}
use estimators.Estimator.Recycle.{release_ranges, recycle_map, recycle_earliest}
use estimators.Estimator.Thread.{
  Setting, Reporter, ToldOf, desk_of, with_desk, process_map, process_earliest, process_hashmaps,
  of_option,
}
use estimators.Estimator.Exchange.Maps.{IsCounted, moveone-first}
use estimators.Estimator.Based.{AllBased, put-AllItems}
use estimators.Estimator.Progress.{
  IsSane, Kept, AllDue, Given→Ends, take_streams-Kept, report_all-AllDue,
}

module _ {Tree Queue : Type 0} where
  release-AllBased :
      (ps : List ℕ) (h : Items (Value Tree Queue)) (loss reorder : List ℕ)
      → AllBased h
      → AllBased (release_ranges ps h loss reorder).0
  unfolding release_ranges
  release-AllBased [] h loss reorder a = a
  release-AllBased (p ∷ ps) h loss reorder a =
      release-AllBased ps _ _ _ (put-AllItems (λ v. HasBase v.state_data.loss) h p _ (a p) a)

  -- After the recycling.
  abbrev Recycled : List ℕ → Service Tree Queue → Type 0
  Recycled later s = AllBased s.items × (s.rep.working.maps ≡ later) × IsCounted s.rep.working

  recycle_earliest-cons :
      (s : Service Tree Queue) (m : ℕ) (later : List ℕ)
      → s.rep.working.maps ≡ m ∷ later
      → recycle_earliest s ≡ some (recycle_map m s)
  unfolding recycle_earliest
  recycle_earliest-cons s m later e =
      ap (λ (xs : List ℕ). elim xs [ [] ↦ none | p ∷ rest ↦ some (recycle_map p s) ]) e

  recycle-Recycled :
      (s : Service Tree Queue) (m : ℕ) (later : List ℕ)
      → s.rep.working.maps ≡ m ∷ later
      → AllBased s.items
      → IsCounted s.rep.working
      → Given (Recycled later) (recycle_earliest s)
  unfolding recycle_map
  recycle-Recycled s m later e a c =
      let (pushed, rest, c', d) = moveone-first s.rep.free_hashmaps s.rep.working m later e in
      rw (recycle_earliest-cons s m later e) (
        release-AllBased (s.hashmaps m).items s.items s.rep.free_lossranges s.rep.free_reorderranges
            a,
        rest,
        d c,
      )

nonempty-Ends {ℓ} :
    {A : Type ℓ} (P : A → Type 0) (k : ℕ → List ℕ → Run A) (xs : List ℕ)
    → xs ≢ []
    → ((m : ℕ) (later : List ℕ) → xs ≡ m ∷ later → Ends P (k m later))
    → Ends P (elim xs [ [] ↦ fault | m ∷ later ↦ k m later ])
nonempty-Ends P k [] d h = absurd (d refl)
nonempty-Ends P k (m ∷ later) d h = h m later refl

module _ (env : Setting) (sane : IsSane env) where
  -- The loop can go on: the list of maps has its length beside it, each tracker has its item of the
  -- schedule, and the streams have bases.
  pub record IsReady (r : Reporter env) : Type 0 where
    pub counted : IsCounted r.service.rep.working
    pub scheduled : length r.trackers ≤ length r.schedule.schedule
    pub based : AllBased r.service.items

  module _ (off : reorder_wanted env.config ≡ false) where
    -- The maps are those after the first.
    abbrev Next : Reporter env → ToldOf env × Reporter env → Type 0
    Next r u =
        IsReady u.1 × ((m : ℕ) × (r.service.rep.working.maps ≡ m ∷ u.1.service.rep.working.maps))

    map-Next :
        (time time' : ℕ → ℕ) (m : ℕ) (later : List ℕ) (r : Reporter env)
        → r.service.rep.working.maps ≡ m ∷ later
        → IsReady r
        → Ends (Next r) (process_map env time time' m later r)
    unfolding process_map
    map-Next time time' m later r e v =
        Ends-bind (Kept env sane (desk_of env r)) (Next r) _ _
          (take_streams-Kept env sane off (r.service.hashmaps m).items
            (map r.service.hashmaps later) (desk_of env r) v.based)
          (λ taken (a, n).
            Ends-bind (AllDue env sane taken.trackers r.schedule) (Next r) _ _
              (report_all-AllDue env sane time time' 0 taken.trackers r.schedule taken
                (omega (arith, n, v.scheduled)) a)
              (λ u (n', s, b).
                let done = with_desk env r (record (u.3) { trackers = u.1 }) in
                Ends-bind (Recycled later) (Next r) (of_option (recycle_earliest done.service)) _
                  (Given→Ends (Recycled later) (recycle_earliest done.service)
                    (recycle-Recycled done.service m later e b v.counted))
                  (λ service (c, rest, counted). (
                    record {
                      counted = counted;
                      scheduled = omega (arith, n, n', s, v.scheduled);
                      based = c;
                    },
                    (m, e ∙ ap (λ xs. m ∷ xs) (sym rest)),
                  ))))

    earliest-Next :
        (time time' : ℕ → ℕ) (r : Reporter env)
        → r.service.rep.working.maps ≢ []
        → IsReady r
        → Ends (Next r) (process_earliest env time time' r)
    unfolding process_earliest
    earliest-Next time time' r some_left v =
        nonempty-Ends (Next r) (λ m later. process_map env time time' m later r)
          r.service.rep.working.maps some_left (λ m later e. map-Next time time' m later r e v)

    -- The earliest maps are done with, and the latest `periods_to_wait - 1` wait.
    abbrev pub Drained : Reporter env → ToldOf env × Reporter env → Type 0
    Drained r u =
        IsReady u.1
        × (length u.1.service.rep.working.maps
            ≡ min (length r.service.rep.working.maps) (env.config.periods_to_wait - 1))
        × ((done : List ℕ) × (r.service.rep.working.maps ≡ done ++ u.1.service.rep.working.maps))

    still-Drained :
        (r : Reporter env) (told : ToldOf env)
        → IsReady r
        → length r.service.rep.working.maps < env.config.periods_to_wait
        → Drained r (told, r)
    still-Drained r told v few = (v, ground arith, ([], refl))

    step-Drained :
        (r : Reporter env) (first second : ToldOf env × Reporter env) (told : ToldOf env)
        → Next r first
        → Drained first.1 second
        → env.config.periods_to_wait ≤ length r.service.rep.working.maps
        → 1 ≤ env.config.periods_to_wait
        → Drained r (told, second.1)
    step-Drained r first second told (v, (m, e)) (w, n, (done, f)) many wait =
        (w, ground (arith, n, ap length e), (m ∷ done, e ∙ ap (λ xs. m ∷ xs) f))

    -- With no reorder metric, and with at least one map to wait for, the loop of the reporter ends, for
    -- any clock, in as many rounds as there are maps more than `periods_to_wait - 1`: it takes the
    -- earliest maps, in order, never reads through NULL or outside an array, and leaves the latest
    -- `periods_to_wait - 1` maps, or all if there are fewer, and a state in which it can go on. It
    -- starts in such a state, with fewer than 2 ^ 32 maps; `qsort` permutes, memory for new items
    -- and for the array of the sort is given, and a new item has no highest number.
    pub process_hashmaps-Drained :
        (rounds : ℕ) (time time' : ℕ → ℕ → ℕ) (r : Reporter env)
        → 1 ≤ env.config.periods_to_wait
        → length r.service.rep.working.maps < 2 ^ 32
        → length r.service.rep.working.maps < rounds + env.config.periods_to_wait
        → IsReady r
        → Ends (Drained r) (process_hashmaps env rounds time time' r)
    unfolding process_hashmaps
    process_hashmaps-Drained zero time time' r wait fits enough v =
        Ends-if (Drained r) (leb env.config.periods_to_wait r.service.rep.working.count) _ _
          (λ more. absurd (ground (arith, more, v.counted)))
          (λ few. still-Drained r [] v (omega (arith, enough)))
    process_hashmaps-Drained (suc rounds) time time' r wait fits enough v =
        Ends-if (Drained r) (leb env.config.periods_to_wait r.service.rep.working.count) _ _
          (λ more.
            let many : env.config.periods_to_wait ≤ length r.service.rep.working.maps =
              ground (arith, more, v.counted) in
            Ends-bind (Next r) (Drained r) _ _
              (earliest-Next (time rounds) (time' rounds) r
                (λ e. absurd (omega (arith, ap length e))) v)
              (λ first next.
                let (m, e) = next.1 in
                let shorter = ap length e in
                Ends-bind (Drained first.1) (Drained r) _ _
                  (process_hashmaps-Drained rounds time time' first.1 wait (omega (arith, shorter))
                    (omega (arith, shorter)) next.0)
                  (λ second drained.
                    step-Drained r first second (first.0 ++ second.0) next drained many wait)))
          (λ few. still-Drained r [] v (ground (arith, few, v.counted)))
