-- ===== src/Tests/Trackers.antt =====
-- Runs of the reporter over its trackers and over the maps of the periods.
use mathlib.Core.List.Permᴰ
use estimators.Prelude.{
  ℕ, zero, suc, ◌+◌, ◌≤◌, ◌≡◌, ◌≢◌, refl, arith, true, false, ◌==◌, Bool-cases, inl, inr, List, [],
  ◌∷◌, All, All-map,
}
use estimators.Loss.{no_loss}
use estimators.Ranges.{Distinct, single_range}
use estimators.Reorder.{no_reorder}
use estimators.Reorder.Containers.{Ends}
use estimators.Hashmap.{HashMap, HashMapKey, put_bucket, hmk_streamtuple}
use estimators.Hashmap.Apart.{Clear, Disjoint}
use estimators.Hashmap.Lists.{empty_hashmap}
use estimators.Hashmap.View.{view}
use estimators.Schedule.{Schedule}
use estimators.Estimator.Values.{Value, ReporterData}
use estimators.Estimator.Service.{Config, no_holding}
use estimators.Estimator.Reporter.{Desk, is_stream, track, consolidate}
use estimators.Estimator.Thread.{Setting, Reporter, take_streams, process_hashmaps}
use estimators.Estimator.Sharing.{upcoming, IsFresh}
use estimators.Estimator.Trackers.{Tracked, track-Tracked}
use estimators.Estimator.Flows.{sum_flows, as_map}
use estimators.Estimator.Flows.Sums.{consolidate-flows}
use estimators.Estimator.Totals.{Totals}
use estimators.Estimator.Totals.Taken.{take_streams-Totals}
use estimators.Estimator.Progress.{IsSane}
use estimators.Estimator.Drained.{IsReady, Drained, process_hashmaps-Drained}
use estimators.Tests.Lives.{idle_value, setting}

-- Addresses from 100 on, one for each call.
abbrev plain : ℕ → ℕ
plain c = 100 + c

plain-above : (c n : ℕ) → All (λ p. 100 + c ≤ p) (upcoming plain c n)
plain-above c zero = tt
plain-above c (suc n) = (
  omega arith,
  All-map (upcoming plain (c + 1) n) (λ p h. omega (arith, h)) (plain-above (c + 1) n),
)

plain-Distinct : (c n : ℕ) → Distinct (upcoming plain c n)
plain-Distinct c zero = tt
plain-Distinct c (suc n) = (
  All-map (upcoming plain (c + 1) n) (λ p h e. absurd (omega (arith, h, e)))
      (plain-above (c + 1) n),
  plain-Distinct (c + 1) n,
)

abbrev two_free : List ℕ
two_free = 7 ∷ 8 ∷ []

-- A map whose items lie below 7 has all these to come.
plain-IsFresh :
    (hm : HashMap) (c : ℕ) → ((p : ℕ) → 7 ≤ p → Clear p hm) → IsFresh plain two_free c hm
plain-IsFresh hm c h n = record {
  unused = (
    h 7 (omega arith),
    (
      h 8 (omega arith),
      All-map (upcoming plain c n) (λ p k. h p (omega (arith, k))) (plain-above c n),
    ),
  );
  distinct = (
    (
      omega arith,
      All-map (upcoming plain c n) (λ p k e. absurd (omega (arith, k, e))) (plain-above c n),
    ),
    (
      All-map (upcoming plain c n) (λ p k e. absurd (omega (arith, k, e))) (plain-above c n),
      plain-Distinct c n,
    ),
  );
}

-- A map of one item.
abbrev one_in : ℕ → ℕ → HashMap
one_in b p = record { hash_table = put_bucket (λ i. []) b (p ∷ []); items = p ∷ [] }

one-Clear : (b p x : ℕ) → x ≢ p → Clear x (one_in b p)
one-Clear b p x d i = elim (Bool-cases (b == i)) [ inl e ↦ rw e (d, tt) | inr e ↦ rw e tt ]

one-Disjoint : (b p : ℕ) (other : HashMap) → Clear p other → Disjoint (one_in b p) other
one-Disjoint b p other c i = elim (Bool-cases (b == i)) [ inl e ↦ rw e (c, tt) | inr e ↦ rw e tt ]

abbrev byte_of : HashMapKey → List ℕ
byte_of k = k.stream.flow_key

abbrev key_a : HashMapKey
key_a = record {
  keytype = hmk_streamtuple;
  stream = record { flow_key = 1 ∷ 2 ∷ []; stream_id = 9 };
  has_hash = true;
  hash = 5;
}

abbrev report : ReporterData
report = record {
  received = record { packet_count = 2; min_seq = 3; max_seq = 4; earliest = 1; latest = 6 };
  loss = no_loss;
  reorder = no_reorder;
}

abbrev loss_only : Config
loss_only = record {
  loss_enabled = true;
  reorder_enabled = record { extent = false; density = false };
  periods_to_wait = 1;
}

abbrev Blank : Type 0
Blank = Value (List ℕ) (List ℕ)

abbrev one_value : Blank
one_value = record idle_value { rep_data = report }

-- Every item is one of the stream.
abbrev desk : Desk (List ℕ) (List ℕ)
desk = record {
  trackers = [];
  state_data = one_in 5 3;
  items = λ p. record { key = key_a; value = one_value; marked_for_deletion = false };
  free_hmis_local = two_free;
  ranges = λ p. single_range 0;
  calls = 0;
}

one-IsFresh : (b p : ℕ) → p ≤ 6 → IsFresh plain two_free 0 (one_in b p)
one-IsFresh b p h =
    plain-IsFresh (one_in b p) 0 (λ x k. one-Clear b p x (λ e. absurd (omega arith)))

track-Tracked_example :
    let r =
      track byte_of idle_value plain loss_only key_a report (one_in 5 4 ∷ one_in 6 5 ∷ []) desk in
    Tracked byte_of idle_value plain loss_only key_a report desk.items r.1.items
      (one_in 5 4 ∷ one_in 6 5 ∷ [])
      r.0
track-Tracked_example =
    track-Tracked byte_of idle_value plain loss_only key_a report (one_in 5 4 ∷ one_in 6 5 ∷ [])
      desk
      (record {
        separate = ((one-Disjoint 5 4 (one_in 6 5) (one-Clear 6 5 4 (omega arith)), tt), (tt, tt));
        fresh = (one-IsFresh 5 4 (omega arith), (one-IsFresh 6 5 (omega arith), tt));
      })

consolidate-flows_example :
    let r = consolidate byte_of idle_value plain loss_only (4 ∷ []) (one_in 5 4) desk in
    let before = (view byte_of idle_value desk.items (one_in 5 4) key_a).rep_data in
    let after = (view byte_of idle_value r.1.items r.0 key_a).rep_data in
    (after ≡ sum_flows byte_of loss_only key_a (4 ∷ []) desk.items before)
    × (is_stream key_a.keytype ≡ true → after ≡ before)
consolidate-flows_example =
    consolidate-flows byte_of idle_value plain loss_only (4 ∷ []) key_a (one_in 5 4) desk (record {
      maps = record {
        separate = ((one-Disjoint 5 3 (one_in 5 4) (one-Clear 5 4 3 (omega arith)), tt), (tt, tt));
        fresh = (one-IsFresh 5 3 (omega arith), (one-IsFresh 5 4 (omega arith), tt));
      };
      items = record {
        separate = ((one-Disjoint 5 3 (as_map (4 ∷ [])) (λ i. (omega arith, tt)), tt), (tt, tt));
        fresh = (
          one-IsFresh 5 3 (omega arith),
          (plain-IsFresh (as_map (4 ∷ [])) 0 (λ p h i. (λ e. absurd (omega arith), tt)), tt),
        );
      };
    })

abbrev every_five : Schedule
every_five = record {
  timezero = 0;
  nitems = 1;
  schedule = record { outlets = 99 ∷ []; interval = 5; next_run = 5 } ∷ [];
}

abbrev loss_setting : Setting
loss_setting = record setting { config = loss_only }

loss_setting-IsSane : IsSane loss_setting
loss_setting-IsSane = record {
  sorts = record { permutes = λ cmp xs. Permᴰ.refl xs };
  memory = λ n. refl;
  fresh = λ e. absurd (cc e);
}

-- Two periods wait, each with the stream.
abbrev two_periods : Reporter loss_setting
two_periods = record {
  service = record {
    agg = no_holding;
    shared = no_holding;
    rep = record no_holding { working = record { count = 2; maps = 40 ∷ 41 ∷ [] } };
    free_hmis_local = two_free;
    reporter_sleeping = false;
    hashmaps = λ q. one_in 5 4;
    items = desk.items;
    ranges = desk.ranges;
  };
  trackers = empty_hashmap ∷ [];
  state_data = empty_hashmap;
  calls = 0;
  schedule = every_five;
}

two_periods-IsReady : IsReady loss_setting loss_setting-IsSane two_periods
two_periods-IsReady = record {
  counted = refl;
  scheduled = omega arith;
  based = λ p e. absurd (cc e);
}

process_hashmaps-Drained_example :
    Ends
      (Drained loss_setting loss_setting-IsSane refl two_periods)
      (process_hashmaps loss_setting 2 (λ r x. r) (λ r x. r) two_periods)
process_hashmaps-Drained_example =
    process_hashmaps-Drained loss_setting loss_setting-IsSane refl 2 (λ r x. r) (λ r x. r)
      two_periods (omega arith) (omega arith) (omega arith) two_periods-IsReady

abbrev tracking : Desk (List ℕ) (List ℕ)
tracking = record desk { trackers = one_in 6 5 ∷ [] }

take_streams-Totals_example :
    Ends
      (λ d. Totals byte_of idle_value (4 ∷ []) desk.items d.items (one_in 6 5 ∷ []) d.trackers)
      (take_streams loss_setting (4 ∷ []) [] tracking)
take_streams-Totals_example =
    take_streams-Totals loss_setting loss_setting-IsSane refl (4 ∷ []) [] tracking
      (λ p e. absurd (cc e))
      (record {
        separate = (
          (
            one-Disjoint 5 3 (as_map (4 ∷ [])) (λ i. (omega arith, tt)),
            (one-Disjoint 5 3 (one_in 6 5) (one-Clear 6 5 3 (omega arith)), tt),
          ),
          ((λ i. (one-Clear 6 5 4 (omega arith), tt), tt), (tt, tt)),
        );
        fresh = (
          one-IsFresh 5 3 (omega arith),
          (
            plain-IsFresh (as_map (4 ∷ [])) 0 (λ p h i. (λ e. absurd (omega arith), tt)),
            (one-IsFresh 6 5 (omega arith), tt),
          ),
        );
      })
