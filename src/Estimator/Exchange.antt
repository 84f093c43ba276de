-- ===== src/Estimator/Exchange.antt =====
-- The maps of the periods on their way from the aggregator to the reporter: the steps of the two
-- threads, in any interleaving. The reporter's steps may come in any order, so that the states that are
-- reached are at least those of the code.
pub mod Maps
pub mod Order
use estimators.Prelude.{ℕ, ◌≡◌, Bool, List, [], ◌∷◌, ◌++◌, map, length, some}
use estimators.Ranges.{Store}
use estimators.Reorder.Containers.{ok}
use estimators.Hashmap.{HashMap, HashMapKey, Items}
use estimators.Hashmap.Lists.{take_map}
use estimators.Schedule.{Schedule}
use estimators.Estimator.Values.{Value}
use estimators.Estimator.Service.{
  Service, Mallocs, PacketInfo, sleeps, takes, started, reporter_wait, period_transition,
  handle_packet_arrival, data_exchange_aggregator_unsafe,
}
use estimators.Estimator.Reporter.{report_all}
use estimators.Estimator.Recycle.{recycle_earliest}
use estimators.Estimator.Thread.{
  Setting, TreeOf, QueueOf, DeskOf, ToldOf, take_streams, Reporter, desk_of, with_desk,
  reporter_end,
}

-- The service, the reporter's own variables, the maps that were opened for a period, and those whose
-- period has been processed, both in order.
pub record System (Tree Queue : Type 0) : Type 0 where
  pub service : Service Tree Queue
  pub trackers : List HashMap
  pub state_data : HashMap
  pub calls : ℕ
  pub schedule : Schedule
  pub opened : List ℕ
  pub closed : List ℕ

-- The map that `period_transition` opens.
abbrev pub opens : {Tree Queue : Type 0} → ℕ → Service Tree Queue → ℕ
opens malloc s =
    (take_map malloc (data_exchange_aggregator_unsafe s.agg s.shared).0.free_hashmaps).0

module _ (env : Setting) where
  abbrev pub SystemOf : Type 0
  SystemOf = System (TreeOf env) (QueueOf env)

  abbrev pub reporter_of : SystemOf → Reporter env
  reporter_of t = record {
    service = t.service;
    trackers = t.trackers;
    state_data = t.state_data;
    calls = t.calls;
    schedule = t.schedule;
  }

  abbrev pub with_reporter : SystemOf → Reporter env → SystemOf
  with_reporter t r = record t {
    service = r.service;
    trackers = r.trackers;
    state_data = r.state_data;
    calls = r.calls;
    schedule = r.schedule;
  }

  pub data Step : SystemOf → SystemOf → Type 0 where
    step-transition :
        (malloc : ℕ) (t : SystemOf)
        → Step t (record t {
          service = (period_transition malloc t.service).1;
          opened = t.opened ++ opens malloc t.service ∷ [];
        })
    step-arrival :
        (mallocs : Mallocs) (ts : ℕ) (ppi : PacketInfo) (t : SystemOf)
        (s : Service (TreeOf env) (QueueOf env))
        → handle_packet_arrival env.bytes env.blank env.config mallocs ts ppi t.service ≡ some s
        → Step t (record t { service = s })
    step-sleep :
        (done : Bool) (t : SystemOf) (s : Service (TreeOf env) (QueueOf env))
        → reporter_wait done t.service ≡ sleeps s
        → Step t (record t { service = s })
    step-take :
        (done : Bool) (t : SystemOf) (s : Service (TreeOf env) (QueueOf env))
        → reporter_wait done t.service ≡ takes s
        → Step t (record t { service = s })
    -- Some of the items of the earliest map are taken into the trackers.
    step-streams :
        (t : SystemOf) (m : ℕ) (later before ps after : List ℕ) (desk : DeskOf env)
        → t.service.rep.working.maps ≡ m ∷ later
        → (t.service.hashmaps m).items ≡ before ++ (ps ++ after)
        → take_streams env ps (map t.service.hashmaps later) (desk_of env (reporter_of t)) ≡ ok desk
        → Step t (with_reporter t (with_desk env (reporter_of t) desk))
    -- Some of the trackers report what is due of them.
    step-reports :
        (t : SystemOf) (time time' : ℕ → ℕ) (before part after part' : List HashMap)
        (told : ToldOf env) (schedule : Schedule) (desk : DeskOf env)
        → t.trackers ≡ before ++ (part ++ after)
        → report_all env.bytes env.blank env.malloc env.config env.ops env.double env.has_cb time
            time'
            (length before)
            part
            t.schedule
            (desk_of env (reporter_of t))
          ≡ ok (told, part', schedule, desk)
        → Step t (
            with_reporter t (record (with_desk env (reporter_of t) desk) {
              trackers = before ++ (part' ++ after);
              schedule = schedule;
            }))
    step-end : (t : SystemOf) → Step t (with_reporter t (reporter_end env (reporter_of t)))
    step-recycle :
        (t : SystemOf) (m : ℕ) (later : List ℕ) (s : Service (TreeOf env) (QueueOf env))
        → t.service.rep.working.maps ≡ m ∷ later
        → recycle_earliest t.service ≡ some s
        → Step t (record t { service = s; closed = t.closed ++ m ∷ [] })

  pub data Reach : SystemOf → Type 0 where
    reach-start :
        (malloc : ℕ) (hashmaps : ℕ → HashMap) (items : Items (Value (TreeOf env) (QueueOf env)))
        (ranges : Store) (trackers : List HashMap) (state_data : HashMap) (calls : ℕ)
        (schedule : Schedule)
        → Reach (record {
          service = started malloc hashmaps items ranges;
          trackers = trackers;
          state_data = state_data;
          calls = calls;
          schedule = schedule;
          opened = malloc ∷ [];
          closed = [];
        })
    reach-step : (t u : SystemOf) → Reach t → Step t u → Reach u
