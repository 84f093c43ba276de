-- ===== src/Tests/Services.antt =====
-- Runs of the service.
use estimators.Prelude.{
  ℕ, suc, ◌+◌, ◌≡◌, refl, arith, true, false, List, [], ◌∷◌, some, if◌then◌else◌,
}
use estimators.Ranges.{Store, single_range}
use estimators.Fistq.{DataQueue, QueueNode, fistq_free_data, fistq_type_pinfo, default_threshold}
use estimators.Reorder.Containers.{Given}
use estimators.Reorder.Report.{ReorderState}
use estimators.Hashmap.{HashMapKey, Items, StreamTuple, set_streamtuple, hashmap_force, zeroed_item}
use estimators.Hashmap.Lists.{HashMapList, empty_hashmap}
use estimators.Hashmap.View.{view, same_key, update_value, force_update-view}
use estimators.Estimator.{Timespec}
use estimators.Estimator.Values.{Value, zero_value}
use estimators.Estimator.Service.{
  Config, Holding, Service, Mallocs, PacketInfo, started, period_transition,
  data_exchange_aggregator_unsafe, data_exchange_reporter_unsafe, reporter_wait,
}
use estimators.Schedule.{Schedule}
use estimators.Estimator.Thread.{Setting, desk_of, with_desk, take_streams}
use estimators.Estimator.Exchange.{
  System, Step, Reach, reporter_of, with_reporter, step-transition, step-take, step-streams,
  reach-start, reach-step, opens,
}
use estimators.Tests.Lives.{setting}
use estimators.Estimator.Exchange.Order.{IsInOrder, Reach-IsInOrder}
use estimators.Estimator.Streams.{
  Arrival, handle_arrivals, own_packets, received_by, arrivals-received,
}
use estimators.Estimator.Periods.{period-received}
use estimators.Packet.{no_packets}
use estimators.Estimator.Storage.{Conserves, exchange-Conserves}
use estimators.Estimator.Aggregator.{Aggregator, aggregator_round}
use estimators.Estimator.Rounds.{Stepped, round-Stepped}

abbrev Blank : Type 0
Blank = Value (List ℕ) (List ℕ)

abbrev no_state : ReorderState (List ℕ) (List ℕ)
no_state = record {
  initialized = false;
  ex = record {
    num_arrivals = 0;
    next_exp = 0;
    missing_packets = [];
    missing = λ k. record { observed = false; ref_index = 0 };
  };
  rd = record { state = 0; ri = 0; window_initialized = false; window = []; buffer = [] };
}

abbrev blank_value : Blank
blank_value = zero_value no_state

abbrev key_bytes : HashMapKey → List ℕ
key_bytes k = k.stream.flow_key

abbrev all_enabled : Config
all_enabled = record {
  loss_enabled = true;
  reorder_enabled = record { extent = true; density = true };
  periods_to_wait = 1;
}

abbrev blank_items : Items Blank
blank_items p = zeroed_item blank_value

abbrev no_ranges : Store
no_ranges p = single_range 0

abbrev running : Service (List ℕ) (List ℕ)
running = started 100 (λ q. empty_hashmap) blank_items no_ranges

abbrev stream_a : StreamTuple
stream_a = record { flow_key = 1 ∷ 2 ∷ []; stream_id = 0 }

abbrev stream_b : StreamTuple
stream_b = record { flow_key = 1 ∷ 3 ∷ []; stream_id = 0 }

abbrev arrival_of : StreamTuple → ℕ → ℕ → Arrival
arrival_of stream n seq = record {
  mallocs = record { item = n; loss = some n; reorder = some (10 + n) };
  ts = n;
  ppi = record { stream = stream; seq = seq };
}

abbrev three_arrivals : List Arrival
three_arrivals = arrival_of stream_a 1 7 ∷ arrival_of stream_b 2 30 ∷ arrival_of stream_a 3 8 ∷ []

arrivals-received_example :
    Given
      (λ s'.
        received_by key_bytes blank_value 100 (set_streamtuple stream_a) s'
        ≡ own_packets key_bytes
            (set_streamtuple stream_a)
            three_arrivals
            (received_by key_bytes blank_value 100 (set_streamtuple stream_a) running))
      (handle_arrivals key_bytes blank_value all_enabled three_arrivals running)
unfolding started
arrivals-received_example =
    arrivals-received key_bytes blank_value all_enabled 100 (set_streamtuple stream_a)
      three_arrivals running refl
      (record {
        unused = (λ i. tt, (λ i. tt, (λ i. tt, tt)));
        distinct = ((omega arith, (omega arith, tt)), ((omega arith, tt), (tt, tt)));
      })

abbrev running_setting : Setting
running_setting = record setting { bytes = key_bytes; blank = blank_value; config = all_enabled }

abbrev no_schedule : Schedule
no_schedule = record { timezero = 0; nitems = 0; schedule = [] }

abbrev at_start : System (List ℕ) (List ℕ)
at_start = record {
  service = running;
  trackers = empty_hashmap ∷ [];
  state_data = empty_hashmap;
  calls = 0;
  schedule = no_schedule;
  opened = 100 ∷ [];
  closed = [];
}

start-Reach : Reach running_setting at_start
start-Reach =
    reach-start 100 (λ q. empty_hashmap) blank_items no_ranges (empty_hashmap ∷ []) empty_hashmap 0
      no_schedule

abbrev after_period : System (List ℕ) (List ℕ)
after_period = record at_start {
  service = (period_transition 101 running).1;
  opened = 100 ∷ opens 101 running ∷ [];
}

-- The reporter takes the map of the first period, which has no streams, into its trackers.
abbrev taken_service : Service (List ℕ) (List ℕ)
taken_service =
    let (shared, rep) =
      data_exchange_reporter_unsafe after_period.service.shared after_period.service.rep in
    record (after_period.service) { shared = shared; rep = rep; reporter_sleeping = false }

abbrev after_take : System (List ℕ) (List ℕ)
after_take = record after_period { service = taken_service }

abbrev after_streams : System (List ℕ) (List ℕ)
after_streams =
    let r = reporter_of running_setting after_take in
    with_reporter running_setting after_take
      (with_desk running_setting r (desk_of running_setting r))

take-Step : Step running_setting after_period after_take
unfolding period_transition started reporter_wait
take-Step = step-take false after_period taken_service refl

streams-Step : Step running_setting after_take after_streams
unfolding period_transition started data_exchange_reporter_unsafe take_streams
streams-Step =
    step-streams after_take 100 [] [] [] []
      (desk_of running_setting (reporter_of running_setting after_take)) refl refl refl

Reach-IsInOrder_example : IsInOrder after_streams
Reach-IsInOrder_example = Reach-IsInOrder running_setting after_streams (
    reach-step after_take after_streams
      (reach-step after_period after_take
        (reach-step at_start after_period start-Reach (step-transition 101 at_start)) take-Step)
      streams-Step)

abbrev one_node : QueueNode PacketInfo
one_node = record { data_of = record { stream = stream_a; seq = 7 }; type_of = fistq_type_pinfo }

abbrev queue_with : ℕ → List (QueueNode PacketInfo) → DataQueue PacketInfo
queue_with n nodes = record { size = n; nodes = nodes; free_data = fistq_free_data }

abbrev one_waiting : Aggregator (List ℕ) (List ℕ)
one_waiting = record {
  ref = record { tv_sec = 2; tv_nsec = 0 };
  client2agg = record { fq = 5; lq = queue_with 0 []; threshold = default_threshold };
  internal = queue_with 1 (one_node ∷ []);
  service = running;
}

abbrev half_second : Timespec
half_second = record { tv_sec = 0; tv_nsec = 500000000 }

abbrev some_mallocs : Mallocs
some_mallocs = record { item = 1; loss = some 1; reorder = some 2 }

round-Stepped_example : Stepped running_setting at_start (
    aggregator_round key_bytes blank_value all_enabled half_second 101 some_mallocs 9 half_second
      false one_waiting)
round-Stepped_example =
    round-Stepped running_setting half_second 101 some_mallocs 9 half_second false one_waiting
      at_start start-Reach refl (record { counted = refl }) (record { counted = refl })
      (omega arith)

abbrev zeroed : Items ℕ
zeroed p = zeroed_item 0

force_update-view_example :
    let r = hashmap_force key_bytes 0 6 zeroed empty_hashmap (set_streamtuple stream_a) (8 ∷ []) in
    view key_bytes 0 (update_value r.store r.item suc) r.map (set_streamtuple stream_b) ≡ (
      if same_key key_bytes (set_streamtuple stream_a) (set_streamtuple stream_b)
      then suc (view key_bytes 0 zeroed empty_hashmap (set_streamtuple stream_b))
      else view key_bytes 0 zeroed empty_hashmap (set_streamtuple stream_b))
force_update-view_example =
    force_update-view key_bytes 0 6 zeroed empty_hashmap (set_streamtuple stream_a)
      (set_streamtuple stream_b) (8 ∷ []) suc (λ i. tt)

abbrev maps_of : ℕ → ℕ → HashMapList
maps_of n m = record { count = n; maps = m ∷ [] }

abbrev holding_of : ℕ → Holding
holding_of n = record {
  working = maps_of 1 n;
  free_hashmaps = maps_of 1 (10 + n);
  free_hashmapitems = n ∷ [];
  free_lossranges = n ∷ [];
  free_reorderranges = [];
}

exchange-Conserves_example :
    Conserves
      (data_exchange_aggregator_unsafe (holding_of 1) (holding_of 2))
      (holding_of 1, holding_of 2)
    × Conserves
        (data_exchange_reporter_unsafe (holding_of 2) (holding_of 3))
        (holding_of 2, holding_of 3)
exchange-Conserves_example = exchange-Conserves (holding_of 1) (holding_of 2) (holding_of 3)

period-received_example :
    Given
      (λ s'.
        received_by key_bytes blank_value (opens 101 running) (set_streamtuple stream_a) s'
        ≡ own_packets key_bytes (set_streamtuple stream_a) three_arrivals no_packets)
      (handle_arrivals key_bytes blank_value all_enabled three_arrivals
        (period_transition 101 running).1)
unfolding started period_transition
period-received_example =
    period-received running_setting (no_state, refl) 101 (set_streamtuple stream_a) three_arrivals
      at_start start-Reach ((omega arith, (omega arith, tt)), ((omega arith, tt), (tt, tt)))
