-- ===== src/Estimator/Values.antt =====
-- aggregatordata.h, reporterdata.h and `struct value_struct` of hashmap2.h: what an item of a hash map
-- records for its key. `flow_count`, which no code uses, is left out.
use estimators.Prelude.{ℕ, List, []}
use estimators.FlowState.{FlowState}
use estimators.Packet.{PacketData, no_packets}
use estimators.Loss.{LossDataA, LossDataR, LossState, no_loss, fresh_state}
use estimators.Reorder.{ReorderDataR, no_reorder}
use estimators.Reorder.Report.{ReorderState}

-- `reorder` is the list `ranges` of `struct reorderDataA`, its only field.
pub record AggregatorData : Type 0 where
  pub received : PacketData
  pub loss : LossDataA
  pub reorder : List ℕ

pub record ReporterData : Type 0 where
  pub received : PacketData
  pub loss : LossDataR
  pub reorder : ReorderDataR

pub record StateData (Tree Queue : Type 0) : Type 0 where
  pub loss : LossState
  pub reorder : ReorderState Tree Queue

pub record Value (Tree Queue : Type 0) : Type 0 where
  pub agg_data : AggregatorData
  pub rep_data : ReporterData
  pub state_data : StateData Tree Queue

-- `memset(..., 0, ...)` of each part; the bytes 0 of the reorder state are a parameter, since a part of
-- it belongs to the tree and the queue.
abbrev pub no_arrivals : AggregatorData
no_arrivals = record {
  received = no_packets;
  loss = record { ranges = []; flowstate = FlowState.fs_null };
  reorder = [];
}

abbrev pub no_reports : ReporterData
no_reports = record { received = no_packets; loss = no_loss; reorder = no_reorder }

abbrev pub zero_value : {Tree Queue : Type 0} → ReorderState Tree Queue → Value Tree Queue
zero_value blank = record {
  agg_data = no_arrivals;
  rep_data = no_reports;
  state_data = record { loss = fresh_state; reorder = blank };
}
