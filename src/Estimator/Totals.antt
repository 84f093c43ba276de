-- ===== src/Estimator/Totals.antt =====
-- What a period's streams add to the trackers: the loop of `reporter_thread` over the items of the
-- earliest map, without the reorder metrics.
pub mod Taken
use estimators.Prelude.{
  ℕ, ◌≡◌, refl, sym, ap, ◌∙◌, subst, arith, Bool, true, false, if◌then◌else◌, List, [], ◌∷◌, ◌++◌,
  All, All-map, All-both,
}
use estimators.Packet.{PacketData, packetdata_a2r, packetdata_accumulate}
use estimators.Ranges.{Store}
use estimators.Reorder.Containers.{Ends, Ends-bind, Ends-weaken}
use estimators.Hashmap.{HashMap, HashMapKey, Items}
use estimators.Hashmap.View.{view, same_key}
use estimators.Hashmap.Apart.{Disjoint}
use estimators.Estimator.Values.{ReporterData, StateData, Value}
use estimators.Estimator.Service.{Config, reorder_wanted, accumulate_time}
use estimators.Estimator.Reporter.{Desk, put_state, force_local, track}
use estimators.Estimator.Thread.{Setting, TreeOf, QueueOf, DeskOf, convert, take_streams}
use estimators.Estimator.Based.{AllBased, put-AllItems, force_local-AllBased, track-AllBased}
use estimators.Estimator.Progress.{IsSane, Converted, convert-Converted}
use estimators.Estimator.Sharing.{
  upcoming, IsFresh, IsShared, swap-IsShared, rest-IsShared, force-IsShared, forced_in, forced_desk,
  forced_map, forced-items, forced-other,
}
use estimators.Estimator.Trackers.{
  Tracked, Tracked-before, track-Tracked, track-items, track-IsShared, with_report,
}
use estimators.Estimator.Flows.{as_map, stated, stated-items}
use estimators.Loss.Total.{HasBase}

module _ {Tree Queue : Type 0} (bytes : HashMapKey → List ℕ) where
  -- The packet data of the items of the key, accumulated in order.
  abbrev pub period_packets :
      HashMapKey → List ℕ → Items (Value Tree Queue) → PacketData → PacketData
  period_packets j [] h acc = acc
  period_packets j (p ∷ ps) h acc = period_packets j ps h (
      if same_key bytes (h p).key j
      then packetdata_accumulate acc (packetdata_a2r (h p).value.agg_data.received)
      else acc)

  period_packets-agree :
      (j : HashMapKey) (ps : List ℕ) (h h' : Items (Value Tree Queue)) (acc : PacketData)
      → All (λ q. h' q ≡ h q) ps
      → period_packets j ps h' acc ≡ period_packets j ps h acc
  period_packets-agree j [] h h' acc a = refl
  period_packets-agree j (p ∷ ps) h h' acc a = rw a.0 (period_packets-agree j ps h h' _ a.1)

  module _ (blank : Value Tree Queue) where
    -- The trackers before and after a period.
    abbrev pub Totals :
        List ℕ
        → Items (Value Tree Queue)
        → Items (Value Tree Queue)
        → List HashMap
        → List HashMap
        → Type 0
    Totals ps h h' [] [] = Unit
    Totals ps h h' (hm ∷ rest) (hm' ∷ rest') =
        ((j : HashMapKey)
          → (view bytes blank h' hm' j).rep_data.received
            ≡ period_packets j ps h (view bytes blank h hm j).rep_data.received)
        × Totals ps h h' rest rest'
    Totals ps h h' _ _ = ⊥

    Totals-refl : (h : Items (Value Tree Queue)) (hms : List HashMap) → Totals [] h h hms hms
    Totals-refl h [] = tt
    Totals-refl h (hm ∷ rest) = (λ j. refl, Totals-refl h rest)

    tracked_packets :
        (config : Config) (b : Bool) (rd : ReporterData) (v w : Value Tree Queue)
        (unit : PacketData)
        → v ≡ (if b then with_report config rd w else w)
        → rd.received ≡ unit
        → v.rep_data.received
          ≡ (if b then packetdata_accumulate w.rep_data.received unit else w.rep_data.received)
    unfolding accumulate_time
    tracked_packets config true rd v w unit e f =
        ap (λ x. x.rep_data.received) e ∙ ap (λ x. packetdata_accumulate w.rep_data.received x) f
    tracked_packets config false rd v w unit e f = ap (λ x. x.rep_data.received) e

    -- One stream before the rest of the period.
    Totals-cons :
        (malloc : ℕ → ℕ) (config : Config) (p : ℕ) (ps : List ℕ) (rd : ReporterData)
        (h h₁ h' : Items (Value Tree Queue)) (hms hms' hms'' : List HashMap)
        → rd.received ≡ packetdata_a2r (h p).value.agg_data.received
        → All (λ q. h₁ q ≡ h q) ps
        → Tracked bytes blank malloc config (h p).key rd h h₁ hms hms'
        → Totals ps h₁ h' hms' hms''
        → Totals (p ∷ ps) h h' hms hms''
    Totals-cons malloc config p ps rd h h₁ h' [] [] [] f a t u = tt
    Totals-cons malloc config p ps rd h h₁ h' (hm ∷ r) (hm' ∷ r') (hm'' ∷ r'') f a t u = (
      λ j.
          u.0 j
          ∙ period_packets-agree j ps h h₁ (view bytes blank h₁ hm' j).rep_data.received a
          ∙ ap (λ x. period_packets j ps h x)
              (tracked_packets config (same_key bytes (h p).key j) rd _ _ _ (t.0 j) f),
      Totals-cons malloc config p ps rd h h₁ h' r r' r'' f a t.1 u.1,
    )
    Totals-cons malloc config p ps rd h h₁ h' [] (hm' ∷ r') hms'' f a t u = absurd t
    Totals-cons malloc config p ps rd h h₁ h' (hm ∷ r) [] hms'' f a t u = absurd t
    Totals-cons malloc config p ps rd h h₁ h' [] [] (hm'' ∷ r'') f a t u = absurd u
    Totals-cons malloc config p ps rd h h₁ h' (hm ∷ r) (hm' ∷ r') [] f a t u = absurd u

module _ (malloc : ℕ → ℕ) where
  shorter_apart :
      (p : ℕ) (ps : List ℕ) (hms : List HashMap)
      → All (λ hm. Disjoint (as_map (p ∷ ps)) hm) hms
      → All (λ hm. Disjoint (as_map ps) hm) hms
  shorter_apart p ps hms d = All-map hms (λ hm a i. (a i).1) d

  -- The items that are left share with the other maps.
  shorter-IsShared :
      (free : List ℕ) (calls : ℕ) (st : HashMap) (p : ℕ) (ps : List ℕ) (hms : List HashMap)
      → IsShared malloc free calls (st ∷ as_map (p ∷ ps) ∷ hms)
      → IsShared malloc free calls (st ∷ as_map ps ∷ hms)
  shorter-IsShared free calls st p ps hms v = record {
    separate = (
      (λ i. All-map (st.hash_table i) (λ q c k. (c k).1) (v.separate.0.0 i), v.separate.0.1),
      (shorter_apart p ps hms v.separate.1.0, v.separate.1.1),
    );
    fresh = (
      v.fresh.0,
      (
        λ n.
            let s = v.fresh.1.0 n in
            record {
              unused = All-map (free ++ upcoming malloc calls n) (λ q c k. (c k).1) s.unused;
              distinct = s.distinct;
            },
        v.fresh.1.1,
      ),
    );
  }
