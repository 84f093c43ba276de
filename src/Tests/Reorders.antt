-- ===== src/Tests/Reorders.antt =====
-- Runs of the reorder analysis, over lists as its containers.
use estimators.Prelude.{
  ℕ, zero, suc, ◌+◌, ◌-◌, ◌≡◌, refl, arith, Bool, true, false, List, [], ◌∷◌, get_or, if◌then◌else◌,
  ◌==◌, ltb, add32,
}
use estimators.Reorder.{
  Enabled, no_reorder, reorder_max_extent, reorder_window_size, reorderdata_accumulate,
}
use estimators.Reorder.Containers.{Ends}
use estimators.Reorder.Density.{RdState, max_seqno, rd_loop}
use estimators.Reorder.Extent.{ExtentState, take_packets, take_range_extent}
use estimators.Reorder.Window.{IsWindow, rd_loop-IsWindow}
use estimators.Reorder.Histogram.{IsSound}
use estimators.Reorder.Sound.{Grows, take_range_extent-Grows}
use estimators.Reorder.Endless.{Only, Early, take_packets-endless, rd_loop-endless}
use estimators.Reorder.Accumulate.{accumulate-buckets}
use estimators.Reorder.Report.{ReorderState, reorderdata_a2r}
use estimators.Reorder.Ended.{sizes}
use estimators.Reorder.Ended.Ranges.{Reported, reorderdata_a2r-Reported}
use estimators.Ranges.{Store, arr_past}
use estimators.Tests.Containers.{list_tree, list_queue}

abbrev both : Enabled
both = record { extent = true; density = true }

abbrev always : ℕ → Bool
always seq = true

abbrev empty_window : RdState (List ℕ) (List ℕ)
empty_window = record { state = 0; ri = 0; window_initialized = false; window = []; buffer = [] }

empty_window-IsWindow : IsWindow list_tree list_queue always empty_window
empty_window-IsWindow = record {
  flag = omega arith;
  filling = λ e. (refl, omega arith);
  full = λ e. absurd (cc e);
}

rd_loop-IsWindow_example :
    Ends
      (λ r. (r.0 ≡ false) × IsWindow list_tree list_queue always r.1)
      (rd_loop list_tree list_queue always 12 5 16 (empty_window, no_reorder))
rd_loop-IsWindow_example =
    rd_loop-IsWindow list_tree list_queue always (λ seq. refl) 12 5 16 empty_window no_reorder
      (omega arith) (omega arith) empty_window-IsWindow

-- Packet 3 is missing, and 5 is expected next.
abbrev one_missing : ExtentState (List ℕ)
one_missing = record {
  num_arrivals = 4;
  next_exp = 5;
  missing_packets = 3 ∷ [];
  missing = λ seq. record { observed = false; ref_index = 4 };
}

one_missing-IsSound : IsSound list_tree always one_missing no_reorder
one_missing-IsSound = record { buckets = refl; counted = omega arith; refs = λ k h. omega arith }

-- A stream with that packet missing, and with a window that fills up.
abbrev under_way : ReorderState (List ℕ) (List ℕ)
under_way = record { initialized = true; ex = one_missing; rd = empty_window }

abbrev two_ranges : Store
two_ranges zero = record { low = 3; high = 6; wraparound = 0; arrival_period = arr_past }
two_ranges (suc p) = record { low = 9; high = 20; wraparound = 0; arrival_period = arr_past }

reorderdata_a2r-Reported_example :
    Ends
      (Reported list_tree list_queue always both
        (λ seq. refl)
        (sizes two_ranges (0 ∷ 1 ∷ []))
        under_way)
      (reorderdata_a2r list_tree list_queue always both 12 two_ranges
        (0 ∷ 1 ∷ [])
        under_way
        no_reorder)
reorderdata_a2r-Reported_example =
    reorderdata_a2r-Reported list_tree list_queue always both (λ seq. refl) 12 two_ranges
      (0 ∷ 1 ∷ []) under_way no_reorder
      ((omega arith, omega arith, omega arith), ((omega arith, omega arith, omega arith), tt))
      (omega arith)
      (record {
        buckets = refl;
        counted = omega arith;
        refs = λ e f k h. omega arith;
        window = λ e f. empty_window-IsWindow;
      })

-- The range begins late and ends past the next expected packet.
take_range_extent-Grows_example :
    Ends
      (Grows list_tree always (6 + 1 - 3) one_missing no_reorder)
      (take_range_extent list_tree always 5 one_missing no_reorder 3 6)
take_range_extent-Grows_example =
    take_range_extent-Grows list_tree always 5 3 6 one_missing no_reorder (omega arith)
      (omega arith) (omega arith) (omega arith) one_missing-IsSound

take_packets-endless_example :
    Only (λ _. ⊥) (take_packets list_tree always 3 7 max_seqno (one_missing, no_reorder))
take_packets-endless_example =
    take_packets-endless list_tree list_queue always 3 7 (one_missing, no_reorder) (omega arith)

rd_loop-endless_example :
    Only
      (Early list_tree list_queue always)
      (rd_loop list_tree list_queue always 3 7 max_seqno (empty_window, no_reorder))
rd_loop-endless_example =
    rd_loop-endless list_tree list_queue always 3 7 (empty_window, no_reorder) (omega arith)

accumulate-buckets_example :
    (get_or (reorderdata_accumulate both no_reorder no_reorder).extent_to_count 2 0 ≡ (
      if 2 == reorder_max_extent
      then get_or no_reorder.extent_to_count 2 0
      else add32 (get_or no_reorder.extent_to_count 2 0) (get_or no_reorder.extent_to_count 2 0)))
    × (get_or (reorderdata_accumulate both no_reorder no_reorder).fd 2 0 ≡ (
        if ltb 2 reorder_window_size
        then add32 (get_or no_reorder.fd 2 0) (get_or no_reorder.fd 2 0)
        else get_or no_reorder.fd 2 0))
accumulate-buckets_example =
    accumulate-buckets both no_reorder no_reorder 2 refl refl refl refl (omega arith)
