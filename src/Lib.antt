-- ===== src/Lib.antt =====
-- Models and proofs for the ProD3 estimators: the service that takes packets from any number of
-- threads, summarises them by stream and reports loss, reordering and counts at intervals.
--
-- The parts. The aggregator puts each packet into the record of its stream: its packet data
-- (packetdata.c), loss data (lossdata.c) and reorder data (reorderdata.c). At the end of an
-- interval the reporter turns the aggregated records into reports, again stream by stream, with a
-- state that stays from one interval to the next, and accumulates the reports over time and over
-- the streams of a flow. Sequence numbers are 32 bits wide and wrap.
--
-- The files and the code:
-- * Seqno is seqcmp and modular_distance of datatypes.c. Seqno/Order is about them.
-- * FlowState is flowstate.c and the macros of flowstate.h. FlowState/Events relates the states to
--   the events that lead to them.
-- * Packet is packetdata.c. A packet's time is positive, as a clock's is. Packet/Extent and
--   Packet/Summary relate it to the extremes of the packets on the line without wrap-around.
-- * Ranges is the list functions of datatypes.c: a range lies in a store under its address, and a
--   list is the addresses in order. Ranges/Spans says which numbers ranges stand for.
-- * Loss is lossdata.h, the arrival and the accumulation of lossdata.c; Loss/Tally the loop that
--   counts, Loss/Compute the rest of lossdata_a2r_compute, and Loss/Report lossdata_a2r.
--   Loss/Arrival, Loss/Conservation and Loss/Coverage are about them, and Loss/Sort and Loss/Total
--   about the array that lossdata_a2r sorts and reads.
-- * Reorder is reorderdata.h, the arrival and accumulation of reorderdata.c; Reorder/Density its
--   functions rd_... and the density loop, Reorder/Extent the extent, Reorder/Report
--   reorderdata_a2r. Reorder/Containers holds the interfaces of the tree and the queue that the
--   code calls. Reorder/Window, Reorder/Histogram, Reorder/Sound, Reorder/Endless,
--   Reorder/Accumulate, Reorder/Frame and Reorder/Ended are about them. Reorder/Destroy is the
--   destructors and the comparisons of keys.
-- * Fistq is the queue of fistq.c by which client threads hand packets to the aggregator.
--   Fistq/Steps is about single calls, and Fistq/Order about the calls by which clients enqueue
--   without flushing, flush and destroy their handles, and the aggregator dequeues, in any
--   interleaving. Fistq/Registry is the part of fistq.c that manages the list of queues and the
--   handles; Fistq/Registry/Lock and Fistq/Registry/Handles are about it.
-- * Crc is crc.c, the checksum by which hash tables place a key. Crc/Table is about its table and
--   Crc/Bounds about its width.
-- * Hashmap is the hash map of hashmap2.c, from streams and flows to their records; Hashmap/Lookup
--   is about what a key finds, and Hashmap/Partition has the partition of a map by another.
--   Hashmap/View sees a map as a function from keys to values, Hashmap/Supply is where new items
--   come from, Hashmap/Apart and Hashmap/Frame what an insertion leaves alone, and Hashmap/Lists
--   the lists of maps.
-- * Schedule is reportschedule.c. Schedule/Parse is about reading a schedule, Schedule/Print about
--   writing one out, and Schedule/Runs about when an item runs next.
-- * Estimator is the clock of the aggregator in pd3_estimator.c; Estimator/Intervals is about it.
--   Estimator/Values is aggregatordata.h, reporterdata.h and the value of an item;
--   Estimator/Service the statics, the arrival of a packet and the exchange of data;
--   Estimator/Aggregator a round of aggregator_thread; Estimator/Reporter, Estimator/Recycle and
--   Estimator/Thread are reporter_thread; Estimator/Results is build_callback_results;
--   Estimator/Destroy the destructors of hashmap2.c, Estimator/Lifecycle pd3_estimator_init and
--   pd3_estimator_destroy, and Estimator/Handles the calls of clients. Estimator/Streams and
--   Estimator/Periods are about the arrivals of a period, Estimator/Exchange has the steps of the
--   two threads, with Estimator/Exchange/Maps and Estimator/Exchange/Order about the maps of the
--   periods, Estimator/Storage about the storage that they exchange, Estimator/Rounds about the
--   aggregator's rounds, Estimator/Bins about the histograms of a report, Estimator/Batches,
--   Estimator/Based, Estimator/Progress and Estimator/Drained about the loop over the periods,
--   Estimator/Sharing and Estimator/Trackers about the maps of the reporter, Estimator/Totals
--   about what a period adds to the trackers and Estimator/Flows about the consolidation into
--   flows, Estimator/Restart and Estimator/Freed about the start and the end of the service.
-- * Tests holds runs at concrete inputs.
--
-- Integers are natural numbers with each reduction modulo 2 ^ 32 or 2 ^ 64 written out. Allocation
-- is a parameter; that of an item or a map of a hash map, whose result the code does not check, is
-- taken to succeed. The clock, atof and the arithmetic on double are parameters too. What a thread
-- does under a mutex is one step. A loop over a range of sequence numbers takes the number of
-- rounds it is granted; a round for each number of the range is enough, unless the range ends in
-- the last sequence number, where no number of rounds is.
--
-- Not modelled: rbtree.c and queue.c, which are a library's copies and stand behind interfaces
-- with the laws they document; qsort, a parameter that permutes its array; printing; the tests.
pub mod Prelude
pub mod Seqno
pub mod FlowState
pub mod Packet
pub mod Ranges
pub mod Loss
pub mod Reorder
pub mod Hashmap
pub mod Fistq
pub mod Schedule
pub mod Crc
pub mod Estimator
pub mod Tests
