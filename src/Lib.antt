-- ===== src/Lib.antt =====
-- WispTraceDB, a store for the traces of agent programs: a model of its storage layers, with the
-- theorems that make them correct.
--
-- The program. A span is acknowledged once its record is in the write-ahead log
-- (internal/wal/wal.go), and is kept in a buffer. A flush writes the buffer to an immutable segment
-- file (internal/segment/writer.go), which carries a zone map and Bloom filters (internal/bloom/bloom.go)
-- for pruning, puts the location of each record into the index (internal/pebble/pebble.go, over the
-- store pebble), records the segment in the manifest (internal/segment/manifest.go), moves the
-- checkpoint (internal/engine/checkpoint.go), and reclaims the log. Point queries go by the index to a
-- record of a segment (internal/segment/reader.go); range queries scan the segments. Sums per window
-- and model are kept in rollups (internal/rollup/), which are written to snapshots of their own.
--
-- The model. Go's integers are natural numbers or the integers of Prelude/Int, with their wrapping
-- written out; strings and byte slices are lists of numbers (Prelude/Bytes); maps with string keys are
-- association lists (Prelude/Dict). A method that changes its receiver takes and returns its state. A
-- call of the operating system that can fail is an argument that says how it ends, so that a theorem
-- over all of them covers every point at which an operation can be cut off. A float is its bit pattern.
--
--   Crc.antt, Crc/Framing.antt: hash/crc32's ChecksumIEEE, which the program relies on, and the framing
--     of records by length and checksum.
--   Wal.antt: Wal/Span (SpanPayload, WALRecord), Wal/Codec (encodePayload, deserializePayload and
--     the parts they are made of), Wal/Record (the framed record and replaySegment), Wal/Log (the type
--     WAL: CreateWALWithSegmentSize, AppendRecordWithSeg, Rotate, Replay, RemoveSegmentsUpTo, Reset,
--     Close). Wal/Log/Holds is the abstract view: sealed segments and an active one, each a list of
--     records; the files below it show what each operation does to that view.
--   Bloom.antt: Filter with New, Add, MayContain, Encode and Decode. The values of math.Ceil and
--     math.Round in the formulas for the sizes are parameters.
--   Segment.antt: Segment/Format (SegmentHeader, CompositeKey), Segment/Writer (Writer.Flush on
--     the spans that were added), Segment/Reader (OpenReader, OpenReaderLight, ReadAt, ScanAllFunc,
--     ScanAll), Segment/Manifest (Load, Save, AddSegment, RemoveSegments).
--   Index.antt: DB with PutSpan, GetSpan, PrefixScan, ScanAll, DeleteSpan and the three batches.
--     The store is the parameter `kv`; KvLaws in Index/Batches states what pebble documents of the calls
--     that succeed, and Tests/Memory is a store that satisfies it.
--   Rollup.antt: Store; Rollup/Manager: RollupManager; Rollup/Snapshot: Writer.Flush and ReadSnapshot.
--   Segment/Cache.antt: Cache with NewCache, Acquire, release, Purge and Close. Segment/Cache/System is the
--     step relation over its callers, with what an invariant says of every state they reach;
--     Segment/Cache/Handles is Release and its pool.
--   Compactor.antt: the scans of Compact and Expire; Compactor/Merge.antt: Compactor with both,
--     where a report that the code returns beside an error is left out.
--   Engine/Checkpoint.antt: Checkpoint. Engine/Pending.antt: the part of WispTrace that keeps count of
--     the spans that are acknowledged and not flushed, by segment of the log (appendTracked,
--     releaseWALPending). Engine/Pending/Durable is the step relation over inserts, rotations of the log and flushes.
--     Engine/Range.antt: RangeFilter, and the test by which RangeQuery passes over a segment.
--     Engine/Buffer.antt: the session buffer, as bufferedSpan and bufferedSpansByKey read it.
--     Engine/Store.antt: the part of WispTrace on disk, and the reading of a span at a location.
--     Engine/Batch.antt and Engine/Flush.antt: writeSegmentBatch up to its call of maybeCompactLocked
--     (write_batch) and flushRollups, in stages that each change the store and go on or return early (Prelude/Stages). Engine/Flush/Visible compares what
--     the index answers before and after with the last write of each key in the batch.
--     Engine/Reads.antt: GetSpan, GetTrace, RangeQuery, ListTraces, QueryWithCursor and QueryBy*.
--     Engine/Sessions.antt: processSpan, the two flushes of the buffer, maybeCompactLocked and
--     maybeExpireLocked, which compose the engine with the buffer, the compactor and the rollups.
--     Engine/Sessions/Compacting carries what Engine/Flush/Visible shows past the inline compaction,
--     and Engine/Sessions/Unchanged compares GetSpan before and after a flush of the buffer.
--     Engine/Recovery.antt: computeNextSegmentID, loadRollupSnapshots, reconcileManifest and recover.
--     Engine/Insertion.antt: InsertSpan, the ingest channel, DeleteSpan and DeleteTrace.
--   Tests.antt: the theorems at concrete inputs.
--
-- Fuel. The loops of replaySegment and ScanAllFunc run on the number of bytes left, one more than the
-- rounds they can take: each round takes a header of eight or nine bytes. A loop that ran out of fuel
-- would answer `stuck`. evictOverflowLocked runs on the number of entries, each round of which removes
-- one; the pages of Engine/Reads/Pages on the number of spans. removeWithRetry has its three attempts.
-- All other loops are structural.
--
-- Not modelled: the aggregates and closing in internal/engine/engine.go, and
-- internal/engine/consistency.go; the public interface in the root directory; locks and goroutines, since
-- every modelled type takes its lock for the whole of an operation, but for the wait of Purge, during
-- which others take it; the names of files; the texts of errors. GetSpan and GetTrace open the segment
-- directly, which is acquireSegment without a cache. The order in which Go walks a map, which differs
-- from walk to walk, is that of the association list. ScaleCost, strconv.Atoi, strconv.Itoa and the
-- comparison of two floats are parameters. A pebble iterator that fails midway gives what it read and
-- the error beside it (iterate in Index), which PrefixScan does not look at.
pub mod Prelude
pub mod Crc
pub mod Wal
pub mod Bloom
pub mod Segment
pub mod Index
pub mod Rollup
pub mod Compactor
pub mod Engine
pub mod Tests
