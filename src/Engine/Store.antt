-- ===== src/Engine/Store.antt =====
-- internal/engine/engine.go, what of WispTrace a flush changes, the errors it can end with, and the
-- reading of one indexed record.
use wisp_trace_db.Prelude.{ℕ, Option, none, some, if◌then◌else◌, Result, ok, err}
use wisp_trace_db.Prelude.Bytes.{Bytes}
use wisp_trace_db.Wal.Span.{Span, WalError}
use wisp_trace_db.Segment.Format.{SegmentError, not_found}
use wisp_trace_db.Segment.Writer.{Dir, read_file}
use wisp_trace_db.Segment.Reader.{Reader, open_reader_light, read_at}
use wisp_trace_db.Segment.Manifest.{ManifestError}
use wisp_trace_db.Index
use wisp_trace_db.Index.{Kv, Db, SpanLocation, IndexError}
use wisp_trace_db.Rollup.Manager.{Manager}
use wisp_trace_db.Rollup.Snapshot.{SnapshotError}
use wisp_trace_db.Engine.Checkpoint.{CheckpointError}
use wisp_trace_db.Engine.Pending.{Tracker}

-- The files of the four rollup snapshots.
pub record Snapshots : Type 0 where
  pub minute : Option Bytes
  pub five_min : Option Bytes
  pub hour : Option Bytes
  pub day : Option Bytes

pub record Store (kv : Kv) : Type 0 where
  pub tracker : Tracker
  pub index : Db kv
  pub dir : Dir
  pub manifest : Option Bytes
  pub checkpoint : Option Bytes
  pub next_segment_id : ℕ
  pub rollups : Manager
  pub snapshots : Snapshots

pub data EngineError : Type 0 where
  log_failed : WalError → EngineError
  index_failed : IndexError → EngineError
  segment_failed : SegmentError → EngineError
  manifest_failed : ManifestError → EngineError
  checkpoint_failed : CheckpointError → EngineError
  rollup_failed : SnapshotError → EngineError
  invalid_cursor segment_missing dir_unreadable db_closed empty_id : EngineError
  -- no Go value: a slice expression is out of range
  slice_panic : EngineError

-- acquireSegment, without a cache.
unfoldable pub acquire_segment : Dir → ℕ → Result SegmentError Reader
acquire_segment dir id = elim (read_file id dir) [
  | none ↦ err not_found
  | some file ↦ open_reader_light file
]

unfoldable pub read_location : Dir → SpanLocation → Result SegmentError Span
unfolding acquire_segment
read_location dir loc = elim (acquire_segment dir loc.segment_id) [
  | err e ↦ err e
  | ok reader ↦ read_at reader loc.offset
]

-- GetSpan behind the lookup: a tombstone is not reported.
unfoldable pub resolve : Dir → Result IndexError SpanLocation → Result EngineError (Option Span)
unfolding read_location
resolve dir (err Index.not_found) = ok none
resolve dir (err e) = err (index_failed e)
resolve dir (ok loc) = elim (read_location dir loc) [
  | err e ↦ err (segment_failed e)
  | ok span ↦ ok (if span.deleted then none else some span)
]
