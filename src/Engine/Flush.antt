-- ===== src/Engine/Flush.antt =====
-- internal/engine/engine.go, writeSegmentBatch and flushRollups. The calls of the operating system end
-- as FlushIo says.
pub mod Keys
pub mod Found
pub mod Answers
pub mod Visible
pub mod Aside
use wisp_trace_db.Prelude.{
  ℕ, ◌+◌, ◌%◌, ◌^◌, Bool, Option, none, some, List, [], ◌∷◌, map, if◌then◌else◌, Result, ok, err,
}
use wisp_trace_db.Prelude.Stages.{and_then, ◌>>=◌, ◌>>◌, wrap}
use wisp_trace_db.Prelude.Int.{ℤ, pos}
use wisp_trace_db.Prelude.Bytes.{Bytes}
use wisp_trace_db.Prelude.Dict.{Dict, lookup, insert}
use wisp_trace_db.Wal.Span.{Span, WalError}
use wisp_trace_db.Wal.Log.{Io, rotate_locked}
use wisp_trace_db.Segment.Format.{WriteResult, SegmentError, key_of}
use wisp_trace_db.Segment.Writer
use wisp_trace_db.Segment.Writer.{Sizing}
use wisp_trace_db.Segment.Manifest.{ManifestError, add_segment}
use wisp_trace_db.Index.{Kv, SpanLocation, IndexError, batch_apply_spans}
use wisp_trace_db.Rollup
use wisp_trace_db.Rollup.{evict, get_all_buckets}
use wisp_trace_db.Rollup.Manager.{
  Manager, window_size_minute, window_size_five_min, window_size_hour, window_size_day,
}
use wisp_trace_db.Rollup.Snapshot
use wisp_trace_db.Rollup.Snapshot.{SnapshotError}
use wisp_trace_db.Engine.Checkpoint
use wisp_trace_db.Engine.Checkpoint.{CheckpointError}
use wisp_trace_db.Engine.Pending.{Tracker, release_wal_pending}
use wisp_trace_db.Engine.Batch.{PendingSpan, dedupe, live_spans, tombstone_keys}
use wisp_trace_db.Engine.Store.{
  Store, Snapshots, EngineError, log_failed, index_failed, segment_failed, manifest_failed,
  checkpoint_failed, rollup_failed,
}

pub record FlushIo : Type 0 where
  pub rotate : Io
  pub segment_ok : Bool
  pub manifest_ok : Bool
  pub checkpoint_ok : Bool
  pub minute_ok : Bool
  pub five_min_ok : Bool
  pub hour_ok : Bool
  pub day_ok : Bool
  pub reclaim : Io
  -- now, less the retention period
  pub cutoff : ℤ

-- A stretch of writeSegmentBatch: it changes the store, and returns early with an error or goes on.
abbrev pub Stage : Kv → Type 0 → Type 0
Stage kv A = Store kv → Store kv × Result EngineError A

-- The loop of flushRollups for one window: a store without buckets is not written.
unfoldable pub flush_window :
    Bool → ℕ → Rollup.Store → Option Bytes → Option Bytes × Result SnapshotError Unit
flush_window io_ok size store file = elim (get_all_buckets store) [
  | [] ↦ (file, ok tt)
  | b ∷ bs ↦ Snapshot.flush io_ok (pos size) (b ∷ bs) file
]

-- entries, of which a key that is put twice has the later location.
unfoldable pub batch_entries : ℕ → Dict ℕ → List Span → Dict SpanLocation → Dict SpanLocation
batch_entries id offsets [] entries = entries
batch_entries id offsets (s ∷ ss) entries =
    batch_entries id offsets ss (elim (lookup (key_of s) offsets) [
      | none ↦ entries
      | some off ↦ insert (key_of s) (record { segment_id = id; offset = off }) entries
    ])

unfoldable pub evict_all : ℤ → Manager → Manager
evict_all cutoff m = record {
  minute = (evict cutoff m.minute).0;
  five_min = (evict cutoff m.five_min).0;
  hour = (evict cutoff m.hour).0;
  day = (evict cutoff m.day).0;
}

module _ {kv : Kv} where
  abbrev pub done : {A : Type 0} → A → Stage kv A
  done a w = (w, ok a)

  unfoldable pub rotate_log : FlushIo → Stage kv ℕ
  rotate_log io w =
      let (log, r) = rotate_locked io.rotate w.tracker.wal in
      (record w { tracker = record w.tracker { wal = log } }, wrap log_failed r)

  unfoldable pub evict_rollups : FlushIo → Stage kv Unit
  unfolding evict_all
  evict_rollups io w = (record w { rollups = evict_all io.cutoff w.rollups }, ok tt)

  unfoldable pub flush_minute : FlushIo → Stage kv Unit
  unfolding flush_window
  flush_minute io w =
      let (f, r) =
        flush_window io.minute_ok window_size_minute w.rollups.minute w.snapshots.minute in
      (record w { snapshots = record w.snapshots { minute = f } }, wrap rollup_failed r)

  unfoldable pub flush_five_min : FlushIo → Stage kv Unit
  unfolding flush_window
  flush_five_min io w =
      let (f, r) =
        flush_window io.five_min_ok window_size_five_min w.rollups.five_min w.snapshots.five_min in
      (record w { snapshots = record w.snapshots { five_min = f } }, wrap rollup_failed r)

  unfoldable pub flush_hour : FlushIo → Stage kv Unit
  unfolding flush_window
  flush_hour io w =
      let (f, r) = flush_window io.hour_ok window_size_hour w.rollups.hour w.snapshots.hour in
      (record w { snapshots = record w.snapshots { hour = f } }, wrap rollup_failed r)

  unfoldable pub flush_day : FlushIo → Stage kv Unit
  unfolding flush_window
  flush_day io w =
      let (f, r) = flush_window io.day_ok window_size_day w.rollups.day w.snapshots.day in
      (record w { snapshots = record w.snapshots { day = f } }, wrap rollup_failed r)

  unfoldable pub flush_rollups : FlushIo → Stage kv Unit
  unfolding evict_rollups flush_minute flush_five_min flush_hour flush_day
  flush_rollups io = do
    evict_rollups io
    flush_minute io
    flush_five_min io
    flush_hour io
    flush_day io

  unfoldable pub apply_index : Dict SpanLocation → List Bytes → Stage kv Unit
  apply_index puts deletes w =
      let (db, r) = batch_apply_spans kv puts deletes w.index in
      (record w { index = db }, wrap index_failed r)

  unfoldable pub write_segment : Sizing → FlushIo → List Span → Stage kv WriteResult
  write_segment z io spans w =
      let (dir, r) = Writer.flush z io.segment_ok w.next_segment_id spans w.dir in
      (record w { dir = dir }, wrap segment_failed r)

  unfoldable pub record_segment : FlushIo → ℕ → Stage kv Unit
  record_segment io id w =
      let (file, r) = add_segment io.manifest_ok id w.manifest in
      (record w { manifest = file }, wrap manifest_failed r)

  unfoldable pub save_checkpoint : FlushIo → ℕ → Stage kv Unit
  save_checkpoint io id w =
      let (file, r) = Checkpoint.save io.checkpoint_ok id w.checkpoint in
      (record w { checkpoint = file }, wrap checkpoint_failed r)

  unfoldable pub release_log : FlushIo → List PendingSpan → Stage kv Unit
  release_log io spans w =
      let (t, r) = release_wal_pending io.reclaim (map (λ p. p.wal_seg) spans) w.tracker in
      (record w { tracker = t }, wrap log_failed r)

  -- The part for a batch of tombstones only, and the part for one with live spans.
  unfoldable pub write_tombstones : FlushIo → List PendingSpan → List Bytes → Stage kv Unit
  unfolding apply_index flush_rollups release_log
  write_tombstones io spans keys = do apply_index [] keys; flush_rollups io; release_log io spans

  unfoldable pub next_id : Stage kv Unit
  next_id w = (record w { next_segment_id = (w.next_segment_id + 1) % 2 ^ 64 }, ok tt)

  -- What writeSegmentBatch does behind the commit of the index.
  unfoldable pub after_commit : FlushIo → List PendingSpan → ℕ → Stage kv Unit
  unfolding flush_rollups release_log record_segment save_checkpoint next_id
  after_commit io spans id = do
    record_segment io id
    save_checkpoint io id
    flush_rollups io
    release_log io spans
    next_id

  unfoldable pub write_live :
      Sizing → FlushIo → List PendingSpan → List Span → List Bytes → Stage kv Unit
  unfolding apply_index write_segment batch_entries after_commit
  write_live z io spans live keys = do
    result ← write_segment z io live
    apply_index (batch_entries result.segment_id result.offsets live []) keys
    after_commit io spans result.segment_id

  unfoldable pub write_split :
      Sizing → FlushIo → List PendingSpan → List Span → List Bytes → Stage kv Unit
  unfolding write_tombstones write_live
  write_split z io spans [] keys = write_tombstones io spans keys
  write_split z io spans (s ∷ ss) keys = write_live z io spans (s ∷ ss) keys

  -- writeSegmentBatch, up to the call of maybeCompactLocked.
  unfoldable pub write_batch : Sizing → FlushIo → List PendingSpan → Stage kv Unit
  unfolding rotate_log write_split
  write_batch z io spans = do
    sealed ← rotate_log io
    let last = dedupe spans
    write_split z io spans (live_spans last) (tombstone_keys last)
