-- ===== src/Engine/Sessions.antt =====
-- internal/engine/engine.go, the maintenance that a flush ends with (maybeCompactLocked,
-- maybeExpireLocked), writeSegmentBatch as a whole, and what calls it: processSpan, flushAllSessions,
-- flushExpiredSessions and Flush.
pub mod Compacting
pub mod Unchanged
use wisp_trace_db.Prelude.{
  ℕ, ◌+◌, ◌-◌, ◌/◌, ◌%◌, ◌^◌, Bool, true, false, not, ◌&&◌, ◌||◌, Option, none, some, List, [], ◌∷◌,
  length, take, ltb, leb, if◌then◌else◌, Result, ok, err,
}
use wisp_trace_db.Prelude.Stages.{and_then, ◌>>=◌, ◌>>◌}
use wisp_trace_db.Prelude.Int.{ℤ}
use wisp_trace_db.Prelude.Sort.{sort_ids}
use wisp_trace_db.Segment.Writer.{Sizing}
use wisp_trace_db.Segment.Manifest
use wisp_trace_db.Index.{Kv}
use wisp_trace_db.Rollup.{Sample}
use wisp_trace_db.Rollup.Manager.{add_sample}
use wisp_trace_db.Compactor.{Segments, CompactIo}
use wisp_trace_db.Compactor.Merge.{compact, expire}
use wisp_trace_db.Wal.Span.{Span}
use wisp_trace_db.Engine.Batch.{PendingSpan, dedupe, live_spans}
use wisp_trace_db.Engine.Store.{Store, EngineError}
use wisp_trace_db.Engine.Flush.{FlushIo, Stage, write_batch}
use wisp_trace_db.Engine.Buffer.{Buffer, buffer_span, take_all, take_expired}

-- The configuration that these methods read, and how their calls end.
pub record Config : Type 0 where
  pub compaction_threshold : ℕ
  pub flush_threshold : ℕ
  pub sizing : Sizing
  pub flush_io : FlushIo
  pub compact_io : CompactIo
  -- ScaleCost, in floating point
  pub scale_cost : ℕ → ℤ

module _ {kv : Kv} where
  abbrev pub segments : Store kv → Segments kv
  segments w = record { dir = w.dir; manifest = w.manifest; index = w.index }

  abbrev pub with_segments : Store kv → Segments kv → Store kv
  with_segments w s = record w { dir = s.dir; manifest = s.manifest; index = s.index }

  -- maybeCompactLocked, on the ids of the manifest.
  unfoldable pub compact_oldest : Config → Bool → List ℕ → Store kv → Store kv
  compact_oldest cfg recovering live w =
      let merge_count = length live / 2 in
      let w' = record w { next_segment_id = (w.next_segment_id + 1) % 2 ^ 64 } in
      if leb (length live) cfg.compaction_threshold
      then w
      else if ltb merge_count 2
      then w
      else if recovering
      then w'
      else with_segments w'
          (compact cfg.sizing cfg.compact_io (take merge_count (sort_ids live)) w.next_segment_id
            (segments w')).0

  unfoldable pub maybe_compact : Config → Bool → Store kv → Store kv
  unfolding compact_oldest
  maybe_compact cfg recovering w = elim (Manifest.load w.manifest) [
    | err e ↦ w
    | ok live ↦ compact_oldest cfg recovering live w
  ]

  -- maybeExpireLocked, at a cutoff of now less the retention period.
  unfoldable pub maybe_expire : Config → ℤ → Store kv → Store kv
  maybe_expire cfg cutoff w = elim (Manifest.load w.manifest) [
    | err e ↦ w
    | ok live ↦ elim live [
      | [] ↦ w
      | id ∷ ids ↦ with_segments w (expire cfg.compact_io (id ∷ ids) cutoff (segments w)).0
    ]
  ]

  -- writeSegmentBatch. A batch of tombstones only returns before the compaction.
  unfoldable pub write_segment_batch : Config → Bool → List PendingSpan → Stage kv Unit
  unfolding maybe_compact
  write_segment_batch cfg recovering spans w =
      let (w', r) = write_batch cfg.sizing cfg.flush_io spans w in
      elim r [
        | err e ↦ (w', err e)
        | ok u ↦ elim (live_spans (dedupe spans)) [
          | [] ↦ (w', ok u)
          | s ∷ ss ↦ (maybe_compact cfg recovering w', ok u)
        ]
      ]

  -- flushAllSessions
  unfoldable pub flush_all_sessions :
      Config → Bool → Buffer → Store kv → (Buffer × Store kv) × Result EngineError Unit
  unfolding take_all write_segment_batch
  flush_all_sessions cfg recovering b w =
      let (spans, b') = take_all b in
      elim spans [
        | [] ↦ ((b', w), ok tt)
        | p ∷ ps ↦ let (w', r) = write_segment_batch cfg recovering (p ∷ ps) w in ((b', w'), r)
      ]

  -- flushExpiredSessions, which forgets the error.
  unfoldable pub flush_expired_sessions :
      Config → Bool → (ℤ → Bool) → Buffer → Store kv → Buffer × Store kv
  unfolding take_expired write_segment_batch
  flush_expired_sessions cfg recovering is_expired b w =
      let (spans, b') = take_expired is_expired b in
      elim spans [ [] ↦ (b', w) | p ∷ ps ↦ (b', (write_segment_batch cfg recovering (p ∷ ps) w).0) ]

  -- processSpan: the rollups, the buffer, and a flush where the buffer is full, of which the error
  -- is forgotten.
  unfoldable pub feed_rollups : Config → Span → Store kv → Store kv
  feed_rollups cfg s w =
      if not s.deleted
      then record w {
        rollups =
            add_sample
              (record {
                timestamp = s.timestamp;
                model = s.model;
                cost = cfg.scale_cost s.cost;
                tokens_in = s.tokens_in;
                tokens_out = s.tokens_out;
                latency_ms = s.latency_ms;
              })
              w.rollups;
      }
      else w

  unfoldable pub process_span :
      Config → Bool → ℤ → PendingSpan → Buffer → Store kv → Buffer × Store kv
  unfolding feed_rollups buffer_span flush_all_sessions
  process_span cfg recovering now p b w =
      let w' = feed_rollups cfg p.span w in
      let b' = buffer_span now p b in
      if leb cfg.flush_threshold b'.span_count && not recovering
      then (flush_all_sessions cfg recovering b' w').0
      else (b', w')
