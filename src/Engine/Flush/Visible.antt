-- ===== src/Engine/Flush/Visible.antt =====
-- internal/engine/engine.go, writeSegmentBatch up to its call of maybeCompactLocked: what the index and
-- the segments answer then for every key.
use wisp_trace_db.Prelude.{
  ℕ, ◌+◌, ◌<◌, ◌^◌, ◌≡◌, refl, sym, ◌∙◌, ap, some, List, [], ◌∷◌, ◌++◌, length, arith, All, ok,
}
use mathlib.Core.Path.{subst}
use wisp_trace_db.Prelude.Stages.{◌>>◌, and_then_ok, wrap_ok}
use wisp_trace_db.Prelude.Bytes.{Bytes}
use wisp_trace_db.Prelude.Dict.{Dict, lookup, Distinct}
use wisp_trace_db.Wal.Span.{Span}
use wisp_trace_db.Segment.Format.{WriteResult}
use wisp_trace_db.Segment.Writer
use wisp_trace_db.Segment.Writer.{
  Sizing, Dir, read_file, write_records, header_of, start_of, file_of,
}
use wisp_trace_db.Segment.Offsets.{reported}
use wisp_trace_db.Index
use wisp_trace_db.Index.{Kv, SpanLocation, IndexError, get_span, batch_apply_spans}
use wisp_trace_db.Index.Location.{IsLocation}
use wisp_trace_db.Index.Batches.{KvLaws, applied, get_span-batch_apply_spans}
use wisp_trace_db.Engine.Batch.{PendingSpan, dedupe, live_spans, tombstone_keys}
use wisp_trace_db.Engine.Batch.Latest.{last_write, find_pending, OnceEach, dedupe-last_write}
use wisp_trace_db.Engine.Store.{Store, segment_failed, resolve}
use wisp_trace_db.Engine.Flush.{
  FlushIo, batch_entries, rotate_log, flush_rollups, apply_index, write_segment, release_log,
  after_commit, write_tombstones, write_live, write_split, write_batch,
}
use wisp_trace_db.Engine.Flush.Aside.{
  >>-IsAside, one-IsAside, flush_rollups-IsAside, after_commit-IsAside,
}
use wisp_trace_db.Engine.Flush.Keys.{batch_entries-Distinct, batch_entries-IsLocation}
use wisp_trace_db.Engine.Flush.Found.{reported_le}
use wisp_trace_db.Engine.Flush.Answers.{
  Fits, Answers, flush_ok, commit_ok, tombstones-Answers, live-Answers,
}

reported_lt :
    (z : Sizing) (id : ℕ) (s : Span) (ss : List Span)
    → start_of (header_of z id s ss) + length (write_records (s ∷ ss)) < 2 ^ 64
    → (k : Bytes) (off : ℕ) → lookup k (reported z id s ss) ≡ some off
    → off < 2 ^ 64
reported_lt z id s ss h k off e = omega (arith, h, reported_le z id s ss k off e)

module _ (kv : Kv) (laws : KvLaws kv) where
  -- What the index finds once a batch is committed.
  get_span-commit :
      (puts : Dict SpanLocation) (keys : List Bytes) (index : Index.Db kv) (state : kv.State)
      (k : Bytes)
      → index ≡ some state
      → Distinct puts
      → All (λ p. IsLocation p.1) puts
      → (batch_apply_spans kv puts keys index).1 ≡ ok tt
      → get_span kv k (batch_apply_spans kv puts keys index).0
        ≡ applied puts keys k (get_span kv k index)
  get_span-commit puts keys index state k i d h e =
      rw i (get_span-batch_apply_spans kv laws puts keys k state d h (rw i at e))

  module _ (z : Sizing) (io : FlushIo) (spans last : List PendingSpan) (once : OnceEach last)
      (state : kv.State) (k : Bytes) where
    write_tombstones-Answers :
        (w : Store kv)
        → w.index ≡ some state
        → live_spans last ≡ []
        → let v = write_tombstones io spans (tombstone_keys last) w in
          v.1 ≡ ok tt
          → Answers
              (find_pending k last)
              (resolve w.dir (get_span kv k w.index))
              (resolve v.0.dir (get_span kv k v.0.index))
    unfolding write_tombstones release_log
    write_tombstones-Answers w i l e =
        let keys = tombstone_keys last in
        let rest =
          >>-IsAside (flush_rollups io) (release_log io spans) (flush_rollups-IsAside io)
            (one-IsAside (release_log io spans) (λ w. (refl, refl))) in
        let (index, dir, done) =
          commit_ok [] keys (flush_rollups io >> release_log io spans) w rest e in
        rw (index, dir, get_span-commit [] keys w.index state k i tt tt done)
          (tombstones-Answers w.dir k last once (get_span kv k w.index) l)

    write_live-Answers :
        (w : Store kv) (s : Span) (ss : List Span)
        → w.index ≡ some state
        → live_spans last ≡ s ∷ ss
        → Fits z w.next_segment_id (s ∷ ss)
        → let v = write_live z io spans (s ∷ ss) (tombstone_keys last) w in
          v.1 ≡ ok tt
          → Answers
              (find_pending k last)
              (resolve w.dir (get_span kv k w.index))
              (resolve v.0.dir (get_span kv k v.0.index))
    unfolding write_live write_segment
    write_live-Answers w s ss i l fits e =
        let id = w.next_segment_id in
        let keys = tombstone_keys last in
        let rest = λ (r : WriteResult).
          apply_index (batch_entries r.segment_id r.offsets (s ∷ ss) []) keys
          >> after_commit io spans r.segment_id in
        let (r, wrote, next) = and_then_ok (write_segment z io (s ∷ ss) w) rest tt e in
        let (fresh, dir, named, offsets) =
          flush_ok z io.segment_ok id s ss w.dir r
            (wrap_ok segment_failed (Writer.flush z io.segment_ok id (s ∷ ss) w.dir).1 r wrote) in
        let v = (write_segment z io (s ∷ ss) w).0 in
        let puts = batch_entries id (reported z id s ss) (s ∷ ss) [] in
        let same : batch_entries r.segment_id r.offsets (s ∷ ss) [] ≡ puts =
          ap (λ n. batch_entries n r.offsets (s ∷ ss) []) named
          ∙ ap (λ o. batch_entries id o (s ∷ ss) []) offsets in
        let (index', dir', done) =
          commit_ok (batch_entries r.segment_id r.offsets (s ∷ ss) []) keys
            (after_commit io spans r.segment_id) v (after_commit-IsAside io spans r.segment_id)
            (sym (ap (λ x. x.1) next) ∙ e) in
        let index = ap (λ x. x.0.index) next ∙ index' in
        let dirs = ap (λ x. x.0.dir) next ∙ dir' ∙ dir in
        let got =
          get_span-commit puts keys w.index state k i
            (batch_entries-Distinct id (reported z id s ss) (s ∷ ss) [] tt)
            (batch_entries-IsLocation id (reported z id s ss) (s ∷ ss) [] fits.2
              (reported_lt z id s ss fits.3) tt)
            (subst (λ p. (batch_apply_spans kv p keys w.index).1 ≡ ok tt) same done) in
        let final = w.dir ++ (id, file_of z id s ss) ∷ [] in
        let answer =
          ap (λ d. resolve d (get_span kv k (write_live z io spans (s ∷ ss) keys w).0.index)) dirs
          ∙ ap (λ d. resolve final (get_span kv k d))
              (index ∙ ap (λ p. (batch_apply_spans kv p keys w.index).0) same)
          ∙ ap (resolve final) got in
        subst (λ x. Answers (find_pending k last) (resolve w.dir (get_span kv k w.index)) x)
          (sym answer)
          (live-Answers w.dir k last once z id s ss (get_span kv k w.index) l fits fresh)

    write_split-Answers :
        (w : Store kv)
        → w.index ≡ some state
        → (live : List Span) → live_spans last ≡ live
        → Fits z w.next_segment_id live
        → let v = write_split z io spans live (tombstone_keys last) w in
          v.1 ≡ ok tt
          → Answers
              (find_pending k last)
              (resolve w.dir (get_span kv k w.index))
              (resolve v.0.dir (get_span kv k v.0.index))
    unfolding write_split
    write_split-Answers w i [] l fits e = write_tombstones-Answers w i l e
    write_split-Answers w i (s ∷ ss) l fits e = write_live-Answers w s ss i l fits e

  -- Up to the compaction that a writeSegmentBatch ends with, where it has no error, over a store that does what pebble documents: for
  -- a key that the batch wrote, index and segments answer with the span that was written last, or
  -- with none where that is a tombstone; for any other key they answer what they answered before.
  pub write_batch-Answers :
      (z : Sizing) (io : FlushIo) (spans : List PendingSpan) (state : kv.State) (k : Bytes)
      (w : Store kv)
      → w.index ≡ some state
      → Fits z w.next_segment_id (live_spans (dedupe spans))
      → let v = write_batch z io spans w in
        v.1 ≡ ok tt
        → Answers
            (last_write k spans)
            (resolve w.dir (get_span kv k w.index))
            (resolve v.0.dir (get_span kv k v.0.index))
  unfolding write_batch rotate_log
  write_batch-Answers z io spans state k w i fits e =
      let last = dedupe spans in
      let (once, kept) = dedupe-last_write spans in
      let rest = λ (sealed : ℕ). write_split z io spans (live_spans last) (tombstone_keys last) in
      let (n, rotated, next) = and_then_ok (rotate_log io w) rest tt e in
      let v = (rotate_log io w).0 in
      let e' = sym (ap (λ x. x.1) next) ∙ e in
      subst
        (λ x.
          Answers (last_write k spans) (resolve w.dir (get_span kv k w.index))
            (resolve x.0.dir (get_span kv k x.0.index)))
        (sym next)
        (subst
          (λ x.
            Answers x (resolve w.dir (get_span kv k w.index))
              (resolve (rest n v).0.dir (get_span kv k (rest n v).0.index)))
          (kept k)
          (write_split-Answers z io spans last once state k v i (live_spans last) refl fits e'))
