-- ===== src/Engine/Sessions/Compacting.antt =====
-- internal/engine/engine.go, writeSegmentBatch with the inline compaction that it ends with
-- (maybeCompactLocked): what the index and the segments answer afterwards.
use wisp_trace_db.Prelude.{
  ◌∷◌, ℕ, ◌/◌, ◌≡◌, refl, inl, inr, Bool, false, some, List, [], length, take, leb, ltb, Bool-cases,
  Result-cases, List-cases, ok, err,
}
use wisp_trace_db.Prelude.Bytes.{Bytes}
use wisp_trace_db.Wal.Span.{Span}
use wisp_trace_db.Prelude.Sort.{sort_ids}
use wisp_trace_db.Segment.Writer.{Sizing, Dir, read_file}
use wisp_trace_db.Segment.Manifest
use wisp_trace_db.Segment.Manifest.{contains}
use wisp_trace_db.Index
use wisp_trace_db.Index.{Kv, SpanLocation, IndexError, get_span}
use wisp_trace_db.Index.Batches.{KvLaws}
use wisp_trace_db.Compactor.{Segments, CompactIo, Report}
use wisp_trace_db.Compactor.Merge.{compact}
use wisp_trace_db.Compactor.Spared.{compact-Keeps, resolve-compact}
use wisp_trace_db.Engine.Batch.{PendingSpan, dedupe, live_spans}
use wisp_trace_db.Engine.Batch.Latest.{last_write}
use wisp_trace_db.Engine.Store.{Store, resolve}
use wisp_trace_db.Engine.Flush.{write_batch}
use wisp_trace_db.Engine.Flush.Answers.{Fits, Answers}
use wisp_trace_db.Engine.Flush.Visible.{write_batch-Answers}
use wisp_trace_db.Engine.Sessions.{
  Config, segments, compact_oldest, maybe_compact, write_segment_batch,
}

resolve_err : (d d' : Dir) (e : IndexError) → resolve d (err e) ≡ resolve d' (err e)
unfolding resolve
resolve_err d d' Index.closed = refl
resolve_err d d' Index.not_found = refl
resolve_err d d' Index.bad_location = refl
resolve_err d d' Index.store_failed = refl

-- The record that the index has for the key, if any, is in a segment that is there and not in the list.
abbrev pub IsOutside : (kv : Kv) → Bytes → List ℕ → Segments kv → Type 0
IsOutside kv k ids s =
    (loc : SpanLocation)
    → get_span kv k s.index ≡ ok loc
    → (contains loc.segment_id ids ≡ false)
      × ((b : Bytes) × (read_file loc.segment_id s.dir ≡ some b))

module _ (kv : Kv) (laws : KvLaws kv) (k : Bytes) where
  resolve-compact_outside :
      (z : Sizing) (io : CompactIo) (ids : List ℕ) (new_id : ℕ) (s : Segments kv) (report : Report)
      → IsOutside kv k ids s
      → (compact z io ids new_id s).1 ≡ ok report
      → let t = (compact z io ids new_id s).0 in
        resolve t.dir (get_span kv k t.index) ≡ resolve s.dir (get_span kv k s.index)
  resolve-compact_outside z io ids new_id s report out e =
      elim (Result-cases (get_span kv k s.index)) [
        | inl (loc, l) ↦
            let (away, file) = out loc l in
            (resolve-compact kv laws z io ids new_id s k loc file.0 report l file.1 away e).1
        | inr (x, l) ↦
            let h =
              compact-Keeps kv laws k (err x) [] z io ids new_id (λ loc q. absurd cc) s report
                (record { indexed = l; filed = λ loc q. absurd cc }) e in
            rw (h.indexed, l) (resolve_err (compact z io ids new_id s).0.dir s.dir x)
      ]

  -- The segments that maybeCompactLocked merges, the oldest half of the manifest's.
  abbrev pub oldest_half : List ℕ → List ℕ
  oldest_half live = take (length live / 2) (sort_ids live)

  -- maybeCompactLocked, if it compacts, ends with no error and does not merge the segment that has the
  -- record of the key.
  abbrev pub Spares : Config → Bool → Store kv → Type 0
  Spares cfg recovering w =
      (live : List ℕ)
      → Manifest.load w.manifest ≡ ok live
      → leb (length live) cfg.compaction_threshold ≡ false
      → ltb (length live / 2) 2 ≡ false
      → recovering ≡ false
      → IsOutside kv k (oldest_half live) (segments w)
        × ((report : Report) × ((compact cfg.sizing cfg.compact_io (oldest_half live)
                w.next_segment_id (segments w)).1
              ≡ ok report))

  -- A maybeCompactLocked leaves the answer for such a key as it was.
  resolve-maybe_compact :
      (cfg : Config) (recovering : Bool) (w : Store kv)
      → Spares cfg recovering w
      → let v = maybe_compact cfg recovering w in
        resolve v.dir (get_span kv k v.index) ≡ resolve w.dir (get_span kv k w.index)
  unfolding maybe_compact compact_oldest
  resolve-maybe_compact cfg recovering w spares = elim (Result-cases (Manifest.load w.manifest)) [
    | inr (x, l) ↦ rw (maybe_compact, l) refl
    | inl (live, l) ↦ elim (Bool-cases (leb (length live) cfg.compaction_threshold)) [
      | inl few ↦ rw (maybe_compact, compact_oldest, l, few) refl
      | inr many ↦ elim (Bool-cases (ltb (length live / 2) 2)) [
        | inl one ↦ rw (maybe_compact, compact_oldest, l, many, one) refl
        | inr two ↦ elim (Bool-cases recovering) [
          | inl r ↦ rw (maybe_compact, compact_oldest, l, many, two, r) refl
          | inr r ↦
              let (out, done) = spares live l many two r in
              rw (maybe_compact, compact_oldest, l, many, two, r)
                (resolve-compact_outside cfg.sizing cfg.compact_io (oldest_half live)
                  w.next_segment_id (segments w) done.0 out done.1)
        ]
      ]
    ]
  ]

  -- After a writeSegmentBatch that returns no error, its inline compaction included, over a store that
  -- does what pebble documents: for a key that the batch wrote, index and segments answer with the
  -- span that was written last, or with none where that is a tombstone; for any other key they answer
  -- what they answered before, where that was no error. The compaction, where the batch leads to one,
  -- is taken to end with no error and not to merge the segment where the record of the key is once the
  -- batch is written; the sizes of what is written are taken to fit their fields.
  pub write_segment_batch-Answers :
      (cfg : Config) (recovering : Bool) (spans : List PendingSpan) (state : kv.State)
      (w : Store kv)
      → w.index ≡ some state
      → Fits cfg.sizing w.next_segment_id (live_spans (dedupe spans))
      → ((s : Span) (ss : List Span)
          → live_spans (dedupe spans) ≡ s ∷ ss
          → Spares cfg recovering (write_batch cfg.sizing cfg.flush_io spans w).0)
      → let v = write_segment_batch cfg recovering spans w in
        v.1 ≡ ok tt
        → Answers
            (last_write k spans)
            (resolve w.dir (get_span kv k w.index))
            (resolve v.0.dir (get_span kv k v.0.index))
  unfolding write_segment_batch
  write_segment_batch-Answers cfg recovering spans state w i fits spares e =
      let v = write_batch cfg.sizing cfg.flush_io spans w in
      elim (Result-cases v.1) [
        | inr (x, failed) ↦ absurd (cc (rw (write_segment_batch, failed) at e))
        | inl (u, done) ↦
            let h =
              write_batch-Answers kv laws cfg.sizing cfg.flush_io spans state k w i fits done in
            elim (List-cases (live_spans (dedupe spans))) [
              | inl n ↦ rw (write_segment_batch, done, n) h
              | inr (s, ss, n) ↦
                  rw
                    (
                      write_segment_batch,
                      done,
                      n,
                      resolve-maybe_compact cfg recovering v.0 (spares s ss n),
                    )
                    h
            ]
      ]
