-- ===== src/Tests/Sessions.antt =====
-- Examples for a flush of the session buffer that ends with a compaction.
use wisp_trace_db.Prelude.{
  ℕ, ◌+◌, ◌<◌, ◌^◌, ◌≡◌, refl, sym, ◌∙◌, ap, inl, true, false, some, List, [], ◌∷◌, arith, ok,
  Result, Bool, length, ◌==◌,
}
use wisp_trace_db.Prelude.Bytes.{Bytes, str_eq, put_uint, uint}
use wisp_trace_db.Prelude.Sort.{sort_ids}
use wisp_trace_db.Prelude.Dict.{lookup, insert}
use wisp_trace_db.Wal.Log.{rotate_locked, remove_segments_up_to}
use wisp_trace_db.Segment.Format.{composite_key, key_of}
use wisp_trace_db.Segment.Reader.Opening.{IsHeader, build_bloom_section-lt}
use wisp_trace_db.Segment.Reader.Flushed.{visit}
use wisp_trace_db.Segment.Writer.{
  header_of, start_of, file_of, read_file, located, zone_min, zone_max, build_bloom_section,
  dimension_filter, write_record,
}
use wisp_trace_db.Segment.Writer
use wisp_trace_db.Segment.Manifest
use wisp_trace_db.Index
use wisp_trace_db.Index.{
  batch_apply_spans, IndexError, SpanLocation, encode_span_location, decode_span_location,
}
use wisp_trace_db.Compactor.{Scan, count_stale, Report, no_scan, compact_record, scan_segments}
use wisp_trace_db.Compactor.Merge.{compact, merge}
use wisp_trace_db.Compactor.Scanned.{IsFlushed, scan_segment-IsFlushed, scan_segments_next}
use wisp_trace_db.Rollup.{new_store, get_all_buckets, evict}
use wisp_trace_db.Rollup.Manager.{new_rollup_manager}
use wisp_trace_db.Engine.Checkpoint
use wisp_trace_db.Engine.Pending.{
  release_wal_pending, count_of, put_count, delete_count, release_one,
}
use wisp_trace_db.Wal.Span.{Span}
use wisp_trace_db.Engine.Batch.{dedupe, live_spans, tombstone_keys}
use wisp_trace_db.Engine.Batch.Latest.{last_write}
use wisp_trace_db.Engine.Store.{Store, resolve}
use wisp_trace_db.Engine.Flush.{write_batch}
use wisp_trace_db.Engine.Flush.Answers.{Answers}
use wisp_trace_db.Engine.Buffer.{buffered_span, take_all}
use wisp_trace_db.Engine.Reads.{get_span}
use wisp_trace_db.Engine.Sessions.{Config, segments, write_segment_batch, flush_all_sessions}
use wisp_trace_db.Engine.Sessions.Compacting.{Spares, write_segment_batch-Answers}
use wisp_trace_db.Engine.Sessions.Unchanged.{get_span-flush_all_sessions}
use wisp_trace_db.Tests.Memory
use wisp_trace_db.Tests.Memory.{memory, memory-KvLaws}
use wisp_trace_db.Tests.Segment.{sizing, sizing-IsSizing, early, late, spans-AreRecordable}
use wisp_trace_db.Tests.Flush.{io, store, sessions, batch, state, batch_live, batch-Fits, config}

-- Four segments stand in the manifest, of which the two oldest have copies of the spans that the
-- index has dropped.
abbrev older : Store memory
older = record store {
  dir = (3, file_of sizing 3 early (late ∷ [])) ∷ (4, file_of sizing 4 early (late ∷ [])) ∷ [];
  manifest = some (Manifest.write_ids (3 ∷ 4 ∷ 5 ∷ 6 ∷ []));
}

-- A compaction is due with five segments.
abbrev due : Config
due = record config { compaction_threshold = 4 }

abbrev written : Store memory
written = (write_batch sizing io batch older).0

abbrev locate : Bytes → Result IndexError SpanLocation
locate key = Index.get_span memory key written.index

-- What the batch leads to, computed.
abbrev IsAt : Span → ℕ → Type 0
IsAt x id = (loc : SpanLocation) × (locate (key_of x) ≡ ok loc) × (loc.segment_id ≡ id)

abbrev HasFile : ℕ → Type 0
HasFile id = read_file id written.dir ≡ some (file_of sizing id early (late ∷ []))

record IsWritten : Type 0 where
  done : (write_batch sizing io batch older).1 ≡ ok tt
  listed : Manifest.load written.manifest ≡ ok (3 ∷ 4 ∷ 5 ∷ 6 ∷ 7 ∷ [])
  next : written.next_segment_id ≡ 8
  three : HasFile 3
  four : HasFile 4
  seven : HasFile 7
  early_at : IsAt early 7
  late_at : IsAt late 7

written-IsWritten : IsWritten
unfolding write_batch rotate_locked live_spans dedupe lookup insert str_eq composite_key
    Writer.flush read_file batch_apply_spans tombstone_keys Writer.offsets_of Writer.located
    Manifest.add_segment Manifest.load Manifest.contains Manifest.save Checkpoint.save
    new_rollup_manager new_store get_all_buckets evict release_wal_pending count_of put_count
    delete_count release_one remove_segments_up_to sort_ids put_uint uint Index.get_span
    decode_span_location encode_span_location Memory.apply
written-IsWritten = record {
  done = refl;
  listed = refl;
  next = refl;
  three = refl;
  four = refl;
  seven = refl;
  early_at = (_, refl, refl);
  late_at = (_, refl, refl);
}

older-IsHeader : (id : ℕ) → id < 2 ^ 64 → IsHeader (header_of sizing id early (late ∷ []))
unfolding header_of zone_min zone_max
older-IsHeader id h = record {
  segment_id = omega (arith, h);
  span_count = omega arith;
  min_timestamp = (omega arith, omega arith);
  max_timestamp = (omega arith, omega arith);
  bloom_section_length = build_bloom_section-lt sizing (early ∷ late ∷ []) sizing-IsSizing;
}

older-IsFlushed :
    (id : ℕ)
    → id < 2 ^ 64
    → read_file id written.dir ≡ some (file_of sizing id early (late ∷ []))
    → IsFlushed written.dir id sizing early (late ∷ [])
older-IsFlushed id h file = record {
  file = file;
  recordable = spans-AreRecordable;
  sizing = sizing-IsSizing;
  header = older-IsHeader id h;
}

-- A copy in another segment than the index says is stale.
stale_copy :
    (x : Span) (id off : ℕ) (c : Scan)
    → IsAt x 7
    → (id == 7) ≡ false
    → compact_record locate id off x c ≡ (count_stale c, true)
unfolding compact_record
stale_copy x id off c (loc, l, s) other =
    let away : (loc.segment_id == id) ≡ false = ground (arith, s, other) in
    rw (compact_record, l, away) refl

visit_one :
    (fn : ℕ → Span → Scan → Scan × Bool) (off : ℕ) (x : Span) (rest : List (ℕ × Span)) (c d : Scan)
    → fn off x c ≡ (d, true)
    → visit fn ((off, x) ∷ rest) c ≡ visit fn rest d
unfolding visit
visit_one fn off x rest c d h = rw (visit, h) (ap (λ v. visit fn rest v.0) h)

visited :
    (id off : ℕ) (c : Scan)
    → (id == 7) ≡ false
    → visit (compact_record locate id) (located off (early ∷ late ∷ [])) c
      ≡ count_stale (count_stale c)
unfolding visit located
visited id off c other =
    let fn = compact_record locate id in
    let next = off + length (write_record early) in
    visit_one fn off early ((next, late) ∷ []) c (count_stale c)
      (stale_copy early id off c written-IsWritten.early_at other)
    ∙ visit_one fn next late [] (count_stale c) (count_stale (count_stale c))
        (stale_copy late id next (count_stale c) written-IsWritten.late_at other)

scanned :
    scan_segments due.compact_io.closes locate written.dir (3 ∷ 4 ∷ []) no_scan
    ≡ ok (record no_scan { stale = 4 })
unfolding scan_segments
scanned =
    let closes = due.compact_io.closes in
    let pass = λ (id : ℕ) (h : id < 2 ^ 64) (f : HasFile id) (other : (id == 7) ≡ false) (c : Scan).
      scan_segment-IsFlushed closes written.dir id sizing early (late ∷ [])
        (compact_record locate id) c (older-IsFlushed id h f) refl
      ∙ ap (λ d. ok d) (visited id (start_of (header_of sizing id early (late ∷ []))) c other) in
    scan_segments_next closes locate written.dir 3 (4 ∷ []) no_scan _
      (pass 3 (omega arith) written-IsWritten.three refl no_scan)
    ∙ scan_segments_next closes locate written.dir 4 [] _ _
        (pass 4 (omega arith) written-IsWritten.four refl _)

abbrev report : Report
report = record {
  dropped_ids = 3 ∷ 4 ∷ [];
  new_segment_id = 0;
  spans_dropped = 0;
  spans_carried = 0;
  spans_stale = 4;
}

compacted :
    (compact sizing due.compact_io (3 ∷ 4 ∷ []) written.next_segment_id (segments written)).1
    ≡ ok report
unfolding compact merge Manifest.save
compacted = rw (compact, scanned, merge, written-IsWritten.listed) refl

-- The compaction merges the segments 3 and 4.
written-Spares : (x : Span) → IsAt x 7 → Spares memory memory-KvLaws (key_of x) due false written
unfolding sort_ids Manifest.contains
written-Spares x (loc, l, s) live e many two r =
    let same : 3 ∷ 4 ∷ 5 ∷ 6 ∷ 7 ∷ [] ≡ live = cc (sym written-IsWritten.listed ∙ e) in
    rw (← same) (
      λ other q.
          let at_7 : other.segment_id ≡ 7 = cc in
          (rw at_7 refl, (file_of sizing 7 early (late ∷ []), rw at_7 written-IsWritten.seven)),
      (report, compacted),
    )

flushed : (write_segment_batch due false batch older).1 ≡ ok tt
unfolding write_segment_batch
flushed = rw (write_segment_batch, written-IsWritten.done, batch_live) refl

write_segment_batch-Answers_example :
    Answers
      (last_write (key_of late) batch)
      (resolve older.dir (Index.get_span memory (key_of late) older.index))
      (resolve
        (write_segment_batch due false batch older).0.dir
        (Index.get_span memory (key_of late) (write_segment_batch due false batch older).0.index))
write_segment_batch-Answers_example =
    write_segment_batch-Answers memory memory-KvLaws (key_of late) due false batch state older refl
      batch-Fits (λ y ys q. written-Spares late written-IsWritten.late_at) flushed

sessions_flushed : (flush_all_sessions due false sessions older).1 ≡ ok tt
unfolding flush_all_sessions take_all
sessions_flushed = rw (flush_all_sessions, take_all, flushed) refl

get_span-flush_all_sessions_example :
    get_span memory early.trace_id early.span_id
      (flush_all_sessions due false sessions older).0.0
      (flush_all_sessions due false sessions older).0.1
    ≡ ok (some early)
unfolding get_span take_all lookup str_eq buffered_span
get_span-flush_all_sessions_example =
    get_span-flush_all_sessions memory memory-KvLaws due false sessions older state early.trace_id
      early.span_id (some early) refl (refl, tt) ((refl, (refl, (refl, tt))), tt) (inl refl, tt)
      batch-Fits (λ y ys q. written-Spares early written-IsWritten.early_at) sessions_flushed refl
