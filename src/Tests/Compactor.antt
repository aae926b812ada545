-- ===== src/Tests/Compactor.antt =====
-- Examples for the compactor.
use wisp_trace_db.Prelude.{◌≡◌, refl, ◌∙◌, ap, true, false, none, some, [], ◌∷◌, Result, ok}
use wisp_trace_db.Prelude.Bytes.{Bytes, str_eq, put_uint, uint}
use wisp_trace_db.Prelude.Dict.{lookup}
use wisp_trace_db.Bloom.{encode, add, new}
use wisp_trace_db.Bloom.Members.{add_all}
use wisp_trace_db.Segment.Format.{key_of, composite_key, dimension_value}
use wisp_trace_db.Segment.Writer.{
  file_of, header_of, start_of, build_bloom_section, dimension_filter, read_file, located,
}
use wisp_trace_db.Segment.Reader.Flushed.{visit}
use wisp_trace_db.Segment.Manifest
use wisp_trace_db.Index.{
  IndexError, SpanLocation, encode_span_location, decode_span_location, get_span,
}
use wisp_trace_db.Engine.Store.{resolve}
use wisp_trace_db.Compactor.{Segments, CompactIo, Report, no_scan, compact_record, scan_segments}
use wisp_trace_db.Compactor.Merge.{compact, merge}
use wisp_trace_db.Compactor.Scanned.{IsFlushed, scan_segment-IsFlushed, scan_segments_next}
use wisp_trace_db.Compactor.Spared.{resolve-compact}
use wisp_trace_db.Tests.Memory.{memory, memory-KvLaws, State}
use wisp_trace_db.Tests.Segment.{
  sizing, sizing-IsSizing, early, late, spans-AreRecordable, flushed-IsHeader,
}

-- An older copy of `early` and `late` stand in segment 7, the newer copy of `early` in segment 8.
abbrev newer : SpanLocation
newer = record { segment_id = 8; offset = start_of (header_of sizing 8 early []) }

only_key : lookup {V = Bytes} (key_of early) [] ≡ none
unfolding lookup
only_key = refl

abbrev state : State
state = record {
  entries = (key_of early, encode_span_location newer) ∷ [];
  distinct = (only_key, tt);
}

abbrev segments : Segments memory
segments = record {
  dir = (7, file_of sizing 7 early (late ∷ [])) ∷ (8, file_of sizing 8 early []) ∷ [];
  manifest = none;
  index = some state;
}

abbrev io : CompactIo
io = record {
  closes = λ id. true;
  segment_ok = true;
  orphan_removed = true;
  manifest_ok = true;
  purge_ok = true;
  remove_fails = λ id n. false;
}

abbrev report : Report
report = record {
  dropped_ids = 7 ∷ [];
  new_segment_id = 0;
  spans_dropped = 0;
  spans_carried = 0;
  spans_stale = 2;
}

file_7 : read_file 7 segments.dir ≡ some (file_of sizing 7 early (late ∷ []))
unfolding read_file
file_7 = refl

file_8 : read_file 8 segments.dir ≡ some (file_of sizing 8 early [])
unfolding read_file
file_8 = refl

seven : IsFlushed segments.dir 7 sizing early (late ∷ [])
seven = record {
  file = file_7;
  recordable = spans-AreRecordable;
  sizing = sizing-IsSizing;
  header = flushed-IsHeader;
}

abbrev locate : Bytes → Result IndexError SpanLocation
locate key = get_span memory key segments.index

visited :
    visit
      (compact_record locate 7)
      (located (start_of (header_of sizing 7 early (late ∷ []))) (early ∷ late ∷ []))
      no_scan
    ≡ record no_scan { stale = 2 }
unfolding visit compact_record get_span lookup located str_eq composite_key decode_span_location
    encode_span_location put_uint uint
visited = refl

scanned :
    scan_segments io.closes locate segments.dir (7 ∷ []) no_scan ≡ ok (record no_scan { stale = 2 })
unfolding scan_segments
scanned =
    scan_segments_next io.closes locate segments.dir 7 [] no_scan (record no_scan { stale = 2 })
      (scan_segment-IsFlushed io.closes segments.dir 7 sizing early (late ∷ [])
          (compact_record locate 7) no_scan seven refl
        ∙ ap (λ c. ok c) visited)

compacted : (compact sizing io (7 ∷ []) 9 segments).1 ≡ ok report
unfolding compact merge Manifest.load Manifest.save
compacted = rw (compact, scanned) refl

located_8 : get_span memory (key_of early) segments.index ≡ ok newer
unfolding get_span lookup str_eq composite_key decode_span_location encode_span_location put_uint
    uint header_of build_bloom_section encode dimension_filter add_all add new dimension_value
located_8 = refl

resolve-compact_example :
    let t = (compact sizing io (7 ∷ []) 9 segments).0 in
    (get_span memory (key_of early) t.index ≡ ok newer)
    × (resolve t.dir (get_span memory (key_of early) t.index)
        ≡ resolve segments.dir (get_span memory (key_of early) segments.index))
unfolding Manifest.contains
resolve-compact_example =
    resolve-compact memory memory-KvLaws sizing io (7 ∷ []) 9 segments (key_of early) newer
      (file_of sizing 8 early []) report located_8 file_8 refl compacted
