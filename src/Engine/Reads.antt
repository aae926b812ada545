-- ===== src/Engine/Reads.antt =====
-- internal/engine/engine.go, the reads that merge the session buffer with index and segments: GetSpan,
-- GetTrace, RangeQuery, ListTraces and QueryWithCursor.
pub mod Pages
pub mod Sound
pub mod Written
use wisp_trace_db.Prelude.{
  ℕ, zero, suc, ◌+◌, ◌-◌, ◌^◌, ◌==◌, Bool, true, false, not, ◌||◌, ◌&&◌, Option, none, some, List,
  [], ◌∷◌, ◌++◌, length, take, drop, ltb, leb, if◌then◌else◌, Result, ok, err, ◌>>=◌,
}
use wisp_trace_db.Prelude.Int.{ℤ, pos, negsuc}
use wisp_trace_db.Prelude.Bytes.{Bytes, str_eq}
use wisp_trace_db.Prelude.Dict.{Dict, lookup}
use wisp_trace_db.Wal.Span.{Span}
use wisp_trace_db.Segment.Format.{SegmentError, not_found, composite_key, key_of}
use wisp_trace_db.Segment.Writer.{Dir, read_file}
use wisp_trace_db.Segment.Reader.{Reader, open_reader, scan_all_func}
use wisp_trace_db.Segment.Manifest
use wisp_trace_db.Segment.Manifest.{ManifestError}
use wisp_trace_db.Index
use wisp_trace_db.Index.{Kv, Db, SpanLocation, IndexError, prefix_scan}
use wisp_trace_db.Index.Batches.{has_key}
use wisp_trace_db.Engine.Range.{RangeFilter, matches, skips}
use wisp_trace_db.Engine.Store.{
  Store, EngineError, index_failed, segment_failed, manifest_failed, invalid_cursor, slice_panic,
  read_location, resolve,
}
use wisp_trace_db.Engine.Buffer.{
  Buffer, Buffered, unknown, deleted, buffered, buffered_span, buffered_spans_by_key,
}

abbrev pub fail_with : {E A : Type 0} → (E → EngineError) → Result E A → Result EngineError A
fail_with f (ok a) = ok a
fail_with f (err e) = err (f e)

-- The buffered spans that are added behind those of the segments.
unfoldable pub add_buffered : (Span → Bool) → Dict Span → List Bytes → List Span
add_buffered wanted by_key [] = []
add_buffered wanted by_key (key ∷ order) =
    let rest = add_buffered wanted by_key order in
    elim (lookup key by_key) [
      | none ↦ rest
      | some s ↦ if s.deleted || not (wanted s) then rest else s ∷ rest
    ]

-- The loop of GetTrace over the locations.
unfoldable pub read_locations :
    Dir → Dict Span → List SpanLocation → Result SegmentError (List Span)
unfolding read_location
read_locations dir by_key [] = ok []
read_locations dir by_key (loc ∷ locations) = do
  span ← read_location dir loc
  rest ← read_locations dir by_key locations
  elim (lookup (key_of span) by_key) [
    | some s ↦ ok rest
    | none ↦ ok (if span.deleted then rest else span ∷ rest)
  ]

-- The callback of RangeQuery's scan, on the segment `id`.
unfoldable pub visit_record :
    RangeFilter
    → Dict Span
    → (Bytes → Result IndexError SpanLocation)
    → ℕ
    → ℕ
    → Span
    → List Span
    → List Span × Bool
visit_record f by_key locate id off s results =
    let key = key_of s in
    if s.deleted then (results, true) else elim (lookup key by_key) [
      | some b ↦ (results, true)
      | none ↦ if not (matches f s) then (results, true) else elim (locate key) [
        | err e ↦ (results, true)
        | ok loc ↦
            if not (loc.segment_id == id) || not (loc.offset == off)
            then (results, true)
            else (results ++ s ∷ [], true)
      ]
    ]

-- RangeQuery's loop over the segments, whose readers close without an error.
unfoldable pub query_segments :
    RangeFilter
    → Dict Span
    → (Bytes → Result IndexError SpanLocation)
    → Dir
    → List ℕ
    → List Span
    → Result SegmentError (List Span)
unfolding visit_record
query_segments f by_key locate dir [] results = ok results
query_segments f by_key locate dir (id ∷ ids) results = elim (read_file id dir) [
  | none ↦ err not_found
  | some file ↦ elim (open_reader file) [
    | err e ↦ err e
    | ok reader ↦
        let (results', scanned) = scan_all_func reader (visit_record f by_key locate id) results in
        elim (skips f reader.header reader.blooms) [
          | true ↦ query_segments f by_key locate dir ids results
          | false ↦ elim scanned [
            | err e ↦ err e
            | ok u ↦ query_segments f by_key locate dir ids results'
          ]
        ]
  ]
]

-- ListTraces' loop, with the ids seen so far in their order. A limit of 0 or less is none.
unfoldable pub list_loop : ℤ → List Span → List Bytes → List Bytes
list_loop limit [] ids = ids
list_loop limit (s ∷ spans) ids = elim (has_key s.trace_id ids) [
  | true ↦ list_loop limit spans ids
  | false ↦
      let ids' = ids ++ s.trace_id ∷ [] in
      elim (reached limit (length ids')) [ true ↦ ids' | false ↦ list_loop limit spans ids' ]
]
  where
    reached : ℤ → ℕ → Bool
    reached (negsuc n) m = false
    reached (pos n) m = not (n == 0) && leb n m

-- Where a page starts: a cursor of 0 or less is the beginning.
abbrev pub page_start : Option ℤ → ℕ
page_start none = 0
page_start (some (pos k)) = k
page_start (some (negsuc k)) = 0

-- The cursor of the first page is empty; any other is a number, as strconv.Atoi parses it.
unfoldable pub parse_cursor : (Bytes → Option ℤ) → Bytes → Result EngineError (Option ℤ)
parse_cursor atoi cursor =
    if str_eq cursor []
    then ok none
    else elim (atoi cursor) [ none ↦ err invalid_cursor | some n ↦ ok (some n) ]

-- The cursor of the next page, empty where there is none.
unfoldable pub next_cursor : (ℕ → Bytes) → Option ℕ → Bytes
next_cursor itoa none = []
next_cursor itoa (some end) = itoa end

-- What QueryWithCursor does with the spans of the range query. An end of 2 ^ 63 or more wraps around to
-- a negative one, at which the slice expression panics.
unfoldable pub page_of : List Span → ℤ → Option ℤ → Result EngineError (List Span × Option ℕ)
page_of spans (negsuc n) cursor = ok ([], none)
page_of spans (pos zero) cursor = ok ([], none)
page_of spans (pos (suc n)) cursor =
    let offset = page_start cursor in
    if leb (length spans) offset
    then ok ([], none)
    else let end = offset + suc n in
      if leb (2 ^ 63) end
      then err slice_panic
      else if ltb end (length spans)
      then ok (take (end - offset) (drop offset spans), some end)
      else ok (drop offset spans, none)

module _ (kv : Kv) where
  -- GetSpan
  unfoldable pub get_span : Bytes → Bytes → Buffer → Store kv → Result EngineError (Option Span)
  unfolding buffered_span resolve
  get_span trace_id span_id b w = elim (buffered_span trace_id span_id b) [
    | deleted ↦ ok none
    | buffered s ↦ ok (some s)
    | unknown ↦ resolve w.dir (Index.get_span kv (composite_key trace_id span_id) w.index)
  ]

  -- GetTrace
  unfoldable pub get_trace : Bytes → Buffer → Store kv → Result EngineError (Option (List Span))
  unfolding buffered_spans_by_key read_locations add_buffered
  get_trace trace_id b w =
      let (by_key, order) = buffered_spans_by_key trace_id b in
      do
        locations ← fail_with index_failed (prefix_scan kv (composite_key trace_id []) w.index)
        stored ← fail_with segment_failed (read_locations w.dir by_key locations)
        ok (elim (stored ++ add_buffered (λ s. true) by_key order) [
          | [] ↦ none
          | s ∷ ss ↦ some (s ∷ ss)
        ])

  -- RangeQuery
  unfoldable pub range_query : RangeFilter → Buffer → Store kv → Result EngineError (List Span)
  unfolding buffered_spans_by_key query_segments add_buffered
  range_query f b w = do
    live ← fail_with manifest_failed (Manifest.load w.manifest)
    let view = buffered_spans_by_key [] b
    stored ←
        fail_with segment_failed
          (query_segments f view.0 (λ key. Index.get_span kv key w.index) w.dir live [])
    ok (stored ++ add_buffered (matches f) view.0 view.1)

  unfoldable pub list_traces : RangeFilter → ℤ → Buffer → Store kv → Result EngineError (List Bytes)
  unfolding range_query list_loop
  list_traces f limit b w = do spans ← range_query f b w; ok (list_loop limit spans [])

  -- QueryWithCursor. `atoi` is strconv.Atoi, and `itoa` strconv.Itoa on what is not negative.
  unfoldable pub query_with_cursor :
      (Bytes → Option ℤ)
      → (ℕ → Bytes)
      → RangeFilter
      → ℤ
      → Bytes
      → Buffer
      → Store kv
      → Result EngineError (List Span × Bytes)
  unfolding range_query page_of parse_cursor next_cursor
  query_with_cursor atoi itoa f page_size cursor b w = do
    spans ← range_query f b w
    parsed ← parse_cursor atoi cursor
    page ← page_of spans page_size parsed
    ok (page.0, next_cursor itoa page.1)

  -- The queries by one dimension.
  abbrev any_of : ℤ → ℤ → RangeFilter
  any_of start end = record {
    start_ts = start;
    end_ts = end;
    want_agent_id = [];
    want_model = [];
    want_tool_name = [];
    want_team = [];
    want_status = [];
  }

  unfoldable pub query_by_model : Bytes → ℤ → ℤ → Buffer → Store kv → Result EngineError (List Span)
  query_by_model m start end = range_query (record (any_of start end) { want_model = m })

  unfoldable pub query_by_team : Bytes → ℤ → ℤ → Buffer → Store kv → Result EngineError (List Span)
  query_by_team t start end = range_query (record (any_of start end) { want_team = t })

  unfoldable pub query_by_status :
      Bytes → ℤ → ℤ → Buffer → Store kv → Result EngineError (List Span)
  query_by_status s start end = range_query (record (any_of start end) { want_status = s })

  unfoldable pub query_by_agent_id :
      Bytes → ℤ → ℤ → Buffer → Store kv → Result EngineError (List Span)
  query_by_agent_id a start end = range_query (record (any_of start end) { want_agent_id = a })

  unfoldable pub query_by_tool_name :
      Bytes → ℤ → ℤ → Buffer → Store kv → Result EngineError (List Span)
  query_by_tool_name t start end = range_query (record (any_of start end) { want_tool_name = t })
