-- ===== src/Engine/Reads/Sound.antt =====
-- internal/engine/engine.go, RangeQuery: which spans it returns.
use wisp_trace_db.Prelude.{
  ℕ, ◌==◌, ◌≡◌, ap, ◌∙◌, ◌⊎◌, inl, inr, true, false, not, ◌||◌, none, some, List, [], ◌∷◌, ◌++◌,
  arith, Option-cases, Bool-cases, Result-cases, Result, ok, err, All, All-append, ◌>>=◌, >>=-eq-ok,
}
use mathlib.Core.List.{Memᴰ}
use mathlib.Core.Path.{subst}
use wisp_trace_db.Prelude.Bytes.{Bytes}
use wisp_trace_db.Prelude.Dict.{Dict, lookup}
use wisp_trace_db.Wal.Span.{Span}
use wisp_trace_db.Segment.Format.{SegmentError, key_of}
use wisp_trace_db.Segment.Writer.{Dir, read_file}
use wisp_trace_db.Segment.Reader.{Reader, open_reader, scan_all, scan_all_func}
use wisp_trace_db.Segment.Reader.Keeping.{scan_all_func-records}
use wisp_trace_db.Segment.Manifest
use wisp_trace_db.Segment.Manifest.{contains}
use wisp_trace_db.Index
use wisp_trace_db.Index.{Kv, SpanLocation, IndexError}
use wisp_trace_db.Engine.Range.{RangeFilter, matches, skips}
use wisp_trace_db.Engine.Store.{Store, EngineError, segment_failed, manifest_failed}
use wisp_trace_db.Engine.Buffer.{Buffer, buffered_spans_by_key}
use wisp_trace_db.Engine.Reads.{fail_with, add_buffered, visit_record, query_segments, range_query}

-- ScanAll on the file of the location's segment returns the span at the location's offset.
abbrev pub IsStored : Dir → SpanLocation → Span → Type 0
IsStored dir loc s =
    (file : Bytes) × (read_file loc.segment_id dir ≡ some file)
    × ((r : Reader) × (open_reader file ≡ ok r)
        × ((records : List (ℕ × Span)) × (scan_all r ≡ ok records) × Memᴰ (loc.offset, s) records))

module _ (f : RangeFilter) (by_key : Dict Span) (locate : Bytes → Result IndexError SpanLocation)
    (dir : Dir) (live : List ℕ) where
  abbrev pub IsAnswer : Span → Type 0
  IsAnswer s =
      (s.deleted ≡ false)
      × (matches f s ≡ true)
      × (((key : Bytes) × (lookup key by_key ≡ some s))
          ⊎ ((lookup (key_of s) by_key ≡ none)
              × ((loc : SpanLocation) × (locate (key_of s) ≡ ok loc)
                  × (contains loc.segment_id live ≡ true)
                  × IsStored dir loc s)))

  visit_record-goes :
      (id off : ℕ) (s : Span) (results : List Span)
      → (visit_record f by_key locate id off s results).1 ≡ true
  unfolding visit_record
  visit_record-goes id off s results = elim (Option-cases (lookup (key_of s) by_key)) [
    | inr (b, e) ↦ ground (arith, e)
    | inl e ↦ elim (Result-cases (locate (key_of s))) [
      | inr (x, l) ↦ ground (arith, e, l)
      | inl (loc, l) ↦ ground (arith, e, l)
    ]
  ]

  visit_record-keeps :
      (id : ℕ) (file : Bytes) (r : Reader) (records : List (ℕ × Span))
      → contains id live ≡ true
      → read_file id dir ≡ some file
      → open_reader file ≡ ok r
      → scan_all r ≡ ok records
      → (off : ℕ) (s : Span) (results : List Span) → Memᴰ (off, s) records
      → All IsAnswer results
      → All IsAnswer (visit_record f by_key locate id off s results).0
  unfolding visit_record
  visit_record-keeps id file r records listed n o all off s results m' h =
      elim (Bool-cases s.deleted) [
        | inl d ↦ rw (visit_record, d) h
        | inr d ↦ elim (Option-cases (lookup (key_of s) by_key)) [
          | inr (b, e) ↦ ground (arith, d, e, h)
          | inl e ↦ elim (Bool-cases (matches f s)) [
            | inr m ↦ ground (arith, d, e, m, h)
            | inl m ↦ elim (Result-cases (locate (key_of s))) [
              | inr (x, l) ↦ ground (arith, d, e, m, l, h)
              | inl (loc, l) ↦
                  elim (Bool-cases (not (loc.segment_id == id) || not (loc.offset == off))) [
                    | inl stale ↦ ground (arith, d, e, m, l, stale, h)
                    | inr current ↦
                        let here : loc.segment_id ≡ id = ground (arith, current) in
                        let same : loc.offset ≡ off = ground (arith, current) in
                        let there = ap (λ j. contains j live) here ∙ listed in
                        let found : IsStored dir loc s = (
                          file,
                          ap (λ j. read_file j dir) here ∙ n,
                          (r, o, (records, all, rw same m')),
                        ) in
                        let more =
                          All-append IsAnswer results (s ∷ []) h
                            ((d, m, inr (e, (loc, l, there, found))), tt) in
                        ground (arith, d, e, m, l, current, more)
                  ]
            ]
          ]
        ]
      ]

  abbrev AreAnswers : Result SegmentError (List Span) → Type 0
  AreAnswers (ok spans) = All IsAnswer spans
  AreAnswers (err e) = Unit

  query_segments-AreAnswers :
      (ids : List ℕ) (results : List Span)
      → All (λ id. contains id live ≡ true) ids
      → All IsAnswer results
      → AreAnswers (query_segments f by_key locate dir ids results)
  unfolding query_segments
  query_segments-AreAnswers [] results listed h = h
  query_segments-AreAnswers (id ∷ ids) results listed h = elim (Option-cases (read_file id dir)) [
    | inl n ↦ rw (AreAnswers, query_segments, n) tt
    | inr (file, n) ↦ elim (Result-cases (open_reader file)) [
      | inr (e, o) ↦ rw (AreAnswers, query_segments, n, o) tt
      | inl (r, o) ↦
          let scan = scan_all_func r (visit_record f by_key locate id) results in
          elim (Bool-cases (skips f r.header r.blooms)) [
            | inl skip ↦
                rw (AreAnswers, query_segments, n, o, skip)
                  (query_segments-AreAnswers ids results listed.1 h)
            | inr stay ↦ elim (Result-cases scan.1) [
              | inr (e, failed) ↦ rw (AreAnswers, query_segments, n, o, stay, failed) tt
              | inl (u, done) ↦
                  let (records, all, kept) =
                    scan_all_func-records (visit_record f by_key locate id) (All IsAnswer) r results
                      (visit_record-goes id) done in
                  let seen = visit_record-keeps id file r records listed.0 n o all in
                  rw (AreAnswers, query_segments, n, o, stay, done)
                    (query_segments-AreAnswers ids scan.0 listed.1 (kept seen h))
            ]
          ]
    ]
  ]

  add_buffered-IsAnswer :
      (order : List Bytes) → All IsAnswer (add_buffered (matches f) by_key order)
  unfolding add_buffered
  add_buffered-IsAnswer [] = tt
  add_buffered-IsAnswer (key ∷ order) =
      let rest = add_buffered-IsAnswer order in
      elim (Option-cases (lookup key by_key)) [
        | inl n ↦ rw (add_buffered, n) rest
        | inr (s, n) ↦ elim (Bool-cases (s.deleted || not (matches f s))) [
          | inl out ↦ rw (add_buffered, n, out) rest
          | inr kept ↦
              let live : (s.deleted ≡ false) × (matches f s ≡ true) =
                (ground (arith, kept), ground (arith, kept)) in
              rw (add_buffered, n, kept) ((live.0, live.1, inl (key, n)), rest)
        ]
      ]

fail_with_ok :
    {E A : Type 0} (f : E → EngineError) (r : Result E A) (a : A) → fail_with f r ≡ ok a → r ≡ ok a
fail_with_ok f (ok b) a h = cc
fail_with_ok f (err e) a h = absurd cc

-- The ids that a list has are in it.
listed_ids :
    (live ids : List ℕ)
    → ((id : ℕ) → contains id ids ≡ true → contains id live ≡ true)
    → All (λ id. contains id live ≡ true) ids
unfolding contains
listed_ids live [] h = tt
listed_ids live (id ∷ ids) h =
    (h id (ground arith), listed_ids live ids (λ j m. h j (ground (arith, m))))

-- A RangeQuery that returns no error returns only spans that are not deleted and match the filter,
-- and of which either the session buffer has the span, or it has nothing under the span's key and
-- the index has an entry for it, into a segment of the manifest in whose file ScanAll finds that span
-- at the offset of the entry: a deletion that is only buffered, or only in the index, hides the record
-- that a segment still has, and of two records of a key only the one that the index has is returned.
pub range_query_sound :
    (kv : Kv) (f : RangeFilter) (b : Buffer) (w : Store kv) (spans : List Span)
    → range_query kv f b w ≡ ok spans
    → (live : List ℕ) × (Manifest.load w.manifest ≡ ok live)
      × All
          (IsAnswer f (buffered_spans_by_key [] b).0 (λ k. Index.get_span kv k w.index) w.dir live)
          spans
unfolding range_query
range_query_sound kv f b w spans e =
    let by_key = (buffered_spans_by_key [] b).0 in
    let order = (buffered_spans_by_key [] b).1 in
    let locate = λ (k : Bytes). Index.get_span kv k w.index in
    let added = add_buffered (matches f) by_key order in
    let read =
      λ (live : List ℕ). fail_with segment_failed (query_segments f by_key locate w.dir live []) in
    let (live, l, e') =
      >>=-eq-ok (fail_with manifest_failed (Manifest.load w.manifest))
        (λ live. read live >>= λ stored. ok (stored ++ added)) e in
    let (stored, q, e'') = >>=-eq-ok (read live) (λ stored. ok (stored ++ added)) e' in
    let found : All (IsAnswer f by_key locate w.dir live) stored =
      subst (AreAnswers f by_key locate w.dir live)
        (fail_with_ok segment_failed (query_segments f by_key locate w.dir live []) stored q)
        (query_segments-AreAnswers f by_key locate w.dir live live []
          (listed_ids live live (λ id m. m)) tt) in
    let same : stored ++ added ≡ spans = cc e'' in
    (
      live,
      fail_with_ok manifest_failed (Manifest.load w.manifest) live l,
      subst (All (IsAnswer f by_key locate w.dir live)) same (
          All-append (IsAnswer f by_key locate w.dir live) stored added found
            (add_buffered-IsAnswer f by_key locate w.dir live order)),
    )
