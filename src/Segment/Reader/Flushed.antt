-- ===== src/Segment/Reader/Flushed.antt =====
-- ScanAllFunc, ScanAll and ReadAt of internal/segment/reader.go on files that Flush wrote.
use wisp_trace_db.Prelude.{
  ℕ, zero, suc, ◌+◌, ◌-◌, ◌<◌, ◌≤◌, ◌≡◌, refl, ap, sym, ◌∙◌, List, [], ◌∷◌, ◌++◌, append_assoc,
  append-nil, length, length-append, length-drop, drop, drop-append, drop_split, ok, arith, All,
  Bool, true, false, Result,
}
use wisp_trace_db.Prelude.Bytes.{Bytes}
use wisp_trace_db.Wal.Span.{Span}
use wisp_trace_db.Segment.Format.{SegmentError}
use wisp_trace_db.Segment.Writer.{
  Sizing, write_record, write_records, located, header_of, start_of, file_of, build_bloom_section,
  write_header,
}
use wisp_trace_db.Segment.Reader.{Reader, scan_record, scan_loop, scan_all_func, scan_all, read_at}
use wisp_trace_db.Segment.Reader.Opening.{length-write_header}
use wisp_trace_db.Segment.Reader.Scanning.{
  IsRecordable, length-write_record, scan_record-write_record, read_at-write_record,
}

module _ {S : Type 0} where
  -- The callback on the records, one after the other, until it says to stop.
  unfoldable pub visit : (ℕ → Span → S → S × Bool) → List (ℕ × Span) → S → S
  visit fn [] s = s
  visit fn ((off, span) ∷ rest) s =
      let (s', more) = fn off span s in elim more [ false ↦ s' | true ↦ visit fn rest s' ]

  -- One round on a record, and the rest by what follows it.
  scan_loop_round :
      (fuel : ℕ) (fn : ℕ → Span → S → S × Bool) (off : ℕ) (bytes : Bytes) (s : S) {span : Span}
      {rest : Bytes}
      → 0 < length bytes
      → scan_record bytes ≡ ok (span, rest)
      → scan_loop (suc fuel) fn off bytes s ≡ elim (fn off span s).1 [
        | false ↦ ((fn off span s).0, ok tt)
        | true ↦ scan_loop fuel fn (off + (length bytes - length rest)) rest (fn off span s).0
      ]
  unfolding scan_loop
  scan_loop_round fuel fn off [] s h e = absurd (omega arith)
  scan_loop_round fuel fn off (b ∷ bs) s h e = rw (e, scan_loop)

  scan_loop_end :
      (fuel : ℕ) (fn : ℕ → Span → S → S × Bool) (off : ℕ) (s : S)
      → scan_loop (suc fuel) fn off [] s ≡ (s, ok tt)
  unfolding scan_loop
  scan_loop_end fuel fn off s = refl

  answered :
      (fuel : ℕ) (fn : ℕ → Span → S → S × Bool) (off : ℕ) (rest : Bytes) (spans : List (ℕ × Span))
      (p : S × Bool)
      → ((s : S) → scan_loop fuel fn off rest s ≡ (visit fn spans s, ok tt))
      → ◌≡◌ {A = S × Result SegmentError Unit}
          (elim p.1 [ false ↦ (p.0, ok tt) | true ↦ scan_loop fuel fn off rest p.0 ])
          (elim p.1 [ false ↦ p.0 | true ↦ visit fn spans p.0 ], ok tt)
  answered fuel fn off rest spans (s, false) h = refl
  answered fuel fn off rest spans (s, true) h = h s

  scan_loop-write_records :
      (fuel : ℕ) (fn : ℕ → Span → S → S × Bool) (off : ℕ) (spans : List Span) (s : S)
      → All IsRecordable spans
      → length spans < fuel
      → scan_loop fuel fn off (write_records spans) s ≡ (visit fn (located off spans) s, ok tt)
  unfolding visit located write_records
  scan_loop-write_records zero fn off spans s v h = absurd (omega arith)
  scan_loop-write_records (suc fuel) fn off [] s v h = scan_loop_end fuel fn off s
  scan_loop-write_records (suc fuel) fn off (x ∷ xs) s v h =
      let bytes = write_record x ++ write_records xs in
      let size : off + (length bytes - length (write_records xs)) ≡ off + length (write_record x) =
        omega (arith, length-append (write_record x) (write_records xs)) in
      let long : 0 < length bytes =
        omega (arith, length-append (write_record x) (write_records xs), length-write_record x) in
      let round =
        scan_loop_round fuel fn off bytes s long
          (scan_record-write_record x (write_records xs) v.0) in
      let later : (s' : S)
          → scan_loop fuel fn (off + (length bytes - length (write_records xs))) (write_records xs)
              s'
            ≡ (visit fn (located (off + length (write_record x)) xs) s', ok tt) =
        λ s'. rw size (
          scan_loop-write_records fuel fn (off + length (write_record x)) xs s' v.1
            (omega arith)) in
      round ∙ answered fuel fn _ _ _ (fn off x s) later

length-write_records : (spans : List Span) → length spans ≤ length (write_records spans)
unfolding write_records
length-write_records [] = omega arith
length-write_records (x ∷ xs) = omega (
  arith,
  length-append (write_record x) (write_records xs),
  length-write_record x,
  length-write_records xs,
)

-- The reader of a flushed file, with any filters.
pub record IsReaderOf (r : Reader) (z : Sizing) (id : ℕ) (s : Span) (ss : List Span) : Type 0 where
  pub file : r.file ≡ file_of z id s ss
  pub header : r.header ≡ header_of z id s ss

drop_start :
    (z : Sizing) (id : ℕ) (s : Span) (ss : List Span)
    → drop (start_of (header_of z id s ss)) (file_of z id s ss) ≡ write_records (s ∷ ss)
unfolding file_of header_of
drop_start z id s ss =
    let h = header_of z id s ss in
    let section = build_bloom_section z (s ∷ ss) in
    rw (← append_assoc (write_header h) section (write_records (s ∷ ss))) (
      drop-append _ (write_header h ++ section) _
        (omega (arith, length-append (write_header h) section, length-write_header h)))

-- Scanning a flushed file, of spans whose fields and record lengths fit their widths, calls `fn`
-- on each span in the order of the writer, with the offset of its record, until `fn` says to stop,
-- and ends without an error.
pub scan_all_func-flushed :
    {S : Type 0} (r : Reader) (z : Sizing) (id : ℕ) (s : Span) (ss : List Span)
    (fn : ℕ → Span → S → S × Bool) (st : S)
    → IsReaderOf r z id s ss
    → All IsRecordable (s ∷ ss)
    → scan_all_func r fn st
      ≡ (visit fn (located (start_of (header_of z id s ss)) (s ∷ ss)) st, ok tt)
unfolding scan_all_func
scan_all_func-flushed r z id s ss fn st k v =
    let start = start_of (header_of z id s ss) in
    let enough : length (s ∷ ss) < suc (length (file_of z id s ss)) = omega (
      arith,
      length-write_records (s ∷ ss),
      ap length (drop_start z id s ss),
      length-drop start (file_of z id s ss),
    ) in
    rw (k.file, k.header, drop_start z id s ss)
      (scan_loop-write_records _ fn start (s ∷ ss) st v enough)

abbrev collect : ℕ → Span → List (ℕ × Span) → List (ℕ × Span) × Bool
collect off span acc = (acc ++ (off, span) ∷ [], true)

visit-collect :
    (spans : List (ℕ × Span)) (acc : List (ℕ × Span)) → visit collect spans acc ≡ acc ++ spans
unfolding visit
visit-collect [] acc = sym (append-nil acc)
visit-collect ((off, span) ∷ rest) acc =
    visit-collect rest (acc ++ (off, span) ∷ []) ∙ append_assoc acc ((off, span) ∷ []) rest

-- ScanAll of a flushed file, of spans whose fields and record lengths fit their widths, returns
-- the spans in the order of the writer, each with the offset of its record.
pub scan_all-flushed :
    (r : Reader) (z : Sizing) (id : ℕ) (s : Span) (ss : List Span)
    → IsReaderOf r z id s ss
    → All IsRecordable (s ∷ ss)
    → scan_all r ≡ ok (located (start_of (header_of z id s ss)) (s ∷ ss))
unfolding scan_all
scan_all-flushed r z id s ss k v =
    rw (scan_all_func-flushed r z id s ss collect [] k v, visit-collect _ []) refl

-- Each record that follows `front` in the file is where `located` says.
read_at-located_from :
    (r : Reader) (spans : List Span) (off : ℕ)
    → All IsRecordable spans
    → drop off r.file ≡ write_records spans
    → All (λ p. read_at r p.0 ≡ ok p.1) (located off spans)
unfolding located write_records
read_at-located_from r [] off v e = tt
read_at-located_from r (x ∷ xs) off v e =
    let (_, d) =
      drop_split r.file off (length (write_record x)) (write_record x) (write_records xs) refl e in
    (read_at-write_record r off x (write_records xs) v.0 e, read_at-located_from r xs _ v.1 d)

-- ReadAt at the offset of any record of a flushed file returns the span of that record.
pub read_at-flushed :
    (r : Reader) (z : Sizing) (id : ℕ) (s : Span) (ss : List Span)
    → IsReaderOf r z id s ss
    → All IsRecordable (s ∷ ss)
    → All (λ p. read_at r p.0 ≡ ok p.1) (located (start_of (header_of z id s ss)) (s ∷ ss))
read_at-flushed r z id s ss k v =
    read_at-located_from r (s ∷ ss) _ v (rw k.file (drop_start z id s ss))
