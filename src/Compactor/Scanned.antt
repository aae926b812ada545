-- ===== src/Compactor/Scanned.antt =====
-- internal/compactor/compactor.go, scanSegment on a file that Flush wrote.
use wisp_trace_db.Prelude.{ℕ, ◌≡◌, refl, Bool, true, some, List, ◌∷◌, Result, ok, All}
use wisp_trace_db.Prelude.Bytes.{Bytes}
use wisp_trace_db.Wal.Span.{Span}
use wisp_trace_db.Segment.Format.{bloom_dimensions}
use wisp_trace_db.Segment.Writer.{Sizing, Dir, read_file, located, header_of, start_of, file_of}
use wisp_trace_db.Segment.Reader.{Reader}
use wisp_trace_db.Segment.Reader.Opening.{IsSizing, IsHeader, filters, open_reader-file_of}
use wisp_trace_db.Segment.Reader.Scanning.{IsRecordable}
use wisp_trace_db.Segment.Reader.Flushed.{visit, scan_all_func-flushed}
use wisp_trace_db.Index.{SpanLocation, IndexError}
use wisp_trace_db.Compactor.{Scan, compact_record, open_segment, scan_segment, scan_segments}

-- The segment's file is one that Flush wrote.
pub record IsFlushed (dir : Dir) (id : ℕ) (z : Sizing) (s : Span) (ss : List Span) : Type 0 where
  pub file : read_file id dir ≡ some (file_of z id s ss)
  pub recordable : All IsRecordable (s ∷ ss)
  pub sizing : IsSizing z
  pub header : IsHeader (header_of z id s ss)

-- The scan of a file goes through the records that were written.
pub scan_segment-IsFlushed :
    (closes : ℕ → Bool) (dir : Dir) (id : ℕ) (z : Sizing) (s : Span) (ss : List Span)
    (fn : ℕ → Span → Scan → Scan × Bool) (c : Scan)
    → IsFlushed dir id z s ss
    → closes id ≡ true
    → scan_segment closes dir id fn c
      ≡ ok (visit fn (located (start_of (header_of z id s ss)) (s ∷ ss)) c)
unfolding scan_segment open_segment
scan_segment-IsFlushed closes dir id z s ss fn c h closed =
    let opened = open_reader-file_of z id s ss h.sizing h.header in
    let r : Reader = record {
      file = file_of z id s ss;
      header = header_of z id s ss;
      blooms = filters z (s ∷ ss) bloom_dimensions;
    } in
    let scanned =
      scan_all_func-flushed r z id s ss fn c (record { file = refl; header = refl }) h.recordable in
    rw (scan_segment, open_segment, h.file, opened, scanned, closed) refl

-- Compact's loop goes on behind a segment that is scanned without an error.
pub scan_segments_next :
    (closes : ℕ → Bool) (locate : Bytes → Result IndexError SpanLocation) (dir : Dir) (id : ℕ)
    (ids : List ℕ) (c d : Scan)
    → scan_segment closes dir id (compact_record locate id) c ≡ ok d
    → scan_segments closes locate dir (id ∷ ids) c ≡ scan_segments closes locate dir ids d
unfolding scan_segments
scan_segments_next closes locate dir id ids c d e = rw (scan_segments, e) refl
