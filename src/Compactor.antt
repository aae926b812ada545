-- ===== src/Compactor.antt =====
-- internal/compactor/compactor.go: merging and expiring segments. The calls of the operating system end as
-- CompactIo says.
pub mod Merge
pub mod Untouched
pub mod Removing
pub mod Spared
pub mod Scanned
use wisp_trace_db.Prelude.{
  ℕ, zero, suc, ◌+◌, ◌==◌, Bool, true, false, not, ◌||◌, Option, none, some, List, [], ◌∷◌, ◌++◌,
  map, keep, length, if◌then◌else◌, Result, ok, err,
}
use wisp_trace_db.Prelude.Stages.{and_then, ◌>>=◌, ◌>>◌, wrap}
use wisp_trace_db.Prelude.Int.{ℤ, ltb_ℤ}
use wisp_trace_db.Prelude.Bytes.{Bytes}
use wisp_trace_db.Prelude.Dict.{Dict}
use wisp_trace_db.Wal.Span.{Span}
use wisp_trace_db.Segment.Format.{SegmentError, WriteResult, not_found, io_error, key_of}
use wisp_trace_db.Segment.Writer
use wisp_trace_db.Segment.Writer.{Sizing, Dir, read_file}
use wisp_trace_db.Segment.Reader.{Reader, open_reader, scan_all_func}
use wisp_trace_db.Segment.Manifest
use wisp_trace_db.Segment.Manifest.{ManifestError, remove_segments}
use wisp_trace_db.Index.{
  Kv, Db, SpanLocation, IndexError, get_span, batch_put_spans, batch_delete_spans,
}

-- What the compactor works on. The purger is the argument `purge_ok` of CompactIo.
pub record Segments (kv : Kv) : Type 0 where
  pub dir : Dir
  pub manifest : Option Bytes
  pub index : Db kv

pub data CompactError : Type 0 where
  no_segments unlink_failed purge_failed : CompactError
  scan_failed : SegmentError → CompactError
  write_failed : SegmentError → CompactError
  index_failed : IndexError → CompactError
  manifest_failed : ManifestError → CompactError

pub record CompactIo : Type 0 where
  -- whether a reader of the segment closes without an error
  pub closes : ℕ → Bool
  pub segment_ok : Bool
  pub orphan_removed : Bool
  pub manifest_ok : Bool
  pub purge_ok : Bool
  -- whether os.Remove fails on the segment's file, with this many attempts left
  pub remove_fails : ℕ → ℕ → Bool

-- Result, which the code calls that too.
pub record Report : Type 0 where
  pub dropped_ids : List ℕ
  pub new_segment_id : ℕ
  pub spans_dropped : ℕ
  pub spans_carried : ℕ
  pub spans_stale : ℕ

-- What the scan of Compact and of Expire collects.
pub record Scan : Type 0 where
  pub survivors : List Span
  pub reclaim_keys : List Bytes
  pub dropped : ℕ
  pub stale : ℕ

abbrev pub no_scan : Scan
no_scan = record { survivors = []; reclaim_keys = []; dropped = 0; stale = 0 }

-- The staleness check: whether the index points at the record.
unfoldable pub is_current : Result IndexError SpanLocation → ℕ → ℕ → Bool
is_current (err e) id off = false
is_current (ok loc) id off = not (not (loc.segment_id == id) || not (loc.offset == off))

abbrev pub count_stale : Scan → Scan
count_stale c = record c { stale = c.stale + 1 }

-- One key more to delete from the index.
abbrev pub reclaim : Bytes → Scan → Scan
reclaim key c = record c { dropped = c.dropped + 1; reclaim_keys = c.reclaim_keys ++ key ∷ [] }

abbrev pub carry : Span → Scan → Scan
carry s c = record c { survivors = c.survivors ++ s ∷ [] }

-- The callback of Compact.
unfoldable pub compact_record :
    (Bytes → Result IndexError SpanLocation) → ℕ → ℕ → Span → Scan → Scan × Bool
unfolding is_current
compact_record locate id off s c =
    if not (is_current (locate (key_of s)) id off)
    then (count_stale c, true)
    else if s.deleted
    then (reclaim (key_of s) c, true)
    else (carry s c, true)

-- The callback of Expire.
unfoldable pub expire_record :
    (Bytes → Result IndexError SpanLocation) → ℕ → ℕ → Span → Scan → Scan × Bool
unfolding is_current
expire_record locate id off s c =
    if not (is_current (locate (key_of s)) id off)
    then (count_stale c, true)
    else (reclaim (key_of s) c, true)

-- segment.OpenReader on the segment's file.
unfoldable pub open_segment : Dir → ℕ → Result SegmentError Reader
open_segment dir id = elim (read_file id dir) [
  | none ↦ err not_found
  | some file ↦ open_reader file
]

-- The end of a scan: its error, or that of the reader's Close.
abbrev pub scan_result : Bool → Scan × Result SegmentError Unit → Result SegmentError Scan
scan_result closed (c, err e) = err e
scan_result closed (c, ok u) = if closed then ok c else err io_error

unfoldable pub scan_segment :
    (ℕ → Bool) → Dir → ℕ → (ℕ → Span → Scan → Scan × Bool) → Scan → Result SegmentError Scan
unfolding open_segment
scan_segment closes dir id fn c = elim (open_segment dir id) [
  | err e ↦ err e
  | ok reader ↦ scan_result (closes id) (scan_all_func reader fn c)
]

-- Compact's loop over the segments.
unfoldable pub scan_segments :
    (ℕ → Bool)
    → (Bytes → Result IndexError SpanLocation)
    → Dir
    → List ℕ
    → Scan
    → Result SegmentError Scan
unfolding scan_segment compact_record
scan_segments closes locate dir [] c = ok c
scan_segments closes locate dir (id ∷ ids) c =
    elim (scan_segment closes dir id (compact_record locate id) c) [
      | err e ↦ err e
      | ok c' ↦ scan_segments closes locate dir ids c'
    ]

-- Expire's loop: the segments that are expired, and what their scans collect.
unfoldable pub expire_segments :
    (ℕ → Bool)
    → (Bytes → Result IndexError SpanLocation)
    → Dir
    → ℤ
    → List ℕ
    → List ℕ
    → Scan
    → Result SegmentError (List ℕ × Scan)
unfolding open_segment expire_record
expire_segments closes locate dir cutoff [] expired c = ok (expired, c)
expire_segments closes locate dir cutoff (id ∷ ids) expired c = elim (open_segment dir id) [
  | err e ↦ err e
  | ok reader ↦ elim (ltb_ℤ reader.header.max_timestamp cutoff) [
    | false ↦ expire_segments closes locate dir cutoff ids expired c
    | true ↦ elim (scan_result (closes id) (scan_all_func reader (expire_record locate id) c)) [
      | err e ↦ err e
      | ok c' ↦ expire_segments closes locate dir cutoff ids (expired ++ id ∷ []) c'
    ]
  ]
]
