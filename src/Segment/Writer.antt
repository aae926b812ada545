-- ===== src/Segment/Writer.antt =====
-- internal/segment/writer.go. The directory is the list of its segment files, by id.
use wisp_trace_db.Prelude.{
  ℕ, ◌+◌, ◌==◌, Bool, not, Option, none, some, List, [], ◌∷◌, ◌++◌, map, length, if◌then◌else◌,
  Result, ok, err,
}
use wisp_trace_db.Prelude.Int.{ℤ, ltb_ℤ, uint64}
use wisp_trace_db.Prelude.Bytes.{Bytes, put_uint}
use wisp_trace_db.Prelude.Dict.{Dict, insert}
use wisp_trace_db.Crc.{checksum_ieee}
use wisp_trace_db.Wal.Span.{Span}
use wisp_trace_db.Wal.Codec.{encode_span_payload}
use wisp_trace_db.Bloom
use wisp_trace_db.Bloom.{Filter}
use wisp_trace_db.Bloom.Members.{add_all}
use wisp_trace_db.Segment.Format.{
  Dimension, Header, WriteResult, SegmentError, no_spans, already_exists, io_error, magic,
  current_segment_version, header_size, bloom_dimensions, dimension_value, key_of,
}

-- What math computes for bloom.New: the rounded sizes, for a number of items.
pub record Sizing : Type 0 where
  pub ceiled : ℕ → ℕ
  pub rounded : ℕ → ℕ → ℕ

abbrev pub Dir : Type 0
Dir = List (ℕ × Bytes)

unfoldable pub read_file : ℕ → Dir → Option Bytes
read_file id [] = none
read_file id ((j, b) ∷ dir) = if j == id then some b else read_file id dir

unfoldable pub write_header : Header → Bytes
write_header h =
    put_uint 4 magic
    ++ (put_uint 2 current_segment_version
        ++ (put_uint 8 h.segment_id
            ++ (put_uint 4 h.span_count
                ++ (put_uint 8 (uint64 h.min_timestamp)
                    ++ (put_uint 8 (uint64 h.max_timestamp)
                        ++ put_uint 4 h.bloom_section_length)))))

unfoldable pub write_record : Span → Bytes
write_record s =
    let payload = encode_span_payload s in
    put_uint 4 (length payload) ++ (put_uint 4 (checksum_ieee payload) ++ payload)

unfoldable pub write_records : List Span → Bytes
write_records [] = []
write_records (s ∷ ss) = write_record s ++ write_records ss

-- The filter of one dimension.
unfoldable pub dimension_filter : Sizing → List Span → Dimension → Filter
dimension_filter z spans dim =
    add_all (map (λ s. dimension_value s dim) spans) (Bloom.new z.ceiled z.rounded (length spans))

unfoldable pub bloom_sections : Sizing → List Span → List Dimension → Bytes
bloom_sections z spans [] = []
bloom_sections z spans (d ∷ ds) =
    Bloom.encode (dimension_filter z spans d) ++ bloom_sections z spans ds

unfoldable pub build_bloom_section : Sizing → List Span → Bytes
unfolding bloom_sections
build_bloom_section z spans = bloom_sections z spans bloom_dimensions

-- The loop over the spans that finds the zone map.
unfoldable pub zone_min : ℤ → List Span → ℤ
zone_min lo [] = lo
zone_min lo (s ∷ ss) = zone_min (if ltb_ℤ s.timestamp lo then s.timestamp else lo) ss

unfoldable pub zone_max : ℤ → List Span → ℤ
zone_max hi [] = hi
zone_max hi (s ∷ ss) = zone_max (if ltb_ℤ hi s.timestamp then s.timestamp else hi) ss

-- The spans with the offsets of their records, of which the first is `written`.
unfoldable pub located : ℕ → List Span → List (ℕ × Span)
located written [] = []
located written (s ∷ ss) = (written, s) ∷ located (written + length (write_record s)) ss

-- The map of offsets: of two records with one key the later is kept.
unfoldable pub offsets_of : List (ℕ × Span) → Dict ℕ → Dict ℕ
offsets_of [] m = m
offsets_of ((off, s) ∷ ss) m = offsets_of ss (insert (key_of s) off m)

unfoldable pub header_of : Sizing → ℕ → Span → List Span → Header
header_of z id s ss = record {
  segment_id = id;
  span_count = length (s ∷ ss);
  min_timestamp = zone_min s.timestamp (s ∷ ss);
  max_timestamp = zone_max s.timestamp (s ∷ ss);
  bloom_section_length = length (build_bloom_section z (s ∷ ss));
}

abbrev pub start_of : Header → ℕ
start_of h = header_size + h.bloom_section_length

unfoldable pub file_of : Sizing → ℕ → Span → List Span → Bytes
file_of z id s ss =
    write_header (header_of z id s ss) ++ (build_bloom_section z (s ∷ ss) ++ write_records (s ∷ ss))

-- Flush. `io_ok` is false where a call of the operating system fails: the file is then removed.
unfoldable pub flush : Sizing → Bool → ℕ → List Span → Dir → Dir × Result SegmentError WriteResult
unfolding header_of file_of
flush z io_ok id [] dir = (dir, err no_spans)
flush z io_ok id (s ∷ ss) dir = elim (read_file id dir) [
  | some b ↦ (dir, err already_exists)
  | none ↦
      if not io_ok
      then (dir, err io_error)
      else let h = header_of z id s ss in
        (
          dir ++ (id, file_of z id s ss) ∷ [],
          ok (record {
            segment_id = id;
            span_count = length (s ∷ ss);
            min_timestamp = h.min_timestamp;
            max_timestamp = h.max_timestamp;
            offsets = offsets_of (located (start_of h) (s ∷ ss)) [];
          }),
        )
]
