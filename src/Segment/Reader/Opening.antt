-- ===== src/Segment/Reader/Opening.antt =====
-- OpenReader and OpenReaderLight of internal/segment/reader.go on files that Flush wrote.
use wisp_trace_db.Prelude.{
  ℕ, ◌+◌, ◌*◌, ◌^◌, ◌<◌, ◌≤◌, ◌≡◌, refl, sym, List, [], ◌∷◌, ◌++◌, append-nil, length,
  length-append, drop-append, take-append, le→ltb, ok, arith, map,
}
use wisp_trace_db.Prelude.Int.{uint64, uint64-lt, int64-uint64, IsInt64}
use wisp_trace_db.Prelude.Bytes.{Bytes, put_uint, length-put_uint, uint_at}
use wisp_trace_db.Wal.Span.{Span}
use wisp_trace_db.Bloom
use wisp_trace_db.Bloom.{Filter, encoded_size}
use wisp_trace_db.Bloom.Members.{IsWellFormed, add_all, add_all-IsWellFormed, new-IsWellFormed}
use wisp_trace_db.Bloom.Coding.{length-encode, decode-encode_filter}
use wisp_trace_db.Segment.Format.{
  Dimension, Header, magic, current_segment_version, header_size, bloom_dimensions, dimension_value,
}
use wisp_trace_db.Segment.Writer.{
  Sizing, write_header, dimension_filter, bloom_sections, build_bloom_section, header_of, file_of,
  write_records,
}
use wisp_trace_db.Segment.Reader.{
  read_full, read_header, decode_blooms, read_blooms, open_reader, open_reader_light,
}

-- The fields fit their widths in the file.
pub record IsHeader (h : Header) : Type 0 where
  pub segment_id : h.segment_id < 2 ^ 64
  pub span_count : h.span_count < 2 ^ 32
  pub min_timestamp : IsInt64 h.min_timestamp
  pub max_timestamp : IsInt64 h.max_timestamp
  pub bloom_section_length : h.bloom_section_length < 2 ^ 32

-- The sizes that math computes are such that the filters are well formed.
pub record IsSizing (z : Sizing) : Type 0 where
  pub ceiled : (n : ℕ) → z.ceiled n + 7 < 2 ^ 32
  pub rounded : (m n : ℕ) → z.rounded m n < 2 ^ 32

pub length-write_header : (h : Header) → length (write_header h) ≡ header_size
unfolding write_header
length-write_header h = simp (length-append, length-put_uint)

-- ReadFull of exactly what stands in front.
pub read_full-append :
    (n : ℕ) (front back : Bytes) → n ≡ length front → read_full n (front ++ back) ≡ ok (front, back)
unfolding read_full
read_full-append n front back e = rw (
  le→ltb (length (front ++ back)) n (omega (arith, length-append front back)),
  take-append n front back e,
  drop-append n front back e,
)

-- The header at the front of a file is read back.
pub read_header-append :
    (h : Header) (rest : Bytes) → IsHeader h → read_header (write_header h ++ rest) ≡ ok h
unfolding read_header write_header
read_header-append h rest v =
    let buf = write_header h in
    let behind =
      put_uint 2 current_segment_version
      ++ (put_uint 8 h.segment_id
          ++ (put_uint 4 h.span_count
              ++ (put_uint 8 (uint64 h.min_timestamp)
                  ++ (put_uint 8 (uint64 h.max_timestamp)
                      ++ (put_uint 4 h.bloom_section_length ++ []))))) in
    let (m, d1) =
      uint_at buf 0 4 magic behind (omega arith)
        (rw (append-nil (put_uint 4 h.bloom_section_length)) refl) in
    let (ver, d2) = uint_at buf 4 2 current_segment_version _ (omega arith) d1 in
    let (sid, d3) = uint_at buf 6 8 _ _ v.segment_id d2 in
    let (cnt, d4) = uint_at buf 14 4 _ _ v.span_count d3 in
    let (lo, d5) = uint_at buf 18 8 _ _ (uint64-lt h.min_timestamp) d4 in
    let (hi, d6) = uint_at buf 26 8 _ _ (uint64-lt h.max_timestamp) d5 in
    let (len, _) = uint_at buf 34 4 _ _ v.bloom_section_length d6 in
    rw (
      read_full-append header_size buf rest (sym (length-write_header h)),
      m,
      ver,
      sid,
      cnt,
      lo,
      hi,
      len,
      int64-uint64 h.min_timestamp v.min_timestamp,
      int64-uint64 h.max_timestamp v.max_timestamp,
    )

-- The filters of the dimensions that a writer builds from the spans.
abbrev pub filters : Sizing → List Span → List Dimension → List (Dimension × Filter)
filters z spans [] = []
filters z spans (d ∷ ds) = (d, dimension_filter z spans d) ∷ filters z spans ds

pub dimension_filter-IsWellFormed :
    (z : Sizing) (spans : List Span) (d : Dimension)
    → IsSizing z
    → IsWellFormed (dimension_filter z spans d)
unfolding dimension_filter
dimension_filter-IsWellFormed z spans d v =
    add_all-IsWellFormed _ _ (new-IsWellFormed z.ceiled z.rounded (length spans) v.ceiled)

add_all-k : (vs : List Bytes) (f : Filter) → (add_all vs f).k ≡ f.k
unfolding add_all Bloom.add
add_all-k [] f = refl
add_all-k (v ∷ vs) f = add_all-k vs (Bloom.add v f)

dimension_filter-k-lt :
    (z : Sizing) (spans : List Span) (d : Dimension)
    → IsSizing z
    → (dimension_filter z spans d).k < 2 ^ 32
unfolding dimension_filter Bloom.new Bloom.optimal_k
dimension_filter-k-lt z spans d v = ground (
  arith,
  add_all-k (map (λ s. dimension_value s d) spans) (Bloom.new z.ceiled z.rounded (length spans)),
)

bloom_sections-le :
    (z : Sizing) (spans : List Span) (ds : List Dimension)
    → IsSizing z
    → length (bloom_sections z spans ds) ≤ length ds * (2 ^ 29 + 8)
unfolding bloom_sections encoded_size
bloom_sections-le z spans [] v = omega arith
bloom_sections-le z spans (d ∷ ds) v =
    let f = dimension_filter z spans d in
    let w = dimension_filter-IsWellFormed z spans d v in
    omega (
      arith,
      length-append (Bloom.encode f) (bloom_sections z spans ds),
      length-encode f,
      w.sized,
      w.no_wrap,
      bloom_sections-le z spans ds v,
    )

-- The length of the section fits its field.
pub build_bloom_section-lt :
    (z : Sizing) (spans : List Span) → IsSizing z → length (build_bloom_section z spans) < 2 ^ 32
unfolding build_bloom_section
build_bloom_section-lt z spans v = omega (arith, bloom_sections-le z spans bloom_dimensions v)

decode_blooms-sections :
    (z : Sizing) (spans : List Span) (ds : List Dimension)
    → IsSizing z
    → decode_blooms ds (bloom_sections z spans ds) ≡ ok (filters z spans ds)
unfolding decode_blooms bloom_sections
decode_blooms-sections z spans [] v = refl
decode_blooms-sections z spans (d ∷ ds) v =
    let f = dimension_filter z spans d in
    rw (
      decode-encode_filter f (bloom_sections z spans ds) (dimension_filter-IsWellFormed z spans d v)
          (dimension_filter-k-lt z spans d v),
      drop-append (encoded_size f) (Bloom.encode f) (bloom_sections z spans ds)
          (sym (length-encode f)),
      decode_blooms-sections z spans ds v,
    )

-- A flushed file opens, where the fields of its header fit their widths and the sizes of its
-- filters 32 bits, with its header and, for each dimension, the filter of the values of the spans.
pub open_reader-file_of :
    (z : Sizing) (id : ℕ) (s : Span) (ss : List Span)
    → IsSizing z
    → IsHeader (header_of z id s ss)
    → open_reader (file_of z id s ss)
      ≡ ok (record {
        file = file_of z id s ss;
        header = header_of z id s ss;
        blooms = filters z (s ∷ ss) bloom_dimensions;
      })
unfolding open_reader file_of read_blooms build_bloom_section header_of
open_reader-file_of z id s ss v w =
    let h = header_of z id s ss in
    let section = bloom_sections z (s ∷ ss) bloom_dimensions in
    rw (
      read_header-append h _ w,
      drop-append header_size (write_header h) (section ++ write_records (s ∷ ss))
          (sym (length-write_header h)),
      read_full-append (length section) section (write_records (s ∷ ss)) refl,
      decode_blooms-sections z (s ∷ ss) bloom_dimensions v,
    )

-- The light reader finds the same header, and no filters.
pub open_reader_light-file_of :
    (z : Sizing) (id : ℕ) (s : Span) (ss : List Span)
    → IsHeader (header_of z id s ss)
    → open_reader_light (file_of z id s ss)
      ≡ ok (record { file = file_of z id s ss; header = header_of z id s ss; blooms = [] })
unfolding open_reader_light file_of
open_reader_light-file_of z id s ss w = rw (read_header-append (header_of z id s ss) _ w)
