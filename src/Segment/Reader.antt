-- ===== src/Segment/Reader.antt =====
-- internal/segment/reader.go, on the bytes of a file.
pub mod Opening
pub mod Scanning
pub mod Flushed
pub mod Keeping
use wisp_trace_db.Prelude.{
  ℕ, zero, suc, ◌+◌, ◌-◌, ◌==◌, Bool, true, false, not, List, [], ◌∷◌, ◌++◌, length, take, drop,
  ltb, if◌then◌else◌, Result, ok, err, ◌>>=◌,
}
use wisp_trace_db.Prelude.Int.{int64}
use wisp_trace_db.Prelude.Bytes.{Bytes, uint}
use wisp_trace_db.Crc.{checksum_ieee}
use wisp_trace_db.Wal.Span.{Span}
use wisp_trace_db.Wal.Codec.{decode_span_payload}
use wisp_trace_db.Bloom
use wisp_trace_db.Bloom.{Filter}
use wisp_trace_db.Segment.Format.{
  Dimension, Header, SegmentError, eof, unexpected_eof, bad_magic, bad_version, bad_bloom,
  checksum_mismatch, bad_record, stuck, magic, current_segment_version, header_size,
  record_framing_size, bloom_dimensions,
}

-- Reader, on a file of which `file` are the bytes.
pub record Reader : Type 0 where
  pub file : Bytes
  pub header : Header
  pub blooms : List (Dimension × Filter)

-- io.ReadFull of `n` bytes from what is left: they, and what is left then.
unfoldable pub read_full : ℕ → Bytes → Result SegmentError (Bytes × Bytes)
read_full n bytes =
    if ltb (length bytes) n
    then err (if length bytes == 0 then eof else unexpected_eof)
    else ok (take n bytes, drop n bytes)

unfoldable pub read_header : Bytes → Result SegmentError Header
unfolding read_full
read_header file = do
  p ← read_full header_size file
  let buf = p.0
  if not (uint (take 4 (drop 0 buf)) == magic)
      then err bad_magic
      else if not (uint (take 2 (drop 4 buf)) == current_segment_version)
      then err bad_version
      else ok (record {
        segment_id = uint (take 8 (drop 6 buf));
        span_count = uint (take 4 (drop 14 buf));
        min_timestamp = int64 (uint (take 8 (drop 18 buf)));
        max_timestamp = int64 (uint (take 8 (drop 26 buf)));
        bloom_section_length = uint (take 4 (drop 34 buf));
      })

abbrev lift_bloom : {A : Type 0} → Result Bloom.DecodeError A → Result SegmentError A
lift_bloom (ok a) = ok a
lift_bloom (err e) = err (bad_bloom e)

-- The filters of the dimensions, one behind the other.
unfoldable pub decode_blooms :
    List Dimension → Bytes → Result SegmentError (List (Dimension × Filter))
decode_blooms [] section = ok []
decode_blooms (d ∷ ds) section = do
  p ← lift_bloom (Bloom.decode section)
  rest ← decode_blooms ds (drop p.1 section)
  ok ((d, p.0) ∷ rest)

-- `rest` is the file behind the header.
unfoldable pub read_blooms : Bytes → ℕ → Result SegmentError (List (Dimension × Filter))
unfolding read_full decode_blooms
read_blooms rest section_length = do
  p ← read_full section_length rest
  decode_blooms bloom_dimensions p.0

unfoldable pub open_reader : Bytes → Result SegmentError Reader
open_reader file = do
  header ← read_header file
  blooms ← read_blooms (drop header_size file) header.bloom_section_length
  ok (record { file = file; header = header; blooms = blooms })

-- OpenReaderLight: the blooms are left out.
unfoldable pub open_reader_light : Bytes → Result SegmentError Reader
open_reader_light file = do
  header ← read_header file
  ok (record { file = file; header = header; blooms = [] })

abbrev lift_decode : {A E : Type 0} → Result E A → Result SegmentError A
lift_decode (ok a) = ok a
lift_decode (err e) = err bad_record

-- os.File.ReadAt: all of the bytes, or io.EOF.
unfoldable pub file_read_at : ℕ → ℕ → Bytes → Result SegmentError Bytes
file_read_at n off file =
    if ltb (length file) (off + n) then err eof else ok (take n (drop off file))

unfoldable pub read_at : Reader → ℕ → Result SegmentError Span
unfolding file_read_at
read_at r off = do
  framing ← file_read_at record_framing_size off r.file
  let len = uint (take 4 (drop 0 framing))
  let checksum = uint (take 4 (drop 4 framing))
  payload ← file_read_at len (off + record_framing_size) r.file
  if not (checksum_ieee payload == checksum)
      then err checksum_mismatch
      else lift_decode (decode_span_payload payload)

-- One round of ScanAllFunc's loop: the span, and what is left of the file behind its record.
unfoldable pub scan_record : Bytes → Result SegmentError (Span × Bytes)
unfolding read_full
scan_record bytes = do
  framing ← read_full record_framing_size bytes
  let len = uint (take 4 (drop 0 framing.0))
  let checksum = uint (take 4 (drop 4 framing.0))
  payload ← read_full len framing.1
  if not (checksum_ieee payload.0 == checksum)
      then err checksum_mismatch
      else do span ← lift_decode (decode_span_payload payload.0); ok (span, payload.1)

-- ScanAllFunc's loop. `fn` is the callback with the state that it changes, and says whether to go
-- on. The end of the file ends the loop without an error.
unfoldable pub scan_loop :
    {S : Type 0} → ℕ → (ℕ → Span → S → S × Bool) → ℕ → Bytes → S → S × Result SegmentError Unit
scan_loop zero fn off bytes s = (s, err stuck)
scan_loop (suc fuel) fn off [] s = (s, ok tt)
scan_loop (suc fuel) fn off (b ∷ bs) s = elim (scan_record (b ∷ bs)) [
  | err e ↦ (s, err e)
  | ok (span, rest) ↦
      let (s', more) = fn off span s in
      elim more [
        | false ↦ (s', ok tt)
        | true ↦ scan_loop fuel fn (off + (length (b ∷ bs) - length rest)) rest s'
      ]
]

unfoldable pub scan_all_func :
    {S : Type 0} → Reader → (ℕ → Span → S → S × Bool) → S → S × Result SegmentError Unit
scan_all_func r fn s =
    let start = header_size + r.header.bloom_section_length in
    scan_loop (suc (length r.file)) fn start (drop start r.file) s

unfoldable pub scan_all : Reader → Result SegmentError (List (ℕ × Span))
scan_all r =
    let (spans, result) = scan_all_func r (λ off span acc. (acc ++ (off, span) ∷ [], true)) [] in
    result >>= λ _. ok spans
