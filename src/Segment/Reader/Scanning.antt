-- ===== src/Segment/Reader/Scanning.antt =====
-- ReadAt and a round of ScanAllFunc (internal/segment/reader.go) on a record of writeRecord.
use wisp_trace_db.Prelude.{
  ℕ, ◌+◌, ◌^◌, ◌<◌, ◌≡◌, refl, ap, sym, ◌∙◌, [], ◌++◌, append_assoc, append-nil, length,
  length-append, drop, drop_split, fits, le→ltb, ==_self, ok, arith,
}
use wisp_trace_db.Prelude.Bytes.{Bytes, length-put_uint}
use wisp_trace_db.Crc.{checksum_ieee}
use wisp_trace_db.Crc.Framing.{framing, length-framing, framing_fields}
use wisp_trace_db.Wal.Span.{Span, IsEncodable}
use wisp_trace_db.Wal.Codec.{encode_span_payload, decode_span_payload}
use wisp_trace_db.Wal.Codec.RoundTrip.{decode-encode}
use wisp_trace_db.Segment.Writer.{write_record}
use wisp_trace_db.Segment.Reader.{Reader, scan_record, read_at}
use wisp_trace_db.Segment.Reader.Opening.{read_full-append}

-- Spans that a segment can hold: each decodes back, and its record's length fits its field.
pub record IsRecordable (s : Span) : Type 0 where
  pub encodable : IsEncodable s
  pub size : length (encode_span_payload s) < 2 ^ 32

decode_back : (s : Span) → IsEncodable s → decode_span_payload (encode_span_payload s) ≡ ok s
decode_back s v =
    ap decode_span_payload (sym (append-nil (encode_span_payload s))) ∙ decode-encode s [] v

pub length-write_record : (s : Span) → length (write_record s) ≡ 8 + length (encode_span_payload s)
unfolding write_record
length-write_record s = simp (length-append, length-put_uint) (omega arith)

write_record-framing :
    (s : Span) (rest : Bytes)
    → write_record s ++ rest ≡ framing (encode_span_payload s) ++ (encode_span_payload s ++ rest)
unfolding write_record
write_record-framing s rest = simp append_assoc

-- The record at the front of what is left is read.
pub scan_record-write_record :
    (s : Span) (rest : Bytes) → IsRecordable s → scan_record (write_record s ++ rest) ≡ ok (s, rest)
unfolding scan_record
scan_record-write_record s rest v =
    let payload = encode_span_payload s in
    let (size, sum) = framing_fields payload v.size in
    rw (
      write_record-framing s rest,
      read_full-append 8 (framing payload) (payload ++ rest) (sym (length-framing payload)),
      size,
      sum,
      read_full-append (length payload) payload rest refl,
      ==_self (checksum_ieee payload),
      decode_back s v.encodable,
    )

-- The record at an offset of a file is read, wherever it stands.
pub read_at-write_record :
    (r : Reader) (off : ℕ) (s : Span) (rest : Bytes)
    → IsRecordable s
    → drop off r.file ≡ write_record s ++ rest
    → read_at r off ≡ ok s
unfolding read_at
read_at-write_record r off s rest v e =
    let payload = encode_span_payload s in
    let (size, sum) = framing_fields payload v.size in
    let flat = e ∙ write_record-framing s rest in
    let (head, d) =
      drop_split r.file off 8 (framing payload) (payload ++ rest) (sym (length-framing payload))
        flat in
    let (body, _) = drop_split r.file (off + 8) (length payload) payload rest refl d in
    let long = fits r.file (off + 8) payload rest d in
    let head_long = fits r.file off (framing payload) (payload ++ rest) flat in
    rw (
      le→ltb (length r.file) (off + 8) (omega (arith, head_long, length-framing payload)),
      head,
      size,
      sum,
      le→ltb (length r.file) (off + 8 + length payload)
          (omega (arith, long, head_long, length-framing payload)),
      body,
      ==_self (checksum_ieee payload),
      decode_back s v.encodable,
    )
