-- ===== src/Index/Location.antt =====
-- encodeSpanLocation and decodeSpanLocation of internal/pebble/pebble.go.
use wisp_trace_db.Prelude.{◌^◌, ◌<◌, ◌≡◌, refl, sym, ◌∙◌, [], append-nil, length, length-append, ok}
use wisp_trace_db.Prelude.Bytes.{put_uint, length-put_uint, uint_at}
use wisp_trace_db.Index.{SpanLocation, encode_span_location, decode_span_location}

-- The numbers fit 64 bits.
pub record IsLocation (loc : SpanLocation) : Type 0 where
  pub segment_id : loc.segment_id < 2 ^ 64
  pub offset : loc.offset < 2 ^ 64

pub length-encode_span_location : (loc : SpanLocation) → length (encode_span_location loc) ≡ 16
unfolding encode_span_location
length-encode_span_location loc = simp (length-append, length-put_uint)

-- Decoding the encoding of a location gives the location.
pub decode-encode_span_location :
    (loc : SpanLocation) → IsLocation loc → decode_span_location (encode_span_location loc) ≡ ok loc
unfolding decode_span_location encode_span_location
decode-encode_span_location loc v =
    let bytes = encode_span_location loc in
    let (s, d) = uint_at bytes 0 8 loc.segment_id (put_uint 8 loc.offset) v.segment_id refl in
    let (o, _) =
      uint_at bytes 8 8 loc.offset [] v.offset (d ∙ sym (append-nil (put_uint 8 loc.offset))) in
    rw (length-encode_span_location loc, s, o)
