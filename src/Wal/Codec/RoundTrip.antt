-- ===== src/Wal/Codec/RoundTrip.antt =====
-- encodePayload and deserializePayload of internal/wal/wal.go together.
use wisp_trace_db.Prelude.{
  ℕ, ◌+◌, ◌^◌, ◌<◌, ◌≡◌, refl, sym, ◌∙◌, [], ◌∷◌, ◌++◌, Bool, true, false, append_assoc, append-nil,
  length, drop, drop_split, fits, get_or-drop, le→ltb, ok, arith, not, ◌==◌,
}
use wisp_trace_db.Prelude.Int.{uint64, uint32, uint64-lt, uint32-lt, int64-uint64, int32-uint32}
use wisp_trace_db.Prelude.Bytes.{Bytes, put_uint, length-put_uint, uint_at}
use wisp_trace_db.Wal.Span.{Span, IsEncodable}
use wisp_trace_db.Wal.Codec.Sizes.{length-put_string}
use wisp_trace_db.Wal.Codec.{
  encode_span_payload, put_string, deleted_byte, encode_payload, get_string, get_field, get_blob,
  deserialize_payload, decode_span_payload,
}

get_string-put_string :
    (bytes s back : Bytes)
    → length s < 2 ^ 16
    → bytes ≡ put_string s ++ back
    → get_string bytes ≡ ok (s, 2 + length s)
unfolding get_string put_string
get_string-put_string bytes s back h e =
    let whole : drop 0 bytes ≡ put_uint 2 (length s) ++ (s ++ back) =
      e ∙ append_assoc (put_uint 2 (length s)) s back in
    let (len, behind) = uint_at bytes 0 2 (length s) (s ++ back) h whole in
    let (found, _) = drop_split bytes 2 (length s) s back refl behind in
    let prefix = fits bytes 0 (put_uint 2 (length s)) (s ++ back) whole in
    let body = fits bytes 2 s back behind in
    ground (arith, len, found, prefix, body, length-put_uint 2 (length s))

-- A field that stands at the offset is read, and the offset moves behind it.
get_field_at :
    (bytes : Bytes) (off : ℕ) (s back : Bytes)
    → length s < 2 ^ 16
    → drop off bytes ≡ put_string s ++ back
    → (get_field bytes off ≡ ok (s, off + (2 + length s)))
      × (drop (off + (2 + length s)) bytes ≡ back)
unfolding get_field
get_field_at bytes off s back h e = (
  rw (get_string-put_string (drop off bytes) s back h e),
  (drop_split bytes off (2 + length s) (put_string s) back (sym (length-put_string s)) e).1,
)

get_blob_at :
    (bytes : Bytes) (off : ℕ) (blob back : Bytes)
    → length blob < 2 ^ 32
    → drop off bytes ≡ put_uint 4 (length blob) ++ (blob ++ back)
    → get_blob bytes off ≡ ok blob
unfolding get_blob
get_blob_at bytes off blob back h e =
    let (len, behind) = uint_at bytes off 4 (length blob) (blob ++ back) h e in
    let (found, _) = drop_split bytes (off + 4) (length blob) blob back refl behind in
    let prefix = fits bytes off (put_uint 4 (length blob)) (blob ++ back) e in
    let body = fits bytes (off + 4) blob back behind in
    ground (arith, len, found, prefix, body, length-put_uint 4 (length blob))

deleted_back : (b : Bool) → not (deleted_byte b == 0) ≡ b
unfolding deleted_byte
deleted_back true = refl
deleted_back false = refl

-- The encoding, bracketed to the right as a reader meets its parts.
flat : Span → Bytes → Bytes
unfolding deleted_byte
flat s more =
    put_uint 8 (uint64 s.timestamp)
    ++ (put_uint 4 (uint32 s.tokens_in)
        ++ (put_uint 4 (uint32 s.tokens_out)
            ++ (put_uint 8 s.cost
                ++ (put_uint 8 (uint64 s.latency_ms)
                    ++ ((deleted_byte s.deleted ∷ [])
                        ++ (put_string s.trace_id
                            ++ (put_string s.span_id
                                ++ (put_string s.parent_span_id
                                    ++ (put_string s.agent_id
                                        ++ (put_string s.model
                                            ++ (put_string s.tool_name
                                                ++ (put_string s.team
                                                    ++ (put_string s.status
                                                        ++ (put_uint 4 (length s.payload)
                                                            ++ (s.payload ++ more)))))))))))))))

encode_payload-flat : (s : Span) (more : Bytes) → encode_payload s ++ more ≡ flat s more
unfolding flat encode_payload
encode_payload-flat s more = simp (append_assoc, append-nil)

deserialize_flat :
    (s : Span) (bytes more : Bytes)
    → IsEncodable s
    → bytes ≡ flat s more
    → deserialize_payload bytes ≡ ok (record { version = 0; span = s })
unfolding deserialize_payload flat deleted_byte
deserialize_flat s bytes more v e =
    let (ts, d1) = uint_at bytes 0 8 _ _ (uint64-lt s.timestamp) e in
    let (tin, d2) = uint_at bytes 8 4 _ _ (uint32-lt s.tokens_in) d1 in
    let (tout, d3) = uint_at bytes 12 4 _ _ (uint32-lt s.tokens_out) d2 in
    let (cost, d4) = uint_at bytes 16 8 _ _ v.cost d3 in
    let (lat, d5) = uint_at bytes 24 8 _ _ (uint64-lt s.latency_ms) d4 in
    let del = get_or-drop bytes 32 _ 0 _ d5 in
    let (_, d6) = drop_split bytes 32 1 (deleted_byte s.deleted ∷ []) _ refl d5 in
    let (f1, b1) = get_field_at bytes 33 _ _ v.trace_id d6 in
    let (f2, b2) = get_field_at bytes _ _ _ v.span_id b1 in
    let (f3, b3) = get_field_at bytes _ _ _ v.parent_span_id b2 in
    let (f4, b4) = get_field_at bytes _ _ _ v.agent_id b3 in
    let (f5, b5) = get_field_at bytes _ _ _ v.model b4 in
    let (f6, b6) = get_field_at bytes _ _ _ v.tool_name b5 in
    let (f7, b7) = get_field_at bytes _ _ _ v.team b6 in
    let (f8, b8) = get_field_at bytes _ _ _ v.status b7 in
    let blob = get_blob_at bytes _ _ _ v.payload b8 in
    let long = fits bytes 32 (deleted_byte s.deleted ∷ []) _ d5 in
    rw (
      le→ltb (length bytes) 33 (omega arith),
      f1,
      f2,
      f3,
      f4,
      f5,
      f6,
      f7,
      f8,
      blob,
      ts,
      tin,
      tout,
      cost,
      lat,
      del,
      int64-uint64 s.timestamp v.timestamp,
      int32-uint32 s.tokens_in v.tokens_in,
      int32-uint32 s.tokens_out v.tokens_out,
      int64-uint64 s.latency_ms v.latency_ms,
      deleted_back s.deleted,
    )

pub deserialize-encode :
    (s : Span)
    → IsEncodable s
    → deserialize_payload (encode_payload s) ≡ ok (record { version = 0; span = s })
deserialize-encode s v =
    deserialize_flat s _ [] v (sym (append-nil (encode_payload s)) ∙ encode_payload-flat s [])

-- Decoding the encoding of a span whose fields fit their widths, whatever bytes stand behind it,
-- gives the span.
pub decode-encode :
    (s : Span) (more : Bytes)
    → IsEncodable s
    → decode_span_payload (encode_span_payload s ++ more) ≡ ok s
unfolding decode_span_payload encode_span_payload
decode-encode s more v = rw (deserialize_flat s _ more v (encode_payload-flat s more))
