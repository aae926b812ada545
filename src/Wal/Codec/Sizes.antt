-- ===== src/Wal/Codec/Sizes.antt =====
-- payloadEncodedSize of internal/wal/wal.go against the encoding.
use wisp_trace_db.Prelude.{◌≡◌, ◌+◌, List, [], ◌∷◌, length, length-append, arith}
use wisp_trace_db.Prelude.Bytes.{Bytes, length-put_uint}
use wisp_trace_db.Wal.Span.{Span}
use wisp_trace_db.Wal.Codec.{
  payload_encoded_size, strings_size, put_string, put_strings, encode_payload,
}

pub length-put_string : (s : Bytes) → length (put_string s) ≡ 2 + length s
unfolding put_string
length-put_string s = rw (length-append, length-put_uint)

length-put_strings : (fs : List Bytes) → length (put_strings fs) ≡ strings_size fs
unfolding put_strings strings_size
length-put_strings [] = omega arith
length-put_strings (f ∷ fs) =
    rw (length-append, length-put_string f) (omega (arith, length-put_strings fs))

-- `payloadEncodedSize` is the exact number of bytes that `encodePayload` writes.
pub length-encode_payload : (s : Span) → length (encode_payload s) ≡ payload_encoded_size s
unfolding encode_payload payload_encoded_size put_string
length-encode_payload s = simp (length-append, length-put_uint) (omega arith)
