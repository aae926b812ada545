-- ===== src/Wal/Codec.antt =====
-- The payload encoding of internal/wal/wal.go. A Go function that fills a buffer is one that
-- returns the bytes it writes; an offset into the input is kept as the code keeps it.
pub mod Sizes
pub mod RoundTrip
pub mod Decoding
use wisp_trace_db.Prelude.{
  ℕ, ◌+◌, ◌-◌, ◌==◌, not, Bool, true, false, List, [], ◌∷◌, ◌++◌, length, take, drop, get_or, ltb,
  if◌then◌else◌, Result, ok, err, ◌>>=◌,
}
use wisp_trace_db.Prelude.Int.{uint64, int64, uint32, int32}
use wisp_trace_db.Prelude.Bytes.{Bytes, put_uint, uint}
use wisp_trace_db.Wal.Span.{
  Span, WalRecord, WalError, short_payload, short_string_length, short_string, short_blob_length,
  short_blob, fixed_payload_header_size, str_len_size, blob_len_size,
}

-- The eight string fields, in the order in which they are written.
unfoldable pub string_fields : Span → List Bytes
string_fields s =
    s.trace_id ∷ s.span_id ∷ s.parent_span_id ∷ s.agent_id ∷ s.model ∷ s.tool_name ∷ s.team
    ∷ s.status ∷ []

strings_size : List Bytes → ℕ
strings_size [] = 0
strings_size (f ∷ fs) = str_len_size + length f + strings_size fs

unfoldable pub payload_encoded_size : Span → ℕ
unfolding strings_size string_fields
payload_encoded_size s =
    fixed_payload_header_size + strings_size (string_fields s) + (blob_len_size + length s.payload)

-- The length prefix keeps the low 16 bits of the length; the string is copied whole.
unfoldable pub put_string : Bytes → Bytes
put_string s = put_uint 2 (length s) ++ s

put_strings : List Bytes → Bytes
put_strings [] = []
put_strings (f ∷ fs) = put_string f ++ put_strings fs

deleted_byte : Bool → ℕ
deleted_byte true = 1
deleted_byte false = 0

unfoldable pub encode_payload : Span → Bytes
unfolding put_strings string_fields deleted_byte
encode_payload s =
    put_uint 8 (uint64 s.timestamp)
    ++ (put_uint 4 (uint32 s.tokens_in)
        ++ (put_uint 4 (uint32 s.tokens_out)
            ++ (put_uint 8 s.cost
                ++ (put_uint 8 (uint64 s.latency_ms)
                    ++ ((deleted_byte s.deleted ∷ [])
                        ++ (put_strings (string_fields s)
                            ++ (put_uint 4 (length s.payload) ++ s.payload)))))))

-- A string and the number of bytes that it took.
unfoldable pub get_string : Bytes → Result WalError (Bytes × ℕ)
get_string bytes =
    if ltb (length bytes) str_len_size
    then err short_string_length
    else let str_len = uint (take str_len_size bytes) in
      let end = str_len_size + str_len in
      if ltb (length bytes) end
      then err short_string
      else ok (take str_len (drop str_len_size bytes), end)

-- One round of the loop over the string fields: the field, and the offset behind it.
unfoldable pub get_field : Bytes → ℕ → Result WalError (Bytes × ℕ)
get_field bytes off = do p ← get_string (drop off bytes); ok (p.0, off + p.1)

unfoldable pub get_blob : Bytes → ℕ → Result WalError Bytes
get_blob bytes off =
    if ltb (length bytes - off) blob_len_size
    then err short_blob_length
    else let blob_len = uint (take blob_len_size (drop off bytes)) in
      let off' = off + blob_len_size in
      if ltb (length bytes) (off' + blob_len)
      then err short_blob
      else ok (take blob_len (drop off' bytes))

-- The metadata of the record is left at its zero value.
unfoldable pub deserialize_payload : Bytes → Result WalError WalRecord
deserialize_payload bytes =
    if ltb (length bytes) fixed_payload_header_size then err short_payload else do
      trace_id ← get_field bytes fixed_payload_header_size
      span_id ← get_field bytes trace_id.1
      parent_span_id ← get_field bytes span_id.1
      agent_id ← get_field bytes parent_span_id.1
      model ← get_field bytes agent_id.1
      tool_name ← get_field bytes model.1
      team ← get_field bytes tool_name.1
      status ← get_field bytes team.1
      payload ← get_blob bytes status.1
      ok (record {
        version = 0;
        span = record {
          trace_id = trace_id.0;
          span_id = span_id.0;
          parent_span_id = parent_span_id.0;
          timestamp = int64 (uint (take 8 (drop 0 bytes)));
          agent_id = agent_id.0;
          model = model.0;
          tool_name = tool_name.0;
          team = team.0;
          status = status.0;
          tokens_in = int32 (uint (take 4 (drop 8 bytes)));
          tokens_out = int32 (uint (take 4 (drop 12 bytes)));
          cost = uint (take 8 (drop 16 bytes));
          latency_ms = int64 (uint (take 8 (drop 24 bytes)));
          payload = payload;
          deleted = not (get_or bytes 32 0 == 0);
        };
      })

unfoldable pub encode_span_payload : Span → Bytes
unfolding encode_payload
encode_span_payload s = encode_payload s

unfoldable pub decode_span_payload : Bytes → Result WalError Span
unfolding deserialize_payload
decode_span_payload bytes = do record' ← deserialize_payload bytes; ok record'.span
