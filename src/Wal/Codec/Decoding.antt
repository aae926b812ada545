-- ===== src/Wal/Codec/Decoding.antt =====
-- What deserializePayload of internal/wal/wal.go can return.
use wisp_trace_db.Prelude.{
  ℕ, ◌^◌, ◌≤◌, ◌≡◌, ◌≢◌, List, [], ◌∷◌, length, take, drop, length-take, ok, err, >>=-eq-ok, arith,
  sym, ap, ◌%◌, ◌++◌, append_assoc, length-append, drop-append, take-append, inl, inr, Result-cases,
}
use wisp_trace_db.Prelude.Bytes.{Bytes, uint, put_uint, length-put_uint}
use wisp_trace_db.Prelude.Int.{uint64, uint32}
use wisp_trace_db.Wal.Span.{Span, WalRecord, WalError, stuck}
use wisp_trace_db.Wal.Codec.{
  get_string, put_string, encode_payload, deleted_byte, put_strings, get_field, get_blob,
  deserialize_payload, encode_span_payload, decode_span_payload,
}

get_field-ne-stuck : (bytes : Bytes) (off : ℕ) → get_field bytes off ≢ err stuck
unfolding get_field get_string
get_field-ne-stuck bytes off e = ground arith

get_blob-ne-stuck : (bytes : Bytes) (off : ℕ) → get_blob bytes off ≢ err stuck
unfolding get_blob
get_blob-ne-stuck bytes off e = ground arith

pub deserialize-ne-stuck : (bytes : Bytes) → deserialize_payload bytes ≢ err stuck
unfolding deserialize_payload
deserialize-ne-stuck bytes e = grind (arith, get_field-ne-stuck, get_blob-ne-stuck)

deserialize_first :
    (bytes t : Bytes) (n : ℕ) {r : WalRecord}
    → get_field bytes 33 ≡ ok (t, n)
    → deserialize_payload bytes ≡ ok r
    → r.span.trace_id ≡ t
unfolding deserialize_payload
deserialize_first bytes t n f e = ground arith

deserialize_first_err :
    (bytes : Bytes) {x : WalError} {r : WalRecord}
    → get_field bytes 33 ≡ err x
    → deserialize_payload bytes ≢ ok r
unfolding deserialize_payload
deserialize_first_err bytes f e = ground arith

two_bytes : (x : ℕ) → uint (put_uint 2 x) ≡ x % 2 ^ 16
unfolding uint put_uint
two_bytes x = omega arith

-- A string is no longer than its two length bytes say.
get_field_bound :
    (bytes t : Bytes) (off n : ℕ)
    → get_field bytes off ≡ ok (t, n)
    → length t ≤ uint (take 2 (drop off bytes))
unfolding get_field get_string
get_field_bound bytes t off n e =
    let found = drop off bytes in ground (arith, length-take (uint (take 2 found)) (drop 2 found))

trace_id_prefix : (s : Span) → take 2 (drop 33 (encode_payload s)) ≡ put_uint 2 (length s.trace_id)
unfolding encode_payload put_string deleted_byte
trace_id_prefix s =
    let front : Bytes =
      put_uint 8 (uint64 s.timestamp)
      ++ (put_uint 4 (uint32 s.tokens_in)
          ++ (put_uint 4 (uint32 s.tokens_out)
              ++ (put_uint 8 s.cost
                  ++ (put_uint 8 (uint64 s.latency_ms) ++ (deleted_byte s.deleted ∷ []))))) in
    let e : 33 ≡ length front = simp (length-append, length-put_uint) in
    let others : List Bytes =
      s.span_id ∷ s.parent_span_id ∷ s.agent_id ∷ s.model ∷ s.tool_name ∷ s.team ∷ s.status ∷ [] in
    let rest = put_strings others ++ (put_uint 4 (length s.payload) ++ s.payload) in
    let split : encode_payload s
        ≡ front ++ (put_uint 2 (length s.trace_id) ++ (s.trace_id ++ rest)) =
      simp append_assoc in
    rw (split, drop-append 33 front _ e)
      (take-append 2 _ _ (sym (length-put_uint 2 (length s.trace_id))))

-- A span with a trace id that is longer than the two length bytes can say is not read back: whatever
-- decoding its encoding returns, it is not the span.
pub decode-encode_long :
    (s : Span) → 2 ^ 16 ≤ length s.trace_id → decode_span_payload (encode_span_payload s) ≢ ok s
unfolding decode_span_payload encode_span_payload
decode-encode_long s h e =
    let (r, decoded, same) = >>=-eq-ok (deserialize_payload (encode_payload s)) _ e in
    elim (Result-cases (get_field (encode_payload s) 33)) [
      | inl ((t, n), f) ↦
          let bound = get_field_bound (encode_payload s) t 33 n f in
          let whole : r.span ≡ s = cc same in
          let kept : length r.span.trace_id ≡ length s.trace_id =
            ap (λ (q : Span). length q.trace_id) whole in
          let first = deserialize_first (encode_payload s) t n f decoded in
          absurd (
            omega (
              arith,
              bound,
              ap length first,
              kept,
              ap uint (trace_id_prefix s),
              two_bytes (length s.trace_id),
            ))
      | inr (x, f) ↦ deserialize_first_err (encode_payload s) f decoded
    ]
