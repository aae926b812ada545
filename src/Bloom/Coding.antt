-- ===== src/Bloom/Coding.antt =====
-- Encode and Decode of internal/bloom/bloom.go together.
use wisp_trace_db.Prelude.{
  ◌^◌, ◌<◌, ◌≡◌, refl, ◌++◌, append_assoc, length, length-append, drop_split, fits, ok, arith,
}
use wisp_trace_db.Prelude.Bytes.{Bytes, put_uint, length-put_uint, uint_at}
use wisp_trace_db.Bloom.{Filter, bytes_for, encode, encoded_size, decode}
use wisp_trace_db.Bloom.Members.{IsWellFormed}

-- `EncodedSize` is the exact length of the encoding.
pub length-encode : (f : Filter) → length (encode f) ≡ encoded_size f
unfolding encode encoded_size
length-encode f = simp (length-append, length-put_uint) (omega arith)

decode_flat :
    (f : Filter) (bytes more : Bytes)
    → IsWellFormed f
    → f.k < 2 ^ 32
    → bytes ≡ put_uint 4 f.m ++ (put_uint 4 f.k ++ (f.bits ++ more))
    → decode bytes ≡ ok (f, encoded_size f)
unfolding decode encoded_size
decode_flat f bytes more v h e =
    let small : f.m < 2 ^ 32 = omega (arith, v.no_wrap) in
    let (m, d) = uint_at bytes 0 4 f.m _ small e in
    let (k, d') = uint_at bytes 4 4 f.k _ h d in
    let (found, _) = drop_split bytes 8 (length f.bits) f.bits more refl d' in
    let head = fits bytes 0 (put_uint 4 f.m) _ e in
    let body = fits bytes 8 f.bits more d' in
    let next = fits bytes 4 (put_uint 4 f.k) _ d in
    let size : bytes_for f.m ≡ length f.bits = omega (arith, v.no_wrap, v.sized) in
    ground (arith, m, k, found, body, next, length-put_uint 4 f.k, size)

-- Decoding the encoding of a well-formed filter with less than 2^32 hashes, whatever stands behind
-- it, gives the filter and the number of bytes that it took.
pub decode-encode_filter :
    (f : Filter) (more : Bytes)
    → IsWellFormed f
    → f.k < 2 ^ 32
    → decode (encode f ++ more) ≡ ok (f, encoded_size f)
unfolding encode
decode-encode_filter f more v h = decode_flat f _ more v h (simp append_assoc)
