-- ===== src/Rollup/Snapshot/RoundTrip.antt =====
-- Flush (internal/rollup/writer.go) and ReadSnapshot (internal/rollup/reader.go) together.
use wisp_trace_db.Prelude.{
  ℕ, ◌+◌, ◌-◌, ◌*◌, ◌^◌, ◌<◌, ◌==◌, ◌≡◌, refl, sym, ap, ◌∙◌, true, [], ◌∷◌, ◌++◌, append_assoc,
  append-nil, length, length-append, take, drop, take-append, drop-append, drop_split, le→ltb,
  ==_self, All, ok, err, arith, Option, Bool-cases, inl, inr, if◌then◌else◌,
}
use wisp_trace_db.Prelude.Int.{ℤ, pos, eqb_ℤ, uint64, int64, uint64-lt, int64-uint64, IsInt64}
use wisp_trace_db.Prelude.Bytes.{Bytes, put_uint, uint, length-put_uint, uint_at}
use wisp_trace_db.Crc.{checksum_ieee}
use wisp_trace_db.Crc.Framing.{framing, length-framing, framing_fields}
use wisp_trace_db.Rollup.{BucketKey, Value, Buckets, put, new_store}
use wisp_trace_db.Rollup.Snapshot.{
  encode_record, decode_record, write_rollup_record, write_rollup_records, write_rollup_header,
  read_full, put_int64, read_rollup_record, read_records, read_snapshot, flush, snapshot_of,
  rollup_magic, current_rollup_version, window_mismatch, min_start, max_start,
}

-- The values fit the fields of a record.
pub record IsMetric (m : BucketKey × Value) : Type 0 where
  pub window_start : IsInt64 m.0.window_start
  pub model : length m.0.model < 2 ^ 16
  pub count : IsInt64 m.1.count
  pub sum_cost : IsInt64 m.1.sum_cost
  pub sum_tokens_in : IsInt64 m.1.sum_tokens_in
  pub sum_tokens_out : IsInt64 m.1.sum_tokens_out
  pub sum_latency_ms : IsInt64 m.1.sum_latency_ms
  pub min_latency_ms : IsInt64 m.1.min_latency_ms
  pub max_latency_ms : IsInt64 m.1.max_latency_ms

length-encode_record : (m : BucketKey × Value) → length (encode_record m) ≡ 66 + length m.0.model
unfolding encode_record
length-encode_record (key, v) = simp (length-append, length-put_uint) (omega arith)

-- An int64 that stands at the offset is read there.
int64_at :
    (bytes : Bytes) (off : ℕ) (a : ℤ) (back : Bytes)
    → IsInt64 a
    → drop off bytes ≡ put_int64 a ++ back
    → (int64 (uint (take 8 (drop off bytes))) ≡ a) × (drop (off + 8) bytes ≡ back)
int64_at bytes off a back h e =
    let (found, behind) = uint_at bytes off 8 (uint64 a) back (uint64-lt a) e in
    (ap int64 found ∙ int64-uint64 a h, behind)

decode_record-encode_record :
    (m : BucketKey × Value) → IsMetric m → decode_record (encode_record m) ≡ ok m
unfolding decode_record encode_record
decode_record-encode_record (key, v) h =
    let bytes = encode_record (key, v) in
    let size = length-encode_record (key, v) in
    let (ws, d1) = int64_at bytes 0 key.window_start _ h.window_start refl in
    let (ml, d2) = uint_at bytes 8 2 (length key.model) _ h.model d1 in
    let (mo, d3) = drop_split bytes 10 (length key.model) key.model _ refl d2 in
    let (c, d4) = int64_at bytes _ v.count _ h.count d3 in
    let (sc, d5) = int64_at bytes _ v.sum_cost _ h.sum_cost d4 in
    let (ti, d6) = int64_at bytes _ v.sum_tokens_in _ h.sum_tokens_in d5 in
    let (to, d7) = int64_at bytes _ v.sum_tokens_out _ h.sum_tokens_out d6 in
    let (la, d8) = int64_at bytes _ v.sum_latency_ms _ h.sum_latency_ms d7 in
    let (mi, d9) = int64_at bytes _ v.min_latency_ms _ h.min_latency_ms d8 in
    let last = d9 ∙ sym (append-nil (put_int64 v.max_latency_ms)) in
    let (ma, _) = int64_at bytes _ v.max_latency_ms [] h.max_latency_ms last in
    rw
      (
        le→ltb (length bytes) 10 (omega (arith, size)),
        ml,
        le→ltb (length bytes - 10) (length key.model + 7 * 8) (omega (arith, size)),
        ws,
        mo,
        c,
        sc,
        ti,
        to,
        la,
        mi,
        ma,
      )
      refl

read_full-front :
    (n : ℕ) (front back : Bytes) → n ≡ length front → read_full n (front ++ back) ≡ ok (front, back)
unfolding read_full
read_full-front n front back e = rw (
  le→ltb (length (front ++ back)) n (omega (arith, length-append front back)),
  take-append n front back e,
  drop-append n front back e,
)

read_rollup_record-write :
    (m : BucketKey × Value) (rest : Bytes)
    → IsMetric m
    → read_rollup_record (write_rollup_record m ++ rest) ≡ ok (m, rest)
unfolding read_rollup_record write_rollup_record
read_rollup_record-write m rest h =
    let payload = encode_record m in
    let small : length payload < 2 ^ 32 = omega (arith, length-encode_record m, h.model) in
    let (size, sum) = framing_fields payload small in
    let flat : write_rollup_record m ++ rest ≡ framing payload ++ (payload ++ rest) =
      simp append_assoc in
    rw
      (
        flat,
        read_full-front 8 (framing payload) (payload ++ rest) (sym (length-framing payload)),
        size,
        sum,
        read_full-front (length payload) payload rest refl,
        ==_self (checksum_ieee payload),
        decode_record-encode_record m h,
      )
      refl

-- The buckets put into a map, one after the other.
unfoldable pub put_all : Buckets → Buckets → Buckets
put_all [] bs = bs
put_all (m ∷ ms) bs = put_all ms (put m.0 m.1 bs)

read_records-write :
    (ms bs : Buckets)
    → All IsMetric ms
    → read_records (length ms) (write_rollup_records ms) bs ≡ ok (put_all ms bs)
unfolding read_records write_rollup_records put_all
read_records-write [] bs h = refl
read_records-write (m ∷ ms) bs h =
    rw (read_records, read_rollup_record-write m (write_rollup_records ms) h.0)
      (read_records-write ms _ h.1)

length-write_rollup_header :
    (w : ℤ) (n : ℕ) (lo hi : ℤ) → length (write_rollup_header w n lo hi) ≡ 38
unfolding write_rollup_header
length-write_rollup_header w n lo hi = simp (length-append, length-put_uint)

eqb_pos : (a b : ℕ) → eqb_ℤ (pos a) (pos b) ≡ (a == b)
eqb_pos a b = ground arith

-- Reading what was flushed, of metrics whose fields fit their widths, with the window size that it
-- was flushed for, gives a store that holds the metrics; with another window size it is refused.
pub read_snapshot-flush :
    (window_size other : ℕ) (m : BucketKey × Value) (ms : Buckets) (file : Option Bytes)
    → window_size < 2 ^ 63
    → length (m ∷ ms) < 2 ^ 63
    → All IsMetric (m ∷ ms)
    → read_snapshot (flush true (pos window_size) (m ∷ ms) file).0 other ≡ (
        if window_size == other
        then ok (record { window_size = other; buckets = put_all (m ∷ ms) [] })
        else err window_mismatch)
unfolding read_snapshot flush snapshot_of write_rollup_header new_store
read_snapshot-flush window_size other m ms file w n h =
    let start = m.0.window_start in
    let lo = min_start start ms in
    let hi = max_start start ms in
    let count = length (m ∷ ms) in
    let buf = write_rollup_header (pos window_size) count lo hi in
    let behind =
      put_uint 2 current_rollup_version
      ++ (put_int64 (pos window_size)
          ++ (put_int64 (pos count) ++ (put_int64 lo ++ put_int64 hi))) in
    let (mg, d1) = uint_at buf 0 4 rollup_magic behind (omega arith) refl in
    let (vs, d2) = uint_at buf 4 2 current_rollup_version _ (omega arith) d1 in
    let (ws, d3) = int64_at buf 6 (pos window_size) _ (w, omega arith) d2 in
    let (rc, _) = int64_at buf 14 (pos count) _ (n, omega arith) d3 in
    let whole =
      read_full-front 38 buf (write_rollup_records (m ∷ ms))
        (sym (length-write_rollup_header _ _ lo hi)) in
    elim (Bool-cases (window_size == other)) [
      | inl same ↦
          rw
            (
              whole,
              mg,
              vs,
              ws,
              eqb_pos window_size other,
              same,
              rc,
              read_records-write (m ∷ ms) [] h,
            )
            refl
      | inr not_same ↦ rw (whole, mg, vs, ws, eqb_pos window_size other, not_same) refl
    ]
