-- ===== src/Rollup/Snapshot.antt =====
-- internal/rollup/writer.go and reader.go: a store's buckets in a file.
pub mod RoundTrip
use wisp_trace_db.Prelude.{
  ℕ, zero, suc, ◌+◌, ◌-◌, ◌*◌, ◌==◌, Bool, true, false, not, Option, none, some, List, [], ◌∷◌,
  ◌++◌, length, take, drop, ltb, if◌then◌else◌, Result, ok, err, ◌>>=◌,
}
use wisp_trace_db.Prelude.Int.{ℤ, pos, pos_part, ltb_ℤ, eqb_ℤ, uint64, int64}
use wisp_trace_db.Prelude.Bytes.{Bytes, put_uint, uint}
use wisp_trace_db.Crc.{checksum_ieee}
use wisp_trace_db.Rollup.{BucketKey, Value, Store, Buckets, put, new_store}

-- AggregatedMetrics is the pair of a bucket's key and its value.
pub data SnapshotError : Type 0 where
  no_metrics io_error no_file : SnapshotError
  eof unexpected_eof bad_magic bad_version window_mismatch : SnapshotError
  checksum_mismatch too_short truncated : SnapshotError

abbrev pub rollup_magic : ℕ
rollup_magic = 0x574C4F52

abbrev pub current_rollup_version : ℕ
current_rollup_version = 1

abbrev pub rollup_header_size : ℕ
rollup_header_size = 38

abbrev pub rollup_framing_size : ℕ
rollup_framing_size = 8

abbrev pub put_int64 : ℤ → Bytes
put_int64 a = put_uint 8 (uint64 a)

unfoldable pub write_rollup_header : ℤ → ℕ → ℤ → ℤ → Bytes
write_rollup_header window_size record_count min_window_start max_window_start =
    put_uint 4 rollup_magic
    ++ (put_uint 2 current_rollup_version
        ++ (put_int64 window_size
            ++ (put_int64 (pos record_count)
                ++ (put_int64 min_window_start ++ put_int64 max_window_start))))

unfoldable pub encode_record : BucketKey × Value → Bytes
encode_record (key, v) =
    put_int64 key.window_start
    ++ (put_uint 2 (length key.model)
        ++ (key.model
            ++ (put_int64 v.count
                ++ (put_int64 v.sum_cost
                    ++ (put_int64 v.sum_tokens_in
                        ++ (put_int64 v.sum_tokens_out
                            ++ (put_int64 v.sum_latency_ms
                                ++ (put_int64 v.min_latency_ms ++ put_int64 v.max_latency_ms))))))))

unfoldable pub write_rollup_record : BucketKey × Value → Bytes
write_rollup_record agg =
    let payload = encode_record agg in
    put_uint 4 (length payload) ++ (put_uint 4 (checksum_ieee payload) ++ payload)

unfoldable pub write_rollup_records : Buckets → Bytes
write_rollup_records [] = []
write_rollup_records (m ∷ ms) = write_rollup_record m ++ write_rollup_records ms

-- The zone metadata: the loops of Flush over the metrics behind the first.
unfoldable pub min_start : ℤ → Buckets → ℤ
min_start lo [] = lo
min_start lo (m ∷ ms) = min_start (if ltb_ℤ m.0.window_start lo then m.0.window_start else lo) ms

unfoldable pub max_start : ℤ → Buckets → ℤ
max_start hi [] = hi
max_start hi (m ∷ ms) = max_start (if ltb_ℤ hi m.0.window_start then m.0.window_start else hi) ms

unfoldable pub snapshot_of : ℤ → BucketKey × Value → Buckets → Bytes
snapshot_of window_size m ms =
    let start = m.0.window_start in
    write_rollup_header window_size (length (m ∷ ms)) (min_start start ms) (max_start start ms)
    ++ write_rollup_records (m ∷ ms)

-- Flush, on the file of the window. The bytes are written to another file, which is renamed at the
-- end: where a call of the operating system fails (`io_ok` is false) the file is as it was.
unfoldable pub flush : Bool → ℤ → Buckets → Option Bytes → Option Bytes × Result SnapshotError Unit
unfolding snapshot_of
flush io_ok window_size [] file = (file, err no_metrics)
flush true window_size (m ∷ ms) file = (some (snapshot_of window_size m ms), ok tt)
flush false window_size (m ∷ ms) file = (file, err io_error)

abbrev get_int64 : ℕ → Bytes → ℤ
get_int64 off payload = int64 (uint (take 8 (drop off payload)))

unfoldable pub decode_record : Bytes → Result SnapshotError (BucketKey × Value)
decode_record payload =
    if ltb (length payload) 10
    then err too_short
    else let model_len = uint (take 2 (drop 8 payload)) in
      if ltb (length payload - 10) (model_len + 7 * 8)
      then err truncated
      else let off = 10 + model_len in
        ok (
          record { window_start = get_int64 0 payload; model = take model_len (drop 10 payload) },
          record {
            count = get_int64 off payload;
            sum_cost = get_int64 (off + 8) payload;
            sum_tokens_in = get_int64 (off + 8 + 8) payload;
            sum_tokens_out = get_int64 (off + 8 + 8 + 8) payload;
            sum_latency_ms = get_int64 (off + 8 + 8 + 8 + 8) payload;
            min_latency_ms = get_int64 (off + 8 + 8 + 8 + 8 + 8) payload;
            max_latency_ms = get_int64 (off + 8 + 8 + 8 + 8 + 8 + 8) payload;
          },
        )

-- io.ReadFull of `n` bytes from what is left: they, and what is left then.
unfoldable pub read_full : ℕ → Bytes → Result SnapshotError (Bytes × Bytes)
read_full n bytes =
    if ltb (length bytes) n
    then err (if length bytes == 0 then eof else unexpected_eof)
    else ok (take n bytes, drop n bytes)

-- One round of ReadSnapshot's loop: the record, and what is left of the file behind it.
unfoldable pub read_rollup_record : Bytes → Result SnapshotError ((BucketKey × Value) × Bytes)
unfolding read_full decode_record
read_rollup_record bytes = do
  framing ← read_full rollup_framing_size bytes
  let len = uint (take 4 (drop 0 framing.0))
  let checksum = uint (take 4 (drop 4 framing.0))
  payload ← read_full len framing.1
  if not (checksum_ieee payload.0 == checksum)
      then err checksum_mismatch
      else do agg ← decode_record payload.0; ok (agg, payload.1)

-- The loop, with the rounds left. A record with a key that was read before replaces its value.
unfoldable pub read_records : ℕ → Bytes → Buckets → Result SnapshotError Buckets
read_records zero bytes buckets = ok buckets
read_records (suc n) bytes buckets = elim (read_rollup_record bytes) [
  | err e ↦ err e
  | ok (agg, rest) ↦ read_records n rest (put agg.0 agg.1 buckets)
]

unfoldable pub read_snapshot : Option Bytes → ℕ → Result SnapshotError Store
unfolding read_records
read_snapshot none window_size = err no_file
read_snapshot (some file) window_size = do
  p ← read_full rollup_header_size file
  let buf = p.0
  if not (uint (take 4 (drop 0 buf)) == rollup_magic)
      then err bad_magic
      else if not (uint (take 2 (drop 4 buf)) == current_rollup_version)
      then err bad_version
      else if not (eqb_ℤ (int64 (uint (take 8 (drop 6 buf)))) (pos window_size))
      then err window_mismatch
      else do
        -- a negative count ends the loop at once
        buckets ←
            read_records (pos_part (int64 (uint (take 8 (drop 14 buf))))) p.1
              (new_store window_size).buckets
        ok (record { window_size = window_size; buckets = buckets })
