-- ===== src/Wal/Record.antt =====
-- The framed records of internal/wal/wal.go, and replaySegment, which reads a file of them.
pub mod Reading
pub mod Replay
use wisp_trace_db.Prelude.{
  ℕ, zero, suc, ◌+◌, ◌==◌, not, Bool, true, false, Option, none, some, List, [], ◌∷◌, ◌++◌, length,
  take, drop, get_or, ltb, if◌then◌else◌, Result, ok, err, ◌>>=◌,
}
use wisp_trace_db.Prelude.Bytes.{Bytes, put_uint, uint}
use wisp_trace_db.Crc.{checksum_ieee}
use wisp_trace_db.Wal.Span.{
  WalRecord, WalError, eof, unexpected_eof, record_too_large, bad_version, checksum_mismatch, stuck,
  current_wal_version, record_header_size, max_record_size,
}
use wisp_trace_db.Wal.Codec.{encode_payload, payload_encoded_size, deserialize_payload}

unfoldable pub put_record_header : ℕ → Bytes → Bytes
put_record_header version payload =
    (version ∷ []) ++ (put_uint 4 (checksum_ieee payload) ++ put_uint 4 (length payload))

unfoldable pub record_version : WalRecord → ℕ
record_version r = if r.version == 0 then current_wal_version else r.version

-- The buffer that AppendRecordWithSeg frames before it takes the lock.
unfoldable pub frame_record : WalRecord → Bytes
unfolding put_record_header record_version
frame_record r =
    let payload = encode_payload r.span in put_record_header (record_version r) payload ++ payload

unfoldable pub record_size : WalRecord → ℕ
record_size r = record_header_size + payload_encoded_size r.span

-- One round of replaySegment's loop over what is left of the file. `none` is a `break`: the end of
-- the file, or a torn tail where that is tolerated.
unfoldable pub read_record : Bool → Bytes → Result WalError (Option (WalRecord × Bytes))
read_record tolerate [] = ok none
read_record tolerate (b ∷ bs) =
    let bytes = b ∷ bs in
    if ltb (length bytes) record_header_size
    then (if tolerate then ok none else err unexpected_eof)
    else let version = get_or bytes 0 0 in
      let checksum = uint (take 4 (drop 1 bytes)) in
      let size = uint (take 4 (drop 5 bytes)) in
      let body = drop record_header_size bytes in
      if ltb max_record_size size
      then err record_too_large
      else if not (version == current_wal_version)
      then err bad_version
      else if ltb (length body) size
      then (if tolerate then ok none else err (if length body == 0 then eof else unexpected_eof))
      else if not (checksum_ieee (take size body) == checksum)
      then err checksum_mismatch
      else do
        r ← deserialize_payload (take size body)
        ok (some (record r { version = version }, drop size body))

unfoldable pub replay_loop : ℕ → Bool → Bytes → List WalRecord → Result WalError (List WalRecord)
replay_loop zero tolerate bytes records = err stuck
replay_loop (suc fuel) tolerate bytes records = elim (read_record tolerate bytes) [
  | err e ↦ err e
  | ok none ↦ ok records
  | ok (some (r, rest)) ↦ replay_loop fuel tolerate rest (records ++ r ∷ [])
]

-- `none` is a file that does not exist. Every round but the last takes at least a header.
unfoldable pub replay_segment : Option Bytes → Bool → Result WalError (List WalRecord)
replay_segment none tolerate = ok []
replay_segment (some bytes) tolerate = replay_loop (suc (length bytes)) tolerate bytes []
