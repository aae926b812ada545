-- ===== src/Wal/Record/Reading.antt =====
-- One round of replaySegment (internal/wal/wal.go) on whole and on torn records.
use wisp_trace_db.Prelude.{
  ℕ, ◌+◌, ◌^◌, ◌<◌, ◌≤◌, ◌==◌, ◌≡◌, ◌≢◌, refl, ap, sym, ◌∙◌, [], ◌∷◌, ◌++◌, Bool, true, some, none,
  append_assoc, append-nil, length, take, drop, length-append, length-drop, drop_split, drop-append,
  slice-append, ok, err, arith, if◌then◌else◌,
}
use wisp_trace_db.Prelude.Bytes.{Bytes, put_uint, uint, length-put_uint, uint_at}
use wisp_trace_db.Crc.{checksum_ieee, checksum_ieee-lt}
use wisp_trace_db.Wal.Span.{WalRecord, WalError, IsEncodable, eof, unexpected_eof, max_record_size}
use wisp_trace_db.Wal.Codec.{encode_payload, payload_encoded_size}
use wisp_trace_db.Wal.Codec.Sizes.{length-encode_payload}
use wisp_trace_db.Wal.Codec.RoundTrip.{deserialize-encode}
use wisp_trace_db.Wal.Record.{
  put_record_header, record_version, frame_record, record_size, read_record,
}

-- The records that replay accepts: the version is the current one, or unset, and the payload is no
-- larger than replay allows. (AppendRecord itself checks neither.)
pub record IsStorable (r : WalRecord) : Type 0 where
  pub encodable : IsEncodable r.span
  pub version : record_version r ≡ 1
  pub size : payload_encoded_size r.span ≤ max_record_size

-- The record as replay returns it.
abbrev pub stored : WalRecord → WalRecord
stored r = record r { version = 1 }

pub length-frame_record : (r : WalRecord) → length (frame_record r) ≡ record_size r
unfolding frame_record put_record_header record_size
length-frame_record r =
    simp (length-append, length-put_uint) (omega (arith, length-encode_payload r.span))

length-frame : (r : WalRecord) → length (frame_record r) ≡ 9 + length (encode_payload r.span)
unfolding frame_record put_record_header
length-frame r = simp (length-append, length-put_uint) (omega arith)

-- What the fields of the header are, in a file that begins with the record.
header_at :
    (r : WalRecord) (bytes rest : Bytes)
    → IsStorable r
    → bytes ≡ frame_record r ++ rest
    → (uint (take 4 (drop 1 bytes)) ≡ checksum_ieee (encode_payload r.span))
      × (uint (take 4 (drop 5 bytes)) ≡ length (encode_payload r.span))
      × (drop 9 bytes ≡ encode_payload r.span ++ rest)
unfolding frame_record put_record_header
header_at r bytes rest v e =
    let payload = encode_payload r.span in
    let flat : drop 0 bytes
        ≡ (record_version r ∷ [])
          ++ (put_uint 4 (checksum_ieee payload)
              ++ (put_uint 4 (length payload) ++ (payload ++ rest))) =
      e ∙ simp append_assoc in
    let (_, d) = drop_split bytes 0 1 (record_version r ∷ []) _ refl flat in
    let (sum, d') = uint_at bytes 1 4 _ _ (checksum_ieee-lt payload) d in
    let small : length payload < 2 ^ 32 = omega (arith, length-encode_payload r.span, v.size) in
    let (size, d'') = uint_at bytes 5 4 _ _ small d' in (sum, size, d'')

nonempty : (r : WalRecord) (rest : Bytes) → [] ≢ frame_record r ++ rest
unfolding frame_record put_record_header
nonempty r rest e = cc

first_byte :
    (r : WalRecord) (b : ℕ) (bs rest : Bytes)
    → b ∷ bs ≡ frame_record r ++ rest
    → b ≡ record_version r
unfolding frame_record put_record_header
first_byte r b bs rest e = cc

-- A whole record at the front of the file is read, and the round goes on behind it.
pub read_record-frame_record :
    (tolerate : Bool) (r : WalRecord) (bytes rest : Bytes)
    → IsStorable r
    → bytes ≡ frame_record r ++ rest
    → read_record tolerate bytes ≡ ok (some (stored r, rest))
unfolding read_record
read_record-frame_record tolerate r [] rest v e = absurd (nonempty r rest e)
read_record-frame_record tolerate r (b ∷ bs) rest v e =
    let payload = encode_payload r.span in
    let bytes = b ∷ bs in
    let (sum, size, body) = header_at r bytes rest v e in
    let (whole, _) = drop_split bytes 9 (length payload) payload rest refl body in
    let behind : drop (length payload) (drop 9 bytes) ≡ rest =
      ap (drop (length payload)) body ∙ drop-append (length payload) payload rest refl in
    let decoded = deserialize-encode r.span v.encodable in
    let long : length bytes ≡ 9 + length payload + length rest =
      ap length e ∙ omega (arith, length-append (frame_record r) rest, length-frame r) in
    let small : length payload ≤ max_record_size =
      omega (arith, length-encode_payload r.span, v.size) in
    ground (
      arith,
      first_byte r b bs rest e,
      v.version,
      sum,
      size,
      whole,
      behind,
      decoded,
      long,
      small,
      length-drop 9 bytes,
    )

-- How replay reports a record of which only `front` is there, in a file that may hold no torn tail.
abbrev pub torn_error : Bytes → WalError
torn_error front = if length front == 9 then eof else unexpected_eof

-- A record that is cut off ends the file: silently where a torn tail is tolerated, and with the
-- error of a short read where it is not.
pub read_record_torn :
    (tolerate : Bool) (r : WalRecord) (front : Bytes) (x : ℕ) (back : Bytes)
    → IsStorable r
    → front ≢ []
    → frame_record r ≡ front ++ (x ∷ back)
    → read_record tolerate front ≡ (if tolerate then ok none else err (torn_error front))
unfolding read_record
read_record_torn tolerate r [] x back v h e = absurd (h refl)
read_record_torn tolerate r (b ∷ bs) x back v h e =
    let front = b ∷ bs in
    let payload = encode_payload r.span in
    let whole : front ++ (x ∷ back) ≡ frame_record r ++ [] =
      sym e ∙ sym (append-nil (frame_record r)) in
    let (_, size, _) = header_at r (front ++ (x ∷ back)) [] v whole in
    let long : length front < 9 + length payload =
      omega (arith, ap length e, length-frame r, length-append front (x ∷ back)) in
    let small : length payload ≤ max_record_size =
      omega (arith, length-encode_payload r.span, v.size) in
    ground (
      arith,
      first_byte r b (bs ++ (x ∷ back)) [] whole,
      v.version,
      size,
      long,
      small,
      slice-append 5 4 front (x ∷ back),
      length-drop 9 front,
    )

-- What stands behind a torn record, too little to complete it, is taken for its rest.
pub read_record_torn_more :
    (r : WalRecord) (front : Bytes) (x : ℕ) (back more : Bytes)
    → IsStorable r
    → 9 ≤ length front
    → frame_record r ≡ front ++ (x ∷ back)
    → length (front ++ more) < record_size r
    → read_record true (front ++ more) ≡ ok none
unfolding read_record
read_record_torn_more r [] x back more v h e short = absurd (omega arith)
read_record_torn_more r (b ∷ bs) x back more v h e short =
    let front = b ∷ bs in
    let payload = encode_payload r.span in
    let whole : front ++ (x ∷ back) ≡ frame_record r ++ [] =
      sym e ∙ sym (append-nil (frame_record r)) in
    let (_, size, _) = header_at r (front ++ (x ∷ back)) [] v whole in
    let small : length payload ≤ max_record_size =
      omega (arith, length-encode_payload r.span, v.size) in
    ground (
      arith,
      first_byte r b (bs ++ (x ∷ back)) [] whole,
      v.version,
      size,
      short,
      small,
      length-frame r,
      length-frame_record r,
      length-append front more,
      slice-append 5 4 front (x ∷ back),
      slice-append 5 4 front more,
      length-drop 9 (front ++ more),
    )
