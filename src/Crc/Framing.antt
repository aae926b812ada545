-- ===== src/Crc/Framing.antt =====
-- The framing of records in segment files and snapshots: the length of the payload and its checksum.
use wisp_trace_db.Prelude.{
  ◌^◌, ◌<◌, ◌≡◌, refl, sym, ◌∙◌, [], ◌++◌, append-nil, length, length-append, take, drop,
}
use wisp_trace_db.Prelude.Bytes.{Bytes, put_uint, uint, length-put_uint, uint_at}
use wisp_trace_db.Crc.{checksum_ieee, checksum_ieee-lt}

abbrev pub framing : Bytes → Bytes
framing payload = put_uint 4 (length payload) ++ put_uint 4 (checksum_ieee payload)

pub length-framing : (payload : Bytes) → length (framing payload) ≡ 8
length-framing payload = simp (length-append, length-put_uint)

pub framing_fields :
    (payload : Bytes)
    → length payload < 2 ^ 32
    → (uint (take 4 (drop 0 (framing payload))) ≡ length payload)
      × (uint (take 4 (drop 4 (framing payload))) ≡ checksum_ieee payload)
framing_fields payload h =
    let sum = put_uint 4 (checksum_ieee payload) in
    let (size, d) = uint_at (framing payload) 0 4 (length payload) sum h refl in
    let (crc, _) =
      uint_at (framing payload) 4 4 (checksum_ieee payload) [] (checksum_ieee-lt payload)
        (d ∙ sym (append-nil sum)) in
    (size, crc)
