-- ===== src/Crc.antt =====
-- hash/crc32's ChecksumIEEE, which frames the records of the log, the segments and the rollups: the
-- reflected polynomial 0xEDB88320, a bit at a time.
pub mod Framing
use wisp_trace_db.Prelude.{
  ℕ, ◌/◌, ◌%◌, ◌^◌, ◌<◌, ◌==◌, ◌≡◌, refl, bit_xor, [], ◌∷◌, if◌then◌else◌, arith,
}
use wisp_trace_db.Prelude.Bytes.{Bytes}

crc_bit : ℕ → ℕ
crc_bit c = if c % 2 == 1 then bit_xor (c / 2) 0xedb88320 else c / 2

crc_byte : ℕ → ℕ → ℕ
unfolding crc_bit
crc_byte c b =
    crc_bit (crc_bit (crc_bit (crc_bit (crc_bit (crc_bit (crc_bit (crc_bit (bit_xor c b))))))))

crc_loop : ℕ → Bytes → ℕ
crc_loop c [] = c
crc_loop c (b ∷ bs) = crc_loop (crc_byte c b) bs

unfoldable pub checksum_ieee : Bytes → ℕ
unfolding crc_loop crc_byte
checksum_ieee bytes = bit_xor (crc_loop 0xffffffff bytes) 0xffffffff % 2 ^ 32

pub checksum_ieee-lt : (bytes : Bytes) → checksum_ieee bytes < 2 ^ 32
unfolding checksum_ieee
checksum_ieee-lt bytes = omega arith
