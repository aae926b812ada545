-- ===== src/Wal.antt =====
-- internal/wal/wal.go: the spans, their encoding, the framed records and the segmented log.
pub mod Span
pub mod Codec
pub mod Record
pub mod Log
