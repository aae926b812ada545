-- ===== src/Segment.antt =====
-- internal/segment: the files of spans, their writer and reader, and the manifest.
pub mod Format
pub mod Writer
pub mod Reader
pub mod Pruning
pub mod Offsets
pub mod Cache
pub mod Manifest
