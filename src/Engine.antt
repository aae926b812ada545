-- ===== src/Engine.antt =====
-- internal/engine: the engine that composes log, buffer, segments, index, rollups and compactor.
pub mod Checkpoint
pub mod Pending
pub mod Batch
pub mod Store
pub mod Flush
pub mod Buffer
pub mod Reads
pub mod Sessions
pub mod Recovery
pub mod Insertion
pub mod Range
