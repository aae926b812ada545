-- ===== src/Tests.antt =====
-- The theorems at concrete inputs, and runs of the definitions on them.
mod Wal
mod Bloom
mod Segment
mod Sessions
mod Cache
mod Flush
mod Compactor
mod Recovery
mod Insertion
mod Memory
mod Index
mod Rollup
mod Engine
