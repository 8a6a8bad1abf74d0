-- ===== src/Chunk.antt =====
-- Chunk files, crates/xrla-common/src/chunk.rs and serialize.rs. `Write` and `Read` are
-- `serialize_chunk` and `deserialize_chunk` with what they call; `Writer` goes to disk piece by
-- piece, and `Stream` takes a chunk piece by piece.
pub mod Types
pub mod Write
pub mod Read
pub mod RoundTrip
pub mod Sizes
pub mod Integrity
pub mod Determinism
pub mod Writer
pub mod Stream
mod Samples
mod Examples
