-- ===== src/Chunk/RoundTrip.antt =====
-- Reading back what was written: the fields, the records, and whole chunks.
pub mod Fields
pub mod Records
pub mod Whole
