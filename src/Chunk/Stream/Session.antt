-- ===== src/Chunk/Stream/Session.antt =====
-- `ChunkReader` of crates/xrla-common/src/serialize.rs on what a session with `ChunkWriter` leaves.
use xrpl_ledger_archive.Disk.{Files}
use xrpl_ledger_archive.Prelude.{List, ℕ, ◌≡◌, some, length, refl}
use xrpl_ledger_archive.Prelude.Parser.{ok}
use xrpl_ledger_archive.Chunk.Write.{sha512half, write_u8}
use xrpl_ledger_archive.Chunk.RoundTrip.Whole.{IsChunk, sorted_chunk}
use xrpl_ledger_archive.Chunk.Stream.{stream_chunk}
use xrpl_ledger_archive.Chunk.Stream.Whole.{stream_chunk-read_chunk}
use xrpl_ledger_archive.Chunk.Writer.{finish, no_faults}
use xrpl_ledger_archive.Chunk.Writer.Session.{Export, exported, session, streamed_body}
use xrpl_ledger_archive.Chunk.Writer.Finish.{
  exported_file, read_chunk-exported_file, session_outcome,
}

stream_chunk-exported_file :
    (sha512 : List ℕ → List ℕ) (e : Export)
    → ((bytes : List ℕ) → length (sha512 bytes) ≡ 64)
    → IsChunk (exported e)
    → stream_chunk sha512 (exported_file sha512 e)
      ≡ ok (sorted_chunk (sha512half sha512 (streamed_body e)) (exported e))
unfolding write_u8
stream_chunk-exported_file sha512 e size h =
    stream_chunk-read_chunk sha512 (exported_file sha512 e) _ _ refl
      (read_chunk-exported_file sha512 e size h)

-- For a hash function of 64 bytes and an export whose fields fit their widths, with a transaction
-- map for each ledger and a delta for each after the first: a session with the writer in which no
-- call of the file system fails leaves, at the name that was asked for, a file that is streamed as
-- the exported chunk in the order of the format, under the hash that `finish` returned.
pub stream_chunk-session :
    (sha512 : List ℕ → List ℕ) (e : Export) (fs : Files)
    → ((bytes : List ℕ) → length (sha512 bytes) ≡ 64)
    → IsChunk (exported e)
    → let (w, fs') = session e fs in
      let (result, fs'') = finish sha512 no_faults w fs' in
      let hash = sha512half sha512 (streamed_body e) in
      (result ≡ ok hash)
      × ((bytes : List ℕ) × (fs'' e.path ≡ some bytes)
          × (stream_chunk sha512 bytes ≡ ok (sorted_chunk hash (exported e))))
stream_chunk-session sha512 e fs size h =
    let (result, gone, left) = session_outcome sha512 e fs size in
    (result, (exported_file sha512 e, left, stream_chunk-exported_file sha512 e size h))
