-- ===== src/Chunk/Writer.antt =====
-- `ChunkWriter` of crates/xrla-common/src/serialize.rs: a chunk of version 3 that is written piece
-- by piece to `<final_path>.tmp`, and moved to its name by `finish`.
pub mod Atomic
pub mod Outcome
pub mod Session
pub mod Finish
use xrpl_ledger_archive.Disk.{FilePath, write_file, remove_file, tmp_path, Files, rename}
use xrpl_ledger_archive.Chunk.Write
use xrpl_ledger_archive.Prelude.{
  ℕ, ◌+◌, Bool, true, false, Option, none, some, List, [], ◌∷◌, ◌++◌, length, take, drop, replicate,
  list_eq, if◌then◌else◌, ◌||◌,
}
use xrpl_ledger_archive.Prelude.Parser.{Result, ok, err}
use xrpl_ledger_archive.Prelude.Sort.{sort_by}
use xrpl_ledger_archive.Node.{Hash256, ShaMapNode}
use xrpl_ledger_archive.Chunk.Types.{
  TxMap, LedgerDelta, magic_header, magic_footer, format_version_streamed,
}
use xrpl_ledger_archive.Chunk.Write.{
  write_u8, write_u32be, write_node, as_u32, node_key, sha512half,
}

-- `inner` is what went into the buffered file, `hashed` what went into the hasher. The hasher is
-- there until `finish` takes it, and `finish` consumes the writer.
pub record ChunkWriter : Type 0 where
  pub inner : List ℕ
  pub tmp : FilePath
  pub final : FilePath
  pub hashed : List ℕ
  pub chunk_hash_offset : ℕ
  pub finished : Bool

abbrev pub header : ℕ → ℕ → ℕ → Hash256 → List ℕ
header network_id start_ledger end_ledger checkpoint_hash =
    magic_header
    ++ (write_u8 format_version_streamed
        ++ (write_u32be network_id
            ++ (write_u32be start_ledger ++ (write_u32be end_ledger ++ checkpoint_hash))))

-- Thirty-two zero bytes hold the place of the hash.
unfoldable pub create : FilePath → ℕ → ℕ → ℕ → Hash256 → Files → ChunkWriter × Files
unfolding write_file tmp_path
create final_path network_id start_ledger end_ledger checkpoint_hash fs =
    let front = header network_id start_ledger end_ledger checkpoint_hash in
    (
      record {
        inner = front ++ replicate 32 0;
        tmp = tmp_path final_path;
        final = final_path;
        hashed = [];
        chunk_hash_offset = length front;
        finished = false;
      },
      write_file (tmp_path final_path) [] fs,
    )

unfoldable pub body : List ℕ → ChunkWriter → ChunkWriter
body buf w = record w { inner = w.inner ++ buf; hashed = w.hashed ++ buf }

unfoldable pub write_nodes : List ShaMapNode → ChunkWriter → ChunkWriter
write_nodes [] w = w
write_nodes (node ∷ nodes) w = write_nodes nodes (body (write_node node) w)

unfoldable pub write_checkpoint : List ShaMapNode → ChunkWriter → ChunkWriter
write_checkpoint nodes w =
    let sorted = sort_by node_key nodes in
    write_nodes sorted (body (write_u32be (as_u32 (length sorted))) w)

unfoldable pub write_delta : LedgerDelta → ChunkWriter → ChunkWriter
write_delta delta w = body (Write.write_delta delta) w

unfoldable pub write_tx_map : TxMap → ChunkWriter → ChunkWriter
write_tx_map tx_map w = body (Write.write_tx_map tx_map) w

-- The exporter's loop: each ledger's delta, then its transactions.
unfoldable pub write_pairs : List (LedgerDelta × TxMap) → ChunkWriter → ChunkWriter
write_pairs [] w = w
write_pairs ((delta, tx_map) ∷ pairs) w =
    write_pairs pairs (write_tx_map tx_map (write_delta delta w))

-- Which calls of the file system fail, and what a flush that fails leaves in the file.
pub record Faults : Type 0 where
  pub footer : Bool
  pub flush : Bool
  pub partial : List ℕ
  pub seek : Bool
  pub patch : Bool
  pub flush_again : Bool
  pub rename : Bool
  pub remove : Bool

abbrev pub no_faults : Faults
no_faults = record {
  footer = false;
  flush = false;
  partial = [];
  seek = false;
  patch = false;
  flush_again = false;
  rename = false;
  remove = false;
}

pub data IoError : Type 0 where
  io_error : IoError

-- A `seek` to `offset` and a `write_all` of `bytes` there.
unfoldable pub overwrite : ℕ → List ℕ → List ℕ → List ℕ
overwrite offset bytes file = take offset file ++ (bytes ++ drop (offset + length bytes) file)

-- `Drop`: a writer that is not finished removes its temporary file, if it can.
unfoldable pub drop_writer : Faults → ChunkWriter → Files → Files
unfolding remove_file
drop_writer faults w fs =
    if w.finished then fs else if faults.remove then fs else remove_file w.tmp fs

module _ (sha512 : List ℕ → List ℕ) where
  -- `finish`, with the drop of the writer that ends it: an error on the way drops it unfinished.
  unfoldable pub finish : Faults → ChunkWriter → Files → Result IoError Hash256 × Files
  unfolding drop_writer write_file rename
  finish faults w fs =
      let w' = body magic_footer w in
      let chunk_hash = sha512half sha512 w'.hashed in
      let flushed = write_file w.tmp w'.inner fs in
      let patched = write_file w.tmp (overwrite w.chunk_hash_offset chunk_hash w'.inner) fs in
      if faults.footer
      then (err io_error, drop_writer faults w fs)
      else if faults.flush
      then (err io_error, drop_writer faults w (write_file w.tmp faults.partial fs))
      else if faults.seek || faults.patch
      then (err io_error, drop_writer faults w flushed)
      else if faults.flush_again
      then (err io_error, drop_writer faults w (write_file w.tmp faults.partial fs))
      else if faults.rename
      then (err io_error, drop_writer faults w patched)
      else (
        ok chunk_hash,
        drop_writer faults (record w { finished = true }) (rename w.tmp w.final patched),
      )
