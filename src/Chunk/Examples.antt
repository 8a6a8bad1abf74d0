-- ===== src/Chunk/Examples.antt =====
-- Runs of the chunk code on a small archive of two ledgers.
use xrpl_ledger_archive.Chunk.Samples.{
  digest, digest_size, hash_a, hash_b, leaf, tx_map, payment, delta, backward, forward,
  backward-IsChunk,
}
use xrpl_ledger_archive.Disk.{Files, tmp_path}
use xrpl_ledger_archive.Chunk.Stream.Whole.{stream_chunk-read_chunk}
use xrpl_ledger_archive.Chunk.Writer.Atomic.{finish_failed}
use xrpl_ledger_archive.Chunk.Writer.Outcome.{IsPatched, finish_fails, finish_outcome}
use xrpl_ledger_archive.Chunk.Stream.Session.{stream_chunk-session}
use xrpl_ledger_archive.Prelude.{◌⊎◌, arith}
use xrpl_ledger_archive.Prelude.Parser.{ok, err}
use xrpl_ledger_archive.Chunk.Writer.Finish.{
  exported_file, finish-session, read_chunk-exported_file,
}
use xrpl_ledger_archive.Prelude.Sort.{KeyIdentifies, KeyIdentifies-of}
use xrpl_ledger_archive.Chunk.Stream.{stream_chunk}
use xrpl_ledger_archive.Chunk.Writer.{ChunkWriter, no_faults, io_error}
use xrpl_ledger_archive.Chunk.Writer.Session.{Export, session, streamed_body, exported}
use xrpl_ledger_archive.Chunk.Write.{
  serialize_chunk, sha512half, serialize_body, tx_key, node_key, write_u8,
}
use xrpl_ledger_archive.Chunk.Determinism.{SameChunk, serialize_chunk-SameChunk, SameTxMap}
use xrpl_ledger_archive.Chunk.Integrity.{IsVerified, deserialize_chunk-IsVerified}
use xrpl_ledger_archive.Chunk.Read.{deserialize_chunk}
use xrpl_ledger_archive.Chunk.RoundTrip.Whole.{sorted_chunk, deserialize_chunk-serialize_chunk}
use xrpl_ledger_archive.Chunk.Types.{TxRecord, magic_footer}
use xrpl_ledger_archive.Node.{Hash256, ShaMapNode}
use xrpl_ledger_archive.Prelude.{
  List, ℕ, ◌≢◌, replicate, ◌∷◌, ◌≡◌, none, if◌then◌else◌, true, [], All, ◌++◌, list_eq, refl, false,
  some, drop,
}
use xrpl_ledger_archive.Chunk.Writer
use mathlib.Core.List.{Permᴰ}
use mathlib.Core.List.Permᴰ

deserialize_chunk-serialize_chunk_example :
    deserialize_chunk digest (serialize_chunk digest backward)
    ≡ ok (sorted_chunk (sha512half digest (serialize_body backward)) backward)
deserialize_chunk-serialize_chunk_example =
    deserialize_chunk-serialize_chunk digest digest_size backward backward-IsChunk

deserialize_chunk-IsVerified_example :
    IsVerified digest
      (serialize_chunk digest backward)
      (sorted_chunk (sha512half digest (serialize_body backward)) backward)
deserialize_chunk-IsVerified_example =
    deserialize_chunk-IsVerified digest (serialize_chunk digest backward)
      (sorted_chunk (sha512half digest (serialize_body backward)) backward)
      (deserialize_chunk-serialize_chunk digest digest_size backward backward-IsChunk)

leaves_identified :
    (nodes : List ShaMapNode)
    → All (λ n. n ≡ leaf (node_key n)) nodes
    → KeyIdentifies node_key nodes
leaves_identified nodes h = KeyIdentifies-of node_key leaf nodes (hlevel) h

tx_map-SameTxMap :
    (seq : ℕ) (txns : List TxRecord)
    → KeyIdentifies tx_key txns
    → SameTxMap (tx_map seq txns) (tx_map seq txns)
tx_map-SameTxMap seq txns h = record {
  ledger_seq = refl;
  ledger_hash = refl;
  account_hash = refl;
  drops = refl;
  parent_close_time = refl;
  close_time = refl;
  close_time_resolution = refl;
  close_flags = refl;
  txns = ∣ Permᴰ.refl txns ∣₁;
  identified = h;
}

abbrev paid : Hash256 → TxRecord
paid hash = record { tx_hash = hash; tx_blob = 7 ∷ 8 ∷ []; meta_blob = 9 ∷ [] }

backward-SameChunk : SameChunk backward forward
backward-SameChunk = record {
  network_id = refl;
  start_ledger = refl;
  end_ledger = refl;
  checkpoint_hash = refl;
  checkpoint = ∣ Permᴰ.swap refl refl ∣₁;
  identified = leaves_identified _ (refl, (refl, tt));
  deltas = (
    record {
      ledger_seq = refl;
      added = ∣ Permᴰ.refl _ ∣₁;
      deleted = ∣ Permᴰ.refl _ ∣₁;
      identified = leaves_identified _ (refl, tt);
    },
    tt,
  );
  tx_maps = (
    tx_map-SameTxMap 100 [] (KeyIdentifies-of tx_key paid [] (hlevel) tt),
    (
      tx_map-SameTxMap 101 (payment ∷ [])
          (KeyIdentifies-of tx_key paid (payment ∷ []) (hlevel) (refl, tt)),
      tt,
    ),
  );
}

serialize_chunk-SameChunk_example : serialize_chunk digest backward ≡ serialize_chunk digest forward
serialize_chunk-SameChunk_example =
    serialize_chunk-SameChunk digest backward forward backward-SameChunk

-- The same archive, as an exporter writes it.
abbrev export : Export
export = record {
  path = b'a' ∷ [];
  network_id = 1;
  start_ledger = 100;
  end_ledger = 101;
  checkpoint_hash = hash_a;
  nodes = leaf hash_b ∷ leaf hash_a ∷ [];
  first = tx_map 100 [];
  pairs = (delta, tx_map 101 (payment ∷ [])) ∷ [];
}

abbrev no_files : Files
no_files path = none

finish-session_example :
    let (w, fs') = session export no_files in
    let (result, fs'') = Writer.finish digest no_faults w fs' in
    let hash = sha512half digest (streamed_body export) in
    (result ≡ ok hash)
    × (fs'' (tmp_path export.path) ≡ none)
    × ((bytes : List ℕ) × (fs'' export.path ≡ some bytes)
        × (deserialize_chunk digest bytes ≡ ok (sorted_chunk hash (exported export))))
finish-session_example = finish-session digest export no_files digest_size backward-IsChunk

-- A writer that has written two bytes behind its header, over an older file of that name.
abbrev writer : ChunkWriter
writer = record {
  inner = replicate 49 0 ++ (replicate 32 0 ++ (4 ∷ 5 ∷ []));
  tmp = 2 ∷ [];
  final = 1 ∷ [];
  hashed = 4 ∷ 5 ∷ [];
  chunk_hash_offset = 49;
  finished = false;
}

abbrev older_file : Files
older_file path = if list_eq path (1 ∷ []) then some (99 ∷ []) else none

writer_paths : ◌≢◌ {A = List ℕ} (2 ∷ []) (1 ∷ [])
writer_paths e = cc e

finish_failed_example :
    (Writer.finish digest (record no_faults { rename = true }) writer older_file).1 (1 ∷ [])
    ≡ some (99 ∷ [])
finish_failed_example =
    finish_failed digest (record no_faults { rename = true }) writer older_file io_error (1 ∷ [])
      refl writer_paths (unfold Writer.finish in refl) writer_paths

finish_outcome_example :
    let hash = sha512half digest (writer.hashed ++ magic_footer) in
    let r = Writer.finish digest no_faults writer older_file in
    ((finish_fails no_faults ≡ true) × (r.0 ≡ err io_error))
    ⊎ ((r.0 ≡ ok hash)
        × (r.1 (2 ∷ []) ≡ none)
        × ((file : List ℕ) × (r.1 (1 ∷ []) ≡ some file)
            × IsPatched (writer.inner ++ magic_footer) 49 hash file))
finish_outcome_example =
    finish_outcome digest no_faults writer older_file digest_size refl writer_paths (omega arith)

stream_chunk-session_example :
    let (w, fs') = session export no_files in
    let (result, fs'') = Writer.finish digest no_faults w fs' in
    let hash = sha512half digest (streamed_body export) in
    (result ≡ ok hash)
    × ((bytes : List ℕ) × (fs'' export.path ≡ some bytes)
        × (stream_chunk digest bytes ≡ ok (sorted_chunk hash (exported export))))
stream_chunk-session_example =
    stream_chunk-session digest export no_files digest_size backward-IsChunk

stream_chunk-read_chunk_example :
    stream_chunk digest (exported_file digest export)
    ≡ ok (sorted_chunk (sha512half digest (streamed_body export)) (exported export))
stream_chunk-read_chunk_example =
    stream_chunk-read_chunk digest (exported_file digest export)
      (sorted_chunk (sha512half digest (streamed_body export)) (exported export))
      (drop 5 (exported_file digest export)) (unfold write_u8 in refl)
      (read_chunk-exported_file digest export digest_size backward-IsChunk)
