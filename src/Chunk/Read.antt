-- ===== src/Chunk/Read.antt =====
-- The read side of crates/xrla-common/src/serialize.rs: `deserialize_chunk`.
pub mod Fronts
use xrpl_ledger_archive.Prelude.{ℕ, ◌+◌, not, ◌&&◌, List, [], ◌∷◌, ◌==◌, if◌then◌else◌, list_eq}
use xrpl_ledger_archive.Prelude.Bytes.{from_be}
use xrpl_ledger_archive.Prelude.Parser.{
  Result, ok, err, Parser, ◌>>=◌, ◌>>◌, pure, fail, take_exact, repeat,
}
use xrpl_ledger_archive.Node.{Hash256, NodeType, ShaMapError, ShaMapNode, try_from}
use xrpl_ledger_archive.Chunk.Types.{
  TxRecord, TxMap, LedgerDelta, Chunk, ChunkError, invalid_magic, unexpected_eof,
  unsupported_version, hash_mismatch, magic_header, magic_footer, format_version,
  format_version_streamed, sub_u32,
}
use xrpl_ledger_archive.Chunk.Write.{sha512half}

abbrev pub Reader : Type 0 → Type 0
Reader A = Parser ChunkError A

unfoldable pub read_exact : ℕ → Reader (List ℕ)
read_exact n = take_exact unexpected_eof n

unfoldable pub read_u8 : Reader ℕ
read_u8 = do b ← read_exact 1; pure (from_be b)

unfoldable pub read_u16be : Reader ℕ
read_u16be = do b ← read_exact 2; pure (from_be b)

unfoldable pub read_u32be : Reader ℕ
read_u32be = do b ← read_exact 4; pure (from_be b)

unfoldable pub read_u64be : Reader ℕ
read_u64be = do b ← read_exact 8; pure (from_be b)

unfoldable pub read_hash : Reader Hash256
read_hash = read_exact 32

-- `NodeType::try_from(b).map_err(|_| ChunkError::UnsupportedVersion(b))`
abbrev pub or_unsupported : ℕ → Result ShaMapError NodeType → Reader NodeType
or_unsupported b (ok t) = pure t
or_unsupported b (err e) = fail (unsupported_version b)

unfoldable pub read_node : Reader ShaMapNode
read_node = do
  hash ← read_hash
  byte ← read_u8
  node_type ← or_unsupported byte (try_from byte)
  len ← read_u16be
  content ← read_exact len
  pure (record { hash = hash; node_type = node_type; content = content })

unfoldable pub read_node_list : Reader (List ShaMapNode)
read_node_list = do count ← read_u32be; repeat count read_node

unfoldable pub read_delta : Reader LedgerDelta
read_delta = do
  ledger_seq ← read_u32be
  added_count ← read_u32be
  added ← repeat added_count read_node
  deleted_count ← read_u32be
  deleted ← repeat deleted_count read_hash
  pure (record { ledger_seq = ledger_seq; diff = record { added = added; deleted = deleted } })

unfoldable pub read_tx : Reader TxRecord
read_tx = do
  tx_hash ← read_hash
  tx_len ← read_u32be
  tx_blob ← read_exact tx_len
  meta_len ← read_u32be
  meta_blob ← read_exact meta_len
  pure (record { tx_hash = tx_hash; tx_blob = tx_blob; meta_blob = meta_blob })

unfoldable pub read_tx_map : Reader TxMap
read_tx_map = do
  ledger_seq ← read_u32be
  ledger_hash ← read_hash
  account_hash ← read_hash
  drops ← read_u64be
  parent_close_time ← read_u32be
  close_time ← read_u32be
  close_time_resolution ← read_u8
  close_flags ← read_u8
  tx_count ← read_u16be
  txns ← repeat tx_count read_tx
  pure (record {
    ledger_seq = ledger_seq;
    ledger_hash = ledger_hash;
    account_hash = account_hash;
    drops = drops;
    parent_close_time = parent_close_time;
    close_time = close_time;
    close_time_resolution = close_time_resolution;
    close_flags = close_flags;
    txns = txns;
  })

-- One round of the v3 loop: a delta and its ledger's transactions.
unfoldable pub read_pair : Reader (LedgerDelta × TxMap)
read_pair = do delta ← read_delta; tx_map ← read_tx_map; pure (delta, tx_map)

abbrev pub firsts : {A B : Type 0} → List (A × B) → List A
firsts [] = []
firsts ((a, b) ∷ ps) = a ∷ firsts ps

abbrev pub seconds : {A B : Type 0} → List (A × B) → List B
seconds [] = []
seconds ((a, b) ∷ ps) = b ∷ seconds ps

-- v3: the first ledger's transactions, then the pairs.
unfoldable pub read_streamed : ℕ → Reader (List LedgerDelta × List TxMap)
read_streamed delta_count = do
  first ← read_tx_map
  pairs ← repeat delta_count read_pair
  pure (firsts pairs, first ∷ seconds pairs)

-- v2: the deltas as one block, then the transactions as another.
unfoldable pub read_blocks : ℕ → Reader (List LedgerDelta × List TxMap)
read_blocks delta_count = do
  deltas ← repeat delta_count read_delta
  tx_maps ← repeat (delta_count + 1) read_tx_map
  pure (deltas, tx_maps)

unfoldable pub check_magic : List ℕ → Reader (Unit {0})
check_magic expected = do
  magic ← read_exact 4
  if list_eq magic expected then pure tt else fail invalid_magic

unfoldable pub check_version : ℕ → Reader (Unit {0})
check_version version =
    if not (version == format_version) && not (version == format_version_streamed)
    then fail (unsupported_version version)
    else pure tt

-- `data[body_start..]` is what is left to be read.
unfoldable pub check_hash : (List ℕ → Hash256) → Hash256 → Reader (Unit {0})
check_hash half stored rest =
    if list_eq (half rest) stored then ok (tt, rest) else err (hash_mismatch stored (half rest))

unfoldable pub read_body : ℕ → ℕ → Reader (List ShaMapNode × List LedgerDelta × List TxMap)
read_body version delta_count = do
  checkpoint ← read_node_list
  parts ←
      (if version == format_version_streamed
        then read_streamed delta_count
        else read_blocks delta_count)
  check_magic magic_footer
  pure (checkpoint, parts.0, parts.1)

-- What is left behind the footer is not looked at.
abbrev pub chunk_of : Result ChunkError (Chunk × List ℕ) → Result ChunkError Chunk
chunk_of (ok (c, rest)) = ok c
chunk_of (err e) = err e

-- SHA-512 is the crate `sha2`.
module _ (sha512 : List ℕ → List ℕ) where
  unfoldable pub read_chunk : Reader Chunk
  read_chunk = do
    check_magic magic_header
    version ← read_u8
    check_version version
    network_id ← read_u32be
    start_ledger ← read_u32be
    end_ledger ← read_u32be
    checkpoint_hash ← read_hash
    stored ← read_hash
    check_hash (sha512half sha512) stored
    body ← read_body version (sub_u32 end_ledger start_ledger)
    pure (record {
      network_id = network_id;
      start_ledger = start_ledger;
      end_ledger = end_ledger;
      checkpoint_hash = checkpoint_hash;
      chunk_hash = stored;
      checkpoint = body.0;
      deltas = body.1;
      tx_maps = body.2;
    })

  unfoldable pub deserialize_chunk : List ℕ → Result ChunkError Chunk
  deserialize_chunk bytes = chunk_of (read_chunk bytes)
