-- ===== src/Chunk/Stream.antt =====
-- `ChunkReader` of crates/xrla-common/src/serialize.rs: a chunk of version 3 taken piece by piece,
-- every byte that is consumed going through the hasher (`HashingReader`).
pub mod Agrees
pub mod Whole
pub mod Session
use xrpl_ledger_archive.Prelude.{
  ℕ, zero, suc, ◌+◌, ◌-◌, Bool, true, false, not, Option, none, some, List, [], ◌∷◌, ◌++◌, ◌==◌,
  if◌then◌else◌, list_eq,
}
use xrpl_ledger_archive.Prelude.Parser.{Result, ok, err}
use xrpl_ledger_archive.Prelude.Consume.{taken}
use xrpl_ledger_archive.Node.{Hash256, ShaMapNode}
use xrpl_ledger_archive.Chunk.Types.{
  TxMap, LedgerDelta, Chunk, ChunkError, invalid_magic, hash_mismatch, magic_header, magic_footer,
  format_version_streamed, sub_u32,
}
use xrpl_ledger_archive.Chunk.Write.{sha512half}
use xrpl_ledger_archive.Chunk.Read.{
  Reader, read_exact, read_u8, read_u32be, read_hash, read_node, read_delta, read_tx_map,
  check_magic, firsts, seconds,
}

-- The message of `open` about a version that it does not stream, and the errors of a chunk.
pub data StreamError : Type 0 where
  chunk_error : ChunkError → StreamError
  only_streams : ℕ → StreamError

-- `inner` is what is still in the file, `hashed` what went through the hasher.
pub record ChunkReader : Type 0 where
  pub inner : List ℕ
  pub hashed : List ℕ
  pub network_id : ℕ
  pub start_ledger : ℕ
  pub end_ledger : ℕ
  pub checkpoint_hash : Hash256
  pub stored_chunk_hash : Hash256
  pub deltas_remaining : ℕ

abbrev pub Streamed : Type 0 → Type 0
Streamed A = ChunkReader → Result StreamError (A × ChunkReader)

infixl 5 ◌>>=◌
abbrev pub ◌>>=◌ : {A B : Type 0} → Streamed A → (A → Streamed B) → Streamed B
◌>>=◌ m f r = elim (m r) [ ok (a, r') ↦ f a r' | err e ↦ err e ]

abbrev pub pure : {A : Type 0} → A → Streamed A
pure a r = ok (a, r)

-- A read helper on the hashing reader.
unfoldable pub hashing : {A : Type 0} → Reader A → Streamed A
hashing p r = elim (p r.inner) [
  | ok (a, rest) ↦ ok (a, record r { inner = rest; hashed = r.hashed ++ taken r.inner rest })
  | err e ↦ err (chunk_error e)
]

-- The header is read before there is a hasher.
abbrev pub unhashed :
    {A : Type 0}
    → Reader A
    → List ℕ
    → (A → List ℕ → Result StreamError ChunkReader)
    → Result StreamError ChunkReader
unhashed p bytes f = elim (p bytes) [ ok (a, rest) ↦ f a rest | err e ↦ err (chunk_error e) ]

unfoldable pub open_reader : List ℕ → Result StreamError ChunkReader
open_reader bytes = unhashed (check_magic magic_header) bytes λ _ s1.
    unhashed read_u8 s1 λ version s2.
      if not (version == format_version_streamed)
      then err (only_streams version)
      else unhashed read_u32be s2 λ network_id s3. unhashed read_u32be s3 λ start_ledger s4.
        unhashed read_u32be s4 λ end_ledger s5. unhashed read_hash s5 λ checkpoint_hash s6.
          unhashed read_hash s6 λ stored_chunk_hash s7. ok (record {
            inner = s7;
            hashed = [];
            network_id = network_id;
            start_ledger = start_ledger;
            end_ledger = end_ledger;
            checkpoint_hash = checkpoint_hash;
            stored_chunk_hash = stored_chunk_hash;
            deltas_remaining = sub_u32 end_ledger start_ledger;
          })

-- `f` is called once for each node, in this order.
unfoldable pub each_node : ℕ → Streamed (List ShaMapNode)
each_node zero = pure []
each_node (suc n) = do node ← hashing read_node; nodes ← each_node n; pure (node ∷ nodes)

unfoldable pub read_checkpoint : Streamed (List ShaMapNode)
read_checkpoint = do count ← hashing read_u32be; each_node count

unfoldable pub read_checkpoint_tx_map : Streamed TxMap
read_checkpoint_tx_map = hashing read_tx_map

unfoldable pub some_pair : Streamed (Option (LedgerDelta × TxMap))
some_pair = do
  delta ← hashing read_delta
  tx_map ← hashing read_tx_map
  λ r. ok (some (delta, tx_map), record r { deltas_remaining = r.deltas_remaining - 1 })

unfoldable pub next_delta_tx_map : Streamed (Option (LedgerDelta × TxMap))
unfolding some_pair
next_delta_tx_map r = if r.deltas_remaining == 0 then ok (none, r) else some_pair r

-- `while let Some(pair) = reader.next_delta_tx_map()?`, in at most `fuel` rounds.
unfoldable pub drain : ℕ → Streamed (List (LedgerDelta × TxMap))
drain zero = pure []
drain (suc fuel) = do
  next ← next_delta_tx_map
  elim next [ none ↦ pure [] | some pair ↦ (do pairs ← drain fuel; pure (pair ∷ pairs)) ]

module _ (sha512 : List ℕ → List ℕ) where
  unfoldable pub finish : Streamed (Unit {0})
  finish = do
    footer ← hashing (read_exact 4)
    λ r.
        let actual = sha512half sha512 r.hashed in
        if not (list_eq footer magic_footer)
        then err (chunk_error invalid_magic)
        else if not (list_eq actual r.stored_chunk_hash)
        then err (chunk_error (hash_mismatch r.stored_chunk_hash actual))
        else ok (tt, r)

  -- What a client does: open, checkpoint, its transactions, every pair, then `finish`. As many
  -- rounds as there are deltas, and one that finds none left.
  unfoldable pub pieces : Streamed (List ShaMapNode × TxMap × List (LedgerDelta × TxMap))
  pieces = do
    nodes ← read_checkpoint
    first ← read_checkpoint_tx_map
    pairs ← (λ r. drain (r.deltas_remaining + 1) r)
    _ ← finish
    pure (nodes, first, pairs)

  abbrev pub assemble :
      ChunkReader
      → Result StreamError ((List ShaMapNode × TxMap × List (LedgerDelta × TxMap)) × ChunkReader)
      → Result StreamError Chunk
  assemble r (ok ((nodes, first, pairs), r')) = ok (record {
    network_id = r.network_id;
    start_ledger = r.start_ledger;
    end_ledger = r.end_ledger;
    checkpoint_hash = r.checkpoint_hash;
    chunk_hash = r.stored_chunk_hash;
    checkpoint = nodes;
    deltas = firsts pairs;
    tx_maps = first ∷ seconds pairs;
  })
  assemble r (err e) = err e

  unfoldable pub stream_chunk : List ℕ → Result StreamError Chunk
  stream_chunk bytes = elim (open_reader bytes) [ ok r ↦ assemble r (pieces r) | err e ↦ err e ]
