-- ===== src/Chunk/Determinism.antt =====
-- Chunks that hold the same entries in different orders.
use xrpl_ledger_archive.Prelude.Sort.{KeyIdentifies, sort_by-eq_of_perm, sort_by, length-sort_by}
use xrpl_ledger_archive.Prelude.Parser.{write_all}
use xrpl_ledger_archive.Chunk.Write.{
  write_delta, write_tx_map, serialize_body, serialize_chunk, write_node_list, node_key, tx_key,
  hash_key,
}
use xrpl_ledger_archive.Node.{Hash256, NodeType, ShaMapNode}
use xrpl_ledger_archive.Prelude.{List, ◌≡◌, ℕ, length, ap, refl}
use xrpl_ledger_archive.Chunk.Types.{LedgerDelta, TxMap, Chunk, TxRecord}
use mathlib.Core.List.{Perm}
use xrpl_ledger_archive.Prelude.{[], ◌∷◌, arith}

-- Two deltas, and two transaction maps, with the same entries in some order.
pub record SameDelta (a b : LedgerDelta) : Type 0 where
  pub ledger_seq : a.ledger_seq ≡ b.ledger_seq
  pub added : Perm a.diff.added b.diff.added
  pub deleted : Perm a.diff.deleted b.diff.deleted
  pub identified : KeyIdentifies node_key a.diff.added

pub record SameTxMap (a b : TxMap) : Type 0 where
  pub ledger_seq : a.ledger_seq ≡ b.ledger_seq
  pub ledger_hash : a.ledger_hash ≡ b.ledger_hash
  pub account_hash : a.account_hash ≡ b.account_hash
  pub drops : a.drops ≡ b.drops
  pub parent_close_time : a.parent_close_time ≡ b.parent_close_time
  pub close_time : a.close_time ≡ b.close_time
  pub close_time_resolution : a.close_time_resolution ≡ b.close_time_resolution
  pub close_flags : a.close_flags ≡ b.close_flags
  pub txns : Perm a.txns b.txns
  pub identified : KeyIdentifies tx_key a.txns

-- Two lists of equal length, related entry by entry.
abbrev pub Zip : {A : Type 0} → (A → A → Type 0) → List A → List A → Type 0
Zip R [] [] = Unit
Zip R [] (y ∷ ys) = ⊥
Zip R (x ∷ xs) [] = ⊥
Zip R (x ∷ xs) (y ∷ ys) = R x y × Zip R xs ys

pub record SameChunk (c d : Chunk) : Type 0 where
  pub network_id : c.network_id ≡ d.network_id
  pub start_ledger : c.start_ledger ≡ d.start_ledger
  pub end_ledger : c.end_ledger ≡ d.end_ledger
  pub checkpoint_hash : c.checkpoint_hash ≡ d.checkpoint_hash
  pub checkpoint : Perm c.checkpoint d.checkpoint
  pub identified : KeyIdentifies node_key c.checkpoint
  pub deltas : Zip SameDelta c.deltas d.deltas
  pub tx_maps : Zip SameTxMap c.tx_maps d.tx_maps

Hash256-set : IsSet Hash256
Hash256-set = hlevel

NodeType-set : IsSet NodeType
NodeType-set = hlevel

ShaMapNode-set : IsSet ShaMapNode
ShaMapNode-set = hlevel

TxRecord-set : IsSet TxRecord
TxRecord-set = hlevel

write_delta-SameDelta : (a b : LedgerDelta) → SameDelta a b → write_delta a ≡ write_delta b
unfolding write_delta
write_delta-SameDelta a b h = rw (
  h.ledger_seq,
  sort_by-eq_of_perm node_key ShaMapNode-set h.identified h.added,
  sort_by-eq_of_perm hash_key Hash256-set (λ x y m n e. e) h.deleted,
)

write_tx_map-SameTxMap : (a b : TxMap) → SameTxMap a b → write_tx_map a ≡ write_tx_map b
unfolding write_tx_map
write_tx_map-SameTxMap a b h = rw (
  h.ledger_seq, h.ledger_hash, h.account_hash, h.drops, h.parent_close_time, h.close_time,
  h.close_time_resolution, h.close_flags, sorted, count,
)
  where
    sorted : sort_by tx_key a.txns ≡ sort_by tx_key b.txns
    sorted = sort_by-eq_of_perm tx_key TxRecord-set h.identified h.txns

    count : length a.txns ≡ length b.txns
    count =
        omega (arith, ap length sorted, length-sort_by tx_key a.txns, length-sort_by tx_key b.txns)

write_all-Zip :
    {A : Type 0} (R : A → A → Type 0) (write : A → List ℕ)
    → ((a b : A) → R a b → write a ≡ write b)
    → (xs ys : List A) → Zip R xs ys
    → write_all write xs ≡ write_all write ys
unfolding write_all
write_all-Zip R write each [] [] h = refl
write_all-Zip R write each [] (y ∷ ys) h = absurd h
write_all-Zip R write each (x ∷ xs) [] h = absurd h
write_all-Zip R write each (x ∷ xs) (y ∷ ys) h =
    rw (each x y h.0, write_all-Zip R write each xs ys h.1)

serialize_body-SameChunk : (c d : Chunk) → SameChunk c d → serialize_body c ≡ serialize_body d
unfolding serialize_body write_node_list
serialize_body-SameChunk c d h = rw (
  sort_by-eq_of_perm node_key ShaMapNode-set h.identified h.checkpoint,
  write_all-Zip SameDelta write_delta write_delta-SameDelta c.deltas d.deltas h.deltas,
  write_all-Zip SameTxMap write_tx_map write_tx_map-SameTxMap c.tx_maps d.tx_maps h.tx_maps,
)

-- Two chunks with the same header fields, and with the same entries in each of their lists up to
-- the order of nodes, deleted hashes and transactions, where a hash tells the entries of a list
-- apart, are written as the same bytes.
pub serialize_chunk-SameChunk :
    (sha512 : List ℕ → List ℕ) (c d : Chunk)
    → SameChunk c d
    → serialize_chunk sha512 c ≡ serialize_chunk sha512 d
unfolding serialize_chunk
serialize_chunk-SameChunk sha512 c d h =
    rw (
      serialize_body-SameChunk c d h,
      h.network_id,
      h.start_ledger,
      h.end_ledger,
      h.checkpoint_hash,
    )
