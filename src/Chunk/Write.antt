-- ===== src/Chunk/Write.antt =====
-- The write side of crates/xrla-common/src/serialize.rs. A `write_*` function is the bytes that it
-- emits; a write to a `Vec` never fails.
use xrpl_ledger_archive.Prelude.{ℕ, ◌%◌, ◌^◌, List, [], ◌∷◌, ◌++◌, length, take}
use xrpl_ledger_archive.Prelude.Bytes.{be_bytes}
use xrpl_ledger_archive.Prelude.Parser.{write_all}
use xrpl_ledger_archive.Prelude.Sort.{sort_by}
use xrpl_ledger_archive.Node.{Hash256, ShaMapNode, type_byte}
use xrpl_ledger_archive.Chunk.Types.{
  TxRecord, TxMap, LedgerDelta, Chunk, magic_header, magic_footer, format_version,
}

unfoldable pub write_u8 : ℕ → List ℕ
write_u8 v = v ∷ []

unfoldable pub write_u16be : ℕ → List ℕ
write_u16be v = be_bytes 2 v

unfoldable pub write_u32be : ℕ → List ℕ
write_u32be v = be_bytes 4 v

unfoldable pub write_u64be : ℕ → List ℕ
write_u64be v = be_bytes 8 v

-- `n as u16` and `n as u32` drop the high bytes.
abbrev pub as_u16 : ℕ → ℕ
as_u16 n = n % 2 ^ 16

abbrev pub as_u32 : ℕ → ℕ
as_u32 n = n % 2 ^ 32

unfoldable pub write_node : ShaMapNode → List ℕ
write_node node =
    node.hash
    ++ (write_u8 (type_byte node.node_type)
        ++ (write_u16be (as_u16 (length node.content)) ++ node.content))

abbrev pub node_key : ShaMapNode → List ℕ
node_key node = node.hash

abbrev pub hash_key : Hash256 → List ℕ
hash_key hash = hash

-- `nodes.len() as u32`, then each node, in the order that is given.
abbrev pub write_counted : {A : Type 0} → (A → List ℕ) → List A → List ℕ
write_counted write xs = write_u32be (as_u32 (length xs)) ++ write_all write xs

unfoldable pub write_node_list : List ShaMapNode → List ℕ
write_node_list nodes = write_counted write_node (sort_by node_key nodes)

unfoldable pub write_delta : LedgerDelta → List ℕ
write_delta delta =
    write_u32be delta.ledger_seq
    ++ (write_counted write_node (sort_by node_key delta.diff.added)
        ++ write_counted hash_key (sort_by hash_key delta.diff.deleted))

abbrev pub tx_key : TxRecord → List ℕ
tx_key tx = tx.tx_hash

unfoldable pub write_tx : TxRecord → List ℕ
write_tx tx =
    tx.tx_hash
    ++ (write_u32be (as_u32 (length tx.tx_blob))
        ++ (tx.tx_blob ++ (write_u32be (as_u32 (length tx.meta_blob)) ++ tx.meta_blob)))

unfoldable pub write_tx_map : TxMap → List ℕ
write_tx_map m =
    write_u32be m.ledger_seq
    ++ (m.ledger_hash
        ++ (m.account_hash
            ++ (write_u64be m.drops
                ++ (write_u32be m.parent_close_time
                    ++ (write_u32be m.close_time
                        ++ (write_u8 m.close_time_resolution
                            ++ (write_u8 m.close_flags
                                ++ (write_u16be (as_u16 (length m.txns))
                                    ++ write_all write_tx (sort_by tx_key m.txns)))))))))

unfoldable pub serialize_body : Chunk → List ℕ
serialize_body c =
    write_node_list c.checkpoint
    ++ (write_all write_delta c.deltas ++ (write_all write_tx_map c.tx_maps ++ magic_footer))

-- One round of the body of version 3.
abbrev pub write_pair : LedgerDelta × TxMap → List ℕ
write_pair (delta, tx_map) = write_delta delta ++ write_tx_map tx_map

-- SHA-512 is the crate `sha2`.
module _ (sha512 : List ℕ → List ℕ) where
  unfoldable pub sha512half : List ℕ → Hash256
  sha512half bytes = take 32 (sha512 bytes)

  unfoldable pub serialize_chunk : Chunk → List ℕ
  serialize_chunk c =
      magic_header
      ++ (write_u8 format_version
          ++ (write_u32be c.network_id
              ++ (write_u32be c.start_ledger
                  ++ (write_u32be c.end_ledger
                      ++ (c.checkpoint_hash
                          ++ (sha512half (serialize_body c) ++ serialize_body c))))))
