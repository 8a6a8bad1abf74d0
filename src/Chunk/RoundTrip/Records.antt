-- ===== src/Chunk/RoundTrip/Records.antt =====
-- The readers of nodes, deltas and transaction maps on what their writers emit.
use xrpl_ledger_archive.Prelude.{◌^◌, ◌<◌, ◌≡◌, refl, List, [], arith, length, All}
use xrpl_ledger_archive.Prelude.Parser.{Reads, Reads-bind, Reads-map, Reads-pure}
use xrpl_ledger_archive.Prelude.Sort.{sort_by, length-sort_by, All-sort_by}
use xrpl_ledger_archive.Node.{Hash256, ShaMapNode, type_byte}
use xrpl_ledger_archive.Node.Wire.{try_from-type_byte}
use xrpl_ledger_archive.Chunk.Types.{TxRecord, TxMap, LedgerDelta}
use xrpl_ledger_archive.Chunk.Write.{
  write_node, write_node_list, write_delta, write_tx, write_tx_map, node_key, hash_key, tx_key,
  as_u16, as_u32,
}
use xrpl_ledger_archive.Chunk.Read.{
  read_node, read_node_list, read_delta, read_tx, read_tx_map, or_unsupported,
}
use xrpl_ledger_archive.Chunk.RoundTrip.Fields.{
  Reads-read_exact, Reads-read_hash, Reads-read_u8, Reads-read_u16be, Reads-read_u32be,
  Reads-read_u64be, Reads-counted, Reads-counted-bind, Reads-counted16, Reads-counted-map,
}

abbrev pub IsHash : Hash256 → Type 0
IsHash h = length h ≡ 32

-- The widths that the Rust types give, and a content that its `u16` length can count.
pub record IsNode (node : ShaMapNode) : Type 0 where
  pub hash : IsHash node.hash
  pub content : length node.content < 2 ^ 16

Reads-or_unsupported :
    (t : _)
    → Reads (or_unsupported (type_byte t) (xrpl_ledger_archive.Node.try_from (type_byte t))) [] t
Reads-or_unsupported t = rw try_from-type_byte (Reads-pure t)

Reads-read_node : (node : ShaMapNode) → IsNode node → Reads read_node (write_node node) node
unfolding read_node write_node
Reads-read_node node h =
    let len : as_u16 (length node.content) ≡ length node.content = omega (arith, h.content) in
    rw len (
      Reads-bind _ (Reads-read_hash node.hash h.hash) (
        Reads-bind _ (Reads-read_u8 (type_byte node.node_type)) (
          Reads-bind _ (Reads-or_unsupported node.node_type) (
            Reads-bind _ (Reads-read_u16be (length node.content) h.content)
              (Reads-map _ (Reads-read_exact (length node.content) node.content refl))))))

-- A node list comes back sorted by hash.
pub Reads-read_node_list :
    (nodes : List ShaMapNode)
    → length nodes < 2 ^ 32
    → All IsNode nodes
    → Reads read_node_list (write_node_list nodes) (sort_by node_key nodes)
unfolding read_node_list write_node_list
Reads-read_node_list nodes few valid =
    Reads-counted IsNode Reads-read_node (sort_by node_key nodes)
      (All-sort_by node_key IsNode nodes valid) (omega (arith, length-sort_by node_key nodes))

pub record IsDelta (delta : LedgerDelta) : Type 0 where
  pub ledger_seq : delta.ledger_seq < 2 ^ 32
  pub added_few : length delta.diff.added < 2 ^ 32
  pub added : All IsNode delta.diff.added
  pub deleted_few : length delta.diff.deleted < 2 ^ 32
  pub deleted : All IsHash delta.diff.deleted

unfoldable pub sorted_delta : LedgerDelta → LedgerDelta
sorted_delta delta = record delta {
  diff = record {
    added = sort_by node_key delta.diff.added;
    deleted = sort_by hash_key delta.diff.deleted;
  };
}

pub Reads-read_delta :
    (delta : LedgerDelta)
    → IsDelta delta
    → Reads read_delta (write_delta delta) (sorted_delta delta)
unfolding read_delta write_delta sorted_delta
Reads-read_delta delta h = Reads-bind _ (Reads-read_u32be delta.ledger_seq h.ledger_seq) (
    Reads-counted-bind IsNode Reads-read_node (sort_by node_key delta.diff.added)
      (All-sort_by node_key IsNode delta.diff.added h.added) _
      (omega (arith, length-sort_by node_key delta.diff.added, h.added_few))
      (Reads-counted-map IsHash Reads-read_hash (sort_by hash_key delta.diff.deleted)
        (All-sort_by hash_key IsHash delta.diff.deleted h.deleted) _
        (omega (arith, length-sort_by hash_key delta.diff.deleted, h.deleted_few))))

pub record IsTx (tx : TxRecord) : Type 0 where
  pub tx_hash : IsHash tx.tx_hash
  pub tx_blob : length tx.tx_blob < 2 ^ 32
  pub meta_blob : length tx.meta_blob < 2 ^ 32

Reads-read_tx : (tx : TxRecord) → IsTx tx → Reads read_tx (write_tx tx) tx
unfolding read_tx write_tx
Reads-read_tx tx h =
    let tx_len : as_u32 (length tx.tx_blob) ≡ length tx.tx_blob = omega (arith, h.tx_blob) in
    let meta_len : as_u32 (length tx.meta_blob) ≡ length tx.meta_blob =
      omega (arith, h.meta_blob) in
    rw (tx_len, meta_len)
      (Reads-bind _ (Reads-read_hash tx.tx_hash h.tx_hash) (
        Reads-bind _ (Reads-read_u32be (length tx.tx_blob) h.tx_blob) (
          Reads-bind _ (Reads-read_exact (length tx.tx_blob) tx.tx_blob refl) (
            Reads-bind _ (Reads-read_u32be (length tx.meta_blob) h.meta_blob)
              (Reads-map _ (Reads-read_exact (length tx.meta_blob) tx.meta_blob refl))))))

-- The widths that the Rust types give, and a number of transactions that its `u16` count can hold.
pub record IsTxMap (m : TxMap) : Type 0 where
  pub ledger_seq : m.ledger_seq < 2 ^ 32
  pub ledger_hash : IsHash m.ledger_hash
  pub account_hash : IsHash m.account_hash
  pub drops : m.drops < 2 ^ 64
  pub parent_close_time : m.parent_close_time < 2 ^ 32
  pub close_time : m.close_time < 2 ^ 32
  pub txns_few : length m.txns < 2 ^ 16
  pub txns : All IsTx m.txns

unfoldable pub sorted_tx_map : TxMap → TxMap
sorted_tx_map m = record m { txns = sort_by tx_key m.txns }

pub Reads-read_tx_map :
    (m : TxMap) → IsTxMap m → Reads read_tx_map (write_tx_map m) (sorted_tx_map m)
unfolding read_tx_map write_tx_map sorted_tx_map
Reads-read_tx_map m h = rw (← length-sort_by tx_key m.txns) (
    Reads-bind _ (Reads-read_u32be m.ledger_seq h.ledger_seq) (
      Reads-bind _ (Reads-read_hash m.ledger_hash h.ledger_hash) (
        Reads-bind _ (Reads-read_hash m.account_hash h.account_hash) (
          Reads-bind _ (Reads-read_u64be m.drops h.drops) (
            Reads-bind _ (Reads-read_u32be m.parent_close_time h.parent_close_time) (
              Reads-bind _ (Reads-read_u32be m.close_time h.close_time) (
                Reads-bind _ (Reads-read_u8 m.close_time_resolution) (
                  Reads-bind _ (Reads-read_u8 m.close_flags) (
                    Reads-counted16 IsTx Reads-read_tx (sort_by tx_key m.txns)
                      (All-sort_by tx_key IsTx m.txns h.txns) _
                      (omega (arith, length-sort_by tx_key m.txns, h.txns_few)))))))))))
