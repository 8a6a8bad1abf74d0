-- ===== src/TxTree/ReadLeaf.antt =====
-- `parse_tx_leaf` and `read_vl` of crates/xrla-nudb/src/reader.rs.
use xrpl_ledger_archive.TxTree.{hash_prefix_tx_node}
use xrpl_ledger_archive.Chunk.Types.{TxRecord}
use xrpl_ledger_archive.Node.{Hash256}
use xrpl_ledger_archive.Prelude.{
  none, some, ℕ, List, get_elem?, if◌then◌else◌, not, ltb, length, drop, ◌==◌, ◌+◌, [], ◌||◌,
  list_eq, take, leb, ◌-◌, ◌*◌,
}
use xrpl_ledger_archive.Prelude.Parser.{pure, ◌>>=◌, Parser, Result, err, ok, take_exact}

-- What the reader of a leaf complains of.
pub data LeafError : Type 0 where
  unexpected_leaf vl_truncated tx_truncated meta_truncated txid_size : LeafError
  vl_invalid : ℕ → LeafError

-- `read_vl`: the length, and the bytes that its prefix takes.
unfoldable pub read_vl : List ℕ → Result LeafError (ℕ × ℕ)
read_vl b = elim (get_elem? b 0) [
  | none ↦ err vl_truncated
  | some b0 ↦
      if leb b0 192
      then ok (b0, 1)
      else if leb b0 240
      then elim (get_elem? b 1) [
        | none ↦ err vl_truncated
        | some b1 ↦ ok (193 + (b0 - 193) * 256 + b1, 2)
      ]
      else if leb b0 254
      then elim (get_elem? b 1) [
        | none ↦ err vl_truncated
        | some b1 ↦ elim (get_elem? b 2) [
          | none ↦ err vl_truncated
          | some b2 ↦ ok (12481 + (b0 - 241) * 65536 + b1 * 256 + b2, 3)
        ]
      ]
      else err (vl_invalid b0)
]

-- A field at the front of what is left: `content.get(p..p + len)` behind its prefix.
unfoldable pub read_vl_field : LeafError → Parser LeafError (List ℕ)
read_vl_field truncated rest = elim (read_vl rest) [
  | err e ↦ err e
  | ok (len, n) ↦ take_exact truncated len (drop n rest)
]

unfoldable pub last_field : Parser LeafError Hash256
last_field rest = if not (length rest == 32) then err txid_size else ok (rest, [])

unfoldable pub leaf_fields : Parser LeafError TxRecord
leaf_fields = do
  tx_blob ← read_vl_field tx_truncated
  meta_blob ← read_vl_field meta_truncated
  tx_hash ← last_field
  pure (record { tx_hash = tx_hash; tx_blob = tx_blob; meta_blob = meta_blob })

abbrev pub tx_of : Result LeafError (TxRecord × List ℕ) → Result LeafError TxRecord
tx_of (ok (tx, rest)) = ok tx
tx_of (err e) = err e

unfoldable pub parse_tx_leaf : List ℕ → Result LeafError TxRecord
unfolding leaf_fields
parse_tx_leaf content =
    if ltb (length content) (4 + 32) || not (list_eq (take 4 content) hash_prefix_tx_node)
    then err unexpected_leaf
    else tx_of (leaf_fields (drop 4 content))
