-- ===== src/TxTree/Leaf.antt =====
-- `parse_tx_leaf` on the leaves that `build_tx_tree` writes.
use xrpl_ledger_archive.Prelude.Parser.{Reads, ok, Reads-take_exact, Reads-step, bind-run}
use xrpl_ledger_archive.Prelude.{
  length, ℕ, ◌≡◌, List, ◌≤◌, ◌++◌, arith, append_assoc, [], drop-append, refl, ◌∙◌, ltb, ◌+◌, false,
  le→ltb, length-append,
}
use xrpl_ledger_archive.TxTree.{vl_prefix, write_vl, tx_leaf}
use xrpl_ledger_archive.Chunk.Types.{TxRecord}
use xrpl_ledger_archive.TxTree.ReadLeaf.{
  read_vl, read_vl_field, parse_tx_leaf, LeafError, leaf_fields, last_field, tx_truncated,
  meta_truncated,
}

-- `read_vl` takes the prefix of a length off the front, and the length of the prefix with it.
-- 929984 is the greatest length that a prefix of three bytes stands for.
read_vl-vl_prefix :
    (len : ℕ) (rest : List ℕ)
    → len ≤ 929984
    → read_vl (vl_prefix len ++ rest) ≡ ok (len, length (vl_prefix len))
unfolding read_vl vl_prefix
read_vl-vl_prefix len rest h = ground arith

Reads-read_vl_field :
    (e : LeafError) (payload : List ℕ)
    → length payload ≤ 929984
    → Reads (read_vl_field e) (write_vl payload) payload
unfolding read_vl_field write_vl
Reads-read_vl_field e payload h = record {
  run = λ rest.
      let front : read_vl (write_vl payload ++ rest)
          ≡ ok (length payload, length (vl_prefix (length payload))) =
        rw (append_assoc (vl_prefix (length payload)) payload rest)
          (read_vl-vl_prefix (length payload) (payload ++ rest) h) in
      rw (read_vl_field, front)
        (rw
          (
            append_assoc (vl_prefix (length payload)) payload rest,
            drop-append (length (vl_prefix (length payload))) (vl_prefix (length payload))
                (payload ++ rest) refl,
          )
          ((Reads-take_exact e (length payload) payload refl).run rest));
}

-- What a transaction of the ledger holds: a hash of 32 bytes, and blobs that a prefix can measure.
pub record IsLeaf (tx : TxRecord) : Type 0 where
  pub hash_size : length tx.tx_hash ≡ 32
  pub blob_bound : length tx.tx_blob ≤ 929984
  pub meta_bound : length tx.meta_blob ≤ 929984

-- The reader of leaves gets back the transaction that a leaf was made of, its hash, its blob and
-- its metadata, when the hash has 32 bytes and neither blob has more than 929984.
pub parse_tx_leaf-tx_leaf : (tx : TxRecord) → IsLeaf tx → parse_tx_leaf (tx_leaf tx) ≡ ok tx
unfolding parse_tx_leaf tx_leaf leaf_fields last_field
parse_tx_leaf-tx_leaf tx h =
    let tail : last_field tx.tx_hash ≡ ok (tx.tx_hash, []) = rw h.hash_size in
    let fields : leaf_fields (write_vl tx.tx_blob ++ (write_vl tx.meta_blob ++ tx.tx_hash))
        ≡ ok (tx, []) =
      Reads-step _ (Reads-read_vl_field tx_truncated tx.tx_blob h.blob_bound)
        (write_vl tx.meta_blob ++ tx.tx_hash)
      ∙ Reads-step _ (Reads-read_vl_field meta_truncated tx.meta_blob h.meta_bound) tx.tx_hash
      ∙ bind-run last_field _ tx.tx_hash tail in
    let rest = write_vl tx.tx_blob ++ (write_vl tx.meta_blob ++ tx.tx_hash) in
    let long : ltb (length (tx_leaf tx)) (4 + 32) ≡ false = le→ltb (length (tx_leaf tx)) (4 + 32) (
      omega (
        arith,
        h.hash_size,
        length-append (write_vl tx.tx_blob) (write_vl tx.meta_blob ++ tx.tx_hash),
        length-append (write_vl tx.meta_blob) tx.tx_hash,
      )) in
    rw (parse_tx_leaf, long, fields)
