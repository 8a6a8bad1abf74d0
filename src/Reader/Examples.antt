-- ===== src/Reader/Examples.antt =====
-- A small store for the theorems on crates/xrla-nudb/src/reader.rs: two trees that share a leaf.
use xrpl_ledger_archive.Reader.Store.{
  collect_reachable_shards, collect_reachable_concurrent_shards, diff_shards,
}
use xrpl_ledger_archive.Dat.{
  encode_wire_to_value, decode_value_to_wire, decode_codec, decode_raw, encoded_blob_to_wire,
  typed_blob_to_wire,
}
use xrpl_ledger_archive.TxTree.ReadLeaf.{parse_tx_leaf, read_vl_field, read_vl, last_field}
use xrpl_ledger_archive.Reader.Walk.Transactions.{collect_transactions-collect_reachable, leaf_txs}
use xrpl_ledger_archive.Chunk.Write.{tx_key}
use xrpl_ledger_archive.Prelude.Sort.{sort_by, lex_leb}
use xrpl_ledger_archive.Reader.Diff.Correct.{IsDiff}
use xrpl_ledger_archive.TxTree.{hash_prefix_tx_node}
use xrpl_ledger_archive.Chunk.Types.{TxRecord}
use xrpl_ledger_archive.Reader.Diff.Readable.{IsReadable}
use xrpl_ledger_archive.Reader.Walk.Sampled.{IsSample, sample_hashes-IsSample}
use xrpl_ledger_archive.Reader.Walk.Correct.{IsTree}
use xrpl_ledger_archive.Reader.Walk.Total.{weight, IsStored, IsStored-closed, load}
use xrpl_ledger_archive.Reader.Diff.{diff, diff_nodes, each, slots}
use xrpl_ledger_archive.Node.{
  is_inner, inner, from_full_bytes, full_slots, child_of, from_wire_bytes, type_byte,
}
use xrpl_ledger_archive.Reader.Walk.{
  contains, collect_reachable, children_of, collect_reachable_concurrent, collect_transactions,
  push_unvisited, read_leaf, sample_hashes,
}
use xrpl_ledger_archive.Reader.{ReadError, Shard, get_node, get_wire, hash_get_node}
use xrpl_ledger_archive.Prelude.{
  List, [], ◌∷◌, ◌++◌, inr, ℕ, if◌then◌else◌, ◌≡◌, replicate, list_eq, refl, ◌+◌, ◌<◌, arith,
  Option, none, some,
}
use xrpl_ledger_archive.Prelude.Parser.{Result, ok, take_exact}
use xrpl_ledger_archive.Node.{
  Hash256, ShaMapNode, account_state, transaction_with_meta, ShaMapDiff, from_node, child_hashes,
}
use mathlib.Core.List.{Memᴰ}

abbrev hash_of : ℕ → Hash256
hash_of n = replicate 32 n

abbrev no_blocks : List ℕ → ℕ → Option (List ℕ)
no_blocks block size = none

abbrev shared_leaf : ShaMapNode
shared_leaf = record { hash = hash_of 1; node_type = account_state; content = 7 ∷ 7 ∷ [] }

abbrev new_leaf : ShaMapNode
new_leaf = record { hash = hash_of 2; node_type = account_state; content = 8 ∷ [] }

-- The shared leaf is in slot 5, the new one in slot 9.
abbrev old_root : ShaMapNode
old_root = record {
  hash = hash_of 3;
  node_type = inner;
  content = replicate 160 0 ++ (hash_of 1 ++ replicate 320 0);
}

abbrev new_root : ShaMapNode
new_root = record {
  hash = hash_of 4;
  node_type = inner;
  content = replicate 160 0 ++ (hash_of 1 ++ (replicate 96 0 ++ (hash_of 2 ++ replicate 192 0)));
}

abbrev shard_of : List ShaMapNode → Shard
shard_of [] h = ok none
shard_of (node ∷ nodes) h =
    if list_eq h node.hash
    then ok (some (encode_wire_to_value node.content node.node_type))
    else shard_of nodes h

-- What changed is in a second shard.
abbrev two_shards : List Shard
two_shards = shard_of (old_root ∷ shared_leaf ∷ []) ∷ shard_of (new_root ∷ new_leaf ∷ []) ∷ []

abbrev store : Hash256 → Result ReadError ShaMapNode
store = get_node no_blocks two_shards

store_runs :
    (store (hash_of 1) ≡ ok shared_leaf)
    × (store (hash_of 2) ≡ ok new_leaf)
    × (store (hash_of 3) ≡ ok old_root)
    × (store (hash_of 4) ≡ ok new_root)
unfolding get_node get_wire encode_wire_to_value decode_value_to_wire decode_codec decode_raw
    encoded_blob_to_wire typed_blob_to_wire from_wire_bytes is_inner type_byte
store_runs = (refl, refl, refl, refl)

children_runs :
    (children_of shared_leaf ≡ ok [])
    × (children_of new_leaf ≡ ok [])
    × (children_of old_root ≡ ok (hash_of 1 ∷ []))
    × (children_of new_root ≡ ok (hash_of 1 ∷ hash_of 2 ∷ []))
unfolding children_of from_node from_full_bytes full_slots child_of child_hashes is_inner
children_runs = (refl, refl, refl, refl)

abbrev keys : List Hash256
keys = hash_of 4 ∷ hash_of 1 ∷ hash_of 2 ∷ []

keys-IsStored : IsStored store (hash_get_node no_blocks two_shards) (hash_of 4) keys
keys-IsStored =
    let (leaf, new, old_at, new_at) = store_runs in
    let (below_leaf, below_new, below_old, below_root) = children_runs in
    IsStored-closed store (hash_get_node no_blocks two_shards) (hash_of 4) keys (Memᴰ.head refl) (
      (
        new_root,
        hash_of 1 ∷ hash_of 2 ∷ [],
        new_at,
        below_root,
        (Memᴰ.tail (Memᴰ.head refl), (Memᴰ.tail (Memᴰ.tail (Memᴰ.head refl)), tt)),
      ),
      ((shared_leaf, [], leaf, below_leaf, tt), ((new_leaf, [], new, below_new, tt), tt)),
    )

load_runs :
    (load store (hash_of 1) ≡ 1) × (load store (hash_of 2) ≡ 1) × (load store (hash_of 4) ≡ 3)
unfolding load
load_runs =
    let (leaf, new, old_at, new_at) = store_runs in
    let (below_leaf, below_new, below_old, below_root) = children_runs in
    (rw (leaf, below_leaf) refl, rw (new, below_new) refl, rw (new_at, below_root) refl)

weight_runs : weight store keys [] + 1 < 9
unfolding weight contains
weight_runs = omega (arith, load_runs)

collect_reachable_shards_example :
    (out : List ShaMapNode) × (collect_reachable store 9 (hash_of 4) ≡ ok out)
    × IsTree store (hash_get_node no_blocks two_shards) (hash_of 4) out
collect_reachable_shards_example =
    collect_reachable_shards no_blocks two_shards (hash_of 4) keys keys-IsStored 9 weight_runs

collect_reachable_concurrent_shards_example :
    (out : List ShaMapNode) × (collect_reachable_concurrent store 9 (hash_of 4) 8 ≡ ok out)
    × IsTree store (hash_get_node no_blocks two_shards) (hash_of 4) out
collect_reachable_concurrent_shards_example =
    collect_reachable_concurrent_shards no_blocks two_shards (hash_of 4) keys keys-IsStored 9 8
      weight_runs

sample_hashes-IsSample_example :
    (out : List Hash256) × (sample_hashes store 3 (hash_of 4) 2 ≡ ok out)
    × IsSample store (hash_of 4) 2 out
sample_hashes-IsSample_example =
    sample_hashes-IsSample store (hash_of 4) keys-IsStored.readable 3 2 (omega arith)

old-IsReadable : IsReadable store 2 (hash_of 3)
unfolding IsReadable
old-IsReadable =
    let (leaf, new, old_at, new_at) = store_runs in
    let (below_leaf, below_new, below_old, below_root) = children_runs in
    inr (
      old_root,
      hash_of 1 ∷ [],
      old_at,
      below_old,
      (inr (shared_leaf, [], leaf, below_leaf, tt), tt),
    )

new-IsReadable : IsReadable store 2 (hash_of 4)
unfolding IsReadable
new-IsReadable =
    let (leaf, new, old_at, new_at) = store_runs in
    let (below_leaf, below_new, below_old, below_root) = children_runs in
    inr (
      new_root,
      hash_of 1 ∷ hash_of 2 ∷ [],
      new_at,
      below_root,
      (inr (shared_leaf, [], leaf, below_leaf, tt), (inr (new_leaf, [], new, below_new, tt), tt)),
    )

diff_shards_example :
    (d : ShaMapDiff) × (diff store 3 (hash_of 3) (hash_of 4) ≡ ok d)
    × IsDiff store (hash_get_node no_blocks two_shards) (hash_of 3) (hash_of 4) d
diff_shards_example =
    diff_shards no_blocks two_shards 2 (hash_of 3) (hash_of 4) old-IsReadable new-IsReadable

-- The shared leaf is in neither list.
diff_runs :
    diff store 3 (hash_of 3) (hash_of 4)
    ≡ ok (record { added = new_leaf ∷ new_root ∷ []; deleted = hash_of 3 ∷ [] })
unfolding diff diff_nodes each slots children_of from_node from_full_bytes full_slots child_of
    child_hashes is_inner sort_by lex_leb get_node get_wire encode_wire_to_value
    decode_value_to_wire decode_codec decode_raw encoded_blob_to_wire typed_blob_to_wire
    from_wire_bytes type_byte
diff_runs = refl

abbrev tx : TxRecord
tx = record { tx_hash = hash_of 6; tx_blob = 1 ∷ 2 ∷ []; meta_blob = 3 ∷ [] }

abbrev tx_node : ShaMapNode
tx_node = record {
  hash = hash_of 9;
  node_type = transaction_with_meta;
  content = hash_prefix_tx_node ++ (2 ∷ 1 ∷ 2 ∷ 1 ∷ 3 ∷ hash_of 6);
}

abbrev tx_store : Hash256 → Result ReadError ShaMapNode
tx_store = get_node no_blocks (shard_of (tx_node ∷ []) ∷ [])

collect_transactions-collect_reachable_example :
    collect_transactions tx_store 3 (hash_of 9) ≡ ok (sort_by tx_key (tx ∷ []))
collect_transactions-collect_reachable_example =
    collect_transactions-collect_reachable tx_store 3 (hash_of 9) (tx_node ∷ []) (tx ∷ []) refl
      (unfold collect_reachable contains children_of push_unvisited is_inner get_node get_wire
          encode_wire_to_value decode_value_to_wire decode_codec decode_raw encoded_blob_to_wire
          typed_blob_to_wire from_wire_bytes type_byte in
        refl)
      (unfold is_inner leaf_txs read_leaf parse_tx_leaf read_vl_field read_vl take_exact
          last_field in
        refl)
