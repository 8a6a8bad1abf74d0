-- ===== src/TxTree.antt =====
-- The transaction tree: crates/xrla-common/src/tx_tree.rs, and the reader of its leaves in
-- crates/xrla-nudb/src/reader.rs. `none` stands for a panic.
pub mod ReadLeaf
pub mod Leaf
pub mod Build
pub mod Nibbles
pub mod Buckets
pub mod Total
mod Examples
use xrpl_ledger_archive.Chunk.Write.{sha512half}
use xrpl_ledger_archive.Chunk.Types.{TxRecord}
use xrpl_ledger_archive.Node.{inner, Hash256, ShaMapNode, transaction_with_meta, zero_hash}
use xrpl_ledger_archive.Prelude.{
  List, ℕ, ◌∷◌, ◌%◌, if◌then◌else◌, length, ◌++◌, Option, [], ◌^◌, leb, get_elem?, some, none, suc,
  ◌+◌, ◌/◌, replicate, zero, ◌-◌, ◌==◌, map,
}
use xrpl_ledger_archive.Prelude.Maybe.{◌>>=◌}
use xrpl_ledger_archive.State.{hash_prefix_inner_node}

abbrev pub hash_prefix_tx_node : List ℕ
hash_prefix_tx_node = 83 ∷ 78 ∷ 68 ∷ 0 ∷ []

abbrev pub hash_prefix_transaction_id : List ℕ
hash_prefix_transaction_id = 84 ∷ 88 ∷ 78 ∷ 0 ∷ []

-- `n as u8` drops the high bits.
abbrev pub as_u8 : ℕ → ℕ
as_u8 n = n % 2 ^ 8

-- The length prefix of `write_vl`.
unfoldable pub vl_prefix : ℕ → List ℕ
vl_prefix len =
    if leb len 192
    then as_u8 len ∷ []
    else if leb len 12480
    then as_u8 (193 + (len - 193) / 256) ∷ as_u8 ((len - 193) % 256) ∷ []
    else as_u8 (241 + (len - 12481) / 65536)
      ∷ as_u8 (((len - 12481) / 256) % 256)
      ∷ as_u8 ((len - 12481) % 256)
      ∷ []

unfoldable pub write_vl : List ℕ → List ℕ
unfolding vl_prefix
write_vl payload = vl_prefix (length payload) ++ payload

-- `key` is the transaction's hash, which places the leaf; `leaf_hash` is the hash of the leaf.
pub record Item : Type 0 where
  pub key : Hash256
  pub leaf_hash : Hash256
  pub node : ShaMapNode

abbrev pub node_of : Item → ShaMapNode
node_of item = item.node

-- The content of a leaf.
unfoldable pub tx_leaf : TxRecord → List ℕ
tx_leaf tx = hash_prefix_tx_node ++ (write_vl tx.tx_blob ++ (write_vl tx.meta_blob ++ tx.tx_hash))

-- `key[depth / 2]` is out of range from depth 64 on.
unfoldable pub nibble : Hash256 → ℕ → Option ℕ
nibble key depth = do
  byte ← get_elem? key (depth / 2)
  some (if depth % 2 == 0 then byte / 16 else byte % 16)

-- `buckets[n].push(item)`, seen from the last item to the first.
unfoldable pub push_front : ℕ → Item → List (List Item) → List (List Item)
push_front n item [] = []
push_front zero item (bucket ∷ buckets) = (item ∷ bucket) ∷ buckets
push_front (suc n) item (bucket ∷ buckets) = bucket ∷ push_front n item buckets

-- The items of each nibble, in their order.
unfoldable pub fill_buckets : List Item → ℕ → Option (List (List Item))
unfolding push_front nibble
fill_buckets [] depth = some (replicate 16 [])
fill_buckets (item ∷ items) depth = do
  n ← nibble item.key depth
  buckets ← fill_buckets items depth
  some (push_front n item buckets)

-- The children of the slots, given what builds a bucket of several items.
unfoldable pub fill_children :
    (List Item → List ShaMapNode → Option (Hash256 × List ShaMapNode))
    → List (List Item)
    → List ShaMapNode
    → Option (List Hash256 × List ShaMapNode)
fill_children build [] all_nodes = some ([], all_nodes)
fill_children build ([] ∷ buckets) all_nodes = do
  rest ← fill_children build buckets all_nodes
  some (zero_hash ∷ rest.0, rest.1)
fill_children build ((item ∷ []) ∷ buckets) all_nodes = do
  rest ← fill_children build buckets all_nodes
  some (item.leaf_hash ∷ rest.0, rest.1)
fill_children build ((item ∷ next ∷ items) ∷ buckets) all_nodes = do
  child ← build (item ∷ next ∷ items) all_nodes
  rest ← fill_children build buckets (child.1)
  some (child.0 ∷ rest.0, rest.1)

abbrev pub concat : List (List ℕ) → List ℕ
concat [] = []
concat (xs ∷ xss) = xs ++ concat xss

-- SHA-512 is the crate `sha2`.
module _ (sha512 : List ℕ → List ℕ) where
  unfoldable pub calculate_tx_id : List ℕ → Hash256
  calculate_tx_id tx_blob = sha512half sha512 (hash_prefix_transaction_id ++ tx_blob)

  unfoldable pub item_of : TxRecord → Item
  unfolding tx_leaf
  item_of tx =
      let leaf_hash = sha512half sha512 (tx_leaf tx) in
      record {
        key = tx.tx_hash;
        leaf_hash = leaf_hash;
        node = record { hash = leaf_hash; node_type = transaction_with_meta; content = tx_leaf tx };
      }

  -- The node that a level pushes.
  unfoldable pub inner_of : List Hash256 → ShaMapNode
  inner_of children = record {
    hash = sha512half sha512 (hash_prefix_inner_node ++ concat children);
    node_type = inner;
    content = concat children;
  }

  -- `fuel` is what is left of 64 levels: at the next one the key has no nibble, so that the code
  -- panics on the first item.
  unfoldable pub build_level :
      ℕ → List Item → ℕ → List ShaMapNode → Option (Hash256 × List ShaMapNode)
  unfolding fill_buckets fill_children inner_of
  build_level zero items depth all_nodes = none
  build_level (suc fuel) items depth all_nodes = do
    buckets ← fill_buckets items depth
    filled ←
        fill_children (λ bucket nodes. build_level fuel bucket (depth + 1) nodes) buckets all_nodes
    (let node = inner_of filled.0 in some (node.hash, filled.1 ++ (node ∷ [])))

  unfoldable pub build_tx_tree : List TxRecord → Option (Hash256 × List ShaMapNode)
  unfolding item_of build_level
  build_tx_tree [] = some (zero_hash, [])
  build_tx_tree (tx ∷ txns) =
      let items = map item_of (tx ∷ txns) in build_level 64 items 0 (map node_of items)
