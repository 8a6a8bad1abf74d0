-- ===== src/TxTree/Examples.antt =====
-- Runs of the transaction tree on two transactions that part at the second level.
use xrpl_ledger_archive.TxTree.Total.{build_tx_tree-some}
use xrpl_ledger_archive.TxTree.Leaf.{parse_tx_leaf-tx_leaf}
use xrpl_ledger_archive.TxTree.Build.{verify_state_nodes-build_tx_tree}
use xrpl_ledger_archive.Prelude.Parser.{ok}
use xrpl_ledger_archive.TxTree.{tx_leaf, build_tx_tree}
use xrpl_ledger_archive.TxTree.ReadLeaf.{parse_tx_leaf}
use xrpl_ledger_archive.Chunk.Types.{TxRecord}
use xrpl_ledger_archive.State.{verify_state_nodes}
use xrpl_ledger_archive.Node.{Hash256, ShaMapNode}
use xrpl_ledger_archive.Prelude.{
  List, ◌≢◌, ℕ, ◌∷◌, ◌≡◌, replicate, length, [], ◌%◌, some, arith, refl,
}

abbrev digest : List ℕ → List ℕ
digest bytes = length bytes % 256 ∷ replicate 63 0

-- The first nibble of both keys is 1.
abbrev pair : List TxRecord
pair =
    record { tx_hash = 16 ∷ replicate 31 0; tx_blob = 1 ∷ []; meta_blob = 2 ∷ [] }
    ∷ record { tx_hash = 17 ∷ replicate 31 0; tx_blob = 3 ∷ []; meta_blob = 4 ∷ 5 ∷ [] }
    ∷ []

pair_differ : ◌≢◌ {A = List ℕ} (16 ∷ replicate 31 0) (17 ∷ replicate 31 0)
pair_differ e = cc e

build_tx_tree-some_example : (r : Hash256 × List ShaMapNode) × (build_tx_tree digest pair ≡ some r)
build_tx_tree-some_example =
    build_tx_tree-some digest pair (refl, (refl, tt)) ((pair_differ, tt), (tt, tt))

verify_state_nodes-build_tx_tree_example :
    verify_state_nodes digest build_tx_tree-some_example.0.1 ≡ ok tt
verify_state_nodes-build_tx_tree_example =
    verify_state_nodes-build_tx_tree digest pair build_tx_tree-some_example.0.0
      build_tx_tree-some_example.0.1 build_tx_tree-some_example.1

-- A blob whose length takes a prefix of two bytes.
abbrev long : TxRecord
long = record { tx_hash = replicate 32 6; tx_blob = replicate 200 1; meta_blob = [] }

parse_tx_leaf-tx_leaf_example : parse_tx_leaf (tx_leaf long) ≡ ok long
parse_tx_leaf-tx_leaf_example =
    parse_tx_leaf-tx_leaf long
      (record { hash_size = refl; blob_bound = omega arith; meta_bound = omega arith })
