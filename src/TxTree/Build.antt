-- ===== src/TxTree/Build.antt =====
-- The nodes of `build_tx_tree`, under the check of crates/xrla-common/src/state_tree.rs.
use xrpl_ledger_archive.Prelude.Parser.{ok}
use xrpl_ledger_archive.Prelude.Maybe.{some-then}
use xrpl_ledger_archive.State.Verify.{Verifies, verify_state_nodes_iff}
use xrpl_ledger_archive.Node.{ShaMapNode, Hash256}
use xrpl_ledger_archive.State.{recompute_node_hash, verify_state_nodes}
use xrpl_ledger_archive.Chunk.Types.{TxRecord}
use xrpl_ledger_archive.TxTree.{
  item_of, inner_of, Item, fill_children, build_level, build_tx_tree, fill_buckets, node_of,
}
use xrpl_ledger_archive.Prelude.{
  List, ℕ, All, suc, Option, ◌≡◌, some, map, refl, subst, ◌+◌, ◌∷◌, All-append, [], zero,
}

module _ (sha512 : List ℕ → List ℕ) where
  Verifies-item_of : (tx : TxRecord) → Verifies sha512 (item_of sha512 tx).node
  unfolding item_of recompute_node_hash
  Verifies-item_of tx = refl

  Verifies-inner_of : (children : List Hash256) → Verifies sha512 (inner_of sha512 children)
  unfolding inner_of recompute_node_hash
  Verifies-inner_of children = refl

  carry :
      {A : Type 0} (made made' : A × List ShaMapNode)
      → ◌≡◌ {A = Option (A × List ShaMapNode)} (some made) (some made')
      → All (Verifies sha512) made.1
      → All (Verifies sha512) made'.1
  carry {A} made made' e =
      subst (λ (m : A × List ShaMapNode). All (Verifies sha512) m.1) {x = made} {y = made'} (cc e)

  -- What is pushed below a level verifies, if what a bucket pushes does.
  record Keeps (build : List Item → List ShaMapNode → Option (Hash256 × List ShaMapNode))
      : Type 0 where
    keep :
        (items : List Item) (nodes : List ShaMapNode) (made : Hash256 × List ShaMapNode)
        → build items nodes ≡ some made
        → All (Verifies sha512) nodes
        → All (Verifies sha512) made.1

  fill_children-Keeps :
      (build : List Item → List ShaMapNode → Option (Hash256 × List ShaMapNode))
      → Keeps build
      → (buckets : List (List Item)) (nodes : List ShaMapNode)
        (made : List Hash256 × List ShaMapNode)
      → fill_children build buckets nodes ≡ some made
      → All (Verifies sha512) nodes
      → All (Verifies sha512) made.1
  unfolding fill_children
  fill_children-Keeps build keeps [] nodes made e h = carry _ made e h
  fill_children-Keeps build keeps ([] ∷ buckets) nodes made e h =
      some-then (fill_children build buckets nodes) _ e
        λ rest e1 k1. carry _ made k1 (fill_children-Keeps build keeps buckets nodes rest e1 h)
  fill_children-Keeps build keeps ((item ∷ []) ∷ buckets) nodes made e h =
      some-then (fill_children build buckets nodes) _ e
        λ rest e1 k1. carry _ made k1 (fill_children-Keeps build keeps buckets nodes rest e1 h)
  fill_children-Keeps build keeps ((item ∷ next ∷ items) ∷ buckets) nodes made e h =
      some-then (build (item ∷ next ∷ items) nodes) _ e λ child e1 k1.
        some-then (fill_children build buckets child.1) _ k1 λ rest e2 k2. carry _ made k2 (
          fill_children-Keeps build keeps buckets child.1 rest e2
            (keeps.keep (item ∷ next ∷ items) nodes child e1 h))

  build_level-Keeps :
      (fuel depth : ℕ) → Keeps (λ items nodes. build_level sha512 fuel items depth nodes)
  unfolding build_level
  build_level-Keeps zero depth = record { keep = λ items nodes made e h. cc e }
  build_level-Keeps (suc fuel) depth = record {
    keep = λ items nodes made e h. some-then (fill_buckets items depth) _ e λ buckets e1 k1.
        some-then (fill_children (λ b ns. build_level sha512 fuel b (depth + 1) ns) buckets nodes) _
          k1
          λ filled e2 k2. carry _ made k2 (
            All-append (Verifies sha512) filled.1 _
              (fill_children-Keeps _ (build_level-Keeps fuel (depth + 1)) buckets nodes filled e2 h)
              (Verifies-inner_of filled.0, tt));
  }

  leaves_verify :
      (txns : List TxRecord) → All (Verifies sha512) (map node_of (map (item_of sha512) txns))
  leaves_verify [] = tt
  leaves_verify (tx ∷ txns) = (Verifies-item_of tx, leaves_verify txns)

  -- When `build_tx_tree` returns a tree, all its nodes pass `verify_state_nodes`.
  pub verify_state_nodes-build_tx_tree :
      (txns : List TxRecord) (root : Hash256) (nodes : List ShaMapNode)
      → build_tx_tree sha512 txns ≡ some (root, nodes)
      → verify_state_nodes sha512 nodes ≡ ok tt
  unfolding build_tx_tree
  verify_state_nodes-build_tx_tree [] root nodes e =
      (verify_state_nodes_iff sha512 nodes).1 (subst (All (Verifies sha512)) {x = []} (cc e) tt)
  verify_state_nodes-build_tx_tree (tx ∷ txns) root nodes e =
      (verify_state_nodes_iff sha512 nodes).1 (
        (build_level-Keeps 64 0).keep (map (item_of sha512) (tx ∷ txns))
          (map node_of (map (item_of sha512) (tx ∷ txns))) (root, nodes) e
          (leaves_verify (tx ∷ txns)))
