-- ===== src/State.antt =====
-- Hashes of nodes and of ledgers: crates/xrla-common/src/state_tree.rs, and `LedgerHashInput` with
-- its two functions in crates/xrla-common/src/serialize.rs.
pub mod Verify
pub mod Header
mod Examples
use xrpl_ledger_archive.Prelude.{ℕ, not, List, [], ◌∷◌, ◌++◌, if◌then◌else◌, list_eq}
use xrpl_ledger_archive.Prelude.Parser.{Result, ok, err}
use xrpl_ledger_archive.Node.{Hash256, NodeType, inner, compressed_inner, ShaMapNode}
use xrpl_ledger_archive.Chunk.Write.{sha512half, write_u32be, write_u64be}

-- `b"MIN\0"`
abbrev pub hash_prefix_inner_node : List ℕ
hash_prefix_inner_node = 77 ∷ 73 ∷ 78 ∷ 0 ∷ []

pub record LedgerHashInput : Type 0 where
  pub seq : ℕ
  pub drops : ℕ
  pub parent_hash : Hash256
  pub tx_hash : Hash256
  pub account_hash : Hash256
  pub parent_close_time : ℕ
  pub close_time : ℕ
  pub close_time_resolution : ℕ
  pub close_flags : ℕ

unfoldable pub ledger_header_object : LedgerHashInput → List ℕ
ledger_header_object h =
    (76 ∷ 87 ∷ 82 ∷ 0 ∷ [])
    ++ (write_u32be h.seq
        ++ (write_u64be h.drops
            ++ (h.parent_hash
                ++ (h.tx_hash
                    ++ (h.account_hash
                        ++ (write_u32be h.parent_close_time
                            ++ (write_u32be h.close_time
                                ++ (h.close_time_resolution ∷ h.close_flags ∷ []))))))))

-- SHA-512 is the crate `sha2`.
module _ (sha512 : List ℕ → List ℕ) where
  unfoldable pub calculate_ledger_hash : LedgerHashInput → Hash256
  calculate_ledger_hash h = sha512half sha512 (ledger_header_object h)

  unfoldable pub recompute_node_hash : ShaMapNode → Hash256
  recompute_node_hash node = elim node.node_type [
    | inner ↦ sha512half sha512 (hash_prefix_inner_node ++ node.content)
    | compressed_inner ↦ sha512half sha512 (hash_prefix_inner_node ++ node.content)
    | _ ↦ sha512half sha512 node.content
  ]

  -- The error is the claimed hash of the first node that fails.
  unfoldable pub verify_state_nodes : List ShaMapNode → Result Hash256 (Unit {0})
  verify_state_nodes [] = ok tt
  verify_state_nodes (node ∷ nodes) =
      if not (list_eq (recompute_node_hash node) node.hash)
      then err node.hash
      else verify_state_nodes nodes
