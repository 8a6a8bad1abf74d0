-- ===== src/State/Examples.antt =====
-- Runs of the node checks and of the ledger header.
use xrpl_ledger_archive.Chunk.Write.{sha512half}
use xrpl_ledger_archive.Prelude.Parser.{ok}
use xrpl_ledger_archive.State.Header.{IsHeader, ledger_header_object_inj}
use xrpl_ledger_archive.State.Verify.{
  FirstBad, verify_state_nodes-FirstBad, Verifies, verify_state_nodes_iff,
}
use xrpl_ledger_archive.State.{verify_state_nodes, LedgerHashInput, recompute_node_hash}
use xrpl_ledger_archive.Node.{ShaMapNode, account_state, inner}
use xrpl_ledger_archive.Prelude.{
  List, ◌≡◌, ℕ, ◌∷◌, replicate, arith, length, [], refl, ◌%◌, ◌↔◌, All,
}

abbrev digest : List ℕ → List ℕ
digest bytes = length bytes % 256 ∷ replicate 63 0

-- A leaf under its own hash, and an inner node under a wrong one.
abbrev good_leaf : ShaMapNode
good_leaf = record { hash = 2 ∷ replicate 31 0; node_type = account_state; content = 5 ∷ 6 ∷ [] }

abbrev bad_inner : ShaMapNode
bad_inner = record { hash = replicate 32 1; node_type = inner; content = [] }

verify_state_nodes_iff_example :
    (verify_state_nodes digest (good_leaf ∷ bad_inner ∷ []) ≡ ok tt)
    ↔ All (Verifies digest) (good_leaf ∷ bad_inner ∷ [])
verify_state_nodes_iff_example = verify_state_nodes_iff digest (good_leaf ∷ bad_inner ∷ [])

verify_state_nodes-FirstBad_example : FirstBad digest (good_leaf ∷ bad_inner ∷ []) bad_inner.hash
verify_state_nodes-FirstBad_example =
    verify_state_nodes-FirstBad digest (good_leaf ∷ bad_inner ∷ []) bad_inner.hash
      (unfold verify_state_nodes recompute_node_hash sha512half in refl)

abbrev ledger : LedgerHashInput
ledger = record {
  seq = 3;
  drops = 1000;
  parent_hash = replicate 32 1;
  tx_hash = replicate 32 2;
  account_hash = replicate 32 3;
  parent_close_time = 4;
  close_time = 5;
  close_time_resolution = 10;
  close_flags = 0;
}

ledger-IsHeader : IsHeader ledger
ledger-IsHeader = record {
  seq_bound = omega arith;
  drops_bound = omega arith;
  parent_hash_size = refl;
  tx_hash_size = refl;
  account_hash_size = refl;
  parent_close_time_bound = omega arith;
  close_time_bound = omega arith;
}

ledger_header_object_inj_example : ledger ≡ ledger
ledger_header_object_inj_example =
    ledger_header_object_inj ledger ledger ledger-IsHeader ledger-IsHeader refl
