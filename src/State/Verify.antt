-- ===== src/State/Verify.antt =====
-- `verify_state_nodes` against the nodes that verify.
use xrpl_ledger_archive.Prelude.Parser.{ok, err, Result}
use xrpl_ledger_archive.Node.{ShaMapNode, Hash256}
use xrpl_ledger_archive.Prelude.{
  List, ℕ, ◌≡◌, ◌++◌, ◌↔◌, ◌∷◌, All, list_eq, false, list_eq_refl, Bool-cases, inl, list_eq→eq, ap,
  inr, [], refl,
}
use xrpl_ledger_archive.State.{recompute_node_hash, verify_state_nodes}

module _ (sha512 : List ℕ → List ℕ) where
  -- The claimed hash is the recomputed one.
  abbrev pub Verifies : ShaMapNode → Type 0
  Verifies node = recompute_node_hash sha512 node ≡ node.hash

  -- `verify_state_nodes` accepts a list just when every node of it has its own hash.
  pub verify_state_nodes_iff :
      (nodes : List ShaMapNode) → (verify_state_nodes sha512 nodes ≡ ok tt) ↔ All Verifies nodes
  unfolding verify_state_nodes
  verify_state_nodes_iff [] = (λ h. tt, λ h. refl)
  verify_state_nodes_iff (node ∷ nodes) =
      elim (Bool-cases (list_eq (recompute_node_hash sha512 node) node.hash)) [
        | inl q ↦
            let (there, back) = verify_state_nodes_iff nodes in
            (λ h. (list_eq→eq _ node.hash q, there (rw q at h)), λ h. rw q (back h.1))
        | inr q ↦ (λ h. absurd (not_ok (rw q at h)), λ h. absurd (differ node (rw h.0 at q)))
      ]
    where
      not_ok : {x : Hash256} → ◌≡◌ {A = Result Hash256 (Unit {0})} (err x) (ok tt) → ⊥
      not_ok e = cc

      differ : (n : ShaMapNode) → list_eq n.hash n.hash ≡ false → ⊥
      differ n e = cc (list_eq_refl n.hash)

  -- The node that an error names.
  pub record FirstBad (nodes : List ShaMapNode) (hash : Hash256) : Type 0 where
    pub before : List ShaMapNode
    pub bad : ShaMapNode
    pub behind : List ShaMapNode
    pub split : nodes ≡ before ++ (bad ∷ behind)
    pub good : All Verifies before
    pub named : bad.hash ≡ hash
    pub fails : ¬ Verifies bad

  -- When `verify_state_nodes` fails, its error is the claimed hash of a node that does not have
  -- that hash, and the nodes in front of it all have theirs.
  pub verify_state_nodes-FirstBad :
      (nodes : List ShaMapNode) (hash : Hash256)
      → verify_state_nodes sha512 nodes ≡ err hash
      → FirstBad nodes hash
  unfolding verify_state_nodes
  verify_state_nodes-FirstBad [] hash h = cc
  verify_state_nodes-FirstBad (node ∷ nodes) hash h =
      elim (Bool-cases (list_eq (recompute_node_hash sha512 node) node.hash)) [
        | inl q ↦
            let later = verify_state_nodes-FirstBad nodes hash (rw q at h) in
            record {
              before = node ∷ later.before;
              bad = later.bad;
              behind = later.behind;
              split = ap (λ ns. node ∷ ns) later.split;
              good = (list_eq→eq _ node.hash q, later.good);
              named = later.named;
              fails = later.fails;
            }
        | inr q ↦ record {
          before = [];
          bad = node;
          behind = nodes;
          split = refl;
          good = tt;
          named = claimed node (rw q at h);
          fails = λ same. differ node (rw same at q);
        }
      ]
    where
      claimed :
          (n : ShaMapNode)
          → ◌≡◌ {A = Result Hash256 (Unit {0})} (err n.hash) (err hash)
          → n.hash ≡ hash
      claimed n e = cc

      differ : (n : ShaMapNode) → list_eq n.hash n.hash ≡ false → ⊥
      differ n e = cc (list_eq_refl n.hash)
