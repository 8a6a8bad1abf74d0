-- ===== src/Reader/Diff/Cases.antt =====
-- The branches of `diff_nodes` of crates/xrla-nudb/src/reader.rs.
use xrpl_ledger_archive.Reader.Diff.Spans.{
  Spans, Spans-same, Spans-map, zero_tree, collect_deleted-Spans, collect_added-Spans, drop_nothing,
  Spans-seq,
}
use xrpl_ledger_archive.Reader.Diff.Below.{Below}
use xrpl_ledger_archive.Reader.Diff.{diff_nodes, is_zero, collect_added, collect_deleted}
use xrpl_ledger_archive.Reader.{ReadError}
use xrpl_ledger_archive.Prelude.{
  true, false, inl, inr, suc, ◌≡◌, ℕ, list_eq, subst, Bool-cases, list_eq→eq, sym,
}
use xrpl_ledger_archive.Prelude.Parser.{Result, ok}
use xrpl_ledger_archive.Prelude.Fallible.{ok-then, ◌>>=◌}
use xrpl_ledger_archive.Node.{Hash256, ShaMapNode, ShaMapDiff}
use mathlib.Core.Logic.{⊎_elim}

module _ (get_node : Hash256 → Result ReadError ShaMapNode)
    (own : (h : Hash256) (node : ShaMapNode) → get_node h ≡ ok node → node.hash ≡ h) where
  abbrev pub Tree : Hash256 → Hash256 → Type 0
  Tree h = Below get_node h

  pub Spans-equal :
      (old_hash new_hash : Hash256) (d d' : ShaMapDiff)
      → list_eq old_hash new_hash ≡ true
      → ◌≡◌ {A = Result ReadError ShaMapDiff} (ok d) (ok d')
      → Spans (Tree new_hash) (Tree old_hash) d d'
  Spans-equal old_hash new_hash d d' same e =
      let q = list_eq→eq old_hash new_hash same in
      Spans-same d d' e (λ x b. subst (λ h. Tree h x) (sym q) b) (λ x b. subst (λ h. Tree h x) q b)

  pub Spans-no_new :
      (n : ℕ) (old_hash new_hash : Hash256) (d d' : ShaMapDiff)
      → is_zero new_hash ≡ true
      → collect_deleted get_node (suc n) old_hash d ≡ ok d'
      → Spans (Tree new_hash) (Tree old_hash) d d'
  Spans-no_new n old_hash new_hash d d' nz e =
      Spans-map d d' (λ x. (λ o. absurd o, λ b. absurd (zero_tree get_node own new_hash nz x b)))
        (λ x. (λ b. b, λ b. b)) (collect_deleted-Spans get_node own (suc n) old_hash d d' e)

  pub Spans-no_old :
      (n : ℕ) (old_hash new_hash : Hash256) (d d' : ShaMapDiff)
      → is_zero old_hash ≡ true
      → collect_added get_node (suc n) new_hash d ≡ ok d'
      → Spans (Tree new_hash) (Tree old_hash) d d'
  Spans-no_old n old_hash new_hash d d' oz e =
      Spans-map d d' (λ x. (λ b. b, λ b. b))
        (λ x. (λ o. absurd o, λ b. absurd (zero_tree get_node own old_hash oz x b)))
        (collect_added-Spans get_node own (suc n) new_hash d d' e)

  -- Where one of the two nodes is a leaf.
  pub Spans-replaced :
      (n : ℕ) (old_hash new_hash : Hash256) (d d' : ShaMapDiff)
      → (collect_added get_node (suc n) new_hash d >>= λ m.
          collect_deleted get_node (suc n) old_hash m)
        ≡ ok d'
      → Spans (Tree new_hash) (Tree old_hash) d d'
  Spans-replaced n old_hash new_hash d d' e =
      ok-then (collect_added get_node (suc n) new_hash d) _ e λ m e1 e2.
        Spans-map d d' (λ x. drop_nothing (λ o. o)) (λ x. (⊎_elim (λ o. absurd o) (λ b. b), inr))
          (Spans-seq d m d' (collect_added-Spans get_node own (suc n) new_hash d m e1)
            (collect_deleted-Spans get_node own (suc n) old_hash m d' e2))

  -- A pair of slots.
  pub Spans-pair :
      (n : ℕ) (pair : Hash256 × Hash256) (a b : ShaMapDiff)
      → (diff_nodes get_node n pair.0 pair.1 a ≡ ok b → Spans (Tree pair.1) (Tree pair.0) a b)
      → ◌≡◌ {A = Result ReadError ShaMapDiff}
          (elim (list_eq pair.0 pair.1) [
            | true ↦ ok a
            | false ↦ diff_nodes get_node n pair.0 pair.1 a
          ])
          (ok b)
      → Spans (Tree pair.1) (Tree pair.0) a b
  Spans-pair n pair a b ih e = elim (Bool-cases (list_eq pair.0 pair.1)) [
    | inl same ↦ Spans-equal pair.0 pair.1 a b same (rw same at e)
    | inr differ ↦ ih (rw differ at e)
  ]
