-- ===== src/Reader/Diff/Correct.antt =====
-- What `diff` of crates/xrla-nudb/src/reader.rs returns for two roots.
use xrpl_ledger_archive.Reader.Diff.Sorting.{Memᴰ-sort_by, map_id}
use xrpl_ledger_archive.Reader.Diff.Slots.{NewTree, OldTree}
use xrpl_ledger_archive.Reader.Walk.Seen.{hashes}
use xrpl_ledger_archive.Reader.Diff.Spans.{Spans, Spans-each}
use xrpl_ledger_archive.Reader.Diff.Below.{Below}
use xrpl_ledger_archive.Reader.Diff.Inner.{Spans-inner}
use xrpl_ledger_archive.Reader.Diff.Cases.{
  Spans-equal, Spans-no_new, Spans-no_old, Spans-replaced, Spans-pair,
}
use xrpl_ledger_archive.Prelude.Sort.{sort_by}
use xrpl_ledger_archive.Reader.Diff.{
  diff, inner_of, diff_nodes, is_zero, sorted, by_hash, itself, slots, delete_hash, add_node, each,
}
use xrpl_ledger_archive.Reader.{ReadError}
use xrpl_ledger_archive.Prelude.{
  [], inl, inr, zero, suc, ◌≡◌, ◌&&◌, ℕ, ◌↔◌, ◌⊎◌, list_eq, subst, Bool-cases, subst₂, if-cases,
}
use xrpl_ledger_archive.Prelude.Parser.{Result, ok}
use xrpl_ledger_archive.Prelude.Fallible.{ok-then}
use xrpl_ledger_archive.Node.{Hash256, ShaMapNode, ShaMapDiff, is_inner}
use mathlib.Core.Logic.{⊎_elim}
use mathlib.Core.List.{Memᴰ}
use mathlib.Core.List.Memᴰ

module _ (get_node : Hash256 → Result ReadError ShaMapNode)
    (own : (h : Hash256) (node : ShaMapNode) → get_node h ≡ ok node → node.hash ≡ h) where
  diff_nodes-Spans :
      (n : ℕ) (old_hash new_hash : Hash256) (d d' : ShaMapDiff)
      → diff_nodes get_node n old_hash new_hash d ≡ ok d'
      → Spans (Below get_node new_hash) (Below get_node old_hash) d d'
  unfolding diff_nodes
  diff_nodes-Spans zero old_hash new_hash d d' e = cc e
  diff_nodes-Spans (suc n) old_hash new_hash d d' e =
      if-cases (list_eq old_hash new_hash) e (Spans-equal get_node own old_hash new_hash d d')
        λ differ e1.
          if-cases (is_zero new_hash) e1 (Spans-no_new get_node own n old_hash new_hash d d')
            λ nz e2.
              if-cases (is_zero old_hash) e2 (Spans-no_old get_node own n old_hash new_hash d d')
                λ oz e3. ok-then (get_node new_hash) _ e3 λ new_node ns e4.
                  ok-then (get_node old_hash) _ e4 λ old_node os e5.
                    elim (Bool-cases (is_inner new_node.node_type && is_inner old_node.node_type)) [
                      | inr other ↦
                          Spans-replaced get_node own n old_hash new_hash d d' (rw other at e5)
                      | inl both ↦ ok-then (inner_of new_node) _ (rw both at e5) λ new_inner ni e6.
                          ok-then (inner_of old_node) _ e6 λ old_inner oi e7.
                            ok-then (each _ (slots old_inner.children new_inner.children) d) _ e7
                              λ m e8 e9.
                                let same : delete_hash old_hash (add_node new_node m) ≡ d' =
                                  cc e9 in
                                subst (Spans (Below get_node new_hash) (Below get_node old_hash) d)
                                  same
                                  (Spans-inner get_node own old_hash new_hash old_node new_node
                                    old_inner new_inner d m oz nz os ns both ni oi
                                    (Spans-each (NewTree get_node) (OldTree get_node) _
                                      (λ pair a b.
                                        Spans-pair get_node own n pair a b
                                          (diff_nodes-Spans n pair.0 pair.1 a b))
                                      (slots old_inner.children new_inner.children) d m e8))
                    ]

  -- What a difference has to say of two trees.
  pub record IsDiff (old_root new_root : Hash256) (d : ShaMapDiff) : Type 0 where
    pub added_only : (x : Hash256) → Memᴰ x (hashes d.added) → Below get_node new_root x
    pub added_full :
        (x : Hash256)
        → Below get_node new_root x
        → Below get_node old_root x ⊎ Memᴰ x (hashes d.added)
    pub deleted_only : (x : Hash256) → Memᴰ x d.deleted → Below get_node old_root x
    pub deleted_full :
        (x : Hash256) → Below get_node old_root x → Below get_node new_root x ⊎ Memᴰ x d.deleted

  IsDiff-sorted :
      (old_root new_root : Hash256) (m : ShaMapDiff)
      → Spans
          (Below get_node new_root)
          (Below get_node old_root)
          (record { added = []; deleted = [] })
          m
      → IsDiff old_root new_root (sorted get_node m)
  IsDiff-sorted old_root new_root m h =
      let adds = λ (x : Hash256). Memᴰ-sort_by by_hash by_hash x m.added in
      let dels = λ (x : Hash256).
        subst₂ (λ xs ys. Memᴰ x xs ↔ Memᴰ x ys) (map_id (sort_by itself m.deleted))
          (map_id m.deleted) (Memᴰ-sort_by itself itself x m.deleted) in
      record {
        added_only =
            λ x i. ⊎_elim (λ z. absurd (Memᴰ.not-nil z)) (λ t. t) (h.added.only x ((adds x).0 i));
        added_full = λ x b. ⊎_elim inl (λ i. inr ((adds x).1 i)) (h.added.full x b);
        deleted_only =
            λ x i. ⊎_elim (λ z. absurd (Memᴰ.not-nil z)) (λ t. t) (h.deleted.only x ((dels x).0 i));
        deleted_full = λ x b. ⊎_elim inl (λ i. inr ((dels x).1 i)) (h.deleted.full x b);
      }

  -- If `diff` returns, the added nodes are in the new tree and the deleted hashes in the old one; what
  -- is in the new tree and not in the old one was added, and what is in the old tree and not in the new
  -- one was deleted, although equal subtrees are never read: if what is read under a hash carries that
  -- hash.
  pub diff-IsDiff :
      (fuel : ℕ) (old_root new_root : Hash256) (d : ShaMapDiff)
      → diff get_node fuel old_root new_root ≡ ok d
      → IsDiff old_root new_root d
  unfolding diff
  diff-IsDiff fuel old_root new_root d e =
      ok-then (diff_nodes get_node fuel old_root new_root (record { added = []; deleted = [] })) _ e
        λ m e1 e2.
          let same : sorted get_node m ≡ d = cc e2 in
          subst (IsDiff old_root new_root) same (
            IsDiff-sorted old_root new_root m
              (diff_nodes-Spans fuel old_root new_root (record { added = []; deleted = [] }) m e1))
