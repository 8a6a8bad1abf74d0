-- ===== src/Reader/Diff/Inner.antt =====
-- Two inner nodes in `diff_nodes` of crates/xrla-nudb/src/reader.rs.
use xrpl_ledger_archive.Node.Sixteen.{length-children}
use xrpl_ledger_archive.Reader.Diff.Slots.{
  NewTree, OldTree, children_of-inner, new_trees, old_trees,
}
use xrpl_ledger_archive.Reader.Diff.Spans.{
  Spans, Spans-map, Spans-add_node, Spans-delete_hash, drop_nothing, Spans-seq,
}
use xrpl_ledger_archive.Reader.Diff.Below.{Below, AnyOf, Below-parts}
use xrpl_ledger_archive.Reader.Diff.{inner_of, is_zero, slots, delete_hash, add_node}
use xrpl_ledger_archive.Reader.{ReadError}
use xrpl_ledger_archive.Prelude.{
  true, false, inl, inr, ◌≡◌, ◌&&◌, ◌↔◌, ◌⊎◌, sym, length, ◌∙◌, and_parts,
}
use xrpl_ledger_archive.Prelude.Parser.{Result, ok}
use xrpl_ledger_archive.Node.{Hash256, ShaMapNode, InnerNode, ShaMapDiff, is_inner, child_hashes}
use mathlib.Core.Logic.{⊎_elim}

slots_and_root : {S T R B : Type 0} → S ↔ T → (T ⊎ R) ↔ B → (S ⊎ R) ↔ B
slots_and_root s t =
    (λ m. t.0 (⊎_elim (λ a. inl (s.0 a)) inr m), λ b. ⊎_elim (λ a. inl (s.1 a)) inr (t.1 b))

module _ (get_node : Hash256 → Result ReadError ShaMapNode)
    (own : (h : Hash256) (node : ShaMapNode) → get_node h ≡ ok node → node.hash ≡ h) where
  -- When the routine spans the trees of their slots.
  pub Spans-inner :
      (old_hash new_hash : Hash256) (old_node new_node : ShaMapNode)
      (old_inner new_inner : InnerNode) (d m : ShaMapDiff)
      → is_zero old_hash ≡ false
      → is_zero new_hash ≡ false
      → get_node old_hash ≡ ok old_node
      → get_node new_hash ≡ ok new_node
      → (is_inner new_node.node_type && is_inner old_node.node_type) ≡ true
      → inner_of new_node ≡ ok new_inner
      → inner_of old_node ≡ ok old_inner
      → Spans
          (AnyOf (NewTree get_node) (slots old_inner.children new_inner.children))
          (AnyOf (OldTree get_node) (slots old_inner.children new_inner.children))
          d
          m
      → Spans
          (Below get_node new_hash)
          (Below get_node old_hash)
          d
          (delete_hash old_hash (add_node new_node m))
  Spans-inner old_hash new_hash old_node new_node old_inner new_inner d m oz nz os ns both ni oi h =
      let kinds = and_parts _ _ both in
      let new_parts = children_of-inner new_node new_inner kinds.0 ni in
      let old_parts = children_of-inner old_node old_inner kinds.1 oi in
      let sizes : length old_inner.children ≡ length new_inner.children =
        length-children old_node old_inner old_parts.0
        ∙ sym (length-children new_node new_inner new_parts.0) in
      let new_tree = λ (x : Hash256).
        slots_and_root (new_trees get_node old_inner.children new_inner.children x sizes)
          (Below-parts get_node new_hash new_node (child_hashes new_inner) nz ns new_parts.1 x) in
      let old_tree = λ (x : Hash256).
        slots_and_root (old_trees get_node old_inner.children new_inner.children x sizes)
          (Below-parts get_node old_hash old_node (child_hashes old_inner) oz os old_parts.1 x) in
      let added = Spans-add_node new_node new_hash m (own new_hash new_node ns) in
      let deleted = Spans-delete_hash old_hash (add_node new_node m) in
      Spans-map d (delete_hash old_hash (add_node new_node m))
        (λ x. (⊎_elim (new_tree x).0 (λ o. absurd o), λ b. inl ((new_tree x).1 b)))
        (λ x. (
          λ t. (old_tree x).0 (⊎_elim (λ s. inl ((drop_nothing (λ o. o)).0 s)) inr t),
          λ b. ⊎_elim (λ s. inl (inl s)) inr ((old_tree x).1 b),
        ))
        (Spans-seq d (add_node new_node m) (delete_hash old_hash (add_node new_node m))
          (Spans-seq d m (add_node new_node m) h added) deleted)
