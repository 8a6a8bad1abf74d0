-- ===== src/Reader/Diff/Slots.antt =====
-- The slots of the two inner nodes that `diff_nodes` of crates/xrla-nudb/src/reader.rs pairs.
use xrpl_ledger_archive.Reader.Diff.{slots, unwrap_or_zero}
use xrpl_ledger_archive.Reader.Diff.Below.{Below, AnyOf, not-Below-zero}
use xrpl_ledger_archive.Reader.Walk.{children_of}
use xrpl_ledger_archive.Reader.Diff.{inner_of}
use xrpl_ledger_archive.Reader.{ReadError, invalid_node}
use xrpl_ledger_archive.Prelude.{
  List, [], ◌∷◌, true, inl, inr, none, some, Option, length, ◌≡◌, ◌⊎◌, ◌↔◌, arith, refl,
}
use xrpl_ledger_archive.Prelude.Parser.{Result, ok, err}
use xrpl_ledger_archive.Node.{
  Hash256, ShaMapNode, child_hashes, InnerNode, is_inner, from_node, ShaMapError, zero_hash,
}
use mathlib.Core.Logic.{⊎_elim}

-- The children of an inner node, as the walks list them.
pub children_of-inner :
    (node : ShaMapNode) (i : InnerNode)
    → is_inner node.node_type ≡ true
    → inner_of node ≡ ok i
    → (from_node node ≡ ok i) × (children_of node ≡ ok (child_hashes i))
unfolding children_of
children_of-inner node i is e = rw is (go (from_node node) e)
  where
    go :
        (r : Result ShaMapError InnerNode)
        → ◌≡◌ {A = Result ReadError InnerNode}
            (elim r [ ok j ↦ ok j | err x ↦ err (invalid_node x) ])
            (ok i)
        → (r ≡ ok i)
          × ◌≡◌ {A = Result ReadError (List Hash256)}
              (elim r [ ok j ↦ ok (child_hashes j) | err x ↦ err (invalid_node x) ])
              (ok (child_hashes i))
    go (ok j) q = let same : j ≡ i = cc q in (rw same refl, rw same refl)
    go (err x) q = cc q

module _ (get_node : Hash256 → Result ReadError ShaMapNode) where
  abbrev pub NewTree : Hash256 × Hash256 → Hash256 → Type 0
  NewTree pair x = Below get_node pair.1 x

  abbrev pub OldTree : Hash256 × Hash256 → Hash256 → Type 0
  OldTree pair x = Below get_node pair.0 x

  -- The trees in the slots are the trees of the children.
  slot-to :
      (c : Option Hash256) (cs : List (Option Hash256)) (x : Hash256) {P : Type 0}
      → (P → AnyOf (Below get_node) (child_hashes (record { children = cs })) x)
      → Below get_node (unwrap_or_zero c) x ⊎ P
      → AnyOf (Below get_node) (child_hashes (record { children = c ∷ cs })) x
  unfolding child_hashes
  slot-to none cs x f n = ⊎_elim (λ b. absurd (not-Below-zero get_node zero_hash x refl b)) f n
  slot-to (some h) cs x f n = ⊎_elim inl (λ p. inr (f p)) n

  slot-from :
      (c : Option Hash256) (cs : List (Option Hash256)) (x : Hash256) {P : Type 0}
      → (AnyOf (Below get_node) (child_hashes (record { children = cs })) x → P)
      → AnyOf (Below get_node) (child_hashes (record { children = c ∷ cs })) x
      → Below get_node (unwrap_or_zero c) x ⊎ P
  unfolding child_hashes
  slot-from none cs x f n = inr (f n)
  slot-from (some h) cs x f n = ⊎_elim inl (λ t. inr (f t)) n

  pub new_trees :
      (os ns : List (Option Hash256)) (x : Hash256)
      → length os ≡ length ns
      → AnyOf NewTree (slots os ns) x
        ↔ AnyOf (Below get_node) (child_hashes (record { children = ns })) x
  unfolding slots
  new_trees [] [] x e = unfold child_hashes in (λ n. n, λ n. n)
  new_trees [] (b ∷ bs) x e = absurd (omega arith)
  new_trees (a ∷ as') [] x e = absurd (omega arith)
  new_trees (a ∷ as') (b ∷ bs) x e =
      let rest = new_trees as' bs x (omega arith) in
      (slot-to b bs x rest.0, slot-from b bs x rest.1)

  pub old_trees :
      (os ns : List (Option Hash256)) (x : Hash256)
      → length os ≡ length ns
      → AnyOf OldTree (slots os ns) x
        ↔ AnyOf (Below get_node) (child_hashes (record { children = os })) x
  unfolding slots
  old_trees [] [] x e = unfold child_hashes in (λ n. n, λ n. n)
  old_trees [] (b ∷ bs) x e = absurd (omega arith)
  old_trees (a ∷ as') [] x e = absurd (omega arith)
  old_trees (a ∷ as') (b ∷ bs) x e =
      let rest = old_trees as' bs x (omega arith) in
      (slot-to a as' x rest.0, slot-from a as' x rest.1)
