-- ===== src/Reader/Diff/Total.antt =====
-- `diff` of crates/xrla-nudb/src/reader.rs returns, on trees that can be read.
use xrpl_ledger_archive.Reader.Diff.Readable.{
  IsReadable, inner_of-children, collect_deleted_total, slots-IsReadable, collect_added_total,
  each_total,
}
use xrpl_ledger_archive.Reader.Diff.Correct.{IsDiff, diff-IsDiff}
use xrpl_ledger_archive.Reader.Walk.{children_of}
use xrpl_ledger_archive.Reader.Diff.{
  diff, slots, is_zero, add_node, delete_hash, diff_nodes, sorted,
}
use xrpl_ledger_archive.Reader.{ReadError}
use xrpl_ledger_archive.Prelude.{
  List, [], ◌∷◌, true, false, inl, inr, zero, suc, ℕ, All, ◌≡◌, refl, Bool-cases, list_eq, ◌&&◌,
  subst, sym, and_parts,
}
use xrpl_ledger_archive.Prelude.Parser.{Result, ok}
use xrpl_ledger_archive.Prelude.Fallible.{>>=-ok}
use xrpl_ledger_archive.Node.{Hash256, ShaMapNode, ShaMapDiff, is_inner}

module _ (get_node : Hash256 → Result ReadError ShaMapNode) where
  abbrev Pair : Type 0
  Pair = Hash256 × Hash256

  -- The call for a slot, which is made only if its two hashes differ.
  abbrev slot_step : ℕ → Pair → ShaMapDiff → Result ReadError ShaMapDiff
  slot_step n pair d = elim (list_eq pair.0 pair.1) [
    | true ↦ ok d
    | false ↦ diff_nodes get_node n pair.0 pair.1 d
  ]

  slot_step_total :
      (n : ℕ) (pair : Pair)
      → ((d : ShaMapDiff) → (d' : ShaMapDiff) × (diff_nodes get_node n pair.0 pair.1 d ≡ ok d'))
      → (d : ShaMapDiff) → (d' : ShaMapDiff) × (slot_step n pair d ≡ ok d')
  slot_step_total n pair h d = elim (Bool-cases (list_eq pair.0 pair.1)) [
    | inl same ↦ (d, rw (same, slot_step) refl)
    | inr differ ↦ let (d', e) = h d in (d', rw (differ, slot_step) e)
  ]

  -- A tree that is there has a root, which can be read.
  IsReadable-node :
      (n : ℕ) (h : Hash256)
      → IsReadable get_node (suc n) h
      → is_zero h ≡ false
      → (node : ShaMapNode) × (children : List Hash256) × (get_node h ≡ ok node)
        × (children_of node ≡ ok children)
        × All (IsReadable get_node n) children
  unfolding IsReadable
  IsReadable-node n h (inl k) z = cc (k, z)
  IsReadable-node n h (inr there) z = there

  no_levels : (h : Hash256) → IsReadable get_node 0 h → is_zero h ≡ false → ⊥
  unfolding IsReadable
  no_levels h k z = cc (k, z)

  All-pairs :
      (n : ℕ)
      → ((pair : Pair)
          → IsReadable get_node n pair.0 × IsReadable get_node n pair.1
          → (e : ShaMapDiff)
          → (e' : ShaMapDiff) × (diff_nodes get_node (suc n) pair.0 pair.1 e ≡ ok e'))
      → (pairs : List Pair)
      → All (λ (pair : Pair). IsReadable get_node n pair.0 × IsReadable get_node n pair.1) pairs
      → All
          (λ (pair : Pair).
            (e : ShaMapDiff) → (e' : ShaMapDiff) × (slot_step (suc n) pair e ≡ ok e'))
          pairs
  All-pairs n ih [] k = tt
  All-pairs n ih (pair ∷ pairs) k =
      (slot_step_total (suc n) pair (ih pair k.0), All-pairs n ih pairs k.1)

  -- Two nodes that are there and differ, when the calls for their slots return.
  module _ (n : ℕ) (old_hash new_hash : Hash256) (differ : list_eq old_hash new_hash ≡ false)
      (nz : is_zero new_hash ≡ false) (oz : is_zero old_hash ≡ false)
      (old_tree : IsReadable get_node (suc n) old_hash)
      (new_tree : IsReadable get_node (suc n) new_hash) (d : ShaMapDiff) where
    nodes_total :
        (old_node new_node : ShaMapNode) (old_children new_children : List Hash256)
        → get_node old_hash ≡ ok old_node
        → children_of old_node ≡ ok old_children
        → All (IsReadable get_node n) old_children
        → get_node new_hash ≡ ok new_node
        → children_of new_node ≡ ok new_children
        → All (IsReadable get_node n) new_children
        → ((pair : Pair)
            → IsReadable get_node n pair.0 × IsReadable get_node n pair.1
            → (e : ShaMapDiff)
            → (e' : ShaMapDiff) × (diff_nodes get_node (suc n) pair.0 pair.1 e ≡ ok e'))
        → (d' : ShaMapDiff) × (diff_nodes get_node (suc (suc n)) old_hash new_hash d ≡ ok d')
    unfolding diff_nodes
    nodes_total old_node new_node old_children new_children os oc ob ns nc nb ih =
        elim (Bool-cases (is_inner new_node.node_type && is_inner old_node.node_type)) [
          | inl both ↦
              let kinds = and_parts _ _ both in
              let (new_inner, ni, nq) = inner_of-children new_node new_children kinds.0 nc in
              let (old_inner, oi, oq) = inner_of-children old_node old_children kinds.1 oc in
              let readable =
                slots-IsReadable get_node n old_inner.children new_inner.children
                  (subst (All (IsReadable get_node n)) (sym oq) ob)
                  (subst (All (IsReadable get_node n)) (sym nq) nb) in
              let (m, e) =
                each_total (slot_step (suc n)) (slots old_inner.children new_inner.children)
                  (All-pairs n ih (slots old_inner.children new_inner.children) readable) d in
              (
                delete_hash old_hash (add_node new_node m),
                rw (differ, nz, oz)
                    (>>=-ok _ ns
                      (>>=-ok _ os (rw both (>>=-ok _ ni (>>=-ok _ oi (>>=-ok _ e refl)))))),
              )
          | inr other ↦
              let (m, e) = collect_added_total get_node (suc n) new_hash new_tree d in
              let (d', e') = collect_deleted_total get_node (suc n) old_hash old_tree m in
              (d', rw (differ, nz, oz) (>>=-ok _ ns (>>=-ok _ os (rw other (>>=-ok _ e e')))))
        ]

    both_total :
        ((pair : Pair)
          → IsReadable get_node n pair.0 × IsReadable get_node n pair.1
          → (e : ShaMapDiff)
          → (e' : ShaMapDiff) × (diff_nodes get_node (suc n) pair.0 pair.1 e ≡ ok e'))
        → (d' : ShaMapDiff) × (diff_nodes get_node (suc (suc n)) old_hash new_hash d ≡ ok d')
    both_total ih =
        let (old_node, old_children, os, oc, ob) = IsReadable-node n old_hash old_tree oz in
        let (new_node, new_children, ns, nc, nb) = IsReadable-node n new_hash new_tree nz in
        nodes_total old_node new_node old_children new_children os oc ob ns nc nb ih

  -- The branches of the routine, given the one for two nodes that are there and differ.
  branches_total :
      (n : ℕ) (old_hash new_hash : Hash256)
      → IsReadable get_node n old_hash
      → IsReadable get_node n new_hash
      → (d : ShaMapDiff)
      → (list_eq old_hash new_hash ≡ false
          → is_zero new_hash ≡ false
          → is_zero old_hash ≡ false
          → (d' : ShaMapDiff) × (diff_nodes get_node (suc n) old_hash new_hash d ≡ ok d'))
      → (d' : ShaMapDiff) × (diff_nodes get_node (suc n) old_hash new_hash d ≡ ok d')
  unfolding diff_nodes
  branches_total n old_hash new_hash h k d both = elim (Bool-cases (list_eq old_hash new_hash)) [
    | inl same ↦ (d, rw same refl)
    | inr differ ↦ elim (Bool-cases (is_zero new_hash)) [
      | inl nz ↦
          let (d', e) = collect_deleted_total get_node n old_hash h d in (d', rw (differ, nz) e)
      | inr nz ↦ elim (Bool-cases (is_zero old_hash)) [
        | inl oz ↦
            let (d', e) = collect_added_total get_node n new_hash k d in (d', rw (differ, nz, oz) e)
        | inr oz ↦ both differ nz oz
      ]
    ]
  ]

  diff_nodes_total :
      (n : ℕ) (old_hash new_hash : Hash256)
      → IsReadable get_node n old_hash
      → IsReadable get_node n new_hash
      → (d : ShaMapDiff)
      → (d' : ShaMapDiff) × (diff_nodes get_node (suc n) old_hash new_hash d ≡ ok d')
  diff_nodes_total zero old_hash new_hash h k d =
      branches_total zero old_hash new_hash h k d λ differ nz oz. absurd (no_levels old_hash h oz)
  diff_nodes_total (suc n) old_hash new_hash h k d =
      branches_total (suc n) old_hash new_hash h k d λ differ nz oz.
        both_total n old_hash new_hash differ nz oz h k d
          λ pair q. diff_nodes_total n pair.0 pair.1 q.0 q.1

  -- With fuel for one level more than the two trees have, `diff` returns, and the added nodes are in
  -- the new tree and the deleted hashes in the old one; what is in the new tree and not in the old one
  -- was added, and what is in the old tree and not in the new one was deleted: if both trees can be
  -- read, and what is read under a hash carries that hash.
  pub diff_total :
      (own : (h : Hash256) (node : ShaMapNode) → get_node h ≡ ok node → node.hash ≡ h)
      → (levels : ℕ) (old_root new_root : Hash256) → IsReadable get_node levels old_root
      → IsReadable get_node levels new_root
      → (d : ShaMapDiff) × (diff get_node (suc levels) old_root new_root ≡ ok d)
        × IsDiff get_node own old_root new_root d
  diff_total own levels old_root new_root h k =
      let (m, e) =
        diff_nodes_total levels old_root new_root h k (record { added = []; deleted = [] }) in
      let e' : diff get_node (suc levels) old_root new_root ≡ ok (sorted get_node m) =
        unfold diff in rw e refl in
      (
        sorted get_node m,
        e',
        diff-IsDiff get_node own (suc levels) old_root new_root (sorted get_node m) e',
      )
