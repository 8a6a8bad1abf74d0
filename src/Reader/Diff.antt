-- ===== src/Reader/Diff.antt =====
-- `diff`, `diff_nodes`, `collect_added` and `collect_deleted` of
-- crates/xrla-nudb/src/reader.rs. The difference that they fill is passed along; `fuel` bounds the
-- depth of their recursion. They read the store through `get_node` alone.
pub mod Below
pub mod Slots
pub mod Spans
pub mod Sorting
pub mod Inner
pub mod Cases
pub mod Correct
pub mod Readable
pub mod Total
use xrpl_ledger_archive.Prelude.Sort.{sort_by}
use xrpl_ledger_archive.Reader.{ReadError, out_of_fuel, invalid_node}
use xrpl_ledger_archive.Prelude.{
  Bool, Option, none, some, List, [], ◌∷◌, ◌++◌, zero, suc, true, false, list_eq, ℕ, if◌then◌else◌,
  ◌&&◌,
}
use xrpl_ledger_archive.Prelude.Parser.{Result, ok, err}
use xrpl_ledger_archive.Prelude.Fallible.{◌>>=◌}
use xrpl_ledger_archive.Node.{
  Hash256, ShaMapNode, ShaMapDiff, InnerNode, zero_hash, from_node, is_inner,
}
use xrpl_ledger_archive.Reader.Walk.{children_of}

abbrev pub is_zero : Hash256 → Bool
is_zero h = list_eq h zero_hash

abbrev pub add_node : ShaMapNode → ShaMapDiff → ShaMapDiff
add_node node diff = record diff { added = diff.added ++ node ∷ [] }

abbrev pub delete_hash : Hash256 → ShaMapDiff → ShaMapDiff
delete_hash h diff = record diff { deleted = diff.deleted ++ h ∷ [] }

-- A call for each element, in order.
unfoldable pub each :
    {A : Type 0}
    → (A → ShaMapDiff → Result ReadError ShaMapDiff)
    → List A
    → ShaMapDiff
    → Result ReadError ShaMapDiff
each f [] diff = ok diff
each f (x ∷ xs) diff = f x diff >>= λ diff'. each f xs diff'

abbrev pub inner_of : ShaMapNode → Result ReadError InnerNode
inner_of node = elim (from_node node) [ ok i ↦ ok i | err e ↦ err (invalid_node e) ]

abbrev pub unwrap_or_zero : Option Hash256 → Hash256
unwrap_or_zero none = zero_hash
unwrap_or_zero (some h) = h

-- The children of two inner nodes, slot by slot.
unfoldable pub slots : List (Option Hash256) → List (Option Hash256) → List (Hash256 × Hash256)
slots (a ∷ as') (b ∷ bs) = (unwrap_or_zero a, unwrap_or_zero b) ∷ slots as' bs
slots [] bs = []
slots (a ∷ as') [] = []

abbrev pub by_hash : ShaMapNode → List ℕ
by_hash node = node.hash

abbrev pub itself : Hash256 → List ℕ
itself h = h

module _ (get_node : Hash256 → Result ReadError ShaMapNode) where
  unfoldable pub collect_added : ℕ → Hash256 → ShaMapDiff → Result ReadError ShaMapDiff
  collect_added zero hash diff = err out_of_fuel
  collect_added (suc n) hash diff = elim (is_zero hash) [
    | true ↦ ok diff
    | false ↦ get_node hash >>= λ node. children_of node >>= λ children.
        each (collect_added n) children diff >>= λ diff'. ok (add_node node diff')
  ]

  unfoldable pub collect_deleted : ℕ → Hash256 → ShaMapDiff → Result ReadError ShaMapDiff
  collect_deleted zero hash diff = err out_of_fuel
  collect_deleted (suc n) hash diff = elim (is_zero hash) [
    | true ↦ ok diff
    | false ↦ elim (get_node hash) [
      | err e ↦ ok (delete_hash hash diff)
      | ok node ↦ children_of node >>= λ children.
          each (collect_deleted n) children diff >>= λ diff'. ok (delete_hash hash diff')
    ]
  ]

  unfoldable pub diff_nodes : ℕ → Hash256 → Hash256 → ShaMapDiff → Result ReadError ShaMapDiff
  unfolding collect_added collect_deleted
  diff_nodes zero old_hash new_hash diff = err out_of_fuel
  diff_nodes (suc n) old_hash new_hash diff =
      if list_eq old_hash new_hash
      then ok diff
      else if is_zero new_hash
      then collect_deleted (suc n) old_hash diff
      else if is_zero old_hash
      then collect_added (suc n) new_hash diff
      else get_node new_hash >>= λ new_node. get_node old_hash >>= λ old_node.
          elim (is_inner new_node.node_type && is_inner old_node.node_type) [
            | true ↦ inner_of new_node >>= λ new_inner. inner_of old_node >>= λ old_inner.
                each
                  (λ pair diff'. elim (list_eq pair.0 pair.1) [
                    | true ↦ ok diff'
                    | false ↦ diff_nodes n pair.0 pair.1 diff'
                  ])
                  (slots old_inner.children new_inner.children) diff
                >>= λ diff'. ok (delete_hash old_hash (add_node new_node diff'))
            | false ↦ collect_added (suc n) new_hash diff >>= λ diff'.
                collect_deleted (suc n) old_hash diff'
          ]

  abbrev pub sorted : ShaMapDiff → ShaMapDiff
  sorted diff = record { added = sort_by by_hash diff.added; deleted = sort_by itself diff.deleted }

  unfoldable pub diff : ℕ → Hash256 → Hash256 → Result ReadError ShaMapDiff
  unfolding diff_nodes
  diff fuel old_root new_root =
      diff_nodes fuel old_root new_root (record { added = []; deleted = [] }) >>= λ d. ok (sorted d)
