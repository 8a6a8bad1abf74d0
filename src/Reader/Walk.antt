-- ===== src/Reader/Walk.antt =====
-- `collect_reachable`, `collect_reachable_concurrent`, `sample_hashes` and `collect_transactions` of
-- crates/xrla-nudb/src/reader.rs. They read the store through `get_node` alone, which is a parameter
-- here. A `HashSet` is the list of what was inserted, the last one first.
pub mod Seen
pub mod Reached
pub mod Correct
pub mod Total
pub mod Spread
pub mod Levels
pub mod Rounds
pub mod Transactions
pub mod Sampled
use xrpl_ledger_archive.Prelude.Sort.{sort_by}
use xrpl_ledger_archive.TxTree.ReadLeaf.{parse_tx_leaf}
use xrpl_ledger_archive.Chunk.Types.{TxRecord}
use xrpl_ledger_archive.Reader.{ReadError, out_of_fuel, invalid_node, invalid_leaf}
use xrpl_ledger_archive.Prelude.{
  Bool, Option, none, some, List, [], ◌∷◌, ◌++◌, zero, suc, true, false, list_eq, if◌then◌else◌, ℕ,
  ◌||◌, not, map, leb, length,
}
use xrpl_ledger_archive.Prelude.Parser.{Result, ok, err}
use xrpl_ledger_archive.Prelude.Fallible.{◌>>=◌}
use xrpl_ledger_archive.Node.{
  Hash256, ShaMapNode, NodeType, is_inner, from_node, child_hashes, zero_hash,
}

unfoldable pub contains : Hash256 → List Hash256 → Bool
contains h [] = false
contains h (x ∷ xs) = list_eq h x || contains h xs

-- The children of a node; a leaf has none.
unfoldable pub children_of : ShaMapNode → Result ReadError (List Hash256)
children_of node =
    if is_inner node.node_type
    then elim (from_node node) [ ok inner ↦ ok (child_hashes inner) | err e ↦ err (invalid_node e) ]
    else ok []

-- `if !visited.contains(child) { stack.push(child) }` for each child; the stack's top comes first.
unfoldable pub push_unvisited : List Hash256 → List Hash256 → List Hash256 → List Hash256
push_unvisited visited [] stack = stack
push_unvisited visited (c ∷ cs) stack =
    push_unvisited visited cs (if not (contains c visited) then c ∷ stack else stack)

-- `if visited.insert(child) { push(child) }` for each child: the set, and the list it was pushed to.
unfoldable pub insert_children :
    (Hash256 → List Hash256 → List Hash256)
    → List Hash256
    → List Hash256
    → List Hash256
    → List Hash256 × List Hash256
insert_children push [] visited next = (visited, next)
insert_children push (c ∷ cs) visited next = elim (contains c visited) [
  | true ↦ insert_children push cs visited next
  | false ↦ insert_children push cs (c ∷ visited) (push c next)
]

-- The local variables of `collect_reachable_concurrent`.
pub record Level : Type 0 where
  pub visited : List Hash256
  pub next_frontier : List Hash256
  pub result : List ShaMapNode

abbrev pub snoc : Hash256 → List Hash256 → List Hash256
snoc h hs = hs ++ h ∷ []

unfoldable pub process : List (Result ReadError ShaMapNode) → Level → Result ReadError Level
process [] level = ok level
process (fetched ∷ rest) level = fetched >>= λ node. children_of node >>= λ children.
    let (visited, next) = insert_children snoc children level.visited level.next_frontier in
    process rest
      (record { visited = visited; next_frontier = next; result = level.result ++ node ∷ [] })

unfoldable pub read_leaf : ShaMapNode → Result ReadError TxRecord
read_leaf node = elim (parse_tx_leaf node.content) [ ok tx ↦ ok tx | err e ↦ err (invalid_leaf e) ]

abbrev pub tx_key : TxRecord → List ℕ
tx_key tx = tx.tx_hash

module _ (get_node : Hash256 → Result ReadError ShaMapNode) where
  unfoldable pub walk :
      ℕ → List Hash256 → List Hash256 → List ShaMapNode → Result ReadError (List ShaMapNode)
  walk zero visited stack result = err out_of_fuel
  walk (suc n) visited [] result = ok result
  walk (suc n) visited (hash ∷ stack) result = elim (contains hash visited) [
    | true ↦ walk n visited stack result
    | false ↦ get_node hash >>= λ node. children_of node >>= λ children.
        walk n (hash ∷ visited) (push_unvisited (hash ∷ visited) children stack)
          (result ++ node ∷ [])
  ]

  unfoldable pub collect_reachable : ℕ → Hash256 → Result ReadError (List ShaMapNode)
  unfolding walk
  collect_reachable fuel root_hash = walk fuel [] (root_hash ∷ []) []

  -- The thread pool fetches a frontier in its order.
  unfoldable pub levels :
      ℕ → List Hash256 → List Hash256 → List ShaMapNode → Result ReadError (List ShaMapNode)
  levels zero visited frontier result = err out_of_fuel
  levels (suc n) visited [] result = ok result
  levels (suc n) visited (hash ∷ hashes) result =
      process (map get_node (hash ∷ hashes))
        (record { visited = visited; next_frontier = []; result = result })
      >>= λ level. levels n level.visited level.next_frontier level.result

  unfoldable pub collect_reachable_concurrent : ℕ → Hash256 → ℕ → Result ReadError (List ShaMapNode)
  unfolding levels collect_reachable
  collect_reachable_concurrent fuel root_hash concurrency =
      if leb concurrency 1
      then collect_reachable fuel root_hash
      else levels fuel (root_hash ∷ []) (root_hash ∷ []) []

  -- `sample_hashes`: at most `target` hashes.
  unfoldable pub sample :
      ℕ → ℕ → List Hash256 → List Hash256 → List Hash256 → Result ReadError (List Hash256)
  sample zero target visited stack result = err out_of_fuel
  sample (suc n) target visited [] result = ok result
  sample (suc n) target visited (hash ∷ stack) result = elim (leb target (length result)) [
    | true ↦ ok result
    | false ↦ get_node hash >>= λ node. children_of node >>= λ children.
        let (visited', stack') = insert_children ◌∷◌ children visited stack in
        sample n target visited' stack' (result ++ hash ∷ [])
  ]

  unfoldable pub sample_hashes : ℕ → Hash256 → ℕ → Result ReadError (List Hash256)
  unfolding sample
  sample_hashes fuel root_hash target = sample fuel target (root_hash ∷ []) (root_hash ∷ []) []

  unfoldable pub tx_walk :
      ℕ → List Hash256 → List Hash256 → List TxRecord → Result ReadError (List TxRecord)
  tx_walk zero visited stack out = err out_of_fuel
  tx_walk (suc n) visited [] out = ok out
  tx_walk (suc n) visited (hash ∷ stack) out = elim (contains hash visited) [
    | true ↦ tx_walk n visited stack out
    | false ↦ get_node hash >>= λ node. elim (is_inner node.node_type) [
      | true ↦ children_of node >>= λ children.
          tx_walk n (hash ∷ visited) (push_unvisited (hash ∷ visited) children stack) out
      | false ↦ read_leaf node >>= λ tx. tx_walk n (hash ∷ visited) stack (out ++ tx ∷ [])
    ]
  ]

  unfoldable pub collect_transactions : ℕ → Hash256 → Result ReadError (List TxRecord)
  unfolding tx_walk
  collect_transactions fuel tx_root =
      if list_eq tx_root zero_hash
      then ok []
      else tx_walk fuel [] (tx_root ∷ []) [] >>= λ out. ok (sort_by tx_key out)
