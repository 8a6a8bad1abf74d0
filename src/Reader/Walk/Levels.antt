-- ===== src/Reader/Walk/Levels.antt =====
-- `collect_reachable_concurrent` of crates/xrla-nudb/src/reader.rs returns the tree below the root, as
-- `collect_reachable` does.
use xrpl_ledger_archive.Reader.Walk.Spread.{
  Spread, Spread-start, Inserting-start, insert_children-Spread,
}
use xrpl_ledger_archive.Reader.Walk.Correct.{IsTree, collect_reachable-IsTree}
use xrpl_ledger_archive.Node.{Hash256, ShaMapNode}
use xrpl_ledger_archive.Reader.Walk.{
  insert_children, children_of, process, levels, collect_reachable_concurrent, snoc, Level,
}
use xrpl_ledger_archive.Reader.{ReadError}
use xrpl_ledger_archive.Prelude.{
  List, [], ◌∷◌, ◌++◌, zero, suc, map, ◌≡◌, ℕ, subst, sym, append-nil, if-cases, leb,
}
use xrpl_ledger_archive.Prelude.Parser.{Result, ok}
use xrpl_ledger_archive.Prelude.Fallible.{ok-then}
use xrpl_ledger_archive.Reader.Walk.Reached.{here, step, Reaches}
use xrpl_ledger_archive.Reader.Walk.Seen.{hashes, NoRepeat}
use mathlib.Core.List.{Memᴰ}

module _ (get_node : Hash256 → Result ReadError ShaMapNode)
    (own : (h : Hash256) (node : ShaMapNode) → get_node h ≡ ok node → node.hash ≡ h)
    (root : Hash256) where
  pub process-Spread :
      (frontier : List Hash256) (level after : Level)
      → Spread get_node own root level.visited (frontier ++ level.next_frontier) level.result
      → process (map get_node frontier) level ≡ ok after
      → Spread get_node own root after.visited after.next_frontier after.result
  unfolding process
  process-Spread [] level after k e =
      let same : level ≡ after = cc e in
      subst (λ (l : Level). Spread get_node own root l.visited l.next_frontier l.result) same k
  process-Spread (h ∷ hs) level after k e = ok-then (get_node h) _ e λ node stored e'.
      ok-then (children_of node) _ e' λ children parsed e''.
        let start =
          Inserting-start get_node own root h level.visited (hs ++ level.next_frontier) level.result
            node children stored parsed k in
        let r = insert_children snoc children level.visited level.next_frontier in
        process-Spread hs
          (record { visited = r.0; next_frontier = r.1; result = level.result ++ node ∷ [] }) after
          (insert_children-Spread get_node own root children level.visited hs level.next_frontier
            (level.result ++ node ∷ []) h start)
          e''

  levels-Spread :
      (n : ℕ) (visited frontier : List Hash256) (result out : List ShaMapNode)
      → Spread get_node own root visited frontier result
      → levels get_node n visited frontier result ≡ ok out
      → (all : List Hash256) × Spread get_node own root all [] out
  unfolding levels
  levels-Spread zero visited frontier result out k e = cc e
  levels-Spread (suc n) visited [] result out k e =
      let same : result ≡ out = cc e in
      (visited, subst (Spread get_node own root visited []) same k)
  levels-Spread (suc n) visited (h ∷ hs) result out k e =
      ok-then
        (process (map get_node (h ∷ hs))
          (record { visited = visited; next_frontier = []; result = result }))
        _ e
        λ level e' e''.
          levels-Spread n level.visited level.next_frontier level.result out
            (process-Spread (h ∷ hs)
              (record { visited = visited; next_frontier = []; result = result }) level
              (subst (λ xs. Spread get_node own root visited xs result) (sym (append-nil (h ∷ hs)))
                k)
              e')
            e''

  all_visited :
      (visited : List Hash256) (out : List ShaMapNode)
      → Spread get_node own root visited [] out
      → (h : Hash256) → Reaches get_node root h
      → Memᴰ h visited
  all_visited visited out k h here = k.source
  all_visited visited out k h (step {u} {c} r child) =
      k.closed u h
        (subst (Memᴰ u) (append-nil (hashes out)) ((k.listed u).0 (all_visited visited out k u r)))
        child

  IsTree-Spread :
      (visited : List Hash256) (out : List ShaMapNode)
      → Spread get_node own root visited [] out
      → IsTree get_node own root out
  IsTree-Spread visited out k = record {
    exact = λ h. (
      λ m. k.seen h ((k.listed h).1 (subst (Memᴰ h) (sym (append-nil (hashes out))) m)),
      λ r.
          subst (Memᴰ h) (append-nil (hashes out)) ((k.listed h).0 (all_visited visited out k h r)),
    );
    once = subst NoRepeat (append-nil (hashes out)) k.once;
    read = k.read;
  }

  -- Whatever number of workers it is given, the walk returns just the nodes of the tree below the
  -- root, each once, as the store has them, if it returns nodes and what is read under a hash carries
  -- that hash.
  pub collect_reachable_concurrent-IsTree :
      (fuel concurrency : ℕ) (out : List ShaMapNode)
      → collect_reachable_concurrent get_node fuel root concurrency ≡ ok out
      → IsTree get_node own root out
  unfolding collect_reachable_concurrent
  collect_reachable_concurrent-IsTree fuel concurrency out e =
      if-cases (leb concurrency 1) e
        (λ few e'. collect_reachable-IsTree get_node own root fuel out e')
        λ many e'.
          let (all, k) =
            levels-Spread fuel (root ∷ []) (root ∷ []) [] out (Spread-start get_node own root) e' in
          IsTree-Spread all out k
