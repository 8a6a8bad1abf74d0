-- ===== src/Reader/Walk/Rounds.antt =====
-- `collect_reachable_concurrent` of crates/xrla-nudb/src/reader.rs ends, on every store of finitely many
-- nodes.
use xrpl_ledger_archive.Prelude.Fallible.{>>=-ok}
use xrpl_ledger_archive.Reader.Walk.Correct.{IsTree}
use xrpl_ledger_archive.Reader.Walk.Reached.{Reaches, step}
use xrpl_ledger_archive.Reader.Walk.Seen.{hashes}
use xrpl_ledger_archive.Reader.Walk.Levels.{collect_reachable_concurrent-IsTree, process-Spread}
use xrpl_ledger_archive.Reader.Walk.Spread.{Spread, Spread-start}
use xrpl_ledger_archive.Reader.Walk.Total.{
  IsStored, weight, weight-visit, load_positive, collect_reachable_total, weight-cons-le,
}
use xrpl_ledger_archive.Reader.Walk.{
  contains, insert_children, snoc, process, levels, Level, collect_reachable_concurrent,
  collect_reachable,
}
use xrpl_ledger_archive.Prelude.{
  ◌≡◌, List, ℕ, ◌+◌, [], length, map, ◌<◌, ◌≤◌, arith, ◌∷◌, suc, Bool-cases, ◌++◌, subst, inl, sym,
  refl, inr, append-nil, zero, length-append, leb,
}
use xrpl_ledger_archive.Reader.{ReadError}
use xrpl_ledger_archive.Prelude.Parser.{Result, ok}
use xrpl_ledger_archive.Node.{Hash256, ShaMapNode}
use mathlib.Core.List.{Memᴰ}
use mathlib.Core.List.Memᴰ

module _ (get_node : Hash256 → Result ReadError ShaMapNode)
    (own : (h : Hash256) (node : ShaMapNode) → get_node h ≡ ok node → node.hash ≡ h)
    (root : Hash256) (keys : List Hash256) where
  -- What is pushed is paid for by the weight of what is inserted.
  weight-insert_children :
      (children visited next : List Hash256)
      → ((c : Hash256) → Memᴰ c children → Memᴰ c keys)
      → let r = insert_children snoc children visited next in
        weight get_node keys r.0 + length r.1 ≤ weight get_node keys visited + length next
  unfolding insert_children
  weight-insert_children [] visited next k = omega arith
  weight-insert_children (c ∷ cs) visited next k = elim (Bool-cases (contains c visited)) [
    | inl old ↦
        rw (old, insert_children) (weight-insert_children cs visited next λ d m. k d (Memᴰ.tail m))
    | inr new ↦
        let less = weight-visit get_node keys c visited (k c (Memᴰ.head refl)) new in
        let cost = load_positive get_node c in
        let more = length-append next (c ∷ []) in
        let rest = weight-insert_children cs (c ∷ visited) (snoc c next) λ d m. k d (Memᴰ.tail m) in
        rw (new, insert_children) (omega arith)
  ]

  module _ (stored : IsStored get_node own root keys) where
    process_total :
        (frontier : List Hash256) (level : Level)
        → ((h : Hash256) → Memᴰ h frontier → Reaches get_node root h)
        → (after : Level) × (process (map get_node frontier) level ≡ ok after)
          × (weight get_node keys after.visited + length after.next_frontier
              ≤ weight get_node keys level.visited + length level.next_frontier)
    unfolding process
    process_total [] level k = (level, refl, omega arith)
    process_total (h ∷ hs) level k =
        let (node, children, e, e') = stored.readable h (k h (Memᴰ.head refl)) in
        let r = insert_children snoc children level.visited level.next_frontier in
        let (after, done, less) =
          process_total hs
            (record { visited = r.0; next_frontier = r.1; result = level.result ++ node ∷ [] })
            (λ x m. k x (Memᴰ.tail m)) in
        let paid = weight-insert_children children level.visited level.next_frontier λ c m.
          stored.key c (
            step (k h (Memᴰ.head refl))
              (record { node = node; children = children; stored = e; parsed = e'; among = m })) in
        (after, >>=-ok _ e (>>=-ok _ e' done), omega arith)

    levels_end :
        (n : ℕ) (visited frontier : List Hash256) (result : List ShaMapNode)
        → Spread get_node own root visited frontier result
        → weight get_node keys visited + length frontier < n
        → (out : List ShaMapNode) × (levels get_node n visited frontier result ≡ ok out)
    unfolding levels
    levels_end zero visited frontier result k l = absurd (omega arith)
    levels_end (suc n) visited [] result k l = (result, refl)
    levels_end (suc n) visited (h ∷ hs) result k l =
        let level : Level = record { visited = visited; next_frontier = []; result = result } in
        let (after, done, less) =
          process_total (h ∷ hs) level
            λ x m. k.seen x ((k.listed x).1 (Memᴰ.append_right (hashes result) m)) in
        let k' =
          process-Spread get_node own root (h ∷ hs) level after
            (subst (λ xs. Spread get_node own root visited xs result) (sym (append-nil (h ∷ hs))) k)
            done in
        let (out, e) =
          levels_end n after.visited after.next_frontier after.result k' (omega arith) in
        (out, >>=-ok _ done e)

    -- Whatever number of workers it is given, with a round for each key of the store and each of its
    -- children, the walk by levels ends and returns just the nodes of the tree below the root, each
    -- once, as the store has them: if the nodes of that tree can be read, and what is read under a
    -- hash carries that hash.
    pub collect_reachable_concurrent_total :
        (fuel concurrency : ℕ)
        → weight get_node keys [] + 1 < fuel
        → (out : List ShaMapNode) × (collect_reachable_concurrent get_node fuel root concurrency
            ≡ ok out)
          × IsTree get_node own root out
    unfolding collect_reachable_concurrent collect_reachable
    collect_reachable_concurrent_total fuel concurrency l =
        let (out, e) = returned in
        (out, e, collect_reachable_concurrent-IsTree get_node own root fuel concurrency out e)
      where
        returned :
            (out : List ShaMapNode) × (collect_reachable_concurrent get_node fuel root concurrency
              ≡ ok out)
        returned = elim (Bool-cases (leb concurrency 1)) [
          | inl few ↦
              let (out, e, t) = collect_reachable_total get_node own root keys stored fuel l in
              (out, rw few e)
          | inr many ↦
              let (out, e) =
                levels_end fuel (root ∷ []) (root ∷ []) [] (Spread-start get_node own root)
                  (omega (arith, weight-cons-le get_node keys root [])) in
              (out, rw many e)
        ]
