-- ===== src/Reader/Walk/Correct.antt =====
-- What `collect_reachable` of crates/xrla-nudb/src/reader.rs returns.
use xrpl_ledger_archive.Node.{Hash256, ShaMapNode}
use xrpl_ledger_archive.Reader.Walk.{contains, walk, collect_reachable, children_of, push_unvisited}
use xrpl_ledger_archive.Reader.{ReadError}
use xrpl_ledger_archive.Prelude.{
  List, [], ◌∷◌, ◌++◌, zero, suc, inl, inr, ◌≡◌, ℕ, ◌↔◌, subst, Bool-cases, All,
}
use xrpl_ledger_archive.Prelude.Parser.{Result, ok}
use xrpl_ledger_archive.Prelude.Fallible.{ok-then}
use xrpl_ledger_archive.Reader.Walk.Reached.{
  here, step, Inv, Reaches, Inv-start, Inv-skip, Inv-visit,
}
use xrpl_ledger_archive.Reader.Walk.Seen.{hashes, NoRepeat}
use mathlib.Core.Logic.{⊎_elim}
use mathlib.Core.List.{Memᴰ}
use mathlib.Core.List.Memᴰ

module _ (get_node : Hash256 → Result ReadError ShaMapNode)
    (own : (h : Hash256) (node : ShaMapNode) → get_node h ≡ ok node → node.hash ≡ h)
    (root : Hash256) where
  -- The invariant of the walk holds to its end, when the stack is empty.
  walk-Inv :
      (n : ℕ) (visited stack : List Hash256) (result out : List ShaMapNode)
      → Inv get_node own root visited stack result
      → walk get_node n visited stack result ≡ ok out
      → (all : List Hash256) × Inv get_node own root all [] out
  unfolding walk
  walk-Inv zero visited stack result out k e = cc e
  walk-Inv (suc n) visited [] result out k e =
      let same : result ≡ out = cc e in (visited, subst (Inv get_node own root visited []) same k)
  walk-Inv (suc n) visited (h ∷ stack) result out k e = elim (Bool-cases (contains h visited)) [
    | inl old ↦
        walk-Inv n visited stack result out
          (Inv-skip get_node own root h visited stack result old k) (rw (old, walk) at e)
    | inr new ↦ ok-then (get_node h) _ (rw (new, walk) at e) λ node stored e'.
        ok-then (children_of node) _ e' λ children parsed e''.
          walk-Inv n (h ∷ visited) (push_unvisited (h ∷ visited) children stack)
            (result ++ node ∷ []) out
            (Inv-visit get_node own root h visited stack result node children new stored parsed k)
            e''
  ]

  complete :
      (visited : List Hash256) (result : List ShaMapNode)
      → Inv get_node own root visited [] result
      → (h : Hash256) → Reaches get_node root h
      → Memᴰ h visited
  complete visited result k h here = ⊎_elim (λ m. m) (λ m. absurd (Memᴰ.not-nil m)) k.source
  complete visited result k h (step {u} {c} r child) =
      ⊎_elim (λ m. m) (λ m. absurd (Memᴰ.not-nil m))
        (k.closed u h (complete visited result k u r) child)

  -- What a walk from the root has to return.
  pub record IsTree (out : List ShaMapNode) : Type 0 where
    pub exact : (h : Hash256) → Memᴰ h (hashes out) ↔ Reaches get_node root h
    pub once : NoRepeat (hashes out)
    pub read : All (λ (node : ShaMapNode). get_node node.hash ≡ ok node) out

  IsTree-Inv :
      (visited : List Hash256) (out : List ShaMapNode)
      → Inv get_node own root visited [] out
      → IsTree out
  IsTree-Inv visited out k = record {
    exact =
        λ h. (λ m. k.seen h ((k.listed h).0 m), λ r. (k.listed h).1 (complete visited out k h r));
    once = k.once;
    read = k.read;
  }

  pub collect_reachable-IsTree :
      (fuel : ℕ) (out : List ShaMapNode)
      → collect_reachable get_node fuel root ≡ ok out
      → IsTree out
  unfolding collect_reachable
  collect_reachable-IsTree fuel out e =
      let (all, k) = walk-Inv fuel [] (root ∷ []) [] out (Inv-start get_node own root) e in
      IsTree-Inv all out k
