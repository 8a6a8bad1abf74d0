-- ===== src/Reader/Walk/Total.antt =====
-- `collect_reachable` of crates/xrla-nudb/src/reader.rs ends, on every store of finitely many nodes.
use xrpl_ledger_archive.Reader.Walk.Correct.{IsTree, collect_reachable-IsTree}
use xrpl_ledger_archive.Node.{Hash256, ShaMapNode}
use xrpl_ledger_archive.Reader.Walk.{contains, push_unvisited, children_of, walk, collect_reachable}
use xrpl_ledger_archive.Reader.{ReadError}
use xrpl_ledger_archive.Prelude.{
  List, [], ◌∷◌, ◌++◌, zero, suc, true, false, inl, inr, length, ◌≤◌, ℕ, ◌≡◌, ◌+◌, if◌then◌else◌,
  arith, Bool-cases, ◌<◌, sym, subst, ap, refl, All,
}
use xrpl_ledger_archive.Prelude.Parser.{Result, ok, err}
use xrpl_ledger_archive.Prelude.Fallible.{◌>>=◌, Result-cases}
use xrpl_ledger_archive.Reader.Walk.Reached.{
  here, step, Reaches, Inv, Inv-skip, Inv-visit, Inv-start,
}
use xrpl_ledger_archive.Reader.Walk.Seen.{mem→contains, contains→mem}
use mathlib.Core.Logic.{⊎_elim}
use mathlib.Core.List.{Memᴰ}
use mathlib.Core.List.Memᴰ

length-push_unvisited :
    (visited children stack : List Hash256)
    → length (push_unvisited visited children stack) ≤ length children + length stack
unfolding push_unvisited
length-push_unvisited visited [] stack = omega arith
length-push_unvisited visited (c ∷ cs) stack = elim (Bool-cases (contains c visited)) [
  | inl old ↦ rw old (omega (arith, length-push_unvisited visited cs stack))
  | inr new ↦ rw new (omega (arith, length-push_unvisited visited cs (c ∷ stack)))
]

module _ (get_node : Hash256 → Result ReadError ShaMapNode) where
  -- The rounds that a hash costs: its own, and those of what it pushes.
  abbrev load_of : Result ReadError (List Hash256) → ℕ
  load_of (ok children) = suc (length children)
  load_of (err e) = 1

  unfoldable pub load : Hash256 → ℕ
  load h = load_of (get_node h >>= children_of)

  -- The rounds that the hashes of a list still cost.
  unfoldable pub weight : List Hash256 → List Hash256 → ℕ
  unfolding load
  weight [] visited = 0
  weight (k ∷ ks) visited = (if contains k visited then 0 else load k) + weight ks visited

  pub load_positive : (h : Hash256) → 0 < load h
  unfolding load
  load_positive h = elim (Result-cases (get_node h >>= children_of)) [
    | inl (children, e) ↦ rw e (omega arith)
    | inr (x, e) ↦ rw e (omega arith)
  ]

  pub weight-cons-le :
      (ks : List Hash256) (h : Hash256) (visited : List Hash256)
      → weight ks (h ∷ visited) ≤ weight ks visited
  unfolding weight contains
  weight-cons-le [] h visited = omega arith
  weight-cons-le (k ∷ ks) h visited = ground (arith, weight-cons-le ks h visited)

  pub weight-visit :
      (ks : List Hash256) (h : Hash256) (visited : List Hash256)
      → Memᴰ h ks
      → contains h visited ≡ false
      → weight ks (h ∷ visited) + load h ≤ weight ks visited
  unfolding weight
  weight-visit [] h visited m new = absurd (Memᴰ.not-nil m)
  weight-visit (k ∷ ks) h visited m new = elim (Memᴰ.cases_cons m) [
    | inl e ↦
        let old : contains k (h ∷ visited) ≡ true =
          mem→contains k (h ∷ visited) (Memᴰ.head (sym e)) in
        let new' : contains k visited ≡ false = subst (λ y. contains y visited ≡ false) e new in
        let same : load h ≡ load k = ap load e in
        rw (old, new') (omega (arith, weight-cons-le ks h visited))
    | inr t ↦
        let rest = weight-visit ks h visited t new in
        elim (Bool-cases (contains k visited)) [
          | inl old ↦
              let old' : contains k (h ∷ visited) ≡ true =
                mem→contains k (h ∷ visited) (Memᴰ.tail (contains→mem k visited old)) in
              rw (old, old') (omega arith)
          | inr new' ↦ rw new' (ground arith)
        ]
  ]

  module _ (own : (h : Hash256) (node : ShaMapNode) → get_node h ≡ ok node → node.hash ≡ h)
      (root : Hash256) (keys : List Hash256) where
    -- Every hash of the tree is a key of the store, and its node and children can be read.
    pub record IsStored : Type 0 where
      pub key : (h : Hash256) → Reaches get_node root h → Memᴰ h keys
      pub readable :
          (h : Hash256)
          → Reaches get_node root h
          → (node : ShaMapNode) × (children : List Hash256) × (get_node h ≡ ok node)
            × (children_of node ≡ ok children)

    -- A key whose node is in the store, with children that are keys.
    abbrev pub IsClosed : Hash256 → Type 0
    IsClosed u =
        (node : ShaMapNode) × (children : List Hash256) × (get_node u ≡ ok node)
        × (children_of node ≡ ok children)
        × All (λ c. Memᴰ c keys) children

    pub IsStored-closed : Memᴰ root keys → All IsClosed keys → IsStored
    IsStored-closed first closed = record {
      key = key;
      readable = λ h r.
          let (node, children, e, e', below) = at_key keys closed h (key h r) in
          (node, children, e, e');
    }
      where
        at_key : (ks : List Hash256) → All IsClosed ks → (u : Hash256) → Memᴰ u ks → IsClosed u
        at_key [] k u m = absurd (Memᴰ.not-nil m)
        at_key (x ∷ xs) k u m =
            ⊎_elim (λ q. subst IsClosed (sym q) k.0) (λ t. at_key xs k.1 u t) (Memᴰ.cases_cons m)

        in_list :
            (c : Hash256) (cs : List Hash256) → All (λ d. Memᴰ d keys) cs → Memᴰ c cs → Memᴰ c keys
        in_list c [] k m = absurd (Memᴰ.not-nil m)
        in_list c (d ∷ ds) k m =
            ⊎_elim (λ q. Memᴰ.cast q k.0) (λ t. in_list c ds k.1 t) (Memᴰ.cases_cons m)

        key : (h : Hash256) → Reaches get_node root h → Memᴰ h keys
        key h here = first
        key h (step {u} {c} r child) =
            let (node, children, e, e', below) = at_key keys closed u (key u r) in
            let same : child.node ≡ node = cc (child.stored, e) in
            let same' : child.children ≡ children = cc (child.parsed, e', same) in
            in_list h children below (subst (Memᴰ h) same' child.among)

    module _ (stored : IsStored) where
      walk_ends :
          (n : ℕ) (visited stack : List Hash256) (result : List ShaMapNode)
          → Inv get_node own root visited stack result
          → weight keys visited + length stack < n
          → (out : List ShaMapNode) × (walk get_node n visited stack result ≡ ok out)
      unfolding walk
      walk_ends zero visited stack result k l = absurd (omega arith)
      walk_ends (suc n) visited [] result k l = (result, refl)
      walk_ends (suc n) visited (h ∷ stack) result k l = elim (Bool-cases (contains h visited)) [
        | inl old ↦
            rw (old, walk)
              (walk_ends n visited stack result
                (Inv-skip get_node own root h visited stack result old k) (omega arith))
        | inr new ↦
            let reached = k.waiting h (Memᴰ.head refl) in
            let (node, children, e, e') = stored.readable h reached in
            let cost : load h ≡ suc (length children) = unfold load in rw (e, e') refl in
            let less = weight-visit keys h visited (stored.key h reached) new in
            let more = length-push_unvisited (h ∷ visited) children stack in
            rw (new, walk, e, e')
              (walk_ends n (h ∷ visited) (push_unvisited (h ∷ visited) children stack)
                (result ++ node ∷ [])
                (Inv-visit get_node own root h visited stack result node children new e e' k)
                (omega arith))
      ]

      -- With a round for each key of the store and each of its children, the walk ends and returns
      -- just the nodes of the tree below the root, each once, as the store has them: if the nodes of
      -- that tree can be read, and what is read under a hash carries that hash.
      pub collect_reachable_total :
          (fuel : ℕ)
          → weight keys [] + 1 < fuel
          → (out : List ShaMapNode) × (collect_reachable get_node fuel root ≡ ok out)
            × IsTree get_node own root out
      unfolding collect_reachable
      collect_reachable_total fuel l =
          let (out, e) =
            walk_ends fuel [] (root ∷ []) [] (Inv-start get_node own root) (omega arith) in
          (out, e, collect_reachable-IsTree get_node own root fuel out e)
