-- ===== src/Reader/Walk/Transactions.antt =====
-- `collect_transactions` of crates/xrla-nudb/src/reader.rs against `collect_reachable`.
use xrpl_ledger_archive.Chunk.Write.{tx_key}
use xrpl_ledger_archive.Prelude.Sort.{sort_by}
use xrpl_ledger_archive.Reader.Walk.{
  contains, children_of, walk, collect_transactions, read_leaf, tx_walk, collect_reachable,
  push_unvisited,
}
use xrpl_ledger_archive.Reader.{ReadError}
use xrpl_ledger_archive.Prelude.{
  List, [], ◌∷◌, ◌++◌, true, false, inl, inr, zero, suc, ◌≡◌, Bool-cases, subst, ℕ, sym, list_eq,
  ◌∙◌, refl, ap, append-nil, append_assoc,
}
use xrpl_ledger_archive.Prelude.Parser.{Result, ok}
use xrpl_ledger_archive.Prelude.Fallible.{◌>>=◌, ok-then, >>=-ok}
use xrpl_ledger_archive.Node.{Hash256, ShaMapNode, is_inner, zero_hash}
use xrpl_ledger_archive.Chunk.Types.{TxRecord}

-- The transactions of the leaves of a list of nodes, in its order.
unfoldable pub leaf_txs : List ShaMapNode → Result ReadError (List TxRecord)
leaf_txs [] = ok []
leaf_txs (node ∷ nodes) = elim (is_inner node.node_type) [
  | true ↦ leaf_txs nodes
  | false ↦ read_leaf node >>= λ tx. leaf_txs nodes >>= λ txs. ok (tx ∷ txs)
]

leaf_txs-append :
    (xs ys : List ShaMapNode) (txs : List TxRecord)
    → leaf_txs (xs ++ ys) ≡ ok txs
    → (as' : List TxRecord) × (bs : List TxRecord) × (leaf_txs xs ≡ ok as')
      × (leaf_txs ys ≡ ok bs)
      × (txs ≡ as' ++ bs)
unfolding leaf_txs
leaf_txs-append [] ys txs e = ([], txs, refl, e, refl)
leaf_txs-append (x ∷ xs) ys txs e = elim (Bool-cases (is_inner x.node_type)) [
  | inl is ↦
      let (as', bs, p, q, r) = leaf_txs-append xs ys txs (rw (is, leaf_txs) at e) in
      (as', bs, rw (is, leaf_txs) p, q, r)
  | inr leaf ↦ ok-then (read_leaf x) _ (rw (leaf, leaf_txs) at e) λ tx e1 e2.
      ok-then (leaf_txs (xs ++ ys)) _ e2 λ rest e3 e4.
        let (as', bs, p, q, r) = leaf_txs-append xs ys rest e3 in
        (
          tx ∷ as',
          bs,
          rw (leaf, leaf_txs) (>>=-ok _ e1 (>>=-ok _ p refl)),
          q,
          (let same : tx ∷ rest ≡ txs = cc e4 in sym same ∙ ap (λ l. tx ∷ l) r),
        )
]

leaf_txs-join :
    (xs ys : List ShaMapNode) (as' bs : List TxRecord)
    → leaf_txs xs ≡ ok as'
    → leaf_txs ys ≡ ok bs
    → leaf_txs (xs ++ ys) ≡ ok (as' ++ bs)
unfolding leaf_txs
leaf_txs-join [] ys as' bs e f =
    let same : [] ≡ as' = cc e in subst (λ l. leaf_txs ys ≡ ok (l ++ bs)) same f
leaf_txs-join (x ∷ xs) ys as' bs e f = elim (Bool-cases (is_inner x.node_type)) [
  | inl is ↦ rw (is, leaf_txs) (leaf_txs-join xs ys as' bs (rw (is, leaf_txs) at e) f)
  | inr leaf ↦ ok-then (read_leaf x) _ (rw (leaf, leaf_txs) at e) λ tx e1 e2.
      ok-then (leaf_txs xs) _ e2 λ rest e3 e4.
        let same : tx ∷ rest ≡ as' = cc e4 in
        subst (λ l. leaf_txs (x ∷ (xs ++ ys)) ≡ ok (l ++ bs)) same
          (rw (leaf, leaf_txs) (>>=-ok _ e1 (>>=-ok _ (leaf_txs-join xs ys rest bs e3 f) refl)))
]

leaf_txs-inner : (node : ShaMapNode) → is_inner node.node_type ≡ true → leaf_txs (node ∷ []) ≡ ok []
unfolding leaf_txs
leaf_txs-inner node is = rw (is, leaf_txs) refl

leaf_txs-leaf :
    (node : ShaMapNode) (tx : TxRecord)
    → is_inner node.node_type ≡ false
    → read_leaf node ≡ ok tx
    → leaf_txs (node ∷ []) ≡ ok (tx ∷ [])
unfolding leaf_txs
leaf_txs-leaf node tx leaf e = rw (leaf, leaf_txs) (>>=-ok _ e refl)

read_leaf-leaf_txs :
    (node : ShaMapNode) (txs : List TxRecord)
    → is_inner node.node_type ≡ false
    → leaf_txs (node ∷ []) ≡ ok txs
    → (tx : TxRecord) × (read_leaf node ≡ ok tx)
unfolding leaf_txs
read_leaf-leaf_txs node txs leaf e =
    ok-then (read_leaf node) _ (rw (leaf, leaf_txs) at e) λ tx e1 e2. (tx, e1)

leaf_txs-snoc_inner :
    (result : List ShaMapNode) (node : ShaMapNode) (out : List TxRecord)
    → is_inner node.node_type ≡ true
    → leaf_txs result ≡ ok out
    → leaf_txs (result ++ node ∷ []) ≡ ok out
leaf_txs-snoc_inner result node out is f =
    leaf_txs-join result (node ∷ []) out [] f (leaf_txs-inner node is)
    ∙ ap (λ l. ok l) (append-nil out)

-- A leaf among nodes whose leaves can be parsed.
leaf_txs-snoc_leaf :
    (result more : List ShaMapNode) (node : ShaMapNode) (out txs : List TxRecord)
    → is_inner node.node_type ≡ false
    → leaf_txs result ≡ ok out
    → leaf_txs ((result ++ node ∷ []) ++ more) ≡ ok txs
    → (tx : TxRecord) × (read_leaf node ≡ ok tx)
      × (leaf_txs (result ++ node ∷ []) ≡ ok (out ++ tx ∷ []))
leaf_txs-snoc_leaf result more node out txs leaf f g =
    let (firsts, _, p, _, _) = leaf_txs-append (result ++ node ∷ []) more txs g in
    let (_, last, _, l, _) = leaf_txs-append result (node ∷ []) firsts p in
    let (tx, e) = read_leaf-leaf_txs node last leaf l in
    (tx, e, leaf_txs-join result (node ∷ []) out (tx ∷ []) f (leaf_txs-leaf node tx leaf e))

-- A leaf has no children.
children_of-leaf :
    (node : ShaMapNode) (children : List Hash256)
    → is_inner node.node_type ≡ false
    → children_of node ≡ ok children
    → children ≡ []
unfolding children_of
children_of-leaf node children leaf e = let e' = rw leaf at e in cc e'

module _ (get_node : Hash256 → Result ReadError ShaMapNode) where
  -- The walk only adds to its result.
  walk-extends :
      (n : ℕ) (visited stack : List Hash256) (result out : List ShaMapNode)
      → walk get_node n visited stack result ≡ ok out
      → (more : List ShaMapNode) × (out ≡ result ++ more)
  unfolding walk
  walk-extends zero visited stack result out e = cc e
  walk-extends (suc n) visited [] result out e =
      let same : result ≡ out = cc e in ([], sym same ∙ sym (append-nil result))
  walk-extends (suc n) visited (h ∷ stack) result out e = elim (Bool-cases (contains h visited)) [
    | inl old ↦ walk-extends n visited stack result out (rw (old, walk) at e)
    | inr new ↦ ok-then (get_node h) _ (rw (new, walk) at e) λ node e1 e2.
        ok-then (children_of node) _ e2 λ children e3 e4.
          let (more, q) =
            walk-extends n (h ∷ visited) (push_unvisited (h ∷ visited) children stack)
              (result ++ node ∷ []) out e4 in
          (node ∷ more, q ∙ append_assoc result (node ∷ []) more)
  ]

  tx_walk-walk :
      (n : ℕ) (visited stack : List Hash256) (result nodes : List ShaMapNode)
      (out txs : List TxRecord)
      → walk get_node n visited stack result ≡ ok nodes
      → leaf_txs result ≡ ok out
      → leaf_txs nodes ≡ ok txs
      → tx_walk get_node n visited stack out ≡ ok txs
  unfolding walk tx_walk
  tx_walk-walk zero visited stack result nodes out txs e f g = cc e
  tx_walk-walk (suc n) visited [] result nodes out txs e f g =
      let same : result ≡ nodes = cc e in
      let f' = subst (λ l. leaf_txs l ≡ ok out) same f in cc (f', g)
  tx_walk-walk (suc n) visited (h ∷ stack) result nodes out txs e f g =
      elim (Bool-cases (contains h visited)) [
        | inl old ↦
            rw (old, tx_walk)
              (tx_walk-walk n visited stack result nodes out txs (rw (old, walk) at e) f g)
        | inr new ↦ ok-then (get_node h) _ (rw (new, walk) at e) λ node e1 e2.
            ok-then (children_of node) _ e2 λ children e3 e4.
              let (more, q) =
                walk-extends n (h ∷ visited) (push_unvisited (h ∷ visited) children stack)
                  (result ++ node ∷ []) nodes e4 in
              elim (Bool-cases (is_inner node.node_type)) [
                | inl is ↦
                    let kept = leaf_txs-snoc_inner result node out is f in
                    let below =
                      tx_walk-walk n (h ∷ visited) (push_unvisited (h ∷ visited) children stack)
                        (result ++ node ∷ []) nodes out txs e4 kept g in
                    rw (new, tx_walk) (>>=-ok _ e1 (rw is (>>=-ok _ e3 below)))
                | inr leaf ↦
                    let (tx, e5, more_txs) =
                      leaf_txs-snoc_leaf result more node out txs leaf f
                        (subst (λ l. leaf_txs l ≡ ok txs) q g) in
                    let e4' =
                      subst
                        (λ cs.
                          walk get_node n (h ∷ visited) (push_unvisited (h ∷ visited) cs stack)
                            (result ++ node ∷ [])
                          ≡ ok nodes)
                        (children_of-leaf node children leaf e3) e4 in
                    let behind =
                      tx_walk-walk n (h ∷ visited) stack (result ++ node ∷ []) nodes
                        (out ++ tx ∷ []) txs (unfold push_unvisited in e4') more_txs g in
                    rw (new, tx_walk) (>>=-ok _ e1 (rw leaf (>>=-ok _ e5 behind)))
              ]
      ]

  -- The transactions of a tree are those of its leaves, sorted by their hashes: if the nodes of the
  -- tree are collected with the same fuel, its leaves can be parsed, and its root is not the zero hash.
  pub collect_transactions-collect_reachable :
      (fuel : ℕ) (tx_root : Hash256) (nodes : List ShaMapNode) (txs : List TxRecord)
      → list_eq tx_root zero_hash ≡ false
      → collect_reachable get_node fuel tx_root ≡ ok nodes
      → leaf_txs nodes ≡ ok txs
      → collect_transactions get_node fuel tx_root ≡ ok (sort_by tx_key txs)
  unfolding collect_transactions collect_reachable
  collect_transactions-collect_reachable fuel tx_root nodes txs there e g = rw there (
      >>=-ok _ (tx_walk-walk fuel [] (tx_root ∷ []) [] nodes [] txs e (unfold leaf_txs in refl) g)
        refl)
