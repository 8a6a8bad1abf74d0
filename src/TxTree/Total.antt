-- ===== src/TxTree/Total.antt =====
-- The depth of `build_tx_tree`, in crates/xrla-common/src/tx_tree.rs.
use xrpl_ledger_archive.TxTree.Buckets.{
  Sized, Below, Distinct, Placed, fill_buckets-All, fill_buckets-Distinct, fill_buckets-Placed,
  fill_buckets-some,
}
use xrpl_ledger_archive.TxTree.Nibbles.{nibbles, length-nibbles, nibbles_inj}
use xrpl_ledger_archive.Chunk.Types.{TxRecord}
use xrpl_ledger_archive.Prelude.Parser.{◌>>=◌}
use xrpl_ledger_archive.TxTree.{
  Item, fill_children, build_level, inner_of, item_of, build_tx_tree, node_of,
}
use xrpl_ledger_archive.Prelude.{
  List, ℕ, ◌∷◌, ◌≡◌, length, ◌<◌, take, All, suc, some, ◌≢◌, ◌++◌, [], Option, ◌+◌, arith, subst,
  sym, zero, append-nil, refl, ◌∙◌, take-append, map,
}
use xrpl_ledger_archive.Node.{Hash256, ShaMapNode, zero_hash}

-- A builder that succeeds on items below a common path of `d` levels.
record Builds (d : ℕ) (build : List Item → List ShaMapNode → Option (Hash256 × List ShaMapNode))
    : Type 0 where
  made :
      (path : List ℕ) (item next : Item) (items : List Item) (nodes : List ShaMapNode)
      → All Sized (item ∷ next ∷ items)
      → All (Below d path) (item ∷ next ∷ items)
      → Distinct (item ∷ next ∷ items)
      → (r : Hash256 × List ShaMapNode) × (build (item ∷ next ∷ items) nodes ≡ some r)

fill_children-some :
    (build : List Item → List ShaMapNode → Option (Hash256 × List ShaMapNode)) (d : ℕ)
    → Builds (suc d) build
    → (path : List ℕ) (s : ℕ) (buckets : List (List Item)) (nodes : List ShaMapNode)
    → All (All Sized) buckets
    → Placed d path s buckets
    → All Distinct buckets
    → (r : List Hash256 × List ShaMapNode) × (fill_children build buckets nodes ≡ some r)
unfolding fill_children
fill_children-some build d b path s [] nodes z p u = (([], nodes), refl)
fill_children-some build d b path s ([] ∷ buckets) nodes z p u =
    let (r, e) = fill_children-some build d b path (suc s) buckets nodes z.1 p.1 u.1 in
    ((zero_hash ∷ r.0, r.1), rw (e, ◌>>=◌))
fill_children-some build d b path s ((item ∷ []) ∷ buckets) nodes z p u =
    let (r, e) = fill_children-some build d b path (suc s) buckets nodes z.1 p.1 u.1 in
    ((item.leaf_hash ∷ r.0, r.1), rw (e, ◌>>=◌))
fill_children-some build d b path s ((item ∷ next ∷ items) ∷ buckets) nodes z p u =
    let (c, q) = b.made (path ++ (s ∷ [])) item next items nodes z.0 p.0 u.0 in
    let (r, e) = fill_children-some build d b path (suc s) buckets c.1 z.1 p.1 u.1 in
    ((c.0 ∷ r.0, r.1), rw (q, ◌>>=◌, e))

-- Two keys below the same path of 64 levels are equal.
equal_keys :
    (d : ℕ) (path : List ℕ) (x y : Item)
    → d ≡ 64
    → Sized x
    → Sized y
    → Below d path x
    → Below d path y
    → x.key ≡ y.key
equal_keys d path x y e h k p q = nibbles_inj x.key y.key (sym (all x h) ∙ p ∙ sym q ∙ all y k)
  where
    take_all : {A : Type 0} (n : ℕ) (xs : List A) → length xs ≡ n → take n xs ≡ xs
    take_all n xs h = rw append-nil at (take-append n xs [] h)

    all : (z : Item) → Sized z → take d (nibbles z.key) ≡ nibbles z.key
    all z h = take_all d (nibbles z.key) (omega (arith, length-nibbles z.key, h, e))

-- Hashes of 32 bytes that differ from each other.
abbrev pub DistinctHashes : List TxRecord → Type 0
DistinctHashes [] = Unit
DistinctHashes (tx ∷ txns) =
    All (λ (other : TxRecord). tx.tx_hash ≢ other.tx_hash) txns × DistinctHashes txns

abbrev pub HasHash : TxRecord → Type 0
HasHash tx = length tx.tx_hash ≡ 32

module _ (sha512 : List ℕ → List ℕ) where
  abbrev below : ℕ → ℕ → List Item → List ShaMapNode → Option (Hash256 × List ShaMapNode)
  below fuel d bucket nodes = build_level sha512 fuel bucket d nodes

  -- One level, above levels that succeed.
  level_some :
      (fuel d : ℕ)
      → d < 64
      → Builds (suc d) (below fuel (d + 1))
      → (path : List ℕ) (items : List Item) (nodes : List ShaMapNode) → All Sized items
      → All (Below d path) items
      → Distinct items
      → (r : Hash256 × List ShaMapNode) × (build_level sha512 (suc fuel) items d nodes ≡ some r)
  unfolding build_level
  level_some fuel d h b path items nodes z p u =
      let (buckets, q) = fill_buckets-some items d h z in
      let (r, q') =
        fill_children-some (below fuel (d + 1)) d b path 0 buckets nodes
          (fill_buckets-All Sized items d buckets q z)
          (fill_buckets-Placed items d path buckets q p)
          (fill_buckets-Distinct items d buckets q u) in
      let node = inner_of sha512 r.0 in ((node.hash, r.1 ++ (node ∷ [])), rw (q, ◌>>=◌, q'))

  -- The levels below: the last one is never reached by two items.
  Builds-below : (fuel d : ℕ) → fuel + d ≡ 64 → Builds d (below fuel d)
  Builds-below zero d e = record {
    made = λ path item next items nodes z p u.
        absurd (u.0.0 (equal_keys d path item next (omega arith) z.0 z.1.0 p.0 p.1.0));
  }
  Builds-below (suc fuel) d e = record {
    made = λ path item next items nodes z p u.
        level_some fuel d (omega arith)
          (subst (λ l. Builds (suc d) (below fuel l)) {x = suc d} {y = d + 1} (omega arith)
            (Builds-below fuel (suc d) (omega arith)))
          path (item ∷ next ∷ items) nodes z p u;
  }

  items_Sized : (txns : List TxRecord) → All HasHash txns → All Sized (map (item_of sha512) txns)
  unfolding item_of
  items_Sized [] h = tt
  items_Sized (tx ∷ txns) h = (h.0, items_Sized txns h.1)

  items_differ :
      (key : Hash256) (txns : List TxRecord)
      → All (λ (other : TxRecord). key ≢ other.tx_hash) txns
      → All (λ (other : Item). key ≢ other.key) (map (item_of sha512) txns)
  unfolding item_of
  items_differ key [] h = tt
  items_differ key (tx ∷ txns) h = (h.0, items_differ key txns h.1)

  items_Distinct :
      (txns : List TxRecord) → DistinctHashes txns → Distinct (map (item_of sha512) txns)
  unfolding item_of
  items_Distinct [] h = tt
  items_Distinct (tx ∷ txns) h = (items_differ tx.tx_hash txns h.0, items_Distinct txns h.1)

  Below-root : (items : List Item) → All (Below 0 []) items
  Below-root [] = tt
  Below-root (item ∷ items) = (refl, Below-root items)

  -- On transactions with hashes of 32 bytes, no two the same, `build_tx_tree` returns a tree: it
  -- does not panic, and 64 levels are enough.
  pub build_tx_tree-some :
      (txns : List TxRecord)
      → All HasHash txns
      → DistinctHashes txns
      → (r : Hash256 × List ShaMapNode) × (build_tx_tree sha512 txns ≡ some r)
  unfolding build_tx_tree
  build_tx_tree-some [] h k = ((zero_hash, []), refl)
  build_tx_tree-some (tx ∷ txns) h k =
      let items = map (item_of sha512) (tx ∷ txns) in
      level_some 63 0 (omega arith) (Builds-below 63 1 refl) [] items (map node_of items)
        (items_Sized (tx ∷ txns) h) (Below-root items) (items_Distinct (tx ∷ txns) k)
