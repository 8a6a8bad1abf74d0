-- ===== src/Reader/Diff/Readable.antt =====
-- `collect_added` and `collect_deleted` of crates/xrla-nudb/src/reader.rs return, on trees that can be
-- read.
use xrpl_ledger_archive.Reader.Walk.{children_of}
use xrpl_ledger_archive.Reader.Diff.{
  inner_of, each, collect_added, collect_deleted, slots, is_zero, add_node, delete_hash,
}
use xrpl_ledger_archive.Reader.{ReadError, invalid_node}
use xrpl_ledger_archive.Prelude.{
  List, [], ◌∷◌, true, false, inl, inr, zero, suc, none, some, ℕ, All, ◌≡◌, Option, ◌⊎◌, Bool, refl,
  Bool-cases,
}
use xrpl_ledger_archive.Prelude.Parser.{Result, ok, err}
use xrpl_ledger_archive.Node.{
  Hash256, ShaMapNode, ShaMapDiff, is_inner, zero_hash, child_hashes, InnerNode, ShaMapError,
  from_node,
}

-- A routine that returns on each element returns on the list.
pub each_total :
    {A : Type 0} (f : A → ShaMapDiff → Result ReadError ShaMapDiff) (as' : List A)
    → All (λ a. (d : ShaMapDiff) → (d' : ShaMapDiff) × (f a d ≡ ok d')) as'
    → (d : ShaMapDiff) → (d' : ShaMapDiff) × (each f as' d ≡ ok d')
unfolding each
each_total f [] h d = (d, refl)
each_total f (a ∷ as') h d =
    let (m, e) = h.0 d in let (d', e') = each_total f as' h.1 m in (d', rw (e, each) e')

-- An inner node whose children are known was read as an inner node.
pub inner_of-children :
    (node : ShaMapNode) (children : List Hash256)
    → is_inner node.node_type ≡ true
    → children_of node ≡ ok children
    → (i : InnerNode) × (inner_of node ≡ ok i) × (child_hashes i ≡ children)
unfolding children_of
inner_of-children node children is e = go (from_node node) (rw is at e)
  where
    go :
        (r : Result ShaMapError InnerNode)
        → ◌≡◌ {A = Result ReadError (List Hash256)}
            (elim r [ ok j ↦ ok (child_hashes j) | err x ↦ err (invalid_node x) ])
            (ok children)
        → (i : InnerNode) × ◌≡◌ {A = Result ReadError InnerNode}
            (elim r [ ok j ↦ ok j | err x ↦ err (invalid_node x) ])
            (ok i)
          × (child_hashes i ≡ children)
    go (ok j) q = (j, refl, cc q)
    go (err x) q = cc q

module _ (get_node : Hash256 → Result ReadError ShaMapNode) where
  -- The tree has at most `n` levels, and each of its nodes is in the store.
  unfoldable pub IsReadable : ℕ → Hash256 → Type 0
  IsReadable zero h = is_zero h ≡ true
  IsReadable (suc n) h =
      (is_zero h ≡ true)
      ⊎ ((node : ShaMapNode) × (children : List Hash256) × (get_node h ≡ ok node)
          × (children_of node ≡ ok children)
          × All (IsReadable n) children)

  IsReadable-zero : (n : ℕ) → IsReadable n zero_hash
  unfolding IsReadable
  IsReadable-zero zero = refl
  IsReadable-zero (suc n) = inl refl

  All-map :
      {P Q : Hash256 → Type 0}
      → ((h : Hash256) → P h → Q h)
      → (hs : List Hash256) → All P hs
      → All Q hs
  All-map f [] k = tt
  All-map f (h ∷ hs) k = (f h k.0, All-map f hs k.1)

  pub collect_added_total :
      (n : ℕ) (h : Hash256)
      → IsReadable n h
      → (d : ShaMapDiff) → (d' : ShaMapDiff) × (collect_added get_node (suc n) h d ≡ ok d')
  unfolding collect_added IsReadable
  collect_added_total zero h k d = (d, rw (k, collect_added) refl)
  collect_added_total (suc n) h k d = elim (Bool-cases (is_zero h)) [
    | inl z ↦ (d, rw (z, collect_added) refl)
    | inr nz ↦ elim k [
      | inl z ↦ absurd (clash z nz)
      | inr (node, children, e, e', below) ↦
          let (m, e'') =
            each_total (collect_added get_node (suc n)) children
              (All-map (λ c q. collect_added_total n c q) children below) d in
          (add_node node m, rw (nz, collect_added, e, e', e'') refl)
    ]
  ]
    where
      clash : {b : Bool} → b ≡ true → b ≡ false → ⊥
      clash p q = cc (p, q)

  pub collect_deleted_total :
      (n : ℕ) (h : Hash256)
      → IsReadable n h
      → (d : ShaMapDiff) → (d' : ShaMapDiff) × (collect_deleted get_node (suc n) h d ≡ ok d')
  unfolding collect_deleted IsReadable
  collect_deleted_total zero h k d = (d, rw (k, collect_deleted) refl)
  collect_deleted_total (suc n) h k d = elim (Bool-cases (is_zero h)) [
    | inl z ↦ (d, rw (z, collect_deleted) refl)
    | inr nz ↦ elim k [
      | inl z ↦ absurd (clash z nz)
      | inr (node, children, e, e', below) ↦
          let (m, e'') =
            each_total (collect_deleted get_node (suc n)) children
              (All-map (λ c q. collect_deleted_total n c q) children below) d in
          (delete_hash h m, rw (nz, collect_deleted, e, e', e'') refl)
    ]
  ]
    where
      clash : {b : Bool} → b ≡ true → b ≡ false → ⊥
      clash p q = cc (p, q)

  -- Both trees of each pair of slots can be read.
  pub slots-IsReadable :
      (n : ℕ) (os ns : List (Option Hash256))
      → All (IsReadable n) (child_hashes (record { children = os }))
      → All (IsReadable n) (child_hashes (record { children = ns }))
      → All (λ (pair : Hash256 × Hash256). IsReadable n pair.0 × IsReadable n pair.1) (slots os ns)
  unfolding slots child_hashes
  slots-IsReadable n [] ns h k = tt
  slots-IsReadable n (a ∷ as') [] h k = tt
  slots-IsReadable n (none ∷ as') (none ∷ bs) h k =
      ((IsReadable-zero n, IsReadable-zero n), slots-IsReadable n as' bs h k)
  slots-IsReadable n (none ∷ as') (some b ∷ bs) h k =
      ((IsReadable-zero n, k.0), slots-IsReadable n as' bs h k.1)
  slots-IsReadable n (some a ∷ as') (none ∷ bs) h k =
      ((h.0, IsReadable-zero n), slots-IsReadable n as' bs h.1 k)
  slots-IsReadable n (some a ∷ as') (some b ∷ bs) h k =
      ((h.0, k.0), slots-IsReadable n as' bs h.1 k.1)
