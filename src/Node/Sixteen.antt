-- ===== src/Node/Sixteen.antt =====
-- An inner node of crates/xrla-common/src/shamap.rs has sixteen slots, whatever it was read from.
use xrpl_ledger_archive.Prelude.{
  List, [], ◌∷◌, inl, inr, zero, suc, none, some, ℕ, length, Option, ◌≡◌, set, ap, arith,
  Option-cases, drop, get_elem?, refl, if-cases, leb, take, ◌∙◌, subst, ◌==◌, not, ◌%◌, ◌||◌, ltb,
  ◌*◌, replicate,
}
use xrpl_ledger_archive.Prelude.Parser.{Result, ok, err}
use xrpl_ledger_archive.Node.{
  Hash256, ShaMapNode, NodeType, inner, compressed_inner, transaction, full_slots, put_child,
  compressed_slots, from_node, InnerNode, ShaMapError, from_full_bytes, from_compressed_bytes,
}
use xrpl_ledger_archive.Node.{into_inner}

length-full_slots : (n : ℕ) (content : List ℕ) → length (full_slots n content) ≡ n
unfolding full_slots
length-full_slots zero content = refl
length-full_slots (suc n) content = ap suc (length-full_slots n (drop 32 content))

length-set : {A : Type 0} (xs : List A) (i : ℕ) (v : A) → length (set xs i v) ≡ length xs
length-set [] i v = refl
length-set (x ∷ xs) zero v = refl
length-set (x ∷ xs) (suc i) v = ap suc (length-set xs i v)

length-put_child :
    (children : List (Option Hash256)) (pos : ℕ) (hash : Hash256)
    → length (put_child children pos hash) ≡ length children
unfolding put_child
length-put_child children pos hash = ground (arith, length-set children pos (some hash))

length-compressed_slots :
    (n : ℕ) (content : List ℕ) (children out : List (Option Hash256))
    → compressed_slots n content children ≡ ok out
    → length out ≡ length children
unfolding compressed_slots
length-compressed_slots zero content children out e =
    let same : children ≡ out = cc e in rw same refl
length-compressed_slots (suc n) content children out e =
    elim (Option-cases (get_elem? content 32)) [
      | inl short ↦
          let e' = rw (short, compressed_slots) at e in
          let same : children ≡ out = cc e' in rw same refl
      | inr (pos, there) ↦
          if-cases (leb 16 pos) (rw (there, compressed_slots) at e) (λ out_of_range e'. cc e')
            λ in_range e'.
              length-compressed_slots n (drop 33 content) (put_child children pos (take 32 content))
                out e'
              ∙ length-put_child children pos (take 32 content)
    ]

-- Every inner node has sixteen slots.
length-into_inner :
    (r : Result ShaMapError (List (Option Hash256))) (i : InnerNode)
    → ((cs : List (Option Hash256)) → r ≡ ok cs → length cs ≡ 16)
    → into_inner r ≡ ok i
    → length i.children ≡ 16
unfolding into_inner
length-into_inner (ok cs) i h e =
    let same : cs ≡ i.children = cc e in subst (λ xs. length xs ≡ 16) same (h cs refl)
length-into_inner (err x) i h e = cc e

length-from_full_bytes :
    (content : List ℕ) (i : InnerNode) → from_full_bytes content ≡ ok i → length i.children ≡ 16
unfolding from_full_bytes
length-from_full_bytes content i e =
    if-cases (length content == 512) e
      (λ right e'.
        let same : full_slots 16 content ≡ i.children = cc e' in
        subst (λ xs. length xs ≡ 16) same (length-full_slots 16 content))
      λ wrong e'. cc e'

length-from_compressed_bytes :
    (content : List ℕ) (i : InnerNode)
    → from_compressed_bytes content ≡ ok i
    → length i.children ≡ 16
unfolding from_compressed_bytes
length-from_compressed_bytes content i e =
    if-cases (not (length content % 33 == 0) || ltb (33 * 16) (length content)) e
      (λ wrong e'. cc e')
      λ right e'.
        length-into_inner _ i (λ cs q. length-compressed_slots 16 content (replicate 16 none) cs q)
          e'

length-by_type :
    (hash : Hash256) (t : NodeType) (content : List ℕ) (i : InnerNode)
    → from_node (record { hash = hash; node_type = t; content = content }) ≡ ok i
    → length i.children ≡ 16
unfolding from_node
length-by_type hash inner content i e = length-from_full_bytes content i e
length-by_type hash compressed_inner content i e = length-from_compressed_bytes content i e
length-by_type hash transaction content i e = cc e
length-by_type hash t content i e = cc e

pub length-children :
    (node : ShaMapNode) (i : InnerNode) → from_node node ≡ ok i → length i.children ≡ 16
length-children node i e = length-by_type node.hash node.node_type node.content i e
