-- ===== src/Reader/Diff/Spans.antt =====
-- What each routine of the difference of crates/xrla-nudb/src/reader.rs adds to its two lists.
use xrpl_ledger_archive.Reader.Walk.{children_of}
use xrpl_ledger_archive.Reader.Walk.Seen.{hashes}
use xrpl_ledger_archive.Reader.Diff.Below.{
  Half, Half-seq, Nothing, AnyOf, Half-same, Half-map, Below, Half-snoc, not-Below-zero, top,
  Below-unread, AnyOf-Nothing, Below-parts,
}
use xrpl_ledger_archive.Reader.Diff.{
  each, is_zero, collect_added, collect_deleted, add_node, delete_hash,
}
use xrpl_ledger_archive.Reader.{ReadError}
use xrpl_ledger_archive.Prelude.{
  List, [], ◌∷◌, true, inl, inr, zero, suc, ◌⊎◌, ◌≡◌, subst, ◌↔◌, ℕ, Bool-cases,
}
use xrpl_ledger_archive.Prelude.Parser.{Result, ok}
use xrpl_ledger_archive.Prelude.Fallible.{ok-then, Result-cases}
use xrpl_ledger_archive.Node.{Hash256, ShaMapNode, ShaMapDiff}
use mathlib.Core.Logic.{⊎_elim}
use mathlib.Core.List.{map-append}

-- The added nodes are of `New`, the deleted hashes of `Old`.
pub record Spans (New Old : Hash256 → Type 0) (d d' : ShaMapDiff) : Type 0 where
  pub added : Half New Old (hashes d.added) (hashes d'.added)
  pub deleted : Half Old New d.deleted d'.deleted

pub Spans-same :
    {New Old : Hash256 → Type 0} (d d' : ShaMapDiff)
    → ◌≡◌ {A = Result ReadError ShaMapDiff} (ok d) (ok d')
    → ((x : Hash256) → New x → Old x)
    → ((x : Hash256) → Old x → New x)
    → Spans New Old d d'
Spans-same {New} {Old} d d' e f g =
    let same : d ≡ d' = cc e in
    subst (Spans New Old d) same
      (record { added = Half-same (hashes d.added) f; deleted = Half-same d.deleted g })

pub Spans-seq :
    {New Old New' Old' : Hash256 → Type 0} (d e f : ShaMapDiff)
    → Spans New Old d e
    → Spans New' Old' e f
    → Spans (λ x. New x ⊎ New' x) (λ x. Old x ⊎ Old' x) d f
Spans-seq d e f h k = record {
  added = Half-seq h.added k.added;
  deleted = Half-seq h.deleted k.deleted;
}

pub Spans-map :
    {New Old New' Old' : Hash256 → Type 0} (d d' : ShaMapDiff)
    → ((x : Hash256) → New x ↔ New' x)
    → ((x : Hash256) → Old x ↔ Old' x)
    → Spans New Old d d'
    → Spans New' Old' d d'
Spans-map d d' f g h = record {
  added = Half-map (λ x. (f x).0) (λ x. (f x).1) (λ x. (g x).0) h.added;
  deleted = Half-map (λ x. (g x).0) (λ x. (g x).1) (λ x. (f x).0) h.deleted;
}

pub Spans-add_node :
    (node : ShaMapNode) (h : Hash256) (d : ShaMapDiff)
    → node.hash ≡ h
    → Spans (λ x. x ≡ h) Nothing d (add_node node d)
Spans-add_node node h d e = record {
  added =
      subst (λ y. Half (λ x. x ≡ y) Nothing (hashes d.added) (hashes (add_node node d).added)) e
        (rw (map-append (λ (n : ShaMapNode). n.hash) d.added (node ∷ []))
          (Half-snoc (hashes d.added) node.hash));
  deleted = Half-same d.deleted (λ x n. absurd n);
}

pub Spans-delete_hash :
    (h : Hash256) (d : ShaMapDiff) → Spans Nothing (λ x. x ≡ h) d (delete_hash h d)
Spans-delete_hash h d = record {
  added = Half-same (hashes d.added) (λ x n. absurd n);
  deleted = Half-snoc d.deleted h;
}

-- A routine that spans a tree for each element, over a list.
pub Spans-each :
    {A : Type 0} (New Old : A → Hash256 → Type 0) (f : A → ShaMapDiff → Result ReadError ShaMapDiff)
    → ((a : A) (d d' : ShaMapDiff) → f a d ≡ ok d' → Spans (New a) (Old a) d d')
    → (as' : List A) (d d' : ShaMapDiff) → each f as' d ≡ ok d'
    → Spans (AnyOf New as') (AnyOf Old as') d d'
unfolding each
Spans-each New Old f h [] d d' e = Spans-same d d' e (λ x n. n) (λ x n. n)
Spans-each New Old f h (a ∷ as') d d' e =
    ok-then (f a d) _ e
      λ m e' e''. Spans-seq d m d' (h a d m e') (Spans-each New Old f h as' m d' e'')

pub drop_nothing : {P Q : Type 0} → (Q → ⊥) → (P ⊎ Q) ↔ P
drop_nothing f = (⊎_elim (λ p. p) (λ q. absurd (f q)), inl)

module _ (get_node : Hash256 → Result ReadError ShaMapNode)
    (own : (h : Hash256) (node : ShaMapNode) → get_node h ≡ ok node → node.hash ≡ h) where
  pub zero_tree : (h : Hash256) → is_zero h ≡ true → (x : Hash256) → Below get_node h x → ⊥
  zero_tree h z x b = not-Below-zero get_node h x z b

  pub collect_added-Spans :
      (n : ℕ) (h : Hash256) (d d' : ShaMapDiff)
      → collect_added get_node n h d ≡ ok d'
      → Spans (Below get_node h) Nothing d d'
  unfolding collect_added
  collect_added-Spans zero h d d' e = cc e
  collect_added-Spans (suc n) h d d' e = elim (Bool-cases (is_zero h)) [
    | inl z ↦
        Spans-same d d' (rw (z, collect_added) at e) (λ x b. zero_tree h z x b) (λ x o. absurd o)
    | inr nz ↦ ok-then (get_node h) _ (rw (nz, collect_added) at e) λ node stored e1.
        ok-then (children_of node) _ e1 λ children parsed e2.
          ok-then (each (collect_added get_node n) children d) _ e2 λ m e3 e4.
            let below =
              Spans-each (Below get_node) (λ c. Nothing) (collect_added get_node n)
                (λ c a b q. collect_added-Spans n c a b q) children d m e3 in
            let whole =
              Spans-seq d m (add_node node m) below (Spans-add_node node h m (own h node stored)) in
            let same : add_node node m ≡ d' = cc e4 in
            subst (Spans (Below get_node h) Nothing d) same (
              Spans-map d (add_node node m) (Below-parts get_node h node children nz stored parsed)
                (λ x. (⊎_elim (AnyOf-Nothing children x) (λ q. q), λ o. absurd o)) whole)
  ]

  pub collect_deleted-Spans :
      (n : ℕ) (h : Hash256) (d d' : ShaMapDiff)
      → collect_deleted get_node n h d ≡ ok d'
      → Spans Nothing (Below get_node h) d d'
  unfolding collect_deleted
  collect_deleted-Spans zero h d d' e = cc e
  collect_deleted-Spans (suc n) h d d' e = elim (Bool-cases (is_zero h)) [
    | inl z ↦
        Spans-same d d' (rw (z, collect_deleted) at e) (λ x o. absurd o) (λ x b. zero_tree h z x b)
    | inr nz ↦ elim (Result-cases (get_node h)) [
      | inr (u, unread) ↦
          let e1 = rw (nz, unread, collect_deleted) at e in
          let same : delete_hash h d ≡ d' = cc e1 in
          subst (Spans Nothing (Below get_node h) d) same (
            Spans-map d (delete_hash h d) (λ x. (λ o. o, λ o. o))
              (λ x. (λ q. rw q (top nz), λ b. Below-unread get_node h x unread b))
              (Spans-delete_hash h d))
      | inl (node, stored) ↦
          ok-then (children_of node) _ (rw (nz, stored, collect_deleted) at e) λ children parsed e2.
            ok-then (each (collect_deleted get_node n) children d) _ e2 λ m e3 e4.
              let below =
                Spans-each (λ c. Nothing) (Below get_node) (collect_deleted get_node n)
                  (λ c a b q. collect_deleted-Spans n c a b q) children d m e3 in
              let whole = Spans-seq d m (delete_hash h m) below (Spans-delete_hash h m) in
              let same : delete_hash h m ≡ d' = cc e4 in
              subst (Spans Nothing (Below get_node h) d) same (
                Spans-map d (delete_hash h m)
                  (λ x. (⊎_elim (AnyOf-Nothing children x) (λ q. q), λ o. absurd o))
                  (Below-parts get_node h node children nz stored parsed) whole)
    ]
  ]
