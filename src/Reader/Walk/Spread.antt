-- ===== src/Reader/Walk/Spread.antt =====
-- What `collect_reachable_concurrent` of crates/xrla-nudb/src/reader.rs keeps true while it inserts the
-- children of a node.
use xrpl_ledger_archive.Node.{Hash256, ShaMapNode}
use xrpl_ledger_archive.Reader.Walk.{contains, insert_children, children_of, snoc}
use xrpl_ledger_archive.Reader.{ReadError}
use xrpl_ledger_archive.Prelude.{
  List, [], ◌∷◌, ◌++◌, inl, inr, ◌≡◌, subst, Bool-cases, ◌↔◌, sym, ◌⊎◌, All, append_assoc, ◌∙◌, ap,
  refl, All-append, true, false,
}
use xrpl_ledger_archive.Prelude.Parser.{Result, ok}
use xrpl_ledger_archive.Reader.Walk.Reached.{mem-children, here, step, Reaches, Child}
use xrpl_ledger_archive.Reader.Walk.Seen.{
  hashes, NoRepeat, contains→mem, Memᴰ-snoc, Memᴰ-hashes, NoRepeat-snoc, contains-false,
}
use mathlib.Core.Logic.{⊎_elim}
use mathlib.Core.List.{Memᴰ, map-append}
use mathlib.Core.List.Memᴰ

module _ (get_node : Hash256 → Result ReadError ShaMapNode)
    (own : (h : Hash256) (node : ShaMapNode) → get_node h ≡ ok node → node.hash ≡ h)
    (root : Hash256) where
  -- `pending` holds what is left of the frontier, and the next one; what was inserted is what was
  -- read or is pending.
  pub record Spread (visited pending : List Hash256) (result : List ShaMapNode) : Type 0 where
    pub source : Memᴰ root visited
    pub seen : (x : Hash256) → Memᴰ x visited → Reaches get_node root x
    pub closed : (u c : Hash256) → Memᴰ u (hashes result) → Child get_node u c → Memᴰ c visited
    pub listed : (x : Hash256) → Memᴰ x visited ↔ Memᴰ x (hashes result ++ pending)
    pub once : NoRepeat (hashes result ++ pending)
    pub read : All (λ (node : ShaMapNode). get_node node.hash ≡ ok node) result

  pub Spread-start : Spread (root ∷ []) (root ∷ []) []
  Spread-start = record {
    source = Memᴰ.head refl;
    seen = λ x m. rw (Memᴰ.eq_of_singleton m) here;
    closed = λ u c m. absurd (Memᴰ.not-nil m);
    listed = λ x. (λ m. m, λ m. m);
    once = (λ m. Memᴰ.not-nil m, tt);
    read = tt;
  }

  -- While the children of a node are inserted, one after another.
  pub record Inserting (visited pending : List Hash256) (result : List ShaMapNode) (u : Hash256)
      (left : List Hash256) : Type 0 where
    pub source : Memᴰ root visited
    pub seen : (x : Hash256) → Memᴰ x visited → Reaches get_node root x
    pub closed :
        (v c : Hash256)
        → Memᴰ v (hashes result)
        → Child get_node v c
        → Memᴰ c visited ⊎ ((v ≡ u) × Memᴰ c left)
    pub reached : (c : Hash256) → Memᴰ c left → Reaches get_node root c
    pub listed : (x : Hash256) → Memᴰ x visited ↔ Memᴰ x (hashes result ++ pending)
    pub once : NoRepeat (hashes result ++ pending)
    pub read : All (λ (node : ShaMapNode). get_node node.hash ≡ ok node) result

  Inserting-done :
      (visited pending : List Hash256) (result : List ShaMapNode) (u : Hash256)
      → Inserting visited pending result u []
      → Spread visited pending result
  Inserting-done visited pending result u k = record {
    source = k.source;
    seen = k.seen;
    closed =
        λ v c m child. ⊎_elim (λ m'. m') (λ l. absurd (Memᴰ.not-nil l.1)) (k.closed v c m child);
    listed = k.listed;
    once = k.once;
    read = k.read;
  }

  -- A child that was inserted before.
  Inserting-old :
      (c : Hash256) (cs visited pending : List Hash256) (result : List ShaMapNode) (u : Hash256)
      → contains c visited ≡ true
      → Inserting visited pending result u (c ∷ cs)
      → Inserting visited pending result u cs
  Inserting-old c cs visited pending result u old k = record {
    source = k.source;
    seen = k.seen;
    closed = λ v d m child.
        ⊎_elim inl
          (λ l.
            ⊎_elim (λ q. inl (Memᴰ.cast q (contains→mem c visited old))) (λ t. inr (l.0, t))
              (Memᴰ.cases_cons l.1))
          (k.closed v d m child);
    reached = λ d m. k.reached d (Memᴰ.tail m);
    listed = k.listed;
    once = k.once;
    read = k.read;
  }

  Inserting-new :
      (c : Hash256) (cs visited pending : List Hash256) (result : List ShaMapNode) (u : Hash256)
      → contains c visited ≡ false
      → Inserting visited pending result u (c ∷ cs)
      → Inserting (c ∷ visited) (snoc c pending) result u cs
  Inserting-new c cs visited pending result u new k = record {
    source = Memᴰ.tail k.source;
    seen = λ x m. ⊎_elim (λ q. rw q (k.reached c (Memᴰ.head refl))) (k.seen x) (Memᴰ.cases_cons m);
    closed = λ v d m child.
        ⊎_elim (λ m'. inl (Memᴰ.tail m'))
          (λ l. ⊎_elim (λ q. inl (Memᴰ.head q)) (λ t. inr (l.0, t)) (Memᴰ.cases_cons l.1))
          (k.closed v d m child);
    reached = λ d m. k.reached d (Memᴰ.tail m);
    listed = λ x.
        subst (λ xs. Memᴰ x (c ∷ visited) ↔ Memᴰ x xs) shape
          (
            λ m.
                (Memᴰ-snoc x c (hashes result ++ pending)).1
                  (⊎_elim inr (λ t. inl ((k.listed x).0 t)) (Memᴰ.cases_cons m)),
            λ m.
                ⊎_elim (λ m'. Memᴰ.tail ((k.listed x).1 m')) Memᴰ.head
                  ((Memᴰ-snoc x c (hashes result ++ pending)).0 m),
          );
    once = subst NoRepeat shape (
        NoRepeat-snoc c (hashes result ++ pending)
          (λ m. contains-false c visited new ((k.listed c).1 m)) k.once);
    read = k.read;
  }
    where
      shape : (hashes result ++ pending) ++ c ∷ [] ≡ hashes result ++ snoc c pending
      shape = append_assoc (hashes result) pending (c ∷ [])

  pub insert_children-Spread :
      (children visited front next : List Hash256) (result : List ShaMapNode) (u : Hash256)
      → Inserting visited (front ++ next) result u children
      → let r = insert_children snoc children visited next in Spread r.0 (front ++ r.1) result
  unfolding insert_children
  insert_children-Spread [] visited front next result u k =
      Inserting-done visited (front ++ next) result u k
  insert_children-Spread (c ∷ cs) visited front next result u k =
      elim (Bool-cases (contains c visited)) [
        | inl old ↦
            rw (old, insert_children)
              (insert_children-Spread cs visited front next result u
                (Inserting-old c cs visited (front ++ next) result u old k))
        | inr new ↦
            let inserted = Inserting-new c cs visited (front ++ next) result u new k in
            rw (new, insert_children)
              (insert_children-Spread cs (c ∷ visited) front (snoc c next) result u (
                subst (λ xs. Inserting (c ∷ visited) xs result u cs)
                  (append_assoc front next (c ∷ [])) inserted))
      ]

  pub Inserting-start :
      (h : Hash256) (visited rest : List Hash256) (result : List ShaMapNode) (node : ShaMapNode)
      (children : List Hash256)
      → get_node h ≡ ok node
      → children_of node ≡ ok children
      → Spread visited (h ∷ rest) result
      → Inserting visited rest (result ++ node ∷ []) h children
  Inserting-start h visited rest result node children e e' k = record {
    source = k.source;
    seen = k.seen;
    closed = λ v c m child.
        ⊎_elim (λ m'. inl (k.closed v c m' child))
          (λ q. inr (
            q ∙ own h node e,
            mem-children get_node h c node children e e'
                (subst (λ x. Child get_node x c) (q ∙ own h node e) child),
          ))
          ((Memᴰ-hashes v result node).0 m);
    reached = λ c m.
        step (k.seen h ((k.listed h).1 (Memᴰ.append_right (hashes result) (Memᴰ.head refl))))
          (record { node = node; children = children; stored = e; parsed = e'; among = m });
    listed = λ x. subst (λ xs. Memᴰ x visited ↔ Memᴰ x xs) shape (k.listed x);
    once = subst NoRepeat shape k.once;
    read =
        All-append _ result (node ∷ []) k.read
          (subst (λ x. get_node x ≡ ok node) (sym (own h node e)) e, tt);
  }
    where
      shape : hashes result ++ h ∷ rest ≡ hashes (result ++ node ∷ []) ++ rest
      shape =
          ap (λ x. hashes result ++ x ∷ rest) (sym (own h node e))
          ∙ sym (append_assoc (hashes result) (node.hash ∷ []) rest)
          ∙ ap (λ xs. xs ++ rest) (sym (map-append (λ (n : ShaMapNode). n.hash) result (node ∷ [])))
