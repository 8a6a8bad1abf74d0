-- ===== src/Reader/Walk/Reached.antt =====
-- `collect_reachable` of crates/xrla-nudb/src/reader.rs: what it returns is the tree below the root.
use xrpl_ledger_archive.Reader.Walk.Seen.{
  hashes, NoRepeat, contains→mem, contains-false, NoRepeat-snoc, Memᴰ-hashes,
}
use xrpl_ledger_archive.Reader.Walk.{push_unvisited, children_of}
use xrpl_ledger_archive.Reader.Walk.{contains}
use xrpl_ledger_archive.Reader.{ReadError}
use xrpl_ledger_archive.Prelude.{
  Bool, List, [], ◌∷◌, ◌++◌, true, false, inl, inr, sym, ◌↔◌, ◌≡◌, Bool-cases, ◌⊎◌, subst, All, ◌∙◌,
  refl, All-append,
}
use xrpl_ledger_archive.Prelude.Parser.{Result, ok}
use xrpl_ledger_archive.Node.{Hash256, ShaMapNode}
use mathlib.Core.Logic.{⊎_elim}
use mathlib.Core.List.{Memᴰ, map-append}
use mathlib.Core.List.Memᴰ

-- What is pushed: the children that were not visited.
Memᴰ-push_unvisited :
    (x : Hash256) (visited children stack : List Hash256)
    → Memᴰ x (push_unvisited visited children stack)
      ↔ (Memᴰ x stack ⊎ (Memᴰ x children × (contains x visited ≡ false)))
unfolding push_unvisited
Memᴰ-push_unvisited x visited [] stack = (inl, ⊎_elim (λ m. m) (λ c. absurd (Memᴰ.not-nil c.0)))
Memᴰ-push_unvisited x visited (c ∷ cs) stack = elim (Bool-cases (contains c visited)) [
  | inl old ↦
      let rest = Memᴰ-push_unvisited x visited cs stack in
      rw old (
        λ m. ⊎_elim inl (λ new. inr (Memᴰ.tail new.0, new.1)) (rest.0 m),
        ⊎_elim (λ s. rest.1 (inl s))
            (λ new.
              ⊎_elim
                (λ e.
                  let old' = subst (λ y. contains y visited ≡ true) (sym e) old in
                  let new' = new.1 in absurd (differ old' new'))
                (λ t. rest.1 (inr (t, new.1))) (Memᴰ.cases_cons new.0)),
      )
  | inr new ↦
      let rest = Memᴰ-push_unvisited x visited cs (c ∷ stack) in
      rw new (
        λ m.
            ⊎_elim
              (λ s.
                ⊎_elim (λ e. inr (Memᴰ.head e, subst (λ y. contains y visited ≡ false) (sym e) new))
                  inl (Memᴰ.cases_cons s))
              (λ n. inr (Memᴰ.tail n.0, n.1)) (rest.0 m),
        ⊎_elim (λ s. rest.1 (inl (Memᴰ.tail s)))
            (λ n.
              ⊎_elim (λ e. rest.1 (inl (Memᴰ.head e))) (λ t. rest.1 (inr (t, n.1)))
                (Memᴰ.cases_cons n.0)),
      )
]
  where
    differ : {b : Bool} → b ≡ true → b ≡ false → ⊥
    differ e e' = cc (e, e')

module _ (get_node : Hash256 → Result ReadError ShaMapNode) where
  -- `c` is a child of the node that the store has under `u`.
  pub record Child (u c : Hash256) : Type 0 where
    pub node : ShaMapNode
    pub children : List Hash256
    pub stored : get_node u ≡ ok node
    pub parsed : children_of node ≡ ok children
    pub among : Memᴰ c children

  pub mem-children :
      (u c : Hash256) (node : ShaMapNode) (children : List Hash256)
      → get_node u ≡ ok node
      → children_of node ≡ ok children
      → Child u c
      → Memᴰ c children
  mem-children u c node children e e' child =
      let same : child.node ≡ node = cc (child.stored, e) in
      let same' : child.children ≡ children = cc (child.parsed, e', same) in
      subst (Memᴰ c) same' child.among

  -- The tree below the root.
  pub data Reaches (root : Hash256) : Hash256 → Type 0 where
    here : Reaches root root
    step : {u c : Hash256} → Reaches root u → Child u c → Reaches root c

  module _ (own : (h : Hash256) (node : ShaMapNode) → get_node h ≡ ok node → node.hash ≡ h)
      (root : Hash256) where
    pub record Inv (visited stack : List Hash256) (result : List ShaMapNode) : Type 0 where
      pub source : Memᴰ root visited ⊎ Memᴰ root stack
      pub seen : (x : Hash256) → Memᴰ x visited → Reaches root x
      pub waiting : (x : Hash256) → Memᴰ x stack → Reaches root x
      pub closed : (u c : Hash256) → Memᴰ u visited → Child u c → Memᴰ c visited ⊎ Memᴰ c stack
      pub listed : (x : Hash256) → Memᴰ x (hashes result) ↔ Memᴰ x visited
      pub once : NoRepeat (hashes result)
      pub read : All (λ (node : ShaMapNode). get_node node.hash ≡ ok node) result

    pub Inv-start : Inv [] (root ∷ []) []
    Inv-start = record {
      source = inr (Memᴰ.head refl);
      seen = λ x m. absurd (Memᴰ.not-nil m);
      waiting = λ x m. rw (Memᴰ.eq_of_singleton m) here;
      closed = λ u c m. absurd (Memᴰ.not-nil m);
      listed = λ x. (λ m. m, λ m. m);
      once = tt;
      read = tt;
    }

    -- A hash that was visited before is passed over.
    pub Inv-skip :
        (h : Hash256) (visited stack : List Hash256) (result : List ShaMapNode)
        → contains h visited ≡ true
        → Inv visited (h ∷ stack) result
        → Inv visited stack result
    Inv-skip h visited stack result old k = record {
      source = ⊎_elim inl drop_head k.source;
      seen = k.seen;
      waiting = λ x m. k.waiting x (Memᴰ.tail m);
      closed = λ u c m e. ⊎_elim inl drop_head (k.closed u c m e);
      listed = k.listed;
      once = k.once;
      read = k.read;
    }
      where
        drop_head : {x : Hash256} → Memᴰ x (h ∷ stack) → Memᴰ x visited ⊎ Memᴰ x stack
        drop_head m =
            ⊎_elim (λ e. inl (Memᴰ.cast e (contains→mem h visited old))) inr (Memᴰ.cases_cons m)

    pub Inv-visit :
        (h : Hash256) (visited stack : List Hash256) (result : List ShaMapNode) (node : ShaMapNode)
        (children : List Hash256)
        → contains h visited ≡ false
        → get_node h ≡ ok node
        → children_of node ≡ ok children
        → Inv visited (h ∷ stack) result
        → Inv (h ∷ visited) (push_unvisited (h ∷ visited) children stack) (result ++ node ∷ [])
    Inv-visit h visited stack result node children new e e' k = record {
      source = ⊎_elim (λ m. inl (Memᴰ.tail m)) moved k.source;
      seen = λ x m. ⊎_elim (λ q. rw q at_h) (k.seen x) (Memᴰ.cases_cons m);
      waiting = λ x m.
          ⊎_elim (λ s. k.waiting x (Memᴰ.tail s))
            (λ c.
              step at_h
                (record { node = node; children = children; stored = e; parsed = e'; among = c.0 }))
            ((pushed x).0 m);
      closed = λ u c m child.
          ⊎_elim (λ q. of_h c (subst (λ v. Child v c) q child))
            (λ m'. ⊎_elim (λ v. inl (Memᴰ.tail v)) moved (k.closed u c m' child))
            (Memᴰ.cases_cons m);
      listed = λ x. (
        λ m.
            ⊎_elim (λ m'. Memᴰ.tail ((k.listed x).0 m')) (λ q. Memᴰ.head (q ∙ own h node e))
              ((Memᴰ-hashes x result node).0 m),
        λ m.
            ⊎_elim (λ q. (Memᴰ-hashes x result node).1 (inr (q ∙ sym (own h node e))))
              (λ m'. (Memᴰ-hashes x result node).1 (inl ((k.listed x).1 m'))) (Memᴰ.cases_cons m),
      );
      once = rw (map-append (λ (n : ShaMapNode). n.hash) result (node ∷ [])) (
          NoRepeat-snoc node.hash (hashes result)
            (λ m. contains-false h visited new ((k.listed h).0 (Memᴰ.cast (sym (own h node e)) m)))
            k.once);
      read =
          All-append _ result (node ∷ []) k.read
            (subst (λ x. get_node x ≡ ok node) (sym (own h node e)) e, tt);
    }
      where
        pushed :
            (x : Hash256)
            → Memᴰ x (push_unvisited (h ∷ visited) children stack)
              ↔ (Memᴰ x stack ⊎ (Memᴰ x children × (contains x (h ∷ visited) ≡ false)))
        pushed x = Memᴰ-push_unvisited x (h ∷ visited) children stack

        at_h : Reaches root h
        at_h = k.waiting h (Memᴰ.head refl)

        moved :
            {x : Hash256}
            → Memᴰ x (h ∷ stack)
            → Memᴰ x (h ∷ visited) ⊎ Memᴰ x (push_unvisited (h ∷ visited) children stack)
        moved {x} m =
            ⊎_elim (λ q. inl (Memᴰ.head q)) (λ s. inr ((pushed x).1 (inl s))) (Memᴰ.cases_cons m)

        of_h :
            (c : Hash256)
            → Child h c
            → Memᴰ c (h ∷ visited) ⊎ Memᴰ c (push_unvisited (h ∷ visited) children stack)
        of_h c child = elim (Bool-cases (contains c (h ∷ visited))) [
          | inl old ↦ inl (contains→mem c (h ∷ visited) old)
          | inr new' ↦ inr ((pushed c).1 (inr (mem-children h c node children e e' child, new')))
        ]
