-- ===== src/Reader/Walk/Sampled.antt =====
-- `sample_hashes` of crates/xrla-nudb/src/reader.rs: it ends, and what it returns.
use xrpl_ledger_archive.Node.{Hash256, ShaMapNode}
use xrpl_ledger_archive.Reader.Walk.{contains, children_of, insert_children, sample, sample_hashes}
use xrpl_ledger_archive.Reader.{ReadError}
use xrpl_ledger_archive.Prelude.{
  List, [], ◌∷◌, ◌++◌, zero, suc, inl, inr, ◌≡◌, ℕ, ◌↔◌, ◌⊎◌, subst, Bool-cases, length, ◌≤◌, ◌<◌,
  ◌+◌, leb, arith, refl, append-nil, append_assoc, sym, length-append,
}
use xrpl_ledger_archive.Prelude.Parser.{Result, ok}
use xrpl_ledger_archive.Reader.Walk.Reached.{here, step, Reaches, Child, mem-children}
use xrpl_ledger_archive.Reader.Walk.Seen.{
  NoRepeat, contains→mem, contains-false, Memᴰ-insert, NoRepeat-insert, NoRepeat-front,
}
use mathlib.Core.Logic.{⊎_elim}
use mathlib.Core.List.{Memᴰ}
use mathlib.Core.List.Memᴰ

-- The children are inserted into the set.
Memᴰ-insert_children :
    (push : Hash256 → List Hash256 → List Hash256) (x : Hash256)
    (children visited stack : List Hash256)
    → Memᴰ x (insert_children push children visited stack).0 ↔ (Memᴰ x visited ⊎ Memᴰ x children)
unfolding insert_children
Memᴰ-insert_children push x [] visited stack = (inl, ⊎_elim (λ m. m) (λ m. absurd (Memᴰ.not-nil m)))
Memᴰ-insert_children push x (c ∷ cs) visited stack = elim (Bool-cases (contains c visited)) [
  | inl old ↦
      let rest = Memᴰ-insert_children push x cs visited stack in
      rw (old, insert_children)
        (
          λ m. ⊎_elim inl (λ t. inr (Memᴰ.tail t)) (rest.0 m),
          ⊎_elim (λ v. rest.1 (inl v))
              (λ m.
                ⊎_elim (λ q. rest.1 (inl (Memᴰ.cast q (contains→mem c visited old))))
                  (λ t. rest.1 (inr t)) (Memᴰ.cases_cons m)),
        )
  | inr new ↦
      let rest = Memᴰ-insert_children push x cs (c ∷ visited) (push c stack) in
      rw (new, insert_children)
        (
          λ m.
              ⊎_elim (λ v. ⊎_elim (λ q. inr (Memᴰ.head q)) inl (Memᴰ.cases_cons v))
                (λ t. inr (Memᴰ.tail t)) (rest.0 m),
          ⊎_elim (λ v. rest.1 (inl (Memᴰ.tail v)))
              (λ m.
                ⊎_elim (λ q. rest.1 (inl (Memᴰ.head q))) (λ t. rest.1 (inr t)) (Memᴰ.cases_cons m)),
        )
]

-- What was inserted is what was sampled or waits on the stack, and stands there once.
record Tracks (visited stack result : List Hash256) : Type 0 where
  listed : (x : Hash256) → Memᴰ x visited ↔ Memᴰ x (result ++ stack)
  once : NoRepeat (result ++ stack)

insert_children-Tracks :
    (children visited stack result : List Hash256)
    → Tracks visited stack result
    → let r = insert_children ◌∷◌ children visited stack in Tracks r.0 r.1 result
unfolding insert_children
insert_children-Tracks [] visited stack result k = k
insert_children-Tracks (c ∷ cs) visited stack result k = elim (Bool-cases (contains c visited)) [
  | inl old ↦ rw (old, insert_children) (insert_children-Tracks cs visited stack result k)
  | inr new ↦
      rw (new, insert_children)
        (insert_children-Tracks cs (c ∷ visited) (c ∷ stack) result (record {
          listed = λ x. (
            λ m.
                (Memᴰ-insert x c result stack).1
                  (⊎_elim inl (λ t. inr ((k.listed x).0 t)) (Memᴰ.cases_cons m)),
            λ m.
                ⊎_elim Memᴰ.head (λ t. Memᴰ.tail ((k.listed x).1 t))
                  ((Memᴰ-insert x c result stack).0 m),
          );
          once =
              NoRepeat-insert c result stack (λ m. contains-false c visited new ((k.listed c).1 m))
                k.once;
        }))
]

module _ (get_node : Hash256 → Result ReadError ShaMapNode) (root : Hash256) where
  -- The nodes of the tree can be read.
  abbrev pub CanRead : Type 0
  CanRead =
      (h : Hash256)
      → Reaches get_node root h
      → (node : ShaMapNode) × (children : List Hash256) × (get_node h ≡ ok node)
        × (children_of node ≡ ok children)

  -- A sample of the tree: `target` hashes, or the whole tree if it has fewer.
  pub record IsSample (target : ℕ) (out : List Hash256) : Type 0 where
    pub few : length out ≤ target
    pub once : NoRepeat out
    pub inside : (h : Hash256) → Memᴰ h out → Reaches get_node root h
    pub full : (length out ≡ target) ⊎ ((h : Hash256) → Reaches get_node root h → Memᴰ h out)

  record Sampled (visited stack result : List Hash256) : Type 0 where
    first : Memᴰ root visited
    reached : (x : Hash256) → Memᴰ x visited → Reaches get_node root x
    tracks : Tracks visited stack result
    closed : (u c : Hash256) → Memᴰ u result → Child get_node u c → Memᴰ c visited

  Sampled-start : Sampled (root ∷ []) (root ∷ []) []
  Sampled-start = record {
    first = Memᴰ.head refl;
    reached = λ x m. rw (Memᴰ.eq_of_singleton m) here;
    tracks = record { listed = λ x. (λ m. m, λ m. m); once = (λ m. Memᴰ.not-nil m, tt) };
    closed = λ u c m. absurd (Memᴰ.not-nil m);
  }

  -- The hash on top of the stack is sampled, and its children are inserted.
  Sampled-visit :
      (h : Hash256) (visited stack result : List Hash256) (node : ShaMapNode)
      (children : List Hash256)
      → get_node h ≡ ok node
      → children_of node ≡ ok children
      → Sampled visited (h ∷ stack) result
      → let r = insert_children ◌∷◌ children visited stack in Sampled r.0 r.1 (result ++ h ∷ [])
  Sampled-visit h visited stack result node children e e' k = record {
    first = (kept root).1 (inl k.first);
    reached = λ x m.
        ⊎_elim (k.reached x)
          (λ c.
            step at_h
              (record { node = node; children = children; stored = e; parsed = e'; among = c }))
          ((kept x).0 m);
    tracks = insert_children-Tracks children visited stack (result ++ h ∷ []) (record {
      listed = λ x. subst (λ xs. Memᴰ x visited ↔ Memᴰ x xs) moved (k.tracks.listed x);
      once = subst NoRepeat moved k.tracks.once;
    });
    closed = λ u c m child.
        ⊎_elim (λ a. (kept c).1 (inl (k.closed u c a child)))
          (λ last. (kept c).1 (
            inr (
              mem-children get_node h c node children e e'
                (subst (λ y. Child get_node y c) (Memᴰ.eq_of_singleton last) child))))
          (Memᴰ.append_cases result m);
  }
    where
      kept :
          (x : Hash256)
          → Memᴰ x (insert_children ◌∷◌ children visited stack).0
            ↔ (Memᴰ x visited ⊎ Memᴰ x children)
      kept x = Memᴰ-insert_children ◌∷◌ x children visited stack

      at_h : Reaches get_node root h
      at_h = k.reached h ((k.tracks.listed h).1 (Memᴰ.append_right result (Memᴰ.head refl)))

      moved : result ++ h ∷ stack ≡ (result ++ h ∷ []) ++ stack
      moved = sym (append_assoc result (h ∷ []) stack)

  all_sampled :
      (visited result : List Hash256)
      → Sampled visited [] result
      → (h : Hash256) → Reaches get_node root h
      → Memᴰ h visited
  all_sampled visited result k h here = k.first
  all_sampled visited result k h (step {u} {c} r child) =
      k.closed u h
        (subst (Memᴰ u) (append-nil result)
          ((k.tracks.listed u).0 (all_sampled visited result k u r)))
        child

  module _ (can_read : CanRead) where
    sample_ends :
        (n target : ℕ) (visited stack result : List Hash256)
        → Sampled visited stack result
        → length result ≤ target
        → target < n + length result
        → (out : List Hash256) × (sample get_node n target visited stack result ≡ ok out)
          × IsSample target out
    unfolding sample
    sample_ends zero target visited stack result k few l = absurd (omega arith)
    sample_ends (suc n) target visited [] result k few l = (
      result,
      refl,
      record {
        few = few;
        once = subst NoRepeat (append-nil result) k.tracks.once;
        inside =
            λ h m. k.reached h ((k.tracks.listed h).1 (subst (Memᴰ h) (sym (append-nil result)) m));
        full = inr λ h r.
            subst (Memᴰ h) (append-nil result)
              ((k.tracks.listed h).0 (all_sampled visited result k h r));
      },
    )
    sample_ends (suc n) target visited (h ∷ stack) result k few l =
        elim (Bool-cases (leb target (length result))) [
          | inl e ↦ (
            result,
            rw (e, sample) refl,
            record {
              few = few;
              once = NoRepeat-front result (h ∷ stack) k.tracks.once;
              inside = λ x m. k.reached x ((k.tracks.listed x).1 (Memᴰ.append_left (h ∷ stack) m));
              full = inl (ground arith);
            },
          )
          | inr e ↦
              let at_h = (k.tracks.listed h).1 (Memᴰ.append_right result (Memᴰ.head refl)) in
              let (node, children, e1, e2) = can_read h (k.reached h at_h) in
              let size = length-append result (h ∷ []) in
              let r = insert_children ◌∷◌ children visited stack in
              let room : length result < target = ground (arith, e) in
              rw (e, sample, e1, e2)
                (sample_ends n target r.0 r.1 (result ++ h ∷ [])
                  (Sampled-visit h visited stack result node children e1 e2 k)
                  (omega (arith, size, room)) (omega (arith, size, l)))
        ]

    -- With more rounds than hashes are asked for, `sample_hashes` ends and returns hashes of the tree
    -- below the root, none twice: as many as it was asked for, or those of the whole tree if it has
    -- fewer: if the nodes of the tree can be read.
    pub sample_hashes-IsSample :
        (fuel target : ℕ)
        → target < fuel
        → (out : List Hash256) × (sample_hashes get_node fuel root target ≡ ok out)
          × IsSample target out
    unfolding sample_hashes
    sample_hashes-IsSample fuel target l =
        sample_ends fuel target (root ∷ []) (root ∷ []) [] Sampled-start (omega arith) (omega arith)
