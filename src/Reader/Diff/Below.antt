-- ===== src/Reader/Diff/Below.antt =====
-- The trees that `diff` of crates/xrla-nudb/src/reader.rs compares, and what a step of it may do to
-- one of the two lists that it fills.
use xrpl_ledger_archive.Reader.Walk.{children_of}
use xrpl_ledger_archive.Reader.Walk.Reached.{Child}
use xrpl_ledger_archive.Reader.Diff.{is_zero}
use xrpl_ledger_archive.Reader.{ReadError}
use xrpl_ledger_archive.Prelude.{
  List, [], ◌∷◌, ◌++◌, true, false, inl, inr, ◌⊎◌, ◌≡◌, ◌↔◌, subst, Bool-cases, refl,
}
use xrpl_ledger_archive.Prelude.Parser.{Result, ok, err}
use xrpl_ledger_archive.Node.{Hash256, ShaMapNode}
use mathlib.Core.Logic.{⊎_elim}
use mathlib.Core.List.{Memᴰ}
use mathlib.Core.List.Memᴰ

-- `l'` is `l` and some hashes of `New`, among them all that are not of `Old`.
pub record Half (New Old : Hash256 → Type 0) (l l' : List Hash256) : Type 0 where
  pub kept : (x : Hash256) → Memᴰ x l → Memᴰ x l'
  pub only : (x : Hash256) → Memᴰ x l' → Memᴰ x l ⊎ New x
  pub full : (x : Hash256) → New x → Old x ⊎ Memᴰ x l'

abbrev pub Nothing : Hash256 → Type 0
Nothing x = ⊥

pub Half-same :
    {New Old : Hash256 → Type 0} (l : List Hash256)
    → ((x : Hash256) → New x → Old x)
    → Half New Old l l
Half-same l f = record { kept = λ x m. m; only = λ x m. inl m; full = λ x n. inl (f x n) }

pub Half-seq :
    {New Old New' Old' : Hash256 → Type 0} {l m n : List Hash256}
    → Half New Old l m
    → Half New' Old' m n
    → Half (λ x. New x ⊎ New' x) (λ x. Old x ⊎ Old' x) l n
Half-seq h k = record {
  kept = λ x i. k.kept x (h.kept x i);
  only = λ x i.
      ⊎_elim (λ j. ⊎_elim inl (λ a. inr (inl a)) (h.only x j)) (λ b. inr (inr b)) (k.only x i);
  full = λ x.
      ⊎_elim (λ a. ⊎_elim (λ o. inl (inl o)) (λ i. inr (k.kept x i)) (h.full x a))
        (λ b. ⊎_elim (λ o. inl (inr o)) inr (k.full x b));
}

pub Half-snoc : (l : List Hash256) (h : Hash256) → Half (λ x. x ≡ h) Nothing l (l ++ h ∷ [])
Half-snoc l h = record {
  kept = λ x m. Memᴰ.append_left (h ∷ []) m;
  only = λ x m. ⊎_elim inl (λ last. inr (Memᴰ.eq_of_singleton last)) (Memᴰ.append_cases l m);
  full = λ x e. inr (Memᴰ.append_right l (Memᴰ.head e));
}

pub Half-map :
    {New Old New' Old' : Hash256 → Type 0} {l m : List Hash256}
    → ((x : Hash256) → New x → New' x)
    → ((x : Hash256) → New' x → New x)
    → ((x : Hash256) → Old x → Old' x)
    → Half New Old l m
    → Half New' Old' l m
Half-map f g o h = record {
  kept = h.kept;
  only = λ x i. ⊎_elim inl (λ n. inr (f x n)) (h.only x i);
  full = λ x n. ⊎_elim (λ a. inl (o x a)) inr (h.full x (g x n));
}

-- In one of the trees of a list.
abbrev pub AnyOf : {A : Type 0} → (A → Hash256 → Type 0) → List A → Hash256 → Type 0
AnyOf P [] x = ⊥
AnyOf P (a ∷ as') x = P a x ⊎ AnyOf P as' x

pub AnyOf-Nothing : {A : Type 0} (as' : List A) (x : Hash256) → AnyOf (λ a y. ⊥) as' x → ⊥
AnyOf-Nothing [] x n = n
AnyOf-Nothing (a ∷ as') x n = ⊎_elim (λ z. z) (AnyOf-Nothing as' x) n

module _ (get_node : Hash256 → Result ReadError ShaMapNode) where
  -- The tree below a hash; the zero hash stands for no tree.
  pub data Below (root : Hash256) : Hash256 → Type 0 where
    top : is_zero root ≡ false → Below root root
    under : {u c : Hash256} → Below root u → Child get_node u c → is_zero c ≡ false → Below root c

  pub not-Below-zero : (root x : Hash256) → is_zero root ≡ true → Below root x → ⊥
  not-Below-zero root x z (top e) = cc (z, e)
  not-Below-zero root x z (under b child e) = not-Below-zero root _ z b

  Below-trans : {a b c : Hash256} → Below a b → Below b c → Below a c
  Below-trans p (top e) = p
  Below-trans p (under q child e) = under (Below-trans p q) child e

  -- A tree is its root and the trees of the root's children.
  module _ (h : Hash256) (node : ShaMapNode) (children : List Hash256) (e : is_zero h ≡ false)
      (stored : get_node h ≡ ok node) (parsed : children_of node ≡ ok children) where
    same_children : {c : Hash256} → Child get_node h c → Memᴰ c children
    same_children {c} child =
        let same : child.node ≡ node = cc (child.stored, stored) in
        let same' : child.children ≡ children = cc (child.parsed, parsed, same) in
        subst (Memᴰ c) same' child.among

    AnyOf-mem : (cs : List Hash256) {c x : Hash256} → Memᴰ c cs → Below c x → AnyOf Below cs x
    AnyOf-mem [] m b = absurd (Memᴰ.not-nil m)
    AnyOf-mem (d ∷ ds) {c} {x} m b =
        ⊎_elim (λ q. inl (subst (λ y. Below y x) q b)) (λ t. inr (AnyOf-mem ds t b))
          (Memᴰ.cases_cons m)

    AnyOf-extend :
        (cs : List Hash256) {u c : Hash256}
        → AnyOf Below cs u
        → Child get_node u c
        → is_zero c ≡ false
        → AnyOf Below cs c
    AnyOf-extend [] n child z = absurd n
    AnyOf-extend (d ∷ ds) n child z =
        ⊎_elim (λ b. inl (under b child z)) (λ t. inr (AnyOf-extend ds t child z)) n

    Below-split : (x : Hash256) → Below h x → AnyOf Below children x ⊎ (x ≡ h)
    Below-split x (top z) = inr refl
    Below-split x (under {u} {c} b child z) = elim (Below-split u b) [
      | inl deep ↦ inl (AnyOf-extend children deep child z)
      | inr same ↦
          inl (
            AnyOf-mem children (same_children (subst (λ y. Child get_node y c) same child)) (top z))
    ]

    Below-join : (x : Hash256) → AnyOf Below children x ⊎ (x ≡ h) → Below h x
    Below-join x (inr same) = rw same (top e)
    Below-join x (inl deep) = go children (λ c m. m) deep
      where
        go :
            (cs : List Hash256)
            → ((c : Hash256) → Memᴰ c cs → Memᴰ c children)
            → AnyOf Below cs x
            → Below h x
        go [] sub n = absurd n
        go (c ∷ cs) sub n =
            ⊎_elim
              (λ b. elim (Bool-cases (is_zero c)) [
                | inl z ↦ absurd (not-Below-zero c x z b)
                | inr nz ↦
                    Below-trans
                      (under (top e)
                        (record {
                          node = node;
                          children = children;
                          stored = stored;
                          parsed = parsed;
                          among = sub c (Memᴰ.head refl);
                        })
                        nz)
                      b
              ])
              (λ t. go cs (λ d m. sub d (Memᴰ.tail m)) t) n

    pub Below-parts : (x : Hash256) → (AnyOf Below children x ⊎ (x ≡ h)) ↔ Below h x
    Below-parts x = (Below-join x, Below-split x)

  -- If the node cannot be read, the tree is its root alone.
  pub Below-unread : (h x : Hash256) {e : ReadError} → get_node h ≡ err e → Below h x → x ≡ h
  Below-unread h x u (top z) = refl
  Below-unread h x u (under {u = v} {c = c} b child z) =
      let same = Below-unread h v u b in
      let stored = subst (λ y. get_node y ≡ ok child.node) same child.stored in
      absurd (clash u stored)
    where
      clash :
          {r : Result ReadError ShaMapNode} {e : ReadError} {n : ShaMapNode}
          → r ≡ err e
          → r ≡ ok n
          → ⊥
      clash p q = cc (p, q)
