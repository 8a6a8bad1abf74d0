-- ===== src/Prelude/Sort.antt =====
-- `slice::sort_by` with a comparison of byte arrays: a stable sort by a key, in the order of
-- `<[u8] as Ord>::cmp`.
use xrpl_ledger_archive.Prelude.{sym, ap}
use Prim.Native.Nat.{ℕ, ◌+◌}
use mathlib.Core.Path.{◌≡◌, refl, ◌∙◌, subst}
use mathlib.Core.Bool.{Bool, true, false}
use mathlib.Core.Logic.{inl, inr, ∥∥₁_elim}
use mathlib.Core.Logic.Or
use mathlib.Core.List.{List, [], ◌∷◌, Perm, Permᴰ, Mem, Memᴰ, mem-cons}
use native.Mathlib.Omega.{arith}
use xrpl_ledger_archive.Prelude.Lists.{length, All}
use xrpl_ledger_archive.Prelude.Tests.{ltb, ◌==◌, if◌then◌else◌, Bool-cases}

-- `a <= b` of `Ord for [u8]`.
unfoldable pub lex_leb : List ℕ → List ℕ → Bool
lex_leb [] ys = true
lex_leb (x ∷ xs) [] = false
lex_leb (x ∷ xs) (y ∷ ys) = if ltb x y then true else if x == y then lex_leb xs ys else false

pub lex_leb-total : (xs ys : List ℕ) → lex_leb xs ys ≡ false → lex_leb ys xs ≡ true
unfolding lex_leb
lex_leb-total [] ys h = cc
lex_leb-total (x ∷ xs) [] h = refl
lex_leb-total (x ∷ xs) (y ∷ ys) h = ground (arith, lex_leb-total xs ys)

pub lex_leb_antisymm : (xs ys : List ℕ) → lex_leb xs ys ≡ true → lex_leb ys xs ≡ true → xs ≡ ys
unfolding lex_leb
lex_leb_antisymm [] [] h k = refl
lex_leb_antisymm [] (y ∷ ys) h k = cc
lex_leb_antisymm (x ∷ xs) [] h k = cc
lex_leb_antisymm (x ∷ xs) (y ∷ ys) h k = ground (arith, lex_leb_antisymm xs ys)

pub lex_leb_trans :
    (xs ys zs : List ℕ) → lex_leb xs ys ≡ true → lex_leb ys zs ≡ true → lex_leb xs zs ≡ true
unfolding lex_leb
lex_leb_trans [] ys zs h k = refl
lex_leb_trans (x ∷ xs) [] zs h k = cc
lex_leb_trans (x ∷ xs) (y ∷ ys) [] h k = cc
lex_leb_trans (x ∷ xs) (y ∷ ys) (z ∷ zs) h k = ground (arith, lex_leb_trans xs ys zs)

module _ {A : Type 0} (key : A → List ℕ) where
  unfoldable pub insert_by : A → List A → List A
  insert_by a [] = a ∷ []
  insert_by a (x ∷ xs) =
      let rest = insert_by a xs in if lex_leb (key a) (key x) then a ∷ x ∷ xs else x ∷ rest

  unfoldable pub sort_by : List A → List A
  unfolding insert_by
  sort_by [] = []
  sort_by (x ∷ xs) = insert_by x (sort_by xs)

  length-insert_by : (a : A) (xs : List A) → length (insert_by a xs) ≡ length xs + 1
  unfolding insert_by
  length-insert_by a [] = omega arith
  length-insert_by a (x ∷ xs) = ground (arith, length-insert_by a xs)

  pub length-sort_by : (xs : List A) → length (sort_by xs) ≡ length xs
  unfolding sort_by
  length-sort_by [] = refl
  length-sort_by (x ∷ xs) = omega (arith, length-insert_by x (sort_by xs), length-sort_by xs)

  insert_by_same :
      {a b : A}
      → a ≡ b
      → (xs : List A) → insert_by a (insert_by b xs) ≡ insert_by b (insert_by a xs)
  insert_by_same {a} e xs =
      subst (λ c. insert_by a (insert_by c xs) ≡ insert_by c (insert_by a xs)) e refl

  insert_by_comm :
      (a b : A) (xs : List A)
      → (key a ≡ key b → a ≡ b)
      → insert_by a (insert_by b xs) ≡ insert_by b (insert_by a xs)
  unfolding insert_by
  insert_by_comm a b [] inj = elim (Bool-cases (lex_leb (key a) (key b))) [
    | inl e ↦ elim (Bool-cases (lex_leb (key b) (key a))) [
      | inl e' ↦ insert_by_same (inj (lex_leb_antisymm _ _ e e')) []
      | inr e' ↦ rw (e, e')
    ]
    | inr e ↦ rw (e, lex_leb-total (key a) (key b) e)
  ]
  insert_by_comm a b (x ∷ xs) inj = elim (Bool-cases (lex_leb (key a) (key b))) [
    | inl e ↦ elim (Bool-cases (lex_leb (key b) (key a))) [
      | inl e' ↦ insert_by_same (inj (lex_leb_antisymm _ _ e e')) (x ∷ xs)
      | inr e' ↦ ground (arith, insert_by_comm a b xs inj, lex_leb_trans (key a) (key b) (key x))
    ]
    | inr e ↦ ground (
      arith,
      insert_by_comm a b xs inj,
      lex_leb-total (key a) (key b),
      lex_leb_trans (key b) (key a) (key x),
    )
  ]

module _ {κ} {A : Type 0} (key : A → List ℕ) (P : A → Type κ) where
  All-insert_by : (a : A) (xs : List A) → P a → All P xs → All P (insert_by key a xs)
  unfolding insert_by
  All-insert_by a [] h k = (h, tt)
  All-insert_by a (x ∷ xs) h k = elim (Bool-cases (lex_leb (key a) (key x))) [
    | inl e ↦ rw e (h, k)
    | inr e ↦ rw e (k.0, All-insert_by a xs h k.1)
  ]

  pub All-sort_by : (xs : List A) → All P xs → All P (sort_by key xs)
  unfolding sort_by
  All-sort_by [] h = tt
  All-sort_by (x ∷ xs) h = All-insert_by x (sort_by key xs) h.0 (All-sort_by xs h.1)

module _ {κ} {A : Type 0} (key : A → List ℕ) (P : A → Type κ)
    (same : (a b : A) → P a → P b → key a ≡ key b → a ≡ b) where
  sort_by-Permᴰ :
      {xs ys : List A}
      → Permᴰ xs ys
      → All P xs
      → record { sorted : sort_by key xs ≡ sort_by key ys; kept : All P ys }
  unfolding sort_by
  sort_by-Permᴰ Permᴰ.nil h = record { sorted = refl; kept = tt }
  sort_by-Permᴰ (Permᴰ.cons {b = b} {l₁ = l₁} e d) h =
      let r = sort_by-Permᴰ d h.1 in
      record { sorted = rw (e, r.sorted); kept = (subst P e h.0, r.kept) }
  sort_by-Permᴰ (Permᴰ.swap {a = a} {b = b} {l = l} e e') h = record {
    sorted = rw (← e, ← e') (insert_by_comm key a b (sort_by key l) (same a b h.0 h.1.0));
    kept = (subst P e' h.1.0, (subst P e h.0, h.1.1));
  }
  sort_by-Permᴰ (Permᴰ.trans d d') h =
      let r = sort_by-Permᴰ d h in
      let r' = sort_by-Permᴰ d' r.kept in record { sorted = r.sorted ∙ r'.sorted; kept = r'.kept }

  pub sort_by-perm :
      IsSet A → {xs ys : List A} → Perm xs ys → All P xs → sort_by key xs ≡ sort_by key ys
  sort_by-perm set {xs} {ys} p h =
      let lists_set : IsSet (List A) = hlevel set in
      ∥∥₁_elim p (lists_set (sort_by key xs) (sort_by key ys)) λ d. (sort_by-Permᴰ d h).sorted

All-of_mem : {A : Type 0} {P : A → Type 0} (xs : List A) → ((a : A) → Mem a xs → P a) → All P xs
All-of_mem [] h = tt
All-of_mem (x ∷ xs) h =
    (h x (mem-cons.1 (Or.inl refl)), All-of_mem xs λ a m. h a (mem-cons.1 (Or.inr m)))

-- In `xs`, the key tells the elements apart.
abbrev pub KeyIdentifies : {A : Type 0} → (A → List ℕ) → List A → Type 0
KeyIdentifies {A} key xs = (a b : A) → Mem a xs → Mem b xs → key a ≡ key b → a ≡ b

-- Then the order in which the elements are given does not matter.
pub sort_by-eq_of_perm :
    {A : Type 0} (key : A → List ℕ)
    → IsSet A
    → {xs ys : List A} → KeyIdentifies key xs
    → Perm xs ys
    → sort_by key xs ≡ sort_by key ys
sort_by-eq_of_perm key set {xs} inj p =
    sort_by-perm key (λ a. Mem a xs) inj set p (All-of_mem xs λ a m. m)

all_at : {A : Type 0} (P : A → Type 0) {a : A} {xs : List A} → Memᴰ a xs → All P xs → P a
all_at P (Memᴰ.head e) h = subst P (sym e) h.0
all_at P (Memᴰ.tail d) h = all_at P d h.1

-- So it does when each element can be made from its key.
pub KeyIdentifies-of :
    {A : Type 0} (key : A → List ℕ) (make : List ℕ → A) (xs : List A)
    → IsSet A
    → All (λ a. a ≡ make (key a)) xs
    → KeyIdentifies key xs
KeyIdentifies-of key make xs set h a b m n e = ∥∥₁_elim m (set a b) λ d.
    ∥∥₁_elim n (set a b) λ d'.
      all_at (λ x. x ≡ make (key x)) d h ∙ ap make e ∙ sym (all_at (λ x. x ≡ make (key x)) d' h)
