-- ===== src/Meta/AccountSet.antt =====
-- The `BTreeSet` of crates/xrla-common/src/meta_decode.rs as a set: what is in it, and its order.
use xrpl_ledger_archive.Meta.Summary.{insert_account}
use xrpl_ledger_archive.Prelude.Sort.{lex_leb, lex_leb_antisymm, lex_leb_trans}
use xrpl_ledger_archive.Meta.{AccountId}
use xrpl_ledger_archive.Prelude.{
  [], ◌∷◌, ◌++◌, true, false, inl, inr, List, list_eq, All, ℕ, ◌≡◌, Bool-cases, ◌↔◌, arith, ◌⊎◌,
  refl, subst, ◌∙◌, list_eq_refl, list_eq→eq,
}
use mathlib.Core.Logic.{⊎_elim}
use mathlib.Core.List.{Memᴰ}
use mathlib.Core.List.Memᴰ

-- Strictly ascending in the order of byte arrays, so that no account stands twice.
abbrev pub IsAscending : List AccountId → Type 0
IsAscending [] = Unit
IsAscending (x ∷ xs) = All (λ y. lex_leb y x ≡ false) xs × IsAscending xs

lex_leb_refl : (xs : List ℕ) → lex_leb xs xs ≡ true
unfolding lex_leb
lex_leb_refl [] = refl
lex_leb_refl (x ∷ xs) = ground (arith, lex_leb_refl xs)

-- What is not equal and not above is below.
not_above : (a x : AccountId) → list_eq a x ≡ false → lex_leb a x ≡ true → lex_leb x a ≡ false
not_above a x h k = elim (Bool-cases (lex_leb x a)) [
  | inl e ↦
      let same : a ≡ x = lex_leb_antisymm a x k e in
      let self : list_eq a x ≡ true = subst (λ y. list_eq a y ≡ true) same (list_eq_refl a) in cc
  | inr e ↦ e
]

above_trans : (a x y : AccountId) → lex_leb a x ≡ true → lex_leb y x ≡ false → lex_leb y a ≡ false
above_trans a x y h k = elim (Bool-cases (lex_leb y a)) [
  | inl e ↦ let below = lex_leb_trans y a x e h in cc
  | inr e ↦ e
]

All-above :
    (a x : AccountId) (xs : List AccountId)
    → lex_leb a x ≡ true
    → All (λ y. lex_leb y x ≡ false) xs
    → All (λ y. lex_leb y a ≡ false) xs
All-above a x [] h k = tt
All-above a x (y ∷ ys) h k = (above_trans a x y h k.0, All-above a x ys h k.1)

pub All-insert_account :
    (P : AccountId → Type 0) (a : AccountId) (xs : List AccountId)
    → P a
    → All P xs
    → All P (insert_account a xs)
unfolding insert_account
All-insert_account P a [] h k = (h, tt)
All-insert_account P a (x ∷ xs) h k = elim (Bool-cases (list_eq a x)) [
  | inl same ↦ rw same k
  | inr other ↦ elim (Bool-cases (lex_leb a x)) [
    | inl below ↦ rw (other, below) (h, k)
    | inr above ↦ rw (other, above) (k.0, All-insert_account P a xs h k.1)
  ]
]

pub insert_account-IsAscending :
    (a : AccountId) (xs : List AccountId) → IsAscending xs → IsAscending (insert_account a xs)
unfolding insert_account
insert_account-IsAscending a [] h = (tt, tt)
insert_account-IsAscending a (x ∷ xs) h = elim (Bool-cases (list_eq a x)) [
  | inl same ↦ rw same h
  | inr other ↦ elim (Bool-cases (lex_leb a x)) [
    | inl below ↦ rw (other, below) ((not_above a x other below, All-above a x xs below h.0), h)
    | inr above ↦
        rw (other, above) (All-insert_account _ a xs above h.0, insert_account-IsAscending a xs h.1)
  ]
]

Memᴰ-insert_account :
    (b a : AccountId) (xs : List AccountId) → Memᴰ b (insert_account a xs) ↔ ((b ≡ a) ⊎ Memᴰ b xs)
unfolding insert_account
Memᴰ-insert_account b a [] = (Memᴰ.cases_cons, ⊎_elim Memᴰ.head Memᴰ.tail)
Memᴰ-insert_account b a (x ∷ xs) = elim (Bool-cases (list_eq a x)) [
  | inl same ↦ rw same (inr, ⊎_elim (λ e. Memᴰ.head (e ∙ list_eq→eq a x same)) (λ m. m))
  | inr other ↦ elim (Bool-cases (lex_leb a x)) [
    | inl below ↦ rw (other, below) (Memᴰ.cases_cons, ⊎_elim Memᴰ.head Memᴰ.tail)
    | inr above ↦
        let rest = Memᴰ-insert_account b a xs in
        rw (other, above)
          (
            λ m.
                ⊎_elim (λ e. inr (Memᴰ.head e))
                  (λ t. ⊎_elim inl (λ u. inr (Memᴰ.tail u)) (rest.0 t)) (Memᴰ.cases_cons m),
            ⊎_elim (λ e. Memᴰ.tail (rest.1 (inl e)))
                (λ m. ⊎_elim Memᴰ.head (λ t. Memᴰ.tail (rest.1 (inr t))) (Memᴰ.cases_cons m)),
          )
  ]
]

-- One insertion after another.
abbrev pub insert_all : List AccountId → List AccountId → List AccountId
insert_all out [] = out
insert_all out (a ∷ as') = insert_all (insert_account a out) as'

pub insert_all-append :
    (out xs ys : List AccountId) → insert_all out (xs ++ ys) ≡ insert_all (insert_all out xs) ys
insert_all-append out [] ys = refl
insert_all-append out (x ∷ xs) ys = insert_all-append (insert_account x out) xs ys

pub insert_all-IsAscending :
    (out xs : List AccountId) → IsAscending out → IsAscending (insert_all out xs)
insert_all-IsAscending out [] h = h
insert_all-IsAscending out (x ∷ xs) h =
    insert_all-IsAscending (insert_account x out) xs (insert_account-IsAscending x out h)

pub Memᴰ-insert_all :
    (b : AccountId) (out xs : List AccountId)
    → Memᴰ b (insert_all out xs) ↔ (Memᴰ b out ⊎ Memᴰ b xs)
Memᴰ-insert_all b out [] = (inl, ⊎_elim (λ m. m) (λ m. absurd (Memᴰ.not-nil m)))
Memᴰ-insert_all b out (x ∷ xs) =
    let one = Memᴰ-insert_account b x out in
    let rest = Memᴰ-insert_all b (insert_account x out) xs in
    (
      λ m.
          ⊎_elim (λ n. ⊎_elim (λ e. inr (Memᴰ.head e)) inl (one.0 n)) (λ t. inr (Memᴰ.tail t))
            (rest.0 m),
      ⊎_elim (λ m. rest.1 (inl (one.1 (inr m))))
          (λ m.
            ⊎_elim (λ e. rest.1 (inl (one.1 (inl e)))) (λ t. rest.1 (inr t)) (Memᴰ.cases_cons m)),
    )
