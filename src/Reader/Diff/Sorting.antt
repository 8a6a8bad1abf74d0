-- ===== src/Reader/Diff/Sorting.antt =====
-- `sort_by` of crates/xrla-nudb/src/reader.rs keeps what is in a list.
use xrpl_ledger_archive.Prelude.Sort.{insert_by, sort_by, lex_leb}
use xrpl_ledger_archive.Prelude.{
  List, [], ◌∷◌, inl, inr, map, ◌≡◌, ℕ, ap, ◌↔◌, refl, ◌⊎◌, Bool-cases,
}
use xrpl_ledger_archive.Node.{Hash256}
use mathlib.Core.Logic.{⊎_elim}
use mathlib.Core.List.{Memᴰ}
use mathlib.Core.List.Memᴰ

-- Sorting keeps what is in a list.
Memᴰ-insert_by :
    {A : Type 0} (key : A → List ℕ) (f : A → Hash256) (x : Hash256) (a : A) (as' : List A)
    → Memᴰ x (map f (insert_by key a as')) ↔ ((x ≡ f a) ⊎ Memᴰ x (map f as'))
unfolding insert_by
Memᴰ-insert_by key f x a [] = (Memᴰ.cases_cons, ⊎_elim Memᴰ.head Memᴰ.tail)
Memᴰ-insert_by key f x a (b ∷ bs) = elim (Bool-cases (lex_leb (key a) (key b))) [
  | inl e ↦ rw (e, insert_by) (Memᴰ.cases_cons, ⊎_elim Memᴰ.head Memᴰ.tail)
  | inr e ↦
      let rest = Memᴰ-insert_by key f x a bs in
      rw (e, insert_by)
        (
          λ m.
              ⊎_elim (λ q. inr (Memᴰ.head q)) (λ t. ⊎_elim inl (λ u. inr (Memᴰ.tail u)) (rest.0 t))
                (Memᴰ.cases_cons m),
          ⊎_elim (λ q. Memᴰ.tail (rest.1 (inl q)))
              (λ m. ⊎_elim Memᴰ.head (λ t. Memᴰ.tail (rest.1 (inr t))) (Memᴰ.cases_cons m)),
        )
]

pub Memᴰ-sort_by :
    {A : Type 0} (key : A → List ℕ) (f : A → Hash256) (x : Hash256) (as' : List A)
    → Memᴰ x (map f (sort_by key as')) ↔ Memᴰ x (map f as')
unfolding sort_by
Memᴰ-sort_by key f x [] = (λ m. m, λ m. m)
Memᴰ-sort_by key f x (a ∷ as') =
    let one = Memᴰ-insert_by key f x a (sort_by key as') in
    let rest = Memᴰ-sort_by key f x as' in
    (
      λ m. ⊎_elim Memᴰ.head (λ t. Memᴰ.tail (rest.0 t)) (one.0 m),
      λ m. ⊎_elim (λ q. one.1 (inl q)) (λ t. one.1 (inr (rest.1 t))) (Memᴰ.cases_cons m),
    )

pub map_id : (hs : List Hash256) → map (λ (h : Hash256). h) hs ≡ hs
map_id [] = refl
map_id (h ∷ hs) = ap (λ xs. h ∷ xs) (map_id hs)
