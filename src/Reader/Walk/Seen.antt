-- ===== src/Reader/Walk/Seen.antt =====
-- Lists of hashes, which the walks of crates/xrla-nudb/src/reader.rs keep for what they have seen.
use xrpl_ledger_archive.Reader.Walk.{contains}
use xrpl_ledger_archive.Prelude.{
  List, [], ◌∷◌, ◌++◌, true, false, inl, inr, map, sym, ◌↔◌, ◌≡◌, Bool-cases, list_eq, ◌⊎◌,
  list_eq→eq, subst, list_eq_refl, refl,
}
use xrpl_ledger_archive.Node.{Hash256, ShaMapNode}
use mathlib.Core.Logic.{⊎_elim}
use mathlib.Core.List.{Memᴰ, map-append}
use mathlib.Core.List.Memᴰ

abbrev pub hashes : List ShaMapNode → List Hash256
hashes nodes = map (λ (node : ShaMapNode). node.hash) nodes

-- No hash stands twice.
abbrev pub NoRepeat : List Hash256 → Type 0
NoRepeat [] = Unit
NoRepeat (x ∷ xs) = (Memᴰ x xs → ⊥) × NoRepeat xs

pub contains→mem : (h : Hash256) (xs : List Hash256) → contains h xs ≡ true → Memᴰ h xs
unfolding contains
contains→mem h [] e = cc e
contains→mem h (x ∷ xs) e = elim (Bool-cases (list_eq h x)) [
  | inl same ↦ Memᴰ.head (list_eq→eq h x same)
  | inr other ↦ Memᴰ.tail (contains→mem h xs (rw other at e))
]

pub mem→contains : (h : Hash256) (xs : List Hash256) → Memᴰ h xs → contains h xs ≡ true
unfolding contains
mem→contains h [] m = absurd (Memᴰ.not-nil m)
mem→contains h (x ∷ xs) m = elim (Memᴰ.cases_cons m) [
  | inl same ↦
      let e : list_eq h x ≡ true = subst (λ y. list_eq h y ≡ true) same (list_eq_refl h) in
      rw e refl
  | inr t ↦ elim (Bool-cases (list_eq h x)) [
    | inl e ↦ rw e refl
    | inr e ↦ rw e (mem→contains h xs t)
  ]
]

pub contains-false : (h : Hash256) (xs : List Hash256) → contains h xs ≡ false → Memᴰ h xs → ⊥
contains-false h xs e m = let e' = mem→contains h xs m in cc

pub NoRepeat-snoc :
    (h : Hash256) (xs : List Hash256) → (Memᴰ h xs → ⊥) → NoRepeat xs → NoRepeat (xs ++ h ∷ [])
NoRepeat-snoc h [] n k = (λ m. Memᴰ.not-nil m, tt)
NoRepeat-snoc h (x ∷ xs) n k = (
  λ m.
      ⊎_elim k.0 (λ last. n (Memᴰ.head (sym (Memᴰ.eq_of_singleton last)))) (Memᴰ.append_cases xs m),
  NoRepeat-snoc h xs (λ m. n (Memᴰ.tail m)) k.1,
)

pub Memᴰ-snoc : (x h : Hash256) (xs : List Hash256) → Memᴰ x (xs ++ h ∷ []) ↔ (Memᴰ x xs ⊎ (x ≡ h))
Memᴰ-snoc x h xs = (
  λ m. ⊎_elim inl (λ last. inr (Memᴰ.eq_of_singleton last)) (Memᴰ.append_cases xs m),
  ⊎_elim (Memᴰ.append_left _) (λ e. Memᴰ.append_right xs (Memᴰ.head e)),
)

pub Memᴰ-hashes :
    (x : Hash256) (result : List ShaMapNode) (node : ShaMapNode)
    → Memᴰ x (hashes (result ++ node ∷ [])) ↔ (Memᴰ x (hashes result) ⊎ (x ≡ node.hash))
Memᴰ-hashes x result node =
    rw (map-append (λ (n : ShaMapNode). n.hash) result (node ∷ []))
      (Memᴰ-snoc x node.hash (hashes result))

pub Memᴰ-insert :
    (x c : Hash256) (xs ys : List Hash256) → Memᴰ x (xs ++ c ∷ ys) ↔ ((x ≡ c) ⊎ Memᴰ x (xs ++ ys))
Memᴰ-insert x c xs ys = (
  λ m.
      ⊎_elim (λ a. inr (Memᴰ.append_left ys a))
        (λ b. ⊎_elim inl (λ t. inr (Memᴰ.append_right xs t)) (Memᴰ.cases_cons b))
        (Memᴰ.append_cases xs m),
  ⊎_elim (λ e. Memᴰ.append_right xs (Memᴰ.head e))
      (λ m.
        ⊎_elim (Memᴰ.append_left (c ∷ ys)) (λ b. Memᴰ.append_right xs (Memᴰ.tail b))
          (Memᴰ.append_cases xs m)),
)

pub NoRepeat-insert :
    (c : Hash256) (xs ys : List Hash256)
    → (Memᴰ c (xs ++ ys) → ⊥)
    → NoRepeat (xs ++ ys)
    → NoRepeat (xs ++ c ∷ ys)
NoRepeat-insert c [] ys n k = (n, k)
NoRepeat-insert c (x ∷ xs) ys n k = (
  λ m. ⊎_elim (λ e. n (Memᴰ.head (sym e))) k.0 ((Memᴰ-insert x c xs ys).0 m),
  NoRepeat-insert c xs ys (λ m. n (Memᴰ.tail m)) k.1,
)

pub NoRepeat-front : (xs ys : List Hash256) → NoRepeat (xs ++ ys) → NoRepeat xs
NoRepeat-front [] ys k = tt
NoRepeat-front (x ∷ xs) ys k = (λ m. k.0 (Memᴰ.append_left ys m), NoRepeat-front xs ys k.1)
