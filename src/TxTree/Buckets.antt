-- ===== src/TxTree/Buckets.antt =====
-- The buckets of a level of `build_level`, crates/xrla-common/src/tx_tree.rs: what is put where.
use xrpl_ledger_archive.TxTree.Nibbles.{
  nibbles, take-suc, get_elem?-below, nibble-nibbles, length-nibbles,
}
use xrpl_ledger_archive.Prelude.Maybe.{some-then}
use xrpl_ledger_archive.Prelude.Parser.{◌>>=◌}
use xrpl_ledger_archive.TxTree.{nibble, Item, push_front, fill_buckets}
use xrpl_ledger_archive.Prelude.{
  List, ℕ, ◌∷◌, ◌≡◌, length, ◌<◌, take, All, suc, replicate, some, ◌≢◌, ◌++◌, [], ◌+◌, arith, subst,
  sym, zero, refl, ◌∙◌,
}
use native.Mathlib.Nat.{zero-add}

abbrev pub Sized : Item → Type 0
Sized item = length item.key ≡ 32

-- The key lies below `path`, `d` levels down.
abbrev pub Below : ℕ → List ℕ → Item → Type 0
Below d path item = take d (nibbles item.key) ≡ path

abbrev pub Distinct : List Item → Type 0
Distinct [] = Unit
Distinct (item ∷ items) = All (λ (other : Item). item.key ≢ other.key) items × Distinct items

-- Each bucket holds what lies below its own slot, counted from `s`.
abbrev pub Placed : ℕ → List ℕ → ℕ → List (List Item) → Type 0
Placed d path s [] = Unit
Placed d path s (bucket ∷ buckets) =
    All (Below (suc d) (path ++ (s ∷ []))) bucket × Placed d path (suc s) buckets

module _ (P : Item → Type 0) where
  push_front-All :
      (n : ℕ) (item : Item) (buckets : List (List Item))
      → P item
      → All (All P) buckets
      → All (All P) (push_front n item buckets)
  unfolding push_front
  push_front-All n item [] p h = tt
  push_front-All zero item (bucket ∷ buckets) p h = ((p, h.0), h.1)
  push_front-All (suc n) item (bucket ∷ buckets) p h = (h.0, push_front-All n item buckets p h.1)

  pub fill_buckets-All :
      (items : List Item) (d : ℕ) (buckets : List (List Item))
      → fill_buckets items d ≡ some buckets
      → All P items
      → All (All P) buckets
  unfolding fill_buckets
  fill_buckets-All [] d buckets e h =
      subst (All (All P)) {x = replicate 16 []} {y = buckets} (cc e) _
  fill_buckets-All (item ∷ items) d buckets e h = some-then (nibble item.key d) _ e λ n e1 k1.
      some-then (fill_buckets items d) _ k1 λ rest e2 k2.
        subst (All (All P)) {x = push_front n item rest} {y = buckets} (cc k2)
          (push_front-All n item rest h.0 (fill_buckets-All items d rest e2 h.1))

push_front-Distinct :
    (n : ℕ) (item : Item) (buckets : List (List Item))
    → All (All λ (other : Item). item.key ≢ other.key) buckets
    → All Distinct buckets
    → All Distinct (push_front n item buckets)
unfolding push_front
push_front-Distinct n item [] a h = tt
push_front-Distinct zero item (bucket ∷ buckets) a h = ((a.0, h.0), h.1)
push_front-Distinct (suc n) item (bucket ∷ buckets) a h =
    (h.0, push_front-Distinct n item buckets a.1 h.1)

push_front-Placed :
    (d : ℕ) (path : List ℕ) (s n : ℕ) (item : Item) (buckets : List (List Item))
    → Below (suc d) (path ++ ((s + n) ∷ [])) item
    → Placed d path s buckets
    → Placed d path s (push_front n item buckets)
unfolding push_front
push_front-Placed d path s n item [] p h = tt
push_front-Placed d path s zero item (bucket ∷ buckets) p h =
    ((subst (λ v. Below (suc d) (path ++ (v ∷ [])) item) (omega arith) p, h.0), h.1)
push_front-Placed d path s (suc n) item (bucket ∷ buckets) p h = (
  h.0,
  push_front-Placed d path (suc s) n item buckets
      (subst (λ v. Below (suc d) (path ++ (v ∷ [])) item) (omega arith) p) h.1,
)

pub fill_buckets-Distinct :
    (items : List Item) (d : ℕ) (buckets : List (List Item))
    → fill_buckets items d ≡ some buckets
    → Distinct items
    → All Distinct buckets
unfolding fill_buckets
fill_buckets-Distinct [] d buckets e h =
    subst (All Distinct) {x = replicate 16 []} {y = buckets} (cc e) _
fill_buckets-Distinct (item ∷ items) d buckets e h = some-then (nibble item.key d) _ e λ n e1 k1.
    some-then (fill_buckets items d) _ k1 λ rest e2 k2.
      subst (All Distinct) {x = push_front n item rest} {y = buckets} (cc k2) (
        push_front-Distinct n item rest
          (fill_buckets-All (λ other. item.key ≢ other.key) items d rest e2 h.0)
          (fill_buckets-Distinct items d rest e2 h.1))

Placed-empty : (d : ℕ) (path : List ℕ) (s n : ℕ) → Placed d path s (replicate n [])
Placed-empty d path s zero = tt
Placed-empty d path s (suc n) = (tt, Placed-empty d path (suc s) n)

pub fill_buckets-Placed :
    (items : List Item) (d : ℕ) (path : List ℕ) (buckets : List (List Item))
    → fill_buckets items d ≡ some buckets
    → All (Below d path) items
    → Placed d path 0 buckets
unfolding fill_buckets
fill_buckets-Placed [] d path buckets e h =
    subst (Placed d path 0) {x = replicate 16 []} {y = buckets} (cc e) (Placed-empty d path 0 16)
fill_buckets-Placed (item ∷ items) d path buckets e h = some-then (nibble item.key d) _ e λ n e1 k1.
    some-then (fill_buckets items d) _ k1 λ rest e2 k2.
      subst (Placed d path 0) {x = push_front n item rest} {y = buckets} (cc k2) (
        push_front-Placed d path 0 n item rest
          (take-suc (nibbles item.key) d (sym (nibble-nibbles item.key d) ∙ e1)
            ∙ rw (h.0, zero-add))
          (fill_buckets-Placed items d path rest e2 h.1))

-- Above level 64 every key has a nibble.
pub fill_buckets-some :
    (items : List Item) (d : ℕ)
    → d < 64
    → All Sized items
    → (buckets : List (List Item)) × (fill_buckets items d ≡ some buckets)
unfolding fill_buckets
fill_buckets-some [] d h k = (replicate 16 [], refl)
fill_buckets-some (item ∷ items) d h k =
    let (n, e) =
      get_elem?-below (nibbles item.key) d (omega (arith, length-nibbles item.key, k.0)) in
    let (buckets, e') = fill_buckets-some items d h k.1 in
    (push_front n item buckets, rw (nibble-nibbles item.key d, e, e', ◌>>=◌))
