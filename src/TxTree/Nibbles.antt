-- ===== src/TxTree/Nibbles.antt =====
-- The nibbles of a key, which `nibble` reads one at a time.
use xrpl_ledger_archive.TxTree.{nibble}
use xrpl_ledger_archive.Prelude.{
  List, ℕ, length, ◌∷◌, ◌≡◌, ◌<◌, get_elem?, ◌/◌, ◌*◌, some, suc, [], ◌%◌, arith, take, ◌++◌, refl,
  zero, ap,
}
use xrpl_ledger_archive.Node.{Hash256}

-- All nibbles of a key, from the first level down.
abbrev pub nibbles : Hash256 → List ℕ
nibbles [] = []
nibbles (b ∷ bs) = b / 16 ∷ b % 16 ∷ nibbles bs

pub nibbles_inj : (xs ys : List ℕ) → nibbles xs ≡ nibbles ys → xs ≡ ys
nibbles_inj [] [] e = refl
nibbles_inj [] (y ∷ ys) e = cc e
nibbles_inj (x ∷ xs) [] e = cc e
nibbles_inj (x ∷ xs) (y ∷ ys) e =
    let high : x / 16 ≡ y / 16 = cc e in
    let low : x % 16 ≡ y % 16 = cc e in
    let same : x ≡ y = omega arith in
    let rest : nibbles xs ≡ nibbles ys = cc e in cc (same, nibbles_inj xs ys rest)

pub length-nibbles : (key : Hash256) → length (nibbles key) ≡ 2 * length key
length-nibbles [] = refl
length-nibbles (b ∷ bs) = omega (arith, length-nibbles bs)

pub nibble-nibbles : (key : Hash256) (d : ℕ) → nibble key d ≡ get_elem? (nibbles key) d
unfolding nibble
nibble-nibbles [] d = refl
nibble-nibbles (b ∷ bs) zero = refl
nibble-nibbles (b ∷ bs) (suc zero) = refl
nibble-nibbles (b ∷ bs) (suc (suc d)) =
    let half : suc (suc d) / 2 ≡ suc (d / 2) = omega arith in
    let parity : suc (suc d) % 2 ≡ d % 2 = omega arith in
    rw (nibble, half, parity) (nibble-nibbles bs d)

pub get_elem?-below :
    {A : Type 0} (xs : List A) (d : ℕ) → d < length xs → (x : A) × (get_elem? xs d ≡ some x)
get_elem?-below [] d h = absurd (omega arith)
get_elem?-below (x ∷ xs) zero h = (x, refl)
get_elem?-below (x ∷ xs) (suc d) h = get_elem?-below xs d (omega arith)

pub take-suc :
    {A : Type 0} (xs : List A) (d : ℕ) {x : A}
    → get_elem? xs d ≡ some x
    → take (suc d) xs ≡ take d xs ++ (x ∷ [])
take-suc [] d e = cc e
take-suc (x ∷ xs) zero e = cc e
take-suc (x ∷ xs) (suc d) e = ap (λ ys. x ∷ ys) (take-suc xs d e)
