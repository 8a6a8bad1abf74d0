-- ===== src/Meta/Digits.antt =====
-- The change of base of crates/xrla-common/src/meta_decode.rs: what number a list of digits stands
-- for, and that it stands for it alone.
use xrpl_ledger_archive.Meta.Address.{push_digits, mul_add}
use xrpl_ledger_archive.Prelude.{
  zero, suc, [], ◌∷◌, ◌++◌, inl, inr, ℕ, List, ◌<◌, ◌+◌, All, ◌*◌, ◌≤◌, Bool-cases, ◌≡◌, arith,
  ◌==◌, ◌%◌, ◌∙◌, ◌/◌, sym, ap, refl,
}
use mathlib.Core.List.{reverse, foldl, foldl-append, reverse-cons}
use native.Mathlib.Nat.{
  mul-pos, add-mul-mod_self_left, add-mul-div_left, div-eq_of_lt, mod-eq_of_lt, div-add-mod, mod-lt,
  div-lt_self,
}

-- The number of digits with the least one first.
abbrev pub value : ℕ → List ℕ → ℕ
value base [] = 0
value base (d ∷ ds) = d + base * value base ds

-- No suffix is zero: there is no zero at the end.
abbrev pub IsNormal : ℕ → List ℕ → Type 0
IsNormal base [] = Unit
IsNormal base (d ∷ ds) = (0 < value base (d ∷ ds)) × IsNormal base ds

abbrev pub AreDigits : ℕ → List ℕ → Type 0
AreDigits base = All (λ d. d < base)

module _ (base : ℕ) (h : 1 < base) where
  value-push_digits : (n carry : ℕ) → carry ≤ n → value base (push_digits n base carry) ≡ carry
  unfolding push_digits
  value-push_digits zero carry k = omega arith
  value-push_digits (suc n) carry k = elim (Bool-cases (carry == 0)) [
    | inl zeros ↦ rw zeros (ground arith)
    | inr more ↦
        let less : carry / base < carry = div-lt_self (ground arith) h in
        let rest = value-push_digits n (carry / base) (omega arith) in
        rw (more, rest) (omega (arith, div-add-mod carry base))
  ]

  push_digits-AreDigits : (n carry : ℕ) → AreDigits base (push_digits n base carry)
  unfolding push_digits
  push_digits-AreDigits zero carry = tt
  push_digits-AreDigits (suc n) carry = elim (Bool-cases (carry == 0)) [
    | inl zeros ↦ rw zeros tt
    | inr more ↦ rw more (mod-lt carry (omega arith), push_digits-AreDigits n (carry / base))
  ]

  push_digits-IsNormal : (n carry : ℕ) → carry ≤ n → IsNormal base (push_digits n base carry)
  unfolding push_digits
  push_digits-IsNormal zero carry k = tt
  push_digits-IsNormal (suc n) carry k = elim (Bool-cases (carry == 0)) [
    | inl zeros ↦ rw zeros tt
    | inr more ↦
        let less : carry / base < carry = div-lt_self (ground arith) h in
        let rest = value-push_digits n (carry / base) (omega arith) in
        rw more (
          rw rest (rw (positive carry) (ground arith)),
          push_digits-IsNormal n (carry / base) (omega arith),
        )
  ]
    where
      positive : (carry : ℕ) → carry % base + base * (carry / base) ≡ carry
      positive carry = omega (arith, div-add-mod carry base)

  module _ (mult : ℕ) where
    pub value-mul_add :
        (ds : List ℕ) (carry : ℕ)
        → value base (mul_add mult base ds carry) ≡ value base ds * mult + carry
    unfolding mul_add
    value-mul_add [] carry = value-push_digits carry carry (omega arith) ∙ omega arith
    value-mul_add (d ∷ ds) carry =
        let v : ℕ = d * mult + carry in
        let rest = value-mul_add ds (v / base) in rw rest (grind (arith, div-add-mod v base))

    pub mul_add-AreDigits : (ds : List ℕ) (carry : ℕ) → AreDigits base (mul_add mult base ds carry)
    unfolding mul_add
    mul_add-AreDigits [] carry = push_digits-AreDigits carry carry
    mul_add-AreDigits (d ∷ ds) carry =
        (mod-lt _ (omega arith), mul_add-AreDigits ds ((d * mult + carry) / base))

    pub mul_add-IsNormal :
        0 < mult
        → (ds : List ℕ) (carry : ℕ) → IsNormal base ds
        → IsNormal base (mul_add mult base ds carry)
    unfolding mul_add
    mul_add-IsNormal m [] carry k = push_digits-IsNormal carry carry (omega arith)
    mul_add-IsNormal m (d ∷ ds) carry k = (
      (let whole = value-mul_add (d ∷ ds) carry in let product = mul-pos k.0 m in omega arith),
      mul_add-IsNormal m ds ((d * mult + carry) / base) k.1,
    )

  -- A number has one list of digits with no zero at the end.
  pub value_inj :
      (xs ys : List ℕ)
      → AreDigits base xs
      → AreDigits base ys
      → IsNormal base xs
      → IsNormal base ys
      → value base xs ≡ value base ys
      → xs ≡ ys
  value_inj [] [] hx hy nx ny e = refl
  value_inj [] (y ∷ ys) hx hy nx ny e = absurd (omega arith)
  value_inj (x ∷ xs) [] hx hy nx ny e = absurd (omega arith)
  value_inj (x ∷ xs) (y ∷ ys) hx hy nx ny e =
      let heads : x ≡ y =
        sym (last_digit x (value base xs) hx.0)
        ∙ ap (λ n. n % base) e
        ∙ last_digit y (value base ys) hy.0 in
      let tails : value base xs ≡ value base ys =
        sym (other_digits x (value base xs) hx.0)
        ∙ ap (λ n. n / base) e
        ∙ other_digits y (value base ys) hy.0 in
      cc (heads, value_inj xs ys hx.1 hy.1 nx.1 ny.1 tails)
    where
      last_digit : (x v : ℕ) → x < base → (x + base * v) % base ≡ x
      last_digit x v k = add-mul-mod_self_left x base v ∙ mod-eq_of_lt k

      other_digits : (x v : ℕ) → x < base → (x + base * v) / base ≡ v
      other_digits x v k =
          add-mul-div_left x v (omega arith) ∙ ap (λ n. n + v) (div-eq_of_lt k) ∙ omega arith

-- Horner's scheme over the digits from the greatest one.
abbrev pub horner : ℕ → ℕ → ℕ → ℕ
horner base acc d = acc * base + d

pub horner-reverse : (base : ℕ) (ds : List ℕ) → foldl (horner base) 0 (reverse ds) ≡ value base ds
horner-reverse base [] = refl
horner-reverse base (d ∷ ds) =
    rw (reverse-cons d ds, foldl-append)
      (ap (λ n. n * base + d) (horner-reverse base ds) ∙ grind arith)

module _ (mult base : ℕ) (h : 1 < base) where
  -- The conversion computes the same number in the other base.
  pub value-foldl :
      (vs ds : List ℕ) (acc : ℕ)
      → value base ds ≡ acc
      → value base (foldl (mul_add mult base) ds vs) ≡ foldl (horner mult) acc vs
  value-foldl [] ds acc e = e
  value-foldl (v ∷ vs) ds acc e =
      value-foldl vs (mul_add mult base ds v) (acc * mult + v)
        (value-mul_add base h mult ds v ∙ ap (λ n. n * mult + v) e)

  pub foldl-AreDigits :
      (vs ds : List ℕ) → AreDigits base ds → AreDigits base (foldl (mul_add mult base) ds vs)
  foldl-AreDigits [] ds k = k
  foldl-AreDigits (v ∷ vs) ds k =
      foldl-AreDigits vs (mul_add mult base ds v) (mul_add-AreDigits base h mult ds v)

  pub foldl-IsNormal :
      0 < mult
      → (vs ds : List ℕ) → IsNormal base ds
      → IsNormal base (foldl (mul_add mult base) ds vs)
  foldl-IsNormal m [] ds k = k
  foldl-IsNormal m (v ∷ vs) ds k =
      foldl-IsNormal m vs (mul_add mult base ds v) (mul_add-IsNormal base h mult m ds v k)

-- All but the least digit has no zero at the end.
abbrev pub TailIsNormal : ℕ → List ℕ → Type 0
TailIsNormal base [] = Unit
TailIsNormal base (d ∷ ds) = IsNormal base ds

pub foldl-TailIsNormal :
    (mult base : ℕ)
    → 1 < base
    → 0 < mult
    → (vs : List ℕ) (d : ℕ) (ds : List ℕ) → IsNormal base ds
    → TailIsNormal base (foldl (mul_add mult base) (d ∷ ds) vs)
unfolding mul_add
foldl-TailIsNormal mult base h m [] d ds k = k
foldl-TailIsNormal mult base h m (v ∷ vs) d ds k =
    foldl-TailIsNormal mult base h m vs ((d * mult + v) % base)
      (mul_add mult base ds ((d * mult + v) / base))
      (mul_add-IsNormal base h mult m ds ((d * mult + v) / base) k)

pub IsNormal-of_tail :
    (base : ℕ) (ds : List ℕ) → TailIsNormal base ds → 0 < value base ds → IsNormal base ds
IsNormal-of_tail base [] t p = tt
IsNormal-of_tail base (d ∷ ds) t p = (p, t)

-- Digits from the greatest one, with the greatest one positive.
pub IsNormal-snoc :
    (base : ℕ)
    → 0 < base
    → (xs : List ℕ) (t : ℕ) → 0 < t
    → (0 < value base (xs ++ t ∷ [])) × IsNormal base (xs ++ t ∷ [])
IsNormal-snoc base b [] t p = let q : 0 < t + base * 0 = omega arith in (q, (q, tt))
IsNormal-snoc base b (x ∷ xs) t p =
    let rest = IsNormal-snoc base b xs t p in
    let product = mul-pos b rest.0 in
    let q : 0 < x + base * value base (xs ++ t ∷ []) = omega arith in (q, (q, rest.1))

-- The greatest digit, which comes first in the reversed list.
pub reverse-IsNormal :
    (base : ℕ) (d : ℕ) (ds : List ℕ)
    → IsNormal base (d ∷ ds)
    → (t : ℕ) × (rest : List ℕ) × (reverse (d ∷ ds) ≡ t ∷ rest) × (0 < t)
reverse-IsNormal base d [] k = (d, [], refl, omega (arith, k.0))
reverse-IsNormal base d (e ∷ es) k =
    let (t, rest, q, p) = reverse-IsNormal base e es k.1 in
    (t, rest ++ d ∷ [], reverse-cons d (e ∷ es) ∙ ap (λ xs. xs ++ d ∷ []) q, p)
