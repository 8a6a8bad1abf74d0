-- ===== src/Prelude/Consume.antt =====
-- What a reader leaves is the end of what it was given.
use Prim.Native.Nat.{ℕ, zero, suc, ◌-◌}
use mathlib.Core.Path.{◌≡◌, refl, sym, ap, ◌∙◌}
use mathlib.Core.Bool.{Bool, true, false}
use mathlib.Core.List.{List, [], ◌∷◌, ◌++◌, append_assoc}
use native.Mathlib.Omega.{arith}
use xrpl_ledger_archive.Prelude.Lists.{length, take, length-append, take-append, take-append-drop}
use xrpl_ledger_archive.Prelude.Tests.{if◌then◌else◌}
use xrpl_ledger_archive.Prelude.Parser.{
  Result, ok, err, Parser, ◌>>=◌, pure, fail, take_exact, repeat,
}

-- Inversion of a successful step.
pub >>=-eq-ok :
    {E A B : Type 0} (p : Parser E A) (f : A → Parser E B) (s : List ℕ) {b : B} {t : List ℕ}
    → (p >>= f) s ≡ ok (b, t)
    → (a : A) × (s' : List ℕ) × (p s ≡ ok (a, s')) × (f a s' ≡ ok (b, t))
>>=-eq-ok {E} {A} {B} p f s {b} {t} h = go (p s) refl h
  where
    go :
        (r : Result E (A × List ℕ))
        → p s ≡ r
        → let k : Result E (A × List ℕ) → Result E (B × List ℕ) = elim [
          | ok (a, s') ↦ f a s'
          | err e ↦ err e
        ] in
          k r ≡ ok (b, t) → (a : A) × (s' : List ℕ) × (p s ≡ ok (a, s')) × (f a s' ≡ ok (b, t))
    go (ok (a, s')) e h = (a, s', e, h)
    go (err x) e h = cc

pub record TakesFront {E A : Type 0} (p : Parser E A) : Type 0 where
  pub split :
      (s : List ℕ) (a : A) (t : List ℕ) → p s ≡ ok (a, t) → (front : List ℕ) × (s ≡ front ++ t)

module _ {E A : Type 0} where
  pub TakesFront-pure : (a : A) → TakesFront {E = E} (pure a)
  TakesFront-pure a = record { split = λ s b t h. ([], cc h) }

  pub TakesFront-fail : (e : E) → TakesFront {A = A} (fail e)
  TakesFront-fail e = record { split = λ s b t h. cc h }

  pub TakesFront-bind :
      {B : Type 0} (p : Parser E A) (f : A → Parser E B)
      → TakesFront p
      → ((a : A) → TakesFront (f a))
      → TakesFront (p >>= f)
  TakesFront-bind p f hp hf = record {
    split = λ s b t h.
        let (a, s', e, e') = >>=-eq-ok p f s h in
        let (c, q) = hp.split s a s' e in
        let (d, q') = (hf a).split s' b t e' in
        (c ++ d, q ∙ ap (λ xs. c ++ xs) q' ∙ sym (append_assoc c d t));
  }

module _ {E : Type 0} where
  pub TakesFront-take_exact : (e : E) (n : ℕ) → TakesFront (take_exact e n)
  unfolding take_exact
  TakesFront-take_exact e n = record {
    split = λ s a t h. (take n s, ground (arith, take-append-drop n s));
  }

pub TakesFront-repeat :
    {E A : Type 0} (n : ℕ) (p : Parser E A) → TakesFront p → TakesFront (repeat n p)
unfolding repeat
TakesFront-repeat zero p h = TakesFront-pure []
TakesFront-repeat (suc n) p h =
    TakesFront-bind _ _ h
      λ x. TakesFront-bind _ _ (TakesFront-repeat n p h) λ xs. TakesFront-pure (x ∷ xs)

TakesFront-if :
    {E A : Type 0} (b : Bool) {p q : Parser E A}
    → TakesFront p
    → TakesFront q
    → TakesFront (if b then p else q)
TakesFront-if true hp hq = hp
TakesFront-if false hp hq = hq

-- The bytes taken, as the difference of what there was and what is left.
abbrev pub taken : List ℕ → List ℕ → List ℕ
taken s t = take (length s - length t) s

pub taken-append : (s front t : List ℕ) → s ≡ front ++ t → taken s t ≡ front
taken-append s front t e = rw e (rw size (take-append (length front) front t refl))
  where
    size : length (front ++ t) - length t ≡ length front
    size = omega (arith, length-append front t)

-- The same, handed on to the rest of a proof.
pub >>=-then {κ} :
    {E A B : Type 0} {Q : Type κ} (p : Parser E A) (f : A → Parser E B) (s : List ℕ) {b : B}
    {t : List ℕ}
    → (p >>= f) s ≡ ok (b, t)
    → ((a : A) (s' : List ℕ) → p s ≡ ok (a, s') → f a s' ≡ ok (b, t) → Q)
    → Q
>>=-then p f s h k = let (a, s', e, e') = >>=-eq-ok p f s h in k a s' e e'

pub ok_inj :
    {E A : Type 0} {a b : A} {s t : List ℕ}
    → ◌≡◌ {A = Result E (A × List ℕ)} (ok (a, s)) (ok (b, t))
    → (a ≡ b) × (s ≡ t)
ok_inj h = (cc h, cc h)
