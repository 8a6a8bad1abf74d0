-- ===== src/Prelude/Fallible.antt =====
-- Chains of fallible steps that read no stream: `?` on a `Result`.
use mathlib.Core.Path.{◌≡◌, refl}
use mathlib.Core.Logic.{◌⊎◌, inl, inr}
use xrpl_ledger_archive.Prelude.Parser.{Result, ok, err}

infixl 5 ◌>>=◌
abbrev pub ◌>>=◌ : {E A B : Type 0} → Result E A → (A → Result E B) → Result E B
ok a >>= f = f a
err e >>= f = err e

-- Inversion of a step, handed on to the rest of a proof.
pub ok-then {κ} :
    {E A B : Type 0} {Q : Type κ} (r : Result E A) (f : A → Result E B) {b : B}
    → (r >>= f) ≡ ok b
    → ((a : A) → r ≡ ok a → f a ≡ ok b → Q)
    → Q
ok-then (ok a) f h k = k a refl h
ok-then (err e) f h k = cc h

pub Result-cases :
    {E A : Type 0} (r : Result E A) → ((a : A) × (r ≡ ok a)) ⊎ ((e : E) × (r ≡ err e))
Result-cases (ok a) = inl (a, refl)
Result-cases (err e) = inr (e, refl)

-- A step that succeeds goes on with its value.
pub >>=-ok :
    {E A B : Type 0} {r : Result E A} (f : A → Result E B) {a : A} {s : Result E B}
    → r ≡ ok a
    → f a ≡ s
    → (r >>= f) ≡ s
>>=-ok f e q = rw e q
