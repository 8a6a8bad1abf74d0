-- ===== src/Prelude/Maybe.antt =====
-- Chains of `Option`, Rust's `?` on an option.
use mathlib.Core.Path.{◌≡◌, refl}
use mathlib.Core.Option.{Option, none, some}

infixl 5 ◌>>=◌
abbrev pub ◌>>=◌ : {A B : Type 0} → Option A → (A → Option B) → Option B
none >>= f = none
some a >>= f = f a

-- Inversion of a chain, handed on to the rest of a proof.
pub some-then {κ} :
    {A B : Type 0} {Q : Type κ} (o : Option A) (f : A → Option B) {b : B}
    → (o >>= f) ≡ some b
    → ((a : A) → o ≡ some a → f a ≡ some b → Q)
    → Q
some-then none f h k = cc h
some-then (some a) f h k = k a refl h
