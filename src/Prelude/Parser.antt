-- ===== src/Prelude/Parser.antt =====
-- Fallible results, and readers that consume a byte stream from the front: Rust's `Result` with
-- `?`, and `impl Read` as the bytes that are still to be read.
use Prim.Native.Nat.{ℕ, zero, suc}
use mathlib.Core.Path.{◌≡◌, refl, ◌∙◌}
use mathlib.Core.List.{List, [], ◌∷◌, ◌++◌, append_assoc}
use native.Mathlib.Omega.{arith}
use xrpl_ledger_archive.Prelude.Lists.{length, take, drop, length-append, take-append, drop-append}
use xrpl_ledger_archive.Prelude.Tests.{ltb, le→ltb, if◌then◌else◌}

pub data Result {ℓ κ} (E : Type ℓ) (A : Type κ) : Type (ℓ ⊔ κ) where
  ok : A → Result E A
  err : E → Result E A

abbrev pub Parser : Type 0 → Type 0 → Type 0
Parser E A = List ℕ → Result E (A × List ℕ)

infixl 5 ◌>>=◌ ◌>>◌
abbrev pub ◌>>=◌ : {E A B : Type 0} → Parser E A → (A → Parser E B) → Parser E B
◌>>=◌ m f s = elim (m s) [ ok (a, s') ↦ f a s' | err e ↦ err e ]

abbrev pub ◌>>◌ : {E A B : Type 0} → Parser E A → Parser E B → Parser E B
m >> k = m >>= λ _. k

abbrev pub pure : {E A : Type 0} → A → Parser E A
pure a s = ok (a, s)

abbrev pub fail : {E A : Type 0} → E → Parser E A
fail e s = err e

-- `read_exact` of `n` bytes, which fails with `e` if fewer are left.
unfoldable pub take_exact : {E : Type 0} → E → ℕ → Parser E (List ℕ)
take_exact e n s = if ltb (length s) n then err e else ok (take n s, drop n s)

-- `for _ in 0..n { out.push(p()?) }`
unfoldable pub repeat : {E A : Type 0} → ℕ → Parser E A → Parser E (List A)
repeat zero p = pure []
repeat (suc n) p = do x ← p; xs ← repeat n p; pure (x ∷ xs)

-- `p` reads exactly `bs` from the front of any stream, and returns `a`.
pub record Reads {E A : Type 0} (p : Parser E A) (bs : List ℕ) (a : A) : Type 0 where
  pub run : (rest : List ℕ) → p (bs ++ rest) ≡ ok (a, rest)

pub bind-run :
    {E A B : Type 0} (p : Parser E A) (f : A → Parser E B) (s : List ℕ) {a : A} {s' : List ℕ}
    → p s ≡ ok (a, s')
    → (p >>= f) s ≡ f a s'
bind-run p f s e = rw (e, ◌>>=◌)

pub bind-run_err :
    {E A B : Type 0} (p : Parser E A) (f : A → Parser E B) (s : List ℕ) {e : E}
    → p s ≡ err e
    → (p >>= f) s ≡ err e
bind-run_err p f s e = rw (e, ◌>>=◌)

pub Reads-pure : {E A : Type 0} (a : A) → Reads {E = E} (pure a) [] a
Reads-pure a = record { run = λ rest. refl }

module _ {E A B : Type 0} {p : Parser E A} where
  pub Reads-bind :
      (f : A → Parser E B) {xs ys : List ℕ} {a : A} {b : B}
      → Reads p xs a
      → Reads (f a) ys b
      → Reads (p >>= f) (xs ++ ys) b
  Reads-bind f {xs} {ys} h k = record {
    run = λ rest.
        rw (append_assoc xs ys rest) (bind-run p f (xs ++ (ys ++ rest)) (h.run (ys ++ rest)))
        ∙ k.run rest;
  }

  -- A last step that reads nothing.
  pub Reads-last :
      (f : A → Parser E B) {xs : List ℕ} {a : A} (b : B)
      → Reads p xs a
      → Reads (f a) [] b
      → Reads (p >>= f) xs b
  Reads-last f {xs} b h k = record {
    run = λ rest. bind-run p f (xs ++ rest) (h.run rest) ∙ k.run rest;
  }

  pub Reads-step :
      (f : A → Parser E B) {xs : List ℕ} {a : A}
      → Reads p xs a
      → (rest : List ℕ) → (p >>= f) (xs ++ rest) ≡ f a rest
  Reads-step f {xs} h rest = bind-run p f (xs ++ rest) (h.run rest)

  -- The last step of a `do` block, `pure (f a)`, reads nothing.
  pub Reads-map :
      (f : A → B) {xs : List ℕ} {a : A} → Reads p xs a → Reads (p >>= λ x. pure (f x)) xs (f a)
  Reads-map f {xs} h = record {
    run = λ rest. bind-run p (λ x. pure (f x)) (xs ++ rest) (h.run rest);
  }

module _ {E : Type 0} where
  pub Reads-take_exact :
      (e : E) (n : ℕ) (xs : List ℕ) → length xs ≡ n → Reads (take_exact e n) xs xs
  unfolding take_exact
  Reads-take_exact e n xs h = record {
    run = λ rest. rw (
      le→ltb (length (xs ++ rest)) n (omega (arith, length-append xs rest)),
      take-append n xs rest h,
      drop-append n xs rest h,
    );
  }

-- What a loop of `write(x)` over a list emits.
unfoldable pub write_all : {A : Type 0} → (A → List ℕ) → List A → List ℕ
write_all write [] = []
write_all write (x ∷ xs) = write x ++ write_all write xs

module _ {E A : Type 0} (p : Parser E A) (write : A → List ℕ) (norm : A → A) where
  -- A loop of `p` reads back what a loop of `write` emitted.
  pub Reads-repeat :
      (P : A → Type 0)
      → ((x : A) → P x → Reads p (write x) (norm x))
      → (xs : List A) → xrpl_ledger_archive.Prelude.Lists.All P xs
      → Reads (repeat (length xs) p) (write_all write xs) (mathlib.Core.List.map norm xs)
  unfolding repeat write_all
  Reads-repeat P each [] h = record { run = λ rest. refl }
  Reads-repeat P each (x ∷ xs) h =
      Reads-bind _ (each x h.0) (Reads-map _ (Reads-repeat P each xs h.1))
