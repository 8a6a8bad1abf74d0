-- ===== src/Meta/Settles.antt =====
-- Readers of crates/xrla-common/src/meta_decode.rs that end on every input of fewer than `n` bytes:
-- they do not run out of fuel, leave no more than they were given, and return what `Q` says.
use xrpl_ledger_archive.Prelude.Consume.{>>=-then}
use xrpl_ledger_archive.Prelude.Parser.{
  Parser, ◌>>=◌, pure, take_exact, err, fail, ok, Result, bind-run, bind-run_err,
}
use xrpl_ledger_archive.Meta.{MetaError, out_of_fuel, byte, peek, take_bytes}
use xrpl_ledger_archive.Prelude.{
  [], ◌∷◌, true, false, ℕ, List, suc, ◌≢◌, Bool, arith, length, ◌≡◌, if◌then◌else◌, ◌<◌, subst,
  length-drop, ◌≤◌, length-take, sym, ◌∙◌, ap, refl,
}

pub record Settles {A : Type 0} (n : ℕ) (Q : A → Type 0) (p : Parser MetaError A) : Type 0 where
  pub ends : (s : List ℕ) → length s < n → p s ≢ err out_of_fuel
  pub shrinks :
      (s : List ℕ) (a : A) (t : List ℕ) → length s < n → p s ≡ ok (a, t) → length t ≤ length s
  pub post : (s : List ℕ) (a : A) (t : List ℕ) → length s < n → p s ≡ ok (a, t) → Q a

-- A reader that takes at least one byte.
pub record Advances {A : Type 0} (Q : A → Type 0) (p : Parser MetaError A) : Type 0 where
  pub ends : (s : List ℕ) → p s ≢ err out_of_fuel
  pub shrinks : (s : List ℕ) (a : A) (t : List ℕ) → p s ≡ ok (a, t) → length t < length s
  pub post : (s : List ℕ) (a : A) (t : List ℕ) → p s ≡ ok (a, t) → Q a

module _ {A B : Type 0} where
  bind-ends :
      (p : Parser MetaError A) (f : A → Parser MetaError B) (s : List ℕ)
      → p s ≢ err out_of_fuel
      → ((a : A) (t : List ℕ) → p s ≡ ok (a, t) → f a t ≢ err out_of_fuel)
      → (p >>= f) s ≢ err out_of_fuel
  bind-ends p f s h k = go (p s) refl
    where
      go : (r : Result MetaError (A × List ℕ)) → p s ≡ r → (p >>= f) s ≢ err out_of_fuel
      go (ok (a, t)) e = λ q. k a t e (sym (bind-run p f s e) ∙ q)
      go (err x) e = λ q.
          let same : x ≡ out_of_fuel = cc (bind-run_err p f s e, q) in h (e ∙ ap (λ y. err y) same)

  pub Settles-bind :
      {n : ℕ} (Q : A → Type 0) {R : B → Type 0} (p : Parser MetaError A)
      (f : A → Parser MetaError B)
      → Settles n Q p
      → ((a : A) → Q a → Settles n R (f a))
      → Settles n R (p >>= f)
  Settles-bind Q p f h k = record {
    ends = λ s l.
        bind-ends p f s (h.ends s l)
          λ a t e. let less = h.shrinks s a t l e in (k a (h.post s a t l e)).ends t (omega arith);
    shrinks = λ s b u l e. >>=-then p f s e λ a t e' e''.
        let less = h.shrinks s a t l e' in
        let less' = (k a (h.post s a t l e')).shrinks t b u (omega arith) e'' in omega arith;
    post = λ s b u l e. >>=-then p f s e λ a t e' e''.
        let less = h.shrinks s a t l e' in (k a (h.post s a t l e')).post t b u (omega arith) e'';
  }

  -- After a byte is taken, one round of fuel less is enough.
  pub Settles-after :
      {n : ℕ} (Q : A → Type 0) {R : B → Type 0} (p : Parser MetaError A)
      (f : A → Parser MetaError B)
      → Advances Q p
      → ((a : A) → Q a → Settles n R (f a))
      → Settles (suc n) R (p >>= f)
  Settles-after Q p f h k = record {
    ends = λ s l.
        bind-ends p f s (h.ends s)
          λ a t e. let less = h.shrinks s a t e in (k a (h.post s a t e)).ends t (omega arith);
    shrinks = λ s b u l e. >>=-then p f s e λ a t e' e''.
        let less = h.shrinks s a t e' in
        let less' = (k a (h.post s a t e')).shrinks t b u (omega arith) e'' in omega arith;
    post = λ s b u l e. >>=-then p f s e λ a t e' e''.
        let less = h.shrinks s a t e' in (k a (h.post s a t e')).post t b u (omega arith) e'';
  }

module _ {A : Type 0} {Q : A → Type 0} where
  pub Settles-pure : {n : ℕ} (a : A) → Q a → Settles n Q (pure a)
  Settles-pure a q = record {
    ends = λ s l e. cc;
    shrinks = λ s b t l e. let same : s ≡ t = cc in rw same (omega arith);
    post = λ s b t l e. let same : a ≡ b = cc in subst Q same q;
  }

  pub Settles-fail : {n : ℕ} (e : MetaError) → e ≢ out_of_fuel → Settles n Q (fail e)
  Settles-fail e h = record {
    ends = λ s l q. h (cc q);
    shrinks = λ s b t l q. cc;
    post = λ s b t l q. cc;
  }

  pub Settles-if :
      {n : ℕ} (b : Bool) {p q : Parser MetaError A}
      → Settles n Q p
      → Settles n Q q
      → Settles n Q (if b then p else q)
  Settles-if true h k = h
  Settles-if false h k = k

  pub Settles-Advances : {n : ℕ} (p : Parser MetaError A) → Advances Q p → Settles n Q p
  Settles-Advances p h = record {
    ends = λ s l. h.ends s;
    shrinks = λ s a t l e. let less = h.shrinks s a t e in omega arith;
    post = λ s a t l e. h.post s a t e;
  }

  -- A loop whose fuel is the number of bytes.
  pub Settles-by_length :
      {n : ℕ} (p : ℕ → Parser MetaError A)
      → ((m : ℕ) → Settles m Q (p m))
      → Settles n Q (λ s. p (suc (length s)) s)
  Settles-by_length p h = record {
    ends = λ s l. (h (suc (length s))).ends s (omega arith);
    shrinks = λ s a t l e. (h (suc (length s))).shrinks s a t (omega arith) e;
    post = λ s a t l e. (h (suc (length s))).post s a t (omega arith) e;
  }

abbrev pub Any {ℓ} : {A : Type ℓ} → A → Type 0
Any a = Unit

pub Advances-byte : Advances Any byte
unfolding byte
Advances-byte = record { ends = e; shrinks = l; post = λ s a t h. tt }
  where
    e : (s : List ℕ) → byte s ≢ err out_of_fuel
    e [] h = cc
    e (b ∷ s) h = cc

    l : (s : List ℕ) (a : ℕ) (t : List ℕ) → byte s ≡ ok (a, t) → length t < length s
    l [] a t h = cc
    l (b ∷ s) a t h = let same : s ≡ t = cc in rw same (omega arith)

pub Settles-peek : {n : ℕ} → Settles n Any peek
unfolding peek
Settles-peek = record { ends = e; shrinks = l; post = λ s a t k h. tt }
  where
    e : {n : ℕ} (s : List ℕ) → length s < n → peek s ≢ err out_of_fuel
    e [] k h = cc
    e (b ∷ s) k h = cc

    l :
        {n : ℕ} (s : List ℕ) (a : ℕ) (t : List ℕ)
        → length s < n
        → peek s ≡ ok (a, t)
        → length t ≤ length s
    l [] a t k h = cc
    l (b ∷ s) a t k h = let same : b ∷ s ≡ t = cc in rw (← same) (omega arith)

pub Settles-take_bytes : {n : ℕ} (k : ℕ) → Settles n (λ bs. length bs ≡ k) (take_bytes k)
unfolding take_bytes take_exact
Settles-take_bytes k = record {
  ends = λ s l h. ground arith;
  shrinks = λ s a t l h. ground (arith, length-drop k s);
  post = λ s a t l h. ground (arith, length-take k s);
}

-- There is no input of fewer than no bytes.
pub Settles-nothing : {A : Type 0} {Q : A → Type 0} (p : Parser MetaError A) → Settles 0 Q p
Settles-nothing p = record {
  ends = λ s l. absurd (omega arith);
  shrinks = λ s a t l. absurd (omega arith);
  post = λ s a t l. absurd (omega arith);
}

-- A reader that is `q` but at the end of the buffer.
pub Settles-cons :
    {A : Type 0} {Q : A → Type 0} {n : ℕ} (p q : Parser MetaError A)
    → ((b : ℕ) (s : List ℕ) → p (b ∷ s) ≡ q (b ∷ s))
    → p [] ≢ err out_of_fuel
    → ((a : A) (t : List ℕ) → p [] ≡ ok (a, t) → Q a × (t ≡ []))
    → Settles n Q q
    → Settles n Q p
Settles-cons {A} {Q} {n} p q same h k c = record { ends = e; shrinks = l; post = o }
  where
    e : (s : List ℕ) → length s < n → p s ≢ err out_of_fuel
    e [] m = h
    e (b ∷ s) m = rw (same b s) (c.ends (b ∷ s) m)

    l : (s : List ℕ) (a : A) (t : List ℕ) → length s < n → p s ≡ ok (a, t) → length t ≤ length s
    l [] a t m x = rw ((k a t x).1) (omega arith)
    l (b ∷ s) a t m x = c.shrinks (b ∷ s) a t m (sym (same b s) ∙ x)

    o : (s : List ℕ) (a : A) (t : List ℕ) → length s < n → p s ≡ ok (a, t) → Q a
    o [] a t m x = (k a t x).0
    o (b ∷ s) a t m x = c.post (b ∷ s) a t m (sym (same b s) ∙ x)
