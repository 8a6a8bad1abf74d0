-- ===== src/Chunk/Sizes.antt =====
-- The readers of the header of a chunk, crates/xrla-common/src/serialize.rs, by the bytes that they take.
use native.Mathlib.Nat.{zero-add}
use xrpl_ledger_archive.Prelude.Bytes.{from_be}
use xrpl_ledger_archive.Prelude.{
  sym, ℕ, zero, suc, ◌+◌, ◌≡◌, refl, ap, ◌∙◌, List, [], ◌∷◌, arith, drop, take, list_eq→eq,
}
use xrpl_ledger_archive.Prelude.Parser.{ok, Parser, ◌>>=◌, pure, take_exact}
use xrpl_ledger_archive.Prelude.Consume.{>>=-eq-ok}
use xrpl_ledger_archive.Node.{Hash256}
use xrpl_ledger_archive.Chunk.Types.{ChunkError}
use xrpl_ledger_archive.Chunk.Read.{
  read_exact, read_u8, read_u32be, read_hash, check_magic, check_version, check_hash,
}

-- A reader that takes `n` bytes, whenever it succeeds.
pub record Takes {A : Type 0} (n : ℕ) (p : Parser ChunkError A) : Type 0 where
  pub rest : (s : List ℕ) (a : A) (t : List ℕ) → p s ≡ ok (a, t) → t ≡ drop n s

drop_nil : {A : Type 0} (n : ℕ) → drop {A = A} n [] ≡ []
drop_nil zero = refl
drop_nil (suc n) = refl

pub drop-drop : {A : Type 0} (m n : ℕ) (s : List A) → drop n (drop m s) ≡ drop (m + n) s
drop-drop zero n s = rw zero-add
drop-drop (suc m) n [] = drop_nil n ∙ rw (suc-add m n)
  where
    suc-add : (m n : ℕ) → suc m + n ≡ suc (m + n)
    suc-add m n = omega arith
drop-drop (suc m) n (x ∷ s) = drop-drop m n s ∙ rw (suc-add m n)
  where
    suc-add : (m n : ℕ) → suc m + n ≡ suc (m + n)
    suc-add m n = omega arith

Takes-read_exact : (n : ℕ) → Takes n (read_exact n)
unfolding read_exact take_exact
Takes-read_exact n = record { rest = λ s a t h. ground arith }

Takes-pure : {A : Type 0} (a : A) → Takes 0 (pure a)
Takes-pure a = record { rest = λ s b t h. cc }

Takes-bind :
    {A B : Type 0} (m n : ℕ) (p : Parser ChunkError A) (f : A → Parser ChunkError B)
    → Takes m p
    → ((a : A) → Takes n (f a))
    → Takes (m + n) (p >>= f)
Takes-bind m n p f hp hf = record {
  rest = λ s b t h.
      let (a, s', e, e') = >>=-eq-ok p f s h in
      (hf a).rest s' b t e' ∙ ap (drop n) (hp.rest s a s' e) ∙ drop-drop m n s;
}

Takes-read_be :
    {A : Type 0} (n : ℕ) (f : List ℕ → A) → Takes (n + 0) (read_exact n >>= λ b. pure (f b))
Takes-read_be n f = Takes-bind n 0 _ _ (Takes-read_exact n) λ b. Takes-pure (f b)

pub Takes-read_u8 : Takes 1 read_u8
unfolding read_u8
Takes-read_u8 = Takes-read_be 1 _

pub Takes-read_u32be : Takes 4 read_u32be
unfolding read_u32be
Takes-read_u32be = Takes-read_be 4 _

pub Takes-read_hash : Takes 32 read_hash
unfolding read_hash
Takes-read_hash = Takes-read_exact 32

pub read_hash-value :
    (s : List ℕ) (hash : Hash256) (t : List ℕ) → read_hash s ≡ ok (hash, t) → hash ≡ take 32 s
unfolding read_hash read_exact take_exact
read_hash-value s hash t h = ground (arith, h)

read_exact-value : (n : ℕ) (s b t : List ℕ) → read_exact n s ≡ ok (b, t) → b ≡ take n s
unfolding read_exact take_exact
read_exact-value n s b t h = ground (arith, h)

pub read_u32be-value :
    (s : List ℕ) (v : ℕ) (t : List ℕ) → read_u32be s ≡ ok (v, t) → v ≡ from_be (take 4 s)
unfolding read_u32be
read_u32be-value s v t h =
    let (b, s', e, k) = >>=-eq-ok (read_exact 4) _ s h in
    let same : from_be b ≡ v = cc k in sym same ∙ ap from_be (read_exact-value 4 s b s' e)

pub Takes-check_magic : (m : List ℕ) → Takes 4 (check_magic m)
unfolding check_magic
Takes-check_magic m =
    Takes-bind 4 0 _ _ (Takes-read_exact 4) λ b. record { rest = λ s a t h. ground (arith, h) }

pub Takes-check_version : (v : ℕ) → Takes 0 (check_version v)
unfolding check_version
Takes-check_version v = record { rest = λ s a t h. ground arith }

pub check_hash-eq :
    (half : List ℕ → Hash256) (stored : Hash256) (s t : List ℕ)
    → check_hash half stored s ≡ ok (tt, t)
    → (half s ≡ stored) × (s ≡ t)
unfolding check_hash
check_hash-eq half stored s t h = ground (arith, list_eq→eq (half s) stored)
