-- ===== src/Chunk/RoundTrip/Fields.antt =====
-- Integers, hashes and counted lists.
use xrpl_ledger_archive.Prelude.{
  ℕ, ◌^◌, ◌<◌, ◌≡◌, refl, ap, List, [], ◌∷◌, ◌++◌, map, append_assoc, arith, length, All,
}
use xrpl_ledger_archive.Prelude.Bytes.{
  be_bytes, from_be, length-be_bytes, from_be-be_bytes, from_be_single,
}
use xrpl_ledger_archive.Prelude.Parser.{
  ◌>>=◌, pure, repeat, Reads, Reads-bind, Reads-map, Reads-take_exact, Reads-repeat, write_all,
}
use xrpl_ledger_archive.Chunk.Types.{unexpected_eof}
use xrpl_ledger_archive.Chunk.Write.{
  write_u8, write_u16be, write_u32be, write_u64be, as_u16, as_u32, write_counted,
}
use xrpl_ledger_archive.Chunk.Read.{
  Reader, read_exact, read_u8, read_u16be, read_u32be, read_u64be, read_hash,
}

pub Reads-read_exact : (n : ℕ) (xs : List ℕ) → length xs ≡ n → Reads (read_exact n) xs xs
unfolding read_exact
Reads-read_exact n xs h = Reads-take_exact unexpected_eof n xs h

pub Reads-read_hash : (xs : List ℕ) → length xs ≡ 32 → Reads read_hash xs xs
unfolding read_hash
Reads-read_hash xs h = Reads-read_exact 32 xs h

read_be : ℕ → Reader ℕ
read_be k = do b ← read_exact k; pure (from_be b)

Reads-read_be : (k v : ℕ) → v < 256 ^ k → Reads (read_be k) (be_bytes k v) v
unfolding read_be
Reads-read_be k v h =
    rw (from_be-be_bytes k v h) at
      (Reads-map from_be (Reads-read_exact k (be_bytes k v) (length-be_bytes k v)))

pub Reads-read_u8 : (v : ℕ) → Reads read_u8 (write_u8 v) v
unfolding read_u8 write_u8
Reads-read_u8 v = rw (from_be_single v) at (Reads-map from_be (Reads-read_exact 1 (v ∷ []) refl))

pub Reads-read_u16be : (v : ℕ) → v < 2 ^ 16 → Reads read_u16be (write_u16be v) v
unfolding read_u16be write_u16be read_be
Reads-read_u16be v h = Reads-read_be 2 v h

pub Reads-read_u32be : (v : ℕ) → v < 2 ^ 32 → Reads read_u32be (write_u32be v) v
unfolding read_u32be write_u32be read_be
Reads-read_u32be v h = Reads-read_be 4 v h

pub Reads-read_u64be : (v : ℕ) → v < 2 ^ 64 → Reads read_u64be (write_u64be v) v
unfolding read_u64be write_u64be read_be
Reads-read_u64be v h = Reads-read_be 8 v h

map_id : {A : Type 0} (xs : List A) → map (λ x. x) xs ≡ xs
map_id [] = refl
map_id (x ∷ xs) = ap (λ ys. x ∷ ys) (map_id xs)

-- A counted list is read back element by element, and what follows it is read after it.
module _ {A : Type 0} {p : Reader A} {write : A → List ℕ} (P : A → Type 0)
    (each : (x : A) → P x → Reads p (write x) x) (xs : List A) (valid : All P xs) where
  elements : Reads (repeat (length xs) p) (write_all write xs) xs
  elements = rw map_id at (Reads-repeat p write (λ x. x) P each xs valid)

  pub Reads-counted :
      length xs < 2 ^ 32 → Reads (read_u32be >>= λ n. repeat n p) (write_counted write xs) xs
  Reads-counted few =
      let count : as_u32 (length xs) ≡ length xs = omega arith in
      rw count (Reads-bind (λ n. repeat n p) (Reads-read_u32be (length xs) few) elements)

  pub Reads-counted-bind :
      {B : Type 0} (f : List A → Reader B) {ys : List ℕ} {b : B}
      → length xs < 2 ^ 32
      → Reads (f xs) ys b
      → Reads (read_u32be >>= λ n. repeat n p >>= f) (write_counted write xs ++ ys) b
  Reads-counted-bind f {ys} few rest =
      let count : as_u32 (length xs) ≡ length xs = omega arith in
      rw (count, append_assoc)
        (Reads-bind (λ n. repeat n p >>= f) (Reads-read_u32be (length xs) few)
          (Reads-bind f elements rest))

  pub Reads-counted-map :
      {B : Type 0} (f : List A → B)
      → length xs < 2 ^ 32
      → Reads
          (read_u32be >>= λ n. repeat n p >>= λ out. pure (f out))
          (write_counted write xs)
          (f xs)
  Reads-counted-map f few =
      let count : as_u32 (length xs) ≡ length xs = omega arith in
      rw count (
        Reads-bind (λ n. repeat n p >>= λ out. pure (f out)) (Reads-read_u32be (length xs) few)
          (Reads-map f elements))

  pub Reads-counted16 :
      {B : Type 0} (f : List A → B)
      → length xs < 2 ^ 16
      → Reads
          (read_u16be >>= λ n. repeat n p >>= λ out. pure (f out))
          (write_u16be (as_u16 (length xs)) ++ write_all write xs)
          (f xs)
  Reads-counted16 f few =
      let count : as_u16 (length xs) ≡ length xs = omega arith in
      rw count (
        Reads-bind (λ n. repeat n p >>= λ out. pure (f out)) (Reads-read_u16be (length xs) few)
          (Reads-map f elements))
