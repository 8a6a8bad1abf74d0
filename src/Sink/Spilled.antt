-- ===== src/Sink/Spilled.antt =====
-- The spill chains that `write_spill_chain` of crates/xrla-nudb/src/writer.rs appends to the data file.
use xrpl_ledger_archive.Sink.Tables.{Spills, write_spill, write_chunks, chunks_of}
use xrpl_ledger_archive.Prelude.Bytes.{from_be, be_bytes, length-be_bytes}
use xrpl_ledger_archive.Keyfile.Lookup.{
  length-write_bucket_into, IsEntry, BucketFields-write_bucket_into,
}
use xrpl_ledger_archive.Sink.Stored.{read_exact_at-same, read_exact_at-middle, take-within}
use xrpl_ledger_archive.Prelude.Fallible.{Result-cases}
use xrpl_ledger_archive.Keyfile.Shard.{
  read_exact_at, read_spill, PlacedEntry, read_entries, write_bucket_into,
}
use xrpl_ledger_archive.Prelude.{
  List, ℕ, ◌≡◌, ◌++◌, length, if-cases, ◌∷◌, ◌<◌, ltb, ◌^◌, inr, [], ◌+◌, inl, ltb→le, take, ◌∙◌,
  ◌*◌, drop, take-append-drop, subst, arith, length-take, append-nil, ap, All, sym, ◌≤◌,
  append_assoc, length-append, replicate, ◌%◌, refl, suc, All-take, length-drop, zero, All-drop,
}
use xrpl_ledger_archive.Prelude.Parser.{ok}
use xrpl_ledger_archive.Keyfile.Chain.{IsChain, joined}

read_exact_at-more :
    (file more : List ℕ) (offset n : ℕ) (bytes : List ℕ)
    → read_exact_at file offset n ≡ ok bytes
    → read_exact_at (file ++ more) offset n ≡ ok bytes
unfolding read_exact_at
read_exact_at-more file more offset n bytes e =
    if-cases (ltb (length file) (offset + n)) e (λ short e'. cc e')
      λ long e'. read_exact_at-same file more offset n (ltb→le _ _ long) ∙ e

read_spill-more :
    (file more : List ℕ) (spill : ℕ) (bytes : List ℕ)
    → read_spill file spill ≡ ok bytes
    → read_spill (file ++ more) spill ≡ ok bytes
unfolding read_spill
read_spill-more file more spill bytes e = elim (Result-cases (read_exact_at file spill 8)) [
  | inr (x, e') ↦ let e'' = rw (e', read_entries) at e in cc e''
  | inl (head, e') ↦
      rw (read_exact_at-more file more spill 8 head e', read_entries)
        (read_exact_at-more file more spill (8 + from_be (take 2 head) * 18) bytes
          (rw (e', read_entries) at e))
]

-- What is written behind a chain does not change it.
pub IsChain-more :
    (dat more : List ℕ) (spill : ℕ) (cs : List (List PlacedEntry))
    → IsChain dat spill cs
    → IsChain (dat ++ more) spill cs
unfolding IsChain
IsChain-more dat more spill [] k = k
IsChain-more dat more spill (c ∷ cs) (next, there, pos, b, low, k) =
    (next, read_spill-more dat more spill _ there, pos, b, low, IsChain-more dat more next cs k)

-- A bucket behind a record's header of eight bytes.
read_spill-bucket :
    (a : List ℕ) (c : List PlacedEntry) (next offset : ℕ)
    → length c < 2 ^ 16
    → next < 2 ^ 48
    → offset ≡ length a
    → read_spill (a ++ write_bucket_into c next) offset ≡ ok (write_bucket_into c next)
unfolding read_spill
read_spill-bucket a c next offset few low e =
    let body = write_bucket_into c next in
    let size = length-write_bucket_into c next in
    let parts : take 8 body ++ drop 8 body ≡ body = take-append-drop 8 body in
    let head : read_exact_at (a ++ body) offset 8 ≡ ok (take 8 body) =
      subst (λ xs. read_exact_at (a ++ xs) offset 8 ≡ ok (take 8 body)) parts
        (read_exact_at-middle a (take 8 body) (drop 8 body) offset 8 e
          (omega (arith, length-take 8 body, size))) in
    let counted : from_be (take 2 (take 8 body)) ≡ length c =
      ap from_be (
        sym (take-within 2 (take 8 body) (drop 8 body) (omega (arith, length-take 8 body, size)))
        ∙ ap (take 2) (parts ∙ sym (append-nil body)))
      ∙ (BucketFields-write_bucket_into c next [] few low).counted in
    rw (head, read_entries, counted)
      (subst (λ xs. read_exact_at (a ++ xs) offset (8 + length c * 18) ≡ ok body) (append-nil body)
        (read_exact_at-middle a body [] offset (8 + length c * 18) e (omega (arith, size))))

-- What a step adds to the data file: bytes at its end, with the length still counted.
pub record Extends (s s' : Spills) : Type 0 where
  pub more : List ℕ
  pub appended : s'.dat ≡ s.dat ++ more
  pub counted : s'.offset ≡ length s'.dat

Extends-length : (s s' : Spills) → Extends s s' → length s.dat ≤ length s'.dat
Extends-length s s' k = omega (arith, ap length k.appended, length-append s.dat k.more)

pub Extends-trans : (a b c : Spills) → Extends a b → Extends b c → Extends a c
Extends-trans a b c k l = record {
  more = k.more ++ l.more;
  appended = l.appended ∙ ap (λ xs. xs ++ l.more) k.appended ∙ append_assoc a.dat k.more l.more;
  counted = l.counted;
}

abbrev pub IsChunk : List PlacedEntry → Type 0
IsChunk c = All IsEntry c × (length c ≤ 227)

pub Extends-refl :
    (s : Spills) (next : ℕ) → s.offset ≡ length s.dat → Extends s (record s { next_spill = next })
Extends-refl s next e = record { more = []; appended = sym (append-nil s.dat); counted = e }

pub length-write_spill :
    (c : List PlacedEntry) (s : Spills)
    → length (write_spill c s).dat ≡ length s.dat + (16 + length c * 18)
unfolding write_spill
length-write_spill c s =
    let size = be_bytes 2 ((8 + length c * 18) % 2 ^ 16) in
    let body = write_bucket_into c s.next_spill in
    omega (
      arith,
      length-append s.dat (replicate 6 0 ++ (size ++ body)),
      length-append size body,
      length-be_bytes 2 ((8 + length c * 18) % 2 ^ 16),
      length-write_bucket_into c s.next_spill,
    )

-- One record more at the end, with the chain so far behind it.
write_spill-IsChain :
    (c : List PlacedEntry) (cs : List (List PlacedEntry)) (s : Spills)
    → IsChunk c
    → s.offset ≡ length s.dat
    → s.next_spill < 2 ^ 48
    → length (write_spill c s).dat < 2 ^ 48
    → IsChain s.dat s.next_spill cs
    → Extends s (write_spill c s)
      × ((write_spill c s).next_spill < 2 ^ 48)
      × IsChain (write_spill c s).dat (write_spill c s).next_spill (c ∷ cs)
unfolding write_spill IsChain
write_spill-IsChain c cs s (fit, few) e next_low low chain =
    let size = be_bytes 2 ((8 + length c * 18) % 2 ^ 16) in
    let body = write_bucket_into c s.next_spill in
    let rec = replicate 6 0 ++ (size ++ body) in
    let total = length-write_spill c s in
    let head = replicate 6 0 ++ size in
    let head_size : length head ≡ 8 =
      omega (arith, length-be_bytes 2 ((8 + length c * 18) % 2 ^ 16)) in
    let split : (s.dat ++ head) ++ body ≡ s.dat ++ rec = append_assoc s.dat head body in
    let at_body : (s.offset + 8) % 2 ^ 64 ≡ length (s.dat ++ head) =
      omega (arith, e, low, total, head_size, length-append s.dat head) in
    (
      record { more = rec; appended = refl; counted = omega (arith, e, low, total) },
      omega (arith, e, low, total),
      (
        s.next_spill,
        subst (λ xs. read_spill xs ((s.offset + 8) % 2 ^ 64) ≡ ok body) split
            (read_spill-bucket (s.dat ++ head) c s.next_spill ((s.offset + 8) % 2 ^ 64)
              (omega (arith, few)) next_low at_body),
        omega (arith, e, low, total),
        record { entries_fit = fit; few = omega (arith, few) },
        next_low,
        IsChain-more s.dat rec s.next_spill cs chain,
      ),
    )

pub write_chunks-IsChain :
    (cs : List (List PlacedEntry)) (s : Spills)
    → All IsChunk cs
    → s.offset ≡ length s.dat
    → s.next_spill ≡ 0
    → length (write_chunks cs s).dat < 2 ^ 48
    → Extends s (write_chunks cs s)
      × ((write_chunks cs s).next_spill < 2 ^ 48)
      × IsChain (write_chunks cs s).dat (write_chunks cs s).next_spill cs
unfolding write_chunks
write_chunks-IsChain [] s h e z low =
    (Extends-refl s s.next_spill e, omega (arith, z), unfold IsChain in z)
write_chunks-IsChain (c ∷ cs) s h e z low =
    let s' = write_chunks cs s in
    let (grows, next_low, chain) =
      write_chunks-IsChain cs s h.1 e z (omega (arith, low, length-write_spill c s')) in
    let (grows', next_low', chain') =
      write_spill-IsChain c cs s' h.0 grows.counted next_low low chain in
    (Extends-trans s s' (write_spill c s') grows grows', next_low', chain')

pub chunks_of-IsChunk :
    (n : ℕ) (es : List PlacedEntry) → All IsEntry es → All IsChunk (chunks_of n es)
unfolding chunks_of
chunks_of-IsChunk zero es h = tt
chunks_of-IsChunk (suc n) [] h = tt
chunks_of-IsChunk (suc n) (e ∷ es) h = (
  (All-take IsEntry 227 (e ∷ es) h, omega (arith, length-take 227 (e ∷ es))),
  chunks_of-IsChunk n (drop 227 (e ∷ es)) (All-drop IsEntry 227 (e ∷ es) h),
)

pub joined-chunks_of :
    (n : ℕ) (es : List PlacedEntry) → length es ≤ n → joined (chunks_of n es) ≡ es
unfolding chunks_of joined
joined-chunks_of zero [] h = refl
joined-chunks_of zero (e ∷ es) h = absurd (omega arith)
joined-chunks_of (suc n) [] h = refl
joined-chunks_of (suc n) (e ∷ es) h =
    ap (λ xs. take 227 (e ∷ es) ++ xs)
      (joined-chunks_of n (drop 227 (e ∷ es)) (omega (arith, h, length-drop 227 (e ∷ es))))
    ∙ take-append-drop 227 (e ∷ es)

pub length-chunks_of : (n : ℕ) (es : List PlacedEntry) → length (chunks_of n es) ≤ n
unfolding chunks_of
length-chunks_of zero es = omega arith
length-chunks_of (suc n) [] = omega arith
length-chunks_of (suc n) (e ∷ es) = omega (arith, length-chunks_of n (drop 227 (e ∷ es)))
