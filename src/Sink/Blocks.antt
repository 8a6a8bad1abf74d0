-- ===== src/Sink/Blocks.antt =====
-- The blocks of the key file that `NuDbSink::finish` of crates/xrla-nudb/src/writer.rs makes of the
-- buckets, with their spill chains in the data file.
use xrpl_ledger_archive.Keyfile.Chain.{IsBucket, IsChain}
use xrpl_ledger_archive.Prelude.Sort.{sort_by, All-sort_by}
use xrpl_ledger_archive.Sink.Spilled.{
  IsChain-more, length-write_spill, Extends, Extends-refl, write_chunks-IsChain, chunks_of-IsChunk,
  Extends-trans,
}
use xrpl_ledger_archive.Keyfile.Lookup.{IsEntry}
use xrpl_ledger_archive.Keyfile.Shard.{PlacedEntry}
use xrpl_ledger_archive.Sink.Tables.{
  write_chunks, spill_bucket, spill_buckets, write_spill_chain, chunks_of, Block, Spills,
  bucket_capacity, by_nhash,
}
use xrpl_ledger_archive.Prelude.{
  List, ℕ, length, drop, ◌≡◌, ◌≤◌, All, ◌++◌, [], take, ◌∷◌, arith, Bool-cases, ltb, ◌<◌, suc, ◌^◌,
  inl, zero, refl, inr, All-drop, All-take, ltb→le, length-take, subst, sym,
}

-- What does not fit into the block of a bucket, in chunks.
abbrev pub overflow : List PlacedEntry → List (List PlacedEntry)
overflow sorted = chunks_of (length (drop bucket_capacity sorted)) (drop bucket_capacity sorted)

-- The block of a bucket, in the order of the hashes, with the chain of its spill buckets.
pub record IsBlock (dat : List ℕ) (b : List PlacedEntry) (block : Block) : Type 0 where
  pub first : block.entries ≡ take bucket_capacity (sort_by by_nhash b)
  pub bucket : IsBucket block.entries
  pub low : block.spill < 2 ^ 48
  pub chain : IsChain dat block.spill (overflow (sort_by by_nhash b))

-- A block for each bucket.
unfoldable pub Matches : List ℕ → List (List PlacedEntry) → List Block → Type 0
Matches dat [] [] = Unit
Matches dat (b ∷ bs) (block ∷ blocks) = IsBlock dat b block × Matches dat bs blocks
Matches dat [] (block ∷ blocks) = ⊥
Matches dat (b ∷ bs) [] = ⊥

drop-all : (n : ℕ) (es : List PlacedEntry) → length es ≤ n → drop n es ≡ []
drop-all zero [] h = refl
drop-all zero (e ∷ es) h = absurd (omega arith)
drop-all (suc n) [] h = refl
drop-all (suc n) (e ∷ es) h = drop-all n es (omega arith)

write_chunks-le :
    (cs : List (List PlacedEntry)) (s : Spills) → length s.dat ≤ length (write_chunks cs s).dat
unfolding write_chunks
write_chunks-le [] s = omega arith
write_chunks-le (c ∷ cs) s =
    omega (arith, write_chunks-le cs s, length-write_spill c (write_chunks cs s))

spill_bucket-le :
    (sorted : List PlacedEntry) (s : Spills) → length s.dat ≤ length (spill_bucket sorted s).dat
unfolding spill_bucket write_spill_chain
spill_bucket-le sorted s = elim (Bool-cases (ltb bucket_capacity (length sorted))) [
  | inl long ↦ rw long (write_chunks-le (overflow sorted) (record s { next_spill = 0 }))
  | inr short ↦ rw short (omega arith)
]

spill_buckets-le :
    (bs : List (List PlacedEntry)) (s : Spills) → length s.dat ≤ length (spill_buckets bs s).1.dat
unfolding spill_buckets
spill_buckets-le [] s = omega arith
spill_buckets-le (b ∷ bs) s =
    let s' = spill_bucket (sort_by by_nhash b) s in
    omega (arith, spill_bucket-le (sort_by by_nhash b) s, spill_buckets-le bs s')

spill_bucket-IsChain :
    (sorted : List PlacedEntry) (s : Spills)
    → All IsEntry sorted
    → s.offset ≡ length s.dat
    → length (spill_bucket sorted s).dat < 2 ^ 48
    → Extends s (spill_bucket sorted s)
      × ((spill_bucket sorted s).next_spill < 2 ^ 48)
      × IsChain (spill_bucket sorted s).dat (spill_bucket sorted s).next_spill (overflow sorted)
unfolding spill_bucket write_spill_chain
spill_bucket-IsChain sorted s h e low = elim (Bool-cases (ltb bucket_capacity (length sorted))) [
  | inl long ↦
      let (grows, next_low, chain) =
        write_chunks-IsChain (overflow sorted) (record s { next_spill = 0 })
          (chunks_of-IsChunk _ (drop bucket_capacity sorted)
            (All-drop IsEntry bucket_capacity sorted h))
          e refl (rw long at low) in
      rw long (Extends-trans s _ _ (Extends-refl s 0 e) grows, next_low, chain)
  | inr short ↦
      let none_left : drop bucket_capacity sorted ≡ [] =
        drop-all bucket_capacity sorted (ltb→le _ _ short) in
      rw (short, none_left) (Extends-refl s 0 e, omega arith, unfold chunks_of IsChain in refl)
]

Matches-more :
    (dat more : List ℕ) (b : List PlacedEntry) (block : Block)
    → IsBlock dat b block
    → IsBlock (dat ++ more) b block
Matches-more dat more b block k = record {
  first = k.first;
  bucket = k.bucket;
  low = k.low;
  chain = IsChain-more dat more block.spill _ k.chain;
}

pub spill_buckets-Matches :
    (bs : List (List PlacedEntry)) (s : Spills)
    → All (All IsEntry) bs
    → s.offset ≡ length s.dat
    → length (spill_buckets bs s).1.dat < 2 ^ 48
    → Extends s (spill_buckets bs s).1
      × Matches (spill_buckets bs s).1.dat bs (spill_buckets bs s).0
unfolding spill_buckets Matches
spill_buckets-Matches [] s h e low = (Extends-refl s s.next_spill e, tt)
spill_buckets-Matches (b ∷ bs) s h e low =
    let sorted = sort_by by_nhash b in
    let s' = spill_bucket sorted s in
    let r = spill_buckets bs s' in
    let fit = All-sort_by by_nhash IsEntry b h.0 in
    let (grows, next_low, chain) =
      spill_bucket-IsChain sorted s fit e (omega (arith, low, spill_buckets-le bs s')) in
    let (grows', rest) = spill_buckets-Matches bs s' h.1 grows.counted low in
    (
      Extends-trans s s' r.1 grows grows',
      (
        record {
          first = refl;
          bucket = record {
            entries_fit = All-take IsEntry bucket_capacity sorted fit;
            few = omega (arith, length-take bucket_capacity sorted);
          };
          low = next_low;
          chain =
              subst (λ xs. IsChain xs s'.next_spill (overflow sorted)) (sym grows'.appended)
                (IsChain-more s'.dat grows'.more s'.next_spill _ chain);
        },
        rest,
      ),
    )
