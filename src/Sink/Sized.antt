-- ===== src/Sink/Sized.antt =====
-- How long the data file gets that `NuDbSink` of crates/xrla-nudb/src/writer.rs writes.
use xrpl_ledger_archive.Sink.Blocks.{overflow}
use xrpl_ledger_archive.Keyfile.{bucket_index}
use xrpl_ledger_archive.Prelude.Sort.{sort_by, length-sort_by}
use xrpl_ledger_archive.Sink.Spilled.{length-write_spill, length-chunks_of, joined-chunks_of}
use xrpl_ledger_archive.Keyfile.Shard.{PlacedEntry}
use xrpl_ledger_archive.Keyfile.Chain.{joined}
use xrpl_ledger_archive.Sink.Tables.{
  write_chunks, spill_bucket, spill_buckets, push_at, distribute, write_spill_chain, Spills,
  bucket_capacity, by_nhash,
}
use xrpl_ledger_archive.Prelude.{
  List, ℕ, length, ◌≤◌, replicate, ◌≡◌, ◌+◌, [], ◌*◌, arith, suc, ◌∷◌, Bool-cases, zero, ltb,
  length-append, refl, ◌++◌, inl, drop, ap, length-drop, inr,
}

length-write_chunks :
    (cs : List (List PlacedEntry)) (s : Spills)
    → length (write_chunks cs s).dat ≡ length s.dat + 16 * length cs + 18 * length (joined cs)
unfolding write_chunks joined
length-write_chunks [] s = omega arith
length-write_chunks (c ∷ cs) s = omega (
  arith,
  length-write_chunks cs s,
  length-write_spill c (write_chunks cs s),
  length-append c (joined cs),
)

spill_bucket-size :
    (sorted : List PlacedEntry) (s : Spills)
    → length (spill_bucket sorted s).dat ≤ length s.dat + 34 * length sorted
unfolding spill_bucket write_spill_chain
spill_bucket-size sorted s = elim (Bool-cases (ltb bucket_capacity (length sorted))) [
  | inl long ↦
      let rest = drop bucket_capacity sorted in
      rw long (
        omega (
          arith,
          length-write_chunks (overflow sorted) (record s { next_spill = 0 }),
          length-chunks_of (length rest) rest,
          ap length (joined-chunks_of (length rest) rest (omega arith)),
          length-drop bucket_capacity sorted,
        ))
  | inr short ↦ rw short (omega arith)
]

pub spill_buckets-size :
    (bs : List (List PlacedEntry)) (s : Spills)
    → length (spill_buckets bs s).1.dat ≤ length s.dat + 34 * length (joined bs)
unfolding spill_buckets joined
spill_buckets-size [] s = omega arith
spill_buckets-size (b ∷ bs) s = omega (
  arith,
  spill_bucket-size (sort_by by_nhash b) s,
  length-sort_by by_nhash b,
  length-append b (joined bs),
  spill_buckets-size bs (spill_bucket (sort_by by_nhash b) s),
)

joined-push_at :
    (bs : List (List PlacedEntry)) (j : ℕ) (e : PlacedEntry)
    → length (joined (push_at bs j e)) ≤ length (joined bs) + 1
unfolding push_at joined
joined-push_at [] j e = omega arith
joined-push_at (b ∷ bs) zero e = omega (
  arith,
  length-append (b ++ (e ∷ [])) (joined bs),
  length-append b (e ∷ []),
  length-append b (joined bs),
)
joined-push_at (b ∷ bs) (suc j) e = omega (
  arith,
  length-append b (joined (push_at bs j e)),
  length-append b (joined bs),
  joined-push_at bs j e,
)

pub joined-distribute :
    (num_buckets modulus : ℕ) (es : List PlacedEntry) (bs : List (List PlacedEntry))
    → length (joined (distribute num_buckets modulus es bs)) ≤ length (joined bs) + length es
unfolding distribute
joined-distribute num_buckets modulus [] bs = omega arith
joined-distribute num_buckets modulus (e ∷ es) bs =
    let j = bucket_index num_buckets modulus e.nhash in
    omega (arith, joined-distribute num_buckets modulus es (push_at bs j e), joined-push_at bs j e)

pub joined-replicate : (n : ℕ) → length (joined (replicate n [])) ≡ 0
unfolding joined
joined-replicate zero = refl
joined-replicate (suc n) = joined-replicate n
