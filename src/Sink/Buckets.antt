-- ===== src/Sink/Buckets.antt =====
-- The entries of a bucket that `NuDbSink::finish` of crates/xrla-nudb/src/writer.rs fills and sorts:
-- those of each hash are all there, in the order in which they were placed.
use xrpl_ledger_archive.Keyfile.Lookup.{IsEntry}
use xrpl_ledger_archive.Keyfile.{bucket_index}
use xrpl_ledger_archive.Keyfile.Shard.{PlacedEntry}
use xrpl_ledger_archive.Sink.Tables.{push_at, distribute, by_nhash}
use xrpl_ledger_archive.Prelude.Sort.{sort_by, insert_by, lex_leb}
use xrpl_ledger_archive.Keyfile.Search.{same_hash}
use xrpl_ledger_archive.Prelude.{
  some, true, ℕ, List, ◌∷◌, get_elem?, All, length, if◌then◌else◌, ◌≡◌, ◌≤◌, ◌==◌, ◌++◌, All-append,
  ◌∙◌, arith, Bool-cases, suc, [], append-nil, ap, refl, inl, zero, append_assoc, ==_iff, inr, ◌<◌,
}

module _ (num_buckets modulus : ℕ) where
  -- The entries that belong into a bucket.
  unfoldable pub in_bucket : ℕ → List PlacedEntry → List PlacedEntry
  in_bucket i [] = []
  in_bucket i (e ∷ es) =
      let rest = in_bucket i es in
      if bucket_index num_buckets modulus e.nhash == i then e ∷ rest else rest

  get_elem?-push_at :
      (bs : List (List PlacedEntry)) (i j : ℕ) (e : PlacedEntry) (b : List PlacedEntry)
      → get_elem? bs i ≡ some b
      → get_elem? (push_at bs j e) i ≡ some (if j == i then b ++ (e ∷ []) else b)
  unfolding push_at
  get_elem?-push_at [] i j e b h = cc h
  get_elem?-push_at (c ∷ cs) zero zero e b h = ground (arith, h)
  get_elem?-push_at (c ∷ cs) zero (suc j) e b h = ground (arith, h)
  get_elem?-push_at (c ∷ cs) (suc i) zero e b h = ground (arith, h)
  get_elem?-push_at (c ∷ cs) (suc i) (suc j) e b h = ground (arith, get_elem?-push_at cs i j e b h)

  pub get_elem?-distribute :
      (es : List PlacedEntry) (bs : List (List PlacedEntry)) (i : ℕ) (b : List PlacedEntry)
      → get_elem? bs i ≡ some b
      → get_elem? (distribute num_buckets modulus es bs) i ≡ some (b ++ in_bucket i es)
  unfolding distribute in_bucket
  get_elem?-distribute [] bs i b h = rw append-nil h
  get_elem?-distribute (e ∷ es) bs i b h =
      let j = bucket_index num_buckets modulus e.nhash in
      let pushed = get_elem?-push_at bs i j e b h in
      elim (Bool-cases (j == i)) [
        | inl own ↦ rw own (
            get_elem?-distribute es (push_at bs j e) i (b ++ (e ∷ [])) (rw own at pushed)
            ∙ ap some (append_assoc b (e ∷ []) (in_bucket i es)))
        | inr other ↦ rw other (get_elem?-distribute es (push_at bs j e) i b (rw other at pushed))
      ]

  All-push_at :
      (bs : List (List PlacedEntry)) (j : ℕ) (e : PlacedEntry)
      → All (All IsEntry) bs
      → IsEntry e
      → All (All IsEntry) (push_at bs j e)
  unfolding push_at
  All-push_at [] j e h k = tt
  All-push_at (b ∷ bs) zero e h k = (All-append IsEntry b (e ∷ []) h.0 (k, tt), h.1)
  All-push_at (b ∷ bs) (suc j) e h k = (h.0, All-push_at bs j e h.1 k)

  pub All-distribute :
      (es : List PlacedEntry) (bs : List (List PlacedEntry))
      → All IsEntry es
      → All (All IsEntry) bs
      → All (All IsEntry) (distribute num_buckets modulus es bs)
  unfolding distribute
  All-distribute [] bs h k = k
  All-distribute (e ∷ es) bs h k = All-distribute es (push_at bs _ e) h.1 (All-push_at bs _ e k h.0)

  length-push_at :
      (bs : List (List PlacedEntry)) (j : ℕ) (e : PlacedEntry) → length (push_at bs j e) ≡ length bs
  unfolding push_at
  length-push_at [] j e = refl
  length-push_at (b ∷ bs) zero e = refl
  length-push_at (b ∷ bs) (suc j) e = ap suc (length-push_at bs j e)

  pub length-distribute :
      (es : List PlacedEntry) (bs : List (List PlacedEntry))
      → length (distribute num_buckets modulus es bs) ≡ length bs
  unfolding distribute
  length-distribute [] bs = refl
  length-distribute (e ∷ es) bs = length-distribute es (push_at bs _ e) ∙ length-push_at bs _ e

  pub length-in_bucket : (i : ℕ) (es : List PlacedEntry) → length (in_bucket i es) ≤ length es
  unfolding in_bucket
  length-in_bucket i [] = omega arith
  length-in_bucket i (e ∷ es) = ground (arith, length-in_bucket i es)

  -- The bucket of a hash has all entries of that hash.
  pub same_hash-in_bucket :
      (nhash : ℕ) (es : List PlacedEntry)
      → same_hash nhash (in_bucket (bucket_index num_buckets modulus nhash) es) ≡ same_hash nhash es
  unfolding same_hash in_bucket
  same_hash-in_bucket nhash [] = refl
  same_hash-in_bucket nhash (e ∷ es) = elim (Bool-cases (e.nhash == nhash)) [
    | inl same ↦
        let there : (bucket_index num_buckets modulus e.nhash
              == bucket_index num_buckets modulus nhash)
            ≡ true =
          (==_iff _ _).1 (ap (bucket_index num_buckets modulus) ((==_iff e.nhash nhash).0 same)) in
        rw (there, same_hash) (rw same (ap (λ xs. e ∷ xs) (same_hash-in_bucket nhash es)))
    | inr other ↦
        elim (Bool-cases
          (bucket_index num_buckets modulus e.nhash == bucket_index num_buckets modulus nhash)) [
            | inl there ↦ rw (there, same_hash) (rw other (same_hash-in_bucket nhash es))
            | inr elsewhere ↦ rw (elsewhere, other) (same_hash-in_bucket nhash es)
          ]
  ]

same_hash-insert_by :
    (nhash : ℕ) (e : PlacedEntry) (es : List PlacedEntry)
    → same_hash nhash (insert_by by_nhash e es) ≡ same_hash nhash (e ∷ es)
unfolding same_hash insert_by
same_hash-insert_by nhash e [] = refl
same_hash-insert_by nhash e (f ∷ fs) = elim (Bool-cases (lex_leb (by_nhash e) (by_nhash f))) [
  | inl before ↦ rw before refl
  | inr behind ↦
      let less : f.nhash < e.nhash = unfold lex_leb in ground arith in
      rw (behind, same_hash-insert_by nhash e fs) (ground arith)
]

-- A stable sort keeps the order of the entries of one hash.
pub same_hash-sort_by :
    (nhash : ℕ) (es : List PlacedEntry) → same_hash nhash (sort_by by_nhash es) ≡ same_hash nhash es
unfolding sort_by same_hash
same_hash-sort_by nhash [] = refl
same_hash-sort_by nhash (e ∷ es) =
    same_hash-insert_by nhash e (sort_by by_nhash es)
    ∙ ap (λ xs. if e.nhash == nhash then e ∷ xs else xs) (same_hash-sort_by nhash es)
