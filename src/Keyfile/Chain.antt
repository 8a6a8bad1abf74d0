-- ===== src/Keyfile/Chain.antt =====
-- `Shard::fetch` of crates/xrla-nudb/src/keyfile.rs on a chain of buckets.
use xrpl_ledger_archive.Keyfile.Search.{or_else, lookup-append}
use xrpl_ledger_archive.Keyfile.Lookup.{
  IsEntry, lookup, length-write_bucket_into, probe_block-write_bucket_into,
}
use xrpl_ledger_archive.Node.{Hash256}
use xrpl_ledger_archive.Keyfile.Shard.{
  PlacedEntry, read_spill, write_bucket_into, FetchError, probe_of,
}
use xrpl_ledger_archive.Keyfile.Fetch.{fetch_loop, after_probe}
use xrpl_ledger_archive.Prelude.{
  none, some, false, List, ℕ, ◌∷◌, All, ◌≡◌, ltb, ◌++◌, length, ◌<◌, ◌^◌, [], le→ltb, arith,
  length-append, suc, Option, ◌∙◌, sym, zero, refl, ◌==◌, append-nil,
}
use xrpl_ledger_archive.Prelude.Parser.{ok, err, Result}

-- The entries of all chunks.
unfoldable pub joined : List (List PlacedEntry) → List PlacedEntry
joined [] = []
joined (c ∷ cs) = c ++ joined cs

-- A bucket of these entries can be written and read back.
pub record IsBucket (entries : List PlacedEntry) : Type 0 where
  pub entries_fit : All IsEntry entries
  pub few : length entries < 2 ^ 16

-- The spill buckets that follow one another in the data file from `spill` on.
unfoldable pub IsChain : List ℕ → ℕ → List (List PlacedEntry) → Type 0
IsChain dat spill [] = spill ≡ 0
IsChain dat spill (c ∷ cs) =
    (next : ℕ) × (read_spill dat spill ≡ ok (write_bucket_into c next))
    × (0 < spill)
    × IsBucket c
    × (next < 2 ^ 48)
    × IsChain dat next cs

block_long :
    (entries : List PlacedEntry) (spill : ℕ) (padding : List ℕ)
    → ltb (length (write_bucket_into entries spill ++ padding)) 8 ≡ false
block_long entries spill padding = le→ltb _ 8 (
    omega (
      arith,
      length-append (write_bucket_into entries spill) padding,
      length-write_bucket_into entries spill,
    ))

-- What a bucket leaves to the chain behind it, given the rounds that are left.
after_probe-IsChain :
    (n : ℕ) (dat : List ℕ) (key : Hash256) (nhash spill : ℕ)
    (r : Result FetchError (Option (List ℕ))) (cs : List (List PlacedEntry))
    → IsChain dat spill cs
    → length cs < suc n
    → ((c : List PlacedEntry) (next : ℕ) (ds : List (List PlacedEntry))
        → IsBucket c
        → next < 2 ^ 48
        → IsChain dat next ds
        → length ds < n
        → fetch_loop n dat key nhash (write_bucket_into c next ++ [])
          ≡ lookup dat key nhash (c ++ joined ds))
    → after_probe (fetch_loop n dat key nhash) dat (probe_of spill r)
      ≡ or_else r (lookup dat key nhash (joined cs))
unfolding IsChain joined
after_probe-IsChain n dat key nhash spill (err e) cs k m again = refl
after_probe-IsChain n dat key nhash spill (ok (some v)) cs k m again = refl
after_probe-IsChain n dat key nhash spill (ok none) [] k m again = rw k (unfold lookup in refl)
after_probe-IsChain n dat key nhash spill (ok none) (c ∷ ds) (next, there, pos, b, low, k) m again =
    let nonzero : (spill == 0) ≡ false = ground arith in
    rw (nonzero, there) (rw append-nil at (again c next ds b low k (omega arith)))

-- The loop searches a bucket and the chain behind it as one list, in a round for each bucket.
pub fetch_loop-IsChain :
    (fuel : ℕ) (dat : List ℕ) (key : Hash256) (nhash : ℕ) (entries : List PlacedEntry) (spill : ℕ)
    (padding : List ℕ) (cs : List (List PlacedEntry))
    → IsBucket entries
    → spill < 2 ^ 48
    → IsChain dat spill cs
    → length cs < fuel
    → fetch_loop fuel dat key nhash (write_bucket_into entries spill ++ padding)
      ≡ lookup dat key nhash (entries ++ joined cs)
unfolding fetch_loop IsChain
fetch_loop-IsChain zero dat key nhash entries spill padding cs b low chain l = absurd (omega arith)
fetch_loop-IsChain (suc n) dat key nhash entries spill padding cs b low chain l =
    rw
      (
        block_long entries spill padding,
        probe_block-write_bucket_into dat key nhash entries spill padding b.entries_fit b.few low,
      )
      (after_probe-IsChain n dat key nhash spill (lookup dat key nhash entries) cs chain l
          (λ c next ds b' low' k m. fetch_loop-IsChain n dat key nhash c next [] ds b' low' k m)
        ∙ sym (lookup-append dat key nhash entries (joined cs)))
