-- ===== src/Keyfile/Examples.antt =====
-- A key file of one bucket, and a bucket of two entries.
use xrpl_ledger_archive.Keyfile.Primary.{fetch-open_shard}
use xrpl_ledger_archive.Keyfile.Fetch.{key_magic, OpenShard, open_shard, opened, fetch, fetch_loop}
use xrpl_ledger_archive.Prelude.Bytes.{from_be}
use xrpl_ledger_archive.Prelude.{◌*◌, ◌≤◌, length, ◌+◌, take, drop, ◌/◌}
use xrpl_ledger_archive.Prelude.Parser.{ok}
use xrpl_ledger_archive.Keyfile.Lookup.{lookup, IsEntry, probe_block-write_bucket_into}
use xrpl_ledger_archive.Keyfile.Shard.{
  probe_block, PlacedEntry, visit, write_bucket_into, read_record, probe_of, read_exact_at,
}
use xrpl_ledger_archive.Keyfile.{grow_modulus, bucket_index}
use xrpl_ledger_archive.Prelude.{
  ℕ, ◌≡◌, some, ◌<◌, arith, List, ◌^◌, ◌∷◌, ◌++◌, replicate, [], refl,
}

-- A key file of a header and one bucket, of 40 bytes each.
abbrev small_key : List ℕ
small_key = key_magic ++ (replicate 19 0 ++ (32 ∷ (replicate 17 0 ++ (40 ∷ replicate 34 0))))

small_shard :
    (shard : OpenShard) × (open_shard [] small_key ≡ ok shard) × (2 * shard.block_size ≤ 80)
unfolding open_shard opened grow_modulus from_be
small_shard = (
  record { dat = []; key = small_key; salt = 0; block_size = 40; num_buckets = 1; modulus = 1 },
  refl,
  omega arith,
)

-- A stand-in for xxh64.
abbrev seeded : List ℕ → ℕ → ℕ
seeded bytes seed = length bytes * 2 ^ 20 + seed

fetch-open_shard_example :
    let shard = small_shard.0 in
    let nhash = seeded (replicate 32 1) shard.salt / 2 ^ 16 in
    let i = bucket_index shard.num_buckets shard.modulus nhash in
    let block = take shard.block_size (drop (shard.block_size * (i + 1)) small_key) in
    (i < shard.num_buckets)
    × (length block ≡ shard.block_size)
    × (fetch seeded 1 shard (replicate 32 1) ≡ fetch_loop 1 [] (replicate 32 1) nhash block)
fetch-open_shard_example =
    fetch-open_shard seeded [] small_key small_shard.0 (replicate 32 1) 1 small_shard.1
      small_shard.2 (omega arith)

-- Two records, of keys that share their hash.
abbrev record_bytes : ℕ → ℕ → List ℕ
record_bytes key value = (0 ∷ 0 ∷ 0 ∷ 0 ∷ 0 ∷ 1 ∷ []) ++ (replicate 32 key ++ (value ∷ []))

abbrev dat : List ℕ
dat = record_bytes 1 50 ++ record_bytes 2 60

abbrev two_entries : List PlacedEntry
two_entries =
    record { nhash = 9; offset = 0; size = 1 } ∷ record { nhash = 9; offset = 39; size = 1 } ∷ []

placed-IsEntry :
    (offset : ℕ) → offset < 2 ^ 48 → IsEntry (record { nhash = 9; offset = offset; size = 1 })
placed-IsEntry offset h = record { nhash = omega arith; offset = h; size = omega arith }

probe_block-write_bucket_into_example :
    probe_block dat (replicate 32 2) 9 (write_bucket_into two_entries 0 ++ replicate 4 0)
    ≡ probe_of 0 (lookup dat (replicate 32 2) 9 two_entries)
probe_block-write_bucket_into_example =
    probe_block-write_bucket_into dat (replicate 32 2) 9 two_entries 0 (replicate 4 0)
      (placed-IsEntry 0 (omega arith), (placed-IsEntry 39 (omega arith), tt)) (omega arith)
      (omega arith)

-- The second record is the one of the key.
lookup_test : lookup dat (replicate 32 2) 9 two_entries ≡ ok (some (60 ∷ []))
unfolding lookup visit read_record read_exact_at
lookup_test = refl
