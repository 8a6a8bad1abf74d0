-- ===== src/Keyfile/Primary.antt =====
-- What `Shard::open` of crates/xrla-nudb/src/keyfile.rs accepts, and the first read of `Shard::fetch`.
use xrpl_ledger_archive.Keyfile.Buckets.{bucket_index_bound}
use xrpl_ledger_archive.Keyfile.Shard.{read_exact_at}
use xrpl_ledger_archive.Node.{Hash256}
use xrpl_ledger_archive.Keyfile.{grow_modulus, bucket_index}
use xrpl_ledger_archive.Prelude.Bytes.{from_be}
use xrpl_ledger_archive.Keyfile.Fetch.{opened, open_shard, OpenShard, key_magic, fetch, fetch_loop}
use xrpl_ledger_archive.Prelude.{
  none, some, false, List, ℕ, Option, ◌≡◌, ◌<◌, if-cases, refl, length, ltb, ◌+◌, not, ◌^◌, list_eq,
  ◌-◌, take, ◌%◌, ◌/◌, drop, ◌==◌, subst, ◌≤◌, arith, ◌*◌, ◌∙◌, ap, sym, le→ltb, length-take,
  length-drop,
}
use xrpl_ledger_archive.Prelude.Parser.{ok}
use native.Mathlib.Nat.{mul-div-le, le-div_iff_mul-le, mul-le-mul_left, mul-le-mul_right, mul-add}

-- What a shard that was opened says of its key file.
pub record Opens (dat key : List ℕ) (shard : OpenShard) : Type 0 where
  pub same_dat : shard.dat ≡ dat
  pub same_key : shard.key ≡ key
  pub nonzero : 0 < shard.block_size
  pub count :
      shard.num_buckets ≡ ((length key + 2 ^ 64 - shard.block_size) % 2 ^ 64) / shard.block_size
  pub grown : grow_modulus 63 shard.num_buckets 1 ≡ some shard.modulus

opened-fields :
    (dat key : List ℕ) (salt block_size num_buckets : ℕ) (grown : Option ℕ) (shard : OpenShard)
    → opened dat key salt block_size num_buckets grown ≡ ok shard
    → (modulus : ℕ) × (grown ≡ some modulus)
      × (record {
        dat = dat;
        key = key;
        salt = salt;
        block_size = block_size;
        num_buckets = num_buckets;
        modulus = modulus;
      }
          ≡ shard)
unfolding opened
opened-fields dat key salt block_size num_buckets none shard e = cc e
opened-fields dat key salt block_size num_buckets (some modulus) shard e = (modulus, refl, cc e)

pos_of_nonzero : (n : ℕ) → (n == 0) ≡ false → 0 < n
pos_of_nonzero n h = ground arith

Opens-open_shard :
    (dat key : List ℕ) (shard : OpenShard) → open_shard dat key ≡ ok shard → Opens dat key shard
unfolding open_shard
Opens-open_shard dat key shard e =
    if-cases (ltb (length key) 64) e (λ _ x. cc x)
      λ long e1.
        if-cases (not (list_eq (take 8 (take 64 key)) key_magic)) e1 (λ _ x. cc x)
          λ magic e2.
            if-cases (not (from_be (take 2 (drop 26 (take 64 key))) == 32)) e2 (λ _ x. cc x)
              λ size e3.
                if-cases (from_be (take 2 (drop 44 (take 64 key))) == 0) e3 (λ _ x. cc x)
                  λ nonzero e4.
                    let (modulus, grown, same) = opened-fields dat key _ _ _ _ shard e4 in
                    subst (Opens dat key) same (record {
                      same_dat = refl;
                      same_key = refl;
                      nonzero = pos_of_nonzero _ nonzero;
                      count = refl;
                      grown = grown;
                    })

bucket_index-lt :
    (num_buckets modulus nhash : ℕ)
    → 0 < num_buckets
    → num_buckets ≤ 2 ^ 63
    → grow_modulus 63 num_buckets 1 ≡ some modulus
    → bucket_index num_buckets modulus nhash < num_buckets
bucket_index-lt num_buckets modulus nhash pos few grown =
    let (m, e, im, bound) = bucket_index_bound num_buckets nhash pos few in
    let same : m ≡ modulus = cc (e, grown) in
    subst (λ x. bucket_index num_buckets x nhash < num_buckets) same bound

-- The bucket of every hash lies within the file.
bucket_fits :
    (dat key : List ℕ) (shard : OpenShard) (nhash : ℕ)
    → open_shard dat key ≡ ok shard
    → 2 * shard.block_size ≤ length key
    → length key < 2 ^ 63
    → let i = bucket_index shard.num_buckets shard.modulus nhash in
      (i < shard.num_buckets) × (shard.block_size * (i + 1) + shard.block_size ≤ length shard.key)
bucket_fits dat key shard nhash e two low =
    let o = Opens-open_shard dat key shard e in
    let b = shard.block_size in
    let n = shard.num_buckets in
    let i = bucket_index n shard.modulus nhash in
    let room : (length key + 2 ^ 64 - b) % 2 ^ 64 ≡ length key - b = omega (arith, two, low) in
    let count : n ≡ (length key - b) / b = o.count ∙ ap (λ x. x / b) room in
    let one : 1 ≤ n =
      subst (λ x. 1 ≤ x) (sym count)
        ((le-div_iff_mul-le {k = b} {x = 1} {y = length key - b} o.nonzero).1
          (omega (arith, two))) in
    let covered : b * n ≤ length key - b =
      subst (λ x. b * x ≤ length key - b) (sym count) (mul-div-le (length key - b) b) in
    let small : n ≤ b * n = omega (arith, mul-le-mul_right {m = 1} {n = b} n o.nonzero) in
    let bound =
      bucket_index-lt n shard.modulus nhash one (omega (arith, small, covered, low)) o.grown in
    let inside : b * (i + 2) ≤ b * (n + 1) = mul-le-mul_left b (omega (arith, bound)) in
    let fits : b * (i + 1) + b ≤ length shard.key = omega (
      arith,
      inside,
      covered,
      two,
      mul-add b i 2,
      mul-add b i 1,
      mul-add b n 1,
      ap length o.same_key,
    ) in
    (bound, fits)

-- Of a key file that `Shard::open` accepts, with room for its header and one bucket and of fewer than
-- 2 ^ 63 bytes: whatever the hash of a key is, it has one of the buckets that `open` counted, and
-- `fetch` does not fail to read it: it goes on with the whole block of that bucket behind the header.
pub fetch-open_shard :
    (xxh64 : List ℕ → ℕ → ℕ) (dat key : List ℕ) (shard : OpenShard) (hash : Hash256) (fuel : ℕ)
    → open_shard dat key ≡ ok shard
    → 2 * shard.block_size ≤ length key
    → length key < 2 ^ 63
    → let nhash = xxh64 hash shard.salt / 2 ^ 16 in
      let i = bucket_index shard.num_buckets shard.modulus nhash in
      let block = take shard.block_size (drop (shard.block_size * (i + 1)) key) in
      (i < shard.num_buckets)
      × (length block ≡ shard.block_size)
      × (fetch xxh64 fuel shard hash ≡ fetch_loop fuel dat hash nhash block)
unfolding fetch read_exact_at
fetch-open_shard xxh64 dat key shard hash fuel e two low =
    let o = Opens-open_shard dat key shard e in
    let b = shard.block_size in
    let nhash = xxh64 hash shard.salt / 2 ^ 16 in
    let at = b * (bucket_index shard.num_buckets shard.modulus nhash + 1) in
    let (bound, fits) = bucket_fits dat key shard nhash e two low in
    (
      bound,
      omega (arith, length-take b (drop at key), length-drop at key, fits, ap length o.same_key),
      rw (fetch, le→ltb (length shard.key) (at + b) fits, o.same_key, o.same_dat) refl,
    )
