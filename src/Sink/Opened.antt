-- ===== src/Sink/Opened.antt =====
-- The key file of `NuDbSink::finish`, crates/xrla-nudb/src/writer.rs, as `Shard::open` and
-- `Shard::fetch` of crates/xrla-nudb/src/keyfile.rs read it.
use xrpl_ledger_archive.Prelude.Sort.{sort_by}
use xrpl_ledger_archive.Keyfile.Lookup.{length-write_bucket_into}
use xrpl_ledger_archive.Sink.Stored.{read_exact_at-middle}
use xrpl_ledger_archive.Keyfile.{grow_modulus}
use xrpl_ledger_archive.Prelude.Bytes.{be_bytes, from_be}
use xrpl_ledger_archive.Keyfile.Fetch.{open_shard, key_magic, opened}
use xrpl_ledger_archive.Keyfile.Shard.{PlacedEntry, write_bucket_into, read_exact_at}
use xrpl_ledger_archive.Sink.Blocks.{Matches, IsBlock}
use xrpl_ledger_archive.Sink.Tables.{
  Block, write_bucket_block, write_key_header, sink_salt, bucket_capacity, by_nhash,
}
use xrpl_ledger_archive.Prelude.{
  some, false, List, length, ℕ, All, ◌≡◌, get_elem?, ◌+◌, ◌*◌, ◌<◌, [], ◌∷◌, ◌^◌, arith, ap, subst,
  ◌++◌, length-append, suc, length-replicate, replicate, sym, ltb, refl, zero, ◌-◌, append_assoc,
  le→ltb, ◌%◌, length-take, ◌/◌, take, drop,
}
use xrpl_ledger_archive.Prelude.Parser.{ok, write_all}

-- The block of a bucket fills its place in the key file.
abbrev pub IsSized : Block → Type 0
IsSized block = length (write_bucket_block block) ≡ 4096

IsSized-IsBlock :
    (dat : List ℕ) (b : List PlacedEntry) (block : Block) → IsBlock dat b block → IsSized block
unfolding write_bucket_block
IsSized-IsBlock dat b block k =
    let bytes = write_bucket_into block.entries block.spill in
    omega (
      arith,
      length-append bytes (replicate (4096 - length bytes) 0),
      length-replicate {A = ℕ} (4096 - length bytes) 0,
      length-write_bucket_into block.entries block.spill,
      ap length k.first,
      length-take bucket_capacity (sort_by by_nhash b),
    )

pub Matches-IsSized :
    (dat : List ℕ) (bs : List (List PlacedEntry)) (blocks : List Block)
    → Matches dat bs blocks
    → All IsSized blocks × (length blocks ≡ length bs)
unfolding Matches
Matches-IsSized dat [] [] k = (tt, refl)
Matches-IsSized dat [] (block ∷ blocks) k = absurd k
Matches-IsSized dat (b ∷ bs) [] k = absurd k
Matches-IsSized dat (b ∷ bs) (block ∷ blocks) k =
    let (sized, e) = Matches-IsSized dat bs blocks k.1 in
    ((IsSized-IsBlock dat b block k.0, sized), ap suc e)

pub Matches-at :
    (dat : List ℕ) (bs : List (List PlacedEntry)) (blocks : List Block) (i : ℕ)
    (b : List PlacedEntry)
    → Matches dat bs blocks
    → get_elem? bs i ≡ some b
    → (block : Block) × (get_elem? blocks i ≡ some block) × IsBlock dat b block
unfolding Matches
Matches-at dat [] blocks i b k e = cc e
Matches-at dat (c ∷ bs) [] i b k e = absurd k
Matches-at dat (c ∷ bs) (block ∷ blocks) zero b k e =
    let same : c ≡ b = cc e in (block, refl, subst (λ x. IsBlock dat x block) same k.0)
Matches-at dat (c ∷ bs) (block ∷ blocks) (suc i) b k e = Matches-at dat bs blocks i b k.1 e

-- The block of a bucket is read at its place.
pub read_exact_at-block :
    (before : List ℕ) (blocks : List Block) (i offset : ℕ) (block : Block)
    → offset ≡ length before + 4096 * i
    → All IsSized blocks
    → get_elem? blocks i ≡ some block
    → read_exact_at (before ++ write_all write_bucket_block blocks) offset 4096
      ≡ ok (write_bucket_block block)
unfolding write_all
read_exact_at-block before [] i offset block at_offset sized e = cc e
read_exact_at-block before (c ∷ cs) zero offset block at_offset sized e =
    let same : c ≡ block = cc e in
    subst
      (λ x.
        read_exact_at (before ++ (write_bucket_block c ++ write_all write_bucket_block cs)) offset
          4096
        ≡ ok (write_bucket_block x))
      same
      (read_exact_at-middle before (write_bucket_block c) (write_all write_bucket_block cs) offset
        4096 (omega (arith, at_offset)) (sym sized.0))
read_exact_at-block before (c ∷ cs) (suc i) offset block at_offset sized e =
    subst (λ xs. read_exact_at xs offset 4096 ≡ ok (write_bucket_block block))
      (append_assoc before (write_bucket_block c) (write_all write_bucket_block cs))
      (read_exact_at-block (before ++ write_bucket_block c) cs i offset block
        (omega (arith, at_offset, length-append before (write_bucket_block c), sized.0)) sized.1 e)

length-write_blocks :
    (blocks : List Block)
    → All IsSized blocks
    → length (write_all write_bucket_block blocks) ≡ 4096 * length blocks
unfolding write_all
length-write_blocks [] sized = refl
length-write_blocks (b ∷ bs) sized = omega (
  arith,
  length-append (write_bucket_block b) (write_all write_bucket_block bs),
  sized.0,
  length-write_blocks bs sized.1,
)

open_shard-fields :
    (dat key : List ℕ) (num_buckets modulus salt : ℕ)
    → ltb (length key) 64 ≡ false
    → take 8 (take 64 key) ≡ key_magic
    → from_be (take 2 (drop 26 (take 64 key))) ≡ 32
    → from_be (take 2 (drop 44 (take 64 key))) ≡ 4096
    → from_be (take 8 (drop 28 (take 64 key))) ≡ salt
    → ((length key + 2 ^ 64 - 4096) % 2 ^ 64) / 4096 ≡ num_buckets
    → grow_modulus 63 num_buckets 1 ≡ some modulus
    → open_shard dat key
      ≡ ok (record {
        dat = dat;
        key = key;
        salt = salt;
        block_size = 4096;
        num_buckets = num_buckets;
        modulus = modulus;
      })
unfolding open_shard
open_shard-fields dat key num_buckets modulus salt long magic key_size block_size salt_read count
      grown =
    rw (open_shard, long, magic, key_size, block_size, salt_read, count, grown)
      (unfold opened in refl)

module _ (xxh64 : List ℕ → ℕ → ℕ) where
  pub length-write_key_header : length (write_key_header xxh64 2 1 1 sink_salt) ≡ 4096
  unfolding write_key_header be_bytes
  length-write_key_header = omega (arith, length-replicate {A = ℕ} 4048 0)

  -- `Shard::open` reads the header, and counts the blocks that follow it.
  pub open_shard-write_key_header :
      (dat : List ℕ) (blocks : List Block) (modulus : ℕ)
      → All IsSized blocks
      → length blocks < 2 ^ 48
      → grow_modulus 63 (length blocks) 1 ≡ some modulus
      → let key = write_key_header xxh64 2 1 1 sink_salt ++ write_all write_bucket_block blocks in
        open_shard dat key
        ≡ ok (record {
          dat = dat;
          key = key;
          salt = sink_salt;
          block_size = 4096;
          num_buckets = length blocks;
          modulus = modulus;
        })
  open_shard-write_key_header dat blocks modulus sized few grown =
      let key = write_key_header xxh64 2 1 1 sink_salt ++ write_all write_bucket_block blocks in
      let size : length key ≡ 4096 + 4096 * length blocks = omega (
        arith,
        length-append (write_key_header xxh64 2 1 1 sink_salt)
            (write_all write_bucket_block blocks),
        length-write_key_header,
        length-write_blocks blocks sized,
      ) in
      let long : ltb (length key) 64 ≡ false = le→ltb (length key) 64 (omega (arith, size)) in
      let count : ((length key + 2 ^ 64 - 4096) % 2 ^ 64) / 4096 ≡ length blocks =
        omega (arith, size, few) in
      let magic : take 8 (take 64 key) ≡ key_magic = unfold write_key_header be_bytes in refl in
      let key_size : from_be (take 2 (drop 26 (take 64 key))) ≡ 32 =
        unfold write_key_header be_bytes from_be in refl in
      let block_size : from_be (take 2 (drop 44 (take 64 key))) ≡ 4096 =
        unfold write_key_header be_bytes from_be in refl in
      let salt : from_be (take 8 (drop 28 (take 64 key))) ≡ sink_salt =
        unfold write_key_header be_bytes from_be in refl in
      open_shard-fields dat key (length blocks) modulus sink_salt long magic key_size block_size
        salt count grown
