-- ===== src/Sink/Fetched.antt =====
-- A store that `write_nudb_store` of crates/xrla-nudb/src/writer.rs writes, as `Shard` of
-- crates/xrla-nudb/src/keyfile.rs reads it.
use xrpl_ledger_archive.Sink.Opened.{
  Matches-IsSized, Matches-at, read_exact_at-block, length-write_key_header,
  open_shard-write_key_header, IsSized,
}
use xrpl_ledger_archive.Sink.Sized.{spill_buckets-size, joined-distribute, joined-replicate}
use xrpl_ledger_archive.Sink.Nodes.{SinkData}
use xrpl_ledger_archive.Sink.Spilled.{length-chunks_of, joined-chunks_of, length-chunks_of, Extends}
use xrpl_ledger_archive.Keyfile.Chain.{joined, fetch_loop-IsChain}
use xrpl_ledger_archive.Sink.Blocks.{IsBlock, overflow, spill_buckets-Matches, Matches}
use xrpl_ledger_archive.Keyfile.Search.{lookup-same_hash}
use xrpl_ledger_archive.Prelude.Sort.{sort_by, length-sort_by}
use xrpl_ledger_archive.Keyfile.{bucket_index, grow_modulus}
use xrpl_ledger_archive.Sink.Stored.{Within}
use xrpl_ledger_archive.Sink.Buckets.{
  in_bucket, same_hash-sort_by, same_hash-in_bucket, All-distribute, length-distribute,
  get_elem?-distribute, length-in_bucket,
}
use xrpl_ledger_archive.Keyfile.Lookup.{IsEntry, lookup}
use xrpl_ledger_archive.Keyfile.Fetch.{fetch, OpenShard, in_spill, fetch_loop, open_shard}
use xrpl_ledger_archive.Node.{Hash256}
use xrpl_ledger_archive.Sink.Tables.{
  bucket_count, write_bucket_block, Block, by_nhash, bucket_capacity, finish_tables, sink_salt,
  distribute, Spills, spill_buckets, write_key_header,
}
use xrpl_ledger_archive.Keyfile.Shard.{PlacedEntry, read_exact_at, write_bucket_into}
use xrpl_ledger_archive.Prelude.{
  some, ℕ, List, ◌<◌, All, ◌^◌, get_elem?, arith, replicate, ◌∷◌, [], ◌≡◌, ◌/◌, suc, zero, ◌*◌,
  refl, ◌∙◌, ◌+◌, ap, length, drop, sym, ◌++◌, take, take-append-drop, ◌-◌, length-drop,
  length-replicate, subst,
}
use xrpl_ledger_archive.Prelude.Parser.{ok, write_all}

abbrev pub HasHash : PlacedEntry → Type 0
HasHash entry = entry.nhash < 2 ^ 48

pub IsEntry-Within :
    (n : ℕ) (es : List PlacedEntry)
    → n < 2 ^ 48
    → All (Within n) es
    → All HasHash es
    → All IsEntry es
IsEntry-Within n [] low w h = tt
IsEntry-Within n (e ∷ es) low w h = (
  record { nhash = h.0; offset = omega (arith, w.0); size = omega (arith, w.0) },
  IsEntry-Within n es low w.1 h.1,
)

pub bucket_count-bounds :
    (placed : ℕ) → placed < 2 ^ 44 → (0 < bucket_count placed) × (bucket_count placed < 2 ^ 48)
unfolding bucket_count
bucket_count-bounds placed h = ground (arith, h)

get_elem?-replicate :
    (n i : ℕ) → i < n → get_elem? (replicate {A = List PlacedEntry} n []) i ≡ some []
get_elem?-replicate zero i h = absurd (omega arith)
get_elem?-replicate (suc n) zero h = refl
get_elem?-replicate (suc n) (suc i) h = get_elem?-replicate n i (omega arith)

All-replicate : (n : ℕ) → All (All IsEntry) (replicate {A = List PlacedEntry} n [])
All-replicate zero = tt
All-replicate (suc n) = (tt, All-replicate n)

-- The search of a sorted bucket is the search of all entries.
lookup-sorted :
    (dat : List ℕ) (key : Hash256) (nhash num_buckets modulus : ℕ) (es : List PlacedEntry)
    → let b = in_bucket num_buckets modulus (bucket_index num_buckets modulus nhash) es in
      lookup dat key nhash (sort_by by_nhash b) ≡ lookup dat key nhash es
lookup-sorted dat key nhash num_buckets modulus es =
    let b = in_bucket num_buckets modulus (bucket_index num_buckets modulus nhash) es in
    lookup-same_hash dat key nhash (sort_by by_nhash b)
    ∙ ap (lookup dat key nhash)
        (same_hash-sort_by nhash b ∙ same_hash-in_bucket num_buckets modulus nhash es)
    ∙ sym (lookup-same_hash dat key nhash es)

abbrev start_of : SinkData → Spills
start_of sink = record { dat = sink.dat; offset = sink.offset; next_spill = 0 }

-- The buckets of a sink's entries.
abbrev buckets_of : ℕ → ℕ → SinkData → List (List PlacedEntry)
buckets_of n modulus sink = distribute n modulus sink.placed (replicate {A = List PlacedEntry} n [])

-- The blocks of the key file: one for each bucket, behind data that only grows.
spill_buckets-buckets_of :
    (sink : SinkData) (n modulus : ℕ)
    → sink.offset ≡ length sink.dat
    → All IsEntry sink.placed
    → length sink.dat + 34 * length sink.placed < 2 ^ 48
    → let r = spill_buckets (buckets_of n modulus sink) (start_of sink) in
      Extends (start_of sink) r.1
      × Matches r.1.dat (buckets_of n modulus sink) r.0
      × All IsSized r.0
      × (length r.0 ≡ n)
spill_buckets-buckets_of sink n modulus counted fit room =
    let empty = replicate {A = List PlacedEntry} n [] in
    let buckets = buckets_of n modulus sink in
    let r = spill_buckets buckets (start_of sink) in
    let (grows, matches) =
      spill_buckets-Matches buckets (start_of sink)
        (All-distribute n modulus sink.placed empty fit (All-replicate n)) counted
        (omega (
          arith,
          room,
          spill_buckets-size buckets (start_of sink),
          joined-distribute n modulus sink.placed empty,
          joined-replicate n,
        )) in
    let (sized, count) = Matches-IsSized r.1.dat buckets r.0 matches in
    (
      grows,
      matches,
      sized,
      count
          ∙ length-distribute n modulus sink.placed empty
          ∙ length-replicate {A = List PlacedEntry} n [],
    )

module _ (xxh64 : List ℕ → ℕ → ℕ) where
  -- A bucket that is read from the key file, with its chain, is searched as its entries are.
  fetch-IsBlock :
      (fuel : ℕ) (shard : OpenShard) (key : Hash256) (b : List PlacedEntry) (block : Block)
      → let nhash = xxh64 key shard.salt / 2 ^ 16 in
        read_exact_at shard.key
            (shard.block_size * (bucket_index shard.num_buckets shard.modulus nhash + 1))
            shard.block_size
          ≡ ok (write_bucket_block block)
        → IsBlock shard.dat b block
        → length b < fuel
        → fetch xxh64 fuel shard key
          ≡ lookup shard.dat key (xxh64 key shard.salt / 2 ^ 16) (sort_by by_nhash b)
  unfolding fetch write_bucket_block
  fetch-IsBlock fuel shard key b block there k l =
      let sorted = sort_by by_nhash b in
      let rest = drop bucket_capacity sorted in
      let all : block.entries ++ joined (overflow sorted) ≡ sorted =
        ap (λ xs. xs ++ joined (overflow sorted)) k.first
        ∙ ap (λ xs. take bucket_capacity sorted ++ xs)
            (joined-chunks_of (length rest) rest (omega arith))
        ∙ take-append-drop bucket_capacity sorted in
      ap (in_spill (fetch_loop fuel shard.dat key (xxh64 key shard.salt / 2 ^ 16))) there
      ∙ fetch_loop-IsChain fuel shard.dat key (xxh64 key shard.salt / 2 ^ 16) block.entries
          block.spill (replicate (4096 - length (write_bucket_into block.entries block.spill)) 0)
          (overflow sorted) k.bucket k.low k.chain
          (omega (
            arith,
            l,
            length-chunks_of (length rest) rest,
            length-drop bucket_capacity sorted,
            length-sort_by by_nhash b,
          ))
      ∙ ap (lookup shard.dat key (xxh64 key shard.salt / 2 ^ 16)) all

  -- What `finish` makes of a sink, and how a key is found in it.
  pub record Finished (sink : SinkData) (fuel : ℕ) (key : Hash256) : Type 0 where
    pub dat : List ℕ
    pub file : List ℕ
    pub shard : OpenShard
    pub more : List ℕ
    pub made : finish_tables xxh64 sink ≡ some (dat, file)
    pub behind : dat ≡ sink.dat ++ more
    pub opens : open_shard dat file ≡ ok shard
    pub fetched :
        fetch xxh64 fuel shard key ≡ lookup dat key (xxh64 key sink_salt / 2 ^ 16) sink.placed

  pub finish_tables-Finished :
      (sink : SinkData) (fuel : ℕ) (key : Hash256) (modulus : ℕ)
      → grow_modulus 63 (bucket_count (length sink.placed)) 1 ≡ some modulus
      → bucket_index (bucket_count (length sink.placed)) modulus (xxh64 key sink_salt / 2 ^ 16)
        < bucket_count (length sink.placed)
      → bucket_count (length sink.placed) < 2 ^ 48
      → sink.offset ≡ length sink.dat
      → All IsEntry sink.placed
      → length sink.dat + 34 * length sink.placed < 2 ^ 48
      → length sink.placed < fuel
      → Finished sink fuel key
  unfolding finish_tables
  finish_tables-Finished sink fuel key modulus grown bound low counted fit room l =
      let n = bucket_count (length sink.placed) in
      let nhash = xxh64 key sink_salt / 2 ^ 16 in
      let i = bucket_index n modulus nhash in
      let buckets = buckets_of n modulus sink in
      let r = spill_buckets buckets (start_of sink) in
      let (grows, matches, sized, blocks) =
        spill_buckets-buckets_of sink n modulus counted fit room in
      let (block, at_i, is_block) =
        Matches-at r.1.dat buckets r.0 i (in_bucket n modulus i sink.placed) matches
          (get_elem?-distribute n modulus sink.placed _ i [] (get_elem?-replicate n i bound)) in
      let header = write_key_header xxh64 2 1 1 sink_salt in
      let shard : ℕ → OpenShard = λ num_buckets. record {
        dat = r.1.dat;
        key = header ++ write_all write_bucket_block r.0;
        salt = sink_salt;
        block_size = 4096;
        num_buckets = num_buckets;
        modulus = modulus;
      } in
      record {
        dat = r.1.dat;
        file = header ++ write_all write_bucket_block r.0;
        shard = shard n;
        more = grows.more;
        made = rw (finish_tables, grown) refl;
        behind = grows.appended;
        opens =
            subst
              (λ m. open_shard r.1.dat (header ++ write_all write_bucket_block r.0) ≡ ok (shard m))
              blocks
              (open_shard-write_key_header xxh64 r.1.dat r.0 modulus sized
                (omega (arith, blocks, low)) (ap (λ m. grow_modulus 63 m 1) blocks ∙ grown));
        fetched =
            fetch-IsBlock fuel (shard n) key (in_bucket n modulus i sink.placed) block
              (read_exact_at-block header r.0 i (4096 * (i + 1)) block
                (omega (arith, length-write_key_header xxh64)) sized at_i)
              is_block (omega (arith, l, length-in_bucket n modulus i sink.placed))
            ∙ lookup-sorted r.1.dat key nhash n modulus sink.placed;
      }
