-- ===== src/Sink/Tables.antt =====
-- The bucket table that `NuDbSink::finish` of crates/xrla-nudb/src/writer.rs builds: the entries by
-- their buckets, the spill chains behind the data, and the bytes of the key file.
use xrpl_ledger_archive.Disk.{write_file, FilePath, Files}
use xrpl_ledger_archive.Sink.{finish_swap, SinkFaults, NuDbSink, SinkError}
use xrpl_ledger_archive.Prelude.Parser.{write_all, Result}
use mathlib.Core.List.{reverse}
use xrpl_ledger_archive.Prelude.{none, some}
use xrpl_ledger_archive.Prelude.Bytes.{be_bytes}
use xrpl_ledger_archive.Prelude.Sort.{sort_by}
use xrpl_ledger_archive.Keyfile.{bucket_index, grow_modulus}
use xrpl_ledger_archive.Sink.Nodes.{SinkData}
use xrpl_ledger_archive.Keyfile.Fetch.{key_magic}
use xrpl_ledger_archive.Keyfile.Shard.{PlacedEntry, write_bucket_into}
use xrpl_ledger_archive.Prelude.{
  ℕ, List, ◌*◌, ◌∷◌, [], ◌+◌, length, if◌then◌else◌, ◌/◌, ◌++◌, ltb, Option, suc, ◌==◌, take,
  replicate, drop, zero, ◌%◌, ◌-◌, ◌^◌,
}

-- `self.salt`
abbrev pub sink_salt : ℕ
sink_salt = 6364233066966305857

abbrev pub bucket_capacity : ℕ
bucket_capacity = 227

-- The quotient by 113.5, rounded up, but 1 at least. The source computes it in f64, which is exact
-- for fewer than 2 ^ 44 entries.
unfoldable pub bucket_count : ℕ → ℕ
bucket_count placed = let n = (2 * placed + 226) / 227 in if n == 0 then 1 else n

-- `buckets[i].push(entry)`
unfoldable pub push_at : List (List PlacedEntry) → ℕ → PlacedEntry → List (List PlacedEntry)
push_at [] i entry = []
push_at (b ∷ bs) zero entry = (b ++ (entry ∷ [])) ∷ bs
push_at (b ∷ bs) (suc i) entry = b ∷ push_at bs i entry

unfoldable pub distribute :
    ℕ → ℕ → List PlacedEntry → List (List PlacedEntry) → List (List PlacedEntry)
distribute num_buckets modulus [] buckets = buckets
distribute num_buckets modulus (entry ∷ entries) buckets =
    distribute num_buckets modulus entries
      (push_at buckets (bucket_index num_buckets modulus entry.nhash) entry)

abbrev pub by_nhash : PlacedEntry → List ℕ
by_nhash entry = entry.nhash ∷ []

-- `overflow.chunks(BUCKET_CAPACITY)`; there are not more chunks than entries.
unfoldable pub chunks_of : ℕ → List PlacedEntry → List (List PlacedEntry)
chunks_of zero entries = []
chunks_of (suc n) [] = []
chunks_of (suc n) (e ∷ es) =
    take bucket_capacity (e ∷ es) ∷ chunks_of n (drop bucket_capacity (e ∷ es))

-- The data file, its length as the sink counts it, and the last spill record's body.
pub record Spills : Type 0 where
  pub dat : List ℕ
  pub offset : ℕ
  pub next_spill : ℕ

-- One round of `write_spill_chain`.
unfoldable pub write_spill : List PlacedEntry → Spills → Spills
write_spill chunk s =
    let body_len = 8 + length chunk * 18 in
    record {
      dat =
          s.dat
          ++ (replicate 6 0
              ++ (be_bytes 2 (body_len % 2 ^ 16) ++ write_bucket_into chunk s.next_spill));
      offset = (s.offset + (8 + body_len)) % 2 ^ 64;
      next_spill = (s.offset + 8) % 2 ^ 64;
    }

-- The last chunk is written first.
unfoldable pub write_chunks : List (List PlacedEntry) → Spills → Spills
write_chunks [] s = s
write_chunks (c ∷ cs) s = write_spill c (write_chunks cs s)

unfoldable pub write_spill_chain : List PlacedEntry → Spills → Spills
unfolding write_chunks chunks_of
write_spill_chain overflow s =
    write_chunks (chunks_of (length overflow) overflow) (record s { next_spill = 0 })

-- A bucket of the key file, and where its spill chain begins.
pub record Block : Type 0 where
  pub entries : List PlacedEntry
  pub spill : ℕ

-- A bucket that is too long keeps its first entries. Its spill offset is 0 if nothing spills.
unfoldable pub spill_bucket : List PlacedEntry → Spills → Spills
spill_bucket sorted s =
    if ltb bucket_capacity (length sorted)
    then write_spill_chain (drop bucket_capacity sorted) s
    else record s { next_spill = 0 }

unfoldable pub spill_buckets : List (List PlacedEntry) → Spills → List Block × Spills
spill_buckets [] s = ([], s)
spill_buckets (b ∷ bs) s =
    let sorted = sort_by by_nhash b in
    let s' = spill_bucket sorted s in
    let rest = spill_buckets bs s' in
    (record { entries = take bucket_capacity sorted; spill = s'.next_spill } ∷ rest.0, rest.1)

unfoldable pub write_bucket_block : Block → List ℕ
write_bucket_block block =
    let bytes = write_bucket_into block.entries block.spill in
    bytes ++ replicate (4096 - length bytes) 0

module _ (xxh64 : List ℕ → ℕ → ℕ) where
  unfoldable pub write_key_header : ℕ → ℕ → ℕ → ℕ → List ℕ
  write_key_header version uid appnum salt =
      key_magic
      ++ (be_bytes 2 version
          ++ (be_bytes 8 uid
              ++ (be_bytes 8 appnum
                  ++ (be_bytes 2 32
                      ++ (be_bytes 8 salt
                          ++ (be_bytes 8 (xxh64 (reverse (be_bytes 8 salt)) salt)
                              ++ (be_bytes 2 4096 ++ (be_bytes 2 32768 ++ replicate 4048 0))))))))

  -- The data file and the key file, as `finish` has them before it swaps them in; none if the loop
  -- of the modulus does not end.
  unfoldable pub finish_tables : SinkData → Option (List ℕ × List ℕ)
  unfolding write_key_header bucket_count
  finish_tables sink =
      let num_buckets = bucket_count (length sink.placed) in
      elim (grow_modulus 63 num_buckets 1) [
        | none ↦ none
        | some modulus ↦
            let buckets = distribute num_buckets modulus sink.placed (replicate num_buckets []) in
            let (blocks, s) =
              spill_buckets buckets
                (record { dat = sink.dat; offset = sink.offset; next_spill = 0 }) in
            some (s.dat, write_key_header 2 1 1 sink_salt ++ write_all write_bucket_block blocks)
      ]

  -- The whole of `finish`, over files in which the data is at its temporary path once it is flushed.
  unfoldable pub finish_sink :
      SinkFaults
      → NuDbSink
      → FilePath
      → SinkData
      → Files
      → Option (Result SinkError (Unit {0}) × Files)
  unfolding finish_tables finish_swap write_file
  finish_sink faults sink key_path made fs = elim (finish_tables made) [
    | none ↦ none
    | some (dat, file) ↦
        some (finish_swap faults sink key_path file (write_file sink.dat_tmp dat fs))
  ]
