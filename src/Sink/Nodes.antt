-- ===== src/Sink/Nodes.antt =====
-- `NuDbSink::create` and `NuDbSink::write_node` of crates/xrla-nudb/src/writer.rs: the data file
-- and the entries that are placed for it.
use xrpl_ledger_archive.Node.{Hash256}
use xrpl_ledger_archive.Prelude.{
  List, [], ℕ, Bool, false, if◌then◌else◌, ◌∷◌, ◌++◌, list_eq, ◌+◌, true, length, ◌%◌, ◌^◌,
}
use xrpl_ledger_archive.Dat.Scan.{write_dat_header, write_record}
use xrpl_ledger_archive.Keyfile.Shard.{PlacedEntry}

-- The fields of the sink that a node changes. `dat` is what went into the data file.
pub record SinkData : Type 0 where
  pub dat : List ℕ
  pub offset : ℕ
  pub seen : List Hash256
  pub placed : List PlacedEntry

unfoldable pub contains : List Hash256 → Hash256 → Bool
contains [] hash = false
contains (h ∷ hs) hash = if list_eq h hash then true else contains hs hash

unfoldable pub create_sink : SinkData
unfolding write_dat_header
create_sink = record { dat = write_dat_header 2 1 1; offset = 92; seen = []; placed = [] }

-- `xxh64(&hash, salt) >> 16`, of the crate `xxhash_rust`.
module _ (nhash_of : Hash256 → ℕ) where
  -- A hash that was seen is skipped; the offset is a u64.
  unfoldable pub write_node : Hash256 → List ℕ → SinkData → SinkData
  unfolding contains write_record
  write_node hash value sink = if contains sink.seen hash then sink else record {
    dat = sink.dat ++ write_record (hash, value);
    offset = (sink.offset + (6 + 32 + length value)) % 2 ^ 64;
    seen = hash ∷ sink.seen;
    placed =
        sink.placed
        ++ (record { nhash = nhash_of hash; offset = sink.offset; size = length value } ∷ []);
  }

  -- The loop of `write_nudb_store`.
  unfoldable pub write_store : List (Hash256 × List ℕ) → SinkData → SinkData
  unfolding write_node
  write_store [] sink = sink
  write_store ((hash, value) ∷ rs) sink = write_store rs (write_node hash value sink)
