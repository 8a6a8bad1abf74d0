-- ===== src/Lib.antt =====
-- The archive of the XRP ledger: chunks of ledgers, the hashes that verify them, and the NuDB
-- values that ledger nodes are read from and written to.
--
-- The program exports a range of ledgers from NuDB stores into chunk files, and imports chunk files
-- into fresh stores. Hashes tie the parts together: a node's hash is its key in the store and its
-- name in a chunk, an inner node holds the hashes of its children, a ledger header holds the roots
-- of the state tree and of the transaction tree, and a chunk holds the hash of its own body.
--
-- The files, and the code that each is about:
--   Prelude: shared names, lists over native numbers, bytes, readers, sorting.
--   Node: crates/xrla-common/src/shamap.rs. Node types, wire bytes, and the full and compressed
--   layouts of an inner node. Node/Wire and Node/Inner are about these.
--   Chunk/Types, Chunk/Write, Chunk/Read: crates/xrla-common/src/chunk.rs and the functions
--   serialize_chunk and deserialize_chunk of crates/xrla-common/src/serialize.rs with their
--   helpers, one definition per function. Chunk/RoundTrip, Chunk/Integrity and Chunk/Determinism are
--   about these.
--   Disk: files by their paths, and the calls of std::fs.
--   Chunk/Writer: ChunkWriter of serialize.rs, its temporary file and its drop. A state of the files
--   is a function of paths, and each call of the file system in finish may fail. Chunk/Writer/Atomic
--   and Chunk/Writer/Outcome are about finish alone, Chunk/Writer/Finish about a whole session.
--   Chunk/Stream: ChunkReader and HashingReader of serialize.rs. Chunk/Stream/Agrees and
--   Chunk/Stream/Whole compare it with the other reader, Chunk/Stream/Session with the writer.
--   State: crates/xrla-common/src/state_tree.rs, and ledger_header_object of serialize.rs.
--   TxTree: crates/xrla-common/src/tx_tree.rs, and parse_tx_leaf and read_vl of
--   crates/xrla-nudb/src/reader.rs (TxTree/ReadLeaf).
--   Dat: the codec of values in crates/xrla-nudb/src/dat.rs, and scan_dat (Dat/Scan) with the data
--   file as crates/xrla-nudb/src/writer.rs writes it.
--   Keyfile: crates/xrla-nudb/src/keyfile.rs. The bucket of a hash, the search of one bucket
--   (Keyfile/Shard), and Shard::open and Shard::fetch, which follows a chain of spill buckets
--   (Keyfile/Fetch). Keyfile/Primary is about open and the first read of fetch; Keyfile/Lookup,
--   Keyfile/Search and Keyfile/Chain are about the search.
--   Sink: crates/xrla-nudb/src/writer.rs. NuDbSink's create and write_node (Sink/Nodes); the buckets,
--   the spill chains and the key file that finish makes of the entries, with write_key_header,
--   write_bucket_block and write_spill_chain, and finish as a whole (Sink/Tables); and its end, the
--   swap of the new files for the old ones (Sink; Sink/Swap is about a crash in it, Sink/Ended about
--   its outcome). Sink/Store is about the whole way from write_node to Shard::fetch.
--   Meta: crates/xrla-common/src/meta_decode.rs. The cursor and the readers of single values,
--   skip_value (Meta/Skip), summarize_meta (Meta/Summary), parse_tx_fields (Meta/TxFields) and
--   classic addresses (Meta/Address). Meta/Tree has the objects that are encoded, and Meta/Rule the
--   rule for the accounts that metadata affects.
--   Reader: NuDBReader of crates/xrla-nudb/src/reader.rs: get_wire and get_node over its shards, the
--   walks of a tree (Reader/Walk) and the difference of two trees (Reader/Diff). These read the store
--   through get_node alone, and what they need of it is that a node has the hash it was asked for;
--   Reader/Store puts get_node over the shards in its place. A shard is what Shard::fetch returns.
--
-- Conventions. A byte string is a list of numbers, and integers keep the width of their Rust
-- type: a cast with `as` and a subtraction of u32 wrap. A function that returns an error has a
-- result type, a panic is none, or in Keyfile/Shard and Keyfile/Fetch an error of its own. A
-- reader is a function from the bytes that are left to a result and the bytes behind it.
-- SHA-512, SHA-256, the hash xxh64 and the decompression of lz4_flex are parameters; where a
-- theorem needs it, SHA-512 returns 64 bytes and SHA-256 returns 32. A buffered writer is the
-- bytes that were written, and a set of the standard library is the list of its elements.
--
-- Bounds. A level of the transaction tree is one of 64, since a key has 64 nibbles and the code
-- panics at the next one. The loop of the modulus has 63 rounds, which is as many as a u64 can
-- be shifted. The client's loop over the streaming reader has one round more than the deltas
-- that the header announces. The scan of a data file, and each loop over the fields of an
-- object, has a round for each byte that is left. Shard::fetch has more rounds than there are
-- entries, so at least one for each bucket of a chain. The walk of a tree has a round for each
-- node that is stored and for each of their children, and the calls of diff go one level deeper
-- than the trees. The other loops run over the data itself.
--
-- Not modelled: the allocation of memory, the text of errors, the file name of a chunk, a failure
-- of a buffered write to the data file of a sink, the choice of a number of threads in NuDBReader,
-- which is by timing and by device, diff_batch_concurrent, which maps diff over pairs in a pool of
-- threads, the table of transaction type names, and the tools for import, export, index, inspection
-- and comparison. A pool of threads that fetches a frontier is a map over it, and that it can be
-- built is taken for granted. The number of buckets is computed with whole numbers, and agrees with
-- the f64 of the source for fewer than 2 ^ 44 nodes, which is more than the theorems allow.
pub mod Prelude
pub mod Disk
pub mod Node
pub mod Chunk
pub mod State
pub mod TxTree
pub mod Dat
pub mod Keyfile
pub mod Sink
pub mod Meta
pub mod Reader
