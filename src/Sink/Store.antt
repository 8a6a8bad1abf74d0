-- ===== src/Sink/Store.antt =====
-- `write_nudb_store` of crates/xrla-nudb/src/writer.rs against `Shard::open` and `Shard::fetch` of
-- crates/xrla-nudb/src/keyfile.rs.
use xrpl_ledger_archive.Disk.{FilePath, Files, write_file, write_file-at}
use xrpl_ledger_archive.Sink.{finish_swap, NuDbSink, SinkFaults, SinkError, sink_error}
use xrpl_ledger_archive.Sink.Moved.{Apart}
use xrpl_ledger_archive.Sink.Ended.{finish_swap-cases, call_fails}
use xrpl_ledger_archive.Prelude.{Option, true, ◌⊎◌}
use xrpl_ledger_archive.Sink.Nodes.{write_node, contains}
use xrpl_ledger_archive.Sink.Stored.{first_of}
use xrpl_ledger_archive.Sink.Stored.{lookup-same}
use xrpl_ledger_archive.Keyfile.Lookup.{lookup}
use xrpl_ledger_archive.Prelude.{
  [], ◌∷◌, Bool-cases, ◌∙◌, ap, length-append, inl, inr, All-append, refl,
}
use xrpl_ledger_archive.Sink.Fetched.{finish_tables-Finished}
use xrpl_ledger_archive.Keyfile.Buckets.{bucket_index_bound}
use xrpl_ledger_archive.Prelude.Bytes.{be_bytes}
use xrpl_ledger_archive.Keyfile.Fetch.{OpenShard, open_shard, fetch}
use xrpl_ledger_archive.Dat.Scan.{write_record, write_dat_header}
use xrpl_ledger_archive.Sink.Records.{HasKey, size_of}
use xrpl_ledger_archive.Sink.Map.{write_store-Holds, create_sink-Holds, write_node-size}
use xrpl_ledger_archive.Sink.Fetched.{
  HasHash, IsEntry-Within, bucket_count-bounds, finish_tables-Finished,
}
use xrpl_ledger_archive.Sink.Tables.{sink_salt, finish_tables, bucket_count, finish_sink}
use xrpl_ledger_archive.Sink.Nodes.{write_store, SinkData, create_sink, contains}
use xrpl_ledger_archive.Node.{Hash256}
use xrpl_ledger_archive.Prelude.{
  none, some, List, ℕ, ◌<◌, ◌^◌, All, length, ◌/◌, ◌≤◌, ◌+◌, arith, ◌*◌, ◌≡◌, [],
}
use xrpl_ledger_archive.Prelude.Parser.{ok, write_all, Result, err}

some-inj : {A : Type 0} {a b : A} → some a ≡ some b → a ≡ b
some-inj {A} {a} e = ap (λ (o : Option A). elim o [ none ↦ a | some x ↦ x ]) e

module _ (nhash_of : Hash256 → ℕ) where
  write_node-HasHash :
      (hash value : List ℕ) (sink : SinkData)
      → nhash_of hash < 2 ^ 48
      → All HasHash sink.placed
      → All HasHash (write_node nhash_of hash value sink).placed
  unfolding write_node
  write_node-HasHash hash value sink small h = elim (Bool-cases (contains sink.seen hash)) [
    | inl old ↦ rw (write_node, old) h
    | inr new ↦ rw (write_node, new) (All-append HasHash sink.placed (_ ∷ []) h (small, tt))
  ]

  write_store-HasHash :
      ((h : Hash256) → nhash_of h < 2 ^ 48)
      → (rs : List (Hash256 × List ℕ)) (sink : SinkData) → All HasHash sink.placed
      → All HasHash (write_store nhash_of rs sink).placed
  unfolding write_store
  write_store-HasHash small [] sink h = h
  write_store-HasHash small ((hash, value) ∷ rs) sink h =
      write_store-HasHash small rs (write_node nhash_of hash value sink)
        (write_node-HasHash hash value sink (small hash) h)

  write_node-placed :
      (hash value : List ℕ) (sink : SinkData)
      → length (write_node nhash_of hash value sink).placed ≤ length sink.placed + 1
  unfolding write_node
  write_node-placed hash value sink = elim (Bool-cases (contains sink.seen hash)) [
    | inl old ↦ rw (write_node, old) (omega arith)
    | inr new ↦ rw (write_node, new) (omega (arith, length-append sink.placed (_ ∷ [])))
  ]

  write_store-placed :
      (rs : List (Hash256 × List ℕ)) (sink : SinkData)
      → length (write_store nhash_of rs sink).placed ≤ length sink.placed + length rs
  unfolding write_store
  write_store-placed [] sink = omega arith
  write_store-placed ((hash, value) ∷ rs) sink = omega (
    arith,
    write_store-placed rs (write_node nhash_of hash value sink),
    write_node-placed hash value sink,
  )

  write_store-size :
      (rs : List (Hash256 × List ℕ)) (sink : SinkData)
      → All HasKey rs
      → length (write_store nhash_of rs sink).dat
        ≤ length sink.dat + length (write_all write_record rs)
  unfolding write_store write_all
  write_store-size [] sink h = omega arith
  write_store-size ((hash, value) ∷ rs) sink h = omega (
    arith,
    write_store-size rs (write_node nhash_of hash value sink) h.1,
    write_node-size nhash_of hash value sink h.0,
    size_of hash value h.0,
    length-append (write_record (hash, value)) (write_all write_record rs),
  )

module _ (xxh64 : List ℕ → ℕ → ℕ)
    (is_u64 : (bytes : List ℕ) (seed : ℕ) → xxh64 bytes seed < 2 ^ 64) where
  -- `xxh64(&hash, self.salt) >> 16`
  abbrev pub nhash_of : Hash256 → ℕ
  nhash_of hash = xxh64 hash sink_salt / 2 ^ 16

  -- After a run of `write_node` on a fresh sink, with hashes of 32 bytes and fewer than 2 ^ 48 bytes of
  -- records, 34 more counted for each: the tables that `finish` makes are opened by `Shard::open`, and
  -- `fetch` finds for every key the value that was first written under it, and nothing where none was,
  -- with more rounds than there are records, if xxh64 returns a u64.
  pub fetch-write_store :
      (rs : List (Hash256 × List ℕ)) (key : Hash256) (fuel : ℕ)
      → All HasKey rs
      → 92 + length (write_all write_record rs) + 34 * length rs < 2 ^ 48
      → length rs < fuel
      → (dat : List ℕ) × (file : List ℕ) × (shard : OpenShard) × (finish_tables xxh64
            (write_store nhash_of rs create_sink)
          ≡ some (dat, file))
        × (open_shard dat file ≡ ok shard)
        × (fetch xxh64 fuel shard key ≡ ok (first_of rs key))
  fetch-write_store rs key fuel h room l =
      let sink = write_store nhash_of rs create_sink in
      let fresh : (length create_sink.dat ≡ 92) × (length create_sink.placed ≡ 0) =
        unfold create_sink write_dat_header be_bytes in (refl, refl) in
      let size = write_store-size nhash_of rs create_sink h in
      let placed = write_store-placed nhash_of rs create_sink in
      let holds =
        write_store-Holds nhash_of rs [] create_sink h (omega (arith, room, fresh))
          (create_sink-Holds nhash_of) in
      let small : (k : Hash256) → nhash_of k < 2 ^ 48 = λ k. omega (arith, is_u64 k sink_salt) in
      let fit =
        IsEntry-Within (length sink.dat) sink.placed (omega (arith, size, room, fresh)) holds.within
          (write_store-HasHash nhash_of small rs create_sink (unfold create_sink in tt)) in
      let (pos, low) =
        bucket_count-bounds (length sink.placed) (omega (arith, placed, room, fresh)) in
      let (modulus, grown, is_modulus, bound) =
        bucket_index_bound (bucket_count (length sink.placed)) (nhash_of key) pos
          (omega (arith, low)) in
      let f =
        finish_tables-Finished xxh64 sink fuel key modulus grown bound low holds.offset fit
          (omega (arith, size, placed, room, fresh)) (omega (arith, placed, fresh, l)) in
      (
        f.dat,
        f.file,
        f.shard,
        f.made,
        f.opens,
        f.fetched
            ∙ ap (λ xs. lookup xs key (nhash_of key) sink.placed) f.behind
            ∙ lookup-same sink.dat f.more key (nhash_of key) sink.placed holds.within
            ∙ holds.found key,
      )

  -- After a run of `write_node` on a fresh sink, with hashes of 32 bytes and fewer than 2 ^ 48 bytes of
  -- records, 34 more counted for each, where the five paths differ and xxh64 returns a u64: `finish`
  -- makes two tables that `Shard::open` accepts, and in which `fetch` finds for every key the value that
  -- was first written under it, and nothing where none was, with more rounds than there are records.
  -- It returns: an error, and then a call of the file system failed, or no error, and then these tables
  -- are at the final names.
  pub fetch-finish_sink :
      (sink : NuDbSink) (key_path : FilePath) (faults : SinkFaults) (fs : Files)
      (rs : List (Hash256 × List ℕ)) (key : Hash256) (fuel : ℕ)
      → Apart sink key_path
      → All HasKey rs
      → 92 + length (write_all write_record rs) + 34 * length rs < 2 ^ 48
      → length rs < fuel
      → (dat : List ℕ) × (file : List ℕ) × (shard : OpenShard) × (r : Result SinkError (Unit {0})
          × Files)
        × (open_shard dat file ≡ ok shard)
        × (fetch xxh64 fuel shard key ≡ ok (first_of rs key))
        × (finish_sink xxh64 faults sink key_path (write_store nhash_of rs create_sink) fs ≡ some r)
        × (((call_fails faults ≡ true) × (r.0 ≡ err sink_error))
            ⊎ ((r.0 ≡ ok tt) × (r.1 sink.dat_final ≡ some dat) × (r.1 key_path ≡ some file)))
  unfolding finish_sink
  fetch-finish_sink sink key_path faults fs rs key fuel apart h room l =
      let (dat, file, shard, made, opens, fetched) = fetch-write_store rs key fuel h room l in
      let start = write_file sink.dat_tmp dat fs in
      (
        dat,
        file,
        shard,
        finish_swap faults sink key_path file start,
        opens,
        fetched,
        rw (finish_sink, made) refl,
        finish_swap-cases sink key_path apart file dat start (write_file-at sink.dat_tmp dat fs)
            faults,
      )
