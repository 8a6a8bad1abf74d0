-- ===== src/Sink/Examples.antt =====
-- Runs of the swap over an older store, and of a fresh sink.
use xrpl_ledger_archive.Sink.Tables.{finish_sink, finish_tables}
use xrpl_ledger_archive.Keyfile.Fetch.{OpenShard, open_shard, fetch}
use xrpl_ledger_archive.Sink.Store.{nhash_of, fetch-write_store, fetch-finish_sink}
use xrpl_ledger_archive.Prelude.{◌*◌, ◌⊎◌, ◌++◌}
use xrpl_ledger_archive.Sink.Nodes.{SinkData}
use xrpl_ledger_archive.Sink.Stored.{first_of}
use xrpl_ledger_archive.Prelude.Bytes.{be_bytes}
use xrpl_ledger_archive.Keyfile.Shard.{write_u48}
use xrpl_ledger_archive.Sink.Nodes.{create_sink, write_store}
use xrpl_ledger_archive.Dat.Scan.{write_record}
use xrpl_ledger_archive.Node.{Hash256}
use xrpl_ledger_archive.Prelude.Parser.{err, write_all, ok, Result}
use xrpl_ledger_archive.Sink.Moved.{Apart}
use xrpl_ledger_archive.Sink.Ended.{finish_swap-key_rename, call_fails}
use xrpl_ledger_archive.Sink.Swap.{Paired, no_sink_faults, swap_states-Paired}
use xrpl_ledger_archive.Prelude.{
  List, Bool, All, ◌∷◌, ℕ, if◌then◌else◌, true, false, [], list_eq, ◌≡◌, some, ◌≢◌, none, subst,
  refl, list_eq_refl, replicate, ◌+◌, length, ◌<◌, ◌^◌, arith,
}
use xrpl_ledger_archive.Disk.{FilePath, tmp_path, Files}
use xrpl_ledger_archive.Sink.{
  NuDbSink, finish_swap, bak_path, SinkFaults, swap_states, sink_error, SinkError, swap_files,
}

abbrev sink : NuDbSink
sink = record { dat_tmp = 2 ∷ []; dat_final = 1 ∷ [] }

abbrev key_path : FilePath
key_path = 3 ∷ []

ne : (p q : List ℕ) → list_eq p q ≡ false → p ≢ q
ne p q h e = cc (h, subst (λ r. list_eq p r ≡ true) e (list_eq_refl p))

sink-Apart : Apart sink key_path
unfolding tmp_path bak_path
sink-Apart = record {
  tmp_final = ne _ _ refl;
  tmp_key = ne _ _ refl;
  tmp_key_tmp = ne _ _ refl;
  tmp_bak = ne _ _ refl;
  final_key = ne _ _ refl;
  final_key_tmp = ne _ _ refl;
  final_bak = ne _ _ refl;
}

-- The old data at 1, the new data at 2, the old key at 3.
abbrev store : Files
store path =
    if list_eq path (1 ∷ [])
    then some (10 ∷ [])
    else if list_eq path (2 ∷ [])
    then some (20 ∷ [])
    else if list_eq path (3 ∷ [])
    then some (30 ∷ [])
    else none

abbrev faults : Bool → SinkFaults
faults key_rename = record {
  key_create = false;
  key_write = false;
  partial = [];
  move_aside = false;
  dat_rename = false;
  key_rename = key_rename;
  put_back = false;
  remove_bak = false;
  remove_key_tmp = false;
  remove_dat_tmp = false;
}

swap_states-Paired_example :
    All
      (Paired sink key_path sink-Apart (40 ∷ []) (20 ∷ []) store refl)
      (swap_states sink key_path (40 ∷ []) store)
    × ((before : List Files) × (swap_states sink key_path (40 ∷ []) store
          ≡ before ++ (swap_files no_sink_faults sink key_path (40 ∷ []) store).1 ∷ []))
swap_states-Paired_example =
    swap_states-Paired sink key_path sink-Apart (40 ∷ []) (20 ∷ []) store refl

finish_swap-key_rename_example :
    ((finish_swap (faults true) sink key_path (40 ∷ []) store).0 ≡ err sink_error)
    × ((finish_swap (faults true) sink key_path (40 ∷ []) store).1 (1 ∷ []) ≡ some (20 ∷ []))
    × ((finish_swap (faults true) sink key_path (40 ∷ []) store).1 (3 ∷ []) ≡ some (30 ∷ []))
finish_swap-key_rename_example =
    finish_swap-key_rename sink key_path sink-Apart (40 ∷ []) (20 ∷ []) store refl (faults true)
      (30 ∷ []) refl refl refl refl refl refl refl

-- Three nodes, the last one under the hash of the first.
abbrev nodes : List (Hash256 × List ℕ)
nodes = (replicate 32 1, 5 ∷ []) ∷ (replicate 32 2, 6 ∷ 7 ∷ []) ∷ (replicate 32 1, 8 ∷ []) ∷ []

-- Every key has the same hash.
abbrev same_xxh64 : List ℕ → ℕ → ℕ
same_xxh64 bytes seed = 3 * 2 ^ 16

same_xxh64-u64 : (bytes : List ℕ) (seed : ℕ) → same_xxh64 bytes seed < 2 ^ 64
same_xxh64-u64 bytes seed = omega arith

nodes_fit : 92 + length (write_all write_record nodes) + 34 * length nodes < 2 ^ 48
unfolding write_all write_record write_u48 be_bytes
nodes_fit = omega arith

abbrev made : SinkData
made = write_store (nhash_of same_xxh64 same_xxh64-u64) nodes create_sink

fetch-write_store_example :
    (dat : List ℕ) × (file : List ℕ) × (shard : OpenShard) × (finish_tables same_xxh64 made
      ≡ some (dat, file))
    × (open_shard dat file ≡ ok shard)
    × (fetch same_xxh64 4 shard (replicate 32 1) ≡ ok (first_of nodes (replicate 32 1)))
fetch-write_store_example =
    fetch-write_store same_xxh64 same_xxh64-u64 nodes (replicate 32 1) 4 (refl, (refl, (refl, tt)))
      nodes_fit (omega arith)

fetch-finish_sink_example :
    (dat : List ℕ) × (file : List ℕ) × (shard : OpenShard) × (r : Result SinkError (Unit {0})
      × Files)
    × (open_shard dat file ≡ ok shard)
    × (fetch same_xxh64 4 shard (replicate 32 1) ≡ ok (first_of nodes (replicate 32 1)))
    × (finish_sink same_xxh64 (faults false) sink key_path made store ≡ some r)
    × (((call_fails (faults false) ≡ true) × (r.0 ≡ err sink_error))
        ⊎ ((r.0 ≡ ok tt) × (r.1 sink.dat_final ≡ some dat) × (r.1 key_path ≡ some file)))
fetch-finish_sink_example =
    fetch-finish_sink same_xxh64 same_xxh64-u64 sink key_path (faults false) store nodes
      (replicate 32 1) 4 sink-Apart (refl, (refl, (refl, tt))) nodes_fit (omega arith)

-- No call fails in this run.
no_call_fails : call_fails (faults false) ≡ false
unfolding call_fails
no_call_fails = refl
