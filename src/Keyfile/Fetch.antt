-- ===== src/Keyfile/Fetch.antt =====
-- `Shard::open` and `Shard::fetch` of crates/xrla-nudb/src/keyfile.rs, over the bytes of the two files.
-- The hash xxh64 is the crate `xxhash_rust`.
use xrpl_ledger_archive.Keyfile.Shard.{
  found, absent, spilled, out_of_block, out_of_fuel, read_spill,
}
use xrpl_ledger_archive.Prelude.{none, some}
use xrpl_ledger_archive.Keyfile.{bucket_index, grow_modulus}
use xrpl_ledger_archive.Prelude.Bytes.{from_be}
use xrpl_ledger_archive.Keyfile.Shard.{
  FetchError, Probe, out_of_fuel, probe_block, read_exact_at, out_of_block,
}
use xrpl_ledger_archive.Node.{Hash256}
use xrpl_ledger_archive.Prelude.Parser.{Result, err, ok}
use xrpl_ledger_archive.Prelude.{
  List, ℕ, ◌∷◌, [], take, Option, drop, ◌/◌, length, ◌^◌, ◌+◌, suc, ◌-◌, ◌%◌, if◌then◌else◌, ◌*◌,
  ltb, not, list_eq, zero, ◌==◌,
}

-- `b"nudb.key"`
abbrev pub key_magic : List ℕ
key_magic = b'n' ∷ b'u' ∷ b'd' ∷ b'b' ∷ b'.' ∷ b'k' ∷ b'e' ∷ b'y' ∷ []

-- `Shard`; the files by their bytes.
pub record OpenShard : Type 0 where
  pub dat : List ℕ
  pub key : List ℕ
  pub salt : ℕ
  pub block_size : ℕ
  pub num_buckets : ℕ
  pub modulus : ℕ

-- `endless_modulus` stands for a loop of the modulus that does not end.
pub data OpenError : Type 0 where
  short_header invalid_magic zero_block_size endless_modulus : OpenError
  wrong_key_size : ℕ → OpenError

unfoldable pub opened : List ℕ → List ℕ → ℕ → ℕ → ℕ → Option ℕ → Result OpenError OpenShard
opened dat key salt block_size num_buckets none = err endless_modulus
opened dat key salt block_size num_buckets (some modulus) = ok (record {
  dat = dat;
  key = key;
  salt = salt;
  block_size = block_size;
  num_buckets = num_buckets;
  modulus = modulus;
})

-- `key_file_size - block_size` is a subtraction of u64.
unfoldable pub open_shard : List ℕ → List ℕ → Result OpenError OpenShard
unfolding opened
open_shard dat key =
    let hdr = take 64 key in
    let key_size = from_be (take 2 (drop 26 hdr)) in
    let block_size = from_be (take 2 (drop 44 hdr)) in
    let num_buckets = ((length key + 2 ^ 64 - block_size) % 2 ^ 64) / block_size in
    if ltb (length key) 64
    then err short_header
    else if not (list_eq (take 8 hdr) key_magic)
    then err invalid_magic
    else if not (key_size == 32)
    then err (wrong_key_size key_size)
    else if block_size == 0
    then err zero_block_size
    else opened dat key (from_be (take 8 (drop 28 hdr))) block_size num_buckets
        (grow_modulus 63 num_buckets 1)

abbrev pub in_spill :
    (List ℕ → Result FetchError (Option (List ℕ)))
    → Result FetchError (List ℕ)
    → Result FetchError (Option (List ℕ))
in_spill again (err e) = err e
in_spill again (ok body) = again body

-- What follows the search of a block; `again` is the next round.
abbrev pub after_probe :
    (List ℕ → Result FetchError (Option (List ℕ)))
    → List ℕ
    → Result FetchError Probe
    → Result FetchError (Option (List ℕ))
after_probe again dat (err e) = err e
after_probe again dat (ok (found val)) = ok (some val)
after_probe again dat (ok absent) = ok none
after_probe again dat (ok (spilled spill)) = in_spill again (read_spill dat spill)

-- The loop; a block of fewer than 8 bytes is a panic.
unfoldable pub fetch_loop : ℕ → List ℕ → Hash256 → ℕ → List ℕ → Result FetchError (Option (List ℕ))
fetch_loop zero dat key nhash block = err out_of_fuel
fetch_loop (suc n) dat key nhash block =
    let next = after_probe (fetch_loop n dat key nhash) dat (probe_block dat key nhash block) in
    if ltb (length block) 8 then err out_of_block else next

unfoldable pub fetch :
    (List ℕ → ℕ → ℕ) → ℕ → OpenShard → Hash256 → Result FetchError (Option (List ℕ))
unfolding fetch_loop
fetch xxh64 fuel shard key =
    let nhash = xxh64 key shard.salt / 2 ^ 16 in
    let bucket = bucket_index shard.num_buckets shard.modulus nhash in
    in_spill (fetch_loop fuel shard.dat key nhash)
      (read_exact_at shard.key (shard.block_size * (bucket + 1)) shard.block_size)
