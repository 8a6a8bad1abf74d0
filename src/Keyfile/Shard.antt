-- ===== src/Keyfile/Shard.antt =====
-- Buckets as `write_bucket_into` of crates/xrla-nudb/src/writer.rs lays them out, and
-- `Shard::fetch` of crates/xrla-nudb/src/keyfile.rs, which looks a key up in them.
use xrpl_ledger_archive.Node.{Hash256}
use xrpl_ledger_archive.Prelude.Parser.{Result, err, ok, write_all}
use xrpl_ledger_archive.Prelude.Bytes.{be_bytes, from_be}
use xrpl_ledger_archive.Prelude.{
  ℕ, List, ◌++◌, take, length, if◌then◌else◌, Option, drop, ◌%◌, ltb, ◌^◌, ◌+◌, list_eq, none, some,
  ◌==◌, ◌*◌, suc, not, zero,
}

-- Six bytes, big-endian.
unfoldable pub write_u48 : ℕ → List ℕ
write_u48 v = be_bytes 6 v

unfoldable pub read_u48 : List ℕ → ℕ
read_u48 b = from_be (take 6 b)

pub record PlacedEntry : Type 0 where
  pub nhash : ℕ
  pub offset : ℕ
  pub size : ℕ

unfoldable pub write_entry : PlacedEntry → List ℕ
unfolding write_u48
write_entry entry = write_u48 entry.offset ++ (write_u48 entry.size ++ write_u48 entry.nhash)

-- The bytes that go into the front of the buffer; `entries.len() as u16` drops the high bits.
unfoldable pub write_bucket_into : List PlacedEntry → ℕ → List ℕ
unfolding write_u48 write_entry
write_bucket_into entries spill =
    be_bytes 2 (length entries % 2 ^ 16) ++ (write_u48 spill ++ write_all write_entry entries)

-- A read beyond the end of a file, and an index beyond the end of a block, which is a panic;
-- `out_of_fuel` is the model's own.
pub data FetchError : Type 0 where
  short_read out_of_block out_of_fuel : FetchError

-- `read_exact_at` of `n` bytes.
unfoldable pub read_exact_at : List ℕ → ℕ → ℕ → Result FetchError (List ℕ)
read_exact_at file offset n =
    if ltb (length file) (offset + n) then err short_read else ok (take n (drop offset file))

-- What a record at `offset` gives for the key: its value, or none if the key is another one.
unfoldable pub read_record : List ℕ → Hash256 → ℕ → ℕ → Result FetchError (Option (List ℕ))
unfolding read_exact_at
read_record dat key offset size = elim (read_exact_at dat offset 38) [
  | err e ↦ err e
  | ok head ↦
      if list_eq (take 32 (drop 6 head)) key
      then elim (read_exact_at dat (offset + 38) size) [ ok val ↦ ok (some val) | err e ↦ err e ]
      else ok none
]

-- The body of the loop, on the fields of an entry; `later` is what the entries behind it give.
unfoldable pub visit :
    List ℕ
    → Hash256
    → ℕ
    → ℕ
    → ℕ
    → ℕ
    → Result FetchError (Option (List ℕ))
    → Result FetchError (Option (List ℕ))
unfolding read_record
visit dat key nhash entry_hash offset val_size later =
    if not (entry_hash == nhash) then later else elim (read_record dat key offset val_size) [
      | err e ↦ err e
      | ok val ↦ elim val [ none ↦ later | some v ↦ ok (some v) ]
    ]

-- The loop over `count` entries; `rest` is the block from the next entry on.
unfoldable pub scan_entries :
    List ℕ → Hash256 → ℕ → ℕ → List ℕ → Result FetchError (Option (List ℕ))
unfolding read_u48 visit
scan_entries dat key nhash zero rest = ok none
scan_entries dat key nhash (suc count) rest =
    let later = scan_entries dat key nhash count (drop 18 rest) in
    if ltb (length rest) 18
    then err out_of_block
    else visit dat key nhash (read_u48 (drop 12 rest)) (read_u48 rest) (read_u48 (drop 6 rest))
        later

-- What a bucket says of a key: its value, that the shard does not hold it, or where to look on.
pub data Probe : Type 0 where
  found : List ℕ → Probe
  absent : Probe
  spilled : ℕ → Probe

abbrev pub probe_of : ℕ → Result FetchError (Option (List ℕ)) → Result FetchError Probe
probe_of spill (err e) = err e
probe_of spill (ok (some val)) = ok (found val)
probe_of spill (ok none) = if spill == 0 then ok absent else ok (spilled spill)

-- One round of the outer loop.
unfoldable pub probe_block : List ℕ → Hash256 → ℕ → List ℕ → Result FetchError Probe
unfolding scan_entries read_u48
probe_block dat key nhash block =
    probe_of (read_u48 (drop 2 block))
      (scan_entries dat key nhash (from_be (take 2 block)) (drop 8 block))

abbrev pub read_entries : List ℕ → ℕ → Result FetchError (List ℕ) → Result FetchError (List ℕ)
read_entries dat spill (err e) = err e
read_entries dat spill (ok head) = read_exact_at dat spill (8 + from_be (take 2 head) * 18)

-- The header of a spill bucket, then as much as it counts.
unfoldable pub read_spill : List ℕ → ℕ → Result FetchError (List ℕ)
unfolding read_exact_at
read_spill dat spill = read_entries dat spill (read_exact_at dat spill 8)
