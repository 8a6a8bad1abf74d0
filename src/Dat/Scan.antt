-- ===== src/Dat/Scan.antt =====
-- `scan_dat` of crates/xrla-nudb/src/dat.rs, and the data file as `NuDbSink` of
-- crates/xrla-nudb/src/writer.rs writes it.
use xrpl_ledger_archive.Dat.{decode_value_to_wire}
use xrpl_ledger_archive.Prelude.Parser.{Result, err, ok}
use xrpl_ledger_archive.Prelude.Bytes.{be_bytes, from_be}
use xrpl_ledger_archive.Node.{Hash256}
use xrpl_ledger_archive.Prelude.{
  List, ℕ, none, ◌∷◌, Option, if◌then◌else◌, ◌++◌, length, [], list_eq, some, suc, replicate, ltb,
  take, drop, not, ◌==◌, zero,
}
use xrpl_ledger_archive.Keyfile.Shard.{write_u48}

-- `b"nudb.dat"`
abbrev pub nudb_magic : List ℕ
nudb_magic = b'n' ∷ b'u' ∷ b'd' ∷ b'b' ∷ b'.' ∷ b'd' ∷ b'a' ∷ b't' ∷ []

pub data ScanError : Type 0 where
  invalid_magic unexpected_eof : ScanError
  wrong_key_size : ℕ → ScanError

-- The `HashMap` of wire bytes.
abbrev pub Wires : Type 0
Wires = Hash256 → Option (List ℕ)

abbrev pub no_wires : Wires
no_wires hash = none

unfoldable pub insert : Hash256 → List ℕ → Wires → Wires
insert key wire wires hash = if list_eq key hash then some wire else wires hash

-- A value that is not decoded is skipped.
unfoldable pub insert_decoded : Hash256 → Option (List ℕ) → Wires → Wires
unfolding insert
insert_decoded key none wires = wires
insert_decoded key (some wire) wires = insert key wire wires

unfoldable pub write_dat_header : ℕ → ℕ → ℕ → List ℕ
write_dat_header version uid appnum =
    nudb_magic
    ++ (be_bytes 2 version
        ++ (be_bytes 8 uid ++ (be_bytes 8 appnum ++ (be_bytes 2 32 ++ replicate 64 0))))

-- What `write_node` emits for a hash that it has not seen.
unfoldable pub write_record : Hash256 × List ℕ → List ℕ
unfolding write_u48
write_record (hash, value) = write_u48 (length value) ++ (hash ++ value)

-- The lz4 decompression is the crate `lz4_flex`.
module _ (decompress : List ℕ → ℕ → Option (List ℕ)) where
  -- The loop, in at most `fuel` rounds; each takes at least 38 bytes.
  unfoldable pub scan_records : ℕ → List ℕ → Wires → Wires
  unfolding insert_decoded
  scan_records zero bytes wires = wires
  scan_records (suc fuel) bytes wires =
      let val_size = from_be (take 6 bytes) in
      let at_key = drop 6 bytes in
      let at_value = drop 32 at_key in
      let wire = decode_value_to_wire decompress (take val_size at_value) in
      let rest =
        scan_records fuel (drop val_size at_value) (insert_decoded (take 32 at_key) wire wires) in
      if ltb (length bytes) 6
      then wires
      else if val_size == 0
      then wires
      else if ltb 65536 val_size
      then wires
      else if ltb (length at_key) 32
      then wires
      else if ltb (length at_value) val_size
      then wires
      else rest

  unfoldable pub scan_dat : List ℕ → Result ScanError Wires
  unfolding scan_records
  scan_dat bytes =
      if ltb (length bytes) 8
      then err unexpected_eof
      else if not (list_eq (take 8 bytes) nudb_magic)
      then err invalid_magic
      else if ltb (length bytes) 92
      then err unexpected_eof
      else if not (from_be (take 2 (drop 26 bytes)) == 32)
      then err (wrong_key_size (from_be (take 2 (drop 26 bytes))))
      else ok (scan_records (length bytes) (drop 92 bytes) no_wires)
