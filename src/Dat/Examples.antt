-- ===== src/Dat/Examples.antt =====
-- Runs of the value codec.
use xrpl_ledger_archive.Dat.ScanBack.{latest, scan_dat-write_all}
use xrpl_ledger_archive.Prelude.Parser.{write_all, ok}
use xrpl_ledger_archive.Dat.Scan.{scan_dat, write_dat_header, write_record}
use xrpl_ledger_archive.TxTree.{concat}
use xrpl_ledger_archive.Dat.Sparse.{IsSlot, sparse_value, decode_sparse_inner-sparse_value}
use xrpl_ledger_archive.Dat.Decode.{
  IsWire, decode_value_to_wire-IsWire, stored_node, decode_value_to_wire-encode_wire_to_value,
}
use xrpl_ledger_archive.Dat.{
  decode_value_to_wire, decode_sparse_inner, encode_wire_to_value, decode_codec, decode_raw,
  encoded_blob_to_wire, typed_blob_to_wire,
}
use xrpl_ledger_archive.Node.{ShaMapNode, Hash256, inner, zero_hash, to_wire_bytes, type_byte}
use xrpl_ledger_archive.Prelude.{
  List, All, ℕ, replicate, ◌∷◌, Option, ◌≡◌, ◌++◌, [], none, some, refl, suc, zero, arith,
}

abbrev no_blocks : List ℕ → ℕ → Option (List ℕ)
no_blocks block size = none

abbrev full_node : ShaMapNode
full_node = record { hash = replicate 32 1; node_type = inner; content = replicate 512 3 }

decode_value_to_wire-encode_wire_to_value_example :
    decode_value_to_wire no_blocks (encode_wire_to_value full_node.content full_node.node_type)
    ≡ some (to_wire_bytes (stored_node full_node))
decode_value_to_wire-encode_wire_to_value_example =
    decode_value_to_wire-encode_wire_to_value no_blocks full_node λ _. refl

-- Slots 0 and 3 are taken.
abbrev slots : List Hash256
slots = replicate 32 9 ∷ zero_hash ∷ zero_hash ∷ replicate 32 8 ∷ replicate 12 zero_hash

zeros-IsSlot : (n : ℕ) → All IsSlot (replicate n zero_hash)
zeros-IsSlot zero = tt
zeros-IsSlot (suc n) = (refl, zeros-IsSlot n)

slots-IsSlot : All IsSlot slots
slots-IsSlot = (refl, (refl, (refl, (refl, zeros-IsSlot 12))))

decode_sparse_inner-sparse_value_example :
    decode_sparse_inner (sparse_value slots) ≡ some (concat slots ++ (type_byte inner ∷ []))
decode_sparse_inner-sparse_value_example = decode_sparse_inner-sparse_value slots refl slots-IsSlot

-- An account, raw.
abbrev account_value : List ℕ
account_value = 0 ∷ (replicate 8 0 ++ (3 ∷ 40 ∷ 41 ∷ []))

decode_value_to_wire-IsWire_example : IsWire (40 ∷ 41 ∷ 1 ∷ [])
decode_value_to_wire-IsWire_example =
    decode_value_to_wire-IsWire no_blocks account_value (40 ∷ 41 ∷ 1 ∷ []) (
      unfold decode_value_to_wire decode_codec decode_raw encoded_blob_to_wire typed_blob_to_wire
        type_byte in
      refl)

-- An account under one key, and bytes of no known codec under another.
abbrev two_records : List (Hash256 × List ℕ)
two_records = (replicate 32 1, account_value) ∷ (replicate 32 2, 9 ∷ []) ∷ []

scan_dat-write_all_example :
    scan_dat no_blocks (write_dat_header 2 1 1 ++ write_all write_record two_records)
    ≡ ok (latest no_blocks two_records)
scan_dat-write_all_example = scan_dat-write_all no_blocks 2 1 1 two_records (
  record { key_size = refl; value_some = omega arith; value_small = omega arith },
  (record { key_size = refl; value_some = omega arith; value_small = omega arith }, tt),
)
