-- ===== src/Dat.antt =====
-- The codec of NuDB values, crates/xrla-nudb/src/dat.rs.
pub mod Decode
pub mod Sparse
pub mod Scan
pub mod ScanBack
mod Examples
use xrpl_ledger_archive.Prelude.Bytes.{from_be}
use xrpl_ledger_archive.Node.{
  inner, transaction, account_state, transaction_with_meta, NodeType, is_inner, type_byte,
  zero_hash, account_state, transaction_with_meta,
}
use xrpl_ledger_archive.Prelude.{
  ℕ, List, Option, [], ◌∷◌, suc, if◌then◌else◌, ◌/◌, drop, none, get_elem?, replicate, not, ◌^◌,
  take, ◌+◌, ◌++◌, some, length, ◌%◌, ltb, ◌==◌, ◌*◌, zero, leb,
}
use xrpl_ledger_archive.Prelude.Maybe.{◌>>=◌}
use xrpl_ledger_archive.State.{hash_prefix_inner_node}

-- Codec bytes, and `NodeObjectType`s.
abbrev pub codec_raw : ℕ
codec_raw = 0

abbrev pub codec_lz4 : ℕ
codec_lz4 = 1

abbrev pub codec_sparse_inner : ℕ
codec_sparse_inner = 2

abbrev pub codec_full_inner : ℕ
codec_full_inner = 3

abbrev pub notype_unknown : ℕ
notype_unknown = 0

abbrev pub notype_ledger : ℕ
notype_ledger = 1

abbrev pub notype_account : ℕ
notype_account = 3

abbrev pub notype_transaction : ℕ
notype_transaction = 4

unfoldable pub decode_full_inner : List ℕ → Option (List ℕ)
decode_full_inner value =
    if not (length value == 1 + 512) then none else some (drop 1 value ++ (type_byte inner ∷ []))

-- `mask.count_ones()`, over the lowest `n` bits.
unfoldable pub count_ones : ℕ → ℕ → ℕ
count_ones zero mask = 0
count_ones (suc n) mask = (mask / 2 ^ n) % 2 + count_ones n mask

-- The last `n` slots, the highest bit first: 32 bytes of what is left of the hashes where the bit
-- is set, zeros where it is not.
unfoldable pub expand : ℕ → ℕ → List ℕ → List ℕ
expand zero mask hashes = []
expand (suc n) mask hashes =
    let skipped = expand n mask hashes in
    let taken = expand n mask (drop 32 hashes) in
    if (mask / 2 ^ n) % 2 == 0 then zero_hash ++ skipped else take 32 hashes ++ taken

unfoldable pub decode_sparse_inner : List ℕ → Option (List ℕ)
decode_sparse_inner value =
    let mask = from_be (take 2 (drop 1 value)) in
    if ltb (length value) 3
    then none
    else if not (length value == 3 + count_ones 16 mask * 32)
    then none
    else some (expand 16 mask (drop 3 value) ++ (type_byte inner ∷ []))

-- The bits below `shift` are the result so far, so that `|=` adds; a shift drops what leaves the
-- 64 bits.
unfoldable pub read_varint_from : List ℕ → ℕ → ℕ → ℕ → Option (ℕ × ℕ)
read_varint_from [] i result shift = none
read_varint_from (byte ∷ bytes) i result shift =
    let rest =
      read_varint_from bytes (i + 1) (result + (byte % 128 * 2 ^ shift) % 2 ^ 64) (shift + 7) in
    if leb 128 byte
    then (if leb 64 (shift + 7) then none else rest)
    else some (result + (byte % 128 * 2 ^ shift) % 2 ^ 64, i + 1)

unfoldable pub read_varint : List ℕ → Option (ℕ × ℕ)
unfolding read_varint_from
read_varint bytes = read_varint_from bytes 0 0 0

-- The `match` on the type of a blob that has one.
unfoldable pub typed_blob_to_wire : List ℕ → ℕ → Option (List ℕ)
typed_blob_to_wire blob notype =
    if notype == notype_unknown
    then (if ltb (length blob) 525
        then none
        else some (take 512 (drop 13 blob) ++ (type_byte inner ∷ [])))
    else if notype == notype_account
    then some (drop 9 blob ++ (type_byte account_state ∷ []))
    else if notype == notype_transaction
    then some (drop 9 blob ++ (type_byte transaction_with_meta ∷ []))
    else none

unfoldable pub encoded_blob_to_wire : List ℕ → Option (List ℕ)
unfolding typed_blob_to_wire
encoded_blob_to_wire blob = do notype ← get_elem? blob 8; typed_blob_to_wire blob notype

unfoldable pub decode_raw : List ℕ → Option (List ℕ)
unfolding encoded_blob_to_wire
decode_raw value = encoded_blob_to_wire (drop 1 value)

unfoldable pub notype_of : NodeType → ℕ
notype_of account_state = notype_account
notype_of transaction_with_meta = notype_transaction
notype_of transaction = notype_transaction
notype_of _ = notype_unknown

unfoldable pub encode_object_to_value : ℕ → List ℕ → List ℕ
encode_object_to_value object_type payload = codec_raw ∷ (replicate 8 0 ++ (object_type ∷ payload))

unfoldable pub encode_wire_to_value : List ℕ → NodeType → List ℕ
unfolding notype_of
encode_wire_to_value content node_type =
    codec_raw
    ∷ (replicate 8 0
        ++ (if is_inner node_type
            then notype_unknown ∷ (hash_prefix_inner_node ++ content)
            else notype_of node_type ∷ content))

-- The decompression of a block to a size is the crate `lz4_flex`.
module _ (decompress : List ℕ → ℕ → Option (List ℕ)) where
  unfoldable pub decode_lz4 : List ℕ → Option (List ℕ)
  unfolding read_varint encoded_blob_to_wire
  decode_lz4 value = do
    size ← read_varint (drop 1 value)
    decoded ← decompress (drop (1 + size.1) value) size.0
    encoded_blob_to_wire decoded

  -- The `match` on the codec of a value that has one.
  unfoldable pub decode_codec : List ℕ → ℕ → Option (List ℕ)
  unfolding decode_full_inner decode_sparse_inner decode_lz4 decode_raw
  decode_codec value codec =
      if codec == codec_full_inner
      then decode_full_inner value
      else if codec == codec_sparse_inner
      then decode_sparse_inner value
      else if codec == codec_lz4
      then decode_lz4 value
      else if codec == codec_raw
      then decode_raw value
      else none

  unfoldable pub decode_value_to_wire : List ℕ → Option (List ℕ)
  unfolding decode_codec
  decode_value_to_wire value = do codec ← get_elem? value 0; decode_codec value codec
