-- ===== src/Dat/Decode.antt =====
-- What decoding gives back, and what every decoded value is.
use xrpl_ledger_archive.State.{hash_prefix_inner_node}
use xrpl_ledger_archive.Prelude.Maybe.{some-then}
use xrpl_ledger_archive.Prelude.Bytes.{from_be}
use xrpl_ledger_archive.Prelude.{
  List, ℕ, ◌≡◌, Option, true, some, ◌++◌, length, ◌∷◌, [], false, arith, length-take, length-drop,
  drop, ◌*◌, take, ◌+◌, suc, refl, zero, ◌/◌, get_elem?, ◌^◌, if-cases, ◌%◌, ◌==◌, ◌<◌, Bool-cases,
  ltb, inl, inr, length-append, replicate, ◌≤◌, ltb→le, append-nil, take-append, ◌⊎◌,
}
use xrpl_ledger_archive.Node.{
  inner, transaction, account_state, transaction_with_meta, compressed_inner, NodeType, ShaMapNode,
  is_inner, to_wire_bytes, type_byte, account_state,
}
use xrpl_ledger_archive.Dat.{
  decode_value_to_wire, encode_wire_to_value, encoded_blob_to_wire, transaction_with_meta, expand,
  decode_full_inner, decode_sparse_inner, decode_lz4, decode_raw, count_ones, read_varint,
  decode_codec, typed_blob_to_wire, notype_of, notype_unknown, codec_full_inner, codec_sparse_inner,
  notype_account, codec_lz4, notype_transaction, codec_raw,
}

-- The type that a node has when it comes back: the store does not tell a transaction without
-- metadata from one with it, nor the two layouts of an inner node.
unfoldable pub stored_type : NodeType → NodeType
stored_type account_state = account_state
stored_type transaction = transaction_with_meta
stored_type transaction_with_meta = transaction_with_meta
stored_type inner = inner
stored_type compressed_inner = inner

abbrev pub stored_node : ShaMapNode → ShaMapNode
stored_node node = record node { node_type = stored_type node.node_type }

-- An inner node is written in its full layout.
abbrev pub IsFull : ShaMapNode → Type 0
IsFull node = is_inner node.node_type ≡ true → length node.content ≡ 512

module _ (decompress : List ℕ → ℕ → Option (List ℕ)) where
  decode_inner :
      (content : List ℕ)
      → length content ≡ 512
      → decode_value_to_wire decompress
          (codec_raw ∷ (replicate 8 0 ++ (notype_unknown ∷ (hash_prefix_inner_node ++ content))))
        ≡ some (content ++ (2 ∷ []))
  unfolding decode_value_to_wire decode_codec decode_raw encoded_blob_to_wire typed_blob_to_wire
      type_byte
  decode_inner content h =
      let long : ltb
            (length (replicate 8 0 ++ (notype_unknown ∷ (hash_prefix_inner_node ++ content)))) 525
          ≡ false =
        rw h refl in
      let all : take 512 content ≡ content = rw append-nil at (take-append 512 content [] h) in
      rw (long, all)

  decode_typed :
      (content : List ℕ) (t : NodeType)
      → (is_inner t ≡ true → length content ≡ 512)
      → decode_value_to_wire decompress (encode_wire_to_value content t)
        ≡ some (content ++ (type_byte (stored_type t) ∷ []))
  unfolding decode_value_to_wire decode_codec decode_raw encoded_blob_to_wire typed_blob_to_wire
      encode_wire_to_value stored_type notype_of is_inner type_byte
  decode_typed content account_state full = refl
  decode_typed content transaction full = refl
  decode_typed content transaction_with_meta full = refl
  decode_typed content inner full = decode_inner content (full refl)
  decode_typed content compressed_inner full = decode_inner content (full refl)

  -- A node whose content has 512 bytes if it is an inner node is encoded as a value that is
  -- decoded to its own wire bytes, up to the type that the store keeps.
  pub decode_value_to_wire-encode_wire_to_value :
      (node : ShaMapNode)
      → IsFull node
      → decode_value_to_wire decompress (encode_wire_to_value node.content node.node_type)
        ≡ some (to_wire_bytes (stored_node node))
  unfolding to_wire_bytes
  decode_value_to_wire-encode_wire_to_value node full =
      decode_typed node.content node.node_type full

-- Wire bytes of a node, of 512 bytes if it is an inner one.
pub record IsWire (wire : List ℕ) : Type 0 where
  pub content : List ℕ
  pub node_type : NodeType
  pub split : wire ≡ content ++ (type_byte node_type ∷ [])
  pub full : (is_inner node_type ≡ false) ⊎ (length content ≡ 512)

-- The bytes of an inner node behind a type byte.
IsWire-inner :
    (content wire : List ℕ)
    → length content ≡ 512
    → some (content ++ (type_byte inner ∷ [])) ≡ some wire
    → IsWire wire
IsWire-inner content wire h e = record {
  content = content;
  node_type = inner;
  split = cc e;
  full = inr h;
}

IsWire-leaf :
    (content wire : List ℕ) (t : NodeType)
    → is_inner t ≡ false
    → some (content ++ (type_byte t ∷ [])) ≡ some wire
    → IsWire wire
IsWire-leaf content wire t h e = record {
  content = content;
  node_type = t;
  split = cc e;
  full = inl h;
}

inner_size : (blob : List ℕ) → 525 ≤ length blob → length (take 512 (drop 13 blob)) ≡ 512
inner_size blob h = omega (arith, length-take 512 (drop 13 blob), length-drop 13 blob, h)

IsWire-encoded_blob_to_wire :
    (blob wire : List ℕ) → encoded_blob_to_wire blob ≡ some wire → IsWire wire
unfolding encoded_blob_to_wire typed_blob_to_wire is_inner
IsWire-encoded_blob_to_wire blob wire h = some-then (get_elem? blob 8) _ h λ notype e k.
    if-cases (notype == notype_unknown) k
      (λ _ k1.
        if-cases (ltb (length blob) 525) k1 (λ _ k2. cc k2)
          λ long k2.
            IsWire-inner (take 512 (drop 13 blob)) wire
              (inner_size blob (ltb→le (length blob) 525 long)) k2)
      λ _ k1.
        if-cases (notype == notype_account) k1
          (λ _ k2. IsWire-leaf (drop 9 blob) wire account_state refl k2)
          λ _ k2.
            if-cases (notype == notype_transaction) k2
              (λ _ k3. IsWire-leaf (drop 9 blob) wire transaction_with_meta refl k3) λ _ k3. cc k3

length-expand :
    (n mask : ℕ) (hashes : List ℕ)
    → length hashes ≡ count_ones n mask * 32
    → length (expand n mask hashes) ≡ n * 32
unfolding expand count_ones
length-expand zero mask hashes h = refl
length-expand (suc n) mask hashes h =
    let bit : mask / 2 ^ n % 2 < 2 = omega arith in
    elim (Bool-cases (mask / 2 ^ n % 2 == 0)) [
      | inl q ↦
          let off : mask / 2 ^ n % 2 ≡ 0 = ground (arith, q) in
          rw q (omega (arith, length-expand n mask hashes (omega (arith, h, off))))
      | inr q ↦
          let on : mask / 2 ^ n % 2 ≡ 1 = ground (arith, q, bit) in
          rw q (
            omega (
              arith,
              length-append (take 32 hashes) (expand n mask (drop 32 hashes)),
              length-take 32 hashes,
              length-drop 32 hashes,
              length-expand n mask (drop 32 hashes) (omega (arith, h, on, length-drop 32 hashes)),
              h,
              on,
            ))
    ]

IsWire-decode_full_inner : (value wire : List ℕ) → decode_full_inner value ≡ some wire → IsWire wire
unfolding decode_full_inner
IsWire-decode_full_inner value wire h =
    ground (arith, h, length-drop 1 value, IsWire-inner (drop 1 value) wire)

IsWire-decode_sparse_inner :
    (value wire : List ℕ) → decode_sparse_inner value ≡ some wire → IsWire wire
unfolding decode_sparse_inner
IsWire-decode_sparse_inner value wire h =
    let mask = from_be (take 2 (drop 1 value)) in
    ground (
      arith,
      h,
      length-drop 3 value,
      length-expand 16 mask (drop 3 value),
      IsWire-inner (expand 16 mask (drop 3 value)) wire,
    )

module _ (decompress : List ℕ → ℕ → Option (List ℕ)) where
  IsWire-decode_lz4 : (value wire : List ℕ) → decode_lz4 decompress value ≡ some wire → IsWire wire
  unfolding decode_lz4
  IsWire-decode_lz4 value wire h = some-then (read_varint (drop 1 value)) _ h λ size e1 k1.
      some-then (decompress (drop (1 + size.1) value) size.0) _ k1
        λ decoded e2 k2. IsWire-encoded_blob_to_wire decoded wire k2

  -- Whatever a stored value holds, and whatever the decompression returns, if it is decoded the
  -- result is the wire bytes of a node, and an inner node's content has 512 bytes.
  pub decode_value_to_wire-IsWire :
      (value wire : List ℕ) → decode_value_to_wire decompress value ≡ some wire → IsWire wire
  unfolding decode_value_to_wire decode_codec decode_raw
  decode_value_to_wire-IsWire value wire h = some-then (get_elem? value 0) _ h λ codec e k.
      if-cases (codec == codec_full_inner) k (λ _ k1. IsWire-decode_full_inner value wire k1)
        λ _ k1.
          if-cases (codec == codec_sparse_inner) k1
            (λ _ k2. IsWire-decode_sparse_inner value wire k2)
            λ _ k2.
              if-cases (codec == codec_lz4) k2 (λ _ k3. IsWire-decode_lz4 value wire k3)
                λ _ k3.
                  if-cases (codec == codec_raw) k3
                    (λ _ k4. IsWire-encoded_blob_to_wire (drop 1 value) wire k4) λ _ k4. cc k4
