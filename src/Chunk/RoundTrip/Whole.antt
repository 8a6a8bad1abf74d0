-- ===== src/Chunk/RoundTrip/Whole.antt =====
-- Whole chunks: `deserialize_chunk` on the bytes of `serialize_chunk`.
use xrpl_ledger_archive.Prelude.{
  ℕ, ◌+◌, ◌-◌, ◌^◌, ◌≤◌, ◌<◌, ◌≡◌, refl, ap, ◌∙◌, List, [], ◌++◌, map, append-nil, append_assoc,
  ◌==◌, if◌then◌else◌, arith, length, All, list_eq_refl, length-take,
}
use xrpl_ledger_archive.Prelude.Parser.{
  ok, Reads, Reads-bind, Reads-map, Reads-step, Reads-pure, Reads-repeat, bind-run, repeat,
  write_all,
}
use xrpl_ledger_archive.Prelude.Sort.{sort_by}
use xrpl_ledger_archive.Node.{Hash256}
use xrpl_ledger_archive.Chunk.Types.{
  TxMap, LedgerDelta, Chunk, magic_header, magic_footer, format_version, format_version_streamed,
  sub_u32,
}
use xrpl_ledger_archive.Chunk.Write.{
  write_u8, write_u32be, write_delta, write_tx_map, node_key, write_node_list, serialize_body,
  serialize_chunk, sha512half,
}
use xrpl_ledger_archive.Chunk.Read.{
  read_delta, read_tx_map, read_blocks, read_body, read_chunk, deserialize_chunk, check_magic,
  check_version, check_hash, read_streamed, chunk_of,
}
use xrpl_ledger_archive.Chunk.RoundTrip.Fields.{
  Reads-read_exact, Reads-read_hash, Reads-read_u8, Reads-read_u32be,
}
use xrpl_ledger_archive.Chunk.RoundTrip.Records.{
  IsHash, IsNode, IsDelta, IsTxMap, sorted_delta, sorted_tx_map, Reads-read_node_list,
  Reads-read_delta, Reads-read_tx_map,
}

-- One delta for each ledger after the first, one transaction map for each ledger, and fields
-- within the widths of their types.
pub record IsChunk (c : Chunk) : Type 0 where
  pub network_id : c.network_id < 2 ^ 32
  pub start_le_end : c.start_ledger ≤ c.end_ledger
  pub end_ledger : c.end_ledger < 2 ^ 32
  pub checkpoint_hash : IsHash c.checkpoint_hash
  pub checkpoint_few : length c.checkpoint < 2 ^ 32
  pub checkpoint : All IsNode c.checkpoint
  pub delta_count : length c.deltas ≡ c.end_ledger - c.start_ledger
  pub deltas : All IsDelta c.deltas
  pub tx_map_count : length c.tx_maps ≡ c.end_ledger - c.start_ledger + 1
  pub tx_maps : All IsTxMap c.tx_maps

-- The chunk with its nodes, hashes and transactions in the order of the format, under `hash`.
unfoldable pub sorted_chunk : Hash256 → Chunk → Chunk
sorted_chunk hash c = record c {
  chunk_hash = hash;
  checkpoint = sort_by node_key c.checkpoint;
  deltas = map sorted_delta c.deltas;
  tx_maps = map sorted_tx_map c.tx_maps;
}

Reads-check_magic : (m : List ℕ) → length m ≡ 4 → Reads (check_magic m) m tt
unfolding check_magic
Reads-check_magic m h = record {
  run = λ rest. Reads-step _ (Reads-read_exact 4 m h) rest ∙ rw (list_eq_refl m);
}

module _ (c : Chunk) (h : IsChunk c) where
  delta_count-eq : sub_u32 c.end_ledger c.start_ledger ≡ length c.deltas
  delta_count-eq = omega (arith, h.delta_count, h.start_le_end, h.end_ledger)

  Reads-deltas :
      Reads
        (repeat (length c.deltas) read_delta)
        (write_all write_delta c.deltas)
        (map sorted_delta c.deltas)
  Reads-deltas = Reads-repeat _ _ _ IsDelta Reads-read_delta c.deltas h.deltas

  Reads-tx_maps :
      Reads
        (repeat (length c.deltas + 1) read_tx_map)
        (write_all write_tx_map c.tx_maps)
        (map sorted_tx_map c.tx_maps)
  Reads-tx_maps =
      let count : length c.deltas + 1 ≡ length c.tx_maps =
        omega (arith, h.delta_count, h.tx_map_count) in
      rw count (Reads-repeat _ _ _ IsTxMap Reads-read_tx_map c.tx_maps h.tx_maps)

  Reads-blocks :
      Reads
        (read_blocks (length c.deltas))
        (write_all write_delta c.deltas ++ write_all write_tx_map c.tx_maps)
        (map sorted_delta c.deltas, map sorted_tx_map c.tx_maps)
  unfolding read_blocks
  Reads-blocks = Reads-bind _ Reads-deltas (Reads-map _ Reads-tx_maps)

  -- A body of either version: the checkpoint, the bytes of the deltas and maps, and the footer.
  pub Reads-read_body :
      (version : ℕ) {bytes : List ℕ} {parts : List LedgerDelta × List TxMap}
      → Reads
          (if version == format_version_streamed
            then read_streamed (length c.deltas)
            else read_blocks (length c.deltas))
          bytes
          parts
      → Reads
          (read_body version (length c.deltas))
          (write_node_list c.checkpoint ++ (bytes ++ magic_footer))
          (sort_by node_key c.checkpoint, parts.0, parts.1)
  unfolding read_body
  Reads-read_body version r =
      Reads-bind _ (Reads-read_node_list c.checkpoint h.checkpoint_few h.checkpoint)
        (Reads-bind _ r (Reads-map _ (Reads-check_magic magic_footer refl)))

  Reads-body :
      Reads
        (read_body format_version (length c.deltas))
        (serialize_body c)
        (sort_by node_key c.checkpoint, map sorted_delta c.deltas, map sorted_tx_map c.tx_maps)
  unfolding serialize_body
  Reads-body = rw append_assoc at (Reads-read_body format_version Reads-blocks)

-- The header of a chunk file, then its body.
abbrev pub file_bytes : ℕ → Chunk → Hash256 → List ℕ → List ℕ
file_bytes version c hash body =
    magic_header
    ++ (write_u8 version
        ++ (write_u32be c.network_id
            ++ (write_u32be c.start_ledger
                ++ (write_u32be c.end_ledger ++ (c.checkpoint_hash ++ (hash ++ body))))))

check_hash_true :
    (half : List ℕ → Hash256) (body : List ℕ) → check_hash half (half body) body ≡ ok (tt, body)
unfolding check_hash
check_hash_true half body = rw (list_eq_refl (half body))

module _ (sha512 : List ℕ → List ℕ)
    (sha512_size : (bytes : List ℕ) → length (sha512 bytes) ≡ 64) where
  pub sha512half-IsHash : (bytes : List ℕ) → IsHash (sha512half sha512 bytes)
  unfolding sha512half
  sha512half-IsHash bytes = omega (arith, length-take 32 (sha512 bytes), sha512_size bytes)

  pub read_chunk-file_bytes :
      (version : ℕ) (c : Chunk) (body : List ℕ)
      → Reads (check_version version) [] tt
      → IsChunk c
      → Reads
          (read_body version (length c.deltas))
          body
          (sort_by node_key c.checkpoint, map sorted_delta c.deltas, map sorted_tx_map c.tx_maps)
      → read_chunk sha512 (file_bytes version c (sha512half sha512 body) body)
        ≡ ok (sorted_chunk (sha512half sha512 body) c, [])
  unfolding read_chunk sorted_chunk
  read_chunk-file_bytes version c body known h r =
      Reads-step _ (Reads-check_magic magic_header refl) _
      ∙ Reads-step _ (Reads-read_u8 version) _
      ∙ Reads-step _ known _
      ∙ Reads-step _ (Reads-read_u32be c.network_id h.network_id) _
      ∙ Reads-step _ (Reads-read_u32be c.start_ledger (omega (arith, h.start_le_end, h.end_ledger)))
          _
      ∙ Reads-step _ (Reads-read_u32be c.end_ledger h.end_ledger) _
      ∙ Reads-step _ (Reads-read_hash c.checkpoint_hash h.checkpoint_hash) _
      ∙ Reads-step _ (Reads-read_hash (sha512half sha512 body) (sha512half-IsHash body)) _
      ∙ bind-run (check_hash (sha512half sha512) (sha512half sha512 body)) _ body
          (check_hash_true (sha512half sha512) body)
      ∙ bind-run (read_body version (sub_u32 c.end_ledger c.start_ledger)) _ body whole
    where
      whole :
          read_body version (sub_u32 c.end_ledger c.start_ledger) body
          ≡ ok (
            (sort_by node_key c.checkpoint, map sorted_delta c.deltas, map sorted_tx_map c.tx_maps),
            [],
          )
      whole = rw (delta_count-eq c h) (rw append-nil at (r.run []))

  -- A file of version 2 or 3 with the right hash and a body that its version reads.
  deserialize_chunk-file_bytes :
      (version : ℕ) (c : Chunk) (body : List ℕ)
      → Reads (check_version version) [] tt
      → IsChunk c
      → Reads
          (read_body version (length c.deltas))
          body
          (sort_by node_key c.checkpoint, map sorted_delta c.deltas, map sorted_tx_map c.tx_maps)
      → deserialize_chunk sha512 (file_bytes version c (sha512half sha512 body) body)
        ≡ ok (sorted_chunk (sha512half sha512 body) c)
  unfolding deserialize_chunk
  deserialize_chunk-file_bytes version c body known h r =
      ap chunk_of (read_chunk-file_bytes version c body known h r)

  -- For a hash function of 64 bytes and a chunk whose fields fit their widths, with one delta for
  -- each ledger after the first and one transaction map for each ledger, reading the serialized
  -- chunk gives back the chunk, each list sorted by hash, under the hash of its body.
  pub deserialize_chunk-serialize_chunk :
      (c : Chunk)
      → IsChunk c
      → deserialize_chunk sha512 (serialize_chunk sha512 c)
        ≡ ok (sorted_chunk (sha512half sha512 (serialize_body c)) c)
  unfolding serialize_chunk
  deserialize_chunk-serialize_chunk c h =
      deserialize_chunk-file_bytes format_version c (serialize_body c)
        (unfold check_version in Reads-pure tt) h (Reads-body c h)
