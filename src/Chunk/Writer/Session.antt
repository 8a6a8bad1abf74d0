-- ===== src/Chunk/Writer/Session.antt =====
-- A whole session with the writer: the invariant of the bytes it has written.
use xrpl_ledger_archive.Disk.{FilePath, tmp_path, Files}
use xrpl_ledger_archive.Chunk.Read.{firsts, seconds}
use xrpl_ledger_archive.Chunk.RoundTrip.Whole.{file_bytes, sha512half-IsHash}
use xrpl_ledger_archive.Prelude.Sort.{sort_by}
use xrpl_ledger_archive.Chunk.Types.{
  LedgerDelta, TxMap, Chunk, magic_footer, format_version_streamed,
}
use xrpl_ledger_archive.Chunk.Write.{
  write_node, write_u32be, as_u32, write_pair, node_key, sha512half,
}
use xrpl_ledger_archive.Node.{ShaMapNode, Hash256, zero_hash}
use xrpl_ledger_archive.Prelude.Parser.{write_all}
use xrpl_ledger_archive.Chunk.Write
use xrpl_ledger_archive.Prelude.{
  [], ◌∷◌, ◌++◌, arith, refl, List, ℕ, ◌≡◌, append_assoc, replicate, append-nil, length, false,
  drop, ◌+◌, ◌≢◌, drop-append, length-append, ap, take-append, sym, ◌∙◌,
}
use xrpl_ledger_archive.Chunk.Writer.{
  body, create, write_nodes, write_checkpoint, write_delta, write_tx_map, write_pairs, overwrite,
  header, ChunkWriter,
}
use xrpl_ledger_archive.Chunk.Writer.Atomic.{complete}

-- A writer of a file with the header `front`, which has written `bytes` behind the hash.
pub record IsStreaming (front : List ℕ) (path : FilePath) (bytes : List ℕ) (w : ChunkWriter)
    : Type 0 where
  pub inner : w.inner ≡ front ++ (replicate 32 0 ++ bytes)
  pub hashed : w.hashed ≡ bytes
  pub offset : w.chunk_hash_offset ≡ length front
  pub fresh : w.finished ≡ false
  pub tmp : w.tmp ≡ tmp_path path
  pub final : w.final ≡ path

module _ {front : List ℕ} {path : FilePath} where
  pub body-IsStreaming :
      (buf : List ℕ) {bytes : List ℕ} {w : ChunkWriter}
      → IsStreaming front path bytes w
      → IsStreaming front path (bytes ++ buf) (body buf w)
  unfolding body
  body-IsStreaming buf {bytes} h = record {
    inner = rw h.inner (append_assoc front (replicate 32 0 ++ bytes) buf);
    hashed = rw h.hashed;
    offset = h.offset;
    fresh = h.fresh;
    tmp = h.tmp;
    final = h.final;
  }

  write_nodes-IsStreaming :
      (nodes : List ShaMapNode) {bytes : List ℕ} {w : ChunkWriter}
      → IsStreaming front path bytes w
      → IsStreaming front path (bytes ++ write_all write_node nodes) (write_nodes nodes w)
  unfolding write_nodes write_all
  write_nodes-IsStreaming [] {bytes} {w} h = rw append-nil h
  write_nodes-IsStreaming (node ∷ nodes) {bytes} {w} h =
      rw (← append_assoc bytes (write_node node) (write_all write_node nodes))
        (write_nodes-IsStreaming nodes (body-IsStreaming (write_node node) h))

  write_checkpoint-IsStreaming :
      (nodes : List ShaMapNode) {bytes : List ℕ} {w : ChunkWriter}
      → IsStreaming front path bytes w
      → IsStreaming front path (bytes ++ Write.write_node_list nodes) (write_checkpoint nodes w)
  unfolding write_checkpoint Write.write_node_list
  write_checkpoint-IsStreaming nodes {bytes} h =
      rw
        (← append_assoc bytes (write_u32be (as_u32 (length (sort_by node_key nodes))))
          (write_all write_node (sort_by node_key nodes)))
        (write_nodes-IsStreaming (sort_by node_key nodes) (body-IsStreaming _ h))

  write_pairs-IsStreaming :
      (pairs : List (LedgerDelta × TxMap)) {bytes : List ℕ} {w : ChunkWriter}
      → IsStreaming front path bytes w
      → IsStreaming front path (bytes ++ write_all write_pair pairs) (write_pairs pairs w)
  unfolding write_pairs write_all write_delta write_tx_map
  write_pairs-IsStreaming [] {bytes} h = rw append-nil h
  write_pairs-IsStreaming ((d, m) ∷ pairs) {bytes} h =
      rw
        (
          ← append_assoc bytes (write_pair (d, m)) (write_all write_pair pairs),
          ← append_assoc bytes (Write.write_delta d) (Write.write_tx_map m),
        )
        (write_pairs-IsStreaming pairs (body-IsStreaming _ (body-IsStreaming _ h)))

abbrev pub both : {A B : Type 0} → (A → A) → (B → B) → A × B → A × B
both f g (a, b) = (f a, g b)

overwrite-middle :
    (front hole patch rest : List ℕ)
    → length hole ≡ length patch
    → overwrite (length front) patch (front ++ (hole ++ rest)) ≡ front ++ (patch ++ rest)
unfolding overwrite
overwrite-middle front hole patch rest h =
    rw (take-append (length front) front (hole ++ rest) refl, dropped)
  where
    dropped : drop (length front + length patch) (front ++ (hole ++ rest)) ≡ rest
    dropped = rw (← append_assoc front hole rest) (
        drop-append (length front + length patch) (front ++ hole) rest
          (omega (arith, length-append front hole)))

length-tmp_path : (path : FilePath) → length (tmp_path path) ≡ length path + 4
unfolding tmp_path
length-tmp_path path = length-append path _

pub tmp_path-ne : (path : FilePath) → tmp_path path ≢ path
tmp_path-ne path e = omega (arith, length-tmp_path path, ap length e)

-- What an exporter gives to the writer.
pub record Export : Type 0 where
  pub path : FilePath
  pub network_id : ℕ
  pub start_ledger : ℕ
  pub end_ledger : ℕ
  pub checkpoint_hash : Hash256
  pub nodes : List ShaMapNode
  pub first : TxMap
  pub pairs : List (LedgerDelta × TxMap)

-- The calls of the exporter, up to `finish`.
unfoldable pub session : Export → Files → ChunkWriter × Files
session e fs =
    let (w, fs') = create e.path e.network_id e.start_ledger e.end_ledger e.checkpoint_hash fs in
    (write_pairs e.pairs (write_tx_map e.first (write_checkpoint e.nodes w)), fs')

-- The chunk that the calls amount to.
abbrev pub exported : Export → Chunk
exported e = record {
  network_id = e.network_id;
  start_ledger = e.start_ledger;
  end_ledger = e.end_ledger;
  checkpoint_hash = e.checkpoint_hash;
  chunk_hash = zero_hash;
  checkpoint = e.nodes;
  deltas = firsts e.pairs;
  tx_maps = e.first ∷ seconds e.pairs;
}

abbrev streamed_bytes : Export → List ℕ
streamed_bytes e =
    Write.write_node_list e.nodes ++ (Write.write_tx_map e.first ++ write_all write_pair e.pairs)

abbrev front_of : Export → List ℕ
front_of e = header e.network_id e.start_ledger e.end_ledger e.checkpoint_hash

pub session-IsStreaming :
    (e : Export) (fs : Files) → IsStreaming (front_of e) e.path (streamed_bytes e) (session e fs).0
unfolding session create write_tx_map
session-IsStreaming e fs = rw append_assoc at (
    write_pairs-IsStreaming e.pairs
      (body-IsStreaming (Write.write_tx_map e.first) (write_checkpoint-IsStreaming e.nodes start)))
  where
    start :
        IsStreaming
          (front_of e)
          e.path
          []
          (create e.path e.network_id e.start_ledger e.end_ledger e.checkpoint_hash fs).0
    start = record {
      inner = rw append-nil;
      hashed = refl;
      offset = refl;
      fresh = refl;
      tmp = refl;
      final = refl;
    }

-- The body of the file: what was streamed, and the footer.
abbrev pub streamed_body : Export → List ℕ
streamed_body e = streamed_bytes e ++ magic_footer

pub complete-session :
    (sha512 : List ℕ → List ℕ) (e : Export) (fs : Files)
    → ((bytes : List ℕ) → length (sha512 bytes) ≡ 64)
    → complete sha512 (session e fs).0
      ≡ file_bytes format_version_streamed
          (exported e)
          (sha512half sha512 (streamed_body e))
          (streamed_body e)
complete-session sha512 e fs size =
    let s = session-IsStreaming e fs in
    let s' = body-IsStreaming magic_footer s in
    rw (s'.inner, s'.hashed, s.offset)
      (overwrite-middle (front_of e) (replicate 32 0) (sha512half sha512 (streamed_body e))
          (streamed_body e) (sym (sha512half-IsHash sha512 size (streamed_body e)))
        ∙ simp append_assoc)
