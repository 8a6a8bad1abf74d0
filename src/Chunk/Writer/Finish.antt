-- ===== src/Chunk/Writer/Finish.antt =====
-- What a whole session leaves on disk, and `deserialize_chunk` on it.
use xrpl_ledger_archive.Disk.{Files, tmp_path}
use xrpl_ledger_archive.Chunk.Write.{sha512half, write_pair}
use xrpl_ledger_archive.Prelude.Parser.{
  Reads, write_all, ok, Reads-pure, Reads-bind, repeat, Reads-repeat, Reads-map,
}
use xrpl_ledger_archive.Chunk.RoundTrip.Records.{
  IsDelta, IsTxMap, sorted_delta, sorted_tx_map, Reads-read_delta, Reads-read_tx_map,
}
use xrpl_ledger_archive.Chunk.Writer.Session.{
  Export, exported, both, session, streamed_body, session-IsStreaming, tmp_path-ne,
  body-IsStreaming, complete-session,
}
use xrpl_ledger_archive.Chunk.Types.{LedgerDelta, TxMap, format_version_streamed, magic_footer}
use xrpl_ledger_archive.Chunk.Read.{
  read_pair, read_streamed, firsts, deserialize_chunk, seconds, check_version, read_chunk, chunk_of,
}
use xrpl_ledger_archive.Chunk.Write
use xrpl_ledger_archive.Chunk.Writer.{body, finish, ChunkWriter, no_faults}
use xrpl_ledger_archive.Chunk.Writer.Atomic.{finish-IsAtomic}
use xrpl_ledger_archive.Prelude.{
  [], ◌∷◌, ◌++◌, refl, List, length, ℕ, map, ◌≡◌, All, ap, suc, none, some, append_assoc, ◌≢◌, ◌∙◌,
}
use xrpl_ledger_archive.Chunk.RoundTrip.Whole.{
  sorted_chunk, IsChunk, file_bytes, Reads-read_body, read_chunk-file_bytes,
}

firsts-map :
    {A B : Type 0} (f : A → A) (g : B → B) (ps : List (A × B))
    → (firsts (map (both f g) ps) ≡ map f (firsts ps))
      × (seconds (map (both f g) ps) ≡ map g (seconds ps))
firsts-map f g [] = (refl, refl)
firsts-map f g ((a, b) ∷ ps) =
    (ap (λ xs. f a ∷ xs) (firsts-map f g ps).0, ap (λ xs. g b ∷ xs) (firsts-map f g ps).1)

All-pairs :
    (ps : List (LedgerDelta × TxMap))
    → All IsDelta (firsts ps)
    → All IsTxMap (seconds ps)
    → All (λ p. IsDelta p.0 × IsTxMap p.1) ps
All-pairs [] h k = tt
All-pairs ((d, m) ∷ ps) h k = ((h.0, k.0), All-pairs ps h.1 k.1)

length-firsts : {A B : Type 0} (ps : List (A × B)) → length (firsts ps) ≡ length ps
length-firsts [] = refl
length-firsts ((a, b) ∷ ps) = ap suc (length-firsts ps)

Reads-read_pair :
    (p : LedgerDelta × TxMap)
    → IsDelta p.0 × IsTxMap p.1
    → Reads read_pair (write_pair p) (both sorted_delta sorted_tx_map p)
unfolding read_pair
Reads-read_pair (d, m) h =
    Reads-bind _ (Reads-read_delta d h.0) (Reads-map _ (Reads-read_tx_map m h.1))

Reads-read_streamed :
    (e : Export)
    → IsChunk (exported e)
    → Reads
        (read_streamed (length (firsts e.pairs)))
        (Write.write_tx_map e.first ++ write_all write_pair e.pairs)
        (map sorted_delta (firsts e.pairs), map sorted_tx_map (e.first ∷ seconds e.pairs))
unfolding read_streamed
Reads-read_streamed e h =
    let split = firsts-map sorted_delta sorted_tx_map e.pairs in
    rw (← split.0, ← split.1, length-firsts e.pairs)
      (Reads-bind _ (Reads-read_tx_map e.first h.tx_maps.0) (Reads-map _ pairs_read))
  where
    pairs_read :
        Reads
          (repeat (length e.pairs) read_pair)
          (write_all write_pair e.pairs)
          (map (both sorted_delta sorted_tx_map) e.pairs)
    pairs_read =
        Reads-repeat read_pair write_pair (both sorted_delta sorted_tx_map)
          (λ p. IsDelta p.0 × IsTxMap p.1) Reads-read_pair e.pairs
          (All-pairs e.pairs h.deltas h.tx_maps.1)

-- The file that a whole session makes.
abbrev pub exported_file : (List ℕ → List ℕ) → Export → List ℕ
exported_file sha512 e =
    file_bytes format_version_streamed (exported e) (sha512half sha512 (streamed_body e))
      (streamed_body e)

pub read_chunk-exported_file :
    (sha512 : List ℕ → List ℕ) (e : Export)
    → ((bytes : List ℕ) → length (sha512 bytes) ≡ 64)
    → IsChunk (exported e)
    → read_chunk sha512 (exported_file sha512 e)
      ≡ ok (sorted_chunk (sha512half sha512 (streamed_body e)) (exported e), [])
read_chunk-exported_file sha512 e size h =
    read_chunk-file_bytes sha512 size format_version_streamed (exported e) (streamed_body e)
      (unfold check_version in Reads-pure tt) h
      (rw
        (append_assoc (Write.write_node_list e.nodes)
          (Write.write_tx_map e.first ++ write_all write_pair e.pairs) magic_footer)
        (Reads-read_body (exported e) h format_version_streamed (Reads-read_streamed e h)))

deserialize_chunk-exported_file :
    (sha512 : List ℕ → List ℕ) (e : Export)
    → ((bytes : List ℕ) → length (sha512 bytes) ≡ 64)
    → IsChunk (exported e)
    → deserialize_chunk sha512 (exported_file sha512 e)
      ≡ ok (sorted_chunk (sha512half sha512 (streamed_body e)) (exported e))
unfolding deserialize_chunk
deserialize_chunk-exported_file sha512 e size h =
    ap chunk_of (read_chunk-exported_file sha512 e size h)

finish_ok :
    (sha512 : List ℕ → List ℕ) (w : ChunkWriter) (fs : Files)
    → (finish sha512 no_faults w fs).0 ≡ ok (sha512half sha512 (body magic_footer w).hashed)
unfolding finish
finish_ok sha512 w fs = refl

-- The outcome of a session in which no call fails.
pub session_outcome :
    (sha512 : List ℕ → List ℕ) (e : Export) (fs : Files)
    → ((bytes : List ℕ) → length (sha512 bytes) ≡ 64)
    → let (w, fs') = session e fs in
      let (result, fs'') = finish sha512 no_faults w fs' in
      (result ≡ ok (sha512half sha512 (streamed_body e)))
      × (fs'' (tmp_path e.path) ≡ none)
      × (fs'' e.path ≡ some (exported_file sha512 e))
session_outcome sha512 e fs size =
    let s = session-IsStreaming e fs in
    let w = (session e fs).0 in
    let fs' = (session e fs).1 in
    let hash = sha512half sha512 (streamed_body e) in
    let ne : w.tmp ≢ w.final = rw (s.tmp, s.final) (tmp_path-ne e.path) in
    let result : (finish sha512 no_faults w fs').0 ≡ ok hash =
      finish_ok sha512 w fs'
      ∙ ap (λ b. ok (sha512half sha512 b)) (body-IsStreaming magic_footer s).hashed in
    let at = (finish-IsAtomic sha512 no_faults w fs' s.fresh ne).finished hash result in
    (result, rw s.tmp at at.2, (rw s.final at at.1) ∙ ap some (complete-session sha512 e fs size))

-- For a hash function of 64 bytes and an export whose fields fit their widths, with a transaction
-- map for each ledger and a delta for each after the first: a session in which no call of the
-- file system fails leaves, at the name that was asked for, a file that `deserialize_chunk` reads
-- as the exported chunk in the order of the format, under the hash that `finish` returned; and
-- nothing at the temporary name.
pub finish-session :
    (sha512 : List ℕ → List ℕ) (e : Export) (fs : Files)
    → ((bytes : List ℕ) → length (sha512 bytes) ≡ 64)
    → IsChunk (exported e)
    → let (w, fs') = session e fs in
      let (result, fs'') = finish sha512 no_faults w fs' in
      let hash = sha512half sha512 (streamed_body e) in
      (result ≡ ok hash)
      × (fs'' (tmp_path e.path) ≡ none)
      × ((bytes : List ℕ) × (fs'' e.path ≡ some bytes)
          × (deserialize_chunk sha512 bytes ≡ ok (sorted_chunk hash (exported e))))
finish-session sha512 e fs size h =
    let (result, gone, left) = session_outcome sha512 e fs size in
    (result, gone, (exported_file sha512 e, left, deserialize_chunk-exported_file sha512 e size h))
