-- ===== src/Chunk/Integrity.antt =====
-- What deserialize_chunk of crates/xrla-common/src/serialize.rs accepts: a file whose hash is right.
use xrpl_ledger_archive.Chunk.Write.{sha512half}
use xrpl_ledger_archive.Prelude.{
  true, false, ℕ, zero, suc, ◌+◌, ◌≡◌, refl, ap, ◌∙◌, List, [], ◌∷◌, arith, drop, take, length,
  Bool, ◌==◌, sym, if◌then◌else◌, subst,
}
use xrpl_ledger_archive.Prelude.Parser.{err, ok, Parser, repeat, Result}
use xrpl_ledger_archive.Prelude.Consume.{ok_inj, >>=-then, >>=-eq-ok}
use xrpl_ledger_archive.Prelude.Bytes.{from_be}
use xrpl_ledger_archive.Node.{ShaMapNode}
use xrpl_ledger_archive.Chunk.Types.{
  ChunkError, LedgerDelta, Chunk, TxMap, magic_header, sub_u32, format_version_streamed,
  magic_footer,
}
use xrpl_ledger_archive.Chunk.Read.{
  read_u8, read_u32be, read_hash, check_magic, check_version, check_hash, read_streamed,
  read_blocks, read_body, read_chunk, firsts, seconds, read_node_list, read_tx_map, read_delta,
  read_pair, deserialize_chunk, chunk_of,
}
use xrpl_ledger_archive.Chunk.Sizes.{
  drop-drop, Takes-read_u8, Takes-read_u32be, Takes-read_hash, Takes-check_magic,
  Takes-check_version, check_hash-eq, read_hash-value, read_u32be-value,
}

length-repeat :
    {A : Type 0} (n : ℕ) (p : Parser ChunkError A) (s : List ℕ) (xs : List A) (t : List ℕ)
    → repeat n p s ≡ ok (xs, t)
    → length xs ≡ n
unfolding repeat
length-repeat zero p s xs t h = cc
length-repeat (suc n) p s xs t h =
    let (x, s', e, k) = >>=-eq-ok p _ s h in
    let (ys, s'', e', k') = >>=-eq-ok (repeat n p) _ s' k in
    ground (arith, length-repeat n p s' ys s'' e', k')

length-firsts : {A B : Type 0} (ps : List (A × B)) → length (firsts ps) ≡ length ps
length-firsts [] = refl
length-firsts ((a, b) ∷ ps) = ap suc (length-firsts ps)

length-seconds : {A B : Type 0} (ps : List (A × B)) → length (seconds ps) ≡ length ps
length-seconds [] = refl
length-seconds ((a, b) ∷ ps) = ap suc (length-seconds ps)

-- `n` deltas, and a transaction map more.
abbrev Counted : ℕ → List LedgerDelta → List TxMap → Type 0
Counted n deltas tx_maps = (length deltas ≡ n) × (length tx_maps ≡ n + 1)

read_streamed-Counted :
    (n : ℕ) (s : List ℕ) (d : List LedgerDelta × List TxMap) (t : List ℕ)
    → read_streamed n s ≡ ok (d, t)
    → Counted n d.0 d.1
unfolding read_streamed
read_streamed-Counted n s d t h =
    let (first, s1, e1, k1) = >>=-eq-ok read_tx_map _ s h in
    let (pairs, s2, e2, k2) = >>=-eq-ok (repeat n read_pair) _ s1 k1 in
    ground (arith, k2, length-repeat n _ s1 pairs s2 e2, length-firsts pairs, length-seconds pairs)

read_blocks-Counted :
    (n : ℕ) (s : List ℕ) (d : List LedgerDelta × List TxMap) (t : List ℕ)
    → read_blocks n s ≡ ok (d, t)
    → Counted n d.0 d.1
unfolding read_blocks
read_blocks-Counted n s d t h =
    let (deltas, s1, e1, k1) = >>=-eq-ok (repeat n read_delta) _ s h in
    let (tx_maps, s2, e2, k2) = >>=-eq-ok (repeat (n + 1) read_tx_map) _ s1 k1 in
    ground (arith, k2, length-repeat n _ s deltas s1 e1, length-repeat (n + 1) _ s1 tx_maps s2 e2)

read_parts-Counted :
    (streamed : Bool) (n : ℕ) (s : List ℕ) (d : List LedgerDelta × List TxMap) (t : List ℕ)
    → (if streamed then read_streamed n else read_blocks n) s ≡ ok (d, t)
    → Counted n d.0 d.1
read_parts-Counted true n s d t h = read_streamed-Counted n s d t h
read_parts-Counted false n s d t h = read_blocks-Counted n s d t h

read_body-Counted :
    (version n : ℕ) (s : List ℕ) (b : List ShaMapNode × List LedgerDelta × List TxMap) (t : List ℕ)
    → read_body version n s ≡ ok (b, t)
    → Counted n b.1 b.2
unfolding read_body
read_body-Counted version n s b t h =
    let (nodes, s1, e1, k1) = >>=-eq-ok read_node_list _ s h in
    let (d, s2, e2, k2) =
      >>=-eq-ok (if version == format_version_streamed then read_streamed n else read_blocks n) _ s1
        k1 in
    let (u, s3, e3, k3) = >>=-eq-ok (check_magic magic_footer) _ s2 k2 in
    let c = read_parts-Counted (version == format_version_streamed) n s1 d s2 e2 in
    ground (arith, k3, c)

-- The fields of the header are 4 + 1 + 4 + 4 + 4 + 32 + 32 bytes.
header_rest :
    (s s1 s2 s3 s4 s5 s6 s7 s8 : List ℕ)
    → s1 ≡ drop 4 s
    → s2 ≡ drop 1 s1
    → s3 ≡ drop 0 s2
    → s4 ≡ drop 4 s3
    → s5 ≡ drop 4 s4
    → s6 ≡ drop 4 s5
    → s7 ≡ drop 32 s6
    → s8 ≡ drop 32 s7
    → (s4 ≡ drop 9 s) × (s5 ≡ drop 13 s) × (s7 ≡ drop 49 s) × (s8 ≡ drop 81 s)
header_rest s s1 s2 s3 s4 s5 s6 s7 s8 h1 h2 h3 h4 h5 h6 h7 h8 =
    let to_start : s4 ≡ drop 9 s =
      h4 ∙ ap (drop 4) (h3 ∙ h2 ∙ ap (drop 1) h1) ∙ rw (drop-drop 4 1 s, drop-drop 5 4 s) in
    let to_end : s5 ≡ drop 13 s = h5 ∙ ap (drop 4) to_start ∙ drop-drop 9 4 s in
    let to_hash : s7 ≡ drop 49 s =
      h7 ∙ ap (drop 32) (h6 ∙ ap (drop 4) to_end) ∙ rw (drop-drop 13 4 s, drop-drop 17 32 s) in
    (to_start, to_end, to_hash, h8 ∙ ap (drop 32) to_hash ∙ drop-drop 49 32 s)

module _ (sha512 : List ℕ → List ℕ) where
  -- The body of the file, all that follows its header of 81 bytes, has the hash that stands in the
  -- last 32 bytes of the header, which is the one that the chunk carries; and the first and the last
  -- ledger, which stand in the header, say how many deltas and maps there are.
  pub record IsVerified (bytes : List ℕ) (c : Chunk) : Type 0 where
    pub hash : sha512half sha512 (drop 81 bytes) ≡ take 32 (drop 49 bytes)
    pub carried : c.chunk_hash ≡ take 32 (drop 49 bytes)
    pub start_ledger : c.start_ledger ≡ from_be (take 4 (drop 9 bytes))
    pub end_ledger : c.end_ledger ≡ from_be (take 4 (drop 13 bytes))
    pub counted : Counted (sub_u32 c.end_ledger c.start_ledger) c.deltas c.tx_maps

  read_chunk-IsVerified :
      (bytes : List ℕ) (c : Chunk) (t : List ℕ)
      → read_chunk sha512 bytes ≡ ok (c, t)
      → IsVerified bytes c
  unfolding read_chunk
  read_chunk-IsVerified bytes c t h = >>=-then (check_magic magic_header) _ bytes h λ _ s1 e1 k1.
      >>=-then read_u8 _ s1 k1 λ version s2 e2 k2.
        >>=-then (check_version version) _ s2 k2 λ _ s3 e3 k3.
          >>=-then read_u32be _ s3 k3 λ network s4 e4 k4.
            >>=-then read_u32be _ s4 k4 λ start s5 e5 k5.
              >>=-then read_u32be _ s5 k5 λ last s6 e6 k6.
                >>=-then read_hash _ s6 k6 λ checkpoint s7 e7 k7.
                  >>=-then read_hash _ s7 k7 λ stored s8 e8 k8.
                    >>=-then (check_hash (sha512half sha512) stored) _ s8 k8 λ _ s9 e9 k9.
                      >>=-then (read_body version (sub_u32 last start)) _ s9 k9 λ body s10 e10 k10.
                        let made = (ok_inj k10).0 in
                        let (at_start, at_end, at_hash, at_body) =
                          header_rest bytes s1 s2 s3 s4 s5 s6 s7 s8
                            ((Takes-check_magic magic_header).rest bytes _ s1 e1)
                            (Takes-read_u8.rest s1 version s2 e2)
                            ((Takes-check_version version).rest s2 _ s3 e3)
                            (Takes-read_u32be.rest s3 network s4 e4)
                            (Takes-read_u32be.rest s4 start s5 e5)
                            (Takes-read_u32be.rest s5 last s6 e6)
                            (Takes-read_hash.rest s6 checkpoint s7 e7)
                            (Takes-read_hash.rest s7 stored s8 e8) in
                        let claimed : stored ≡ take 32 (drop 49 bytes) =
                          read_hash-value s7 stored s8 e8 ∙ ap (take 32) at_hash in
                        record {
                          hash =
                              ap (sha512half sha512) (sym at_body)
                              ∙ (check_hash-eq (sha512half sha512) stored s8 s9 e9).0
                              ∙ claimed;
                          carried = sym (ap (λ (x : Chunk). x.chunk_hash) made) ∙ claimed;
                          start_ledger =
                              sym (ap (λ (x : Chunk). x.start_ledger) made)
                              ∙ read_u32be-value s4 start s5 e5
                              ∙ ap (λ b. from_be (take 4 b)) at_start;
                          end_ledger =
                              sym (ap (λ (x : Chunk). x.end_ledger) made)
                              ∙ read_u32be-value s5 last s6 e6
                              ∙ ap (λ b. from_be (take 4 b)) at_end;
                          counted =
                              subst
                                (λ (x : Chunk).
                                  Counted (sub_u32 x.end_ledger x.start_ledger) x.deltas x.tx_maps)
                                made
                                (read_body-Counted version (sub_u32 last start) s9 body s10 e10);
                        }

  -- `deserialize_chunk` accepts only a file whose body, behind its first 81 bytes, has the hash that
  -- stands in the last 32 of these, and that holds one delta for each ledger after the first and one
  -- map for each ledger of the range in these 81 bytes; the chunk carries that hash and that range.
  pub deserialize_chunk-IsVerified :
      (bytes : List ℕ) (c : Chunk) → deserialize_chunk sha512 bytes ≡ ok c → IsVerified bytes c
  unfolding deserialize_chunk
  deserialize_chunk-IsVerified bytes c h = elim_chunk (read_chunk sha512 bytes) refl h
    where
      elim_chunk :
          (r : Result ChunkError (Chunk × List ℕ))
          → read_chunk sha512 bytes ≡ r
          → chunk_of r ≡ ok c
          → IsVerified bytes c
      elim_chunk (ok (d, t)) e k = read_chunk-IsVerified bytes c t (e ∙ cc k)
      elim_chunk (err x) e k = cc
