-- ===== src/Chunk/Stream/Whole.antt =====
-- `stream_chunk` on a whole file.
use xrpl_ledger_archive.Prelude.Bytes.{from_be, from_be_single}
use xrpl_ledger_archive.Chunk.Sizes.{Takes-check_magic, Takes-check_version, check_hash-eq}
use xrpl_ledger_archive.Chunk.Read.Fronts.{TakesFront-read_exact, TakesFront-read_tx_map}
use xrpl_ledger_archive.Chunk.Stream.Agrees.{
  at, Pieces, Follows-hashing, Follows-read_checkpoint, Follows-drain, read_body_parts,
}
use xrpl_ledger_archive.Chunk.Write.{sha512half}
use xrpl_ledger_archive.Chunk.Types.{
  magic_footer, LedgerDelta, TxMap, ChunkError, Chunk, format_version_streamed, magic_header,
  sub_u32,
}
use xrpl_ledger_archive.Node.{ShaMapNode}
use xrpl_ledger_archive.Chunk.Read.{
  check_magic, read_exact, Reader, read_chunk, read_tx_map, read_u8, check_version, read_u32be,
  read_hash, check_hash, read_body,
}
use xrpl_ledger_archive.Prelude.{
  [], ◌∷◌, ◌++◌, arith, refl, true, List, ℕ, ◌≡◌, list_eq, Bool-cases, append-nil, inl, ◌∙◌,
  list_eq_refl, ap, inr, ◌+◌, suc, drop, sym, subst, subst₂, take,
}
use xrpl_ledger_archive.Prelude.Parser.{ok, err, Result, take_exact}
use xrpl_ledger_archive.Prelude.Consume.{ok_inj, >>=-then}
use xrpl_ledger_archive.Chunk.Stream.{
  ChunkReader, Streamed, ◌>>=◌, read_checkpoint, drain, finish, pieces, assemble, stream_chunk,
  open_reader, unhashed, invalid_magic, read_checkpoint_tx_map, StreamError,
}

check_magic-eq :
    (m s t : List ℕ)
    → check_magic m s ≡ ok (tt, t)
    → (b : List ℕ) × (read_exact 4 s ≡ ok (b, t)) × (list_eq b m ≡ true)
unfolding check_magic
check_magic-eq m s t e = >>=-then (read_exact 4) _ s e λ b s1 e1 k1.
    elim (Bool-cases (list_eq b m)) [
      | inl q ↦ (b, e1 ∙ ap (λ u. ok (b, u)) (ok_inj (rw q at k1)).1, q)
      | inr q ↦ absurd (not_ok (rw q at k1))
    ]
  where
    not_ok :
        {s : List ℕ}
        → ◌≡◌ {A = Result ChunkError (Unit {0} × List ℕ)} (err invalid_magic) (ok (tt, s))
        → ⊥
    not_ok q = cc

step :
    {A B : Type 0} (m : Streamed A) (f : A → Streamed B) (r : ChunkReader) {a : A}
    {r' : ChunkReader}
    → m r ≡ ok (a, r')
    → (m >>= f) r ≡ f a r'
step m f r e = rw (e, ◌>>=◌)

unhashed_run :
    {A : Type 0} (p : Reader A) (s : List ℕ) (f : A → List ℕ → Result StreamError ChunkReader)
    {a : A} {t : List ℕ}
    → p s ≡ ok (a, t)
    → unhashed p s f ≡ f a t
unhashed_run p s f e = rw (e, unhashed)

first_byte :
    (s : List ℕ) (v : ℕ) (t : List ℕ) (behind : List ℕ)
    → read_u8 s ≡ ok (v, t)
    → s ≡ format_version_streamed ∷ behind
    → v ≡ format_version_streamed
unfolding read_u8 read_exact take_exact
first_byte s v t behind e q = >>=-then (read_exact 1) _ s e λ b t' e' k.
    let front : b ≡ take 1 s = ground (arith, e') in
    let value : v ≡ from_be b = cc k in
    value ∙ ap from_be (front ∙ ap (take 1) q) ∙ from_be_single format_version_streamed

module _ (sha512 : List ℕ → List ℕ) where
  -- At the end of the file everything has been hashed.
  finish_run :
      (r : ChunkReader) (s h body : List ℕ)
      → h ++ s ≡ body
      → check_magic magic_footer s ≡ ok (tt, [])
      → sha512half sha512 body ≡ r.stored_chunk_hash
      → finish sha512 (at r s h 0) ≡ ok (tt, at r [] body 0)
  unfolding finish
  finish_run r s h body whole e hash =
      let (b, e1, q) = check_magic-eq magic_footer s [] e in
      let (h', e2, w) =
        (Follows-hashing (read_exact 4) s 0 b [] (TakesFront-read_exact 4) e1).go r h body whole in
      let all : h' ≡ body = rw append-nil at w in
      rw (e2, ◌>>=◌, all, q, hash, list_eq_refl r.stored_chunk_hash)

  pieces_run :
      (r : ChunkReader) (n : ℕ) (body : List ℕ)
      {b : List ShaMapNode × List LedgerDelta × List TxMap} (p : Pieces n body b [])
      → sha512half sha512 body ≡ r.stored_chunk_hash
      → pieces sha512 (at r body [] n) ≡ ok ((p.nodes, p.first, p.pairs), at r [] body 0)
  unfolding pieces read_checkpoint_tx_map
  pieces_run r n body p hash =
      let (h1, q1, w1) =
        (Follows-read_checkpoint body n p.nodes p.s1 p.read_nodes).go r [] body refl in
      let (h2, q2, w2) =
        (Follows-hashing read_tx_map p.s1 n p.first p.s2 TakesFront-read_tx_map p.read_first).go r
          h1 body w1 in
      let (h3, q3, w3) = (Follows-drain n p.s2 p.pairs p.s3 p.read_pairs).go r h2 body w2 in
      let rounds : n + 1 ≡ suc n = omega arith in
      let drained : drain (n + 1) (at r p.s2 h2 n) ≡ ok (p.pairs, at r p.s3 h3 0) = rw rounds q3 in
      step read_checkpoint _ (at r body [] n) q1
      ∙ step read_checkpoint_tx_map _ (at r p.s1 h1 n) q2
      ∙ step (λ r'. drain (r'.deltas_remaining + 1) r') _ (at r p.s2 h2 n) drained
      ∙ step (finish sha512) _ (at r p.s3 h3 0) (finish_run r p.s3 h3 body w3 p.read_footer hash)

  abbrev opened : ℕ → ℕ → ℕ → List ℕ → List ℕ → List ℕ → ChunkReader
  opened network start last checkpoint stored body = record {
    inner = body;
    hashed = [];
    network_id = network;
    start_ledger = start;
    end_ledger = last;
    checkpoint_hash = checkpoint;
    stored_chunk_hash = stored;
    deltas_remaining = sub_u32 last start;
  }

  -- A body of version 3 whose hash is the stored one, behind a reader that was just opened.
  assembled :
      (network start last : ℕ) (checkpoint stored s : List ℕ)
      (b : List ShaMapNode × List LedgerDelta × List TxMap)
      → sha512half sha512 s ≡ stored
      → read_body format_version_streamed (sub_u32 last start) s ≡ ok (b, [])
      → (let r = opened network start last checkpoint stored s in
          assemble sha512 r (pieces sha512 r))
        ≡ ok (record {
          network_id = network;
          start_ledger = start;
          end_ledger = last;
          checkpoint_hash = checkpoint;
          chunk_hash = stored;
          checkpoint = b.0;
          deltas = b.1;
          tx_maps = b.2;
        })
  assembled network start last checkpoint stored s b hash e =
      let r = opened network start last checkpoint stored s in
      let p = read_body_parts (sub_u32 last start) s b [] e in
      let run = pieces_run r (sub_u32 last start) s p hash in ap (assemble sha512 r) run ∙ rw p.made

  open_run :
      (bytes s1 s2 s3 s4 s5 s6 s7 : List ℕ) (network start last : ℕ) (checkpoint stored : List ℕ)
      → check_magic magic_header bytes ≡ ok (tt, s1)
      → read_u8 s1 ≡ ok (format_version_streamed, s2)
      → read_u32be s2 ≡ ok (network, s3)
      → read_u32be s3 ≡ ok (start, s4)
      → read_u32be s4 ≡ ok (last, s5)
      → read_hash s5 ≡ ok (checkpoint, s6)
      → read_hash s6 ≡ ok (stored, s7)
      → open_reader bytes ≡ ok (opened network start last checkpoint stored s7)
  unfolding open_reader
  open_run bytes s1 s2 s3 s4 s5 s6 s7 network start last checkpoint stored e1 e2 e3 e4 e5 e6 e7 =
      unhashed_run (check_magic magic_header) bytes _ e1
      ∙ unhashed_run read_u8 s1 _ e2
      ∙ unhashed_run read_u32be s2 _ e3
      ∙ unhashed_run read_u32be s3 _ e4
      ∙ unhashed_run read_u32be s4 _ e5
      ∙ unhashed_run read_hash s5 _ e6
      ∙ unhashed_run read_hash s6 _ e7

  -- A file whose version byte is 3 and that `deserialize_chunk` reads up to its end is read as
  -- the same chunk when it is streamed.
  pub stream_chunk-read_chunk :
      (bytes : List ℕ) (c : Chunk) (behind : List ℕ)
      → drop 4 bytes ≡ format_version_streamed ∷ behind
      → read_chunk sha512 bytes ≡ ok (c, [])
      → stream_chunk sha512 bytes ≡ ok c
  unfolding read_chunk stream_chunk
  stream_chunk-read_chunk bytes c behind v h =
      >>=-then (check_magic magic_header) _ bytes h λ _ s1 e1 k1.
        >>=-then read_u8 _ s1 k1 λ version s2 e2 k2.
          >>=-then (check_version version) _ s2 k2 λ _ s3 e3 k3.
            >>=-then read_u32be _ s3 k3 λ network s4 e4 k4.
              >>=-then read_u32be _ s4 k4 λ start s5 e5 k5.
                >>=-then read_u32be _ s5 k5 λ last s6 e6 k6.
                  >>=-then read_hash _ s6 k6 λ checkpoint s7 e7 k7.
                    >>=-then read_hash _ s7 k7 λ stored s8 e8 k8.
                      >>=-then (check_hash (sha512half sha512) stored) _ s8 k8 λ _ s9 e9 k9.
                        >>=-then (read_body version (sub_u32 last start)) _ s9 k9
                          λ body s10 e10 k10.
                            let v3 =
                              (first_byte s1 version s2 behind e2
                                ((Takes-check_magic magic_header).rest bytes _ s1 e1 ∙ v)) in
                            let q3 : s3 ≡ s2 = (Takes-check_version version).rest s2 _ s3 e3 in
                            let (hash, q9) = check_hash-eq (sha512half sha512) stored s8 s9 e9 in
                            let e4' : read_u32be s2 ≡ ok (network, s4) =
                              subst (λ x. read_u32be x ≡ ok (network, s4)) q3 e4 in
                            let e10' : read_body format_version_streamed (sub_u32 last start) s8
                                ≡ ok (body, []) =
                              subst₂ (λ x y. read_body x (sub_u32 last start) y ≡ ok (body, [])) v3
                                (sym q9) (e10 ∙ ap (λ x. ok (body, x)) (ok_inj k10).1) in
                            let e2' : read_u8 s1 ≡ ok (format_version_streamed, s2) =
                              e2 ∙ ap (λ x. ok (x, s2)) v3 in
                            rw
                              (
                                stream_chunk,
                                open_run bytes s1 s2 s4 s5 s6 s7 s8 network start last checkpoint
                                    stored e1 e2' e4' e5 e6 e7 e8,
                              )
                              (assembled network start last checkpoint stored s8 body hash e10'
                                ∙ ap ok (ok_inj k10).0)
