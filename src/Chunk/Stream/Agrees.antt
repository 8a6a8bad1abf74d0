-- ===== src/Chunk/Stream/Agrees.antt =====
-- The streaming reader, step by step, beside the readers of `deserialize_chunk`.
use xrpl_ledger_archive.Chunk.Read.Fronts.{
  TakesFront-read_node, TakesFront-read_delta, TakesFront-read_tx_map, TakesFront-read_u32be,
}
use xrpl_ledger_archive.Chunk.Types.{
  ChunkError, LedgerDelta, TxMap, magic_footer, format_version_streamed,
}
use xrpl_ledger_archive.Node.{ShaMapNode}
use xrpl_ledger_archive.Prelude.Consume.{TakesFront, taken, taken-append, >>=-then}
use xrpl_ledger_archive.Chunk.Read.{
  Reader, read_node, read_pair, read_delta, read_tx_map, read_node_list, read_u32be, check_magic,
  read_body, read_streamed, firsts, seconds,
}
use xrpl_ledger_archive.Prelude.Consume.{ok_inj}
use xrpl_ledger_archive.Prelude.{
  [], ◌∷◌, ◌++◌, arith, refl, List, ℕ, ◌≡◌, suc, append_assoc, zero, ◌∙◌, ap, sym, some, subst₂,
  ◌-◌, Option, ◌==◌, false,
}
use xrpl_ledger_archive.Prelude.Parser.{ok, Result, repeat}
use xrpl_ledger_archive.Chunk.Stream.{
  ChunkReader, Streamed, hashing, ◌>>=◌, pure, each_node, read_checkpoint, next_delta_tx_map, drain,
  some_pair,
}

-- A reader with the header of `r`, over `s`, having hashed `h`, with `k` deltas to come.
abbrev pub at : ChunkReader → List ℕ → List ℕ → ℕ → ChunkReader
at r s h k = record r { inner = s; hashed = h; deltas_remaining = k }

-- `m` takes the reader from `s` to `t`, whatever was hashed; and what was hashed and what is left
-- make up the same body before and after. The count goes from `k` to `l`.
pub record Follows {A : Type 0} (m : Streamed A) (s : List ℕ) (k : ℕ) (a : A) (t : List ℕ) (l : ℕ)
    : Type 0 where
  pub go :
      (r : ChunkReader) (h body : List ℕ)
      → h ++ s ≡ body
      → (h' : List ℕ) × (m (at r s h k) ≡ ok (a, at r t h' l)) × (h' ++ t ≡ body)

pub Follows-hashing :
    {A : Type 0} (p : Reader A) (s : List ℕ) (k : ℕ) (a : A) (t : List ℕ)
    → TakesFront p
    → p s ≡ ok (a, t)
    → Follows (hashing p) s k a t k
unfolding hashing
Follows-hashing p s k a t front e = record {
  go = λ r h body whole.
      let (c, q) = front.split s a t e in
      let e' : taken s t ≡ c = taken-append s c t q in
      (h ++ c, rw (e, hashing, e'), append_assoc h c t ∙ ap (λ xs. h ++ xs) (sym q) ∙ whole);
}

Follows-pure : {A : Type 0} (s : List ℕ) (k : ℕ) (a : A) → Follows (pure a) s k a s k
Follows-pure s k a = record { go = λ r h body whole. (h, refl, whole) }

-- The result and the rest, as the parser states them.
cast :
    {A : Type 0} {m : Streamed A} {s t u : List ℕ} {k l : ℕ} {a b : A}
    → ◌≡◌ {A = Result ChunkError (A × List ℕ)} (ok (a, t)) (ok (b, u))
    → Follows m s k a t l
    → Follows m s k b u l
cast {m = m} {s = s} {k = k} {l = l} e f =
    subst₂ (λ x v. Follows m s k x v l) (ok_inj e).0 (ok_inj e).1 f

Follows-bind :
    {A B : Type 0} (m : Streamed A) (f : A → Streamed B) {s t u : List ℕ} {k l n : ℕ} {a : A}
    {b : B}
    → Follows m s k a t l
    → Follows (f a) t l b u n
    → Follows (m >>= f) s k b u n
Follows-bind m f h g = record {
  go = λ r x body whole.
      let (y, e, w) = h.go r x body whole in
      let (z, e', w') = g.go r y body w in (z, rw (e, ◌>>=◌) e', w');
}

Follows-each_node :
    (n : ℕ) (s : List ℕ) (k : ℕ) (nodes : List ShaMapNode) (t : List ℕ)
    → repeat n read_node s ≡ ok (nodes, t)
    → Follows (each_node n) s k nodes t k
unfolding each_node repeat
Follows-each_node zero s k nodes t e = cast e (Follows-pure s k [])
Follows-each_node (suc n) s k nodes t e = >>=-then read_node _ s e λ node s1 e1 k1.
    >>=-then (repeat n read_node) _ s1 k1 λ rest s2 e2 k2. cast k2 (
      Follows-bind _ _ (Follows-hashing read_node s k node s1 TakesFront-read_node e1)
        (Follows-bind _ _ (Follows-each_node n s1 k rest s2 e2) (Follows-pure s2 k (node ∷ rest))))

counted :
    (n : ℕ) (delta : LedgerDelta) (tx_map : TxMap) (s : List ℕ)
    → Follows {A = Option (LedgerDelta × TxMap)}
        (λ r. ok (some (delta, tx_map), record r { deltas_remaining = r.deltas_remaining - 1 }))
        s
        (suc n)
        (some (delta, tx_map))
        s
        n
counted n delta tx_map s = record {
  go = λ r h body whole. (h, ap (λ k. ok (some (delta, tx_map), at r s h k)) (omega arith), whole);
}

Follows-some_pair :
    (n : ℕ) (s : List ℕ) (pair : LedgerDelta × TxMap) (t : List ℕ)
    → read_pair s ≡ ok (pair, t)
    → Follows some_pair s (suc n) (some pair) t n
unfolding some_pair read_pair
Follows-some_pair n s pair t e = >>=-then read_delta _ s e λ delta s1 e1 k1.
    >>=-then read_tx_map _ s1 k1 λ tx_map s2 e2 k2.
      subst₂ (λ x v. Follows some_pair s (suc n) (some x) v n) (ok_inj k2).0 (ok_inj k2).1
        (Follows-bind (hashing read_delta) _
          (Follows-hashing read_delta s (suc n) delta s1 TakesFront-read_delta e1)
          (Follows-bind (hashing read_tx_map) _
            (Follows-hashing read_tx_map s1 (suc n) tx_map s2 TakesFront-read_tx_map e2)
            (counted n delta tx_map s2)))

-- A round of the loop with deltas to come.
Follows-next :
    (n : ℕ) (s : List ℕ) (pair : LedgerDelta × TxMap) (t : List ℕ)
    → read_pair s ≡ ok (pair, t)
    → Follows next_delta_tx_map s (suc n) (some pair) t n
unfolding next_delta_tx_map
Follows-next n s pair t e = record {
  go = λ r h body whole.
      let (y, q, w) = (Follows-some_pair n s pair t e).go r h body whole in
      let more : (suc n == 0) ≡ false = ground arith in (y, rw more q, w);
}

pub Follows-drain :
    (n : ℕ) (s : List ℕ) (pairs : List (LedgerDelta × TxMap)) (t : List ℕ)
    → repeat n read_pair s ≡ ok (pairs, t)
    → Follows (drain (suc n)) s n pairs t 0
unfolding drain repeat
Follows-drain zero s pairs t e =
    cast e (record { go = λ r h body whole. (h, unfold next_delta_tx_map in refl, whole) })
Follows-drain (suc n) s pairs t e = >>=-then read_pair _ s e λ pair s1 e1 k1.
    >>=-then (repeat n read_pair) _ s1 k1 λ rest s2 e2 k2. cast k2 (
      Follows-bind _ _ (Follows-next n s pair s1 e1)
        (Follows-bind _ _ (Follows-drain n s1 rest s2 e2) (Follows-pure s2 0 (pair ∷ rest))))

pub Follows-read_checkpoint :
    (s : List ℕ) (k : ℕ) (nodes : List ShaMapNode) (t : List ℕ)
    → read_node_list s ≡ ok (nodes, t)
    → Follows read_checkpoint s k nodes t k
unfolding read_checkpoint read_node_list
Follows-read_checkpoint s k nodes t e = >>=-then read_u32be _ s e λ count s1 e1 k1.
    Follows-bind _ _ (Follows-hashing read_u32be s k count s1 TakesFront-read_u32be e1)
      (Follows-each_node count s1 k nodes t k1)

-- What a body of version 3 is read as, step by step.
pub record Pieces (n : ℕ) (s : List ℕ) (b : List ShaMapNode × List LedgerDelta × List TxMap)
    (t : List ℕ) : Type 0 where
  pub nodes : List ShaMapNode
  pub first : TxMap
  pub pairs : List (LedgerDelta × TxMap)
  pub s1 : List ℕ
  pub s2 : List ℕ
  pub s3 : List ℕ
  pub read_nodes : read_node_list s ≡ ok (nodes, s1)
  pub read_first : read_tx_map s1 ≡ ok (first, s2)
  pub read_pairs : repeat n read_pair s2 ≡ ok (pairs, s3)
  pub read_footer : check_magic magic_footer s3 ≡ ok (tt, t)
  pub made : b ≡ (nodes, firsts pairs, first ∷ seconds pairs)

pub read_body_parts :
    (n : ℕ) (s : List ℕ) (b : List ShaMapNode × List LedgerDelta × List TxMap) (t : List ℕ)
    → read_body format_version_streamed n s ≡ ok (b, t)
    → Pieces n s b t
unfolding read_body read_streamed
read_body_parts n s b t e = >>=-then read_node_list _ s e λ nodes s1 e1 k1.
    >>=-then (read_streamed n) _ s1 k1 λ parts s3 e3 k3.
      >>=-then (check_magic magic_footer) _ s3 k3 λ _ s4 e4 k4.
        >>=-then read_tx_map _ s1 e3 λ first s2 e2 k2.
          >>=-then (repeat n read_pair) _ s2 k2 λ pairs s3' e3' k3'. record {
            nodes = nodes;
            first = first;
            pairs = pairs;
            s1 = s1;
            s2 = s2;
            s3 = s3';
            read_nodes = e1;
            read_first = e2;
            read_pairs = e3';
            read_footer = cc (e4, k4, k3');
            made = cc (k4, k3');
          }
