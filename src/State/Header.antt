-- ===== src/State/Header.antt =====
-- The bytes of a ledger header, and its fields.
use xrpl_ledger_archive.Prelude.Bytes.{be_bytes, from_be-be_bytes, length-be_bytes, from_be}
use xrpl_ledger_archive.Chunk.Write.{write_u32be, write_u64be}
use xrpl_ledger_archive.Prelude.{
  ◌<◌, ℕ, ◌^◌, List, length, ◌≡◌, ◌++◌, sym, ◌∷◌, take-append, [], ◌∙◌, ap, refl, take, drop-append,
  drop,
}
use xrpl_ledger_archive.State.{LedgerHashInput, ledger_header_object}

-- What the integer types and `[u8; 32]` allow.
pub record IsHeader (h : LedgerHashInput) : Type 0 where
  pub seq_bound : h.seq < 256 ^ 4
  pub drops_bound : h.drops < 256 ^ 8
  pub parent_hash_size : length h.parent_hash ≡ 32
  pub tx_hash_size : length h.tx_hash ≡ 32
  pub account_hash_size : length h.account_hash ≡ 32
  pub parent_close_time_bound : h.parent_close_time < 256 ^ 4
  pub close_time_bound : h.close_time < 256 ^ 4

-- Fields of the same width, one after the other.
fields :
    (n : ℕ) (xs ys xs' ys' : List ℕ)
    → length xs ≡ n
    → length ys ≡ n
    → xs ++ xs' ≡ ys ++ ys'
    → (xs ≡ ys) × (xs' ≡ ys')
fields n xs ys xs' ys' h k e = (
  sym (take-append n xs xs' h) ∙ ap (take n) e ∙ take-append n ys ys' k,
  sym (drop-append n xs xs' h) ∙ ap (drop n) e ∙ drop-append n ys ys' k,
)

number : (k v w : ℕ) → v < 256 ^ k → w < 256 ^ k → be_bytes k v ≡ be_bytes k w → v ≡ w
number k v w h h' e = sym (from_be-be_bytes k v h) ∙ ap from_be e ∙ from_be-be_bytes k w h'

-- Two headers whose fields fit their types and whose bytes are the same are the same.
pub ledger_header_object_inj :
    (a b : LedgerHashInput)
    → IsHeader a
    → IsHeader b
    → ledger_header_object a ≡ ledger_header_object b
    → a ≡ b
unfolding ledger_header_object write_u32be write_u64be
ledger_header_object_inj a b h k e =
    let (_, e1) = fields 4 (76 ∷ 87 ∷ 82 ∷ 0 ∷ []) (76 ∷ 87 ∷ 82 ∷ 0 ∷ []) _ _ refl refl e in
    let (q1, e2) =
      fields 4 (be_bytes 4 a.seq) (be_bytes 4 b.seq) _ _ (length-be_bytes 4 a.seq)
        (length-be_bytes 4 b.seq) e1 in
    let (q2, e3) =
      fields 8 (be_bytes 8 a.drops) (be_bytes 8 b.drops) _ _ (length-be_bytes 8 a.drops)
        (length-be_bytes 8 b.drops) e2 in
    let (q3, e4) =
      fields 32 a.parent_hash b.parent_hash _ _ h.parent_hash_size k.parent_hash_size e3 in
    let (q4, e5) = fields 32 a.tx_hash b.tx_hash _ _ h.tx_hash_size k.tx_hash_size e4 in
    let (q5, e6) =
      fields 32 a.account_hash b.account_hash _ _ h.account_hash_size k.account_hash_size e5 in
    let (q6, e7) =
      fields 4 (be_bytes 4 a.parent_close_time) (be_bytes 4 b.parent_close_time) _ _
        (length-be_bytes 4 a.parent_close_time) (length-be_bytes 4 b.parent_close_time) e6 in
    let (q7, e8) =
      fields 4 (be_bytes 4 a.close_time) (be_bytes 4 b.close_time) _ _
        (length-be_bytes 4 a.close_time) (length-be_bytes 4 b.close_time) e7 in
    let (q8, e9) =
      fields 1 (a.close_time_resolution ∷ []) (b.close_time_resolution ∷ []) (a.close_flags ∷ [])
        (b.close_flags ∷ []) refl refl e8 in
    let n1 = number 4 a.seq b.seq h.seq_bound k.seq_bound q1 in
    let n2 = number 8 a.drops b.drops h.drops_bound k.drops_bound q2 in
    let n6 =
      number 4 a.parent_close_time b.parent_close_time h.parent_close_time_bound
        k.parent_close_time_bound q6 in
    let n7 = number 4 a.close_time b.close_time h.close_time_bound k.close_time_bound q7 in
    cc (n1, n2, q3, q4, q5, n6, n7, q8, e9)
