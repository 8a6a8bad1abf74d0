-- ===== src/Meta/Ends.antt =====
-- The readers of single values of crates/xrla-common/src/meta_decode.rs, and the skipping of values,
-- end on any bytes.
use xrpl_ledger_archive.Prelude.Consume.{>>=-then}
use xrpl_ledger_archive.Meta.Settles.{
  Settles, Advances, Any, Settles-bind, Settles-after, Settles-if, Settles-by_length, Settles-pure,
  Settles-peek, Settles-take_bytes, Settles-Advances, Settles-fail, Advances-byte, Settles-nothing,
}
use xrpl_ledger_archive.Prelude.Parser.{Parser, pure, ◌>>=◌, ok}
use xrpl_ledger_archive.Meta.Skip.{skip_by_type, skip_fields, skip_value, skip_blob, fixed_width}
use xrpl_ledger_archive.Meta.{
  MetaError, AccountId, account_length, unhandled_type, read_vl_len, or_next_byte,
  read_field_header, nonzero, mpt_issuer, read_account, read_amount, skip_issue, byte, type_account,
  type_object, type_array, is_issued_currency, type_amount, is_mpt, no_account, type_vl,
  type_vector256, type_issue,
}
use xrpl_ledger_archive.Prelude.{
  zero, suc, some, none, inl, inr, ℕ, Option, List, length, Bool-cases, drop, ◌≡◌, ◌==◌, arith, leb,
  ◌/◌, list_eq, Option-cases, ◌&&◌, not, replicate, ◌%◌, ==_iff, ◌<◌, ◌||◌,
}

Settles-byte : {n : ℕ} → Settles n Any byte
Settles-byte = Settles-Advances byte Advances-byte

Settles-read_vl_len : {n : ℕ} → Settles n Any read_vl_len
unfolding read_vl_len
Settles-read_vl_len = Settles-bind Any _ _ Settles-byte λ b1 u.
    Settles-if (leb b1 192) (Settles-pure b1 tt) (
      Settles-if (leb b1 240) (Settles-bind Any _ _ Settles-byte λ b2 u'. Settles-pure _ tt) (
        Settles-bind Any _ _ Settles-byte
          λ b2 u'. Settles-bind Any _ _ Settles-byte λ b3 u''. Settles-pure _ tt))

Settles-or_next_byte : {n : ℕ} (code : ℕ) → Settles n Any (or_next_byte code)
unfolding or_next_byte
Settles-or_next_byte code = Settles-if (code == 0) Settles-byte (Settles-pure code tt)

pub Advances-read_field_header : Advances Any read_field_header
unfolding read_field_header
Advances-read_field_header = record {
  ends = λ s. (rounds (length s)).ends s (omega arith);
  shrinks = taken;
  post = λ s a t e. tt;
}
  where
    tail :
        (b1 n : ℕ)
        → Settles {A = ℕ × ℕ} n Any
            (or_next_byte (b1 / 16) >>= λ t. or_next_byte (b1 % 16) >>= λ f. pure (t, f))
    tail b1 n =
        Settles-bind Any _ _ (Settles-or_next_byte (b1 / 16)) λ t u.
          Settles-bind Any _ _ (Settles-or_next_byte (b1 % 16)) λ f u'. Settles-pure (t, f) tt

    rounds : (n : ℕ) → Settles (suc n) Any read_field_header
    rounds n = Settles-after Any _ _ Advances-byte λ b1 u. tail b1 n

    taken :
        (s : List ℕ) (a : ℕ × ℕ) (t : List ℕ)
        → read_field_header s ≡ ok (a, t)
        → length t < length s
    taken s a t e = >>=-then byte _ s e λ b1 s' e' e''.
        let less = Advances-byte.shrinks s b1 s' e' in
        let less' = (tail b1 (suc (length s'))).shrinks s' a t (omega arith) e'' in omega arith

abbrev pub IsId : Option AccountId → Type 0
IsId none = Unit
IsId (some a) = length a ≡ 20

IsId-nonzero : (b : List ℕ) → IsId (nonzero b)
unfolding nonzero
IsId-nonzero b = elim (Bool-cases (length b == 20)) [
  | inl is ↦ elim (Bool-cases (list_eq b (replicate 20 0))) [
    | inl zeros ↦ rw (is, zeros) tt
    | inr other ↦ rw (is, other) ((==_iff (length b) 20).0 is)
  ]
  | inr not ↦ rw not tt
]

pub IsId-mpt_issuer : (id : List ℕ) → IsId (mpt_issuer id)
unfolding mpt_issuer
IsId-mpt_issuer id = IsId-nonzero (drop 4 id)

pub Settles-read_account : {n : ℕ} → Settles n IsId read_account
unfolding read_account
Settles-read_account = Settles-bind Any _ _ Settles-read_vl_len λ k u.
    Settles-if (k == 0) (Settles-pure none tt) (
      Settles-if (k == 20)
        (Settles-bind _ _ _ (Settles-take_bytes 20) λ a h. Settles-pure (some a) h)
        (Settles-fail (account_length k) (λ e. cc)))

pub Settles-read_amount : {n : ℕ} → Settles n IsId read_amount
unfolding read_amount
Settles-read_amount = Settles-bind Any _ _ Settles-peek λ b u.
    Settles-if (is_issued_currency b)
      (Settles-bind _ _ _ (Settles-take_bytes 8) λ v h.
        Settles-bind _ _ _ (Settles-take_bytes 20) λ c h'.
          Settles-bind _ _ _ (Settles-take_bytes 20)
            λ i h''. Settles-pure (nonzero i) (IsId-nonzero i))
      (Settles-if (is_mpt b)
        (Settles-bind _ _ _ (Settles-take_bytes 8) λ v h.
          Settles-bind _ _ _ (Settles-take_bytes 1) λ c h'.
            Settles-bind _ _ _ (Settles-take_bytes 24)
              λ i h''. Settles-pure (mpt_issuer i) (IsId-mpt_issuer i))
        (Settles-bind _ _ _ (Settles-take_bytes 8) λ v h. Settles-pure none tt))

Settles-skip_issue : {n : ℕ} → Settles n Any skip_issue
unfolding skip_issue
Settles-skip_issue = Settles-bind _ _ _ (Settles-take_bytes 20) λ x h.
    Settles-if (list_eq x (replicate 20 0)) (Settles-pure tt tt) (
      Settles-bind _ _ _ (Settles-take_bytes 20) λ y h'.
        Settles-if (list_eq y no_account)
          (Settles-bind _ _ _ (Settles-take_bytes 4) λ z h''. Settles-pure tt tt)
          (Settles-pure tt tt))

Settles-skip_by_type :
    {n : ℕ} (walk : ℕ → Parser MetaError (Unit {0}))
    → ((c : ℕ) → Settles n Any (walk c))
    → (t : ℕ) → Settles n Any (skip_by_type walk t)
unfolding skip_by_type skip_blob
Settles-skip_by_type walk h t = elim (Option-cases (fixed_width t)) [
  | inr (k, e) ↦
      rw (e, skip_by_type) (Settles-bind _ _ _ (Settles-take_bytes k) λ x h'. Settles-pure tt tt)
  | inl e ↦
      rw (e, skip_by_type)
        (Settles-if (t == type_amount)
          (Settles-bind _ _ _ Settles-read_amount λ x h'. Settles-pure tt tt)
          (Settles-if (((t == type_vl) || (t == type_vector256)) || (t == type_account))
            (Settles-bind Any _ _ Settles-read_vl_len
              λ k u. Settles-bind _ _ _ (Settles-take_bytes k) λ x h'. Settles-pure tt tt)
            (Settles-if (t == type_issue) Settles-skip_issue (
              Settles-if ((t == type_object) || (t == type_array)) (h t)
                (Settles-fail (unhandled_type t) (λ e'. cc))))))
]

Settles-skip_fields : (n c : ℕ) → Settles n Any (skip_fields n c)
unfolding skip_fields
Settles-skip_fields zero c = Settles-nothing _
Settles-skip_fields (suc n) c = Settles-after Any _ _ Advances-read_field_header λ header u.
    Settles-if ((header.0 == c) && (header.1 == 1)) (Settles-pure tt tt) (
      Settles-bind Any _ _
        (Settles-skip_by_type (skip_fields n) (λ d. Settles-skip_fields n d) header.0)
        λ x u'. Settles-skip_fields n c)

pub Settles-skip_value : {n : ℕ} (t : ℕ) → Settles n Any (skip_value t)
unfolding skip_value
Settles-skip_value t =
    Settles-by_length (λ n. skip_by_type (skip_fields n) t)
      λ n. Settles-skip_by_type (skip_fields n) (λ c. Settles-skip_fields n c) t
