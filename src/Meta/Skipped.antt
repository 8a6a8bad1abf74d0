-- ===== src/Meta/Skipped.antt =====
-- `skip_value` of crates/xrla-common/src/meta_decode.rs on the encoding of a value.
use xrpl_ledger_archive.TxTree.{write_vl}
use xrpl_ledger_archive.Meta.Reads.{
  Reads-forget, Reads-take_bytes, Reads-read_amount, Reads-skip_issue, Reads-skip_blob,
  Reads-read_field_header,
}
use xrpl_ledger_archive.Prelude.Parser.{Parser, Reads, Reads-bind, Reads-pure, Reads-last}
use xrpl_ledger_archive.Meta.Tree.{
  type_of, field_header, encode_value, code_of, encode_fields, Value, width_of, IsValue, FixedType,
  Amount, Issue, encode_account, AreFields, IsAmount, IsIssue, IsAccount, end_marker, encode_amount,
  encode_issue, Fields,
}
use xrpl_ledger_archive.Meta.Skip.{fixed_width, skip_by_type, skip_value, skip_fields}
use xrpl_ledger_archive.Meta.{
  type_object, type_array, read_field_header, byte, MetaError, or_next_byte, type_amount,
  type_issue, type_vl, type_vector256, AccountId, type_account,
}
use xrpl_ledger_archive.Meta.Tree.{
  fixed, amount, account, blob, vector256, issue, object, array, end, field, uint8, uint16, uint32,
  int32, uint64, int64, number, uint96, uint128, uint160, currency, uint192, uint256, uint384,
  uint512,
}
use xrpl_ledger_archive.Prelude.{
  zero, suc, [], true, some, none, ◌++◌, ℕ, ◌==◌, ◌<◌, ◌&&◌, length, List, ◌≡◌, arith, ◌≤◌, suc,
  refl, Option, length-append, [], append_assoc,
}

fixed_width-code_of : (t : FixedType) → fixed_width (code_of t) ≡ some (width_of t)
unfolding fixed_width code_of width_of
fixed_width-code_of uint8 = refl
fixed_width-code_of uint16 = refl
fixed_width-code_of uint32 = refl
fixed_width-code_of int32 = refl
fixed_width-code_of uint64 = refl
fixed_width-code_of int64 = refl
fixed_width-code_of number = refl
fixed_width-code_of uint96 = refl
fixed_width-code_of uint128 = refl
fixed_width-code_of uint160 = refl
fixed_width-code_of currency = refl
fixed_width-code_of uint192 = refl
fixed_width-code_of uint256 = refl
fixed_width-code_of uint384 = refl
fixed_width-code_of uint512 = refl

pub type_of_bounds : (v : Value) → (0 < type_of v) × (type_of v < 256)
unfolding type_of code_of
type_of_bounds (fixed uint8 bs) = omega arith
type_of_bounds (fixed _ bs) = omega arith
type_of_bounds (amount a) = omega arith
type_of_bounds _ = omega arith

module _ (walk : ℕ → Parser MetaError (Unit {0})) where
  Reads-skip_fixed :
      (t : FixedType) (bs : List ℕ)
      → length bs ≡ width_of t
      → Reads (skip_by_type walk (code_of t)) bs tt
  unfolding skip_by_type
  Reads-skip_fixed t bs h =
      rw (fixed_width-code_of t, skip_by_type)
        (Reads-forget _ bs (Reads-take_bytes (width_of t) bs h))

  Reads-skip_amount :
      (a : Amount) → IsAmount a → Reads (skip_by_type walk type_amount) (encode_amount a) tt
  unfolding skip_by_type fixed_width
  Reads-skip_amount a h = Reads-forget _ (encode_amount a) (Reads-read_amount a h)

  Reads-skip_issue_value :
      (i : Issue) → IsIssue i → Reads (skip_by_type walk type_issue) (encode_issue i) tt
  unfolding skip_by_type fixed_width
  Reads-skip_issue_value i h = Reads-skip_issue i h

  Reads-skip_account :
      (a : Option AccountId)
      → IsAccount a
      → Reads (skip_by_type walk type_account) (encode_account a) tt
  unfolding skip_by_type fixed_width encode_account IsAccount
  Reads-skip_account none h = Reads-skip_blob [] (omega arith)
  Reads-skip_account (some a) h = Reads-skip_blob a (omega arith)

  Reads-skip_vl :
      (bs : List ℕ) → length bs ≤ 995520 → Reads (skip_by_type walk type_vl) (write_vl bs) tt
  unfolding skip_by_type fixed_width
  Reads-skip_vl bs h = Reads-skip_blob bs h

  Reads-skip_vector256 :
      (bs : List ℕ) → length bs ≤ 995520 → Reads (skip_by_type walk type_vector256) (write_vl bs) tt
  unfolding skip_by_type fixed_width
  Reads-skip_vector256 bs h = Reads-skip_blob bs h

-- The two types of containers.
pub data IsContainer : ℕ → Type 0 where
  of_object : IsContainer type_object
  of_array : IsContainer type_array

walk_container :
    (walk : ℕ → Parser MetaError (Unit {0})) (c : ℕ) → IsContainer c → skip_by_type walk c ≡ walk c
unfolding skip_by_type fixed_width
walk_container walk c of_object = refl
walk_container walk c of_array = refl

pub Reads-end_marker : (c : ℕ) → IsContainer c → Reads read_field_header (end_marker c) (c, 1)
unfolding read_field_header byte or_next_byte
Reads-end_marker c of_object = record { run = λ rest. refl }
Reads-end_marker c of_array = record { run = λ rest. refl }

pub is_end : (c : ℕ) → IsContainer c → ((c == c) && (1 == 1)) ≡ true
is_end c of_object = refl
is_end c of_array = refl

pub length-field_header : (t f : ℕ) → 0 < length (field_header t f)
unfolding field_header
length-field_header t f = ground arith

mutual
  unfolding encode_value encode_fields IsValue AreFields type_of skip_fields

  Reads-skip_by_type :
      (v : Value)
      → IsValue v
      → (n : ℕ) → length (encode_value v) ≤ n
      → Reads (skip_by_type (skip_fields n) (type_of v)) (encode_value v) tt
  Reads-skip_by_type (fixed t bs) h n k = Reads-skip_fixed (skip_fields n) t bs h
  Reads-skip_by_type (amount a) h n k = Reads-skip_amount (skip_fields n) a h
  Reads-skip_by_type (account a) h n k = Reads-skip_account (skip_fields n) a h
  Reads-skip_by_type (blob bs) h n k = Reads-skip_vl (skip_fields n) bs h
  Reads-skip_by_type (vector256 bs) h n k = Reads-skip_vector256 (skip_fields n) bs h
  Reads-skip_by_type (issue i) h n k = Reads-skip_issue_value (skip_fields n) i h
  Reads-skip_by_type (object fs) h n k = rw (walk_container (skip_fields n) type_object of_object) (
      Reads-skip_fields type_object of_object fs h n
        (omega (arith, k, length-append (encode_fields fs) (end_marker type_object))))
  Reads-skip_by_type (array fs) h n k = rw (walk_container (skip_fields n) type_array of_array) (
      Reads-skip_fields type_array of_array fs h n
        (omega (arith, k, length-append (encode_fields fs) (end_marker type_array))))

  Reads-skip_fields :
      (c : ℕ)
      → IsContainer c
      → (fs : Fields) → AreFields c fs
      → (n : ℕ) → length (encode_fields fs) < n
      → Reads (skip_fields n c) (encode_fields fs ++ end_marker c) tt
  Reads-skip_fields c hc fs h zero k = absurd (omega arith)
  Reads-skip_fields c hc end h (suc n) k =
      Reads-last _ tt (Reads-end_marker c hc) (rw (is_end c hc) (Reads-pure tt))
  Reads-skip_fields c hc (field f v fs) h (suc n) k =
      let sizes = length-append (field_header (type_of v) f) (encode_value v ++ encode_fields fs) in
      let sizes' = length-append (encode_value v) (encode_fields fs) in
      let front = length-field_header (type_of v) f in
      let bounds = type_of_bounds v in
      rw
        (
          append_assoc (field_header (type_of v) f) (encode_value v ++ encode_fields fs)
              (end_marker c),
          append_assoc (encode_value v) (encode_fields fs) (end_marker c),
        )
        (Reads-bind _ (Reads-read_field_header (type_of v) f bounds.0 bounds.1 h.0 h.1) (
          rw h.2 (
            Reads-bind _ (Reads-skip_by_type v h.3 n (omega arith))
              (Reads-skip_fields c hc fs h.4 n (omega arith)))))

-- `skip_value` takes the encoding of a value, however deeply it nests, off the front of any bytes,
-- if the value's parts have the sizes that the format asks for.
pub Reads-skip_value : (v : Value) → IsValue v → Reads (skip_value (type_of v)) (encode_value v) tt
unfolding skip_value
Reads-skip_value v h = record {
  run = λ rest.
      (Reads-skip_by_type v h (suc (length (encode_value v ++ rest)))
          (omega (arith, length-append (encode_value v) rest))).run
        rest;
}
