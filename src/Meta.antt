-- ===== src/Meta.antt =====
-- crates/xrla-common/src/meta_decode.rs: the constants of the wire format, and the readers of single
-- values. `Cursor` is the list of the bytes that are still to be read; a function that takes
-- `&mut Cursor` is a parser. The children model the skipping of values (`Skip`), the summary of
-- metadata (`Summary`), the fields of a transaction (`TxFields`) and addresses (`Address`).
pub mod Skip
pub mod Summary
pub mod TxFields
pub mod Tree
pub mod Reads
pub mod Skipped
pub mod AccountSet
pub mod Rule
pub mod Collected
pub mod NodesCollected
pub mod TopFields
pub mod Summarized
pub mod Settles
pub mod Ends
pub mod SummaryEnds
pub mod TxBytes
pub mod Sender
pub mod SenderEnds
pub mod Address
pub mod Digits
pub mod Chars
pub mod AddressBack
pub mod Examples
use xrpl_ledger_archive.Prelude.{
  ℕ, zero, suc, ◌+◌, ◌-◌, ◌*◌, ◌/◌, ◌%◌, Bool, not, ◌&&◌, Option, none, some, List, [], ◌∷◌, ◌++◌,
  ◌==◌, leb, if◌then◌else◌, list_eq, length, replicate, take, drop,
}
use xrpl_ledger_archive.Prelude.Parser.{
  Result, ok, err, Parser, ◌>>=◌, ◌>>◌, pure, fail, take_exact,
}

-- SerializedTypeID.
abbrev pub type_uint16 : ℕ
type_uint16 = 1

abbrev pub type_uint32 : ℕ
type_uint32 = 2

abbrev pub type_uint64 : ℕ
type_uint64 = 3

abbrev pub type_uint128 : ℕ
type_uint128 = 4

abbrev pub type_uint256 : ℕ
type_uint256 = 5

abbrev pub type_amount : ℕ
type_amount = 6

abbrev pub type_vl : ℕ
type_vl = 7

abbrev pub type_account : ℕ
type_account = 8

abbrev pub type_number : ℕ
type_number = 9

abbrev pub type_int32 : ℕ
type_int32 = 10

abbrev pub type_int64 : ℕ
type_int64 = 11

abbrev pub type_object : ℕ
type_object = 14

abbrev pub type_array : ℕ
type_array = 15

abbrev pub type_uint8 : ℕ
type_uint8 = 16

abbrev pub type_uint160 : ℕ
type_uint160 = 17

abbrev pub type_vector256 : ℕ
type_vector256 = 19

abbrev pub type_uint96 : ℕ
type_uint96 = 20

abbrev pub type_uint192 : ℕ
type_uint192 = 21

abbrev pub type_uint384 : ℕ
type_uint384 = 22

abbrev pub type_uint512 : ℕ
type_uint512 = 23

abbrev pub type_issue : ℕ
type_issue = 24

abbrev pub type_currency : ℕ
type_currency = 26

abbrev pub f_affected_nodes : ℕ
f_affected_nodes = 8

abbrev pub f_created_node : ℕ
f_created_node = 3

abbrev pub f_final_fields : ℕ
f_final_fields = 7

abbrev pub f_new_fields : ℕ
f_new_fields = 8

abbrev pub f_taker_pays : ℕ
f_taker_pays = 4

abbrev pub f_taker_gets : ℕ
f_taker_gets = 5

abbrev pub f_low_limit : ℕ
f_low_limit = 6

abbrev pub f_high_limit : ℕ
f_high_limit = 7

abbrev pub f_mpt_issuance_id : ℕ
f_mpt_issuance_id = 1

abbrev pub f_transaction_index : ℕ
f_transaction_index = 28

-- `[u8; 20]`.
abbrev pub AccountId : Type 0
AccountId = List ℕ

abbrev pub no_account : AccountId
no_account = replicate 19 0 ++ 1 ∷ []

-- What `bail!` reports, without its text; `out_of_fuel` is the model's own.
pub data MetaError : Type 0 where
  end_of_buffer no_affected_nodes transaction_ended out_of_fuel : MetaError
  account_length unhandled_type not_an_object past_account : ℕ → MetaError

-- `Cursor::take`, `Cursor::byte` and `Cursor::peek`.
unfoldable pub take_bytes : ℕ → Parser MetaError (List ℕ)
take_bytes n = take_exact end_of_buffer n

unfoldable pub byte : Parser MetaError ℕ
byte [] = err end_of_buffer
byte (b ∷ s) = ok (b, s)

unfoldable pub peek : Parser MetaError ℕ
peek [] = err end_of_buffer
peek (b ∷ s) = ok (b, b ∷ s)

unfoldable pub read_vl_len : Parser MetaError ℕ
read_vl_len = do
  b1 ← byte
  if leb b1 192
      then pure b1
      else if leb b1 240
      then (do b2 ← byte; pure (193 + (b1 - 193) * 256 + b2))
      else (do b2 ← byte; b3 ← byte; pure (12481 + (b1 - 241) * 65536 + b2 * 256 + b3))

-- `if code == 0 { code = self.byte()? }`.
unfoldable pub or_next_byte : ℕ → Parser MetaError ℕ
or_next_byte code = if code == 0 then byte else pure code

unfoldable pub read_field_header : Parser MetaError (ℕ × ℕ)
read_field_header = do
  b1 ← byte
  type_code ← or_next_byte (b1 / 16)
  field_code ← or_next_byte (b1 % 16)
  pure (type_code, field_code)

-- `nonzero` of 20 bytes.
unfoldable pub nonzero : List ℕ → Option AccountId
nonzero b =
    if not (length b == 20) then none else if list_eq b (replicate 20 0) then none else some b

unfoldable pub read_account : Parser MetaError (Option AccountId)
read_account = do
  n ← read_vl_len
  if n == 0
      then pure none
      else if n == 20
      then (do a ← take_bytes 20; pure (some a))
      else fail (account_length n)

-- `b & 0x80 != 0` and `b & 0x20 != 0`.
abbrev pub is_issued_currency : ℕ → Bool
is_issued_currency b = (b / 128) % 2 == 1

abbrev pub is_mpt : ℕ → Bool
is_mpt b = (b / 32) % 2 == 1

-- `nonzero(&id[4..24])`.
unfoldable pub mpt_issuer : List ℕ → Option AccountId
mpt_issuer id = nonzero (drop 4 id)

unfoldable pub read_amount : Parser MetaError (Option AccountId)
read_amount = do
  first ← peek
  if is_issued_currency first
      then (do take_bytes 8; take_bytes 20; issuer ← take_bytes 20; pure (nonzero issuer))
      else if is_mpt first
      then (do take_bytes 8; take_bytes 1; id ← take_bytes 24; pure (mpt_issuer id))
      else (do take_bytes 8; pure none)

unfoldable pub skip_issue : Parser MetaError (Unit {0})
skip_issue = do
  first ← take_bytes 20
  if list_eq first (replicate 20 0) then pure tt else do
    second ← take_bytes 20
    if list_eq second no_account then (do take_bytes 4; pure tt) else pure tt
