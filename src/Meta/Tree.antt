-- ===== src/Meta/Tree.antt =====
-- What the wire format of crates/xrla-common/src/meta_decode.rs stands for: objects as trees of
-- fields, and the bytes of a tree. The headers are those of `hdr` in the module's tests.
use xrpl_ledger_archive.Meta.{
  AccountId, type_uint8, type_amount, no_account, type_object, is_issued_currency, type_uint16,
  type_account, type_array, is_mpt, type_uint32, type_vl, type_int32, type_vector256, type_uint64,
  type_issue, type_int64, type_number, type_uint96, type_uint128, type_uint160, type_currency,
  type_uint192, type_uint256, type_uint384, type_uint512,
}
use xrpl_ledger_archive.TxTree.{write_vl}
use xrpl_ledger_archive.Prelude.{
  ℕ, ◌+◌, ◌*◌, ◌≤◌, ◌<◌, ◌≡◌, ◌≢◌, true, false, Option, none, some, List, [], ◌∷◌, ◌++◌, ltb,
  if◌then◌else◌, length, replicate, ◌==◌, ◌&&◌,
}

-- The types of a fixed size.
pub data FixedType : Type 0 where
  uint8 uint16 uint32 int32 uint64 int64 number uint96 : FixedType
  uint128 uint160 currency uint192 uint256 uint384 uint512 : FixedType

unfoldable pub width_of : FixedType → ℕ
width_of uint8 = 1
width_of uint16 = 2
width_of uint32 = 4
width_of int32 = 4
width_of uint64 = 8
width_of int64 = 8
width_of number = 12
width_of uint96 = 12
width_of uint128 = 16
width_of uint160 = 20
width_of currency = 20
width_of uint192 = 24
width_of uint256 = 32
width_of uint384 = 48
width_of uint512 = 64

unfoldable pub code_of : FixedType → ℕ
code_of uint8 = type_uint8
code_of uint16 = type_uint16
code_of uint32 = type_uint32
code_of int32 = type_int32
code_of uint64 = type_uint64
code_of int64 = type_int64
code_of number = type_number
code_of uint96 = type_uint96
code_of uint128 = type_uint128
code_of uint160 = type_uint160
code_of currency = type_currency
code_of uint192 = type_uint192
code_of uint256 = type_uint256
code_of uint384 = type_uint384
code_of uint512 = type_uint512

-- The first byte of an amount, with its flags, stands apart from the other seven.
pub data Amount : Type 0 where
  native : ℕ → List ℕ → Amount
  issued : ℕ → List ℕ → List ℕ → AccountId → Amount
  mpt : ℕ → List ℕ → ℕ → List ℕ → AccountId → Amount

pub data Issue : Type 0 where
  xrp : Issue
  token : List ℕ → AccountId → Issue
  mpt_issue : List ℕ → List ℕ → Issue

-- An account is empty or has 20 bytes.
mutual
  pub data Value : Type 0 where
    fixed : FixedType → List ℕ → Value
    amount : Amount → Value
    account : Option AccountId → Value
    blob : List ℕ → Value
    vector256 : List ℕ → Value
    issue : Issue → Value
    object : Fields → Value
    array : Fields → Value

  pub data Fields : Type 0 where
    end : Fields
    field : ℕ → Value → Fields → Fields

unfoldable pub type_of : Value → ℕ
unfolding code_of
type_of (fixed t bs) = code_of t
type_of (amount a) = type_amount
type_of (account a) = type_account
type_of (blob bs) = type_vl
type_of (vector256 bs) = type_vector256
type_of (issue i) = type_issue
type_of (object fs) = type_object
type_of (array fs) = type_array

unfoldable pub encode_amount : Amount → List ℕ
encode_amount (native b value) = b ∷ value
encode_amount (issued b value code issuer) = (b ∷ value) ++ (code ++ issuer)
encode_amount (mpt b value extra sequence issuer) =
    (b ∷ value) ++ ((extra ∷ []) ++ (sequence ++ issuer))

unfoldable pub encode_issue : Issue → List ℕ
encode_issue xrp = replicate 20 0
encode_issue (token code issuer) = code ++ issuer
encode_issue (mpt_issue first sequence) = first ++ (no_account ++ sequence)

unfoldable pub encode_account : Option AccountId → List ℕ
encode_account none = write_vl []
encode_account (some a) = write_vl a

unfoldable pub field_header : ℕ → ℕ → List ℕ
field_header t f =
    if ltb t 16
    then if ltb f 16 then (t * 16 + f) ∷ [] else (t * 16) ∷ f ∷ []
    else if ltb f 16
    then f ∷ t ∷ []
    else 0 ∷ t ∷ f ∷ []

-- Field 1 of the type of a container ends it.
abbrev pub end_marker : ℕ → List ℕ
end_marker container = (container * 16 + 1) ∷ []

unfoldable mutual
  pub encode_value : Value → List ℕ
  encode_value (fixed t bs) = bs
  encode_value (amount a) = encode_amount a
  encode_value (account a) = encode_account a
  encode_value (blob bs) = write_vl bs
  encode_value (vector256 bs) = write_vl bs
  encode_value (issue i) = encode_issue i
  encode_value (object fs) = encode_fields fs ++ end_marker type_object
  encode_value (array fs) = encode_fields fs ++ end_marker type_array

  pub encode_fields : Fields → List ℕ
  encode_fields end = []
  encode_fields (field f v fs) = field_header (type_of v) f ++ (encode_value v ++ encode_fields fs)

-- What the format asks of the parts.
unfoldable pub IsAmount : Amount → Type 0
IsAmount (native b value) = (is_issued_currency b ≡ false) × (is_mpt b ≡ false) × (length value ≡ 7)
IsAmount (issued b value code issuer) =
    (is_issued_currency b ≡ true) × (length value ≡ 7) × (length code ≡ 20) × (length issuer ≡ 20)
IsAmount (mpt b value extra sequence issuer) =
    (is_issued_currency b ≡ false)
    × (is_mpt b ≡ true)
    × (length value ≡ 7)
    × (length sequence ≡ 4)
    × (length issuer ≡ 20)

unfoldable pub IsIssue : Issue → Type 0
IsIssue xrp = Unit
IsIssue (token code issuer) =
    (length code ≡ 20) × (code ≢ replicate 20 0) × (length issuer ≡ 20) × (issuer ≢ no_account)
IsIssue (mpt_issue first sequence) =
    (length first ≡ 20) × (first ≢ replicate 20 0) × (length sequence ≡ 4)

unfoldable pub IsAccount : Option AccountId → Type 0
IsAccount none = Unit
IsAccount (some a) = length a ≡ 20

-- A prefix of three bytes stands for lengths up to 995520.
unfoldable mutual
  pub IsValue : Value → Type 0
  IsValue (fixed t bs) = length bs ≡ width_of t
  IsValue (amount a) = IsAmount a
  IsValue (account a) = IsAccount a
  IsValue (blob bs) = length bs ≤ 995520
  IsValue (vector256 bs) = length bs ≤ 995520
  IsValue (issue i) = IsIssue i
  IsValue (object fs) = AreFields type_object fs
  IsValue (array fs) = AreFields type_array fs

  -- The fields inside a container of that type: no field is its end marker.
  pub AreFields : ℕ → Fields → Type 0
  AreFields container end = Unit
  AreFields container (field f v fs) =
      (0 < f)
      × (f < 256)
      × (((type_of v == container) && (f == 1)) ≡ false)
      × IsValue v
      × AreFields container fs
